-- ===== src/Settlement/Exact.antt =====
-- internal/settlement/verify.go: the transactions that the verifier lets through.
use vtessera.Common.{◌≡◌, ◌⊎◌, ◌++◌, if◌then◌else◌, [], Bool, true, some, List, ◌∷◌}
use vtessera.Bytes.{Bytes, utf8}
use vtessera.Settlement.{Terms, Message, Transaction, Instruction, compile, Solana, uint8}

-- The buyer alone pays and signs.
pub record IsPaidBy (t : Terms) (tx : Transaction) : Type 0 where
  pub others : List Bytes
  pub payer : tx.message.account_keys ≡ t.buyer ∷ others
  pub one_signer : tx.message.num_required_signatures ≡ 1
  pub signed : tx.signatures_valid ≡ true

module _ (lib : Solana) where
  -- What the two agreed to, as instructions: the transfer of the amount between their accounts for
  -- the mint, the memo that names the trade, and the fee.
  abbrev pub agreed : Terms → Bytes → Bytes → List Instruction
  agreed t source destination =
      lib.transfer_checked t.amount (uint8 t.decimals) source t.mint destination t.buyer
      ∷ lib.memo_instruction (utf8 t.trade_id) t.buyer
      ∷ lib.system_transfer t.fee.lamports t.buyer t.fee.wallet
      ∷ []

  -- The creation of the account of the seller.
  abbrev pub opening : Terms → Instruction
  opening t = lib.create_account t.buyer t.seller t.mint

  -- Instructions as a transaction has them that the library assembles for the buyer.
  pub record Assembles (t : Terms) (raw out : List Instruction) : Type 0 where
    pub message : Message
    pub assembled : lib.new_message raw t.buyer ≡ some message
    pub compiled : compile message ≡ some out

  -- The instructions of the transaction are, exactly and in order, those that were agreed to, with
  -- or without the creation of the account of the seller in front. Both can be assembled.
  pub record Settles (t : Terms) (tx : Transaction) : Type 0 where
    pub paid : IsPaidBy t tx
    pub source : Bytes
    pub destination : Bytes
    pub from_buyer : lib.find_ata t.buyer t.mint ≡ some source
    pub to_seller : lib.find_ata t.seller t.mint ≡ some destination
    pub plain : List Instruction
    pub opened : List Instruction
    pub assembles : Assembles t (agreed t source destination) plain
    pub assembles_opened : Assembles t (opening t ∷ agreed t source destination) opened
    pub exact : (compile tx.message ≡ some opened) ⊎ (compile tx.message ≡ some plain)

  -- The instructions that the accounts ask for.
  abbrev raw_of : Bool → Terms → Bytes → Bytes → List Instruction
  raw_of exists t source destination =
      (if exists then [] else opening t ∷ []) ++ agreed t source destination
