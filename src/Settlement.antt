-- ===== src/Settlement.antt =====
-- internal/settlement/terms.go, canonical.go and verify.go: the terms that two agents agreed to, and
-- the proof from a transaction that it settles them. Keys and data are bytes. The indices of a
-- message are those of its 8- and 16-bit fields, the counts of its header are read as `int`.
pub mod Exact
pub mod Sample
mod Tests
use vtessera.Common.{
  ℕ, zero, suc, ◌-◌, ℤ, pos, negsuc, ◌%◌, ◌++◌, length, Bool, true, false, not, ◌&&◌, ◌||◌, Option,
  none, some, List, [], ◌∷◌, ltb, ◌==◌, if◌then◌else◌, String, Result, ok, err, ◌>>=◌, ◌>>◌,
  reject_if, map_err,
}
use vtessera.Bytes.{Bytes, utf8}
use vtessera.Money.{Amount, MoneyError, is_zero, base_units}
use vtessera.Fees.{FeePolicy}
use vtessera.Domain.{Trade, TradeState, SettlementMode, onchain, mode_eq, state_eq, trim_space}
use vtessera.Tokens.{Registry, TokenError, enabled}

pub data TermsError : Type 0 where
  not_settleable bad_mint_key bad_party_key : TermsError
  token : TokenError → TermsError
  amount : MoneyError → TermsError

pub record Terms : Type 0 where
  pub trade_id : String
  pub amount : ℕ
  pub decimals : ℤ
  pub mint : Bytes
  pub buyer : Bytes
  pub seller : Bytes
  pub fee : FeePolicy

abbrev pub of_option : {E A : Type 0} → E → Option A → Result E A
of_option e none = err e
of_option e (some a) = ok a

-- Parameter: `solana.PublicKeyFromBase58`, `none` for an error.
module _ (public_key : String → Option Bytes) where
  unfoldable pub party_key : String → Result TermsError Bytes
  party_key agent_id = of_option bad_party_key (public_key (trim_space agent_id))

  unfoldable pub new_terms : Trade → Registry → FeePolicy → Result TermsError Terms
  unfolding party_key
  new_terms tr registry policy = do
    reject_if
        (not (state_eq tr.state TradeState.accepted)
          && not (state_eq tr.state TradeState.settlement_pending))
        not_settleable
    reject_if (not (mode_eq tr.settlement_mode onchain)) not_settleable
    reject_if (is_zero tr.amount) not_settleable
    entry ← map_err token (enabled registry tr.mint)
    mint ← of_option bad_mint_key (public_key tr.mint)
    buyer ← party_key tr.buyer_agent_id
    seller ← party_key tr.seller_agent_id
    units ← map_err amount (base_units tr.amount entry.decimals)
    reject_if (units == 0) not_settleable
    ok (record {
      trade_id = tr.id;
      amount = units;
      decimals = entry.decimals;
      mint = mint;
      buyer = buyer;
      seller = seller;
      fee = policy;
    })

-- A compiled instruction of a message, by indices into the keys.
pub record CompiledInstruction : Type 0 where
  pub program_id_index : ℕ
  pub accounts : List ℕ
  pub data_bytes : Bytes

pub record Message : Type 0 where
  pub is_legacy : Bool
  pub num_required_signatures : ℕ
  pub num_readonly_signed : ℕ
  pub num_readonly_unsigned : ℕ
  pub account_keys : List Bytes
  pub instructions : List CompiledInstruction

-- A transaction, with what the library's `VerifySignatures` says of it.
pub record Transaction : Type 0 where
  pub message : Message
  pub signatures_valid : Bool

pub record Account : Type 0 where
  pub key : Bytes
  pub signer : Bool
  pub writable : Bool

pub record Instruction : Type 0 where
  pub program : Bytes
  pub accounts : List Account
  pub data_bytes : Bytes

unfoldable pub bytes_eq : Bytes → Bytes → Bool
bytes_eq [] [] = true
bytes_eq (x ∷ xs) (y ∷ ys) = (x == y) && bytes_eq xs ys
bytes_eq _ _ = false

abbrev pub bool_eq : Bool → Bool → Bool
bool_eq true b = b
bool_eq false b = not b

abbrev pub account_eq : Account → Account → Bool
account_eq a b =
    bytes_eq a.key b.key && (bool_eq a.signer b.signer && bool_eq a.writable b.writable)

unfoldable pub accounts_eq : List Account → List Account → Bool
accounts_eq [] [] = true
accounts_eq (a ∷ l) (b ∷ r) = account_eq a b && accounts_eq l r
accounts_eq _ _ = false

-- `instruction.equals`
unfoldable pub instruction_eq : Instruction → Instruction → Bool
unfolding bytes_eq accounts_eq
instruction_eq i j =
    bytes_eq i.program j.program
    && (bytes_eq i.data_bytes j.data_bytes && accounts_eq i.accounts j.accounts)

unfoldable pub same_instructions : List Instruction → List Instruction → Bool
unfolding instruction_eq
same_instructions [] [] = true
same_instructions (i ∷ l) (j ∷ r) = instruction_eq i j && same_instructions l r
same_instructions _ _ = false

unfoldable pub nth : {A : Type 0} → List A → ℕ → Option A
nth [] n = none
nth (x ∷ xs) zero = some x
nth (x ∷ xs) (suc n) = nth xs n

-- The zero account of an index that is out of range.
abbrev no_account : Account
no_account = record { key = []; signer = false; writable = false }

unfoldable pub resolve : Message → ℕ → Account
unfolding nth
resolve m index = elim (nth m.account_keys index) [
  | none ↦ no_account
  | some key ↦
      let signer = ltb index m.num_required_signatures in
      record {
        key = key;
        signer = signer;
        writable =
            if signer
            then ltb index (m.num_required_signatures - m.num_readonly_signed)
            else ltb index (length m.account_keys - m.num_readonly_unsigned);
      }
]

unfoldable pub resolve_all : Message → List ℕ → List Account
unfolding resolve
resolve_all m [] = []
resolve_all m (index ∷ rest) = resolve m index ∷ resolve_all m rest

unfoldable pub compile_from : Message → List CompiledInstruction → Option (List Instruction)
unfolding resolve_all
compile_from m [] = some []
compile_from m (ix ∷ rest) = elim (nth m.account_keys ix.program_id_index) [
  | none ↦ none
  | some program ↦ elim (compile_from m rest) [
    | none ↦ none
    | some out ↦ some (
        record {
          program = program;
          accounts = resolve_all m ix.accounts;
          data_bytes = ix.data_bytes;
        }
        ∷ out)
  ]
]

-- `compile`, `none` for an error.
unfoldable pub compile : Message → Option (List Instruction)
unfolding compile_from
compile m = if not m.is_legacy then none else compile_from m m.instructions

pub data VerifyError : Type 0 where
  mismatch underivable : VerifyError

-- The checks of the payer, in the order of the code.
unfoldable pub check_payer : Terms → Transaction → Result VerifyError (Unit {0})
unfolding bytes_eq
check_payer t tx = elim tx.message.account_keys [
  | [] ↦ err mismatch
  | key ∷ keys ↦ do
    reject_if (not (bytes_eq key t.buyer)) mismatch
    reject_if (not (tx.message.num_required_signatures == 1)) mismatch
    reject_if (not tx.signatures_valid) mismatch
]

-- What the Solana library does: the address of the account that a wallet has for a mint under the
-- token program, the builders of four instructions in the order of their arguments, and the message
-- that `NewTransaction` assembles of instructions for a payer (`none` is an error).
pub record Solana : Type 0 where
  pub find_ata : Bytes → Bytes → Option Bytes
  pub transfer_checked : ℕ → ℕ → Bytes → Bytes → Bytes → Bytes → Instruction
  pub memo_instruction : Bytes → Bytes → Instruction
  pub system_transfer : ℕ → Bytes → Bytes → Instruction
  pub create_account : Bytes → Bytes → Bytes → Instruction
  pub new_message : List Instruction → Bytes → Option Message

-- `uint8(decimals)`
unfoldable pub uint8 : ℤ → ℕ
uint8 (pos n) = n % 256
uint8 (negsuc n) = 255 - n % 256

-- `Terms.Memo`
unfoldable pub memo : Terms → Bytes
memo t = utf8 t.trade_id

module _ (lib : Solana) where
  -- `Terms.ata`
  unfoldable pub ata : Terms → Bytes → Result VerifyError Bytes
  ata t wallet = of_option underivable (lib.find_ata wallet t.mint)

  -- `transferChecked`
  unfoldable pub transfer_of : Terms → Result VerifyError Instruction
  transfer_of t = do
    buyer_ata ← ata t t.buyer
    seller_ata ← ata t t.seller
    ok (lib.transfer_checked t.amount (uint8 t.decimals) buyer_ata t.mint seller_ata t.buyer)

  unfoldable pub expected_instructions : Terms → Bool → Result VerifyError (List Instruction)
  expected_instructions t exists = do
    transfer ← transfer_of t
    let note = lib.memo_instruction (memo t) t.buyer
    let fee = lib.system_transfer t.fee.lamports t.buyer t.fee.wallet
    let creation = if exists then [] else lib.create_account t.buyer t.seller t.mint ∷ []
    ok (creation ++ (transfer ∷ note ∷ fee ∷ []))

  unfoldable pub expected_canonical : Terms → Bool → Result VerifyError (List Instruction)
  expected_canonical t exists = do
    raw ← expected_instructions t exists
    m ← of_option underivable (lib.new_message raw t.buyer)
    of_option underivable (compile m)

  -- `Verifier.Verify`; no transaction is `none`.
  unfoldable pub verify : Terms → Option Transaction → Result VerifyError (Unit {0})
  verify t none = err mismatch
  verify t (some tx) = do
    check_payer t tx
    actual ← of_option mismatch (compile tx.message)
    without_ata ← expected_canonical t true
    with_ata ← expected_canonical t false
    reject_if (not (same_instructions actual with_ata || same_instructions actual without_ata))
        mismatch
