-- ===== src/Settlement/Sample.antt =====
-- The terms of a small trade, and transactions for the verifier of internal/settlement/verify.go.
use vtessera.Common.{ℕ, true, some, List, [], ◌∷◌, ◌++◌, pos}
use vtessera.Bytes.{Bytes}
use vtessera.Fees.{FeePolicy}
use vtessera.Settlement.{Terms, Message, Transaction, CompiledInstruction, Instruction, Solana}

abbrev pub buyer_key : Bytes
buyer_key = 1 ∷ []

abbrev pub seller_key : Bytes
seller_key = 2 ∷ []

abbrev pub token_program : Bytes
token_program = 9 ∷ []

abbrev pub fee_policy : FeePolicy
fee_policy = record { lamports = 1000; wallet = 7 ∷ [] }

abbrev pub small_terms : Terms
small_terms = record {
  trade_id = "trade";
  amount = 100;
  decimals = pos 6;
  mint = 3 ∷ [];
  buyer = buyer_key;
  seller = seller_key;
  fee = fee_policy;
}

-- The keys that every message of the small library has.
abbrev keys : List Bytes
keys = buyer_key ∷ seller_key ∷ token_program ∷ []

-- A builder writes which it is, and its numbers and texts.
abbrev built : Bytes → Instruction
built d = record { program = token_program; accounts = []; data_bytes = d }

abbrev compiled_of : List Instruction → List CompiledInstruction
compiled_of [] = []
compiled_of (i ∷ rest) =
    record { program_id_index = 2; accounts = []; data_bytes = i.data_bytes } ∷ compiled_of rest

abbrev pub message_with : List CompiledInstruction → Message
message_with instructions = record {
  is_legacy = true;
  num_required_signatures = 1;
  num_readonly_signed = 0;
  num_readonly_unsigned = 1;
  account_keys = keys;
  instructions = instructions;
}

abbrev pub small_library : Solana
small_library = record {
  find_ata = λ wallet mint. some (100 ∷ (wallet ++ mint));
  transfer_checked = λ amount decimals source mint destination owner.
      built (1 ∷ amount ∷ decimals ∷ (source ++ (mint ++ (destination ++ owner))));
  memo_instruction = λ text signer. built (2 ∷ (text ++ signer));
  system_transfer = λ lamports from to. built (3 ∷ lamports ∷ (from ++ to));
  create_account = λ payer wallet mint. built (4 ∷ (payer ++ (wallet ++ mint)));
  new_message = λ instructions payer. some (message_with (compiled_of instructions));
}

abbrev data_of : Bytes → CompiledInstruction
data_of d = record { program_id_index = 2; accounts = []; data_bytes = d }

-- The transfer of an amount between the two accounts, and the fee behind a memo.
abbrev pub message_for : ℕ → Bytes → Message
message_for amount text = message_with (
    data_of (1 ∷ amount ∷ 6 ∷ 100 ∷ 1 ∷ 3 ∷ 3 ∷ 100 ∷ 2 ∷ 3 ∷ 1 ∷ [])
    ∷ data_of (2 ∷ (text ++ (1 ∷ [])))
    ∷ data_of (3 ∷ 1000 ∷ 1 ∷ 7 ∷ [])
    ∷ [])

abbrev pub transaction_for : ℕ → Bytes → Transaction
transaction_for amount text = record { message = message_for amount text; signatures_valid = true }

-- "trade"
abbrev pub memo_text : Bytes
memo_text = 116 ∷ 114 ∷ 97 ∷ 100 ∷ 101 ∷ []
