-- ===== src/Fees.antt =====
-- internal/fees/fees.go: the fee of a settlement. A wallet is the bytes of its key.
use vtessera.Common.{ℕ, Option, none, some, ◌==◌, if◌then◌else◌, String, Result, ok, err}
use vtessera.Bytes.{Bytes}

pub data FeeError : Type 0 where
  invalid_lamports invalid_wallet : FeeError

pub record FeePolicy : Type 0 where
  pub lamports : ℕ
  pub wallet : Bytes

-- Parameter: `solana.PublicKeyFromBase58`, `none` for an error.
module _ (public_key : String → Option Bytes) where
  unfoldable pub new_fee_policy : ℕ → String → Result FeeError FeePolicy
  new_fee_policy lamports wallet =
      if lamports == 0 then err invalid_lamports else elim (public_key wallet) [
        | none ↦ err invalid_wallet
        | some key ↦ ok (record { lamports = lamports; wallet = key })
      ]
