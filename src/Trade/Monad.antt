-- ===== src/Trade/Monad.antt =====
-- The state that a method of the trade service works on, and the errors that it returns. A write
-- stays written when a later step fails, so the state comes back with an error too.
pub mod Runs
use vtessera.Common.{ℕ, Bool, true, false, Option, none, some, List, String, Result, ok, err, ℤ}
use vtessera.Bytes.{Bytes}
use vtessera.Money.{Amount}
use vtessera.Cluster.{Cluster}
use vtessera.Fees.{FeePolicy}
use vtessera.Tokens.{Registry, Token}
use vtessera.Settlement.{Terms, TermsError, Transaction, VerifyError}
use vtessera.Limits.{Policy, LimitsError}
use vtessera.Domain.{Trade, Receipt}
use vtessera.Store.{Db, StoreError}
use vtessera.Trade.LedgerApi.{LedgerError}

-- The sentinels of the package; `store`, `limits` and `ledger` pass on an error of those.
pub data TradeError : Type 0 where
  not_party illegal_state offer_unavailable settlement_unconfigured onchain_unavailable
        mode_not_accepted agent_unavailable no_card_published mint_ungoverned spend_cap_exceeded
        not_expired_yet mint_unpriced settlement_live invalid not_found caps_unconfigured not_buyer
        not_onchain still_pending settlement_failed invalid_signature cluster_mismatch chain_failed
        build_failed interrupted unfinished :
      TradeError
  store : StoreError → TradeError
  limits : LimitsError → TradeError
  ledger : LedgerError → TradeError
  terms : TermsError → TradeError
  verdict : VerifyError → TradeError

-- `ConfirmPolicy`; a duration is the 64 bits of a Go `time.Duration`.
pub record ConfirmPolicy : Type 0 where
  pub attempts : ℕ
  pub backoff : ℕ
  pub max_delay : ℕ

-- What the chain says of a signature: a transaction, and whether its execution failed; that it has
-- none; or nothing, for a request that fails.
pub data Fetched : Type 0 where
  landed : Option Transaction → Bool → Fetched
  absent unreachable : Fetched

-- The request part of a `settlement.Build`.
pub record Built : Type 0 where
  pub unsigned_tx : String
  pub blockhash : String
  pub last_valid : ℕ
  pub buyer_ata : String
  pub seller_ata : String
  pub created_ata : Bool
  pub expires_at : ℕ

-- What a re-check of a mint says.
pub data MintVerdict : Type 0 where
  mint_verified mint_unverified mint_unreachable : MintVerdict

-- `SettlementDeps`, and what the Solana library does with an address, an encoded signature and a
-- key. An interface is what it answers, at a time: `genesis` is `none` without a reader and
-- `some none` for a request that fails, `mints` is `none` where no re-check is wired, `transaction`
-- also takes the number of the attempt, `waits` says whether a wait ran to its end.
pub record SettlementDeps : Type 0 where
  pub registry : Registry
  pub policy : FeePolicy
  pub build : ℕ → Terms → Option Built
  pub verify : Terms → Option Transaction → Result VerifyError (Unit {0})
  pub transaction : ℕ → ℕ → String → Fetched
  pub cluster : Cluster
  pub genesis : Option (Option String)
  pub mints : Option (ℕ → Token → MintVerdict)
  pub has_trade_list : Bool
  pub confirm : ConfirmPolicy
  pub waits : ℕ → ℕ → Bool
  pub public_key : String → Option Bytes
  pub key_text : Bytes → String
  pub signature : String → Option String

-- The configuration of a `Service`; a duration of 0 is one that is not positive. `settlement` is
-- `none` where it is not enabled.
pub record Service : Type 0 where
  pub limits : Option Policy
  pub has_limits_store : Bool
  pub accept_ttl : ℕ
  pub open_ttl : ℕ
  pub settlement : Option SettlementDeps

pub record World (L : Type 0) : Type 0 where
  pub db : Db
  pub ledger : L

abbrev pub M : Type 0 → Type 0 → Type 0
M L A = World L → Result TradeError A × World L

module _ {L : Type 0} where
  unfoldable pub pure : {A : Type 0} → A → M L A
  pure a w = (ok a, w)

  unfoldable pub throw : {A : Type 0} → TradeError → M L A
  throw e w = (err e, w)

  unfoldable pub throw_if : Bool → TradeError → M L (Unit {0})
  throw_if true e w = (err e, w)
  throw_if false e w = (ok tt, w)

  unfoldable pub gets : {A : Type 0} → (Db → A) → M L A
  gets f w = (ok (f w.db), w)

  unfoldable pub or_throw : {A : Type 0} → Option A → TradeError → M L A
  or_throw none e w = (err e, w)
  or_throw (some a) e w = (ok a, w)

  unfoldable pub lift : {A : Type 0} → Result TradeError A → M L A
  lift (ok a) w = (ok a, w)
  lift (err e) w = (err e, w)

  -- A write of the store: the new tables, or its error and the old ones.
  unfoldable pub write : (Db → Result StoreError Db) → M L (Unit {0})
  write f w = elim (f w.db) [ ok db ↦ (ok tt, record w { db = db }) | err e ↦ (err (store e), w) ]

  -- A write that also says whether it changed a row.
  unfoldable pub modify : {A : Type 0} → (Db → A × Db) → M L A
  modify f w = let (a, db) = f w.db in (ok a, record w { db = db })

  infixl 5 ◌>>=◌ ◌>>◌
  abbrev continue : {A B : Type 0} → Result TradeError A → (A → M L B) → M L B
  continue (ok a) f w = f a w
  continue (err e) f w = (err e, w)

  -- Opening this opens the operations above too.
  unfoldable pub ◌>>=◌ : {A B : Type 0} → M L A → (A → M L B) → M L B
  unfolding pure throw throw_if gets or_throw lift write modify
  ◌>>=◌ m f w = let (r, w') = m w in continue r f w'

  abbrev pub ◌>>◌ : {A B : Type 0} → M L A → M L B → M L B
  m >> k = m >>= λ _. k
