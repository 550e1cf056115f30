-- ===== src/Domain.antt =====
-- internal/domain/domain.go: the records and states that the components share. A Go string type
-- with constants is a data type; `SettlementMode`, which a request supplies, keeps every other
-- string too. Times are nanoseconds. Amounts are those of internal/money; the event detail, which
-- nothing reads back, is left out.
use vtessera.Common.{
  ℕ, Bool, true, false, not, ◌&&◌, ◌||◌, Option, none, some, List, [], ◌∷◌, ltb, ◌==◌,
  if◌then◌else◌, is_empty, length, String, str_eq, Result, ok, err, ◌>>◌, reject_if,
}
use Prim.Native.String.{len}
use Prim.Native.Char.{code}
use vtessera.Money.{Amount, is_zero}
use vtessera.Cluster.{Cluster}

pub data SettlementMode : Type 0 where
  offchain onchain : SettlementMode
  other : String → SettlementMode

pub data AgentStatus : Type 0 where
  active suspended retired : AgentStatus

pub data OfferDirection : Type 0 where
  ask bid : OfferDirection

pub data OfferStatus : Type 0 where
  offer_open offer_closed : OfferStatus

pub data TradeState : Type 0 where
  proposed negotiating accepted settlement_pending recorded settled disputed resolved cancelled :
      TradeState

pub data TradeEventType : Type 0 where
  proposed negotiating accepted settlement_pending recorded settled cancelled disputed resolved
        expired :
      TradeEventType

pub data Resolution : Type 0 where
  released upheld : Resolution
  unknown : String → Resolution

pub data SettlementStatus : Type 0 where
  issued confirmed expired : SettlementStatus

abbrev pub mode_valid : SettlementMode → Bool
mode_valid offchain = true
mode_valid onchain = true
mode_valid (other s) = false

-- `==` on modes.
abbrev pub mode_eq : SettlementMode → SettlementMode → Bool
mode_eq offchain offchain = true
mode_eq onchain onchain = true
mode_eq (other s) (other t) = str_eq s t
mode_eq _ _ = false

abbrev pub is_active : AgentStatus → Bool
is_active active = true
is_active _ = false

abbrev pub is_bid : OfferDirection → Bool
is_bid bid = true
is_bid ask = false

abbrev pub is_open : OfferStatus → Bool
is_open offer_open = true
is_open offer_closed = false

abbrev pub resolution_valid : Resolution → Bool
resolution_valid released = true
resolution_valid upheld = true
resolution_valid (unknown s) = false

-- The place of a state in the declaration, by which `==` on states is decided.
abbrev pub state_rank : TradeState → ℕ
state_rank TradeState.proposed = 0
state_rank TradeState.negotiating = 1
state_rank TradeState.accepted = 2
state_rank TradeState.settlement_pending = 3
state_rank TradeState.recorded = 4
state_rank TradeState.settled = 5
state_rank TradeState.disputed = 6
state_rank TradeState.resolved = 7
state_rank TradeState.cancelled = 8

unfoldable pub state_eq : TradeState → TradeState → Bool
state_eq s t = state_rank s == state_rank t

-- `TradeState.Terminal`
unfoldable pub terminal : TradeState → Bool
terminal TradeState.recorded = true
terminal TradeState.settled = true
terminal TradeState.disputed = true
terminal TradeState.resolved = true
terminal TradeState.cancelled = true
terminal _ = false

-- An operator's withdrawal of a listing, and its reversal if there was one.
pub record Retirement : Type 0 where
  pub reason : String
  pub actor : String
  pub retired_at : ℕ
  pub restored_at : Option ℕ
  pub restored_by : Option String

pub record Agent : Type 0 where
  pub id : String
  pub status : AgentStatus
  pub updated_at : ℕ

pub record Offer : Type 0 where
  pub id : String
  pub agent_id : String
  pub direction : OfferDirection
  pub description : String
  pub capabilities : List String
  pub price_amount : Amount
  pub price_mint : String
  pub settlement_modes : List SettlementMode
  pub status : OfferStatus
  pub updated_at : ℕ

-- `slices.Contains` over the modes.
unfoldable pub contains_mode : List SettlementMode → SettlementMode → Bool
contains_mode [] m = false
contains_mode (x ∷ xs) m = mode_eq x m || contains_mode xs m

-- `Offer.AcceptsMode`
unfoldable pub accepts_mode : Offer → SettlementMode → Bool
unfolding contains_mode
accepts_mode o m = contains_mode o.settlement_modes m

pub record Trade : Type 0 where
  pub id : String
  pub offer_id : String
  pub buyer_agent_id : String
  pub seller_agent_id : String
  pub description : String
  pub amount : Amount
  pub mint : String
  pub settlement_mode : SettlementMode
  pub state : TradeState
  pub idempotency_key : String
  pub created_at : ℕ
  pub updated_at : ℕ
  pub acceptances : List String

-- `Trade.Party`
unfoldable pub party : Trade → String → Bool
party t agent_id = str_eq agent_id t.buyer_agent_id || str_eq agent_id t.seller_agent_id

-- `from_state` is `none` for the empty string, which the first event of a trade carries.
pub record TradeEvent : Type 0 where
  pub trade_id : String
  pub actor_agent_id : String
  pub event_type : TradeEventType
  pub from_state : Option TradeState
  pub to_state : TradeState
  pub created_at : ℕ

-- Every reading of an agent's caps is by the amounts that it opted in to.
pub record AgentLimits : Type 0 where
  pub agent_id : String
  pub per_trade_usd : Amount
  pub per_day_usd : Amount
  pub raised_at : ℕ

pub record SpendRow : Type 0 where
  pub mint : String
  pub amount : Amount

pub record Receipt : Type 0 where
  pub id : String
  pub trade_id : String
  pub jws : String
  pub issued_at : ℕ

abbrev pub is_issued : SettlementStatus → Bool
is_issued SettlementStatus.issued = true
is_issued _ = false

-- A request whose cluster is `none` predates the column. A signature that is not known is empty.
pub record SettlementRequest : Type 0 where
  pub id : String
  pub trade_id : String
  pub unsigned_tx : String
  pub blockhash : String
  pub last_valid : ℕ
  pub buyer_ata : String
  pub seller_ata : String
  pub created_ata : Bool
  pub fee_lamports : ℕ
  pub fee_wallet : String
  pub status : SettlementStatus
  pub signature : String
  pub cluster : Option Cluster
  pub created_at : ℕ
  pub updated_at : ℕ
  pub expires_at : ℕ

-- `SettlementRequest.Live`
unfoldable pub live : SettlementRequest → ℕ → Bool
live r now = is_issued r.status && ltb now r.expires_at

-- What `Validate` finds wrong, each wrapped in `ErrInvalid` by the code.
pub data Invalid : Type 0 where
  description_required description_too_long price_not_positive mint_required mint_not_base58
        mint_not_32_bytes no_settlement_mode mode_not_valid too_many_capabilities :
      Invalid

-- `unicode.IsSpace`
abbrev pub is_space : ℕ → Bool
is_space c =
    c == 9
    || c == 10
    || c == 11
    || c == 12
    || c == 13
    || c == 32
    || c == 0x85
    || c == 0xa0
    || c == 0x1680
    || (ltb 0x1fff c && ltb c 0x200b)
    || c == 0x2028
    || c == 0x2029
    || c == 0x202f
    || c == 0x205f
    || c == 0x3000

-- `strings.TrimSpace`
abbrev trim_left : String → String
trim_left String.[] = ""
trim_left (String.◌∷◌ c s) = if is_space (code c) then trim_left s else String.◌∷◌ c s

abbrev trim_right : String → String
trim_right String.[] = ""
trim_right (String.◌∷◌ c s) =
    let rest = trim_right s in if is_space (code c) && str_eq rest "" then "" else String.◌∷◌ c rest

unfoldable pub trim_space : String → String
trim_space s = trim_left (trim_right s)

-- `strings.TrimSpace(s) == ""`
unfoldable pub is_blank : String → Bool
is_blank String.[] = true
is_blank (String.◌∷◌ c s) = is_space (code c) && is_blank s

-- Parameter: `base58.Decode`, the number of bytes that it decodes, or an error.
module _ (base58_decode : String → Option ℕ) where
  unfoldable pub validate_mint : String → Result Invalid (Unit {0})
  validate_mint address = do
    reject_if (str_eq address "") mint_required
    elim (base58_decode address) [
      | none ↦ err mint_not_base58
      | some n ↦ reject_if (not (n == 32)) mint_not_32_bytes
    ]

  unfoldable pub validate_modes : List SettlementMode → Result Invalid (Unit {0})
  validate_modes [] = ok tt
  validate_modes (m ∷ ms) =
      let rest = validate_modes ms in if mode_valid m then rest else err mode_not_valid

  -- `Offer.validate`; the tests of the direction and the status hold for every value here.
  unfoldable pub validate_offer : Offer → Result Invalid (Unit {0})
  unfolding validate_mint validate_modes
  validate_offer o = do
    reject_if (is_blank o.description) description_required
    reject_if (ltb 4000 (len o.description)) description_too_long
    reject_if (is_zero o.price_amount) price_not_positive
    validate_mint o.price_mint
    reject_if (is_empty o.settlement_modes) no_settlement_mode
    validate_modes o.settlement_modes
    reject_if (ltb 64 (length o.capabilities)) too_many_capabilities
