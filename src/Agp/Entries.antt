-- ===== src/Agp/Entries.antt =====
-- internal/agp/agp.go and announcement.go: announcements, and the entries of a table that are made of
-- them.
use vtessera.Common.{
  Bool, true, false, not, ◌&&◌, Option, none, some, List, [], ◌∷◌, Ordering, ltb, if◌then◌else◌,
  length, String, str_eq, Dict, lookup, Result, ok, err, ◌>>=◌, ◌>>◌, reject_if,
}
use Prim.Native.String.{compare, len, ◌++◌ as ◌+++◌}
use text.Mathlib.Text.{is_lt}
use vtessera.Domain.{trim_space}
use vtessera.Money.{Amount, cmp, parse}
use vtessera.Agp.Text.{Platform, Float64, float_lt, float_eq, normalize_capability, split}
use vtessera.Bytes.{utf8}
use vtessera.Agp.Policy.{PolicyValue, sprint}

pub data AgpError : Type 0 where
  route_not_found policy_violation invalid_intent : AgpError

-- A policy that is nil in Go is empty here, which `EntryFor` makes of it. The number of decimals and
-- the identifier of an announcement, which nothing reads, are left out.
pub record CapabilityAnnouncement : Type 0 where
  pub capability : String
  pub version : String
  pub cost : Float64
  pub policy : Dict PolicyValue
  pub cost_amount : String
  pub cost_mint : String
  pub squad_path : String
  pub offer_id : String
  pub agent_id : String
  pub announced_at : String

-- `parsedCost` with `hasParsedCost` is an option.
pub record RouteEntry : Type 0 where
  pub path : String
  pub cost : Float64
  pub policy : Dict PolicyValue
  pub cost_amount : String
  pub cost_mint : String
  pub offer_id : String
  pub agent_id : String
  pub direction : String
  pub announcement : CapabilityAnnouncement
  pub parsed_cost : Option Amount

unfoldable pub less_cost : RouteEntry → RouteEntry → Bool
unfolding float_lt float_eq
less_cost a b =
    let by_path = is_lt (compare a.path b.path) in
    let by_float = if not (float_eq a.cost b.cost) then float_lt a.cost b.cost else by_path in
    elim a.parsed_cost [
      | none ↦ by_float
      | some x ↦ elim b.parsed_cost [
        | none ↦ by_float
        | some y ↦ elim (cmp x y) [
          | Ordering.lt ↦ true
          | Ordering.eq ↦ by_path
          | Ordering.gt ↦ false
        ]
      ]
    ]

unfoldable pub squad_path : String → String → String
squad_path agent_id offer_id = "Squad_Marketplace/" +++ (agent_id +++ ("/offer/" +++ offer_id))

-- Has no empty segment.
unfoldable pub no_empty_part : List String → Bool
no_empty_part [] = true
no_empty_part (part ∷ rest) = not (str_eq part "") && no_empty_part rest

module _ (env : Platform) where
  unfoldable pub validate_capability : String → Result AgpError (Unit {0})
  unfolding normalize_capability split no_empty_part
  validate_capability capability = do
    let normalized = normalize_capability env capability
    reject_if (str_eq normalized "") invalid_intent
    reject_if (ltb 200 (len capability)) invalid_intent
    let parts = split ":" normalized
    reject_if (ltb (length parts) 2) invalid_intent
    reject_if (not (no_empty_part parts)) invalid_intent

  unfoldable pub validate_cost : CapabilityAnnouncement → Result AgpError (Unit {0})
  validate_cost a = if str_eq a.cost_amount "" then ok tt else elim (parse (utf8 a.cost_amount)) [
    | err e ↦ err invalid_intent
    | ok amount ↦ reject_if (str_eq a.cost_mint "") invalid_intent
  ]

  -- `CapabilityAnnouncement.Validate`
  unfoldable pub validate_announcement : CapabilityAnnouncement → Result AgpError (Unit {0})
  unfolding validate_capability validate_cost
  validate_announcement a = do
    validate_capability a.capability
    reject_if (str_eq (trim_space a.version) "") invalid_intent
    reject_if (str_eq (trim_space a.squad_path) "") invalid_intent
    validate_cost a

  unfoldable pub float_cost : CapabilityAnnouncement → Result AgpError Float64
  float_cost a =
      if str_eq a.cost_amount "" then ok a.cost else elim (env.parse_float a.cost_amount) [
        | none ↦ err invalid_intent
        | some parsed ↦ ok parsed
      ]

  unfoldable pub direction_of : Dict PolicyValue → String
  unfolding sprint
  direction_of policy = elim (lookup "direction" policy) [ none ↦ "" | some v ↦ sprint env v ]

  unfoldable pub parsed_cost_of : CapabilityAnnouncement → Option Amount
  parsed_cost_of a =
      if str_eq a.cost_amount ""
      then none
      else elim (parse (utf8 a.cost_amount)) [ err e ↦ none | ok amount ↦ some amount ]

  abbrev pub entry_with : CapabilityAnnouncement → Float64 → RouteEntry
  entry_with a cost = record {
    path = a.squad_path;
    cost = cost;
    policy = a.policy;
    cost_amount = a.cost_amount;
    cost_mint = a.cost_mint;
    offer_id = a.offer_id;
    agent_id = a.agent_id;
    direction = direction_of a.policy;
    announcement = a;
    parsed_cost = parsed_cost_of a;
  }

  unfoldable pub entry_for : CapabilityAnnouncement → Result AgpError RouteEntry
  entry_for a = do validate_announcement a; cost ← float_cost a; ok (entry_with a cost)
