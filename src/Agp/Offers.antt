-- ===== src/Agp/Offers.antt =====
-- internal/agp/announcement.go: the capabilities of an offer and what is announced for it. The text
-- of a time is an argument.
pub mod Unique
use vtessera.Common.{
  ℕ, ◌&&◌, ◌||◌, Bool, true, false, not, List, [], ◌∷◌, ◌++◌, ltb, ◌==◌, if◌then◌else◌, length,
  is_empty, String, str_eq, Dict, Result, ok, err, Option, none, some, ℤ, pos,
}
use Prim.Native.String.{◌++◌ as ◌+++◌}
use Prim.Native.Char.{Char, code}
use vtessera.Bytes.{Bytes}
use vtessera.Domain.{
  Offer, OfferDirection, ask, bid, SettlementMode, offchain, onchain, other, trim_space,
}
use vtessera.Money.{base_units, string}
use vtessera.Store.Query.{collect}
use vtessera.Agp.Entries.{CapabilityAnnouncement, squad_path}
use vtessera.Agp.Text.{
  Platform, Float64, finite, normalize_capability, contains, is_plain, to_lower, join,
}
use vtessera.Agp.Policy.{PolicyValue, scalar, strings, words, printed, is_one_of}

-- The loop of `slug`: whether the last character is a dash, and whether there is one.
unfoldable pub slug_from : Bool → Bool → String → String
slug_from dash written String.[] = ""
slug_from dash written (String.◌∷◌ c s) =
    let plain = String.◌∷◌ c (slug_from false true s) in
    let dashed = "-" +++ slug_from true true s in
    let skipped = slug_from dash written s in
    if is_plain (code c) then plain else if not dash && written then dashed else skipped

-- `strings.Trim(s, "-")`
unfoldable pub trim_dashes_left : String → String
trim_dashes_left String.[] = ""
trim_dashes_left (String.◌∷◌ c s) =
    let rest = trim_dashes_left s in if code c == 45 then rest else String.◌∷◌ c s

unfoldable pub trim_dashes_right : String → String
trim_dashes_right String.[] = ""
trim_dashes_right (String.◌∷◌ c s) =
    let rest = trim_dashes_right s in
    if code c == 45 && str_eq rest "" then "" else String.◌∷◌ c rest

-- `strings.FieldsFunc`: the runs of a-z and 0-9; the first is the run that is being read.
unfoldable pub runs : String → String × List String
runs String.[] = ("", [])
runs (String.◌∷◌ c s) =
    let (run, later) = runs s in
    let closed = if str_eq run "" then later else run ∷ later in
    if is_plain (code c) then (String.◌∷◌ c run, later) else ("", closed)

unfoldable pub fields : String → List String
unfolding runs
fields s = let (run, later) = runs s in if str_eq run "" then later else run ∷ later

abbrev pub first_four : List String → List String
first_four (a ∷ b ∷ c ∷ d ∷ rest) = a ∷ b ∷ c ∷ d ∷ []
first_four parts = parts

-- The text of an amount, whose bytes are digits and a point.
unfoldable pub amount_text : Bytes → String
amount_text [] = ""
amount_text (b ∷ bs) =
    let rest = amount_text bs in
    if b == b'0'
    then "0" +++ rest
    else if b == b'1'
    then "1" +++ rest
    else if b == b'2'
    then "2" +++ rest
    else if b == b'3'
    then "3" +++ rest
    else if b == b'4'
    then "4" +++ rest
    else if b == b'5'
    then "5" +++ rest
    else if b == b'6'
    then "6" +++ rest
    else if b == b'7'
    then "7" +++ rest
    else if b == b'8'
    then "8" +++ rest
    else if b == b'9'
    then "9" +++ rest
    else "." +++ rest

abbrev pub mode_text : SettlementMode → String
mode_text offchain = "offchain"
mode_text onchain = "onchain"
mode_text (other s) = s

abbrev pub direction_text : OfferDirection → String
direction_text ask = "ask"
direction_text bid = "bid"

-- A mint that is known, with the texts that fmt prints of it and of the cost.
pub record KnownMint : Type 0 where
  pub decimals : ℕ
  pub mint_text : String
  pub cost_text : String

module _ (env : Platform) where
  unfoldable pub slug : String → String
  unfolding slug_from trim_dashes_left trim_dashes_right to_lower
  slug s = trim_dashes_right (trim_dashes_left (slug_from false false (to_lower env s)))

  unfoldable pub action_slug : String → String
  action_slug description =
      let action = slug (join "-" (first_four (fields (to_lower env description)))) in
      if str_eq action "" then "offer" else action

  -- `add` of `CapabilitiesForOffer`; the keys of `seen` are the elements of `out`.
  unfoldable pub add_capability : String → List String → List String
  add_capability capability out =
      let normalized = normalize_capability env capability in
      if str_eq normalized "" || is_one_of out normalized then out else out ++ (normalized ∷ [])

  -- A round of the loop, for a capability that the offer declares.
  unfoldable pub add_declared : String → String → List String → List String
  add_declared description raw out =
      let declared = trim_space raw in
      if str_eq declared ""
      then out
      else if contains ":" declared
      then add_capability declared out
      else if str_eq (slug declared) ""
      then out
      else add_capability (slug declared +++ (":" +++ action_slug description)) out

  unfoldable pub add_all_declared : String → List String → List String → List String
  add_all_declared description [] out = out
  add_all_declared description (raw ∷ rest) out =
      add_all_declared description rest (add_declared description raw out)

  unfoldable pub capabilities_for_offer : Offer → List String
  capabilities_for_offer o =
      let out = add_all_declared o.description o.capabilities [] in
      if is_empty out then add_capability ("general:" +++ action_slug o.description) out else out

  -- `costAsFloat`
  unfoldable pub cost_as_float : String → Float64
  cost_as_float amount = elim (env.parse_float amount) [ none ↦ finite (pos 0) | some f ↦ f ]

  -- What the mint adds to the policy of an offer.
  unfoldable pub mint_policy : Option KnownMint → Offer → Dict PolicyValue
  unfolding base_units
  mint_policy none o = []
  mint_policy (some mint) o = elim (base_units o.price_amount (pos mint.decimals)) [
    | err e ↦ []
    | ok units ↦
        ("mint", scalar (printed mint.mint_text)) ∷ ("cost", scalar (printed mint.cost_text)) ∷ []
  ]

  unfoldable pub offer_policy : Offer → String → Option KnownMint → Dict PolicyValue
  unfolding mint_policy collect
  offer_policy o agent_id mint =
      ("settlement_modes", strings (collect mode_text o.settlement_modes))
      ∷ ("currencies", strings (o.price_mint ∷ []))
      ∷ ("direction", scalar (words (direction_text o.direction)))
      ∷ ("agent", scalar (words agent_id))
      ∷ mint_policy mint o

  unfoldable pub card_version : String → String
  card_version version = if not (str_eq (trim_space version) "") then version else "1.0"

  unfoldable pub announcement_of :
      Offer → String → String → Option KnownMint → String → String → CapabilityAnnouncement
  unfolding offer_policy card_version cost_as_float amount_text squad_path string
  announcement_of o agent_id version mint now capability = record {
    capability = capability;
    version = card_version version;
    cost = cost_as_float (amount_text (string o.price_amount));
    policy = offer_policy o agent_id mint;
    cost_amount = amount_text (string o.price_amount);
    cost_mint = o.price_mint;
    squad_path = squad_path agent_id o.id;
    offer_id = o.id;
    agent_id = agent_id;
    announced_at = now;
  }

  -- `AnnouncementsForOffer`, from the identifier of the agent and the version of its card.
  unfoldable pub announcements_for_offer :
      Offer → String → String → Option KnownMint → String → List CapabilityAnnouncement
  unfolding collect
  announcements_for_offer o agent_id version mint now =
      collect (announcement_of o agent_id version mint now) (capabilities_for_offer o)
