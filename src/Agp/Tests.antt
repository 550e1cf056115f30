-- ===== src/Agp/Tests.antt =====
-- The routing of internal/agp at a small table: three offers for one capability, the cheapest of
-- which settles in another currency.
use vtessera.Common.{
  ◌≡◌, ◌↔◌, ◌≤◌, refl, Bool, true, false, not, Option, none, some, List, [], ◌∷◌, ◌++◌, all,
  is_empty, length, String, Dict, ok, err, pos, arith,
}
use vtessera.Domain.{Offer, ask, offer_open, offchain}
use vtessera.Money.{Amount}
use vtessera.Money.Digits.{units_at}
use vtessera.Agp.{
  Intent, RouteResult, Table, max_routes, build_table, route, validate_intent, complies,
}
use vtessera.Agp.Entries.{
  CapabilityAnnouncement, RouteEntry, entry_with, route_not_found, policy_violation, invalid_intent,
}
use vtessera.Agp.Text.{Platform, finite, normalize_capability}
use vtessera.Bytes.{utf8}
use vtessera.Agp.Policy.{PolicyValue, scalar, strings, words, check_policy}
use vtessera.Agp.Announced.{announced_for, is_accepted, build_table-iff_accepted}
use vtessera.Agp.Cheapest.{route-cheapest, route-complies}
use vtessera.Agp.Refusal.{route-refuses}
use vtessera.Agp.Sorting.{billionths}
use vtessera.Agp.Offers.{capabilities_for_offer, announcements_for_offer}
use vtessera.Agp.Offers.Unique.{all_differ, capabilities_for_offer-all_differ}

abbrev platform : Platform
platform = record {
  lower = λ c. c;
  folds = λ c d. false;
  parse_float = λ s. some (finite (pos 0));
  format_float = λ f. "0";
  sha256_hex = λ s. s;
}

abbrev announced : String → String → String → CapabilityAnnouncement
announced id price mint = record {
  capability = "sum:numbers";
  version = "1.0";
  cost = finite (pos 0);
  policy = ("currencies", strings (mint ∷ [])) ∷ [];
  cost_amount = price;
  cost_mint = mint;
  squad_path = id;
  offer_id = id;
  agent_id = "seller";
  announced_at = "2026-01-01T00:00:00Z";
}

abbrev dear : CapabilityAnnouncement
dear = announced "dear" "3.5" "usdc"

abbrev cheap : CapabilityAnnouncement
cheap = announced "cheap" "2" "usdc"

abbrev foreign : CapabilityAnnouncement
foreign = announced "foreign" "1" "eurc"

abbrev entry_of : CapabilityAnnouncement → RouteEntry
entry_of a = entry_with platform a (finite (pos 0))

abbrev table : Table
table = record {
  entries = ("sum:numbers", entry_of foreign ∷ entry_of cheap ∷ entry_of dear ∷ []) ∷ [];
  as_of = "2026-01-01T00:00:00Z";
  announcements = dear ∷ cheap ∷ foreign ∷ [];
}

table-built : build_table platform (dear ∷ cheap ∷ foreign ∷ []) ≡ ok table
unfolding build_table vtessera.Agp.add_announced vtessera.Agp.Entries.entry_for
    vtessera.Agp.Entries.validate_announcement vtessera.Domain.trim_space vtessera.Money.parse utf8
    vtessera.Bytes.contains_any vtessera.Bytes.cut vtessera.Agp.Entries.float_cost
    vtessera.Agp.sort_entries vtessera.Agp.latest_announcement vtessera.Common.insert
    vtessera.Agp.entries_at vtessera.Common.lookup vtessera.Agp.Entries.less_cost
    vtessera.Agp.Entries.parsed_cost_of vtessera.Money.cmp vtessera.Agp.Policy.print_scalar
    vtessera.Agp.Policy.sprint vtessera.Agp.Text.float_class vtessera.Agp.Text.float_eq
    vtessera.Agp.Text.float_lt vtessera.Agp.Text.float_value vtessera.Agp.Text.int_lt
    vtessera.Agp.Text.is_nan vtessera.Agp.Text.join normalize_capability vtessera.Agp.Text.split
    vtessera.Agp.Text.to_lower vtessera.Bytes.utf8_char vtessera.Agp.Entries.direction_of
    vtessera.Agp.Entries.no_empty_part vtessera.Agp.Entries.validate_capability
    vtessera.Agp.Entries.validate_cost vtessera.Bytes.compare_bytes vtessera.Bytes.has_prefix
    vtessera.Money.align vtessera.Money.all_digits vtessera.Money.check_fraction
    vtessera.Store.Query.collect vtessera.Store.Query.insert_by vtessera.Store.Query.order_by
table-built = refl

abbrev intent : String → Intent
intent mint = record {
  target_capability = "sum:numbers";
  payload = some [];
  policy_constraints = ("currencies", scalar (words mint)) ∷ [];
}

abbrev result : RouteResult
result = record {
  target_capability = "sum:numbers";
  route = entry_of cheap;
  considered = 3;
  rejected = ("foreign", 1) ∷ [];
  table_fingerprint =
      "sha256:sum:numbers|foreign|1|eurc\nsum:numbers|cheap|2|usdc\nsum:numbers|dear|3.5|usdc";
  table_as_of = "2026-01-01T00:00:00Z";
  task = none;
}

routed : route platform table (intent "usdc") ≡ ok result
unfolding route validate_intent vtessera.Domain.trim_space vtessera.Agp.choose
    vtessera.Agp.entries_at vtessera.Common.lookup vtessera.Agp.choose_compliant
    vtessera.Store.Query.filter_by check_policy vtessera.Agp.count_rejected vtessera.Agp.fingerprint
    vtessera.Common.insert
routed = refl

dear-met : check_policy platform dear.policy (intent "usdc").policy_constraints ≡ ok tt
unfolding check_policy vtessera.Common.lookup
dear-met = refl

route-cheapest_example :
    billionths result.route ≤ units_at 9 (record { value = utf8 dear.cost_amount })
route-cheapest_example =
    route-cheapest platform [] (cheap ∷ foreign ∷ []) dear table (intent "usdc") result table-built
      refl routed refl dear-met

route-complies_example :
    (complies platform (intent "usdc").policy_constraints result.route ≡ true)
    × (normalize_capability platform result.route.announcement.capability
        ≡ normalize_capability platform (intent "usdc").target_capability)
route-complies_example =
    route-complies platform (dear ∷ cheap ∷ foreign ∷ []) table (intent "usdc") result table-built
      routed

valid : validate_intent platform (intent "solc") ≡ ok tt
unfolding validate_intent vtessera.Domain.trim_space
valid = refl

route-refuses_example :
    let candidates =
      announced_for platform
        (normalize_capability platform (intent "solc").target_capability)
        (dear ∷ cheap ∷ foreign ∷ []) in
    ((route platform table (intent "solc") ≡ err route_not_found) ↔ (is_empty candidates ≡ true))
    × ((route platform table (intent "solc") ≡ err policy_violation) ↔ (
        (is_empty candidates ≡ false)
        × (all (λ e. not (complies platform (intent "solc").policy_constraints e)) candidates
            ≡ true)))
route-refuses_example =
    route-refuses platform (dear ∷ cheap ∷ foreign ∷ []) table (intent "solc") table-built valid

none_serves : route platform table (intent "solc") ≡ err policy_violation
unfolding route validate_intent vtessera.Domain.trim_space vtessera.Agp.choose
    vtessera.Agp.entries_at vtessera.Common.lookup vtessera.Agp.choose_compliant
    vtessera.Store.Query.filter_by check_policy
none_serves = refl

build_table-iff_accepted_example :
    ((t : Table) × (build_table platform (dear ∷ cheap ∷ []) ≡ ok t)) ↔ (
      (length (dear ∷ cheap ∷ []) ≤ max_routes)
      × (all (is_accepted platform) (dear ∷ cheap ∷ []) ≡ true))
build_table-iff_accepted_example = build_table-iff_accepted platform (dear ∷ cheap ∷ [])

-- An offer may declare a capability that no table accepts.
abbrev offer : Offer
offer = record {
  id = "o1";
  agent_id = "seller";
  direction = ask;
  description = "adds numbers!";
  capabilities = ":" ∷ "sum up" ∷ "sum up" ∷ [];
  price_amount = record { value = b'2' ∷ [] };
  price_mint = "usdc";
  settlement_modes = offchain ∷ [];
  status = offer_open;
  updated_at = 0;
}

offer-capabilities : capabilities_for_offer platform offer ≡ ":" ∷ "sum-up:adds-numbers" ∷ []
unfolding capabilities_for_offer vtessera.Agp.Offers.add_all_declared
    vtessera.Agp.Offers.add_declared vtessera.Domain.trim_space vtessera.Agp.Text.contains
    vtessera.Agp.Offers.slug vtessera.Agp.Offers.add_capability normalize_capability
    vtessera.Agp.Offers.action_slug vtessera.Agp.Text.join vtessera.Agp.Offers.fields
    vtessera.Agp.Policy.is_one_of
offer-capabilities = refl

offer-unroutable :
    build_table platform
      (announcements_for_offer platform offer "seller" "1.0" none "2026-01-01T00:00:00Z")
    ≡ err invalid_intent
unfolding build_table announcements_for_offer capabilities_for_offer
    vtessera.Agp.Offers.add_all_declared vtessera.Agp.Offers.add_declared vtessera.Domain.trim_space
    vtessera.Agp.Text.contains vtessera.Agp.Offers.slug vtessera.Agp.Offers.add_capability
    normalize_capability vtessera.Agp.Offers.action_slug vtessera.Agp.Text.join
    vtessera.Agp.Offers.fields vtessera.Agp.Policy.is_one_of vtessera.Agp.add_announced
    vtessera.Agp.Entries.entry_for vtessera.Agp.Entries.validate_announcement
    vtessera.Agp.Offers.announcement_of
offer-unroutable = refl

capabilities_for_offer-all_differ_example :
    (is_empty (capabilities_for_offer platform offer) ≡ false)
    × (all_differ (capabilities_for_offer platform offer) ≡ true)
capabilities_for_offer-all_differ_example = capabilities_for_offer-all_differ platform offer
