-- ===== src/Agp.antt =====
-- internal/agp/agp.go and route_task.go: the table of routes and the routing of an intent. The texts,
-- the values of a policy, its checks and the entries of a table are in Agp/Text, Agp/Policy and
-- Agp/Entries.
pub mod Text
pub mod Policy
pub mod Entries
pub mod Announced
pub mod Sorting
pub mod Cheapest
pub mod Refusal
pub mod Offers
mod Tests
use vtessera.Common.{
  ℕ, suc, ◌+◌, Bool, true, false, ◌||◌, Option, none, some, List, [], ◌∷◌, ◌++◌, ltb, if◌then◌else◌,
  length, is_empty, String, str_eq, Dict, lookup, insert, Result, ok, err, ◌>>=◌, ◌>>◌, reject_if,
}
use Prim.Native.String.{compare, ◌++◌ as ◌+++◌}
use text.Mathlib.Text.{is_lt}
use vtessera.Store.Query.{filter_by, order_by, collect}
use vtessera.Agp.Text.{Platform, normalize_capability, join}
use vtessera.Agp.Policy.{PolicyValue, check_policy, sorted_keys}
use vtessera.Agp.Entries.{
  AgpError, CapabilityAnnouncement, RouteEntry, entry_for, invalid_intent, less_cost,
  policy_violation, route_not_found, validate_capability,
}

abbrev pub max_routes : ℕ
max_routes = 128

pub record Intent : Type 0 where
  pub target_capability : String
  pub payload : Option (Dict PolicyValue)
  pub policy_constraints : Dict PolicyValue

-- A message to the selected agent; its identifiers are made by the uuid package.
pub record TaskEnvelope : Type 0 where
  pub id : String
  pub task_id : String
  pub context_id : String
  pub target_capability : String
  pub payload : Option (Dict PolicyValue)

pub record RouteResult : Type 0 where
  pub target_capability : String
  pub route : RouteEntry
  pub considered : ℕ
  pub rejected : Dict ℕ
  pub table_fingerprint : String
  pub table_as_of : String
  pub task : Option TaskEnvelope

pub record Table : Type 0 where
  pub entries : Dict (List RouteEntry)
  pub as_of : String
  pub announcements : List CapabilityAnnouncement

-- A map's value for a key, nil where it has none.
unfoldable pub entries_at : String → Dict (List RouteEntry) → List RouteEntry
entries_at key table = elim (lookup key table) [ none ↦ [] | some entries ↦ entries ]

-- `sort.SliceStable`, as an insertion sort.
unfoldable pub sort_entries : Dict (List RouteEntry) → Dict (List RouteEntry)
unfolding order_by
sort_entries [] = []
sort_entries ((capability, entries) ∷ rest) =
    (capability, order_by less_cost entries) ∷ sort_entries rest

unfoldable pub latest_announcement : String → List CapabilityAnnouncement → String
latest_announcement latest [] = latest
latest_announcement latest (a ∷ rest) =
    latest_announcement (if is_lt (compare latest a.announced_at) then a.announced_at else latest)
      rest

unfoldable pub capabilities : Dict (List RouteEntry) → List String
unfolding sorted_keys
capabilities entries = sorted_keys entries

module _ (env : Platform) where
  -- `Intent.Validate`
  unfoldable pub validate_intent : Intent → Result AgpError (Unit {0})
  unfolding validate_capability
  validate_intent i = do
    validate_capability env i.target_capability
    elim i.payload [ none ↦ err invalid_intent | some payload ↦ ok tt ]

  -- The loop of `BuildTable` over the announcements.
  unfoldable pub add_announced :
      List CapabilityAnnouncement
      → Dict (List RouteEntry)
      → Result AgpError (Dict (List RouteEntry))
  add_announced [] table = ok table
  add_announced (a ∷ rest) table = do
    entry ← entry_for env a
    let capability = normalize_capability env a.capability
    add_announced rest (insert capability (entries_at capability table ++ (entry ∷ [])) table)

  -- `BuildTable`, of what the source announces.
  unfoldable pub build_table : List CapabilityAnnouncement → Result AgpError Table
  build_table announcements = do
    reject_if (ltb max_routes (length announcements)) invalid_intent
    entries ← add_announced announcements []
    ok (record {
      entries = sort_entries entries;
      as_of = latest_announcement "" announcements;
      announcements = announcements;
    })

  unfoldable pub fingerprint_lines : String → List RouteEntry → List String
  unfolding collect join
  fingerprint_lines capability entries =
      collect (λ e. join "|" (capability ∷ e.path ∷ e.cost_amount ∷ e.cost_mint ∷ [])) entries

  unfoldable pub fingerprint_parts : List String → Dict (List RouteEntry) → List String
  unfolding fingerprint_lines entries_at
  fingerprint_parts [] entries = []
  fingerprint_parts (capability ∷ rest) entries =
      fingerprint_lines capability (entries_at capability entries) ++ fingerprint_parts rest entries

  unfoldable pub fingerprint : Table → String
  unfolding fingerprint_parts capabilities join
  fingerprint t =
      "sha256:"
      +++ env.sha256_hex (join "\n" (fingerprint_parts (capabilities t.entries) t.entries))

  abbrev pub complies : Dict PolicyValue → RouteEntry → Bool
  complies constraints entry = elim (check_policy env entry.policy constraints) [
    | err e ↦ false
    | ok u ↦ true
  ]

  -- `rejected[id]++`, of the routes that do not comply and have an offer.
  unfoldable pub count_rejected : Dict PolicyValue → List RouteEntry → Dict ℕ → Dict ℕ
  count_rejected constraints [] rejected = rejected
  count_rejected constraints (entry ∷ rest) rejected =
      let seen : ℕ = elim (lookup entry.offer_id rejected) [ none ↦ 0 | some n ↦ n ] in
      count_rejected constraints rest (
        if complies constraints entry || str_eq entry.offer_id ""
        then rejected
        else insert entry.offer_id (suc seen) rejected)

  -- The end of `Route`, once the routes that comply are gathered.
  unfoldable pub choose_compliant :
      Table → Intent → List RouteEntry → List RouteEntry → Result AgpError RouteResult
  choose_compliant t intent candidates [] = err policy_violation
  choose_compliant t intent candidates (best ∷ others) = ok (record {
    target_capability = normalize_capability env intent.target_capability;
    route = best;
    considered = length candidates;
    rejected = count_rejected intent.policy_constraints candidates [];
    table_fingerprint = fingerprint t;
    table_as_of = t.as_of;
    task = none;
  })

  -- `Route`, of the candidates of a capability.
  unfoldable pub choose : Table → Intent → List RouteEntry → Result AgpError RouteResult
  choose t intent candidates =
      if is_empty candidates
      then err route_not_found
      else choose_compliant t intent candidates
          (filter_by (complies intent.policy_constraints) candidates)

  unfoldable pub route : Table → Intent → Result AgpError RouteResult
  route t intent = do
    validate_intent intent
    choose t intent (entries_at (normalize_capability env intent.target_capability) t.entries)

  unfoldable pub render_task : Intent → String → String → String → TaskEnvelope
  unfolding normalize_capability
  render_task intent id task_id context_id = record {
    id = id;
    task_id = task_id;
    context_id = context_id;
    target_capability = normalize_capability env intent.target_capability;
    payload = intent.payload;
  }

  unfoldable pub route_task :
      Table → Intent → String → String → String → Result AgpError RouteResult
  unfolding route render_task
  route_task t intent id task_id context_id = do
    result ← route t intent
    ok (record result { task = some (render_task intent id task_id context_id) })
