-- ===== src/Agp/Cheapest.antt =====
-- internal/agp/agp.go: the route that an intent gets, against all that is announced.
use vtessera.Common.{
  ◌≡◌, ◌≤◌, ◌∙◌, refl, sym, ap, subst, Bool, true, not, List, [], ◌∷◌, ◌++◌, all, is_empty, arith,
  String, str_eq, eq_iff, ok, reject_if, chain-ok, Bool-cases, Result-cases, all-middle, inl, inr,
}
use vtessera.Domain.{trim_space}
use vtessera.Money.{Amount, parse}
use vtessera.Money.Canonical.{parse-iff_IsCanonical, IsCanonical-IsDecimal}
use vtessera.Money.Digits.{units_at}
use vtessera.Store.Query.{filter_by, order_by}
use vtessera.Agp.Text.{Platform, Float64, normalize_capability}
use vtessera.Bytes.{utf8}
use vtessera.Agp.Policy.{check_policy}
use vtessera.Agp.{
  Intent, RouteResult, Table, entries_at, build_table, complies, choose, choose_compliant, route,
  validate_intent,
}
use vtessera.Agp.Entries.{
  CapabilityAnnouncement, RouteEntry, less_cost, entry_for, validate_announcement,
  validate_capability, float_cost, parsed_cost_of, entry_with, validate_cost, invalid_intent,
}
use vtessera.Agp.Announced.{announced_for, is_accepted, build_table-holds, build_table-iff_accepted}
use vtessera.Agp.Sorting.{
  billionths, IsPriced, AllPriced, all-order_by, order_by-IsAscending, not_cheaper, first-cheapest,
  filter_by-first,
}

-- An announcement that names its price, as each one of an offer does.
abbrev pub has_amount : CapabilityAnnouncement → Bool
has_amount a = not (str_eq a.cost_amount "")

module _ (env : Platform) where
  validate_announcement-cost :
      (a : CapabilityAnnouncement)
      → validate_announcement env a ≡ ok tt
      → validate_cost env a ≡ ok tt
  unfolding validate_announcement
  validate_announcement-cost a h =
      let (_, _, h1) = chain-ok (validate_capability env a.capability) _ h in
      let (_, _, h2) =
        chain-ok (reject_if (str_eq (trim_space a.version) "") invalid_intent) _ h1 in
      let (_, _, h3) =
        chain-ok (reject_if (str_eq (trim_space a.squad_path) "") invalid_intent) _ h2 in
      h3

  validate_cost-parsed :
      (a : CapabilityAnnouncement)
      → validate_cost env a ≡ ok tt
      → has_amount a ≡ true
      → (amount : Amount) × (parse (utf8 a.cost_amount) ≡ ok amount)
  unfolding validate_cost
  validate_cost-parsed a h priced = elim (Result-cases (parse (utf8 a.cost_amount))) [
    | inl found ↦ found
    | inr (e, f) ↦ absurd (ground arith)
  ]

  entry_with-IsPriced :
      (a : CapabilityAnnouncement) (cost : Float64) (amount : Amount)
      → parse (utf8 a.cost_amount) ≡ ok amount
      → has_amount a ≡ true
      → IsPriced (entry_with env a cost)
  unfolding parsed_cost_of
  entry_with-IsPriced a cost amount h priced =
      let (kept, canonical) = (parse-iff_IsCanonical (utf8 a.cost_amount) amount).0 h in
      let same : Amount = record { value = utf8 a.cost_amount } in
      let (decimal, digits) = IsCanonical-IsDecimal same canonical in
      record { parsed = ground arith; decimal = decimal; digits = digits }

  -- The route of an announcement with a price has that price.
  entry_for-IsPriced :
      (a : CapabilityAnnouncement) (entry : RouteEntry)
      → entry_for env a ≡ ok entry
      → has_amount a ≡ true
      → IsPriced entry
  unfolding entry_for
  entry_for-IsPriced a entry h priced =
      let (_, valid, made) = chain-ok (validate_announcement env a) _ h in
      let (cost, _, built) = chain-ok (float_cost env a) _ made in
      let same : entry_with env a cost ≡ entry = ground arith in
      let (amount, parsed) = validate_cost-parsed a (validate_announcement-cost a valid) priced in
      subst IsPriced same (entry_with-IsPriced a cost amount parsed priced)

  announced_for-AllPriced :
      (capability : String) (announcements : List CapabilityAnnouncement)
      → all has_amount announcements ≡ true
      → AllPriced (announced_for env capability announcements)
  unfolding announced_for
  announced_for-AllPriced capability [] h = tt
  announced_for-AllPriced capability (a ∷ rest) h =
      let later = announced_for-AllPriced capability rest (ground arith) in
      elim (Result-cases (entry_for env a)) [
        | inr (e, f) ↦ rw (f, announced_for) later
        | inl (entry, f) ↦
            elim (Bool-cases (str_eq (normalize_capability env a.capability) capability)) [
              | inl g ↦
                  rw (f, announced_for) (rw g (entry_for-IsPriced a entry f (ground arith), later))
              | inr g ↦ rw (f, announced_for) (rw g later)
            ]
      ]

  announced_for-all :
      (p : RouteEntry → Bool) (before after : List CapabilityAnnouncement)
      (a : CapabilityAnnouncement) (entry : RouteEntry) (capability : String)
      → entry_for env a ≡ ok entry
      → normalize_capability env a.capability ≡ capability
      → all p (announced_for env capability (before ++ (a ∷ after))) ≡ true
      → p entry ≡ true
  unfolding announced_for
  announced_for-all p [] after a entry capability h same k =
      let found : str_eq (normalize_capability env a.capability) capability ≡ true =
        (eq_iff (normalize_capability env a.capability) capability).1 same in
      ground (arith, h, found)
  announced_for-all p (b ∷ before) after a entry capability h same k =
      let later = announced_for-all p before after a entry capability h same in
      elim (Result-cases (entry_for env b)) [
        | inr (e, f) ↦ later (ground (arith, f))
        | inl (x, f) ↦ later (ground (arith, f))
      ]

  choose_compliant-first :
      (t : Table) (intent : Intent) (candidates compliant : List RouteEntry) (result : RouteResult)
      → choose_compliant env t intent candidates compliant ≡ ok result
      → (others : List RouteEntry) × (compliant ≡ result.route ∷ others)
  unfolding choose_compliant
  choose_compliant-first t intent candidates [] result h = absurd (cc)
  choose_compliant-first t intent candidates (best ∷ others) result h = (others, ground arith)

  -- A route that is chosen is the first that complies.
  choose-first :
      (t : Table) (intent : Intent) (candidates : List RouteEntry) (result : RouteResult)
      → choose env t intent candidates ≡ ok result
      → (others : List RouteEntry) × (filter_by (complies env intent.policy_constraints) candidates
          ≡ result.route ∷ others)
  unfolding choose
  choose-first t intent candidates result h = elim (Bool-cases (is_empty candidates)) [
    | inl e ↦ absurd (ground arith)
    | inr e ↦ choose_compliant-first t intent candidates _ result (ground arith)
  ]

  -- What `Route` chooses from, of a table that was built.
  route-first :
      (announcements : List CapabilityAnnouncement) (t : Table) (intent : Intent)
      (result : RouteResult)
      → build_table env announcements ≡ ok t
      → route env t intent ≡ ok result
      → let capability = normalize_capability env intent.target_capability in
        (others : List RouteEntry) × (filter_by
            (complies env intent.policy_constraints)
            (order_by less_cost (announced_for env capability announcements))
          ≡ result.route ∷ others)
  unfolding route
  route-first announcements t intent result built h =
      let capability = normalize_capability env intent.target_capability in
      let (_, _, chosen) = chain-ok (validate_intent env intent) _ h in
      let (others, first) = choose-first t intent (entries_at capability t.entries) result chosen in
      (
        others,
        subst (λ es. filter_by (complies env intent.policy_constraints) es ≡ result.route ∷ others)
            (build_table-holds env announcements t built capability) first,
      )

  -- Whether a route was announced for a capability.
  abbrev pub is_for : String → RouteEntry → Bool
  is_for capability e = str_eq (normalize_capability env e.announcement.capability) capability

  entry_for-with :
      (a : CapabilityAnnouncement) (entry : RouteEntry)
      → entry_for env a ≡ ok entry
      → (cost : Float64) × (entry_with env a cost ≡ entry)
  unfolding entry_for
  entry_for-with a entry h =
      let (_, _, made) = chain-ok (validate_announcement env a) _ h in
      let (cost, _, built) = chain-ok (float_cost env a) _ made in (cost, ground arith)

  announced_for-is_for :
      (capability : String) (announcements : List CapabilityAnnouncement)
      → all (is_for capability) (announced_for env capability announcements) ≡ true
  unfolding announced_for
  announced_for-is_for capability [] = refl
  announced_for-is_for capability (a ∷ rest) =
      let later = announced_for-is_for capability rest in
      elim (Result-cases (entry_for env a)) [
        | inr (e, f) ↦ rw (f, announced_for) later
        | inl (entry, f) ↦
            let (cost, same) = entry_for-with a entry f in
            let kept : a.capability ≡ entry.announcement.capability =
              ap (λ (e : RouteEntry). e.announcement.capability) same in
            rw (f, announced_for) (ground (arith, ap (normalize_capability env) kept))
      ]

  -- The route that `Route` returns, from a table that `BuildTable` made, complies with the
  -- constraints of the intent and is announced for its capability.
  pub route-complies :
      (announcements : List CapabilityAnnouncement) (t : Table) (intent : Intent)
      (result : RouteResult)
      → build_table env announcements ≡ ok t
      → route env t intent ≡ ok result
      → (complies env intent.policy_constraints result.route ≡ true)
        × (normalize_capability env result.route.announcement.capability
            ≡ normalize_capability env intent.target_capability)
  route-complies announcements t intent result built h =
      let capability = normalize_capability env intent.target_capability in
      let (others, first) = route-first announcements t intent result built h in
      let candidates = announced_for env capability announcements in
      let (met, for) =
        filter_by-first (complies env intent.policy_constraints) (is_for capability)
          (order_by less_cost candidates) result.route others
          (all-order_by (is_for capability) less_cost candidates
            ∙ announced_for-is_for capability announcements)
          first in
      (
        met,
        (eq_iff (normalize_capability env result.route.announcement.capability) capability).0 for,
      )

  build_table-entry :
      (announcements : List CapabilityAnnouncement) (t : Table)
      → build_table env announcements ≡ ok t
      → (before after : List CapabilityAnnouncement) (a : CapabilityAnnouncement)
      → announcements ≡ before ++ (a ∷ after)
      → (entry : RouteEntry) × (entry_for env a ≡ ok entry)
  unfolding is_accepted
  build_table-entry announcements t built before after a e =
      let (_, accepted) = (build_table-iff_accepted env announcements).0 (t, built) in
      let one : is_accepted env a ≡ true =
        all-middle (is_accepted env) before after a
          (ap (all (is_accepted env)) (sym e) ∙ accepted) in
      elim (Result-cases (entry_for env a)) [
        | inl found ↦ found
        | inr (x, f) ↦ absurd (let r = rw (f, is_accepted) at one in cc)
      ]

  entry_with-above :
      (a : CapabilityAnnouncement) (cost : Float64) (intent : Intent) (result : RouteResult)
      → not_cheaper (complies env intent.policy_constraints) result.route (entry_with env a cost)
        ≡ true
      → check_policy env a.policy intent.policy_constraints ≡ ok tt
      → billionths result.route ≤ units_at 9 (record { value = utf8 a.cost_amount })
  entry_with-above a cost intent result h met = ground arith

  -- The route that `Route` returns, from a table that `BuildTable` made of announcements that each
  -- name a price, costs no more than any announcement of the capability whose policy complies with
  -- the constraints of the intent, in billionths of the amounts.
  pub route-cheapest :
      (before after : List CapabilityAnnouncement) (a : CapabilityAnnouncement) (t : Table)
      (intent : Intent) (result : RouteResult)
      → build_table env (before ++ (a ∷ after)) ≡ ok t
      → all has_amount (before ++ (a ∷ after)) ≡ true
      → route env t intent ≡ ok result
      → normalize_capability env a.capability ≡ normalize_capability env intent.target_capability
      → check_policy env a.policy intent.policy_constraints ≡ ok tt
      → billionths result.route ≤ units_at 9 (record { value = utf8 a.cost_amount })
  route-cheapest before after a t intent result built priced h same met =
      let capability = normalize_capability env intent.target_capability in
      let announcements = before ++ (a ∷ after) in
      let candidates = announced_for env capability announcements in
      let (others, first) = route-first announcements t intent result built h in
      let (_, least) =
        first-cheapest (complies env intent.policy_constraints) (order_by less_cost candidates)
          result.route others
          (order_by-IsAscending candidates
            (announced_for-AllPriced capability announcements priced))
          first in
      let (entry, accepted) = build_table-entry announcements t built before after a refl in
      let test = not_cheaper (complies env intent.policy_constraints) result.route in
      let not_less =
        announced_for-all test before after a entry capability accepted same
          (sym (all-order_by test less_cost candidates) ∙ least) in
      let (cost, kept) = entry_for-with a entry accepted in
      entry_with-above a cost intent result (subst (λ e. test e ≡ true) (sym kept) not_less) met
