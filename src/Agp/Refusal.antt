-- ===== src/Agp/Refusal.antt =====
-- internal/agp/agp.go: the errors of `Route`, against what is announced.
use vtessera.Common.{
  ◌≡◌, ◌≢◌, ◌↔◌, ◌∙◌, refl, sym, Bool, true, false, not, List, [], ◌∷◌, all, is_empty, arith, ok,
  err, Bool-cases, inl, inr,
}
use vtessera.Store.Query.{filter_by, order_by, insert_by}
use vtessera.Agp.Text.{Platform, normalize_capability}
use vtessera.Agp.{
  Intent, Table, build_table, complies, choose, choose_compliant, route, validate_intent,
}
use vtessera.Agp.Entries.{
  CapabilityAnnouncement, RouteEntry, less_cost, route_not_found, policy_violation,
}
use vtessera.Agp.Announced.{announced_for, build_table-holds}
use vtessera.Agp.Sorting.{all-order_by}

is_empty-insert_by :
    (before : RouteEntry → RouteEntry → Bool) (x : RouteEntry) (xs : List RouteEntry)
    → is_empty (insert_by before x xs) ≡ false
unfolding insert_by
is_empty-insert_by before x [] = refl
is_empty-insert_by before x (y ∷ ys) = ground arith

is_empty-order_by :
    (before : RouteEntry → RouteEntry → Bool) (xs : List RouteEntry)
    → is_empty (order_by before xs) ≡ is_empty xs
unfolding order_by
is_empty-order_by before [] = refl
is_empty-order_by before (x ∷ xs) = is_empty-insert_by before x (order_by before xs)

none_passes :
    (p : RouteEntry → Bool) (xs : List RouteEntry)
    → is_empty (filter_by p xs) ≡ all (λ x. not (p x)) xs
unfolding filter_by
none_passes p [] = refl
none_passes p (x ∷ xs) = ground (arith, none_passes p xs)

module _ (env : Platform) where
  choose_compliant-refuses :
      (t : Table) (intent : Intent) (candidates compliant : List RouteEntry)
      → (choose_compliant env t intent candidates compliant ≢ err route_not_found)
        × ((choose_compliant env t intent candidates compliant ≡ err policy_violation)
            ↔ (is_empty compliant ≡ true))
  unfolding choose_compliant
  choose_compliant-refuses t intent candidates [] =
      (λ h. absurd (ground arith), (λ h. refl, λ h. refl))
  choose_compliant-refuses t intent candidates (best ∷ others) =
      (λ h. absurd (ground arith), (λ h. absurd (ground arith), λ h. absurd (cc)))

  choose-refuses :
      (t : Table) (intent : Intent) (candidates : List RouteEntry)
      → ((choose env t intent candidates ≡ err route_not_found) ↔ (is_empty candidates ≡ true))
        × ((choose env t intent candidates ≡ err policy_violation) ↔ (
            (is_empty candidates ≡ false)
            × (all (λ e. not (complies env intent.policy_constraints e)) candidates ≡ true)))
  unfolding choose
  choose-refuses t intent candidates =
      let p = complies env intent.policy_constraints in
      let (found, violated) =
        choose_compliant-refuses t intent candidates (filter_by p candidates) in
      elim (Bool-cases (is_empty candidates)) [
        | inl e ↦
            rw e (
              (λ h. refl, λ h. refl),
              (λ h. absurd (ground arith), λ h. absurd (let r = h.0 in cc)),
            )
        | inr e ↦ rw e (
          (λ h. absurd (found h), λ h. absurd (cc)),
          (
            λ h. (refl, sym (none_passes p candidates) ∙ violated.0 h),
            λ h. violated.1 (none_passes p candidates ∙ h.1),
          ),
        )
      ]

  -- For a valid intent and a table that `BuildTable` made: `Route` finds no route exactly if nothing
  -- is announced for the capability, and reports a violated policy exactly if something is and
  -- nothing of it complies with the constraints.
  pub route-refuses :
      (announcements : List CapabilityAnnouncement) (t : Table) (intent : Intent)
      → build_table env announcements ≡ ok t
      → validate_intent env intent ≡ ok tt
      → let candidates =
          announced_for env (normalize_capability env intent.target_capability) announcements in
        ((route env t intent ≡ err route_not_found) ↔ (is_empty candidates ≡ true))
        × ((route env t intent ≡ err policy_violation) ↔ (
            (is_empty candidates ≡ false)
            × (all (λ e. not (complies env intent.policy_constraints e)) candidates ≡ true)))
  unfolding route
  route-refuses announcements t intent built valid =
      let capability = normalize_capability env intent.target_capability in
      let candidates = announced_for env capability announcements in
      rw
        (
          valid,
          build_table-holds env announcements t built capability,
          ← is_empty-order_by less_cost candidates,
          ← all-order_by (λ e. not (complies env intent.policy_constraints e)) less_cost candidates,
        )
        (choose-refuses t intent (order_by less_cost candidates))
