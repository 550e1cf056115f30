-- ===== src/Agp/Announced.antt =====
-- internal/agp/agp.go: what the table of routes holds, and which announcements make one.
use vtessera.Common.{
  ◌≡◌, ◌↔◌, ◌≤◌, ◌∙◌, refl, ap, Bool, true, false, List, [], ◌∷◌, ◌++◌, append-nil, append_assoc,
  ltb, if◌then◌else◌, length, all, arith, String, str_eq, eq_iff, Dict, lookup, insert,
  lookup-insert, ok, err, reject_if, chain-ok, Bool-cases, Result-cases, inl, inr,
}
use vtessera.Store.Query.{order_by}
use vtessera.Agp.Text.{Platform, normalize_capability}
use vtessera.Agp.{
  Table, max_routes, entries_at, sort_entries, add_announced, build_table, latest_announcement,
}
use vtessera.Agp.Entries.{CapabilityAnnouncement, RouteEntry, less_cost, entry_for, invalid_intent}

module _ (env : Platform) where
  -- The routes that are announced for a capability, in the order of the announcements.
  unfoldable pub announced_for : String → List CapabilityAnnouncement → List RouteEntry
  announced_for capability [] = []
  announced_for capability (a ∷ rest) =
      let others = announced_for capability rest in
      elim (entry_for env a) [
        | err e ↦ others
        | ok entry ↦
            if str_eq (normalize_capability env a.capability) capability
            then entry ∷ others
            else others
      ]

  -- Whether `EntryFor` accepts an announcement.
  unfoldable pub is_accepted : CapabilityAnnouncement → Bool
  is_accepted a = elim (entry_for env a) [ err e ↦ false | ok entry ↦ true ]

  entries_at-insert :
      (key other : String) (value : List RouteEntry) (table : Dict (List RouteEntry))
      → entries_at other (insert key value table)
        ≡ (if str_eq key other then value else entries_at other table)
  unfolding entries_at
  entries_at-insert key other value table = ground (arith, lookup-insert key other value table)

  insert-announced :
      (a : CapabilityAnnouncement) (rest : List CapabilityAnnouncement) (entry : RouteEntry)
      (table : Dict (List RouteEntry)) (capability : String)
      → entry_for env a ≡ ok entry
      → let key = normalize_capability env a.capability in
        entries_at capability (insert key (entries_at key table ++ (entry ∷ [])) table)
          ++ announced_for capability rest
        ≡ entries_at capability table ++ announced_for capability (a ∷ rest)
  unfolding announced_for
  insert-announced a rest entry table capability e =
      let key : String = normalize_capability env a.capability in
      let added : List RouteEntry = entries_at key table ++ (entry ∷ []) in
      let known : announced_for capability (a ∷ rest) ≡ (
          if str_eq key capability
          then entry ∷ announced_for capability rest
          else announced_for capability rest) =
        rw (e, announced_for) refl in
      rw (known, entries_at-insert key capability added table)
        (elim (Bool-cases (str_eq key capability)) [
          | inl f ↦
              rw (f, append_assoc)
                (ap (λ k. entries_at k table ++ (entry ∷ announced_for capability rest))
                  ((eq_iff key capability).0 f))
          | inr f ↦ rw f refl
        ])

  add_announced-entries :
      (announcements : List CapabilityAnnouncement) (table table' : Dict (List RouteEntry))
      → add_announced env announcements table ≡ ok table'
      → (capability : String)
      → entries_at capability table'
        ≡ entries_at capability table ++ announced_for capability announcements
  unfolding add_announced announced_for
  add_announced-entries [] table table' h capability =
      rw (append-nil (entries_at capability table)) (ground arith)
  add_announced-entries (a ∷ rest) table table' h capability =
      let (entry, e, later) = chain-ok (entry_for env a) _ h in
      let key = normalize_capability env a.capability in
      add_announced-entries rest (insert key (entries_at key table ++ (entry ∷ [])) table) table'
        later capability
      ∙ insert-announced a rest entry table capability e

  entries_at-sort_entries :
      (capability : String) (table : Dict (List RouteEntry))
      → entries_at capability (sort_entries table)
        ≡ order_by less_cost (entries_at capability table)
  unfolding entries_at sort_entries lookup order_by
  entries_at-sort_entries capability [] = refl
  entries_at-sort_entries capability ((key, entries) ∷ rest) =
      ground (arith, entries_at-sort_entries capability rest)

  -- A table that is built holds, for a capability, what is announced for it, by ascending cost.
  pub build_table-holds :
      (announcements : List CapabilityAnnouncement) (table : Table)
      → build_table env announcements ≡ ok table
      → (capability : String)
      → entries_at capability table.entries
        ≡ order_by less_cost (announced_for capability announcements)
  unfolding build_table entries_at lookup
  build_table-holds announcements table h capability =
      let (u, _, made) =
        chain-ok (reject_if (ltb max_routes (length announcements)) invalid_intent) _ h in
      let (entries, e, built) = chain-ok (add_announced env announcements []) _ made in
      let same : sort_entries entries ≡ table.entries = ground arith in
      rw (← same, entries_at-sort_entries capability entries)
        (ap (order_by less_cost) (add_announced-entries announcements [] entries e capability))

  add_announced-accepted :
      (announcements : List CapabilityAnnouncement) (table : Dict (List RouteEntry))
      → ((table' : Dict (List RouteEntry)) × (add_announced env announcements table ≡ ok table'))
        ↔ (all is_accepted announcements ≡ true)
  unfolding add_announced is_accepted
  add_announced-accepted [] table = (λ h. refl, λ h. (table, refl))
  add_announced-accepted (a ∷ rest) table = elim (Result-cases (entry_for env a)) [
    | inr (e, f) ↦ rw (f, is_accepted) (λ h. absurd (ground arith), λ h. absurd (cc))
    | inl (entry, f) ↦ rw (f, is_accepted) (add_announced-accepted rest _)
  ]

  -- `BuildTable` makes a table exactly if there are at most 128 announcements and `EntryFor`
  -- accepts each of them.
  pub build_table-iff_accepted :
      (announcements : List CapabilityAnnouncement)
      → ((table : Table) × (build_table env announcements ≡ ok table))
        ↔ ((length announcements ≤ max_routes) × (all is_accepted announcements ≡ true))
  unfolding build_table
  build_table-iff_accepted announcements = (
    λ h.
        let (_, small, made) =
          chain-ok (reject_if (ltb max_routes (length announcements)) invalid_intent) _ h.1 in
        let (entries, e, _) = chain-ok (add_announced env announcements []) _ made in
        (ground arith, (add_announced-accepted announcements []).0 (entries, e)),
    λ h.
        let (entries, e) = (add_announced-accepted announcements []).1 h.1 in
        let small : ltb max_routes (length announcements) ≡ false = ground arith in
        (
          record {
            entries = sort_entries entries;
            as_of = latest_announcement "" announcements;
            announcements = announcements;
          },
          rw (small, e) refl,
        ),
  )
