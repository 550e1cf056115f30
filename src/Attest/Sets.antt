-- ===== src/Attest/Sets.antt =====
-- internal/attest/attest.go: sortedUnique leaves the elements of a list, as a set.
use mathlib.Core.Logic.{∥∥₁_map}
use mathlib.Core.List.{Mem, Memᴰ}
use mathlib.Core.List.Memᴰ
use vtessera.Common.{
  ◌≡◌, ◌⊎◌, ◌↔◌, refl, sym, subst, true, List, [], ◌∷◌, Bool-cases, inl, inr, arith,
}
use vtessera.Bytes.{Bytes, compare_bytes}
use vtessera.Store.Query.{order_by, insert_by}
use vtessera.Attest.Encoder.{same_bytes, bytes_before, is_seen, keep_first, sorted_unique}

pub same_bytes_sound : (xs ys : Bytes) → same_bytes xs ys ≡ true → xs ≡ ys
unfolding compare_bytes
same_bytes_sound [] [] h = refl
same_bytes_sound [] (y ∷ ys) h = absurd (cc)
same_bytes_sound (x ∷ xs) [] h = absurd (cc)
same_bytes_sound (x ∷ xs) (y ∷ ys) h = ground (arith, same_bytes_sound xs ys)

is_seen-Mem : (xs : List Bytes) (v : Bytes) → is_seen xs v ≡ true → Memᴰ v xs
unfolding is_seen
is_seen-Mem [] v h = absurd (cc)
is_seen-Mem (x ∷ xs) v h = elim (Bool-cases (same_bytes x v)) [
  | inl e ↦ Memᴰ.head (sym (same_bytes_sound x v e))
  | inr e ↦ Memᴰ.tail (is_seen-Mem xs v (ground arith))
]

keep_first-sound : (seen xs : List Bytes) (v : Bytes) → Memᴰ v (keep_first seen xs) → Memᴰ v xs
unfolding keep_first
keep_first-sound seen [] v m = m
keep_first-sound seen (x ∷ xs) v m = elim (Bool-cases (is_seen seen x)) [
  | inl e ↦ Memᴰ.tail (keep_first-sound seen xs v (rw e at m))
  | inr e ↦ elim (Memᴰ.cases_cons (rw e at m)) [
    | inl same ↦ Memᴰ.head same
    | inr later ↦ Memᴰ.tail (keep_first-sound (x ∷ seen) xs v later)
  ]
]

keep_first-complete :
    (seen xs : List Bytes) (v : Bytes) → Memᴰ v xs → Memᴰ v (keep_first seen xs) ⊎ Memᴰ v seen
unfolding keep_first
keep_first-complete seen [] v m = inl m
keep_first-complete seen (x ∷ xs) v m = elim (Bool-cases (is_seen seen x)) [
  | inl e ↦ elim (Memᴰ.cases_cons m) [
    | inl same ↦ inr (Memᴰ.cast same (is_seen-Mem seen x e))
    | inr later ↦ rw e (keep_first-complete seen xs v later)
  ]
  | inr e ↦ rw e (elim (Memᴰ.cases_cons m) [
    | inl same ↦ inl (Memᴰ.head same)
    | inr later ↦ elim (keep_first-complete (x ∷ seen) xs v later) [
      | inl kept ↦ inl (Memᴰ.tail kept)
      | inr known ↦ elim (Memᴰ.cases_cons known) [
        | inl same ↦ inl (Memᴰ.head same)
        | inr before ↦ inr before
      ]
    ]
  ])
]

insert_by-mem :
    (x : Bytes) (xs : List Bytes) (v : Bytes)
    → Memᴰ v (insert_by bytes_before x xs) ↔ Memᴰ v (x ∷ xs)
unfolding insert_by
insert_by-mem x [] v = (λ m. m, λ m. m)
insert_by-mem x (y ∷ ys) v = elim (Bool-cases (bytes_before y x)) [
  | inr e ↦ rw e (λ m. m, λ m. m)
  | inl e ↦
      let rest = insert_by-mem x ys v in
      rw e (
        λ m. elim (Memᴰ.cases_cons m) [
          | inl same ↦ Memᴰ.tail (Memᴰ.head same)
          | inr later ↦ elim (Memᴰ.cases_cons (rest.0 later)) [
            | inl same ↦ Memᴰ.head same
            | inr there ↦ Memᴰ.tail (Memᴰ.tail there)
          ]
        ],
        λ m. elim (Memᴰ.cases_cons m) [
          | inl same ↦ Memᴰ.tail (rest.1 (Memᴰ.head same))
          | inr later ↦ elim (Memᴰ.cases_cons later) [
            | inl same ↦ Memᴰ.head same
            | inr there ↦ Memᴰ.tail (rest.1 (Memᴰ.tail there))
          ]
        ],
      )
]

order_by-mem : (xs : List Bytes) (v : Bytes) → Memᴰ v (order_by bytes_before xs) ↔ Memᴰ v xs
unfolding order_by
order_by-mem [] v = (λ m. m, λ m. m)
order_by-mem (x ∷ xs) v =
    let rest = order_by-mem xs v in
    let first = insert_by-mem x (order_by bytes_before xs) v in
    (
      λ m. elim (Memᴰ.cases_cons (first.0 m)) [
        | inl same ↦ Memᴰ.head same
        | inr later ↦ Memᴰ.tail (rest.0 later)
      ],
      λ m. first.1 (elim (Memᴰ.cases_cons m) [
        | inl same ↦ Memᴰ.head same
        | inr later ↦ Memᴰ.tail (rest.1 later)
      ]),
    )

sorted_unique-mem : (xs : List Bytes) (v : Bytes) → Memᴰ v (sorted_unique xs) ↔ Memᴰ v xs
unfolding sorted_unique
sorted_unique-mem xs v =
    let ordered = order_by-mem (keep_first [] xs) v in
    (
      λ m. keep_first-sound [] xs v (ordered.0 m),
      λ m. ordered.1 (elim (keep_first-complete [] xs v m) [
        | inl kept ↦ kept
        | inr none ↦ absurd (Memᴰ.not-nil none)
      ]),
    )

-- The same elements, whatever their order and however often.
abbrev pub IsSameSet : List Bytes → List Bytes → Type 0
IsSameSet xs ys = (v : Bytes) → Mem v xs ↔ Mem v ys

-- Lists that sortedUnique makes one have the same elements.
pub sorted_unique-IsSameSet :
    (xs ys : List Bytes) → sorted_unique xs ≡ sorted_unique ys → IsSameSet xs ys
sorted_unique-IsSameSet xs ys e v =
    let through : (us ws : List Bytes)
        → sorted_unique us ≡ sorted_unique ws
        → Memᴰ v us
        → Memᴰ v ws =
      λ us ws f m.
        (sorted_unique-mem ws v).0 (subst (λ l. Memᴰ v l) f ((sorted_unique-mem us v).1 m)) in
    (λ m. ∥∥₁_map m (through xs ys e), λ m. ∥∥₁_map m (through ys xs (sym e)))
