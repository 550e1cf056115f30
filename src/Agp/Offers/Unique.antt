-- ===== src/Agp/Offers/Unique.antt =====
-- internal/agp/announcement.go: the capabilities of an offer are some, and differ.
use vtessera.Common.{
  ◌≡◌, refl, Bool, true, false, not, ◌&&◌, ◌||◌, List, [], ◌∷◌, ◌++◌, is_empty, String, str_eq,
  eq_iff, arith, Bool-cases, inl, inr,
}
use Prim.Native.String.{◌++◌ as ◌+++◌}
use Prim.Native.String.append
use Prim.Native.Char.{Char}
use vtessera.Domain.{Offer, trim_space}
use vtessera.Agp.Text.{Platform, normalize_capability, to_lower}
use vtessera.Agp.Policy.{is_one_of}
use vtessera.Agp.Offers.{
  add_capability, add_declared, add_all_declared, capabilities_for_offer, action_slug, slug,
}

-- No element occurs twice.
unfoldable pub all_differ : List String → Bool
unfolding is_one_of
all_differ [] = true
all_differ (x ∷ xs) = not (is_one_of xs x) && all_differ xs

is_one_of-append :
    (xs : List String) (y s : String)
    → is_one_of (xs ++ (y ∷ [])) s ≡ (is_one_of xs s || str_eq y s)
unfolding is_one_of
is_one_of-append [] y s = ground arith
is_one_of-append (x ∷ xs) y s = ground (arith, is_one_of-append xs y s)

all_differ-append :
    (xs : List String) (y : String)
    → all_differ xs ≡ true
    → is_one_of xs y ≡ false
    → all_differ (xs ++ (y ∷ [])) ≡ true
unfolding all_differ is_one_of
all_differ-append [] y h k = refl
all_differ-append (x ∷ xs) y h k =
    ground (arith, all_differ-append xs y, is_one_of-append xs y x, eq_iff x y, eq_iff y x)

cons-not_empty : (c : Char) (s : String) → str_eq (String.◌∷◌ c s) "" ≡ false
cons-not_empty c s = elim (Bool-cases (str_eq (String.◌∷◌ c s) "")) [
  | inl e ↦ absurd (let r = (eq_iff (String.◌∷◌ c s) "").0 e in cc)
  | inr e ↦ e
]

module _ (env : Platform) where
  add_capability-all_differ :
      (capability : String) (out : List String)
      → all_differ out ≡ true
      → all_differ (add_capability env capability out) ≡ true
  unfolding add_capability
  add_capability-all_differ capability out h =
      ground (arith, all_differ-append out (normalize_capability env capability))

  add_declared-all_differ :
      (description raw : String) (out : List String)
      → all_differ out ≡ true
      → all_differ (add_declared env description raw out) ≡ true
  unfolding add_declared
  add_declared-all_differ description raw out h = ground (
    arith,
    add_capability-all_differ (trim_space raw) out h,
    add_capability-all_differ (slug env (trim_space raw) +++ (":" +++ action_slug env description))
        out h,
  )

  add_all_declared-all_differ :
      (description : String) (declared out : List String)
      → all_differ out ≡ true
      → all_differ (add_all_declared env description declared out) ≡ true
  unfolding add_all_declared
  add_all_declared-all_differ description [] out h = h
  add_all_declared-all_differ description (raw ∷ rest) out h =
      add_all_declared-all_differ description rest (add_declared env description raw out)
        (add_declared-all_differ description raw out h)

  normalize_general :
      (action : String) → str_eq (normalize_capability env ("general:" +++ action)) "" ≡ false
  unfolding normalize_capability to_lower trim_space
  normalize_general action = rw (append.cons "g" "eneral:" action) (cons-not_empty _ _)

  add_general :
      (action : String) (out : List String)
      → is_empty out ≡ true
      → is_empty (add_capability env ("general:" +++ action) out) ≡ false
  unfolding add_capability is_one_of
  add_general action [] h = ground (arith, normalize_general action)
  add_general action (x ∷ xs) h = absurd (cc)

  -- An offer has a capability, and none twice.
  pub capabilities_for_offer-all_differ :
      (o : Offer)
      → (is_empty (capabilities_for_offer env o) ≡ false)
        × (all_differ (capabilities_for_offer env o) ≡ true)
  unfolding capabilities_for_offer all_differ
  capabilities_for_offer-all_differ o =
      let declared = add_all_declared env o.description o.capabilities [] in
      let differ : all_differ declared ≡ true =
        add_all_declared-all_differ o.description o.capabilities [] refl in
      elim (Bool-cases (is_empty declared)) [
        | inl e ↦ rw e (
          add_general (action_slug env o.description) declared e,
          add_capability-all_differ _ declared differ,
        )
        | inr e ↦ rw e (e, differ)
      ]
