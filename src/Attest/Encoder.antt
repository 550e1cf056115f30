-- ===== src/Attest/Encoder.antt =====
-- internal/attest/attest.go: the canonical bytes of an offer, a card and a probe. Base58, base64,
-- Ed25519, the text of a time and SHA-256 in hexadecimal are arguments.
use vtessera.Common.{
  ℕ, suc, Bool, true, false, ◌||◌, Option, List, [], ◌∷◌, ◌++◌, Ordering, if◌then◌else◌, length,
}
use vtessera.Bytes.{Bytes, utf8, compare_bytes, format_uint}
use vtessera.Store.Query.{order_by}

pub record Skill : Type 0 where
  pub id : Bytes
  pub name : Bytes
  pub tags : List Bytes
  pub input : List Bytes
  pub output : List Bytes

pub record Card : Type 0 where
  pub agent_id : Bytes
  pub name : Bytes
  pub description : Bytes
  pub version : Bytes
  pub url : Bytes
  pub capabilities : List Bytes
  pub skills : List Skill
  pub currencies : List Bytes
  pub settlement_modes : List Bytes
  pub probe_target : Bytes

pub record OfferTerms : Type 0 where
  pub id : Bytes
  pub seller : Bytes
  pub description : Bytes
  pub direction : Bytes
  pub capabilities : List Bytes
  pub mint : Bytes
  pub scale : Bytes
  pub amount_base_units : Bytes
  pub unit_amount : Bytes
  pub settlement_modes : List Bytes

pub record ProbeResult : Type 0 where
  pub capability : Bytes
  pub status : Bytes
  pub detail : Bytes

pub record Probe : Type 0 where
  pub agent_id : Bytes
  pub target : Bytes
  pub results : List ProbeResult
  pub checked_at : ℕ

pub record Platform : Type 0 where
  pub base58_decode : Bytes → Option Bytes
  pub base64_decode : Bytes → Option Bytes
  pub base64_encode : Bytes → Bytes
  pub ed25519_verify : Bytes → Bytes → Bytes → Bool
  pub format_time : ℕ → Bytes
  pub sha256_hex : Bytes → Bytes

-- `==` and `<` on Go strings.
abbrev pub same_bytes : Bytes → Bytes → Bool
same_bytes a b = elim (compare_bytes a b) [
  | Ordering.lt ↦ false
  | Ordering.eq ↦ true
  | Ordering.gt ↦ false
]

abbrev pub bytes_before : Bytes → Bytes → Bool
bytes_before a b = elim (compare_bytes a b) [
  | Ordering.lt ↦ true
  | Ordering.eq ↦ false
  | Ordering.gt ↦ false
]

unfoldable pub is_seen : List Bytes → Bytes → Bool
unfolding compare_bytes
is_seen [] v = false
is_seen (x ∷ xs) v = same_bytes x v || is_seen xs v

-- The loop of `sortedUnique`, with what was seen.
unfoldable pub keep_first : List Bytes → List Bytes → List Bytes
unfolding is_seen
keep_first seen [] = []
keep_first seen (v ∷ vs) =
    let rest = keep_first (v ∷ seen) vs in
    let skipped = keep_first seen vs in if is_seen seen v then skipped else v ∷ rest

unfoldable pub sorted_unique : List Bytes → List Bytes
unfolding keep_first order_by
sorted_unique values = order_by bytes_before (keep_first [] values)

-- The calls of an encoder write one after the other: each is what it writes.
unfoldable pub field : Bytes → Bytes → Bytes
field name value = name ++ (b':' ∷ (format_uint (length value) ++ (b':' ∷ (value ++ (b'\n' ∷ [])))))

-- The elements of a list from the index on.
unfoldable pub elements : Bytes → ℕ → List Bytes → Bytes
elements name i [] = []
elements name i (v ∷ vs) = field (name ++ (b'.' ∷ format_uint i)) v ++ elements name (suc i) vs

-- The line with the number of elements.
unfoldable pub count_line : Bytes → ℕ → Bytes
count_line name n = name ++ (utf8 ".count:" ++ (format_uint n ++ (b'\n' ∷ [])))

unfoldable pub list_field : Bytes → List Bytes → Bytes
list_field name values = count_line name (length values) ++ elements name 0 values

unfoldable pub joined : Bytes → List Bytes → Bytes
joined sep [] = []
joined sep (x ∷ []) = x
joined sep (x ∷ y ∷ rest) = x ++ (sep ++ joined sep (y ∷ rest))

-- `newSkillWithKey`: the key by which skills are ordered.
unfoldable pub skill_key : Skill → Bytes
skill_key s =
    let set = λ (values : List Bytes). joined (0 ∷ []) (sorted_unique values) in
    joined (0 ∷ []) (s.id ∷ s.name ∷ set s.tags ∷ set s.input ∷ set s.output ∷ [])

unfoldable pub skill_elements : Bytes → ℕ → List Skill → Bytes
skill_elements name i [] = []
skill_elements name i (s ∷ rest) =
    let prefix = name ++ (b'.' ∷ format_uint i) in
    field (prefix ++ utf8 ".id") s.id
    ++ (field (prefix ++ utf8 ".name") s.name
        ++ (list_field (prefix ++ utf8 ".tags") (sorted_unique s.tags)
            ++ (list_field (prefix ++ utf8 ".inputModes") (sorted_unique s.input)
                ++ (list_field (prefix ++ utf8 ".outputModes") (sorted_unique s.output)
                    ++ skill_elements name (suc i) rest))))

abbrev pub key_before : Skill → Skill → Bool
key_before s t = bytes_before (skill_key s) (skill_key t)

unfoldable pub skills_field : Bytes → List Skill → Bytes
skills_field name skills =
    let ordered = order_by key_before skills in
    count_line name (length ordered) ++ skill_elements name 0 ordered

abbrev pub capability_before : ProbeResult → ProbeResult → Bool
capability_before r s = bytes_before r.capability s.capability

unfoldable pub result_elements : Bytes → ℕ → List ProbeResult → Bytes
result_elements name i [] = []
result_elements name i (r ∷ rest) =
    let prefix = name ++ (b'.' ∷ format_uint i) in
    field (prefix ++ utf8 ".capability") r.capability
    ++ (field (prefix ++ utf8 ".status") r.status
        ++ (field (prefix ++ utf8 ".detail") r.detail ++ result_elements name (suc i) rest))

unfoldable pub results_field : Bytes → List ProbeResult → Bytes
results_field name results =
    let ordered = order_by capability_before results in
    count_line name (length ordered) ++ result_elements name 0 ordered

module _ (env : Platform) where
  -- `newEncoder`
  unfoldable pub header : Bytes → ℕ → Bytes
  header kind at =
      utf8 "vtessera/attest/v1\nkind:"
      ++ (kind ++ (b'\n' ∷ field (utf8 "signedAt") (env.format_time at)))

  unfoldable pub offer_bytes : OfferTerms → ℕ → Bytes
  offer_bytes o at =
      header (utf8 "offer") at
      ++ (field (utf8 "offer") o.id
          ++ (field (utf8 "seller") o.seller
              ++ (field (utf8 "description") o.description
                  ++ (field (utf8 "direction") o.direction
                      ++ (list_field (utf8 "capabilities") (sorted_unique o.capabilities)
                          ++ (field (utf8 "mint") o.mint
                              ++ (field (utf8 "scale") o.scale
                                  ++ (field (utf8 "amountBaseUnits") o.amount_base_units
                                      ++ (field (utf8 "unitAmount") o.unit_amount
                                          ++ list_field (utf8 "settlementModes")
                                              (sorted_unique o.settlement_modes))))))))))

  unfoldable pub card_bytes : Card → ℕ → Bytes
  card_bytes c at =
      header (utf8 "agent-card") at
      ++ (field (utf8 "agent") c.agent_id
          ++ (field (utf8 "name") c.name
              ++ (field (utf8 "description") c.description
                  ++ (field (utf8 "version") c.version
                      ++ (field (utf8 "url") c.url
                          ++ (list_field (utf8 "capabilities") (sorted_unique c.capabilities)
                              ++ (skills_field (utf8 "skills") c.skills
                                  ++ (field (utf8 "probeTarget") c.probe_target
                                      ++ (list_field (utf8 "currencies")
                                            (sorted_unique c.currencies)
                                          ++ list_field (utf8 "settlementModes")
                                              (sorted_unique c.settlement_modes))))))))))

  unfoldable pub probe_bytes : Probe → ℕ → Bytes
  probe_bytes p at =
      header (utf8 "probe") at
      ++ (field (utf8 "agent") p.agent_id
          ++ (field (utf8 "target") p.target
              ++ (field (utf8 "checkedAt") (env.format_time p.checked_at)
                  ++ results_field (utf8 "results") p.results)))
