-- ===== src/Attest/Same.antt =====
-- internal/attest/attest.go: the canonical bytes of an offer determine its terms.
use vtessera.Common.{ℕ, ◌≡◌, ◌≢◌, ◌∙◌, sym, ap, true, [], ◌∷◌, ◌++◌, append_assoc, arith}
use vtessera.Bytes.{Bytes, utf8}
use vtessera.Attest.Encoder.{
  Platform, OfferTerms, Card, Probe, field, sorted_unique, header, offer_bytes, card_bytes,
  probe_bytes,
}
use vtessera.Attest.Sets.{IsSameSet, sorted_unique-IsSameSet}
use vtessera.Attest.Fields.{is_short, AreShort, drop_prefix, field-read, list_field-read}

-- No string or list is longer than an int of Go can say.
pub record IsSized (o : OfferTerms) : Type 0 where
  pub id : is_short o.id ≡ true
  pub seller : is_short o.seller ≡ true
  pub description : is_short o.description ≡ true
  pub direction : is_short o.direction ≡ true
  pub capabilities : AreShort (sorted_unique o.capabilities)
  pub mint : is_short o.mint ≡ true
  pub scale : is_short o.scale ≡ true
  pub amount_base_units : is_short o.amount_base_units ≡ true
  pub unit_amount : is_short o.unit_amount ≡ true
  pub settlement_modes : AreShort (sorted_unique o.settlement_modes)

-- The same terms: each capability and each mode of one is one of the other.
pub record IsSame (o p : OfferTerms) : Type 0 where
  pub id : o.id ≡ p.id
  pub seller : o.seller ≡ p.seller
  pub description : o.description ≡ p.description
  pub direction : o.direction ≡ p.direction
  pub capabilities : IsSameSet o.capabilities p.capabilities
  pub mint : o.mint ≡ p.mint
  pub scale : o.scale ≡ p.scale
  pub amount_base_units : o.amount_base_units ≡ p.amount_base_units
  pub unit_amount : o.unit_amount ≡ p.unit_amount
  pub settlement_modes : IsSameSet o.settlement_modes p.settlement_modes

module _ (env : Platform) where
  header-shape :
      (kind : Bytes) (at : ℕ) (r : Bytes)
      → header env kind at ++ r
        ≡ utf8 "vtessera/attest/v1\nkind:"
          ++ (kind ++ (b'\n' ∷ (field (utf8 "signedAt") (env.format_time at) ++ r)))
  unfolding header
  header-shape kind at r = simp append_assoc

  header-read :
      (kind : Bytes) (at later : ℕ) {r s : Bytes}
      → is_short (env.format_time at) ≡ true
      → is_short (env.format_time later) ≡ true
      → header env kind at ++ r ≡ header env kind later ++ s
      → (env.format_time at ≡ env.format_time later) × (r ≡ s)
  header-read kind at later {r = r} {s = s} h k e =
      field-read (utf8 "signedAt") (env.format_time at) (env.format_time later) h k (
        drop_prefix (b'\n' ∷ []) (
          drop_prefix kind (
            drop_prefix (utf8 "vtessera/attest/v1\nkind:")
              (sym (header-shape kind at r) ∙ e ∙ header-shape kind later s))))

  -- Offers, and times, that have the same canonical bytes have the same terms, the capabilities and
  -- the settlement modes as sets, and the same text of the time, if no text of them is too long.
  pub offer_bytes-IsSame :
      (o p : OfferTerms) (at later : ℕ)
      → IsSized o
      → IsSized p
      → is_short (env.format_time at) ≡ true
      → is_short (env.format_time later) ≡ true
      → offer_bytes env o at ≡ offer_bytes env p later
      → IsSame o p × (env.format_time at ≡ env.format_time later)
  unfolding offer_bytes
  offer_bytes-IsSame o p at later ho hp hat hlater e =
      let (times, e1) = header-read (utf8 "offer") at later hat hlater e in
      let (ids, e2) = field-read (utf8 "offer") o.id p.id ho.id hp.id e1 in
      let (sellers, e3) = field-read (utf8 "seller") o.seller p.seller ho.seller hp.seller e2 in
      let (descriptions, e4) =
        field-read (utf8 "description") o.description p.description ho.description hp.description
          e3 in
      let (directions, e5) =
        field-read (utf8 "direction") o.direction p.direction ho.direction hp.direction e4 in
      let (sets, e6) =
        list_field-read (utf8 "capabilities") (sorted_unique o.capabilities)
          (sorted_unique p.capabilities) ho.capabilities hp.capabilities e5 in
      let (mints, e7) = field-read (utf8 "mint") o.mint p.mint ho.mint hp.mint e6 in
      let (scales, e8) = field-read (utf8 "scale") o.scale p.scale ho.scale hp.scale e7 in
      let (amounts, e9) =
        field-read (utf8 "amountBaseUnits") o.amount_base_units p.amount_base_units
          ho.amount_base_units hp.amount_base_units e8 in
      let (units, e10) =
        field-read (utf8 "unitAmount") o.unit_amount p.unit_amount ho.unit_amount hp.unit_amount
          e9 in
      let modes =
        list_field-read (utf8 "settlementModes") (sorted_unique o.settlement_modes)
          (sorted_unique p.settlement_modes) ho.settlement_modes hp.settlement_modes
          (ap (λ (x : Bytes). x ++ []) e10) in
      (
        record {
          id = ids;
          seller = sellers;
          description = descriptions;
          direction = directions;
          capabilities = sorted_unique-IsSameSet o.capabilities p.capabilities sets;
          mint = mints;
          scale = scales;
          amount_base_units = amounts;
          unit_amount = units;
          settlement_modes = sorted_unique-IsSameSet o.settlement_modes p.settlement_modes modes.0;
        },
        times,
      )

  -- What is signed of an offer, a card and a probe is never the same bytes.
  pub kinds_differ :
      (o : OfferTerms) (c : Card) (p : Probe) (at later : ℕ)
      → (offer_bytes env o at ≢ card_bytes env c later)
        × (offer_bytes env o at ≢ probe_bytes env p later)
        × (card_bytes env c at ≢ probe_bytes env p later)
  unfolding offer_bytes card_bytes probe_bytes header utf8
  kinds_differ o c p at later =
      let start = utf8 "vtessera/attest/v1\nkind:" in
      (
        λ e. absurd (let r = drop_prefix start e in ground arith),
        λ e. absurd (let r = drop_prefix start e in ground arith),
        λ e. absurd (let r = drop_prefix start e in ground arith),
      )
