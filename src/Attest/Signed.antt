-- ===== src/Attest/Signed.antt =====
-- internal/attest/attest.go: what is signed verifies, and what verifies was signed.
use vtessera.Common.{
  ℕ, ◌≡◌, ◌∙◌, refl, sym, subst, true, not, some, [], ◌∷◌, length, arith, ok, reject_if, chain-ok,
  Option-cases, inl, inr,
}
use vtessera.Bytes.{Bytes, utf8, compare_bytes}
use vtessera.Attest.{
  Signature, SigningKey, decode_key, decode_value, verify_payload, sign_payload, sign_offer,
  verify_offer, unsupported_algorithm, other_key, other_content, other_author,
}
use vtessera.Attest.Encoder.{Platform, OfferTerms, same_bytes, offer_bytes}
use vtessera.Attest.Fields.{is_short}
use vtessera.Attest.Sets.{same_bytes_sound}
use vtessera.Attest.Same.{IsSized, IsSame, offer_bytes-IsSame}

compare_bytes_refl : (xs : Bytes) → same_bytes xs xs ≡ true
unfolding compare_bytes
compare_bytes_refl [] = refl
compare_bytes_refl (x ∷ xs) = ground (arith, compare_bytes_refl xs)

module _ (env : Platform) where
  -- What a key pair and the encodings around it promise.
  pub record IsKeyPair (k : SigningKey) : Type 0 where
    pub key : Bytes
    pub named : env.base58_decode k.public_key ≡ some key
    pub key_size : length key ≡ 32
    pub signature_size : (m : Bytes) → length (k.sign m) ≡ 64
    pub decodes : (m : Bytes) → env.base64_decode (env.base64_encode m) ≡ some m
    pub verifies : (m : Bytes) → env.ed25519_verify key m (k.sign m) ≡ true

  decode_key-ok : (k : SigningKey) (pair : IsKeyPair k) → decode_key env k.public_key ≡ ok pair.key
  unfolding decode_key
  decode_key-ok k pair = ground (arith, pair.named, pair.key_size)

  decode_value-ok :
      (k : SigningKey) (payload : Bytes)
      → IsKeyPair k
      → decode_value env (env.base64_encode (k.sign payload)) ≡ ok (k.sign payload)
  unfolding decode_value
  decode_value-ok k payload pair =
      ground (arith, pair.decodes (k.sign payload), pair.signature_size payload)

  sign_payload-verify_payload :
      (k : SigningKey) (payload : Bytes) (at : ℕ)
      → IsKeyPair k
      → verify_payload env payload (sign_payload env k payload at) k.public_key ≡ ok tt
  unfolding verify_payload sign_payload
  sign_payload-verify_payload k payload at pair = rw (compare_bytes_refl (utf8 "Ed25519")) (
      rw (compare_bytes_refl k.public_key) (
        rw (decode_key-ok k pair) (
          rw (decode_value-ok k payload pair)
            (rw (compare_bytes_refl (env.sha256_hex payload)) (rw (pair.verifies payload) refl)))))

  -- An offer that a key pair signed verifies with the signature.
  pub sign_offer-verify_offer :
      (k : SigningKey) (o : OfferTerms) (at : ℕ) (sig : Signature)
      → IsKeyPair k
      → sign_offer env k o at ≡ ok sig
      → (verify_offer env o sig ≡ ok tt) × (sig.signed_at ≡ at)
  unfolding sign_offer verify_offer sign_payload
  sign_offer-verify_offer k o at sig pair h =
      let (_, mine, made) =
        chain-ok (reject_if (not (same_bytes o.seller k.public_key)) other_author) _ h in
      let seller : o.seller ≡ k.public_key =
        same_bytes_sound o.seller k.public_key (ground arith) in
      elim (Option-cases (env.base58_decode o.mint)) [
        | inl e ↦ absurd (ground arith)
        | inr (mint, e) ↦
            let same : sign_payload env k (offer_bytes env o at) at ≡ sig = ground arith in
            subst
              (λ s.
                (verify_payload env (offer_bytes env o s.signed_at) s o.seller ≡ ok tt)
                × (s.signed_at ≡ at))
              same
              (
                subst
                    (λ x.
                      verify_payload env (offer_bytes env o at)
                        (sign_payload env k (offer_bytes env o at) at) x
                      ≡ ok tt)
                    (sym seller) (sign_payload-verify_payload k (offer_bytes env o at) at pair),
                refl,
              )
      ]

  -- The key that a signature names and its value decode, and the key signed these bytes.
  pub record IsSignatureOn (payload : Bytes) (sig : Signature) : Type 0 where
    pub key : Bytes
    pub value : Bytes
    pub key_decodes : decode_key env sig.key_id ≡ ok key
    pub value_decodes : decode_value env sig.value ≡ ok value
    pub verifies : env.ed25519_verify key payload value ≡ true

  verify_payload-accepts :
      (payload : Bytes) (sig : Signature) (expected : Bytes)
      → verify_payload env payload sig expected ≡ ok tt
      → (sig.key_id ≡ expected) × (sig.digest ≡ env.sha256_hex payload) × IsSignatureOn payload sig
  unfolding verify_payload
  verify_payload-accepts payload sig expected h =
      let (_, _, h1) =
        chain-ok (reject_if (not (same_bytes sig.alg (utf8 "Ed25519"))) unsupported_algorithm) _
          h in
      let (_, named, h2) =
        chain-ok (reject_if (not (same_bytes sig.key_id expected)) other_key) _ h1 in
      let (key, key_decodes, h3) = chain-ok (decode_key env sig.key_id) _ h2 in
      let (value, value_decodes, h4) = chain-ok (decode_value env sig.value) _ h3 in
      let (_, digest, h5) =
        chain-ok (reject_if (not (same_bytes sig.digest (env.sha256_hex payload))) other_content) _
          h4 in
      (
        same_bytes_sound sig.key_id expected (ground arith),
        same_bytes_sound sig.digest (env.sha256_hex payload) (ground arith),
        record {
          key = key;
          value = value;
          key_decodes = key_decodes;
          value_decodes = value_decodes;
          verifies = ground arith;
        },
      )

  -- If a signature verifies for two offers, it names the seller of the first, that key and the value
  -- decode, and Ed25519 accepts the value for the canonical bytes of the first at the time of the
  -- signature; and the two have the same terms, the capabilities and the settlement modes as sets. The
  -- conditions are that no text of the two and of the time is too long, and that SHA-256 does not give
  -- their two encodings one digest.
  pub verify_offer-IsSame :
      (o p : OfferTerms) (sig : Signature)
      → IsSized o
      → IsSized p
      → is_short (env.format_time sig.signed_at) ≡ true
      → (env.sha256_hex (offer_bytes env o sig.signed_at)
            ≡ env.sha256_hex (offer_bytes env p sig.signed_at)
          → offer_bytes env o sig.signed_at ≡ offer_bytes env p sig.signed_at)
      → verify_offer env o sig ≡ ok tt
      → verify_offer env p sig ≡ ok tt
      → IsSame o p × (sig.key_id ≡ o.seller) × IsSignatureOn (offer_bytes env o sig.signed_at) sig
  unfolding verify_offer
  verify_offer-IsSame o p sig ho hp short distinct vo vp =
      let (mine, first, signed) =
        verify_payload-accepts (offer_bytes env o sig.signed_at) sig o.seller vo in
      let (_, second, _) =
        verify_payload-accepts (offer_bytes env p sig.signed_at) sig p.seller vp in
      let (same, _) =
        offer_bytes-IsSame env o p sig.signed_at sig.signed_at ho hp short short
          (distinct (sym first ∙ second)) in
      (same, mine, signed)
