-- ===== src/Attest.antt =====
-- internal/attest/attest.go: signatures over the canonical bytes of an offer, a card and a probe,
-- which Attest/Encoder makes.
pub mod Encoder
pub mod Fields
pub mod Sets
pub mod Same
pub mod Signed
mod Tests
use vtessera.Common.{
  ℕ, not, none, some, List, [], ◌∷◌, ◌==◌, if◌then◌else◌, length, Result, ok, err, ◌>>=◌, ◌>>◌,
  reject_if,
}
use vtessera.Bytes.{Bytes, utf8, compare_bytes}
use vtessera.Attest.Encoder.{
  Card, OfferTerms, Probe, Platform, same_bytes, offer_bytes, card_bytes, probe_bytes,
}

-- Every error wraps ErrInvalid.
pub data AttestError : Type 0 where
  unsupported_algorithm other_key invalid_key invalid_base64 wrong_size other_content
        does_not_verify untrusted other_author mint_not_base58 :
      AttestError

pub record Signature : Type 0 where
  pub alg : Bytes
  pub key_id : Bytes
  pub digest : Bytes
  pub value : Bytes
  pub signed_at : ℕ

-- A private key, as its public half in base58 and its signatures.
pub record SigningKey : Type 0 where
  pub public_key : Bytes
  pub sign : Bytes → Bytes

module _ (env : Platform) where
  unfoldable pub decode_key : Bytes → Result AttestError Bytes
  decode_key key_id = elim (env.base58_decode key_id) [
    | none ↦ err invalid_key
    | some raw ↦ if length raw == 32 then ok raw else err invalid_key
  ]

  unfoldable pub decode_value : Bytes → Result AttestError Bytes
  decode_value value = elim (env.base64_decode value) [
    | none ↦ err invalid_base64
    | some raw ↦ if length raw == 64 then ok raw else err wrong_size
  ]

  unfoldable pub verify_payload : Bytes → Signature → Bytes → Result AttestError (Unit {0})
  unfolding compare_bytes
  verify_payload payload sig expected = do
    reject_if (not (same_bytes sig.alg (utf8 "Ed25519"))) unsupported_algorithm
    reject_if (not (same_bytes sig.key_id expected)) other_key
    key ← decode_key sig.key_id
    value ← decode_value sig.value
    reject_if (not (same_bytes sig.digest (env.sha256_hex payload))) other_content
    reject_if (not (env.ed25519_verify key payload value)) does_not_verify

  unfoldable pub verify_any : Bytes → Signature → List Bytes → Result AttestError (Unit {0})
  verify_any payload sig [] = err untrusted
  verify_any payload sig (id ∷ ids) =
      let rest = verify_any payload sig ids in
      if same_bytes sig.key_id id then verify_payload payload sig id else rest

  unfoldable pub sign_payload : SigningKey → Bytes → ℕ → Signature
  sign_payload k payload at = record {
    alg = utf8 "Ed25519";
    key_id = k.public_key;
    digest = env.sha256_hex payload;
    value = env.base64_encode (k.sign payload);
    signed_at = at;
  }

  unfoldable pub sign_card : SigningKey → Card → ℕ → Result AttestError Signature
  sign_card k card at = do
    reject_if (not (same_bytes card.agent_id k.public_key)) other_author
    ok (sign_payload k (card_bytes env card at) at)

  unfoldable pub verify_card : Card → Signature → Result AttestError (Unit {0})
  verify_card card sig = verify_payload (card_bytes env card sig.signed_at) sig card.agent_id

  unfoldable pub verify_card_attested_by : Card → Signature → Bytes → Result AttestError (Unit {0})
  verify_card_attested_by card sig attester =
      verify_payload (card_bytes env card sig.signed_at) sig attester

  unfoldable pub verify_card_attested_by_any :
      Card → Signature → List Bytes → Result AttestError (Unit {0})
  verify_card_attested_by_any card sig ids = verify_any (card_bytes env card sig.signed_at) sig ids

  unfoldable pub sign_offer : SigningKey → OfferTerms → ℕ → Result AttestError Signature
  sign_offer k offer at = do
    reject_if (not (same_bytes offer.seller k.public_key)) other_author
    elim (env.base58_decode offer.mint) [
      | none ↦ err mint_not_base58
      | some mint ↦ ok (sign_payload k (offer_bytes env offer at) at)
    ]

  unfoldable pub verify_offer : OfferTerms → Signature → Result AttestError (Unit {0})
  verify_offer offer sig = verify_payload (offer_bytes env offer sig.signed_at) sig offer.seller

  unfoldable pub verify_probe_attested_by_any :
      Probe → Signature → List Bytes → Result AttestError (Unit {0})
  verify_probe_attested_by_any probe sig ids =
      verify_any (probe_bytes env probe sig.signed_at) sig ids

  unfoldable pub attest_card : SigningKey → Card → ℕ → Signature
  attest_card k card at = sign_payload k (card_bytes env card at) at

  unfoldable pub sign_probe : SigningKey → Probe → ℕ → Signature
  sign_probe k probe at = sign_payload k (probe_bytes env probe at) at

  unfoldable pub verify_probe_attested_by :
      Probe → Signature → Bytes → Result AttestError (Unit {0})
  verify_probe_attested_by probe sig attester =
      verify_payload (probe_bytes env probe sig.signed_at) sig attester
