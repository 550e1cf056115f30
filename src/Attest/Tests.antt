-- ===== src/Attest/Tests.antt =====
-- Signatures over an offer at a small platform: base64 and SHA-256 leave bytes as they are, and a
-- signature repeats the length of what it signs.
use vtessera.Common.{
  ℕ, ◌≡◌, ◌≢◌, ◌==◌, refl, Bool, false, some, List, [], ◌∷◌, length, replicate, ok, err, arith,
}
use vtessera.Bytes.{Bytes, utf8}
use vtessera.Attest.{
  Signature, SigningKey, sign_payload, sign_offer, verify_offer, other_author, other_content,
}
use vtessera.Attest.Encoder.{
  Platform, OfferTerms, Card, Probe, offer_bytes, card_bytes, probe_bytes, sorted_unique,
}
use vtessera.Attest.Fields.{AreShort}
use vtessera.Attest.Same.{IsSized, IsSame, offer_bytes-IsSame, kinds_differ}
use vtessera.Attest.Signed.{IsKeyPair, IsSignatureOn, sign_offer-verify_offer, verify_offer-IsSame}

abbrev starts_with : ℕ → Bytes → Bool
starts_with n [] = false
starts_with n (x ∷ xs) = x == n

abbrev platform : Platform
platform = record {
  base58_decode = λ s. some (replicate 32 1);
  base64_decode = λ s. some s;
  base64_encode = λ b. b;
  ed25519_verify = λ key m v. starts_with (length m) v;
  format_time = λ t. 48 ∷ [];
  sha256_hex = λ m. m;
}

abbrev key : SigningKey
key = record { public_key = 75 ∷ []; sign = λ m. replicate 64 (length m) }

key-IsKeyPair : IsKeyPair platform key
key-IsKeyPair = record {
  key = replicate 32 1;
  named = refl;
  key_size = refl;
  signature_size = λ m. refl;
  decodes = λ m. refl;
  verifies = λ m. ground arith;
}

abbrev listing : List Bytes → OfferTerms
listing capabilities = record {
  id = 49 ∷ [];
  seller = 75 ∷ [];
  description = 97 ∷ 10 ∷ 58 ∷ [];
  direction = 97 ∷ [];
  capabilities = capabilities;
  mint = 77 ∷ [];
  scale = 54 ∷ [];
  amount_base_units = 50 ∷ [];
  unit_amount = 50 ∷ [];
  settlement_modes = [];
}

abbrev one_way : OfferTerms
one_way = listing ((97 ∷ []) ∷ (98 ∷ []) ∷ [])

abbrev other_way : OfferTerms
other_way = listing ((98 ∷ []) ∷ (97 ∷ []) ∷ (98 ∷ []) ∷ [])

one_way-capabilities : AreShort (sorted_unique one_way.capabilities)
unfolding sorted_unique
one_way-capabilities = (ground arith, refl)

other_way-capabilities : AreShort (sorted_unique other_way.capabilities)
unfolding sorted_unique
other_way-capabilities = (ground arith, refl)

no_modes : AreShort (sorted_unique [])
unfolding sorted_unique
no_modes = (ground arith, refl)

one_way-IsSized : IsSized one_way
one_way-IsSized = record {
  id = refl;
  seller = refl;
  description = refl;
  direction = refl;
  capabilities = one_way-capabilities;
  mint = refl;
  scale = refl;
  amount_base_units = refl;
  unit_amount = refl;
  settlement_modes = no_modes;
}

other_way-IsSized : IsSized other_way
other_way-IsSized = record {
  id = refl;
  seller = refl;
  description = refl;
  direction = refl;
  capabilities = other_way-capabilities;
  mint = refl;
  scale = refl;
  amount_base_units = refl;
  unit_amount = refl;
  settlement_modes = no_modes;
}

one_encoding : offer_bytes platform one_way 3 ≡ offer_bytes platform other_way 3
unfolding offer_bytes sorted_unique
one_encoding = refl

offer_bytes-IsSame_example :
    IsSame one_way other_way × (platform.format_time 3 ≡ platform.format_time 3)
offer_bytes-IsSame_example =
    offer_bytes-IsSame platform one_way other_way 3 3 one_way-IsSized other_way-IsSized refl refl
      one_encoding

abbrev signature : Signature
signature = sign_payload platform key (offer_bytes platform one_way 3) 3

signed : sign_offer platform key one_way 3 ≡ ok signature
unfolding sign_offer vtessera.Bytes.compare_bytes
signed = refl

sign_offer-verify_offer_example :
    (verify_offer platform one_way signature ≡ ok tt) × (signature.signed_at ≡ 3)
sign_offer-verify_offer_example =
    sign_offer-verify_offer platform key one_way 3 signature key-IsKeyPair signed

one_way-verified : verify_offer platform one_way signature ≡ ok tt
unfolding verify_offer vtessera.Attest.verify_payload sign_payload utf8 vtessera.Attest.decode_key
    vtessera.Attest.decode_value offer_bytes vtessera.Attest.Encoder.header
    vtessera.Attest.Encoder.field vtessera.Bytes.format_uint vtessera.Attest.Encoder.list_field
    vtessera.Attest.Encoder.count_line sorted_unique vtessera.Attest.Encoder.elements
one_way-verified = refl

other_way-verified : verify_offer platform other_way signature ≡ ok tt
unfolding verify_offer vtessera.Attest.verify_payload sign_payload utf8 vtessera.Attest.decode_key
    vtessera.Attest.decode_value offer_bytes vtessera.Attest.Encoder.header
    vtessera.Attest.Encoder.field vtessera.Bytes.format_uint vtessera.Attest.Encoder.list_field
    vtessera.Attest.Encoder.count_line sorted_unique vtessera.Attest.Encoder.elements
other_way-verified = refl

changed : verify_offer platform (listing ((97 ∷ []) ∷ [])) signature ≡ err other_content
unfolding verify_offer vtessera.Attest.verify_payload sign_payload utf8 vtessera.Attest.decode_key
    vtessera.Attest.decode_value offer_bytes vtessera.Attest.Encoder.header
    vtessera.Attest.Encoder.field vtessera.Bytes.format_uint vtessera.Attest.Encoder.list_field
    vtessera.Attest.Encoder.count_line sorted_unique
changed = refl

verify_offer-IsSame_example :
    IsSame one_way other_way
    × (signature.key_id ≡ one_way.seller)
    × IsSignatureOn platform (offer_bytes platform one_way signature.signed_at) signature
verify_offer-IsSame_example =
    verify_offer-IsSame platform one_way other_way signature one_way-IsSized other_way-IsSized refl
      (λ e. e) one_way-verified other_way-verified

abbrev card : Card
card = record {
  agent_id = 75 ∷ [];
  name = [];
  description = [];
  version = [];
  url = [];
  capabilities = [];
  skills = [];
  currencies = [];
  settlement_modes = [];
  probe_target = [];
}

abbrev probe : Probe
probe = record { agent_id = 75 ∷ []; target = []; results = []; checked_at = 3 }

kinds_differ_example :
    (offer_bytes platform one_way 3 ≢ card_bytes platform card 3)
    × (offer_bytes platform one_way 3 ≢ probe_bytes platform probe 3)
    × (card_bytes platform card 3 ≢ probe_bytes platform probe 3)
kinds_differ_example = kinds_differ platform one_way card probe 3 3
