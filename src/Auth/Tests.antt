-- ===== src/Auth/Tests.antt =====
-- The theorems on the login at a small library: a signature is good if it is "good", and the token of
-- an agent is its identifier.
use vtessera.Common.{
  ◌≡◌, ◌≢◌, ◌<◌, ◌+◌, ◌*◌, ◌==◌, ◌&&◌, not, refl, Bool, true, false, Option, none, some, List, [],
  ◌∷◌, replicate, if◌then◌else◌, String, str_eq, eq_iff, ok, err, arith,
}
use vtessera.Bytes.{Bytes}
use vtessera.Domain.{trim_space}
use vtessera.Store.Query.{find_by}
use vtessera.Auth.{
  Challenge, Session, Library, AuthService, panics, concat, second, has_challenge_id, is_consumed,
  parse_public_key, issue_challenge, issue_session, redeem, authenticate,
}
use vtessera.Auth.Once.{AuthStep, AuthSteps, redeem_once}
use vtessera.Auth.Login.{
  IsSignedBy, SignsTokens, redeem-proved, AuthSteps-no_panic, authenticate-issue_session,
}

abbrev is_plain : String → Bool
is_plain s = str_eq (trim_space s) s && not (str_eq s "")

abbrev sign_for : List String → Option String
sign_for [] = none
sign_for (a ∷ b ∷ rest) = none
sign_for (a ∷ []) = if is_plain a then some a else none

abbrev is_good : Bytes → Bool
is_good [] = false
is_good (x ∷ xs) = x == 1

abbrev library : Library
library = record {
  base58_decode = λ s. some (replicate 32 1);
  base64_decode = λ s. if str_eq s "good" then some (1 ∷ []) else some (0 ∷ []);
  base64_encode = λ b. "nonce";
  ed25519_verify = λ key message signature. is_good signature;
  sign = λ secret claims. sign_for claims.audience;
  parse = λ secret at token. some (token ∷ []);
}

library-SignsTokens : SignsTokens library
library-SignsTokens = record {
  parses = λ secret claims token at e started early. parses claims.audience token e;
  is_word = λ secret claims token e. words claims.audience token e;
}
  where
    parses :
        (audience : List String) (token : String)
        → sign_for audience ≡ some token
        → some (token ∷ []) ≡ some audience
    parses [] token e = absurd (cc)
    parses (a ∷ []) token e = ground arith
    parses (a ∷ b ∷ rest) token e = absurd (cc)

    words :
        (audience : List String) (token : String)
        → sign_for audience ≡ some token
        → (trim_space token ≡ token) × (str_eq token "" ≡ false)
    words [] token e = absurd (cc)
    words (a ∷ []) token e = ground (arith, eq_iff (trim_space a) a)
    words (a ∷ b ∷ rest) token e = absurd (cc)

abbrev auth : AuthService
auth = record { secret = replicate 32 7; challenge_ttl = 300; session_ttl = 3600 * second }

abbrev challenge : Challenge
challenge = record {
  id = "c1";
  agent_id = "agent";
  nonce = "nonce";
  expires_at = 310;
  consumed = none;
}

abbrev session : Session
session = record { token = "agent"; agent_id = "agent"; expires_at = 20 + 3600 * second }

run_redeem : (redeem library auth 20 "c1" "good" (challenge ∷ [])).0 ≡ ok session
unfolding redeem find_by vtessera.Store.Query.exists_by trim_space
run_redeem = refl

redeem_once_example :
    (redeem library auth 30 "c1" "good" (redeem library auth 20 "c1" "good" (challenge ∷ [])).1).0
    ≢ ok session
redeem_once_example =
    redeem_once library auth 20 30 "c1" "good" "good" (challenge ∷ [])
      (redeem library auth 20 "c1" "good" (challenge ∷ [])).1 session session run_redeem
      AuthSteps.no_call

redeem-proved_example :
    (c : Challenge) × (find_by (has_challenge_id "c1") (challenge ∷ []) ≡ some c)
    × (is_consumed c ≡ false)
    × (20 < c.expires_at)
    × IsSignedBy library auth c "good"
    × (session.agent_id ≡ c.agent_id)
    × (session.expires_at ≡ 20 + auth.session_ttl)
redeem-proved_example =
    redeem-proved library auth 20 "c1" "good" (challenge ∷ []) session run_redeem

AuthSteps-no_panic_example :
    (redeem library auth 20 "c1" "good"
      (issue_challenge library auth 10 "c1" (5 ∷ []) "agent" []).1).0
    ≢ err panics
AuthSteps-no_panic_example =
    AuthSteps-no_panic library auth (issue_challenge library auth 10 "c1" (5 ∷ []) "agent" []).1 20
      "c1" "good"
      (AuthSteps.then_call AuthSteps.no_call (AuthStep.issues [] 10 "c1" (5 ∷ []) "agent"))

run_session : issue_session library auth 20 "agent" ≡ ok session
unfolding issue_session trim_space
run_session = refl

agent_valid : parse_public_key library "agent" ≡ true
unfolding parse_public_key
agent_valid = refl

authenticate-issue_session_example :
    authenticate library auth 40 (concat "Bearer " session.token) ≡ ok "agent"
authenticate-issue_session_example =
    authenticate-issue_session library auth 20 40 "agent" session library-SignsTokens agent_valid
      run_session (omega arith) (omega arith)
