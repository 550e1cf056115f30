-- ===== src/Auth.antt =====
-- internal/auth/auth.go, with the challenges of internal/store/ledger.go (CreateChallenge,
-- ConsumeChallenge): the login of an agent by its key. The two readings of the clock in Redeem are
-- one; the random nonce and the identifier that the uuid package makes are arguments. Times are
-- nanoseconds.
pub mod Once
pub mod Login
mod Tests
use vtessera.Common.{
  ℕ, ◌+◌, ◌*◌, ◌/◌, Bool, true, false, not, ◌&&◌, Option, none, some, List, [], ◌∷◌, ◌++◌, ltb,
  ◌==◌, length, if◌then◌else◌, String, str_eq, Result, ok, err, ◌>>=◌, ◌>>◌, reject_if,
}
use Prim.Native.Char.{Char, code}
use vtessera.Bytes.{Bytes}
use vtessera.Domain.{trim_space}
use vtessera.Store.{StoreError, constraint, not_found, stale}
use vtessera.Store.Query.{find_by, exists_by, update_by}

pub record Challenge : Type 0 where
  pub id : String
  pub agent_id : String
  pub nonce : String
  pub expires_at : ℕ
  pub consumed : Option ℕ

pub record Session : Type 0 where
  pub token : String
  pub agent_id : String
  pub expires_at : ℕ

-- What a token claims; the issuer, the subject and the identifier are not read back.
pub record Claims : Type 0 where
  pub audience : List String
  pub issued_at : ℕ
  pub not_before : ℕ
  pub expires : ℕ

-- `panics` is that of `ed25519.Verify`, of a key that does not have 32 bytes.
pub data AuthError : Type 0 where
  invalid_key undecodable_key invalid_signature session_invalid signing_failed secret_too_short
        panics :
      AuthError
  store : StoreError → AuthError

-- What the service takes from other packages: base58, base64, ed25519 (key, message, signature) and
-- the library for tokens, which signs claims with a secret, and parses a token with the secret at
-- the time in seconds (`none` for an error, the times of the claims being checked).
pub record Library : Type 0 where
  pub base58_decode : String → Option Bytes
  pub base64_decode : String → Option Bytes
  pub base64_encode : Bytes → String
  pub ed25519_verify : Bytes → String → Bytes → Bool
  pub sign : Bytes → Claims → Option String
  pub parse : Bytes → ℕ → String → Option (List String)

-- A `Service`, with the options of `New`.
pub record AuthService : Type 0 where
  pub secret : Bytes
  pub challenge_ttl : ℕ
  pub session_ttl : ℕ

abbrev pub second : ℕ
second = 1000000000

abbrev pub default_ttl : ℕ
default_ttl = 5 * 60 * second

unfoldable pub new_auth : Bytes → (AuthService → AuthService) → Result AuthError AuthService
new_auth secret options =
    if ltb (length secret) 32
    then err secret_too_short
    else ok (
        options
          (record { secret = secret; challenge_ttl = default_ttl; session_ttl = 60 * 60 * second }))

unfoldable pub concat : String → String → String
concat String.[] t = t
concat (String.◌∷◌ c s) t = String.◌∷◌ c (concat s t)

-- `Message`
unfoldable pub challenge_message : String → String → String → String
unfolding concat
challenge_message challenge_id agent_id nonce =
    concat "vtessera/auth/v1\nchallenge:"
      (concat challenge_id (concat "\nagent:" (concat agent_id (concat "\nnonce:" nonce))))

-- The store.
abbrev pub has_challenge_id : String → Challenge → Bool
has_challenge_id id c = str_eq c.id id

abbrev pub is_consumed : Challenge → Bool
is_consumed c = elim c.consumed [ none ↦ false | some at ↦ true ]

abbrev pub is_unconsumed_with : String → Challenge → Bool
is_unconsumed_with id c = str_eq c.id id && not (is_consumed c)

abbrev pub consume : ℕ → Challenge → Challenge
consume at c = record c { consumed = some at }

unfoldable pub create_challenge : List Challenge → Challenge → Result StoreError (List Challenge)
create_challenge rows c =
    if exists_by (has_challenge_id c.id) rows then err constraint else ok (rows ++ (c ∷ []))

unfoldable pub consume_challenge :
    List Challenge → String → ℕ → Result StoreError (Challenge × List Challenge)
consume_challenge rows id at = elim (find_by (has_challenge_id id) rows) [
  | none ↦ err not_found
  | some c ↦
      if is_consumed c
      then err stale
      else if not (ltb at c.expires_at)
      then err stale
      else if exists_by (is_unconsumed_with id) rows
      then ok (consume at c, update_by (is_unconsumed_with id) (consume at) rows)
      else err stale
]

-- "Bearer " in front of a header, and what follows.
unfoldable pub strip_prefix : String → String → Option String
strip_prefix String.[] s = some s
strip_prefix (String.◌∷◌ c p) String.[] = none
strip_prefix (String.◌∷◌ c p) (String.◌∷◌ d s) =
    let rest = strip_prefix p s in if code c == code d then rest else none

-- `domain.ParsePublicKey`
unfoldable pub parse_public_key : Library → String → Bool
parse_public_key lib s =
    not (str_eq s "") && elim (lib.base58_decode s) [ none ↦ false | some raw ↦ length raw == 32 ]

module _ (lib : Library) (svc : AuthService) where
  abbrev pub challenge_for : ℕ → String → Bytes → String → Challenge
  challenge_for now id nonce agent_id = record {
    id = id;
    agent_id = agent_id;
    nonce = lib.base64_encode nonce;
    expires_at = now + svc.challenge_ttl;
    consumed = none;
  }

  unfoldable pub issue_challenge :
      ℕ → String → Bytes → String → List Challenge → Result AuthError Challenge × List Challenge
  unfolding create_challenge parse_public_key
  issue_challenge now id nonce agent_id rows =
      let challenge = challenge_for now id nonce agent_id in
      if not (parse_public_key lib agent_id)
      then (err invalid_key, rows)
      else elim (create_challenge rows challenge) [
        | err e ↦ (err (store e), rows)
        | ok created ↦ (ok challenge, created)
      ]

  abbrev pub claims_for : ℕ → String → Claims
  claims_for now agent_id = record {
    audience = agent_id ∷ [];
    issued_at = now / second;
    not_before = now / second;
    expires = (now + svc.session_ttl) / second;
  }

  unfoldable pub issue_session : ℕ → String → Result AuthError Session
  issue_session now agent_id = elim (lib.sign svc.secret (claims_for now agent_id)) [
    | none ↦ err signing_failed
    | some token ↦
        ok (record { token = token; agent_id = agent_id; expires_at = now + svc.session_ttl })
  ]

  -- `Redeem`, once the challenge is consumed.
  unfoldable pub redeem_consumed : ℕ → Challenge → Bytes → Result AuthError Session
  unfolding issue_session challenge_message
  redeem_consumed now c signature = elim (lib.base58_decode c.agent_id) [
    | none ↦ err undecodable_key
    | some key ↦
        if not (length key == 32)
        then err panics
        else if not (lib.ed25519_verify key (challenge_message c.id c.agent_id c.nonce) signature)
        then err invalid_signature
        else issue_session now c.agent_id
  ]

  unfoldable pub redeem :
      ℕ → String → String → List Challenge → Result AuthError Session × List Challenge
  unfolding redeem_consumed consume_challenge
  redeem now challenge_id signature rows = elim (lib.base64_decode signature) [
    | none ↦ (err invalid_signature, rows)
    | some bytes ↦ elim (consume_challenge rows challenge_id now) [
      | err e ↦ (err (store e), rows)
      | ok (c, consumed) ↦ (redeem_consumed now c bytes, consumed)
    ]
  ]

  -- The checks of `Authenticate` on the audience of a parsed token.
  unfoldable pub sole_agent : List String → Result AuthError String
  unfolding parse_public_key
  sole_agent [] = err session_invalid
  sole_agent (a ∷ b ∷ rest) = err session_invalid
  sole_agent (a ∷ []) = if parse_public_key lib a then ok a else err session_invalid

  -- `Authenticate`, of what stands behind "Bearer ".
  unfoldable pub authenticate_token : ℕ → String → Result AuthError String
  unfolding sole_agent trim_space
  authenticate_token now rest =
      if str_eq (trim_space rest) ""
      then err session_invalid
      else elim (lib.parse svc.secret (now / second) (trim_space rest)) [
        | none ↦ err session_invalid
        | some audience ↦ sole_agent audience
      ]

  unfoldable pub authenticate : ℕ → String → Result AuthError String
  unfolding strip_prefix authenticate_token
  authenticate now header = elim (strip_prefix "Bearer " header) [
    | none ↦ err session_invalid
    | some rest ↦ authenticate_token now rest
  ]
