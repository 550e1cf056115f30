-- ===== src/Auth/Login.antt =====
-- internal/auth/auth.go: what a redemption has checked, and the session that it opens.
use vtessera.Common.{
  ℕ, ◌≡◌, ◌≢◌, ◌<◌, ◌≤◌, ◌+◌, ◌/◌, refl, sym, ap, subst, ◌∙◌, true, false, some, List, [], ◌∷◌,
  ◌++◌, all, all-append, String, str_eq, ok, err, arith, inl, inr, Result-cases, Option-cases,
  Bool-cases,
}
use vtessera.Bytes.{Bytes}
use vtessera.Domain.{trim_space}
use vtessera.Store.Query.{find_by, update_by}
use vtessera.Auth.{
  Challenge, Session, Claims, Library, AuthService, panics, second, concat, challenge_message,
  has_challenge_id, is_consumed, is_unconsumed_with, consume, create_challenge, consume_challenge,
  parse_public_key, challenge_for, claims_for, issue_challenge, redeem, redeem_consumed,
  issue_session, sole_agent, authenticate, authenticate_token,
}
use vtessera.Auth.Once.{
  AuthStep, AuthSteps, issues, redeems, no_call, then_call, consume_challenge-ok, redeem-ok,
}

module _ (lib : Library) (svc : AuthService) where
  -- The signature is one over the challenge, by the key that is the agent's identifier.
  pub record IsSignedBy (c : Challenge) (signature : String) : Type 0 where
    pub bytes : Bytes
    pub key : Bytes
    pub decoded : lib.base64_decode signature ≡ some bytes
    pub named : lib.base58_decode c.agent_id ≡ some key
    pub verified : lib.ed25519_verify key (challenge_message c.id c.agent_id c.nonce) bytes ≡ true

  redeem_consumed-ok :
      (now : ℕ) (c : Challenge) (bytes : Bytes) (s : Session)
      → redeem_consumed lib svc now c bytes ≡ ok s
      → (key : Bytes) × (lib.base58_decode c.agent_id ≡ some key)
        × (lib.ed25519_verify key (challenge_message c.id c.agent_id c.nonce) bytes ≡ true)
        × (s.agent_id ≡ c.agent_id)
        × (s.expires_at ≡ now + svc.session_ttl)
  unfolding redeem_consumed issue_session
  redeem_consumed-ok now c bytes s h = elim (Option-cases (lib.base58_decode c.agent_id)) [
    | inl e ↦ absurd (ground arith)
    | inr (key, e) ↦ (key, e, ground arith, ground arith, ground arith)
  ]

  -- A session is opened only for a challenge that was there, not consumed and not expired, whose
  -- agent signed it; it is that agent's, and ends after the time-to-live of a session.
  pub redeem-proved :
      (now : ℕ) (id signature : String) (rows : List Challenge) (s : Session)
      → (redeem lib svc now id signature rows).0 ≡ ok s
      → (c : Challenge) × (find_by (has_challenge_id id) rows ≡ some c)
        × (is_consumed c ≡ false)
        × (now < c.expires_at)
        × IsSignedBy c signature
        × (s.agent_id ≡ c.agent_id)
        × (s.expires_at ≡ now + svc.session_ttl)
  redeem-proved now id signature rows s h =
      let (bytes, c, rows', decoded, consumed, opened, _) =
        redeem-ok lib svc now id signature rows s h in
      let (row, found, fresh, early, same, _) = consume_challenge-ok rows rows' id now c consumed in
      let (key, named, verified, agent, ends) =
        redeem_consumed-ok now (consume now row) bytes s
          (sym (ap (λ x. redeem_consumed lib svc now x bytes) same) ∙ opened) in
      (
        row,
        found,
        fresh,
        early,
        record { bytes = bytes; key = key; decoded = decoded; named = named; verified = verified },
        agent,
        ends,
      )

  -- Every challenge is for a key of 32 bytes.
  abbrev AllKeys : List Challenge → Type 0
  AllKeys rows = all (λ (c : Challenge). parse_public_key lib c.agent_id) rows ≡ true

  consumed-AllKeys :
      (id : String) (at : ℕ) (rows : List Challenge)
      → AllKeys rows
      → AllKeys (update_by (is_unconsumed_with id) (consume at) rows)
  unfolding update_by
  consumed-AllKeys id at [] h = refl
  consumed-AllKeys id at (c ∷ rows) h = ground (arith, consumed-AllKeys id at rows)

  created :
      (rows rows' : List Challenge) (c : Challenge)
      → create_challenge rows c ≡ ok rows'
      → AllKeys rows
      → parse_public_key lib c.agent_id ≡ true
      → AllKeys rows'
  unfolding create_challenge
  created rows rows' c h keys valid =
      let e : rows ++ (c ∷ []) ≡ rows' = ground arith in
      rw (← e) (all-append _ rows (c ∷ []) keys (rw valid refl))

  AuthStep-AllKeys :
      {rows rows' : List Challenge} → AuthStep lib svc rows rows' → AllKeys rows → AllKeys rows'
  unfolding issue_challenge redeem create_challenge
  AuthStep-AllKeys (issues rows now j nonce agent_id) h =
      elim (Bool-cases (parse_public_key lib agent_id)) [
        | inr e ↦ rw (e, issue_challenge) h
        | inl e ↦
            let challenge = challenge_for lib svc now j nonce agent_id in
            elim (Result-cases (create_challenge rows challenge)) [
              | inr (x, f) ↦ rw (e, issue_challenge) (rw f h)
              | inl (rows', f) ↦ rw (e, issue_challenge) (rw f (created rows rows' challenge f h e))
            ]
      ]
  AuthStep-AllKeys (redeems rows now j signature) h =
      elim (Option-cases (lib.base64_decode signature)) [
        | inl e ↦ rw (e, redeem) h
        | inr (bytes, e) ↦ elim (Result-cases (consume_challenge rows j now)) [
          | inr (x, f) ↦ rw (e, redeem) (rw f h)
          | inl ((c, rows'), f) ↦
              let (_, _, _, _, _, same) = consume_challenge-ok rows rows' j now c f in
              rw (e, redeem) (rw f (rw same (consumed-AllKeys j now rows h)))
        ]
      ]

  find-AllKeys :
      (id : String) (rows : List Challenge) (c : Challenge)
      → AllKeys rows
      → find_by (has_challenge_id id) rows ≡ some c
      → parse_public_key lib c.agent_id ≡ true
  unfolding find_by
  find-AllKeys id [] c h found = absurd (cc)
  find-AllKeys id (x ∷ rows) c h found = ground (arith, find-AllKeys id rows c)

  redeem_consumed-no_panic :
      (now : ℕ) (c : Challenge) (bytes : Bytes)
      → parse_public_key lib c.agent_id ≡ true
      → redeem_consumed lib svc now c bytes ≢ err panics
  unfolding redeem_consumed parse_public_key issue_session
  redeem_consumed-no_panic now c bytes h e = ground arith

  AuthSteps-AllKeys :
      {rows rows' : List Challenge} → AuthSteps lib svc rows rows' → AllKeys rows → AllKeys rows'
  AuthSteps-AllKeys no_call h = h
  AuthSteps-AllKeys (then_call steps step) h = AuthStep-AllKeys step (AuthSteps-AllKeys steps h)

  redeem-no_panic :
      (now : ℕ) (id signature : String) (rows : List Challenge)
      → AllKeys rows
      → (redeem lib svc now id signature rows).0 ≢ err panics
  unfolding redeem
  redeem-no_panic now id signature rows keys h = elim (Option-cases (lib.base64_decode signature)) [
    | inl e ↦ absurd (ground arith)
    | inr (bytes, e) ↦ elim (Result-cases (consume_challenge rows id now)) [
      | inr (x, f) ↦ absurd (ground arith)
      | inl ((c, rows'), f) ↦
          let (row, found, _, _, same, _) = consume_challenge-ok rows rows' id now c f in
          let valid : parse_public_key lib c.agent_id ≡ true =
            ap (λ (x : Challenge). parse_public_key lib x.agent_id) same
            ∙ find-AllKeys id rows row keys found in
          absurd (redeem_consumed-no_panic now c bytes valid (ground arith))
    ]
  ]

  -- From no challenges on, no call ends in the panic of the check of a signature.
  pub AuthSteps-no_panic :
      (rows : List Challenge) (now : ℕ) (id signature : String)
      → AuthSteps lib svc [] rows
      → (redeem lib svc now id signature rows).0 ≢ err panics
  AuthSteps-no_panic rows now id signature steps h =
      let keys = AuthSteps-AllKeys steps refl in redeem-no_panic now id signature rows keys h

authenticate-bearer :
    (lib : Library) (svc : AuthService) (at : ℕ) (token : String)
    → authenticate lib svc at (concat "Bearer " token) ≡ authenticate_token lib svc at token
unfolding authenticate concat
authenticate-bearer lib svc at token = refl

-- What the library for tokens documents: a token that was signed is parsed to its audience while
-- its times allow it, and it is a word.
pub record SignsTokens (lib : Library) : Type 0 where
  pub parses :
      (secret : Bytes) (claims : Claims) (token : String) (at : ℕ)
      → lib.sign secret claims ≡ some token
      → claims.not_before ≤ at
      → at < claims.expires
      → lib.parse secret at token ≡ some claims.audience
  pub is_word :
      (secret : Bytes) (claims : Claims) (token : String)
      → lib.sign secret claims ≡ some token
      → (trim_space token ≡ token) × (str_eq token "" ≡ false)

-- The token of a session authenticates its agent, until the second in which the session ends.
pub authenticate-issue_session :
    (lib : Library) (svc : AuthService) (now at : ℕ) (agent_id : String) (s : Session)
    → SignsTokens lib
    → parse_public_key lib agent_id ≡ true
    → issue_session lib svc now agent_id ≡ ok s
    → now / second ≤ at / second
    → at / second < s.expires_at / second
    → authenticate lib svc at (concat "Bearer " s.token) ≡ ok agent_id
unfolding authenticate_token issue_session sole_agent
authenticate-issue_session lib svc now at agent_id s signs valid issued started early =
    let claims = claims_for lib svc now agent_id in
    elim (Option-cases (lib.sign svc.secret claims)) [
      | inl e ↦ absurd (ground arith)
      | inr (token, e) ↦
          let (trimmed, nonempty) = signs.is_word svc.secret claims token e in
          let same : s.token ≡ token = ground arith in
          let ends : s.expires_at ≡ now + svc.session_ttl = ground arith in
          let early' : at / second < (now + svc.session_ttl) / second =
            subst (λ n. at / second < n / second) ends early in
          let parsed = signs.parses svc.secret claims token (at / second) e started early' in
          subst (λ x. authenticate lib svc at (concat "Bearer " x) ≡ ok agent_id) (sym same)
            (authenticate-bearer lib svc at token ∙ rw (trimmed, nonempty, parsed) (rw valid refl))
    ]
