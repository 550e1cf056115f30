-- ===== src/Auth/Once.antt =====
-- internal/auth/auth.go: the life of a challenge under any calls.
use vtessera.Common.{
  ℕ, ◌≡◌, ◌≢◌, ◌<◌, refl, true, false, some, List, [], ◌∷◌, ◌++◌, String, ok, arith, inl, inr,
  Result-cases, Option-cases, Bool-cases,
}
use vtessera.Bytes.{Bytes}
use vtessera.Store.Query.{find_by, update_by}
use vtessera.Auth.{
  Challenge, Session, Library, AuthService, has_challenge_id, is_consumed, is_unconsumed_with,
  consume, create_challenge, consume_challenge, parse_public_key, challenge_for, issue_challenge,
  redeem, redeem_consumed,
}

module _ (lib : Library) (svc : AuthService) where
  -- Any call of any agent, at any time.
  pub data AuthStep : List Challenge → List Challenge → Type 0 where
    issues :
        (rows : List Challenge) (now : ℕ) (id : String) (nonce : Bytes) (agent_id : String)
        → AuthStep rows (issue_challenge lib svc now id nonce agent_id rows).1
    redeems :
        (rows : List Challenge) (now : ℕ) (id signature : String)
        → AuthStep rows (redeem lib svc now id signature rows).1

  pub data AuthSteps : List Challenge → List Challenge → Type 0 where
    no_call : {rows : List Challenge} → AuthSteps rows rows
    then_call :
        {first middle last : List Challenge}
        → AuthSteps first middle
        → AuthStep middle last
        → AuthSteps first last

-- The challenge was there, and is consumed.
abbrev pub IsSpent : String → List Challenge → Type 0
IsSpent id rows =
    (c : Challenge) × (find_by (has_challenge_id id) rows ≡ some c) × (is_consumed c ≡ true)

find-append :
    (id : String) (rows : List Challenge) (c new : Challenge)
    → find_by (has_challenge_id id) rows ≡ some c
    → find_by (has_challenge_id id) (rows ++ (new ∷ [])) ≡ some c
unfolding find_by
find-append id [] c new h = absurd (cc)
find-append id (x ∷ rows) c new h = ground (arith, find-append id rows c new)

-- A consumed row is not written again.
find-consumed :
    (id j : String) (at : ℕ) (rows : List Challenge) (c : Challenge)
    → find_by (has_challenge_id id) rows ≡ some c
    → is_consumed c ≡ true
    → find_by (has_challenge_id id) (update_by (is_unconsumed_with j) (consume at) rows) ≡ some c
unfolding find_by update_by
find-consumed id j at [] c h k = absurd (cc)
find-consumed id j at (x ∷ rows) c h k = ground (arith, find-consumed id j at rows c)

-- The row that a call consumes is found consumed.
find-consumes :
    (id : String) (at : ℕ) (rows : List Challenge) (c : Challenge)
    → find_by (has_challenge_id id) rows ≡ some c
    → is_consumed c ≡ false
    → find_by (has_challenge_id id) (update_by (is_unconsumed_with id) (consume at) rows)
      ≡ some (consume at c)
unfolding find_by update_by
find-consumes id at [] c h k = absurd (cc)
find-consumes id at (x ∷ rows) c h k = ground (arith, find-consumes id at rows c)

create-IsSpent :
    (id : String) (rows rows' : List Challenge) (c : Challenge)
    → create_challenge rows c ≡ ok rows'
    → IsSpent id rows
    → IsSpent id rows'
unfolding create_challenge
create-IsSpent id rows rows' new h (c, found, spent) =
    let e : rows ++ (new ∷ []) ≡ rows' = ground arith in
    rw (← e) (c, find-append id rows c new found, spent)

-- What a consumption writes.
pub consume_challenge-ok :
    (rows rows' : List Challenge) (id : String) (at : ℕ) (c : Challenge)
    → consume_challenge rows id at ≡ ok (c, rows')
    → (row : Challenge) × (find_by (has_challenge_id id) rows ≡ some row)
      × (is_consumed row ≡ false)
      × (at < row.expires_at)
      × (c ≡ consume at row)
      × (rows' ≡ update_by (is_unconsumed_with id) (consume at) rows)
unfolding consume_challenge
consume_challenge-ok rows rows' id at c h =
    elim (Option-cases (find_by (has_challenge_id id) rows)) [
      | inl e ↦ absurd (ground arith)
      | inr (row, e) ↦ (row, e, ground arith, ground arith, ground arith, ground arith)
    ]

consume-IsSpent :
    (id j : String) (at : ℕ) (rows rows' : List Challenge) (c : Challenge)
    → consume_challenge rows j at ≡ ok (c, rows')
    → IsSpent id rows
    → IsSpent id rows'
consume-IsSpent id j at rows rows' c h (d, found, spent) =
    let (_, _, _, _, _, e) = consume_challenge-ok rows rows' j at c h in
    rw e (d, find-consumed id j at rows d found spent, spent)

consume_challenge-spent :
    (id : String) (at : ℕ) (rows : List Challenge)
    → IsSpent id rows
    → (p : Challenge × List Challenge) → consume_challenge rows id at ≢ ok p
unfolding consume_challenge
consume_challenge-spent id at rows (c, found, spent) p h = ground arith

module _ (lib : Library) (svc : AuthService) where
  AuthStep-IsSpent :
      (id : String) {rows rows' : List Challenge}
      → AuthStep lib svc rows rows'
      → IsSpent id rows
      → IsSpent id rows'
  unfolding issue_challenge redeem
  AuthStep-IsSpent id (issues rows now j nonce agent_id) spent =
      let challenge = challenge_for lib svc now j nonce agent_id in
      elim (Bool-cases (parse_public_key lib agent_id)) [
        | inr e ↦ rw (e, issue_challenge) spent
        | inl e ↦ elim (Result-cases (create_challenge rows challenge)) [
          | inr (x, f) ↦ rw (e, issue_challenge) (rw f spent)
          | inl (rows', f) ↦
              rw (e, issue_challenge) (rw f (create-IsSpent id rows rows' challenge f spent))
        ]
      ]
  AuthStep-IsSpent id (redeems rows now j signature) spent =
      elim (Option-cases (lib.base64_decode signature)) [
        | inl e ↦ rw (e, redeem) spent
        | inr (bytes, e) ↦ elim (Result-cases (consume_challenge rows j now)) [
          | inr (x, f) ↦ rw (e, redeem) (rw f spent)
          | inl ((c, rows'), f) ↦
              rw (e, redeem) (rw f (consume-IsSpent id j now rows rows' c f spent))
        ]
      ]

  AuthSteps-IsSpent :
      (id : String) {rows rows' : List Challenge}
      → AuthSteps lib svc rows rows'
      → IsSpent id rows
      → IsSpent id rows'
  AuthSteps-IsSpent id no_call spent = spent
  AuthSteps-IsSpent id (then_call steps step) spent =
      AuthStep-IsSpent id step (AuthSteps-IsSpent id steps spent)

  -- A redemption that returns a session has consumed the challenge.
  pub redeem-ok :
      (now : ℕ) (id signature : String) (rows : List Challenge) (s : Session)
      → (redeem lib svc now id signature rows).0 ≡ ok s
      → (bytes : Bytes) × (c : Challenge) × (rows' : List Challenge) × (lib.base64_decode signature
          ≡ some bytes)
        × (consume_challenge rows id now ≡ ok (c, rows'))
        × (redeem_consumed lib svc now c bytes ≡ ok s)
        × ((redeem lib svc now id signature rows).1 ≡ rows')
  unfolding redeem
  redeem-ok now id signature rows s h = elim (Option-cases (lib.base64_decode signature)) [
    | inl e ↦ absurd (ground arith)
    | inr (bytes, e) ↦ elim (Result-cases (consume_challenge rows id now)) [
      | inr (x, f) ↦ absurd (ground arith)
      | inl ((c, rows'), f) ↦ (bytes, c, rows', e, f, ground arith, ground arith)
    ]
  ]

  redeem-spends :
      (now : ℕ) (id signature : String) (rows : List Challenge) (s : Session)
      → (redeem lib svc now id signature rows).0 ≡ ok s
      → IsSpent id (redeem lib svc now id signature rows).1
  redeem-spends now id signature rows s h =
      let (bytes, c, rows', _, consumed, _, same) = redeem-ok now id signature rows s h in
      let (row, found, fresh, _, _, e) = consume_challenge-ok rows rows' id now c consumed in
      rw (same, e) (consume now row, find-consumes id now rows row found fresh, refl)

  -- A challenge that was redeemed is never redeemed again, whatever calls of any agents come in
  -- between, and whatever the signature is.
  pub redeem_once :
      (now later : ℕ) (id signature second_signature : String) (rows after : List Challenge)
      (s t : Session)
      → (redeem lib svc now id signature rows).0 ≡ ok s
      → AuthSteps lib svc (redeem lib svc now id signature rows).1 after
      → (redeem lib svc later id second_signature after).0 ≢ ok t
  redeem_once now later id signature second_signature rows after s t h steps again =
      let spent = AuthSteps-IsSpent id steps (redeem-spends now id signature rows s h) in
      let (_, c, rows', _, consumed, _, _) = redeem-ok later id second_signature after t again in
      consume_challenge-spent id later after spent (c, rows') consumed
