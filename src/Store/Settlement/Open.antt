-- ===== src/Store/Settlement/Open.antt =====
-- internal/store/settlement.go: how many issued requests a trade has, and what the writes of
-- requests leave alone.
use vtessera.Common.{
  ℕ, ◌≤◌, ◌≡◌, refl, subst, Bool, true, false, List, [], ◌∷◌, ◌++◌, String, str_eq, eq_iff, length,
  length-append, ok, arith, inl, inr, Bool-cases,
}
use vtessera.Cluster.{Cluster}
use vtessera.Domain.{SettlementRequest}
use vtessera.Store.{Db}
use vtessera.Store.Query.{filter_by, update_by, filter_by-append}
use vtessera.Store.Settlement.{
  is_open_for, retire, expire_settlement_requests, insert_request, create_settlement_request,
  set_settlement_signature, confirm_settlement_request, expire_for_cluster, update_one,
}

abbrev pub open_requests : Db → String → List SettlementRequest
open_requests db trade_id = filter_by (is_open_for trade_id) db.settlement_requests

-- No trade has two issued requests.
abbrev pub OneOpen : Db → Type 0
OneOpen db = (trade_id : String) → length (open_requests db trade_id) ≤ 1

-- Any one write of the table of requests.
pub data RequestWrite : Db → Db → Type 0 where
  creates :
      (db db' : Db) (r : SettlementRequest)
      → create_settlement_request db r ≡ ok db'
      → RequestWrite db db'
  signs :
      (db db' : Db) (id signature : String) (at : ℕ)
      → set_settlement_signature db id signature at ≡ ok db'
      → RequestWrite db db'
  confirms :
      (db db' : Db) (id signature : String) (at : ℕ)
      → confirm_settlement_request db id signature at ≡ ok db'
      → RequestWrite db db'
  expires :
      (db : Db) (trade_id : String) (at : ℕ)
      → RequestWrite db (expire_settlement_requests db trade_id at)
  withdraws :
      (db : Db) (trade_id : String) (running : Cluster) (at : ℕ)
      → RequestWrite db (expire_for_cluster db trade_id running at)

-- The trades and their log are not touched.
pub RequestWrite-apart :
    {db db' : Db}
    → RequestWrite db db'
    → (db'.trades ≡ db.trades) × (db'.trade_events ≡ db.trade_events)
unfolding create_settlement_request set_settlement_signature confirm_settlement_request
    expire_for_cluster
RequestWrite-apart (creates db db' r h) = ground arith
RequestWrite-apart (signs db db' id signature at h) = ground arith
RequestWrite-apart (confirms db db' id signature at h) = ground arith
RequestWrite-apart (expires db trade_id at) = (refl, refl)
RequestWrite-apart (withdraws db trade_id running at) = (refl, refl)

-- A change that opens no row leaves no more rows open.
open-update-le :
    (trade_id : String) (p : SettlementRequest → Bool) (f : SettlementRequest → SettlementRequest)
    (xs : List SettlementRequest)
    → ((r : SettlementRequest) → is_open_for trade_id (f r) ≡ true → is_open_for trade_id r ≡ true)
    → length (filter_by (is_open_for trade_id) (update_by p f xs))
      ≤ length (filter_by (is_open_for trade_id) xs)
unfolding filter_by update_by
open-update-le trade_id p f [] h = omega arith
open-update-le trade_id p f (x ∷ xs) h =
    let rest = open-update-le trade_id p f xs h in
    elim (Bool-cases (p x)) [
      | inr e ↦ rw e (elim (Bool-cases (is_open_for trade_id x)) [
        | inl g ↦ rw g (omega arith)
        | inr g ↦ rw g rest
      ])
      | inl e ↦ rw e (elim (Bool-cases (is_open_for trade_id (f x))) [
        | inl k ↦ rw (k, h x k) (omega arith)
        | inr k ↦ elim (Bool-cases (is_open_for trade_id x)) [
          | inl g ↦ rw (k, g) (omega arith)
          | inr g ↦ rw (k, g) rest
        ]
      ])
    ]

retire-closes :
    (trade_id : String) (at : ℕ) (r : SettlementRequest)
    → is_open_for trade_id (retire at r) ≡ false
unfolding is_open_for
retire-closes trade_id at r = ground arith

retire-opens_none :
    (trade_id : String) (at : ℕ) (r : SettlementRequest)
    → is_open_for trade_id (retire at r) ≡ true
    → is_open_for trade_id r ≡ true
retire-opens_none trade_id at r h = absurd (ground (arith, retire-closes trade_id at r))

-- Retiring the issued requests of a trade leaves none.
open-retired :
    (trade_id : String) (at : ℕ) (xs : List SettlementRequest)
    → filter_by (is_open_for trade_id) (update_by (is_open_for trade_id) (retire at) xs) ≡ []
unfolding filter_by update_by
open-retired trade_id at [] = refl
open-retired trade_id at (x ∷ xs) = elim (Bool-cases (is_open_for trade_id x)) [
  | inl e ↦ rw (e, retire-closes trade_id at x) (open-retired trade_id at xs)
  | inr e ↦ rw e (rw e (open-retired trade_id at xs))
]

insert_request-rows :
    (db db' : Db) (r : SettlementRequest)
    → insert_request db r ≡ ok db'
    → db'.settlement_requests ≡ db.settlement_requests ++ (r ∷ [])
unfolding insert_request
insert_request-rows db db' r h = ground arith

create-rows :
    (db db' : Db) (r : SettlementRequest)
    → create_settlement_request db r ≡ ok db'
    → db'.settlement_requests
      ≡ update_by (is_open_for r.trade_id) (retire r.created_at) db.settlement_requests ++ (r ∷ [])
unfolding create_settlement_request expire_settlement_requests
create-rows db db' r h =
    insert_request-rows (expire_settlement_requests db r.trade_id r.created_at) db' r (ground arith)

open-other :
    (trade_id : String) (r : SettlementRequest)
    → str_eq r.trade_id trade_id ≡ false
    → is_open_for trade_id r ≡ false
unfolding is_open_for
open-other trade_id r h = rw h refl

open-one :
    (trade_id : String) (r : SettlementRequest)
    → length (filter_by (is_open_for trade_id) (r ∷ [])) ≤ 1
unfolding filter_by
open-one trade_id r = elim (Bool-cases (is_open_for trade_id r)) [
  | inl e ↦ rw e (omega arith)
  | inr e ↦ rw e (omega arith)
]

open-outside :
    (trade_id : String) (r : SettlementRequest)
    → str_eq r.trade_id trade_id ≡ false
    → length (filter_by (is_open_for trade_id) (r ∷ [])) ≡ 0
unfolding filter_by
open-outside trade_id r h = rw (open-other trade_id r h) refl

created-OneOpen :
    (xs : List SettlementRequest) (r : SettlementRequest) (at : ℕ) (trade_id : String)
    → length (filter_by (is_open_for trade_id) xs) ≤ 1
    → length (
        filter_by
          (is_open_for trade_id)
          (update_by (is_open_for r.trade_id) (retire at) xs ++ (r ∷ [])))
      ≤ 1
created-OneOpen xs r at trade_id h =
    rw (filter_by-append, length-append)
      (elim (Bool-cases (str_eq r.trade_id trade_id)) [
        | inl e ↦
            let same : r.trade_id ≡ trade_id = ground (arith, eq_iff r.trade_id trade_id) in
            let none_left = open-retired r.trade_id at xs in
            rw
              (subst
                (λ i.
                  filter_by (is_open_for i) (update_by (is_open_for r.trade_id) (retire at) xs)
                  ≡ [])
                same none_left)
              (omega (arith, open-one trade_id r))
        | inr e ↦ omega (
          arith,
          open-update-le trade_id (is_open_for r.trade_id) (retire at) xs
              (retire-opens_none trade_id at),
          open-outside trade_id r e,
        )
      ])

update_one-rows :
    (db db' : Db) (p : SettlementRequest → Bool) (f : SettlementRequest → SettlementRequest)
    → update_one db p f ≡ ok db'
    → db'.settlement_requests ≡ update_by p f db.settlement_requests
update_one-rows db db' p f h = ground arith

updated-OneOpen :
    (db db' : Db) (p : SettlementRequest → Bool) (f : SettlementRequest → SettlementRequest)
    → db'.settlement_requests ≡ update_by p f db.settlement_requests
    → ((trade_id : String) (r : SettlementRequest)
        → is_open_for trade_id (f r) ≡ true
        → is_open_for trade_id r ≡ true)
    → OneOpen db
    → OneOpen db'
updated-OneOpen db db' p f rows h one trade_id =
    rw rows
      (omega (arith, one trade_id, open-update-le trade_id p f db.settlement_requests (h trade_id)))

-- Every write of the requests keeps the trades at one issued request.
pub RequestWrite-OneOpen : {db db' : Db} → RequestWrite db db' → OneOpen db → OneOpen db'
unfolding set_settlement_signature confirm_settlement_request expire_settlement_requests
    expire_for_cluster is_open_for
RequestWrite-OneOpen (creates db db' r h) one = λ trade_id.
    rw (create-rows db db' r h)
      (created-OneOpen db.settlement_requests r r.created_at trade_id (one trade_id))
RequestWrite-OneOpen (signs db db' id signature at h) one =
    updated-OneOpen db db' _ _ (update_one-rows db db' _ _ h) (λ trade_id r k. k) one
RequestWrite-OneOpen (confirms db db' id signature at h) one =
    updated-OneOpen db db' _ _ (update_one-rows db db' _ _ h)
      (λ trade_id r k. absurd (ground arith)) one
RequestWrite-OneOpen (expires db trade_id at) one =
    updated-OneOpen db (expire_settlement_requests db trade_id at) _ _ refl
      (λ i. retire-opens_none i at) one
RequestWrite-OneOpen (withdraws db trade_id running at) one =
    updated-OneOpen db (expire_for_cluster db trade_id running at) _ _ refl
      (λ i. retire-opens_none i at) one
