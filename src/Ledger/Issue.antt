-- ===== src/Ledger/Issue.antt =====
-- `Record` of internal/ledger/ledger.go as the ledger that the trade service asks for, and a trade
-- whose receipt was lost between its entry and its signature.
use vtessera.Common.{
  ℕ, suc, ◌≡◌, refl, ap, ◌∙◌, true, false, ◌||◌, none, some, ◌∷◌, String, str_eq, eq_iff, Result,
  ok, err, arith, inl, inr, Bool-cases, Option-cases,
}
use vtessera.Domain.{Trade, Receipt}
use vtessera.Store.Query.{exists_by, find_by}
use vtessera.Trade.LedgerApi.{
  LedgerApi, LedgerError, is_completed, not_settled, already_issued, failed,
}
use vtessera.Ledger.{
  Deps, LedgerEntry, LedgerAppend, LedgerState, TesseraClaims, AppendError, append_ledger_entry,
  append, head_hash, entry_of, receipt_of, receipt_for, save_receipt, issue_receipt, record_new,
  record_trade, append_of, next_seq, trade_record, append_attempts, claims_of, constraint,
}
use vtessera.Ledger.Chain.{is_entry_of}

-- No other writer appends meanwhile.
abbrev pub alone : ℕ → LedgerState → LedgerState
alone n s = s

str_eq_self : (s : String) → str_eq s s ≡ true
str_eq_self s = ground (arith, eq_iff s s)

module _ (deps : Deps) where
  -- Alone, an append succeeds unless the trade has its entry.
  append-taken :
      (n : ℕ) (a : LedgerAppend) (s : LedgerState)
      → exists_by (is_entry_of a.trade_id) s.entries ≡ true
      → append deps alone (suc n) a s ≡ (err constraint, s)
  unfolding append append_ledger_entry
  append-taken n a s h = rw (str_eq_self (head_hash s.entries), h, append) refl

  -- The entry of a trade: its record and the digest of it, linked to the head and sealed.
  pub record IsEntryFor (t : Trade) (at : ℕ) (s : LedgerState) (e : LedgerEntry) : Type 0 where
    pub trade : e.trade_id ≡ t.id
    pub recorded : e.payload ≡ deps.marshal (trade_record t at)
    pub digested : e.payload_hash ≡ deps.payload_hash e.payload
    pub linked : e.prev_hash ≡ head_hash s.entries
    pub numbered : e.seq ≡ next_seq s.entries
    pub sealed : e.hash ≡ deps.entry_hash e.seq e.prev_hash e.payload_hash

  entry_of-IsEntryFor :
      (t : Trade) (at : ℕ) (s : LedgerState)
      → IsEntryFor t at s (entry_of deps s.entries (append_of deps t at))
  entry_of-IsEntryFor t at s = record {
    trade = refl;
    recorded = refl;
    digested = refl;
    linked = refl;
    numbered = refl;
    sealed = refl;
  }

  append-free :
      (n : ℕ) (a : LedgerAppend) (s : LedgerState)
      → exists_by (is_entry_of a.trade_id) s.entries ≡ false
      → append deps alone (suc n) a s ≡ (
        ok (entry_of deps s.entries a),
        record s { entries = entry_of deps s.entries a ∷ s.entries },
      )
  unfolding append append_ledger_entry
  append-free n a s h = rw (str_eq_self (head_hash s.entries), h, append) refl

  -- The call for a completed trade without a receipt.
  record_trade-new :
      (t : Trade) (signature cluster : String) (at : ℕ) (s : LedgerState)
      → is_completed t.state ≡ true
      → receipt_of t.id s ≡ none
      → record_trade deps alone t signature cluster at s
        ≡ record_new deps alone t signature cluster at s
  unfolding record_trade
  record_trade-new t signature cluster at s completed missing =
      rw (completed, missing, record_trade) refl

  record_new-after :
      (t : Trade) (signature cluster : String) (at : ℕ) (s after : LedgerState)
      (r : Result AppendError LedgerEntry)
      → append deps alone append_attempts (append_of deps t at) s ≡ (r, after)
      → record_new deps alone t signature cluster at s ≡ elim r [
        | err x ↦ (err failed, after)
        | ok e ↦ issue_receipt deps t at (claims_of deps t signature cluster at e) after
      ]
  unfolding record_new
  record_new-after t signature cluster at s after r h =
      ap (λ (p : Result AppendError LedgerEntry × LedgerState). concluded t signature cluster at p)
        h
    where
      concluded :
          Trade
          → String
          → String
          → ℕ
          → Result AppendError LedgerEntry × LedgerState
          → Result LedgerError Receipt × LedgerState
      concluded t signature cluster at p = elim p.0 [
        | err x ↦ (err failed, p.1)
        | ok e ↦ issue_receipt deps t at (claims_of deps t signature cluster at e) p.1
      ]

  -- A trade that has its entry but not its receipt, since the signature or the save failed, never
  -- gets one: every later call fails on the entry, and changes nothing.
  pub record_trade-stranded :
      (t : Trade) (signature cluster : String) (at : ℕ) (s : LedgerState)
      → is_completed t.state ≡ true
      → receipt_of t.id s ≡ none
      → exists_by (is_entry_of t.id) s.entries ≡ true
      → record_trade deps alone t signature cluster at s ≡ (err failed, s)
  record_trade-stranded t signature cluster at s completed missing taken =
      record_trade-new t signature cluster at s completed missing
      ∙ record_new-after t signature cluster at s s (err constraint)
          (append-taken 2 (append_of deps t at) s taken)

  issue_receipt-signed :
      (t : Trade) (at : ℕ) (claims : TesseraClaims) (s : LedgerState) (jws : String)
      → deps.sign (record claims { id = deps.new_id claims }) ≡ some jws
      → exists_by
          (λ (q : Receipt). str_eq q.id (deps.new_id claims) || str_eq q.trade_id t.id)
          s.receipts
        ≡ false
      → issue_receipt deps t at claims s ≡ (
        ok (receipt_for deps t at claims jws),
        record s { receipts = receipt_for deps t at claims jws ∷ s.receipts },
      )
  unfolding issue_receipt save_receipt
  issue_receipt-signed t at claims s jws signed fresh = rw (signed, fresh, issue_receipt) refl

  -- A completed trade that is new to the ledger gets its receipt, if the claims can be signed and
  -- the identifier is fresh: the entry is that of the trade, with its record and the digest of it, is
  -- linked to the head and sealed, and the receipt is kept.
  pub record_trade-issues :
      (t : Trade) (signature cluster : String) (at : ℕ) (s : LedgerState)
      → is_completed t.state ≡ true
      → receipt_of t.id s ≡ none
      → exists_by (is_entry_of t.id) s.entries ≡ false
      → ((claims : TesseraClaims) → (jws : String) × (deps.sign claims ≡ some jws))
      → ((claims : TesseraClaims)
          → exists_by
              (λ (q : Receipt). str_eq q.id (deps.new_id claims) || str_eq q.trade_id t.id)
              s.receipts
            ≡ false)
      → (e : LedgerEntry) × (r : Receipt) × (record_trade deps alone t signature cluster at s
          ≡ (ok r, record { entries = e ∷ s.entries; receipts = r ∷ s.receipts }))
        × IsEntryFor t at s e
        × (r.trade_id ≡ t.id)
  record_trade-issues t signature cluster at s completed missing free signs fresh =
      let e = entry_of deps s.entries (append_of deps t at) in
      let appended = append-free 2 (append_of deps t at) s free in
      let claims = claims_of deps t signature cluster at e in
      let (jws, signed) = signs (record claims { id = deps.new_id claims }) in
      (
        e,
        receipt_for deps t at claims jws,
        record_trade-new t signature cluster at s completed missing
            ∙ record_new-after t signature cluster at s (record s { entries = e ∷ s.entries })
                (ok e) appended
            ∙ issue_receipt-signed t at claims (record s { entries = e ∷ s.entries }) jws signed
                (fresh claims),
        entry_of-IsEntryFor t at s,
        refl,
      )

  save_receipt-kept :
      (r q : Receipt) (s : LedgerState)
      → (save_receipt r s).0 ≡ ok q
      → receipt_of r.trade_id (save_receipt r s).1 ≡ some q
  unfolding save_receipt receipt_of find_by
  save_receipt-kept r q s h = ground (arith, str_eq_self r.trade_id)

  save_receipt-others :
      (r : Receipt) (other : String) (s : LedgerState)
      → str_eq r.trade_id other ≡ false
      → receipt_of other (save_receipt r s).1 ≡ receipt_of other s
  unfolding save_receipt receipt_of find_by
  save_receipt-others r other s h = ground arith

  issue_receipt-kept :
      (t : Trade) (at : ℕ) (claims : TesseraClaims) (s : LedgerState) (q : Receipt)
      → (issue_receipt deps t at claims s).0 ≡ ok q
      → receipt_of t.id (issue_receipt deps t at claims s).1 ≡ some q
  unfolding issue_receipt
  issue_receipt-kept t at claims s q h =
      elim (Option-cases (deps.sign (record claims { id = deps.new_id claims }))) [
        | inl e ↦ absurd (ground arith)
        | inr (jws, e) ↦
            rw (e, issue_receipt)
              (save_receipt-kept (receipt_for deps t at claims jws) q s (ground arith))
      ]

  issue_receipt-others :
      (t : Trade) (at : ℕ) (claims : TesseraClaims) (other : String) (s : LedgerState)
      → str_eq t.id other ≡ false
      → receipt_of other (issue_receipt deps t at claims s).1 ≡ receipt_of other s
  unfolding issue_receipt
  issue_receipt-others t at claims other s h =
      elim (Option-cases (deps.sign (record claims { id = deps.new_id claims }))) [
        | inl e ↦ rw (e, issue_receipt) refl
        | inr (jws, e) ↦
            rw (e, issue_receipt) (save_receipt-others (receipt_for deps t at claims jws) other s h)
      ]

  -- What a call comes to, by whether the trade is completed and has its receipt or its entry.
  data Ends (t : Trade) (at : ℕ) (s : LedgerState)
      : Result LedgerError Receipt × LedgerState → Type 0 where
    refused : (x : LedgerError) → Ends t at s (err x, s)
    issued :
        (claims : TesseraClaims) (e : LedgerEntry)
        → Ends t at s (issue_receipt deps t at claims (record s { entries = e ∷ s.entries }))

  record_trade-Ends :
      (t : Trade) (signature cluster : String) (at : ℕ) (s : LedgerState)
      → Ends t at s (record_trade deps alone t signature cluster at s)
  unfolding record_trade
  record_trade-Ends t signature cluster at s = elim (Bool-cases (is_completed t.state)) [
    | inr e ↦ rw (e, record_trade) (refused not_settled)
    | inl e ↦ elim (Option-cases (receipt_of t.id s)) [
      | inr (r, f) ↦ rw (e, f, record_trade) (refused already_issued)
      | inl f ↦ elim (Bool-cases (exists_by (is_entry_of t.id) s.entries)) [
        | inl g ↦ rw (record_trade-stranded t signature cluster at s e f g) (refused failed)
        | inr g ↦
            let entry = entry_of deps s.entries (append_of deps t at) in
            let appended = append-free 2 (append_of deps t at) s g in
            rw
              (
                record_trade-new t signature cluster at s e f,
                record_new-after t signature cluster at s (record s { entries = entry ∷ s.entries })
                    (ok entry) appended,
              )
              (issued (claims_of deps t signature cluster at entry) entry)
      ]
    ]
  ]

  Ends-kept :
      {t : Trade} {at : ℕ} {s : LedgerState} (x : Result LedgerError Receipt × LedgerState)
      (r : Receipt)
      → Ends t at s x
      → x.0 ≡ ok r
      → receipt_of t.id x.1 ≡ some r
  Ends-kept x r (refused y) h = absurd (cc)
  Ends-kept {t} {at} {s} x r (issued claims e) h =
      issue_receipt-kept t at claims (record s { entries = e ∷ s.entries }) r h

  Ends-others :
      {t : Trade} {at : ℕ} {s : LedgerState} (x : Result LedgerError Receipt × LedgerState)
      (other : String)
      → Ends t at s x
      → str_eq t.id other ≡ false
      → receipt_of other x.1 ≡ receipt_of other s
  unfolding receipt_of
  Ends-others x other (refused y) h = refl
  Ends-others {t} {at} {s} x other (issued claims e) h =
      issue_receipt-others t at claims other (record s { entries = e ∷ s.entries }) h

  record_trade-open :
      (t : Trade) (signature cluster : String) (at : ℕ) (s : LedgerState)
      → is_completed t.state ≡ false
      → record_trade deps alone t signature cluster at s ≡ (err not_settled, s)
  unfolding record_trade
  record_trade-open t signature cluster at s h = rw (h, record_trade) refl

  record_trade-twice :
      (t : Trade) (signature cluster : String) (at : ℕ) (s : LedgerState) (r : Receipt)
      → is_completed t.state ≡ true
      → receipt_of t.id s ≡ some r
      → record_trade deps alone t signature cluster at s ≡ (err already_issued, s)
  unfolding record_trade
  record_trade-twice t signature cluster at s r h e = rw (h, e, record_trade) refl

  -- The ledger, as the trade service uses it.
  abbrev ledger_api : LedgerApi
  ledger_api = record {
    State = LedgerState;
    record_trade = record_trade deps alone;
    receipt = receipt_of;
    refuses_open = record_trade-open;
    refuses_twice = record_trade-twice;
    keeps = λ t signature cluster at s r h.
        Ends-kept (record_trade deps alone t signature cluster at s) r
          (record_trade-Ends t signature cluster at s) h;
    keeps_others = λ t signature cluster other at s h.
        Ends-others (record_trade deps alone t signature cluster at s) other
          (record_trade-Ends t signature cluster at s) h;
  }
