-- ===== src/Ledger/Chain.antt =====
-- The log of internal/ledger/ledger.go as a chain of digests, with other writers in between.
use vtessera.Common.{
  ℕ, zero, suc, ◌+◌, ◌≡◌, refl, sym, subst, Bool, false, List, [], ◌∷◌, length, String, str_eq, ok,
  arith, inl, inr, Bool-cases, Result-cases,
}
use vtessera.Store.Query.{exists_by}
use vtessera.Ledger.{
  Deps, LedgerEntry, LedgerAppend, LedgerState, append_ledger_entry, append, head_hash, next_seq,
  entry_of, is_stale,
}

-- An entry of the trade.
abbrev pub is_entry_of : String → LedgerEntry → Bool
is_entry_of trade_id e = str_eq e.trade_id trade_id

-- Newest first: each entry carries the hash of the one below it, is numbered from 1 without a gap,
-- has the digest of its own fields, and is the only one of its trade.
pub data IsChained (deps : Deps) : List LedgerEntry → Type 0 where
  genesis : IsChained deps []
  link :
      {e : LedgerEntry} {es : List LedgerEntry}
      → e.prev_hash ≡ head_hash es
      → e.seq ≡ length es + 1
      → e.hash ≡ deps.entry_hash e.seq e.prev_hash e.payload_hash
      → exists_by (is_entry_of e.trade_id) es ≡ false
      → IsChained deps es
      → IsChained deps (e ∷ es)

IsChained-seq :
    {deps : Deps} {es : List LedgerEntry} → IsChained deps es → next_seq es ≡ length es + 1
IsChained-seq genesis = refl
IsChained-seq (link p n h u c) = omega (arith, n)

-- What a transaction that goes through has written.
pub append_ledger_entry-ok :
    (deps : Deps) (s : LedgerState) (a : LedgerAppend) (r : LedgerEntry × LedgerState)
    → append_ledger_entry deps s a ≡ ok r
    → (exists_by (is_entry_of a.trade_id) s.entries ≡ false)
      × (r ≡ (
        entry_of deps s.entries a,
        record s { entries = entry_of deps s.entries a ∷ s.entries },
      ))
unfolding append_ledger_entry
append_ledger_entry-ok deps s a r h = ground arith

append_ledger_entry-IsChained :
    (deps : Deps) (s : LedgerState) (a : LedgerAppend) (r : LedgerEntry × LedgerState)
    → append_ledger_entry deps s a ≡ ok r
    → IsChained deps s.entries
    → IsChained deps r.1.entries
append_ledger_entry-IsChained deps s a r h c =
    let (fresh, made) = append_ledger_entry-ok deps s a r h in
    subst (λ x. IsChained deps x.1.entries) (sym made) (link refl (IsChained-seq c) refl fresh c)

-- Whatever the other writers do, as long as they keep the log a chain, an append keeps it one: when
-- it writes, when it meets another writer and tries again, and when it gives up.
pub append-IsChained :
    (deps : Deps) (others : ℕ → LedgerState → LedgerState) (attempts : ℕ) (a : LedgerAppend)
    (s : LedgerState)
    → ((n : ℕ) (t : LedgerState) → IsChained deps t.entries → IsChained deps (others n t).entries)
    → IsChained deps s.entries
    → IsChained deps (append deps others attempts a s).1.entries
unfolding append
append-IsChained deps others zero a s keep c = c
append-IsChained deps others (suc n) a s keep c =
    elim (Result-cases
      (append_ledger_entry deps (others n s) (record a { prev_hash = head_hash s.entries }))) [
        | inl (r, e) ↦
            rw (e, append)
              (append_ledger_entry-IsChained deps (others n s)
                (record a { prev_hash = head_hash s.entries }) r e (keep n s c))
        | inr (x, e) ↦ elim (Bool-cases (is_stale x)) [
          | inl again ↦
              rw (e, again, append)
                (append-IsChained deps others n a (others n s) keep (keep n s c))
          | inr stop ↦ rw (e, stop, append) (keep n s c)
        ]
      ]
