-- ===== src/Trade/Methods/Raise.antt =====
-- `RaiseLimits` of internal/trade/trade.go against the ceilings of the deployment.
use vtessera.Common.{
  ℕ, ◌⊎◌, ◌≡◌, refl, ap, ◌∙◌, true, false, none, some, String, eq_iff, lookup, insert,
  lookup-insert, ok, arith, inl, inr, Bool-cases, Result-cases,
}
use vtessera.Money.{Amount, parse}
use vtessera.Limits.{Policy, Limits, effective, check, validate}
use vtessera.Limits.Caps.{passes, effective-le_ceiling, effective-default_le_ceiling}
use vtessera.Domain.{AgentLimits}
use vtessera.Store.{Db, get_agent_limits, set_agent_limits}
use vtessera.Trade.Monad.{Service, World, ◌>>=◌, throw}
use vtessera.Trade.Spend.{policy_at, stored_caps}
use vtessera.Trade.Methods.{raise_limits, raise_under, at_least}

-- What is read back is what was stored, or nothing where a cap does not parse.
stored_caps-set :
    (db : Db) (l : AgentLimits)
    → (stored_caps (set_agent_limits db l) l.agent_id ≡ some (l.per_trade_usd, l.per_day_usd))
      ⊎ (stored_caps (set_agent_limits db l) l.agent_id ≡ none)
unfolding set_agent_limits get_agent_limits
stored_caps-set db l =
    let found : lookup l.agent_id (insert l.agent_id l db.agent_limits) ≡ some l = ground (
      arith,
      lookup-insert l.agent_id l.agent_id l db.agent_limits,
      eq_iff l.agent_id l.agent_id,
    ) in
    elim (Result-cases (parse l.per_trade_usd.value)) [
      | inr (x, e) ↦ inr (ground arith)
      | inl (t, e) ↦ elim (Result-cases (parse l.per_day_usd.value)) [
        | inr (x, f) ↦ inr (ground arith)
        | inl (d, f) ↦ inl (ground arith)
      ]
    ]

-- Caps that `Check` let through are inside the ceilings when they are read again.
stored-le_ceiling :
    (svc : Service) (p : Policy) (db : Db) (l : AgentLimits)
    → svc.has_limits_store ≡ true
    → validate p ≡ ok tt
    → check p l.per_trade_usd l.per_day_usd ≡ ok tt
    → (passes
          (effective (policy_at svc (set_agent_limits db l) p) l.agent_id).per_trade
          p.ceiling_per_trade
        ≡ false)
      × (passes
            (effective (policy_at svc (set_agent_limits db l) p) l.agent_id).per_day
            p.ceiling_per_day
          ≡ false)
unfolding policy_at check validate
stored-le_ceiling svc p db l stored v c =
    let q = record p { per_agent_overrides = some (stored_caps (set_agent_limits db l)) } in
    rw (stored, policy_at)
      (elim (stored_caps-set db l) [
        | inl e ↦
            effective-le_ceiling q l.agent_id (stored_caps (set_agent_limits db l)) l.per_trade_usd
              l.per_day_usd v refl e c
        | inr e ↦
            effective-default_le_ceiling q l.agent_id (stored_caps (set_agent_limits db l)) v refl e
      ])

-- What a raise that is granted has stored and read back.
abbrev stored_limits : ℕ → Policy → String → Amount → Amount → AgentLimits
stored_limits now p agent_id per_trade per_day = record {
  agent_id = agent_id;
  per_trade_usd = at_least p.per_trade per_trade;
  per_day_usd = at_least p.per_day per_day;
  raised_at = now;
}

raise_under-granted :
    {L : Type 0} (svc : Service) (now : ℕ) (p : Policy) (agent_id : String)
    (per_trade per_day : Amount) (w : World L) (granted : Limits)
    → (raise_under svc now p agent_id per_trade per_day w).0 ≡ ok granted
    → (check p (at_least p.per_trade per_trade) (at_least p.per_day per_day) ≡ ok tt)
      × (granted
          ≡ effective
              (policy_at svc
                (set_agent_limits w.db (stored_limits now p agent_id per_trade per_day))
                p)
              agent_id)
unfolding raise_under ◌>>=◌
raise_under-granted svc now p agent_id per_trade per_day w granted h =
    elim (Result-cases (check p (at_least p.per_trade per_trade) (at_least p.per_day per_day))) [
      | inr (x, e) ↦ absurd (ground arith)
      | inl (u, e) ↦ (e, ground arith)
    ]

-- A raise that is granted leaves the agent, whatever it asked for, with caps that do not pass a
-- ceiling of a policy that validates.
pub raise_limits-le_ceiling :
    {L : Type 0} (svc : Service) (now : ℕ) (p : Policy) (agent_id : String)
    (per_trade per_day : Amount) (w : World L) (granted : Limits)
    → svc.limits ≡ some p
    → validate p ≡ ok tt
    → (raise_limits svc now agent_id per_trade per_day w).0 ≡ ok granted
    → (passes granted.per_trade p.ceiling_per_trade ≡ false)
      × (passes granted.per_day p.ceiling_per_day ≡ false)
unfolding raise_limits throw
raise_limits-le_ceiling svc now p agent_id per_trade per_day w granted limited v h =
    elim (Bool-cases svc.has_limits_store) [
      | inr off ↦ absurd (ground arith)
      | inl on ↦
          let run : (raise_under svc now p agent_id per_trade per_day w).0 ≡ ok granted =
            ground arith in
          let (allowed, same) =
            raise_under-granted svc now p agent_id per_trade per_day w granted run in
          let (t, d) =
            stored-le_ceiling svc p w.db (stored_limits now p agent_id per_trade per_day) on v
              allowed in
          (
            ap (λ (g : Limits). passes g.per_trade p.ceiling_per_trade) same ∙ t,
            ap (λ (g : Limits). passes g.per_day p.ceiling_per_day) same ∙ d,
          )
    ]
