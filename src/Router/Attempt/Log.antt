-- ===== src/Router/Attempt/Log.antt =====
-- The attempt log of a route: one failure for each candidate that was passed over, in order, and
-- the success at the end.
use ascended_core.Base.{
  ℕ, String, ◌≡◌, refl, false, none, some, List, [], ◌∷◌, ◌++◌, Bool-cases, inl, inr,
}
use mathlib.Core.List.{append_assoc, append-nil}
use ascended_core.Core.Result.{ok, err}
use ascended_core.Router.Providers.{
  Promised, fulfils, rejects, pending, CapabilityDescriptor, ProviderResponse,
}
use ascended_core.Router.Attempt.{
  RouteAttempt, RouteResult, RouteExhaustedError, route_exhausted, Awaited, resolved, threw,
  timed_out, never, with_timeout, Candidate, Routed, failed, succeeded, after_execute, after_check,
  attempt_from,
}

module _ {W T : Type 0} where
  -- the failures of the candidates, one for each
  abbrev pub Failures : List (Candidate W T) → List RouteAttempt → Type 0
  Failures [] [] = Unit
  Failures (c ∷ cs) (a ∷ log) =
      (a.provider ≡ c.name) × (a.family ≡ c.family) × (a.success ≡ false) × Failures cs log
  Failures _ _ = ⊥

  pub record Chosen (cs : List (Candidate W T)) (start : List RouteAttempt) (r : RouteResult T)
      : Type 0 where
    pub before : List (Candidate W T)
    pub chosen : Candidate W T
    pub after : List (Candidate W T)
    pub log : List RouteAttempt
    pub listed : cs ≡ before ++ chosen ∷ after
    pub failures : Failures before log
    pub logged : r.attempts ≡ start ++ (log ++ succeeded chosen ∷ [])
    pub selected : r.selected_provider ≡ chosen.name

  pub record Exhausted (cs : List (Candidate W T)) (start : List RouteAttempt)
      (e : RouteExhaustedError) : Type 0 where
    pub log : List RouteAttempt
    pub failures : Failures cs log
    pub logged : e.attempts ≡ start ++ log

  abbrev pub IsLogged : List (Candidate W T) → List RouteAttempt → Routed W T → Type 0
  IsLogged cs start (none, w) = Unit
  IsLogged cs start (some (ok r), w) = Chosen cs start r
  IsLogged cs start (some (err e), w) = Exhausted cs start e

  -- one failure more, in front
  IsLogged-cons :
      (c : Candidate W T) (cs : List (Candidate W T)) (start : List RouteAttempt) (why : String)
      (o : Routed W T)
      → IsLogged cs (start ++ failed c why ∷ []) o
      → IsLogged (c ∷ cs) start o
  IsLogged-cons c cs start why (none, w) h = tt
  IsLogged-cons c cs start why (some (ok r), w) h = record {
    before = c ∷ h.before;
    chosen = h.chosen;
    after = h.after;
    log = failed c why ∷ h.log;
    listed = rw h.listed;
    failures = (refl, refl, refl, h.failures);
    logged = rw h.logged (rw append_assoc);
    selected = h.selected;
  }
  IsLogged-cons c cs start why (some (err e), w) h = record {
    log = failed c why ∷ h.log;
    failures = (refl, refl, refl, h.failures);
    logged = rw h.logged (rw append_assoc);
  }

  module _ (c : Candidate W T) (cs : List (Candidate W T)) (start : List RouteAttempt)
      (next : List RouteAttempt → W → Routed W T)
      (ih : (log : List RouteAttempt) (w : W) → IsLogged cs log (next log w)) where
    after_execute-IsLogged :
        (awaited : Awaited (ProviderResponse T)) (w : W)
        → IsLogged (c ∷ cs) start (after_execute c start next awaited w)
    after_execute-IsLogged (resolved r) w = record {
      before = [];
      chosen = c;
      after = cs;
      log = [];
      listed = refl;
      failures = tt;
      logged = refl;
      selected = refl;
    }
    after_execute-IsLogged (threw e) w = IsLogged-cons c cs start _ (next _ w) (ih _ w)
    after_execute-IsLogged timed_out w = IsLogged-cons c cs start _ (next _ w) (ih _ w)
    after_execute-IsLogged never w = tt

    after_check-IsLogged :
        (t : ℕ) (p : Promised CapabilityDescriptor) (w : W)
        → IsLogged (c ∷ cs) start (after_check t c start next p w)
    after_check-IsLogged t (fulfils n capability) w = elim (Bool-cases capability.available) [
      | inl ready ↦
          rw ready
            (let (promise, w') = c.execute w in after_execute-IsLogged (with_timeout promise t) w')
      | inr unready ↦ rw unready (IsLogged-cons c cs start _ (next _ w) (ih _ w))
    ]
    after_check-IsLogged t (rejects n e) w = IsLogged-cons c cs start _ (next _ w) (ih _ w)
    after_check-IsLogged t pending w = tt

  -- A route that succeeds has logged one failure for each candidate in front of the selected one, in
  -- order, and its success last; a route that fails has logged one failure for each candidate.
  pub attempt_from-IsLogged :
      (t : ℕ) (cs : List (Candidate W T)) (start : List RouteAttempt) (w : W)
      → IsLogged cs start (attempt_from t cs start w)
  unfolding attempt_from route_exhausted
  attempt_from-IsLogged t [] start w = record { log = []; failures = tt; logged = rw append-nil }
  attempt_from-IsLogged t (c ∷ cs) start w =
      let (promise, w') = c.check w in
      after_check-IsLogged c cs start (attempt_from t cs) (attempt_from-IsLogged t cs) t promise w'
