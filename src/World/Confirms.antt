-- ===== src/World/Confirms.antt =====
-- Rules for what holds of the shared variables where a part of a body goes on, and where a function
-- returns true.
use workload_agent.Prelude.{Bool, true, false, not, none, some}
use workload_agent.Types.{Err, Result, ok, err}
use workload_agent.World.Calls.{Env, Call, State}
use workload_agent.World.Go.{
  Outcome, returned, Flow, next, early, Func, Go, continue, resume, panic, ◌>>=◌, pure, return,
  call, body, settle, invoke, gets, when, value_or, nil_or,
}
use workload_agent.World.Keeps.{Keeps}

abbrev pub OnNext {ℓ κ} : {R : Type ℓ} {A : Type κ} → (State → Type 0) → Flow R A × State → Type 0
OnNext P (next a, s) = P s
OnNext P (early r, s) = Unit
OnNext P (Flow.panicked, s) = Unit
OnNext P (Flow.exited n, s) = Unit

-- `P` holds where `m` goes on.
pub record Then {ℓ κ} {R : Type ℓ} {A : Type κ} (P : State → Type 0) (m : Go R A)
    : Type (ℓ ⊔ κ) where
  pub at : (s : State) → OnNext P (m s)

abbrev pub NotTrue {κ} : {A : Type κ} → Flow Bool A × State → Type 0
NotTrue (early true, s) = ⊥
NotTrue (early false, s) = Unit
NotTrue (next a, s) = Unit
NotTrue (Flow.panicked, s) = Unit
NotTrue (Flow.exited n, s) = Unit

-- No early return of true.
pub record Cautious {κ} {A : Type κ} (m : Go Bool A) : Type κ where
  pub at : (s : State) → NotTrue (m s)

abbrev pub OnTrue : (State → Type 0) → Flow Bool Bool × State → Type 0
OnTrue P (early true, s) = P s
OnTrue P (early false, s) = Unit
OnTrue P (next true, s) = P s
OnTrue P (next false, s) = Unit
OnTrue P (Flow.panicked, s) = Unit
OnTrue P (Flow.exited n, s) = Unit

-- `P` holds where the body `m` ends with true.
pub record Ends (P : State → Type 0) (m : Go Bool Bool) : Type 0 where
  pub at : (s : State) → OnTrue P (m s)

abbrev pub ReturnsTrue : (State → Type 0) → Outcome Bool × State → Type 0
ReturnsTrue P (returned true, s) = P s
ReturnsTrue P (returned false, s) = Unit
ReturnsTrue P (Outcome.panicked, s) = Unit
ReturnsTrue P (Outcome.exited n, s) = Unit

-- `P` holds where `f` returns true.
pub record Proves (P : State → Type 0) (f : Func Bool) : Type 0 where
  pub at : (s : State) → ReturnsTrue P (f s)

-- `P` holds where `f` returns no error.
abbrev pub ReturnsNil : (State → Type 0) → Outcome Err × State → Type 0
ReturnsNil P (returned none, s) = P s
ReturnsNil P (returned (some e), s) = Unit
ReturnsNil P (Outcome.panicked, s) = Unit
ReturnsNil P (Outcome.exited n, s) = Unit

pub record Succeeds (P : State → Type 0) (f : Func Err) : Type 0 where
  pub at : (s : State) → ReturnsNil P (f s)

module _ {κ} {A : Type κ} where
  pub Cautious-call : (f : Func A) → Cautious (call f)
  unfolding call
  Cautious-call f = record { at = λ s. resumed (f s) }
    where
      resumed : (r : Outcome A × State) → NotTrue (resume {R = Bool} r)
      resumed (returned a, s) = tt
      resumed (Outcome.panicked, s) = tt
      resumed (Outcome.exited n, s) = tt

  pub Cautious-gets : (f : State → A) → Cautious (gets f)
  unfolding gets
  Cautious-gets f = record { at = λ s. tt }

  pub Cautious-panic : Cautious (panic {R = Bool} {A = A})
  unfolding panic
  Cautious-panic = record { at = λ s. tt }

  -- An error ends the function with false.
  pub Cautious-value_or : (r : Result A) → Cautious (value_or r λ e. false)
  unfolding pure return
  Cautious-value_or (ok a) = record { at = λ s. tt }
  Cautious-value_or (err e) = record { at = λ s. tt }

  pub Cautious-return : Cautious (return {A = A} false)
  unfolding return
  Cautious-return = record { at = λ s. tt }

pub Cautious-invoke : (env : Env) (c : Call) → Cautious (invoke env c)
unfolding invoke
Cautious-invoke env c = record { at = λ s. tt }

pub Cautious-nil_or : (e : Err) → Cautious (nil_or e λ x. false)
unfolding pure return
Cautious-nil_or none = record { at = λ s. tt }
Cautious-nil_or (some e) = record { at = λ s. tt }

pub Cautious-when : (b : Bool) (m : Go Bool (Unit {0})) → Cautious m → Cautious (when b m)
unfolding pure
Cautious-when true m q = q
Cautious-when false m q = record { at = λ s. tt }

pub Cautious-bind {κ μ} :
    {A : Type κ} {B : Type μ} (m : Go Bool A) (f : A → Go Bool B)
    → Cautious m
    → ((a : A) → Cautious (f a))
    → Cautious (m >>= f)
unfolding ◌>>=◌
Cautious-bind {A} m f q kf = record { at = λ s. later (m s) (q.at s) }
  where
    later : (r : Flow Bool A × State) → NotTrue r → NotTrue (continue r f)
    later (next a, s) h = (kf a).at s
    later (early true, s) h = h
    later (early false, s) h = tt
    later (Flow.panicked, s) h = tt
    later (Flow.exited n, s) h = tt

module _ {P : State → Type 0} where
  module _ {ℓ κ μ} {R : Type ℓ} {A : Type κ} {B : Type μ} where
    pub Then-later : (m : Go R A) (f : A → Go R B) → ((a : A) → Then P (f a)) → Then P (m >>= f)
    unfolding ◌>>=◌
    Then-later m f kf = record { at = λ s. later (m s) }
      where
        later : (r : Flow R A × State) → OnNext P (continue r f)
        later (next a, s) = (kf a).at s
        later (early r, s) = tt
        later (Flow.panicked, s) = tt
        later (Flow.exited n, s) = tt

  pub Ends-later {κ} :
      {A : Type κ} (m : Go Bool A) (f : A → Go Bool Bool)
      → Cautious m
      → ((a : A) → Ends P (f a))
      → Ends P (m >>= f)
  unfolding ◌>>=◌
  Ends-later {A} m f q kf = record { at = λ s. later (m s) (q.at s) }
    where
      later : (r : Flow Bool A × State) → NotTrue r → OnTrue P (continue r f)
      later (next a, s) h = (kf a).at s
      later (early true, s) h = absurd h
      later (early false, s) h = tt
      later (Flow.panicked, s) h = tt
      later (Flow.exited n, s) h = tt

  -- The last call of a body whose error is its only failure.
  pub Ends-call :
      (f : Func Err)
      → Succeeds P f
      → Ends P (call f >>= λ e. nil_or e (λ x. false) >>= λ u. return true)
  unfolding ◌>>=◌
  Ends-call f k = record { at = λ s. ended (f s) (k.at s) }
    where
      ended :
          (r : Outcome Err × State)
          → ReturnsNil P r
          → OnTrue P (
              continue (resume r) λ e. unfold ◌>>=◌ in (nil_or e (λ x. false) >>= λ u. return true))
      ended (returned none, s) h = h
      ended (returned (some e), s) h = tt
      ended (Outcome.panicked, s) h = tt
      ended (Outcome.exited n, s) h = tt

  pub Proves-body : (m : Go Bool Bool) → Ends P m → Proves P (body m)
  unfolding body
  Proves-body m k = record { at = λ s. settled (m s) (k.at s) }
    where
      settled : (r : Flow Bool Bool × State) → OnTrue P r → ReturnsTrue P (settle r)
      settled (next true, s) h = h
      settled (next false, s) h = tt
      settled (early true, s) h = h
      settled (early false, s) h = tt
      settled (Flow.panicked, s) h = tt
      settled (Flow.exited n, s) h = tt

  -- `if !status { return false }` after a call: what follows runs only where `P` holds.
  pub Then-status {κ} :
      {A : Type κ} (f : Func Bool) (m : Go Bool A)
      → Proves P f
      → Keeps P m
      → Then P (call f >>= λ status. when (not status) (return false) >>= λ u. m)
  unfolding ◌>>=◌
  Then-status {A} f m pf km = record { at = λ s. checked (f s) (pf.at s) }
    where
      kept : (r : Flow Bool A × State) → P r.1 → OnNext P r
      kept (next a, s) h = h
      kept (early r, s) h = tt
      kept (Flow.panicked, s) h = tt
      kept (Flow.exited n, s) h = tt

      checked :
          (r : Outcome Bool × State)
          → ReturnsTrue P r
          → OnNext P (continue (resume r) λ status. (when (not status) (return false) >>= λ u. m))
      checked (returned true, s) h = kept (m s) (km.at s h)
      checked (returned false, s) h = tt
      checked (Outcome.panicked, s) h = tt
      checked (Outcome.exited n, s) h = tt

pub ruleset confirms_rules = (
  Cautious-call, Cautious-gets, Cautious-panic, Cautious-value_or, Cautious-return, Cautious-invoke,
  Cautious-nil_or, Cautious-when, Cautious-bind, Then-later, Ends-later, Ends-call, Proves-body,
  Then-status,
)
