-- ===== src/World/Returns.antt =====
-- Rules for functions that always return: they neither panic nor exit.
use workload_agent.Prelude.{String, Bool, true, false, Option, none, some, if◌then◌else◌}
use workload_agent.Types.{Result, ok, err}
use workload_agent.World.Calls.{Call, Env, State}
use workload_agent.World.Go.{
  Outcome, returned, IsReturned, Flow, next, early, Func, Go, continue, ◌>>=◌, resume,
  after_cleanup, finish, settle, pure, return, call, deferring, body, invoke, gets, modify, when,
  value_or, nil_or, discard,
}

abbrev pub IsOrderly {ℓ κ} : {R : Type ℓ} {A : Type κ} → Flow R A → Type 0
IsOrderly (next a) = Unit
IsOrderly (early r) = Unit
IsOrderly Flow.panicked = ⊥
IsOrderly (Flow.exited n) = ⊥

IsOrderly-resume {ℓ κ} :
    (R : Type ℓ) {A : Type κ} (r : Outcome A × State)
    → IsReturned r.0
    → IsOrderly (resume {R = R} r).0
IsOrderly-resume R (returned a, s) h = tt
IsOrderly-resume R (Outcome.panicked, s) h = absurd h
IsOrderly-resume R (Outcome.exited n, s) h = absurd h

-- A function returns from any state.
pub record Returns {ℓ} {A : Type ℓ} (f : Func A) : Type ℓ where
  pub at : (s : State) → IsReturned (f s).0

-- A part of a body goes on or returns, from any state.
pub record Proceeds {ℓ κ} {R : Type ℓ} {A : Type κ} (m : Go R A) : Type (ℓ ⊔ κ) where
  pub at : (s : State) → IsOrderly (m s).0

module _ {ℓ κ} {R : Type ℓ} {A : Type κ} where
  pub Proceeds-pure : (a : A) → Proceeds (pure {R = R} a)
  unfolding pure
  Proceeds-pure a = record { at = λ s. tt }

  pub Proceeds-return : (r : R) → Proceeds (return {A = A} r)
  unfolding return
  Proceeds-return r = record { at = λ s. tt }

  pub Proceeds-gets : (f : State → A) → Proceeds (gets {R = R} f)
  unfolding gets
  Proceeds-gets f = record { at = λ s. tt }

  pub Proceeds-value_or : (r : Result A) (f : String → R) → Proceeds (value_or r f)
  Proceeds-value_or (ok a) f = Proceeds-pure a
  Proceeds-value_or (err e) f = Proceeds-return (f e)

  pub Proceeds-if :
      (b : Bool) (m n : Go R A) → Proceeds m → Proceeds n → Proceeds (if b then m else n)
  Proceeds-if true m n pm pn = pm
  Proceeds-if false m n pm pn = pn

  pub Proceeds-call : (f : Func A) → Returns f → Proceeds (call {R = R} f)
  unfolding call
  Proceeds-call f rf = record { at = λ s. IsOrderly-resume R (f s) (rf.at s) }

  IsOrderly-cleanup :
      (r : Flow R A) (c : Outcome (Unit {0}) × State)
      → IsOrderly r
      → IsReturned c.0
      → IsOrderly (after_cleanup r c).0
  IsOrderly-cleanup r (returned u, s) h k = h
  IsOrderly-cleanup r (Outcome.panicked, s) h k = absurd k
  IsOrderly-cleanup r (Outcome.exited n, s) h k = absurd k

  IsOrderly-finish :
      (r : Flow R A × State) (c : Func (Unit {0}))
      → Returns c
      → IsOrderly r.0
      → IsOrderly (finish r c).0
  IsOrderly-finish (next a, s) c rc h = IsOrderly-cleanup (next a) (c s) h (rc.at s)
  IsOrderly-finish (early a, s) c rc h = IsOrderly-cleanup (early a) (c s) h (rc.at s)
  IsOrderly-finish (Flow.panicked, s) c rc h = absurd h
  IsOrderly-finish (Flow.exited n, s) c rc h = absurd h

  pub Proceeds-deferring :
      (c : Func (Unit {0})) (m : Go R A) → Returns c → Proceeds m → Proceeds (deferring c m)
  unfolding deferring
  Proceeds-deferring c m rc pm = record { at = λ s. IsOrderly-finish (m s) c rc (pm.at s) }

module _ {ℓ κ μ} {R : Type ℓ} {A : Type κ} {B : Type μ} where
  IsOrderly-continue :
      (r : Flow R A × State) (f : A → Go R B)
      → ((a : A) → Proceeds (f a))
      → IsOrderly r.0
      → IsOrderly (continue r f).0
  IsOrderly-continue (next a, s) f pf h = (pf a).at s
  IsOrderly-continue (early r, s) f pf h = tt
  IsOrderly-continue (Flow.panicked, s) f pf h = absurd h
  IsOrderly-continue (Flow.exited n, s) f pf h = absurd h

  pub Proceeds-bind :
      (m : Go R A) (f : A → Go R B) → Proceeds m → ((a : A) → Proceeds (f a)) → Proceeds (m >>= f)
  unfolding ◌>>=◌
  Proceeds-bind m f pm pf = record { at = λ s. IsOrderly-continue (m s) f pf (pm.at s) }

module _ {ℓ} {R : Type ℓ} where
  pub Proceeds-invoke : (env : Env) (c : Call) → Proceeds (invoke {R = R} env c)
  unfolding invoke
  Proceeds-invoke env c = record { at = λ s. tt }

  pub Proceeds-modify : (f : State → State) → Proceeds (modify {R = R} f)
  unfolding modify
  Proceeds-modify f = record { at = λ s. tt }

  pub Proceeds-when : (b : Bool) (m : Go R (Unit {0})) → Proceeds m → Proceeds (when b m)
  Proceeds-when true m pm = pm
  Proceeds-when false m pm = Proceeds-pure tt

  pub Proceeds-nil_or : (e : Option String) (f : String → R) → Proceeds (nil_or e f)
  Proceeds-nil_or none f = Proceeds-pure tt
  Proceeds-nil_or (some e) f = Proceeds-return (f e)

  IsReturned-settle : (r : Flow R R × State) → IsOrderly r.0 → IsReturned (settle r).0
  IsReturned-settle (next a, s) h = tt
  IsReturned-settle (early a, s) h = tt
  IsReturned-settle (Flow.panicked, s) h = absurd h
  IsReturned-settle (Flow.exited n, s) h = absurd h

  pub Returns-body : (m : Go R R) → Proceeds m → Returns (body m)
  unfolding body
  Returns-body m pm = record { at = λ s. IsReturned-settle (m s) (pm.at s) }

pub Returns-discard : (env : Env) (c : Call) → Returns (discard env c)
unfolding discard
Returns-discard env c = record { at = λ s. tt }

pub ruleset returns_rules = (
  Proceeds-pure, Proceeds-return, Proceeds-gets, Proceeds-value_or, Proceeds-if, Proceeds-call,
  Proceeds-deferring, Proceeds-bind, Proceeds-invoke, Proceeds-modify, Proceeds-when,
  Proceeds-nil_or, Returns-body, Returns-discard,
)
