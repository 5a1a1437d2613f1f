-- ===== src/World/Go.antt =====
-- Go function bodies as actions: early returns, panics, `os.Exit` and deferred calls.
use workload_agent.Prelude.{ℕ, String, Bool, true, false, Option, none, some, ◌∷◌}
use workload_agent.Types.{Result, ok, err}
use workload_agent.World.Calls.{Call, Reply, Env, State}

-- How a call of a function ends.
pub data Outcome {ℓ} (A : Type ℓ) : Type ℓ where
  returned : A → Outcome A
  panicked : Outcome A
  exited : ℕ → Outcome A

abbrev pub IsReturned {ℓ} : {A : Type ℓ} → Outcome A → Type 0
IsReturned (returned a) = Unit
IsReturned panicked = ⊥
IsReturned (exited n) = ⊥

-- How a part of a body ends that computes an `A` in a function that returns an `R`.
pub data Flow {ℓ κ} (R : Type ℓ) (A : Type κ) : Type (ℓ ⊔ κ) where
  next : A → Flow R A
  early : R → Flow R A
  panicked : Flow R A
  exited : ℕ → Flow R A

-- A function that returns an `A`.
abbrev pub Func {ℓ} : Type ℓ → Type ℓ
Func A = State → Outcome A × State

-- A part of a body.
abbrev pub Go {ℓ κ} : Type ℓ → Type κ → Type (ℓ ⊔ κ)
Go R A = State → Flow R A × State

module _ {ℓ κ μ} {R : Type ℓ} {A : Type κ} {B : Type μ} where
  abbrev pub continue : Flow R A × State → (A → Go R B) → Flow R B × State
  continue (next a, s) f = f a s
  continue (early r, s) f = (early r, s)
  continue (panicked, s) f = (panicked, s)
  continue (exited n, s) f = (exited n, s)

module _ {ℓ κ} {R : Type ℓ} {A : Type κ} where
  -- The value of an expression.
  unfoldable pub pure : A → Go R A
  pure a s = (next a, s)

  -- `return r`
  unfoldable pub return : R → Go R A
  return r s = (early r, s)

  unfoldable pub panic : Go R A
  panic s = (panicked, s)

  -- `os.Exit(n)`
  unfoldable pub exit : ℕ → Go R A
  exit n s = (exited n, s)

  abbrev pub resume : Outcome A × State → Flow R A × State
  resume (returned a, s) = (next a, s)
  resume (panicked, s) = (panicked, s)
  resume (exited n, s) = (exited n, s)

  -- A call of a function of the agent.
  unfoldable pub call : Func A → Go R A
  call f s = resume (f s)

  abbrev pub after_cleanup : Flow R A → Outcome (Unit {0}) × State → Flow R A × State
  after_cleanup r (returned _, s) = (r, s)
  after_cleanup r (panicked, s) = (panicked, s)
  after_cleanup r (exited n, s) = (exited n, s)

  abbrev pub finish : Flow R A × State → Func (Unit {0}) → Flow R A × State
  finish (exited n, s) cleanup = (exited n, s)
  finish (next a, s) cleanup = after_cleanup (next a) (cleanup s)
  finish (early r, s) cleanup = after_cleanup (early r) (cleanup s)
  finish (panicked, s) cleanup = after_cleanup panicked (cleanup s)

  -- `defer cleanup()` and the rest of the body. A panic runs it, and `os.Exit` does not.
  unfoldable pub deferring : Func (Unit {0}) → Go R A → Go R A
  deferring cleanup m s = finish (m s) cleanup

module _ {ℓ} {A : Type ℓ} where
  abbrev pub settle : Flow A A × State → Outcome A × State
  settle (next a, s) = (returned a, s)
  settle (early a, s) = (returned a, s)
  settle (panicked, s) = (panicked, s)
  settle (exited n, s) = (exited n, s)

  -- A function from its body.
  unfoldable pub body : Go A A → Func A
  body m s = settle (m s)

module _ {ℓ} {R : Type ℓ} where
  -- A call that leaves the repository.
  unfoldable pub invoke : (env : Env) (c : Call) → Go R (Reply c)
  invoke env c s = (next (env.answer c s.trace), record s { trace = c ∷ s.trace })

  -- Reads and writes of the shared variables.
  unfoldable pub gets {κ} : {A : Type κ} → (State → A) → Go R A
  gets f s = (next (f s), s)

  unfoldable pub modify : (State → State) → Go R (Unit {0})
  modify f s = (next tt, f s)

module _ {ℓ κ μ} {R : Type ℓ} {A : Type κ} {B : Type μ} where
  infixl 5 ◌>>=◌
  -- Opening this opens all that a body is made of.
  unfoldable pub ◌>>=◌ : Go R A → (A → Go R B) → Go R B
  unfolding pure return panic exit call deferring body invoke gets modify
  ◌>>=◌ m f s = continue (m s) f

infixl 5 ◌>>◌
abbrev pub ◌>>◌ {ℓ κ μ} : {R : Type ℓ} {A : Type κ} {B : Type μ} → Go R A → Go R B → Go R B
m >> n = m >>= λ _. n

module _ {ℓ} {R : Type ℓ} where
  -- `if test { body }`
  abbrev pub when : Bool → Go R (Unit {0}) → Go R (Unit {0})
  when true m = m
  when false m = pure tt

  -- `if err != nil { return on_error(err) }` after a result `(T, error)`
  abbrev pub value_or {κ} : {A : Type κ} → Result A → (String → R) → Go R A
  value_or (ok a) on_error = pure a
  value_or (err e) on_error = return (on_error e)

  -- The same after a result that is only an error.
  abbrev pub nil_or : Option String → (String → R) → Go R (Unit {0})
  nil_or none on_error = pure tt
  nil_or (some e) on_error = return (on_error e)

-- The value of an index or a pointer, which panics out of range or on nil.
abbrev pub some_or_panic {ℓ κ} : {R : Type ℓ} {A : Type κ} → Option A → Go R A
some_or_panic none = panic
some_or_panic (some a) = pure a

-- `defer` and a statement: a call whose answer is dropped.
unfoldable pub discard : Env → Call → Func (Unit {0})
unfolding ◌>>=◌
discard env c = body do invoke env c; pure tt
