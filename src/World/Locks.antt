-- ===== src/World/Locks.antt =====
-- The discipline of Go's mutexes: none is locked while the same thread holds it, which would block
-- for ever, and none is unlocked that is not the last one locked.
use mathlib.Core.Path.{subst}
use workload_agent.Prelude.{
  ℕ, ◌≡◌, sym, Bool, true, false, ◌||◌, ◌==◌, Option, none, some, List, [], ◌∷◌, String,
  if◌then◌else◌,
}
use workload_agent.Types.{Result, ok, err}
use workload_agent.World.Calls.{
  Mutex, map_mtx, img_volume_mtx, vm_volume_mtx, tpm_mtx, stop_mtx, wla_mtx, watcher_mtx, Call,
  lock, unlock, rlock, runlock, Env, State,
}
use workload_agent.World.Go.{
  Outcome, Flow, next, early, Func, Go, continue, ◌>>=◌, pure, return, panic, some_or_panic, call,
  resume, deferring, finish, discard, body, settle, invoke, gets, modify, when, value_or, nil_or,
}

abbrev mutex_code : Mutex → ℕ
mutex_code map_mtx = 0
mutex_code img_volume_mtx = 1
mutex_code vm_volume_mtx = 2
mutex_code tpm_mtx = 3
mutex_code stop_mtx = 4
mutex_code wla_mtx = 5
mutex_code watcher_mtx = 6

abbrev pub holds : Mutex → List Mutex → Bool
holds m [] = false
holds m (n ∷ l) = mutex_code m == mutex_code n || holds m l

-- A call that is not about a lock.
abbrev pub IsSilent : Call → Type 0
IsSilent (lock m) = ⊥
IsSilent (unlock m) = ⊥
IsSilent (rlock m) = ⊥
IsSilent (runlock m) = ⊥
IsSilent c = Unit

-- The calls keep the discipline, and the mutexes of the list are held after them. A read lock
-- counts as a lock.
pub data Held : List Call → List Mutex → Type 0 where
  start : Held [] []
  locked :
      {t : List Call} {l : List Mutex} (m : Mutex)
      → holds m l ≡ false
      → Held t l
      → Held (lock m ∷ t) (m ∷ l)
  unlocked : {t : List Call} {l : List Mutex} (m : Mutex) → Held t (m ∷ l) → Held (unlock m ∷ t) l
  read_locked :
      {t : List Call} {l : List Mutex} (m : Mutex)
      → holds m l ≡ false
      → Held t l
      → Held (rlock m ∷ t) (m ∷ l)
  read_unlocked :
      {t : List Call} {l : List Mutex} (m : Mutex) → Held t (m ∷ l) → Held (runlock m ∷ t) l
  silent : {t : List Call} {l : List Mutex} (c : Call) → IsSilent c → Held t l → Held (c ∷ t) l

-- From the locks `l`, a part of a body goes on with `n`, and returns early with `e`. Nothing is
-- asked of a panic or of `os.Exit`, which end the process.
abbrev pub After {ℓ κ} :
    {R : Type ℓ} {A : Type κ} → List Mutex → List Mutex → Flow R A × State → Type 0
After e n (next a, s) = Held s.trace n
After e n (early r, s) = Held s.trace e
After e n (Flow.panicked, s) = Unit
After e n (Flow.exited k, s) = Unit

pub record Locks {ℓ κ} {R : Type ℓ} {A : Type κ} (l e n : List Mutex) (m : Go R A)
    : Type (ℓ ⊔ κ) where
  pub at : (s : State) → Held s.trace l → After e n (m s)

-- A function that returns with the locks that it was called with.
abbrev pub Returned {ℓ} : {A : Type ℓ} → List Mutex → Outcome A × State → Type 0
Returned l (Outcome.returned a, s) = Held s.trace l
Returned l (Outcome.panicked, s) = Unit
Returned l (Outcome.exited k, s) = Unit

pub record Balanced {ℓ} {A : Type ℓ} (l : List Mutex) (f : Func A) : Type ℓ where
  pub at : (s : State) → Held s.trace l → Returned l (f s)

-- How the locks stand after a step that only looks at how an action ended.
module _ (e n : List Mutex) where
  After-resume {ℓ κ} :
      (R : Type ℓ) {A : Type κ} (r : Outcome A × State)
      → Returned n r
      → After e n (resume {R = R} r)
  After-resume R (Outcome.returned a, s) h = h
  After-resume R (Outcome.panicked, s) h = tt
  After-resume R (Outcome.exited x, s) h = tt

  After-continue {ℓ κ μ} :
      {R : Type ℓ} {A : Type κ} {B : Type μ} (k : List Mutex) (r : Flow R A × State)
      (f : A → Go R B)
      → ((a : A) → Locks k e n (f a))
      → After e k r
      → After e n (continue r f)
  After-continue k (next a, s) f kf h = (kf a).at s h
  After-continue k (early a, s) f kf h = h
  After-continue k (Flow.panicked, s) f kf h = tt
  After-continue k (Flow.exited x, s) f kf h = tt

Returned-settle {ℓ} :
    {A : Type ℓ} (l : List Mutex) (r : Flow A A × State) → After l l r → Returned l (settle r)
Returned-settle l (next a, s) h = h
Returned-settle l (early a, s) h = h
Returned-settle l (Flow.panicked, s) h = tt
Returned-settle l (Flow.exited x, s) h = tt

module _ {ℓ κ} {R : Type ℓ} {A : Type κ} where
  pub Locks-pure : {l e : List Mutex} (a : A) → Locks l e l (pure {R = R} a)
  unfolding pure
  Locks-pure a = record { at = λ s h. h }

  pub Locks-return : {l n : List Mutex} (r : R) → Locks l l n (return {A = A} r)
  unfolding return
  Locks-return r = record { at = λ s h. h }

  pub Locks-panic : {l e n : List Mutex} → Locks l e n (panic {R = R} {A = A})
  unfolding panic
  Locks-panic = record { at = λ s h. tt }

  pub Locks-some_or_panic :
      {l e : List Mutex} (o : Option A) → Locks l e l (some_or_panic {R = R} o)
  Locks-some_or_panic none = Locks-panic
  Locks-some_or_panic (some a) = Locks-pure a

  pub Locks-gets : {l e : List Mutex} (f : State → A) → Locks l e l (gets {R = R} f)
  unfolding gets
  Locks-gets f = record { at = λ s h. h }

  pub Locks-if :
      {l e n : List Mutex} (b : Bool) (p q : Go R A)
      → Locks l e n p
      → Locks l e n q
      → Locks l e n (if b then p else q)
  Locks-if true p q kp kq = kp
  Locks-if false p q kp kq = kq

  pub Locks-value_or : {l : List Mutex} (r : Result A) (f : String → R) → Locks l l l (value_or r f)
  Locks-value_or (ok a) f = Locks-pure a
  Locks-value_or (err x) f = Locks-return (f x)

  pub Locks-call : {l e : List Mutex} (f : Func A) → Balanced l f → Locks l e l (call {R = R} f)
  unfolding call
  Locks-call {l} {e} f kf = record { at = λ s h. After-resume e l R (f s) (kf.at s h) }

module _ {ℓ κ μ} {R : Type ℓ} {A : Type κ} {B : Type μ} where
  Locks-bind_to :
      {l e n : List Mutex} (k : List Mutex) (m : Go R A) (f : A → Go R B)
      → Locks l e k m
      → ((a : A) → Locks k e n (f a))
      → Locks l e n (m >>= f)
  unfolding ◌>>=◌
  Locks-bind_to {e} {n} k m f km kf = record {
    at = λ s h. After-continue e n k (m s) f kf (km.at s h);
  }

  -- A part that leaves the locks as they are.
  pub Locks-bind :
      {l e n : List Mutex} (m : Go R A) (f : A → Go R B)
      → Locks l e l m
      → ((a : A) → Locks l e n (f a))
      → Locks l e n (m >>= f)
  Locks-bind {l} m f = Locks-bind_to l m f

pub Balanced-body {ℓ} :
    {A : Type ℓ} {l : List Mutex} (m : Go A A) → Locks l l l m → Balanced l (body m)
unfolding body
Balanced-body {l} m km = record { at = λ s h. Returned-settle l (m s) (km.at s h) }

module _ {ℓ} {R : Type ℓ} where
  pub Locks-nil_or :
      {l : List Mutex} (x : Option String) (f : String → R) → Locks l l l (nil_or x f)
  Locks-nil_or none f = Locks-pure tt
  Locks-nil_or (some x) f = Locks-return (f x)

  pub Locks-when :
      {l e : List Mutex} (b : Bool) (m : Go R (Unit {0})) → Locks l e l m → Locks l e l (when b m)
  Locks-when true m km = km
  Locks-when false m km = Locks-pure tt

  -- Writes of the shared variables, whose traces stay.
  pub Locks-modify :
      {l e : List Mutex} (f : State → State)
      → ((s : State) → (f s).trace ≡ s.trace)
      → Locks l e l (modify {R = R} f)
  unfolding modify
  Locks-modify {l} f same = record { at = λ s h. subst (λ t. Held t l) (sym (same s)) h }

  pub Locks-silent :
      {l e : List Mutex} (env : Env) (c : Call) → IsSilent c → Locks l e l (invoke {R = R} env c)
  unfolding invoke
  Locks-silent env c quiet = record { at = λ s h. silent c quiet h }

module _ {ℓ κ} {R : Type ℓ} {A : Type κ} where
  -- The locks after the deferred call: those that the cleanup leaves of the body's.
  After-cleanup :
      (k l : List Mutex) (r : Flow R A × State) (env : Env) (c : Call)
      → ((t : List Call) → Held t k → Held (c ∷ t) l)
      → After k k r
      → After l l (finish r (discard env c))
  unfolding discard
  After-cleanup k l (next a, s) env c step h = step s.trace h
  After-cleanup k l (early a, s) env c step h = step s.trace h
  After-cleanup k l (Flow.panicked, s) env c step h = tt
  After-cleanup k l (Flow.exited x, s) env c step h = tt

  pub Locks-deferring_unlock :
      {l : List Mutex} (env : Env) (m : Mutex) (p : Go R A)
      → Locks (m ∷ l) (m ∷ l) (m ∷ l) p
      → Locks (m ∷ l) l l (deferring (discard env (unlock m)) p)
  unfolding deferring
  Locks-deferring_unlock {l} env m p kp = record {
    at = λ s h. After-cleanup (m ∷ l) l (p s) env (unlock m) (λ t. unlocked m) (kp.at s h);
  }

  pub Locks-deferring_silent :
      {l : List Mutex} (env : Env) (c : Call) (p : Go R A)
      → IsSilent c
      → Locks l l l p
      → Locks l l l (deferring (discard env c) p)
  unfolding deferring
  Locks-deferring_silent {l} env c p quiet kp = record {
    at = λ s h. After-cleanup l l (p s) env c (λ t. silent c quiet) (kp.at s h);
  }

module _ {ℓ κ} {R : Type ℓ} {B : Type κ} where
  pub Locks-lock :
      {l e n : List Mutex} (env : Env) (m : Mutex) (f : Unit {0} → Go R B)
      → holds m l ≡ false
      → ((a : Unit {0}) → Locks (m ∷ l) e n (f a))
      → Locks l e n (invoke env (lock m) >>= f)
  unfolding invoke
  Locks-lock {l} env m f free kf =
      Locks-bind_to (m ∷ l) _ f (record { at = λ s h. locked m free h }) kf

  pub Locks-unlock :
      {l e n : List Mutex} (env : Env) (m : Mutex) (f : Unit {0} → Go R B)
      → ((a : Unit {0}) → Locks l e n (f a))
      → Locks (m ∷ l) e n (invoke env (unlock m) >>= f)
  unfolding invoke
  Locks-unlock {l} env m f kf = Locks-bind_to l _ f (record { at = λ s h. unlocked m h }) kf

  pub Locks-rlock :
      {l e n : List Mutex} (env : Env) (m : Mutex) (f : Unit {0} → Go R B)
      → holds m l ≡ false
      → ((a : Unit {0}) → Locks (m ∷ l) e n (f a))
      → Locks l e n (invoke env (rlock m) >>= f)
  unfolding invoke
  Locks-rlock {l} env m f free kf =
      Locks-bind_to (m ∷ l) _ f (record { at = λ s h. read_locked m free h }) kf

  pub Locks-runlock :
      {l e n : List Mutex} (env : Env) (m : Mutex) (f : Unit {0} → Go R B)
      → ((a : Unit {0}) → Locks l e n (f a))
      → Locks (m ∷ l) e n (invoke env (runlock m) >>= f)
  unfolding invoke
  Locks-runlock {l} env m f kf = Locks-bind_to l _ f (record { at = λ s h. read_unlocked m h }) kf

pub ruleset locks_rules = (
  Locks-some_or_panic, Locks-pure, Locks-return, Locks-panic, Locks-gets, Locks-if, Locks-value_or,
  Locks-call, Locks-bind, Balanced-body, Locks-nil_or, Locks-when, Locks-lock, Locks-unlock,
  Locks-rlock, Locks-runlock, Locks-silent, Locks-deferring_unlock, Locks-deferring_silent,
)
