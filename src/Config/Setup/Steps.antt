-- ===== src/Config/Setup/Steps.antt =====
-- Parts of `SaveConfiguration` that go on with a configuration that has some settings, or return an
-- error, or find a variable that is empty (config/config.go).
use mathlib.Core.Path.{subst}
use workload_agent.Prelude.{Bool, true, false, ◌≡◌, ◌≢◌, ◌⊎◌, inl, inr, refl, sym, none, some, List}
use workload_agent.Types.{Err, Configuration}
use workload_agent.World.{Env, State, Call}
use workload_agent.World.Go.{
  Outcome, returned, Flow, next, early, Func, Go, continue, resume, settle, body, ◌>>=◌, ◌>>◌, call,
  invoke, gets, modify, when, pure, return, nil_or, discard,
}
use workload_agent.World.Keeps.{Keeps, Keeps-bind, Keeps-body, Keeps-pure, Keeps-gets, keeps_rules}
pub use workload_agent.Config.Setup.Empty.{
  required_variables, Extends, same, called, EmptySince, at_call, onward, IsEmptyGiven,
  Extends-modify,
}

module _ (env : Env) (t : List Call) where
  pub extends : {l : List Call} → EmptySince env t l → Extends t l
  extends (at_call c given ext) = called c ext
  extends (onward c e) = called c (extends e)

  -- `Q` holds of the configuration, or a variable was empty.
  abbrev pub Settled : (Configuration → Type 0) → State → Type 0
  Settled Q s = Q s.config ⊎ EmptySince env t s.trace

  -- A variable was empty.
  abbrev pub WasEmpty : State → Type 0
  WasEmpty s = EmptySince env t s.trace

  -- A part of a body goes on with a configuration that `Q` holds of, or returns an error, or a
  -- variable was empty.
  abbrev pub Goes {κ} : {A : Type κ} → (Configuration → Type 0) → Flow Err A × State → Type 0
  Goes Q (next a, s) = Extends t s.trace × Settled Q s
  Goes Q (early none, s) = WasEmpty s
  Goes Q (early (some e), s) = Unit
  Goes Q (Flow.panicked, s) = Unit
  Goes Q (Flow.exited n, s) = Unit

  pub record Step {κ} {A : Type κ} (P Q : Configuration → Type 0) (m : Go Err A) : Type κ where
    pub at : (s : State) → Extends t s.trace → P s.config → Goes Q (m s)
    pub keeps : Keeps WasEmpty m

  -- A function returns no error with a configuration that `Q` holds of, or a variable was empty.
  abbrev pub Finishes : (Configuration → Type 0) → Outcome Err × State → Type 0
  Finishes Q (returned none, s) = Extends t s.trace × Settled Q s
  Finishes Q (returned (some e), s) = Unit
  Finishes Q (Outcome.panicked, s) = Unit
  Finishes Q (Outcome.exited n, s) = Unit

  pub record Checks (P Q : Configuration → Type 0) (f : Func Err) : Type 0 where
    pub at : (s : State) → Extends t s.trace → P s.config → Finishes Q (f s)
    pub keeps : Keeps WasEmpty f

  -- What is known of a function that returned no error.
  pub settled :
      (Q : Configuration → Type 0) (r : Outcome Err × State)
      → Finishes Q r
      → r.0 ≡ returned none
      → Settled Q r.1
  settled Q (returned none, s) h e = h.1
  settled Q (returned (some x), s) h e = cc
  settled Q (Outcome.panicked, s) h e = cc
  settled Q (Outcome.exited n, s) h e = cc

  -- `return e`, where `e` is an error if no variable was empty.
  pub Goes-early {κ} :
      (A : Type κ) (Q : Configuration → Type 0) (e : Err) (s : State)
      → WasEmpty s ⊎ (e ≢ none)
      → Goes {A = A} Q (early e, s)
  Goes-early A Q none s (inl h) = h
  Goes-early A Q none s (inr h) = absurd (h refl)
  Goes-early A Q (some e) s h = tt

  Finishes-returned :
      (Q : Configuration → Type 0) (e : Err) (s : State)
      → WasEmpty s ⊎ (e ≢ none)
      → Finishes Q (returned e, s)
  Finishes-returned Q none s (inl h) = (extends h, inr h)
  Finishes-returned Q none s (inr h) = absurd (h refl)
  Finishes-returned Q (some e) s h = tt

  -- `if test { return e }` with such an `e`, and the rest.
  pub Goes-when {κ} :
      {A : Type κ} (Q : Configuration → Type 0) (b : Bool) (e : Err) (rest : Go Err A) (s : State)
      → (b ≡ true → WasEmpty s ⊎ (e ≢ none))
      → (b ≡ false → Goes Q (rest s))
      → Goes Q ((when b (return e) >> rest) s)
  unfolding ◌>>=◌
  Goes-when {A} Q true e rest s fails later = Goes-early A Q e s (fails refl)
  Goes-when Q false e rest s fails later = later refl

  pub Finishes-when :
      (Q : Configuration → Type 0) (b : Bool) (e : Err) (rest : Go Err Err) (s : State)
      → (b ≡ true → WasEmpty s ⊎ (e ≢ none))
      → (b ≡ false → Finishes Q (settle (rest s)))
      → Finishes Q (settle ((when b (return e) >> rest) s))
  unfolding ◌>>=◌
  Finishes-when Q true e rest s fails later = Finishes-returned Q e s (fails refl)
  Finishes-when Q false e rest s fails later = later refl

  -- From a variable that was empty on.
  module _ {κ} {A : Type κ} (Q : Configuration → Type 0) where
    Goes-empty : (r : Flow Err A × State) → WasEmpty r.1 → Goes Q r
    Goes-empty (next a, s) h = (extends h, inr h)
    Goes-empty (early none, s) h = h
    Goes-empty (early (some e), s) h = tt
    Goes-empty (Flow.panicked, s) h = tt
    Goes-empty (Flow.exited n, s) h = tt

    Goes-Settled :
        {P : Configuration → Type 0} (m : Go Err A) (s : State)
        → Step P Q m
        → Extends t s.trace
        → Settled P s
        → Goes Q (m s)
    Goes-Settled m s step ext (inl h) = step.at s ext h
    Goes-Settled m s step ext (inr h) = Goes-empty (m s) (step.keeps.at s h)

  Finishes-empty :
      (Q : Configuration → Type 0) (r : Outcome Err × State) → WasEmpty r.1 → Finishes Q r
  Finishes-empty Q (returned none, s) h = (extends h, inr h)
  Finishes-empty Q (returned (some e), s) h = tt
  Finishes-empty Q (Outcome.panicked, s) h = tt
  Finishes-empty Q (Outcome.exited n, s) h = tt

  module _ {κ μ} {A : Type κ} {B : Type μ} {Q R : Configuration → Type 0} where
    Goes-continue :
        (r : Flow Err A × State) (f : A → Go Err B)
        → ((a : A) → Step Q R (f a))
        → Goes Q r
        → Goes R (continue r f)
    Goes-continue (next a, s) f step (ext, h) = Goes-Settled R (f a) s (step a) ext h
    Goes-continue (early none, s) f step h = h
    Goes-continue (early (some e), s) f step h = tt
    Goes-continue (Flow.panicked, s) f step h = tt
    Goes-continue (Flow.exited n, s) f step h = tt

    pub Step-bind :
        {P : Configuration → Type 0} (m : Go Err A) (f : A → Go Err B)
        → Step P Q m
        → ((a : A) → Step Q R (f a))
        → Step P R (m >>= f)
    unfolding ◌>>=◌
    Step-bind m f first later = record {
      at = λ s ext h. Goes-continue (m s) f later (first.at s ext h);
      keeps = Keeps-bind m f first.keeps λ a. (later a).keeps;
    }

  module _ {κ} {R : Type κ} where
    pub empty-invoke : (c : Call) → Keeps WasEmpty (invoke {R = R} env c)
    unfolding invoke
    empty-invoke c = record { at = λ s h. onward c h }

    pub empty-modify :
        (f : State → State)
        → ((s : State) → (f s).trace ≡ s.trace)
        → Keeps WasEmpty (modify {R = R} f)
    unfolding modify
    empty-modify f traces = record { at = λ s h. subst (EmptySince env t) (sym (traces s)) h }

    pub Extends-invoke : (c : Call) → Keeps (λ s. Extends t s.trace) (invoke {R = R} env c)
    unfolding invoke
    Extends-invoke c = record { at = λ s h. called c h }

  pub empty-discard : (c : Call) → Keeps WasEmpty (discard env c)
  unfolding discard
  empty-discard c = search (keeps_rules, empty-invoke) depth 20

  pub Extends-discard : (c : Call) → Keeps (λ s. Extends t s.trace) (discard env c)
  unfolding discard
  Extends-discard c = search (keeps_rules, Extends-invoke) depth 20

  module _ {P : Configuration → Type 0} where
    pub Step-invoke : (c : Call) → Step P P (invoke env c)
    unfolding invoke
    Step-invoke c = record { at = λ s ext h. (called c ext, inl h); keeps = empty-invoke c }

    pub Step-pure {κ} : {A : Type κ} (a : A) → Step P P (pure a)
    unfolding pure
    Step-pure a = record { at = λ s ext h. (ext, inl h); keeps = Keeps-pure a }

    pub Step-gets {κ} : {A : Type κ} (f : State → A) → Step P P (gets f)
    unfolding gets
    Step-gets f = record { at = λ s ext h. (ext, inl h); keeps = Keeps-gets f }

    pub Step-modify :
        {Q : Configuration → Type 0} (f : State → State)
        → ((s : State) → (f s).trace ≡ s.trace)
        → ((s : State) → P s.config → Q (f s).config)
        → Step P Q (modify f)
    unfolding modify
    Step-modify f traces changes = record {
      at = λ s ext h. (subst (Extends t) (sym (traces s)) ext, inl (changes s h));
      keeps = empty-modify f traces;
    }

  module _ {Q R : Configuration → Type 0} (rest : Go Err (Unit {0})) (later : Step Q R rest) where
    Goes-checked :
        (r : Outcome Err × State)
        → Finishes Q r
        → Goes R (continue (resume {R = Err} r) λ e. nil_or e (λ e. some e) >> rest)
    unfolding ◌>>=◌
    Goes-checked (returned none, s) (ext, h) = Goes-Settled R rest s later ext h
    Goes-checked (returned (some e), s) h = tt
    Goes-checked (Outcome.panicked, s) h = tt
    Goes-checked (Outcome.exited n, s) h = tt

    pub Step-checked :
        (P : Configuration → Type 0) (f : Func Err)
        → Checks P Q f
        → Step P R (call f >>= λ e. nil_or e (λ e. some e) >> rest)
    unfolding ◌>>=◌ call
    Step-checked P f checks = record {
      at = λ s ext p. Goes-checked (f s) (checks.at s ext p);
      keeps = let tail = later.keeps in let start = checks.keeps in search keeps_rules depth 20;
    }

  -- The last part of a function, which keeps the configuration.
  module _ (Q : Configuration → Type 0) (last : Go Err Err) (keeps : Keeps (λ s. Q s.config) last)
      (empty : Keeps WasEmpty last) (goes_on : Keeps (λ s. Extends t s.trace) last) where
    Finishes-kept : (r : Outcome Err × State) → Extends t r.1.trace → Q r.1.config → Finishes Q r
    Finishes-kept (returned none, s) ext h = (ext, inl h)
    Finishes-kept (returned (some e), s) ext h = tt
    Finishes-kept (Outcome.panicked, s) ext h = tt
    Finishes-kept (Outcome.exited n, s) ext h = tt

    pub Finishes-last :
        (r : Flow Err (Unit {0}) × State) → Goes Q r → Finishes Q (settle (continue r λ u. last))
    unfolding body
    Finishes-last (next u, s) (ext, inl h) =
        Finishes-kept (body last s) ((Keeps-body last goes_on).at s ext)
          ((Keeps-body last keeps).at s h)
    Finishes-last (next u, s) (ext, inr h) =
        Finishes-empty Q (body last s) ((Keeps-body last empty).at s h)
    Finishes-last (early none, s) h = (extends h, inr h)
    Finishes-last (early (some x), s) h = tt
    Finishes-last (Flow.panicked, s) h = tt
    Finishes-last (Flow.exited n, s) h = tt
