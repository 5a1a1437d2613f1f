-- ===== src/World/Keeps.antt =====
-- Rules for what every part of a program keeps, however it ends: by a value, an early return, a
-- panic or `os.Exit`.
use mathlib.Core.List.{append_assoc}
use workload_agent.Prelude.{ℕ, String, ◌≡◌, sym, Bool, true, false, Option, none, some}
use workload_agent.Prelude.{refl, ap, ◌∙◌, List, [], ◌∷◌, ◌++◌, All, if◌then◌else◌}
use workload_agent.Types.{Result, ok, err}
use workload_agent.World.Calls.{Call, Env, State}
use workload_agent.World.Go.{
  Outcome, Flow, next, early, Func, Go, continue, ◌>>=◌, resume, after_cleanup, finish, settle,
  pure, return, panic, some_or_panic, exit, call, deferring, body, invoke, gets, modify, when,
  value_or, nil_or,
}

pub record Keeps {ℓ} {X : Type ℓ} (P : State → Type 0) (m : State → X × State) : Type ℓ where
  pub at : (s : State) → P s → P (m s).1

-- The shared variables after a step that only looks at how the action ended.
module _ (P : State → Type 0) where
  module _ {ℓ κ} (R : Type ℓ) {A : Type κ} where
    Keeps-resume : (r : Outcome A × State) → P r.1 → P (resume {R = R} r).1
    Keeps-resume (Outcome.returned a, s) h = h
    Keeps-resume (Outcome.panicked, s) h = h
    Keeps-resume (Outcome.exited n, s) h = h

  module _ {ℓ κ} {R : Type ℓ} {A : Type κ} where
    Keeps-after_cleanup :
        (r : Flow R A) (q : Outcome (Unit {0}) × State) → P q.1 → P (after_cleanup r q).1
    Keeps-after_cleanup r (Outcome.returned a, s) h = h
    Keeps-after_cleanup r (Outcome.panicked, s) h = h
    Keeps-after_cleanup r (Outcome.exited n, s) h = h

  module _ {ℓ} {A : Type ℓ} where
    Keeps-settle : (r : Flow A A × State) → P r.1 → P (settle r).1
    Keeps-settle (next a, s) h = h
    Keeps-settle (early a, s) h = h
    Keeps-settle (Flow.panicked, s) h = h
    Keeps-settle (Flow.exited n, s) h = h

module _ {P : State → Type 0} where
  module _ {ℓ κ} {R : Type ℓ} {A : Type κ} where
    pub Keeps-pure : (a : A) → Keeps P (pure {R = R} a)
    unfolding pure
    Keeps-pure a = record { at = λ s h. h }

    pub Keeps-return : (r : R) → Keeps P (return {A = A} r)
    unfolding return
    Keeps-return r = record { at = λ s h. h }

    pub Keeps-gets : (f : State → A) → Keeps P (gets {R = R} f)
    unfolding gets
    Keeps-gets f = record { at = λ s h. h }

    pub Keeps-if : (b : Bool) (m n : Go R A) → Keeps P m → Keeps P n → Keeps P (if b then m else n)
    Keeps-if true m n km kn = km
    Keeps-if false m n km kn = kn

    pub Keeps-value_or : (r : Result A) (f : String → R) → Keeps P (value_or r f)
    Keeps-value_or (ok a) f = Keeps-pure a
    Keeps-value_or (err e) f = Keeps-return (f e)

    pub Keeps-call : (f : Func A) → Keeps P f → Keeps P (call {R = R} f)
    unfolding call
    Keeps-call f kf = record { at = λ s h. Keeps-resume P R (f s) (kf.at s h) }

    Keeps-finish :
        (r : Flow R A × State) (c : Func (Unit {0})) → Keeps P c → P r.1 → P (finish r c).1
    Keeps-finish (next a, s) c kc h = Keeps-after_cleanup P (next a) (c s) (kc.at s h)
    Keeps-finish (early a, s) c kc h = Keeps-after_cleanup P (early a) (c s) (kc.at s h)
    Keeps-finish (Flow.panicked, s) c kc h = Keeps-after_cleanup P Flow.panicked (c s) (kc.at s h)
    Keeps-finish (Flow.exited n, s) c kc h = h

    pub Keeps-deferring :
        (c : Func (Unit {0})) (m : Go R A) → Keeps P c → Keeps P m → Keeps P (deferring c m)
    unfolding deferring
    Keeps-deferring c m kc km = record { at = λ s h. Keeps-finish (m s) c kc (km.at s h) }

  module _ {ℓ κ μ} {R : Type ℓ} {A : Type κ} {B : Type μ} where
    Keeps-continue :
        (r : Flow R A × State) (f : A → Go R B)
        → ((a : A) → Keeps P (f a))
        → P r.1
        → P (continue r f).1
    Keeps-continue (next a, s) f kf h = (kf a).at s h
    Keeps-continue (early a, s) f kf h = h
    Keeps-continue (Flow.panicked, s) f kf h = h
    Keeps-continue (Flow.exited n, s) f kf h = h

    pub Keeps-bind :
        (m : Go R A) (f : A → Go R B) → Keeps P m → ((a : A) → Keeps P (f a)) → Keeps P (m >>= f)
    unfolding ◌>>=◌
    Keeps-bind m f km kf = record { at = λ s h. Keeps-continue (m s) f kf (km.at s h) }

  module _ {ℓ} {A : Type ℓ} where
    pub Keeps-body : (m : Go A A) → Keeps P m → Keeps P (body m)
    unfolding body
    Keeps-body m km = record { at = λ s h. Keeps-settle P (m s) (km.at s h) }

  module _ {ℓ} {R : Type ℓ} where
    pub Keeps-when : (b : Bool) (m : Go R (Unit {0})) → Keeps P m → Keeps P (when b m)
    Keeps-when true m km = km
    Keeps-when false m km = Keeps-pure tt

    pub Keeps-nil_or : (e : Option String) (f : String → R) → Keeps P (nil_or e f)
    Keeps-nil_or none f = Keeps-pure tt
    Keeps-nil_or (some e) f = Keeps-return (f e)

    pub Keeps-panic {κ} : {A : Type κ} → Keeps P (panic {R = R} {A = A})
    unfolding panic
    Keeps-panic = record { at = λ s h. h }

    pub Keeps-some_or_panic {κ} : {A : Type κ} (o : Option A) → Keeps P (some_or_panic {R = R} o)
    Keeps-some_or_panic none = Keeps-panic
    Keeps-some_or_panic (some a) = Keeps-pure a

    pub Keeps-exit {κ} : {A : Type κ} (n : ℕ) → Keeps P (exit {R = R} {A = A} n)
    unfolding exit
    Keeps-exit n = record { at = λ s h. h }

pub ruleset keeps_rules = (
  Keeps-pure, Keeps-return, Keeps-gets, Keeps-if, Keeps-value_or, Keeps-call, Keeps-deferring,
  Keeps-bind, Keeps-body, Keeps-when, Keeps-nil_or, Keeps-panic, Keeps-exit, Keeps-some_or_panic,
)

-- The calls made since the calls `t` satisfy `Q`.
pub record Since (Q : Call → Type 0) (t l : List Call) : Type 0 where
  pub since : List Call
  pub grown : l ≡ since ++ t
  pub all : All Q since

abbrev pub Emitted : (Call → Type 0) → List Call → State → Type 0
Emitted Q t s = Since Q t s.trace

-- Every call that `m` makes satisfies `Q`, however it ends.
pub record Emits {ℓ} {X : Type ℓ} (Q : Call → Type 0) (m : State → X × State) : Type ℓ where
  pub at : (s : State) → Emitted Q s.trace (m s).1

pub Keeps-Emits {ℓ} :
    {X : Type ℓ} {Q : Call → Type 0} (m : State → X × State)
    → ((t : List Call) → Keeps (Emitted Q t) m)
    → Emits Q m
Keeps-Emits m keeps = record {
  at = λ s. (keeps s.trace).at s (record { since = []; grown = refl; all = tt });
}

pub Emitted-call :
    {Q : Call → Type 0} {t : List Call} (env : Env) (c : Call) (s : State)
    → Q c
    → Emitted Q t s
    → Emitted Q t (record s { trace = c ∷ s.trace })
Emitted-call env c s q h = record {
  since = c ∷ h.since;
  grown = ap (λ l. c ∷ l) h.grown;
  all = (q, h.all);
}

-- A call that satisfies `Q`.
pub Emitted-invoke {ℓ} :
    {R : Type ℓ} {Q : Call → Type 0} {t : List Call} (env : Env) (c : Call)
    → Q c
    → Keeps (Emitted Q t) (invoke {R = R} env c)
unfolding invoke
Emitted-invoke env c q = record { at = λ s h. Emitted-call env c s q h }

-- A write of other variables makes no call.
pub Emitted-modify {ℓ} :
    {R : Type ℓ} {Q : Call → Type 0} {t : List Call} (f : State → State)
    → ((s : State) → (f s).trace ≡ s.trace)
    → Keeps (Emitted Q t) (modify {R = R} f)
unfolding modify
Emitted-modify f same = record {
  at = λ s h. record { since = h.since; grown = same s ∙ h.grown; all = h.all };
}

module _ {Q : Call → Type 0} (Q' : Call → Type 0) (weaker : (c : Call) → Q c → Q' c) where
  All-weaken_append :
      (later earlier : List Call) → All Q later → All Q' earlier → All Q' (later ++ earlier)
  All-weaken_append [] earlier h k = k
  All-weaken_append (c ∷ later) earlier h k = (weaker c h.0, All-weaken_append later earlier h.1 k)

-- What an action emits may be read by any weaker property, from any calls on.
pub Emits-Keeps {ℓ} :
    {X : Type ℓ} {Q Q' : Call → Type 0} {t : List Call} (m : State → X × State)
    → ((c : Call) → Q c → Q' c)
    → Emits Q m
    → Keeps (Emitted Q' t) m
Emits-Keeps {Q'} {t} m weaker emits = record {
  at = λ s h.
      let e = emits.at s in
      record {
        since = e.since ++ h.since;
        grown = e.grown ∙ ap (λ l. e.since ++ l) h.grown ∙ sym (append_assoc e.since h.since t);
        all = All-weaken_append Q' weaker e.since h.since e.all h.all;
      };
}
