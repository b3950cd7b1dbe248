-- ===== src/World/Monad/Trace.antt =====
-- Computations that add the same events to the history whenever they return.
use cluster_controller.Prelude.{◌≡◌, sym, ap, ◌∙◌, List, [], ◌∷◌, ◌++◌}
use mathlib.Core.List.{append_assoc}
use cluster_controller.Errors.{Outcome, ok, Error}
use cluster_controller.World.Events.{Event}
use cluster_controller.World.Environment.{Env, Reply, History}
use cluster_controller.World.Monad.{World, M, ◌>>=◌, ◌>>◌, lift, read, ask, observe}
use cluster_controller.World.Monad.Inversion.{continue-eq-ok, lift-eq-ok}

-- These events, newest first, and nothing else.
abbrev pub extend : List Event → World → World
extend events w = record w { log = events ++ w.log }

pub record Adds {A : Type 0} (events : List Event) (m : M A) : Type 0 where
  pub added :
      (env : Env) (w : World) (a : A) (w' : World) → m env w ≡ (ok a, w') → w' ≡ extend events w

pub lift-Adds : {A : Type 0} (o : Outcome A) → Adds [] (lift o)
lift-Adds o = record { added = λ env w a w' e. sym (lift-eq-ok e).1 }

pub read-Adds : {A : Type 0} (f : Env → A) → Adds [] (read f)
read-Adds f = record { added = λ env w a w' e. sym (lift-eq-ok e).1 }

pub ask-Adds :
    {E A : Type 0} (event : Event) (wrap : E → Error) (answer : Env → History → Reply E A)
    → Adds (event ∷ []) (ask event wrap answer)
ask-Adds event wrap answer = record { added = λ env w a w' e. sym (lift-eq-ok e).1 }

pub observe-Adds :
    {A : Type 0} (event : Event) (answer : Env → History → A)
    → Adds (event ∷ []) (observe event answer)
observe-Adds event answer = record { added = λ env w a w' e. sym (lift-eq-ok e).1 }

-- In sequence, the later events are in front.
pub bind-Adds :
    {A B : Type 0} {early late : List Event} {m : M A} {f : A → M B}
    → Adds early m
    → ((a : A) → Adds late (f a))
    → Adds (late ++ early) (m >>= f)
bind-Adds {early} {late} {m} {f} first second = record {
  added = λ env w b w' e.
      let (a, v, p, q) = continue-eq-ok (m env w) f env e in
      (second a).added env v b w' q
      ∙ ap (extend late) (first.added env w a v p)
      ∙ ap (λ l. record w { log = l }) (sym (append_assoc late early w.log));
}

pub then-Adds :
    {A B : Type 0} {early late : List Event} {m : M A} {k : M B}
    → Adds early m
    → Adds late k
    → Adds (late ++ early) (m >> k)
then-Adds first second = bind-Adds first (λ a. second)
