-- ===== src/World/Monad/Performance.antt =====
-- Computations that add the same events whenever they return, with what their answers were then.
use cluster_controller.Prelude.{String, ◌≡◌, sym, ap, ◌∙◌, Bool, true, ◌||◌, List, [], ◌∷◌, ◌++◌}
use mathlib.Core.List.{append_assoc}
use mathlib.Core.Path.{subst}
use cluster_controller.Errors.{Outcome, ok, Error}
use cluster_controller.World.Events.{Event, run_command, open_file, set_namespace}
use cluster_controller.World.Environment.{Env, Reply, History, CommandOutput, done}
use cluster_controller.World.Monad.{World, M, ◌>>=◌, ◌>>◌, lift, ask}
use cluster_controller.World.Monad.Inversion.{continue-eq-ok, lift-eq-ok, to_outcome-eq-ok}
use cluster_controller.World.Monad.Trace.{extend}

-- Which failures of a command, by its arguments and what it wrote, are passed over.
abbrev pub Excuse : Type 0
Excuse = List String → String → Bool

-- An event behind a history went well: a command that was started and succeeded or is excused, a
-- file that was opened, a namespace that was entered.
abbrev pub WentWell : Excuse → Env → Event → History → Type 0
WentWell excuse env (run_command args) log =
    (output : CommandOutput) × (env.run_command (run_command args ∷ log) ≡ done output)
    × ((output.success || excuse args output.stderr) ≡ true)
WentWell excuse env (open_file path) log = env.system (open_file path ∷ log) ≡ done tt
WentWell excuse env (set_namespace name) log = env.system (set_namespace name ∷ log) ≡ done tt
WentWell excuse env event log = Unit

-- All of these events, newest first, did.
abbrev pub AllWentWell : Excuse → Env → History → List Event → Type 0
AllWentWell excuse env log [] = Unit
AllWentWell excuse env log (event ∷ events) =
    WentWell excuse env event (events ++ log) × AllWentWell excuse env log events

pub AllWentWell-append :
    (excuse : Excuse) (env : Env) (log : History) (early late : List Event)
    → AllWentWell excuse env log early
    → AllWentWell excuse env (early ++ log) late
    → AllWentWell excuse env log (late ++ early)
AllWentWell-append excuse env log early [] before after = before
AllWentWell-append excuse env log early (event ∷ late) before (first, rest) = (
  subst (WentWell excuse env event) (sym (append_assoc late early log)) first,
  AllWentWell-append excuse env log early late before rest,
)

module _ (excuse : Excuse) where
  pub record Performs {A : Type 0} (events : List Event) (m : M A) : Type 0 where
    pub performed :
        (env : Env) (w : World) (a : A) (w' : World)
        → m env w ≡ (ok a, w')
        → (w' ≡ extend events w) × AllWentWell excuse env w.log events

  pub lift-Performs : {A : Type 0} (o : Outcome A) → Performs [] (lift o)
  lift-Performs o = record { performed = λ env w a w' e. (sym (lift-eq-ok e).1, tt) }

  pub ask-Performs :
      {E A : Type 0} (event : Event) (wrap : E → Error) (answer : Env → History → Reply E A)
      → ((env : Env) (log : History) (a : A)
          → answer env (event ∷ log) ≡ done a
          → WentWell excuse env event log)
      → Performs (event ∷ []) (ask event wrap answer)
  ask-Performs event wrap answer well = record {
    performed = λ env w a w' e. (
      sym (lift-eq-ok e).1,
      (well env w.log a (to_outcome-eq-ok wrap (answer env (event ∷ w.log)) (lift-eq-ok e).0), tt),
    );
  }

  pub bind-Performs :
      {A B : Type 0} {early late : List Event} {m : M A} {f : A → M B}
      → Performs early m
      → ((a : A) → Performs late (f a))
      → Performs (late ++ early) (m >>= f)
  bind-Performs {early} {late} {m} {f} first second = record {
    performed = λ env w b w' e.
        let (a, v, p, q) = continue-eq-ok (m env w) f env e in
        let (reached, before) = first.performed env w a v p in
        let (ended, after) = (second a).performed env v b w' q in
        (
          ended
              ∙ ap (extend late) reached
              ∙ ap (λ l. record w { log = l }) (sym (append_assoc late early w.log)),
          AllWentWell-append excuse env w.log early late before
              (subst (λ (u : World). AllWentWell excuse env u.log late) reached after),
        );
  }

  pub then-Performs :
      {A B : Type 0} {early late : List Event} {m : M A} {k : M B}
      → Performs early m
      → Performs late k
      → Performs (late ++ early) (m >> k)
  then-Performs first second = bind-Performs first (λ a. second)
