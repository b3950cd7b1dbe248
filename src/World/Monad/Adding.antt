-- ===== src/World/Monad/Adding.antt =====
-- Computations that add only events of one kind to the history, however they end.
use cluster_controller.Prelude.{◌≡◌, refl, sym, ap, ◌∙◌, List, [], ◌∷◌, ◌++◌, All}
use mathlib.Core.List.{append_assoc}
use cluster_controller.Errors.{Outcome, ok, err, panic}
use cluster_controller.World.Events.{Event}
use cluster_controller.World.Environment.{Env, History}
use cluster_controller.World.Monad.{World, M, ◌>>=◌, ◌>>◌, lift, read, observe, continue}
use cluster_controller.World.Monad.Inversion.{world_of}
use cluster_controller.World.Monad.Growth.{Extends}

-- The later world has events of the kind in front of those of the earlier one.
abbrev pub Reached : (Event → Type 0) → World → World → Type 0
Reached Kind later earlier =
    (events : List Event) × (later.log ≡ events ++ earlier.log) × All Kind events

All-append :
    (Kind : Event → Type 0) (xs ys : List Event) → All Kind xs → All Kind ys → All Kind (xs ++ ys)
All-append Kind [] ys h k = k
All-append Kind (x ∷ xs) ys h k = (h.0, All-append Kind xs ys h.1 k)

module _ (Kind : Event → Type 0) where
  pub Reached-refl : (w : World) → Reached Kind w w
  Reached-refl w = ([], refl, tt)

  pub Reached-trans : (u v w : World) → Reached Kind w v → Reached Kind v u → Reached Kind w u
  Reached-trans u v w (more, same', kinds') (events, same, kinds) = (
    more ++ events,
    same' ∙ ap (λ l. more ++ l) same ∙ sym (append_assoc more events u.log),
    All-append Kind more events kinds' kinds,
  )

  pub Reached-Extends : (later earlier : World) → Reached Kind later earlier → Extends later earlier
  Reached-Extends later earlier (events, same, kinds) = (events, same)

  pub record Adding {A : Type 0} (m : M A) : Type 0 where
    pub added : (env : Env) (w : World) → Reached Kind (world_of (m env w)) w

  pub lift-Adding : {A : Type 0} (o : Outcome A) → Adding (lift o)
  lift-Adding o = record { added = λ env w. ([], refl, tt) }

  pub read-Adding : {A : Type 0} (f : Env → A) → Adding (read f)
  read-Adding f = record { added = λ env w. ([], refl, tt) }

  pub observe-Adding :
      {A : Type 0} (event : Event) (answer : Env → History → A)
      → Kind event
      → Adding (observe event answer)
  observe-Adding event answer kind = record { added = λ env w. (event ∷ [], refl, (kind, tt)) }

  continued :
      {A B : Type 0} {f : A → M B}
      → ((a : A) → Adding (f a))
      → (r : Outcome A × World) (env : Env) (w : World) → Reached Kind (world_of r) w
      → Reached Kind (world_of (continue r f env)) w
  continued {f = f} later (ok a, v) env w before =
      Reached-trans w v (world_of (f a env v)) ((later a).added env v) before
  continued later (err e, v) env w before = before
  continued later (panic, v) env w before = before

  pub bind-Adding :
      {A B : Type 0} {m : M A} {f : A → M B}
      → Adding m
      → ((a : A) → Adding (f a))
      → Adding (m >>= f)
  bind-Adding {m = m} first later = record {
    added = λ env w. continued later (m env w) env w (first.added env w);
  }

  pub then-Adding : {A B : Type 0} {m : M A} {k : M B} → Adding m → Adding k → Adding (m >> k)
  then-Adding first second = bind-Adding first (λ a. second)
