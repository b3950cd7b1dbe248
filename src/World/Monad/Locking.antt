-- ===== src/World/Monad/Locking.antt =====
-- The scheduler's mutex in a history: whether it is held, and whether it was used in order.
use cluster_controller.Prelude.{
  ◌≡◌, refl, ◌∙◌, Bool, true, false, not, ◌&&◌, List, [], ◌∷◌, if◌then◌else◌,
}
use cluster_controller.Errors.{Outcome, ok, err, panic, Error}
use cluster_controller.World.Events.{Event, lock_scheduler, unlock_scheduler, list_nodes, random}
use cluster_controller.World.Environment.{Env, Reply, History}
use cluster_controller.World.Monad.{
  World, M, ◌>>=◌, ◌>>◌, lift, read, ask, observe, try, settle, continue,
}
use cluster_controller.World.Monad.Inversion.{world_of}

-- Newest first.
abbrev pub held : List Event → Bool
held [] = false
held (lock_scheduler ∷ log) = true
held (unlock_scheduler ∷ log) = false
held (_ ∷ log) = held log

-- It is locked only while it is free, and unlocked only while it is held; and only while it is held,
-- the nodes are listed and one of them is drawn.
abbrev pub ordered : List Event → Bool
ordered [] = true
ordered (lock_scheduler ∷ log) = not (held log) && ordered log
ordered (unlock_scheduler ∷ log) = held log && ordered log
ordered (list_nodes ∷ log) = held log && ordered log
ordered (random ∷ log) = held log && ordered log
ordered (_ ∷ log) = ordered log

abbrev pub SameLock : List Event → List Event → Type 0
SameLock later earlier = (held later ≡ held earlier) × (ordered later ≡ ordered earlier)

-- A computation that does not touch the mutex.
pub record Quiet {A : Type 0} (m : M A) : Type 0 where
  pub untouched : (env : Env) (w : World) → SameLock (world_of (m env w)).log w.log

-- An event that is no use of the mutex.
abbrev pub Unrelated : Event → Type 0
Unrelated event = (log : List Event) → SameLock (event ∷ log) log

pub lift-Quiet : {A : Type 0} (o : Outcome A) → Quiet (lift o)
lift-Quiet o = record { untouched = λ env w. (refl, refl) }

pub read-Quiet : {A : Type 0} (f : Env → A) → Quiet (read f)
read-Quiet f = record { untouched = λ env w. (refl, refl) }

pub ask-Quiet :
    {E A : Type 0} (event : Event) (wrap : E → Error) (answer : Env → History → Reply E A)
    → Unrelated event
    → Quiet (ask event wrap answer)
ask-Quiet event wrap answer other = record { untouched = λ env w. other w.log }

pub observe-Quiet :
    {A : Type 0} (event : Event) (answer : Env → History → A)
    → Unrelated event
    → Quiet (observe event answer)
observe-Quiet event answer other = record { untouched = λ env w. other w.log }

continued :
    {A B : Type 0} {f : A → M B}
    → ((a : A) → Quiet (f a))
    → (r : Outcome A × World) (env : Env) (log : List Event) → SameLock (world_of r).log log
    → SameLock (world_of (continue r f env)).log log
continued later (ok a, v) env log (same_held, same_order) =
    let (h, o) = (later a).untouched env v in (h ∙ same_held, o ∙ same_order)
continued later (err e, v) env log same = same
continued later (panic, v) env log same = same

pub bind-Quiet :
    {A B : Type 0} {m : M A} {f : A → M B} → Quiet m → ((a : A) → Quiet (f a)) → Quiet (m >>= f)
bind-Quiet {m = m} first later = record {
  untouched = λ env w. continued later (m env w) env w.log (first.untouched env w);
}

pub then-Quiet : {A B : Type 0} {m : M A} {k : M B} → Quiet m → Quiet k → Quiet (m >> k)
then-Quiet first second = bind-Quiet first (λ a. second)

settled :
    {A : Type 0} (r : Outcome A × World) (log : List Event)
    → SameLock (world_of r).log log
    → SameLock (world_of (settle r)).log log
settled (ok a, w) log h = h
settled (err e, w) log h = h
settled (panic, w) log h = h

pub try-Quiet : {A : Type 0} {m : M A} → Quiet m → Quiet (try m)
try-Quiet {m = m} h = record { untouched = λ env w. settled (m env w) w.log (h.untouched env w) }

pub if-Quiet : {A : Type 0} (b : Bool) {m k : M A} → Quiet m → Quiet k → Quiet (if b then m else k)
if-Quiet true h h' = h
if-Quiet false h h' = h'

-- A computation that may do what wants the mutex, and does not touch it.
pub record Inside {A : Type 0} (m : M A) : Type 0 where
  pub kept : (env : Env) (w : World) → held w.log ≡ true → SameLock (world_of (m env w)).log w.log

-- An event that wants the mutex.
abbrev pub Guarded : Event → Type 0
Guarded event = (log : List Event) → held log ≡ true → SameLock (event ∷ log) log

pub Quiet-Inside : {A : Type 0} {m : M A} → Quiet m → Inside m
Quiet-Inside h = record { kept = λ env w holding. h.untouched env w }

pub lift-Inside : {A : Type 0} (o : Outcome A) → Inside (lift o)
lift-Inside o = Quiet-Inside (lift-Quiet o)

pub ask-Inside :
    {E A : Type 0} (event : Event) (wrap : E → Error) (answer : Env → History → Reply E A)
    → Guarded event
    → Inside (ask event wrap answer)
ask-Inside event wrap answer guarded = record { kept = λ env w holding. guarded w.log holding }

pub observe-Inside :
    {A : Type 0} (event : Event) (answer : Env → History → A)
    → Guarded event
    → Inside (observe event answer)
observe-Inside event answer guarded = record { kept = λ env w holding. guarded w.log holding }

continued-Inside :
    {A B : Type 0} {f : A → M B}
    → ((a : A) → Inside (f a))
    → (r : Outcome A × World) (env : Env) (log : List Event) → held log ≡ true
    → SameLock (world_of r).log log
    → SameLock (world_of (continue r f env)).log log
continued-Inside later (ok a, v) env log holding (same_held, same_order) =
    let (h, o) = (later a).kept env v (same_held ∙ holding) in (h ∙ same_held, o ∙ same_order)
continued-Inside later (err e, v) env log holding same = same
continued-Inside later (panic, v) env log holding same = same

pub bind-Inside :
    {A B : Type 0} {m : M A} {f : A → M B} → Inside m → ((a : A) → Inside (f a)) → Inside (m >>= f)
bind-Inside {m = m} first later = record {
  kept = λ env w holding.
      continued-Inside later (m env w) env w.log holding (first.kept env w holding);
}

pub try-Inside : {A : Type 0} {m : M A} → Inside m → Inside (try m)
try-Inside {m = m} h = record {
  kept = λ env w holding. settled (m env w) w.log (h.kept env w holding);
}

-- The mutex is free, and has been used in order.
abbrev pub IsFree : World → Type 0
IsFree w = (held w.log ≡ false) × (ordered w.log ≡ true)

-- A computation that leaves it so, however it ends.
pub record Frees {A : Type 0} (m : M A) : Type 0 where
  pub freed : (env : Env) (w : World) → IsFree w → IsFree (world_of (m env w))

pub Quiet-Frees : {A : Type 0} {m : M A} → Quiet m → Frees m
Quiet-Frees h = record {
  freed = λ env w (free, order).
      let (same_held, same_order) = h.untouched env w in (same_held ∙ free, same_order ∙ order);
}

continued-IsFree :
    {A B : Type 0} {f : A → M B}
    → ((a : A) → Frees (f a))
    → (r : Outcome A × World) (env : Env) → IsFree (world_of r)
    → IsFree (world_of (continue r f env))
continued-IsFree later (ok a, v) env h = (later a).freed env v h
continued-IsFree later (err e, v) env h = h
continued-IsFree later (panic, v) env h = h

pub bind-Frees :
    {A B : Type 0} {m : M A} {f : A → M B} → Frees m → ((a : A) → Frees (f a)) → Frees (m >>= f)
bind-Frees {m = m} first later = record {
  freed = λ env w h. continued-IsFree later (m env w) env (first.freed env w h);
}

pub then-Frees : {A B : Type 0} {m : M A} {k : M B} → Frees m → Frees k → Frees (m >> k)
then-Frees first second = bind-Frees first (λ a. second)

pub if-Frees : {A : Type 0} (b : Bool) {m k : M A} → Frees m → Frees k → Frees (if b then m else k)
if-Frees true h h' = h
if-Frees false h h' = h'
