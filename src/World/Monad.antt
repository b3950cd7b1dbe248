-- ===== src/World/Monad.antt =====
-- Computations with effects: they read the environment, extend the history, and return, fail or
-- panic. What was done stays done when a later step fails.
pub mod Inversion
pub mod Trace
pub mod Performance
pub mod Growth
pub mod Adding
pub mod Locking
use cluster_controller.Prelude.{ℕ, String, Bool, true, false, List, [], ◌∷◌, nat_eq, if◌then◌else◌}
use cluster_controller.Errors.{Error, Outcome, ok, err, panic}
use cluster_controller.World.Events.{Event}
use cluster_controller.World.Environment.{Env, Reply, done, failed, History}

pub record World : Type 0 where
  -- newest first
  pub log : History
  -- the counter of requests of each connection, and the number of connections made
  pub ids : ℕ → ℕ
  pub connections : ℕ

abbrev pub M : Type 0 → Type 0
M A = Env → World → Outcome A × World

-- The rest of a computation, after its first part.
abbrev pub continue : {A B : Type 0} → Outcome A × World → (A → M B) → Env → Outcome B × World
continue (ok a, w) f env = f a env w
continue (err e, w) f env = (err e, w)
continue (panic, w) f env = (panic, w)

infixl 5 ◌>>=◌ ◌>>◌
abbrev pub ◌>>=◌ : {A B : Type 0} → M A → (A → M B) → M B
◌>>=◌ m f env w = continue (m env w) f env

abbrev pub ◌>>◌ : {A B : Type 0} → M A → M B → M B
m >> k = m >>= λ _. k

module _ {A : Type 0} where
  abbrev pub lift : Outcome A → M A
  lift o env w = (o, w)

  abbrev pub pure : A → M A
  pure a env w = (ok a, w)

  abbrev pub fail : Error → M A
  fail e env w = (err e, w)

  -- Hand a `Result` to the caller's `match`; a panic is passed on.
  abbrev pub settle : Outcome A × World → Outcome (Outcome A) × World
  settle (ok a, w) = (ok (ok a), w)
  settle (err e, w) = (ok (err e), w)
  settle (panic, w) = (panic, w)

  abbrev pub try : M A → M (Outcome A)
  try m env w = settle (m env w)

  abbrev pub read : (Env → A) → M A
  read f env w = (ok (f env), w)

abbrev pub happen : Event → World → World
happen e w = record w { log = e ∷ w.log }

-- A call that is always answered.
abbrev pub observe : {A : Type 0} → Event → (Env → History → A) → M A
observe e answer env w = (ok (answer env (e ∷ w.log)), happen e w)

abbrev pub to_outcome : {E A : Type 0} → (E → Error) → Reply E A → Outcome A
to_outcome wrap (done a) = ok a
to_outcome wrap (failed e) = err (wrap e)

-- A call with `?`: its error is converted and returned.
abbrev pub ask : {E A : Type 0} → Event → (E → Error) → (Env → History → Reply E A) → M A
ask e wrap answer env w = (to_outcome wrap (answer env (e ∷ w.log)), happen e w)

-- `for x in xs { body(x)?; }`
unfoldable pub for_each {ℓ} : {A : Type ℓ} → (A → M (Unit {0})) → List A → M (Unit {0})
for_each body [] = pure tt
for_each body (x ∷ xs) = body x >> for_each body xs
