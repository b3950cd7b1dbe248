-- ===== src/World/Monad/Inversion.antt =====
-- What a computation that returned has gone through.
use mathlib.Core.Path.{◌≡◌, refl, ap}
use cluster_controller.Prelude.{Bool, true, false, Option, none, some, sym, ◌⊎◌, inl, inr}
use cluster_controller.Errors
use cluster_controller.Errors.{Outcome, ok, err, panic, Error, expect, assert, is_ok}
use cluster_controller.World.Environment.{Env, Reply, done, failed}
use cluster_controller.World.Monad.{World, M, continue, settle, to_outcome}

pub ok-injective : {A : Type 0} {a b : A} → ok a ≡ ok b → a ≡ b
ok-injective h = cc

abbrev pub outcome_of : {A : Type 0} → Outcome A × World → Outcome A
outcome_of (o, w) = o

abbrev pub world_of : {A : Type 0} → Outcome A × World → World
world_of (o, w) = w

-- The steps of a computation in sequence.
pub continue-eq-ok :
    {A B : Type 0} (r : Outcome A × World) (f : A → M B) (env : Env) {b : B} {w' : World}
    → continue r f env ≡ (ok b, w')
    → (a : A) × (v : World) × (r ≡ (ok a, v)) × (f a env v ≡ (ok b, w'))
continue-eq-ok (ok a, v) f env h = (a, v, refl, h)
continue-eq-ok (err e, v) f env h = absurd (let no_value : ⊥ = cc (ap outcome_of h) in no_value)
continue-eq-ok (panic, v) f env h = absurd (let no_value : ⊥ = cc (ap outcome_of h) in no_value)

-- A computation whose error was looked at.
pub settle-eq-ok :
    {A : Type 0} (r : Outcome A × World) {found : Outcome A} {v : World}
    → settle r ≡ (ok found, v)
    → (is_ok found ≡ true) ⊎ ((e : Error) × (found ≡ err e) × (r ≡ (err e, v)))
settle-eq-ok (ok a, w) h = inl (sym (ap is_ok (ok-injective (ap outcome_of h))))
settle-eq-ok (err e, w) h =
    inr (e, sym (ok-injective (ap outcome_of h)), ap (λ u. (err e, u)) (ap world_of h))
settle-eq-ok (panic, w) h = absurd (let no_value : ⊥ = cc (ap outcome_of h) in no_value)

pub settle-ok :
    {A : Type 0} (r : Outcome A × World) {a : A} {v : World}
    → settle r ≡ (ok (ok a), v)
    → r ≡ (ok a, v)
settle-ok (ok a, w) h = cc (ap outcome_of h, ap world_of h)
settle-ok (err e, w) h = absurd (let no_value : ⊥ = cc (ap outcome_of h) in no_value)
settle-ok (panic, w) h = absurd (let no_value : ⊥ = cc (ap outcome_of h) in no_value)

pub lift-eq-ok :
    {A : Type 0} {o : Outcome A} {a : A} {w w' : World}
    → (let r : Outcome A × World = (o, w) in r) ≡ (ok a, w')
    → (o ≡ ok a) × (w ≡ w')
lift-eq-ok h = (ap outcome_of h, ap world_of h)

pub bind-eq-ok :
    {A B : Type 0} (first : Outcome A) (next : A → Outcome B) {last : B}
    → Errors.◌>>=◌ first next ≡ ok last
    → (middle : A) × (first ≡ ok middle) × (next middle ≡ ok last)
bind-eq-ok (ok a) next h = (a, refl, h)
bind-eq-ok (err e) next h = cc
bind-eq-ok panic next h = cc

pub to_outcome-eq-ok :
    {E A : Type 0} (wrap : E → Error) (r : Reply E A) {a : A}
    → to_outcome wrap r ≡ ok a
    → r ≡ done a
to_outcome-eq-ok wrap (done a) h = cc
to_outcome-eq-ok wrap (failed e) h = cc

pub expect-eq-ok : {A : Type 0} (o : Option A) {a : A} → expect o ≡ ok a → o ≡ some a
expect-eq-ok none h = cc
expect-eq-ok (some a) h = cc

pub assert-eq-ok : (b : Bool) → assert b ≡ ok tt → b ≡ true
assert-eq-ok true h = refl
assert-eq-ok false h = cc
