-- ===== src/World/Monad/Growth.antt =====
-- What a computation has done stays in the history, however it ends.
use cluster_controller.Prelude.{
  ◌≡◌, refl, sym, ap, ◌∙◌, List, [], ◌∷◌, ◌++◌, In, inr, Bool, true, false, if◌then◌else◌,
}
use mathlib.Core.List.{append_assoc}
use mathlib.Core.Path.{subst}
use cluster_controller.Errors.{Outcome, ok, err, panic, Error}
use cluster_controller.World.Events.{Event}
use cluster_controller.World.Environment.{Env, Reply, History}
use cluster_controller.World.Monad.{
  World, M, ◌>>=◌, ◌>>◌, lift, read, ask, observe, try, settle, continue, for_each, happen,
}
use cluster_controller.World.Monad.Inversion.{world_of}

abbrev pub Extends : World → World → Type 0
Extends v w = (events : List Event) × (v.log ≡ events ++ w.log)

pub record Grows {A : Type 0} (m : M A) : Type 0 where
  pub grown : (env : Env) (w : World) → Extends (world_of (m env w)) w

In-front : (event : Event) (events log : List Event) → In event log → In event (events ++ log)
In-front event [] log found = found
In-front event (e ∷ events) log found = inr (In-front event events log found)

pub Extends-In : (v w : World) (event : Event) → Extends v w → In event w.log → In event v.log
Extends-In v w event (events, same) found =
    subst (In event) (sym same) (In-front event events w.log found)

pub Extends-trans : (u v w : World) → Extends w v → Extends v u → Extends w u
Extends-trans u v w (more, same') (events, same) =
    (more ++ events, same' ∙ ap (λ l. more ++ l) same ∙ sym (append_assoc more events u.log))

pub Extends-refl : (w : World) → Extends w w
Extends-refl w = ([], refl)

-- The event happened from `start` on.
abbrev pub Occurs : World → World → Event → Type 0
Occurs start end event = (v : World) × Extends v start × Extends end (happen event v)

pub Occurs-wider :
    (start end start' end' : World) (event : Event)
    → Extends start start'
    → Extends end' end
    → Occurs start end event
    → Occurs start' end' event
Occurs-wider start end start' end' event before after (v, from, to) =
    (v, Extends-trans start' start v from before, Extends-trans (happen event v) end end' after to)

pub lift-Grows : {A : Type 0} (o : Outcome A) → Grows (lift o)
lift-Grows o = record { grown = λ env w. ([], refl) }

pub read-Grows : {A : Type 0} (f : Env → A) → Grows (read f)
read-Grows f = record { grown = λ env w. ([], refl) }

pub ask-Grows :
    {E A : Type 0} (event : Event) (wrap : E → Error) (answer : Env → History → Reply E A)
    → Grows (ask event wrap answer)
ask-Grows event wrap answer = record { grown = λ env w. (event ∷ [], refl) }

pub observe-Grows :
    {A : Type 0} (event : Event) (answer : Env → History → A) → Grows (observe event answer)
observe-Grows event answer = record { grown = λ env w. (event ∷ [], refl) }

continued :
    {A B : Type 0} {f : A → M B}
    → ((a : A) → Grows (f a))
    → (r : Outcome A × World) (env : Env) (w : World) → Extends (world_of r) w
    → Extends (world_of (continue r f env)) w
continued {f = f} later (ok a, v) env w earlier =
    Extends-trans w v (world_of (f a env v)) ((later a).grown env v) earlier
continued later (err e, v) env w earlier = earlier
continued later (panic, v) env w earlier = earlier

pub bind-Grows :
    {A B : Type 0} {m : M A} {f : A → M B} → Grows m → ((a : A) → Grows (f a)) → Grows (m >>= f)
bind-Grows {m = m} first later = record {
  grown = λ env w. continued later (m env w) env w (first.grown env w);
}

pub then-Grows : {A B : Type 0} {m : M A} {k : M B} → Grows m → Grows k → Grows (m >> k)
then-Grows first second = bind-Grows first (λ a. second)

pub if-Grows : {A : Type 0} (b : Bool) (m k : M A) → Grows m → Grows k → Grows (if b then m else k)
if-Grows true m k h h' = h
if-Grows false m k h h' = h'

pub for_each-Grows :
    {A : Type 0} {body : A → M (Unit {0})}
    → ((x : A) → Grows (body x))
    → (xs : List A) → Grows (for_each body xs)
unfolding for_each
for_each-Grows each [] = lift-Grows (ok tt)
for_each-Grows each (x ∷ xs) = then-Grows (each x) (for_each-Grows each xs)

settled : {A : Type 0} (r : Outcome A × World) → world_of (settle r) ≡ world_of r
settled (ok a, w) = refl
settled (err e, w) = refl
settled (panic, w) = refl

pub try-Grows : {A : Type 0} {m : M A} → Grows m → Grows (try m)
try-Grows {m = m} h = record {
  grown = λ env w.
      let (events, same) = h.grown env w in (events, ap (λ v. v.log) (settled (m env w)) ∙ same);
}

-- What has happened before a computation is there afterwards.
pub Grows-Extends :
    {A : Type 0} {m : M A} {env : Env} {v : World} {o : Outcome A} {w : World}
    → Grows m
    → m env v ≡ (o, w)
    → Extends w v
Grows-Extends {env = env} {v = v} {w = w} h e =
    subst (λ u. Extends u v) (ap world_of e) (h.grown env v)
