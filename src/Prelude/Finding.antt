-- ===== src/Prelude/Finding.antt =====
-- What `find`, `any` and `retain` return, by membership.
use mathlib.Core.Path.{◌≡◌, refl, sym, subst, ap}
use mathlib.Core.Logic.{◌⊎◌, inl, inr}
use mathlib.Core.Bool.{Bool, true, false, ◌||◌}
use mathlib.Core.Option.{Option, none, some}
use mathlib.Core.List.{List, [], ◌∷◌}
use cluster_controller.Prelude.Tests.{if◌then◌else◌, Bool-cases}
use cluster_controller.Prelude.Lists.{find, any, retain, All, In}

abbrev some_or {ℓ} : {A : Type ℓ} → Option A → A → A
some_or none d = d
some_or (some a) d = a

pub some_injective {ℓ} : {A : Type ℓ} {a b : A} → some a ≡ some b → a ≡ b
some_injective {a} h = ap (λ o. some_or o a) h

module _ {ℓ} {A : Type ℓ} (p : A → Bool) where
  find_step :
      (b : Bool) (y : A) (rest : Option A) {x : A}
      → (if b then some y else rest) ≡ some x
      → ((b ≡ true) × (y ≡ x)) ⊎ (rest ≡ some x)
  find_step true y rest h = inl (refl, some_injective h)
  find_step false y rest h = inr h

  pub find-some : (xs : List A) {x : A} → find p xs ≡ some x → In x xs × (p x ≡ true)
  find-some [] h = absurd (cc h)
  find-some (y ∷ xs) h = elim (find_step (p y) y (find p xs) h) [
    | inl (e, same) ↦ (inl (sym same), subst (λ z. p z ≡ true) same e)
    | inr later ↦ let (m, e) = find-some xs later in (inr m, e)
  ]

  find_none_step :
      (b : Bool) (y : A) (rest : Option A)
      → (if b then some y else rest) ≡ none
      → (b ≡ false) × (rest ≡ none)
  find_none_step true y rest h = absurd (cc h)
  find_none_step false y rest h = (refl, h)

  pub find-none : (xs : List A) → find p xs ≡ none → All (λ x. p x ≡ false) xs
  find-none [] h = tt
  find-none (y ∷ xs) h =
      let (e, later) = find_none_step (p y) y (find p xs) h in (e, find-none xs later)

  pub All-find-none : (xs : List A) → All (λ x. p x ≡ false) xs → find p xs ≡ none
  All-find-none [] h = refl
  All-find-none (y ∷ xs) h = rw (h.0) (All-find-none xs h.1)

  or_cases : (a b : Bool) → (a || b) ≡ true → (a ≡ true) ⊎ (b ≡ true)
  or_cases true b h = inl refl
  or_cases false b h = inr h

  or_right : (a b : Bool) → b ≡ true → (a || b) ≡ true
  or_right true b h = refl
  or_right false b h = h

  pub any-true : (xs : List A) → any p xs ≡ true → (x : A) × In x xs × (p x ≡ true)
  any-true [] h = absurd (cc h)
  any-true (y ∷ xs) h = elim (or_cases (p y) (any p xs) h) [
    | inl e ↦ (y, inl refl, e)
    | inr later ↦ let (x, m, e) = any-true xs later in (x, inr m, e)
  ]

  pub any-In : (xs : List A) {x : A} → In x xs → p x ≡ true → any p xs ≡ true
  any-In [] m e = absurd m.1
  any-In (y ∷ xs) (inl same) e = rw (subst (λ z. p z ≡ true) same e) refl
  any-In (y ∷ xs) (inr m) e = or_right (p y) (any p xs) (any-In xs m e)

  pub any-false : (xs : List A) {x : A} → any p xs ≡ false → In x xs → p x ≡ false
  any-false xs {x} h m = elim (Bool-cases (p x)) [ inl e ↦ absurd (cc (any-In xs m e)) | inr e ↦ e ]

  retain_step :
      (b : Bool) (y x : A) (rest : List A)
      → In x (if b then y ∷ rest else rest)
      → ((b ≡ true) × (x ≡ y)) ⊎ In x rest
  retain_step true y x rest (inl e) = inl (refl, e)
  retain_step true y x rest (inr m) = inr m
  retain_step false y x rest m = inr m

  pub In-retain : (xs : List A) {x : A} → In x (retain p xs) → In x xs × (p x ≡ true)
  In-retain [] m = absurd m.1
  In-retain (y ∷ xs) {x} m = elim (retain_step (p y) y x (retain p xs) m) [
    | inl (e, same) ↦ (inl same, subst (λ z. p z ≡ true) (sym same) e)
    | inr later ↦ let (k, e) = In-retain xs later in (inr k, e)
  ]

  keep_step : (b : Bool) (y x : A) (rest : List A) → In x rest → In x (if b then y ∷ rest else rest)
  keep_step true y x rest m = inr m
  keep_step false y x rest m = m

  pub retain-In : (xs : List A) {x : A} → In x xs → p x ≡ true → In x (retain p xs)
  retain-In [] m e = absurd m.1
  retain-In (y ∷ xs) {x} (inl same) e = rw (subst (λ z. p z ≡ true) same e) (inl same)
  retain-In (y ∷ xs) {x} (inr m) e = keep_step (p y) y x (retain p xs) (retain-In xs m e)
