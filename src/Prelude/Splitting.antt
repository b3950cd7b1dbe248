-- ===== src/Prelude/Splitting.antt =====
-- Splitting a text that was put together with a separator.
use Prim.Native.String
use Prim.Native.String.{String}
use Prim.Native.Char.{Char, code}
use text.Mathlib.TextLemmas.{cons-append, nil-append}
use cluster_controller.Prelude.Tests.{nat_eq, Bool-cases}
use cluster_controller.Prelude.Lists.{All}
use cluster_controller.Prelude.Text.{split, codes}
use mathlib.Core.Logic.{inl, inr}
use mathlib.Core.Path.{◌≡◌, refl}
use mathlib.Core.Bool.{true, false}
use mathlib.Core.List.{List, [], ◌∷◌}
use Prim.Native.Nat.{ℕ}

-- The separator does not occur in the text.
abbrev pub IsFree : ℕ → String → Type 0
IsFree sep s = All (λ c. nat_eq c sep ≡ false) (codes s)

pub split_free : (sep : ℕ) (s : String) → IsFree sep s → split sep s ≡ s ∷ []
unfolding split
split_free sep String.[] h = refl
split_free sep (String.◌∷◌ c s) h = rw (split_free sep s h.1, h.0) refl

pub split_at :
    (sep : ℕ) (s : String) (c : Char) (t : String)
    → IsFree sep s
    → nat_eq (code c) sep ≡ true
    → split sep (String.◌++◌ s (String.◌∷◌ c t)) ≡ s ∷ split sep t
unfolding split
split_at sep String.[] c t h e = rw (nil-append (String.◌∷◌ c t), e) refl
split_at sep (String.◌∷◌ d s) c t h e =
    rw (cons-append d s (String.◌∷◌ c t), split_at sep s c t h.1 e, h.0) refl

-- There is always a first part.
pub split-cons :
    (sep : ℕ) (s : String) → (part : String) × (parts : List String) × (split sep s ≡ part ∷ parts)
unfolding split
split-cons sep String.[] = (String.[], [], refl)
split-cons sep (String.◌∷◌ c s) =
    let (part, parts, e) = split-cons sep s in
    elim (Bool-cases (nat_eq (code c) sep)) [
      | inl t ↦ (String.[], part ∷ parts, rw (e, t) refl)
      | inr t ↦ (String.◌∷◌ c part, parts, rw (e, t) refl)
    ]
