-- ===== src/Kube/Finalizers.antt =====
-- Finalizers: what is written, and that it is written once.
use cluster_controller.Prelude.{
  String, ◌≡◌, inl, inr, refl, Bool, true, false, not, some, List, [], ◌∷◌, ◌++◌, ◌==◌,
  if◌then◌else◌, is_some, get_or, retain, find, Bool-cases, eq_iff,
}
use mathlib.Core.Path.{subst}
use cluster_controller.Errors.{ok}
use cluster_controller.Crd.{ObjectMeta}
use cluster_controller.World.{Env, World, ◌>>◌, pure}
use cluster_controller.World.Monad.Inversion.{continue-eq-ok, lift-eq-ok, ok-injective}
use cluster_controller.Kube.{
  Resource, commit, has_finalizer, full_finalizer, push_finalizer, retain_finalizers,
  ensure_finalizer, remove_finalizer,
}

-- Writing the metadata of an object is reading them back.
abbrev pub IsLawful : {A : Type 0} → Resource A → Type 0
IsLawful {A} r = (x : A) (m : ObjectMeta) → r.meta (r.with_meta x m) ≡ m

find_pushed :
    (xs : List String) (name : String) → is_some (find (λ f. f == name) (xs ++ name ∷ [])) ≡ true
find_pushed [] name = rw (let same : (name == name) ≡ true = (eq_iff name name).1 refl in same) refl
find_pushed (x ∷ xs) name = elim (Bool-cases (x == name)) [
  | inl e ↦ rw e refl
  | inr e ↦ rw e (find_pushed xs name)
]

find_retained :
    (xs : List String) (name : String)
    → is_some (find (λ f. f == name) (retain (λ f. not (f == name)) xs)) ≡ false
find_retained [] name = refl
find_retained (x ∷ xs) name = elim (Bool-cases (x == name)) [
  | inl e ↦ rw e (find_retained xs name)
  | inr e ↦ rw (e, e) (find_retained xs name)
]

module _ {A : Type 0} ⦃r : Resource A⦄ (lawful : IsLawful r) where
  push-has : (x : A) (name : String) → has_finalizer (push_finalizer x name) name ≡ true
  unfolding has_finalizer
  push-has x name =
      rw
        (
          has_finalizer,
          lawful x (record (r.meta x) {
            finalizers = some (get_or (r.meta x).finalizers [] ++ name ∷ []);
          }),
        )
        (find_pushed (get_or (r.meta x).finalizers []) name)

  retain-has : (x : A) (name : String) → has_finalizer (retain_finalizers x name) name ≡ false
  unfolding has_finalizer
  retain-has x name =
      rw
        (
          has_finalizer,
          lawful x (record (r.meta x) {
            finalizers = some (retain (λ f. not (f == name)) (get_or (r.meta x).finalizers []));
          }),
        )
        (find_retained (get_or (r.meta x).finalizers []) name)

  held_after :
      (x : A) (name manager : String) (b : Bool) (env : Env) (w : World) {y : A} {w' : World}
      → has_finalizer x name ≡ b
      → (if b
            then pure x
            else commit (push_finalizer x name) manager >> pure (push_finalizer x name))
          env w
        ≡ (ok y, w')
      → has_finalizer y name ≡ true
  held_after x name manager true env w h e =
      subst (λ (z : A). has_finalizer z name ≡ true) (ok-injective (lift-eq-ok e).0) h
  held_after x name manager false env w h e =
      let (u, v, p, q) =
        continue-eq-ok (commit (push_finalizer x name) manager env w)
          (λ _. pure (push_finalizer x name)) env e in
      subst (λ (z : A). has_finalizer z name ≡ true) (ok-injective (lift-eq-ok q).0)
        (push-has x name)

  gone_after :
      (x : A) (name manager : String) (b : Bool) (env : Env) (w : World) {y : A} {w' : World}
      → has_finalizer x name ≡ b
      → (if b
            then commit (retain_finalizers x name) manager >> pure (retain_finalizers x name)
            else pure x)
          env w
        ≡ (ok y, w')
      → has_finalizer y name ≡ false
  gone_after x name manager false env w h e =
      subst (λ (z : A). has_finalizer z name ≡ false) (ok-injective (lift-eq-ok e).0) h
  gone_after x name manager true env w h e =
      let (u, v, p, q) =
        continue-eq-ok (commit (retain_finalizers x name) manager env w)
          (λ _. pure (retain_finalizers x name)) env e in
      subst (λ (z : A). has_finalizer z name ≡ false) (ok-injective (lift-eq-ok q).0)
        (retain-has x name)

  -- Once the finalizer of an object has been ensured, the object has it, and ensuring it again, by
  -- whichever field manager, does nothing.
  pub ensure_finalizer-again :
      (x : A) (name manager again : String) (env : Env) (w : World) {y : A} {w' : World}
      → ensure_finalizer x name manager env w ≡ (ok y, w')
      → (has_finalizer y (full_finalizer name) ≡ true)
        × ((v : World) → ensure_finalizer y name again env v ≡ (ok y, v))
  unfolding ensure_finalizer
  ensure_finalizer-again x name manager again env w {y} e =
      let held =
        held_after x (full_finalizer name) manager (has_finalizer x (full_finalizer name)) env w
          refl e in
      (held, λ v. rw held refl)

  pub remove_finalizer-again :
      (x : A) (name manager again : String) (env : Env) (w : World) {y : A} {w' : World}
      → remove_finalizer x name manager env w ≡ (ok y, w')
      → (has_finalizer y (full_finalizer name) ≡ false)
        × ((v : World) → remove_finalizer y name again env v ≡ (ok y, v))
  unfolding remove_finalizer
  remove_finalizer-again x name manager again env w {y} e =
      let gone =
        gone_after x (full_finalizer name) manager (has_finalizer x (full_finalizer name)) env w
          refl e in
      (gone, λ v. rw gone refl)
