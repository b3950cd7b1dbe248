-- ===== src/Ovn/Common/Lookup.antt =====
-- Finding an object by its name, and creating it only if it is missing.
use cluster_controller.Prelude.{
  String, ◌≡◌, ◌⊎◌, inl, inr, refl, sym, ap, ◌∙◌, false, Option, none, some, List, [], ◌==◌, find,
  Option-cases, eq_iff, All, In, find-some, find-none,
}
use cluster_controller.Errors.{Outcome, ok, err, ok_or, ovn_not_found}
use mathlib.Core.Path.{subst}
use cluster_controller.World.Monad.Growth.{Extends, Extends-trans}
use cluster_controller.World.{Ovn, Env, World, lift}
use cluster_controller.World.Monad.Inversion.{continue-eq-ok, lift-eq-ok, ok-injective}
use cluster_controller.Ovn.Common.{
  OvnNamed, list, get_by_name, create, create_if_missing, named_common,
}

module _ {A : Type 0} ⦃n : OvnNamed A⦄ where
  abbrev pub found_as : String → List A → Outcome A
  found_as wanted all =
      ok_or (find (λ x. n.name x == wanted) all) (ovn_not_found n.common.ovn_type wanted)

  pub get_by_name_lem :
      (o : Ovn) (wanted : String) (env : Env) (w w' : World) (all : List A)
      → list ⦃c = n.common⦄ o env w ≡ (ok all, w')
      → get_by_name o wanted env w ≡ (found_as wanted all, w')
  unfolding get_by_name
  get_by_name_lem o wanted env w w' all e = rw e refl

  found_as_cases :
      (wanted : String) (all : List A)
      → let result = found_as wanted all in
        ((x : A) × (result ≡ ok x) × In x all × (n.name x ≡ wanted))
        ⊎ ((result ≡ err (ovn_not_found n.common.ovn_type wanted))
            × All (λ x. (n.name x == wanted) ≡ false) all)
  found_as_cases wanted all = elim (Option-cases (find (λ x. n.name x == wanted) all)) [
    | inl e ↦ inr (rw e refl, find-none (λ x. n.name x == wanted) all e)
    | inr (x, e) ↦
        let (m, t) = find-some (λ x. n.name x == wanted) all e in
        inl (x, rw e refl, m, (eq_iff (n.name x) wanted).0 t)
  ]

  -- Where the table can be listed, the search by name returns an object of the list that has the
  -- name, or says that it is not found and then no listed object has the name; either way it makes
  -- no call but the listing.
  pub get_by_name_cases :
      (o : Ovn) (wanted : String) (env : Env) (w w' : World) (all : List A)
      → list ⦃c = n.common⦄ o env w ≡ (ok all, w')
      → let (result, after) = get_by_name {A = A} o wanted env w in
        (after ≡ w')
        × (((x : A) × (result ≡ ok x) × In x all × (n.name x ≡ wanted))
            ⊎ ((result ≡ err (ovn_not_found n.common.ovn_type wanted))
                × All (λ x. (n.name x == wanted) ≡ false) all))
  get_by_name_cases o wanted env w w' all e =
      rw (get_by_name_lem o wanted env w w' all e) (refl, found_as_cases wanted all)

  -- The table was listed between two worlds, and the object is in the list and has the name.
  abbrev pub Found : Ovn → String → Env → World → World → A → Type 0
  Found o wanted env start end x =
      (all : List A) × (v : World) × (v' : World) × (list ⦃c = n.common⦄ o env v ≡ (ok all, v'))
      × In x all
      × (n.name x ≡ wanted)
      × Extends v start
      × Extends end v'

  pub Found-wider :
      (o : Ovn) (wanted : String) (env : Env) (start end start' end' : World) (x : A)
      → Extends start start'
      → Extends end' end
      → Found o wanted env start end x
      → Found o wanted env start' end' x
  Found-wider o wanted env start end start' end' x before after
        (all, v, v', listed, m, named, from, to) =
      (
        all,
        v,
        v',
        listed,
        m,
        named,
        Extends-trans start' start v from before,
        Extends-trans v' end end' after to,
      )

  found_as-In :
      (wanted : String) (all : List A) {x : A}
      → found_as wanted all ≡ ok x
      → In x all × (n.name x ≡ wanted)
  found_as-In wanted all {x} h = elim (found_as_cases wanted all) [
    | inl (y, e, m, named) ↦
        let same : y ≡ x = ok-injective (sym e ∙ h) in
        subst (λ z. In z all × (n.name z ≡ wanted)) same (m, named)
    | inr (e, none_named) ↦ cc
  ]

  -- An object that the search by name returns was found by it.
  pub get_by_name-Found :
      (o : Ovn) (wanted : String) (env : Env) (w : World) {x : A} {w' : World}
      → get_by_name o wanted env w ≡ (ok x, w')
      → Found o wanted env w w' x
  unfolding get_by_name
  get_by_name-Found o wanted env w {x} {w'} h =
      let (all, v, p, q) =
        continue-eq-ok (list ⦃c = n.common⦄ o env w) (λ all. lift (found_as wanted all)) env h in
      let (m, named) = found_as-In wanted all (lift-eq-ok q).0 in
      (all, w, v, p, m, named, ([], refl), ([], ap (λ (u : World). u.log) (sym (lift-eq-ok q).1)))

  abbrev pub create_missing : Ovn → String → Env → World → Option A → Outcome A × World
  create_missing o wanted env w (some x) = (ok x, w)
  create_missing o wanted env w none = create o wanted env w

  -- Where the table can be listed: the first object of the name is returned and nothing is
  -- written; where there is none, one is created.
  pub create_if_missing_lem :
      (o : Ovn) (wanted : String) (env : Env) (w w' : World) (all : List A)
      → list ⦃c = n.common⦄ o env w ≡ (ok all, w')
      → create_if_missing {A = A} o wanted env w
        ≡ create_missing o wanted env w' (find (λ x. n.name x == wanted) all)
  unfolding create_if_missing get_by_name
  create_if_missing_lem o wanted env w w' all e =
      elim (Option-cases (find (λ x. n.name x == wanted) all)) [
        | inl none_found ↦ rw (e, none_found) refl
        | inr (x, found) ↦ rw (e, found) refl
      ]
