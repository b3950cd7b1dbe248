-- ===== src/Install/Migrations/Removed.antt =====
-- What the removal of a version does.
use cluster_controller.Prelude.{String, ◌≡◌, sym, ap, ◌∙◌, some, List, [], ◌∷◌}
use cluster_controller.Errors.{ok, Error, expect}
use cluster_controller.Workloads.{Definition, DefinitionStatus}
use cluster_controller.World.{Event, Env, World, History, M, ◌>>=◌, ◌>>◌, lift, done}
use cluster_controller.World.Monad.Inversion.{
  continue-eq-ok, lift-eq-ok, to_outcome-eq-ok, expect-eq-ok,
}
use cluster_controller.World.Monad.Trace.{extend}
use cluster_controller.Install.Migrations.{
  manager, get_definition, write, without_stored, without_version, remove_crd_version,
}

-- The two answers for the definition, and all that was done with them.
pub record Removal (crd_name crd_version : String) (env : Env) (w w' : World) : Type 0 where
  pub crd : Definition
  pub status : DefinitionStatus
  pub stored : List String
  pub again : Definition
  pub history : History
  pub first_answer : env.kube.definition (Event.get_definition crd_name ∷ w.log) crd_name ≡ done crd
  pub has_status : crd.status ≡ some status
  pub has_stored : status.stored_versions ≡ some stored
  pub second_answer : env.kube.definition history crd_name ≡ done again
  pub effects :
      w'
      ≡ extend
          (Event.replace_definition (without_version crd_version again)
            ∷ Event.get_definition crd_name
            ∷ Event.patch_stored_versions crd_name (without_stored crd_version stored) manager
            ∷ Event.get_definition crd_name
            ∷ [])
          w

-- The last two steps.
abbrev replace_again : String → String → M (Unit {0})
replace_again crd_name crd_version = get_definition crd_name >>= λ again.
    write (Event.replace_definition (without_version crd_version again))

-- When the removal of a version returns, then it has read the definition, written its stored
-- versions without that one, read the definition again, and replaced it by that without that
-- version in its spec; it has done nothing else.
pub remove_crd_version-Removal :
    (crd_name crd_version : String) (env : Env) (w w' : World)
    → remove_crd_version crd_name crd_version env w ≡ (ok tt, w')
    → Removal crd_name crd_version env w w'
unfolding remove_crd_version
remove_crd_version-Removal crd_name crd_version env w w' h =
    let (crd, v, p, q) = continue-eq-ok (get_definition crd_name env w) _ env h in
    let (status, v1, p1, q1) = continue-eq-ok (lift (expect crd.status) env v) _ env q in
    let (stored, v2, p2, q2) =
      continue-eq-ok (lift (expect status.stored_versions) env v1)
        (λ (stored : List String).
          write (Event.patch_stored_versions crd_name (without_stored crd_version stored) manager)
          >> replace_again crd_name crd_version)
        env q1 in
    let (u, v3, p3, q3) =
      continue-eq-ok
        (write (Event.patch_stored_versions crd_name (without_stored crd_version stored) manager)
          env v2)
        (λ x. replace_again crd_name crd_version) env q2 in
    let (again, v4, p4, q4) =
      continue-eq-ok (get_definition crd_name env v3)
        (λ again. write (Event.replace_definition (without_version crd_version again))) env q3 in
    record {
      crd = crd;
      status = status;
      stored = stored;
      again = again;
      history = Event.get_definition crd_name ∷ v3.log;
      first_answer = to_outcome-eq-ok Error.kube _ (lift-eq-ok p).0;
      has_status = expect-eq-ok crd.status (lift-eq-ok p1).0;
      has_stored = expect-eq-ok status.stored_versions (lift-eq-ok p2).0;
      second_answer = to_outcome-eq-ok Error.kube _ (lift-eq-ok p4).0;
      effects =
          sym (lift-eq-ok q4).1
          ∙ ap (extend (Event.replace_definition (without_version crd_version again) ∷ []))
              (sym (lift-eq-ok p4).1)
          ∙ ap
              (extend (
                Event.replace_definition (without_version crd_version again)
                ∷ Event.get_definition crd_name
                ∷ []))
              (sym (lift-eq-ok p3).1)
          ∙ ap
              (extend (
                Event.replace_definition (without_version crd_version again)
                ∷ Event.get_definition crd_name
                ∷ Event.patch_stored_versions crd_name (without_stored crd_version stored) manager
                ∷ []))
              (sym (lift-eq-ok p2).1 ∙ sym (lift-eq-ok p1).1 ∙ sym (lift-eq-ok p).1);
    }
