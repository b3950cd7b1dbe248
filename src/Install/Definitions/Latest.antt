-- ===== src/Install/Definitions/Latest.antt =====
-- What a resource with migrations is left with.
use cluster_controller.Prelude.{
  String, ◌≡◌, sym, ap, true, false, none, List, [], ◌∷◌, Bool, map, if◌then◌else◌,
}
use cluster_controller.Errors.{ok, Error, KubeError}
use cluster_controller.Workloads.{CrdVersion, Definition, of_definition}
use cluster_controller.World.{
  Event, Env, World, M, ◌>>=◌, ◌>>◌, lift, read, Reply, done, failed, to_outcome, History,
}
use cluster_controller.World.Monad.Inversion.{continue-eq-ok, lift-eq-ok}
use cluster_controller.Install.Readiness.{wait_crd_ready}
use cluster_controller.Install.Migrations
use cluster_controller.Install.Definitions.{
  apply_definition, apply_version, upgrade, create_or_upgrade, texts_eq,
}

-- The definition of a version, as it is applied.
abbrev pub applied : Env → String → String → Event
applied env name version =
    Event.apply none name Migrations.manager true (of_definition (env.libraries.crd name version))

-- It is the last thing that has happened.
abbrev pub Last : Event → World → Type 0
Last event w = (earlier : History) × (w.log ≡ event ∷ earlier)

apply_version-Last :
    (name latest : String) (env : Env) (w w' : World)
    → apply_version name Migrations.manager latest env w ≡ (ok tt, w')
    → Last (applied env name latest) w'
apply_version-Last name latest env w w' h =
    (w.log, ap (λ (v : World). v.log) (sym (lift-eq-ok h).1))

upgrade-Last :
    (name : String) (crd_versions : List Definition) (latest : String) (migrations : M (Unit {0}))
    (env : Env) (w w' : World)
    → upgrade name crd_versions latest migrations env w ≡ (ok tt, w')
    → Last (applied env name latest) w'
upgrade-Last name crd_versions latest migrations env w w' h =
    let final = apply_version name Migrations.manager latest in
    let (merged, v, p, q) =
      continue-eq-ok (read (λ env. env.libraries.merge_crds crd_versions latest) env w)
        (λ merged. lift (to_outcome Error.crd_merge merged) >>= λ crd.
          apply_definition name Migrations.manager crd
          >> (wait_crd_ready name >> (migrations >> final)))
        env h in
    let (crd, v1, p1, q1) =
      continue-eq-ok (lift (to_outcome Error.crd_merge merged) env v)
        (λ crd.
          apply_definition name Migrations.manager crd
          >> (wait_crd_ready name >> (migrations >> final)))
        env q in
    let (t2, v2, p2, q2) =
      continue-eq-ok (apply_definition name Migrations.manager crd env v1)
        (λ x. wait_crd_ready name >> (migrations >> final)) env q1 in
    let (t3, v3, p3, q3) =
      continue-eq-ok (wait_crd_ready name env v2) (λ x. migrations >> final) env q2 in
    let (t4, v4, p4, q4) = continue-eq-ok (migrations env v3) (λ x. final) env q3 in
    apply_version-Last name latest env v4 w' q4

if-Last :
    (b : Bool) (m k : M (Unit {0})) (event : Event) (env : Env) (w w' : World)
    → (m env w ≡ (ok tt, w') → Last event w')
    → (k env w ≡ (ok tt, w') → Last event w')
    → (if b then m else k) env w ≡ (ok tt, w')
    → Last event w'
if-Last true m k event env w w' yes_ no_ h = yes_ h
if-Last false m k event env w w' yes_ no_ h = no_ h

-- Whatever the definition was before, and whatever the migrations are: when a resource has been
-- created or upgraded, the last thing that happened is that the definition of the latest version
-- alone was applied.
pub create_or_upgrade-Last :
    (name : String) (crd_versions : List Definition) (latest : String) (migrations : M (Unit {0}))
    (found : Reply KubeError Definition) (env : Env) (w w' : World)
    → create_or_upgrade name crd_versions latest migrations found env w ≡ (ok tt, w')
    → Last (applied env name latest) w'
create_or_upgrade-Last name crd_versions latest migrations (failed e) env w w' h =
    upgrade-Last name crd_versions latest migrations env w w' h
create_or_upgrade-Last name crd_versions latest migrations (done crd) env w w' h =
    if-Last (texts_eq (map (λ (v : CrdVersion). v.name) crd.versions) (latest ∷ []))
      (apply_version name Migrations.manager latest) (upgrade name crd_versions latest migrations)
      (applied env name latest) env w w' (apply_version-Last name latest env w w')
      (upgrade-Last name crd_versions latest migrations env w w') h
