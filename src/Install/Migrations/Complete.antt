-- ===== src/Install/Migrations/Complete.antt =====
-- The migration of machines is complete when it returns.
use cluster_controller.Prelude.{
  All-map, String, ◌≡◌, refl, sym, ap, ◌∙◌, some, List, [], ◌∷◌, get_or, In, inl, inr, ◌==◌,
}
use cluster_controller.Errors.{ok, Error, expect, collect}
use cluster_controller.Crd.{ObjectMeta}
use cluster_controller.Workloads.{Definition, DefinitionStatus}
use cluster_controller.World.{Event, Env, World, ◌>>=◌, ◌>>◌, lift, ask, for_each, done, happen}
use cluster_controller.World.Monad.Inversion.{continue-eq-ok, lift-eq-ok, to_outcome-eq-ok}
use cluster_controller.World.Monad.Growth.{
  Extends, Grows, Grows-Extends, lift-Grows, ask-Grows, bind-Grows, then-Grows, if-Grows,
  for_each-Grows,
}
use cluster_controller.Install.Readiness.{get_namespace_names}
use cluster_controller.Install.Migrations.{
  get_definition, write, migrate_namespace, migrate_version, run_migrations, remove_crd_version,
  vm_crd_name,
}
use cluster_controller.Install.Migrations.Moved.{
  Moved, AllMoved, Moved-later, for_each-Moved, migrate_namespace-Grows,
}

write-Grows : (event : Event) → Grows (write event)
write-Grows event = ask-Grows event Error.kube (λ env h. env.kube.write h)

get_definition-Grows : (crd_name : String) → Grows (get_definition crd_name)
get_definition-Grows crd_name =
    ask-Grows (Event.get_definition crd_name) Error.kube (λ env h. env.kube.definition h crd_name)

remove_crd_version-Grows : (crd_name version : String) → Grows (remove_crd_version crd_name version)
unfolding remove_crd_version
remove_crd_version-Grows crd_name version = bind-Grows (get_definition-Grows crd_name) λ crd.
    bind-Grows (lift-Grows (expect crd.status)) λ status.
      bind-Grows (lift-Grows (expect status.stored_versions)) λ stored.
        then-Grows (write-Grows _)
          (bind-Grows (get_definition-Grows crd_name) λ again. write-Grows _)

get_namespace_names-Grows : Grows get_namespace_names
unfolding get_namespace_names
get_namespace_names-Grows =
    bind-Grows (ask-Grows Event.list_namespaces Error.kube (λ env h. env.kube.namespaces h))
      λ namespaces. lift-Grows (collect (λ (ns : ObjectMeta). expect ns.name) namespaces)

old_version-Grows :
    (version : String)
    → Grows (
        get_namespace_names
        >>= (λ namespaces. for_each migrate_namespace namespaces)
        >> remove_crd_version vm_crd_name version)
old_version-Grows version =
    then-Grows
      (bind-Grows get_namespace_names-Grows λ names. for_each-Grows migrate_namespace-Grows names)
      (remove_crd_version-Grows vm_crd_name version)

migrate_version-Grows : (version : String) → Grows (migrate_version version)
unfolding migrate_version
migrate_version-Grows version =
    if-Grows (version == "v1beta2") _ _ (old_version-Grows version) (lift-Grows (ok tt))

AllMoved-later : (env : Env) (v w : World) → Extends w v → AllMoved env v → AllMoved env w
AllMoved-later env v w more (history, namespaces, names, listed, named, moved) = (
  history,
  namespaces,
  names,
  listed,
  named,
  All-map (Moved env v) (Moved env w) (Moved-later env v w more) names moved,
)

old_version-AllMoved :
    (env : Env) (w : World) {w' : World}
    → migrate_version "v1beta2" env w ≡ (ok tt, w')
    → AllMoved env w'
unfolding migrate_version get_namespace_names
old_version-AllMoved env w {w'} h =
    let (u, v, p, q) =
      continue-eq-ok
        ((get_namespace_names >>= (λ namespaces. for_each migrate_namespace namespaces)) env w)
        (λ x. remove_crd_version vm_crd_name "v1beta2") env h in
    let (names, v', p', q') =
      continue-eq-ok (get_namespace_names env w)
        (λ namespaces. for_each migrate_namespace namespaces) env p in
    let (namespaces, x, listing, named) =
      continue-eq-ok (ask Event.list_namespaces Error.kube (λ env h. env.kube.namespaces h) env w)
        (λ namespaces. lift (collect (λ (ns : ObjectMeta). expect ns.name) namespaces)) env p' in
    AllMoved-later env v w' (Grows-Extends (remove_crd_version-Grows vm_crd_name "v1beta2") q) (
      Event.list_namespaces ∷ w.log,
      namespaces,
      names,
      to_outcome-eq-ok Error.kube _ (lift-eq-ok listing).0,
      (lift-eq-ok named).0,
      for_each-Moved names env v' q',
    )

for_each-AllMoved :
    (versions : List String) (env : Env) (w : World) {w' : World}
    → for_each migrate_version versions env w ≡ (ok tt, w')
    → In "v1beta2" versions
    → AllMoved env w'
unfolding for_each
for_each-AllMoved [] env w h found = absurd found.1
for_each-AllMoved (version ∷ versions) env w {w'} h (inl same) =
    let (u, v, p, q) =
      continue-eq-ok (migrate_version version env w) (λ x. for_each migrate_version versions) env
        h in
    AllMoved-later env v w' (Grows-Extends (for_each-Grows migrate_version-Grows versions) q)
      (old_version-AllMoved env w (ap (λ s. migrate_version s env w) same ∙ p))
for_each-AllMoved (version ∷ versions) env w h (inr later) =
    let (u, v, p, q) =
      continue-eq-ok (migrate_version version env w) (λ x. for_each migrate_version versions) env
        h in
    for_each-AllMoved versions env v q later

-- When the migrations return and the definition of machines had v1beta2 among its stored versions,
-- then the namespaces were listed, the machines of v1beta2 in each of them were listed, and for each
-- of these machines the interfaces of its spec have been written to its status.
pub run_migrations-AllMoved :
    (env : Env) (w w' : World) (crd : Definition) (status : DefinitionStatus)
    → run_migrations env w ≡ (ok tt, w')
    → env.kube.definition (Event.get_definition vm_crd_name ∷ w.log) vm_crd_name ≡ done crd
    → crd.status ≡ some status
    → In "v1beta2" (get_or status.stored_versions [])
    → AllMoved env w'
unfolding run_migrations
run_migrations-AllMoved env w w' crd status h answered has_status stored =
    let versions = get_or status.stored_versions [] in
    let v = happen (Event.get_definition vm_crd_name) w in
    let runs : run_migrations env w ≡ for_each migrate_version versions env v =
      rw (answered, has_status) refl in
    for_each-AllMoved versions env v (sym runs ∙ h) stored
