-- ===== src/Install/Migrations/Moved.antt =====
-- What the migration of machines has written when it returns.
use mathlib.Core.Path.{subst}
use cluster_controller.Prelude.{String, ◌≡◌, refl, some, List, [], ◌∷◌, All, All-map, In, inl}
use cluster_controller.Errors.{ok, Error, expect, collect}
use cluster_controller.Crd.{VirtualMachineV1beta2, ObjectMeta}
use cluster_controller.World.{Event, Env, World, History, lift, ask, for_each, done}
use cluster_controller.World.Monad.Inversion.{
  continue-eq-ok, lift-eq-ok, expect-eq-ok, to_outcome-eq-ok,
}
use cluster_controller.World.Monad.Growth.{
  Extends, Extends-In, Grows, Grows-Extends, lift-Grows, ask-Grows, bind-Grows, for_each-Grows,
}
use cluster_controller.Install.Migrations.{manager, migrate_vm, migrate_namespace}

-- The machine's interfaces have been written to its status.
abbrev pub Written : World → String → VirtualMachineV1beta2 → Type 0
Written w namespace vm =
    (name : String) × (vm.metadata.name ≡ some name)
    × In (Event.patch_vm_networks namespace name vm.spec.networks manager) w.log

-- So have those of all machines that the API server listed in a namespace.
abbrev pub Moved : Env → World → String → Type 0
Moved env w namespace =
    (history : History) × (vms : List VirtualMachineV1beta2) × (env.kube.vms_v1beta2 history
        namespace
      ≡ done vms)
    × All (Written w namespace) vms

abbrev pub AllMoved : Env → World → Type 0
AllMoved env w =
    (history : History) × (namespaces : List ObjectMeta) × (names : List String)
    × (env.kube.namespaces history ≡ done namespaces)
    × (collect (λ (ns : ObjectMeta). expect ns.name) namespaces ≡ ok names)
    × All (Moved env w) names

Written-later :
    (v w : World)
    → Extends w v
    → (namespace : String) (vm : VirtualMachineV1beta2) → Written v namespace vm
    → Written w namespace vm
Written-later v w more namespace vm (name, named, found) =
    (name, named, Extends-In w v _ more found)

pub Moved-later :
    (env : Env) (v w : World)
    → Extends w v
    → (namespace : String) → Moved env v namespace
    → Moved env w namespace
Moved-later env v w more namespace (history, vms, listed, written) = (
  history,
  vms,
  listed,
  All-map (Written v namespace) (Written w namespace) (Written-later v w more namespace) vms
      written,
)

migrate_vm-Grows :
    (namespace : String) (vm : VirtualMachineV1beta2) → Grows (migrate_vm namespace vm)
migrate_vm-Grows namespace vm = bind-Grows (lift-Grows (expect vm.metadata.name)) λ name.
    ask-Grows (Event.patch_vm_networks namespace name vm.spec.networks manager) Error.kube
      (λ env h. env.kube.write h)

pub migrate_namespace-Grows : (namespace : String) → Grows (migrate_namespace namespace)
unfolding migrate_namespace
migrate_namespace-Grows namespace =
    bind-Grows
      (ask-Grows (Event.list_vms_v1beta2 namespace) Error.kube
        (λ env h. env.kube.vms_v1beta2 h namespace))
      λ vms. for_each-Grows (migrate_vm-Grows namespace) vms

migrate_vm-Written :
    (namespace : String) (vm : VirtualMachineV1beta2) (env : Env) (w : World) {w' : World}
    → migrate_vm namespace vm env w ≡ (ok tt, w')
    → Written w' namespace vm
migrate_vm-Written namespace vm env w h =
    let (name, v, p, q) = continue-eq-ok (lift (expect vm.metadata.name) env w) _ env h in
    (
      name,
      expect-eq-ok vm.metadata.name (lift-eq-ok p).0,
      subst
          (λ (u : World).
            In (Event.patch_vm_networks namespace name vm.spec.networks manager) u.log)
          (lift-eq-ok q).1 (inl refl),
    )

for_each-Written :
    (namespace : String) (vms : List VirtualMachineV1beta2) (env : Env) (w : World) {w' : World}
    → for_each (migrate_vm namespace) vms env w ≡ (ok tt, w')
    → All (Written w' namespace) vms
unfolding for_each
for_each-Written namespace [] env w h = tt
for_each-Written namespace (vm ∷ vms) env w {w'} h =
    let (u, v, p, q) =
      continue-eq-ok (migrate_vm namespace vm env w) (λ x. for_each (migrate_vm namespace) vms) env
        h in
    (
      Written-later v w' (Grows-Extends (for_each-Grows (migrate_vm-Grows namespace) vms) q)
          namespace vm (migrate_vm-Written namespace vm env w p),
      for_each-Written namespace vms env v q,
    )

migrate_namespace-Moved :
    (namespace : String) (env : Env) (w : World) {w' : World}
    → migrate_namespace namespace env w ≡ (ok tt, w')
    → Moved env w' namespace
unfolding migrate_namespace
migrate_namespace-Moved namespace env w h =
    let (vms, v, p, q) =
      continue-eq-ok
        (ask (Event.list_vms_v1beta2 namespace) Error.kube
          (λ env h. env.kube.vms_v1beta2 h namespace) env w)
        (λ vms. for_each (migrate_vm namespace) vms) env h in
    (
      Event.list_vms_v1beta2 namespace ∷ w.log,
      vms,
      to_outcome-eq-ok Error.kube _ (lift-eq-ok p).0,
      for_each-Written namespace vms env v q,
    )

pub for_each-Moved :
    (names : List String) (env : Env) (w : World) {w' : World}
    → for_each migrate_namespace names env w ≡ (ok tt, w')
    → All (Moved env w') names
unfolding for_each
for_each-Moved [] env w h = tt
for_each-Moved (name ∷ names) env w {w'} h =
    let (u, v, p, q) =
      continue-eq-ok (migrate_namespace name env w) (λ x. for_each migrate_namespace names) env h in
    (
      Moved-later env v w' (Grows-Extends (for_each-Grows migrate_namespace-Grows names) q) name
          (migrate_namespace-Moved name env w p),
      for_each-Moved names env v q,
    )
