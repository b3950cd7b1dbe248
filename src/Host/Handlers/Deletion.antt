-- ===== src/Host/Handlers/Deletion.antt =====
-- What the deletion of a machine does with its domain.
use cluster_controller.Prelude.{String, ◌≡◌, refl, ◌∷◌}
use cluster_controller.Errors.{Outcome, ok, err, libvirt}
use cluster_controller.Crd.{VirtualMachine}
use cluster_controller.World.{
  Event, Env, World, M, ◌>>◌, pure, Reply, done, failed, happen, continue, to_outcome, settle,
}
use cluster_controller.Kube.{remove_finalizer, vm_resource}
use cluster_controller.Controller.{Action, await_change, field_manager}
use cluster_controller.Host.Machines.{expect_domain_name}
use cluster_controller.Host.Handlers.{handle_delete, destroy_found, finalizer}

-- The rest of the deletion.
abbrev pub let_go : VirtualMachine → M Action
let_go vm = remove_finalizer vm finalizer (field_manager "libvirt-host") >> pure await_change

-- By the answer for the destruction.
abbrev pub after_destruction :
    VirtualMachine → String → Env → World → Reply String (Unit {0}) → Outcome Action × World
after_destruction vm name env u (done destroyed) =
    let_go vm env (happen (Event.destroy_domain name) u)
after_destruction vm name env u (failed e) = (err (libvirt e), happen (Event.destroy_domain name) u)

-- By the answer for the lookup.
abbrev pub after_lookup :
    VirtualMachine → String → Env → World → Reply String (Unit {0}) → Outcome Action × World
after_lookup vm name env u (done found) =
    after_destruction vm name env u (env.hypervisor.domain_call (Event.destroy_domain name ∷ u.log))
after_lookup vm name env u (failed e) = let_go vm env u

destroying :
    (vm : VirtualMachine) (name : String) (env : Env) (u : World) (answer : Reply String (Unit {0}))
    → continue
        (continue
          (to_outcome libvirt answer, happen (Event.destroy_domain name) u)
          (λ x. remove_finalizer vm finalizer (field_manager "libvirt-host"))
          env)
        (λ x. pure await_change)
        env
      ≡ after_destruction vm name env u answer
destroying vm name env u (done destroyed) = refl
destroying vm name env u (failed e) = refl

looked_up :
    (vm : VirtualMachine) (name : String) (env : Env) (u : World) (answer : Reply String (Unit {0}))
    → continue
        (continue
          (continue (settle (to_outcome libvirt answer, u)) (destroy_found name) env)
          (λ x. remove_finalizer vm finalizer (field_manager "libvirt-host"))
          env)
        (λ x. pure await_change)
        env
      ≡ after_lookup vm name env u answer
looked_up vm name env u (done found) =
    destroying vm name env u (env.hypervisor.domain_call (Event.destroy_domain name ∷ u.log))
looked_up vm name env u (failed e) = refl

-- The deletion of a machine with a domain name: when the lookup finds the domain, it is destroyed,
-- and the finalizer is removed only if that succeeded. When the lookup fails, with any error at
-- all, nothing is destroyed and the finalizer is removed.
pub handle_delete-after_lookup :
    (vm : VirtualMachine) (name : String) (env : Env) (w : World)
    → expect_domain_name vm ≡ ok name
    → handle_delete vm env w
      ≡ after_lookup vm name env
          (happen (Event.lookup_domain name) w)
          (env.hypervisor.domain_call (Event.lookup_domain name ∷ w.log))
unfolding handle_delete
handle_delete-after_lookup vm name env w named = rw named (
    looked_up vm name env (happen (Event.lookup_domain name) w)
      (env.hypervisor.domain_call (Event.lookup_domain name ∷ w.log)))
