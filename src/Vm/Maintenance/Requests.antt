-- ===== src/Vm/Maintenance/Requests.antt =====
-- Who is asked to leave a node in maintenance.
use cluster_controller.Prelude.{
  String, ◌≡◌, ◌≢◌, inl, inr, refl, ap, Option, none, some, List, [], ◌∷◌, ◌++◌, ◌==◌,
  if◌then◌else◌, Bool-cases, Option-cases, All, ◌∙◌,
}
use cluster_controller.Errors.{Outcome, ok, err, Error}
use cluster_controller.Crd.{VirtualMachine, VirtualMachineStatus, Node}
use cluster_controller.World.{Event, Env, World, happen, for_each, done, continue, of_vm}
use cluster_controller.Kube.{try_status, commit, vm_resource}
use cluster_controller.Vm.Annotations.{with_migration_request, request_migration_away_from}
use cluster_controller.Vm.Maintenance.{leave, request_reschedule, request_reschedule_node_vms}

-- The write that a machine gets, if it is on the node.
abbrev pub write_for : String → VirtualMachine → Option String → List Event
write_for name vm none = []
write_for name vm (some node) =
    if node == name
    then Event.replace (of_vm (with_migration_request vm name)) "cluster-manager.libvirt.node" ∷ []
    else []

abbrev pub writes_of : String → VirtualMachine → Option VirtualMachineStatus → List Event
writes_of name vm none = []
writes_of name vm (some status) = write_for name vm status.node

-- The writes for some machines in order, in front of a history.
abbrev pub all_writes : String → List VirtualMachine → List Event → List Event
all_writes name [] log = log
all_writes name (vm ∷ vms) log = all_writes name vms (writes_of name vm vm.status ++ log)

-- The machine has a name and a status.
abbrev pub IsReady : VirtualMachine → Type 0
IsReady vm = (vm.metadata.name ≢ none) × (vm.status ≢ none)

name_of :
    (vm : VirtualMachine)
    → vm.metadata.name ≢ none
    → (name : String) × (vm.metadata.name ≡ some name)
name_of vm h = elim (Option-cases vm.metadata.name) [ inl e ↦ absurd (h e) | inr found ↦ found ]

try_status-some :
    (vm : VirtualMachine) (status : VirtualMachineStatus)
    → vm.status ≡ some status
    → try_status vm ≡ ok status
unfolding try_status
try_status-some vm status e = rw e refl

commit_lem :
    (vm : VirtualMachine) (manager : String) (env : Env) (w : World) {vm_name : String}
    → vm.metadata.name ≡ some vm_name
    → ((h : List Event) → env.kube.write h ≡ done tt)
    → commit vm manager env w ≡ (ok tt, happen (Event.replace (of_vm vm) manager) w)
unfolding commit
commit_lem vm manager env w p accepts = simp (p, accepts (Event.replace (of_vm vm) manager ∷ w.log))

module _ (node : Node) (name : String) (named : node.metadata.name ≡ some name) (env : Env)
    (accepts : (h : List Event) → env.kube.write h ≡ done tt) where
  leave-some :
      (vm : VirtualMachine) (on : String) (w : World)
      → vm.metadata.name ≢ none
      → leave node vm (some on) env w
        ≡ (ok tt, record w { log = write_for name vm (some on) ++ w.log })
  unfolding request_migration_away_from
  leave-some vm on w p = elim (Bool-cases (on == name)) [
    | inl b ↦
        rw (named, b)
          (commit_lem (with_migration_request vm name) "cluster-manager.libvirt.node" env w
            (name_of vm p).1 accepts)
    | inr b ↦ rw (named, b) refl
  ]

  leave_lem :
      (vm : VirtualMachine) (on : Option String) (w : World)
      → vm.metadata.name ≢ none
      → leave node vm on env w ≡ (ok tt, record w { log = write_for name vm on ++ w.log })
  leave_lem vm none w p = refl
  leave_lem vm (some on) w p = leave-some vm on w p

  by_status :
      (vm : VirtualMachine) (o : Option VirtualMachineStatus) (w : World)
      → vm.status ≡ o
      → o ≢ none
      → vm.metadata.name ≢ none
      → request_reschedule node vm env w ≡ (ok tt, record w { log = writes_of name vm o ++ w.log })
  unfolding request_reschedule
  by_status vm none w e q p = absurd (q refl)
  by_status vm (some status) w e q p =
      ap
        (λ (o : Outcome VirtualMachineStatus).
          continue (o, w) (λ (s : VirtualMachineStatus). leave node vm s.node) env)
        (try_status-some vm status e)
      ∙ leave_lem vm status.node w p

  request_one :
      (vm : VirtualMachine) (w : World)
      → IsReady vm
      → request_reschedule node vm env w
        ≡ (ok tt, record w { log = writes_of name vm vm.status ++ w.log })
  request_one vm w (p, q) = by_status vm vm.status w refl q p

  request_each :
      (vms : List VirtualMachine) (w : World)
      → All IsReady vms
      → for_each (request_reschedule node) vms env w
        ≡ (ok tt, record w { log = all_writes name vms w.log })
  unfolding for_each
  request_each [] w h = refl
  request_each (vm ∷ vms) w h =
      rw (request_one vm w h.0)
        (request_each vms (record w { log = writes_of name vm vm.status ++ w.log }) h.1)

  -- Where the API server lists the machines and accepts all writes, and every machine has a name
  -- and a status: the machines that are on the node get a request to leave it, in order, and
  -- nothing else is written.
  pub request_reschedule_node_vms-All :
      (vms : List VirtualMachine) (w : World)
      → env.kube.vms (Event.list_vms none ∷ w.log) none ≡ done vms
      → All IsReady vms
      → request_reschedule_node_vms node env w
        ≡ (ok tt, record w { log = all_writes name vms (Event.list_vms none ∷ w.log) })
  unfolding request_reschedule_node_vms
  request_reschedule_node_vms-All vms w e h =
      rw e (request_each vms (happen (Event.list_vms none) w) h)

  stops :
      (bare : VirtualMachine) (after : List VirtualMachine) (error : Error)
      (before : List VirtualMachine) (w : World)
      → try_status bare ≡ err error
      → All IsReady before
      → for_each (request_reschedule node) (before ++ bare ∷ after) env w
        ≡ (err error, record w { log = all_writes name before w.log })
  unfolding for_each request_reschedule
  stops bare after error [] w s h = rw s refl
  stops bare after error (vm ∷ vms) w s h =
      rw (request_one vm w h.0)
        (stops bare after error vms (record w { log = writes_of name vm vm.status ++ w.log }) s h.1)

  -- A machine without a status stops the round: those before it have been asked, those after it
  -- are not, whichever node they are on.
  pub request_reschedule_node_vms-stops :
      (before after : List VirtualMachine) (bare : VirtualMachine) (error : Error) (w : World)
      → env.kube.vms (Event.list_vms none ∷ w.log) none ≡ done (before ++ bare ∷ after)
      → All IsReady before
      → try_status bare ≡ err error
      → request_reschedule_node_vms node env w
        ≡ (err error, record w { log = all_writes name before (Event.list_vms none ∷ w.log) })
  unfolding request_reschedule_node_vms
  request_reschedule_node_vms-stops before after bare error w e h s =
      rw e (stops bare after error before (happen (Event.list_vms none) w) s h)
