-- ===== src/Vm/Scheduling/Choice.antt =====
-- The node that the scheduler chooses.
use mathlib.Core.Path.{subst}
use cluster_controller.Prelude.{
  some_injective, ◌∙◌, ℕ, zero, suc, String, ◌≡◌, ◌≢◌, ◌⊎◌, inl, inr, refl, sym, ap, Bool, true,
  false, not, Option, none, some, List, [], ◌∷◌, arith, ◌==◌, if◌then◌else◌, get_or, get_elem?,
  find, filter_map, Option-cases, eq_iff, All, In, some_injective, find-some, In-retain,
}
use cluster_controller.Errors.{ok, Error, expect}
use cluster_controller.Crd.{VirtualMachine, Node}
use cluster_controller.World.{Event, Env, World, happen, done}
use cluster_controller.World.Monad.Inversion.{
  expect-eq-ok, ok-injective, continue-eq-ok, lift-eq-ok, bind-eq-ok, to_outcome-eq-ok,
}
use cluster_controller.Node.{in_maintenance_mode, allows_scheduling}
use cluster_controller.Vm.Annotations.{migration_requested_from}
use cluster_controller.Vm.Scheduling.{
  anti_affinity_label, get_vms_with_label, get_vm_node, get_nodes_with_label_scheduled,
  remove_candidate_node, remove_candidate_nodes, remove_nodes_in_maintenance,
  remove_nodes_with_no_schedule, requested, without_source, without_group, choose, is_requested,
  group_of, chosen, schedule_among, schedule,
}

not-true : (b : Bool) → not b ≡ true → b ≡ false
not-true true h = cc
not-true false h = refl

-- The candidates that are left are those of another name.
drop_step :
    (same : Bool) (c x : Node) (others : List Node)
    → In x (if same then others else c ∷ others)
    → ((same ≡ false) × (x ≡ c)) ⊎ In x others
drop_step true c x others m = inr m
drop_step false c x others (inl e) = inl (refl, e)
drop_step false c x others (inr m) = inr m

name-ne :
    (o : Option String) (name gone : String)
    → o ≡ some name
    → (name == gone) ≡ false
    → o ≢ some gone
name-ne o name gone e h e' = ground (arith, eq_iff name gone)

remove_candidate_node_sound :
    (gone : String) (candidates : List Node) {left : List Node} (x : Node)
    → remove_candidate_node gone candidates ≡ ok left
    → In x left
    → In x candidates × (x.metadata.name ≢ some gone)
unfolding remove_candidate_node
remove_candidate_node_sound gone [] x e m = absurd ((subst (In x) (sym (ok-injective e)) m).1)
remove_candidate_node_sound gone (c ∷ rest) x e m =
    let (name, p, e') = bind-eq-ok (expect c.metadata.name) _ e in
    let (others, q, e'') = bind-eq-ok (remove_candidate_node gone rest) _ e' in
    elim (drop_step (name == gone) c x others (subst (In x) (sym (ok-injective e'')) m)) [
      | inl (ne, same) ↦ (
        inl same,
        subst (λ (y : Node). y.metadata.name ≢ some gone) (sym same)
            (name-ne c.metadata.name name gone (expect-eq-ok _ p) ne),
      )
      | inr later ↦ let (k, ne) = remove_candidate_node_sound gone rest x q later in (inr k, ne)
    ]

remove_candidate_nodes_sound :
    (gone : List String) (candidates : List Node) {left : List Node} (x : Node)
    → remove_candidate_nodes candidates gone ≡ ok left
    → In x left
    → In x candidates × All (λ name. x.metadata.name ≢ some name) gone
unfolding remove_candidate_nodes
remove_candidate_nodes_sound [] candidates x e m = (subst (In x) (sym (ok-injective e)) m, tt)
remove_candidate_nodes_sound (g ∷ gone) candidates x e m =
    let (others, p, e') = bind-eq-ok (remove_candidate_node g candidates) _ e in
    let (k, all) = remove_candidate_nodes_sound gone others x e' m in
    let (k', ne) = remove_candidate_node_sound g candidates x p k in (k', (ne, all))

get_elem?-In : (xs : List Node) (i : ℕ) {x : Node} → get_elem? xs i ≡ some x → In x xs
get_elem?-In [] i e = absurd (let no_value : ⊥ = cc e in no_value)
get_elem?-In (y ∷ xs) zero e = inl (sym (some_injective e))
get_elem?-In (y ∷ xs) (suc i) e = inr (get_elem?-In xs i e)

chosen-eq-ok : (vm : VirtualMachine) (o : Option Node) {x : Node} → chosen vm o ≡ ok x → o ≡ some x
chosen-eq-ok vm (some node) e = ap some (ok-injective e)
chosen-eq-ok vm none e =
    let (name, p, e') = bind-eq-ok (expect vm.metadata.name) _ e in
    absurd (let no_value : ⊥ = cc e' in no_value)

choose_sound :
    (vm : VirtualMachine) (candidates : List Node) (env : Env) (w : World) {x : Node} {w' : World}
    → choose vm candidates env w ≡ (ok x, w')
    → In x candidates
unfolding choose
choose_sound vm candidates env w e = get_elem?-In candidates _ (chosen-eq-ok vm _ (lift-eq-ok e).0)

-- Where the machine is not asked to leave the node.
abbrev pub NotSource : Option String → Node → Type 0
NotSource none x = Unit
NotSource (some source) x = x.metadata.name ≢ some source

without_source_sound :
    (o : Option String) (candidates : List Node) {left : List Node} (x : Node)
    → without_source o candidates ≡ ok left
    → In x left
    → In x candidates × NotSource o x
without_source_sound none candidates x e m = (subst (In x) (sym (ok-injective e)) m, tt)
without_source_sound (some s) candidates x e m =
    let (k, ne) = remove_candidate_nodes_sound (s ∷ []) candidates x e m in (k, ne.0)

-- No machine of the group is on the node, by the list of the group's machines that the API server
-- gave last.
abbrev pub NotInGroup : Option String → Env → World → Node → Type 0
NotInGroup none env w x = Unit
NotInGroup (some group) env w x =
    (vms : List VirtualMachine) × (env.kube.vms
        (Event.list_vms (some (anti_affinity_label, group)) ∷ w.log)
        (some (anti_affinity_label, group))
      ≡ done vms)
    × All (λ name. x.metadata.name ≢ some name) (filter_map get_vm_node vms)

without_group_sound :
    (o : Option String) (candidates : List Node) (env : Env) (w : World) {left : List Node}
    {w' : World} (x : Node)
    → without_group o candidates env w ≡ (ok left, w')
    → In x left
    → In x candidates × NotInGroup o env w x
unfolding get_nodes_with_label_scheduled get_vms_with_label
without_group_sound none candidates env w x e m =
    (subst (In x) (sym (ok-injective (lift-eq-ok e).0)) m, tt)
without_group_sound (some group) candidates env w x e m =
    let (blocked, v, e1, e2) = continue-eq-ok _ _ env e in
    let (vms, u, e3, e4) = continue-eq-ok _ _ env e1 in
    let same = ok-injective (lift-eq-ok e4).0 in
    let (k, all) = remove_candidate_nodes_sound blocked candidates x (lift-eq-ok e2).0 m in
    (
      k,
      (
        vms,
        to_outcome-eq-ok Error.kube _ (lift-eq-ok e3).0,
        subst (All (λ name. x.metadata.name ≢ some name)) (sym same) all,
      ),
    )

-- What holds of a chosen node besides that it is not in maintenance. `w` is the world after the
-- nodes have been listed.
abbrev pub MeetsSpec : VirtualMachine → Bool → Env → World → Option String → Node → Type 0
MeetsSpec vm ignore_affinity env w (some name) x = get_or x.metadata.name "" ≡ name
MeetsSpec vm ignore_affinity env w none x =
    (allows_scheduling x ≡ true)
    × NotSource (migration_requested_from vm) x
    × NotInGroup (group_of vm ignore_affinity) env w x

requested_sound :
    (vm : VirtualMachine) (name : String) (candidates : List Node) {x : Node}
    → requested vm name (find (is_requested name) candidates) ≡ ok x
    → In x candidates × (get_or x.metadata.name "" ≡ name)
requested_sound vm name candidates {x} e =
    elim (Option-cases (find (is_requested name) candidates)) [
      | inl p ↦
          let (n, q, e') = bind-eq-ok (expect vm.metadata.name) _ (rw p at e) in
          absurd (let no_value : ⊥ = cc e' in no_value)
      | inr (node, p) ↦
          let same : node ≡ x = ok-injective (rw p at e) in
          let (m, t) = find-some (is_requested name) candidates (p ∙ ap some same) in
          (m, (eq_iff _ name).0 t)
    ]

schedule_among_sound :
    (vm : VirtualMachine) (ignore_affinity : Bool) (candidates : List Node) (o : Option String)
    (env : Env) (w : World) {x : Node} {w' : World}
    → schedule_among vm ignore_affinity candidates o env w ≡ (ok x, w')
    → In x candidates × MeetsSpec vm ignore_affinity env w o x
unfolding remove_nodes_with_no_schedule
schedule_among_sound vm ignore_affinity candidates (some name) env w e =
    requested_sound vm name candidates (lift-eq-ok e).0
schedule_among_sound vm ignore_affinity candidates none env w {x} e =
    let (others, v, e1, e2) = continue-eq-ok _ _ env e in
    let (left, u, e3, e4) = continue-eq-ok _ _ env e2 in
    let (p, same) = lift-eq-ok e1 in
    let m = choose_sound vm left env u e4 in
    let (k, group) = without_group_sound (group_of vm ignore_affinity) others env v x e3 m in
    let (j, source) = without_source_sound (migration_requested_from vm) _ x p k in
    let (i, allowed) = In-retain allows_scheduling candidates {x = x} j in
    (
      i,
      (
        allowed,
        source,
        subst (λ u. NotInGroup (group_of vm ignore_affinity) env u x) (sym same) group,
      ),
    )

abbrev pub Suits : VirtualMachine → Bool → Env → World → Node → Type 0
Suits vm ignore_affinity env w x =
    (nodes : List Node) × (env.kube.nodes (Event.list_nodes ∷ w.log) ≡ done nodes)
    × In x nodes
    × (in_maintenance_mode x ≡ false)
    × MeetsSpec vm ignore_affinity env (happen Event.list_nodes w) vm.spec.node x

-- A node that the scheduler returns is one of the nodes that the API server listed, and is not in
-- maintenance. If the specification names a node, it is that one. If not, it allows scheduling, it
-- is not the node that the machine was asked to leave, and, unless anti-affinity is ignored, no
-- machine of the machine's anti-affinity group is scheduled to it.
pub schedule-Suits :
    (vm : VirtualMachine) (ignore_affinity : Bool) (env : Env) (w : World) {x : Node} {w' : World}
    → schedule vm ignore_affinity env w ≡ (ok x, w')
    → Suits vm ignore_affinity env w x
unfolding schedule remove_nodes_in_maintenance
schedule-Suits vm ignore_affinity env w {x} e =
    let (nodes, v, e1, e2) = continue-eq-ok _ _ env e in
    let (p, same) = lift-eq-ok e1 in
    let (m, meets) =
      schedule_among_sound vm ignore_affinity (remove_nodes_in_maintenance nodes) vm.spec.node env v
        e2 in
    let (i, t) = In-retain (λ candidate. not (in_maintenance_mode candidate)) nodes {x = x} m in
    (
      nodes,
      to_outcome-eq-ok Error.kube _ p,
      i,
      not-true (in_maintenance_mode x) t,
      subst (λ u. MeetsSpec vm ignore_affinity env u vm.spec.node x) (sym same) meets,
    )
