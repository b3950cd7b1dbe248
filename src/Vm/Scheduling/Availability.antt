-- ===== src/Vm/Scheduling/Availability.antt =====
-- A node is found where one suits.
use native.Mathlib.Nat.{mod-lt}
use cluster_controller.Prelude.{
  ℕ, zero, suc, ◌%◌, ◌<◌, String, ◌≡◌, ◌≢◌, inl, inr, refl, ap, Bool, true, false, not, Option,
  none, some, List, [], ◌∷◌, arith, ◌==◌, if◌then◌else◌, length, get_elem?, retain, filter_map,
  Bool-cases, eq_iff, All, In, retain-In, ◌∙◌,
}
use cluster_controller.Errors.{Outcome, ok}
use cluster_controller.Crd.{VirtualMachine, Node}
use cluster_controller.World.{Event, Env, World, happen, done}
use cluster_controller.Node.{in_maintenance_mode, allows_scheduling}
use cluster_controller.Vm.Annotations.{migration_requested_from}
use cluster_controller.Vm.Scheduling.{
  anti_affinity_label, get_vms_with_label, get_nodes_with_label_scheduled, get_vm_node,
  remove_candidate_node, remove_candidate_nodes, remove_nodes_in_maintenance,
  remove_nodes_with_no_schedule, without_source, without_group, group_of, choose, schedule_among,
  schedule,
}
use cluster_controller.Vm.Scheduling.Choice.{NotSource, NotInGroup}

abbrev pub IsNamed : Node → Type 0
IsNamed node = (name : String) × (node.metadata.name ≡ some name)

-- A filter that succeeds, and keeps the nodes that it is not meant to remove.
abbrev Keeps : (Node → Type 0) → List Node → Outcome (List Node) → Type 0
Keeps Stays candidates result =
    (left : List Node) × (result ≡ ok left)
    × All IsNamed left
    × ((x : Node) → In x candidates → Stays x → In x left)

step_keeps :
    (same : Bool) (c : Node) (gone name : String) (rest others : List Node)
    → (name == gone) ≡ same
    → c.metadata.name ≡ some name
    → All IsNamed others
    → ((x : Node) → In x rest → x.metadata.name ≢ some gone → In x others)
    → All IsNamed (if same then others else c ∷ others)
      × ((x : Node)
          → In x (c ∷ rest)
          → x.metadata.name ≢ some gone
          → In x (if same then others else c ∷ others))
step_keeps true c gone name rest others e p named keeps = (
  named,
  λ x m ne. elim m [
    | inl here ↦
        absurd (ne (ap (λ (n : Node). n.metadata.name) here ∙ p ∙ ap some ((eq_iff name gone).0 e)))
    | inr later ↦ keeps x later ne
  ],
)
step_keeps false c gone name rest others e p named keeps = (
  ((name, p), named),
  λ x m ne. elim m [ inl here ↦ inl here | inr later ↦ inr (keeps x later ne) ],
)

remove_candidate_node-Keeps :
    (gone : String) (candidates : List Node)
    → All IsNamed candidates
    → Keeps (λ x. x.metadata.name ≢ some gone) candidates (remove_candidate_node gone candidates)
unfolding remove_candidate_node
remove_candidate_node-Keeps gone [] named = ([], refl, tt, λ x m ne. m)
remove_candidate_node-Keeps gone (c ∷ rest) ((name, p), named) =
    let (others, e, named', keeps) = remove_candidate_node-Keeps gone rest named in
    let (named'', keeps') = step_keeps (name == gone) c gone name rest others refl p named' keeps in
    (if name == gone then others else c ∷ others, rw (p, e) refl, named'', keeps')

remove_candidate_nodes-Keeps :
    (gone : List String) (candidates : List Node)
    → All IsNamed candidates
    → Keeps
        (λ x. All (λ name. x.metadata.name ≢ some name) gone)
        candidates
        (remove_candidate_nodes candidates gone)
unfolding remove_candidate_nodes
remove_candidate_nodes-Keeps [] candidates named = (candidates, refl, named, λ x m ne. m)
remove_candidate_nodes-Keeps (g ∷ gone) candidates named =
    let (others, e, named', keeps) = remove_candidate_node-Keeps g candidates named in
    let (left, e', named'', keeps') = remove_candidate_nodes-Keeps gone others named' in
    (left, rw e e', named'', λ x m ne. keeps' x (keeps x m ne.0) ne.1)

without_source-Keeps :
    (o : Option String) (candidates : List Node)
    → All IsNamed candidates
    → Keeps (NotSource o) candidates (without_source o candidates)
without_source-Keeps none candidates named = (candidates, refl, named, λ x m ne. m)
without_source-Keeps (some source) candidates named =
    let (left, e, named', keeps) = remove_candidate_nodes-Keeps (source ∷ []) candidates named in
    (left, e, named', λ x m ne. keeps x m (ne, tt))

retain-IsNamed :
    (p : Node → Bool) (nodes : List Node) → All IsNamed nodes → All IsNamed (retain p nodes)
retain-IsNamed p [] named = tt
retain-IsNamed p (node ∷ rest) (this, named) = elim (Bool-cases (p node)) [
  | inl e ↦ rw e (this, retain-IsNamed p rest named)
  | inr e ↦ rw e (retain-IsNamed p rest named)
]

group_keeps :
    (o : Option String) (candidates : List Node) (env : Env) (w : World) (x : Node)
    → All IsNamed candidates
    → In x candidates
    → NotInGroup o env w x
    → (left : List Node) × (w' : World) × (without_group o candidates env w ≡ (ok left, w'))
      × In x left
unfolding get_nodes_with_label_scheduled get_vms_with_label
group_keeps none candidates env w x named m free = (candidates, w, refl, m)
group_keeps (some group) candidates env w x named m (vms, listed, free) =
    let (left, e, named', keeps) =
      remove_candidate_nodes-Keeps (filter_map get_vm_node vms) candidates named in
    (
      left,
      happen (Event.list_vms (some (anti_affinity_label, group))) w,
      rw (listed, e) refl,
      keeps x m free,
    )

get_elem?-lt : (xs : List Node) (i : ℕ) → i < length xs → (y : Node) × (get_elem? xs i ≡ some y)
get_elem?-lt [] i h = absurd (let no_index : ⊥ = omega (arith, h) in no_index)
get_elem?-lt (x ∷ xs) zero h = (x, refl)
get_elem?-lt (x ∷ xs) (suc i) h = get_elem?-lt xs i (omega (arith, h))

In-length : (x : Node) (xs : List Node) → In x xs → 0 < length xs
In-length x [] m = absurd m.1
In-length x (y ∷ xs) m = omega arith

choose-In :
    (vm : VirtualMachine) (candidates : List Node) (env : Env) (w : World) (x : Node)
    → In x candidates
    → (node : Node) × (choose vm candidates env w ≡ (ok node, happen Event.random w))
unfolding choose
choose-In vm candidates env w x m =
    let index = env.random (Event.random ∷ w.log) in
    let (node, e) =
      get_elem?-lt candidates (index % length candidates)
        (mod-lt index (In-length x candidates m)) in
    (node, rw e refl)

-- Where the API server lists nodes that all have names, the specification names no node, and one
-- of the nodes is not in maintenance, allows scheduling, is not the one that the machine was asked
-- to leave and, unless anti-affinity is ignored, has no machine of the group by the server's list:
-- a node is found.
pub schedule_available :
    (vm : VirtualMachine) (ignore_affinity : Bool) (env : Env) (w : World) (nodes : List Node)
    (x : Node)
    → env.kube.nodes (Event.list_nodes ∷ w.log) ≡ done nodes
    → All IsNamed nodes
    → vm.spec.node ≡ none
    → In x nodes
    → in_maintenance_mode x ≡ false
    → allows_scheduling x ≡ true
    → NotSource (migration_requested_from vm) x
    → NotInGroup (group_of vm ignore_affinity) env (happen Event.list_nodes w) x
    → (node : Node) × (w' : World) × (schedule vm ignore_affinity env w ≡ (ok node, w'))
unfolding schedule remove_nodes_in_maintenance remove_nodes_with_no_schedule
schedule_available vm ignore_affinity env w nodes x listed named unspecified m awake allowed source
      group =
    let v = happen Event.list_nodes w in
    let serving = retain (λ candidate. not (in_maintenance_mode candidate)) nodes in
    let open_nodes = retain allows_scheduling serving in
    let m1 =
      retain-In (λ candidate. not (in_maintenance_mode candidate)) nodes {x = x} m
        (rw awake refl) in
    let m2 = retain-In allows_scheduling serving {x = x} m1 allowed in
    let named' =
      retain-IsNamed allows_scheduling serving
        (retain-IsNamed (λ candidate. not (in_maintenance_mode candidate)) nodes named) in
    let (others, e, named'', keeps) =
      without_source-Keeps (migration_requested_from vm) open_nodes named' in
    let (left, u, e', m3) =
      group_keeps (group_of vm ignore_affinity) others env v x named'' (keeps x m2 source) group in
    let (node, e'') = choose-In vm left env u x m3 in
    (
      node,
      happen Event.random u,
      rw listed (
          ap (λ o. schedule_among vm ignore_affinity serving o env v) unspecified
          ∙ rw (e, e', e'') refl),
    )
