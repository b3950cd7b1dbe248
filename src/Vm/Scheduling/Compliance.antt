-- ===== src/Vm/Scheduling/Compliance.antt =====
-- The check of a machine against its anti-affinity group.
use mathlib.Core.Path.{subst}
use cluster_controller.Prelude.{
  String, ◌≡◌, ◌≢◌, ◌⊎◌, inl, inr, refl, sym, ap, Bool, true, false, ◌&&◌, Option, none, some, List,
  [], ◌∷◌, ◌==◌, option_eq, if◌then◌else◌, is_some, any, Option-cases, eq_iff, In, any-true, ◌∙◌,
}
use cluster_controller.Errors.{ok, Error}
use cluster_controller.Crd.{VirtualMachine, VirtualMachineStatus}
use cluster_controller.World.{Event, Env, World, M, lift, pure, done}
use cluster_controller.World.Monad.Inversion.{
  continue-eq-ok, lift-eq-ok, ok-injective, to_outcome-eq-ok, bind-eq-ok,
}
use cluster_controller.Node.{label}
use cluster_controller.Kube.{try_status, name_prefixed_with_namespace, vm_resource}
use cluster_controller.Vm.Scheduling.{
  anti_affinity_label, get_vms_with_label, retain_others, get_others_in_affinity_group, get_vm_node,
  shares_node, is_uncompliant,
}

kept_or_later :
    (same : Bool) (vm x : VirtualMachine) (others : List VirtualMachine)
    → In x (if same then others else vm ∷ others)
    → ((same ≡ false) × (x ≡ vm)) ⊎ In x others
kept_or_later true vm x others m = inr m
kept_or_later false vm x others (inl e) = inl (refl, e)
kept_or_later false vm x others (inr m) = inr m

other_name :
    (vm ref_vm : VirtualMachine) (name ref_name : String)
    → name_prefixed_with_namespace vm ≡ ok name
    → name_prefixed_with_namespace ref_vm ≡ ok ref_name
    → (name == ref_name) ≡ false
    → name_prefixed_with_namespace vm ≢ name_prefixed_with_namespace ref_vm
other_name vm ref_vm name ref_name p q ne e =
    let same = ok-injective (sym p ∙ e ∙ q) in
    let found = (eq_iff name ref_name).1 same in
    absurd (let no_value : ⊥ = cc (sym ne ∙ found) in no_value)

retain_others_sound :
    (ref_vm : VirtualMachine) (vms : List VirtualMachine) {left : List VirtualMachine}
    (x : VirtualMachine)
    → retain_others ref_vm vms ≡ ok left
    → In x left
    → In x vms × (name_prefixed_with_namespace x ≢ name_prefixed_with_namespace ref_vm)
retain_others_sound ref_vm [] x e m = absurd ((subst (In x) (sym (ok-injective e)) m).1)
retain_others_sound ref_vm (vm ∷ rest) x e m =
    let (name, p, e1) = bind-eq-ok (name_prefixed_with_namespace vm) _ e in
    let (ref_name, q, e2) = bind-eq-ok (name_prefixed_with_namespace ref_vm) _ e1 in
    let (others, r, e3) = bind-eq-ok (retain_others ref_vm rest) _ e2 in
    elim (kept_or_later (name == ref_name) vm x others (subst (In x) (sym (ok-injective e3)) m)) [
      | inl (ne, same) ↦ (
        inl same,
        subst
            (λ (y : VirtualMachine).
              name_prefixed_with_namespace y ≢ name_prefixed_with_namespace ref_vm)
            (sym same) (other_name vm ref_vm name ref_name p q ne),
      )
      | inr later ↦ let (k, ne) = retain_others_sound ref_vm rest x r later in (inr k, ne)
    ]

both_some :
    (a b : Option String)
    → (is_some a && option_eq a b) ≡ true
    → (n : String) × (a ≡ some n) × (b ≡ some n)
both_some none b h = absurd (let no_value : ⊥ = cc h in no_value)
both_some (some n) none h = absurd (let no_value : ⊥ = cc h in no_value)
both_some (some n) (some m) h = (n, refl, ap some (sym ((eq_iff n m).0 h)))

if_uncompliant :
    (b : Bool) (m : M Bool) (env : Env) (w : World) {w' : World}
    → (if b then m else pure false) env w ≡ (ok true, w')
    → (b ≡ true) × (m env w ≡ (ok true, w'))
if_uncompliant true m env w e = (refl, e)
if_uncompliant false m env w e = absurd (let no_value : ⊥ = cc (lift-eq-ok e).0 in no_value)

-- Another machine of the group, by the server's list, is on the machine's node.
abbrev pub Conflicts : VirtualMachine → Env → World → Type 0
Conflicts vm env w =
    (group : String) × (vms : List VirtualMachine) × (other : VirtualMachine) × (node : String)
    × (label anti_affinity_label vm.metadata ≡ some group)
    × (env.kube.vms (Event.list_vms (some (anti_affinity_label, group)) ∷ w.log)
          (some (anti_affinity_label, group))
        ≡ done vms)
    × In other vms
    × (name_prefixed_with_namespace other ≢ name_prefixed_with_namespace vm)
    × (get_vm_node vm ≡ some node)
    × (get_vm_node other ≡ some node)

-- The others of a machine's group, by its label.
members_sound :
    (vm other : VirtualMachine) (env : Env) (w w' : World) (members : List VirtualMachine)
    (node : String)
    → get_others_in_affinity_group vm env w ≡ (ok members, w')
    → In other members
    → get_vm_node vm ≡ some node
    → get_vm_node other ≡ some node
    → Conflicts vm env w
unfolding get_others_in_affinity_group get_vms_with_label
members_sound vm other env w w' members node e m p q =
    elim (Option-cases (label anti_affinity_label vm.metadata)) [
      | inl l ↦ absurd (
          (subst (In other)
            (sym (ok-injective (lift-eq-ok (rw (get_others_in_affinity_group, l) at e)).0)) m).1)
      | inr (group, l) ↦
          let (vms, v, e1, e2) =
            continue-eq-ok (get_vms_with_label anti_affinity_label group env w)
              (λ vms. lift (retain_others vm vms)) env
              (rw (get_others_in_affinity_group, l) at e) in
          let (k, ne) = retain_others_sound vm vms other (lift-eq-ok e2).0 m in
          (group, vms, other, node, l, to_outcome-eq-ok Error.kube _ (lift-eq-ok e1).0, k, ne, p, q)
    ]

-- A machine that is found not to comply is scheduled, and another machine of its anti-affinity
-- group, with another name, is on its node.
pub is_uncompliant-Conflicts :
    (vm : VirtualMachine) (env : Env) (w : World) {w' : World}
    → is_uncompliant vm env w ≡ (ok true, w')
    → (status : VirtualMachineStatus) × (try_status vm ≡ ok status)
      × (status.scheduled ≡ true)
      × Conflicts vm env w
unfolding is_uncompliant
is_uncompliant-Conflicts vm env w e =
    let (status, v, t, e1) = continue-eq-ok (try_status vm, w) _ env e in
    let (s, e2) = if_uncompliant status.scheduled _ env v e1 in
    let (members, u, e3, e4) =
      continue-eq-ok (get_others_in_affinity_group vm env v)
        (λ members. pure (any (shares_node vm) members)) env e2 in
    let (other, m, shared) = any-true (shares_node vm) members (ok-injective (lift-eq-ok e4).0) in
    let (node, p, q) = both_some (get_vm_node vm) (get_vm_node other) shared in
    let (found, same) = lift-eq-ok t in
    (
      status,
      found,
      s,
      subst (Conflicts vm env) (sym same) (members_sound vm other env v u members node e3 m p q),
    )
