-- ===== src/Networks/Disconnection.antt =====
-- What the removal of a machine has done with the ports of its interfaces.
use mathlib.Core.Path.{subst}
use cluster_controller.Prelude.{
  String, ◌≡◌, ◌⊎◌, inl, inr, sym, ap, ◌∙◌, some, List, [], ◌∷◌, All, All-map, format,
  if◌then◌else◌,
}
use cluster_controller.Errors.{ok, err, Error, expect, is_ok}
use cluster_controller.Crd.{VirtualMachine, NetworkAttachment}
use cluster_controller.World.{Ovn, Env, World, M, ◌>>=◌, ◌>>◌, lift, pure, try, for_each}
use cluster_controller.World.Monad.Inversion.{
  continue-eq-ok, lift-eq-ok, expect-eq-ok, settle-eq-ok, bind-eq-ok, ok-injective,
}
use cluster_controller.World.Monad.Growth.{
  Extends, Extends-trans, Extends-refl, Grows, Grows-Extends, lift-Grows, bind-Grows, try-Grows,
  if-Grows, for_each-Grows,
}
use cluster_controller.Kube.{
  vm_resource, remove_finalizer, namespace_unchecked, name_prefixed_with_namespace,
}
use cluster_controller.Controller.{Action, await_change, field_manager}
use cluster_controller.Ovn.Lowlevel.{try_from_annotations}
use cluster_controller.Ovn.Common.{get_by_name}
use cluster_controller.Ovn.Growth.{get_by_name-Grows}
use cluster_controller.Ovn.Types.{
  LogicalSwitch, LogicalSwitchPort, logical_switch_named, logical_switch_port_named,
}
use cluster_controller.Ovn.Ports.{del_lsp}
use cluster_controller.Networks.MachinePorts.{
  switch_name, disconnect_vm_nic, get_vm_ovn_nics, remove_vm,
}
use cluster_controller.Networks.Deletion.{Deleted, Deleted-wider, del_lsp-Grows, found_port}

-- The search for the port failed.
abbrev pub Unfound : Ovn → Env → World → World → String → Type 0
Unfound o env start end lsp_id =
    (e : Error) × (u : World) × (v : World) × (get_by_name {A = LogicalSwitchPort} o lsp_id env u
      ≡ (err e, v))
    × Extends u start
    × Extends end v

abbrev pub Disconnected : VirtualMachine → Ovn → Env → World → World → NetworkAttachment → Type 0
Disconnected vm o env start end nic =
    (namespace : String) × (network : String) × (lsp_id : String) × (vm.metadata.namespace
      ≡ some namespace)
    × (nic.name ≡ some network)
    × (nic.ovn_id ≡ some lsp_id)
    × (Unfound o env start end lsp_id
        ⊎ Deleted o env start end (format (namespace ∷ "-" ∷ network ∷ [])) lsp_id)

Disconnected-wider :
    (vm : VirtualMachine) (o : Ovn) (env : Env) (start end start' end' : World)
    → Extends start start'
    → Extends end' end
    → (nic : NetworkAttachment) → Disconnected vm o env start end nic
    → Disconnected vm o env start' end' nic
Disconnected-wider vm o env start end start' end' before after nic
      (namespace, network, lsp_id, p, q, r, inl (e, u, v, failed, from, to)) =
    (
      namespace,
      network,
      lsp_id,
      p,
      q,
      r,
      inl (
        e,
        u,
        v,
        failed,
        Extends-trans start' start u from before,
        Extends-trans v end end' after to,
      ),
    )
Disconnected-wider vm o env start end start' end' before after nic
      (namespace, network, lsp_id, p, q, r, inr deleted) =
    (
      namespace,
      network,
      lsp_id,
      p,
      q,
      r,
      inr (
          Deleted-wider o env start end start' end' (format (namespace ∷ "-" ∷ network ∷ [])) lsp_id
            before after deleted),
    )

disconnect_vm_nic-Grows :
    (vm : VirtualMachine) (o : Ovn) (nic : NetworkAttachment) → Grows (disconnect_vm_nic vm o nic)
unfolding disconnect_vm_nic
disconnect_vm_nic-Grows vm o nic = bind-Grows (lift-Grows (switch_name vm nic)) λ ls_name.
    bind-Grows (lift-Grows (expect nic.ovn_id)) λ lsp_id.
      bind-Grows (try-Grows (get_by_name-Grows logical_switch_port_named o lsp_id)) λ found.
        if-Grows (is_ok found) _ _
          (bind-Grows (get_by_name-Grows logical_switch_named o ls_name)
            λ ls. del_lsp-Grows ls lsp_id)
          (lift-Grows (ok tt))

-- The names in the name of a switch.
switch_name-parts :
    (vm : VirtualMachine) (nic : NetworkAttachment) {switch : String}
    → switch_name vm nic ≡ ok switch
    → (namespace : String) × (network : String) × (vm.metadata.namespace ≡ some namespace)
      × (nic.name ≡ some network)
      × (switch ≡ format (namespace ∷ "-" ∷ network ∷ []))
switch_name-parts vm nic h =
    let (namespace, p, q) = bind-eq-ok (namespace_unchecked vm) _ h in
    let (network, p', q') = bind-eq-ok (expect nic.name) _ q in
    (
      namespace,
      network,
      expect-eq-ok vm.metadata.namespace p,
      expect-eq-ok nic.name p',
      sym (ok-injective q'),
    )

disconnect_vm_nic-Disconnected :
    (vm : VirtualMachine) (o : Ovn) (nic : NetworkAttachment) (env : Env) (w : World) {w' : World}
    → disconnect_vm_nic vm o nic env w ≡ (ok tt, w')
    → Disconnected vm o env w w' nic
unfolding disconnect_vm_nic
disconnect_vm_nic-Disconnected vm o nic env w {w'} h =
    let delete : String → String → M (Unit {0}) =
      λ switch lsp_id. get_by_name {A = LogicalSwitch} o switch >>= λ ls. del_lsp ls lsp_id in
    let search : String → M LogicalSwitchPort = λ lsp_id. get_by_name o lsp_id in
    let rest : String → String → M (Unit {0}) = λ switch lsp_id.
      try (search lsp_id) >>= λ found. if is_ok found then delete switch lsp_id else pure tt in
    let (switch, u, p, q) =
      continue-eq-ok (lift (switch_name vm nic) env w)
        (λ switch. lift (expect nic.ovn_id) >>= λ lsp_id. rest switch lsp_id) env h in
    let (lsp_id, u', p', q') =
      continue-eq-ok (lift (expect nic.ovn_id) env u) (λ lsp_id. rest switch lsp_id) env q in
    let (found, v, p'', q'') =
      continue-eq-ok (try (search lsp_id) env u')
        (λ found. if is_ok found then delete switch lsp_id else pure tt) env q' in
    let (namespace, network, in_namespace, on_network, named) =
      switch_name-parts vm nic (lift-eq-ok p).0 in
    let begun : Extends u' w =
      ([], ap (λ (x : World). x.log) (sym ((lift-eq-ok p).1 ∙ (lift-eq-ok p').1))) in
    let searched : Extends v u' =
      Grows-Extends (try-Grows (get_by_name-Grows logical_switch_port_named o lsp_id)) p'' in
    (
      namespace,
      network,
      lsp_id,
      in_namespace,
      on_network,
      expect-eq-ok nic.ovn_id (lift-eq-ok p').0,
      elim (settle-eq-ok (search lsp_id env u') p'') [
        | inl t ↦ inr (
            subst (λ name. Deleted o env w w' name lsp_id) named
              (Deleted-wider o env v w' w w' switch lsp_id (Extends-trans w u' v searched begun)
                (Extends-refl w') (found_port o switch lsp_id env v (rw t at q''))))
        | inr (e, same, failed) ↦ inl (
          e,
          u',
          v,
          failed,
          begun,
          ([], ap (λ (x : World). x.log) (sym (lift-eq-ok (rw same at q'')).1)),
        )
      ],
    )

for_each-Disconnected :
    (vm : VirtualMachine) (o : Ovn) (nics : List NetworkAttachment) (env : Env) (w : World)
    {w' : World}
    → for_each (disconnect_vm_nic vm o) nics env w ≡ (ok tt, w')
    → All (Disconnected vm o env w w') nics
unfolding for_each
for_each-Disconnected vm o [] env w h = tt
for_each-Disconnected vm o (nic ∷ nics) env w {w'} h =
    let (u, v, p, q) =
      continue-eq-ok (disconnect_vm_nic vm o nic env w)
        (λ x. for_each (disconnect_vm_nic vm o) nics) env h in
    let first : Extends v w = Grows-Extends (disconnect_vm_nic-Grows vm o nic) p in
    (
      Disconnected-wider vm o env w v w w' (Extends-refl w)
          (Grows-Extends (for_each-Grows (disconnect_vm_nic-Grows vm o) nics) q) nic
          (disconnect_vm_nic-Disconnected vm o nic env w p),
      All-map (Disconnected vm o env v w') (Disconnected vm o env w w')
          (Disconnected-wider vm o env v w' w w' first (Extends-refl w')) nics
          (for_each-Disconnected vm o nics env v q),
    )

-- The finalizer is removed last, and before that the interfaces were disconnected.
abbrev pub Released : VirtualMachine → Env → World → World → Type 0
Released vm env w w' =
    (o : Ovn) × (u : World) × (v : World) × (left : VirtualMachine) × (try_from_annotations env w
      ≡ (ok o, u))
    × All (Disconnected vm o env u v) (get_vm_ovn_nics vm)
    × (remove_finalizer vm "ovn" (field_manager "vm.ovn") env v ≡ (ok left, w'))

-- When the removal of a machine returns, it connected to the database, each of its OVN interfaces
-- was disconnected after that, and its finalizer was removed last. Of each interface, in between:
-- the search for a port of its name failed, or the switch of its network and a port of its name were
-- found in the tables, and the switch's row was sent the deletion of that port.
pub remove_vm-Disconnected :
    (vm : VirtualMachine) (env : Env) (w w' : World) (action : Action)
    → remove_vm vm env w ≡ (ok action, w')
    → Released vm env w w'
unfolding remove_vm
remove_vm-Disconnected vm env w w' action h =
    let disconnect : Ovn → M (Unit {0}) =
      λ o. for_each (disconnect_vm_nic vm o) (get_vm_ovn_nics vm) in
    let last : M VirtualMachine = remove_finalizer vm "ovn" (field_manager "vm.ovn") in
    let (name, x, p, q) =
      continue-eq-ok (lift (name_prefixed_with_namespace vm) env w)
        (λ name. try_from_annotations >>= λ o. disconnect o >> last >> pure await_change) env h in
    let (o, u, p', q') =
      continue-eq-ok (try_from_annotations env x) (λ o. disconnect o >> last >> pure await_change)
        env q in
    let (left, v', p'', q'') =
      continue-eq-ok ((disconnect o >> last) env u) (λ x. pure await_change) env q' in
    let (y, v, r, s) = continue-eq-ok (disconnect o env u) (λ x. last) env p'' in
    (
      o,
      u,
      v,
      left,
      ap (try_from_annotations env) (lift-eq-ok p).1 ∙ p',
      for_each-Disconnected vm o (get_vm_ovn_nics vm) env u r,
      s ∙ ap (λ z. (ok left, z)) (lift-eq-ok q'').1,
    )
