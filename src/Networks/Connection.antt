-- ===== src/Networks/Connection.antt =====
-- What the update of a machine has done with the ports of its interfaces.
use mathlib.Core.Path.{subst}
use cluster_controller.Prelude.{
  String, ◌≡◌, refl, sym, format, All-map, ap, ◌∙◌, some, List, [], ◌∷◌, All,
}
use cluster_controller.Errors.{ok, expect}
use cluster_controller.Crd.{VirtualMachine, NetworkAttachment}
use cluster_controller.World.{Ovn, Env, World, M, ◌>>=◌, ◌>>◌, lift, pure}
use cluster_controller.World.Monad.Inversion.{
  continue-eq-ok, lift-eq-ok, expect-eq-ok, ok-injective,
}
use cluster_controller.World.Monad.Growth.{Extends, Grows-Extends, Extends-trans, Extends-refl}
use cluster_controller.Kube.{
  vm_resource, ensure_finalizer, namespace_unchecked, name_prefixed_with_namespace,
}
use cluster_controller.Controller.{Action, requeue, field_manager}
use cluster_controller.Ovn.Lowlevel.{try_from_annotations}
use cluster_controller.Ovn.Common.{get_by_name}
use cluster_controller.Ovn.Common.Lookup.{Found, Found-wider, get_by_name-Found}
use cluster_controller.Ovn.Growth.{get_by_name-Grows}
use cluster_controller.Ovn.Types.{
  LogicalSwitch, logical_switch_named, logical_switch_port_named, dhcp_options_common,
}
use cluster_controller.Networks.Growth.{connect_vm_nic-Grows, collect_ip-Grows, connect_nics-Grows}
use cluster_controller.Networks.MachinePorts.{
  switch_name, connect_vm_nic, collect_ip, connect_nics, write_ips, get_vm_ovn_nics, update_vm,
}
use cluster_controller.Networks.Addresses.{Addressed, Addressed-wider}
use cluster_controller.Networks.Setup.{
  address_text, set_up_port, set_up_port-Grows, set_up_port-Addressed,
}

-- The switch of the interface's network was found, and its port has the MAC address.
abbrev pub Connected : VirtualMachine → Ovn → Env → World → World → NetworkAttachment → Type 0
Connected vm o env start end nic =
    (namespace : String) × (network : String) × (mac : String) × (lsp_id : String)
    × (vm.metadata.namespace ≡ some namespace)
    × (nic.name ≡ some network)
    × (nic.mac_address ≡ some mac)
    × (nic.ovn_id ≡ some lsp_id)
    × (ls : LogicalSwitch) × Found {A = LogicalSwitch} o (format (namespace ∷ "-" ∷ network ∷ []))
        env start end ls
    × Addressed env start end ls.ovn lsp_id mac (address_text ls mac)

Connected-wider :
    (vm : VirtualMachine) (o : Ovn) (env : Env) (start end start' end' : World)
    → Extends start start'
    → Extends end' end
    → (nic : NetworkAttachment) → Connected vm o env start end nic
    → Connected vm o env start' end' nic
Connected-wider vm o env start end start' end' before after nic
      (namespace, network, mac, lsp_id, p, q, r, s, ls, found, addressed) =
    (
      namespace,
      network,
      mac,
      lsp_id,
      p,
      q,
      r,
      s,
      ls,
      Found-wider o (format (namespace ∷ "-" ∷ network ∷ [])) env start end start' end' ls before
          after found,
      Addressed-wider env start end start' end' ls.ovn lsp_id mac (address_text ls mac) before after
          addressed,
    )

switch_name-format :
    (vm : VirtualMachine) (nic : NetworkAttachment) (namespace network : String)
    → vm.metadata.namespace ≡ some namespace
    → nic.name ≡ some network
    → ok (format (namespace ∷ "-" ∷ network ∷ [])) ≡ switch_name vm nic
switch_name-format vm nic namespace network p q = rw (p, q) refl

connect_vm_nic-Connected :
    (vm : VirtualMachine) (nic : NetworkAttachment) (o : Ovn) (env : Env) (w : World) {w' : World}
    → connect_vm_nic vm nic o env w ≡ (ok tt, w')
    → Connected vm o env w w' nic
unfolding connect_vm_nic set_up_port
connect_vm_nic-Connected vm nic o env w {w'} h =
    let rest : String → String → String → M (Unit {0}) = λ namespace network_name mac.
      lift (switch_name vm nic) >>= λ ls_name.
      get_by_name {A = LogicalSwitch} o ls_name
      >>= set_up_port vm namespace network_name nic.ovn_id mac in
    let (namespace, u, p, q) =
      continue-eq-ok (lift (namespace_unchecked vm) env w)
        (λ namespace. lift (expect nic.name) >>= λ network_name.
          lift (expect nic.mac_address) >>= λ mac. rest namespace network_name mac)
        env h in
    let (network_name, u', p', q') =
      continue-eq-ok (lift (expect nic.name) env u)
        (λ network_name. lift (expect nic.mac_address) >>= λ mac. rest namespace network_name mac)
        env q in
    let (mac, v, p'', q'') =
      continue-eq-ok (lift (expect nic.mac_address) env u') (λ mac. rest namespace network_name mac)
        env q' in
    let (ls_name, v', r, s) =
      continue-eq-ok (lift (switch_name vm nic) env v)
        (λ ls_name.
          get_by_name {A = LogicalSwitch} o ls_name
          >>= set_up_port vm namespace network_name nic.ovn_id mac)
        env q'' in
    let (ls, x, r', s') =
      continue-eq-ok (get_by_name {A = LogicalSwitch} o ls_name env v')
        (set_up_port vm namespace network_name nic.ovn_id mac) env s in
    let (lsp_id, named, addressed) =
      set_up_port-Addressed vm namespace network_name nic.ovn_id mac ls env x s' in
    let in_namespace : vm.metadata.namespace ≡ some namespace =
      expect-eq-ok vm.metadata.namespace (lift-eq-ok p).0 in
    let on_network : nic.name ≡ some network_name = expect-eq-ok nic.name (lift-eq-ok p').0 in
    let same_name : format (namespace ∷ "-" ∷ network_name ∷ []) ≡ ls_name = ok-injective (
      switch_name-format vm nic namespace network_name in_namespace on_network
      ∙ (lift-eq-ok r).0) in
    let begun : Extends v' w = (
      [],
      ap (λ (z : World). z.log)
          (sym ((lift-eq-ok p).1 ∙ (lift-eq-ok p').1 ∙ (lift-eq-ok p'').1 ∙ (lift-eq-ok r).1)),
    ) in
    let found : Extends x v' =
      Grows-Extends (get_by_name-Grows logical_switch_named o ls_name) r' in
    (
      namespace,
      network_name,
      mac,
      lsp_id,
      in_namespace,
      on_network,
      expect-eq-ok nic.mac_address (lift-eq-ok p'').0,
      named,
      ls,
      subst (λ name. Found {A = LogicalSwitch} o name env w w' ls) (sym same_name)
          (Found-wider o ls_name env v' x w w' ls begun
            (Grows-Extends (set_up_port-Grows vm namespace network_name nic.ovn_id mac ls) s')
            (get_by_name-Found o ls_name env v' r')),
      Addressed-wider env x w' w w' ls.ovn lsp_id mac (address_text ls mac)
          (Extends-trans w v' x found begun) (Extends-refl w') addressed,
    )

connect_nics-Connected :
    (vm : VirtualMachine) (o : Ovn) (nics : List NetworkAttachment) (before : List String)
    (env : Env) (w : World) {after : List String} {w' : World}
    → connect_nics vm o before nics env w ≡ (ok after, w')
    → All (Connected vm o env w w') nics
unfolding connect_nics
connect_nics-Connected vm o [] before env w h = tt
connect_nics-Connected vm o (nic ∷ nics) before env w {after} {w'} h =
    let (collected, v', p, q) =
      continue-eq-ok ((connect_vm_nic vm nic o >> collect_ip o before nic.ovn_id) env w)
        (λ collected. connect_nics vm o collected nics) env h in
    let (x, v, p', q') =
      continue-eq-ok (connect_vm_nic vm nic o env w) (λ x. collect_ip o before nic.ovn_id) env p in
    let first : Extends v w = Grows-Extends (connect_vm_nic-Grows vm nic o) p' in
    let collecting : Extends v' v = Grows-Extends (collect_ip-Grows o before nic.ovn_id) q' in
    let others : Extends w' v' = Grows-Extends (connect_nics-Grows vm o nics collected) q in
    (
      Connected-wider vm o env w v w w' (Extends-refl w) (Extends-trans v v' w' others collecting)
          nic (connect_vm_nic-Connected vm nic o env w p'),
      All-map (Connected vm o env v' w') (Connected vm o env w w')
          (Connected-wider vm o env v' w' w w' (Extends-trans w v v' collecting first)
            (Extends-refl w'))
          nics (connect_nics-Connected vm o nics collected env v' q),
    )

-- The finalizer is there first, and the addresses are written last.
abbrev pub Attached : VirtualMachine → Env → World → World → Type 0
Attached vm env w w' =
    (o : Ovn) × (kept : VirtualMachine) × (u : World) × (u' : World) × (try_from_annotations env w
      ≡ (ok o, u))
    × (ensure_finalizer vm "ovn" (field_manager "vm.ovn") env u ≡ (ok kept, u'))
    × (addresses : List String) × (v : World) × All (Connected kept o env u' v)
        (get_vm_ovn_nics kept)
    × (write_ips kept addresses kept.status env v ≡ (ok tt, w'))

pub update_vm-Attached :
    (vm : VirtualMachine) (env : Env) (w w' : World) (action : Action)
    → update_vm vm env w ≡ (ok action, w')
    → Attached vm env w w'
unfolding update_vm
update_vm-Attached vm env w w' action h =
    let keep : M VirtualMachine = ensure_finalizer vm "ovn" (field_manager "vm.ovn") in
    let connect : VirtualMachine → Ovn → M (List String) =
      λ kept o. connect_nics kept o [] (get_vm_ovn_nics kept) in
    let last : VirtualMachine → List String → M (Unit {0}) =
      λ kept addresses. write_ips kept addresses kept.status in
    let steps : Ovn → M Action = λ o.
      keep >>= λ kept. connect kept o >>= λ addresses. last kept addresses >> pure (requeue 600) in
    let (name, x, p, q) =
      continue-eq-ok (lift (name_prefixed_with_namespace vm) env w)
        (λ name. try_from_annotations >>= steps) env h in
    let (o, u, p', q') = continue-eq-ok (try_from_annotations env x) steps env q in
    let (kept, u', p'', q'') =
      continue-eq-ok (keep env u)
        (λ kept. connect kept o >>= λ addresses. last kept addresses >> pure (requeue 600)) env
        q' in
    let (addresses, v, r, s) =
      continue-eq-ok (connect kept o env u')
        (λ addresses. last kept addresses >> pure (requeue 600)) env q'' in
    let (y, v', r', s') =
      continue-eq-ok (last kept addresses env v) (λ y. pure (requeue 600)) env s in
    (
      o,
      kept,
      u,
      u',
      ap (try_from_annotations env) (lift-eq-ok p).1 ∙ p',
      p'',
      addresses,
      v,
      connect_nics-Connected kept o (get_vm_ovn_nics kept) [] env u' r,
      r' ∙ ap (λ z. (ok tt, z)) (lift-eq-ok s').1,
    )
