-- ===== src/Networks/Setup.antt =====
-- A connection from the search for the port on.
use mathlib.Core.Path.{subst}
use cluster_controller.Prelude.{
  String, Bool, true, false, ◌≡◌, refl, sym, lookup, format, ap, Option, none, some, [], ◌∷◌,
  if◌then◌else◌, is_some,
}
use cluster_controller.Errors.{ok, Error, expect}
use cluster_controller.Crd.{VirtualMachine, Network}
use cluster_controller.World.{Event, Env, World, M, ◌>>=◌, ◌>>◌, lift, ask}
use cluster_controller.World.Monad.Inversion.{continue-eq-ok, lift-eq-ok, expect-eq-ok}
use cluster_controller.World.Monad.Growth.{
  Extends, Grows, Grows-Extends, Extends-trans, bind-Grows, then-Grows, lift-Grows,
}
use cluster_controller.Kube.{vm_resource}
use cluster_controller.Ovn.Common.Lookup.{Found-wider}
use cluster_controller.Ovn.Types.{
  LogicalSwitch, LogicalSwitchPort, logical_switch_named, logical_switch_port_named,
  dhcp_options_common,
}
use cluster_controller.Ovn.Ports.{
  create_lsp_if_missing, IpConfiguration, port_address, dynamic, unconfigured, set_address,
  get_cidr,
}
use cluster_controller.Networks.Growth.{
  create_lsp_if_missing-Grows, set_address-Grows, dhcp_for-Grows, network-Grows,
}
use cluster_controller.Networks.MachinePorts.{dhcp_for}
use cluster_controller.Networks.Addresses.{
  Addressed, Written, Written-wider, create_lsp_if_missing-Found, set_address-Written,
}

-- What is written for a MAC address: the address alone unless the switch has a subnet.
abbrev pub address_text : LogicalSwitch → String → String
address_text ls mac =
    if is_some (lookup "subnet" ls.other_config) then format (mac ∷ " dynamic" ∷ []) else mac

port_address-text :
    (b : Bool) (mac : String)
    → port_address mac (if b then dynamic else unconfigured)
      ≡ (if b then format (mac ∷ " dynamic" ∷ []) else mac)
port_address-text true mac = refl
port_address-text false mac = refl

-- The part of a connection behind the search for the switch.
unfoldable pub set_up_port :
    VirtualMachine → String → String → Option String → String → LogicalSwitch → M (Unit {0})
set_up_port vm namespace network_name ovn_id mac ls = lift (expect ovn_id) >>= λ lsp_id.
    create_lsp_if_missing ls lsp_id none >>= λ lsp.
    set_address lsp mac (if is_some (get_cidr ls) then dynamic else unconfigured)
    >> ask (Event.get_network namespace network_name) Error.kube
        (λ env h. env.kube.network h namespace network_name)
    >>= λ network. dhcp_for lsp network.spec.dhcp

pub set_up_port-Grows :
    (vm : VirtualMachine) (namespace network_name : String) (ovn_id : Option String) (mac : String)
    (ls : LogicalSwitch)
    → Grows (set_up_port vm namespace network_name ovn_id mac ls)
unfolding set_up_port
set_up_port-Grows vm namespace network_name ovn_id mac ls =
    bind-Grows (lift-Grows (expect ovn_id)) λ lsp_id.
      bind-Grows (create_lsp_if_missing-Grows ls lsp_id) λ lsp.
        bind-Grows (then-Grows (set_address-Grows lsp mac _) (network-Grows namespace network_name))
          λ network. dhcp_for-Grows lsp network.spec.dhcp

pub set_up_port-Addressed :
    (vm : VirtualMachine) (namespace network_name : String) (ovn_id : Option String) (mac : String)
    (ls : LogicalSwitch) (env : Env) (w : World) {w' : World}
    → set_up_port vm namespace network_name ovn_id mac ls env w ≡ (ok tt, w')
    → (lsp_id : String) × (ovn_id ≡ some lsp_id)
      × Addressed env w w' ls.ovn lsp_id mac (address_text ls mac)
unfolding set_up_port get_cidr
set_up_port-Addressed vm namespace network_name ovn_id mac ls env w {w'} h =
    let ip : IpConfiguration = if is_some (get_cidr ls) then dynamic else unconfigured in
    let network : M Network =
      ask (Event.get_network namespace network_name) Error.kube
        (λ env h. env.kube.network h namespace network_name) in
    let rest : LogicalSwitchPort → M (Unit {0}) =
      λ lsp. set_address lsp mac ip >> network >>= λ n. dhcp_for lsp n.spec.dhcp in
    let (lsp_id, u, p, q) =
      continue-eq-ok (lift (expect ovn_id) env w)
        (λ lsp_id. create_lsp_if_missing ls lsp_id none >>= rest) env h in
    let (lsp, u', p', q') =
      continue-eq-ok (create_lsp_if_missing ls lsp_id none env u) rest env q in
    let (n, v', p'', q'') =
      continue-eq-ok ((set_address lsp mac ip >> network) env u') (λ n. dhcp_for lsp n.spec.dhcp)
        env q' in
    let (x, v, r, s) = continue-eq-ok (set_address lsp mac ip env u') (λ x. network) env p'' in
    let begun : Extends u w = ([], ap (λ (z : World). z.log) (sym (lift-eq-ok p).1)) in
    let created : Extends u' u = Grows-Extends (create_lsp_if_missing-Grows ls lsp_id) p' in
    let set : Extends v u' = Grows-Extends (set_address-Grows lsp mac ip) r in
    let ended : Extends w' v =
      Extends-trans v v' w' (Grows-Extends (dhcp_for-Grows lsp n.spec.dhcp) q'')
        (Grows-Extends {env = env} (network-Grows namespace network_name) s) in
    (
      lsp_id,
      expect-eq-ok ovn_id (lift-eq-ok p).0,
      (
        lsp,
        Found-wider ls.ovn lsp_id env u u' w w' lsp begun (Extends-trans u' v w' ended set)
            (create_lsp_if_missing-Found ls lsp_id env u p'),
        Written-wider u' v w w' lsp mac (address_text ls mac) (Extends-trans w u u' created begun)
            ended
            (subst (Written u' v lsp mac) (port_address-text (is_some (get_cidr ls)) mac)
              (set_address-Written lsp mac ip env u' r)),
      ),
    )
