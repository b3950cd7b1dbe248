-- ===== src/Ovn/Ports/Address.antt =====
-- The address of a switch port: what is written, and what is read back.
use Prim.Native.String
use Prim.Native.Char.{Char}
use text.Mathlib.TextLemmas.{append-nil, nil-append, cons-append}
use cluster_controller.Prelude.{
  String, ◌≡◌, refl, ap, false, Option, none, some, List, [], ◌∷◌, retain, find, contains, format,
  has_substring, ◌∙◌, IsFree, split_free, split_at,
}
use cluster_controller.Errors.{Outcome, ok, err, panic, ovn_conflict}
use cluster_controller.World.{Env, World, pure, continue}
use cluster_controller.Ovn.Lowlevel.Transactions.{transact_lem, after_transact}
use cluster_controller.Ovn.Common.{list, named_common}
use cluster_controller.Ovn.Types.{
  LogicalSwitch, LogicalSwitchPort, static_route_common, logical_router_named,
  logical_router_port_named, logical_switch_named, logical_switch_port_named, dhcp_options_common,
}
use cluster_controller.Ovn.Ports.{
  set_address, find_lsp_owner, get_by_mac, IpConfiguration, port_address, set_address_operation,
  dynamic_ip,
}

-- A port of the switch that has the MAC address.
abbrev pub mac_owner : LogicalSwitch → String → List LogicalSwitchPort → Option LogicalSwitchPort
mac_owner ls mac ports =
    find (λ (lsp : LogicalSwitchPort). has_substring lsp.addresses mac)
      (retain (λ (lsp : LogicalSwitchPort). contains ls.port_ids lsp.uuid) ports)

abbrev space : Char
space = " "

drop_results : {A : Type 0} → Outcome A → Outcome (Unit {0})
drop_results (ok a) = ok tt
drop_results (err e) = err e
drop_results panic = panic

discard :
    {A : Type 0} (m : Outcome A) (env : Env) (w : World)
    → (continue (m, w) (λ a. pure tt) env).1 ≡ w
discard (ok a) env w = refl
discard (err e) env w = refl
discard panic env w = refl

-- Where another port of the switch has the MAC address, setting it is a conflict and nothing is
-- written.
pub set_address_conflict :
    (lsp other : LogicalSwitchPort) (mac : String) (ip : IpConfiguration) (env : Env)
    (w w' w'' : World) (ls : LogicalSwitch) (ports : List LogicalSwitchPort)
    → has_substring lsp.addresses mac ≡ false
    → find_lsp_owner lsp.ovn lsp env w ≡ (ok ls, w')
    → list {A = LogicalSwitchPort} ls.ovn env w' ≡ (ok ports, w'')
    → mac_owner ls mac ports ≡ some other
    → set_address lsp mac ip env w ≡ (err (ovn_conflict mac), w'')
unfolding set_address get_by_mac
set_address_conflict lsp other mac ip env w w' w'' ls ports h e e' found = rw (h, e, e', found) refl

-- Where no port of the switch has the MAC address, setting it sends one transaction, which sets the
-- address of this port to the MAC address with the kind of IP address asked for.
pub set_address_writes :
    (lsp : LogicalSwitchPort) (mac : String) (ip : IpConfiguration) (env : Env) (w w' w'' : World)
    (ls : LogicalSwitch) (ports : List LogicalSwitchPort)
    → has_substring lsp.addresses mac ≡ false
    → find_lsp_owner lsp.ovn lsp env w ≡ (ok ls, w')
    → list {A = LogicalSwitchPort} ls.ovn env w' ≡ (ok ports, w'')
    → mac_owner ls mac ports ≡ none
    → (set_address lsp mac ip env w).1
      ≡ after_transact lsp.ovn (set_address_operation lsp (port_address mac ip) ∷ []) w''
unfolding set_address get_by_mac
set_address_writes lsp mac ip env w w' w'' ls ports h e e' free =
    rw (h, e, e', free)
      (rw (transact_lem lsp.ovn (set_address_operation lsp (port_address mac ip) ∷ []) env w'')
        (discard _ env _))

cons_space : (s : String) → String.◌++◌ " " s ≡ String.◌∷◌ space s
cons_space s = cons-append space String.[] s ∙ ap (String.◌∷◌ space) (nil-append s)

-- The dynamic address of a port, "mac ip", is read back as its IP address.
pub dynamic_ip_lem :
    (lsp : LogicalSwitchPort) (mac ip : String)
    → IsFree b' ' mac
    → IsFree b' ' ip
    → lsp.dynamic_addresses ≡ format (mac ∷ " " ∷ ip ∷ [])
    → dynamic_ip lsp ≡ some ip
unfolding dynamic_ip
dynamic_ip_lem lsp mac ip h k e =
    rw (e, dynamic_ip)
      (rw (append-nil ip, cons_space ip)
        (rw (split_at b' ' mac _ ip h refl, split_free b' ' ip k) refl))
