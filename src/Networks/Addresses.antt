-- ===== src/Networks/Addresses.antt =====
-- The port of an interface: its name, and the writing of its MAC address.
use mathlib.Core.Path.{subst}
use cluster_controller.Prelude.{
  ℕ, String, ◌≡◌, ◌⊎◌, inl, inr, refl, sym, ap, ◌∙◌, true, none, [], ◌∷◌, has_substring, Bool-cases,
}
use cluster_controller.Errors.{Outcome, ok, err, panic, ovn_not_found}
use cluster_controller.Json.{num, str, array, object}
use cluster_controller.World.{
  Ovn, Message, by_position, request, Event, Env, World, M, ◌>>=◌, pure, try,
}
use cluster_controller.World.Monad.Inversion.{
  continue-eq-ok, lift-eq-ok, ok-injective, outcome_of, settle-ok,
}
use cluster_controller.World.Monad.Growth.{
  Extends, Extends-trans, Extends-refl, Occurs, Occurs-wider, Grows-Extends, try-Grows,
}
use cluster_controller.Ovn.Growth.{transact-Grows, get_by_name-Grows}
use cluster_controller.Networks.Growth.{find_lsp_owner-Grows, get_by_mac-Grows}
use cluster_controller.Kube.{vm_resource}
use cluster_controller.Ovn.Lowlevel.{transact}
use cluster_controller.Ovn.Lowlevel.Transactions.{transact-IsClean}
use cluster_controller.Ovn.Common.{or_create, get_by_name}
use cluster_controller.Ovn.Common.Lookup.{Found, Found-wider, get_by_name-Found}
use cluster_controller.Ovn.Types.{
  LogicalSwitch, LogicalSwitchPort, logical_switch_named, logical_switch_port_named,
  dhcp_options_common,
}
use cluster_controller.Ovn.Ports.{
  create_lsp, create_lsp_if_missing, find_lsp_owner, get_by_mac, IpConfiguration, port_address,
  set_address_operation, write_address, set_address, insert_port_operations,
}

-- The message that sets the addresses of a row of the port table.
abbrev pub address_message : ℕ → LogicalSwitchPort → String → Message
address_message id lsp text = request (num id) "transact" (
    by_position (
      str "OVN_Northbound"
      ∷ object (
          ("op", str "update")
          ∷ ("table", str "Logical_Switch_Port")
          ∷ (
            "where",
            array
                (array (str "_uuid" ∷ str "==" ∷ array (str "uuid" ∷ str lsp.uuid ∷ []) ∷ []) ∷ []),
          )
          ∷ ("row", object (("addresses", str text) ∷ []))
          ∷ [])
      ∷ []))

-- What setting an address has done: the port had it, or the address has been written.
abbrev pub Written : World → World → LogicalSwitchPort → String → String → Type 0
Written start end lsp mac text =
    (has_substring lsp.addresses mac ≡ true)
    ⊎ ((id : ℕ) × Occurs start end (Event.send lsp.ovn (address_message id lsp text)))

pub Written-wider :
    (start end start' end' : World) (lsp : LogicalSwitchPort) (mac text : String)
    → Extends start start'
    → Extends end' end
    → Written start end lsp mac text
    → Written start' end' lsp mac text
Written-wider start end start' end' lsp mac text before after (inl has) = inl has
Written-wider start end start' end' lsp mac text before after (inr (id, sent)) =
    inr (id, Occurs-wider start end start' end' _ before after sent)

-- A port of this name was found, and it had the MAC address or this text was written to it.
abbrev pub Addressed : Env → World → World → Ovn → String → String → String → Type 0
Addressed env start end o lsp_id mac text =
    (lsp : LogicalSwitchPort) × Found {A = LogicalSwitchPort} o lsp_id env start end lsp
    × Written start end lsp mac text

pub Addressed-wider :
    (env : Env) (start end start' end' : World) (o : Ovn) (lsp_id mac text : String)
    → Extends start start'
    → Extends end' end
    → Addressed env start end o lsp_id mac text
    → Addressed env start' end' o lsp_id mac text
Addressed-wider env start end start' end' o lsp_id mac text before after (lsp, found, written) = (
  lsp,
  Found-wider o lsp_id env start end start' end' lsp before after found,
  Written-wider start end start' end' lsp mac text before after written,
)

-- A port that is found or created is found by its name.
or_create-Found :
    (o : Ovn) (lsp_id : String) (make : M LogicalSwitchPort) (env : Env) (start : World)
    → ((v : World) (lsp : LogicalSwitchPort) (w' : World)
        → make env v ≡ (ok lsp, w')
        → Found {A = LogicalSwitchPort} o lsp_id env v w' lsp)
    → (r : Outcome LogicalSwitchPort) (v : World) → Extends v start
    → ((x : LogicalSwitchPort) → r ≡ ok x → Found {A = LogicalSwitchPort} o lsp_id env start v x)
    → {lsp : LogicalSwitchPort} {w' : World} → or_create make r env v ≡ (ok lsp, w')
    → Found {A = LogicalSwitchPort} o lsp_id env start w' lsp
or_create-Found o lsp_id make env start made (ok x) v more found {lsp} {w'} h =
    let (p, q) = lift-eq-ok h in
    subst (λ y. Found {A = LogicalSwitchPort} o lsp_id env start w' y) (ok-injective p)
      (subst (λ u. Found {A = LogicalSwitchPort} o lsp_id env start u x) q (found x refl))
or_create-Found o lsp_id make env start made (err (ovn_not_found kind name)) v more found {lsp} {w'}
      h =
    Found-wider o lsp_id env v w' start w' lsp more (Extends-refl w') (made v lsp w' h)
or_create-Found o lsp_id make env start made (err e) v more found h =
    absurd (let no_value : ⊥ = cc (ap outcome_of h) in no_value)
or_create-Found o lsp_id make env start made panic v more found h =
    absurd (let no_value : ⊥ = cc (ap outcome_of h) in no_value)

create_lsp-Found :
    (ls : LogicalSwitch) (lsp_id : String) (env : Env) (w : World) (lsp : LogicalSwitchPort)
    (w' : World)
    → create_lsp ls lsp_id none env w ≡ (ok lsp, w')
    → Found {A = LogicalSwitchPort} ls.ovn lsp_id env w w' lsp
unfolding create_lsp
create_lsp-Found ls lsp_id env w lsp w' h =
    let operations = insert_port_operations ls (("name", str lsp_id) ∷ []) in
    let (results, v, p, q) =
      continue-eq-ok (transact ls.ovn operations env w)
        (λ x. get_by_name {A = LogicalSwitchPort} ls.ovn lsp_id) env h in
    Found-wider ls.ovn lsp_id env v w' w w' lsp (Grows-Extends (transact-Grows ls.ovn operations) p)
      (Extends-refl w') (get_by_name-Found ls.ovn lsp_id env v q)

pub create_lsp_if_missing-Found :
    (ls : LogicalSwitch) (lsp_id : String) (env : Env) (w : World) {lsp : LogicalSwitchPort}
    {w' : World}
    → create_lsp_if_missing ls lsp_id none env w ≡ (ok lsp, w')
    → Found {A = LogicalSwitchPort} ls.ovn lsp_id env w w' lsp
unfolding create_lsp_if_missing
create_lsp_if_missing-Found ls lsp_id env w h =
    let search : M LogicalSwitchPort = get_by_name ls.ovn lsp_id in
    let (found, v, p, q) =
      continue-eq-ok (try search env w) (or_create (create_lsp ls lsp_id none)) env h in
    or_create-Found ls.ovn lsp_id (create_lsp ls lsp_id none) env w
      (λ v lsp w' e. create_lsp-Found ls lsp_id env v lsp w' e) found v
      (Grows-Extends (try-Grows (get_by_name-Grows logical_switch_port_named ls.ovn lsp_id)) p)
      (λ x e. get_by_name-Found ls.ovn lsp_id env w (settle-ok (search env w) (rw e at p))) q

write_address-Written :
    (lsp : LogicalSwitchPort) (mac : String) (ip : IpConfiguration) (r : Outcome LogicalSwitchPort)
    (env : Env) (start w : World) {w' : World}
    → Extends w start
    → write_address lsp mac ip r env w ≡ (ok tt, w')
    → Written start w' lsp mac (port_address mac ip)
write_address-Written lsp mac ip (ok other) env start w more h =
    absurd (let no_value : ⊥ = cc (ap outcome_of h) in no_value)
write_address-Written lsp mac ip (err e) env start w more h =
    let (results, v, p, q) =
      continue-eq-ok (transact lsp.ovn (set_address_operation lsp (port_address mac ip) ∷ []) env w)
        (λ x. pure tt) env h in
    let sent =
      (transact-IsClean lsp.ovn (set_address_operation lsp (port_address mac ip) ∷ []) env w p).0 in
    inr (
      w.ids lsp.ovn.connection,
      (w, more, ([], ap (λ (u : World). u.log) (sym (lift-eq-ok q).1) ∙ sent)),
    )
write_address-Written lsp mac ip panic env start w more h =
    absurd (let no_value : ⊥ = cc (ap outcome_of h) in no_value)

pub set_address-Written :
    (lsp : LogicalSwitchPort) (mac : String) (ip : IpConfiguration) (env : Env) (w : World)
    {w' : World}
    → set_address lsp mac ip env w ≡ (ok tt, w')
    → Written w w' lsp mac (port_address mac ip)
unfolding set_address
set_address-Written lsp mac ip env w {w'} h = elim (Bool-cases (has_substring lsp.addresses mac)) [
  | inl e ↦ inl e
  | inr e ↦
      let (ls, v, p, q) =
        continue-eq-ok (find_lsp_owner lsp.ovn lsp env w)
          (λ ls. try (get_by_mac ls mac) >>= write_address lsp mac ip) env (rw e at h) in
      let (found, v', p', q') =
        continue-eq-ok (try (get_by_mac ls mac) env v) (write_address lsp mac ip) env q in
      write_address-Written lsp mac ip found env w v'
        (Extends-trans w v v' (Grows-Extends (try-Grows (get_by_mac-Grows ls mac)) p')
          (Grows-Extends (find_lsp_owner-Grows lsp) p))
        q'
]
