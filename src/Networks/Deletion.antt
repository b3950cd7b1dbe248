-- ===== src/Networks/Deletion.antt =====
-- The deletion of a port from its switch.
use cluster_controller.Prelude.{ℕ, String, ◌≡◌, sym, ap, ◌∙◌, [], ◌∷◌}
use cluster_controller.Errors.{ok}
use cluster_controller.Json.{num, str, array, object}
use cluster_controller.World.{
  Ovn, Message, by_position, request, Event, Env, World, ◌>>=◌, ◌>>◌, pure,
}
use cluster_controller.World.Monad.Inversion.{continue-eq-ok, lift-eq-ok}
use cluster_controller.World.Monad.Growth.{
  Extends, Extends-refl, Occurs, Occurs-wider, Grows, Grows-Extends, lift-Grows, bind-Grows,
  then-Grows,
}
use cluster_controller.Kube.{vm_resource}
use cluster_controller.Ovn.Lowlevel.{transact}
use cluster_controller.Ovn.Lowlevel.Transactions.{transact-IsClean}
use cluster_controller.Ovn.Common.{get_by_name}
use cluster_controller.Ovn.Common.Lookup.{Found, Found-wider, get_by_name-Found}
use cluster_controller.Ovn.Growth.{transact-Grows, get_by_name-Grows}
use cluster_controller.Ovn.Types.{
  LogicalSwitch, LogicalSwitchPort, logical_switch_named, logical_switch_port_named,
}
use cluster_controller.Ovn.Ports.{del_lsp, delete_port_operation}

-- The message that takes a port from a switch.
abbrev pub deletion_message : ℕ → LogicalSwitch → LogicalSwitchPort → Message
deletion_message id ls lsp = request (num id) "transact" (
    by_position (
      str "OVN_Northbound"
      ∷ object (
          ("op", str "mutate")
          ∷ ("table", str "Logical_Switch")
          ∷ (
            "mutations",
            array (
                array (
                  str "ports"
                  ∷ str "delete"
                  ∷ array (str "set" ∷ array (array (str "uuid" ∷ str lsp.uuid ∷ []) ∷ []) ∷ [])
                  ∷ [])
                ∷ []),
          )
          ∷ (
            "where",
            array
                (array (str "_uuid" ∷ str "==" ∷ array (str "uuid" ∷ str ls.uuid ∷ []) ∷ []) ∷ []),
          )
          ∷ [])
      ∷ []))

-- The switch and the port of these names were found, and the port was taken from the switch.
abbrev pub Deleted : Ovn → Env → World → World → String → String → Type 0
Deleted o env start end switch lsp_id =
    (ls : LogicalSwitch) × (lsp : LogicalSwitchPort) × (id : ℕ) × Found {A = LogicalSwitch} o switch
      env start end ls
    × Found {A = LogicalSwitchPort} ls.ovn lsp_id env start end lsp
    × Occurs start end (Event.send ls.ovn (deletion_message id ls lsp))

pub Deleted-wider :
    (o : Ovn) (env : Env) (start end start' end' : World) (switch lsp_id : String)
    → Extends start start'
    → Extends end' end
    → Deleted o env start end switch lsp_id
    → Deleted o env start' end' switch lsp_id
Deleted-wider o env start end start' end' switch lsp_id before after
      (ls, lsp, id, found, port, sent) =
    (
      ls,
      lsp,
      id,
      Found-wider o switch env start end start' end' ls before after found,
      Found-wider ls.ovn lsp_id env start end start' end' lsp before after port,
      Occurs-wider start end start' end' _ before after sent,
    )

pub del_lsp-Grows : (ls : LogicalSwitch) (lsp_id : String) → Grows (del_lsp ls lsp_id)
unfolding del_lsp
del_lsp-Grows ls lsp_id =
    bind-Grows (get_by_name-Grows logical_switch_port_named ls.ovn lsp_id) λ lsp.
      then-Grows (transact-Grows ls.ovn (delete_port_operation ls lsp ∷ [])) (lift-Grows (ok tt))

-- The deletion of a port of a switch, once the switch is found.
del_lsp-sent :
    (ls : LogicalSwitch) (lsp_id : String) (env : Env) (w : World) {w' : World}
    → del_lsp ls lsp_id env w ≡ (ok tt, w')
    → (lsp : LogicalSwitchPort) × (id : ℕ) × Found {A = LogicalSwitchPort} ls.ovn lsp_id env w w'
        lsp
      × Occurs w w' (Event.send ls.ovn (deletion_message id ls lsp))
unfolding del_lsp
del_lsp-sent ls lsp_id env w {w'} h =
    let (lsp, v, p, q) =
      continue-eq-ok (get_by_name {A = LogicalSwitchPort} ls.ovn lsp_id env w)
        (λ lsp. transact ls.ovn (delete_port_operation ls lsp ∷ []) >> pure tt) env h in
    let (results, v', p', q') =
      continue-eq-ok (transact ls.ovn (delete_port_operation ls lsp ∷ []) env v) (λ x. pure tt) env
        q in
    let found : Extends v w =
      Grows-Extends (get_by_name-Grows logical_switch_port_named ls.ovn lsp_id) p in
    let logged =
      ap (λ (u : World). u.log) (sym (lift-eq-ok q').1)
      ∙ (transact-IsClean ls.ovn (delete_port_operation ls lsp ∷ []) env v p').0 in
    (
      lsp,
      v.ids ls.ovn.connection,
      Found-wider ls.ovn lsp_id env w v w w' lsp (Extends-refl w) (_ ∷ [], logged)
          (get_by_name-Found ls.ovn lsp_id env w p),
      (v, found, ([], logged)),
    )

-- The port was found: it is taken from the switch.
pub found_port :
    (o : Ovn) (switch lsp_id : String) (env : Env) (w : World) {w' : World}
    → (get_by_name {A = LogicalSwitch} o switch >>= λ ls. del_lsp ls lsp_id) env w ≡ (ok tt, w')
    → Deleted o env w w' switch lsp_id
found_port o switch lsp_id env w {w'} h =
    let (ls, v, p, q) =
      continue-eq-ok (get_by_name {A = LogicalSwitch} o switch env w) (λ ls. del_lsp ls lsp_id) env
        h in
    let (lsp, id, port, sent) = del_lsp-sent ls lsp_id env v q in
    let found : Extends v w = Grows-Extends (get_by_name-Grows logical_switch_named o switch) p in
    (
      ls,
      lsp,
      id,
      Found-wider o switch env w v w w' ls (Extends-refl w)
          (Grows-Extends (del_lsp-Grows ls lsp_id) q) (get_by_name-Found o switch env w p),
      Found-wider ls.ovn lsp_id env v w' w w' lsp found (Extends-refl w') port,
      Occurs-wider v w' w w' _ found (Extends-refl w') sent,
    )
