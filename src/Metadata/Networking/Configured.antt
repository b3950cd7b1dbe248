-- ===== src/Metadata/Networking/Configured.antt =====
-- The commands that have been run when the interface of the metadata service stands.
use cluster_controller.Prelude.{
  String, ◌≡◌, sym, ap, ◌∙◌, List, [], ◌∷◌, ◌++◌, format, Bool, true, false, not, ◌&&◌, ◌||◌, ◌==◌,
  contains, refl, if◌then◌else◌,
}
use cluster_controller.Errors.{
  Outcome, ok, err, panic, command_failed, netns_open_failed, netns_change_failed,
}
use cluster_controller.World.{
  Reply, CommandOutput, done, failed, Event, Env, World, ◌>>=◌, ◌>>◌, lift, try, settle, continue,
  happen,
}
use cluster_controller.World.Monad.Inversion.{lift-eq-ok, continue-eq-ok}
use mathlib.Core.Path.{subst}
use cluster_controller.World.Monad.Trace.{extend}
use cluster_controller.World.Monad.Performance.{
  Excuse, AllWentWell, AllWentWell-append, Performs, ask-Performs, then-Performs,
}
use cluster_controller.Metadata.Networking.{
  exit_status, command, ip_command, creation_error, create_ns, generate_interface_prefix,
  host_interface, ns_interface, tolerate, already_added, ovs_vsctl, configure, add_to_switch,
  create_interface,
}
use cluster_controller.Metadata.Proxy.{netns_name_of, enter_namespace}

abbrev pub ran : String → List String → Event
ran executable args = Event.run_command (executable ∷ args)

abbrev pub ran_ip : List String → Event
ran_ip args = ran "/usr/sbin/ip" args

abbrev pub ran_inside : String → List String → Event
ran_inside netns args = ran_ip ("netns" ∷ "exec" ∷ netns ∷ "ip" ∷ args)

-- A command that adds a port to a switch may say that the port is there.
abbrev pub port_is_there : String → List String → String → Bool
port_is_there if_host args stderr =
    contains args "add-port"
    && stderr
      == format (
          "ovs-vsctl: cannot create a port named " ∷ if_host ∷ " because a port named " ∷ if_host
          ∷ " already exists on bridge br-int\n" ∷ [])

succeeded :
    (success : Bool) (args : List String) (stderr : String) {a : Unit {0}}
    → (if not success then err (command_failed args stderr) else ok tt) ≡ ok a
    → success ≡ true
succeeded true args stderr h = refl
succeeded false args stderr h = absurd (let no_value : ⊥ = cc h in no_value)

exit_status-eq-ok :
    (args : List String) (reply : Reply String CommandOutput) {a : Unit {0}}
    → exit_status args reply ≡ ok a
    → (output : CommandOutput) × (reply ≡ done output) × (output.success ≡ true)
exit_status-eq-ok args (done output) h =
    (output, refl, succeeded output.success args output.stderr h)
exit_status-eq-ok args (failed e) h = absurd (let no_value : ⊥ = cc h in no_value)

-- A command whose result is looked at, and what the look requires of it.
abbrev Requires :
    Excuse → List String → List String → (Outcome (Unit {0}) → Outcome (Unit {0})) → Type 0
Requires excuse all_args args look =
    (reply : Reply String CommandOutput) (a : Unit {0})
    → look (exit_status args reply) ≡ ok a
    → (output : CommandOutput) × (reply ≡ done output)
      × ((output.success || excuse all_args output.stderr) ≡ true)

creation_error-eq-ok : (r : Outcome (Unit {0})) {a : Unit {0}} → creation_error r ≡ ok a → r ≡ ok a
creation_error-eq-ok (ok b) h = h
creation_error-eq-ok (err (command_failed cmd msg)) h = absurd (let no_value : ⊥ = cc h in no_value)
creation_error-eq-ok (err e) h = absurd (let no_value : ⊥ = cc h in no_value)
creation_error-eq-ok panic h = absurd (let no_value : ⊥ = cc h in no_value)

tolerated :
    (if_host : String) (args : List String) (success there : Bool) (stderr : String) {a : Unit {0}}
    → (stderr == already_added if_host) ≡ there
    → tolerate if_host (if not success then err (command_failed args stderr) else ok tt) ≡ ok a
    → (success || there) ≡ true
tolerated if_host args true there stderr e h = refl
tolerated if_host args false true stderr e h = refl
tolerated if_host args false false stderr e h =
    absurd (let no_value : ⊥ = cc (rw e at h) in no_value)

settled :
    (o : Outcome (Unit {0})) (look : Outcome (Unit {0}) → Outcome (Unit {0})) (env : Env)
    (w : World) {a : Unit {0}} {w' : World}
    → continue (settle (o, w)) (λ r. lift (look r)) env ≡ (ok a, w')
    → (w' ≡ w) × (look o ≡ ok a)
settled (ok x) look env w h = (sym (lift-eq-ok h).1, (lift-eq-ok h).0)
settled (err e) look env w h = (sym (lift-eq-ok h).1, (lift-eq-ok h).0)
settled panic look env w h = absurd (let no_value : ⊥ = cc (lift-eq-ok h).0 in no_value)

module _ (excuse : Excuse) where
  command-Performs :
      (executable : String) (args : List String)
      → Performs excuse (ran executable args ∷ []) (command executable args)
  unfolding command
  command-Performs executable args = record {
    performed = λ env w a w' e.
        let (output, answered, good) =
          exit_status-eq-ok args (env.run_command (ran executable args ∷ w.log)) (lift-eq-ok e).0 in
        (sym (lift-eq-ok e).1, ((output, answered, rw good refl), tt));
  }

  ip_command-Performs : (args : List String) → Performs excuse (ran_ip args ∷ []) (ip_command args)
  ip_command-Performs args = command-Performs "/usr/sbin/ip" args

  tried-Performs :
      (executable : String) (args : List String) (look : Outcome (Unit {0}) → Outcome (Unit {0}))
      → Requires excuse (executable ∷ args) args look
      → Performs excuse
          (ran executable args ∷ [])
          (try (command executable args) >>= λ r. lift (look r))
  unfolding command
  tried-Performs executable args look required = record {
    performed = λ env w a w' e.
        let reply = env.run_command (ran executable args ∷ w.log) in
        let (same, looked) =
          settled (exit_status args reply) look env (happen (ran executable args) w) e in
        (same, (required reply a looked, tt));
  }

-- The last one first.
abbrev pub namespace_events : String → List Event
namespace_events netns =
    Event.open_file (format ("/var/run/netns/" ∷ netns ∷ []))
    ∷ ran_ip ("netns" ∷ "add" ∷ netns ∷ [])
    ∷ []

abbrev pub interface_events : String → String → String → String → List Event
interface_events netns router_name if_host if_ns =
    ran ovs_vsctl (
      "set"
      ∷ "Interface"
      ∷ if_host
      ∷ format ("external_ids:iface-id=" ∷ format ("mds-" ∷ router_name ∷ []) ∷ [])
      ∷ [])
    ∷ ran ovs_vsctl ("add-port" ∷ "br-int" ∷ if_host ∷ [])
    ∷ ran_ip ("link" ∷ "set" ∷ if_host ∷ "up" ∷ [])
    ∷ ran_inside netns ("route" ∷ "add" ∷ "default" ∷ "via" ∷ "169.254.169.253" ∷ [])
    ∷ ran_inside netns ("link" ∷ "set" ∷ if_ns ∷ "up" ∷ [])
    ∷ ran_inside netns ("link" ∷ "set" ∷ "dev" ∷ if_ns ∷ "address" ∷ "02:00:00:00:00:02" ∷ [])
    ∷ ran_inside netns ("addr" ∷ "add" ∷ "169.254.169.254/30" ∷ "dev" ∷ if_ns ∷ [])
    ∷ ran_ip ("link" ∷ "set" ∷ if_ns ∷ "netns" ∷ netns ∷ [])
    ∷ ran_ip ("link" ∷ "add" ∷ if_host ∷ "type" ∷ "veth" ∷ "peer" ∷ if_ns ∷ [])
    ∷ ran_inside netns ("link" ∷ "set" ∷ "lo" ∷ "up" ∷ [])
    ∷ []

module _ (if_host : String) where
  create_ns-Performs :
      (netns : String) → Performs (port_is_there if_host) (namespace_events netns) (create_ns netns)
  unfolding create_ns
  create_ns-Performs netns =
      then-Performs (port_is_there if_host)
        (tried-Performs (port_is_there if_host) "/usr/sbin/ip" ("netns" ∷ "add" ∷ netns ∷ [])
          creation_error
          λ reply a h.
            let (output, answered, good) =
              exit_status-eq-ok ("netns" ∷ "add" ∷ netns ∷ []) reply
                (creation_error-eq-ok (exit_status ("netns" ∷ "add" ∷ netns ∷ []) reply) h) in
            (output, answered, rw good refl))
        (ask-Performs (port_is_there if_host)
          (Event.open_file (format ("/var/run/netns/" ∷ netns ∷ []))) netns_open_failed
          (λ env h. env.system h) (λ env log a e. e))

  tolerate-Requires :
      Requires
        (port_is_there if_host)
        (ovs_vsctl ∷ "add-port" ∷ "br-int" ∷ if_host ∷ [])
        ("add-port" ∷ "br-int" ∷ if_host ∷ [])
        (tolerate if_host)
  tolerate-Requires (done output) a h = (
    output,
    refl,
    tolerated if_host ("add-port" ∷ "br-int" ∷ if_host ∷ []) output.success
        (output.stderr == already_added if_host) output.stderr refl h,
  )
  tolerate-Requires (failed e) a h = absurd (let no_value : ⊥ = cc h in no_value)

  interface-Performs :
      (netns router_name if_ns : String)
      → Performs
          (port_is_there if_host)
          (interface_events netns router_name if_host if_ns)
          (configure netns if_host if_ns >> add_to_switch router_name if_host)
  interface-Performs netns router_name if_ns =
      let excuse = port_is_there if_host in
      let ip : (args : List String) → Performs excuse (ran_ip args ∷ []) (ip_command args) =
        ip_command-Performs excuse in
      then-Performs excuse
        (then-Performs excuse (ip _) (
          then-Performs excuse (ip _) (
            then-Performs excuse (ip _) (
              then-Performs excuse (ip _) (
                then-Performs excuse (ip _)
                  (then-Performs excuse (ip _) (then-Performs excuse (ip _) (ip _))))))))
        (then-Performs excuse
          (tried-Performs excuse ovs_vsctl ("add-port" ∷ "br-int" ∷ if_host ∷ []) (tolerate if_host)
            tolerate-Requires)
          (command-Performs excuse ovs_vsctl _))

-- When the proxy has entered its network namespace, exactly these steps have been taken, in this
-- order: the namespace was added and opened, the interface pair was made and its inner end moved
-- there and configured with the metadata address, the outer end was set up and added to the switch
-- as the port mds-<router>, and the namespace was entered. Every command was started and succeeded,
-- but that the one that adds the port may have said that a port of this name is on the bridge; the
-- file was opened and the namespace entered.
pub enter_namespace-log :
    (router_name : String) (env : Env) (w w' : World)
    → enter_namespace router_name env w ≡ (ok tt, w')
    → let netns = format (router_name ∷ "-metadatasvc" ∷ []) in
      let prefix = generate_interface_prefix env.libraries.sha256_hex netns router_name in
      let if_host = format (prefix ∷ "-host" ∷ []) in
      let if_ns = format (prefix ∷ "-ns" ∷ []) in
      let events =
        Event.set_namespace netns ∷ interface_events netns router_name if_host if_ns
        ++ namespace_events netns in
      (w' ≡ extend events w) × AllWentWell (port_is_there if_host) env w.log events
unfolding enter_namespace create_interface
enter_namespace-log router_name env w w' h =
    let netns = netns_name_of router_name in
    let prefix = generate_interface_prefix env.libraries.sha256_hex netns router_name in
    let if_host = host_interface prefix in
    let excuse = port_is_there if_host in
    let interface = interface_events netns router_name if_host (ns_interface prefix) in
    let (u, v, first, rest) = continue-eq-ok (create_ns netns env w) _ env h in
    let (made, well) = (create_ns-Performs if_host netns).performed env w u v first in
    let (ended, well') =
      (then-Performs excuse (interface-Performs if_host netns router_name (ns_interface prefix)) (
          ask-Performs excuse (Event.set_namespace netns) netns_change_failed
            (λ env h. env.system h) (λ env log a e. e))).performed
        env v tt w' rest in
    (
      ended ∙ ap (extend (Event.set_namespace netns ∷ interface)) made,
      AllWentWell-append excuse env w.log (namespace_events netns)
          (Event.set_namespace netns ∷ interface) well
          (subst
            (λ (x : World). AllWentWell excuse env x.log (Event.set_namespace netns ∷ interface))
            made well'),
    )
