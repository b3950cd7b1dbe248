-- ===== src/Metadata/Networking.antt =====
-- src/metadataservice/networking.rs: the network namespace of the metadata service and its
-- interface. What the commands write is taken as text.
pub mod Names
pub mod Configured
use cluster_controller.Prelude.{
  ℕ, zero, suc, String, Option, none, some, List, [], ◌∷◌, ◌++◌, ◌==◌, if◌then◌else◌, format, not,
}
use Prim.Native.String
use cluster_controller.Errors.{
  Outcome, ok, err, panic, Error, command_failed, netns_create_failed, netns_open_failed,
}
use cluster_controller.World.{
  Event, M, ◌>>=◌, ◌>>◌, lift, observe, ask, read, try, done, failed, Reply, CommandOutput,
}

-- The exit status; a command that cannot be started is a panic.
abbrev pub exit_status : List String → Reply String CommandOutput → Outcome (Unit {0})
exit_status args (failed e) = panic
exit_status args (done output) =
    if not output.success then err (command_failed args output.stderr) else ok tt

unfoldable pub command : String → List String → M (Unit {0})
command executable args =
    observe (Event.run_command (executable ∷ args)) (λ env h. env.run_command h) >>= λ output.
    lift (exit_status args output)

abbrev pub ip_command : List String → M (Unit {0})
ip_command args = command "/usr/sbin/ip" args

abbrev pub ip_command_netns : String → List String → M (Unit {0})
ip_command_netns netns args = ip_command ("netns" ∷ "exec" ∷ netns ∷ "ip" ∷ args)

-- `map_err` of `create_ns`
abbrev pub creation_error : Outcome (Unit {0}) → Outcome (Unit {0})
creation_error (err (command_failed cmd msg)) = err (netns_create_failed msg)
creation_error result = result

unfoldable pub create_ns : String → M (Unit {0})
create_ns ns_name =
    let ns_path = format ("/var/run/netns/" ∷ ns_name ∷ []) in
    try (ip_command ("netns" ∷ "add" ∷ ns_name ∷ []))
    >>= (λ added. lift (creation_error added))
    >> ask (Event.open_file ns_path) netns_open_failed (λ env h. env.system h)

-- `text[0..n]`
unfoldable pub take_text : ℕ → String → String
take_text zero s = String.[]
take_text (suc n) String.[] = String.[]
take_text (suc n) (String.◌∷◌ c s) = String.◌∷◌ c (take_text n s)

-- By the hexadecimal digest of some texts.
unfoldable pub generate_interface_prefix : (List String → String) → String → String → String
generate_interface_prefix sha256_hex namespace router =
    take_text 9 (sha256_hex (namespace ∷ router ∷ []))

abbrev pub host_interface : String → String
host_interface prefix = format (prefix ∷ "-host" ∷ [])

abbrev pub ns_interface : String → String
ns_interface prefix = format (prefix ∷ "-ns" ∷ [])

abbrev pub already_added : String → String
already_added if_host = format (
    "ovs-vsctl: cannot create a port named " ∷ if_host ∷ " because a port named " ∷ if_host
    ∷ " already exists on bridge br-int\n" ∷ [])

-- `or_else` of the command that adds the port
abbrev pub tolerate : String → Outcome (Unit {0}) → Outcome (Unit {0})
tolerate if_host (err (command_failed cmd msg)) =
    if msg == already_added if_host then ok tt else err (command_failed cmd msg)
tolerate if_host result = result

abbrev pub ovs_vsctl : String
ovs_vsctl = "/usr/bin/ovs-vsctl"

-- The commands inside and outside of the namespace, up to those for Open vSwitch.
abbrev pub configure : String → String → String → M (Unit {0})
configure ns_name if_host if_ns =
    ip_command_netns ns_name ("link" ∷ "set" ∷ "lo" ∷ "up" ∷ [])
    >> (ip_command ("link" ∷ "add" ∷ if_host ∷ "type" ∷ "veth" ∷ "peer" ∷ if_ns ∷ [])
        >> (ip_command ("link" ∷ "set" ∷ if_ns ∷ "netns" ∷ ns_name ∷ [])
            >> (ip_command_netns ns_name
                  ("addr" ∷ "add" ∷ "169.254.169.254/30" ∷ "dev" ∷ if_ns ∷ [])
                >> (ip_command_netns ns_name
                      ("link" ∷ "set" ∷ "dev" ∷ if_ns ∷ "address" ∷ "02:00:00:00:00:02" ∷ [])
                    >> (ip_command_netns ns_name ("link" ∷ "set" ∷ if_ns ∷ "up" ∷ [])
                        >> (ip_command_netns ns_name
                              ("route" ∷ "add" ∷ "default" ∷ "via" ∷ "169.254.169.253" ∷ [])
                            >> ip_command ("link" ∷ "set" ∷ if_host ∷ "up" ∷ [])))))))

-- `external_ids:iface-id`: the logical switch port that the interface is.
abbrev pub interface_id : String → String
interface_id router_name = format ("mds-" ∷ router_name ∷ [])

abbrev pub add_to_switch : String → String → M (Unit {0})
add_to_switch router_name if_host =
    (try (command ovs_vsctl ("add-port" ∷ "br-int" ∷ if_host ∷ []))
      >>= (λ added. lift (tolerate if_host added)))
    >> command ovs_vsctl (
        "set"
        ∷ "Interface"
        ∷ if_host
        ∷ format ("external_ids:iface-id=" ∷ interface_id router_name ∷ [])
        ∷ [])

unfoldable pub create_interface : String → String → M (Unit {0})
create_interface ns_name router_name =
    read (λ env. generate_interface_prefix env.libraries.sha256_hex ns_name router_name)
    >>= λ prefix.
        let if_host = host_interface prefix in
        configure ns_name if_host (ns_interface prefix) >> add_to_switch router_name if_host
