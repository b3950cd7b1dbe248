-- ===== src/Metadata/Proxy.antt =====
-- src/metadataservice/proxy.rs: the HTTP server inside the router's network namespace. The channel
-- to the backend is a parameter: a request sent over it and the response waited for.
pub mod Paths
use cluster_controller.Prelude.{
  String, Option, none, some, List, [], ◌∷◌, format, ◌==◌, if◌then◌else◌,
}
use cluster_controller.Errors.{Outcome, ok, err, panic, Error, netns_change_failed, unexpected_exit}
use cluster_controller.Json.{Value, str, object}
use cluster_controller.World.{Event, M, ◌>>=◌, ◌>>◌, lift, ask, pure, fail, MetadataPayload}
use cluster_controller.Metadata.Networking.{create_ns, create_interface}

pub data SocketAddr : Type 0 where
  v4 v6 : String → SocketAddr

-- The body of a response; a JSON value is sent as its text.
pub data Body : Type 0 where
  text : String → Body
  json : Value → Body

-- `none` stands for the rejection `not_found`.
unfoldable pub extract_ipv4_address : Option SocketAddr → Option String
extract_ipv4_address (some (v4 ip)) = some ip
extract_ipv4_address _ = none

-- The `match` on the response.
abbrev pub accept : Outcome MetadataPayload → Outcome (Option MetadataPayload)
accept (ok metadata) = ok (some metadata)
accept (err e) = ok none
accept panic = panic

abbrev pub describe : String → MetadataPayload → Body
describe version metadata = text (
    format (
      "Metadata proxy from " ∷ version ∷ "\nClient IP: " ∷ metadata.ip ∷ "\nInstance ID: "
      ∷ metadata.instance_id ∷ "\nHostname: " ∷ metadata.hostname ∷ "\nMetadata: "
      ∷ metadata.user_data ∷ "\n" ∷ []))

abbrev pub meta_data : MetadataPayload → Body
meta_data metadata =
    json (object (("uuid", str metadata.instance_id) ∷ ("hostname", str metadata.hostname) ∷ []))

abbrev pub user_data : MetadataPayload → Body
user_data metadata = text metadata.user_data

-- What a path is for: a fixed text, or a text made of the client's metadata.
pub data Route : Type 0 where
  fixed : String → Route
  of_metadata : (MetadataPayload → Body) → Route
  no_route : Route

abbrev pub below_latest : String → Route
below_latest name =
    if name == "meta_data.json"
    then of_metadata meta_data
    else if name == "user_data"
    then of_metadata user_data
    else no_route

-- The filters below `openstack`, by the segments that follow it.
unfoldable pub openstack_api : List String → Route
openstack_api [] = fixed "latest"
openstack_api (name ∷ []) = if name == "latest" then fixed "meta_data.json\nuser_data" else no_route
openstack_api (directory ∷ name ∷ []) =
    if directory == "latest" then below_latest name else no_route
openstack_api _ = no_route

-- All filters, by the version string of the build and the segments of the path.
unfoldable pub app : String → List String → Route
app version [] = of_metadata (describe version)
app version (name ∷ segments) = if name == "openstack" then openstack_api segments else no_route

module _ (send_and_receive : String → M (Outcome MetadataPayload)) where
  unfoldable pub fetch_metadata : String → M (Option MetadataPayload)
  fetch_metadata addr = send_and_receive addr >>= λ response. lift (accept response)

  abbrev pub fetch_from : Option String → M (Option MetadataPayload)
  fetch_from none = pure none
  fetch_from (some addr) = fetch_metadata addr

  unfoldable pub addr_to_metadata : Option SocketAddr → M (Option MetadataPayload)
  addr_to_metadata addr = fetch_from (extract_ipv4_address addr)

  abbrev pub body_of : (MetadataPayload → Body) → Option MetadataPayload → Option Body
  body_of make none = none
  body_of make (some metadata) = some (make metadata)

  abbrev pub follow : Route → Option SocketAddr → M (Option Body)
  follow (fixed s) addr = pure (some (text s))
  follow (of_metadata make) addr =
      addr_to_metadata addr >>= λ metadata. pure (body_of make metadata)
  follow no_route addr = pure none

  -- One HTTP request: `none` is the status 404.
  unfoldable pub serve : String → List String → Option SocketAddr → M (Option Body)
  serve version path addr = follow (app version path) addr

abbrev pub netns_name_of : String → String
netns_name_of router_name = format (router_name ∷ "-metadatasvc" ∷ [])

-- `MetadataProxy::run` before the server starts.
unfoldable pub enter_namespace : String → M (Unit {0})
enter_namespace router_name =
    let netns_name = netns_name_of router_name in
    create_ns netns_name
    >> (create_interface netns_name router_name
        >> ask (Event.set_namespace netns_name) netns_change_failed (λ env h. env.system h))

-- `MetadataProxy::run`, with what the server does until it ends.
unfoldable pub run_proxy : M (Unit {0}) → String → M (Unit {0})
run_proxy served router_name =
    enter_namespace router_name
    >> (served >> fail (unexpected_exit "metadata proxy HTTP API (warp) died"))
