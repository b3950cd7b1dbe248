-- ===== src/Metadata/Service/Target.antt =====
-- The service serves the router that it is deployed for.
use Prim.Native.Char.{Char}
use Prim.Native.String
use Prim.Native.String.{String}
use text.Mathlib.TextLemmas.{append-nil, nil-append, cons-append}
use cluster_controller.Prelude.{
  ◌≡◌, refl, ap, some, Option, List, [], ◌∷◌, split, format, IsFree, split_free, split_at, head?,
  and_then, map_option, ◌∙◌,
}
use cluster_controller.Json.{Value, as_str, get, member, as_array}
use cluster_controller.Crd.{Router}
use cluster_controller.Kube.{router_resource, name_prefixed_with_namespace}
use cluster_controller.Metadata.Deployment.{deployment_json}
use cluster_controller.Metadata.Service.{router_name_of}

slash : Char
slash = "/"

cons_slash : (s : String) → String.◌++◌ "/" s ≡ String.◌∷◌ slash s
unfolding slash
cons_slash s = cons-append "/" String.[] s ∙ ap (String.◌∷◌ "/") (nil-append s)

-- `split` of the service's target.
pub split_target :
    (namespace router : String)
    → IsFree b'/' namespace
    → IsFree b'/' router
    → split b'/' (format (namespace ∷ "/" ∷ router ∷ [])) ≡ namespace ∷ router ∷ []
unfolding slash
split_target namespace router free free' =
    rw
      (
        append-nil router,
        cons_slash router,
        split_at b'/' namespace slash router free refl,
        split_free b'/' router free',
      )
      refl

-- The texts of a JSON array.
abbrev pub texts_of : List Value → Option (List String)
texts_of [] = some []
texts_of (v ∷ vs) = and_then (as_str v) (λ s. map_option (λ ss. s ∷ ss) (texts_of vs))

-- The command line of the first container of a deployment in JSON.
abbrev pub started_command : Value → Option (List String)
started_command deployment =
    let containers =
      and_then (get ("spec" ∷ "template" ∷ "spec" ∷ "containers" ∷ []) deployment) as_array in
    let command = and_then (and_then containers head?) (member "command") in
    and_then (and_then command as_array) texts_of

-- For a router whose namespace and name have no slash: the deployment that is written for it starts
-- the program with a command line by which the program takes the name of this very router's logical
-- router for the one that it serves.
pub served_router :
    (image namespace name : String) (router : Router)
    → router.metadata.namespace ≡ some namespace
    → router.metadata.name ≡ some name
    → IsFree b'/' namespace
    → IsFree b'/' name
    → map_option router_name_of (started_command (deployment_json image namespace name))
      ≡ some (name_prefixed_with_namespace router)
unfolding deployment_json router_name_of name_prefixed_with_namespace
served_router image namespace name router in_namespace named free free' =
    rw (in_namespace, named, split_target namespace name free free') refl
