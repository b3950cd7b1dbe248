-- ===== src/Metadata/Backend/Answers.antt =====
-- Each request is answered while the backend runs.
use mathlib.Core.Path.{subst}
use cluster_controller.Prelude.{
  String, ◌≡◌, refl, Option, none, some, List, [], ◌∷◌, All, In, inl, retain,
}
use cluster_controller.Errors.{Outcome, ok, Error, expect}
use cluster_controller.Crd.{VirtualMachine}
use cluster_controller.World.{Event, Env, World, for_each, MetadataPayload}
use cluster_controller.World.Monad.Inversion.{continue-eq-ok, lift-eq-ok}
use cluster_controller.World.Monad.Growth.{
  Extends-In, Grows, Grows-Extends, lift-Grows, ask-Grows, observe-Grows, bind-Grows,
  for_each-Grows,
}
use cluster_controller.Ovn.Growth.{try_from_annotations-Grows, get_by_ip-Grows}
use cluster_controller.Ovn.Types.{LogicalSwitchPort}
use cluster_controller.Metadata.Backend.{
  owns_port, userdata_of, payload, answer_named, answer_for, only, matching_vm, answer_by_ports,
  answer, send_response, handle_request, main,
}

answer_named-Grows :
    (ip : String) (vm : VirtualMachine) (name : Option String) → Grows (answer_named ip vm name)
answer_named-Grows ip vm none = lift-Grows (ok _)
answer_named-Grows ip vm (some name) =
    bind-Grows
      (bind-Grows (lift-Grows (expect vm.metadata.namespace)) λ namespace.
        observe-Grows (Event.get_config_map namespace name)
          (λ env h. userdata_of name (env.kube.config_map h namespace name)))
      λ userdata. lift-Grows (payload ip vm userdata)

matching_vm-Grows : (port : String) → Grows (matching_vm port)
unfolding matching_vm
matching_vm-Grows port =
    bind-Grows (ask-Grows (Event.list_vms none) Error.kube (λ env h. env.kube.vms h none))
      λ vms. lift-Grows (only (retain (owns_port port) vms))

answer_by_ports-Grows :
    (ip : String) (ports : List LogicalSwitchPort) → Grows (answer_by_ports ip ports)
unfolding answer_for
answer_by_ports-Grows ip [] = lift-Grows (ok _)
answer_by_ports-Grows ip (port ∷ []) =
    bind-Grows (matching_vm-Grows port.name) λ vm. answer_named-Grows ip vm vm.spec.userdata
answer_by_ports-Grows ip (port ∷ other ∷ more) = lift-Grows (ok _)

answer-Grows : (ip : String) → Grows (answer ip)
unfolding answer
answer-Grows ip =
    bind-Grows try_from_annotations-Grows
      λ ovn. bind-Grows (get_by_ip-Grows ovn ip) λ ports. answer_by_ports-Grows ip ports

handle_request-Grows : (ip : String) → Grows (handle_request ip)
unfolding handle_request
handle_request-Grows ip = bind-Grows (answer-Grows ip) λ metadata.
    ask-Grows (Event.respond ip metadata) Error.response_send_failed (λ env h. env.system h)

-- A response to the address has been sent, and it was the answer at some time.
pub record Answered (env : Env) (w : World) (ip : String) : Type 0 where
  pub response : Outcome MetadataPayload
  pub before : World
  pub after : World
  pub answered : answer ip env before ≡ (ok response, after)
  pub sent : In (Event.respond ip response) w.log

handle_request-Answered :
    (ip : String) (env : Env) (w : World) {w' : World}
    → handle_request ip env w ≡ (ok tt, w')
    → Answered env w' ip
unfolding handle_request
handle_request-Answered ip env w h =
    let (response, v, p, q) = continue-eq-ok (answer ip env w) (send_response ip) env h in
    record {
      response = response;
      before = w;
      after = v;
      answered = p;
      sent =
          subst (λ (u : World). In (Event.respond ip response) u.log) (lift-eq-ok q).1 (inl refl);
    }

each-Answered :
    (requests : List String) (env : Env) (w : World) {w' : World}
    → for_each handle_request requests env w ≡ (ok tt, w')
    → All (Answered env w') requests
unfolding for_each
each-Answered [] env w h = tt
each-Answered (ip ∷ requests) env w {w'} h =
    let (u, v, p, q) =
      continue-eq-ok (handle_request ip env w) (λ x. for_each handle_request requests) env h in
    let first = handle_request-Answered ip env w p in
    let more = Grows-Extends (for_each-Grows handle_request-Grows requests) q in
    (
      record {
        response = first.response;
        before = first.before;
        after = first.after;
        answered = first.answered;
        sent = Extends-In w' v (Event.respond ip first.response) more first.sent;
      },
      each-Answered requests env v q,
    )

-- As long as the backend's loop has not failed, each request that it took was sent a response, and
-- the response was what `answer` gave for its address.
pub main-Answered :
    (requests : List String) (env : Env) (w w' : World)
    → main requests env w ≡ (ok tt, w')
    → All (Answered env w') requests
unfolding main
main-Answered requests env w w' h = each-Answered requests env w h
