-- ===== src/Metadata/Backend/Grants.antt =====
-- What a machine may learn from the metadata service.
use cluster_controller.Prelude.{
  String, ◌≡◌, refl, sym, ap, ◌∙◌, Option, none, some, List, [], ◌∷◌, lookup, retain,
}
use mathlib.Core.Path.{subst}
use cluster_controller.Errors.{Outcome, ok, err, panic, expect, ok_or, Error, KubeError}
use cluster_controller.Crd.{VirtualMachine}
use cluster_controller.World.{
  Ovn, Event, Env, World, History, ◌>>=◌, lift, ask, MetadataPayload, Reply, done, failed,
}
use cluster_controller.World.Monad.Inversion.{
  continue-eq-ok, lift-eq-ok, bind-eq-ok, to_outcome-eq-ok, expect-eq-ok, ok-injective,
}
use cluster_controller.Ovn.Types.{LogicalSwitchPort}
use cluster_controller.Ovn.Lowlevel.{try_from_annotations}
use cluster_controller.Ovn.Ports.{get_by_ip}
use cluster_controller.Metadata.Backend.{
  owns_port, userdata_of, payload, answer_for, only, answer_named, userdata_in, matching_vm,
  answer_by_ports, answer, no_userdata,
}

-- The one machine that the address belongs to, by the answers that were given, and what of it is
-- in the payload.
pub record Granted (env : Env) (ip : String) (p : MetadataPayload) : Type 0 where
  pub ovn : Ovn
  pub port : LogicalSwitchPort
  pub before : World
  pub after : World
  pub has_address : get_by_ip ovn ip env before ≡ (ok (port ∷ []), after)
  pub vms : List VirtualMachine
  pub listed : env.kube.vms (Event.list_vms none ∷ after.log) none ≡ done vms
  pub vm : VirtualMachine
  pub sole_owner : retain (owns_port port.name) vms ≡ vm ∷ []
  pub namespace : String
  pub in_namespace : vm.metadata.namespace ≡ some namespace
  pub userdata_name : String
  pub names_userdata : vm.spec.userdata ≡ some userdata_name
  pub history : History
  pub contents : List (String × String)
  pub config_map : env.kube.config_map history namespace userdata_name ≡ done (some contents)
  pub user_data : lookup "userdata" contents ≡ some p.user_data
  pub hostname : vm.metadata.name ≡ some p.hostname
  pub instance_id : vm.spec.uuid ≡ some p.instance_id
  pub same_ip : p.ip ≡ ip

ok_or-eq-ok : {A : Type 0} (o : Option A) (e : Error) {a : A} → ok_or o e ≡ ok a → o ≡ some a
ok_or-eq-ok none e h = cc
ok_or-eq-ok (some a) e h = cc

userdata_of-eq-ok :
    (name : String) (r : Reply KubeError (Option (List (String × String)))) {text : String}
    → userdata_of name r ≡ ok text
    → (contents : List (String × String)) × (r ≡ done (some contents))
      × (lookup "userdata" contents ≡ some text)
unfolding userdata_of
userdata_of-eq-ok name (failed e) h = absurd (let no_value : ⊥ = cc h in no_value)
userdata_of-eq-ok name (done none) h = absurd (let no_value : ⊥ = cc h in no_value)
userdata_of-eq-ok name (done (some contents)) h =
    (contents, refl, ok_or-eq-ok (lookup "userdata" contents) (no_userdata name) h)

-- The fields of a payload that is sent.
record Filled (ip : String) (vm : VirtualMachine) (text : Outcome String) (p : MetadataPayload)
    : Type 0 where
  from_text : text ≡ ok p.user_data
  from_name : vm.metadata.name ≡ some p.hostname
  from_uuid : vm.spec.uuid ≡ some p.instance_id
  from_ip : p.ip ≡ ip

payload-eq-ok :
    (ip : String) (vm : VirtualMachine) (text : Outcome String) {p : MetadataPayload}
    → payload ip vm text ≡ ok (ok p)
    → Filled ip vm text p
payload-eq-ok ip vm (ok s) {p} h =
    let (host, found_host, rest) = bind-eq-ok (expect vm.metadata.name) _ h in
    let (id, found_id, last) = bind-eq-ok (expect vm.spec.uuid) _ rest in
    let same = ok-injective (ok-injective last) in
    record {
      from_text = ap (λ (q : MetadataPayload). ok q.user_data) same;
      from_name =
          expect-eq-ok vm.metadata.name found_host
          ∙ ap (λ (q : MetadataPayload). some q.hostname) same;
      from_uuid =
          expect-eq-ok vm.spec.uuid found_id
          ∙ ap (λ (q : MetadataPayload). some q.instance_id) same;
      from_ip = ap (λ (q : MetadataPayload). q.ip) (sym same);
    }
payload-eq-ok ip vm (err e) h = absurd (let no_value : ⊥ = cc (ok-injective h) in no_value)
payload-eq-ok ip vm panic h = absurd (let no_value : ⊥ = cc h in no_value)

only-eq-ok : {A : Type 0} (xs : List A) {x : A} → only xs ≡ ok x → xs ≡ x ∷ []
only-eq-ok [] h = absurd (let no_value : ⊥ = cc h in no_value)
only-eq-ok (x ∷ []) h = ap (λ y. y ∷ []) (ok-injective h)
only-eq-ok (x ∷ y ∷ ys) h = absurd (let no_value : ⊥ = cc h in no_value)

-- What the userdata's answer is made of.
record Told (env : Env) (ip : String) (vm : VirtualMachine) (p : MetadataPayload) : Type 0 where
  t_namespace : String
  t_in_namespace : vm.metadata.namespace ≡ some t_namespace
  t_userdata_name : String
  t_names_userdata : vm.spec.userdata ≡ some t_userdata_name
  t_history : History
  t_filled :
      Filled ip vm
        (userdata_of t_userdata_name (env.kube.config_map t_history t_namespace t_userdata_name))
        p

Told-by_name :
    (ip : String) (vm : VirtualMachine) (name : Option String) (env : Env) (w w' : World)
    (p : MetadataPayload)
    → vm.spec.userdata ≡ name
    → answer_named ip vm name env w ≡ (ok (ok p), w')
    → Told env ip vm p
Told-by_name ip vm none env w w' p same h =
    absurd (let no_value : ⊥ = cc (ok-injective (lift-eq-ok h).0) in no_value)
Told-by_name ip vm (some name) env w w' p same h =
    let (text, v, first, last) =
      continue-eq-ok ((lift (expect vm.metadata.namespace) >>= userdata_in name) env w)
        (λ userdata. lift (payload ip vm userdata)) env h in
    let (namespace, u, found, observed) =
      continue-eq-ok (lift (expect vm.metadata.namespace) env w) (userdata_in name) env first in
    let asked = ok-injective (lift-eq-ok observed).0 in
    record {
      t_namespace = namespace;
      t_in_namespace = expect-eq-ok vm.metadata.namespace (lift-eq-ok found).0;
      t_userdata_name = name;
      t_names_userdata = same;
      t_history = Event.get_config_map namespace name ∷ u.log;
      t_filled =
          subst (λ t. Filled ip vm t p) (sym asked) (payload-eq-ok ip vm text (lift-eq-ok last).0);
    }

-- The answer for the machine that owns a port.
granted :
    (env : Env) (ip : String) (p : MetadataPayload) (ovn : Ovn) (port : LogicalSwitchPort)
    (before after end : World)
    → get_by_ip ovn ip env before ≡ (ok (port ∷ []), after)
    → (matching_vm port.name >>= answer_for ip) env after ≡ (ok (ok p), end)
    → Granted env ip p
unfolding matching_vm answer_for
granted env ip p ovn port before after end found h =
    let (vm, v, matched, told) = continue-eq-ok (matching_vm port.name env after) _ env h in
    let (vms, u, listing, one) =
      continue-eq-ok (ask (Event.list_vms none) Error.kube (λ env h. env.kube.vms h none) env after)
        (λ vms. lift (only (retain (owns_port port.name) vms))) env matched in
    let t = Told-by_name ip vm vm.spec.userdata env v end p refl told in
    let (contents, config_map, text) =
      userdata_of-eq-ok t.t_userdata_name
        (env.kube.config_map t.t_history t.t_namespace t.t_userdata_name) t.t_filled.from_text in
    record {
      ovn = ovn;
      port = port;
      before = before;
      after = after;
      has_address = found;
      vms = vms;
      listed = to_outcome-eq-ok Error.kube _ (lift-eq-ok listing).0;
      vm = vm;
      sole_owner = only-eq-ok _ (lift-eq-ok one).0;
      namespace = t.t_namespace;
      in_namespace = t.t_in_namespace;
      userdata_name = t.t_userdata_name;
      names_userdata = t.t_names_userdata;
      history = t.t_history;
      contents = contents;
      config_map = config_map;
      user_data = text;
      hostname = t.t_filled.from_name;
      instance_id = t.t_filled.from_uuid;
      same_ip = t.t_filled.from_ip;
    }

granted_by_ports :
    (env : Env) (ip : String) (p : MetadataPayload) (ovn : Ovn) (ports : List LogicalSwitchPort)
    (before after end : World)
    → get_by_ip ovn ip env before ≡ (ok ports, after)
    → answer_by_ports ip ports env after ≡ (ok (ok p), end)
    → Granted env ip p
granted_by_ports env ip p ovn [] before after end found h =
    absurd (let no_value : ⊥ = cc (ok-injective (lift-eq-ok h).0) in no_value)
granted_by_ports env ip p ovn (port ∷ []) before after end found h =
    granted env ip p ovn port before after end found h
granted_by_ports env ip p ovn (port ∷ other ∷ more) before after end found h =
    absurd (let no_value : ⊥ = cc (ok-injective (lift-eq-ok h).0) in no_value)

-- Whatever the servers answer: when the backend has a payload for an address, then exactly one
-- port has the address, exactly one of the listed machines has an interface that is the port, and
-- the payload holds this machine's name, its UUID, and the text under `userdata` in the ConfigMap
-- that its spec names, read from its own namespace.
pub answer-Granted :
    (ip : String) (env : Env) (w : World) {p : MetadataPayload} {end : World}
    → answer ip env w ≡ (ok (ok p), end)
    → Granted env ip p
unfolding answer
answer-Granted ip env w {p} {end} h =
    let (ovn, v, connected, rest) =
      continue-eq-ok (try_from_annotations env w) (λ ovn. get_by_ip ovn ip >>= answer_by_ports ip)
        env h in
    let (ports, u, found, last) =
      continue-eq-ok (get_by_ip ovn ip env v) (answer_by_ports ip) env rest in
    granted_by_ports env ip p ovn ports v u end found last
