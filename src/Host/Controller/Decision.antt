-- ===== src/Host/Controller/Decision.antt =====
-- Which event an update is.
use cluster_controller.Prelude.{
  String, ◌≡◌, ◌⊎◌, inl, inr, refl, sym, Bool, true, false, none, some, List, ◌∷◌, ◌==◌, is_some,
  any, Bool-cases, Option-cases, ◌∙◌,
}
use mathlib.Core.Path.{subst}
use cluster_controller.Errors.{ok}
use cluster_controller.Crd.{VirtualMachine, VirtualMachineStatus}
use cluster_controller.World.{Event, Env, World, happen, done, failed, Reply}
use cluster_controller.World.Monad.Inversion.{lift-eq-ok, ok-injective}
use cluster_controller.Kube.{try_status}
use cluster_controller.Controller.{await_change}
use cluster_controller.Host.Machines.{get_domain_name}
use cluster_controller.Host.Domains.{has_domain}
use cluster_controller.Host.Controller.{
  EventType, missing_domain_name, unscheduled, no_node, inbound_migration, outbound_migration,
  not_ours, added, updated, deleted, classify, event_type_of, get_event_type, reconcile,
}

Reply-cases : {E A : Type 0} (r : Reply E A) → ((a : A) × (r ≡ done a)) ⊎ ((x : E) × (r ≡ failed x))
Reply-cases (done a) = inl (a, refl)
Reply-cases (failed x) = inr (x, refl)

-- What an event says of: the target is this node, a migration is pending, the domain is on this
-- host, the machine is being deleted.
abbrev pub Facts : Bool → Bool → Bool → Bool → EventType → Type 0
Facts here pending runs gone inbound_migration = (here ≡ true) × (pending ≡ true)
Facts here pending runs gone outbound_migration = (here ≡ false) × (runs ≡ true)
Facts here pending runs gone not_ours = (here ≡ false) × (runs ≡ false)
Facts here pending runs gone deleted = (here ≡ true) × (pending ≡ false) × (gone ≡ true)
Facts here pending runs gone added =
    (here ≡ true) × (pending ≡ false) × (runs ≡ false) × (gone ≡ false)
Facts here pending runs gone updated =
    (here ≡ true) × (pending ≡ false) × (runs ≡ true) × (gone ≡ false)
Facts here pending runs gone _ = Unit × ⊥

-- A scheduled machine with a target node, the domains that libvirt listed, and the facts of the
-- event.
abbrev pub Situation : VirtualMachine → Env → World → EventType → Type 0
Situation vm env w event =
    (me : String) × (status : VirtualMachineStatus) × (target : String) × (domains : List String)
    × (env.node_name ≡ some me)
    × (vm.status ≡ some status)
    × (status.scheduled ≡ true)
    × (status.node ≡ some target)
    × (env.hypervisor.domains (Event.list_domains ∷ w.log) ≡ done domains)
    × Facts (target == me) status.migration_pending
        (any (λ domain. domain == status.domain_name) domains)
        (is_some vm.metadata.deletion_timestamp) event

abbrev pub Meaning : VirtualMachine → Env → World → EventType → Type 0
Meaning vm env w missing_domain_name = vm.status ≡ none
Meaning vm env w unscheduled =
    (status : VirtualMachineStatus) × (vm.status ≡ some status) × (status.scheduled ≡ false)
Meaning vm env w no_node =
    (status : VirtualMachineStatus) × (vm.status ≡ some status)
    × (status.scheduled ≡ true)
    × (status.node ≡ none)
Meaning vm env w event = Situation vm env w event

get_event_type-status :
    (vm : VirtualMachine) (env : Env) (w : World) {me name : String} {status : VirtualMachineStatus}
    → env.node_name ≡ some me
    → vm.metadata.name ≡ some name
    → vm.status ≡ some status
    → get_event_type vm env w ≡ event_type_of vm me status.domain_name status env w
unfolding get_event_type get_domain_name try_status
get_event_type-status vm env w p q r = rw (p, q, r, r) refl

get_event_type-missing :
    (vm : VirtualMachine) (env : Env) (w : World) {me name : String}
    → env.node_name ≡ some me
    → vm.metadata.name ≡ some name
    → vm.status ≡ none
    → get_event_type vm env w ≡ (ok missing_domain_name, w)
unfolding get_event_type get_domain_name
get_event_type-missing vm env w p q r = rw (p, q, r) refl

event_type_of-listed :
    (vm : VirtualMachine) (me target : String) (status : VirtualMachineStatus) (env : Env)
    (w : World) {domains : List String}
    → status.scheduled ≡ true
    → status.node ≡ some target
    → env.hypervisor.domains (Event.list_domains ∷ w.log) ≡ done domains
    → event_type_of vm me status.domain_name status env w ≡ (
      ok (
          classify
            (target == me)
            status.migration_pending
            (any (λ domain. domain == status.domain_name) domains)
            (is_some vm.metadata.deletion_timestamp)),
      happen Event.list_domains w,
    )
unfolding has_domain
event_type_of-listed vm me target status env w p q r = rw (p, q, r) refl

-- For a machine that is scheduled to another node and has no domain on this host, reconciling
-- lists the domains and does nothing more.
pub reconcile-not_ours :
    (vm : VirtualMachine) (env : Env) (w : World) {me name target : String}
    {status : VirtualMachineStatus} {domains : List String}
    → env.node_name ≡ some me
    → vm.metadata.name ≡ some name
    → vm.status ≡ some status
    → status.scheduled ≡ true
    → status.node ≡ some target
    → (target == me) ≡ false
    → env.hypervisor.domains (Event.list_domains ∷ w.log) ≡ done domains
    → any (λ domain. domain == status.domain_name) domains ≡ false
    → reconcile vm env w ≡ (ok await_change, happen Event.list_domains w)
unfolding reconcile
reconcile-not_ours vm env w {me} {status = status} p q r s t u d a =
    rw (get_event_type-status vm env w p q r, event_type_of-listed vm me _ status env w s t d, u, a)
      refl

missing_case :
    (vm : VirtualMachine) (env : Env) (w : World) {me name : String} {event : EventType}
    {w' : World}
    → env.node_name ≡ some me
    → vm.metadata.name ≡ some name
    → vm.status ≡ none
    → get_event_type vm env w ≡ (ok event, w')
    → Meaning vm env w event
missing_case vm env w p q r e =
    let same : missing_domain_name ≡ _ =
      ok-injective (lift-eq-ok (sym (get_event_type-missing vm env w p q r) ∙ e)).0 in
    subst (λ event. Meaning vm env w event) same r

situated :
    (vm : VirtualMachine) (env : Env) (w : World) (here pending runs gone : Bool)
    → ((event : EventType) → Facts here pending runs gone event → Situation vm env w event)
    → Meaning vm env w (classify here pending runs gone)
situated vm env w true true runs gone h = h inbound_migration (refl, refl)
situated vm env w true false true true h = h deleted (refl, refl, refl)
situated vm env w true false false true h = h deleted (refl, refl, refl)
situated vm env w true false true false h = h updated (refl, refl, refl, refl)
situated vm env w true false false false h = h added (refl, refl, refl, refl)
situated vm env w false pending true gone h = h outbound_migration (refl, refl)
situated vm env w false pending false gone h = h not_ours (refl, refl)

event_type_of-meaning :
    (vm : VirtualMachine) (me : String) (status : VirtualMachineStatus) (env : Env) (w : World)
    {event : EventType} {w' : World}
    → env.node_name ≡ some me
    → vm.status ≡ some status
    → event_type_of vm me status.domain_name status env w ≡ (ok event, w')
    → Meaning vm env w event
unfolding has_domain
event_type_of-meaning vm me status env w {event} p r e = elim (Bool-cases status.scheduled) [
  | inr s ↦
      subst (λ event. Meaning vm env w event) (ok-injective (lift-eq-ok (rw s at e)).0)
        (let found : Meaning vm env w unscheduled = (status, r, s) in found)
  | inl s ↦ elim (Option-cases status.node) [
    | inl t ↦
        subst (λ event. Meaning vm env w event) (ok-injective (lift-eq-ok (rw (s, t) at e)).0)
          (let found : Meaning vm env w no_node = (status, r, s, t) in found)
    | inr (target, t) ↦ elim (Reply-cases (env.hypervisor.domains (Event.list_domains ∷ w.log))) [
      | inl (domains, d) ↦
          subst (λ event. Meaning vm env w event)
            (ok-injective
              (lift-eq-ok (sym (event_type_of-listed vm me target status env w s t d) ∙ e)).0)
            (situated vm env w (target == me) status.migration_pending
              (any (λ domain. domain == status.domain_name) domains)
              (is_some vm.metadata.deletion_timestamp)
              (λ event f. (me, status, target, domains, p, r, s, t, d, f)))
      | inr (x, d) ↦ absurd (let no_value : ⊥ = cc (lift-eq-ok (rw (s, t, d) at e)).0 in no_value)
    ]
  ]
]

-- What each event says, wherever a machine's event is determined: without a status the domain name
-- is missing; otherwise the machine is not scheduled, or has no node, or it is scheduled to a node
-- and libvirt has listed its domains. An inbound migration is pending and has this node for its
-- target. A deletion, an addition and an update are of a machine of this node with no migration
-- pending: deleted if it has a deletion timestamp, else updated or added by whether its domain is
-- here. A machine of another node is an outbound migration if its domain is here, and not ours if
-- not.
pub get_event_type-Meaning :
    (vm : VirtualMachine) (env : Env) (w : World) {event : EventType} {w' : World}
    → get_event_type vm env w ≡ (ok event, w')
    → Meaning vm env w event
unfolding get_event_type
get_event_type-Meaning vm env w e = elim (Option-cases env.node_name) [
  | inl p ↦ absurd (let no_value : ⊥ = cc (lift-eq-ok (rw p at e)).0 in no_value)
  | inr (me, p) ↦ elim (Option-cases vm.metadata.name) [
    | inl q ↦ absurd (let no_value : ⊥ = cc (lift-eq-ok (rw (p, q) at e)).0 in no_value)
    | inr (name, q) ↦ elim (Option-cases vm.status) [
      | inl r ↦ missing_case vm env w p q r e
      | inr (status, r) ↦
          event_type_of-meaning vm me status env w p r
            (sym (get_event_type-status vm env w p q r) ∙ e)
    ]
  ]
]
