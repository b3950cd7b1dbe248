-- ===== src/Host/Evpn/Commands.antt =====
-- The commands that a mapping consists of, and how they ended.
use mathlib.Core.Path.{subst}
use mathlib.Core.List.{append_assoc}
use cluster_controller.Prelude.{
  ℕ, String, ◌≡◌, ◌⊎◌, inl, inr, refl, sym, ap, Bool, true, false, not, ◌&&◌, ◌||◌, ◌==◌, Option,
  none, some, List, [], ◌∷◌, ◌++◌, ◌∙◌, In, ◌↔◌, get_or, option_eq, get_elem?, to_decimal,
  if◌then◌else◌,
}
use cluster_controller.Errors.{Outcome, ok, err, panic, Error}
use cluster_controller.Crd.{VirtualMachine, NetworkAttachment}
use cluster_controller.World.{
  Event, Env, World, CommandOutput, Reply, done, failed, happen, continue, to_outcome, for_each,
  lift, ◌>>=◌, ◌>>◌, M,
}
use cluster_controller.World.Monad.Inversion.{continue-eq-ok, lift-eq-ok}
use cluster_controller.World.Monad.Trace.{extend}
use cluster_controller.World.Monad.Performance.{AllWentWell, AllWentWell-append}
use cluster_controller.Host.Evpn.{
  add_to_bridge, add_to_vxlan, set_tunnel_info, output, mapping_failed, check_success, check_tunnel,
  map_vlan, untagged, vlans_of, attached, ensure_vni_mapping,
}

abbrev pub bridge_command : List String → Event
bridge_command args = Event.run_command ("/usr/sbin/bridge" ∷ "vlan" ∷ "add" ∷ "dev" ∷ args)

-- The three commands of a VLAN, the last one first.
abbrev pub commands : ℕ → List Event
commands vlan =
    bridge_command
      ("vxlan0" ∷ "vid" ∷ to_decimal vlan ∷ "tunnel_info" ∷ "id" ∷ to_decimal vlan ∷ [])
    ∷ bridge_command ("vxlan0" ∷ "vid" ∷ to_decimal vlan ∷ [])
    ∷ bridge_command ("br0" ∷ "vid" ∷ to_decimal vlan ∷ "self" ∷ [])
    ∷ []

-- Those of some VLANs, the last one first.
abbrev pub all_commands : List ℕ → List Event
all_commands [] = []
all_commands (vlan ∷ vlans) = all_commands vlans ++ commands vlan

-- Setting the tunnel may say that it is there.
abbrev pub tunnel_is_there : List String → String → Bool
tunnel_is_there args stderr =
    option_eq (get_elem? args 7) (some "tunnel_info")
    && stderr == "RTNETLINK answers: File exists\n"

-- A VLAN of one of the interfaces, tagged or not.
abbrev pub HasVlan : List NetworkAttachment → ℕ → Type 0
HasVlan nics vlan =
    (nic : NetworkAttachment) × In nic nics
    × (((tags : List ℕ) × (nic.tagged_vlans ≡ some tags) × In vlan tags)
        ⊎ (nic.untagged_vlan ≡ some vlan))

checked :
    (success : Bool) (step : String) (out : CommandOutput) {a : Unit {0}}
    → (if success then ok tt else err (mapping_failed step out)) ≡ ok a
    → success ≡ true
checked true step out h = refl
checked false step out h = absurd (let no_value : ⊥ = cc h in no_value)

checked_tunnel :
    (success there : Bool) (out : CommandOutput) {a : Unit {0}}
    → (if not success && not there then err (mapping_failed "set_tunnel_info" out) else ok tt)
      ≡ ok a
    → (success || there) ≡ true
checked_tunnel true there out h = refl
checked_tunnel false true out h = refl
checked_tunnel false false out h = absurd (let no_value : ⊥ = cc h in no_value)

-- A command whose output is checked before the next step.
by_check :
    {B C : Type 0} (result : Outcome (Unit {0})) (m : M B) (g : B → M C) (env : Env) (u : World)
    {c : C} {w' : World}
    → continue (continue (result, u) (λ _. m) env) g env ≡ (ok c, w')
    → (result ≡ ok tt) × ((m >>= g) env u ≡ (ok c, w'))
by_check (ok a) m g env u h = (refl, h)
by_check (err e) m g env u h = absurd (let no_value : ⊥ = cc (lift-eq-ok h).0 in no_value)
by_check panic m g env u h = absurd (let no_value : ⊥ = cc (lift-eq-ok h).0 in no_value)

by_reply :
    {B C : Type 0} (reply : Reply String CommandOutput) (check : CommandOutput → Outcome (Unit {0}))
    (m : M B) (g : CommandOutput → B → M C) (env : Env) (u : World) {c : C} {w' : World}
    → continue (to_outcome Error.io reply, u) (λ out. (lift (check out) >> m) >>= g out) env
      ≡ (ok c, w')
    → (out : CommandOutput) × (reply ≡ done out)
      × (check out ≡ ok tt)
      × ((m >>= g out) env u ≡ (ok c, w'))
by_reply (done out) check m g env u h =
    let (good, rest) = by_check (check out) m (g out) env u h in (out, refl, good, rest)
by_reply (failed e) check m g env u h = absurd (let no_value : ⊥ = cc (lift-eq-ok h).0 in no_value)

last_reply :
    (reply : Reply String CommandOutput) (check : CommandOutput → Outcome (Unit {0})) (env : Env)
    (u : World) {a : Unit {0}} {w' : World}
    → continue (to_outcome Error.io reply, u) (λ out. lift (check out)) env ≡ (ok a, w')
    → (out : CommandOutput) × (reply ≡ done out) × (check out ≡ ok a) × (w' ≡ u)
last_reply (done out) check env u h = (out, refl, (lift-eq-ok h).0, sym (lift-eq-ok h).1)
last_reply (failed e) check env u h = absurd (let no_value : ⊥ = cc (lift-eq-ok h).0 in no_value)

map_vlan-well :
    (vlan : ℕ) (env : Env) (w : World) (a : Unit {0}) (w' : World)
    → map_vlan vlan env w ≡ (ok a, w')
    → (w' ≡ extend (commands vlan) w) × AllWentWell tunnel_is_there env w.log (commands vlan)
unfolding map_vlan
map_vlan-well vlan env w a w' h =
    let e1 = Event.run_command (add_to_bridge vlan) in
    let e2 = Event.run_command (add_to_vxlan vlan) in
    let e3 = Event.run_command (set_tunnel_info vlan) in
    let third : CommandOutput → CommandOutput → M (Unit {0}) =
      λ _ tunnel. lift (check_tunnel tunnel) in
    let second : CommandOutput → CommandOutput → M (Unit {0}) = λ _ on_vxlan.
      (lift (check_success "add_to_vxlan" on_vxlan) >> output (set_tunnel_info vlan))
      >>= third on_vxlan in
    let (o1, r1, c1, h1) =
      by_reply (env.run_command (e1 ∷ w.log)) (check_success "add_to_bridge")
        (output (add_to_vxlan vlan)) second env (happen e1 w) h in
    let (o2, r2, c2, h2) =
      by_reply (env.run_command (e2 ∷ e1 ∷ w.log)) (check_success "add_to_vxlan")
        (output (set_tunnel_info vlan)) third env (happen e2 (happen e1 w)) h1 in
    let (o3, r3, c3, same) =
      last_reply (env.run_command (e3 ∷ e2 ∷ e1 ∷ w.log)) check_tunnel env
        (happen e3 (happen e2 (happen e1 w))) h2 in
    (
      same,
      (
        (o3, r3, checked_tunnel o3.success (o3.stderr == "RTNETLINK answers: File exists\n") o3 c3),
        (
          (o2, r2, rw (checked o2.success "add_to_vxlan" o2 c2) refl),
          ((o1, r1, rw (checked o1.success "add_to_bridge" o1 c1) refl), tt),
        ),
      ),
    )

In-front : (x : ℕ) (xs ys : List ℕ) → In x xs → In x (xs ++ ys)
In-front x [] ys m = absurd m.1
In-front x (y ∷ xs) ys (inl e) = inl e
In-front x (y ∷ xs) ys (inr m) = inr (In-front x xs ys m)

In-back : (x : ℕ) (xs ys : List ℕ) → In x ys → In x (xs ++ ys)
In-back x [] ys m = m
In-back x (y ∷ xs) ys m = inr (In-back x xs ys m)

In-cases : (x : ℕ) (xs ys : List ℕ) → In x (xs ++ ys) → In x xs ⊎ In x ys
In-cases x [] ys m = inr m
In-cases x (y ∷ xs) ys (inl e) = inl (inl e)
In-cases x (y ∷ xs) ys (inr m) = elim (In-cases x xs ys m) [
  | inl front ↦ inl (inr front)
  | inr back ↦ inr back
]

tagged_of :
    (tags : Option (List ℕ)) (vlan : ℕ)
    → In vlan (get_or tags [])
    → (known : List ℕ) × (tags ≡ some known) × In vlan known
tagged_of none vlan m = absurd m.1
tagged_of (some tags) vlan m = (tags, refl, m)

untagged_of : (tag : Option ℕ) (vlan : ℕ) → In vlan (untagged tag) → tag ≡ some vlan
untagged_of none vlan m = absurd m.1
untagged_of (some tag) vlan (inl e) = ap some (sym e)
untagged_of (some tag) vlan (inr m) = absurd m.1

vlans_of-HasVlan :
    (nics : List NetworkAttachment) (vlan : ℕ) → In vlan (vlans_of nics) → HasVlan nics vlan
unfolding vlans_of
vlans_of-HasVlan [] vlan m = absurd m.1
vlans_of-HasVlan (nic ∷ nics) vlan m =
    let tags = get_or nic.tagged_vlans [] in
    elim (In-cases vlan (tags ++ untagged nic.untagged_vlan) (vlans_of nics) m) [
      | inl own ↦ elim (In-cases vlan tags (untagged nic.untagged_vlan) own) [
        | inl tagged ↦ (nic, inl refl, inl (tagged_of nic.tagged_vlans vlan tagged))
        | inr tag ↦ (nic, inl refl, inr (untagged_of nic.untagged_vlan vlan tag))
      ]
      | inr later ↦ let (other, i, has) = vlans_of-HasVlan nics vlan later in (other, inr i, has)
    ]

own_vlan :
    (nic : NetworkAttachment) (vlan : ℕ)
    → ((tags : List ℕ) × (nic.tagged_vlans ≡ some tags) × In vlan tags)
      ⊎ (nic.untagged_vlan ≡ some vlan)
    → In vlan (get_or nic.tagged_vlans [] ++ untagged nic.untagged_vlan)
own_vlan nic vlan (inl (tags, e, m)) =
    In-front vlan (get_or nic.tagged_vlans []) (untagged nic.untagged_vlan) (rw e m)
own_vlan nic vlan (inr e) =
    In-back vlan (get_or nic.tagged_vlans []) (untagged nic.untagged_vlan) (rw e (inl refl))

HasVlan-vlans_of :
    (nics : List NetworkAttachment) (vlan : ℕ) → HasVlan nics vlan → In vlan (vlans_of nics)
unfolding vlans_of
HasVlan-vlans_of [] vlan (nic, m, has) = absurd m.1
HasVlan-vlans_of (first ∷ nics) vlan (nic, inl same, has) =
    In-front vlan (get_or first.tagged_vlans [] ++ untagged first.untagged_vlan) (vlans_of nics) (
      own_vlan first vlan (
        subst
          (λ (x : NetworkAttachment).
            ((tags : List ℕ) × (x.tagged_vlans ≡ some tags) × In vlan tags)
            ⊎ (x.untagged_vlan ≡ some vlan))
          same has))
HasVlan-vlans_of (first ∷ nics) vlan (nic, inr m, has) =
    In-back vlan (get_or first.tagged_vlans [] ++ untagged first.untagged_vlan) (vlans_of nics)
      (HasVlan-vlans_of nics vlan (nic, m, has))

for_each-well :
    (vlans : List ℕ) (env : Env) (w : World) {w' : World}
    → for_each map_vlan vlans env w ≡ (ok tt, w')
    → (w' ≡ extend (all_commands vlans) w)
      × AllWentWell tunnel_is_there env w.log (all_commands vlans)
unfolding for_each
for_each-well [] env w e = (sym (lift-eq-ok e).1, tt)
for_each-well (vlan ∷ vlans) env w {w'} e =
    let (u, v, p, q) = continue-eq-ok (map_vlan vlan env w) (λ _. for_each map_vlan vlans) env e in
    let (same, well) = map_vlan-well vlan env w u v p in
    let (later, well') = for_each-well vlans env v q in
    (
      later
          ∙ ap (extend (all_commands vlans)) same
          ∙ ap (λ l. record w { log = l })
              (sym (append_assoc (all_commands vlans) (commands vlan) w.log)),
      AllWentWell-append tunnel_is_there env w.log (commands vlan) (all_commands vlans) well (
          subst (λ (x : World). AllWentWell tunnel_is_there env x.log (all_commands vlans)) same
            well'),
    )

-- The commands of these VLANs, in order, were run from one world to the other, and nothing else.
abbrev pub Mapped : Env → World → World → List ℕ → Type 0
Mapped env w w' vlans =
    (w' ≡ extend (all_commands vlans) w)
    × AllWentWell tunnel_is_there env w.log (all_commands vlans)

-- When the mapping has been made, exactly these commands have been run, for each VLAN of the
-- machine's interfaces in order: it is added to the bridge, then to the VXLAN interface, then its
-- tunnel is set; nothing else has happened. Every command was started and succeeded, but that the
-- one that sets a tunnel may have said that it exists. The VLANs are exactly the tagged and untagged
-- ones of the interfaces.
pub ensure_vni_mapping-log :
    (vm : VirtualMachine) (env : Env) (w : World) {w' : World}
    → ensure_vni_mapping vm env w ≡ (ok tt, w')
    → Mapped env w w' (vlans_of (attached vm.status))
      × ((vlan : ℕ) → In vlan (vlans_of (attached vm.status)) ↔ HasVlan (attached vm.status) vlan)
unfolding ensure_vni_mapping
ensure_vni_mapping-log vm env w e = (
  for_each-well (vlans_of (attached vm.status)) env w e,
  λ vlan. (vlans_of-HasVlan (attached vm.status) vlan, HasVlan-vlans_of (attached vm.status) vlan),
)
