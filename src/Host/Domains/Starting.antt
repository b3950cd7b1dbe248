-- ===== src/Host/Domains/Starting.antt =====
-- When a domain is started.
use mathlib.Core.Path.{subst}
use cluster_controller.Prelude.{
  ℕ, suc, ◌+◌, ◌%◌, ◌^◌, nat_eq, ltb, String, ◌≡◌, ◌⊎◌, inl, inr, refl, sym, ap, ◌∙◌, Bool, true,
  false, List, [], ◌∷◌, some, All, All-map, get_or, format,
}
use cluster_controller.Errors.{Outcome, ok, err, panic, Error, expect, assert, collect, is_ok}
use cluster_controller.Errors
use cluster_controller.Crd.{VirtualMachine, VolumeAttachment, Cluster}
use cluster_controller.World.{
  create_domain as started, Env, World, M, ◌>>=◌, ◌>>◌, lift, ask, continue, to_outcome,
}
use cluster_controller.World.Monad.Inversion.{
  continue-eq-ok, lift-eq-ok, bind-eq-ok, expect-eq-ok, ok-injective, world_of,
}
use cluster_controller.World.Monad.Adding.{
  Reached, Reached-refl, Reached-trans, Reached-Extends, Adding, lift-Adding, then-Adding,
}
use cluster_controller.Templates.{StorageSource, StorageTemplate, DomainTemplate}
use cluster_controller.Kube.{namespace_unchecked, vm_resource}
use cluster_controller.Ceph.Locations.{StorageType, parse_storage_location}
use cluster_controller.Ceph.Locations
use cluster_controller.Host.Domains.{
  source_of, to_storage_source, hardware, storage_template, storage_templates, volumes_locked,
  refuse_locked, domain_template, start_domain, create_domain,
}
use cluster_controller.Host.Domains.Locks.{
  NoStart, SeenFree, WasFree, WasFree-wider, domain_template-Adding, volumes_locked-Adding, reached,
  volumes_locked-free,
}

-- A volume of the machine whose location is in Ceph was seen free, as the image of its name behind
-- the namespace; the location of every volume can be parsed.
abbrev FreeBy : Env → World → World → String → VolumeAttachment → StorageType → Type 0
FreeBy env start end namespace volume Locations.ceph =
    SeenFree env start end "volumes" (format (namespace ∷ "-" ∷ volume.name ∷ []))
FreeBy env start end namespace volume Locations.filesystem = Unit

abbrev pub FreeVolume : Env → World → World → String → VolumeAttachment → Type 0
FreeVolume env start end namespace volume =
    (kind : StorageType) × (location : String) × (parse_storage_location volume.name
      ≡ ok (kind, location))
    × FreeBy env start end namespace volume kind

source-FreeBy :
    (env : Env) (start end : World) (namespace : String) (volume : VolumeAttachment)
    (kind : StorageType) (location : String)
    → WasFree env start end (source_of volume namespace (kind, location))
    → FreeBy env start end namespace volume kind
source-FreeBy env start end namespace volume Locations.ceph location free = free
source-FreeBy env start end namespace volume Locations.filesystem location free = tt

template-source :
    (prefix bus namespace : String) (index : ℕ) (volume : VolumeAttachment)
    {template : StorageTemplate}
    → storage_template prefix bus namespace index volume ≡ ok template
    → (kind : StorageType) × (location : String) × (parse_storage_location volume.name
        ≡ ok (kind, location))
      × (template.source ≡ source_of volume namespace (kind, location))
unfolding to_storage_source
template-source prefix bus namespace index volume h =
    let finish : StorageSource → Outcome StorageTemplate = λ source. ok (record {
      source = source;
      device = (prefix, (b'a' + index) % 2 ^ 8);
      bootdevice = nat_eq index 0;
      bus = bus;
    }) in
    let rest : Unit {0} → Outcome StorageTemplate =
      λ _. Errors.◌>>=◌ (to_storage_source volume namespace) finish in
    let (u, p, q) = bind-eq-ok (assert (ltb index 256)) rest h in
    let (source, p', q') = bind-eq-ok (to_storage_source volume namespace) finish q in
    let (parsed, r, s) =
      bind-eq-ok (parse_storage_location volume.name)
        (λ parsed. ok (source_of volume namespace parsed)) p' in
    (
      parsed.0,
      parsed.1,
      r,
      ap (λ (t : StorageTemplate). t.source) (sym (ok-injective q')) ∙ sym (ok-injective s),
    )

templates-FreeVolume :
    (prefix bus namespace : String) (env : Env) (start end : World)
    (volumes : List VolumeAttachment) (index : ℕ) {templates : List StorageTemplate}
    → storage_templates prefix bus namespace index volumes ≡ ok templates
    → All (λ (t : StorageTemplate). WasFree env start end t.source) templates
    → All (FreeVolume env start end namespace) volumes
unfolding storage_templates
templates-FreeVolume prefix bus namespace env start end [] index h free = tt
templates-FreeVolume prefix bus namespace env start end (volume ∷ rest) index h free =
    let (template, p, q) =
      bind-eq-ok (storage_template prefix bus namespace index volume)
        (λ template.
          Errors.◌>>=◌ (storage_templates prefix bus namespace (suc index) rest)
            λ templates. ok (template ∷ templates))
        h in
    let (templates, p', q') =
      bind-eq-ok (storage_templates prefix bus namespace (suc index) rest)
        (λ templates. ok (template ∷ templates)) q in
    let (kind, location, parsed, same) = template-source prefix bus namespace index volume p in
    let (first, others) =
      subst (All (λ (t : StorageTemplate). WasFree env start end t.source)) (sym (ok-injective q'))
        free in
    (
      (
        kind,
        location,
        parsed,
        source-FreeBy env start end namespace volume kind location
            (subst (WasFree env start end) same first),
      ),
      templates-FreeVolume prefix bus namespace env start end rest (suc index) p' others,
    )

finish-Adding :
    (vm : VirtualMachine) (cluster : Cluster) (model : String) (templates : List StorageTemplate)
    (locked : Bool)
    → Adding NoStart (lift (refuse_locked locked) >> domain_template vm cluster model templates)
finish-Adding vm cluster model templates locked =
    then-Adding NoStart (lift-Adding NoStart (refuse_locked locked))
      (domain_template-Adding vm cluster model templates)

-- Either no domain is started, and then the creation does not return; or one is started, last, and
-- before that every volume was free.
abbrev pub StartsFree : VirtualMachine → Env → World → Outcome (Unit {0}) × World → Type 0
StartsFree vm env w (o, w') =
    (Reached NoStart w' w × (is_ok o ≡ false))
    ⊎ ((xml : String) × (namespace : String) × (u : World) × (w'.log ≡ started xml ∷ u.log)
        × Reached NoStart u w
        × (vm.metadata.namespace ≡ some namespace)
        × All (FreeVolume env w u namespace) vm.spec.volumes)

-- A step before the start.
before_start :
    {A : Type 0} (vm : VirtualMachine) (env : Env) (w : World) (r : Outcome A × World)
    (next : A → M (Unit {0}))
    → Reached NoStart (world_of r) w
    → ((a : A) (v : World)
        → r ≡ (ok a, v)
        → Reached NoStart v w
        → StartsFree vm env w (next a env v))
    → StartsFree vm env w (continue r next env)
before_start vm env w (ok a, v) next reach rest = rest a v refl reach
before_start vm env w (err e, v) next reach rest = inl (reach, refl)
before_start vm env w (panic, v) next reach rest = inl (reach, refl)

starting :
    (vm : VirtualMachine) (env : Env) (w u : World) (namespace : String) (rendered : Outcome String)
    → Reached NoStart u w
    → vm.metadata.namespace ≡ some namespace
    → All (FreeVolume env w u namespace) vm.spec.volumes
    → StartsFree vm env w (
        continue
          (rendered, u)
          (λ xml. ask (started xml) Error.libvirt (λ env h. env.hypervisor.domain_call h))
          env)
starting vm env w u namespace (ok xml) reach in_namespace free =
    inr (xml, namespace, u, refl, reach, in_namespace, free)
starting vm env w u namespace (err e) reach in_namespace free = inl (reach, refl)
starting vm env w u namespace panic reach in_namespace free = inl (reach, refl)

refuse-eq-ok : (b : Bool) {a : Unit {0}} → refuse_locked b ≡ ok a → b ≡ false
refuse-eq-ok true h = absurd (let no_value : ⊥ = cc h in no_value)
refuse-eq-ok false h = refl

-- However the creation of a domain ends, either no domain was started, and then it did not return;
-- or exactly one was, as the last thing that happened, and before that, within the run, the location
-- of every volume of the machine was parsed, and every one that is in Ceph was seen without locks,
-- as the image <namespace>-<volume> of the pool "volumes".
pub create_domain-free :
    (vm : VirtualMachine) (cluster : Cluster) (env : Env) (w : World)
    → StartsFree vm env w (create_domain vm cluster env w)
unfolding create_domain
create_domain-free vm cluster env w =
    let (prefix, bus, model) = hardware (get_or vm.spec.compatibility_mode false) in
    let finish : List StorageTemplate → Bool → M DomainTemplate = λ templates locked.
      lift (refuse_locked locked) >> domain_template vm cluster model templates in
    let check_locks : List StorageTemplate → M (Unit {0}) = λ templates.
      volumes_locked templates >>= λ locked. finish templates locked >>= start_domain in
    let by_templates : String → M (Unit {0}) = λ namespace.
      lift (storage_templates prefix bus namespace 0 vm.spec.volumes) >>= check_locks in
    before_start vm env w (lift (namespace_unchecked vm) env w) by_templates
      (Reached-refl NoStart w)
      λ namespace v1 p1 r1.
        before_start vm env w
          (lift (storage_templates prefix bus namespace 0 vm.spec.volumes) env v1) check_locks r1
          λ templates v2 p2 r2.
            before_start vm env w (volumes_locked templates env v2)
              (λ locked. finish templates locked >>= start_domain)
              (Reached-trans NoStart w v2 (world_of (volumes_locked templates env v2))
                ((volumes_locked-Adding templates).added env v2) r2)
              λ locked v3 p3 r3.
                before_start vm env w (finish templates locked env v3) start_domain
                  (Reached-trans NoStart w v3 (world_of (finish templates locked env v3))
                    ((finish-Adding vm cluster model templates locked).added env v3) r3)
                  λ template v4 p4 r4.
                    let (x, v5, p5, q5) =
                      continue-eq-ok (lift (refuse_locked locked) env v3)
                        (λ _. domain_template vm cluster model templates) env p4 in
                    let free : locked ≡ false = refuse-eq-ok locked (lift-eq-ok p5).0 in
                    let later =
                      Reached-Extends NoStart v4 v3
                        (reached env v3 (finish-Adding vm cluster model templates locked) p4) in
                    starting vm env w v4 namespace
                      (to_outcome Error.template (env.libraries.render template)) r4
                      (expect-eq-ok vm.metadata.namespace (lift-eq-ok p1).0)
                      (templates-FreeVolume prefix bus namespace env w v4 vm.spec.volumes 0
                        (lift-eq-ok p2).0
                        (All-map (λ (t : StorageTemplate). WasFree env v2 v3 t.source)
                          (λ (t : StorageTemplate). WasFree env w v4 t.source)
                          (λ (t : StorageTemplate).
                            WasFree-wider env v2 v3 w v4 (Reached-Extends NoStart v2 w r2) later
                              t.source)
                          templates
                          (volumes_locked-free templates env v2 v3
                            (p3 ∙ ap (λ b. (ok b, v3)) free))))
