-- ===== src/Host/Domains/Locks.antt =====
-- What the check for locks before the start of a domain has seen.
use mathlib.Core.Path.{subst}
use cluster_controller.Prelude.{
  String, ◌≡◌, refl, ap, ◌∙◌, Bool, true, false, List, [], ◌∷◌, All, All-map, if◌then◌else◌,
}
use cluster_controller.Errors.{Outcome, ok, expect, collect}
use cluster_controller.Crd.{VirtualMachine, Cluster}
use cluster_controller.World.{Event, create_domain as started, Env, World, M, pure, CephCall}
use cluster_controller.World.Monad.Inversion.{continue-eq-ok, lift-eq-ok, world_of}
use cluster_controller.World.Monad.Growth.{Extends, Extends-refl, Extends-trans}
use cluster_controller.World.Monad.Adding.{
  Reached, Reached-Extends, Adding, lift-Adding, read-Adding, observe-Adding, bind-Adding,
  then-Adding,
}
use cluster_controller.Templates.{StorageSource, ceph_source, filesystem_source, StorageTemplate}
use cluster_controller.Kube.{vm_resource, try_status}
use cluster_controller.Ceph.Calls.{check, call, c_string}
use cluster_controller.Ceph.Lowlevel.{
  connect, get_pool, open_image, locks, has_locks, pool_has_locks,
}
use cluster_controller.Host.Machines.{expect_domain_name, parse_memory}
use cluster_controller.Host.Domains.{volumes_locked, interface_template, domain_template}

-- Any event but the start of a domain.
abbrev pub NoStart : Event → Type 0
NoStart (started xml) = ⊥
NoStart event = Unit

call-Adding : (operation : String) (c : CephCall) → Adding NoStart (call operation c)
unfolding call
call-Adding operation c =
    bind-Adding NoStart
      (observe-Adding NoStart (Event.ceph c) (λ env h. (env.storage.code h, env.storage.handle h))
        tt)
      λ (code, handle).
        then-Adding NoStart (lift-Adding NoStart (check operation code))
          (lift-Adding NoStart (ok handle))

pool_has_locks-Adding : (pool image : String) → Adding NoStart (pool_has_locks pool image)
unfolding pool_has_locks connect get_pool has_locks open_image
pool_has_locks-Adding pool image =
    bind-Adding NoStart
      (bind-Adding NoStart (call-Adding _ _) λ cluster.
        then-Adding NoStart
          (then-Adding NoStart (then-Adding NoStart (call-Adding _ _) (call-Adding _ _))
            (call-Adding _ _))
          (lift-Adding NoStart (ok cluster)))
      λ cluster.
        bind-Adding NoStart
          (bind-Adding NoStart (lift-Adding NoStart (c_string pool)) λ name. call-Adding _ _)
          λ handle.
            bind-Adding NoStart
              (bind-Adding NoStart (lift-Adding NoStart (c_string image)) λ name. call-Adding _ _)
              λ opened.
                bind-Adding NoStart
                  (observe-Adding NoStart (Event.ceph (CephCall.list_lockers opened))
                    (λ env h. (env.storage.code h, env.storage.lockers h)) tt)
                  λ (code, lengths). lift-Adding NoStart (locks code lengths)

pub domain_template-Adding :
    (vm : VirtualMachine) (cluster : Cluster) (model : String) (volumes : List StorageTemplate)
    → Adding NoStart (domain_template vm cluster model volumes)
unfolding domain_template parse_memory
domain_template-Adding vm cluster model volumes =
    bind-Adding NoStart (lift-Adding NoStart (try_status vm)) λ status.
      bind-Adding NoStart (lift-Adding NoStart (collect (interface_template model) status.networks))
        λ nics.
          bind-Adding NoStart
            (bind-Adding NoStart (read-Adding NoStart _) λ memory. lift-Adding NoStart memory)
            λ (amount, unit).
              bind-Adding NoStart (lift-Adding NoStart (expect_domain_name vm)) λ name.
                bind-Adding NoStart (lift-Adding NoStart (expect vm.spec.uuid))
                  λ uuid. lift-Adding NoStart (ok _)

if_locked-Adding :
    (b : Bool) (m : M Bool) → Adding NoStart m → Adding NoStart (if b then pure true else m)
if_locked-Adding true m h = lift-Adding NoStart (ok true)
if_locked-Adding false m h = h

first-Adding :
    (volume : StorageTemplate) (rest : List StorageTemplate) (source : StorageSource)
    → Adding NoStart (volumes_locked rest)
    → volume.source ≡ source
    → Adding NoStart (volumes_locked (volume ∷ rest))
unfolding volumes_locked
first-Adding volume rest (ceph_source pool image) h s = rw s (
    bind-Adding NoStart (pool_has_locks-Adding pool image)
      λ locked. if_locked-Adding locked (volumes_locked rest) h)
first-Adding volume rest (filesystem_source kind location) h s = rw s h

pub volumes_locked-Adding :
    (volumes : List StorageTemplate) → Adding NoStart (volumes_locked volumes)
unfolding volumes_locked
volumes_locked-Adding [] = lift-Adding NoStart (ok false)
volumes_locked-Adding (volume ∷ rest) =
    first-Adding volume rest volume.source (volumes_locked-Adding rest) refl

-- Between two worlds, Ceph was asked for the locks of an image, and there were none.
abbrev pub SeenFree : Env → World → World → String → String → Type 0
SeenFree env start end pool image =
    (v : World) × (v' : World) × (pool_has_locks pool image env v ≡ (ok false, v'))
    × Extends v start
    × Extends end v'

abbrev pub WasFree : Env → World → World → StorageSource → Type 0
WasFree env start end (ceph_source pool image) = SeenFree env start end pool image
WasFree env start end (filesystem_source kind location) = Unit

pub WasFree-wider :
    (env : Env) (start end start' end' : World)
    → Extends start start'
    → Extends end' end
    → (source : StorageSource) → WasFree env start end source
    → WasFree env start' end' source
WasFree-wider env start end start' end' before after (ceph_source pool image)
      (v, v', free, from, to) =
    (v, v', free, Extends-trans start' start v from before, Extends-trans v' end end' after to)
WasFree-wider env start end start' end' before after (filesystem_source kind location) free = tt

free_if :
    (b : Bool) (m : M Bool) (env : Env) (w : World) {w' : World}
    → (if b then pure true else m) env w ≡ (ok false, w')
    → (b ≡ false) × (m env w ≡ (ok false, w'))
free_if true m env w e = absurd (let no_value : ⊥ = cc (lift-eq-ok e).0 in no_value)
free_if false m env w e = (refl, e)

-- What a list that is found free tells of its volumes.
abbrev pub FreeWhenFound : Env → List StorageTemplate → Type 0
FreeWhenFound env volumes =
    (w w' : World)
    → volumes_locked volumes env w ≡ (ok false, w')
    → All (λ (volume : StorageTemplate). WasFree env w w' volume.source) volumes

pub reached :
    {A : Type 0} {m : M A} (env : Env) (w : World) {o : Outcome A} {w' : World}
    → Adding NoStart m
    → m env w ≡ (o, w')
    → Reached NoStart w' w
reached env w h e = subst (λ u. Reached NoStart u w) (ap world_of e) (h.added env w)

first_free :
    (volume : StorageTemplate) (rest : List StorageTemplate) (source : StorageSource) (env : Env)
    → FreeWhenFound env rest
    → volume.source ≡ source
    → FreeWhenFound env (volume ∷ rest)
unfolding volumes_locked
first_free volume rest (ceph_source pool image) env ih s w w' e =
    let (locked, v, p, q) =
      continue-eq-ok (pool_has_locks pool image env w)
        (λ b. if b then pure true else volumes_locked rest) env (rw s at e) in
    let (same, q') = free_if locked (volumes_locked rest) env v q in
    let asked = Reached-Extends NoStart v w (reached env w (pool_has_locks-Adding pool image) p) in
    let later = Reached-Extends NoStart w' v (reached env v (volumes_locked-Adding rest) q') in
    (
      rw s (w, v, p ∙ ap (λ b. (ok b, v)) same, Extends-refl w, later),
      All-map (λ (x : StorageTemplate). WasFree env v w' x.source)
          (λ (x : StorageTemplate). WasFree env w w' x.source)
          (λ (x : StorageTemplate). WasFree-wider env v w' w w' asked (Extends-refl w') x.source)
          rest (ih v w' q'),
    )
first_free volume rest (filesystem_source kind location) env ih s w w' e =
    (rw s tt, ih w w' (rw s at e))

pub volumes_locked-free : (volumes : List StorageTemplate) (env : Env) → FreeWhenFound env volumes
volumes_locked-free [] env w w' e = tt
volumes_locked-free (volume ∷ rest) env w w' e =
    first_free volume rest volume.source env (volumes_locked-free rest env) refl w w' e
