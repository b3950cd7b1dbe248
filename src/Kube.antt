-- ===== src/Kube.antt =====
-- src/utils/traits/kube.rs and the set-status macros of src/utils/shortcuts.rs: writing objects
-- back to the API server, and their finalizers.
pub mod Finalizers
use cluster_controller.Prelude.{
  ℕ, zero, suc, ◌+◌, ◌-◌, ◌*◌, ◌%◌, ◌^◌, ◌≤◌, ◌<◌, String, ◌≡◌, ◌≢◌, ◌⊎◌, inl, inr, refl, sym, ap,
  Bool, true, false, ◌&&◌, ◌||◌, not, Option, none, some, List, [], ◌∷◌, ◌++◌, map, arith, ltb, leb,
  nat_eq, ◌==◌, option_eq, if◌then◌else◌, is_some, get_or, and_then, map_option, length, get_elem?,
  head?, retain, find, any, filter_map, contains, lookup, insert, remove, format, join, split,
  has_substring, ends_with, to_decimal, Bool-cases, Option-cases, eq_iff, All, In,
}
use cluster_controller.Errors.{
  Outcome, ok, err, panic, Error, ok_or, or_default, expect, assert, is_ok, collect, ovn_not_found,
  ovn_conflict, ovn_deserialization_failed,
}
use cluster_controller.Errors
use cluster_controller.Crd.{
  ObjectMeta, VirtualMachine, VirtualMachineStatus, Network, NetworkStatus, Router, RouterStatus,
  Volume, Image,
}
use cluster_controller.World.{
  Ovn, Params, by_position, by_name, Message, request, response, Event, Env, World, M, ◌>>=◌, ◌>>◌,
  lift, observe, ask, pure, fail, try, read, happen, for_each, Object, of_vm, of_network, of_router,
  of_volume, of_image,
}

abbrev pub group_name : String
group_name = "cluster-virt.acl.fi"

-- What the trait's methods use of a namespaced resource.
pub record Resource (A : Type 0) : Type 0 where
  pub meta : A → ObjectMeta
  pub with_meta : A → ObjectMeta → A
  pub object : A → Object

instance abbrev pub vm_resource : Resource VirtualMachine
vm_resource = record {
  meta = λ x. x.metadata;
  with_meta = λ x m. record x { metadata = m };
  object = of_vm;
}

instance abbrev pub network_resource : Resource Network
network_resource = record {
  meta = λ x. x.metadata;
  with_meta = λ x m. record x { metadata = m };
  object = of_network;
}

instance abbrev pub router_resource : Resource Router
router_resource = record {
  meta = λ x. x.metadata;
  with_meta = λ x m. record x { metadata = m };
  object = of_router;
}

instance abbrev pub volume_resource : Resource Volume
volume_resource = record {
  meta = λ x. x.metadata;
  with_meta = λ x m. record x { metadata = m };
  object = of_volume;
}

instance abbrev pub image_resource : Resource Image
image_resource = record {
  meta = λ x. x.metadata;
  with_meta = λ x m. record x { metadata = m };
  object = of_image;
}

abbrev pub full_finalizer : String → String
full_finalizer finalizer_name = format (group_name ∷ "/" ∷ finalizer_name ∷ [])

module _ {A : Type 0} ⦃r : Resource A⦄ where
  -- `commit`: a missing name is a panic in `name_unchecked`.
  unfoldable pub commit : A → String → M (Unit {0})
  commit x field_manager = lift (expect (r.meta x).name) >>= λ name.
      ask (Event.replace (r.object x) field_manager) Error.kube (λ env h. env.kube.write h)

  unfoldable pub has_finalizer : A → String → Bool
  has_finalizer x finalizer_name = elim (r.meta x).finalizers [
    | none ↦ false
    | some finalizers ↦ is_some (find (λ f. f == finalizer_name) finalizers)
  ]

  abbrev pub with_finalizers : A → List String → A
  with_finalizers x finalizers = r.with_meta x (record (r.meta x) { finalizers = some finalizers })

  -- The object with the finalizer, as `ensure_finalizer` writes it.
  abbrev pub push_finalizer : A → String → A
  push_finalizer x name = with_finalizers x (get_or (r.meta x).finalizers [] ++ name ∷ [])

  -- The object without the finalizer, as `remove_finalizer` writes it.
  abbrev pub retain_finalizers : A → String → A
  retain_finalizers x name =
      with_finalizers x (retain (λ f. not (f == name)) (get_or (r.meta x).finalizers []))

  -- These return the object as the method leaves it.
  unfoldable pub ensure_finalizer : A → String → String → M A
  unfolding has_finalizer
  ensure_finalizer x finalizer_name field_manager =
      let name = full_finalizer finalizer_name in
      if has_finalizer x name
      then pure x
      else commit (push_finalizer x name) field_manager >> pure (push_finalizer x name)

  unfoldable pub remove_finalizer : A → String → String → M A
  unfolding has_finalizer
  remove_finalizer x finalizer_name field_manager =
      let name = full_finalizer finalizer_name in
      if has_finalizer x name
      then commit (retain_finalizers x name) field_manager >> pure (retain_finalizers x name)
      else pure x

  abbrev pub namespace_unchecked : A → Outcome String
  namespace_unchecked x = expect (r.meta x).namespace

  unfoldable pub name_prefixed_with_namespace : A → Outcome String
  name_prefixed_with_namespace x = Errors.◌>>=◌ (namespace_unchecked x) λ namespace.
      Errors.◌>>=◌ (expect (r.meta x).name) λ name. ok (format (namespace ∷ "-" ∷ name ∷ []))

  -- `create_set_status_namespaced!`: the object with its new status is written to the status
  -- subresource. A missing name or namespace is a panic.
  abbrev pub write_status : A → Object → M (Unit {0})
  write_status x object = lift (expect (r.meta x).namespace) >>= λ namespace.
      lift (expect (r.meta x).name) >>= λ name.
      ask (Event.replace_status object) Error.kube (λ env h. env.kube.write h)

unfoldable pub set_vm_status : VirtualMachine → VirtualMachineStatus → M (Unit {0})
set_vm_status vm status = write_status vm (of_vm (record vm { status = some status }))

unfoldable pub set_network_status : Network → NetworkStatus → M (Unit {0})
set_network_status network status =
    write_status network (of_network (record network { status = some status }))

unfoldable pub set_router_status : Router → RouterStatus → M (Unit {0})
set_router_status router status =
    write_status router (of_router (record router { status = some status }))

-- `TryStatus::try_status`, for a virtual machine
unfoldable pub try_status : VirtualMachine → Outcome VirtualMachineStatus
try_status vm = elim vm.status [
  | some status ↦ ok status
  | none ↦ err (
      Error.no_status_subresource (
        format (
          "VirtualMachine/"
          ∷ get_or vm.metadata.name ""
          ∷ " in ns "
          ∷ get_or vm.metadata.namespace "<no namespace>"
          ∷ " has no status"
          ∷ [])))
]
