-- ===== src/Tests/Host.antt =====
-- Examples of the theorems about hosts and storage.
use cluster_controller.Prelude.{ℕ, In, ◌↔◌, ◌≡◌, refl, none, some, [], ◌∷◌, split, ends_with}
use cluster_controller.Errors.{ok, err, Error}
use cluster_controller.World.{Event, happen, for_each, for_each}
use cluster_controller.Kube.{try_status}
use cluster_controller.Templates.{ceph_source, filesystem_source}
use cluster_controller.Ceph.Calls.{call, call_void, c_string}
use cluster_controller.Ceph.Lowlevel.{
  connect, disconnect, get_pool, close_pool, get_images, create_image, remove_image,
  null_separated_to_vec, has_locks, open_image, locks, pool_has_locks,
}
use cluster_controller.Ceph.Lowlevel.Names.{null_separated_to_vec-encode}
use cluster_controller.Ceph.Locations.{parse_storage_location}
use cluster_controller.Ceph.Locations
use cluster_controller.Ceph.Locations.Parsing.{parse-print}
use cluster_controller.Ceph.Volumes.{ensure_exists, ensure_removed}
use cluster_controller.Ceph.Handles.{opened, closed, ensure_exists-balanced, ensure_removed-leaks}
use cluster_controller.Host.Machines.{get_domain_name, expect_domain_name, parse_memory}
use cluster_controller.Host.Evpn.{map_vlan, vlans_of, ensure_vni_mapping}
use cluster_controller.Host.Evpn.Commands.{Mapped, HasVlan, ensure_vni_mapping-log}
use cluster_controller.Host.Domains.{
  to_storage_source, storage_templates, volumes_locked, domain_template, create_domain, has_domain,
}
use cluster_controller.World.Monad.Inversion.{world_of}
use cluster_controller.Host.Domains.Starting.{StartsFree, create_domain-free}
use cluster_controller.Host.Domains.Volumes.{to_storage_source-print}
use cluster_controller.Host.Controller.{not_ours, get_event_type}
use cluster_controller.Host.Controller.Decision.{Meaning, get_event_type-Meaning}
use cluster_controller.Tests.Fixtures.{nic, quiet, start, on_a, cluster}

create_domain-free_example : StartsFree on_a quiet start (create_domain on_a cluster quiet start)
create_domain-free_example = create_domain-free on_a cluster quiet start

-- A domain is started there.
create_domain_starts : create_domain on_a cluster quiet start ≡ (
  ok tt,
  happen
      (Event.create_domain "<domain/>")
      (world_of (pool_has_locks "volumes" "ns-disk" quiet start)),
)
unfolding split create_domain storage_templates to_storage_source parse_storage_location
    volumes_locked pool_has_locks connect get_pool has_locks open_image locks c_string call
    domain_template parse_memory expect_domain_name get_domain_name try_status
create_domain_starts = refl

get_event_type-Meaning_example : Meaning on_a quiet start not_ours
unfolding get_event_type get_domain_name try_status has_domain
get_event_type-Meaning_example = get_event_type-Meaning on_a quiet start refl

ensure_vni_mapping-log_example :
    Mapped quiet start (ensure_vni_mapping on_a quiet start).1 (5 ∷ [])
    × ((vlan : ℕ) → In vlan (5 ∷ []) ↔ HasVlan (nic ∷ []) vlan)
unfolding ensure_vni_mapping vlans_of map_vlan for_each
ensure_vni_mapping-log_example = ensure_vni_mapping-log on_a quiet start refl

to_storage_source-print_example :
    (to_storage_source (record { name = "d" }) "ns" ≡ ok (ceph_source "volumes" "ns-d"))
    × (to_storage_source (record { name = "fs:d" }) "ns" ≡ ok (filesystem_source "raw" "d"))
    × (to_storage_source (record { name = "ceph:d" }) "ns" ≡ ok (ceph_source "volumes" "ns-ceph:d"))
unfolding ends_with
to_storage_source-print_example = to_storage_source-print "d" "ns" (refl, tt)

parse-print_example :
    (parse_storage_location "d" ≡ ok (Locations.ceph, "d"))
    × (parse_storage_location "fs:d" ≡ ok (Locations.filesystem, "d"))
    × (parse_storage_location "a:b:c:" ≡ err (Error.storage_location_parse "a:b:c:"))
parse-print_example =
    parse-print Locations.filesystem "d" "a" "b" "c:" (refl, tt) (refl, tt) (refl, tt)

null_separated_to_vec-encode_example :
    null_separated_to_vec (λ bytes. some "a") (97 ∷ 0 ∷ 0 ∷ 0 ∷ []) ≡ ok ("a" ∷ [])
null_separated_to_vec-encode_example =
    null_separated_to_vec-encode (λ bytes. some "a") ((97 ∷ []) ∷ []) ("a" ∷ []) (0 ∷ [])
      (((λ e. absurd (let no_value : ⊥ = cc e in no_value)), (refl, tt)), tt) (refl, tt)

ensure_exists-balanced_example :
    (opened (ensure_exists "ns-d" 1 none quiet start).1 ≡ 2)
    × (closed (ensure_exists "ns-d" 1 none quiet start).1 ≡ 2)
unfolding ensure_exists connect get_pool get_images null_separated_to_vec create_image close_pool
    disconnect c_string call call_void
ensure_exists-balanced_example = ensure_exists-balanced "ns-d" 1 none quiet start refl

ensure_removed-leaks_example :
    (opened (ensure_removed "ns-d" quiet start).1 ≡ 1)
    × (closed (ensure_removed "ns-d" quiet start).1 ≡ 0)
unfolding ensure_removed connect get_pool get_images null_separated_to_vec remove_image c_string
    call
ensure_removed-leaks_example = ensure_removed-leaks "ns-d" quiet start refl
