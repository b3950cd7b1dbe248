-- ===== src/Host/Domains/Volumes.antt =====
-- Where the volumes of a domain are.
use cluster_controller.Prelude.{
  String, ◌≡◌, refl, [], ◌∷◌, if◌then◌else◌, format, ends_with, IsFree,
}
use cluster_controller.Errors.{ok}
use cluster_controller.Templates.{ceph_source, filesystem_source}
use cluster_controller.Kube.{vm_resource}
use cluster_controller.Ceph.Locations.{parse_storage_location}
use cluster_controller.Ceph.Locations
use cluster_controller.Ceph.Locations.Parsing.{parse-print, print}
use cluster_controller.Host.Domains.{to_storage_source}

-- A volume without a scheme and a volume "fs:..." are found where the name says; a volume
-- "ceph:..." gives an image whose name still has the scheme.
pub to_storage_source-print :
    (name namespace : String)
    → IsFree b':' name
    → (to_storage_source (record { name = name }) namespace
        ≡ ok (ceph_source "volumes" (format (namespace ∷ "-" ∷ name ∷ []))))
      × (to_storage_source (record { name = print Locations.filesystem name }) namespace
          ≡ ok (filesystem_source (if ends_with name ".qcow2" then "qcow2" else "raw") name))
      × (to_storage_source (record { name = print Locations.ceph name }) namespace
          ≡ ok (ceph_source "volumes" (format (namespace ∷ "-" ∷ print Locations.ceph name ∷ []))))
unfolding to_storage_source
to_storage_source-print name namespace h =
    let (plain, fs, more) = parse-print Locations.filesystem name "" "" "" h tt tt in
    let (plain', ceph, more') = parse-print Locations.ceph name "" "" "" h tt tt in
    (rw plain refl, rw fs refl, rw ceph refl)
