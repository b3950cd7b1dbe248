-- ===== src/Metadata/Service.antt =====
-- src/metadataservice/mod.rs: the router that the service is for, from the command line.
pub mod Target
use cluster_controller.Prelude.{
  ℕ, zero, suc, ◌+◌, String, Option, none, some, List, [], ◌∷◌, head?, get_elem?, split, format,
  ◌==◌, if◌then◌else◌, map_option,
}
use cluster_controller.Errors.{Outcome, ok, panic, expect}
use cluster_controller.Errors

-- `Iterator::position`
abbrev pub position : String → List String → Option ℕ
position wanted [] = none
position wanted (arg ∷ args) =
    let later = position wanted args in if arg == wanted then some 0 else map_option suc later

-- `router_name` of `run`; a missing argument or part is a panic.
unfoldable pub router_name_of : List String → Outcome String
router_name_of args = Errors.◌>>=◌ (expect (position "--metadata-service" args)) λ mode_index.
    Errors.◌>>=◌ (expect (get_elem? args (mode_index + 1))) λ target.
      let parts = split b'/' target in
      Errors.◌>>=◌ (expect (head? parts)) λ namespace.
        Errors.◌>>=◌ (expect (get_elem? parts 1))
          λ router. ok (format (namespace ∷ "-" ∷ router ∷ []))
