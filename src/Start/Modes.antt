-- ===== src/Start/Modes.antt =====
-- The command lines of the workloads that the program deploys.
use cluster_controller.Prelude.{
  String, ◌≡◌, refl, sym, ap, ◌∙◌, false, Bool-cases, inl, inr, some, [], ◌∷◌, split, format,
  IsFree, ◌==◌, eq_iff, map_option, length, arith,
}
use cluster_controller.Metadata.Deployment.{deployment_json}
use cluster_controller.Metadata.Service.Target.{split_target, started_command}
use cluster_controller.Services.HostAgent.{host_daemon_set_json}
use cluster_controller.Start.{mode_of, host_mode, metadata_mode}

-- A target is none of the program's flags.
target_differs :
    (namespace router flag : String)
    → IsFree b'/' namespace
    → IsFree b'/' router
    → split b'/' flag ≡ flag ∷ []
    → (format (namespace ∷ "/" ∷ router ∷ []) == flag) ≡ false
target_differs namespace router flag free free' whole =
    elim (Bool-cases (format (namespace ∷ "/" ∷ router ∷ []) == flag)) [
      | inr no_ ↦ no_
      | inl yes_ ↦ absurd (impossible ((eq_iff _ flag).0 yes_))
    ]
  where
    impossible : format (namespace ∷ "/" ∷ router ∷ []) ≡ flag → ⊥
    impossible same =
        let parts = sym (split_target namespace router free free') ∙ ap (split b'/') same ∙ whole in
        let counts : 2 ≡ 1 = ap length parts in omega (arith, counts)

-- The workloads that the program deploys start it in the mode that they are for: the host
-- controller's daemon set in host mode, and a metadata service's deployment, for a namespace and a
-- router without a slash in their names, in metadata mode.
pub deployed_modes :
    (image namespace router : String)
    → IsFree b'/' namespace
    → IsFree b'/' router
    → (map_option mode_of (started_command (host_daemon_set_json image)) ≡ some host_mode)
      × (map_option mode_of (started_command (deployment_json image namespace router))
          ≡ some metadata_mode)
unfolding mode_of host_daemon_set_json deployment_json split
deployed_modes image namespace router free free' = (
  refl,
  rw
      (
        target_differs namespace router "--version" free free' refl,
        target_differs namespace router "--host" free free' refl,
      )
      refl,
)
