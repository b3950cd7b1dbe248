-- ===== src/Tests/Start.antt =====
-- Examples of the theorems about the start of the program: definitions, daemon sets, modes, secrets.
use cluster_controller.Prelude.{String, ◌≡◌, refl, none, some, [], ◌∷◌, map_option, inl}
use cluster_controller.Errors.{api}
use cluster_controller.Workloads.{Definition, modified, added}
use cluster_controller.World.{Event, Env, History, Reply, done, failed, for_each, pure}
use cluster_controller.Metadata.Deployment.{deployment_json}
use cluster_controller.Metadata.Service.Target.{started_command}
use cluster_controller.Install.Readiness.{
  accepted, wait_events, wait_crd_ready, get_namespace_names,
}
use cluster_controller.Install.Readiness.Waiting.{verdict, wait_events-eq-verdict}
use cluster_controller.Install.Migrations.{
  run_migrations, migrate_version, migrate_namespace, remove_crd_version, vm_crd_name,
}
use cluster_controller.Install.Migrations.Moved.{AllMoved}
use cluster_controller.Install.Migrations.Complete.{run_migrations-AllMoved}
use cluster_controller.Install.Definitions.{create_or_upgrade}
use cluster_controller.Install.Definitions.Latest.{Last, applied, create_or_upgrade-Last}
use cluster_controller.Services.HostAgent.{host_daemon_set_json}
use cluster_controller.Start.{mode_of, host_mode, metadata_mode}
use cluster_controller.Start.Modes.{deployed_modes}
use cluster_controller.Tests.Fixtures.{quiet, start, definition}

-- A definition whose names are accepted or not.
abbrev judged : String → Definition
judged verdict = record (definition "d") {
  status = some (record {
    stored_versions = none;
    conditions = some ((record { type_ = "NamesAccepted"; status = verdict }) ∷ []);
  });
}

wait_events-eq-verdict_example :
    wait_events "d"
      (done (added (judged "True")) ∷ done (modified (judged "False")) ∷ failed (api 500) ∷ [])
    ≡ verdict "d" (some (failed (api 500)))
unfolding accepted
wait_events-eq-verdict_example =
    wait_events-eq-verdict "d"
      (done (added (judged "True")) ∷ done (modified (judged "False")) ∷ failed (api 500) ∷ [])

-- A definition that was refused.
abbrev refused : Env
refused = record quiet { kube = record quiet.kube { definition = λ h name. done (judged "False") } }

create_or_upgrade-Last_example :
    Last
      (applied quiet "d" "v2")
      (create_or_upgrade "d" [] "v2" (pure tt) (failed (api 404)) quiet start).1
unfolding wait_crd_ready
create_or_upgrade-Last_example =
    create_or_upgrade-Last "d" [] "v2" (pure tt) (failed (api 404)) quiet start
      (create_or_upgrade "d" [] "v2" (pure tt) (failed (api 404)) quiet start).1 refl

run_migrations-AllMoved_example : AllMoved quiet (run_migrations quiet start).1
unfolding run_migrations migrate_version migrate_namespace remove_crd_version get_namespace_names
    for_each
run_migrations-AllMoved_example =
    run_migrations-AllMoved quiet start (run_migrations quiet start).1 (definition vm_crd_name) _
      refl refl refl (inl refl)

deployed_modes_example :
    (map_option mode_of (started_command (host_daemon_set_json "image")) ≡ some host_mode)
    × (map_option mode_of (started_command (deployment_json "image" "ns" "r")) ≡ some metadata_mode)
deployed_modes_example = deployed_modes "image" "ns" "r" (refl, (refl, tt)) (refl, tt)

-- The secret's value cannot be set.
abbrev calls : History → Reply String (Unit {0})
calls (Event.set_secret_value uuid key ∷ log) = failed "no value"
calls _ = done tt

abbrev half_set : Env
half_set = record quiet { hypervisor = record quiet.hypervisor { domain_call = calls } }
