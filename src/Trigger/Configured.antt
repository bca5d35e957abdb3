-- ===== src/Trigger/Configured.antt =====
-- What `factors_config` of containerd-shim-spin/src/trigger.rs sets.
use containerd_shim_spin.Prelude.{String, ◌≡◌, refl, Bool, true, false, none, some, if◌then◌else◌}
use containerd_shim_spin.Oci.{runtime_config_path, spin_trigger_working_dir}
use containerd_shim_spin.App.{FactorsConfig, unset}
use containerd_shim_spin.Exec.{World}
use containerd_shim_spin.Trigger.{factors_config}

-- The working and the state directory are the root directory, logs are not written to files, and a
-- runtime configuration can only be the one at its path.
pub record IsConfigured (config : FactorsConfig) : Type 0 where
  pub works_in : config.working_dir ≡ spin_trigger_working_dir
  pub keeps_state_in : config.local_app_dir ≡ some spin_trigger_working_dir
  pub to_stdout : config.log_dir ≡ unset
  pub runtime_config :
      (path : String) → config.runtime_config_file ≡ some path → path ≡ runtime_config_path

given-path :
    (b : Bool) (given path : String) → (if b then some given else none) ≡ some path → path ≡ given
given-path true given path h = cc
given-path false given path h = cc

pub factors_config-IsConfigured : (w : World) → IsConfigured (factors_config w)
unfolding factors_config
factors_config-IsConfigured w = record {
  works_in = refl;
  keeps_state_in = refl;
  to_stdout = refl;
  runtime_config = λ path h. given-path _ runtime_config_path path h;
}
