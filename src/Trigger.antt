-- ===== src/Trigger.antt =====
-- containerd-shim-spin/src/trigger.rs
pub mod Configured
pub mod Supported
pub mod Unordered
use containerd_shim_spin.Prelude.{
  ℕ, String, Bool, not, ◌||◌, Option, none, some, List, [], ◌∷◌, is_some, any, if◌then◌else◌, ◌==◌,
}
use containerd_shim_spin.Prelude.Maps.{lookup}
use containerd_shim_spin.Text.{parse_unsigned}
use containerd_shim_spin.Oci.{runtime_config_path, spin_trigger_working_dir}
use containerd_shim_spin.App.{
  LockedApp, LockedTrigger, TriggerKind, CliArgs, FactorsConfig, Launch, unset,
}
use containerd_shim_spin.Exec.{
  Result, ok, err, unsupported_trigger, World, Exec, pure, await, call, ◌>>=◌, ◌>>◌, get_var,
  new_trigger, start_trigger, gets,
}
use containerd_shim_spin.Host.{Host}

-- `HashSet::contains`, and a `HashSet` as the list of its members.
abbrev pub contains : List String → String → Bool
contains members s = any (λ member. member == s) members

abbrev pub hash_insert : String → List String → List String
hash_insert s members = if contains members s then members else s ∷ members

abbrev pub insert_type : String → Result (List String) → Result (List String)
insert_type trigger_type (ok types) = ok (hash_insert trigger_type types)
insert_type trigger_type (err e) = err e

-- `Path::exists`
abbrev exists : World → String → Bool
exists w path = is_some (lookup path w.files)

unfoldable pub factors_config : World → FactorsConfig
unfolding lookup
factors_config w = record {
  working_dir = spin_trigger_working_dir;
  runtime_config_file = if exists w runtime_config_path then some runtime_config_path else none;
  local_app_dir = some spin_trigger_working_dir;
  log_dir = unset;
}

module _ (H : Host) where
  -- The `max_instance_memory` of the builder's arguments, from `SPIN_MAX_INSTANCE_MEMORY`.
  unfoldable pub max_instance_memory : Option String → Option ℕ
  max_instance_memory (some limit) = parse_unsigned H.memory_bound limit
  max_instance_memory none = H.default_max_instance_memory

  unfoldable pub start : Launch → Exec ℕ
  start launch = await (call (start_trigger launch) (λ w. H.run_trigger_app w launch))

  -- `run`, with the type parameter as `kind` and the loader as `aot`.
  unfoldable pub run : TriggerKind → CliArgs → String → LockedApp → Bool → Exec ℕ
  unfolding max_instance_memory start
  run kind cli_args app_id app aot = do
    call (new_trigger kind cli_args) (λ w. H.new_trigger w kind cli_args app)
    limit ← get_var "SPIN_MAX_INSTANCE_MEMORY"
    config ← gets factors_config
    start (record {
      kind = kind;
      cli_args = cli_args;
      app_id = app_id;
      app = app;
      config = config;
      max_instance_memory = max_instance_memory limit;
      aot = aot;
    })

  unfoldable pub supported_triggers : List String
  supported_triggers =
      H.http_trigger_type ∷ H.redis_trigger_type ∷ H.sqs_trigger_type ∷ H.command_trigger_type
      ∷ H.mqtt_trigger_type ∷ []

  -- The map over the triggers and its `collect`, which ends at the first error.
  unfoldable pub collect_triggers : List LockedTrigger → Result (List String)
  collect_triggers [] = ok []
  collect_triggers (trigger ∷ triggers) =
      let rest = collect_triggers triggers in
      if not (contains supported_triggers trigger.trigger_type)
      then err (unsupported_trigger trigger.trigger_type)
      else insert_type trigger.trigger_type rest

  unfoldable pub get_supported_triggers : LockedApp → Result (List String)
  unfolding collect_triggers
  get_supported_triggers locked_app = collect_triggers locked_app.triggers
