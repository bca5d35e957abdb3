-- ===== src/Engine/Arms.antt =====
-- The match on the trigger's type in `run_trigger` of containerd-shim-spin/src/engine.rs.
use containerd_shim_spin.Prelude.{ℕ, String, ◌≡◌, Bool, true, false, arith, eq_comm, ◌==◌, if_cases}
use containerd_shim_spin.Oci.{RuntimeContext}
use containerd_shim_spin.App.{
  LockedApp, TriggerKind, CliArgs, redis, sqs, command, mqtt, no_cli_args, command_args, mqtt_args,
}
use containerd_shim_spin.Exec.{panic, unreachable_code, Exec, await}
use containerd_shim_spin.Host.{Host}
use containerd_shim_spin.Trigger.{run, contains, supported_triggers}
use containerd_shim_spin.Engine.{run_http, launch}

pub known_nowhere :
    (H : Host) (type : String)
    → (type == H.http_trigger_type) ≡ false
    → (type == H.redis_trigger_type) ≡ false
    → (type == H.sqs_trigger_type) ≡ false
    → (type == H.command_trigger_type) ≡ false
    → (type == H.mqtt_trigger_type) ≡ false
    → contains (supported_triggers H) type ≡ false
unfolding supported_triggers
known_nowhere H type not_http not_redis not_sqs not_command not_mqtt = ground (
  arith,
  eq_comm type H.http_trigger_type,
  eq_comm type H.redis_trigger_type,
  eq_comm type H.sqs_trigger_type,
  eq_comm type H.command_trigger_type,
  eq_comm type H.mqtt_trigger_type,
)

-- What holds of each arm holds of the match; the last arm is for unsupported types.
pub launch_arms :
    (H : Host) (ctx : RuntimeContext) (app_id : String) (app : LockedApp) (aot : Bool)
    (type : String) (Q : Exec ℕ → Type 0)
    → Q (await (run_http H ctx app_id app aot))
    → ((kind : TriggerKind) (args : CliArgs) → Q (await (run H kind args app_id app aot)))
    → (contains (supported_triggers H) type ≡ false → Q (panic unreachable_code))
    → Q (launch H ctx app_id app aot type)
unfolding launch
launch_arms H ctx app_id app aot type Q http started last =
    if_cases Q _ _ _ (λ _. http)
      λ not_http.
        if_cases Q _ _ _ (λ _. started _ _)
          λ not_redis.
            if_cases Q _ _ _ (λ _. started _ _)
              λ not_sqs.
                if_cases Q _ _ _ (λ _. started _ _)
                  λ not_command.
                    if_cases Q _ _ _ (λ _. started _ _)
                      λ not_mqtt.
                        last (known_nowhere H type not_http not_redis not_sqs not_command not_mqtt)

-- The same with the kind and the arguments of each arm.
pub launch_each :
    (H : Host) (ctx : RuntimeContext) (app_id : String) (app : LockedApp) (aot : Bool)
    (type : String) (Q : Exec ℕ → Type 0)
    → Q (await (run_http H ctx app_id app aot))
    → Q (await (run H redis no_cli_args app_id app aot))
    → Q (await (run H sqs no_cli_args app_id app aot))
    → Q (await (run H command (command_args ctx.args) app_id app aot))
    → Q (await (run H mqtt (mqtt_args false) app_id app aot))
    → Q (panic unreachable_code)
    → Q (launch H ctx app_id app aot type)
unfolding launch
launch_each H ctx app_id app aot type Q on_http on_redis on_sqs on_command on_mqtt last =
    if_cases Q (type == H.http_trigger_type) _ _ (λ _. on_http)
      λ _.
        if_cases Q (type == H.redis_trigger_type) _ _ (λ _. on_redis)
          λ _.
            if_cases Q (type == H.sqs_trigger_type) _ _ (λ _. on_sqs)
              λ _.
                if_cases Q (type == H.command_trigger_type) _ _ (λ _. on_command)
                  λ _. if_cases Q (type == H.mqtt_trigger_type) _ _ (λ _. on_mqtt) λ _. last

-- For a supported type the last arm is not reached.
pub launch_cases :
    (H : Host) (ctx : RuntimeContext) (app_id : String) (app : LockedApp) (aot : Bool)
    (type : String) (Q : Exec ℕ → Type 0)
    → Q (await (run_http H ctx app_id app aot))
    → ((kind : TriggerKind) (args : CliArgs) → Q (await (run H kind args app_id app aot)))
    → contains (supported_triggers H) type ≡ true
    → Q (launch H ctx app_id app aot type)
launch_cases H ctx app_id app aot type Q http started known =
    launch_arms H ctx app_id app aot type Q http started (λ unknown. cc)
