-- ===== src/Engine/Calls.antt =====
-- Which calls the steps of `wasm_exec_async` and `run_trigger` make: containerd-shim-spin/src/engine.rs.
use containerd_shim_spin.Prelude.{ℕ, String, ◌≡◌, Bool, Option, none, some, List, [], ◌∷◌}
use containerd_shim_spin.Oci.{RuntimeContext}
use containerd_shim_spin.App.{LockedApp, Launch, TriggerKind, CliArgs}
use containerd_shim_spin.Exec.{Call, new_trigger, start_trigger, resolve_address, retain, select}
use containerd_shim_spin.Exec.Makes.{Makes, Makes-bind, makes_rules}
use containerd_shim_spin.Host.{Host}
use containerd_shim_spin.Trigger.{run}
use containerd_shim_spin.Source.Calls.{parse_addr-Makes}
use containerd_shim_spin.Engine.{
  set_envs, run_http, launch, launch_all, select_all, at_index, retain_configured,
}

module _ (H : Host) (Q : Call → Type 0) where
  pub set_envs-Makes : (envs : List String) → Makes Q (set_envs envs)
  unfolding set_envs
  set_envs-Makes [] = search makes_rules
  set_envs-Makes (v ∷ envs) = Makes-bind _ _ (search makes_rules) λ done. set_envs-Makes envs

  pub select_all-Makes :
      (futures : List ℕ) → ((fs : List ℕ) → Q (select fs)) → Makes Q (select_all H futures)
  unfolding select_all
  select_all-Makes [] q = search makes_rules
  select_all-Makes (f ∷ futures) q = search makes_rules

  pub at_index-Makes : (index : ℕ) (found : Option String) → Makes Q (at_index index found)
  at_index-Makes index none = search makes_rules
  at_index-Makes index (some type) = search makes_rules

  pub retain_configured-Makes :
      (found : Option String) (app : LockedApp)
      → ((names : List String) → Q (retain names))
      → Makes Q (retain_configured H found app)
  unfolding retain_configured
  retain_configured-Makes none app q = search makes_rules
  retain_configured-Makes (some s) app q = search makes_rules

  -- The triggers; the hypotheses allow the calls that start one with this AOT setting.
  module _ (ctx : RuntimeContext) (app_id : String) (app : LockedApp) (aot : Bool)
      (created : (kind : TriggerKind) (args : CliArgs) → Q (new_trigger kind args))
      (started : (l : Launch) → l.aot ≡ aot → Q (start_trigger l))
      (resolved : (name : String) → Q (resolve_address name)) where
    run-Makes : (kind : TriggerKind) (args : CliArgs) → Makes Q (run H kind args app_id app aot)
    unfolding run
    run-Makes kind args = search makes_rules depth 12

    run_http-Makes : Makes Q (run_http H ctx app_id app aot)
    unfolding run_http
    run_http-Makes = search (makes_rules, parse_addr-Makes, run-Makes) depth 12

    launch-Makes : (trigger_type : String) → Makes Q (launch H ctx app_id app aot trigger_type)
    unfolding launch
    launch-Makes trigger_type = search (makes_rules, run_http-Makes, run-Makes) depth 14

    pub launch_all-Makes :
        (types : List String) (futures : List ℕ) (launched : List String)
        → Makes Q (launch_all H ctx app_id app aot types futures launched)
    unfolding launch_all
    launch_all-Makes [] futures launched = search makes_rules
    launch_all-Makes (type ∷ types) futures launched =
        Makes-bind _ _ (launch-Makes type) λ f. launch_all-Makes types _ _
