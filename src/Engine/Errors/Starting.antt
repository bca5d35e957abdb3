-- ===== src/Engine/Errors/Starting.antt =====
-- How starting a trigger in containerd-shim-spin/src/engine.rs may fail.
use containerd_shim_spin.Prelude.{ℕ, String, ◌≡◌, refl, Bool, List, [], ◌∷◌}
use containerd_shim_spin.Oci.{RuntimeContext}
use containerd_shim_spin.App.{LockedApp, TriggerKind, CliArgs, Launch, SocketAddr}
use containerd_shim_spin.Exec.{
  Error, unparsed_address, Result, ok, err, World, pure, fail, call, continue, of_result, ◌>>=◌,
}
use containerd_shim_spin.Exec.Fails.{
  Failed, FailsBy, Refuses, Fails-pure, Fails-panic, Fails-call, Fails-gets, Fails-await,
  Fails-bind,
}
use containerd_shim_spin.Host.{Host}
use containerd_shim_spin.Utils.{parse_addr, first_addr}
use containerd_shim_spin.Trigger.{run, get_supported_triggers}
use containerd_shim_spin.Trigger
use containerd_shim_spin.Engine.{run_http, launch, launch_all}
use containerd_shim_spin.Engine.Arms.{launch_arms}

module _ (H : Host) where
  -- Why a trigger could not be started: its address, the trigger itself, or its app.
  pub data IsStartError : Error → Type 0 where
    not_found :
        {e : Error} (addr : String) → Refuses (λ w. H.to_socket_addrs w addr) e → IsStartError e
    no_address :
        (addr : String)
        → (w : World) × (H.to_socket_addrs w addr ≡ ok [])
        → IsStartError (unparsed_address addr)
    not_created :
        {e : Error} (kind : TriggerKind) (args : CliArgs) (app : LockedApp)
        → Refuses (λ w. H.new_trigger w kind args app) e
        → IsStartError e
    not_started :
        {e : Error} (launch : Launch) → Refuses (λ w. H.run_trigger_app w launch) e → IsStartError e

  run-FailsBy :
      (kind : TriggerKind) (args : CliArgs) (app_id : String) (app : LockedApp) (aot : Bool)
      → FailsBy IsStartError (run H kind args app_id app aot)
  unfolding run Trigger.start
  run-FailsBy kind args app_id app aot =
      Fails-bind _ _ (Fails-call _ _ λ e h. not_created kind args app h) λ _.
        Fails-bind _ _ (Fails-gets _) λ limit.
          Fails-bind _ _ (Fails-gets _)
            λ config. Fails-await _ (Fails-call _ _ λ e h. not_started _ h)

  first_addr-FailsBy :
      (addr : String) (w w' : World) (answer : Result (List SocketAddr))
      → H.to_socket_addrs w addr ≡ answer
      → Failed IsStartError (continue (of_result answer) (first_addr H addr) w').0
  unfolding fail pure
  first_addr-FailsBy addr w w' (ok []) asked = no_address addr (w, asked)
  first_addr-FailsBy addr w w' (ok (found ∷ others)) asked = tt
  first_addr-FailsBy addr w w' (err e) asked = not_found addr (w, asked)

  parse_addr-FailsBy : (addr : String) → FailsBy IsStartError (parse_addr H addr)
  unfolding parse_addr ◌>>=◌ call
  parse_addr-FailsBy addr = record { at = λ w. first_addr-FailsBy addr _ _ _ refl }

  module _ (ctx : RuntimeContext) (app_id : String) (app : LockedApp) (aot : Bool) where
    run_http-FailsBy : FailsBy IsStartError (run_http H ctx app_id app aot)
    unfolding run_http
    run_http-FailsBy =
        Fails-bind _ _ (Fails-gets _)
          λ found. Fails-bind _ _ (parse_addr-FailsBy _) λ address. run-FailsBy _ _ app_id app aot

    launch-FailsBy : (type : String) → FailsBy IsStartError (launch H ctx app_id app aot type)
    launch-FailsBy type =
        launch_arms H ctx app_id app aot type (FailsBy IsStartError)
          (Fails-await _ run_http-FailsBy)
          (λ kind args. Fails-await _ (run-FailsBy kind args app_id app aot)) (λ _. Fails-panic _)

    pub launch_all-FailsBy :
        (types : List String) (futures : List ℕ) (started : List String)
        → FailsBy IsStartError (launch_all H ctx app_id app aot types futures started)
    unfolding launch_all
    launch_all-FailsBy [] futures started = Fails-pure _
    launch_all-FailsBy (type ∷ types) futures started =
        Fails-bind _ _ (launch-FailsBy type) λ f. launch_all-FailsBy types _ _
