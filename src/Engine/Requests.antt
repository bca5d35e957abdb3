-- ===== src/Engine/Requests.antt =====
-- What a container asks for by its environment, in runs of containerd-shim-spin/src/engine.rs and
-- trigger.rs: the memory limit of the triggers, the address to listen on and the components to retain.
pub mod Setup
use mathlib.Core.Path.{subst}
use containerd_shim_spin.Prelude.{
  ℕ, ◌<◌, String, ◌≡◌, refl, sym, ap, ◌∙◌, Bool, Option, none, some, List, [], ◌∷◌, All, if_cases,
}
use containerd_shim_spin.Env.{var}
use containerd_shim_spin.Oci.{RuntimeContext}
use containerd_shim_spin.App.{
  LockedApp, TriggerKind, http, redis, sqs, command, mqtt, CliArgs, SocketAddr,
}
use containerd_shim_spin.Exec.{World, Exec, await, ok}
use containerd_shim_spin.Exec.Keeps.{
  Keeps, KeepsAnd, Keeps-panic, Keeps-gets, Keeps-call, Keeps-await, Keeps-bind, Keeps-bind_of,
  Keeps-get_var, Keeps-call_of, keeps_rules,
}
use containerd_shim_spin.Host.{Host}
use containerd_shim_spin.Text.Numbers.{parse_unsigned-eq-some_iff}
use containerd_shim_spin.Utils.{
  parse_addr, first_addr, configure_application_variables_from_environment_variables,
}
use containerd_shim_spin.Source.{Source}
use containerd_shim_spin.Trigger.{run, max_instance_memory}
use containerd_shim_spin.Trigger
use containerd_shim_spin.Engine.{
  get_or, run_http, launch, launch_all, select_all, at_index, run_trigger, wasm_exec_async,
}
use containerd_shim_spin.Engine.Arms.{launch_each}
use containerd_shim_spin.Engine.Shutdown.{last_value}
use containerd_shim_spin.Engine.Requests.Setup.{
  IsLimit, IsAddress, IsListening, IsRequested, listen_text, requested_rule, initialize_cache-Keeps,
  configure_variables-Keeps, retain_configured-Keeps, from_entry-Keeps, to_locked_app-Keeps,
}

get_or-listen_text : (value : Option String) → get_or value "0.0.0.0:80" ≡ listen_text value
get_or-listen_text none = refl
get_or-listen_text (some text) = refl

module _ (H : Host) (bounded : 0 < H.memory_bound) where
  max_instance_memory-IsLimit :
      (value : Option String) → IsLimit H value (max_instance_memory H value)
  unfolding max_instance_memory
  max_instance_memory-IsLimit none = refl
  max_instance_memory-IsLimit (some text) =
      λ n. parse_unsigned-eq-some_iff H.memory_bound text n bounded

module _ (H : Host) (bounded : 0 < H.memory_bound) (value : String → Option String)
    (ctx : RuntimeContext) where
  abbrev KeepsRequested : {A : Type 0} → Exec A → Type 0
  KeepsRequested m = Keeps (requested_rule H value) m

  module _ (app_id : String) (app : LockedApp) (aot : Bool) where
    run-Keeps :
        (kind : TriggerKind) (args : CliArgs)
        → IsListening H (value "SPIN_HTTP_LISTEN_ADDR") kind args
        → KeepsRequested (run H kind args app_id app aot)
    unfolding run Trigger.start
    run-Keeps kind args listening = Keeps-bind _ _ (search keeps_rules) λ _.
        Keeps-bind_of (λ found. found ≡ value "SPIN_MAX_INSTANCE_MEMORY") _ _
          (Keeps-get_var (requested_rule H value) "SPIN_MAX_INSTANCE_MEMORY" refl)
          λ limit same. Keeps-bind _ _ (Keeps-gets _) λ config. Keeps-await _ (
            Keeps-call _ _ (
              subst (λ v. IsLimit H v (max_instance_memory H limit)) same
                  (max_instance_memory-IsLimit H bounded limit),
              listening,
            ))

    -- The address that HTTP triggers listen on.
    abbrev IsFirst : SocketAddr → Type 0
    IsFirst address = IsAddress H (value "SPIN_HTTP_LISTEN_ADDR") address

    first_addr-Keeps :
        (addr : String) (found : List SocketAddr)
        → addr ≡ listen_text (value "SPIN_HTTP_LISTEN_ADDR")
        → (w : World) × (H.to_socket_addrs w addr ≡ ok found)
        → KeepsAnd (requested_rule H value) IsFirst (first_addr H addr found)
    unfolding containerd_shim_spin.Exec.pure containerd_shim_spin.Exec.fail
    first_addr-Keeps addr [] same answer = record { at = λ w h. (tt, h) }
    first_addr-Keeps addr (address ∷ others) same (w, answer) = record {
      at = λ w' h. ((w, others, ap (H.to_socket_addrs w) (sym same) ∙ answer), h);
    }

    parse_addr-Keeps :
        (addr : String)
        → addr ≡ listen_text (value "SPIN_HTTP_LISTEN_ADDR")
        → KeepsAnd (requested_rule H value) IsFirst (parse_addr H addr)
    unfolding parse_addr
    parse_addr-Keeps addr same =
        Keeps-bind_of (λ found. (w : World) × (H.to_socket_addrs w addr ≡ ok found)) _ _
          (Keeps-call_of _ _ tt) λ found answer. first_addr-Keeps addr found same answer

    run_http-Keeps : KeepsRequested (run_http H ctx app_id app aot)
    unfolding run_http
    run_http-Keeps =
        Keeps-bind_of (λ found. found ≡ value "SPIN_HTTP_LISTEN_ADDR") _ _
          (Keeps-get_var (requested_rule H value) "SPIN_HTTP_LISTEN_ADDR" refl)
          λ found same.
            Keeps-bind_of IsFirst _ _
              (parse_addr-Keeps (get_or found "0.0.0.0:80")
                (get_or-listen_text found ∙ ap listen_text same))
              λ address first. run-Keeps http _ (address, first, refl)

    launch-Keeps : (type : String) → KeepsRequested (launch H ctx app_id app aot type)
    launch-Keeps type =
        launch_each H ctx app_id app aot type KeepsRequested (Keeps-await _ run_http-Keeps)
          (Keeps-await _ (run-Keeps redis _ tt)) (Keeps-await _ (run-Keeps sqs _ tt))
          (Keeps-await _ (run-Keeps command _ tt)) (Keeps-await _ (run-Keeps mqtt _ tt))
          (Keeps-panic _)

    launch_all-Keeps :
        (types : List String) (futures : List ℕ) (started : List String)
        → KeepsRequested (launch_all H ctx app_id app aot types futures started)
    unfolding launch_all
    launch_all-Keeps [] futures started = search keeps_rules
    launch_all-Keeps (type ∷ types) futures started =
        Keeps-bind _ _ (launch-Keeps type) λ f. launch_all-Keeps types _ _

  select_all-Keeps : (futures : List ℕ) → KeepsRequested (select_all H futures)
  unfolding select_all
  select_all-Keeps [] = search keeps_rules
  select_all-Keeps (f ∷ futures) = search keeps_rules

  at_index-Keeps : (index : ℕ) (found : Option String) → KeepsRequested (at_index index found)
  at_index-Keeps index none = search keeps_rules
  at_index-Keeps index (some type) = search keeps_rules

  run_trigger-Keeps :
      (types : List String) (app : LockedApp) (source : Source)
      → KeepsRequested (run_trigger H ctx types app source)
  unfolding run_trigger
  run_trigger-Keeps types app source = Keeps-bind _ _ (Keeps-gets _) λ hostname.
      Keeps-bind _ _ (launch_all-Keeps _ app _ _ [] [])
        λ launched. search (keeps_rules, select_all-Keeps, at_index-Keeps) depth 8

  pub wasm_exec_async-Keeps : KeepsRequested (wasm_exec_async H ctx)
  unfolding wasm_exec_async configure_application_variables_from_environment_variables
  wasm_exec_async-Keeps = Keeps-bind _ _ (search (keeps_rules, initialize_cache-Keeps)) λ cache.
      Keeps-bind _ _ (search (keeps_rules, from_entry-Keeps)) λ source.
        Keeps-bind _ _ (search (keeps_rules, to_locked_app-Keeps)) λ loaded.
          Keeps-bind_of (λ found. found ≡ value "SPIN_COMPONENTS_TO_RETAIN") _ _
            (Keeps-get_var (requested_rule H value) "SPIN_COMPONENTS_TO_RETAIN" refl)
            λ found same.
              Keeps-bind _ _ (retain_configured-Keeps H value found loaded same)
                λ app. search (keeps_rules, configure_variables-Keeps, run_trigger-Keeps) depth 16

-- The value that a container asks for: the last entry of its environment for the variable, or what the
-- process has under it.
abbrev pub requested : RuntimeContext → World → String → Option String
requested ctx w name = last_value ctx.envs name (var w.env name)

-- The same of the asynchronous part alone.
pub wasm_exec_async-IsRequested :
    (H : Host) (ctx : RuntimeContext) (w : World)
    → 0 < H.memory_bound
    → w.calls ≡ []
    → All (IsRequested H (var w.env)) (wasm_exec_async H ctx w).1.calls
wasm_exec_async-IsRequested H ctx w bounded start =
    ((wasm_exec_async-Keeps H bounded (var w.env) ctx).at w
      ((λ name _. refl), subst (All (IsRequested H (var w.env))) (sym start) tt)).1.1
