-- ===== src/Engine/Launches.antt =====
-- The loop of `run_trigger` of containerd-shim-spin/src/engine.rs: which triggers are started, in
-- which order, and what each is started with.
use containerd_shim_spin.Prelude.{
  ℕ, zero, suc, String, ◌≡◌, refl, sym, ap, ◌∙◌, Bool, true, false, Option, none, some, List, [],
  ◌∷◌, ◌++◌, arith, append_assoc, append-nil, eq_iff, ◌==◌, if◌then◌else◌,
}
use containerd_shim_spin.Env.{var}
use containerd_shim_spin.Oci.{RuntimeContext}
use containerd_shim_spin.App.{
  LockedApp, TriggerKind, http, redis, sqs, command, mqtt, CliArgs, http_args, no_cli_args,
  command_args, mqtt_args, Launch, SocketAddr,
}
use containerd_shim_spin.Exec.{
  Call, new_trigger, start_trigger, resolve_address, World, returned, Exec, pure, ◌>>=◌,
  >>=-returned, at_await, await, call, panic,
}
use containerd_shim_spin.Host.{Host}
use containerd_shim_spin.Utils.{parse_addr}
use containerd_shim_spin.Trigger.{run, factors_config, max_instance_memory}
use containerd_shim_spin.Trigger.Configured.{IsConfigured, factors_config-IsConfigured}
use containerd_shim_spin.Engine.Kinds.{kind_type}
use containerd_shim_spin.Engine.{http_cli_args, run_http, launch, launch_all}

-- The triggers that have been started, in the order of the calls.
abbrev pub launches : List Call → List Launch
launches [] = []
launches (start_trigger l ∷ calls) = l ∷ launches calls
launches (_ ∷ calls) = launches calls

pub launches-append : (a b : List Call) → launches (a ++ b) ≡ launches a ++ launches b
launches-append [] b = refl
launches-append (c ∷ a) b = grind (arith, launches-append a b)

module _ (H : Host) (ctx : RuntimeContext) (app_id : String) (app : LockedApp) (aot : Bool) where
  -- The arguments that a trigger of each kind gets.
  abbrev pub ArgsFor : TriggerKind → CliArgs → Type 0
  ArgsFor http args =
      (address : SocketAddr) × (args
        ≡ http_args (record {
          address = address;
          tls_cert = none;
          tls_key = none;
          find_free_port = false;
          http1_max_buf_size = none;
          max_instance_reuse_count = none;
          max_instance_concurrent_reuse_count = none;
          request_timeout = none;
          idle_instance_timeout = 1;
        }))
  ArgsFor redis args = args ≡ no_cli_args
  ArgsFor sqs args = args ≡ no_cli_args
  ArgsFor command args = args ≡ command_args ctx.args
  ArgsFor mqtt args = args ≡ mqtt_args false

  pub record IsLaunch (type : String) (l : Launch) : Type 0 where
    pub of_type : type ≡ kind_type H l.kind
    pub args : ArgsFor l.kind l.cli_args
    pub same_app : l.app ≡ app
    pub same_id : l.app_id ≡ app_id
    pub same_aot : l.aot ≡ aot
    pub configured : IsConfigured l.config

  -- One launch for each type, in their order.
  abbrev pub Launched : List String → List Launch → Type 0
  Launched [] [] = Unit
  Launched (type ∷ types) (l ∷ ls) = IsLaunch type l × Launched types ls
  Launched [] (_ ∷ _) = ⊥
  Launched (_ ∷ _) [] = ⊥

  abbrev the_launch : TriggerKind → CliArgs → World → Launch
  the_launch kind args w = record {
    kind = kind;
    cli_args = args;
    app_id = app_id;
    app = app;
    config = factors_config w;
    max_instance_memory = max_instance_memory H (var w.env "SPIN_MAX_INSTANCE_MEMORY");
    aot = aot;
  }

  run-calls :
      (kind : TriggerKind) (args : CliArgs) (w : World) {f : ℕ}
      → (run H kind args app_id app aot w).0 ≡ returned f
      → (run H kind args app_id app aot w).1.calls
        ≡ (w.calls ++ new_trigger kind args ∷ []) ++ start_trigger (the_launch kind args w) ∷ []
  unfolding run ◌>>=◌ await call factors_config
  run-calls kind args w h = ground arith

  run-launches :
      (kind : TriggerKind) (args : CliArgs) (w : World) {f : ℕ}
      → (run H kind args app_id app aot w).0 ≡ returned f
      → launches (run H kind args app_id app aot w).1.calls
        ≡ launches w.calls ++ the_launch kind args w ∷ []
  run-launches kind args w h =
      rw (run-calls kind args w h, launches-append, launches-append, append-nil) refl

  -- What starting one trigger does to the calls.
  abbrev Starts : String → World → World → Type 0
  Starts type w w' =
      (l : Launch) × (launches w'.calls ≡ launches w.calls ++ l ∷ []) × IsLaunch type l

  -- An action that starts a trigger of this type when it returns.
  abbrev Starter : String → Exec ℕ → Type 0
  Starter type m = (w : World) (f : ℕ) → (m w).0 ≡ returned f → Starts type w (m w).1

  Starter-at_await :
      (type : String) (m : Exec ℕ) (signal : Option ℕ) (w : World) (f : ℕ)
      → Starter type m
      → (at_await signal m w).0 ≡ returned f
      → Starts type w (at_await signal m w).1
  Starter-at_await type m none w f k h = k w f h
  Starter-at_await type m (some zero) w f k h = cc
  Starter-at_await type m (some (suc n)) w f k h = k (record w { signal = some n }) f h

  Starter-await : (type : String) (m : Exec ℕ) → Starter type m → Starter type (await m)
  unfolding await
  Starter-await type m k w f h = Starter-at_await type m w.signal w f k h

  run-Starter :
      (kind : TriggerKind) (args : CliArgs) (type : String)
      → type ≡ kind_type H kind
      → ArgsFor kind args
      → Starter type (run H kind args app_id app aot)
  run-Starter kind args type named fits w f h = (
    the_launch kind args w,
    run-launches kind args w h,
    record {
      of_type = named;
      args = fits;
      same_app = refl;
      same_id = refl;
      same_aot = refl;
      configured = factors_config-IsConfigured w;
    },
  )

  parse_addr-launches :
      (addr : String) (w : World) {address : SocketAddr}
      → (parse_addr H addr w).0 ≡ returned address
      → launches (parse_addr H addr w).1.calls ≡ launches w.calls
  unfolding parse_addr ◌>>=◌ call
  parse_addr-launches addr w h =
      ground
        (arith, launches-append w.calls (resolve_address addr ∷ []), append-nil (launches w.calls))

  run_http-Starter :
      (type : String) → type ≡ H.http_trigger_type → Starter type (run_http H ctx app_id app aot)
  unfolding run_http ◌>>=◌
  run_http-Starter type named w f h =
      let (address, parsed, whole) = >>=-returned (parse_addr H _) _ w h in
      let (l, calls, fits) =
        run-Starter http (http_args (http_cli_args address)) type named (address, refl) _ f
          (sym (ap (λ r. r.0) whole) ∙ h) in
      (l, rw (whole, calls, parse_addr-launches _ w parsed) refl, fits)

  Starter-if :
      (type : String) (b : Bool) (m n : Exec ℕ)
      → (b ≡ true → Starter type m)
      → (b ≡ false → Starter type n)
      → Starter type (if b then m else n)
  Starter-if type true m n k l = k refl
  Starter-if type false m n k l = l refl

  pub launch-Starter : (type : String) → Starter type (launch H ctx app_id app aot type)
  unfolding launch panic
  launch-Starter type =
      let started =
        λ (kind : TriggerKind) (args : CliArgs) (same : (type == kind_type H kind) ≡ true)
            (fits : ArgsFor kind args).
          Starter-await type (run H kind args app_id app aot)
            (run-Starter kind args type ((eq_iff _ _).0 same) fits) in
      Starter-if type _ _ _
        (λ same.
          Starter-await type (run_http H ctx app_id app aot)
            (run_http-Starter type ((eq_iff _ _).0 same)))
        λ _.
          Starter-if type _ _ _ (λ same. started redis _ same refl)
            λ _.
              Starter-if type _ _ _ (λ same. started sqs _ same refl)
                λ _.
                  Starter-if type _ _ _ (λ same. started command _ same refl)
                    λ _. Starter-if type _ _ _ (λ same. started mqtt _ same refl) λ _ w f h. cc

  launch_all-nil :
      (futures : List ℕ) (started : List String) (w : World)
      → (launch_all H ctx app_id app aot [] futures started w).1 ≡ w
  unfolding launch_all pure
  launch_all-nil futures started w = refl

  -- When the loop returns, it has started one trigger for each type, in the order of the types, and
  -- no other: each of the kind of its type, with the arguments of this kind, with the app, the
  -- app's id and the AOT setting that the loop was given, and configured by `factors_config`.
  pub launch_all-Launched :
      (types : List String) (futures : List ℕ) (started : List String) (w : World)
      (result : List ℕ × List String)
      → (launch_all H ctx app_id app aot types futures started w).0 ≡ returned result
      → (ls : List Launch) × (launches
            (launch_all H ctx app_id app aot types futures started w).1.calls
          ≡ launches w.calls ++ ls)
        × Launched types ls
  unfolding launch_all
  launch_all-Launched [] futures started w result h =
      ([], rw (launch_all-nil futures started w, append-nil) refl, tt)
  launch_all-Launched (type ∷ types) futures started w result h =
      let (f, head, whole) = >>=-returned (launch H ctx app_id app aot type) _ w h in
      let (l, first, fits) = launch-Starter type w f head in
      let (ls, rest, all_fit) =
        launch_all-Launched types (futures ++ f ∷ []) (started ++ type ∷ []) _ result
          (sym (ap (λ r. r.0) whole) ∙ h) in
      (l ∷ ls, rw (whole, rest, first, append_assoc) refl, (fits, all_fit))
