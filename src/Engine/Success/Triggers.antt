-- ===== src/Engine/Success/Triggers.antt =====
-- The triggers of a run, on a host that is up.
use containerd_shim_spin.Prelude.{
  ℕ, zero, suc, ◌+◌, ◌<◌, String, ◌≡◌, refl, ◌∙◌, Bool, true, false, List, [], ◌∷◌, arith, all,
  all-perm, length, length-append, get_elem?,
}
use containerd_shim_spin.Oci.{RuntimeContext}
use containerd_shim_spin.App.{LockedApp, TriggerKind, CliArgs}
use containerd_shim_spin.Exec.{ok, Result}
use containerd_shim_spin.Exec.Total.{
  Mode, Gives, Returns, Gives-pure, Gives-gets, Gives-lift, Gives-call, Gives-await, Gives-bind_of,
  Gives-bind,
}
use containerd_shim_spin.Host.{Host}
use containerd_shim_spin.Utils.{parse_addr}
use containerd_shim_spin.Source.{Source}
use containerd_shim_spin.Trigger.{run, contains, supported_triggers}
use containerd_shim_spin.Trigger
use containerd_shim_spin.Engine.{run_http, launch, launch_all, select_all, at_index, run_trigger}
use containerd_shim_spin.Engine.Arms.{launch_cases}
use containerd_shim_spin.Engine.Panics.{IsLawful}
use containerd_shim_spin.Engine.Success.Up.{IsUp}

some_more :
    (types : List String) → all (λ _. false) types ≡ false → (n : ℕ) × (length types ≡ suc n)
some_more [] h = cc
some_more (type ∷ types) h = (length types, refl)

module _ (M : Mode) (H : Host) (U : IsUp H) (ctx : RuntimeContext) where
  run-Returns :
      (kind : TriggerKind) (args : CliArgs) (app_id : String) (app : LockedApp) (aot : Bool)
      → Returns M (run H kind args app_id app aot)
  unfolding run Trigger.start
  run-Returns kind args app_id app aot =
      Gives-bind _ _ (Gives-call _ _ λ w. (tt, U.makes_trigger w kind args app, tt)) λ _.
        Gives-bind _ _ (Gives-gets _ λ w _. tt) λ limit.
          Gives-bind _ _ (Gives-gets _ λ w _. tt) λ config.
            Gives-await _ (Gives-call _ _ λ w. let (f, e) = U.starts_trigger w _ in (f, e, tt))

  parse_addr-Returns : (addr : String) → Returns M (parse_addr H addr)
  unfolding parse_addr
  parse_addr-Returns addr =
      Gives-bind_of (λ addrs. (found : _) × (others : _) × (addrs ≡ found ∷ others)) _ _
        (Gives-call _ _ λ w.
          let (found, others, e) = U.finds_address w addr in
          (found ∷ others, e, (found, others, refl)))
        λ addrs (found, others, same). rw same (Gives-pure found tt)

  run_http-Returns :
      (app_id : String) (app : LockedApp) (aot : Bool) → Returns M (run_http H ctx app_id app aot)
  unfolding run_http
  run_http-Returns app_id app aot =
      Gives-bind _ _ (Gives-gets _ λ w _. tt)
        λ found. Gives-bind _ _ (parse_addr-Returns _) λ address. run-Returns _ _ app_id app aot

  launch-Returns :
      (app_id : String) (app : LockedApp) (aot : Bool) (type : String)
      → contains (supported_triggers H) type ≡ true
      → Returns M (launch H ctx app_id app aot type)
  launch-Returns app_id app aot type known =
      launch_cases H ctx app_id app aot type (Returns M)
        (Gives-await _ (run_http-Returns app_id app aot))
        (λ kind args. Gives-await _ (run-Returns kind args app_id app aot)) known

  -- The two vectors of the loop have the same length, `n`.
  abbrev Filled : ℕ → List ℕ × List String → Type 0
  Filled n (futures, started) = (length futures ≡ n) × (length started ≡ n)

  launch_all-Gives :
      (app_id : String) (app : LockedApp) (aot : Bool) (types : List String) (n : ℕ)
      (futures : List ℕ) (started : List String)
      → all (contains (supported_triggers H)) types ≡ true
      → Filled n (futures, started)
      → Gives M (Filled (n + length types)) (launch_all H ctx app_id app aot types futures started)
  unfolding launch_all
  launch_all-Gives app_id app aot [] n futures started known filled =
      Gives-pure _ (omega arith, omega arith)
  launch_all-Gives app_id app aot (type ∷ types) n futures started known filled =
      Gives-bind _ _ (launch-Returns app_id app aot type (ground arith)) λ f.
        let first = length-append futures (f ∷ []) in
        let second = length-append started (type ∷ []) in
        let whole : suc n + length types ≡ n + suc (length types) = omega arith in
        rw (← whole) (
          launch_all-Gives app_id app aot types (suc n) _ _ (ground arith)
            (omega (arith, first), omega (arith, second)))

  module _ (L : IsLawful H) where
    -- The first future to end has no error, and is one of those that were started.
    abbrev IsFirst : ℕ → Result (Unit {0}) × ℕ → Type 0
    IsFirst n ended = (ended.0 ≡ ok tt) × (ended.1 < n)

    select_all-Gives :
        (futures : List ℕ) (n : ℕ)
        → length futures ≡ suc n
        → Gives M (IsFirst (suc n)) (select_all H futures)
    unfolding select_all
    select_all-Gives [] n h = absurd (omega arith)
    select_all-Gives (f ∷ futures) n h = Gives-await _ (
        Gives-call _ _
          λ w. (_, refl, (U.ends_well w f futures, omega (arith, L.select_in_range w f futures))))

    at_index-Returns :
        (index i : ℕ) (started : List String)
        → i < length started
        → Returns M (at_index index (get_elem? started i))
    at_index-Returns index i [] h = absurd (omega arith)
    at_index-Returns index zero (type ∷ started) h = Gives-pure _ tt
    at_index-Returns index (suc i) (type ∷ started) h =
        at_index-Returns index i started (omega arith)

    pub run_trigger-Returns :
        (types : List String) (app : LockedApp) (source : Source)
        → all (contains (supported_triggers H)) types ≡ true
        → all (λ _. false) types ≡ false
        → Returns M (run_trigger H ctx types app source)
    unfolding run_trigger
    run_trigger-Returns types app source known some_type =
        let order = L.hash_order_perm types in
        let (n, more) =
          some_more (H.hash_order types) (all-perm (λ _. false) _ _ order ∙ some_type) in
        Gives-bind _ _ (Gives-gets _ λ w _. tt) λ hostname.
          Gives-bind_of (Filled (0 + length (H.hash_order types))) _ _
            (launch_all-Gives _ app _ (H.hash_order types) 0 [] []
              (all-perm (contains (supported_triggers H)) _ _ order ∙ known) (refl, refl))
            λ launched filled.
              Gives-bind_of (IsFirst (suc n)) _ _ (select_all-Gives launched.0 n (omega arith))
                λ ended first.
                  Gives-bind _ _ (at_index-Returns ended.1 ended.1 launched.1 (omega arith))
                    λ type. Gives-lift _ (tt, first.0, tt)
