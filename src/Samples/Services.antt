-- ===== src/Samples/Services.antt =====
-- Services for the sample applications, and a machine for the conformance tests, on which the
-- definitions and the theorems are run.
use containerd_shim_spin.Prelude.{
  ℕ, zero, suc, String, ◌≡◌, refl, Bool, true, false, Option, none, some, List, [], ◌∷◌, ◌++◌, ◌*◌,
  eqb, ltb, if◌then◌else◌, ◌==◌, arith,
}
use containerd_shim_spin.Prelude.Maps.{TextMap, lookup, insert, lookup-insert}
use containerd_shim_spin.Oci.{Bytes}
use containerd_shim_spin.Apps.Sdk.{
  ℤ, pos, Answer, done, error, Variables, Redis, Stores, Request, into_bytes,
}
use containerd_shim_spin.Apps.Logic.{IsRedis, IsStores}
use containerd_shim_spin.Conformance.{running, answered, http_echo}
use containerd_shim_spin.Conformance.Machine.{good, Machine}
use containerd_shim_spin.Conformance.Shim.{Test}

-- A server: what it holds, and what was published.
pub record Server : Type 0 where
  pub stored : TextMap Bytes
  pub messages : List (String × Bytes)

abbrev pub empty_server : Server
empty_server = record { stored = ("int-key", into_bytes "7") ∷ []; messages = [] }

abbrev keep : String → Bytes → Server → Server
keep key bytes s = record s { stored = insert key bytes s.stored }

abbrev is_zero : Option Bytes → Bool
is_zero none = false
is_zero (some []) = false
is_zero (some (b ∷ bytes)) = eqb b 48

abbrev counted : String → Bool → Server → Answer ℤ × Server
counted key true s = (done (pos 1), keep key (into_bytes "1") s)
counted key false s = (error "not a number that it counts", s)

abbrev pub sample_redis : Redis Server Unit
sample_redis = record {
  open_redis = λ _ s. (done tt, s);
  set = λ _ key bytes s. (done tt, keep key bytes s);
  get = λ _ key s. (done (lookup key s.stored), s);
  incr = λ _ key s. counted key (is_zero (lookup key s.stored)) s;
  publish =
      λ _ channel bytes s. (done tt, record s { messages = s.messages ++ (channel, bytes) ∷ [] });
}

abbrev digit : ℕ → String
digit zero = "0"
digit (suc zero) = "1"
digit (suc (suc _)) = ""

is_zero-digit : (n : ℕ) → is_zero (some (into_bytes (digit n))) ≡ true → n ≡ zero
is_zero-digit zero h = refl
is_zero-digit (suc zero) h = absurd (ground arith)
is_zero-digit (suc (suc n)) h = absurd (ground arith)

-- What a counted key holds afterwards.
HoldsOne : String → Server → Server → Type 0
HoldsOne key s s' =
    (asked : String)
    → lookup asked s'.stored
      ≡ (if key == asked then some (into_bytes "1") else lookup asked s.stored)

counted_done :
    (s : Server) (key : String) (zeroed : Bool) {m : ℤ}
    → (counted key zeroed s).0 ≡ done m
    → (zeroed ≡ true) × (m ≡ pos 1) × HoldsOne key s (counted key zeroed s).1
unfolding HoldsOne
counted_done s key true added =
    (refl, cc, λ asked. lookup-insert key (into_bytes "1") s.stored asked)
counted_done s key false added = cc

counted_lem :
    (s : Server) (key : String) (n : ℕ) (held : Option Bytes) {m : ℤ}
    → held ≡ some (into_bytes (digit n))
    → (counted key (is_zero held) s).0 ≡ done m
    → (m ≡ pos (suc n))
      × ((asked : String)
          → lookup asked (counted key (is_zero held) s).1.stored
            ≡ (if key == asked then some (into_bytes (digit (suc n))) else lookup asked s.stored))
unfolding HoldsOne
counted_lem s key n held h added =
    let (zeroed, one, after) = counted_done s key (is_zero held) added in
    let none_left : n ≡ zero = is_zero-digit n (rw (← h) zeroed) in rw none_left (one, after)

pub sample_redis-IsRedis : IsRedis sample_redis
sample_redis-IsRedis = record {
  value = λ s _ key. lookup key s.stored;
  sent = λ s _. s.messages;
  digits = digit;
  digits_zero = refl;
  digits_one = refl;
  set_lem = λ s _ key bytes _ asked. lookup-insert key bytes s.stored asked;
  get_lem = λ s _ key read. (cc, λ asked. refl);
  incr_lem = λ s _ key n held added. counted_lem s key n _ held added;
  publish_lem = λ s _ channel bytes asked. refl;
  publish_sent = λ s _ channel bytes _. refl;
}

abbrev pub sample_variables : Variables Server
sample_variables = record { get_variable = λ name s. (done name, s) }

abbrev pub sample_stores : Stores Server Unit
sample_stores = record {
  open_store = λ _ s. (done tt, s);
  set_key = λ _ key bytes s. (done tt, keep key bytes s);
  get_key = λ _ key s. (done (lookup key s.stored), s);
}

pub sample_stores-IsStores : IsStores sample_stores
sample_stores-IsStores = record {
  held = λ s _ key. lookup key s.stored;
  set_held = λ s _ key bytes _ asked. lookup-insert key bytes s.stored asked;
  get_held = λ s _ key read. (cc, λ asked. refl);
}

abbrev pub event : Request
event = record { path = "/kevents"; body = done (1 ∷ 2 ∷ []) }

-- A shim that accepts a connection at the third look, and has ended after its first request.
abbrev pub sample_machine : Machine
sample_machine = record {
  registry_port = λ _. good (some 5000);
  env_vars = [];
  run_in_env = λ _ _. good tt;
  succeeds = λ _ _. good true;
  free_port = λ _. good 8080;
  spawned = λ _ _. good 7;
  look =
      λ _ _ _. record { connects = λ n. ltb 1 n; try_wait = λ _. running; elapsed = λ n. 60 * n };
  waited = λ _ _. running;
  answer = λ _ _ request. answered request;
  boot = λ _ _. good tt;
  template = λ _ manifest. good manifest;
  fill = λ _ manifest. good manifest;
  writes = λ _ _ _. good tt;
  copies = λ _ _ _. good tt;
  file_name = λ component. some component;
  substitute = λ _ request. good request;
  check = λ _ _. good tt;
  display = λ n. "5000";
  hash = λ name. 5000;
}

abbrev pub sample_test : Test
sample_test = record {
  name = "echo";
  manifest = "spin.toml";
  component = "app.wasm";
  preconditions = http_echo ∷ [];
  invocations = "GET /" ∷ [];
}
