-- ===== src/Exec/Stages.antt =====
-- The order of the calls of a run: stages that follow each other.
use containerd_shim_spin.Prelude.{
  ℕ, suc, ◌≤◌, ◌<◌, ◌≡◌, Bool, true, List, [], ◌∷◌, ◌++◌, arith, All, eqb, ◌||◌, if◌then◌else◌,
}
use containerd_shim_spin.Exec.{
  Call, new_cache, write_wasm, write_data, unpack_archive, load_manifest, load_wasm_file,
  resolve_content, retain, init_telemetry, set_handler, resolve_address, new_trigger, start_trigger,
  select,
}

-- The stage of a run to which a call belongs: the signal handler, the cache, storing the layers,
-- loading the application, choosing its components, telemetry, starting the triggers, waiting.
abbrev pub stage : Call → ℕ
stage set_handler = 0
stage (new_cache _) = 1
stage (write_wasm _ _) = 2
stage (write_data _ _) = 2
stage (unpack_archive _ _) = 2
stage (load_manifest _) = 3
stage (load_wasm_file _) = 3
stage (resolve_content _) = 3
stage (retain _) = 4
stage init_telemetry = 5
stage (resolve_address _) = 6
stage (new_trigger _ _) = 6
stage (start_trigger _) = 6
stage (select _) = 7

-- Whether the calls of this stage may be more than one: layers, components and triggers may.
abbrev pub repeats : ℕ → Bool
repeats n = eqb n 2 || eqb n 3 || eqb n 6

-- The first stage that may follow a call.
abbrev pub after : Call → ℕ
after c = if repeats (stage c) then stage c else suc (stage c)

-- Calls from stage `lo` to stage `hi`, each in a stage that may follow the call before it.
abbrev pub Ordered : ℕ → ℕ → List Call → Type 0
Ordered lo hi [] = Unit
Ordered lo hi (c ∷ calls) = (lo ≤ stage c) × (stage c ≤ hi) × Ordered (after c) hi calls

after-ge : (c : Call) → stage c ≤ after c
after-ge c = ground arith

after-le : (c : Call) → after c ≤ suc (stage c)
after-le c = ground arith

pub Ordered-from :
    (lo lo' hi : ℕ) (calls : List Call) → lo' ≤ lo → Ordered lo hi calls → Ordered lo' hi calls
Ordered-from lo lo' hi [] h o = tt
Ordered-from lo lo' hi (c ∷ calls) h (low, high, rest) = (omega arith, high, rest)

Ordered-to :
    (lo hi hi' : ℕ) (calls : List Call) → hi ≤ hi' → Ordered lo hi calls → Ordered lo hi' calls
Ordered-to lo hi hi' [] h o = tt
Ordered-to lo hi hi' (c ∷ calls) h (low, high, rest) =
    (low, omega arith, Ordered-to (after c) hi hi' calls h rest)

-- Two runs of calls, the second in later stages.
pub Ordered-append :
    (a b c d : ℕ) (xs ys : List Call)
    → a ≤ c
    → b < c
    → b ≤ d
    → Ordered a b xs
    → Ordered c d ys
    → Ordered a d (xs ++ ys)
Ordered-append a b c d [] ys ac bc bd ox oy = Ordered-from c a d ys ac oy
Ordered-append a b c d (x ∷ xs) ys ac bc bd (low, high, rest) oy = (
  low,
  omega arith,
  Ordered-append (after x) b c d xs ys (omega (arith, after-le x)) bc bd rest oy,
)

pub Ordered-All :
    (n : ℕ) (calls : List Call)
    → repeats n ≡ true
    → All (λ c. stage c ≡ n) calls
    → Ordered n n calls
Ordered-All n [] r h = tt
Ordered-All n (c ∷ calls) r (here, there) = (
  omega arith,
  omega arith,
  Ordered-from n (after c) n calls (ground arith) (Ordered-All n calls r there),
)
