-- ===== src/Env.antt =====
-- The environment of the process, as `std::env::var` and `std::env::set_var` see it.
use Prim.Native.Char.{nul}
use containerd_shim_spin.Prelude.{
  ℕ, String, ◌≡◌, Bool, true, false, not, ◌&&◌, Option, none, some, List, arith, any, eqb,
  if◌then◌else◌, ◌==◌,
}
use containerd_shim_spin.Prelude.Maps.{TextMap, lookup, insert, lookup-insert}
use containerd_shim_spin.Text.{holds_char}

-- A value may be no UTF-8, and then `env::var` fails as for a variable that is not set.
pub data OsString : Type 0 where
  unicode : String → OsString
  not_unicode : List ℕ → OsString

abbrev pub Env : Type 0
Env = TextMap OsString

abbrev pub to_str : Option OsString → Option String
to_str none = none
to_str (some (unicode s)) = some s
to_str (some (not_unicode _)) = none

-- `env::var(key).ok()`
unfoldable pub var : Env → String → Option String
var env key = to_str (lookup key env)

-- `env::set_var(key, value)`, where it does not panic.
unfoldable pub put_var : Env → String → OsString → Env
put_var env key value = insert key value env

abbrev holds_nul : OsString → Bool
holds_nul (unicode s) = holds_char nul s
holds_nul (not_unicode bytes) = any (eqb 0) bytes

-- The documented conditions of `env::set_var`: it panics where this is false.
unfoldable pub is_settable : String → OsString → Bool
is_settable key value =
    not (key == "") && not (holds_char "=" key) && not (holds_char nul key) && not (holds_nul value)

-- What `env::var` reads after a write.
pub var-put_var :
    (env : Env) (key : String) (value : OsString) (asked : String)
    → var (put_var env key value) asked
      ≡ (if key == asked then to_str (some value) else var env asked)
unfolding var put_var
var-put_var env key value asked = ground (arith, lookup-insert key value env asked)

-- A value that can be set has no NUL character.
pub settable_clean :
    (key : String) (value : OsString)
    → is_settable key value ≡ true
    → (held : String) → to_str (some value) ≡ some held
    → holds_char nul held ≡ false
unfolding is_settable
settable_clean key (unicode s) settable held same = let e : s ≡ held = cc in rw (← e) (ground arith)
settable_clean key (not_unicode bytes) settable held same = cc
