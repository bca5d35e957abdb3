-- ===== src/Text.antt =====
-- The operations on `str` that containerd-shim-spin/src/engine.rs, utils.rs and trigger.rs call:
-- `split_once`, `split`, `to_ascii_uppercase` and `parse` into an unsigned integer.
pub mod Laws
pub mod Numbers
use Prim.Native.String.{char_at}
use containerd_shim_spin.Prelude.{
  ℕ, ◌+◌, ◌-◌, ◌*◌, Char, code, String, Bool, false, ◌&&◌, ◌||◌, Option, none, some, List, [], ◌∷◌,
  ltb, leb, eqb, if◌then◌else◌, ◌==◌,
}

abbrev pub char_eq : Char → Char → Bool
char_eq c d = eqb (code c) (code d)

-- `str::contains` of a character.
unfoldable pub holds_char : Char → String → Bool
holds_char sep String.[] = false
holds_char sep (String.◌∷◌ c s) = char_eq c sep || holds_char sep s

abbrev pub push_before : Char → Option (String × String) → Option (String × String)
push_before c none = none
push_before c (some (before, after)) = some (String.◌∷◌ c before, after)

-- The text before and after the first separator.
unfoldable pub split_once : Char → String → Option (String × String)
split_once sep String.[] = none
split_once sep (String.◌∷◌ c s) =
    let rest = split_once sep s in if char_eq c sep then some ("", s) else push_before c rest

abbrev push_front : Char → List String → List String
push_front c [] = String.◌∷◌ c "" ∷ []
push_front c (piece ∷ pieces) = String.◌∷◌ c piece ∷ pieces

-- The pieces between separators: one more than there are separators, and `[""]` for the empty text.
unfoldable pub split : Char → String → List String
split sep String.[] = "" ∷ []
split sep (String.◌∷◌ c s) =
    let pieces = split sep s in if char_eq c sep then "" ∷ pieces else push_front c pieces

abbrev ascii_uppercase : Char → Char
ascii_uppercase c =
    if leb b'a' (code c) && leb (code c) b'z'
    then char_at "ABCDEFGHIJKLMNOPQRSTUVWXYZ" (code c - b'a')
    else c

unfoldable pub to_ascii_uppercase : String → String
to_ascii_uppercase String.[] = ""
to_ascii_uppercase (String.◌∷◌ c s) = String.◌∷◌ (ascii_uppercase c) (to_ascii_uppercase s)

abbrev pub is_digit : Char → Bool
is_digit c = leb b'0' (code c) && leb (code c) b'9'

-- The checked multiplication and addition of each digit; `bound` is one more than the type's MAX.
parse_digits : ℕ → ℕ → String → Option ℕ
parse_digits bound acc String.[] = some acc
parse_digits bound acc (String.◌∷◌ c s) =
    let next = acc * 10 + (code c - b'0') in
    let rest = parse_digits bound next s in
    if is_digit c then (if ltb next bound then rest else none) else none

unfoldable pub parse_unsigned : ℕ → String → Option ℕ
unfolding parse_digits
parse_unsigned bound String.[] = none
parse_unsigned bound (String.◌∷◌ c s) =
    if char_eq c "+"
    then (if s == "" then none else parse_digits bound 0 s)
    else parse_digits bound 0 (String.◌∷◌ c s)

-- `str::ends_with`
unfoldable pub ends_with : String → String → Bool
ends_with String.[] t = t == ""
ends_with (String.◌∷◌ c s) t = String.◌∷◌ c s == t || ends_with s t
