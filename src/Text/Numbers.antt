-- ===== src/Text/Numbers.antt =====
-- What `parse` accepts for an unsigned integer, against the value that its digits write.
use containerd_shim_spin.Prelude.{
  ◌↔◌, ℕ, ◌+◌, ◌-◌, ◌*◌, ◌≤◌, ◌<◌, code, String, ◌≡◌, refl, Option, none, some, arith, ltb,
  if◌then◌else◌, ◌==◌,
}
use containerd_shim_spin.Text.{char_eq, is_digit, parse_digits, parse_unsigned}

-- The number that the digits write, with no bound on it.
unfoldable pub decimal : ℕ → String → Option ℕ
decimal acc String.[] = some acc
decimal acc (String.◌∷◌ c s) =
    let rest = decimal (acc * 10 + (code c - b'0')) s in if is_digit c then rest else none

abbrev pub below : ℕ → Option ℕ → Option ℕ
below bound none = none
below bound (some n) = if ltb n bound then some n else none

-- The value only grows with each digit.
decimal-ge : (acc : ℕ) (s : String) (n : ℕ) → decimal acc s ≡ some n → acc ≤ n
unfolding decimal
decimal-ge acc String.[] n h = ground arith
decimal-ge acc (String.◌∷◌ c s) n h = ground (arith, decimal-ge (acc * 10 + (code c - b'0')) s n)

below-none : (bound : ℕ) (o : Option ℕ) → ((n : ℕ) → o ≡ some n → bound ≤ n) → below bound o ≡ none
below-none bound none h = refl
below-none bound (some n) h = ground (arith, h n refl)

below-decimal : (bound acc : ℕ) (s : String) → bound ≤ acc → below bound (decimal acc s) ≡ none
below-decimal bound acc s h =
    below-none bound (decimal acc s) (λ n e. omega (arith, decimal-ge acc s n e))

-- Checking each step finds the same overflows as a check of the whole value.
parse_digits-eq-decimal :
    (bound acc : ℕ) (s : String)
    → acc < bound
    → parse_digits bound acc s ≡ below bound (decimal acc s)
unfolding parse_digits decimal
parse_digits-eq-decimal bound acc String.[] h = ground arith
parse_digits-eq-decimal bound acc (String.◌∷◌ c s) h =
    let next : ℕ = acc * 10 + (code c - b'0') in
    ground (arith, parse_digits-eq-decimal bound next s, below-decimal bound next s)

-- The number that a text writes: an optional plus sign, and at least one digit.
unfoldable pub written : String → Option ℕ
unfolding decimal
written String.[] = none
written (String.◌∷◌ c s) =
    if char_eq c "+" then (if s == "" then none else decimal 0 s) else decimal 0 (String.◌∷◌ c s)

below-eq-some_iff :
    (bound : ℕ) (o : Option ℕ) (n : ℕ) → (below bound o ≡ some n) ↔ ((o ≡ some n) × (n < bound))
below-eq-some_iff bound none n = (λ h. cc, λ (h, _). cc)
below-eq-some_iff bound (some m) n = (λ h. ground arith, λ (h, small). ground arith)

-- A text is parsed exactly when it writes a number below the bound, and to that number.
pub parse_unsigned-eq-written :
    (bound : ℕ) (s : String) → 0 < bound → parse_unsigned bound s ≡ below bound (written s)
unfolding parse_unsigned written
parse_unsigned-eq-written bound String.[] h = refl
parse_unsigned-eq-written bound (String.◌∷◌ c s) h =
    ground (
      arith,
      parse_digits-eq-decimal bound 0 s h,
      parse_digits-eq-decimal bound 0 (String.◌∷◌ c s) h,
    )

pub parse_unsigned-eq-some_iff :
    (bound : ℕ) (s : String) (n : ℕ)
    → 0 < bound
    → (parse_unsigned bound s ≡ some n) ↔ ((written s ≡ some n) × (n < bound))
parse_unsigned-eq-some_iff bound s n h =
    rw (parse_unsigned-eq-written bound s h) (below-eq-some_iff bound (written s) n)
