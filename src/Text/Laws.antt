-- ===== src/Text/Laws.antt =====
-- The pieces of a text, as `split` and `split_once` give them.
use text.Mathlib.TextEquality.{Char-path}
use text.Mathlib.TextLemmas.{cons-append, nil-append}
use containerd_shim_spin.Prelude.{
  Char, String, ◌<>◌, ◌≡◌, ◌≢◌, ◌↔◌, refl, Bool, true, false, not, Option, none, some, List, [],
  ◌∷◌, arith, inl, inr, Bool-cases, all,
}
use containerd_shim_spin.Text.{char_eq, holds_char, push_before, split_once, push_front, split}

-- The pieces with the separator between each two.
unfoldable pub join : Char → List String → String
join sep [] = ""
join sep (piece ∷ []) = piece
join sep (piece ∷ next ∷ pieces) = piece <> String.◌∷◌ sep (join sep (next ∷ pieces))

char_eq→path : (c d : Char) → char_eq c d ≡ true → c ≡ d
char_eq→path c d h = Char-path c d (ground arith)

split-cons :
    (sep : Char) (s : String)
    → (piece : String) × (pieces : List String) × (split sep s ≡ piece ∷ pieces)
unfolding split
split-cons sep String.[] = ("", [], refl)
split-cons sep (String.◌∷◌ c s) =
    let (piece, pieces, e) = split-cons sep s in
    elim (Bool-cases (char_eq c sep)) [
      | inl same ↦ ("", split sep s, rw same)
      | inr differ ↦ (String.◌∷◌ c piece, pieces, rw (differ, e))
    ]

join-push_front :
    (sep c : Char) (pieces : List String)
    → join sep (push_front c pieces) ≡ String.◌∷◌ c (join sep pieces)
unfolding join
join-push_front sep c [] = refl
join-push_front sep c (piece ∷ []) = refl
join-push_front sep c (piece ∷ next ∷ pieces) = cons-append _ _ _

-- An empty piece in front of other pieces gives a leading separator.
join-empty :
    (sep : Char) (s : String)
    → join sep ("" ∷ split sep s) ≡ String.◌∷◌ sep (join sep (split sep s))
unfolding join
join-empty sep s = let (piece, pieces, e) = split-cons sep s in rw e (nil-append _)

-- Joining the pieces of a split gives the text back.
pub join-split : (sep : Char) (s : String) → join sep (split sep s) ≡ s
unfolding split
join-split sep String.[] = unfold join in refl
join-split sep (String.◌∷◌ c s) = elim (Bool-cases (char_eq c sep)) [
  | inl same ↦ rw same (cc (join-empty sep s, join-split sep s, char_eq→path c sep same))
  | inr differ ↦ rw differ (cc (join-push_front sep c (split sep s), join-split sep s))
]

abbrev pub is_free : Char → String → Bool
is_free sep piece = not (holds_char sep piece)

is_free-push_front :
    (sep c : Char) (pieces : List String)
    → char_eq c sep ≡ false
    → all (is_free sep) pieces ≡ true
    → all (is_free sep) (push_front c pieces) ≡ true
unfolding holds_char
is_free-push_front sep c [] differ h = ground arith
is_free-push_front sep c (piece ∷ pieces) differ h = ground arith

-- No piece of a split holds the separator.
pub split_free : (sep : Char) (s : String) → all (is_free sep) (split sep s) ≡ true
unfolding split holds_char
split_free sep String.[] = refl
split_free sep (String.◌∷◌ c s) = elim (Bool-cases (char_eq c sep)) [
  | inl same ↦ rw same (split_free sep s)
  | inr differ ↦ rw differ (is_free-push_front sep c (split sep s) differ (split_free sep s))
]

-- Pieces as a split gives them: at least one, and none holds the separator.
abbrev pub AreFree : Char → List String → Type 0
AreFree sep pieces = (pieces ≢ []) × (all (is_free sep) pieces ≡ true)

split_free-one : (sep : Char) (s : String) → is_free sep s ≡ true → split sep s ≡ s ∷ []
unfolding split holds_char
split_free-one sep String.[] free = refl
split_free-one sep (String.◌∷◌ c s) free =
    let differ : char_eq c sep ≡ false = ground arith in
    rw (differ, split_free-one sep s (ground arith)) refl

split_free-append :
    (sep : Char) (piece s : String)
    → is_free sep piece ≡ true
    → split sep (piece <> String.◌∷◌ sep s) ≡ piece ∷ split sep s
unfolding split holds_char
split_free-append sep String.[] s free =
    let same : char_eq sep sep ≡ true = ground arith in rw (nil-append, same) refl
split_free-append sep (String.◌∷◌ c piece) s free =
    let differ : char_eq c sep ≡ false = ground arith in
    rw (cons-append, differ, split_free-append sep piece s (ground arith)) refl

split-join :
    (sep : Char) (pieces : List String) → AreFree sep pieces → split sep (join sep pieces) ≡ pieces
unfolding join
split-join sep [] (some_piece, free) = absurd (some_piece refl)
split-join sep (piece ∷ []) (some_piece, free) = split_free-one sep piece (ground arith)
split-join sep (piece ∷ next ∷ pieces) (some_piece, free) =
    let rest = split-join sep (next ∷ pieces) ((λ e. cc), ground arith) in
    rw (split_free-append sep piece (join sep (next ∷ pieces)) (ground arith), rest) refl

split_some : (sep : Char) (s : String) → split sep s ≢ []
split_some sep s = λ h. let (piece, pieces, e) = split-cons sep s in cc

-- A split gives the only pieces that join to the text, are at least one, and hold no separator.
pub split-eq_iff :
    (sep : Char) (s : String) (pieces : List String)
    → (split sep s ≡ pieces) ↔ ((join sep pieces ≡ s) × AreFree sep pieces)
split-eq_iff sep s pieces = (
  λ h. rw (← h) (join-split sep s, (split_some sep s, split_free sep s)),
  λ (whole, free). rw (← whole) (split-join sep pieces free),
)

-- What a result of `split_once` says of the text: it is cut at its first separator, or has none.
abbrev pub IsCut : Char → String → Option (String × String) → Type 0
IsCut sep s none = holds_char sep s ≡ false
IsCut sep s (some (before, after)) =
    (s ≡ before <> String.◌∷◌ sep after) × (holds_char sep before ≡ false)

IsCut-push :
    (sep c : Char) (s : String) (cut : Option (String × String))
    → char_eq c sep ≡ false
    → IsCut sep s cut
    → IsCut sep (String.◌∷◌ c s) (push_before c cut)
unfolding holds_char
IsCut-push sep c s none differ h = ground arith
IsCut-push sep c s (some (before, after)) differ (whole, free) =
    (rw (cons-append, ← whole), ground arith)

-- `split_once` cuts the text at its first separator, and fails only if there is none.
pub split_once-IsCut : (sep : Char) (s : String) → IsCut sep s (split_once sep s)
unfolding split_once holds_char
split_once-IsCut sep String.[] = refl
split_once-IsCut sep (String.◌∷◌ c s) = elim (Bool-cases (char_eq c sep)) [
  | inl same ↦ rw same (rw (nil-append, char_eq→path c sep same), refl)
  | inr differ ↦ rw differ (IsCut-push sep c s (split_once sep s) differ (split_once-IsCut sep s))
]
