-- ===== src/Text.antt =====
-- Strings as sequences of UTF-16 code units, with the methods of JavaScript's `String` that the
-- server calls. `to_lower` maps A to Z and the Kelvin sign, which are the code units that lower
-- case takes to an ASCII letter; other letters beyond ASCII are left alone.
use Prim.Native.Char.{code}
use latch_playground.Common.{
  ℕ, suc, ◌+◌, ◌-◌, ◌≡◌, refl, ◌↔◌, Bool, true, false, not, ◌&&◌, ◌||◌, List, [], ◌∷◌, ◌++◌, map,
  String, Option, none, some, ltb, leb, ◌==◌, if◌then◌else◌, length, filter, arith, ap,
}
pub mod Laws

abbrev pub Text : Type 0
Text = List ℕ

abbrev pub lit : String → Text
lit String.[] = []
lit (String.◌∷◌ c s) = code c ∷ lit s

unfoldable pub text_eq : Text → Text → Bool
text_eq [] [] = true
text_eq [] (d ∷ t) = false
text_eq (c ∷ s) [] = false
text_eq (c ∷ s) (d ∷ t) = c == d && text_eq s t

-- White space and line terminators.
unfoldable pub is_space : ℕ → Bool
is_space c =
    (leb 9 c && leb c 13)
    || c == 32
    || c == 0xa0
    || c == 0x1680
    || (leb 0x2000 c && leb c 0x200a)
    || c == 0x2028
    || c == 0x2029
    || c == 0x202f
    || c == 0x205f
    || c == 0x3000
    || c == 0xfeff

unfoldable pub drop_start : (ℕ → Bool) → Text → Text
drop_start p [] = []
drop_start p (c ∷ s) = let rest = drop_start p s in if p c then rest else c ∷ s

abbrev pub keep_end : (ℕ → Bool) → ℕ → Text → Text
keep_end p c [] = if p c then [] else c ∷ []
keep_end p c (d ∷ s) = c ∷ d ∷ s

unfoldable pub drop_end : (ℕ → Bool) → Text → Text
drop_end p [] = []
drop_end p (c ∷ s) = keep_end p c (drop_end p s)

-- `s.trim()`
unfoldable pub trim : Text → Text
trim s = drop_end is_space (drop_start is_space s)

unfoldable pub lower_unit : ℕ → ℕ
lower_unit c = if leb 65 c && leb c 90 then c + 32 else if c == 0x212a then b'k' else c

-- `s.toLowerCase()`
unfoldable pub to_lower : Text → Text
to_lower = map lower_unit

unfoldable pub starts_with : Text → Text → Bool
starts_with s [] = true
starts_with [] (p ∷ ps) = false
starts_with (c ∷ s) (p ∷ ps) = c == p && starts_with s ps

-- `s.includes(part)`
unfoldable pub contains : Text → Text → Bool
contains [] part = starts_with [] part
contains (c ∷ s) part = starts_with (c ∷ s) part || contains s part

abbrev pub first_unit : Text → Option ℕ
first_unit [] = none
first_unit (c ∷ s) = some c

abbrev pub last_unit : Text → Option ℕ
last_unit [] = none
last_unit (c ∷ []) = some c
last_unit (c ∷ d ∷ s) = last_unit (d ∷ s)

abbrev pub without_last : Text → Text
without_last [] = []
without_last (c ∷ []) = []
without_last (c ∷ d ∷ s) = c ∷ without_last (d ∷ s)

abbrev pub is_unit : ℕ → Option ℕ → Bool
is_unit c none = false
is_unit c (some d) = d == c

abbrev pub cons_head : ℕ → List Text → List Text
cons_head c [] = (c ∷ []) ∷ []
cons_head c (s ∷ ss) = (c ∷ s) ∷ ss

-- `s.split(sep)`, for one character.
unfoldable pub split : ℕ → Text → List Text
split sep [] = [] ∷ []
split sep (c ∷ s) = let rest = split sep s in if c == sep then [] ∷ rest else cons_head c rest

-- Truth of a string, and of one that may be missing.
abbrev pub is_given : Text → Bool
is_given [] = false
is_given (c ∷ s) = true

-- `list.includes(s)`
unfoldable pub includes : List Text → Text → Bool
includes [] s = false
includes (t ∷ ts) s = text_eq t s || includes ts s

-- `[...new Set(list)]`: the first of each, in order.
unfoldable pub unique : List Text → List Text
unique [] = []
unique (s ∷ ss) = s ∷ filter (λ t. not (text_eq s t)) (unique ss)

pub text_eq_iff : (s t : Text) → (text_eq s t ≡ true) ↔ (s ≡ t)
unfolding text_eq
text_eq_iff [] [] = (λ h. refl, λ h. refl)
text_eq_iff [] (d ∷ t) = (λ h. cc, λ h. cc)
text_eq_iff (c ∷ s) [] = (λ h. cc, λ h. cc)
text_eq_iff (c ∷ s) (d ∷ t) = ground (arith, text_eq_iff s t)

pub text_eq_refl : (s : Text) → text_eq s s ≡ true
text_eq_refl s = (text_eq_iff s s).1 refl
