-- ===== src/Base/Text.antt =====
-- Text as its code points, for the code that looks inside it: splitting, stripping and reading digits.
-- The blanks and digits are those of ASCII.
use Prim.Native.Nat.{ℕ, zero, suc, ◌+◌, ◌-◌, ◌*◌}
use Prim.Native.Char.{code}
use Prim.Native.String.{String}
use mathlib.Core.Path.{◌≡◌}
use mathlib.Core.Logic.{◌↔◌}
use mathlib.Core.Bool.{Bool, true, false, ◌&&◌, ◌||◌}
use mathlib.Core.List.{List, [], ◌∷◌, reverse}
use native.Mathlib.Omega.{arith}
use beacon_mcp.Base.Logic.{Eq, if◌then◌else◌, leb, nat_eq, nat_eq_iff}

abbrev pub Text : Type 0
Text = List ℕ

abbrev pub codes : String → Text
codes String.[] = []
codes (String.◌∷◌ c s) = code c ∷ codes s

unfoldable pub same_text : Text → Text → Bool
same_text [] [] = true
same_text [] (d ∷ t) = false
same_text (c ∷ s) [] = false
same_text (c ∷ s) (d ∷ t) = nat_eq c d && same_text s t

pub same_text_iff : (s t : Text) → (same_text s t ≡ true) ↔ (s ≡ t)
unfolding same_text
same_text_iff [] [] = ground arith
same_text_iff [] (d ∷ t) = ground arith
same_text_iff (c ∷ s) [] = ground arith
same_text_iff (c ∷ s) (d ∷ t) = ground (arith, nat_eq_iff c d, same_text_iff s t)

instance abbrev pub text_has_eq : Eq Text
text_has_eq = record { beq = same_text; beq_iff = same_text_iff }

-- `bool(s)`
abbrev pub nonempty : Text → Bool
nonempty [] = false
nonempty (c ∷ s) = true

unfoldable pub is_blank : ℕ → Bool
is_blank c = nat_eq c b' ' || (leb 9 c && leb c 13)

unfoldable pub is_digit : ℕ → Bool
is_digit c = leb b'0' c && leb c b'9'

-- `s.lstrip()`
unfoldable pub lstrip : Text → Text
unfolding is_blank
lstrip [] = []
lstrip (c ∷ s) = if is_blank c then lstrip s else c ∷ s

-- `s.strip()`
unfoldable pub strip : Text → Text
unfolding lstrip
strip s = reverse (lstrip (reverse (lstrip s)))

-- The pieces between the code points that `cut` names, blank pieces included.
unfoldable pub split_on : (ℕ → Bool) → Text → List Text
split_on cut [] = [] ∷ []
split_on cut (c ∷ s) = elim (split_on cut s) [
  | [] ↦ (c ∷ []) ∷ []
  | piece ∷ rest ↦ if cut c then [] ∷ piece ∷ rest else (c ∷ piece) ∷ rest
]

unfoldable pub drop_empty : List Text → List Text
drop_empty [] = []
drop_empty ([] ∷ rest) = drop_empty rest
drop_empty ((c ∷ s) ∷ rest) = (c ∷ s) ∷ drop_empty rest

-- `s.split()`
unfoldable pub split : Text → List Text
unfolding split_on drop_empty is_blank
split s = drop_empty (split_on is_blank s)

unfoldable pub all_digits : Text → Bool
unfolding is_digit
all_digits [] = true
all_digits (c ∷ s) = is_digit c && all_digits s

-- `s.isdigit()`
unfoldable pub isdigit : Text → Bool
unfolding all_digits
isdigit s = nonempty s && all_digits s

unfoldable pub to_nat_from : ℕ → Text → ℕ
to_nat_from n [] = n
to_nat_from n (c ∷ s) = to_nat_from (n * 10 + (c - b'0')) s

-- `int(s)` of a text of digits
unfoldable pub to_nat : Text → ℕ
unfolding to_nat_from
to_nat s = to_nat_from 0 s

-- `s.startswith(prefix)`
unfoldable pub starts_with : Text → Text → Bool
starts_with [] s = true
starts_with (c ∷ p) [] = false
starts_with (c ∷ p) (d ∷ s) = nat_eq c d && starts_with p s

-- `s[:n]`
unfoldable pub take : ℕ → Text → Text
take zero s = []
take (suc n) [] = []
take (suc n) (c ∷ s) = c ∷ take n s

-- `s[n:]`
unfoldable pub drop : ℕ → Text → Text
drop zero s = s
drop (suc n) [] = []
drop (suc n) (c ∷ s) = drop n s

-- `s.lower()`
unfoldable pub lower : Text → Text
lower [] = []
lower (c ∷ s) = (if leb b'A' c && leb c b'Z' then c + 32 else c) ∷ lower s

-- `s.endswith(suffix)`
unfoldable pub ends_with : Text → Text → Bool
unfolding starts_with
ends_with suffix s = starts_with (reverse suffix) (reverse s)
