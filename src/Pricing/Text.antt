-- ===== src/Pricing/Text.antt =====
-- Go texts as lists of bytes: `strings.TrimSpace` and `strconv.Atoi`, for ASCII texts.
use license_server_ai.Base.{
  ℕ, ◌+◌, ◌-◌, ◌*◌, ◌^◌, Bool, true, false, ◌&&◌, ◌||◌, Option, none, some, List, [], ◌∷◌,
  if◌then◌else◌, ltb, leb, ◌==◌,
}
use mathlib.Core.List.{reverse}
use license_server_ai.Base.Int.{ℤ, pos, sub_ℕ}

abbrev pub Text : Type 0
Text = List ℕ

-- `unicode.IsSpace` of a byte: tab, line feed, vertical tab, form feed, return, space, 0x85, 0xa0.
unfoldable pub is_space : ℕ → Bool
is_space c = (leb 9 c && leb c 13) || (c == 32) || (c == 0x85) || (c == 0xa0)

abbrev pub is_digit : ℕ → Bool
is_digit c = leb b'0' c && leb c b'9'

unfoldable pub skip_spaces : Text → Text
unfolding is_space
skip_spaces [] = []
skip_spaces (c ∷ cs) = if is_space c then skip_spaces cs else c ∷ cs

unfoldable pub trim_space : Text → Text
unfolding skip_spaces
trim_space s = reverse (skip_spaces (reverse (skip_spaces s)))

-- The value of decimal digits, on top of what was read before.
unfoldable pub digits_from : ℕ → Text → Option ℕ
digits_from n [] = some n
digits_from n (c ∷ cs) =
    let rest = digits_from (n * 10 + (c - b'0')) cs in if is_digit c then rest else none

abbrev in_range : Bool → Option ℕ → Option ℤ
in_range negative none = none
in_range negative (some n) =
    if negative
    then (if leb n (2 ^ 63) then some (sub_ℕ 0 n) else none)
    else (if ltb n (2 ^ 63) then some (pos n) else none)

-- No digit at all is a syntax error.
unfoldable pub unsigned : Bool → Text → Option ℤ
unfolding digits_from
unsigned negative [] = none
unsigned negative (c ∷ cs) = in_range negative (digits_from 0 (c ∷ cs))

unfoldable pub atoi : Text → Option ℤ
unfolding unsigned
atoi [] = none
atoi (c ∷ cs) =
    if c == b'-'
    then unsigned true cs
    else if c == b'+'
    then unsigned false cs
    else unsigned false (c ∷ cs)
