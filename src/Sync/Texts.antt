-- ===== src/Sync/Texts.antt =====
-- Go's order of strings, and `strconv.FormatInt` at base 10.
use Prim.Native.Nat.{Ordering}
use Prim.Native.String.{◌++◌ as append, compare}
use license_server_ai.Base.{
  ℕ, zero, suc, ◌/◌, ◌%◌, ◌+◌, String, Bool, true, false, if◌then◌else◌, ◌==◌, ltb,
}
use license_server_ai.Base.Int.{ℤ, pos, negsuc}

abbrev is_lt : Ordering → Bool
is_lt Ordering.lt = true
is_lt Ordering.eq = false
is_lt Ordering.gt = false

-- `a < b`.
unfoldable pub str_lt : String → String → Bool
str_lt a b = is_lt (compare a b)

digit : ℕ → String
digit n =
    if n == 0
    then "0"
    else if n == 1
    then "1"
    else if n == 2
    then "2"
    else if n == 3
    then "3"
    else if n == 4
    then "4"
    else if n == 5
    then "5"
    else if n == 6
    then "6"
    else if n == 7
    then "7"
    else if n == 8
    then "8"
    else "9"

-- The fuel is the number of digits; an `int64` has 19 at most.
format_digits : ℕ → ℕ → String
unfolding digit
format_digits zero n = ""
format_digits (suc fuel) n =
    let rest = append (format_digits fuel (n / 10)) (digit (n % 10)) in
    if ltb n 10 then digit n else rest

unfoldable pub format_int : ℤ → String
unfolding format_digits
format_int (pos n) = format_digits 19 n
format_int (negsuc n) = append "-" (format_digits 19 (n + 1))
