-- ===== src/Numbers.antt =====
-- `std::stoi` and `std::stoul` in base 10, where `int` and `unsigned long` have 32 bits, as on the
-- game server. Results are bit patterns.
pub mod Bounds
pub mod Digits
use samp_plugin_api.Prelude.{
  ℕ, ◌+◌, ◌-◌, ◌*◌, ◌%◌, ◌^◌, Bool, true, false, ◌&&◌, ◌||◌, Option, none, some, List, [], ◌∷◌,
  Text, ◌==◌, ltb, leb, if◌then◌else◌,
}

pub data Number : Type 0 where
  number : ℕ → Number
  invalid_argument out_of_range : Number

abbrev is_space : ℕ → Bool
is_space c = c == b' ' || (leb 9 c && leb c 13)

abbrev is_digit : ℕ → Bool
is_digit c = leb b'0' c && leb c b'9'

unfoldable pub skip_spaces : Text → Text
skip_spaces [] = []
skip_spaces (c ∷ s) = if is_space c then skip_spaces s else c ∷ s

abbrev digits_end : Bool → ℕ → Option ℕ
digits_end true acc = some acc
digits_end false acc = none

-- The number that the leading digits write, if there is one.
unfoldable pub read_digits : Bool → ℕ → Text → Option ℕ
read_digits seen acc [] = digits_end seen acc
read_digits seen acc (c ∷ s) = elim (is_digit c) [
  | true ↦ read_digits true (acc * 10 + (c - b'0')) s
  | false ↦ digits_end seen acc
]

-- Whether a minus sign stands in front, and the number without its sign.
unfoldable pub read_sign : Text → Bool × Option ℕ
read_sign [] = (false, none)
read_sign (c ∷ s) =
    if c == b'-'
    then (true, read_digits false 0 s)
    else if c == b'+'
    then (false, read_digits false 0 s)
    else (false, read_digits false 0 (c ∷ s))

unfoldable pub to_int : Bool × Option ℕ → Number
to_int (_, none) = invalid_argument
to_int (false, some n) = if ltb n (2 ^ 31) then number n else out_of_range
to_int (true, some n) = if leb n (2 ^ 31) then number ((2 ^ 32 - n) % 2 ^ 32) else out_of_range

unfoldable pub to_unsigned_long : Bool × Option ℕ → Number
to_unsigned_long (_, none) = invalid_argument
to_unsigned_long (false, some n) = if ltb n (2 ^ 32) then number n else out_of_range
to_unsigned_long (true, some n) =
    if ltb n (2 ^ 32) then number ((2 ^ 32 - n) % 2 ^ 32) else out_of_range

unfoldable pub stoi : Text → Number
stoi s = to_int (read_sign (skip_spaces s))

unfoldable pub stoul : Text → Number
stoul s = to_unsigned_long (read_sign (skip_spaces s))
