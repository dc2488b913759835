-- ===== src/Numbers/Digits.antt =====
-- What the conversions make of a text of digits.
use samp_plugin_api.Prelude.{
  ℕ, ◌+◌, ◌-◌, ◌*◌, ◌^◌, ◌≤◌, ◌<◌, ◌≡◌, ◌≢◌, refl, Bool, true, false, some, [], ◌∷◌, Text, All, ltb,
  if◌then◌else◌, arith,
}
use samp_plugin_api.Numbers.{
  number, out_of_range, skip_spaces, read_digits, read_sign, to_int, to_unsigned_long, stoi, stoul,
}

abbrev IsDigit : ℕ → Type 0
IsDigit c = (b'0' ≤ c) × (c ≤ b'9')

-- The number that digits write behind a number, in base 10.
abbrev pub value : ℕ → Text → ℕ
value n [] = n
value n (c ∷ s) = value (n * 10 + (c - b'0')) s

abbrev pub IsDecimal : Text → Type 0
IsDecimal s = (s ≢ []) × All IsDigit s

read_digits-value :
    (seen : Bool) (n : ℕ) (c : ℕ) (s : Text)
    → IsDigit c
    → All IsDigit s
    → read_digits seen n (c ∷ s) ≡ some (value n (c ∷ s))
unfolding read_digits
read_digits-value seen n c [] h hs = ground arith
read_digits-value seen n c (d ∷ s) h (k, ks) =
    ground (arith, read_digits-value true (n * 10 + (c - b'0')) d s k ks)

-- A digit is neither a space nor a sign.
unsigned : (s : Text) → IsDecimal s → read_sign (skip_spaces s) ≡ (false, some (value 0 s))
unfolding read_sign skip_spaces
unsigned [] (h, _) = absurd (h refl)
unsigned (c ∷ s) (_, (h, hs)) = ground (arith, read_digits-value false 0 c s h hs)

-- A text of digits is its number, where that fits, and is out of range otherwise.
stoi-value :
    (s : Text)
    → IsDecimal s
    → stoi s ≡ (if ltb (value 0 s) (2 ^ 31) then number (value 0 s) else out_of_range)
unfolding stoi to_int
stoi-value s h = rw (unsigned s h) refl

stoul-value :
    (s : Text)
    → IsDecimal s
    → stoul s ≡ (if ltb (value 0 s) (2 ^ 32) then number (value 0 s) else out_of_range)
unfolding stoul to_unsigned_long
stoul-value s h = rw (unsigned s h) refl

pub stoi-number : (s : Text) → IsDecimal s → value 0 s < 2 ^ 31 → stoi s ≡ number (value 0 s)
stoi-number s h l = ground (arith, stoi-value s h)

pub stoul-number : (s : Text) → IsDecimal s → value 0 s < 2 ^ 32 → stoul s ≡ number (value 0 s)
stoul-number s h l = ground (arith, stoul-value s h)
