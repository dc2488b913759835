-- ===== src/Numbers/Bounds.antt =====
-- Both conversions give patterns of 32 bits, and what they refuse.
use samp_plugin_api.Prelude.{ℕ, ◌<◌, ◌^◌, ◌≡◌, Bool, true, false, Option, none, some, Text, arith}
use samp_plugin_api.Numbers.{number, to_int, to_unsigned_long, stoi, stoul, read_sign, skip_spaces}

to_unsigned_long-lt : (r : Bool × Option ℕ) (n : ℕ) → to_unsigned_long r ≡ number n → n < 2 ^ 32
unfolding to_unsigned_long
to_unsigned_long-lt (_, none) n e = cc
to_unsigned_long-lt (false, some k) n e = ground arith
to_unsigned_long-lt (true, some k) n e = ground arith

to_int-lt : (r : Bool × Option ℕ) (n : ℕ) → to_int r ≡ number n → n < 2 ^ 32
unfolding to_int
to_int-lt (_, none) n e = cc
to_int-lt (false, some k) n e = ground arith
to_int-lt (true, some k) n e = ground arith

pub stoul-lt : (s : Text) (n : ℕ) → stoul s ≡ number n → n < 2 ^ 32
unfolding stoul
stoul-lt s n e = to_unsigned_long-lt (read_sign (skip_spaces s)) n e

pub stoi-lt : (s : Text) (n : ℕ) → stoi s ≡ number n → n < 2 ^ 32
unfolding stoi
stoi-lt s n e = to_int-lt (read_sign (skip_spaces s)) n e
