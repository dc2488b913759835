-- ===== src/Regex/Search.antt =====
-- `sregex_token_iterator` and `regex_replace`: both walk the subject from left to right, and take
-- the preferred match at the first place where one begins.
use samp_plugin_api.Prelude.{
  ℕ, zero, suc, Bool, true, false, Option, none, some, List, [], ◌∷◌, ◌++◌, Text, length,
}
use samp_plugin_api.Regex.{Regex, State, run}

-- A character that no match takes, or the text of a match.
pub data Piece : Type 0 where
  skipped : ℕ → Piece
  matched : Text → Piece

unfoldable pub first : List State → Option State
first [] = none
first (st ∷ _) = some st

abbrev pub at : Bool → Text → State
at fresh s = record { fresh = fresh; taken = []; groups = []; rest = s }

-- The fuel counts rounds: each takes a character, where the expression matches no empty text.
unfoldable pub scan : ℕ → Bool → Regex → Text → List Piece
scan zero fresh r s = []
scan (suc f) fresh r [] = []
scan (suc f) fresh r (c ∷ s) = elim (first (run r (at fresh (c ∷ s)))) [
  | none ↦ skipped c ∷ scan f false r s
  | some st ↦ matched st.taken ∷ scan f false r st.rest
]

unfoldable pub pieces : Regex → Text → List Piece
unfolding scan first run
pieces r s = scan (suc (length s)) true r s

unfoldable pub matches : List Piece → List Text
matches [] = []
matches (skipped _ ∷ ps) = matches ps
matches (matched m ∷ ps) = m ∷ matches ps

-- The texts that a `sregex_token_iterator` over the subject yields.
unfoldable pub tokens : Regex → Text → List Text
unfolding pieces matches
tokens r s = matches (pieces r s)

unfoldable pub fill : Text → List Piece → Text
fill fmt [] = []
fill fmt (skipped c ∷ ps) = c ∷ fill fmt ps
fill fmt (matched _ ∷ ps) = fmt ++ fill fmt ps

-- `regex_replace(s, re, fmt)`, for a format without `$`.
unfoldable pub regex_replace : Text → Regex → Text → Text
unfolding pieces fill
regex_replace s r fmt = fill fmt (pieces r s)
