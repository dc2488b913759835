-- ===== src/Regex.antt =====
-- The part of `std::regex` (ECMAScript syntax) that api/Route.hpp and api/Route.cpp use: single
-- characters, `[^\x]`, one or more of these (greedy or lazy), optional atoms, both kinds of groups
-- and the two anchors. Matching is by backtracking: a list of all outcomes, the preferred first.
pub mod Parse
pub mod Search
pub mod Backtrack
pub mod Fuel
use samp_plugin_api.Prelude.{
  ℕ, Bool, true, false, not, Option, none, some, List, [], ◌∷◌, ◌++◌, map, Text, ◌==◌,
  if◌then◌else◌, length, replicate, ◌+◌,
}

pub data Class : Type 0 where
  exactly : ℕ → Class
  none_but : ℕ → Class

pub data Regex : Type 0 where
  empty : Regex
  one : Class → Regex
  many : (lazy : Bool) → Class → Regex
  optional : Regex → Regex
  group : Regex → Regex
  cluster : Regex → Regex
  at_start : Regex
  at_end : Regex
  seq : Regex → Regex → Regex

-- Where a match stands: whether it is still at the start of the subject, what it has taken, what
-- its closed groups hold in the order of their numbers, and what is left.
pub record State : Type 0 where
  pub fresh : Bool
  pub taken : Text
  pub groups : List Text
  pub rest : Text

abbrev pub start : Text → State
start s = record { fresh = true; taken = []; groups = []; rest = s }

unfoldable pub accepts : Class → ℕ → Bool
accepts (exactly x) c = c == x
accepts (none_but x) c = not (c == x)

abbrev pub advance : ℕ → Text → State → State
advance c s st = record st { fresh = false; taken = st.taken ++ c ∷ []; rest = s }

unfoldable pub step : Class → Text → State → List State
step k [] st = []
step k (c ∷ s) st = if accepts k c then advance c s st ∷ [] else []

-- One or more characters of a class: the lazy order stops as early as it can.
unfoldable pub runs : Bool → Class → Text → State → List State
runs lazy k [] st = []
runs lazy k (c ∷ s) st =
    let here = advance c s st in
    let longer = runs lazy k s here in
    if accepts k c then if lazy then here ∷ longer else longer ++ here ∷ [] else []

unfoldable pub bind : List State → (State → List State) → List State
bind [] f = []
bind (st ∷ sts) f = f st ++ bind sts f

-- The number of groups that an expression numbers.
unfoldable pub marks : Regex → ℕ
marks (optional r) = marks r
marks (group r) = 1 + marks r
marks (cluster r) = marks r
marks (seq r q) = marks r + marks q
marks _ = 0

-- A group's number comes before those of the groups inside it.
abbrev pub capture : State → State → State
capture st inner = record inner {
  taken = st.taken ++ inner.taken;
  groups = st.groups ++ inner.taken ∷ inner.groups;
}

abbrev is_empty : Text → Bool
is_empty [] = true
is_empty (_ ∷ _) = false

unfoldable pub run : Regex → State → List State
run empty st = st ∷ []
run (one k) st = step k st.rest st
run (many lazy k) st = runs lazy k st.rest st
run (optional r) st = run r st ++ record st { groups = st.groups ++ replicate (marks r) [] } ∷ []
run (group r) st = map (capture st) (run r (record st { taken = []; groups = [] }))
run (cluster r) st = run r st
run at_start st = if st.fresh then st ∷ [] else []
run at_end st = if is_empty st.rest then st ∷ [] else []
run (seq r q) st = bind (run r st) (run q)

-- The groups of the first outcome that leaves nothing.
unfoldable pub accept : List State → Option (List Text)
accept [] = none
accept (st ∷ sts) = if is_empty st.rest then some st.groups else accept sts

abbrev pub with_whole : Text → Option (List Text) → Option (List Text)
with_whole s none = none
with_whole s (some groups) = some (s ∷ groups)

-- `regex_match(s, sm, re)`: the sub-matches, the whole match first.
unfoldable pub regex_match : Text → Regex → Option (List Text)
regex_match s r = with_whole s (accept (run r (start s)))
