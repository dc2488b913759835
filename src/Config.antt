-- ===== src/Config.antt =====
-- api/Config.hpp and api/Config.cpp: the reader of `server.cfg`, and its three getters.
pub mod Lookup
pub mod Printing
use samp_plugin_api.Prelude.{
  ℕ, ◌+◌, ◌≡◌, Bool, true, false, ◌||◌, Option, none, some, List, [], ◌∷◌, ◌++◌, Text, ◌==◌, ltb,
  leb, if◌then◌else◌, length, get_elem?,
}
use samp_plugin_api.Prelude.OrdMap

pub record Config : Type 0 where
  pub entries : List (Text × List Text)

-- `new Config()`.
abbrev pub new_config : Config
new_config = record { entries = [] }

-- The lines that `std::getline` yields: what follows the last newline counts unless it is empty.
unfoldable pub lines_from : Text → Text → List Text
lines_from [] [] = []
lines_from (c ∷ line) [] = (c ∷ line) ∷ []
lines_from line (c ∷ s) = elim (c == 10) [
  | true ↦ line ∷ lines_from [] s
  | false ↦ lines_from (line ++ c ∷ []) s
]

unfoldable pub lines : Text → List Text
lines s = lines_from [] s

-- `boost::is_any_of("\t ")`.
abbrev pub is_blank : ℕ → Bool
is_blank c = c == 9 || c == b' '

-- `boost::split` without token compression: every separator ends a token, an empty one too.
unfoldable pub split_from : Text → Text → List Text
split_from token [] = token ∷ []
split_from token (c ∷ s) = elim (is_blank c) [
  | true ↦ token ∷ split_from [] s
  | false ↦ split_from (token ++ c ∷ []) s
]

unfoldable pub split : Text → List Text
split line = split_from [] line

-- The body of the loop of `Load`, on the tokens of a line.
unfoldable pub add_tokens : List Text → Config → Config
add_tokens [] c = c
add_tokens (index ∷ []) c = c
add_tokens (index ∷ arg ∷ args) c = record c {
  entries = OrdMap.emplace index (arg ∷ args) c.entries;
}

unfoldable pub load_lines : List Text → Config → Config
load_lines [] c = c
load_lines (line ∷ rest) c = load_lines rest (add_tokens (split line) c)

-- `Config::Load`; the argument is the text of the file, if it can be opened.
unfoldable pub load : Option Text → Config → Config × Bool
load none c = (c, false)
load (some file) c = (load_lines (lines file) c, true)

abbrev pub at_pos : Option (List Text) → ℕ → Option Text
at_pos none pos = none
at_pos (some args) pos = if leb (length args) pos then none else get_elem? args pos

-- `Config::Get(index, dest, pos)`: what is written to `dest`, if the call returns true.
unfoldable pub get : Config → Text → ℕ → Option Text
get c index pos = at_pos (OrdMap.find index c.entries) pos

abbrev pub appended : Option (List Text) → List Text → List Text × Bool
appended none args = (args, false)
appended (some entry) args = (args ++ entry, true)

-- `Config::Get(index, args)`: the vector that is appended to, and the result.
unfoldable pub get_args : Config → Text → List Text → List Text × Bool
get_args c index args = appended (OrdMap.find index c.entries) args

abbrev pub or_default : Option Text → Text → Text
or_default none def = def
or_default (some v) def = v

-- `Config::Get(index, dest, def, pos)`: what `dest` holds afterwards.
unfoldable pub get_default : Config → Text → Text → ℕ → Text
get_default c index def pos = or_default (get c index pos) def
