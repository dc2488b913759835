-- ===== src/Config/Lookup.antt =====
-- Which line of the file a key's entry comes from.
use samp_plugin_api.Prelude.{
  ℕ, zero, suc, ◌≤◌, ap, ◌≡◌, refl, ◌∙◌, Option, none, some, List, [], ◌∷◌, Text, text_eq,
  if◌then◌else◌, length, get_elem?, arith,
}
use samp_plugin_api.Prelude.OrdMap
use samp_plugin_api.Config.{
  Config, split, add_tokens, load_lines, lines, load, get, get_args, get_default, at_pos, appended,
  or_default,
}

-- The arguments that a line gives a key, from its tokens: the first token is the key, and there is
-- at least one argument.
abbrev pub entry_of : Text → List Text → Option (List Text)
entry_of k [] = none
entry_of k (index ∷ []) = none
entry_of k (index ∷ arg ∷ args) = if text_eq index k then some (arg ∷ args) else none

-- The first line with an entry for the key.
unfoldable pub first_entry : Text → List Text → Option (List Text)
first_entry k [] = none
first_entry k (line ∷ rest) = OrdMap.first_some (entry_of k (split line)) (first_entry k rest)

find-add_tokens :
    (k : Text) (ts : List Text) (c : Config)
    → OrdMap.find k (add_tokens ts c).entries
      ≡ OrdMap.first_some (OrdMap.find k c.entries) (entry_of k ts)
unfolding add_tokens
find-add_tokens k [] c = ground arith
find-add_tokens k (index ∷ []) c = ground arith
find-add_tokens k (index ∷ arg ∷ args) c = OrdMap.find-emplace index k (arg ∷ args) c.entries

pub find-load_lines :
    (k : Text) (ls : List Text) (c : Config)
    → OrdMap.find k (load_lines ls c).entries
      ≡ OrdMap.first_some (OrdMap.find k c.entries) (first_entry k ls)
unfolding load_lines first_entry
find-load_lines k [] c = ground arith
find-load_lines k (line ∷ rest) c =
    find-load_lines k rest (add_tokens (split line) c)
    ∙ rw (find-add_tokens k (split line) c) (
        OrdMap.first_some_assoc (OrdMap.find k c.entries) (entry_of k (split line))
          (first_entry k rest))

-- The vector getter after `load`: a key keeps the entry that it had before the file was read, and
-- else has that of its first line in the file.
pub get_args-load :
    (file k : Text) (c : Config) (args : List Text)
    → get_args (load (some file) c).0 k args
      ≡ appended (OrdMap.first_some (OrdMap.find k c.entries) (first_entry k (lines file))) args
unfolding get_args load
get_args-load file k c args = rw (find-load_lines k (lines file) c)

get_elem?_beyond : (args : List Text) (pos : ℕ) → length args ≤ pos → get_elem? args pos ≡ none
get_elem?_beyond [] pos h = refl
get_elem?_beyond (a ∷ args) zero h = absurd (omega arith)
get_elem?_beyond (a ∷ args) (suc pos) h = get_elem?_beyond args pos (omega arith)

at_pos-appended :
    (o : Option (List Text)) (pos : ℕ) → at_pos o pos ≡ get_elem? (appended o []).0 pos
at_pos-appended none pos = refl
at_pos-appended (some args) pos = ground (arith, get_elem?_beyond args pos)

-- The three getters agree, on a present and on a missing key: `Get` with a position finds what
-- stands there in the vector that `Get` appends to, a position past its end is a miss, and the
-- default is used exactly on a miss.
pub getters_agree :
    (c : Config) (k def : Text) (pos : ℕ)
    → (get c k pos ≡ get_elem? (get_args c k []).0 pos)
      × (get_default c k def pos ≡ or_default (get_elem? (get_args c k []).0 pos) def)
unfolding get get_args get_default
getters_agree c k def pos =
    let e = at_pos-appended (OrdMap.find k c.entries) pos in (e, ap (λ o. or_default o def) e)
