-- ===== src/Route.antt =====
-- api/Route.hpp and api/Route.cpp: the URL router. A `Match` holds a pointer to its `Route`; here
-- the route is an argument of the methods of the match.
pub mod Template
pub mod Pattern
pub mod Backtracking
pub mod Laws
pub mod Filling
pub mod Overlap
use samp_plugin_api.Prelude.{
  ℕ, zero, suc, ◌+◌, Bool, true, false, Option, none, some, List, [], ◌∷◌, ◌++◌, Text, codes,
  length, ltb, if◌then◌else◌,
}
use samp_plugin_api.Prelude.OrdMap
use samp_plugin_api.Regex.{Regex, empty, regex_match}
use samp_plugin_api.Regex.Parse.{compile}
use samp_plugin_api.Regex.Search.{tokens, regex_replace}

-- The ways a call can end: a value, a `regex_error`, an index past the end of a vector, or a
-- `boost::system::system_error`.
pub data Checked {ℓ} (A : Type ℓ) : Type ℓ where
  ok : A → Checked A
  regex_error : Checked A
  out_of_range : Checked A
  system_error : Checked A

infixl 5 ◌>>=◌
abbrev pub ◌>>=◌ {ℓ κ} : {A : Type ℓ} {B : Type κ} → Checked A → (A → Checked B) → Checked B
ok a >>= f = f a
regex_error >>= f = regex_error
out_of_range >>= f = out_of_range
system_error >>= f = system_error

abbrev checked_regex : Option Regex → Checked Regex
checked_regex none = regex_error
checked_regex (some r) = ok r

-- The call returns, and a value with the property.
abbrev pub Returns {ℓ} : {A : Type ℓ} → (A → Type 0) → Checked A → Type 0
Returns P (ok a) = P a
Returns P _ = ⊥

pub Returns-bind {ℓ κ} :
    {A : Type ℓ} {B : Type κ} (P : A → Type 0) (Q : B → Type 0) (r : Checked A) (f : A → Checked B)
    → Returns P r
    → ((a : A) → P a → Returns Q (f a))
    → Returns Q (r >>= f)
Returns-bind P Q (ok a) f h k = k a h
Returns-bind P Q regex_error f h k = h
Returns-bind P Q out_of_range f h k = h
Returns-bind P Q system_error f h k = h

pub Returns-both {ℓ} :
    {A : Type ℓ} (P Q : A → Type 0) (r : Checked A)
    → Returns P r
    → Returns Q r
    → Returns (λ a. P a × Q a) r
Returns-both P Q (ok a) h k = (h, k)
Returns-both P Q regex_error h k = h
Returns-both P Q out_of_range h k = h
Returns-both P Q system_error h k = h

pub Returns-map {ℓ} :
    {A : Type ℓ} (P Q : A → Type 0) (r : Checked A)
    → ((a : A) → P a → Q a)
    → Returns P r
    → Returns Q r
Returns-map P Q (ok a) k h = k a h
Returns-map P Q regex_error k h = h
Returns-map P Q out_of_range k h = h
Returns-map P Q system_error k h = h

-- The constructor `std::regex(pattern)`.
abbrev pub regex : Text → Checked Regex
regex pattern = checked_regex (compile pattern)

pub record PathEntry : Type 0 where
  pub re : Regex
  pub keys : List Text

pub record Route : Type 0 where
  pub url : Text
  pub path_to_regex : Regex
  pub cache : List (Text × PathEntry)

abbrev pub capture_pattern : Text
capture_pattern = codes "(?:([^\\/]+?))"

abbrev pub path_pattern : Text
path_pattern = codes ":([^\\/]+)?"

-- `keys` has no value before the first `test`.
pub record Match : Type 0 where
  pub pairs : List (Text × Text)
  pub keys : Option ℕ

-- The constructor of a `Route`.
abbrev pub new_route : Route
new_route = record { url = []; path_to_regex = empty; cache = [] }

abbrev pub new_match : Match
new_match = record { pairs = []; keys = none }

-- `Route::set`: the route with its new url, and a fresh match.
pub set : Text → Route → Checked (Route × Match)
set u r = do re ← regex path_pattern; ok (record r { url = u; path_to_regex = re }, new_match)

abbrev pub or_blank : Option Text → Text
or_blank none = []
or_blank (some v) = v

-- `Match::get`.
unfoldable pub get : Text → Match → Text
get key m = or_blank (OrdMap.find key m.pairs)

-- `key.erase(0, 1)` for each token.
pub key_names : List Text → List Text
key_names [] = []
key_names ([] ∷ ts) = [] ∷ key_names ts
key_names ((_ ∷ name) ∷ ts) = name ∷ key_names ts

-- The `else` branch of `Match::test`: the keys of the template, and the expression made of it.
pub build_path : Route → Text → Checked PathEntry
build_path r tmpl = do
  let keys = key_names (tokens r.path_to_regex tmpl)
  let exp = regex_replace tmpl r.path_to_regex capture_pattern
  re ← regex (codes "^" ++ exp ++ codes "$")
  ok (record { re = re; keys = keys })

abbrev cached_or_built : Option PathEntry → Checked PathEntry → Checked PathEntry
cached_or_built (some path) built = ok path
cached_or_built none built = built

pub cached_path : Route → Text → Checked PathEntry
cached_path r tmpl = cached_or_built (OrdMap.find tmpl r.cache) (build_path r tmpl)

-- The `for` loop of `Match::test` over `sm_values[1]`, `sm_values[2]` and so on.
pub insert_pairs : List Text → List Text → Match → Checked Match
insert_pairs keys [] m = ok m
insert_pairs [] (v ∷ vs) m = out_of_range
insert_pairs (k ∷ keys) (v ∷ vs) m = insert_pairs keys vs (record {
  pairs = OrdMap.emplace k v m.pairs;
  keys = elim m.keys [ none ↦ none | some n ↦ some (n + 1) ];
})

abbrev sub_matches : List Text → List Text
sub_matches [] = []
sub_matches (whole ∷ groups) = groups

-- `Match::test` once the url has been matched against the expression.
pub collect : List Text → Match → Option (List Text) → Checked (Match × Bool)
collect keys m none = ok (m, false)
collect keys m (some sm_values) =
    if ltb (length sm_values) 1
    then ok (m, true)
    else (insert_pairs keys (sub_matches sm_values) m >>= λ m'. ok (m', true))

-- `Match::test`: the match with its pairs and its count, and whether the url fits the template.
pub test : Route → Text → Match → Checked (Match × Bool)
test r tmpl m = do
  let cleared : Match = record { pairs = []; keys = some 0 }
  path ← cached_path r tmpl
  collect path.keys cleared (regex_match r.url path.re)
