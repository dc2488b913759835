-- ===== src/Route/Laws.antt =====
-- `Route::set`, `Match::test` and `Match::get` against the meaning of a template.
use samp_plugin_api.Prelude.{
  suc, ◌+◌, ◌≡◌, refl, ap, ◌∙◌, Bool, true, false, Option, none, some, List, [], ◌∷◌, map, Text,
  length, arith,
}
use samp_plugin_api.Prelude.OrdMap
use samp_plugin_api.Regex.{with_whole, regex_match}
use samp_plugin_api.Regex.Search.{tokens, regex_replace, matches, pieces}
use samp_plugin_api.Route.{
  ok, Route, Match, new_match, set, test, get, key_names, build_path, cached_path, insert_pairs,
  collect, or_blank,
}
use samp_plugin_api.Route.Template.{
  Token, lit, param, template, fits, names, IsPlain, value_of, length-fits,
}
use samp_plugin_api.Route.Pattern.{path_regex, compile-path_pattern, piece, scan_template}
use samp_plugin_api.Route.Backtracking.{Compiled, compile_template}

-- A route after `set`: only the cache is what it was.
abbrev pub aimed : Text → Route → Route
aimed u r = record r { url = u; path_to_regex = path_regex }

pub set_lem : (u : Text) (r : Route) → set u r ≡ ok (aimed u r, new_match)
unfolding set
set_lem u r = rw compile-path_pattern

key_names-matches : (ts : List Token) → key_names (matches (map piece ts)) ≡ names ts
unfolding key_names matches names
key_names-matches [] = refl
key_names-matches (lit c ∷ ts) = key_names-matches ts
key_names-matches (param n ∷ ts) = ap (n ∷◌) (key_names-matches ts)

pieces-template : (tmpl : Text) → pieces path_regex tmpl ≡ map piece (template tmpl)
unfolding pieces template
pieces-template tmpl = scan_template (suc (length tmpl)) true tmpl (omega arith)

-- The pairs that the loop of `test` makes, and their number.
pub filled : List Text → List Text → Match → Match
filled (k ∷ keys) (v ∷ vs) m = filled keys vs (record {
  pairs = OrdMap.emplace k v m.pairs;
  keys = elim m.keys [ none ↦ none | some n ↦ some (n + 1) ];
})
filled _ _ m = m

insert_pairs_lem :
    (keys vs : List Text) (m : Match)
    → length vs ≡ length keys
    → insert_pairs keys vs m ≡ ok (filled keys vs m)
unfolding insert_pairs filled
insert_pairs_lem [] [] m e = refl
insert_pairs_lem (k ∷ keys) [] m e = absurd (omega arith)
insert_pairs_lem [] (v ∷ vs) m e = absurd (omega arith)
insert_pairs_lem (k ∷ keys) (v ∷ vs) m e = insert_pairs_lem keys vs _ (omega arith)

abbrev pub cleared : Match
cleared = record { pairs = []; keys = some 0 }

-- What `test` gives, from the meaning of the template alone.
abbrev pub answer : List Token → Option (List Text) → Match × Bool
answer ts none = (cleared, false)
answer ts (some vs) = (filled (names ts) vs cleared, true)

build_path_lem :
    (u tmpl : Text) (r : Route) (c : Compiled tmpl)
    → build_path (aimed u r) tmpl ≡ ok (record { re = c.regex; keys = names (template tmpl) })
unfolding build_path tokens regex_replace
build_path_lem u tmpl r c =
    rw (pieces-template tmpl, key_names-matches (template tmpl)) (rw (c.compiled) refl)

collect_lem :
    (ts : List Token) (s : Text) (o : Option (List Text))
    → fits ts s ≡ o
    → collect (names ts) cleared (with_whole s o) ≡ ok (answer ts o)
unfolding collect
collect_lem ts s none e = refl
collect_lem ts s (some vs) e =
    ground (arith, insert_pairs_lem (names ts) vs cleared (length-fits ts s vs e))

-- On a template whose literal characters are plain, `test` raises no error, and it answers with
-- the meaning of the template: whether the url fits, and the pairs of names and values. Whatever
-- an earlier `test` left in the match is gone. The route is one that `set` has returned, with
-- nothing in its cache.
pub test_lem :
    (tmpl u : Text) (r : Route) (m : Match)
    → IsPlain tmpl
    → r.cache ≡ []
    → test (aimed u r) tmpl m ≡ ok (answer (template tmpl) (fits (template tmpl) u))
unfolding test cached_path OrdMap.find regex_match
test_lem tmpl u r m h e =
    let c = compile_template tmpl h in
    rw (e, build_path_lem u tmpl (record r { cache = [] }) c, c.accepted u)
      (collect_lem (template tmpl) u (fits (template tmpl) u) refl)

find-filled :
    (k : Text) (keys vs : List Text) (m : Match)
    → OrdMap.find k (filled keys vs m).pairs
      ≡ OrdMap.first_some (OrdMap.find k m.pairs) (value_of k keys vs)
unfolding value_of filled
find-filled k (n ∷ keys) (v ∷ vs) m =
    find-filled k keys vs _
    ∙ rw (OrdMap.find-emplace n k v m.pairs, OrdMap.first_some_assoc) (ground arith)
find-filled k [] vs m = ground arith
find-filled k (_ ∷ _) [] m = ground arith

-- After a `test` that succeeds, `get` gives the part of the url that stands at the first parameter
-- of that name, and the empty text for any other name.
pub get-answer :
    (k : Text) (ts : List Token) (vs : List Text)
    → get k (answer ts (some vs)).0 ≡ or_blank (value_of k (names ts) vs)
unfolding get OrdMap.find
get-answer k ts vs = ap or_blank (find-filled k (names ts) vs cleared)
