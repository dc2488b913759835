-- ===== src/Route/Pattern.antt =====
-- What the search for `path_pattern` finds in a template: the parameters of its meaning.
use samp_plugin_api.Prelude.{
  append_laws, ℕ, zero, suc, ◌≤◌, ◌<◌, ◌≡◌, refl, ap, Bool, true, false, Option, none, some, List,
  [], ◌∷◌, ◌++◌, map, Text, ◌==◌, ==_iff, length, inl, inr, Bool-cases, append_assoc, append-nil,
  arith,
}
use samp_plugin_api.Regex.{
  Regex, State, exactly, none_but, empty, one, many, optional, group, seq, advance, capture, step,
  marks, runs, run, bind, accepts,
}
use samp_plugin_api.Regex.Parse.{compile}
use samp_plugin_api.Regex.Fuel.{scan-fuel}
use samp_plugin_api.Regex.Search.{Piece, skipped, matched, first, at, scan, pieces}
use samp_plugin_api.Route.{path_pattern}
use samp_plugin_api.Route.Template.{Token, lit, param, read, word, after}

abbrev no_slash : Regex
no_slash = many false (none_but b'/')

abbrev pub path_regex : Regex
path_regex = seq (seq empty (one (exactly b':'))) (optional (group (seq empty no_slash)))

pub compile-path_pattern : compile path_pattern ≡ some path_regex
unfolding compile
compile-path_pattern = refl

abbrev or_first : Option State → Option State → Option State
or_first none y = y
or_first (some x) _ = some x

first-append : (xs ys : List State) → first (xs ++ ys) ≡ or_first (first xs) (first ys)
unfolding first
first-append [] ys = refl
first-append (x ∷ xs) ys = refl

-- The state after the whole of the next word.
abbrev beyond : Text → State → State
beyond s st = record st { fresh = false; taken = st.taken ++ word s; rest = after s }

abbrev some_word : Text → Text → State → Option State
some_word [] s st = none
some_word (_ ∷ _) s st = some (beyond s st)

pub word-slash : (c : ℕ) (s : Text) → (c == b'/') ≡ true → word (c ∷ s) ≡ []
unfolding word
word-slash c s e = rw e

pub word-cons : (c : ℕ) (s : Text) → (c == b'/') ≡ false → word (c ∷ s) ≡ c ∷ word s
unfolding word
word-cons c s e = rw e

pub after-cons : (c : ℕ) (s : Text) → (c == b'/') ≡ false → after (c ∷ s) ≡ after s
unfolding after
after-cons c s e = rw e

pub after_of_word : (s : Text) → word s ≡ [] → after s ≡ s
unfolding word after
after_of_word [] e = refl
after_of_word (c ∷ s) e = ground arith

-- One more character in front of the longest run.
longer_run :
    (c : ℕ) (s : Text) (st : State) (w : Text)
    → word s ≡ w
    → or_first (some_word w s (advance c s st)) (some (advance c s st))
      ≡ some (record st { fresh = false; taken = st.taken ++ c ∷ w; rest = after s })
longer_run c s st [] e = rw (after_of_word s e)
longer_run c s st (x ∷ w) e = rw (e, append_assoc st.taken (c ∷ []) (x ∷ w))

first-runs :
    (s : Text) (st : State) → first (runs false (none_but b'/') s st) ≡ some_word (word s) s st
unfolding runs accepts
first-runs [] st = unfold first word in refl
first-runs (c ∷ s) st = elim (Bool-cases (c == b'/')) [
  | inl e ↦ rw (word-slash c s e, e) (unfold first in refl)
  | inr e ↦
      rw (word-cons c s e, e, first-append, first-runs s (advance c s st))
        (rw (word-cons c s e, after-cons c s e) (unfold first in longer_run c s st (word s) refl))
]

-- Behind the colon, with an empty group so far.
abbrev opened : Text → State
opened s = record { fresh = false; taken = []; groups = []; rest = s }

abbrev found : Text → Text → State
found w s = record { fresh = false; taken = b':' ∷ w; groups = w ∷ []; rest = s }

abbrev captured : Option State → Option State
captured none = none
captured (some x) =
    some (capture (record { fresh = false; taken = b':' ∷ []; groups = []; rest = [] }) x)

first_group :
    (s w : Text)
    → word s ≡ w
    → or_first (captured (some_word w s (opened s))) (some (found [] s)) ≡ some (found w (after s))
first_group s [] e = rw (after_of_word s e)
first_group s (x ∷ w) e = rw e

first-map :
    (f : State → State) (xs : List State) (y : Option State)
    → first xs ≡ y
    → first (map f xs) ≡ elim y [ none ↦ none | some x ↦ some (f x) ]
unfolding first
first-map f [] y e = rw (← e)
first-map f (x ∷ xs) y e = rw (← e)

-- What a search finds at a place: a colon and the word that follows it.
first-run_colon :
    (b : Bool) (s : Text)
    → first (run path_regex (at b (b':' ∷ s))) ≡ some (found (word s) (after s))
unfolding run bind step accepts marks
first-run_colon b s =
    rw (append-nil (runs false (none_but b'/') s (opened s)), append-nil, first-append)
      (rw (first-map _ (runs false (none_but b'/') s (opened s)) _ (first-runs s (opened s)))
        (unfold first in first_group s (word s) refl))

first-run_other :
    (b : Bool) (c : ℕ) (s : Text)
    → (c == b':') ≡ false
    → first (run path_regex (at b (c ∷ s))) ≡ none
unfolding run bind step accepts first
first-run_other b c s e = rw e

-- The pieces of a template are those of its meaning.
abbrev pub piece : Token → Piece
piece (lit c) = skipped c
piece (param n) = matched (b':' ∷ n)

read-some : (n s : Text) → read (some n) s ≡ param (n ++ word s) ∷ read none (after s)
unfolding read
read-some n [] = unfold word after in simp append_laws
read-some n (c ∷ s) = elim (Bool-cases (c == b'/')) [
  | inl e ↦ rw ((==_iff c b'/').0 e) (unfold word after in simp append_laws)
  | inr e ↦
      rw (word-cons c s e, after-cons c s e, e, read)
        (rw (read-some (n ++ c ∷ []) s, append_assoc n (c ∷ []) (word s)) refl)
]

length-after-le : (s : Text) → length (after s) ≤ length s
unfolding after
length-after-le [] = omega arith
length-after-le (c ∷ s) = ground (arith, length-after-le s)

pub scan_template :
    (f : ℕ) (b : Bool) (s : Text) → length s < f → scan f b path_regex s ≡ map piece (read none s)
unfolding scan read
scan_template zero b s h = elim h [ ]
scan_template (suc f) b [] h = refl
scan_template (suc f) b (c ∷ s) h = elim (Bool-cases (c == b':')) [
  | inl e ↦ rw ((==_iff c b':').0 e) (
      rw (first-run_colon b s, scan, read-some [] s)
        (ap (matched (b':' ∷ word s) ∷◌)
          (scan_template f false (after s) (omega (arith, length-after-le s)))))
  | inr e ↦
      rw (first-run_other b c s e, scan, e, read)
        (ap (skipped c ∷◌) (scan_template f false s (omega arith)))
]

-- The search for `path_pattern` in a template is never cut short: with any fuel from the length of
-- the template on, it finds the same.
scan-pieces : (f : ℕ) (s : Text) → length s ≤ f → scan f true path_regex s ≡ pieces path_regex s
unfolding pieces
scan-pieces f s h = scan-fuel f (suc (length s)) true path_regex s (omega arith) h (omega arith)
