-- ===== src/Route/Backtracking.antt =====
-- The expression made of a template, run with backtracking, against the meaning of the template.
use samp_plugin_api.Prelude.{
  ℕ, ◌≡◌, refl, ◌∙◌, true, false, Option, none, some, List, [], ◌∷◌, ◌++◌, map, Text, ◌==◌,
  Bool-cases, append_assoc, append-nil, codes, inl, inr, All,
}
use samp_plugin_api.Regex.{
  Regex, State, exactly, none_but, empty, one, many, cluster, group, seq, at_start, at_end, start,
  advance, capture, step, runs, run, bind, accepts, accept,
}
use samp_plugin_api.Regex.Backtrack.{or_else, accept-append, bind_assoc, bind_one, or_else-none}
use samp_plugin_api.Regex.Parse.{compile, parse, symbol, plain, close, Symbol}
use samp_plugin_api.Regex.Search.{fill}
use samp_plugin_api.Route.{capture_pattern}
use samp_plugin_api.Route.Template.{
  Token, lit, param, word, after, cons_value, fits, IsPlainToken, IsPlain, IsSeparated, Ends,
  template, template-IsSeparated,
}
use samp_plugin_api.Route.Pattern.{piece, word-slash, word-cons, after-cons, after_of_word}

abbrev param_regex : Regex
param_regex = cluster (seq empty (group (seq empty (many true (none_but b'/')))))

-- The rest of an expression, token by token.
continue : List Token → State → List State
continue [] st = run at_end st
continue (lit c ∷ ts) st = bind (run (one (exactly c)) st) (continue ts)
continue (param _ ∷ ts) st = bind (run param_regex st) (continue ts)

abbrev expansion : List Token → Text
expansion ts = fill capture_pattern (map piece ts)

parse_param :
    (acc : Regex) (prev : Option Regex) (s : Text)
    → parse [] acc prev (map symbol (capture_pattern ++ s))
      ≡ parse [] (close acc prev) (some param_regex) (map symbol s)
unfolding parse symbol
parse_param acc prev s = refl

parse_dollar :
    (acc : Regex) (prev : Option Regex)
    → parse [] acc prev (map symbol (codes "$")) ≡ some (seq (close acc prev) at_end)
unfolding parse symbol
parse_dollar acc none = refl
parse_dollar acc (some _) = refl

parse_plain :
    (acc : Regex) (prev : Option Regex) (c : ℕ) (s : List Symbol)
    → parse [] acc prev (plain c ∷ s) ≡ parse [] (close acc prev) (some (one (exactly c))) s
unfolding parse
parse_plain acc none c s = refl
parse_plain acc (some _) c s = refl

-- Reading the expansion succeeds, and its parts run one after the other.
record Reads (acc : Regex) (prev : Option Regex) (ts : List Token) : Type 0 where
  regex : Regex
  reads : parse [] acc prev (map symbol (expansion ts ++ codes "$")) ≡ some regex
  runs_on : (st : State) → run regex st ≡ bind (run (close acc prev) st) (continue ts)

run_seq-bind :
    (q a r : Regex) (k : State → List State)
    → ((st : State) → run r st ≡ bind (run (seq q a) st) k)
    → (st : State) → run r st ≡ bind (run q st) (λ st'. bind (run a st') k)
run_seq-bind q a r k h st = h st ∙ (unfold run in bind_assoc (run q st) (run a) k)

parse_template :
    (ts : List Token) (acc : Regex) (prev : Option Regex) → All IsPlainToken ts → Reads acc prev ts
unfolding continue fill
parse_template [] acc prev h = record {
  regex = seq (close acc prev) at_end;
  reads = parse_dollar acc prev;
  runs_on = λ st. unfold run in refl;
}
parse_template (lit c ∷ ts) acc prev (e, h) =
    let r = parse_template ts (close acc prev) (some (one (exactly c))) h in
    record {
      regex = r.regex;
      reads = rw e (parse_plain acc prev c _ ∙ r.reads);
      runs_on =
          λ st. run_seq-bind (close acc prev) (one (exactly c)) r.regex (continue ts) r.runs_on st;
    }
parse_template (param n ∷ ts) acc prev (_, h) =
    let r = parse_template ts (close acc prev) (some param_regex) h in
    record {
      regex = r.regex;
      reads = parse_param acc prev _ ∙ r.reads;
      runs_on = λ st. run_seq-bind (close acc prev) param_regex r.regex (continue ts) r.runs_on st;
    }

abbrev prefixed : List Text → Option (List Text) → Option (List Text)
prefixed gs none = none
prefixed gs (some vs) = some (gs ++ vs)

prefixed-append :
    (gs : List Text) (v : Text) (o : Option (List Text))
    → prefixed (gs ++ v ∷ []) o ≡ prefixed gs (cons_value v o)
prefixed-append gs v none = refl
prefixed-append gs v (some vs) = rw (append_assoc gs (v ∷ []) vs)

-- Before a slash or the end, what follows a parameter cannot begin with another character.
fits-Ends :
    (ts : List Token) (c : ℕ) (s : Text) → Ends ts → (c == b'/') ≡ false → fits ts (c ∷ s) ≡ none
unfolding fits
fits-Ends [] c s h e = refl
fits-Ends (lit x ∷ ts) c s h e = rw (h, e)
fits-Ends (param _ ∷ ts) c s h e = absurd h

fits-word :
    (ts : List Token) (s : Text) {x : ℕ} {w : Text} → Ends ts → word s ≡ x ∷ w → fits ts s ≡ none
unfolding word
fits-word ts [] h e = cc
fits-word ts (c ∷ s) h e = elim (Bool-cases (c == b'/')) [
  | inl slash ↦ cc (rw slash at e)
  | inr other ↦ fits-Ends ts c s h other
]

-- What a parameter captures, after `t` and given the word that is left.
abbrev outcome : List Token → List Text → Text → Text → Text → Option (List Text)
outcome ts gs t [] s = none
outcome ts gs t (x ∷ w) s = prefixed (gs ++ (t ++ x ∷ w) ∷ []) (fits ts (after s))

stop_early :
    (ts : List Token) (gs : List Text) (t : Text) (c : ℕ) (s w : Text)
    → Ends ts
    → word s ≡ w
    → or_else (prefixed (gs ++ (t ++ c ∷ []) ∷ []) (fits ts s)) (outcome ts gs (t ++ c ∷ []) w s)
      ≡ prefixed (gs ++ (t ++ c ∷ w) ∷ []) (fits ts (after s))
stop_early ts gs t c s [] h e = rw (or_else-none, after_of_word s e)
stop_early ts gs t c s (x ∷ w) h e = rw (fits-word ts s h e, append_assoc t (c ∷ []) (x ∷ w))

-- The lazy parameter: stopping early fails, and the whole word is what is captured.
accept-runs :
    (ts : List Token) (k : State → List State) (st : State)
    → Ends ts
    → ((st' : State) → accept (k st') ≡ prefixed st'.groups (fits ts st'.rest))
    → (s : Text) (inner : State) → inner.groups ≡ []
    → accept (bind (map (capture st) (runs true (none_but b'/') s inner)) k)
      ≡ outcome ts st.groups inner.taken (word s) s
unfolding runs accepts bind
accept-runs ts k st h hk [] inner g = unfold word accept in refl
accept-runs ts k st h hk (c ∷ s) inner g = elim (Bool-cases (c == b'/')) [
  | inl e ↦ rw (word-slash c s e, e) (unfold accept in refl)
  | inr e ↦
      rw
        (
          word-cons c s e,
          after-cons c s e,
          e,
          accept-append,
          hk,
          accept-runs ts k st h hk s (advance c s inner) g,
          g,
        )
        (stop_early ts st.groups inner.taken c s (word s) h refl)
]

fits_param :
    (ts : List Token) (n : Text) (gs : List Text) (s w : Text)
    → word s ≡ w
    → outcome ts gs [] w s ≡ prefixed gs (fits (param n ∷ ts) s)
unfolding fits
fits_param ts n gs s [] e = rw (e, fits)
fits_param ts n gs s (x ∷ w) e = rw (e, fits) (prefixed-append gs (x ∷ w) (fits ts (after s)))

accept_lit :
    (c : ℕ) (ts : List Token) (st : State)
    → ((st' : State) → accept (continue ts st') ≡ prefixed st'.groups (fits ts st'.rest))
    → (s : Text)
    → accept (bind (step (exactly c) s st) (continue ts)) ≡ prefixed st.groups (fits (lit c ∷ ts) s)
unfolding step accepts bind fits
accept_lit c ts st ih [] = unfold accept in refl
accept_lit c ts st ih (x ∷ s) = elim (Bool-cases (x == c)) [
  | inl e ↦ rw (e, append-nil) (ih (advance x s st))
  | inr e ↦ rw e (unfold accept in refl)
]

accept_end :
    (st : State) (s : Text) → st.rest ≡ s → accept (continue [] st) ≡ prefixed st.groups (fits [] s)
unfolding accept continue run fits
accept_end st [] e = rw e (rw (append-nil st.groups))
accept_end st (c ∷ s) e = rw e

accept-continue :
    (ts : List Token) (st : State)
    → IsSeparated ts
    → accept (continue ts st) ≡ prefixed st.groups (fits ts st.rest)
unfolding continue run
accept-continue [] st h = accept_end st st.rest refl
accept-continue (lit c ∷ ts) st h = accept_lit c ts st (λ st'. accept-continue ts st' h) st.rest
accept-continue (param n ∷ ts) st (e, h) = simp bind_one (
    accept-runs ts (continue ts) st e (λ st'. accept-continue ts st' h) st.rest
      (record st { taken = []; groups = [] }) refl
    ∙ fits_param ts n st.groups st.rest (word st.rest) refl)

prefixed-nil : (o : Option (List Text)) → prefixed [] o ≡ o
prefixed-nil none = refl
prefixed-nil (some _) = refl

-- The expression that `Match::test` makes of a template is well formed, and it accepts a url with
-- exactly the values that the meaning of the template gives.
pub record Compiled (tmpl : Text) : Type 0 where
  pub regex : Regex
  pub compiled : compile (codes "^" ++ expansion (template tmpl) ++ codes "$") ≡ some regex
  pub accepted : (s : Text) → accept (run regex (start s)) ≡ fits (template tmpl) s

parse_caret : (s : Text) → compile (b'^' ∷ s) ≡ parse [] empty (some at_start) (map symbol s)
unfolding compile
parse_caret s = refl

run_caret :
    (s : Text) (k : State → List State)
    → bind (run (close empty (some at_start)) (start s)) k ≡ k (start s)
unfolding run bind
run_caret s k = append-nil (k (start s))

pub compile_template : (tmpl : Text) → IsPlain tmpl → Compiled tmpl
compile_template tmpl h =
    let ts = template tmpl in
    let r = parse_template ts empty (some at_start) h in
    record {
      regex = r.regex;
      compiled = parse_caret _ ∙ r.reads;
      accepted = λ s.
          rw
            (
              r.runs_on (start s),
              run_caret s (continue ts),
              accept-continue ts (start s) (template-IsSeparated tmpl),
            )
            (prefixed-nil (fits ts s));
    }
