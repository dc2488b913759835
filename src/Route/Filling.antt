-- ===== src/Route/Filling.antt =====
-- The urls of a template: its text with a value in the place of each parameter.
use mathlib.Core.Option.{some-injective}
use samp_plugin_api.Prelude.{
  ℕ, ◌≡◌, ◌↔◌, ◌==◌, refl, sym, subst, ap, ap₂, ◌∙◌, true, false, Option, none, some, List, [], ◌∷◌,
  ◌++◌, Text, All, arith, text_eq, text_eq_iff, Bool-cases, ==_iff, inl, inr,
}
use samp_plugin_api.Route.{Route, Match, Returns, test, get, or_blank}
use samp_plugin_api.Route.Template.{
  Token, lit, param, template, word, after, cons_value, fits, IsPlain, Ends, IsSeparated,
  template-IsSeparated, names, value_of,
}
use samp_plugin_api.Route.Laws.{aimed, answer, test_lem, get-answer}

-- A value of a parameter: a part of a path.
abbrev HasNoSlash : Text → Type 0
HasNoSlash = All (λ c. (c == b'/') ≡ false)

abbrev IsPart : Text → Type 0
IsPart [] = ⊥
IsPart v = HasNoSlash v

-- One value for each parameter.
abbrev pub AreValues : List Token → List Text → Type 0
AreValues [] [] = Unit
AreValues [] (_ ∷ _) = ⊥
AreValues (lit _ ∷ ts) vs = AreValues ts vs
AreValues (param _ ∷ ts) [] = ⊥
AreValues (param _ ∷ ts) (v ∷ vs) = IsPart v × AreValues ts vs

unfoldable pub fill : List Token → List Text → Text
fill [] vs = []
fill (lit c ∷ ts) vs = c ∷ fill ts vs
fill (param _ ∷ ts) [] = fill ts []
fill (param _ ∷ ts) (v ∷ vs) = v ++ fill ts vs

-- Where a part of a path ends.
abbrev Stops : Text → Type 0
Stops [] = Unit
Stops (c ∷ _) = (c == b'/') ≡ true

fill-Stops : (ts : List Token) (vs : List Text) → Ends ts → Stops (fill ts vs)
unfolding fill
fill-Stops [] vs e = tt
fill-Stops (lit c ∷ ts) vs e = ground arith
fill-Stops (param _ ∷ ts) vs e = absurd e

word-append : (v s : Text) → HasNoSlash v → Stops s → (word (v ++ s) ≡ v) × (after (v ++ s) ≡ s)
unfolding word after
word-append [] [] h k = (refl, refl)
word-append [] (c ∷ s) h k = rw k (refl, refl)
word-append (c ∷ v) s (e, h) k = let (p, q) = word-append v s h k in rw e (ap (c ∷◌) p, q)

fits-param :
    (n : Text) (ts : List Token) (s : Text) (x : ℕ) (w : Text)
    → word s ≡ x ∷ w
    → fits (param n ∷ ts) s ≡ cons_value (x ∷ w) (fits ts (after s))
unfolding fits
fits-param n ts s x w e = rw (e, fits) refl

-- A filled template fits, with the values that it was filled with.
fits-fill :
    (ts : List Token) (vs : List Text)
    → IsSeparated ts
    → AreValues ts vs
    → fits ts (fill ts vs) ≡ some vs
unfolding fits fill
fits-fill [] [] i h = refl
fits-fill [] (_ ∷ _) i h = absurd h
fits-fill (lit c ∷ ts) vs i h = ground (arith, fits-fill ts vs i h)
fits-fill (param _ ∷ ts) [] i h = absurd h
fits-fill (param _ ∷ ts) ([] ∷ vs) i (h, k) = absurd h
fits-fill (param n ∷ ts) ((c ∷ v) ∷ vs) (e, i) (h, k) =
    let (p, q) = word-append (c ∷ v) (fill ts vs) h (fill-Stops ts vs e) in
    fits-param n ts ((c ∷ v) ++ fill ts vs) c v p
    ∙ ap (λ s. cons_value (c ∷ v) (fits ts s)) q
    ∙ ap (cons_value (c ∷ v)) (fits-fill ts vs i k)

word-HasNoSlash : (s : Text) → HasNoSlash (word s) × (word s ++ after s ≡ s)
unfolding word after
word-HasNoSlash [] = (tt, refl)
word-HasNoSlash (c ∷ s) = elim (Bool-cases (c == b'/')) [
  | inl e ↦ rw e (tt, refl)
  | inr e ↦ let (h, p) = word-HasNoSlash s in rw e ((e, h), ap (c ∷◌) p)
]

-- One parameter and what follows it.
abbrev Fills : List Token → Text → Type 0
Fills ts s = (vs : List Text) → fits ts s ≡ some vs → AreValues ts vs × (fill ts vs ≡ s)

cons-fill :
    (n : Text) (ts : List Token) (s : Text) (x : ℕ) (w : Text) (o : Option (List Text))
    → word s ≡ x ∷ w
    → ((us : List Text) → o ≡ some us → AreValues ts us × (fill ts us ≡ after s))
    → (vs : List Text) → cons_value (x ∷ w) o ≡ some vs
    → AreValues (param n ∷ ts) vs × (fill (param n ∷ ts) vs ≡ s)
unfolding fill
cons-fill n ts s x w none q ih vs e = cc
cons-fill n ts s x w (some us) q ih vs e =
    let (h, p) = ih us refl in
    let (slashless, whole) = word-HasNoSlash s in
    let part : IsPart (x ∷ w) = subst HasNoSlash q slashless in
    subst (λ vs. AreValues (param n ∷ ts) vs × (fill (param n ∷ ts) vs ≡ s)) (some-injective _ _ e)
      ((part, h), ap₂ ◌++◌ (sym q) p ∙ whole)

param-fill :
    (n : Text) (ts : List Token) (s w : Text)
    → word s ≡ w
    → Fills ts (after s)
    → Fills (param n ∷ ts) s
unfolding fits
param-fill n ts s [] q ih vs e = cc (rw (q, fits) at e)
param-fill n ts s (x ∷ w) q ih vs e =
    cons-fill n ts s x w (fits ts (after s)) q ih vs (sym (fits-param n ts s x w q) ∙ e)

-- What fits is the filled template.
fill-fits :
    (ts : List Token) (s : Text) (vs : List Text)
    → fits ts s ≡ some vs
    → AreValues ts vs × (fill ts vs ≡ s)
unfolding fits fill
fill-fits [] [] [] e = (tt, refl)
fill-fits [] [] (_ ∷ _) e = cc
fill-fits [] (_ ∷ _) vs e = cc
fill-fits (lit c ∷ ts) [] vs e = cc
fill-fits (lit c ∷ ts) (x ∷ s) vs e = elim (Bool-cases (x == c)) [
  | inl q ↦ let (h, p) = fill-fits ts s vs (rw q at e) in (h, ap₂ ◌∷◌ (sym ((==_iff x c).0 q)) p)
  | inr q ↦ cc (rw q at e)
]
fill-fits (param n ∷ ts) s vs e = param-fill n ts s (word s) refl (fill-fits ts (after s)) vs e

answer-true :
    (ts : List Token) (o : Option (List Text))
    → (answer ts o).1 ≡ true
    → (vs : List Text) × (o ≡ some vs)
answer-true ts none e = cc
answer-true ts (some vs) e = (vs, refl)

-- The urls that a template takes, `test` of a route that `set` has returned, with nothing in its
-- cache, on a template whose literal characters are plain: it succeeds exactly on the urls that
-- are the template with parts of a path in the places of its parameters.
pub test_iff :
    (tmpl u : Text) (r : Route) (m : Match)
    → IsPlain tmpl
    → r.cache ≡ []
    → Returns (λ out. out.1 ≡ true) (test (aimed u r) tmpl m)
      ↔ ((vs : List Text) × (AreValues (template tmpl) vs × (fill (template tmpl) vs ≡ u)))
test_iff tmpl u r m h e = rw (test_lem tmpl u r m h e) (
  λ t.
      let (vs, f) = answer-true (template tmpl) (fits (template tmpl) u) t in
      (vs, fill-fits (template tmpl) u vs f),
  λ (vs, (k, f)).
      ap (λ s. (answer (template tmpl) (fits (template tmpl) s)).1) (sym f)
      ∙ ap (λ o. (answer (template tmpl) o).1)
          (fits-fill (template tmpl) vs (template-IsSeparated tmpl) k),
)

-- No parameter stands twice in the template.
abbrev pub AreDistinct : List Text → Type 0
AreDistinct [] = Unit
AreDistinct (n ∷ ns) = All (λ k. text_eq n k ≡ false) ns × AreDistinct ns

-- Each parameter has its own value.
abbrev pub Gives : (Text → Text) → List Token → List Text → Type 0
Gives f (lit _ ∷ ts) vs = Gives f ts vs
Gives f (param n ∷ ts) (v ∷ vs) = (f n ≡ v) × Gives f ts vs
Gives f (param _ ∷ _) [] = ⊥
Gives f [] vs = Unit

-- What a function gives for the names of a list.
abbrev Reads : (Text → Text) → List Text → List Text → Text → Type 0
Reads f ns vs k = f k ≡ or_blank (value_of k ns vs)

Reads-tail :
    (f : Text → Text) (n v : Text) (ns vs ks : List Text)
    → All (Reads f (n ∷ ns) (v ∷ vs)) ks
    → All (λ k. text_eq n k ≡ false) ks
    → All (Reads f ns vs) ks
unfolding value_of
Reads-tail f n v ns vs [] h d = tt
Reads-tail f n v ns vs (k ∷ ks) (e, h) (d, ds) = (rw d at e, Reads-tail f n v ns vs ks h ds)

Gives-names :
    (f : Text → Text) (ts : List Token) (vs : List Text)
    → AreValues ts vs
    → AreDistinct (names ts)
    → All (Reads f (names ts) vs) (names ts)
    → Gives f ts vs
unfolding names value_of
Gives-names f [] vs a d h = tt
Gives-names f (lit c ∷ ts) vs a d h = Gives-names f ts vs a d h
Gives-names f (param n ∷ ts) [] a d h = absurd a
Gives-names f (param n ∷ ts) (v ∷ vs) (_, a) (d, ds) (e, h) = (
  rw ((text_eq_iff n n).1 refl) at e,
  Gives-names f ts vs a ds (Reads-tail f n v (names ts) vs (names ts) h d),
)

All-any : (P : Text → Type 0) (ks : List Text) → ((k : Text) → P k) → All P ks
All-any P [] h = tt
All-any P (k ∷ ks) h = (h k, All-any P ks h)

get-Gives :
    (ts : List Token) (vs : List Text)
    → AreValues ts vs
    → AreDistinct (names ts)
    → Gives (λ k. get k (answer ts (some vs)).0) ts vs
get-Gives ts vs a d =
    Gives-names (λ k. get k (answer ts (some vs)).0) ts vs a d
      (All-any (Reads (λ k. get k (answer ts (some vs)).0) (names ts) vs) (names ts)
        (λ k. get-answer k ts vs))

-- The way back: on a template whose literal characters are plain and whose parameters have
-- different names, with a route that `set` has returned and nothing in its cache, a url that is made
-- from the template and values passes `test`, and `get` then gives each parameter the value that it
-- was filled with.
pub test-fill :
    (tmpl : Text) (vs : List Text) (r : Route) (m : Match)
    → IsPlain tmpl
    → AreDistinct (names (template tmpl))
    → r.cache ≡ []
    → AreValues (template tmpl) vs
    → Returns
        (λ out. (out.1 ≡ true) × Gives (λ k. get k out.0) (template tmpl) vs)
        (test (aimed (fill (template tmpl) vs) r) tmpl m)
test-fill tmpl vs r m h d e k =
    rw
      (
        test_lem tmpl (fill (template tmpl) vs) r m h e,
        fits-fill (template tmpl) vs (template-IsSeparated tmpl) k,
      )
      (refl, get-Gives (template tmpl) vs k d)
