-- ===== src/Route/Template.antt =====
-- What a template means, with no regular expression in it: characters that must stand in the url,
-- and `:name`, which takes a non-empty part of the url up to the next slash or the end.
use samp_plugin_api.Prelude.{
  ℕ, true, false, Option, none, some, List, [], ◌∷◌, ◌++◌, Text, ◌==◌, if◌then◌else◌, ◌≡◌, arith,
  All, text_eq, length, suc, refl,
}
use samp_plugin_api.Regex.Parse.{symbol, plain}

pub data Token : Type 0 where
  lit : ℕ → Token
  param : Text → Token

-- Reading a template; `some n` while the name `n` of a parameter is read.
unfoldable pub read : Option Text → Text → List Token
read none [] = []
read none (c ∷ s) = elim (c == b':') [ true ↦ read (some []) s | false ↦ lit c ∷ read none s ]
read (some n) [] = param n ∷ []
read (some n) (c ∷ s) = elim (c == b'/') [
  | true ↦ param n ∷ lit c ∷ read none s
  | false ↦ read (some (n ++ c ∷ [])) s
]

unfoldable pub template : Text → List Token
unfolding read
template tmpl = read none tmpl

-- The part before the next slash, and the slash with what follows it.
unfoldable pub word : Text → Text
word [] = []
word (c ∷ s) = if c == b'/' then [] else c ∷ word s

unfoldable pub after : Text → Text
after [] = []
after (c ∷ s) = if c == b'/' then c ∷ s else after s

abbrev pub cons_value : Text → Option (List Text) → Option (List Text)
cons_value v none = none
cons_value v (some vs) = some (v ∷ vs)

-- The values of the parameters, where the url fits.
unfoldable pub fits : List Token → Text → Option (List Text)
unfolding word after
fits [] [] = some []
fits [] (_ ∷ _) = none
fits (lit c ∷ ts) [] = none
fits (lit c ∷ ts) (x ∷ s) = if x == c then fits ts s else none
fits (param _ ∷ ts) s = elim (word s) [ [] ↦ none | x ∷ w ↦ cons_value (x ∷ w) (fits ts (after s)) ]

unfoldable pub names : List Token → List Text
names [] = []
names (lit _ ∷ ts) = names ts
names (param n ∷ ts) = n ∷ names ts

-- The literal characters have no meaning in a regular expression.
abbrev pub IsPlainToken : Token → Type 0
IsPlainToken (lit c) = symbol c ≡ plain c
IsPlainToken (param _) = Unit

abbrev pub IsPlain : Text → Type 0
IsPlain tmpl = All IsPlainToken (template tmpl)

-- A parameter stands before a slash or at the end.
abbrev pub Ends : List Token → Type 0
Ends [] = Unit
Ends (lit c ∷ _) = c ≡ b'/'
Ends (param _ ∷ _) = ⊥

abbrev pub IsSeparated : List Token → Type 0
IsSeparated [] = Unit
IsSeparated (lit _ ∷ ts) = IsSeparated ts
IsSeparated (param _ ∷ ts) = Ends ts × IsSeparated ts

read-IsSeparated : (m : Option Text) (s : Text) → IsSeparated (read m s)
unfolding read
read-IsSeparated none [] = tt
read-IsSeparated none (c ∷ s) =
    ground (arith, read-IsSeparated none s, read-IsSeparated (some []) s)
read-IsSeparated (some n) [] = (tt, tt)
read-IsSeparated (some n) (c ∷ s) =
    ground (arith, read-IsSeparated none s, read-IsSeparated (some (n ++ c ∷ [])) s)

pub template-IsSeparated : (tmpl : Text) → IsSeparated (template tmpl)
unfolding template
template-IsSeparated tmpl = read-IsSeparated none tmpl

-- The value that stands beside the first occurrence of a name.
unfoldable pub value_of : Text → List Text → List Text → Option Text
value_of k (n ∷ ns) (v ∷ vs) = if text_eq n k then some v else value_of k ns vs
value_of k _ _ = none

length-cons_value :
    (n : ℕ) (v : Text) (o : Option (List Text))
    → ((vs : List Text) → o ≡ some vs → length vs ≡ n)
    → (vs : List Text) → cons_value v o ≡ some vs
    → length vs ≡ suc n
length-cons_value n v none h vs e = cc
length-cons_value n v (some ws) h vs e = ground (arith, h ws refl)

-- A url that fits gives a value to each parameter.
pub length-fits :
    (ts : List Token) (s : Text) (vs : List Text)
    → fits ts s ≡ some vs
    → length vs ≡ length (names ts)
unfolding fits names
length-fits [] [] vs e = ground arith
length-fits [] (_ ∷ _) vs e = cc
length-fits (lit c ∷ ts) [] vs e = cc
length-fits (lit c ∷ ts) (x ∷ s) vs e = ground (arith, length-fits ts s vs)
length-fits (param n ∷ ts) s vs e = go (word s) refl (length-fits ts (after s)) e
  where
    go :
        (w : Text)
        → word s ≡ w
        → ((us : List Text) → fits ts (after s) ≡ some us → length us ≡ length (names ts))
        → fits (param n ∷ ts) s ≡ some vs
        → length vs ≡ suc (length (names ts))
    go [] e ih h = cc (rw (e, fits) at h)
    go (x ∷ w) e ih h = length-cons_value _ (x ∷ w) (fits ts (after s)) ih vs (rw (e, fits) at h)
