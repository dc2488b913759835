-- ===== src/Route/Overlap.antt =====
-- Two templates that no url fits both.
use samp_plugin_api.Prelude.{
  ℕ, ◌≡◌, refl, sym, ap, subst, ◌∙◌, Bool, true, false, Option, none, some, List, [], ◌∷◌, Text,
  ◌==◌, ◌&&◌, not, arith, ==_iff, inl, inr, Bool-cases,
}
use samp_plugin_api.Route.Template.{Token, lit, param, fits, word, after, cons_value}

-- A test that may say yes too often: a literal may meet a parameter unless it is a slash.
unfoldable pub may_overlap : List Token → List Token → Bool
may_overlap [] [] = true
may_overlap [] (_ ∷ _) = false
may_overlap (_ ∷ _) [] = false
may_overlap (lit c ∷ ts) (lit d ∷ us) = c == d && may_overlap ts us
may_overlap (lit c ∷ ts) (param _ ∷ us) = not (c == b'/')
may_overlap (param _ ∷ ts) (lit d ∷ us) = not (d == b'/')
may_overlap (param _ ∷ ts) (param _ ∷ us) = may_overlap ts us

abbrev pub IsFit : Option (List Text) → Type 0
IsFit none = ⊥
IsFit (some _) = Unit

IsFit-cons_value : (v : Text) (o : Option (List Text)) → IsFit (cons_value v o) → IsFit o
IsFit-cons_value v none h = h
IsFit-cons_value v (some _) h = tt

nil_inv : (s : Text) → IsFit (fits [] s) → s ≡ []
unfolding fits
nil_inv [] h = refl
nil_inv (_ ∷ _) h = absurd h

not-IsFit-nil : (t : Token) (ts : List Token) → ¬ IsFit (fits (t ∷ ts) [])
unfolding fits word
not-IsFit-nil (lit _) ts h = h
not-IsFit-nil (param _) ts h = h

not-IsFit-slash : (n : Text) (ts : List Token) (s : Text) → ¬ IsFit (fits (param n ∷ ts) (b'/' ∷ s))
unfolding fits word
not-IsFit-slash n ts s h = h

lit_inv :
    (c : ℕ) (ts : List Token) (s : Text)
    → IsFit (fits (lit c ∷ ts) s)
    → (r : Text) × (s ≡ c ∷ r) × IsFit (fits ts r)
unfolding fits
lit_inv c ts [] h = absurd h
lit_inv c ts (x ∷ s) h = elim (Bool-cases (x == c)) [
  | inl e ↦ (s, ap (λ y. y ∷ s) ((==_iff x c).0 e), rw e at h)
  | inr e ↦ absurd (rw e at h)
]

param_inv :
    (n : Text) (ts : List Token) (s : Text)
    → IsFit (fits (param n ∷ ts) s)
    → IsFit (fits ts (after s))
unfolding fits
param_inv n ts s h = go (word s) refl h
  where
    go : (w : Text) → word s ≡ w → IsFit (fits (param n ∷ ts) s) → IsFit (fits ts (after s))
    go [] e h = absurd (rw (e, fits) at h)
    go (x ∷ w) e h = IsFit-cons_value (x ∷ w) _ (rw (e, fits) at h)

-- A url that begins with a slash gives an empty value to a parameter in front.
lit-param :
    (c : ℕ) (n : Text) (ts us : List Token) (s : Text)
    → not (c == b'/') ≡ false
    → IsFit (fits (lit c ∷ ts) s)
    → ¬ IsFit (fits (param n ∷ us) s)
lit-param c n ts us s e h k =
    let (r, same, _) = lit_inv c ts s h in
    let slash : c ≡ b'/' = ground arith in
    not-IsFit-slash n us r
      (subst (λ z. IsFit (fits (param n ∷ us) z)) (same ∙ ap (λ y. y ∷ r) slash) k)

-- No url fits two templates that the test tells apart.
pub not-may_overlap :
    (ts us : List Token) (s : Text)
    → may_overlap ts us ≡ false
    → IsFit (fits ts s)
    → ¬ IsFit (fits us s)
unfolding may_overlap
not-may_overlap [] [] s e h k = cc
not-may_overlap [] (u ∷ us) s e h k =
    not-IsFit-nil u us (subst (λ z. IsFit (fits (u ∷ us) z)) (nil_inv s h) k)
not-may_overlap (t ∷ ts) [] s e h k =
    not-IsFit-nil t ts (subst (λ z. IsFit (fits (t ∷ ts) z)) (nil_inv s k) h)
not-may_overlap (lit c ∷ ts) (lit d ∷ us) s e h k =
    let (r, p, hr) = lit_inv c ts s h in
    let (q, p', kq) = lit_inv d us s k in
    let same : r ≡ q = cc in
    not-may_overlap ts us r (ground arith) hr (subst (λ z. IsFit (fits us z)) (sym same) kq)
not-may_overlap (lit c ∷ ts) (param n ∷ us) s e h k = lit-param c n ts us s e h k
not-may_overlap (param n ∷ ts) (lit d ∷ us) s e h k = lit-param d n us ts s e k h
not-may_overlap (param n ∷ ts) (param m ∷ us) s e h k =
    not-may_overlap ts us (after s) e (param_inv n ts s h) (param_inv m us s k)
