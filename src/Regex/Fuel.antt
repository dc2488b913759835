-- ===== src/Regex/Fuel.antt =====
-- The fuel of the search in Regex/Search is enough.
use mathlib.Core.Option.{some-injective}
use samp_plugin_api.Prelude.{
  ℕ, zero, suc, ◌+◌, ◌≤◌, ◌≡◌, refl, ap, Bool, true, false, Option, none, some, List, [], ◌∷◌, ◌++◌,
  map, Text, length, All, All-append, arith, if◌then◌else◌,
}
use samp_plugin_api.Regex.{
  Regex, State, empty, one, many, optional, group, cluster, at_start, at_end, seq, Class, accepts,
  step, runs, run, bind, capture, advance,
}
use samp_plugin_api.Regex.Search.{Piece, skipped, matched, first, at, scan}

-- How many characters each match takes at least.
abbrev pub least : Regex → ℕ
least (one _) = 1
least (many _ _) = 1
least (group r) = least r
least (cluster r) = least r
least (seq r q) = least r + least q
least _ = 0

-- Each state has at least so many characters taken from a text of some length.
abbrev Takes : ℕ → ℕ → List State → Type 0
Takes k n = All (λ o. length o.rest + k ≤ n)

Takes-le :
    (j k m n : ℕ) (os : List State)
    → ((l : ℕ) → l + j ≤ m → l + k ≤ n)
    → Takes j m os
    → Takes k n os
Takes-le j k m n [] h t = tt
Takes-le j k m n (o ∷ os) h (p, t) = (h (length o.rest) p, Takes-le j k m n os h t)

step-Takes : (c : Class) (s : Text) (st : State) → Takes 1 (length s) (step c s st)
unfolding step
step-Takes c [] st = tt
step-Takes c (x ∷ s) st = ground arith

either-Takes :
    (k n : ℕ) (b : Bool) (xs ys : List State)
    → Takes k n xs
    → Takes k n ys
    → Takes k n (if b then xs else ys)
either-Takes k n true xs ys h t = h
either-Takes k n false xs ys h t = t

runs-Takes :
    (lazy : Bool) (c : Class) (s : Text) (st : State) → Takes 1 (length s) (runs lazy c s st)
unfolding runs
runs-Takes lazy c [] st = tt
runs-Takes lazy c (x ∷ s) st =
    let longer = runs lazy c s (advance x s st) in
    let deep : Takes 1 (suc (length s)) longer =
      Takes-le 1 1 (length s) (suc (length s)) longer (λ l h. omega (arith, h))
        (runs-Takes lazy c s (advance x s st)) in
    let next : length s + 1 ≤ suc (length s) = omega arith in
    either-Takes 1 (suc (length s)) (accepts c x) _ []
      (either-Takes 1 (suc (length s)) lazy (advance x s st ∷ longer)
        (longer ++ advance x s st ∷ []) (next, deep)
        (All-append _ longer (advance x s st ∷ []) deep (next, tt)))
      tt

map-Takes :
    (k n : ℕ) (st : State) (os : List State) → Takes k n os → Takes k n (map (capture st) os)
map-Takes k n st [] t = tt
map-Takes k n st (o ∷ os) (p, t) = (p, map-Takes k n st os t)

bind-Takes :
    (j k n : ℕ) (os : List State) (f : State → List State)
    → Takes j n os
    → ((o : State) → Takes k (length o.rest) (f o))
    → Takes (j + k) n (bind os f)
unfolding bind
bind-Takes j k n [] f t h = tt
bind-Takes j k n (o ∷ os) f (p, t) h =
    All-append _ (f o) (bind os f)
      (Takes-le k (j + k) (length o.rest) n (f o) (λ l q. omega (arith, p, q)) (h o))
      (bind-Takes j k n os f t h)

run-Takes : (r : Regex) (st : State) → Takes (least r) (length st.rest) (run r st)
unfolding run
run-Takes empty st = (omega arith, tt)
run-Takes (one c) st = step-Takes c st.rest st
run-Takes (many lazy c) st = runs-Takes lazy c st.rest st
run-Takes (optional r) st =
    All-append _ (run r st) _
      (Takes-le (least r) 0 (length st.rest) (length st.rest) (run r st) (λ l h. omega (arith, h))
        (run-Takes r st))
      (omega arith, tt)
run-Takes (group r) st =
    map-Takes (least r) (length st.rest) st _ (run-Takes r (record st { taken = []; groups = [] }))
run-Takes (cluster r) st = run-Takes r st
run-Takes at_start st = ground arith
run-Takes at_end st = ground arith
run-Takes (seq r q) st =
    bind-Takes (least r) (least q) (length st.rest) (run r st) (run q) (run-Takes r st)
      (run-Takes q)

next-le :
    (r : Regex) (s : Text) (os : List State) (st : State)
    → 1 ≤ least r
    → Takes (least r) (suc (length s)) os
    → first os ≡ some st
    → length st.rest ≤ length s
unfolding first
next-le r s [] st l t e = cc
next-le r s (o ∷ os) st l (p, t) e =
    let same = ap (λ x. length x.rest) (some-injective _ _ e) in omega (arith, l, p, same)

-- What the search goes on with.
abbrev go_on : ℕ → Regex → ℕ → Text → Option State → List Piece
go_on f r c s none = skipped c ∷ scan f false r s
go_on f r c s (some st) = matched st.taken ∷ scan f false r st.rest

go_on-fuel :
    (f g : ℕ) (fresh : Bool) (r : Regex) (c : ℕ) (s : Text) (o : Option State)
    → 1 ≤ least r
    → first (run r (at fresh (c ∷ s))) ≡ o
    → ((t : Text) → length t ≤ length s → scan f false r t ≡ scan g false r t)
    → go_on f r c s o ≡ go_on g r c s o
go_on-fuel f g fresh r c s none l e same = ap (skipped c ∷◌) (same s (omega arith))
go_on-fuel f g fresh r c s (some st) l e same =
    ap (matched st.taken ∷◌) (
      same st.rest (next-le r s (run r (at fresh (c ∷ s))) st l (run-Takes r (at fresh (c ∷ s))) e))

-- Where each match takes a character, the search with as much fuel as the text has characters finds
-- all that it finds with more.
pub scan-fuel :
    (f g : ℕ) (fresh : Bool) (r : Regex) (s : Text)
    → 1 ≤ least r
    → length s ≤ f
    → length s ≤ g
    → scan f fresh r s ≡ scan g fresh r s
unfolding scan
scan-fuel zero zero fresh r s l h k = refl
scan-fuel zero (suc g) fresh r [] l h k = refl
scan-fuel zero (suc g) fresh r (c ∷ s) l h k = absurd (omega (arith, h))
scan-fuel (suc f) zero fresh r [] l h k = refl
scan-fuel (suc f) zero fresh r (c ∷ s) l h k = absurd (omega (arith, k))
scan-fuel (suc f) (suc g) fresh r [] l h k = refl
scan-fuel (suc f) (suc g) fresh r (c ∷ s) l h k =
    go_on-fuel f g fresh r c s (first (run r (at fresh (c ∷ s)))) l refl
      (λ t m. scan-fuel f g false r t l (omega (arith, m, h)) (omega (arith, m, k)))
