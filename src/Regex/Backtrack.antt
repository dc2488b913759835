-- ===== src/Regex/Backtrack.antt =====
-- Laws of the list of outcomes.
use samp_plugin_api.Prelude.{
  ◌≡◌, refl, sym, ◌∙◌, Option, none, some, List, [], ◌∷◌, ◌++◌, map, Text, append_assoc, arith, ap,
  append-nil,
}
use samp_plugin_api.Regex.{State, bind, accept}

abbrev pub or_else : Option (List Text) → Option (List Text) → Option (List Text)
or_else none y = y
or_else (some x) _ = some x

pub accept-append : (xs ys : List State) → accept (xs ++ ys) ≡ or_else (accept xs) (accept ys)
unfolding accept
accept-append [] ys = refl
accept-append (st ∷ xs) ys = ground (arith, accept-append xs ys)

pub bind-append :
    (xs ys : List State) (f : State → List State) → bind (xs ++ ys) f ≡ bind xs f ++ bind ys f
unfolding bind
bind-append [] ys f = refl
bind-append (st ∷ xs) ys f = rw (bind-append xs ys f) (sym (append_assoc (f st) _ _))

pub bind_assoc :
    (xs : List State) (f g : State → List State)
    → bind (bind xs f) g ≡ bind xs (λ st. bind (f st) g)
unfolding bind
bind_assoc [] f g = refl
bind_assoc (st ∷ xs) f g =
    bind-append (f st) (bind xs f) g ∙ ap (bind (f st) g ++◌) (bind_assoc xs f g)

pub bind-map :
    (xs : List State) (h : State → State) (f : State → List State)
    → bind (map h xs) f ≡ bind xs (λ st. f (h st))
unfolding bind
bind-map [] h f = refl
bind-map (st ∷ xs) h f = rw (bind-map xs h f)

pub bind_one : (st : State) (f : State → List State) → bind (st ∷ []) f ≡ f st
unfolding bind
bind_one st f = append-nil (f st)

pub or_else-none : (o : Option (List Text)) → or_else o none ≡ o
or_else-none none = refl
or_else-none (some _) = refl
