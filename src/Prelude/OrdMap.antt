-- ===== src/Prelude/OrdMap.antt =====
-- `std::map` with `std::string` keys, as the list of its entries in the order of iteration.
use mathlib.Core.Path.{◌≡◌, refl}
use mathlib.Core.Logic.{inl, inr}
use mathlib.Core.Option.{Option, none, some}
use mathlib.Core.List.{List, [], ◌∷◌}
use native.Mathlib.Omega.{arith}
use samp_plugin_api.Prelude.Tests.{if◌then◌else◌, Option-cases}
use samp_plugin_api.Prelude.Texts.{Text, text_eq, text_lt, text_eq_iff}

module _ {ℓ} {V : Type ℓ} where
  unfoldable pub find : Text → List (Text × V) → Option V
  find k [] = none
  find k ((j, v) ∷ m) = if text_eq j k then some v else find k m

  -- The place that the order of the keys gives a new entry.
  unfoldable pub place : Text → V → List (Text × V) → List (Text × V)
  place k v [] = (k, v) ∷ []
  place k v ((j, w) ∷ m) = if text_lt k j then (k, v) ∷ (j, w) ∷ m else (j, w) ∷ place k v m

  -- `emplace`, and `insert` of a pair: a key that is there keeps its value.
  unfoldable pub emplace : Text → V → List (Text × V) → List (Text × V)
  emplace k v m = elim (find k m) [ some _ ↦ m | none ↦ place k v m ]

  find-place :
      (k j : Text) (v : V) (m : List (Text × V))
      → find k m ≡ none
      → find j (place k v m) ≡ (if text_eq k j then some v else find j m)
  unfolding find place
  find-place k j v [] h = refl
  find-place k j v ((i, w) ∷ m) h =
      ground (arith, text_eq_iff i j, text_eq_iff i k, text_eq_iff k j, find-place k j v m)

  abbrev pub first_some : Option V → Option V → Option V
  first_some none y = y
  first_some (some x) _ = some x

  pub first_some_assoc :
      (x y z : Option V) → first_some (first_some x y) z ≡ first_some x (first_some y z)
  first_some_assoc none y z = refl
  first_some_assoc (some _) y z = refl

  -- What is found after `emplace`: what was there, or else the new value at its key.
  pub find-emplace :
      (k j : Text) (v : V) (m : List (Text × V))
      → find j (emplace k v m) ≡ first_some (find j m) (if text_eq k j then some v else none)
  unfolding emplace
  find-emplace k j v m = elim (Option-cases (find k m)) [
    | inl e ↦ rw (e, emplace, find-place k j v m e) (ground (arith, text_eq_iff k j))
    | inr (w, e) ↦ rw (e, emplace) (ground (arith, text_eq_iff k j))
  ]
