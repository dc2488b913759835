-- ===== src/Prelude/Bags.antt =====
-- Lists up to order.
use Prim.Native.Nat.{ℕ, suc}
use mathlib.Core.Path.{◌≡◌, refl, ap, ◌∙◌}
use mathlib.Core.Logic.{∥∥₁_elim}
use mathlib.Core.List.{List, map, Perm}
use mathlib.Core.List.Perm
use mathlib.Core.List.Permᴰ.{Permᴰ}
use mathlib.Core.Quot
use mathlib.Core.Quot.{Quot, Quot-set}
use native.Mathlib.Nat.{ℕ_set}
use samp_plugin_api.Prelude.Lists.{length}

module _ {A : Type 0} where
  length-Permᴰ : {xs ys : List A} → Permᴰ xs ys → length xs ≡ length ys
  length-Permᴰ Permᴰ.nil = refl
  length-Permᴰ (Permᴰ.cons e d) = ap suc (length-Permᴰ d)
  length-Permᴰ (Permᴰ.swap e f) = refl
  length-Permᴰ (Permᴰ.trans d d') = length-Permᴰ d ∙ length-Permᴰ d'

  length-Perm : (xs ys : List A) → Perm xs ys → length xs ≡ length ys
  length-Perm xs ys h = ∥∥₁_elim h (ℕ_set (length xs) (length ys)) length-Permᴰ

  abbrev pub bag_of : List A → Quot (Perm {A = A})
  bag_of = Quot.mk

  pub bag_of-Perm : {xs ys : List A} → Perm xs ys → bag_of xs ≡ bag_of ys
  bag_of-Perm h = Quot.sound h

abbrev pub Bag : Type 0 → Type 0
Bag A = Quot (Perm {A = A})

-- How many elements there are.
pub size : {A : Type 0} → Bag A → ℕ
size = Quot.lift ℕ_set length length-Perm

pub map_bag : {A B : Type 0} → (A → B) → Bag A → Bag B
map_bag f = Quot.lift Quot-set (λ xs. bag_of (map f xs)) (λ xs ys h. bag_of-Perm (Perm.map f h))

pub size-bag_of : {A : Type 0} (xs : List A) → size (bag_of xs) ≡ length xs
unfolding size
size-bag_of xs = refl

pub map_bag-bag_of :
    {A B : Type 0} (f : A → B) (xs : List A) → map_bag f (bag_of xs) ≡ bag_of (map f xs)
unfolding map_bag
map_bag-bag_of f xs = refl
