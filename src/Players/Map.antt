-- ===== src/Players/Map.antt =====
-- The map of players under `AddPlayer`, `RemovePlayer` and `GetPlayer`.
use samp_plugin_api.Prelude.{
  ℕ, ◌≡◌, none, some, [], ◌∷◌, ◌==◌, if◌then◌else◌, arith, Option-cases, inl, inr,
}
use samp_plugin_api.Prelude.OrdMap.{first_some}
use samp_plugin_api.Samp.{Natives}
use samp_plugin_api.Players.{
  Player, Entries, find, emplace, erase, add_player, remove_player, get_player,
}

-- Each player stands under its own id, and no id stands twice.
abbrev pub IsValid : Entries → Type 0
IsValid [] = Unit
IsValid ((k, p) ∷ ps) = (p.id ≡ k) × (find k ps ≡ none) × IsValid ps

find-erase :
    (id j : ℕ) (ps : Entries)
    → IsValid ps
    → find j (erase id ps) ≡ (if id == j then none else find j ps)
unfolding find erase
find-erase id j [] h = ground arith
find-erase id j ((k, p) ∷ ps) (_, e, h) = ground (arith, find-erase id j ps h)

erase-IsValid : (id : ℕ) (ps : Entries) → IsValid ps → IsValid (erase id ps)
unfolding erase
erase-IsValid id [] h = tt
erase-IsValid id ((k, p) ∷ ps) (i, e, h) =
    ground (arith, erase-IsValid id ps h, find-erase id k ps h)

-- In a map where no id stands twice and each player stands under its own, `RemovePlayer` forgets the
-- player with the id, and no other.
pub find-remove_player :
    (id j : ℕ) (ps : Entries)
    → IsValid ps
    → get_player j (remove_player id ps) ≡ (if id == j then none else get_player j ps)
unfolding get_player remove_player
find-remove_player id j ps h = elim (Option-cases (find id ps)) [
  | inl e ↦ rw (e, remove_player) (ground arith)
  | inr (p, e) ↦ rw (e, remove_player) (find-erase id j ps h)
]

pub remove_player-IsValid : (id : ℕ) (ps : Entries) → IsValid ps → IsValid (remove_player id ps)
unfolding remove_player
remove_player-IsValid id ps h = ground (arith, erase-IsValid id ps h)

module _ {World Float : Type 0} (samp : Natives World Float) where
  -- The player that a connection makes.
  abbrev newcomer : World → ℕ → Player
  newcomer w id = record { id = id; name = samp.get_player_name w id samp.max_player_name }

  -- `AddPlayer` registers an id that is new, under the name that the server gives; an id that is
  -- there keeps its player, and no other id changes.
  pub find-add_player :
      (id j : ℕ) (w : World) (ps : Entries)
      → get_player j (add_player samp id w ps)
        ≡ first_some (get_player j ps) (if id == j then some (newcomer w id) else none)
  unfolding get_player add_player emplace find
  find-add_player id j w ps = elim (Option-cases (find id ps)) [
    | inl e ↦ rw (e, emplace) (ground arith)
    | inr (p, e) ↦ rw (e, emplace) (ground arith)
  ]

  pub add_player-IsValid :
      (id : ℕ) (w : World) (ps : Entries) → IsValid ps → IsValid (add_player samp id w ps)
  unfolding add_player emplace
  add_player-IsValid id w ps h = ground arith
