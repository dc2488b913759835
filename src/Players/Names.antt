-- ===== src/Players/Names.antt =====
-- `Kick` and `Ban` look a player up by name, in an order that the hash map does not promise.
use mathlib.Core.List.{Perm, filter_map, mem-singleton, mem-cons_self}
use mathlib.Core.List.Perm
use native.Mathlib.Nat.{ℕ_set}
use samp_plugin_api.Prelude.{
  ℕ, ◌≡◌, refl, subst, ◌∙◌, Bool, false, Option, none, some, List, [], ◌∷◌, Text, text_eq,
  if◌then◌else◌, arith,
}
use samp_plugin_api.Samp.{Natives}
use samp_plugin_api.Players.{Player, Entries, kick_name, ban_name, disconnect, ban_player}

abbrev id_if_named : Text → ℕ × Player → Option ℕ
id_if_named name (_, p) = if text_eq p.name name then some p.id else none

-- The ids of the players with a name, in the order of the entries.
abbrev pub ids : Text → Entries → List ℕ
ids name = filter_map (id_if_named name)

perm_one : (i : ℕ) (xs : List ℕ) → Perm xs (i ∷ []) → xs ≡ i ∷ []
perm_one i [] h = cc (Perm.eq-nil (Perm.symm h))
perm_one i (x ∷ xs) h =
    let same : x ≡ i = (mem-singleton ℕ_set).0 ((Perm.mem_iff h).0 mem-cons_self) in
    let rest : Perm (i ∷ xs) (i ∷ []) = subst (λ y. Perm (y ∷ xs) (i ∷ [])) same h in
    rw (same, Perm.eq-nil (Perm.cons_inv rest))

-- What becomes of the game server, by the ids that bear the name: the first one is acted on.
abbrev pub on_first {ℓ} : {W : Type ℓ} → (ℕ → W → W × Bool) → List ℕ → W → W × Bool
on_first act [] w = (w, false)
on_first act (i ∷ _) w = act i w

module _ {World Float : Type 0} (samp : Natives World Float) where
  pub kick_name_lem :
      (name : Text) (ps : Entries) (w : World)
      → kick_name samp name ps w ≡ on_first samp.kick (ids name ps) w
  unfolding kick_name disconnect filter_map
  kick_name_lem name [] w = refl
  kick_name_lem name ((k, p) ∷ ps) w = ground (arith, kick_name_lem name ps w)

  pub ban_name_lem :
      (name : Text) (ps : Entries) (w : World)
      → ban_name samp name ps w ≡ on_first samp.ban (ids name ps) w
  unfolding ban_name ban_player filter_map
  ban_name_lem name [] w = refl
  ban_name_lem name ((k, p) ∷ ps) w = ground (arith, ban_name_lem name ps w)

  -- The two calls, in whatever order the entries come: if no player has the name, both report
  -- failure and the server is left alone; if one has it, that player is kicked or banned, and the
  -- server's answer is returned.
  pub kick-ban_of_absent :
      (name : Text) (ps order : Entries) (w : World)
      → Perm order ps
      → ids name ps ≡ []
      → (kick_name samp name order w ≡ (w, false)) × (ban_name samp name order w ≡ (w, false))
  kick-ban_of_absent name ps order w h e =
      let same : ids name order ≡ [] =
        Perm.eq-nil (subst (λ l. Perm (ids name order) l) e (Perm.filter_map _ h)) in
      (kick_name_lem name order w ∙ rw same, ban_name_lem name order w ∙ rw same)

  pub kick-ban_of_unique :
      (name : Text) (ps order : Entries) (i : ℕ) (w : World)
      → Perm order ps
      → ids name ps ≡ i ∷ []
      → (kick_name samp name order w ≡ samp.kick i w) × (ban_name samp name order w ≡ samp.ban i w)
  kick-ban_of_unique name ps order i w h e =
      let same : ids name order ≡ i ∷ [] =
        perm_one i _ (subst (λ l. Perm (ids name order) l) e (Perm.filter_map _ h)) in
      (kick_name_lem name order w ∙ rw same, ban_name_lem name order w ∙ rw same)
