-- ===== src/Players/Data.antt =====
-- What `GetPlayerData` collects.
use samp_plugin_api.Prelude.{
  ℕ, ◌-◌, ◌≤◌, ◌≡◌, ◌↔◌, sym, ◌∙◌, List, [], ◌∷◌, ◌++◌, map, Text, length, take, arith,
  append_assoc, append-nil, zero, suc,
}
use samp_plugin_api.Samp.{Natives}
use samp_plugin_api.Players.{Player, PlayerData, Entries, player_data, get_player_data}

take-self_iff : (n : ℕ) (t : Text) → (take n t ≡ t) ↔ (length t ≤ n)
take-self_iff zero [] = ground arith
take-self_iff zero (c ∷ t) = ground arith
take-self_iff (suc n) [] = ground arith
take-self_iff (suc n) (c ∷ t) = ground (arith, take-self_iff n t)

module _ {World Float : Type 0} (samp : Natives World Float) where
  -- The vector grows by one element for each player, in the order of the entries; what it held
  -- before stays in front.
  pub get_player_data_lem :
      (w : World) (ps : Entries) (out : List (PlayerData Float))
      → get_player_data samp w ps out ≡ out ++ map (λ e. player_data samp w e.1) ps
  unfolding get_player_data
  get_player_data_lem w [] out = sym (append-nil out)
  get_player_data_lem w ((k, p) ∷ ps) out =
      get_player_data_lem w ps (out ++ player_data samp w p ∷ [])
      ∙ append_assoc out (player_data samp w p ∷ []) _

  -- The buffer for the address has 15 bytes. Where the native copies as much of the player's
  -- address as the buffer holds beside the closing null byte, the address is reported whole exactly
  -- if it has at most 14 characters; that of "255.255.255.255" has 15.
  pub ip-player_data_iff :
      (address : World → ℕ → Text)
      → ((w : World) (id size : ℕ) → samp.get_player_ip w id size ≡ take (size - 1) (address w id))
      → (w : World) (p : Player)
      → ((player_data samp w p).ip ≡ address w p.id) ↔ (length (address w p.id) ≤ 14)
  unfolding player_data
  ip-player_data_iff address copied w p = rw (copied w p.id 15) (take-self_iff 14 (address w p.id))
