-- ===== src/Players.antt =====
-- api/Player.hpp, api/Player.cpp, api/PlayerManager.hpp and api/PlayerManager.cpp: the players that
-- are connected, by their ids.
pub mod Map
pub mod Names
pub mod Data
use samp_plugin_api.Prelude.{
  ℕ, ◌%◌, ◌^◌, Bool, true, false, not, Option, none, some, List, [], ◌∷◌, ◌++◌, Text, ◌==◌, text_eq,
  if◌then◌else◌,
}
use samp_plugin_api.Samp.{Natives}

-- A conversion to `uint32_t` or `uint16_t`.
abbrev pub to_u32 : ℕ → ℕ
to_u32 n = n % 2 ^ 32

abbrev pub to_u16 : ℕ → ℕ
to_u16 n = n % 2 ^ 16

pub record Player : Type 0 where
  pub id : ℕ
  pub name : Text

-- The constructor of `Player`.
abbrev new_player : Text → ℕ → Player
new_player name id = record { id = id; name = name }

abbrev get_id : Player → ℕ
get_id p = p.id

abbrev get_login : Player → Text
get_login p = p.name

-- The struct `PlayerData`; `login` stands first and is not sent.
pub record PlayerData (Float : Type 0) : Type 0 where
  login : Text
  pub name : Text
  pub x : Float
  pub y : Float
  pub z : Float
  pub health : Float
  pub armor : Float
  pub skin : ℕ
  pub score : ℕ
  pub ip : Text
  pub ping : ℕ
  pub vehicle_id : ℕ
  pub is_npc : Bool

-- `std::unordered_map<uint32_t, Player>`, as the list of its entries.
abbrev pub Entries : Type 0
Entries = List (ℕ × Player)

unfoldable pub find : ℕ → Entries → Option Player
find id [] = none
find id ((k, p) ∷ ps) = if k == id then some p else find id ps

-- `emplace`: an id that is there keeps its player.
unfoldable pub emplace : ℕ → Player → Entries → Entries
emplace id p ps = elim (find id ps) [ none ↦ (id, p) ∷ ps | some _ ↦ ps ]

unfoldable pub erase : ℕ → Entries → Entries
erase id [] = []
erase id ((k, p) ∷ ps) = if k == id then ps else (k, p) ∷ erase id ps

module _ {World Float : Type 0} (samp : Natives World Float) where
  open samp use {
    kick, ban, get_player_name, get_player_ip, get_player_pos, get_player_health, get_player_armour,
    get_player_skin, get_player_score, get_player_ping, get_player_vehicle_id, is_player_npc,
    max_player_name,
  }

  -- `Player::GetPosition`, without its result, which the callers drop.
  abbrev get_position : World → Player → Float × Float × Float
  get_position w p = get_player_pos w (get_id p)

  pub disconnect : Player → World → World × Bool
  disconnect p w = kick (get_id p) w

  pub ban_player : Player → World → World × Bool
  ban_player p w = ban (get_id p) w

  -- `PlayerManager::AddPlayer`.
  pub add_player : ℕ → World → Entries → Entries
  add_player id w ps = emplace id (new_player (get_player_name w id max_player_name) id) ps

  -- The body of the loop of `PlayerManager::GetPlayerData`.
  unfoldable pub player_data : World → Player → PlayerData Float
  player_data w p =
      let (x, y, z) = get_position w p in
      record {
        login = get_login p;
        name = get_player_name w (get_id p) max_player_name;
        x = x;
        y = y;
        z = z;
        health = get_player_health w (get_id p);
        armor = get_player_armour w (get_id p);
        skin = to_u16 (get_player_skin w (get_id p));
        score = to_u32 (get_player_score w (get_id p));
        ip = get_player_ip w (get_id p) 15;
        ping = to_u16 (get_player_ping w (get_id p));
        vehicle_id = to_u32 (get_player_vehicle_id w (get_id p));
        is_npc = is_player_npc w (get_id p);
      }

  -- The loop of `PlayerManager::GetPlayerData`, over the entries in the order of iteration.
  unfoldable pub get_player_data :
      World → Entries → List (PlayerData Float) → List (PlayerData Float)
  get_player_data w [] out = out
  get_player_data w ((_, p) ∷ ps) out = get_player_data w ps (out ++ player_data w p ∷ [])

  -- `PlayerManager::Kick` and `PlayerManager::Ban`, over the entries in the order of iteration.
  pub kick_name : Text → Entries → World → World × Bool
  kick_name name [] w = (w, false)
  kick_name name ((_, p) ∷ ps) w =
      if not (text_eq (get_login p) name) then kick_name name ps w else disconnect p w

  pub ban_name : Text → Entries → World → World × Bool
  ban_name name [] w = (w, false)
  ban_name name ((_, p) ∷ ps) w =
      if not (text_eq (get_login p) name) then ban_name name ps w else ban_player p w

-- `PlayerManager::RemovePlayer`.
pub remove_player : ℕ → Entries → Entries
remove_player id ps = elim (find id ps) [ none ↦ ps | some _ ↦ erase id ps ]

-- `PlayerManager::GetPlayer`.
pub get_player : ℕ → Entries → Option Player
get_player id ps = find id ps
