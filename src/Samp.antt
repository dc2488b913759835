-- ===== src/Samp.antt =====
-- The interfaces of the code that is not in the repository, as records of functions: the natives of
-- the game server (sampgdk), the JSON codec, text formatting, the hash and the clock. `World` is
-- the state of the game server and `Float` the type of its floating-point numbers.
use samp_plugin_api.Prelude.{ℕ, Bool, Text}

pub record Natives (World Float : Type 0) : Type 0 where
  pub kick : ℕ → World → World × Bool
  pub ban : ℕ → World → World × Bool
  -- The text that a buffer of the given size holds after the call, up to its first null byte.
  pub get_player_name : World → (id size : ℕ) → Text
  pub get_player_ip : World → (id size : ℕ) → Text
  pub get_player_pos : World → ℕ → Float × Float × Float
  pub get_player_health : World → ℕ → Float
  pub get_player_armour : World → ℕ → Float
  pub get_player_skin : World → ℕ → ℕ
  pub get_player_score : World → ℕ → ℕ
  pub get_player_ping : World → ℕ → ℕ
  pub get_player_vehicle_id : World → ℕ → ℕ
  pub is_player_npc : World → ℕ → Bool
  -- `MAX_PLAYER_NAME` of the server's SDK.
  pub max_player_name : ℕ
  pub send_player_message_to_all : ℕ → Text → World → World
  pub block_ip_address : Text → ℕ → World → World × Bool
  pub un_block_ip_address : Text → World → World × Bool
  pub set_game_mode_text : Text → World → World × Bool
  pub set_gravity : Float → World → World × Bool
  pub set_weather : ℕ → World → World × Bool
  pub get_tick_count : World → ℕ
  pub get_server_tick_rate : World → ℕ
  pub get_gravity : World → Float
  pub get_actor_pool_size : World → ℕ
  pub get_vehicle_pool_size : World → ℕ
  pub get_max_players : World → ℕ
  -- Writing to the log, by its level.
  pub log_info : Text → World → World
  pub log_warn : Text → World → World
  -- `logprintf`, the server's own log.
  pub logprintf : Text → World → World
