-- ===== src/Functions.antt =====
-- The namespaces `player`, `misc` and `settings` of api/Handler.cpp: the functions behind the
-- routes. Each takes the state of the game server and the message that it fills in, and gives them
-- back with its result; a `decode_exception` leaves both as they were.
pub mod Effects
use samp_plugin_api.Prelude.{
  ℕ, ◌*◌, Bool, true, false, not, Option, none, some, List, [], ◌∷◌, Text, codes, length,
  if◌then◌else◌,
}
use samp_plugin_api.Samp.{Natives}
use samp_plugin_api.Players.{Entries, get_player_data, kick_name, ban_name, to_u32}
use samp_plugin_api.Messages.{
  Message, IpRequest, PlayerMessage, SettingsMessage, Decoded, decoded, decode_exception,
}
use samp_plugin_api.Codecs.{decode_gravity, decode_int, decode_ip, decode_say, decode_simple}
use samp_plugin_api.Env.{Env, Request, Arg, str, int, c_str}
use samp_plugin_api.Route.{Match}
use samp_plugin_api.Route

-- `request.time * 1000`, in a `uint32_t`.
pub ban_milliseconds : ℕ → ℕ
ban_milliseconds seconds = to_u32 (seconds * 1000)

-- `request.time`, and what it reads as where the request gives none.
abbrev pub seconds_or : ℕ → Option ℕ → ℕ
seconds_or stale none = stale
seconds_or stale (some t) = t

abbrev ban_seconds : ℕ → IpRequest → ℕ
ban_seconds stale request = seconds_or stale request.time

abbrev pub Handled : Type 0 → Type 0 → Type 0
Handled World A = World × A × Decoded Bool

module _ {World Float : Type 0} (env : Env World Float) where
  open env use {samp, codec, format, order}

  abbrev with_request :
      {R : Type 0}
      → Decoded R
      → World
      → Message
      → (R → Handled World Message)
      → Handled World Message
  with_request (decoded r) w msg k = k r
  with_request (decode_exception what) w msg k = (w, msg, decode_exception what)

  -- The end of most functions: a message, and whether the call succeeded.
  abbrev pub reply : Message → Text → Bool → World → Handled World Message
  reply msg t done w = (w, record msg { message = t }, decoded done)

  -- `player::list`.
  unfoldable pub player_list :
      Entries → World → PlayerMessage Float → Handled World (PlayerMessage Float)
  player_list ps w msg =
      let found = get_player_data samp w (order ps) msg.players in
      (w, record msg { players = found; count = some (to_u32 (length found)) }, decoded true)

  -- `player::kick`.
  unfoldable pub player_kick : Entries → Match → World → Message → Handled World Message
  player_kick ps m w msg =
      let name = Route.get (codes "name") m in
      let (w', done) = kick_name samp name (order ps) w in
      if not done
      then reply msg (format (codes "Invalid player {}") (str name ∷ [])) false w'
      else reply msg (format (codes "Player {} got kicked") (str name ∷ [])) true w'

  -- `player::ban`.
  unfoldable pub player_ban : Entries → Match → World → Message → Handled World Message
  player_ban ps m w msg =
      let name = Route.get (codes "name") m in
      let (w', done) = ban_name samp name (order ps) w in
      if not done
      then reply msg (format (codes "Invalid player {}") (str name ∷ [])) false w'
      else reply msg (format (codes "Player {} got banned") (str name ∷ [])) true w'

  -- `misc::say`.
  unfoldable pub say : Request → World → Message → Handled World Message
  say req w msg = with_request (decode_say codec req.body) w msg λ request.
      let message = format (codes "{}: {}") (str request.name ∷ str request.message ∷ []) in
      reply msg (codes "OK") true (samp.send_player_message_to_all request.color (c_str message) w)

  -- `misc::echo`.
  unfoldable pub echo : Request → World → Message → Handled World Message
  echo req w msg = with_request (decode_say codec req.body) w msg λ request.
      reply msg (codes "OK") true (
        samp.log_info
          (format (codes "Message from {}: {}") (str request.name ∷ str request.message ∷ [])) w)

  -- `misc::ipban`.
  unfoldable pub ipban : Request → World → Message → Handled World Message
  ipban req w msg = with_request (decode_ip codec req.body) w msg λ request.
      let time = ban_milliseconds (ban_seconds (env.stale w) request) in
      let (w', refused) = samp.block_ip_address (c_str request.address) time w in
      if refused
      then reply msg
          (format (codes "Failed to add ip to banlist: {}") (str (c_str request.address) ∷ []))
          false w'
      else reply msg
          (format (codes "Added ip to banlist: {} time: {} seconds")
            (str request.address ∷ int time ∷ []))
          true w'

  -- `misc::ipunban`.
  unfoldable pub ipunban : Request → World → Message → Handled World Message
  ipunban req w msg = with_request (decode_ip codec req.body) w msg λ request.
      let (w', refused) = samp.un_block_ip_address (c_str request.address) w in
      if refused
      then reply msg
          (format (codes "Failed to remove ip from banlist: {}") (str (c_str request.address) ∷ []))
          false w'
      else reply msg (format (codes "Removed ip from banlist: {}") (str request.address ∷ [])) true
          w'

  -- `settings::gamemodetext`.
  unfoldable pub gamemodetext : Request → World → Message → Handled World Message
  gamemodetext req w msg = with_request (decode_simple codec req.body) w msg λ request.
      let (w', done) = samp.set_game_mode_text (c_str request.value) w in
      if not done
      then reply msg (codes "Failed to update gamemode text") false w'
      else reply msg (codes "Gamemode text changed") true w'

  -- `settings::gravity`.
  unfoldable pub gravity : Request → World → Message → Handled World Message
  gravity req w msg = with_request (decode_gravity codec req.body) w msg λ request.
      let (w', done) = samp.set_gravity request.gravity w in
      if not done
      then reply msg (codes "Failed to update gravity") false w'
      else reply msg (codes "Gravity changed") true w'

  -- `settings::weather`.
  unfoldable pub weather : Request → World → Message → Handled World Message
  weather req w msg = with_request (decode_int codec req.body) w msg λ request.
      let (w', done) = samp.set_weather request.value w in
      if not done
      then reply msg (codes "Failed to update weather") false w'
      else reply msg (codes "Weather changed") true w'

  -- `settings::list`.
  unfoldable pub settings_list :
      World → SettingsMessage Float → Handled World (SettingsMessage Float)
  settings_list w message = (
    w,
    record message {
      settings = some (record {
        tickcount = to_u32 (samp.get_tick_count w);
        tickrate = to_u32 (samp.get_server_tick_rate w);
        gravity = samp.get_gravity w;
        apoolsize = to_u32 (samp.get_actor_pool_size w);
        vpoolsize = to_u32 (samp.get_vehicle_pool_size w);
        maxplayers = to_u32 (samp.get_max_players w);
      });
    },
    decoded true,
  )
