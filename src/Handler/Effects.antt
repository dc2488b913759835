-- ===== src/Handler/Effects.antt =====
-- What each route does to the game server, told without the code that leads there.
use samp_plugin_api.Prelude.{
  ℕ, ◌≡◌, refl, sym, subst, Bool, true, false, some, List, [], ◌∷◌, Text, codes, get_elem?, arith,
}
use samp_plugin_api.Config.{Config}
use samp_plugin_api.Players.{Entries}
use samp_plugin_api.Players.Names.{ids, on_first, kick_name_lem, ban_name_lem}
use samp_plugin_api.Messages.{Message, Decoded, decoded, decode_exception}
use samp_plugin_api.Codecs.{
  decode_body, decode_say, decode_simple, decode_int, decode_gravity, decode_ip,
}
use samp_plugin_api.Env.{Env, Request, Response, str, c_str}
use samp_plugin_api.Route
use samp_plugin_api.Route.{Match, or_blank, Returns}
use samp_plugin_api.Route.Template.{template, fits, names, value_of}
use samp_plugin_api.Route.Laws.{answer, get-answer}
use samp_plugin_api.Functions.{
  Handled, ban_milliseconds, seconds_or, player_list, player_kick, player_ban, say, echo, ipban,
  ipunban, gamemodetext, gravity, weather, settings_list,
}
use samp_plugin_api.Functions.Effects.{acted, effect, inverted, settings_report, ipban-inverted}
use samp_plugin_api.Handler.{
  RouteHandler, Handler, on_player_list, on_player_kick, on_player_ban, on_say, on_echo, on_ipban,
  on_ipunban, on_gamemodetext, on_gravity, on_weather, on_settings_list, run_message, run_players,
  run_settings, conclude, finalize, call, handle_request, fresh_message,
}
use samp_plugin_api.Handler.Table.{table}
use samp_plugin_api.Handler.Access.{IsAdmitted, Signs, whitelist}
use samp_plugin_api.Handler.Dispatch.{IsRegistered, dispatched}

-- The status that tells of a result.
abbrev status_of : Decoded Bool → ℕ
status_of (decoded true) = 200
status_of (decoded false) = 417
status_of (decode_exception _) = 500

module _ {World Float : Type 0} (env : Env World Float) where
  open env use {samp, codec, format, order}

  abbrev reported : World × Bool → World × Decoded Bool
  reported (w, done) = (w, decoded done)

  -- What becomes of the game server, and what is reported, by the route, the name in the target,
  -- the players and the body.
  abbrev pub outcome : RouteHandler → Text → Entries → Text → World → World × Decoded Bool
  outcome on_player_list name ps body w = (w, decoded true)
  outcome on_player_kick name ps body w = reported (on_first samp.kick (ids name (order ps)) w)
  outcome on_player_ban name ps body w = reported (on_first samp.ban (ids name (order ps)) w)
  outcome on_say name ps body w =
      acted env (decode_say codec body)
        (λ r. (
          samp.send_player_message_to_all r.color
              (c_str (format (codes "{}: {}") (str r.name ∷ str r.message ∷ []))) w,
          true,
        ))
        w
  outcome on_echo name ps body w =
      acted env (decode_say codec body)
        (λ r. (
          samp.log_info (format (codes "Message from {}: {}") (str r.name ∷ str r.message ∷ [])) w,
          true,
        ))
        w
  outcome on_ipban name ps body w =
      acted env (decode_ip codec body)
        (λ r. inverted env (
          samp.block_ip_address (c_str r.address)
            (ban_milliseconds (seconds_or (env.stale w) r.time)) w))
        w
  outcome on_ipunban name ps body w =
      acted env (decode_ip codec body)
        (λ r. inverted env (samp.un_block_ip_address (c_str r.address) w)) w
  outcome on_gamemodetext name ps body w =
      acted env (decode_simple codec body) (λ r. samp.set_game_mode_text (c_str r.value) w) w
  outcome on_gravity name ps body w =
      acted env (decode_gravity codec body) (λ r. samp.set_gravity r.gravity w) w
  outcome on_weather name ps body w =
      acted env (decode_int codec body) (λ r. samp.set_weather r.value w) w
  outcome on_settings_list name ps body w = (w, decoded true)

  abbrev pub Shows : World × Decoded Bool → World × Response → Type 0
  Shows e (w, response) = (w ≡ e.0) × (response.status ≡ status_of e.1)

  run_message-Shows :
      (handled : Handled World Message) (response : Response) (p : ℕ)
      → Shows (effect env handled) (run_message env handled response p)
  unfolding run_message finalize conclude
  run_message-Shows (w, msg, decoded true) response p = (refl, refl)
  run_message-Shows (w, msg, decoded false) response p = (refl, refl)
  run_message-Shows (w, msg, decode_exception _) response p = (refl, refl)

  message-Shows :
      (handled : Handled World Message) (response : Response) (p : ℕ) (e : World × Decoded Bool)
      → effect env handled ≡ e
      → Shows e (run_message env handled response p)
  message-Shows handled response p e h =
      subst (λ x. Shows x (run_message env handled response p)) h
        (run_message-Shows handled response p)

  effect-player_kick :
      (ps : Entries) (m : Match) (w : World) (msg : Message)
      → (effect env (player_kick env ps m w msg)
          ≡ reported (on_first samp.kick (ids (Route.get (codes "name") m) (order ps)) w))
        × (effect env (player_ban env ps m w msg)
            ≡ reported (on_first samp.ban (ids (Route.get (codes "name") m) (order ps)) w))
  unfolding player_kick player_ban
  effect-player_kick ps m w msg =
      rw
        (
          kick_name_lem samp (Route.get (codes "name") m) (order ps) w,
          ban_name_lem samp (Route.get (codes "name") m) (order ps) w,
        )
        (ground arith, ground arith)

  effect-say :
      (req : Request) (name : Text) (ps : Entries) (w : World) (msg : Message)
      → (effect env (say env req w msg) ≡ outcome on_say name ps req.body w)
        × (effect env (echo env req w msg) ≡ outcome on_echo name ps req.body w)
  unfolding say echo
  effect-say req name ps w msg = (ground arith, ground arith)

  pub call-Shows :
      (f : RouteHandler) (ps : Entries) (m : Match) (req : Request) (response : Response) (p : ℕ)
      (w : World)
      → Shows
          (outcome f (Route.get (codes "name") m) ps req.body w)
          (call env f ps m req response p w)
  unfolding call run_players run_settings player_list settings_list finalize conclude
  call-Shows on_player_list ps m req response p w = (refl, refl)
  call-Shows on_player_kick ps m req response p w =
      message-Shows (player_kick env ps m w (fresh_message env)) response p _
        (effect-player_kick ps m w (fresh_message env)).0
  call-Shows on_player_ban ps m req response p w =
      message-Shows (player_ban env ps m w (fresh_message env)) response p _
        (effect-player_kick ps m w (fresh_message env)).1
  call-Shows on_say ps m req response p w =
      message-Shows (say env req w (fresh_message env)) response p _
        (effect-say req [] ps w (fresh_message env)).0
  call-Shows on_echo ps m req response p w =
      message-Shows (echo env req w (fresh_message env)) response p _
        (effect-say req [] ps w (fresh_message env)).1
  call-Shows on_ipban ps m req response p w =
      message-Shows (ipban env req w (fresh_message env)) response p _
        (ipban-inverted env req w (fresh_message env)).0
  call-Shows on_ipunban ps m req response p w =
      message-Shows (ipunban env req w (fresh_message env)) response p _
        (ipban-inverted env req w (fresh_message env)).1
  call-Shows on_gamemodetext ps m req response p w =
      message-Shows (gamemodetext env req w (fresh_message env)) response p _
        (settings_report env req w (fresh_message env)).0
  call-Shows on_gravity ps m req response p w =
      message-Shows (gravity env req w (fresh_message env)) response p _
        (settings_report env req w (fresh_message env)).1
  call-Shows on_weather ps m req response p w =
      message-Shows (weather env req w (fresh_message env)) response p _
        (settings_report env req w (fresh_message env)).2
  call-Shows on_settings_list ps m req response p w = (refl, refl)

  -- An authorised request, to a handler that has registered its functions, whose target fits the
  -- template of a route: nothing happens to the game server but what the route stands for, on the
  -- name in the target, the players and the body, and the status tells of the result. It is 200
  -- where the native succeeds or there is none, 417 where the result is false, and 500 where the
  -- body does not decode.
  pub handle_request-Shows :
      (h : Handler) (config : Config) (ps : Entries) (req : Request) (response : Response)
      (remote : Text) (p : ℕ) (w : World) (i : ℕ) (tmpl : Text) (f : RouteHandler) (vs : List Text)
      → IsRegistered h
      → IsAdmitted remote (whitelist config)
      → Signs env h req.target (decode_body env.codec req.body)
      → get_elem? table i ≡ some (tmpl, f)
      → fits (template tmpl) req.target ≡ some vs
      → let name = or_blank (value_of (codes "name") (names (template tmpl)) vs) in
        Returns
          (λ out. Shows (outcome f name ps req.body w) (out.1, out.2))
          (handle_request env h config ps req response remote p w)
  handle_request-Shows h config ps req response remote p w i tmpl f vs g a s e v =
      let m = (answer (template tmpl) (some vs)).0 in
      let name = or_blank (value_of (codes "name") (names (template tmpl)) vs) in
      subst (Returns (λ out. Shows (outcome f name ps req.body w) (out.1, out.2)))
        (sym (dispatched env h config ps req response remote p w i tmpl f vs g a s e v))
        (subst
          (λ n.
            Shows (outcome f n ps req.body w)
              (call env f ps m req (record response { status = 200 }) p w))
          (get-answer (codes "name") (template tmpl) vs)
          (call-Shows f ps m req (record response { status = 200 }) p w))
