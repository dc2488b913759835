-- ===== src/Handler.antt =====
-- api/Handler.hpp and api/Handler.cpp: authorisation, routing, and the JSON answer. The release
-- build is modelled, where `SAMP_DEBUG` is empty.
pub mod Table
pub mod Access
pub mod Answers
pub mod Dispatch
pub mod Removal
pub mod Effects
pub mod Listing
pub mod Status
pub mod Encoding
pub mod Schema
pub mod Typed
use samp_plugin_api.Prelude.{
  ℕ, ◌-◌, ◌/◌, ◌%◌, ◌^◌, Bool, true, false, not, ◌&&◌, ◌||◌, Option, none, some, List, [], ◌∷◌,
  ◌++◌, Text, codes, ◌==◌, leb, text_eq, if◌then◌else◌, length,
}
use samp_plugin_api.Prelude.OrdMap
use samp_plugin_api.Config.{Config, get_args}
use samp_plugin_api.Players.{Entries, to_u32}
use samp_plugin_api.Messages.{
  Message, new_message, PlayerMessage, SettingsMessage, Decoded, decoded, decode_exception,
  BodyRequest, message_object, settings_object, players_object,
}
use samp_plugin_api.Codecs.{decode_body}
use samp_plugin_api.Env.{Env, Request, Response, Arg, str, int}
use samp_plugin_api.Route.{Route, Match, Checked, ok, ◌>>=◌, new_route, set, test}
use samp_plugin_api.Functions.{
  Handled, player_list, player_kick, player_ban, say, echo, ipban, ipunban, gamemodetext, gravity,
  weather, settings_list,
}

-- The objects in the table of routes, by the function that each holds.
pub data RouteHandler : Type 0 where
  on_player_list on_player_kick on_player_ban on_say on_echo on_ipban on_ipunban on_gamemodetext
        on_gravity on_weather on_settings_list :
      RouteHandler

abbrev pub Routes : Type 0
Routes = List (Text × RouteHandler)

pub record Handler : Type 0 where
  pub password : Text
  pub seed : ℕ
  pub routes : Routes
  pub route : Route

-- `CreateRoute`.
abbrev create_route : Text → RouteHandler → Routes → Routes
create_route path function routes = OrdMap.emplace path function routes

-- `Handler::RegisterFunctions`.
pub register_functions : Handler → Handler
register_functions h =
    let r₁ = create_route (codes "/player/list") on_player_list h.routes in
    let r₂ = create_route (codes "/player/kick/:name") on_player_kick r₁ in
    let r₃ = create_route (codes "/player/ban/:name") on_player_ban r₂ in
    let r₄ = create_route (codes "/misc/say") on_say r₃ in
    let r₅ = create_route (codes "/misc/echo") on_echo r₄ in
    let r₆ = create_route (codes "/misc/ip/ban") on_ipban r₅ in
    let r₇ = create_route (codes "/misc/ip/unban") on_ipunban r₆ in
    let r₈ = create_route (codes "/settings/gamemodetext") on_gamemodetext r₇ in
    let r₉ = create_route (codes "/settings/gravity") on_gravity r₈ in
    let r₁₀ = create_route (codes "/settings/weather") on_weather r₉ in
    record h { routes = create_route (codes "/settings/list") on_settings_list r₁₀ }

-- The first route, in the order of the table, whose template the url fits.
pub find_route : Route → Match → Routes → Checked (Option (RouteHandler × Match))
find_route r m [] = ok none
find_route r m ((tmpl, function) ∷ rest) = test r tmpl m >>= λ (m', hit). elim hit [
  | true ↦ ok (some (function, m'))
  | false ↦ find_route r m' rest
]

-- The loop of `Authorize` over the whitelist.
pub scan_whitelist : List Text → Text → Bool → Bool
scan_whitelist [] remote ready = ready
scan_whitelist (ip ∷ ips) remote ready =
    scan_whitelist ips remote (if text_eq ip remote then true else ready)

-- The milliseconds from `p` to `now`, cut towards zero and stored in a `uint32_t`.
pub elapsed : (ticks_per_ms p now : ℕ) → ℕ
elapsed ticks p now =
    if leb p now then to_u32 ((now - p) / ticks) else to_u32 (2 ^ 32 - to_u32 ((p - now) / ticks))

module _ {World Float : Type 0} (env : Env World Float) where
  open env use {samp, codec, format, xxh32, now, ticks_per_ms}

  -- `SimpleRouteHandler::Finalize`.
  pub finalize : Response → Message → ℕ → World → Response × Message
  finalize response message p w = (
    record response { content_type = some (codes "application/json"); status = message.code },
    record message { time = some (elapsed ticks_per_ms p (now w)) },
  )

  -- `boost::beast::ostream(response.body()) << json`.
  abbrev write_body : Response → Text → Response
  write_body response json = record response { body = response.body ++ json }

  -- `RequestInvalidHandler::HandleRequest` with a message.
  pub invalid_message : Response → ℕ → Message → World → Response
  invalid_message response p message w =
      let (response', message') = finalize response message p w in
      write_body response' (codec.encode (message_object message'))

  -- `RequestInvalidHandler::HandleRequest` without one.
  invalid_request : Response → ℕ → World → Response
  invalid_request response p w =
      invalid_message response p
        (record new_message { type = codes "invalid"; code = 422; message = codes "Invalid" }) w

  -- `RouteHandler<T>::HandleRequest` up to `Finalize`, on the base of the message.
  pub conclude : Decoded Bool → Message → Message
  conclude (decoded true) message = record message { type = codes "response"; code = 200 }
  conclude (decoded false) message = record message { code = 417; type = codes "error" }
  conclude (decode_exception what) message = record message {
    code = 500;
    message = format (codes "Invalid request error: {}") (str what ∷ []);
  }

  -- What every `RouteHandler<T>` starts from.
  abbrev pub fresh_message : Message
  fresh_message = record new_message { message = codes "OK" }

  -- The three instances of `RouteHandler<T>::HandleRequest`.
  pub run_message : Handled World Message → Response → ℕ → World × Response
  run_message (w, message, result) response p =
      let (response', message') = finalize response (conclude result message) p w in
      (w, write_body response' (codec.encode (message_object message')))

  pub run_players : Handled World (PlayerMessage Float) → Response → ℕ → World × Response
  run_players (w, message, result) response p =
      let (response', base) = finalize response (conclude result message.base) p w in
      (w, write_body response' (codec.encode (players_object (record message { base = base }))))

  pub run_settings : Handled World (SettingsMessage Float) → Response → ℕ → World × Response
  run_settings (w, message, result) response p =
      let (response', base) = finalize response (conclude result message.base) p w in
      (w, write_body response' (codec.encode (settings_object (record message { base = base }))))

  pub call : RouteHandler → Entries → Match → Request → Response → ℕ → World → World × Response
  call on_player_list ps m req response p w =
      run_players
        (player_list env ps w (record { base = fresh_message; players = []; count = none }))
        response p
  call on_player_kick ps m req response p w =
      run_message (player_kick env ps m w fresh_message) response p
  call on_player_ban ps m req response p w =
      run_message (player_ban env ps m w fresh_message) response p
  call on_say ps m req response p w = run_message (say env req w fresh_message) response p
  call on_echo ps m req response p w = run_message (echo env req w fresh_message) response p
  call on_ipban ps m req response p w = run_message (ipban env req w fresh_message) response p
  call on_ipunban ps m req response p w = run_message (ipunban env req w fresh_message) response p
  call on_gamemodetext ps m req response p w =
      run_message (gamemodetext env req w fresh_message) response p
  call on_gravity ps m req response p w = run_message (gravity env req w fresh_message) response p
  call on_weather ps m req response p w = run_message (weather env req w fresh_message) response p
  call on_settings_list ps m req response p w =
      run_settings (settings_list env w (record { base = fresh_message; settings = none })) response
        p

  -- `Handler::ShowError`.
  pub show_error :
      Handler → Request → Response → ℕ → Text → ℕ → World → Checked (Handler × World × Response)
  show_error h req response code message p w = set req.target h.route >>= λ (route, _). ok (
    record h { route = route },
    w,
    invalid_message response p
        (record new_message { type = codes "error"; code = code; message = message }) w,
  )

  -- The part of `Authorize` behind the whitelist.
  unfoldable pub check_body : Handler → Text → Text → Decoded BodyRequest → World → World × Bool
  check_body h uri remote (decode_exception what) w = (w, false)
  check_body h uri remote (decoded body) w =
      let hash = xxh32 uri h.seed in
      if not (text_eq h.password body.password) || not (hash == body.hash)
      then (
        samp.log_warn
            (format (codes "[{}] Invalid request password: {}  hash: {} required hash: {} uri: {}")
              (str remote ∷ str body.password ∷ int body.hash ∷ int hash ∷ str uri ∷ []))
            w,
        false,
      )
      else (w, true)

  -- `Handler::Authorize`.
  unfoldable pub authorize : Handler → Config → Request → Text → World → World × Bool
  authorize h config req remote w =
      let ips = (get_args config (codes "api_ip_whitelist") []).0 in
      let ready = scan_whitelist ips remote (length ips == 0) in
      if not ready
      then (w, false)
      else check_body h req.target remote (decode_body codec req.body) w

  -- The rest of `HandleRequest`, once the loop over the routes has ended.
  pub answer_route :
      Handler
      → Entries
      → Request
      → Response
      → ℕ
      → World
      → Option (RouteHandler × Match)
      → Checked (Handler × World × Response)
  answer_route h ps req response p w none =
      show_error h req response 404 (codes "Invalid route") p w
  answer_route h ps req response p w (some (function, m)) =
      let (w', response') = call function ps m req (record response { status = 200 }) p w in
      ok (h, w', response')

  -- `Handler::HandleRequest` once `Authorize` has answered.
  pub handle_authorized :
      Handler
      → Entries
      → Request
      → Response
      → ℕ
      → Match
      → World × Bool
      → Checked (Handler × World × Response)
  handle_authorized h ps req response p m (w, false) =
      show_error h req response 401 (codes "Unauthorized") p w
  handle_authorized h ps req response p m (w, true) =
      find_route h.route m h.routes >>= answer_route h ps req response p w

  -- `Handler::HandleRequest`.
  pub handle_request :
      Handler
      → Config
      → Entries
      → Request
      → Response
      → Text
      → ℕ
      → World
      → Checked (Handler × World × Response)
  handle_request h config ps req response remote p w = set req.target h.route >>= λ (route, m).
      let h' = record h { route = route } in
      handle_authorized h' ps req response p m (authorize h' config req remote w)
