-- ===== src/Handler/Answers.antt =====
-- What is answered: the status of the response beside the message in its body.
use samp_plugin_api.Prelude.{
  ℕ, ◌-◌, ◌/◌, ◌^◌, ◌≤◌, ◌<◌, ◌≡◌, ◌⊎◌, refl, Bool, true, false, some, [], ◌∷◌, ◌++◌, Text, codes,
  arith, inl, inr,
}
use samp_plugin_api.Players.{Entries}
use samp_plugin_api.Messages.{Message, Decoded, decoded, decode_exception, message_object}
use samp_plugin_api.Codecs.{decode_gravity, decode_int, decode_ip, decode_say, decode_simple}
use samp_plugin_api.Env.{Env, Request, Response, str}
use samp_plugin_api.Route.{Match}
use samp_plugin_api.Functions.{say, echo, ipban, ipunban, gamemodetext, gravity, weather}
use samp_plugin_api.Handler.{
  RouteHandler, on_player_list, on_say, on_echo, on_ipban, on_ipunban, on_gamemodetext, on_gravity,
  on_weather, on_settings_list, elapsed, finalize, invalid_message, conclude, run_message,
  run_players, run_settings, call,
}

-- The response time is the whole milliseconds since the session began, for a clock that has not
-- gone back and a session that is under 2 ^ 32 milliseconds old.
pub elapsed_lem :
    (ticks p now : ℕ)
    → p ≤ now
    → (now - p) / ticks < 2 ^ 32
    → elapsed ticks p now ≡ (now - p) / ticks
unfolding elapsed
elapsed_lem ticks p now h k = ground arith

module _ {World Float : Type 0} (env : Env World Float) where
  abbrev IsAnswerCode : ℕ → Type 0
  IsAnswerCode c = (c ≡ 200) ⊎ ((c ≡ 417) ⊎ (c ≡ 500))

  conclude_code : (r : Decoded Bool) (m : Message) → IsAnswerCode (conclude env r m).code
  unfolding conclude
  conclude_code (decoded true) m = inl refl
  conclude_code (decoded false) m = inr (inl refl)
  conclude_code (decode_exception _) m = inr (inr refl)

  -- Whatever route is called, the status is 200, 417 or 500.
  pub call-IsAnswerCode :
      (f : RouteHandler) (ps : Entries) (m : Match) (req : Request) (response : Response) (p : ℕ)
      (w : World)
      → IsAnswerCode (call env f ps m req response p w).1.status
  unfolding call run_message run_players run_settings finalize
  call-IsAnswerCode on_player_list ps m req response p w = conclude_code _ _
  call-IsAnswerCode on_settings_list ps m req response p w = conclude_code _ _
  call-IsAnswerCode _ ps m req response p w = conclude_code _ _

  -- What a function behind a route never changes in the response.
  abbrev pub Frames : Response → Response → Type 0
  Frames r r' =
      (r'.version ≡ r.version)
      × (r'.keep_alive ≡ r.keep_alive)
      × (r'.content_length ≡ r.content_length)

  pub call-Frames :
      (f : RouteHandler) (ps : Entries) (m : Match) (req : Request) (response : Response) (p : ℕ)
      (w : World)
      → Frames response (call env f ps m req response p w).1
  unfolding call run_message run_players run_settings finalize
  call-Frames on_player_list ps m req response p w = (refl, refl, refl)
  call-Frames on_settings_list ps m req response p w = (refl, refl, refl)
  call-Frames _ ps m req response p w = (refl, refl, refl)

  pub invalid_message-Frames :
      (response : Response) (p : ℕ) (m : Message) (w : World)
      → Frames response (invalid_message env response p m w)
  unfolding invalid_message finalize
  invalid_message-Frames response p m w = (refl, refl, refl)

  pub status-invalid_message :
      (response : Response) (p : ℕ) (m : Message) (w : World)
      → (invalid_message env response p m w).status ≡ m.code
  unfolding invalid_message finalize
  status-invalid_message response p m w = refl

  -- The body is no request of the kind that the function behind the route decodes.
  abbrev Undecodable : RouteHandler → Text → Text → Type 0
  Undecodable on_say body what = decode_say env.codec body ≡ decode_exception what
  Undecodable on_echo body what = decode_say env.codec body ≡ decode_exception what
  Undecodable on_ipban body what = decode_ip env.codec body ≡ decode_exception what
  Undecodable on_ipunban body what = decode_ip env.codec body ≡ decode_exception what
  Undecodable on_gamemodetext body what = decode_simple env.codec body ≡ decode_exception what
  Undecodable on_gravity body what = decode_gravity env.codec body ≡ decode_exception what
  Undecodable on_weather body what = decode_int env.codec body ≡ decode_exception what
  Undecodable _ body what = ⊥

  -- The message of a failed request; its type is the empty text.
  abbrev pub failure : Text → ℕ → World → Message
  failure what p w = record {
    type = [];
    code = 500;
    message = env.format (codes "Invalid request error: {}") (str what ∷ []);
    time = some (elapsed env.ticks_per_ms p (env.now w));
  }

  -- A body that the function of the route cannot decode changes nothing on the game server. The
  -- answer has status 500, and its message has the empty text for its type, not "error".
  pub call-Undecodable :
      (f : RouteHandler) (ps : Entries) (m : Match) (req : Request) (response : Response) (p : ℕ)
      (w : World) (what : Text)
      → Undecodable f req.body what
      → call env f ps m req response p w ≡ (
        w,
        record response {
          content_type = some (codes "application/json");
          status = 500;
          body = response.body ++ env.codec.encode (message_object (failure what p w));
        },
      )
  unfolding call run_message finalize conclude say echo ipban ipunban gamemodetext gravity weather
  call-Undecodable on_say ps m req response p w what e = rw e
  call-Undecodable on_echo ps m req response p w what e = rw e
  call-Undecodable on_ipban ps m req response p w what e = rw e
  call-Undecodable on_ipunban ps m req response p w what e = rw e
  call-Undecodable on_gamemodetext ps m req response p w what e = rw e
  call-Undecodable on_gravity ps m req response p w what e = rw e
  call-Undecodable on_weather ps m req response p w what e = rw e
  call-Undecodable _ ps m req response p w what e = absurd e
