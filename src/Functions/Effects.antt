-- ===== src/Functions/Effects.antt =====
-- What the functions behind the routes report of the natives that they call.
use mathlib.Core.List.{Perm}
use samp_plugin_api.Prelude.{ℕ, ◌*◌, ◌≤◌, ◌≡◌, ◌↔◌, refl, Bool, false, not, [], ◌∷◌, codes, arith}
use samp_plugin_api.Players.{Entries}
use samp_plugin_api.Players.Names.{ids, kick-ban_of_unique, kick-ban_of_absent}
use samp_plugin_api.Messages.{Message, Decoded, decoded, decode_exception}
use samp_plugin_api.Codecs.{decode_gravity, decode_int, decode_ip, decode_simple}
use samp_plugin_api.Env.{Env, Request, str, c_str}
use samp_plugin_api.Route
use samp_plugin_api.Route.{Match}
use samp_plugin_api.Functions.{
  ban_milliseconds, seconds_or, Handled, player_kick, player_ban, ipban, ipunban, gamemodetext,
  gravity, weather, reply,
}

-- A ban time reaches the native unchanged, in milliseconds, exactly up to 4294967 seconds.
ban_milliseconds_iff : (t : ℕ) → (ban_milliseconds t ≡ t * 1000) ↔ (t ≤ 4294967)
unfolding ban_milliseconds
ban_milliseconds_iff t = (λ e. omega arith, λ h. omega arith)

module _ {World Float : Type 0} (env : Env World Float) where
  open env use {samp, codec, format, order}

  -- Kicking and banning a name that one player has, in whatever order the players are kept: the
  -- state of the server is the one that the native leaves for that player, and the call succeeds
  -- exactly if the native does.
  pub kick-ban_unique :
      (ps : Entries) (m : Match) (w : World) (msg : Message) (i : ℕ)
      → Perm (order ps) ps
      → ids (Route.get (codes "name") m) ps ≡ i ∷ []
      → ((player_kick env ps m w msg).0 ≡ (samp.kick i w).0)
        × ((player_kick env ps m w msg).2 ≡ decoded (samp.kick i w).1)
        × ((player_ban env ps m w msg).0 ≡ (samp.ban i w).0)
        × ((player_ban env ps m w msg).2 ≡ decoded (samp.ban i w).1)
  unfolding player_kick player_ban
  kick-ban_unique ps m w msg i h e =
      let (k, b) = kick-ban_of_unique samp (Route.get (codes "name") m) ps (order ps) i w h e in
      rw (k, b) (ground arith, ground arith, ground arith, ground arith)

  -- A name that no player has: nothing happens to the server, and both calls fail with a text that
  -- names it.
  pub kick-ban_absent :
      (ps : Entries) (m : Match) (w : World) (msg : Message)
      → Perm (order ps) ps
      → ids (Route.get (codes "name") m) ps ≡ []
      → let failed =
          reply env msg
            (format (codes "Invalid player {}") (str (Route.get (codes "name") m) ∷ []))
            false
            w in
        (player_kick env ps m w msg ≡ failed) × (player_ban env ps m w msg ≡ failed)
  unfolding player_kick player_ban
  kick-ban_absent ps m w msg h e =
      let (k, b) = kick-ban_of_absent samp (Route.get (codes "name") m) ps (order ps) w h e in
      rw (k, b) (refl, refl)

  -- What becomes of the game server, and what is reported, where a function calls one native on a
  -- decoded request; a body that does not decode changes nothing and is reported as such.
  abbrev pub acted : {R : Type 0} → Decoded R → (R → World × Bool) → World → World × Decoded Bool
  acted (decode_exception what) act w = (w, decode_exception what)
  acted (decoded r) act w = ((act r).0, decoded (act r).1)

  abbrev pub effect : Handled World Message → World × Decoded Bool
  effect handled = (handled.0, handled.2)

  abbrev pub inverted : World × Bool → World × Bool
  inverted (w, b) = (w, not b)

  -- The settings call their native once on the decoded request and report what it returns; a body
  -- that does not decode leaves the server alone and is reported as such.
  pub settings_report :
      (req : Request) (w : World) (msg : Message)
      → (effect (gamemodetext env req w msg)
          ≡ acted (decode_simple codec req.body) (λ r. samp.set_game_mode_text (c_str r.value) w) w)
        × (effect (gravity env req w msg)
            ≡ acted (decode_gravity codec req.body) (λ r. samp.set_gravity r.gravity w) w)
        × (effect (weather env req w msg)
            ≡ acted (decode_int codec req.body) (λ r. samp.set_weather r.value w) w)
  unfolding gamemodetext gravity weather
  settings_report req w msg = (ground arith, ground arith, ground arith)

  -- Blocking and unblocking an address call their native once on the decoded request, and report the
  -- opposite of what it returns. The time of a block is the milliseconds of the seconds in the
  -- request, or of what unset memory holds where the request gives no time.
  pub ipban-inverted :
      (req : Request) (w : World) (msg : Message)
      → (effect (ipban env req w msg)
          ≡ acted
              (decode_ip codec req.body)
              (λ r. inverted (
                samp.block_ip_address
                  (c_str r.address)
                  (ban_milliseconds (seconds_or (env.stale w) r.time))
                  w))
              w)
        × (effect (ipunban env req w msg)
            ≡ acted
                (decode_ip codec req.body)
                (λ r. inverted (samp.un_block_ip_address (c_str r.address) w))
                w)
  unfolding ipban ipunban
  ipban-inverted req w msg = (ground arith, ground arith)
