-- ===== src/Tests/Lives.antt =====
-- The life of the plugin over several loads.
use samp_plugin_api.Prelude.{ℕ, ◌≡◌, refl, false, some, List, [], ◌∷◌, codes, map}
use samp_plugin_api.Server.{game_mode_init, game_mode_exit, player_connect, process_tick, accepted}
use samp_plugin_api.Globals.{initial}
use samp_plugin_api.Plugin.Lifecycle.{call_all}
use samp_plugin_api.Plugin.Lifecycle.Opening.{gate_of_file, opening}
use samp_plugin_api.Server.Game
use samp_plugin_api.Server.Game.{tick, attempt, completed, find_client, change_client}
use samp_plugin_api.Session.Serving.{serve, reply}
use samp_plugin_api.Server.{request_read}
use samp_plugin_api.Plugin.Lifecycle.Life.{
  Deed, starts, ends, occurs, outside, inside, lives, lost, call_of, lead, deed, goes_on, put_out,
}
use samp_plugin_api.Plugin.Lifecycle.Life.Means.{Fulfils}
use samp_plugin_api.Plugin.Lifecycle.Life.Fulfilment.{call_all-Fulfils}
use samp_plugin_api.Tests.{env, put_request}
use samp_plugin_api.Tests.Lifecycle.{around, can_start}

-- The plugin is loaded, a player joins, a client asks, and the plugin is loaded again.
abbrev years : List (Deed env ℕ ℕ)
years =
    starts around can_start
    ∷ occurs game_mode_init
    ∷ occurs (player_connect 1)
    ∷ occurs (process_tick (accepted ∷ request_read 0 (some (codes "10.0.0.1")) put_request ∷ []))
    ∷ occurs game_mode_exit
    ∷ ends
    ∷ starts around can_start
    ∷ []

call_all-Fulfils_example :
    Fulfils env
      (call_all env (map (call_of env) years) (initial 7))
      (lead env years (outside false 7))
call_all-Fulfils_example = call_all-Fulfils env years 7

-- In the end nobody plays, and no client is there.
years-alive :
    lead env years (outside false 7)
    ≡ lives (inside (gate_of_file env around can_start) (opening env around can_start false 7))
unfolding lead deed goes_on put_out Game.happens tick attempt completed find_client change_client
    serve reply
years-alive = refl

-- `Unload` before `Load`.
ends-lost : lead {Fs = ℕ} {Sink = ℕ} env (ends ∷ []) (outside false 7) ≡ lost
unfolding lead deed put_out
ends-lost = refl
