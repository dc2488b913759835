-- ===== src/Plugin/Lifecycle/Life.antt =====
-- The plugin over several loads and unloads, as the game server and its clients see it.
pub mod Means
pub mod Fulfilment
pub mod Replay
use samp_plugin_api.Prelude.{
  ℕ, ◌≡◌, refl, sym, subst, ap, ap₂, ◌∙◌, Bool, true, false, Option, none, some, List, [], ◌∷◌, map,
  if◌then◌else◌,
}
use samp_plugin_api.Players.{to_u16}
use samp_plugin_api.Env.{Env}
use samp_plugin_api.Route.{Checked, ok, regex_error, out_of_range, system_error}
use samp_plugin_api.Log.{Log, Logger}
use samp_plugin_api.Session.Serving.{Gate}
use samp_plugin_api.Server.{
  Server, Event, game_mode_init, game_mode_exit, player_connect, player_disconnect, process_tick,
  passes, on_event,
}
use samp_plugin_api.Server.Invariant.{Inv}
use samp_plugin_api.Server.Game.{Game, game, gate_of, happens}
use samp_plugin_api.Server.Game.Refinement.{Sees, on_event-Sees, gate_kept}
use samp_plugin_api.Globals.{Globals, Pointer, null, live, deleted, get_logger, initial, Runs}
use samp_plugin_api.Plugin.{Surroundings, load}
use samp_plugin_api.Plugin.Started.{IsStarted, StartsRight}
use samp_plugin_api.Plugin.Start.{load-StartsRight}
use samp_plugin_api.Plugin.Liveness.{CanStart, greet, opened, load_lem}
use samp_plugin_api.Plugin.Lifecycle.{
  Ended, went, threw, undefined, Call, load_call, unload_call, event, unload, shut_down, on_call,
  next_call, call_plugin, call_all,
}
use samp_plugin_api.Plugin.Lifecycle.Access.{IsStarted-IsConfigured}
use samp_plugin_api.Plugin.Lifecycle.Refinement.{Follows, on_call-Follows}
use samp_plugin_api.Plugin.Lifecycle.Opening.{gate_of_file, opening, game-opened, gate-IsConfigured}

-- The plugin is not loaded, with its flag `ready`, or it is.
pub data Life (World : Type 0) : Type 0 where
  outside : Bool → World → Life World
  inside : Gate → Game World → Life World

-- How it goes on: it lives, an exception leaves it, or it has no defined behaviour.
pub data Fate (World : Type 0) : Type 0 where
  lives : Life World → Fate World
  broken lost : Fate World

module _ {World : Type 0} where
  abbrev pub ready_of : Life World → Bool
  ready_of (outside r w) = r
  ready_of (inside k g) = g.ready

  abbrev pub world_of : Life World → World
  world_of (outside r w) = w
  world_of (inside k g) = g.world

  abbrev pub and_on : Fate World → (Life World → Fate World) → Fate World
  and_on (lives l) f = f l
  and_on broken f = broken
  and_on lost f = lost

  abbrev pub fated : Gate → Option (Game World) → Fate World
  fated k (some g) = lives (inside k g)
  fated k none = broken

  -- `Unload`.
  unfoldable pub put_out : Life World → Fate World
  put_out (inside k g) = lives (outside g.ready g.world)
  put_out (outside r w) = lost

module _ {World Float : Type 0} (env : Env World Float) where
  -- A callback.
  unfoldable pub goes_on : Event World → Life World → Fate World
  goes_on e (inside k g) = fated k (happens env k e g)
  goes_on game_mode_init (outside r w) = lives (outside true w)
  goes_on game_mode_exit (outside r w) = lives (outside false w)
  goes_on (player_connect id) (outside r w) = lost
  goes_on (player_disconnect id) (outside r w) = lost
  goes_on (process_tick cs) (outside r w) = if r then lost else lives (outside r w)
  goes_on (passes w') (outside r w) = lives (outside r w')

module _ {World Float : Type 0} (env : Env World Float) (Fs Sink : Type 0) where
  -- `Load` where it finds what it needs, `Unload`, or another callback.
  pub data Deed : Type 0 where
    starts : (around : Surroundings Fs Sink) → CanStart env around → Deed
    ends : Deed
    occurs : Event World → Deed

module _ {World Float Fs Sink : Type 0} (env : Env World Float) where
  abbrev pub call_of : Deed env Fs Sink → Call World Fs Sink
  call_of (starts around c) = load_call around
  call_of ends = unload_call
  call_of (occurs e) = event e

  -- What a deed makes of a life.
  unfoldable pub deed : Deed env Fs Sink → Life World → Fate World
  deed (starts around c) l =
      lives (inside (gate_of_file env around c) (opening env around c (ready_of l) (world_of l)))
  deed ends l = put_out l
  deed (occurs e) l = goes_on env e l

  unfoldable pub lead : List (Deed env Fs Sink) → Life World → Fate World
  lead [] l = lives l
  lead (d ∷ ds) l = and_on (deed d l) (lead ds)
