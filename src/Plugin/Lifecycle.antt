-- ===== src/Plugin/Lifecycle.antt =====
-- The exported functions of api/Api.cpp as steps on the globals, `Load` and `Unload` included.
pub mod Refinement
pub mod Order
pub mod Access
pub mod Afterwards
pub mod Opening
pub mod Life
use samp_plugin_api.Prelude.{ℕ, Bool, true, false, Option, none, some, List, [], ◌∷◌, if◌then◌else◌}
use samp_plugin_api.Players.{Entries, to_u32, add_player, remove_player}
use samp_plugin_api.Env.{Env}
use samp_plugin_api.Route.{Checked, ok}
use samp_plugin_api.Log.{Log}
use samp_plugin_api.Server.{
  Server, Completion, Event, game_mode_init, game_mode_exit, player_connect, player_disconnect,
  process_tick, passes, poll,
}
use samp_plugin_api.Globals.{Globals, Pointer, null, live, deleted, server_of, put_back}
use samp_plugin_api.Plugin.{Outcome, refused, thrown, listening, Surroundings, load}

-- How a call ends: it returns, an exception leaves it, or it goes through a pointer that is null or
-- deleted, which has no defined behaviour.
pub data Ended (World Sink : Type 0) : Type 0 where
  went : Globals World Sink → Ended World Sink
  threw undefined : Ended World Sink

pub data Call (World Fs Sink : Type 0) : Type 0 where
  load_call : Surroundings Fs Sink → Call World Fs Sink
  unload_call : Call World Fs Sink
  event : Event World → Call World Fs Sink

module _ {World Sink : Type 0} where
  -- `playerManager->…`.
  abbrev on_players : (Entries → Entries) → Pointer Entries → Globals World Sink → Ended World Sink
  on_players f (live ps) g = went (record g { players = live (f ps) })
  on_players f _ g = undefined

  abbrev pub went_on : Globals World Sink → Checked (Server World) → Ended World Sink
  went_on g (ok s) = went (put_back g s)
  went_on g _ = threw

  abbrev pub next_call :
      Ended World Sink → (Globals World Sink → Ended World Sink) → Ended World Sink
  next_call (went g) k = k g
  next_call threw k = threw
  next_call undefined k = undefined

  -- The end of `Unload`: the log is dropped and deleted.
  abbrev pub shut_down : Pointer (Log Sink) → Globals World Sink → Ended World Sink
  shut_down (live _) g = went (record g { logger = deleted })
  shut_down _ g = undefined

  -- `Unload`; `e` and `ready` stay as they are.
  pub unload : Globals World Sink → Ended World Sink
  unload g =
      if g.service
      then shut_down g.logger (record g { service = false; config = null; players = null })
      else undefined

  abbrev pub ended : Outcome World Sink → Ended World Sink
  ended (refused g) = went g
  ended (thrown g) = threw
  ended (listening g _ _) = went g

module _ {World Float : Type 0} (env : Env World Float) {Sink : Type 0} where
  -- `io_service->poll()`: only the handlers of completed operations go through the other pointers.
  abbrev pub poll_server :
      List Completion → Option (Server World) → Globals World Sink → Ended World Sink
  poll_server [] server g = went g
  poll_server (c ∷ cs) none g = undefined
  poll_server (c ∷ cs) (some s) g = went_on g (poll env (c ∷ cs) s)

  -- `OnGameModeInit`, `OnGameModeExit`, `OnPlayerConnect`, `OnPlayerDisconnect` and `ProcessTick`.
  pub on_call : Event World → Globals World Sink → Ended World Sink
  on_call game_mode_init g = went (record g { ready = true })
  on_call game_mode_exit g = went (record g { ready = false })
  on_call (player_connect id) g = on_players (add_player env.samp (to_u32 id) g.world) g.players g
  on_call (player_disconnect id) g = on_players (remove_player (to_u32 id)) g.players g
  on_call (process_tick cs) g =
      if g.ready then (if g.service then poll_server cs (server_of g) g else undefined) else went g
  on_call (passes w) g = went (record g { world = w })

  pub call_plugin : {Fs : Type 0} → Call World Fs Sink → Globals World Sink → Ended World Sink
  call_plugin (load_call around) g = ended (load env around g)
  call_plugin unload_call g = unload g
  call_plugin (event e) g = on_call e g

  pub call_all : {Fs : Type 0} → List (Call World Fs Sink) → Globals World Sink → Ended World Sink
  call_all [] g = went g
  call_all (c ∷ cs) g = next_call (call_plugin c g) (call_all cs)
