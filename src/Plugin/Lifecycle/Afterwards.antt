-- ===== src/Plugin/Lifecycle/Afterwards.antt =====
-- What `Unload` leaves behind.
use samp_plugin_api.Prelude.{ℕ, ◌≡◌, refl, Bool, false, some, List, if◌then◌else◌}
use samp_plugin_api.Env.{Env}
use samp_plugin_api.Log.{Log, Logger}
use samp_plugin_api.Server.{Server, Completion, player_connect, player_disconnect, process_tick}
use samp_plugin_api.Globals.{Globals, Pointer, live, null, deleted, get_logger, Runs}
use samp_plugin_api.Plugin.Lifecycle.{
  Ended, went, undefined, Call, unload_call, event, unload, shut_down, on_call, call_plugin,
}
use samp_plugin_api.Plugin.Lifecycle.Order.{Defined}

module _ {World Float : Type 0} (env : Env World Float) {Sink : Type 0} (Fs : Type 0) where
  abbrev run_call : Call World Fs Sink → Globals World Sink → Ended World Sink
  run_call = call_plugin env

  -- The calls on globals that were unloaded.
  pub record Dangles (was_ready : Bool) (g : Globals World Sink) : Type 0 where
    pub unload_again : run_call unload_call g ≡ undefined
    pub connect : (id : ℕ) → run_call (event (player_connect id)) g ≡ undefined
    pub disconnect : (id : ℕ) → run_call (event (player_disconnect id)) g ≡ undefined
    pub tick :
        (cs : List Completion)
        → run_call (event (process_tick cs)) g ≡ (if was_ready then undefined else went g)

  shut_down-Dangles :
      (p : Pointer (Log Sink)) (g : Globals World Sink)
      → (l : Logger Sink) × (get_logger p ≡ some l)
      → Defined
          (Dangles g.ready)
          (shut_down p (record g { service = false; config = null; players = null }))
  unfolding call_plugin unload on_call
  shut_down-Dangles (live _) g l = record {
    unload_again = refl;
    connect = λ id. refl;
    disconnect = λ id. refl;
    tick = λ cs. refl;
  }
  shut_down-Dangles null g l = cc
  shut_down-Dangles deleted g l = cc

  -- `Unload` of a loaded plugin returns. From then on a second `Unload` and the connection or the
  -- disconnection of a player go through a null pointer, and so does `ProcessTick`, unless the game
  -- mode had ended before: `Unload` does not reset `ready`.
  pub unload-Dangles :
      (g : Globals World Sink) (s : Server World)
      → Runs g s
      → Defined (Dangles g.ready) (run_call unload_call g)
  unfolding call_plugin unload
  unload-Dangles g s runs = simp (runs.service) (shut_down-Dangles g.logger g runs.logger)
