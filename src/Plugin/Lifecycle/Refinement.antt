-- ===== src/Plugin/Lifecycle/Refinement.antt =====
-- While the plugin is loaded, a call on the globals is an event of the server.
use samp_plugin_api.Prelude.{refl, Bool, true, false, some, List, [], ◌∷◌, if◌then◌else◌}
use samp_plugin_api.Env.{Env}
use samp_plugin_api.Route.{Checked, ok, regex_error, out_of_range, system_error}
use samp_plugin_api.Server.{
  Server, Completion, Event, game_mode_init, game_mode_exit, player_connect, player_disconnect,
  process_tick, passes, poll, on_event,
}
use samp_plugin_api.Globals.{Globals, server_of, Runs, Runs-server_of}
use samp_plugin_api.Plugin.Lifecycle.{Ended, went, threw, undefined, went_on, poll_server, on_call}

module _ {World Float : Type 0} (env : Env World Float) {Sink : Type 0} where
  -- A call ends as the event does: it returns with globals that run the server, or both throw.
  abbrev pub Follows : Ended World Sink → Checked (Server World) → Type 0
  Follows (went g) (ok s) = Runs g s
  Follows threw (ok s) = ⊥
  Follows threw _ = Unit
  Follows _ _ = ⊥

  went_on-Follows :
      (g : Globals World Sink) (s : Server World) (r : Checked (Server World))
      → Runs g s
      → Follows (went_on g r) r
  went_on-Follows g s (ok t) h = record {
    logger = h.logger;
    config = refl;
    players = refl;
    endpoint = refl;
    service = h.service;
    ready = refl;
    world = refl;
  }
  went_on-Follows g s regex_error h = tt
  went_on-Follows g s out_of_range h = tt
  went_on-Follows g s system_error h = tt

  poll-Follows :
      (cs : List Completion) (g : Globals World Sink) (s : Server World)
      → Runs g s
      → Follows (poll_server env cs (some s) g) (poll env cs s)
  unfolding poll
  poll-Follows [] g s h = h
  poll-Follows (c ∷ cs) g s h = went_on-Follows g s (poll env (c ∷ cs) s) h

  tick-Follows :
      (b : Bool) (cs : List Completion) (g : Globals World Sink) (s : Server World)
      → Runs g s
      → Follows
          (if b
            then (if g.service then poll_server env cs (server_of g) g else undefined)
            else went g)
          (if b then poll env cs s else ok s)
  tick-Follows true cs g s h = simp (h.service, Runs-server_of g s h) (poll-Follows cs g s h)
  tick-Follows false cs g s h = h

  -- Each callback of the game server does to the globals of a loaded plugin what it does to the
  -- server that they point to: it returns with globals that point to the new server, or it throws
  -- where that does; it never goes through a pointer that is null or deleted.
  pub on_call-Follows :
      (e : Event World) (g : Globals World Sink) (s : Server World)
      → Runs g s
      → Follows (on_call env e g) (on_event env e s)
  unfolding on_call on_event
  on_call-Follows game_mode_init g s h = record {
    logger = h.logger;
    config = h.config;
    players = h.players;
    endpoint = h.endpoint;
    service = h.service;
    ready = refl;
    world = h.world;
  }
  on_call-Follows game_mode_exit g s h = record {
    logger = h.logger;
    config = h.config;
    players = h.players;
    endpoint = h.endpoint;
    service = h.service;
    ready = refl;
    world = h.world;
  }
  on_call-Follows (player_connect id) g s h =
      simp (h.players, h.world)
        (record {
          logger = h.logger;
          config = h.config;
          players = refl;
          endpoint = h.endpoint;
          service = h.service;
          ready = h.ready;
          world = refl;
        })
  on_call-Follows (player_disconnect id) g s h = simp (h.players) (record {
    logger = h.logger;
    config = h.config;
    players = refl;
    endpoint = h.endpoint;
    service = h.service;
    ready = h.ready;
    world = h.world;
  })
  on_call-Follows (process_tick cs) g s h = simp (← h.ready) (tick-Follows g.ready cs g s h)
  on_call-Follows (passes w) g s h = record {
    logger = h.logger;
    config = h.config;
    players = h.players;
    endpoint = h.endpoint;
    service = h.service;
    ready = h.ready;
    world = refl;
  }
