-- ===== src/Plugin/Lifecycle/Life/Fulfilment.antt =====
-- Calls of the plugin against what its life comes to.
use samp_plugin_api.Prelude.{
  ℕ, ◌≡◌, refl, subst, ap₂, Bool, true, false, Option, none, some, List, [], ◌∷◌, map,
}
use samp_plugin_api.Players.{to_u16}
use samp_plugin_api.Env.{Env}
use samp_plugin_api.Route.{Checked, ok, regex_error, out_of_range, system_error}
use samp_plugin_api.Log.{Log, Logger}
use samp_plugin_api.Server.{
  Server, Event, game_mode_init, game_mode_exit, player_connect, player_disconnect, process_tick,
  passes, on_event,
}
use samp_plugin_api.Server.Game.{Game, gate_of, happens}
use samp_plugin_api.Server.Game.Refinement.{Sees, on_event-Sees, gate_kept}
use samp_plugin_api.Globals.{Globals, Pointer, null, live, deleted, get_logger, initial}
use samp_plugin_api.Plugin.{Surroundings}
use samp_plugin_api.Plugin.Started.{IsStarted, StartsRight}
use samp_plugin_api.Plugin.Start.{load-StartsRight}
use samp_plugin_api.Plugin.Liveness.{CanStart, opened, load_lem}
use samp_plugin_api.Plugin.Lifecycle.{
  Ended, went, threw, undefined, load_call, unload, shut_down, on_call, call_plugin, call_all,
}
use samp_plugin_api.Plugin.Lifecycle.Life.{
  Life, outside, inside, Fate, lives, fated, put_out, goes_on, Deed, starts, ends, occurs, call_of,
  deed, lead,
}
use samp_plugin_api.Plugin.Lifecycle.Access.{IsStarted-IsConfigured}
use samp_plugin_api.Plugin.Lifecycle.Refinement.{Follows, on_call-Follows}
use samp_plugin_api.Plugin.Lifecycle.Opening.{gate_of_file, opening, game-opened, gate-IsConfigured}
use samp_plugin_api.Plugin.Lifecycle.Life.Means.{
  Means, Fulfils, IsOutside, IsInside, next-Fulfils, ready-Means, world-Means,
}

module _ {World Float Sink : Type 0} (env : Env World Float) where
  shut_down-Fulfils :
      (p : Pointer (Log Sink)) (g : Globals World Sink) (r : Bool) (w : World)
      → (l : Logger Sink) × (get_logger p ≡ some l)
      → IsOutside (record g { logger = deleted }) r w
      → Fulfils env (shut_down p g) (lives (outside r w))
  shut_down-Fulfils (live _) g r w l h = h
  shut_down-Fulfils null g r w l h = cc
  shut_down-Fulfils deleted g r w l h = cc

  unload-Fulfils :
      (g : Globals World Sink) (l : Life World) → Means env g l → Fulfils env (unload g) (put_out l)
  unfolding unload put_out
  unload-Fulfils g (outside r w) h = rw h.service tt
  unload-Fulfils g (inside k x) h = rw h.runs.service (
      shut_down-Fulfils g.logger _ x.ready x.world h.runs.logger (record {
        players = refl;
        service = refl;
        ready = ready-Means env g (inside k x) h;
        world = world-Means env g (inside k x) h;
      }))

  Sees-Fulfils :
      (s : Server World) (n : Ended World Sink) (r : Checked (Server World))
      (o : Option (Game World))
      → Follows env n r
      → Sees env s r o
      → Fulfils env n (fated (gate_of s) o)
  Sees-Fulfils s (went g) (ok t) (some x) f (e, (v, kept)) = record {
    server = t;
    runs = f;
    inv = v;
    gate = gate_kept env kept;
    game = e;
  }
  Sees-Fulfils s (went g) (ok t) none f h = absurd h
  Sees-Fulfils s threw (ok t) o f h = absurd f
  Sees-Fulfils s undefined (ok t) o f h = absurd f
  Sees-Fulfils s threw system_error none f h = tt
  Sees-Fulfils s threw system_error (some x) f h = absurd h
  Sees-Fulfils s (went g) system_error o f h = absurd f
  Sees-Fulfils s undefined system_error o f h = absurd f
  Sees-Fulfils s n regex_error o f h = absurd h
  Sees-Fulfils s n out_of_range o f h = absurd h

  event-Fulfils :
      (e : Event World) (g : Globals World Sink) (l : Life World)
      → Means env g l
      → Fulfils env (on_call env e g) (goes_on env e l)
  unfolding on_call goes_on
  event-Fulfils e g (inside k x) h =
      subst (λ (o : Fate World). Fulfils env (on_call env e g) o)
        (ap₂ (λ k x. fated k (happens env k e x)) h.gate h.game)
        (Sees-Fulfils h.server (on_call env e g) (on_event env e h.server) _
          (on_call-Follows env e g h.server h.runs) (on_event-Sees env e h.server h.inv))
  event-Fulfils game_mode_init g (outside r w) h = record {
    players = h.players;
    service = h.service;
    ready = refl;
    world = h.world;
  }
  event-Fulfils game_mode_exit g (outside r w) h = record {
    players = h.players;
    service = h.service;
    ready = refl;
    world = h.world;
  }
  event-Fulfils (player_connect id) g (outside r w) h = rw h.players tt
  event-Fulfils (player_disconnect id) g (outside r w) h = rw h.players tt
  event-Fulfils (process_tick cs) g (outside true w) h = rw (h.ready, h.service) tt
  event-Fulfils (process_tick cs) g (outside false w) h = simp (h.ready) h
  event-Fulfils (passes w') g (outside r w) h = record {
    players = h.players;
    service = h.service;
    ready = h.ready;
    world = refl;
  }

module _ {World Float Fs Sink : Type 0} (env : Env World Float) where
  pub started-IsInside :
      (around : Surroundings Fs Sink) (c : CanStart env around) (before : Globals World Sink)
      (port : ℕ)
      → IsStarted env around before (opened env around c before) port
      → IsInside env
          (opened env around c before)
          (gate_of_file env around c)
          (opening env around c before.ready before.world)
  started-IsInside around c before port st = record {
    server = st.server;
    runs = st.runs;
    inv = st.inv;
    gate =
        gate-IsConfigured env around c st.server
          (IsStarted-IsConfigured env around c before (opened env around c before) port st);
    game = game-opened env around c before st.server st.runs;
  }

  load-Fulfils :
      (around : Surroundings Fs Sink) (c : CanStart env around) (g : Globals World Sink)
      (l : Life World)
      → Means env g l
      → Fulfils env (call_plugin env (load_call around) g) (deed env (starts around c) l)
  unfolding call_plugin deed
  load-Fulfils around c g l h = rw (load_lem env around c g) (
      subst (IsInside env (opened env around c g) (gate_of_file env around c))
        (ap₂ (opening env around c) (ready-Means env g l h) (world-Means env g l h))
        (started-IsInside around c g (to_u16 c.port) (
          subst (StartsRight env around g) (load_lem env around c g)
            (load-StartsRight env around g))))

  deed-Fulfils :
      (d : Deed env Fs Sink) (g : Globals World Sink) (l : Life World)
      → Means env g l
      → Fulfils env (call_plugin env (call_of env d) g) (deed env d l)
  unfolding call_plugin deed
  deed-Fulfils (starts around c) g l h = load-Fulfils around c g l h
  deed-Fulfils ends g l h = unload-Fulfils env g l h
  deed-Fulfils (occurs e) g l h = event-Fulfils env e g l h

  pub lead-Fulfils :
      (ds : List (Deed env Fs Sink)) (g : Globals World Sink) (l : Life World)
      → Means env g l
      → Fulfils env (call_all env (map (call_of env) ds) g) (lead env ds l)
  unfolding call_all lead
  lead-Fulfils [] g l h = h
  lead-Fulfils (d ∷ ds) g l h =
      next-Fulfils env (call_plugin env (call_of env d) g) (deed env d l) _ (lead env ds)
        (deed-Fulfils d g l h) (lead-Fulfils ds)

  -- The whole plugin, from the start of the program. Whatever is called, in whatever order, where
  -- each `Load` finds what it needs: the description of these calls says how they end. All have
  -- returned, and the plugin is loaded or not as described; if it is, the game server and the
  -- clients see of it what is described: the players, the clients with what each was answered, and
  -- the game server, by the whitelist, the password and the seed of its `server.cfg` or the default
  -- seed. Or a call has thrown, because a client is gone whose `GET` or `POST` is processed. Or a
  -- call has gone through a null pointer, because a plugin that is not loaded is unloaded or told of
  -- a player, or is polled with its game mode running.
  pub call_all-Fulfils :
      (ds : List (Deed env Fs Sink)) (w : World)
      → Fulfils env
          (call_all env (map (call_of env) ds) (initial w))
          (lead env ds (outside false w))
  call_all-Fulfils ds w =
      lead-Fulfils ds (initial w) (outside false w)
        (record { players = refl; service = refl; ready = refl; world = refl })
