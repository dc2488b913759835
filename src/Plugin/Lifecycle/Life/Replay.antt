-- ===== src/Plugin/Lifecycle/Life/Replay.antt =====
-- One load, and the callbacks that follow, as a replay of them.
use samp_plugin_api.Prelude.{◌≡◌, refl, subst, ap, Option, none, some, List, [], ◌∷◌, map}
use samp_plugin_api.Players.{to_u16}
use samp_plugin_api.Env.{Env}
use samp_plugin_api.Session.Serving.{Gate}
use samp_plugin_api.Server.{Server, Event}
use samp_plugin_api.Server.Game.{Game, game, happens, and_then, replay}
use samp_plugin_api.Globals.{Globals, Runs}
use samp_plugin_api.Plugin.{Surroundings}
use samp_plugin_api.Plugin.Started.{StartsRight}
use samp_plugin_api.Plugin.Start.{load-StartsRight}
use samp_plugin_api.Plugin.Liveness.{CanStart, opened, load_lem}
use samp_plugin_api.Plugin.Lifecycle.{
  Ended, went, threw, undefined, Call, load_call, event, call_plugin, call_all,
}
use samp_plugin_api.Plugin.Lifecycle.Opening.{gate_of_file, opening}
use samp_plugin_api.Plugin.Lifecycle.Life.{
  inside, fated, and_on, goes_on, Deed, occurs, call_of, deed, lead,
}
use samp_plugin_api.Plugin.Lifecycle.Life.Means.{Fulfils}
use samp_plugin_api.Plugin.Lifecycle.Life.Fulfilment.{started-IsInside, lead-Fulfils}

-- The globals run a server that the game server sees as described, or a call has thrown where the
-- description breaks.
abbrev EndsAs : {World Sink : Type 0} → Ended World Sink → Option (Game World) → Type 0
EndsAs {World} (went g) (some x) = (t : Server World) × Runs g t × (game t ≡ x)
EndsAs threw none = Unit
EndsAs _ _ = ⊥

module _ {World Float Sink : Type 0} (env : Env World Float) where
  Fulfils-EndsAs :
      (n : Ended World Sink) (k : Gate) (o : Option (Game World))
      → Fulfils env n (fated k o)
      → EndsAs n o
  Fulfils-EndsAs (went g) k (some x) h = (h.server, h.runs, h.game)
  Fulfils-EndsAs (went g) k none h = h
  Fulfils-EndsAs threw k (some x) h = h
  Fulfils-EndsAs threw k none h = h
  Fulfils-EndsAs undefined k (some x) h = h
  Fulfils-EndsAs undefined k none h = h

module _ {World Float : Type 0} (env : Env World Float) (Fs Sink : Type 0) where
  abbrev deeds : List (Event World) → List (Deed env Fs Sink)
  deeds = map occurs

  call_of-deeds : (es : List (Event World)) → map (call_of env) (deeds es) ≡ map event es
  call_of-deeds [] = refl
  call_of-deeds (e ∷ es) = ap (event e ∷◌) (call_of-deeds es)

  -- Callbacks of a loaded plugin lead where their replay does.
  lead-replay :
      (es : List (Event World)) (k : Gate) (x : Game World)
      → lead env (deeds es) (inside k x) ≡ fated k (replay env k es x)
  unfolding lead deed goes_on replay
  lead-replay [] k x = refl
  lead-replay (e ∷ es) k x = after (happens env k e x) (lead-replay es k)
    where
      after :
          (o : Option (Game World))
          → ((y : Game World) → lead env (deeds es) (inside k y) ≡ fated k (replay env k es y))
          → and_on (fated k o) (lead env (deeds es)) ≡ fated k (and_then o (replay env k es))
      after (some y) ih = ih y
      after none ih = refl

module _ {World Float Fs Sink : Type 0} (env : Env World Float) (around : Surroundings Fs Sink)
    (c : CanStart env around) where
  -- Where `Load` finds what it needs, and whatever callbacks follow: the description of these
  -- events, from no players and no clients, with the whitelist, the password and the seed of
  -- `server.cfg` or the default seed, gives what is seen of the plugin in the end, and all calls
  -- have returned; or the description breaks, where a client is gone whose `GET` or `POST` is
  -- processed, and then a call throws. No call goes through a null or deleted pointer.
  call_all-replay :
      (es : List (Event World)) (before : Globals World Sink)
      → EndsAs (call_all env (load_call around ∷ map event es) before) (
          replay env
            (gate_of_file env around c)
            es
            (opening env around c before.ready before.world))
  unfolding call_all call_plugin
  call_all-replay es before =
      let k = gate_of_file env around c in
      let x = opening env around c before.ready before.world in
      rw (load_lem env around c before) (
        Fulfils-EndsAs env _ k (replay env k es x) (
          subst
            (λ (cs : List (Call World Fs Sink)).
              Fulfils env (call_all env cs (opened env around c before))
                (fated k (replay env k es x)))
            (call_of-deeds env Fs Sink es)
            (subst
              (Fulfils env (
                call_all env (map (call_of env) (deeds env Fs Sink es))
                  (opened env around c before)))
              (lead-replay env Fs Sink es k x)
              (lead-Fulfils env (deeds env Fs Sink es) (opened env around c before) (inside k x) (
                started-IsInside env around c before (to_u16 c.port) (
                  subst (StartsRight env around before) (load_lem env around c before)
                    (load-StartsRight env around before)))))))
