-- ===== src/Plugin/Lifecycle/Life/Means.antt =====
-- What a life of the plugin says of its globals, and of how its calls end.
use samp_plugin_api.Prelude.{◌≡◌, ap, ◌∙◌, Bool, false}
use samp_plugin_api.Env.{Env}
use samp_plugin_api.Session.Serving.{Gate}
use samp_plugin_api.Server.{Server}
use samp_plugin_api.Server.Invariant.{Inv}
use samp_plugin_api.Server.Game.{Game, game, gate_of}
use samp_plugin_api.Globals.{Globals, null, Runs}
use samp_plugin_api.Plugin.Lifecycle.{Ended, went, threw, undefined, next_call}
use samp_plugin_api.Plugin.Lifecycle.Life.{
  Life, outside, inside, Fate, lives, broken, lost, ready_of, world_of, and_on,
}

module _ {World Sink : Type 0} where
  -- What a life says of the globals.
  pub record IsOutside (g : Globals World Sink) (r : Bool) (w : World) : Type 0 where
    pub players : g.players ≡ null
    pub service : g.service ≡ false
    pub ready : g.ready ≡ r
    pub world : g.world ≡ w

module _ {World Float Sink : Type 0} (env : Env World Float) where
  pub record IsInside (g : Globals World Sink) (k : Gate) (x : Game World) : Type 0 where
    pub server : Server World
    pub runs : Runs g server
    pub inv : Inv env server
    pub gate : gate_of server ≡ k
    pub game : game server ≡ x

  abbrev pub Means : Globals World Sink → Life World → Type 0
  Means g (outside r w) = IsOutside g r w
  Means g (inside k x) = IsInside g k x

  -- A call ends as its deed does.
  abbrev pub Fulfils : Ended World Sink → Fate World → Type 0
  Fulfils (went g) (lives l) = Means g l
  Fulfils threw broken = Unit
  Fulfils undefined lost = Unit
  Fulfils _ _ = ⊥

  pub next-Fulfils :
      (n : Ended World Sink) (o : Fate World) (f : Globals World Sink → Ended World Sink)
      (k : Life World → Fate World)
      → Fulfils n o
      → ((g : Globals World Sink) (l : Life World) → Means g l → Fulfils (f g) (k l))
      → Fulfils (next_call n f) (and_on o k)
  next-Fulfils (went g) (lives l) f k h step = step g l h
  next-Fulfils (went g) broken f k h step = absurd h
  next-Fulfils (went g) lost f k h step = absurd h
  next-Fulfils threw (lives l) f k h step = absurd h
  next-Fulfils threw broken f k h step = tt
  next-Fulfils threw lost f k h step = absurd h
  next-Fulfils undefined (lives l) f k h step = absurd h
  next-Fulfils undefined broken f k h step = absurd h
  next-Fulfils undefined lost f k h step = tt

  pub ready-Means : (g : Globals World Sink) (l : Life World) → Means g l → g.ready ≡ ready_of l
  ready-Means g (outside r w) h = h.ready
  ready-Means g (inside k x) h = h.runs.ready ∙ ap (λ y. y.ready) h.game

  pub world-Means : (g : Globals World Sink) (l : Life World) → Means g l → g.world ≡ world_of l
  world-Means g (outside r w) h = h.world
  world-Means g (inside k x) h = h.runs.world ∙ ap (λ y. y.world) h.game
