-- ===== src/Plugin/Lifecycle/Opening.antt =====
-- What is seen of a plugin that has just started.
use samp_plugin_api.Prelude.{Bool, ◌≡◌, sym, []}
use samp_plugin_api.Env.{Env}
use samp_plugin_api.Session.Serving.{Gate}
use samp_plugin_api.Server.{Server}
use samp_plugin_api.Server.Game.{Game, clients_of, game, gate_of}
use samp_plugin_api.Globals.{Globals, live, endpoint_of, Runs}
use samp_plugin_api.Plugin.{Surroundings}
use samp_plugin_api.Plugin.Liveness.{CanStart, fresh, greet, opened}
use samp_plugin_api.Plugin.Lifecycle.Access.{IsConfigured}

live-injective : {A : Type 0} {x y : A} → live x ≡ live y → x ≡ y
live-injective e = cc

module _ {World Float Fs Sink : Type 0} (env : Env World Float) (around : Surroundings Fs Sink)
    (c : CanStart env around) where
  -- What the game server sees of a plugin that has just started.
  abbrev pub opening : Bool → World → Game World
  opening ready world = record {
    ready = ready;
    players = [];
    clients = [];
    next = 0;
    world = greet env around c world;
  }

  -- The whitelist, the password and the seed of `server.cfg`.
  abbrev pub gate_of_file : Gate
  gate_of_file = record { config = c.config; password = c.password; seed = c.seed }

  pub game-opened :
      (before : Globals World Sink) (s : Server World)
      → Runs (opened env around c before) s
      → game s ≡ opening before.ready before.world
  game-opened before s h =
      let e : fresh env around c ≡ endpoint_of s = live-injective h.endpoint in
      sym (λ i. record {
        ready = h.ready i;
        players = live-injective h.players i;
        clients = clients_of (e i).manager.heap;
        next = (e i).next;
        world = h.world i;
      })

  pub gate-IsConfigured :
      (s : Server World) → IsConfigured env around c s → gate_of s ≡ gate_of_file
  gate-IsConfigured s k i = record { config = k.config i; password = k.password i; seed = k.seed i }
