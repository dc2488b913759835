-- ===== src/Globals.antt =====
-- The global variables of api/Api.cpp, api/Config.cpp, api/PlayerManager.cpp and
-- share/log/Log.cpp, which point to the parts of the plugin.
use samp_plugin_api.Prelude.{◌≡◌, arith, ℕ, Bool, true, false, Option, none, some}
use samp_plugin_api.Config.{Config}
use samp_plugin_api.Players.{Entries}
use samp_plugin_api.Handler.{Handler}
use samp_plugin_api.Session.{Manager}
use samp_plugin_api.Server.{Server}
use samp_plugin_api.Log.{Log, Logger}

pub data Pointer (A : Type 0) : Type 0 where
  null : Pointer A
  live : A → Pointer A
  deleted : Pointer A

-- The object that `e` points to: its acceptor listens on a port, and `accepting` says whether an
-- accept is outstanding.
pub record Endpoint : Type 0 where
  pub handler : Handler
  pub manager : Manager
  pub next : ℕ
  pub port : ℕ
  pub accepting : Bool

pub record Globals (World Sink : Type 0) : Type 0 where
  pub ready : Bool
  pub logger : Pointer (Log Sink)
  pub config : Pointer Config
  pub players : Pointer Entries
  -- Whether `io_service` is not null.
  pub service : Bool
  pub endpoint : Pointer Endpoint
  pub world : World

-- `GetLogger()`: a log has no logger before it is set up.
abbrev pub get_logger : {Sink : Type 0} → Pointer (Log Sink) → Option (Logger Sink)
get_logger (live log) = log.logger
get_logger _ = none

abbrev pub endpoint_of : {World : Type 0} → Server World → Endpoint
endpoint_of s = record {
  handler = s.handler;
  manager = s.manager;
  next = s.next;
  port = s.port;
  accepting = s.accepting;
}

module _ {World Sink : Type 0} where
  -- The globals before the plugin is loaded.
  abbrev pub initial : World → Globals World Sink
  initial w = record {
    ready = false;
    logger = null;
    config = null;
    players = null;
    service = false;
    endpoint = null;
    world = w;
  }

  abbrev assemble :
      Globals World Sink
      → Option (Logger Sink)
      → Pointer Config
      → Pointer Entries
      → Pointer Endpoint
      → Option (Server World)
  assemble g (some _) (live config) (live players) (live e) = some (record {
    ready = g.ready;
    config = config;
    players = players;
    handler = e.handler;
    manager = e.manager;
    next = e.next;
    port = e.port;
    accepting = e.accepting;
    world = g.world;
  })
  assemble g _ _ _ _ = none

  -- What the handlers of completed operations use, if every pointer on their way is live.
  pub server_of : Globals World Sink → Option (Server World)
  server_of g = assemble g (get_logger g.logger) g.config g.players g.endpoint

  -- The globals once the handlers have changed the server.
  abbrev pub put_back : Globals World Sink → Server World → Globals World Sink
  put_back g s = record g {
    ready = s.ready;
    config = live s.config;
    players = live s.players;
    endpoint = live (endpoint_of s);
    world = s.world;
  }

  -- The globals point to the parts of a server, and all that it needs is live.
  pub record Runs (g : Globals World Sink) (s : Server World) : Type 0 where
    pub logger : (l : Logger Sink) × (get_logger g.logger ≡ some l)
    pub config : g.config ≡ live s.config
    pub players : g.players ≡ live s.players
    pub endpoint : g.endpoint ≡ live (endpoint_of s)
    pub service : g.service ≡ true
    pub ready : g.ready ≡ s.ready
    pub world : g.world ≡ s.world

  pub Runs-server_of : (g : Globals World Sink) (s : Server World) → Runs g s → server_of g ≡ some s
  unfolding server_of
  Runs-server_of g s r = ground (arith, r)
