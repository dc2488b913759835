-- ===== src/Plugin.antt =====
-- `Load` of api/Api.cpp: from the log and the configuration file to a listening endpoint.
pub mod Started
pub mod Start
pub mod Liveness
pub mod Lifecycle
pub mod Printed
use Prim.Native.Nat.{bit_or}
use samp_plugin_api.Prelude.{
  ℕ, Bool, true, false, not, Option, none, some, List, [], ◌∷◌, Text, codes, if◌then◌else◌,
}
use samp_plugin_api.Config
use samp_plugin_api.Config.{Config, new_config}
use samp_plugin_api.Players.{to_u16, to_u32}
use samp_plugin_api.Env.{Env, str}
use samp_plugin_api.Route.{new_route}
use samp_plugin_api.Handler.{Handler, register_functions}
use samp_plugin_api.Log.{Files, Log, open_log}
use samp_plugin_api.Globals.{Globals, Endpoint, live}
use samp_plugin_api.Numbers.{Number, number, invalid_argument, out_of_range, stoi, stoul}

-- How `Load` ends, with the globals as it leaves them: it returns false, it throws, or it returns
-- what the SDK's `Load` returned, with the plugin listening on a port.
pub data Outcome (World Sink : Type 0) : Type 0 where
  refused : Globals World Sink → Outcome World Sink
  thrown : Globals World Sink → Outcome World Sink
  listening : Globals World Sink → ℕ → Bool → Outcome World Sink

-- The handler of a new endpoint; its seed is not set before `SetSeed`.
pub new_handler : ℕ → Handler
new_handler unset_seed =
    register_functions (record { password = []; seed = unset_seed; routes = []; route = new_route })

abbrev pub set_password : Text → Handler → Handler
set_password password h = record h { password = password }

abbrev pub set_seed : ℕ → Handler → Handler
set_seed seed h = record h { seed = seed }

-- `Supports`: the flags of the SDK's `Supports`, and the flag of `ProcessTick`.
abbrev pub supports : ℕ → ℕ → ℕ
supports sdk_flags supports_process_tick = bit_or sdk_flags supports_process_tick

-- What `Load` finds outside: the result of the SDK's `Load`, the file system, the text of
-- `server.cfg` if it can be read, whether a port can be bound, and the memory of an unset seed.
pub record Surroundings (Fs Sink : Type 0) : Type 0 where
  pub sdk_loaded : Bool
  pub files : Files Fs Sink
  pub fs : Fs
  pub file : Option Text
  pub can_bind : ℕ → Bool
  pub unset_seed : ℕ

module _ {World Float Fs Sink : Type 0} (env : Env World Float)
    (around : Surroundings Fs Sink) where
  open env use {samp, format}
  open around use {sdk_loaded, files, fs, file, can_bind, unset_seed}

  -- The constructor of the endpoint, whose acceptor listens on the port, and `SetPassword`.
  abbrev pub new_endpoint : ℕ → Text → Endpoint
  new_endpoint port password = record {
    handler = set_password password (new_handler unset_seed);
    manager = record { sessions = []; heap = [] };
    next = 0;
    port = port;
    accepting = false;
  }

  -- `SetSeed` and `Listen`.
  pub load_seed : Text → ℕ → Text → Endpoint → Globals World Sink → Outcome World Sink
  load_seed port number_of_port seed e g = elim (stoul seed) [
    | number n ↦
        listening
          (record g {
            endpoint =
                live (record e { handler = set_seed (to_u32 n) e.handler; accepting = true });
            world =
                samp.log_info
                  (format (codes "[SA-MP API] Starting listening on port {}.") (str port ∷ []))
                  g.world;
          })
          number_of_port sdk_loaded
    | _ ↦ thrown (record g { endpoint = live e })
  ]

  -- From the constructor of the endpoint on.
  pub load_endpoint : Text → Text → Text → Globals World Sink → Outcome World Sink
  load_endpoint port seed password g = elim (stoi port) [
    | number n ↦
        if not (can_bind (to_u16 (to_u32 n)))
        then thrown g
        else load_seed port (to_u16 (to_u32 n)) seed (new_endpoint (to_u16 (to_u32 n)) password) g
    | _ ↦ thrown g
  ]

  abbrev pub with_password : Text → Text → Option Text → Globals World Sink → Outcome World Sink
  with_password port seed none g = refused (record g {
    world =
        samp.log_info
          (format (codes "[SA-MP API] Required server config not found: api_password") []) g.world;
  })
  with_password port seed (some password) g = load_endpoint port seed password g

  pub load_config : Config × Bool → Globals World Sink → Outcome World Sink
  load_config (config, false) g = refused (record g {
    config = live config;
    world = samp.log_info (format (codes "[SA-MP API] Failed to read server.cfg.") []) g.world;
  })
  load_config (config, true) g =
      let port = Config.get_default config (codes "api_port") (codes "7778") 0 in
      let seed = Config.get_default config (codes "api_seed") (codes "17733194") 0 in
      with_password port seed (Config.get config (codes "api_password") 0)
        (record g { config = live config; service = true })

  pub load_log : Fs × Log Sink × Option Bool → Globals World Sink → Outcome World Sink
  load_log (_, log, none) g = thrown (record g { logger = live log })
  load_log (_, log, some false) g = refused (record g {
    logger = live log;
    world = samp.logprintf (codes "[SA-MP API] Failed to initialize log.") g.world;
  })
  load_log (_, log, some true) g =
      load_config (Config.load file new_config) (record g { logger = live log })

  -- `Load`.
  unfoldable pub load : Globals World Sink → Outcome World Sink
  load g = load_log (open_log files fs) (record g { players = live [] })
