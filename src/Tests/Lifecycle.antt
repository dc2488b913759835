-- ===== src/Tests/Lifecycle.antt =====
-- Loading, calling and unloading the plugin.
use samp_plugin_api.Prelude.{
  ℕ, Text, ◌≡◌, refl, true, false, some, List, [], ◌∷◌, ◌++◌, codes, text_eq, text_lt, ◌==◌, map,
  arith,
}
use samp_plugin_api.Prelude.OrdMap
use samp_plugin_api.Config
use samp_plugin_api.Config.{Config, new_config}
use samp_plugin_api.Log
use samp_plugin_api.Log.{open_log}
use samp_plugin_api.Numbers
use samp_plugin_api.Numbers.{number, stoi, stoul}
use samp_plugin_api.Server.{
  Server, Event, game_mode_init, player_connect, process_tick, accepted, on_event,
}
use samp_plugin_api.Globals.{Globals, initial, live, endpoint_of, Runs}
use samp_plugin_api.Plugin.{Surroundings, load, supports}
use samp_plugin_api.Plugin.Liveness.{CanStart, Listens}
use samp_plugin_api.Plugin.Lifecycle.{
  Call, load_call, unload_call, event, on_call, call_plugin, call_all,
}
use samp_plugin_api.Plugin.Lifecycle.Refinement.{Follows, on_call-Follows}
use samp_plugin_api.Plugin.Lifecycle.Order.{
  Ordered, outside, loads, happens, unloads, done, next, Holds, Defined, call_all-Defined,
}
use samp_plugin_api.Config.Printing.{print}
use samp_plugin_api.Plugin.Printed.{IsWritten, arguments, Enforces, load-IsWritten}
use samp_plugin_api.Plugin.Lifecycle.Access.{Guards, call_all-Guards}
use samp_plugin_api.Plugin.Lifecycle.Life.{outside}
use samp_plugin_api.Plugin.Lifecycle.Afterwards.{Dangles, unload-Dangles}
use samp_plugin_api.Tests.{env, files, config, handler, put_request}

abbrev pub around : Surroundings ℕ ℕ
around = record {
  sdk_loaded = true;
  files = files;
  fs = 7;
  file = some (codes "hostname Test server" ++ 10 ∷ codes "api_password pw");
  can_bind = λ port. port == 7778;
  unset_seed = 0;
}

abbrev read_config : Config
read_config = record {
  entries =
      (codes "api_password", codes "pw" ∷ [])
      ∷ (codes "hostname", codes "Test" ∷ codes "server" ∷ [])
      ∷ [];
}

config_read : Config.load around.file new_config ≡ (read_config, true)
unfolding Config.load Config.lines Config.lines_from Config.load_lines Config.add_tokens
    Config.split Config.split_from OrdMap.emplace OrdMap.find OrdMap.place text_eq text_lt
config_read = refl

read_config-password : Config.get read_config (codes "api_password") 0 ≡ some (codes "pw")
unfolding Config.get OrdMap.find text_eq
read_config-password = refl

read_config-port :
    stoi (Config.get_default read_config (codes "api_port") (codes "7778") 0) ≡ number 7778
unfolding Config.get_default Config.get OrdMap.find text_eq stoi Numbers.to_int Numbers.read_sign
    Numbers.skip_spaces Numbers.read_digits
read_config-port = refl

read_config-seed :
    stoul (Config.get_default read_config (codes "api_seed") (codes "17733194") 0) ≡ number 17733194
unfolding Config.get_default Config.get OrdMap.find text_eq stoul Numbers.to_unsigned_long
    Numbers.read_sign Numbers.skip_spaces Numbers.read_digits
read_config-seed = refl

log_opens : (open_log files 7).2 ≡ some true
unfolding open_log Log.register_sink Log.register_file Log.check_path Log.register_checked
    Log.register_opened Log.finish_log
log_opens = refl

pub can_start : CanStart env around
can_start = record {
  config = read_config;
  password = codes "pw";
  port = 7778;
  seed = 17733194;
  logged = log_opens;
  loaded = config_read;
  with_password = read_config-password;
  with_port = read_config-port;
  bound = refl;
  with_seed = read_config-seed;
}

-- A flag is added once.
supports_flag : (supports 512 131072 ≡ 131584) × (supports 131584 131072 ≡ 131584)
supports_flag = (refl, refl)

-- A history: the plugin is loaded, the game mode starts, a player joins, a client connects, and the
-- plugin is unloaded.
abbrev history : List (Call ℕ ℕ ℕ)
history =
    load_call around
    ∷ event game_mode_init
    ∷ event (player_connect 1)
    ∷ event (process_tick (accepted ∷ []))
    ∷ unload_call
    ∷ []

history-Ordered : Ordered env (outside false) history (outside true)
history-Ordered = next (loads around can_start) (
    next (happens game_mode_init tt) (
      next (happens (player_connect 1) tt)
        (next (happens (process_tick (accepted ∷ [])) (tt, tt)) (next unloads done))))

call_all-Defined_example : Defined (Holds env (outside true)) (call_all env history (initial 7))
call_all-Defined_example = call_all-Defined env (initial 7) history-Ordered refl

-- The globals of a plugin that runs.
abbrev running : Server ℕ
running = record {
  ready = true;
  config = config;
  players = [];
  handler = handler;
  manager = record { sessions = []; heap = [] };
  next = 0;
  port = 7778;
  accepting = true;
  world = 7;
}

abbrev globals : Globals ℕ ℕ
globals = record {
  ready = true;
  logger = live (record {
    sinks = [];
    logger = some (record { name = []; sinks = []; flushes_on_error = true });
  });
  config = live config;
  players = live [];
  service = true;
  endpoint = live (endpoint_of running);
  world = 7;
}

globals-Runs : Runs globals running
globals-Runs = record {
  logger = (_, refl);
  config = refl;
  players = refl;
  endpoint = refl;
  service = refl;
  ready = refl;
  world = refl;
}

on_call-Follows_example :
    Follows env (on_call env (player_connect 1) globals) (on_event env (player_connect 1) running)
on_call-Follows_example = on_call-Follows env (player_connect 1) globals running globals-Runs

unload-Dangles_example : Defined (Dangles env ℕ true) (call_plugin env {Fs = ℕ} unload_call globals)
unload-Dangles_example = unload-Dangles env ℕ globals running globals-Runs

abbrev callbacks : List (Event ℕ)
callbacks = game_mode_init ∷ process_tick (accepted ∷ []) ∷ []

call_all-Guards_example :
    Defined
      (λ g.
        (t : Server ℕ) × Runs g t × Guards env around can_start put_request (codes "10.0.0.1") 7 t)
      (call_all env (load_call around ∷ map event callbacks) (initial 7))
call_all-Guards_example =
    call_all-Guards env around can_start callbacks (initial 7) put_request (codes "10.0.0.1") 7
      (tt, ((tt, tt), tt))

-- A `server.cfg` that was written from its entries.
abbrev server_cfg : List (Text × List Text)
server_cfg =
    (codes "api_password", codes "pw" ∷ [])
    ∷ (codes "api_port", codes "7778" ∷ [])
    ∷ (codes "api_seed", codes "42" ∷ [])
    ∷ (codes "api_ip_whitelist", codes "10.0.0.1" ∷ [])
    ∷ []

abbrev printed : Surroundings ℕ ℕ
printed = record around { file = some (print server_cfg) }

server_cfg-IsWritten : IsWritten env printed server_cfg (codes "pw") (codes "7778") (codes "42")
unfolding OrdMap.find text_eq
server_cfg-IsWritten = record {
  logged = log_opens;
  file = refl;
  printable = ground arith;
  with_password = refl;
  with_port = refl;
  with_seed = refl;
  port_digits = ((λ e. cc), omega arith);
  seed_digits = ((λ e. cc), omega arith);
  port_small = omega arith;
  seed_small = omega arith;
  bound = refl;
}

load-IsWritten_example :
    Listens env printed 7778 true (load env printed (initial 7))
    × Defined
        (λ g.
          (t : Server ℕ) × Runs g t
          × Enforces env printed
              (arguments (codes "api_ip_whitelist") server_cfg)
              (codes "pw")
              42
              put_request
              (codes "10.0.0.1")
              7
              t)
        (call_all env (load_call printed ∷ map event callbacks) (initial 7))
load-IsWritten_example =
    load-IsWritten env printed server_cfg (codes "pw") (codes "7778") (codes "42")
      server_cfg-IsWritten callbacks (initial 7) put_request (codes "10.0.0.1") 7
      (tt, ((tt, tt), tt))
