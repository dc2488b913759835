-- ===== src/Tests/Stores.antt =====
-- The configuration, the players, the functions behind the routes, and the log.
use mathlib.Core.List.{filter_map}
use samp_plugin_api.Prelude.{
  ℕ, ◌≤◌, ◌≡◌, ◌≢◌, ◌↔◌, refl, some, List, [], ◌∷◌, ◌++◌, Text, codes, All, length, text_eq, arith,
}
use samp_plugin_api.Prelude.OrdMap
use samp_plugin_api.Config
use samp_plugin_api.Config.{Config, new_config, appended, or_default}
use samp_plugin_api.Config.Lookup.{first_entry, get_args-load}
use samp_plugin_api.Config.Printing.{print, IsPrintable, load-print}
use samp_plugin_api.Players.{
  Player, PlayerData, Entries, get_player, add_player, remove_player, player_data, get_player_data,
}
use samp_plugin_api.Players.Map.{IsValid}
use samp_plugin_api.Players.Names.{ids}
use samp_plugin_api.Players.Data.{ip-player_data_iff}
use samp_plugin_api.Env.{c_str, Request}
use samp_plugin_api.Route
use samp_plugin_api.Route.{Match}
use samp_plugin_api.Prelude.{Option, Bool}
use samp_plugin_api.Log.{open_log}
use samp_plugin_api.Log.Opening.{Checks, Opened, open_log-Opened}
use samp_plugin_api.Log.Console.{log, new_sink, set_formatter, log_lem}
use samp_plugin_api.Tests.{files, address, samp, players, request}

abbrev entries : List (Text × List Text)
entries =
    (codes "port", codes "7777" ∷ [])
    ∷ (codes "rcon", codes "a" ∷ codes "b" ∷ [])
    ∷ (codes "port", codes "1" ∷ [])
    ∷ []

entries-ArePrintable : All IsPrintable entries
entries-ArePrintable = ground arith

load-print_example :
    OrdMap.find (codes "port") (Config.load (some (print entries)) new_config).0.entries
    ≡ OrdMap.find (codes "port") entries
load-print_example = load-print (codes "port") entries entries-ArePrintable

abbrev file : Text
file = codes "api_port 80" ++ 10 ∷ codes "api_port 81"

get_args-load_example :
    Config.get_args (Config.load (some file) new_config).0 (codes "api_port") (codes "x" ∷ [])
    ≡ appended
        (OrdMap.first_some
          (OrdMap.find (codes "api_port") [])
          (first_entry (codes "api_port") (Config.lines file)))
        (codes "x" ∷ [])
get_args-load_example = get_args-load file (codes "api_port") new_config (codes "x" ∷ [])

abbrev loaded : Config
loaded = record { entries = (codes "api_port", codes "80" ∷ []) ∷ [] }

players-IsValid : IsValid players
unfolding samp_plugin_api.Players.find
players-IsValid = (refl, refl, (refl, refl, tt))

ip-player_data_iff_example :
    ((player_data samp 7 (record { id = 1; name = codes "ann" })).ip ≡ address 7 1)
    ↔ (length (address 7 1) ≤ 14)
ip-player_data_iff_example =
    ip-player_data_iff samp address (λ w id size. refl) 7 (record { id = 1; name = codes "ann" })

-- The match of a url that names a player.
abbrev named : Text → Match
named name = record { pairs = (codes "name", name) ∷ []; keys = some 1 }

eve-ids : ids (Route.get (codes "name") (named (codes "eve"))) players ≡ []
unfolding Route.get OrdMap.find text_eq filter_map
eve-ids = refl

abbrev rain : Request
rain = request (codes "/settings/weather") 8 (codes "rain")

abbrev path : Text
path = codes "logs/api.log"

open_log-Opened_example :
    (c : ℕ × Option Bool) × Checks files path 7 c × Opened files c (open_log files 7)
open_log-Opened_example = open_log-Opened files 7

-- A message is a number, and a line is as long as the number.
abbrev pattern_formatter : Text → ℕ → Text
pattern_formatter pattern msg = b'a' ∷ 0 ∷ msg ∷ []

log_lem_example :
    (log samp pattern_formatter 5 (new_sink samp pattern_formatter) 7 ≡ 7)
    × (log samp pattern_formatter 5
          (set_formatter samp pattern_formatter
            (pattern_formatter [])
            (new_sink samp pattern_formatter))
          7
        ≡ 7)
    × ((c_str (b'a' ∷ 0 ∷ 5 ∷ []) ≡ b'a' ∷ 0 ∷ 5 ∷ [])
        ↔ All {A = ℕ} (λ c. c ≢ 0) (b'a' ∷ 0 ∷ 5 ∷ []))
log_lem_example =
    log_lem samp pattern_formatter 5 (pattern_formatter []) (new_sink samp pattern_formatter) 7
