-- ===== src/Tests.antt =====
-- A small game server and codec on which the operations run, and the tests. The children hold the
-- instances of the theorems, by the part of the program that they are about.
mod Requests
mod Routes
mod Sessions
mod Stores
mod Steps
mod Lifecycle
mod Lives
use samp_plugin_api.Prelude.{
  ℕ, ◌+◌, ◌-◌, ◌≡◌, refl, Bool, true, false, Option, none, some, List, [], ◌∷◌, ◌++◌, Text, codes,
  length, take, inl, inr, ltb, ◌==◌, if◌then◌else◌, text_eq,
}
use samp_plugin_api.Prelude.OrdMap
use samp_plugin_api.Config.{Config, get_args}
use samp_plugin_api.Samp.{Natives}
use samp_plugin_api.Players.{Entries}
use samp_plugin_api.Codecs.{
  Kind, string_kind, uint32_kind, int_kind, float_kind, Member, required_member, optional_member,
  Decodes, Slot, Slots, Codec,
}
use samp_plugin_api.Messages.{Object, Field, Decoded, decoded, decode_exception}
use samp_plugin_api.Env.{Env, Arg, Request, post, other_verb, str, int}
use samp_plugin_api.Handler.{Handler}
use samp_plugin_api.Handler.Table.{table}
use samp_plugin_api.Handler.Access.{IsAdmitted, whitelist}
use samp_plugin_api.Handler.Dispatch.{IsRegistered}
use samp_plugin_api.Route.{new_route}
use samp_plugin_api.Log.{Files}
use samp_plugin_api.Session.{Session, new_session}
use samp_plugin_api.Server.{Server}

-- The world counts what is done to it.
abbrev pub address : ℕ → ℕ → Text
address w id = codes "255.255.255.255"

abbrev pub samp : Natives ℕ ℕ
samp = record {
  kick = λ id w. (w + 10 + id, true);
  ban = λ id w. (w + 20 + id, ltb id 5);
  get_player_name = λ w id size. if id == 1 then codes "ann" else codes "bob";
  get_player_ip = λ w id size. take (size - 1) (address w id);
  get_player_pos = λ w id. (id, w, 0);
  get_player_health = λ w id. 100;
  get_player_armour = λ w id. 0;
  get_player_skin = λ w id. 3;
  get_player_score = λ w id. id;
  get_player_ping = λ w id. 40;
  get_player_vehicle_id = λ w id. 0;
  is_player_npc = λ w id. false;
  max_player_name = 24;
  send_player_message_to_all = λ color t w. w + length t;
  block_ip_address = λ ip time w. (w + 1, true);
  un_block_ip_address = λ ip w. (w + 1, false);
  set_game_mode_text = λ t w. (w + 2, true);
  set_gravity = λ g w. (w + g, true);
  set_weather = λ n w. (w + n, true);
  get_tick_count = λ w. w;
  get_server_tick_rate = λ w. 60;
  get_gravity = λ w. 8;
  get_actor_pool_size = λ w. 0;
  get_vehicle_pool_size = λ w. 0;
  get_max_players = λ w. 50;
  log_info = λ t w. w;
  log_warn = λ t w. w + 1000;
  logprintf = λ t w. w;
}

-- A body is a number and a text, of which every member is filled; the empty body does not decode.
abbrev part : ℕ → Text → (k : Kind) → Decodes ℕ k
part c s string_kind = s
part c s uint32_kind = c
part c s int_kind = c
part c s float_kind = c

abbrev slot : ℕ → Text → (m : Member) → Slot ℕ m
slot c s (required_member _ k) = part c s k
slot c s (optional_member _ k) = some (part c s k)

abbrev slots : ℕ → Text → (ms : List Member) → Slots ℕ ms
slots c s [] = tt
slots c s (m ∷ ms) = (slot c s m, slots c s ms)

abbrev decode_all : (ms : List Member) → Text → Decoded (Slots ℕ ms)
decode_all ms [] = decode_exception (codes "empty")
decode_all ms (c ∷ s) = decoded (slots c s ms)

abbrev pub codec : Codec ℕ
codec = record { encode = λ o. codes "{}"; decode = decode_all }

abbrev pub env : Env ℕ ℕ
env = record {
  samp = samp;
  codec = codec;
  format = λ t args. t;
  xxh32 = λ t seed. length t + seed;
  now = λ w. w;
  ticks_per_ms = 1000;
  stale = λ w. 99;
  order = λ ps. ps;
}

-- A configuration with a whitelist, and a handler with a password and a seed.
abbrev pub config : Config
config = record {
  entries = (codes "api_ip_whitelist", codes "10.0.0.1" ∷ codes "10.0.0.2" ∷ []) ∷ [];
}

abbrev pub handler : Handler
handler = record { password = codes "pw"; seed = 1; routes = table; route = new_route }

pub handler-IsRegistered : IsRegistered handler
handler-IsRegistered = record { routes = refl; no_cache = refl }

abbrev pub players : Entries
players =
    (1, record { id = 1; name = codes "ann" }) ∷ (2, record { id = 2; name = codes "bob" }) ∷ []

-- A request for a target, with a hash and a password.
abbrev pub request : Text → ℕ → Text → Request
request target hash password = record {
  verb = post;
  target = target;
  version = 11;
  body = hash ∷ password;
}

-- A file system that is the number of its changes, with no folder in it.
abbrev pub files : Files ℕ ℕ
files = record {
  is_regular_file = λ fs path. some false;
  is_directory = λ fs path. some false;
  parent_path = λ path. codes "logs";
  create_directories = λ path fs. (fs + 1, some true);
  open_daily = λ name fs. (fs + 1, some fs);
  console = 100;
}

-- A session, a request that the handler does not answer, and a server with the session.
abbrev pub client : Session
client = new_session 5

abbrev pub put_request : Request
put_request = record (request (codes "/player/list") 13 (codes "pw")) {
  verb = other_verb (codes "PUT");
}

abbrev pub server : Server ℕ
server = record {
  ready = true;
  config = config;
  players = [];
  handler = handler;
  manager = record { sessions = 0 ∷ []; heap = (0, client) ∷ [] };
  next = 1;
  port = 7778;
  accepting = true;
  world = 7;
}

-- An address on the whitelist.
abbrev pub remote : Text
remote = codes "10.0.0.2"

pub remote-IsAdmitted : IsAdmitted remote (whitelist config)
unfolding get_args OrdMap.find text_eq
remote-IsAdmitted = inr (inr (inl refl))
