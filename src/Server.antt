-- ===== src/Server.antt =====
-- api/Endpoint.hpp, api/Endpoint.cpp, and the callbacks of api/Api.cpp: the plugin while it runs.
-- The game server calls the callbacks, and in `ProcessTick` the I/O service calls the handlers of
-- the operations that have completed.
pub mod Polling
pub mod Invariant
pub mod Lifetime
pub mod Kept
pub mod Presence
pub mod Foreign
pub mod Game
pub mod Phases
pub mod Changes
pub mod Reachable
pub mod Quiet
pub mod Whole
pub mod Finish
use samp_plugin_api.Prelude.{
  ℕ, suc, Bool, true, false, Option, none, some, List, [], ◌∷◌, Text, if◌then◌else◌,
}
use samp_plugin_api.Config.{Config}
use samp_plugin_api.Players.{Entries, to_u32, add_player, remove_player}
use samp_plugin_api.Env.{Env, Request}
use samp_plugin_api.Route.{Checked, ok, ◌>>=◌}
use samp_plugin_api.Handler.{Handler}
use samp_plugin_api.Session
use samp_plugin_api.Session.{Session, Manager, new_session}

pub record Server (World : Type 0) : Type 0 where
  pub ready : Bool
  pub config : Config
  pub players : Entries
  pub handler : Handler
  pub manager : Manager
  -- The id of the next session on the heap, the port that the acceptor listens on, and whether an
  -- accept is outstanding.
  pub next : ℕ
  pub port : ℕ
  pub accepting : Bool
  pub world : World

-- What the I/O service reports: an accept or an error, a read with the address of the peer, unless
-- the connection is gone by then, and its request, or an error, the end of a write with whether it
-- failed, and the end of a wait with whether it was cancelled. It is what the handler is called
-- with: an operation may have ended well before the deadline closed the socket, and its handler be
-- called after.
pub data Completion : Type 0 where
  accepted : Completion
  accept_failed : Completion
  request_read : ℕ → Option Text → Request → Completion
  read_failed : ℕ → Completion
  response_written : ℕ → Bool → Completion
  deadline : ℕ → Bool → Completion

pub data Event (World : Type 0) : Type 0 where
  game_mode_init game_mode_exit : Event World
  player_connect player_disconnect : ℕ → Event World
  -- A tick, with what the service reports in it.
  process_tick : List Completion → Event World
  -- The game server changes by itself.
  passes : World → Event World

module _ {World Float : Type 0} (env : Env World Float) where
  -- The lambda of `Endpoint::Listen`, where the accept has succeeded.
  pub on_accepted : Server World → Server World
  on_accepted s =
      let heap = (s.next, new_session (env.now s.world)) ∷ s.manager.heap in
      record s {
        manager = Session.manager_start s.next (record s.manager { heap = heap });
        next = suc s.next;
        accepting = true;
      }

  abbrev pub put : ℕ → Server World → Handler × World × Session → Server World
  put i s (h, w, session) = record s {
    handler = h;
    world = w;
    manager = record s.manager { heap = Session.update i (λ _. session) s.manager.heap };
  }

  -- The lambda of `Session::ReadRequest`, where the read has succeeded.
  unfoldable pub on_read :
      ℕ → Option Text → Request → Option Session → Server World → Checked (Server World)
  on_read i peer req none s = ok s
  on_read i peer req (some session) s =
      Session.process_request env s.handler s.config s.players s.world req peer session >>= λ out.
      ok (put i s out)

  abbrev pub change : ℕ → (Session → Session) → Server World → Server World
  change i f s = record s {
    manager = record s.manager { heap = Session.update i f s.manager.heap };
  }

  unfoldable pub complete : Completion → Server World → Checked (Server World)
  complete accepted s = ok (on_accepted s)
  complete accept_failed s = ok (record s { accepting = true })
  complete (request_read i peer req) s = on_read i peer req (Session.find i s.manager.heap) s
  complete (read_failed i) s = ok (change i Session.on_read_failed s)
  complete (response_written i failed) s = ok (change i (Session.on_written failed) s)
  complete (deadline i aborted) s = ok (change i (Session.on_deadline aborted) s)

  -- `io_service->poll()`.
  unfoldable pub poll : List Completion → Server World → Checked (Server World)
  poll [] s = ok s
  poll (c ∷ cs) s = complete c s >>= poll cs

  -- The callbacks of the plugin.
  unfoldable pub on_event : Event World → Server World → Checked (Server World)
  on_event game_mode_init s = ok (record s { ready = true })
  on_event game_mode_exit s = ok (record s { ready = false })
  on_event (player_connect id) s =
      ok (record s { players = add_player env.samp (to_u32 id) s.world s.players })
  on_event (player_disconnect id) s =
      ok (record s { players = remove_player (to_u32 id) s.players })
  on_event (process_tick cs) s = if s.ready then poll cs s else ok s
  on_event (passes w) s = ok (record s { world = w })

  unfoldable pub run : List (Event World) → Server World → Checked (Server World)
  run [] s = ok s
  run (e ∷ es) s = on_event e s >>= run es
