-- ===== src/Session.antt =====
-- api/Session.hpp, api/Session.cpp, api/SessionManager.hpp and api/SessionManager.cpp. A session
-- starts asynchronous operations; what completes them comes later, as a call of the handler that
-- stands in its lambda.
pub mod Requests
pub mod Answered
pub mod Credentials
pub mod Isolation
pub mod Foreign
pub mod Serving
pub mod Meaning
pub mod Managed
use samp_plugin_api.Prelude.{
  ℕ, ◌==◌, Bool, true, false, Option, none, some, List, [], ◌∷◌, Text, length, if◌then◌else◌,
}
use samp_plugin_api.Config.{Config}
use samp_plugin_api.Players.{Entries}
use samp_plugin_api.Env.{Env, Request, Response, Verb, post, get, other_verb}
use samp_plugin_api.Route.{Checked, ok, system_error, ◌>>=◌}
use samp_plugin_api.Handler.{Handler, handle_request}

-- Which of the read and the write is outstanding, or how it ended: the read has failed, the write
-- has ended with an error, or the response was written.
pub data Phase : Type 0 where
  idle reading failed writing unsent written : Phase

-- The wait on the deadline timer.
pub data Timer : Type 0 where
  unset armed cancelled fired : Timer

pub record Session : Type 0 where
  pub init_time : ℕ
  pub response : Response
  pub phase : Phase
  pub timer : Timer
  pub socket_open : Bool
  pub send_open : Bool

-- A response as Beast's constructor leaves it.
abbrev pub new_response : Response
new_response = record {
  version = 11;
  keep_alive = true;
  status = 200;
  content_type = none;
  content_length = none;
  body = [];
}

-- The constructor, with the time.
abbrev pub new_session : ℕ → Session
new_session now = record {
  init_time = now;
  response = new_response;
  phase = idle;
  timer = unset;
  socket_open = true;
  send_open = true;
}

-- `Session::ReadRequest` and `Session::CheckDeadline` start their operations.
abbrev read_request : Session → Session
read_request s = record s { phase = reading }

abbrev check_deadline : Session → Session
check_deadline s = record s { timer = armed }

-- `Session::Start` and `Session::Stop`.
unfoldable pub start : Session → Session
start s = check_deadline (read_request s)

unfoldable pub stop : Session → Session
stop s = record s { socket_open = false; send_open = false }

-- `Session::Write` up to the start of the write.
unfoldable pub write : Session → Session
write s = record s {
  response = record s.response { content_length = some (length s.response.body) };
  phase = writing;
}

-- `deadline_.cancel()`: it cancels a wait that is outstanding.
abbrev pub cancel : Timer → Timer
cancel armed = cancelled
cancel timer = timer

-- How a write ends, with whether its error code is set.
abbrev pub written_with : Bool → Phase
written_with true = unsent
written_with false = written

-- The lambda of `Session::Write`, with whether its error code is set; it does not look at it.
unfoldable pub on_written : Bool → Session → Session
on_written error s = record s {
  phase = written_with error;
  send_open = false;
  timer = cancel s.timer;
}

-- The lambda of `Session::ReadRequest` where the read has failed.
unfoldable pub on_read_failed : Session → Session
on_read_failed s = record s { phase = failed }

-- The lambda of `Session::CheckDeadline`, with whether its error code is set.
unfoldable pub on_deadline : Bool → Session → Session
on_deadline true s = record s { timer = fired }
on_deadline false s = record s { timer = fired; socket_open = false; send_open = false }

module _ {World Float : Type 0} (env : Env World Float) where
  -- `Session::CreateResponse`. The address is what `remote_endpoint()` gives; it throws if the
  -- connection is gone.
  unfoldable pub create_response :
      Handler
      → Config
      → Entries
      → World
      → Request
      → Option Text
      → Session
      → Checked (Handler × World × Session)
  create_response h config ps w req none s = system_error
  create_response h config ps w req (some ip) s =
      handle_request env h config ps req s.response ip s.init_time w >>= λ (h', w', response).
      ok (h', w', record s { response = response })

  -- The `switch` of `Session::ProcessRequest`.
  unfoldable pub by_verb :
      Verb
      → Handler
      → Config
      → Entries
      → World
      → Request
      → Option Text
      → Session
      → Checked (Handler × World × Session)
  by_verb post h config ps w req peer s = create_response h config ps w req peer s
  by_verb get h config ps w req peer s = create_response h config ps w req peer s
  by_verb (other_verb _) h config ps w req peer s = ok (h, w, s)

  -- `Session::ProcessRequest`.
  unfoldable pub process_request :
      Handler
      → Config
      → Entries
      → World
      → Request
      → Option Text
      → Session
      → Checked (Handler × World × Session)
  process_request h config ps w req peer s =
      let prepared = record s {
        response = record s.response { version = req.version; keep_alive = false };
      } in
      by_verb req.verb h config ps w req peer prepared >>= λ (h', w', s'). ok (h', w', write s')

-- `SessionManager`: the set of sessions, by the ids of the sessions on the heap.
pub insert : ℕ → List ℕ → List ℕ
insert i [] = i ∷ []
insert i (j ∷ js) = if j == i then j ∷ js else j ∷ insert i js

unfoldable pub erase : ℕ → List ℕ → List ℕ
erase i [] = []
erase i (j ∷ js) = if j == i then js else j ∷ erase i js

-- The sessions that are on the heap.
abbrev pub Heap : Type 0
Heap = List (ℕ × Session)

unfoldable pub find : ℕ → Heap → Option Session
find i [] = none
find i ((j, s) ∷ heap) = if j == i then some s else find i heap

unfoldable pub update : ℕ → (Session → Session) → Heap → Heap
update i f [] = []
update i f ((j, s) ∷ heap) = if j == i then (j, f s) ∷ heap else (j, s) ∷ update i f heap

pub record Manager : Type 0 where
  pub sessions : List ℕ
  pub heap : Heap

-- `SessionManager::Start`, `Stop` and `StopAll`.
unfoldable pub manager_start : ℕ → Manager → Manager
manager_start i m = record { sessions = insert i m.sessions; heap = update i start m.heap }

pub manager_stop : ℕ → Manager → Manager
manager_stop i m = record { sessions = erase i m.sessions; heap = update i stop m.heap }

pub stop_each : List ℕ → Heap → Heap
stop_each [] heap = heap
stop_each (i ∷ is) heap = stop_each is (update i stop heap)

pub manager_stop_all : Manager → Manager
manager_stop_all m = record { sessions = []; heap = stop_each m.sessions m.heap }
