-- ===== src/Tests/Steps.antt =====
-- Steps of the server.
use mathlib.Core.Option.{some-injective}
use samp_plugin_api.Prelude.{
  ◌+◌, ◌*◌, ◌≤◌, inl, inr, subst, sym, Bool, ℕ, ◌≡◌, none, refl, true, false, some, [], ◌∷◌, codes,
  arith, ◌==◌, if◌then◌else◌,
}
use samp_plugin_api.Session
use samp_plugin_api.Session.{Session, Heap, Manager, new_session, new_response, process_request}
use samp_plugin_api.Session.Managed.{has}
use samp_plugin_api.Server.{Server, request_read, response_written, deadline}
use samp_plugin_api.Server.Invariant.{Inv}
use samp_plugin_api.Server.{complete, on_read}
use samp_plugin_api.Server.Phases.{IsConsistent, started-IsConsistent}
use samp_plugin_api.Server.Quiet
use samp_plugin_api.Server.Finish.{
  WasStarted, AllStarted, IsQuiet, IsFinished, Trace-IsFinished, Trace-IsServed,
}
use samp_plugin_api.Server.Whole.{HasWhole}
use samp_plugin_api.Session.Answered.{IsAnswered}
use samp_plugin_api.Route.{ok}
use samp_plugin_api.Server.Reachable.{
  Step, completes, here, next, Sound, Reach-Sound, Sends, Reach-Sends,
}
use samp_plugin_api.Session.{reading, writing, unsent, written, armed, cancelled, fired, by_verb}
use samp_plugin_api.Tests.{client, put_request, server, env, handler-IsRegistered}

-- The steps of a server whose session reads a request, writes its response and is done.
abbrev with_session : Session → Server ℕ
with_session x = record server { manager = record { sessions = 0 ∷ []; heap = (0, x) ∷ [] } }

abbrev reading_client : Session
reading_client = record client { phase = reading; timer = armed }

abbrev writing_client : Session
writing_client = record reading_client {
  phase = writing;
  response = record new_response { keep_alive = false; content_length = some 0 };
}

abbrev done_client : Session
done_client = record writing_client { phase = written; timer = cancelled; send_open = false }

reading_client-IsConsistent : IsConsistent env reading_client
unfolding Session.start
reading_client-IsConsistent = started-IsConsistent env 5

with_session-Inv : (x : Session) → Inv env (with_session x)
unfolding has
with_session-Inv x = record {
  registered = handler-IsRegistered;
  players = tt;
  distinct = (refl, tt);
  managed = (refl, omega arith, tt);
}

with_session-Sound : (x : Session) → IsConsistent env x → Sound env (with_session x)
unfolding Session.find
with_session-Sound x c = (with_session-Inv x, λ i y. only (0 == i) y)
  where
    only : (b : Bool) (y : Session) → (if b then some x else none) ≡ some y → IsConsistent env y
    only true y e = subst (IsConsistent env) (some-injective _ _ e) c
    only false y e = cc

in_phase :
    (p : Session.Phase) (x : Session) (i : ℕ) (y : Session)
    → x.phase ≡ p
    → Session.find i ((0, x) ∷ []) ≡ some y
    → y.phase ≡ p
unfolding Session.find
in_phase p x i y h e = ground arith

read-Step : Step env (with_session reading_client) (with_session writing_client)
unfolding complete on_read process_request by_verb Session.write Session.find Session.update
read-Step =
    completes (request_read 0 (some (codes "10.0.0.1")) put_request)
      (λ y. in_phase reading reading_client 0 y refl) refl

write-Step : Step env (with_session writing_client) (with_session done_client)
unfolding complete Session.on_written Session.find Session.update
write-Step =
    completes (response_written 0 false) (λ y. in_phase writing writing_client 0 y refl) refl

Reach-Sound_example : Sound env (with_session done_client)
Reach-Sound_example =
    Reach-Sound env (with_session-Sound reading_client reading_client-IsConsistent)
      (next (next here read-Step) write-Step)

writing_client-Sound : Sound env (with_session writing_client)
writing_client-Sound =
    Reach-Sound env (with_session-Sound reading_client reading_client-IsConsistent)
      (next here read-Step)

writing_client-Sends :
    Sends env writing_client.response (Session.find 0 (with_session writing_client).manager.heap)
unfolding Session.find
writing_client-Sends = (inl refl, refl)

Reach-Sends_example :
    Sends env writing_client.response (Session.find 0 (with_session done_client).manager.heap)
Reach-Sends_example =
    Reach-Sends env 0 writing_client.response writing_client-Sound (next here write-Step)
      writing_client-Sends

exchange-Trace :
    Quiet.Trace env
      (with_session reading_client)
      (request_read 0 (some (codes "10.0.0.1")) put_request ∷ response_written 0 false ∷ [])
      (with_session done_client)
unfolding complete on_read process_request by_verb Session.on_written Session.write Session.find
    Session.update
exchange-Trace =
    Quiet.completes (request_read 0 (some (codes "10.0.0.1")) put_request)
      (reading_client, refl, refl) refl
      (Quiet.completes (response_written 0 false) (writing_client, refl, refl) refl Quiet.here)

Trace-work_left_example :
    2 + Quiet.work_left (with_session done_client).manager.heap
    ≤ Quiet.work_left (with_session reading_client).manager.heap + 3 * 0
Trace-work_left_example = Quiet.Trace-work_left env (with_session-Inv reading_client) exchange-Trace

-- The history to its end: the deadline, which was cancelled, is over too.
abbrev ended_client : Session
ended_client = record done_client { timer = fired }

whole-Trace :
    Quiet.Trace env
      (with_session reading_client)
      (request_read 0 (some (codes "10.0.0.1")) put_request
        ∷ response_written 0 false
        ∷ deadline 0 true
        ∷ [])
      (with_session ended_client)
unfolding complete on_read process_request by_verb Session.on_written Session.on_deadline
    Session.write Session.find Session.update
whole-Trace =
    Quiet.completes (request_read 0 (some (codes "10.0.0.1")) put_request)
      (reading_client, refl, refl) refl
      (Quiet.completes (response_written 0 false) (writing_client, refl, refl) refl
        (Quiet.completes (deadline 0 true) (done_client, refl, inr refl) refl Quiet.here))

only_one : (x : Session) (i : ℕ) (y : Session) → Session.find i ((0, x) ∷ []) ≡ some y → y ≡ x
unfolding Session.find
only_one x i y e = ground arith

ended-IsQuiet : IsQuiet env (with_session ended_client)
ended-IsQuiet = record {
  no_read = λ i (x, e, f). cc (only_one ended_client i x e, f);
  no_write = λ i (x, e, f). cc (only_one ended_client i x e, f);
  no_deadline = λ i (x, e, f). ground (arith, only_one ended_client i x e);
}

reading-AllStarted : AllStarted env (with_session reading_client)
reading-AllStarted i x e =
    subst WasStarted (sym (only_one reading_client i x e)) ((λ e. cc), (λ e. cc))

ended-found : Session.find 0 (with_session ended_client).manager.heap ≡ some ended_client
unfolding Session.find
ended-found = refl

Trace-IsFinished_example :
    IsFinished env ended_client
    × (3 ≤ Quiet.work_left (with_session reading_client).manager.heap + 3 * 0)
Trace-IsFinished_example =
    Trace-IsFinished env 0 ended_client
      (with_session-Sound reading_client reading_client-IsConsistent) reading-AllStarted whole-Trace
      ended-IsQuiet ended-found

reading-HasWhole : HasWhole env 0 (with_session reading_client)
unfolding Session.find
reading-HasWhole = ((λ e. cc), (λ e. cc))

-- The whole history, in which no error is reported.
Trace-IsServed_example :
    (ended_client.phase ≡ written)
    × IsAnswered env ended_client.response
    × (ended_client.timer ≡ fired)
Trace-IsServed_example =
    Trace-IsServed env 0 ended_client
      (with_session-Sound reading_client reading_client-IsConsistent) reading-AllStarted whole-Trace
      (tt, (tt, (tt, tt))) reading-HasWhole ended-IsQuiet ended-found

-- A write that fails: the deadline is over as before, but the answer was not written.
failed_write :
    complete env (response_written 0 true) (with_session writing_client)
    ≡ ok (with_session (record done_client { phase = unsent }))
unfolding complete Session.on_written Session.find Session.update
failed_write = refl
