-- ===== src/Server/Quiet.antt =====
-- How much work is left: each session that was accepted has at most three completions.
use samp_plugin_api.Prelude.{
  tests, ℕ, suc, ◌+◌, ◌*◌, ◌<◌, ◌≤◌, ◌≡◌, ◌⊎◌, refl, sym, subst, ap, inl, inr, Bool, true, false,
  none, some, List, [], ◌∷◌, Text, arith,
}
use samp_plugin_api.Env.{Env, Request}
use samp_plugin_api.Route.{ok, Returns, Returns-bind}
use samp_plugin_api.Handler.Dispatch.{IsRegistered}
use samp_plugin_api.Session
use samp_plugin_api.Session.{
  Session, Heap, Phase, idle, reading, failed, writing, written, written_with, Timer, unset, armed,
  cancelled, fired, new_session,
}
use samp_plugin_api.Session.Requests.{IsSent, process_request-IsSent}
use samp_plugin_api.Server.{
  Server, Completion, accepted, accept_failed, request_read, read_failed, response_written,
  deadline, Event, on_accepted, on_read, complete, on_event,
}
use samp_plugin_api.Server.Invariant.{Inv, HasPeer, complete-Inv, on_event-Inv}
use samp_plugin_api.Server.Reachable.{IsCallback, callback-heap, callback-EventHasPeer}

-- The completions that are still to come: of the read and the write, and of the deadline.
abbrev exchanges : Phase → ℕ
exchanges reading = 2
exchanges writing = 1
exchanges _ = 0

abbrev pub waits : Timer → ℕ
waits armed = 1
waits cancelled = 1
waits _ = 0

abbrev work : Session → ℕ
work s = exchanges s.phase + waits s.timer

abbrev pub work_left : Heap → ℕ
work_left [] = 0
work_left ((_, s) ∷ heap) = work s + work_left heap

work_left-update :
    (i : ℕ) (f : Session → Session) (heap : Heap) (x : Session)
    → Session.find i heap ≡ some x
    → work (f x) < work x
    → work_left (Session.update i f heap) < work_left heap
unfolding Session.find Session.update
work_left-update i f [] x e h = cc
work_left-update i f ((j, s) ∷ heap) x e h = ground (arith, work_left-update i f heap x)

-- A session is accepted, or an operation of one has completed.
abbrev pub clients : List Completion → ℕ
clients [] = 0
clients (accepted ∷ cs) = suc (clients cs)
clients (_ ∷ cs) = clients cs

abbrev pub handled : List Completion → ℕ
handled [] = 0
handled (accepted ∷ cs) = handled cs
handled (accept_failed ∷ cs) = handled cs
handled (_ ∷ cs) = suc (handled cs)

module _ {World Float : Type 0} (env : Env World Float) where
  abbrev Has : ℕ → (Session → Type 0) → Server World → Type 0
  Has i P s = (x : Session) × (Session.find i s.manager.heap ≡ some x) × P x

  -- The operation that completes is an operation of a session on the heap, and it is outstanding.
  abbrev pub IsPending : Completion → Server World → Type 0
  IsPending (request_read i (some _) req) s = Has i (λ x. x.phase ≡ reading) s
  IsPending (request_read i none req) s = ⊥
  IsPending (read_failed i) s = Has i (λ x. x.phase ≡ reading) s
  IsPending (response_written i error) s = Has i (λ x. x.phase ≡ writing) s
  IsPending (deadline i _) s = Has i (λ x. (x.timer ≡ armed) ⊎ (x.timer ≡ cancelled)) s
  IsPending _ s = Unit

  -- What is left after a completion, and before it.
  abbrev Lessens : Completion → Server World → Server World → Type 0
  Lessens c s t =
      handled (c ∷ []) + work_left t.manager.heap ≤ work_left s.manager.heap + 3 * clients (c ∷ [])

  on_accepted-Lessens : (s : Server World) → Lessens accepted s (on_accepted env s)
  unfolding on_accepted Session.manager_start Session.update Session.start
  on_accepted-Lessens s = grind tests

  change-lt :
      (i : ℕ) (f : Session → Session) (s : Server World) (x : Session)
      → Session.find i s.manager.heap ≡ some x
      → work (f x) < work x
      → 1 + work_left (Session.update i f s.manager.heap) ≤ work_left s.manager.heap + 0
  change-lt i f s x e h = omega (arith, work_left-update i f s.manager.heap x e h)

  on_read-Lessens :
      (i : ℕ) (ip : Text) (req : Request) (s : Server World) (x : Session)
      → Inv env s
      → Session.find i s.manager.heap ≡ some x
      → x.phase ≡ reading
      → Returns (Lessens (request_read i (some ip) req) s) (on_read env i (some ip) req (some x) s)
  unfolding on_read
  on_read-Lessens i ip req s x v e p =
      Returns-bind (λ out. IsRegistered out.0 × IsSent env req x out.2)
        (Lessens (request_read i (some ip) req) s) _ _
        (process_request-IsSent env s.handler s.config s.players s.world req ip x v.registered)
        (λ out (g, sent).
          change-lt i (λ _. out.2) s x e (rw (sent.phase, sent.timer, p) (omega arith)))

  timer-lt :
      (aborted : Bool) (x : Session)
      → (x.timer ≡ armed) ⊎ (x.timer ≡ cancelled)
      → work (Session.on_deadline aborted x) < work x
  unfolding Session.on_deadline
  timer-lt true x (inl e) = rw e (omega arith)
  timer-lt true x (inr e) = rw e (omega arith)
  timer-lt false x (inl e) = rw e (omega arith)
  timer-lt false x (inr e) = rw e (omega arith)

  exchanges-written_with : (error : Bool) → exchanges (written_with error) ≡ 0
  exchanges-written_with true = refl
  exchanges-written_with false = refl

  waits-cancel : (t : Timer) → waits (Session.cancel t) ≡ waits t
  waits-cancel unset = refl
  waits-cancel armed = refl
  waits-cancel cancelled = refl
  waits-cancel fired = refl

  complete-Lessens :
      (c : Completion) (s : Server World)
      → Inv env s
      → IsPending c s
      → Returns (Lessens c s) (complete env c s)
  unfolding complete Session.on_read_failed Session.on_written
  complete-Lessens accepted s v p = on_accepted-Lessens s
  complete-Lessens accept_failed s v p = omega arith
  complete-Lessens (request_read i none req) s v p = absurd p
  complete-Lessens (request_read i (some ip) req) s v (x, e, p) =
      subst
        (λ o. Returns (Lessens (request_read i (some ip) req) s) (on_read env i (some ip) req o s))
        (sym e) (on_read-Lessens i ip req s x v e p)
  complete-Lessens (read_failed i) s v (x, e, p) =
      change-lt i Session.on_read_failed s x e (rw p (omega arith))
  complete-Lessens (response_written i error) s v (x, e, p) =
      change-lt i (Session.on_written error) s x e
        (rw (p, exchanges-written_with error, waits-cancel x.timer) (omega arith))
  complete-Lessens (deadline i aborted) s v (x, e, p) =
      change-lt i (Session.on_deadline aborted) s x e (timer-lt aborted x p)

  pub pending-HasPeer : (c : Completion) (s : Server World) → IsPending c s → HasPeer c
  pending-HasPeer accepted s p = tt
  pending-HasPeer accept_failed s p = tt
  pending-HasPeer (request_read i none req) s p = p
  pending-HasPeer (request_read i (some ip) req) s p = tt
  pending-HasPeer (read_failed i) s p = tt
  pending-HasPeer (response_written i error) s p = tt
  pending-HasPeer (deadline i aborted) s p = tt

  -- A history with the completions in it.
  pub data Trace : Server World → List Completion → Server World → Type 0 where
    here : {s : Server World} → Trace s [] s
    completes :
        {s t u : Server World} (c : Completion) {cs : List Completion}
        → IsPending c s
        → complete env c s ≡ ok t
        → Trace t cs u
        → Trace s (c ∷ cs) u
    calls :
        {s t u : Server World} (e : Event World) {cs : List Completion}
        → IsCallback env e
        → on_event env e s ≡ ok t
        → Trace t cs u
        → Trace s cs u

  handled_cons :
      (c : Completion) (cs : List Completion)
      → (handled (c ∷ cs) ≡ handled (c ∷ []) + handled cs)
        × (clients (c ∷ cs) ≡ clients (c ∷ []) + clients cs)
  handled_cons accepted cs = (omega arith, omega arith)
  handled_cons accept_failed cs = (omega arith, omega arith)
  handled_cons (request_read i peer req) cs = (omega arith, omega arith)
  handled_cons (read_failed i) cs = (omega arith, omega arith)
  handled_cons (response_written i error) cs = (omega arith, omega arith)
  handled_cons (deadline i aborted) cs = (omega arith, omega arith)

  -- Whatever the game server and the clients do, in whatever order, as long as the service reports
  -- only operations that are outstanding and no connection is gone when a request of it is
  -- processed: each accepted session has at most three completions, of its read, its write and its
  -- deadline. So without new clients the sessions come to an end after as many completions as
  -- were outstanding.
  pub Trace-work_left :
      {s t : Server World} {cs : List Completion}
      → Inv env s
      → Trace s cs t
      → handled cs + work_left t.manager.heap ≤ work_left s.manager.heap + 3 * clients cs
  Trace-work_left v here = omega arith
  Trace-work_left {s} v (completes {t} c {cs} p e r) =
      let v' = subst (Returns (Inv env)) e (complete-Inv env c s (pending-HasPeer c s p) v) in
      let less = subst (Returns (Lessens c s)) e (complete-Lessens c s v p) in
      let (h, k) = handled_cons c cs in omega (arith, h, k, less, Trace-work_left v' r)
  Trace-work_left {s} v (calls {t} e k q r) =
      let v' =
        subst (Returns (Inv env)) q (on_event-Inv env e s (callback-EventHasPeer env e k) v) in
      let same =
        subst (Returns (λ u. u.manager.heap ≡ s.manager.heap)) q (callback-heap env e s k) in
      let left : work_left t.manager.heap ≡ work_left s.manager.heap = ap work_left same in
      omega (arith, left, Trace-work_left v' r)
