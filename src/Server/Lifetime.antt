-- ===== src/Server/Lifetime.antt =====
-- How long a session stays in the set of the manager, with its socket open.
use mathlib.Core.Option.{some-injective}
use samp_plugin_api.Prelude.{
  All-both, ℕ, ◌<◌, ◌≡◌, ◌≢◌, refl, ap, ◌∙◌, Bool, true, false, Option, none, some, List, [], ◌∷◌,
  Text, ◌==◌, ==_iff, arith, inl, inr, Bool-cases, All,
}
use samp_plugin_api.Env.{Env, Request}
use samp_plugin_api.Route.{Returns, Returns-bind, Returns-both}
use samp_plugin_api.Handler.Dispatch.{IsRegistered}
use samp_plugin_api.Session
use samp_plugin_api.Session.{Session, Heap, Manager, new_session}
use samp_plugin_api.Session.Managed.{has, has-insert, find-update, changed}
use samp_plugin_api.Session.Requests.{process_request-IsSent, IsSent}
use samp_plugin_api.Server.Polling.{tick_keeps}
use samp_plugin_api.Server.{
  Server, Completion, Event, accepted, accept_failed, request_read, read_failed, response_written,
  deadline, game_mode_init, game_mode_exit, player_connect, player_disconnect, process_tick, passes,
  on_accepted, on_read, complete, on_event, run,
}
use samp_plugin_api.Server.Invariant.{
  HasPeer, EventHasPeer, Inv, AllManaged, complete-Inv, on_event-Inv,
}

abbrev socket_of : Option Session → Option Bool
socket_of none = none
socket_of (some s) = some s.socket_open

find-lt-next :
    (next i : ℕ) (is : List ℕ) (heap : Heap)
    → AllManaged next is heap
    → socket_of (Session.find i heap) ≡ some true
    → i < next
unfolding Session.find
find-lt-next next i is [] h e = cc
find-lt-next next i is ((j, s) ∷ heap) (_, l, h) e = ground (arith, find-lt-next next i is heap h)

socket-changed :
    (f : Session → Session) (o : Option Session)
    → ((s : Session) → s.socket_open ≡ true → (f s).socket_open ≡ true)
    → socket_of o ≡ some true
    → socket_of (changed f o) ≡ some true
socket-changed f none keep e = cc
socket-changed f (some s) keep e = ap some (keep s (some-injective _ _ e))

socket-update :
    (i j : ℕ) (f : Session → Session) (heap : Heap)
    → ((s : Session) → i ≡ j → s.socket_open ≡ true → (f s).socket_open ≡ true)
    → socket_of (Session.find j heap) ≡ some true
    → socket_of (Session.find j (Session.update i f heap)) ≡ some true
socket-update i j f heap keep e = rw (find-update i j f heap) (elim (Bool-cases (i == j)) [
  | inl same ↦
      rw same (socket-changed f (Session.find j heap) (λ s. keep s ((==_iff i j).0 same)) e)
  | inr other ↦ rw other e
])

module _ {World Float : Type 0} (env : Env World Float) where
  -- The session is in the set, and its socket is open.
  abbrev pub IsHeld : ℕ → Server World → Type 0
  IsHeld i s =
      (has i s.manager.sessions ≡ true) × (socket_of (Session.find i s.manager.heap) ≡ some true)

  -- The deadline of this session does not pass.
  abbrev InTime : ℕ → Completion → Type 0
  InTime i (deadline j false) = j ≢ i
  InTime i _ = Unit

  abbrev EventInTime : ℕ → Event World → Type 0
  EventInTime i (process_tick cs) = All (InTime i) cs
  EventInTime i _ = Unit

  on_accepted-IsHeld :
      (i : ℕ) (s : Server World) → Inv env s → IsHeld i s → IsHeld i (on_accepted env s)
  unfolding on_accepted Session.manager_start Session.find Session.start
  on_accepted-IsHeld i s v (h, e) = (
    ground (arith, has-insert s.next i s.manager.sessions),
    socket-update s.next i Session.start ((s.next, new_session (env.now s.world)) ∷ s.manager.heap)
        (λ x _ o. o)
        (ground (arith, find-lt-next s.next i s.manager.sessions s.manager.heap v.managed e)),
  )

  on_read-IsHeld :
      (i j : ℕ) (ip : Text) (req : Request) (o : Option Session) (s : Server World)
      → Inv env s
      → o ≡ Session.find j s.manager.heap
      → IsHeld i s
      → Returns (IsHeld i) (on_read env j (some ip) req o s)
  unfolding on_read
  on_read-IsHeld i j ip req none s v q h = h
  on_read-IsHeld i j ip req (some session) s v q (h, e) =
      Returns-bind (λ out. IsRegistered out.0 × IsSent env req session out.2) (IsHeld i) _ _
        (process_request-IsSent env s.handler s.config s.players s.world req ip session
          v.registered)
        (λ out (g, sent). (
          h,
          socket-update j i (λ _. out.2) s.manager.heap
              (λ _ same _.
                sent.socket
                ∙ some-injective _ _
                    (ap socket_of q ∙ ap (λ k. socket_of (Session.find k s.manager.heap)) same ∙ e))
              e,
        ))

  complete-IsHeld :
      (i : ℕ) (c : Completion) (s : Server World)
      → HasPeer c
      → InTime i c
      → Inv env s
      → IsHeld i s
      → Returns (IsHeld i) (complete env c s)
  unfolding complete Session.on_written Session.on_deadline Session.on_read_failed
  complete-IsHeld i accepted s k t v h = on_accepted-IsHeld i s v h
  complete-IsHeld i accept_failed s k t v h = h
  complete-IsHeld i (request_read j none req) s k t v h = absurd k
  complete-IsHeld i (request_read j (some ip) req) s k t v h =
      on_read-IsHeld i j ip req _ s v refl h
  complete-IsHeld i (read_failed j) s k t v (h, e) =
      (h, socket-update j i Session.on_read_failed s.manager.heap (λ x _ o. o) e)
  complete-IsHeld i (response_written j error) s k t v (h, e) =
      (h, socket-update j i (Session.on_written error) s.manager.heap (λ x _ o. o) e)
  complete-IsHeld i (deadline j true) s k t v (h, e) =
      (h, socket-update j i (Session.on_deadline true) s.manager.heap (λ x _ o. o) e)
  complete-IsHeld i (deadline j false) s k t v (h, e) = (
    h,
    socket-update j i (Session.on_deadline false) s.manager.heap (λ x same _. absurd (t same)) e,
  )

  abbrev Both : ℕ → Server World → Type 0
  Both i s = Inv env s × IsHeld i s

  complete-Both :
      (i : ℕ) (c : Completion) (s : Server World)
      → HasPeer c × InTime i c
      → Both i s
      → Returns (Both i) (complete env c s)
  complete-Both i c s (k, t) (v, h) =
      Returns-both (Inv env) (IsHeld i) (complete env c s) (complete-Inv env c s k v)
        (complete-IsHeld i c s k t v h)

  on_event-IsHeld :
      (i : ℕ) (e : Event World) (s : Server World)
      → EventHasPeer e
      → EventInTime i e
      → Both i s
      → Returns (Both i) (on_event env e s)
  unfolding on_event
  on_event-IsHeld i game_mode_init s k t (v, h) = (on_event-Inv env game_mode_init s k v, h)
  on_event-IsHeld i game_mode_exit s k t (v, h) = (on_event-Inv env game_mode_exit s k v, h)
  on_event-IsHeld i (player_connect id) s k t (v, h) =
      (on_event-Inv env (player_connect id) s k v, h)
  on_event-IsHeld i (player_disconnect id) s k t (v, h) =
      (on_event-Inv env (player_disconnect id) s k v, h)
  on_event-IsHeld i (process_tick cs) s k t b =
      tick_keeps env (Both i) (λ c. HasPeer c × InTime i c) (complete-Both i) s.ready cs s
        (All-both HasPeer (InTime i) cs k t) b
  on_event-IsHeld i (passes w) s k t (v, h) = (on_event-Inv env (passes w) s k v, h)

  -- From a state with the invariant: until its own deadline passes, and as long as no connection is
  -- gone when a request of it is processed, a session that is in the set of the manager with its
  -- socket open stays so, whatever happens; the end of the write of its response changes neither.
  pub run-IsHeld :
      (i : ℕ) (es : List (Event World)) (s : Server World)
      → Inv env s
      → All EventHasPeer es
      → All (EventInTime i) es
      → IsHeld i s
      → Returns (λ t. Inv env t × IsHeld i t) (run env es s)
  unfolding run
  run-IsHeld i [] s v k t h = (v, h)
  run-IsHeld i (e ∷ es) s v (k, ks) (t, ts) h =
      Returns-bind (Both i) (Both i) (on_event env e s) (run env es)
        (on_event-IsHeld i e s k t (v, h)) (λ s' (v', h'). run-IsHeld i es s' v' ks ts h')
