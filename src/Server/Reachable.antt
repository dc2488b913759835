-- ===== src/Server/Reachable.antt =====
-- The server as a step relation: callbacks of the game server, and completions of operations that
-- are outstanding.
use samp_plugin_api.Prelude.{ℕ, ◌≡◌, refl, sym, subst, ◌∙◌, Option, none, some}
use samp_plugin_api.Env.{Env, Response}
use samp_plugin_api.Route.{ok, Returns}
use samp_plugin_api.Session
use samp_plugin_api.Session.{
  Session, Heap, reading, writing, written, new_response, new_session, process_request,
}
use samp_plugin_api.Server.{
  Server, Completion, accepted, accept_failed, request_read, read_failed, response_written,
  deadline, Event, game_mode_init, game_mode_exit, player_connect, player_disconnect, process_tick,
  passes, complete, on_event,
}
use samp_plugin_api.Server.Invariant.{Inv, HasPeer, EventHasPeer, complete-Inv, on_event-Inv}
use samp_plugin_api.Server.Changes.{IsOutstanding, AllConsistent, Changes, complete-Changes}
use samp_plugin_api.Server.Phases.{
  IsConsistent, Advance-IsConsistent, started-IsConsistent, IsSending, Advance-response, Change,
  Change-refl, Change-All,
}

module _ {World Float : Type 0} (env : Env World Float) where
  abbrev pub IsCallback : Event World → Type 0
  IsCallback (process_tick _) = ⊥
  IsCallback _ = Unit

  pub data Step (s : Server World) : Server World → Type 0 where
    completes :
        {t : Server World} (c : Completion)
        → IsOutstanding env c s
        → complete env c s ≡ ok t
        → Step s t
    calls : {t : Server World} (e : Event World) → IsCallback e → on_event env e s ≡ ok t → Step s t

  pub data Reach (s : Server World) : Server World → Type 0 where
    here : Reach s s
    next : {t u : Server World} → Reach s t → Step t u → Reach s u

  pub callback-heap :
      (e : Event World) (s : Server World)
      → IsCallback e
      → Returns (λ t. t.manager.heap ≡ s.manager.heap) (on_event env e s)
  unfolding on_event
  callback-heap game_mode_init s k = refl
  callback-heap game_mode_exit s k = refl
  callback-heap (player_connect id) s k = refl
  callback-heap (player_disconnect id) s k = refl
  callback-heap (process_tick cs) s k = absurd k
  callback-heap (passes w) s k = refl

  pub callback-EventHasPeer : (e : Event World) → IsCallback e → EventHasPeer e
  callback-EventHasPeer game_mode_init k = tt
  callback-EventHasPeer game_mode_exit k = tt
  callback-EventHasPeer (player_connect id) k = tt
  callback-EventHasPeer (player_disconnect id) k = tt
  callback-EventHasPeer (process_tick cs) k = absurd k
  callback-EventHasPeer (passes w) k = tt

  outstanding-HasPeer : (k : Completion) (s : Server World) → IsOutstanding env k s → HasPeer k
  outstanding-HasPeer accepted s p = tt
  outstanding-HasPeer accept_failed s p = tt
  outstanding-HasPeer (request_read i none req) s p = p
  outstanding-HasPeer (request_read i (some ip) req) s p = tt
  outstanding-HasPeer (read_failed i) s p = tt
  outstanding-HasPeer (response_written i error) s p = tt
  outstanding-HasPeer (deadline i aborted) s p = tt

  -- The state between two steps.
  abbrev pub Sound : Server World → Type 0
  Sound s = Inv env s × AllConsistent env s

  Step-Inv : {s t : Server World} → Step s t → Inv env s → Inv env t
  Step-Inv {s} (completes c p e) v =
      subst (Returns (Inv env)) e (complete-Inv env c s (outstanding-HasPeer c s p) v)
  Step-Inv {s} (calls c k e) v =
      subst (Returns (Inv env)) e (on_event-Inv env c s (callback-EventHasPeer c k) v)

  same_heap : (s t : Server World) → t.manager.heap ≡ s.manager.heap → Changes env s t
  same_heap s t e i =
      subst (λ heap. Change env (Session.find i s.manager.heap) (Session.find i heap)) (sym e)
        (Change-refl env (Session.find i s.manager.heap))

  pub Step-Changes : {s t : Server World} → Step s t → Sound s → Changes env s t
  Step-Changes {s} (completes c p e) (v, a) =
      subst (Returns (Changes env s)) e (complete-Changes env c s v a p)
  Step-Changes {s} {t} (calls c k e) (v, a) =
      same_heap s t (subst (Returns (λ u. u.manager.heap ≡ s.manager.heap)) e (callback-heap c s k))

  -- In every state that the server reaches, where the service reports only operations that are
  -- outstanding and no connection is gone when a request of it is processed: the invariant of the
  -- server holds, and of every session that a read of its request is outstanding only with a new
  -- response, that an answer is one complete JSON object with the status in it or empty, that the
  -- deadline is cancelled only once the write of the answer has ended, and that only the deadline has closed the
  -- socket.
  pub Reach-Sound : {s t : Server World} → Sound s → Reach s t → Sound t
  Reach-Sound h here = h
  Reach-Sound h (next {t} {u} r st) =
      let (v, a) = Reach-Sound h r in
      (
        Step-Inv st v,
        λ i.
            Change-All env (IsConsistent env) (started-IsConsistent env)
              (λ x y k c. Advance-IsConsistent env k c) (Session.find i t.manager.heap)
              (Session.find i u.manager.heap) (Step-Changes st (v, a) i) (a i),
      )

  -- The session of an id is being sent a response, or was.
  abbrev pub Sends : Response → Option Session → Type 0
  Sends r none = ⊥
  Sends r (some y) = IsSending y × (y.response ≡ r)

  Change-Sends : (r : Response) (o o' : Option Session) → Change env o o' → Sends r o → Sends r o'
  Change-Sends r none o' k h = absurd h
  Change-Sends r (some x) none k h = absurd k
  Change-Sends r (some x) (some y) k (p, e) = let (q, f) = Advance-response env k p in (q, f ∙ e)

  -- A response that is being written never changes again: in every state that the server reaches
  -- from there, as above, the session is there, still writing or with its write ended, with the same response; so a
  -- session answers one request.
  pub Reach-Sends :
      {s t : Server World} (i : ℕ) (r : Response)
      → Sound s
      → Reach s t
      → Sends r (Session.find i s.manager.heap)
      → Sends r (Session.find i t.manager.heap)
  Reach-Sends i r h here p = p
  Reach-Sends i r h (next {t} {u} reach st) p =
      Change-Sends r (Session.find i t.manager.heap) (Session.find i u.manager.heap)
        (Step-Changes st (Reach-Sound h reach) i) (Reach-Sends i r h reach p)
