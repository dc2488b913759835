-- ===== src/Server/Changes.antt =====
-- What a completion of an outstanding operation changes on the heap of the sessions.
use mathlib.Core.Option.{some-injective}
use samp_plugin_api.Prelude.{
  ℕ, ◌<◌, ◌≡◌, refl, sym, ap, ◌∙◌, inl, inr, Option, none, some, List, [], ◌∷◌, Text, ◌==◌, ==_iff,
  arith, Bool-cases,
}
use samp_plugin_api.Env.{Env, Request}
use samp_plugin_api.Route.{Returns, Returns-bind, Returns-both}
use samp_plugin_api.Handler.{Handler}
use samp_plugin_api.Handler.Dispatch.{IsRegistered}
use samp_plugin_api.Session
use samp_plugin_api.Session.{
  Session, Heap, reading, writing, written, new_response, new_session, process_request,
}
use samp_plugin_api.Session.Managed.{find-update}
use samp_plugin_api.Session.Requests.{IsSent, process_request-IsSent}
use samp_plugin_api.Session.Answered.{IsAnswered, process_request-IsAnswered}
use samp_plugin_api.Server.{
  Server, Completion, accepted, accept_failed, request_read, read_failed, response_written,
  deadline, on_accepted, on_read, complete,
}
use samp_plugin_api.Server.Invariant.{Inv, AllManaged}
use samp_plugin_api.Server.Phases.{
  IsConsistent, answers, fails, writes, expires, Change, Change-refl, Change-update,
}

abbrev InPhase : Session.Phase → ℕ → Heap → Type 0
InPhase p i heap = (x : Session) → Session.find i heap ≡ some x → x.phase ≡ p

find-lt :
    (next i : ℕ) (is : List ℕ) (heap : Heap) (x : Session)
    → AllManaged next is heap
    → Session.find i heap ≡ some x
    → i < next
unfolding Session.find
find-lt next i is [] x h e = cc
find-lt next i is ((j, s) ∷ heap) x (_, l, h) e = ground (arith, find-lt next i is heap x h)

module _ {World Float : Type 0} (env : Env World Float) where
  -- The service reports the end of a read, with a connection that is not gone, or of a write, only
  -- for a session in that phase.
  abbrev pub IsOutstanding : Completion → Server World → Type 0
  IsOutstanding (request_read i (some _) req) s = InPhase reading i s.manager.heap
  IsOutstanding (request_read i none req) s = ⊥
  IsOutstanding (read_failed i) s = InPhase reading i s.manager.heap
  IsOutstanding (response_written i error) s = InPhase writing i s.manager.heap
  IsOutstanding _ s = Unit

  -- Every session is consistent.
  abbrev pub AllConsistent : Server World → Type 0
  AllConsistent s =
      (i : ℕ) (x : Session) → Session.find i s.manager.heap ≡ some x → IsConsistent env x

  abbrev pub Changes : Server World → Server World → Type 0
  Changes s t = (i : ℕ) → Change env (Session.find i s.manager.heap) (Session.find i t.manager.heap)

  on_accepted-Changes : (s : Server World) → Inv env s → Changes s (on_accepted env s)
  unfolding on_accepted Session.manager_start Session.find
  on_accepted-Changes s v i =
      rw
        (find-update s.next i Session.start
          ((s.next, new_session (env.now s.world)) ∷ s.manager.heap))
        (elim (Bool-cases (s.next == i)) [
          | inl e ↦ rw e (
              fresh_id (Session.find i s.manager.heap) (env.now s.world) (λ x q. absurd (
                omega (
                  arith,
                  (==_iff s.next i).0 e,
                  find-lt s.next i s.manager.sessions s.manager.heap x v.managed q,
                ))))
          | inr e ↦ rw e (Change-refl env (Session.find i s.manager.heap))
        ])
    where
      fresh_id :
          (o : Option Session) (now : ℕ)
          → ((x : Session) → o ≡ some x → ⊥)
          → Change env o (some (Session.start (new_session now)))
      fresh_id none now h = (now, refl)
      fresh_id (some x) now h = absurd (h x refl)

  abbrev Read : Request → Session → Handler × World × Session → Type 0
  Read req x out = (IsRegistered out.0 × IsSent env req x out.2) × IsAnswered env out.2.response

  on_read-Changes :
      (i : ℕ) (ip : Text) (req : Request) (o : Option Session) (s : Server World)
      → Inv env s
      → AllConsistent s
      → InPhase reading i s.manager.heap
      → Session.find i s.manager.heap ≡ o
      → Returns (Changes s) (on_read env i (some ip) req o s)
  unfolding on_read
  on_read-Changes i ip req none s v c p q = λ j. Change-refl env (Session.find j s.manager.heap)
  on_read-Changes i ip req (some x) s v c p q =
      Returns-bind (Read req x) (Changes s)
        (process_request env s.handler s.config s.players s.world req (some ip) x) _
        (Returns-both (λ out. IsRegistered out.0 × IsSent env req x out.2)
          (λ out. IsAnswered env out.2.response) _
          (process_request-IsSent env s.handler s.config s.players s.world req ip x v.registered)
          (process_request-IsAnswered env s.handler s.config s.players s.world req ip x v.registered
            ((c i x q).fresh (p x q))))
        (λ out ((_, sent), answered) j.
          Change-update env i j (λ _. out.2) s.manager.heap
            (λ y e.
              answers (p y e) sent.phase answered
                (sent.timer ∙ ap (λ z. z.timer) (some-injective _ _ (sym q ∙ e)))
                (sent.socket ∙ ap (λ z. z.socket_open) (some-injective _ _ (sym q ∙ e)))))

  pub complete-Changes :
      (k : Completion) (s : Server World)
      → Inv env s
      → AllConsistent s
      → IsOutstanding k s
      → Returns (Changes s) (complete env k s)
  unfolding complete
  complete-Changes accepted s v c p = on_accepted-Changes s v
  complete-Changes accept_failed s v c p = λ j. Change-refl env (Session.find j s.manager.heap)
  complete-Changes (request_read i none req) s v c p = absurd p
  complete-Changes (request_read i (some ip) req) s v c p =
      on_read-Changes i ip req (Session.find i s.manager.heap) s v c p refl
  complete-Changes (read_failed i) s v c p =
      λ j. Change-update env i j Session.on_read_failed s.manager.heap (λ x e. fails (p x e))
  complete-Changes (response_written i error) s v c p = λ j.
      Change-update env i j (Session.on_written error) s.manager.heap (λ x e. writes error (p x e))
  complete-Changes (deadline i aborted) s v c p = λ j.
      Change-update env i j (Session.on_deadline aborted) s.manager.heap (λ x e. expires aborted)
