-- ===== src/Server/Whole.antt =====
-- A session for which the service reports no error of its read and its write.
use samp_plugin_api.Prelude.{
  ℕ, ◌≡◌, ◌≢◌, refl, subst, sym, Bool, true, false, Option, none, some, List, ◌∷◌, Text, ◌==◌,
  ==_iff, inl, inr, Bool-cases, All,
}
use samp_plugin_api.Env.{Env, Request}
use samp_plugin_api.Route.{Returns, Returns-bind}
use samp_plugin_api.Handler.Dispatch.{IsRegistered}
use samp_plugin_api.Session
use samp_plugin_api.Session.{Session, Heap, failed, unsent, new_session}
use samp_plugin_api.Session.Managed.{find-update, changed}
use samp_plugin_api.Session.Requests.{process_request-IsSent, IsSent}
use samp_plugin_api.Server.{
  Server, Completion, accepted, accept_failed, request_read, read_failed, response_written,
  deadline, on_accepted, on_read, complete,
}
use samp_plugin_api.Server.Invariant.{Inv, complete-Inv, on_event-Inv}
use samp_plugin_api.Server.Reachable.{callback-heap, callback-EventHasPeer}
use samp_plugin_api.Server.Quiet.{IsPending, pending-HasPeer, Trace, here, completes, calls}

-- Neither the read nor the write of the session has failed, where there is one.
abbrev pub IsWhole : Option Session → Type 0
IsWhole none = Unit
IsWhole (some x) = (x.phase ≢ failed) × (x.phase ≢ unsent)

-- The completion is not a failure of a session's read or write.
abbrev pub Spares : ℕ → Completion → Type 0
Spares i (read_failed j) = j ≢ i
Spares i (response_written j true) = j ≢ i
Spares i _ = Unit

changed-IsWhole :
    (f : Session → Session) (o : Option Session)
    → ((x : Session) → IsWhole (some x) → IsWhole (some (f x)))
    → IsWhole o
    → IsWhole (changed f o)
changed-IsWhole f none keep h = tt
changed-IsWhole f (some x) keep h = keep x h

update-IsWhole :
    (i j : ℕ) (f : Session → Session) (heap : Heap)
    → ((x : Session) → i ≡ j → IsWhole (some x) → IsWhole (some (f x)))
    → IsWhole (Session.find j heap)
    → IsWhole (Session.find j (Session.update i f heap))
update-IsWhole i j f heap keep h = rw (find-update i j f heap) (elim (Bool-cases (i == j)) [
  | inl same ↦
      rw same (changed-IsWhole f (Session.find j heap) (λ x. keep x ((==_iff i j).0 same)) h)
  | inr other ↦ rw other h
])

module _ {World Float : Type 0} (env : Env World Float) where
  abbrev pub HasWhole : ℕ → Server World → Type 0
  HasWhole i s = IsWhole (Session.find i s.manager.heap)

  on_accepted-HasWhole : (i : ℕ) (s : Server World) → HasWhole i s → HasWhole i (on_accepted env s)
  unfolding on_accepted Session.manager_start Session.start Session.find
  on_accepted-HasWhole i s h =
      update-IsWhole s.next i Session.start
        ((s.next, new_session (env.now s.world)) ∷ s.manager.heap) (λ x _ _. ((λ e. cc), (λ e. cc)))
        (fresh (s.next == i) refl)
    where
      fresh :
          (b : Bool)
          → (s.next == i) ≡ b
          → IsWhole (Session.find i ((s.next, new_session (env.now s.world)) ∷ s.manager.heap))
      fresh true e = rw e ((λ e. cc), (λ e. cc))
      fresh false e = rw e h

  on_read-HasWhole :
      (i j : ℕ) (ip : Text) (req : Request) (o : Option Session) (s : Server World)
      → Inv env s
      → HasWhole i s
      → Returns (HasWhole i) (on_read env j (some ip) req o s)
  unfolding on_read
  on_read-HasWhole i j ip req none s v h = h
  on_read-HasWhole i j ip req (some x) s v h =
      Returns-bind (λ out. IsRegistered out.0 × IsSent env req x out.2) (HasWhole i) _ _
        (process_request-IsSent env s.handler s.config s.players s.world req ip x v.registered)
        (λ out (g, sent).
          update-IsWhole j i (λ _. out.2) s.manager.heap
            (λ y _ _. ((λ e. cc (sent.phase, e)), (λ e. cc (sent.phase, e)))) h)

  complete-HasWhole :
      (i : ℕ) (c : Completion) (s : Server World)
      → IsPending env c s
      → Spares i c
      → Inv env s
      → HasWhole i s
      → Returns (HasWhole i) (complete env c s)
  unfolding complete Session.on_written Session.on_deadline Session.on_read_failed
  complete-HasWhole i accepted s p k v h = on_accepted-HasWhole i s h
  complete-HasWhole i accept_failed s p k v h = h
  complete-HasWhole i (request_read j none req) s p k v h = absurd p
  complete-HasWhole i (request_read j (some ip) req) s p k v h = on_read-HasWhole i j ip req _ s v h
  complete-HasWhole i (read_failed j) s p k v h =
      update-IsWhole j i Session.on_read_failed s.manager.heap (λ x same _. absurd (k same)) h
  complete-HasWhole i (response_written j true) s p k v h =
      update-IsWhole j i (Session.on_written true) s.manager.heap (λ x same _. absurd (k same)) h
  complete-HasWhole i (response_written j false) s p k v h =
      update-IsWhole j i (Session.on_written false) s.manager.heap (λ x _ _. ((λ e. cc), (λ e. cc)))
        h
  complete-HasWhole i (deadline j true) s p k v h =
      update-IsWhole j i (Session.on_deadline true) s.manager.heap (λ x _ w. w) h
  complete-HasWhole i (deadline j false) s p k v h =
      update-IsWhole j i (Session.on_deadline false) s.manager.heap (λ x _ w. w) h

  -- A session that has not failed does not, where no failure of it is reported.
  pub Trace-HasWhole :
      {s t : Server World} {cs : List Completion} (i : ℕ)
      → Inv env s
      → Trace env s cs t
      → All (Spares i) cs
      → HasWhole i s
      → HasWhole i t
  Trace-HasWhole i v here k h = h
  Trace-HasWhole {s} i v (completes c p e r) (k, ks) h =
      let v' = subst (Returns (Inv env)) e (complete-Inv env c s (pending-HasPeer env c s p) v) in
      Trace-HasWhole i v' r ks (subst (Returns (HasWhole i)) e (complete-HasWhole i c s p k v h))
  Trace-HasWhole {s} i v (calls {t} e k q r) ks h =
      let v' =
        subst (Returns (Inv env)) q (on_event-Inv env e s (callback-EventHasPeer env e k) v) in
      let same =
        subst (Returns (λ u. u.manager.heap ≡ s.manager.heap)) q (callback-heap env e s k) in
      Trace-HasWhole i v' r ks (subst (λ heap. IsWhole (Session.find i heap)) (sym same) h)
