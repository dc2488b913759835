-- ===== src/Server/Finish.antt =====
-- How sessions end, where the service has nothing of theirs left to report.
use samp_plugin_api.Prelude.{
  ℕ, ◌+◌, ◌*◌, ◌≤◌, ◌≡◌, ◌≢◌, ◌⊎◌, refl, sym, ap, ◌∙◌, inl, inr, true, false, none, some, List,
  subst, All, arith,
}
use mathlib.Core.Option.{some-injective}
use samp_plugin_api.Env.{Env}
use samp_plugin_api.Session
use samp_plugin_api.Session.{
  Session, Phase, idle, reading, failed, writing, unsent, written, Timer, unset, armed, cancelled,
  fired, new_session,
}
use samp_plugin_api.Session.Answered.{IsAnswered}
use samp_plugin_api.Server.{
  Server, Completion, accepted, accept_failed, request_read, read_failed, response_written,
  deadline,
}
use samp_plugin_api.Server.Phases.{
  IsConsistent, Advance, stays, answers, fails, writes, expires, Change-All,
}
use samp_plugin_api.Server.Changes.{IsOutstanding}
use samp_plugin_api.Server.Reachable.{
  Step, completes, calls, here, next, Sound, Reach-Sound, Step-Changes,
}
use samp_plugin_api.Server.Whole.{IsWhole, Spares, HasWhole, Trace-HasWhole}
use samp_plugin_api.Server.Quiet
use samp_plugin_api.Server.Quiet.{IsPending, Trace, work_left, handled, clients, Trace-work_left}

-- The operations of a session were started.
abbrev pub WasStarted : Session → Type 0
WasStarted x = (x.phase ≢ idle) × (x.timer ≢ unset)

started-WasStarted : (now : ℕ) → WasStarted (Session.start (new_session now))
unfolding Session.start
started-WasStarted now = (λ e. cc, λ e. cc)

cancel-unset : (t : Timer) → Session.cancel t ≡ unset → t ≡ unset
cancel-unset unset e = refl
cancel-unset armed e = cc
cancel-unset cancelled e = cc
cancel-unset fired e = cc

module _ {World Float : Type 0} (env : Env World Float) where
  Advance-WasStarted : {x y : Session} → Advance env x y → WasStarted x → WasStarted y
  unfolding Session.on_read_failed Session.on_written Session.on_deadline
  Advance-WasStarted stays h = h
  Advance-WasStarted (answers p q a t o) (h, k) = (λ e. cc, λ e. k (sym t ∙ e))
  Advance-WasStarted (fails p) (h, k) = (λ e. cc, k)
  Advance-WasStarted {x} (writes true p) (h, k) = (λ e. cc, λ e. k (cancel-unset x.timer e))
  Advance-WasStarted {x} (writes false p) (h, k) = (λ e. cc, λ e. k (cancel-unset x.timer e))
  Advance-WasStarted (expires true) (h, k) = (h, λ e. cc)
  Advance-WasStarted (expires false) (h, k) = (h, λ e. cc)

  abbrev pub AllStarted : Server World → Type 0
  AllStarted s = (i : ℕ) (x : Session) → Session.find i s.manager.heap ≡ some x → WasStarted x

  Step-AllStarted : {s t : Server World} → Step env s t → Sound env s → AllStarted s → AllStarted t
  Step-AllStarted {s} {t} step sound h i =
      Change-All env WasStarted started-WasStarted (λ x y k c. Advance-WasStarted k c)
        (Session.find i s.manager.heap) (Session.find i t.manager.heap)
        (Step-Changes env step sound i) (h i)

  phase_of :
      (i : ℕ) (p : Phase) (s : Server World) (x : Session)
      → Session.find i s.manager.heap ≡ some x
      → x.phase ≡ p
      → (y : Session) → Session.find i s.manager.heap ≡ some y
      → y.phase ≡ p
  phase_of i p s x e q y f = ap (λ z. z.phase) (some-injective _ _ (sym f ∙ e)) ∙ q

  IsPending-IsOutstanding :
      (c : Completion) (s : Server World) → IsPending env c s → IsOutstanding env c s
  IsPending-IsOutstanding accepted s p = tt
  IsPending-IsOutstanding accept_failed s p = tt
  IsPending-IsOutstanding (request_read i none req) s p = p
  IsPending-IsOutstanding (request_read i (some ip) req) s (x, e, q) = phase_of i reading s x e q
  IsPending-IsOutstanding (read_failed i) s (x, e, q) = phase_of i reading s x e q
  IsPending-IsOutstanding (response_written i error) s (x, e, q) = phase_of i writing s x e q
  IsPending-IsOutstanding (deadline i aborted) s p = tt

  -- Along a history, sessions are sound and started.
  Trace-Sound :
      {s t : Server World} {cs : List Completion}
      → Trace env s cs t
      → Sound env s
      → AllStarted s
      → Sound env t × AllStarted t
  Trace-Sound Quiet.here h k = (h, k)
  Trace-Sound {s} (Quiet.completes c p e r) h k =
      let step = completes c (IsPending-IsOutstanding c s p) e in
      Trace-Sound r (Reach-Sound env h (next here step)) (Step-AllStarted step h k)
  Trace-Sound (Quiet.calls e b q r) h k =
      let step = calls e b q in
      Trace-Sound r (Reach-Sound env h (next here step)) (Step-AllStarted step h k)

  -- No operation of a session is outstanding.
  pub record IsQuiet (s : Server World) : Type 0 where
    pub no_read : (i : ℕ) → ¬ IsPending env (read_failed i) s
    pub no_write : (i : ℕ) → ¬ IsPending env (response_written i false) s
    pub no_deadline : (i : ℕ) → ¬ IsPending env (deadline i false) s

  -- How the exchange of a session ends: its read has failed, or its answer was written, or the
  -- write has ended with an error.
  abbrev HasEnded : Session → Type 0
  HasEnded x =
      (x.phase ≡ failed) ⊎ (((x.phase ≡ written) × IsAnswered env x.response) ⊎ (x.phase ≡ unsent))

  -- The exchange is over, and so is the deadline.
  pub record IsFinished (x : Session) : Type 0 where
    pub ended : HasEnded x
    pub deadline_over : x.timer ≡ fired

  quiet-ended :
      (i : ℕ) (x : Session) (s : Server World) (p : Phase)
      → IsQuiet s
      → Session.find i s.manager.heap ≡ some x
      → WasStarted x
      → IsConsistent env x
      → x.phase ≡ p
      → HasEnded x
  quiet-ended i x s idle q e (h, k) c f = absurd (h f)
  quiet-ended i x s reading q e h c f = absurd (q.no_read i (x, e, f))
  quiet-ended i x s failed q e h c f = inl f
  quiet-ended i x s writing q e h c f = absurd (q.no_write i (x, e, f))
  quiet-ended i x s unsent q e h c f = inr (inr f)
  quiet-ended i x s written q e h c f = inr (inl (f, c.answered (inr (inl f))))

  quiet-over :
      (i : ℕ) (x : Session) (s : Server World) (t : Timer)
      → IsQuiet s
      → Session.find i s.manager.heap ≡ some x
      → WasStarted x
      → x.timer ≡ t
      → x.timer ≡ fired
  quiet-over i x s unset q e (h, k) f = absurd (k f)
  quiet-over i x s armed q e h f = absurd (q.no_deadline i (x, e, inl f))
  quiet-over i x s cancelled q e h f = absurd (q.no_deadline i (x, e, inr f))
  quiet-over i x s fired q e h f = f

  -- Every session ends. From a sound state, whatever the game server and the clients do, in
  -- whatever order, as long as the service reports only operations that are outstanding and no
  -- connection is gone when a request of it is processed: once no operation of a session is
  -- outstanding, which takes at most as many completions as were to come and three for each new
  -- client, each session has failed to read, has written an answer or has failed to write it, and
  -- its deadline is over.
  pub Trace-IsFinished :
      {s t : Server World} {cs : List Completion} (i : ℕ) (x : Session)
      → Sound env s
      → AllStarted s
      → Trace env s cs t
      → IsQuiet t
      → Session.find i t.manager.heap ≡ some x
      → IsFinished x × (handled cs ≤ work_left s.manager.heap + 3 * clients cs)
  Trace-IsFinished {s} {t} {cs} i x h k r q e =
      let (sound, started) = Trace-Sound r h k in
      let bound = Trace-work_left env h.0 r in
      (
        record {
          ended = quiet-ended i x t x.phase q e (started i x e) (sound.1 i x e) refl;
          deadline_over = quiet-over i x t x.timer q e (started i x e) refl;
        },
        omega (arith, bound),
      )

  whole-ended :
      (x : Session)
      → HasEnded x
      → IsWhole (some x)
      → (x.phase ≡ written) × IsAnswered env x.response
  whole-ended x (inl e) (h, k) = absurd (h e)
  whole-ended x (inr (inl sent)) w = sent
  whole-ended x (inr (inr e)) (h, k) = absurd (k e)

  -- Every client is served unless its connection fails. In a history as above, for a session whose
  -- read and write have not failed at its start, or which is accepted in it: where the service
  -- reports no error of its read and its write, then once no operation of a session is outstanding,
  -- its answer was written, as one complete JSON object or empty, and its deadline is over.
  pub Trace-IsServed :
      {s t : Server World} {cs : List Completion} (i : ℕ) (x : Session)
      → Sound env s
      → AllStarted s
      → Trace env s cs t
      → All (Spares i) cs
      → HasWhole env i s
      → IsQuiet t
      → Session.find i t.manager.heap ≡ some x
      → (x.phase ≡ written) × IsAnswered env x.response × (x.timer ≡ fired)
  Trace-IsServed i x h k r p w q e =
      let finished = (Trace-IsFinished i x h k r q e).0 in
      let whole = subst IsWhole e (Trace-HasWhole env i h.0 r p w) in
      let (phase, answered) = whole-ended x finished.ended whole in
      (phase, answered, finished.deadline_over)
