-- ===== src/Server/Phases.antt =====
-- How a session changes, where the service reports only operations that are outstanding.
use mathlib.Core.Option.{some-injective}
use samp_plugin_api.Prelude.{
  ℕ, ◌≡◌, ◌⊎◌, refl, sym, subst, ap, ◌∙◌, inl, inr, Bool, true, false, Option, none, some, ◌==◌,
  ==_iff, arith, Bool-cases,
}
use samp_plugin_api.Env.{Env}
use samp_plugin_api.Session
use samp_plugin_api.Session.{
  Session, Heap, Phase, reading, failed, writing, unsent, written, Timer, armed, cancelled, fired,
  new_response, new_session, process_request,
}
use samp_plugin_api.Session.Managed.{find-update, changed}
use samp_plugin_api.Session.Answered.{IsAnswered}

-- The write of the response has ended.
abbrev pub IsOver : Session → Type 0
IsOver x = (x.phase ≡ written) ⊎ (x.phase ≡ unsent)

-- A response is being written, or was.
abbrev pub IsSending : Session → Type 0
IsSending x = (x.phase ≡ writing) ⊎ IsOver x

on_written-IsOver : (error : Bool) (x : Session) → IsOver (Session.on_written error x)
unfolding Session.on_written
on_written-IsOver true x = inr refl
on_written-IsOver false x = inl refl

reading-IsOver : {p : Phase} → p ≡ reading → (p ≡ written) ⊎ (p ≡ unsent) → ⊥
reading-IsOver e h = ground arith

module _ {World Float : Type 0} (env : Env World Float) where
  -- What holds of a session between two completions.
  pub record IsConsistent (x : Session) : Type 0 where
    pub fresh : x.phase ≡ reading → x.response ≡ new_response
    pub answered : IsSending x → IsAnswered env x.response
    pub cancelled : x.timer ≡ cancelled → IsOver x
    pub closed : x.socket_open ≡ false → x.timer ≡ fired

  -- One completion, as a session sees it: it reads its request and starts to write an answer, or
  -- fails to read it; it ends its write; the wait of its deadline ends.
  pub data Advance (x : Session) : Session → Type 0 where
    stays : Advance x x
    answers :
        {y : Session}
        → x.phase ≡ reading
        → y.phase ≡ writing
        → IsAnswered env y.response
        → y.timer ≡ x.timer
        → y.socket_open ≡ x.socket_open
        → Advance x y
    fails : x.phase ≡ reading → Advance x (Session.on_read_failed x)
    writes : (error : Bool) → x.phase ≡ writing → Advance x (Session.on_written error x)
    expires : (aborted : Bool) → Advance x (Session.on_deadline aborted x)

  pub Advance-IsConsistent : {x y : Session} → Advance x y → IsConsistent x → IsConsistent y
  unfolding Session.on_read_failed Session.on_written Session.on_deadline
  Advance-IsConsistent stays c = c
  Advance-IsConsistent (answers p q a t o) c = record {
    fresh = λ e. cc;
    answered = λ _. a;
    cancelled = λ e. absurd (reading-IsOver p (c.cancelled (sym t ∙ e)));
    closed = λ e. t ∙ c.closed (sym o ∙ e);
  }
  Advance-IsConsistent (fails p) c = record {
    fresh = λ e. cc;
    answered = λ e. ground arith;
    cancelled = λ e. absurd (reading-IsOver p (c.cancelled e));
    closed = c.closed;
  }
  Advance-IsConsistent {x} (writes error p) c = record {
    fresh = λ e. absurd (reading-IsOver e (on_written-IsOver error x));
    answered = λ _. c.answered (inl p);
    cancelled = λ _. on_written-IsOver error x;
    closed = λ e. ap Session.cancel (c.closed e);
  }
  Advance-IsConsistent (expires true) c = record {
    fresh = c.fresh;
    answered = c.answered;
    cancelled = λ e. cc;
    closed = λ _. refl;
  }
  Advance-IsConsistent (expires false) c = record {
    fresh = c.fresh;
    answered = c.answered;
    cancelled = λ e. cc;
    closed = λ _. refl;
  }

  pub started-IsConsistent : (now : ℕ) → IsConsistent (Session.start (new_session now))
  unfolding Session.start
  started-IsConsistent now = record {
    fresh = λ _. refl;
    answered = λ e. ground arith;
    cancelled = λ e. cc;
    closed = λ e. cc;
  }

  -- A response that is being written, or was, is the same from then on.
  pub Advance-response :
      {x y : Session} → Advance x y → IsSending x → IsSending y × (y.response ≡ x.response)
  unfolding Session.on_read_failed Session.on_written Session.on_deadline
  Advance-response stays h = (h, refl)
  Advance-response (answers p q a t o) (inl h) = cc
  Advance-response (answers p q a t o) (inr h) = absurd (reading-IsOver p h)
  Advance-response (fails p) (inl h) = cc
  Advance-response (fails p) (inr h) = absurd (reading-IsOver p h)
  Advance-response {x} (writes error p) h = (inr (on_written-IsOver error x), refl)
  Advance-response (expires true) h = (h, refl)
  Advance-response (expires false) h = (h, refl)

  -- What a completion makes of the session that an id stands for.
  abbrev pub Change : Option Session → Option Session → Type 0
  Change none none = Unit
  Change none (some y) = (now : ℕ) × (y ≡ Session.start (new_session now))
  Change (some x) none = ⊥
  Change (some x) (some y) = Advance x y

  pub Change-refl : (o : Option Session) → Change o o
  Change-refl none = tt
  Change-refl (some x) = stays

  Change-changed :
      (f : Session → Session) (o : Option Session)
      → ((x : Session) → o ≡ some x → Advance x (f x))
      → Change o (changed f o)
  Change-changed f none h = tt
  Change-changed f (some x) h = h x refl

  pub Change-update :
      (i j : ℕ) (f : Session → Session) (heap : Heap)
      → ((x : Session) → Session.find i heap ≡ some x → Advance x (f x))
      → Change (Session.find j heap) (Session.find j (Session.update i f heap))
  Change-update i j f heap h = rw (find-update i j f heap) (elim (Bool-cases (i == j)) [
    | inl e ↦ rw e (
        Change-changed f (Session.find j heap)
          (λ x q. h x (ap (λ k. Session.find k heap) ((==_iff i j).0 e) ∙ q)))
    | inr e ↦ rw e (Change-refl (Session.find j heap))
  ])

  -- What holds of new sessions, and is kept by each completion, holds of all.
  pub Change-All :
      (P : Session → Type 0)
      → ((now : ℕ) → P (Session.start (new_session now)))
      → ((x y : Session) → Advance x y → P x → P y)
      → (o o' : Option Session) → Change o o'
      → ((x : Session) → o ≡ some x → P x)
      → (y : Session) → o' ≡ some y
      → P y
  Change-All P fresh keep none none k h y e = cc
  Change-All P fresh keep none (some z) (now, same) h y e =
      subst P (sym same ∙ some-injective _ _ e) (fresh now)
  Change-All P fresh keep (some x) none k h y e = absurd k
  Change-All P fresh keep (some x) (some z) k h y e =
      subst P (some-injective _ _ e) (keep x z k (h x refl))
