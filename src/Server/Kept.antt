-- ===== src/Server/Kept.antt =====
-- What an event keeps: the configuration, the credentials of the handler, and mostly `ready`.
use samp_plugin_api.Prelude.{
  ℕ, ◌≡◌, refl, ap, ◌∙◌, Bool, true, false, Option, none, some, List, Text, if◌then◌else◌, All,
}
use samp_plugin_api.Env.{Env, Request}
use samp_plugin_api.Route.{ok, Returns, Returns-bind, Returns-both, Returns-map}
use samp_plugin_api.Session.{Session}
use samp_plugin_api.Session.Credentials.{SameCredentials, process_request-SameCredentials}
use samp_plugin_api.Server.Polling.{tick_keeps}
use samp_plugin_api.Server.{
  Server, Completion, accepted, accept_failed, request_read, read_failed, response_written,
  deadline, Event, game_mode_init, game_mode_exit, player_connect, player_disconnect, process_tick,
  passes, on_accepted, on_read, complete, poll, on_event,
}
use samp_plugin_api.Server.Invariant.{Inv, HasPeer, EventHasPeer, complete-Inv, on_event-Inv}

-- What an event makes of `ready`.
abbrev pub ready_after : {World : Type 0} → Event World → Bool → Bool
ready_after game_mode_init b = true
ready_after game_mode_exit b = false
ready_after _ b = b

module _ {World : Type 0} where
  pub record IsKept (s t : Server World) : Type 0 where
    pub config : t.config ≡ s.config
    pub credentials : SameCredentials s.handler t.handler

  pub IsKept-trans : {s t u : Server World} → IsKept s t → IsKept t u → IsKept s u
  IsKept-trans h k = record {
    config = k.config ∙ h.config;
    credentials = record {
      password = k.credentials.password ∙ h.credentials.password;
      seed = k.credentials.seed ∙ h.credentials.seed;
    };
  }

  -- What holds of the servers before and after the handlers of completed operations.
  abbrev pub Stays : Server World → Server World → Type 0
  Stays s t = (t.ready ≡ s.ready) × (t.players ≡ s.players) × IsKept s t

  pub IsKept-of : {s t : Server World} → t.config ≡ s.config → t.handler ≡ s.handler → IsKept s t
  IsKept-of e f = record {
    config = e;
    credentials = record { password = ap (λ h. h.password) f; seed = ap (λ h. h.seed) f };
  }

module _ {World Float : Type 0} (env : Env World Float) where
  on_read-Stays :
      (i : ℕ) (ip : Text) (req : Request) (o : Option Session) (s : Server World)
      → Inv env s
      → Returns (Stays s) (on_read env i (some ip) req o s)
  unfolding on_read
  on_read-Stays i ip req none s v = (refl, refl, IsKept-of refl refl)
  on_read-Stays i ip req (some session) s v =
      Returns-bind (λ out. SameCredentials s.handler out.0) (Stays s) _ _
        (process_request-SameCredentials env s.handler s.config s.players s.world req ip session
          v.registered)
        (λ out c. (refl, refl, record { config = refl; credentials = c }))

  pub complete-Stays :
      (c : Completion) (s : Server World)
      → HasPeer c
      → Inv env s
      → Returns (Stays s) (complete env c s)
  unfolding complete on_accepted
  complete-Stays accepted s k v = (refl, refl, IsKept-of refl refl)
  complete-Stays accept_failed s k v = (refl, refl, IsKept-of refl refl)
  complete-Stays (request_read i none req) s k v = absurd k
  complete-Stays (request_read i (some ip) req) s k v = on_read-Stays i ip req _ s v
  complete-Stays (read_failed i) s k v = (refl, refl, IsKept-of refl refl)
  complete-Stays (response_written i error) s k v = (refl, refl, IsKept-of refl refl)
  complete-Stays (deadline i aborted) s k v = (refl, refl, IsKept-of refl refl)

  Stays-trans : {s t u : Server World} → Stays s t → Stays t u → Stays s u
  Stays-trans (e, q, f) (e', q', f') = (e' ∙ e, q' ∙ q, IsKept-trans f f')

  -- The invariant, and what stays since a server.
  abbrev pub Since : Server World → Server World → Type 0
  Since s t = Inv env t × Stays s t

  pub complete-Since :
      (s : Server World) (c : Completion) (t : Server World)
      → HasPeer c
      → Since s t
      → Returns (Since s) (complete env c t)
  complete-Since s c t k (v, h) =
      Returns-both (Inv env) (Stays s) (complete env c t) (complete-Inv env c t k v) (
        Returns-map (Stays t) (Stays s) (complete env c t) (λ u h'. Stays-trans h h')
          (complete-Stays c t k v))

  pub tick-Stays :
      (b : Bool) (cs : List Completion) (s : Server World)
      → All HasPeer cs
      → Inv env s
      → Returns (Stays s) (if b then poll env cs s else ok s)
  tick-Stays b cs s k v =
      Returns-map (Since s) (Stays s) _ (λ t (_, h). h)
        (tick_keeps env (Since s) HasPeer (complete-Since s) b cs s k
          (v, (refl, refl, IsKept-of refl refl)))

  on_event-IsKept :
      (e : Event World) (s : Server World)
      → EventHasPeer e
      → Inv env s
      → Returns (λ t. (t.ready ≡ ready_after e s.ready) × IsKept s t) (on_event env e s)
  unfolding on_event
  on_event-IsKept game_mode_init s k v = (refl, IsKept-of refl refl)
  on_event-IsKept game_mode_exit s k v = (refl, IsKept-of refl refl)
  on_event-IsKept (player_connect id) s k v = (refl, IsKept-of refl refl)
  on_event-IsKept (player_disconnect id) s k v = (refl, IsKept-of refl refl)
  on_event-IsKept (process_tick cs) s k v =
      Returns-map (Stays s) (λ t. (t.ready ≡ s.ready) × IsKept s t) _ (λ t (e, _, f). (e, f))
        (tick-Stays s.ready cs s k v)
  on_event-IsKept (passes w) s k v = (refl, IsKept-of refl refl)

  -- What a callback makes of a server.
  abbrev pub Next : Event World → Server World → Server World → Type 0
  Next e s t = Inv env t × ((t.ready ≡ ready_after e s.ready) × IsKept s t)

  pub on_event-Next :
      (e : Event World) (s : Server World)
      → EventHasPeer e
      → Inv env s
      → Returns (Next e s) (on_event env e s)
  on_event-Next e s k v =
      Returns-both (Inv env) (λ t. (t.ready ≡ ready_after e s.ready) × IsKept s t)
        (on_event env e s) (on_event-Inv env e s k v) (on_event-IsKept e s k v)
