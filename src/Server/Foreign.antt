-- ===== src/Server/Foreign.antt =====
-- What clients can do that do not know the password.
use samp_plugin_api.Prelude.{
  All-both, refl, subst, ℕ, Bool, Option, none, some, List, [], ◌∷◌, Text, All, All-imp,
  if◌then◌else◌,
}
use samp_plugin_api.Env.{Env, Request}
use samp_plugin_api.Route.{ok, Returns, Returns-bind, Returns-both, Returns-map}
use samp_plugin_api.Handler.Access.{IsAdmitted, whitelist, Signs-GivesBoth_iff}
use samp_plugin_api.Codecs.{decode_body}
use samp_plugin_api.Session.{Session}
use samp_plugin_api.Session.Foreign.{Logged, same, Logged-trans, IsRefused, process_request-Logged}
use samp_plugin_api.Server.Polling.{tick_keeps}
use samp_plugin_api.Server.{
  Server, Completion, accepted, accept_failed, request_read, read_failed, response_written,
  deadline, Event, game_mode_init, game_mode_exit, player_connect, player_disconnect, process_tick,
  passes, on_accepted, on_read, complete, poll, on_event, run,
}
use samp_plugin_api.Server.Invariant.{Inv, HasPeer, EventHasPeer}
use samp_plugin_api.Server.Kept.{IsKept-of, IsKept, Since, complete-Since, Next, on_event-Next}

module _ {World Float : Type 0} (env : Env World Float) where
  -- The server that a completion finds lets the request in it not in.
  abbrev IsForeign : Server World → Completion → Type 0
  IsForeign s (request_read _ (some ip) req) = IsRefused env s.handler s.config ip req
  IsForeign s _ = Unit

  abbrev EventIsForeign : Server World → Event World → Type 0
  EventIsForeign s (process_tick cs) = All (IsForeign s) cs
  EventIsForeign s (passes _) = ⊥
  EventIsForeign s _ = Unit

  IsRefused-kept :
      (s t : Server World) (ip : Text) (req : Request)
      → IsKept s t
      → IsRefused env s.handler s.config ip req
      → IsRefused env t.handler t.config ip req
  IsRefused-kept s t ip req k n (a, b) =
      let d = decode_body env.codec req.body in
      n (
        subst (λ c. IsAdmitted ip (whitelist c)) k.config a,
        (Signs-GivesBoth_iff env s.handler req.target d refl refl).1 (
            (Signs-GivesBoth_iff env t.handler req.target d k.credentials.password
                k.credentials.seed).0
              b),
      )

  IsForeign-kept :
      (s t : Server World) (c : Completion) → IsKept s t → IsForeign s c → IsForeign t c
  IsForeign-kept s t accepted k f = tt
  IsForeign-kept s t accept_failed k f = tt
  IsForeign-kept s t (request_read i none req) k f = tt
  IsForeign-kept s t (request_read i (some ip) req) k f = IsRefused-kept s t ip req k f
  IsForeign-kept s t (read_failed i) k f = tt
  IsForeign-kept s t (response_written i error) k f = tt
  IsForeign-kept s t (deadline i aborted) k f = tt

  abbrev LogsOnly : Server World → Server World → Type 0
  LogsOnly s t = Logged env s.world t.world

  on_read-LogsOnly :
      (i : ℕ) (ip : Text) (req : Request) (o : Option Session) (s : Server World)
      → Inv env s
      → IsRefused env s.handler s.config ip req
      → Returns (LogsOnly s) (on_read env i (some ip) req o s)
  unfolding on_read
  on_read-LogsOnly i ip req none s v n = same
  on_read-LogsOnly i ip req (some session) s v n =
      Returns-bind (λ out. Logged env s.world out.1) (LogsOnly s) _ _
        (process_request-Logged env s.handler s.config s.players s.world req ip session v.registered
          n)
        (λ out l. l)

  complete-LogsOnly :
      (c : Completion) (s : Server World)
      → HasPeer c
      → Inv env s
      → IsForeign s c
      → Returns (LogsOnly s) (complete env c s)
  unfolding complete on_accepted
  complete-LogsOnly accepted s k v f = same
  complete-LogsOnly accept_failed s k v f = same
  complete-LogsOnly (request_read i none req) s k v f = absurd k
  complete-LogsOnly (request_read i (some ip) req) s k v f = on_read-LogsOnly i ip req _ s v f
  complete-LogsOnly (read_failed i) s k v f = same
  complete-LogsOnly (response_written i error) s k v f = same
  complete-LogsOnly (deadline i aborted) s k v f = same

  -- The invariant, and what becomes of a server while it is asked only what it refuses.
  abbrev Unharmed : Server World → Server World → Type 0
  Unharmed s t = Since env s t × LogsOnly s t

  complete-Unharmed :
      (s : Server World) (c : Completion) (t : Server World)
      → HasPeer c × IsForeign s c
      → Unharmed s t
      → Returns (Unharmed s) (complete env c t)
  complete-Unharmed s c t (k, f) ((v, (e, q, kept)), l) =
      Returns-both (Since env s) (LogsOnly s) (complete env c t)
        (complete-Since env s c t k (v, (e, q, kept)))
        (Returns-map (LogsOnly t) (LogsOnly s) (complete env c t) (λ u l'. Logged-trans env l l')
          (complete-LogsOnly c t k v (IsForeign-kept s t c kept f)))

  tick-LogsOnly :
      (b : Bool) (cs : List Completion) (s : Server World)
      → All HasPeer cs
      → Inv env s
      → All (IsForeign s) cs
      → Returns (LogsOnly s) (if b then poll env cs s else ok s)
  tick-LogsOnly b cs s k v f =
      Returns-map (Unharmed s) (LogsOnly s) _ (λ t (_, l). l)
        (tick_keeps env (Unharmed s) (λ c. HasPeer c × IsForeign s c) (complete-Unharmed s) b cs s
          (All-both HasPeer (IsForeign s) cs k f) ((v, (refl, refl, IsKept-of refl refl)), same))

  on_event-LogsOnly :
      (e : Event World) (s : Server World)
      → EventHasPeer e
      → Inv env s
      → EventIsForeign s e
      → Returns (LogsOnly s) (on_event env e s)
  unfolding on_event
  on_event-LogsOnly game_mode_init s k v f = same
  on_event-LogsOnly game_mode_exit s k v f = same
  on_event-LogsOnly (player_connect id) s k v f = same
  on_event-LogsOnly (player_disconnect id) s k v f = same
  on_event-LogsOnly (process_tick cs) s k v f = tick-LogsOnly s.ready cs s k v f
  on_event-LogsOnly (passes w) s k v f = absurd f

  EventIsForeign-kept :
      (s t : Server World) (e : Event World) → IsKept s t → EventIsForeign s e → EventIsForeign t e
  EventIsForeign-kept s t game_mode_init k f = tt
  EventIsForeign-kept s t game_mode_exit k f = tt
  EventIsForeign-kept s t (player_connect id) k f = tt
  EventIsForeign-kept s t (player_disconnect id) k f = tt
  EventIsForeign-kept s t (process_tick cs) k f =
      All-imp (IsForeign s) (IsForeign t) (λ c h. IsForeign-kept s t c k h) cs f
  EventIsForeign-kept s t (passes w) k f = f

  -- Clients that do not know the password cannot touch the game. From a state with the invariant,
  -- in any history in which no connection is gone when a request of it is processed and the game
  -- server does not change by itself: if every request that is read comes from an address that the
  -- whitelist does not admit, or does not give the password and the hash of its target, then all
  -- that becomes of the game server is that warnings are written to the log.
  pub run-Logged :
      (es : List (Event World)) (s : Server World)
      → All EventHasPeer es
      → Inv env s
      → All (EventIsForeign s) es
      → Returns (λ t. Logged env s.world t.world) (run env es s)
  unfolding run
  run-Logged [] s k v f = same
  run-Logged (e ∷ es) s (k, ks) v (f, fs) =
      Returns-bind (λ t. Next env e s t × LogsOnly s t) (LogsOnly s) (on_event env e s) (run env es)
        (Returns-both (Next env e s) (LogsOnly s) _ (on_event-Next env e s k v)
          (on_event-LogsOnly e s k v f))
        (λ t ((v', (_, kept)), l).
          Returns-map (LogsOnly t) (LogsOnly s) (run env es t) (λ u l'. Logged-trans env l l')
            (run-Logged es t ks v' (
              All-imp (EventIsForeign s) (EventIsForeign t)
                (λ d h. EventIsForeign-kept s t d kept h) es fs)))
