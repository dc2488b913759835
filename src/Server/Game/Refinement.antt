-- ===== src/Server/Game/Refinement.antt =====
-- The server against what the game server and the clients see of it, broken connections included.
use mathlib.Core.Option.{some-injective}
use samp_plugin_api.Prelude.{
  sym, ap, ◌∙◌, ℕ, ◌≡◌, refl, subst, ap₂, Bool, true, false, Option, none, some, List, [], ◌∷◌,
  if◌then◌else◌,
}
use samp_plugin_api.Env.{Env, Request, Verb, post, get, other_verb}
use samp_plugin_api.Route.{
  Checked, ok, regex_error, out_of_range, system_error, ◌>>=◌, Returns, Returns-both, Returns-map,
}
use samp_plugin_api.Session
use samp_plugin_api.Session.{Session, process_request, by_verb, create_response}
use samp_plugin_api.Session.Serving.{Gate, prepared, client_of}
use samp_plugin_api.Server
use samp_plugin_api.Server.{
  Server, Completion, accepted, accept_failed, request_read, read_failed, response_written,
  deadline, Event, game_mode_init, game_mode_exit, player_connect, player_disconnect, process_tick,
  passes, on_read, complete, poll, on_event, run,
}
use samp_plugin_api.Server.Invariant.{Inv, HasPeer, EventHasPeer, complete-Inv, change-Inv}
use samp_plugin_api.Server.Kept.{
  IsKept, IsKept-of, IsKept-trans, complete-Stays, Stays, Next, on_event-Next,
}
use samp_plugin_api.Server.Game.{
  Game, game, gate_of, is_answered, and_then, attempt, completed, tick, happens, replay,
  find-clients_of, clients_of, clients_of-update, change_client, turned_away, complete-completed,
}

module _ {World Float : Type 0} (env : Env World Float) where
  -- From a server, a call returns and the game is as described, with the invariant and the
  -- configuration kept, or it raises a `system_error` and the description says that it breaks.
  abbrev pub Sees : Server World → Checked (Server World) → Option (Game World) → Type 0
  Sees s (ok t) (some g) = (game t ≡ g) × (Inv env t × IsKept s t)
  Sees s system_error none = Unit
  Sees s _ _ = ⊥

  pub gate_kept : {s t : Server World} → IsKept s t → gate_of t ≡ gate_of s
  gate_kept k i = record {
    config = k.config i;
    password = k.credentials.password i;
    seed = k.credentials.seed i;
  }

  Returns-Sees :
      (s : Server World) (r : Checked (Server World)) (g : Game World)
      → Returns (λ t. (game t ≡ g) × (Inv env t × IsKept s t)) r
      → Sees s r (some g)
  Returns-Sees s (ok t) g h = h
  Returns-Sees s regex_error g h = h
  Returns-Sees s out_of_range g h = h
  Returns-Sees s system_error g h = h

  Sees-trans :
      (s t : Server World) (r : Checked (Server World)) (o : Option (Game World))
      → IsKept s t
      → Sees t r o
      → Sees s r o
  Sees-trans s t (ok u) (some g) k (e, (v, k')) = (e, (v, IsKept-trans k k'))
  Sees-trans s t (ok u) none k h = h
  Sees-trans s t system_error none k h = tt
  Sees-trans s t system_error (some g) k h = absurd h
  Sees-trans s t regex_error o k h = absurd h
  Sees-trans s t out_of_range o k h = absurd h

  -- One call after another.
  Sees-bind :
      (s : Server World) (r : Checked (Server World)) (o : Option (Game World))
      (f : Server World → Checked (Server World)) (k : Gate → Game World → Option (Game World))
      → Sees s r o
      → ((t : Server World) → Inv env t → Sees t (f t) (k (gate_of t) (game t)))
      → Sees s (r >>= f) (and_then o (k (gate_of s)))
  Sees-bind s (ok t) (some g) f k (e, (v, kept)) step =
      Sees-trans s t (f t) (k (gate_of s) g) kept
        (subst (Sees t (f t)) (ap₂ k (gate_kept kept) e) (step t v))
  Sees-bind s (ok t) none f k h step = absurd h
  Sees-bind s system_error none f k h step = tt
  Sees-bind s system_error (some g) f k h step = absurd h
  Sees-bind s regex_error o f k h step = absurd h
  Sees-bind s out_of_range o f k h step = absurd h

  abbrev prepare : Request → Session → Session
  prepare req x = record x { response = prepared req x.response }

  -- The session of a client that is gone answers only verbs that need no address.
  by_verb-Sees :
      (v : Verb) (i : ℕ) (req : Request) (s : Server World) (x : Session)
      → Inv env s
      → Session.find i s.manager.heap ≡ some x
      → Sees s
          ((by_verb env v s.handler s.config s.players s.world req none (prepare req x)
              >>= λ (h, w, y). ok (h, w, Session.write y))
            >>= λ out. ok (Server.put env i s out))
          (if is_answered v
            then none
            else some (record (game s) {
              clients = change_client i (turned_away req) (clients_of s.manager.heap);
            }))
  unfolding by_verb create_response Session.write
  by_verb-Sees post i req s x v e = tt
  by_verb-Sees get i req s x v e = tt
  by_verb-Sees (other_verb _) i req s x v e = (
    ap (λ c. record (game s) { clients = c })
        (clients_of-update env i (λ _. Session.write (prepare req x)) (turned_away req)
          s.manager.heap
          (λ y f. ap (λ z. turned_away req (client_of z)) (some-injective _ _ (sym e ∙ f)))),
    (change-Inv env i (λ _. Session.write (prepare req x)) s v, IsKept-of refl refl),
  )

  gone-Sees :
      (i : ℕ) (req : Request) (s : Server World) (o : Option Session)
      → Inv env s
      → Session.find i s.manager.heap ≡ o
      → Sees s
          (on_read env i none req o s)
          (attempt env (gate_of s) (request_read i none req) (game s))
  unfolding on_read attempt process_request
  gone-Sees i req s none v e =
      rw (find-clients_of env i s.manager.heap, e) (refl, (v, IsKept-of refl refl))
  gone-Sees i req s (some x) v e =
      rw (find-clients_of env i s.manager.heap, e) (by_verb-Sees req.verb i req s x v e)

  peer-Sees :
      (c : Completion) (s : Server World)
      → HasPeer c
      → Inv env s
      → Sees s (complete env c s) (some (completed env (gate_of s) c (game s)))
  peer-Sees c s k v = Returns-Sees s (complete env c s) (completed env (gate_of s) c (game s)) (
      Returns-both (λ t. game t ≡ completed env (gate_of s) c (game s))
        (λ t. Inv env t × IsKept s t) (complete env c s) (complete-completed env c s k v)
        (Returns-both (Inv env) (IsKept s) (complete env c s) (complete-Inv env c s k v) (
          Returns-map (Stays s) (IsKept s) (complete env c s) (λ t (_, _, kept). kept)
            (complete-Stays env c s k v))))

  complete-Sees :
      (c : Completion) (s : Server World)
      → Inv env s
      → Sees s (complete env c s) (attempt env (gate_of s) c (game s))
  unfolding complete attempt
  complete-Sees accepted s v = peer-Sees accepted s tt v
  complete-Sees accept_failed s v = peer-Sees accept_failed s tt v
  complete-Sees (request_read i none req) s v =
      gone-Sees i req s (Session.find i s.manager.heap) v refl
  complete-Sees (request_read i (some ip) req) s v = peer-Sees (request_read i (some ip) req) s tt v
  complete-Sees (read_failed i) s v = peer-Sees (read_failed i) s tt v
  complete-Sees (response_written i error) s v = peer-Sees (response_written i error) s tt v
  complete-Sees (deadline i aborted) s v = peer-Sees (deadline i aborted) s tt v

  poll-Sees :
      (cs : List Completion) (s : Server World)
      → Inv env s
      → Sees s (poll env cs s) (tick env (gate_of s) cs (game s))
  unfolding poll tick
  poll-Sees [] s v = (refl, (v, IsKept-of refl refl))
  poll-Sees (c ∷ cs) s v =
      Sees-bind s (complete env c s) (attempt env (gate_of s) c (game s)) (poll env cs)
        (λ k g. tick env k cs g) (complete-Sees c s v) (poll-Sees cs)

  ticks-Sees :
      (b : Bool) (cs : List Completion) (s : Server World)
      → Inv env s
      → Sees s
          (if b then poll env cs s else ok s)
          (if b then tick env (gate_of s) cs (game s) else some (game s))
  ticks-Sees true cs s v = poll-Sees cs s v
  ticks-Sees false cs s v = (refl, (v, IsKept-of refl refl))

  -- A callback that polls nothing.
  callback-Sees :
      (e : Event World) (s : Server World) (g : Game World)
      → EventHasPeer e
      → Inv env s
      → Returns (λ t. game t ≡ g) (on_event env e s)
      → Sees s (on_event env e s) (some g)
  callback-Sees e s g k v h = Returns-Sees s (on_event env e s) g (
      Returns-both (λ t. game t ≡ g) (λ t. Inv env t × IsKept s t) (on_event env e s) h
        (Returns-map (Next env e s) (λ t. Inv env t × IsKept s t) (on_event env e s)
          (λ t (v', (_, kept)). (v', kept)) (on_event-Next env e s k v)))

  pub on_event-Sees :
      (e : Event World) (s : Server World)
      → Inv env s
      → Sees s (on_event env e s) (happens env (gate_of s) e (game s))
  unfolding on_event happens
  on_event-Sees game_mode_init s v = callback-Sees game_mode_init s _ tt v refl
  on_event-Sees game_mode_exit s v = callback-Sees game_mode_exit s _ tt v refl
  on_event-Sees (player_connect id) s v = callback-Sees (player_connect id) s _ tt v refl
  on_event-Sees (player_disconnect id) s v = callback-Sees (player_disconnect id) s _ tt v refl
  on_event-Sees (process_tick cs) s v = ticks-Sees s.ready cs s v
  on_event-Sees (passes w) s v = callback-Sees (passes w) s _ tt v refl

  -- The server refines its description. From a state with the invariant, whatever the history: the
  -- description of its events, from what the game server and the clients see of the state before,
  -- gives what they see of the state after, and the invariant, the configuration and the credentials
  -- are kept; or the description breaks, and then the run raises a `system_error`. By the description
  -- a callback acts on the players and an accepted client is one more, and while the game mode runs,
  -- the requests of accepted clients are served and replied to in the order in which they are read,
  -- each with the players and the game server of its time; nothing else of sessions and handlers is
  -- seen. It breaks exactly where a client is gone whose `GET` or `POST` is processed.
  pub run-Sees :
      (es : List (Event World)) (s : Server World)
      → Inv env s
      → Sees s (run env es s) (replay env (gate_of s) es (game s))
  unfolding run replay
  run-Sees [] s v = (refl, (v, IsKept-of refl refl))
  run-Sees (e ∷ es) s v =
      Sees-bind s (on_event env e s) (happens env (gate_of s) e (game s)) (run env es)
        (λ k g. replay env k es g) (on_event-Sees e s v) (run-Sees es)
