-- ===== src/Server/Game.antt =====
-- The plugin as the game server and its clients see it: who plays, which clients it has, what their
-- requests do and what they are answered, without sessions, handlers, routing and deadlines.
pub mod Refinement
use mathlib.Core.Option.{some-injective}
use samp_plugin_api.Prelude.{
  Bool-cases, inl, inr, sym, ℕ, suc, ◌≡◌, refl, ap, ap₂, ◌∙◌, Bool, true, false, Option, none, some,
  List, [], ◌∷◌, Text, All, if◌then◌else◌, arith, ◌==◌,
}
use samp_plugin_api.Players.{Entries, to_u32, add_player, remove_player}
use samp_plugin_api.Env.{Env, Request, Verb, post, get, other_verb}
use samp_plugin_api.Route.{ok, Returns, Returns-bind, Returns-both, Returns-map}
use samp_plugin_api.Session
use samp_plugin_api.Session.{Session, Heap, new_response}
use samp_plugin_api.Session.Managed.{has}
use samp_plugin_api.Session.Serving.{
  Gate, Client, gate, client_of, prepared, sent, serve, reply, Leaves, process_request-Leaves,
}
use samp_plugin_api.Server.{
  Server, Completion, accepted, accept_failed, request_read, read_failed, response_written,
  deadline, Event, game_mode_init, game_mode_exit, player_connect, player_disconnect, process_tick,
  passes, on_accepted, on_read, complete, poll, on_event, run,
}
use samp_plugin_api.Server.Invariant.{Inv, HasPeer, EventHasPeer, complete-Inv}
use samp_plugin_api.Server.Kept.{IsKept, complete-Stays, Stays, Next, on_event-Next}

-- The clients of the plugin.
abbrev pub Clients : Type 0
Clients = List (ℕ × Client)

unfoldable pub find_client : ℕ → Clients → Option Client
find_client i [] = none
find_client i ((j, c) ∷ cs) = if j == i then some c else find_client i cs

unfoldable pub change_client : ℕ → (Client → Client) → Clients → Clients
change_client i f [] = []
change_client i f ((j, c) ∷ cs) = if j == i then (j, f c) ∷ cs else (j, c) ∷ change_client i f cs

pub record Game (World : Type 0) : Type 0 where
  pub ready : Bool
  pub players : Entries
  -- The clients that were accepted, by their numbers, and the number of the next one.
  pub clients : Clients
  pub next : ℕ
  pub world : World

abbrev pub clients_of : Heap → Clients
clients_of [] = []
clients_of ((i, s) ∷ heap) = (i, client_of s) ∷ clients_of heap

abbrev pub game : {World : Type 0} → Server World → Game World
game s = record {
  ready = s.ready;
  players = s.players;
  clients = clients_of s.manager.heap;
  next = s.next;
  world = s.world;
}

-- The verbs that the handler answers.
abbrev pub is_answered : Verb → Bool
is_answered post = true
is_answered get = true
is_answered (other_verb _) = false

abbrev pub turned_away : Request → Client → Client
turned_away req c = sent (record c { answer = prepared req c.answer })

abbrev new_client : ℕ → Client
new_client now = record { arrived = now; answer = new_response }

abbrev pub and_then {ℓ} : {A : Type ℓ} → Option A → (A → Option A) → Option A
and_then none f = none
and_then (some a) f = f a

abbrev pub gate_of : {World : Type 0} → Server World → Gate
gate_of s = gate s.config s.handler

module _ {World Float : Type 0} (env : Env World Float) where
  -- A request of a client is served and replied to, if the client was accepted.
  abbrev pub asks : Gate → ℕ → Text → Request → Option Client → Game World → Game World
  asks k i ip req none g = g
  asks k i ip req (some c) g = record g {
    world = serve env k g.players req ip g.world;
    clients = change_client i (reply env k g.players req ip g.world) g.clients;
  }

  -- What completes matters for the game only where a client comes or asks for something.
  unfoldable pub completed : Gate → Completion → Game World → Game World
  completed k accepted g = record g {
    clients = (g.next, new_client (env.now g.world)) ∷ g.clients;
    next = suc g.next;
  }
  completed k (request_read i (some ip) req) g = asks k i ip req (find_client i g.clients) g
  completed k _ g = g

  -- A client that is gone when a request of it is processed breaks the plugin, if the verb of the
  -- request is one that is answered; else it is replied to all the same.
  abbrev asks_gone : ℕ → Request → Option Client → Game World → Option (Game World)
  asks_gone i req none g = some g
  asks_gone i req (some c) g =
      if is_answered req.verb
      then none
      else some (record g { clients = change_client i (turned_away req) g.clients })

  unfoldable pub attempt : Gate → Completion → Game World → Option (Game World)
  attempt k (request_read i none req) g = asks_gone i req (find_client i g.clients) g
  attempt k c g = some (completed k c g)

  unfoldable pub tick : Gate → List Completion → Game World → Option (Game World)
  tick k [] g = some g
  tick k (c ∷ cs) g = and_then (attempt k c g) (tick k cs)

  unfoldable pub happens : Gate → Event World → Game World → Option (Game World)
  happens k game_mode_init g = some (record g { ready = true })
  happens k game_mode_exit g = some (record g { ready = false })
  happens k (player_connect id) g =
      some (record g { players = add_player env.samp (to_u32 id) g.world g.players })
  happens k (player_disconnect id) g =
      some (record g { players = remove_player (to_u32 id) g.players })
  happens k (process_tick cs) g = if g.ready then tick k cs g else some g
  happens k (passes w) g = some (record g { world = w })

  -- What a history makes of the game, or nothing where the plugin breaks.
  unfoldable pub replay : Gate → List (Event World) → Game World → Option (Game World)
  replay k [] g = some g
  replay k (e ∷ es) g = and_then (happens k e g) (replay k es)

  pub clients_of-update :
      (i : ℕ) (f : Session → Session) (h : Client → Client) (heap : Heap)
      → ((x : Session) → Session.find i heap ≡ some x → client_of (f x) ≡ h (client_of x))
      → clients_of (Session.update i f heap) ≡ change_client i h (clients_of heap)
  unfolding Session.update Session.find change_client
  clients_of-update i f h [] e = refl
  clients_of-update i f h ((j, s) ∷ heap) e = elim (Bool-cases (j == i)) [
    | inl q ↦ rw q (ap (λ c. (j, c) ∷ clients_of heap) (e s (rw q refl)))
    | inr q ↦ rw q (ap ((j, client_of s) ∷◌) (clients_of-update i f h heap (λ x k. e x (rw q k))))
  ]

  change_client_id : (i : ℕ) (cs : Clients) → change_client i (λ c. c) cs ≡ cs
  unfolding change_client
  change_client_id i [] = refl
  change_client_id i ((j, c) ∷ cs) = ground (arith, change_client_id i cs)

  pub find-clients_of :
      (i : ℕ) (heap : Heap)
      → find_client i (clients_of heap)
        ≡ elim (Session.find i heap) [ none ↦ none | some s ↦ some (client_of s) ]
  unfolding find_client Session.find
  find-clients_of i [] = refl
  find-clients_of i ((j, s) ∷ heap) = ground (arith, find-clients_of i heap)

  on_accepted-completed :
      (k : Gate) (s : Server World) → game (on_accepted env s) ≡ completed k accepted (game s)
  unfolding on_accepted completed Session.manager_start Session.start
  on_accepted-completed k s =
      ap (λ c. record (game s) { clients = c; next = suc s.next })
        (clients_of-update s.next Session.start (λ c. c) _ (λ x e. refl)
          ∙ change_client_id s.next _)

  change-game :
      (i : ℕ) (f : Session → Session) (s : Server World)
      → ((x : Session) → client_of (f x) ≡ client_of x)
      → game (record s { manager = record s.manager { heap = Session.update i f s.manager.heap } })
        ≡ game s
  change-game i f s e =
      ap (λ c. record (game s) { clients = c })
        (clients_of-update i f (λ c. c) s.manager.heap (λ x q. e x)
          ∙ change_client_id i (clients_of s.manager.heap))

  on_read-completed :
      (i : ℕ) (ip : Text) (req : Request) (s : Server World) (o : Option Session)
      → Inv env s
      → Session.find i s.manager.heap ≡ o
      → Returns
          (λ t. game t ≡ completed (gate_of s) (request_read i (some ip) req) (game s))
          (on_read env i (some ip) req o s)
  unfolding on_read completed
  on_read-completed i ip req s none v e = rw (find-clients_of i s.manager.heap, e) refl
  on_read-completed i ip req s (some x) v e =
      let k = gate_of s in
      rw (find-clients_of i s.manager.heap, e)
        (Returns-bind
          (Leaves env (serve env k s.players req ip s.world)
            (reply env k s.players req ip s.world (client_of x)))
          _ _ _
          (process_request-Leaves env s.handler s.config s.players s.world req ip x v.registered)
          (λ out (q, r).
            ap₂ (λ w c. record (game s) { world = w; clients = c }) q
              (clients_of-update i (λ _. out.2) (reply env k s.players req ip s.world)
                s.manager.heap
                (λ y f.
                  r
                  ∙ ap (λ z. reply env k s.players req ip s.world (client_of z))
                      (some-injective _ _ (sym e ∙ f))))))

  client_of-on_deadline :
      (aborted : Bool) (x : Session) → client_of (Session.on_deadline aborted x) ≡ client_of x
  unfolding Session.on_deadline
  client_of-on_deadline true x = refl
  client_of-on_deadline false x = refl

  pub complete-completed :
      (c : Completion) (s : Server World)
      → HasPeer c
      → Inv env s
      → Returns (λ t. game t ≡ completed (gate_of s) c (game s)) (complete env c s)
  unfolding complete completed Session.on_read_failed Session.on_written
  complete-completed accepted s k v = on_accepted-completed (gate_of s) s
  complete-completed accept_failed s k v = refl
  complete-completed (request_read i none req) s k v = absurd k
  complete-completed (request_read i (some ip) req) s k v =
      on_read-completed i ip req s (Session.find i s.manager.heap) v refl
  complete-completed (read_failed i) s k v = change-game i Session.on_read_failed s (λ x. refl)
  complete-completed (response_written i error) s k v =
      change-game i (Session.on_written error) s (λ x. refl)
  complete-completed (deadline i aborted) s k v =
      change-game i (Session.on_deadline aborted) s (client_of-on_deadline aborted)
