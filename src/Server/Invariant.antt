-- ===== src/Server/Invariant.antt =====
-- The plugin under any sequence of callbacks.
use samp_plugin_api.Prelude.{
  ℕ, suc, ◌<◌, ◌≡◌, true, Option, none, some, List, [], ◌∷◌, Text, arith, All,
}
use samp_plugin_api.Players.Map.{IsValid, add_player-IsValid, remove_player-IsValid}
use samp_plugin_api.Players.{to_u32}
use samp_plugin_api.Env.{Env, Request}
use samp_plugin_api.Route.{Returns, Returns-bind}
use samp_plugin_api.Handler.Dispatch.{IsRegistered}
use samp_plugin_api.Session
use samp_plugin_api.Session.{Session, Heap, Manager}
use samp_plugin_api.Session.Managed.{AreDistinct, has, has-insert, insert-AreDistinct}
use samp_plugin_api.Session.Requests.{process_request-IsSent, IsSent}
use samp_plugin_api.Server.Polling.{tick_keeps}
use samp_plugin_api.Server.{
  Server, Completion, Event, accepted, accept_failed, request_read, read_failed, response_written,
  deadline, game_mode_init, game_mode_exit, player_connect, player_disconnect, process_tick, passes,
  on_accepted, on_read, change, complete, on_event, run,
}

-- Every session on the heap is in the set of the manager, under an id that was given out.
abbrev pub AllManaged : ℕ → List ℕ → Heap → Type 0
AllManaged next is [] = Unit
AllManaged next is ((i, _) ∷ heap) = (has i is ≡ true) × (i < next) × AllManaged next is heap

AllManaged-grow :
    (next i : ℕ) (is : List ℕ) (heap : Heap)
    → AllManaged next is heap
    → AllManaged (suc next) (Session.insert i is) heap
AllManaged-grow next i is [] h = tt
AllManaged-grow next i is ((j, s) ∷ heap) (e, l, h) =
    (ground (arith, has-insert i j is), omega arith, AllManaged-grow next i is heap h)

AllManaged-update :
    (next i : ℕ) (is : List ℕ) (f : Session → Session) (heap : Heap)
    → AllManaged next is heap
    → AllManaged next is (Session.update i f heap)
unfolding Session.update
AllManaged-update next i is f [] h = tt
AllManaged-update next i is f ((j, s) ∷ heap) (e, l, h) =
    ground (arith, AllManaged-update next i is f heap h)

-- A request is read while its connection still has a peer.
abbrev pub HasPeer : Completion → Type 0
HasPeer (request_read i none req) = ⊥
HasPeer _ = Unit

abbrev pub EventHasPeer : {World : Type 0} → Event World → Type 0
EventHasPeer (process_tick cs) = All HasPeer cs
EventHasPeer _ = Unit

module _ {World Float : Type 0} (env : Env World Float) where
  pub record Inv (s : Server World) : Type 0 where
    pub registered : IsRegistered s.handler
    pub players : IsValid s.players
    pub distinct : AreDistinct s.manager.sessions
    pub managed : AllManaged s.next s.manager.sessions s.manager.heap

  on_accepted-Inv : (s : Server World) → Inv s → Inv (on_accepted env s)
  unfolding on_accepted Session.manager_start
  on_accepted-Inv s v = record {
    registered = v.registered;
    players = v.players;
    distinct = insert-AreDistinct s.next s.manager.sessions v.distinct;
    managed = AllManaged-update (suc s.next) s.next _ Session.start _ (
      ground (arith, has-insert s.next s.next s.manager.sessions),
      omega arith,
      AllManaged-grow s.next s.next s.manager.sessions s.manager.heap v.managed,
    );
  }

  pub change-Inv :
      (i : ℕ) (f : Session → Session) (s : Server World) → Inv s → Inv (change env i f s)
  change-Inv i f s v = record {
    registered = v.registered;
    players = v.players;
    distinct = v.distinct;
    managed = AllManaged-update s.next i s.manager.sessions f s.manager.heap v.managed;
  }

  on_read-Inv :
      (i : ℕ) (ip : Text) (req : Request) (o : Option Session) (s : Server World)
      → Inv s
      → Returns Inv (on_read env i (some ip) req o s)
  unfolding on_read
  on_read-Inv i ip req none s v = v
  on_read-Inv i ip req (some session) s v =
      Returns-bind (λ out. IsRegistered out.0 × IsSent env req session out.2) Inv _ _
        (process_request-IsSent env s.handler s.config s.players s.world req ip session
          v.registered)
        (λ out (g, _). record {
          registered = g;
          players = v.players;
          distinct = v.distinct;
          managed =
              AllManaged-update s.next i s.manager.sessions (λ _. out.2) s.manager.heap v.managed;
        })

  pub complete-Inv :
      (c : Completion) (s : Server World) → HasPeer c → Inv s → Returns Inv (complete env c s)
  unfolding complete
  complete-Inv accepted s t v = on_accepted-Inv s v
  complete-Inv accept_failed s t v = record {
    registered = v.registered;
    players = v.players;
    distinct = v.distinct;
    managed = v.managed;
  }
  complete-Inv (request_read i none req) s t v = absurd t
  complete-Inv (request_read i (some ip) req) s t v =
      on_read-Inv i ip req (Session.find i s.manager.heap) s v
  complete-Inv (read_failed i) s t v = change-Inv i Session.on_read_failed s v
  complete-Inv (response_written i error) s t v = change-Inv i (Session.on_written error) s v
  complete-Inv (deadline i aborted) s t v = change-Inv i (Session.on_deadline aborted) s v

  pub on_event-Inv :
      (e : Event World) (s : Server World) → EventHasPeer e → Inv s → Returns Inv (on_event env e s)
  unfolding on_event
  on_event-Inv game_mode_init s t v = record {
    registered = v.registered;
    players = v.players;
    distinct = v.distinct;
    managed = v.managed;
  }
  on_event-Inv game_mode_exit s t v = record {
    registered = v.registered;
    players = v.players;
    distinct = v.distinct;
    managed = v.managed;
  }
  on_event-Inv (player_connect id) s t v = record {
    registered = v.registered;
    players = add_player-IsValid env.samp (to_u32 id) s.world s.players v.players;
    distinct = v.distinct;
    managed = v.managed;
  }
  on_event-Inv (player_disconnect id) s t v = record {
    registered = v.registered;
    players = remove_player-IsValid (to_u32 id) s.players v.players;
    distinct = v.distinct;
    managed = v.managed;
  }
  on_event-Inv (process_tick cs) s t v = tick_keeps env Inv HasPeer complete-Inv s.ready cs s t v
  on_event-Inv (passes w) s t v = record {
    registered = v.registered;
    players = v.players;
    distinct = v.distinct;
    managed = v.managed;
  }

  -- From a state with the invariant, whatever the game server and the clients do, in whatever order,
  -- as long as no connection is gone when a request of it is processed: the plugin raises no error,
  -- its table of routes stays as registered, each player stands under its own id and only once, no
  -- session stands twice in the set of the manager, and every session on the heap is in that set.
  pub run-Inv :
      (es : List (Event World)) (s : Server World)
      → All EventHasPeer es
      → Inv s
      → Returns Inv (run env es s)
  unfolding run
  run-Inv [] s t v = v
  run-Inv (e ∷ es) s (t, ts) v =
      Returns-bind Inv Inv (on_event env e s) (run env es) (on_event-Inv e s t v)
        (λ s' v'. run-Inv es s' ts v')
