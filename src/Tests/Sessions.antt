-- ===== src/Tests/Sessions.antt =====
-- Sessions and the running server.
use samp_plugin_api.Prelude.{
  ℕ, ◌↔◌, ◌⊎◌, Text, text_eq, inl, inr, ◌≡◌, All, none, Option, refl, true, false, ◌||◌, some, List,
  [], ◌∷◌, codes, arith, ◌==◌, if◌then◌else◌,
}
use samp_plugin_api.Env.{post, get}
use samp_plugin_api.Route.{system_error, Returns}
use samp_plugin_api.Handler.Dispatch.{IsRegistered, after}
use samp_plugin_api.Session.Isolation.{seen, process_request_isolated}
use samp_plugin_api.Session.Foreign.{Logged, IsRefused}
use samp_plugin_api.Server.Foreign.{run-Logged}
use samp_plugin_api.Config.{get_args}
use samp_plugin_api.Codecs.{decode_body}
use samp_plugin_api.Prelude.OrdMap
use samp_plugin_api.Server.Game.{
  find_client, game, gate_of, replay, happens, tick, attempt, completed,
}
use samp_plugin_api.Server.Game.Refinement.{Sees, run-Sees}
use samp_plugin_api.Server.Presence.{registered, connected, registered-run}
use samp_plugin_api.Session
use samp_plugin_api.Session.{Session, Heap, Manager, new_session, new_response, process_request}
use samp_plugin_api.Session.Requests.{IsSent, process_request-IsSent, process_request_error_iff}
use samp_plugin_api.Session.Managed.{has, changed, AreDistinct, manager_start-stop, reads, closes}
use samp_plugin_api.Server.{
  Event, run, player_connect, process_tick, accepted, request_read, response_written, deadline,
}
use samp_plugin_api.Server.Invariant.{EventHasPeer, Inv, run-Inv}
use samp_plugin_api.Server.Lifetime.{IsHeld, run-IsHeld}
use samp_plugin_api.Session.{reading, writing, written, armed, cancelled, by_verb}
use samp_plugin_api.Tests.{
  client, server, env, config, handler, handler-IsRegistered, players, request,
}

process_request-IsSent_example :
    Returns
      (λ out.
        IsRegistered out.0
        × IsSent env (request (codes "/player/list") 13 (codes "pw")) client out.2)
      (process_request env handler config players 7
        (request (codes "/player/list") 13 (codes "pw"))
        (some (codes "10.0.0.1"))
        client)
process_request-IsSent_example =
    process_request-IsSent env handler config players 7
      (request (codes "/player/list") 13 (codes "pw")) (codes "10.0.0.1") client
      handler-IsRegistered

process_request_error_iff_example :
    (process_request env handler config players 7
        (request (codes "/player/list") 13 (codes "pw"))
        none
        client
      ≡ system_error)
    ↔ ((◌≡◌ {A = Option Text} none none) × ((post ≡ post) ⊎ (post ≡ get)))
process_request_error_iff_example =
    process_request_error_iff env handler config players 7
      (request (codes "/player/list") 13 (codes "pw")) none client handler-IsRegistered

abbrev two_sessions : Manager
two_sessions = record { sessions = 0 ∷ 1 ∷ []; heap = (1, client) ∷ (0, client) ∷ [] }

two_sessions-AreDistinct : AreDistinct two_sessions.sessions
unfolding has
two_sessions-AreDistinct = (refl, (refl, tt))

manager_start-stop_example :
    ((has 1 (Session.manager_start 1 two_sessions).sessions ≡ (1 == 1 || has 1 (0 ∷ 1 ∷ [])))
      × (Session.find 1 (Session.manager_start 1 two_sessions).heap ≡ (
          if 1 == 1
          then changed reads (Session.find 1 two_sessions.heap)
          else Session.find 1 two_sessions.heap)))
    × ((has 1 (Session.manager_stop 1 two_sessions).sessions
          ≡ (if 1 == 1 then false else has 1 (0 ∷ 1 ∷ [])))
        × (Session.find 1 (Session.manager_stop 1 two_sessions).heap ≡ (
            if 1 == 1
            then changed closes (Session.find 1 two_sessions.heap)
            else Session.find 1 two_sessions.heap)))
    × ((has 1 (Session.manager_stop_all two_sessions).sessions ≡ false)
        × (Session.find 1 (Session.manager_stop_all two_sessions).heap ≡ (
            if has 1 (0 ∷ 1 ∷ [])
            then changed closes (Session.find 1 two_sessions.heap)
            else Session.find 1 two_sessions.heap)))
manager_start-stop_example = manager_start-stop 1 1 two_sessions two_sessions-AreDistinct

-- A server with one session, and what happens to it: a player joins, the client asks for the list
-- of players, and another client comes.
abbrev history : List (Event ℕ)
history =
    player_connect 1
    ∷ process_tick (
        request_read 0 (some (codes "10.0.0.1")) (request (codes "/player/list") 13 (codes "pw"))
        ∷ response_written 0 false
        ∷ accepted
        ∷ deadline 0 true
        ∷ [])
    ∷ []

history-EventHasPeer : All EventHasPeer history
history-EventHasPeer = (tt, ((tt, (tt, (tt, (tt, tt)))), tt))

server-Inv : Inv env server
unfolding has
server-Inv = record {
  registered = handler-IsRegistered;
  players = tt;
  distinct = (refl, tt);
  managed = (refl, omega arith, tt);
}

run-Inv_example : Returns (Inv env) (run env history server)
run-Inv_example = run-Inv env history server history-EventHasPeer server-Inv

server-IsHeld : IsHeld env 0 server
unfolding has Session.find
server-IsHeld = (refl, refl)

run-IsHeld_example : Returns (λ t. Inv env t × IsHeld env 0 t) (run env history server)
run-IsHeld_example =
    run-IsHeld env 0 history server server-Inv history-EventHasPeer
      (tt, ((tt, (tt, (tt, (tt, tt)))), tt)) server-IsHeld

registered-run_example :
    Returns
      (λ t. registered env 1 t ≡ connected 1 history (registered env 1 server))
      (run env history server)
registered-run_example = registered-run env 1 history server history-EventHasPeer server-Inv

process_request_isolated_example :
    seen (
      process_request env
        (after (codes "/player/list") handler)
        config
        players
        7
        (request (codes "/player/list") 13 (codes "pw"))
        (some (codes "10.0.0.1"))
        client)
    ≡ seen (
        process_request env handler config players 7
          (request (codes "/player/list") 13 (codes "pw"))
          (some (codes "10.0.0.1"))
          client)
process_request_isolated_example =
    process_request_isolated env handler (after (codes "/player/list") handler) config players 7
      (request (codes "/player/list") 13 (codes "pw")) (some (codes "10.0.0.1")) client
      handler-IsRegistered (record { routes = refl; no_cache = refl })
      (record { password = refl; seed = refl })

-- A request from an address that is not on the whitelist, and one with the wrong hash.
abbrev attack : List (Event ℕ)
attack =
    player_connect 1
    ∷ process_tick (
        accepted
        ∷ request_read 0 (some (codes "9.9.9.9"))
            (request (codes "/player/ban/ann") 16 (codes "pw"))
        ∷ request_read 1 (some (codes "10.0.0.1")) (request (codes "/player/list") 14 (codes "pw"))
        ∷ [])
    ∷ []

stranger-IsRefused :
    IsRefused env handler config
      (codes "9.9.9.9")
      (request (codes "/player/ban/ann") 16 (codes "pw"))
unfolding get_args OrdMap.find text_eq
stranger-IsRefused (inl e, _) = cc
stranger-IsRefused (inr (inl e), _) = cc
stranger-IsRefused (inr (inr (inl e)), _) = cc
stranger-IsRefused (inr (inr (inr e)), _) = absurd e

wrong_hash-IsRefused :
    IsRefused env handler config (codes "10.0.0.1") (request (codes "/player/list") 14 (codes "pw"))
unfolding decode_body
wrong_hash-IsRefused (_, (_, e)) = omega arith

run-Logged_example : Returns (λ t. Logged env server.world t.world) (run env attack server)
run-Logged_example =
    run-Logged env attack server (tt, ((tt, (tt, (tt, tt))), tt)) server-Inv
      (tt, ((tt, (stranger-IsRefused, (wrong_hash-IsRefused, tt))), tt))

-- A client is gone before its request is processed.
abbrev storm : List (Event ℕ)
storm =
    player_connect 1
    ∷ process_tick
        (accepted ∷ request_read 0 none (request (codes "/player/list") 13 (codes "pw")) ∷ [])
    ∷ []

storm-breaks : replay env (gate_of server) storm (game server) ≡ none
unfolding replay happens tick attempt completed find_client
storm-breaks = refl

run-Sees_example :
    Sees env server (run env storm server) (replay env (gate_of server) storm (game server))
run-Sees_example = run-Sees env storm server server-Inv
