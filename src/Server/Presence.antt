-- ===== src/Server/Presence.antt =====
-- Who is in the map of players, told from the callbacks alone.
use samp_plugin_api.Prelude.{
  ℕ, ◌≡◌, refl, subst, ap, Bool, true, false, not, ◌&&◌, ◌||◌, Option, none, some, List, [], ◌∷◌,
  ◌==◌, All, arith,
}
use samp_plugin_api.Players.{Player, get_player, to_u32}
use samp_plugin_api.Players.Map.{find-add_player, find-remove_player}
use samp_plugin_api.Env.{Env}
use samp_plugin_api.Route.{Returns, Returns-bind, Returns-both, Returns-map}
use samp_plugin_api.Server.{
  Server, Event, game_mode_init, game_mode_exit, player_connect, player_disconnect, process_tick,
  passes, on_event, run,
}
use samp_plugin_api.Server.Invariant.{Inv, EventHasPeer, on_event-Inv}
use samp_plugin_api.Server.Kept.{Stays, tick-Stays}

-- Whether an id is connected after an event, and after a history: the last of its connections and
-- disconnections decides.
abbrev connected_after : {World : Type 0} → ℕ → Event World → Bool → Bool
connected_after i (player_connect id) b = (to_u32 id == i) || b
connected_after i (player_disconnect id) b = not (to_u32 id == i) && b
connected_after i _ b = b

abbrev pub connected : {World : Type 0} → ℕ → List (Event World) → Bool → Bool
connected i [] b = b
connected i (e ∷ es) b = connected i es (connected_after i e b)

abbrev is_there : Option Player → Bool
is_there none = false
is_there (some _) = true

module _ {World Float : Type 0} (env : Env World Float) where
  -- Whether an id is in the map of players.
  abbrev pub registered : ℕ → Server World → Bool
  registered i s = is_there (get_player i s.players)

  abbrev Registers : ℕ → Bool → Server World → Type 0
  Registers i b t = registered i t ≡ b

  on_event-registered :
      (i : ℕ) (e : Event World) (s : Server World)
      → EventHasPeer e
      → Inv env s
      → Returns (Registers i (connected_after i e (registered i s))) (on_event env e s)
  unfolding on_event
  on_event-registered i game_mode_init s k v = refl
  on_event-registered i game_mode_exit s k v = refl
  on_event-registered i (player_connect id) s k v =
      ground (arith, find-add_player env.samp (to_u32 id) i s.world s.players)
  on_event-registered i (player_disconnect id) s k v =
      ground (arith, find-remove_player (to_u32 id) i s.players v.players)
  on_event-registered i (process_tick cs) s k v =
      Returns-map (Stays s) (Registers i (registered i s)) _
        (λ t (_, same, _). ap (λ ps. is_there (get_player i ps)) same)
        (tick-Stays env s.ready cs s k v)
  on_event-registered i (passes w) s k v = refl

  -- From a state with the invariant, after any history in which no connection is gone when a
  -- request of it is processed: an id is in the map of players exactly if its last connection is
  -- not followed by a disconnection, or it was in the map before and the history has neither.
  -- Requests never change who is in the map.
  pub registered-run :
      (i : ℕ) (es : List (Event World)) (s : Server World)
      → All EventHasPeer es
      → Inv env s
      → Returns (λ t. registered i t ≡ connected i es (registered i s)) (run env es s)
  unfolding run
  registered-run i [] s k v = refl
  registered-run i (e ∷ es) s (k, ks) v =
      Returns-bind (λ t. Inv env t × Registers i (connected_after i e (registered i s)) t)
        (Registers i (connected i (e ∷ es) (registered i s))) (on_event env e s) (run env es)
        (Returns-both (Inv env) (Registers i (connected_after i e (registered i s))) _
          (on_event-Inv env e s k v) (on_event-registered i e s k v))
        (λ t (v', q).
          subst (λ b. Returns (Registers i (connected i es b)) (run env es t)) q
            (registered-run i es t ks v'))
