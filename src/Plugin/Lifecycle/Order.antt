-- ===== src/Plugin/Lifecycle/Order.antt =====
-- The order in which the game server calls the plugin, as a relation, and what holds along it.
use samp_plugin_api.Prelude.{◌≡◌, refl, sym, subst, ap, ◌∙◌, Bool, false, some, List, [], ◌∷◌}
use samp_plugin_api.Env.{Env}
use samp_plugin_api.Route.{Checked, ok, regex_error, out_of_range, system_error, Returns}
use samp_plugin_api.Log.{Log, Logger}
use samp_plugin_api.Server.{
  Server, Completion, Event, game_mode_exit, process_tick, passes, on_event,
}
use samp_plugin_api.Server.Invariant.{Inv, EventHasPeer}
use samp_plugin_api.Server.Kept.{ready_after, Next, on_event-Next}
use samp_plugin_api.Globals.{Globals, Pointer, live, null, deleted, get_logger, Runs}
use samp_plugin_api.Plugin.{Outcome, refused, thrown, listening, Surroundings, load}
use samp_plugin_api.Plugin.Started.{StartsRight}
use samp_plugin_api.Plugin.Start.{load-StartsRight}
use samp_plugin_api.Plugin.Liveness.{CanStart, Listens, load_starts}
use samp_plugin_api.Plugin.Lifecycle.{
  Ended, went, threw, undefined, Call, load_call, unload_call, event, ended, unload, shut_down,
  on_call, call_plugin, next_call, call_all,
}
use samp_plugin_api.Plugin.Lifecycle.Refinement.{Follows, on_call-Follows}

-- Whether the plugin is loaded, and its flag `ready`.
pub data Stage : Type 0 where
  outside inside : Bool → Stage

module _ {World Sink : Type 0} where
  -- The call returns, and the globals have the property.
  abbrev pub Defined : (Globals World Sink → Type 0) → Ended World Sink → Type 0
  Defined P (went g) = P g
  Defined P _ = ⊥

  pub Defined-map :
      (P Q : Globals World Sink → Type 0) (n : Ended World Sink)
      → ((g : Globals World Sink) → P g → Q g)
      → Defined P n
      → Defined Q n
  Defined-map P Q (went g) k h = k g h
  Defined-map P Q threw k h = h
  Defined-map P Q undefined k h = h

  unload-Holds :
      (r : Bool) (p : Pointer (Log Sink)) (g : Globals World Sink)
      → (l : Logger Sink) × (get_logger p ≡ some l)
      → g.ready ≡ r
      → Defined (λ t. t.ready ≡ r) (shut_down p g)
  unload-Holds r (live _) g l e = e
  unload-Holds r null g l e = cc
  unload-Holds r deleted g l e = cc

  pub next-Defined :
      (P Q : Globals World Sink → Type 0) (n : Ended World Sink)
      (k : Globals World Sink → Ended World Sink)
      → Defined P n
      → ((g : Globals World Sink) → P g → Defined Q (k g))
      → Defined Q (next_call n k)
  next-Defined P Q (went g) k h f = f g h
  next-Defined P Q threw k h f = h
  next-Defined P Q undefined k h f = h

module _ {World Float : Type 0} (env : Env World Float) {Sink : Type 0} where
  -- What a stage says of the globals.
  abbrev pub Holds : Stage → Globals World Sink → Type 0
  Holds (outside r) g = g.ready ≡ r
  Holds (inside r) g = (s : Server World) × Runs g s × Inv env s × (g.ready ≡ r)

  Follows-Defined :
      (P : Server World → Type 0) (Q : Globals World Sink → Type 0) (n : Ended World Sink)
      (r : Checked (Server World))
      → Follows env n r
      → Returns P r
      → ((g : Globals World Sink) (t : Server World) → Runs g t → P t → Q g)
      → Defined Q n
  Follows-Defined P Q (went g) (ok t) f v k = k g t f v
  Follows-Defined P Q threw (ok t) f v k = absurd f
  Follows-Defined P Q undefined (ok t) f v k = absurd f
  Follows-Defined P Q n regex_error f v k = absurd v
  Follows-Defined P Q n out_of_range f v k = absurd v
  Follows-Defined P Q n system_error f v k = absurd v

  pub on_call-Next :
      (Q : Globals World Sink → Type 0) (e : Event World) (g : Globals World Sink)
      (s : Server World)
      → EventHasPeer e
      → Runs g s
      → Inv env s
      → ((g' : Globals World Sink) (t : Server World) → Runs g' t → Next env e s t → Q g')
      → Defined Q (on_call env e g)
  on_call-Next Q e g s p runs v k =
      Follows-Defined (Next env e s) Q (on_call env e g) (on_event env e s)
        (on_call-Follows env e g s runs) (on_event-Next env e s p v) k

module _ {World Float : Type 0} (env : Env World Float) {Fs Sink : Type 0} where
  -- A loaded plugin is called in any order, as long as no connection is gone when a request of it is
  -- processed, until it is unloaded. Before it is loaded and after that, the game server changes by
  -- itself, ends a game mode, and calls `ProcessTick` where the game mode has ended.
  pub data Move : Stage → Call World Fs Sink → Stage → Type 0 where
    loads :
        {r : Bool} (around : Surroundings Fs Sink)
        → CanStart env around
        → Move (outside r) (load_call around) (inside r)
    happens :
        {r : Bool} (e : Event World)
        → EventHasPeer e
        → Move (inside r) (event e) (inside (ready_after e r))
    unloads : {r : Bool} → Move (inside r) unload_call (outside r)
    ends : {r : Bool} → Move (outside r) (event game_mode_exit) (outside false)
    idles : (cs : List Completion) → Move (outside false) (event (process_tick cs)) (outside false)
    waits : {r : Bool} (w : World) → Move (outside r) (event (passes w)) (outside r)

  pub data Ordered : Stage → List (Call World Fs Sink) → Stage → Type 0 where
    done : {s : Stage} → Ordered s [] s
    next :
        {s t u : Stage} {c : Call World Fs Sink} {cs : List (Call World Fs Sink)}
        → Move s c t
        → Ordered t cs u
        → Ordered s (c ∷ cs) u

  started-Holds :
      (around : Surroundings Fs Sink) (c : CanStart env around) (g : Globals World Sink) (r : Bool)
      (o : Outcome World Sink)
      → load env around g ≡ o
      → g.ready ≡ r
      → StartsRight env around g o
      → Defined (Holds env (inside r)) (ended o)
  started-Holds around c g r (listening g' port ret) e q h = (h.server, h.runs, h.inv, h.ready ∙ q)
  started-Holds around c g r (refused g') e q h =
      absurd (subst (Listens env around _ _) e (load_starts env around c g))
  started-Holds around c g r (thrown g') e q h =
      absurd (subst (Listens env around _ _) e (load_starts env around c g))

  Move-Holds :
      {a b : Stage} {c : Call World Fs Sink} (g : Globals World Sink)
      → Move a c b
      → Holds env a g
      → Defined (Holds env b) (call_plugin env c g)
  unfolding call_plugin unload on_call
  Move-Holds g (loads {r} around c) h =
      started-Holds around c g r (load env around g) refl h (load-StartsRight env around g)
  Move-Holds g (happens {r} e k) (s, runs, inv, q) =
      on_call-Next env (Holds env (inside (ready_after e r))) e g s k runs inv
        (λ g' t runs' (inv', (e', _)).
          (t, runs', inv', runs'.ready ∙ e' ∙ ap (ready_after e) (sym runs.ready ∙ q)))
  Move-Holds g (unloads {r}) (s, runs, inv, q) =
      simp (runs.service) (unload-Holds r g.logger _ runs.logger q)
  Move-Holds g ends h = refl
  Move-Holds g (idles cs) h = simp h refl
  Move-Holds g (waits w) h = h

  -- In every ordered history, from globals that fit its first stage, each call returns: none throws,
  -- and none goes through a pointer that is null or deleted. The globals fit the last stage; where
  -- the plugin is loaded then, they point to a server with its invariant.
  pub call_all-Defined :
      {a b : Stage} {cs : List (Call World Fs Sink)} (g : Globals World Sink)
      → Ordered a cs b
      → Holds env a g
      → Defined (Holds env b) (call_all env cs g)
  unfolding call_all
  call_all-Defined g done h = h
  call_all-Defined g (next {t = t} {c = c} {cs = cs} m o) h =
      next-Defined (Holds env t) _ (call_plugin env c g) (call_all env cs) (Move-Holds g m h)
        (λ g' h'. call_all-Defined g' o h')
