-- ===== src/Server/Polling.antt =====
-- One rule for what a tick keeps: what each completion keeps.
use samp_plugin_api.Prelude.{Bool, true, false, List, [], ◌∷◌, All, if◌then◌else◌}
use samp_plugin_api.Env.{Env}
use samp_plugin_api.Route.{ok, Returns, Returns-bind}
use samp_plugin_api.Server.{Server, Completion, complete, poll}

module _ {World Float : Type 0} (env : Env World Float) (P : Server World → Type 0)
    (Q : Completion → Type 0)
    (keep : (c : Completion) (s : Server World) → Q c → P s → Returns P (complete env c s)) where
  poll_keeps :
      (cs : List Completion) (s : Server World) → All Q cs → P s → Returns P (poll env cs s)
  unfolding poll
  poll_keeps [] s q p = p
  poll_keeps (c ∷ cs) s (q, qs) p =
      Returns-bind P P (complete env c s) (poll env cs) (keep c s q p)
        (λ t p'. poll_keeps cs t qs p')

  pub tick_keeps :
      (b : Bool) (cs : List Completion) (s : Server World)
      → All Q cs
      → P s
      → Returns P (if b then poll env cs s else ok s)
  tick_keeps true cs s q p = poll_keeps cs s q p
  tick_keeps false cs s q p = p
