-- ===== src/Plugin/Lifecycle/Access.antt =====
-- Who is let in by a plugin that was loaded and called.
use samp_plugin_api.Prelude.{
  ◌≡◌, ◌↔◌, refl, sym, subst, ap, ◌∙◌, codes, true, List, [], ◌∷◌, Text, All, map, ℕ,
}
use mathlib.Core.Option.{some-injective}
use samp_plugin_api.Config
use samp_plugin_api.Config.{Config}
use samp_plugin_api.Players.{to_u16}
use samp_plugin_api.Codecs.{decode_body}
use samp_plugin_api.Env.{Env, Request}
use samp_plugin_api.Numbers.{number, stoul}
use samp_plugin_api.Handler.{authorize}
use samp_plugin_api.Handler.Access.{
  IsAdmitted, GivesBoth, whitelist, authorize_iff, Signs-GivesBoth_iff,
}
use samp_plugin_api.Server.{Server, Event}
use samp_plugin_api.Server.Invariant.{Inv, EventHasPeer}
use samp_plugin_api.Server.Kept.{IsKept, IsKept-trans, IsKept-of}
use samp_plugin_api.Globals.{Globals, Runs}
use samp_plugin_api.Plugin.{Outcome, refused, thrown, listening, Surroundings, load}
use samp_plugin_api.Plugin.Started.{IsStarted, StartsRight}
use samp_plugin_api.Plugin.Start.{load-StartsRight}
use samp_plugin_api.Plugin.Liveness.{CanStart, Listens, load_starts}
use samp_plugin_api.Plugin.Lifecycle.{
  load_call, event, ended, on_call, call_plugin, next_call, call_all,
}
use samp_plugin_api.Plugin.Lifecycle.Order.{Defined, Defined-map, next-Defined, on_call-Next}

module _ {World Float : Type 0} (env : Env World Float) {Sink : Type 0} where
  -- The globals run a server with the invariant that has kept its configuration and credentials.
  abbrev RunsFrom : Server World → Globals World Sink → Type 0
  RunsFrom s g = (t : Server World) × Runs g t × Inv env t × IsKept s t

  events-RunsFrom :
      (Fs : Type 0) (s : Server World) (es : List (Event World)) (g : Globals World Sink)
      → All EventHasPeer es
      → RunsFrom s g
      → Defined (RunsFrom s) (call_all env {Fs = Fs} (map event es) g)
  unfolding call_all call_plugin
  events-RunsFrom Fs s [] g ps h = h
  events-RunsFrom Fs s (e ∷ es) g (p, ps) (t, runs, v, kept) =
      next-Defined (RunsFrom s) (RunsFrom s) (on_call env e g) (call_all env (map event es))
        (on_call-Next env (RunsFrom s) e g t p runs v
          (λ g' u runs' (v', (_, kept')). (u, runs', v', IsKept-trans kept kept')))
        (λ g' h. events-RunsFrom Fs s es g' ps h)

module _ {World Float Fs Sink : Type 0} (env : Env World Float) (around : Surroundings Fs Sink)
    (c : CanStart env around) where
  -- A server lets a request in exactly by what `server.cfg` says.
  abbrev pub Guards : Request → Text → World → Server World → Type 0
  Guards req remote w t = ((authorize env t.handler t.config req remote w).1 ≡ true) ↔ (
      IsAdmitted remote (whitelist c.config)
      × GivesBoth env c.password c.seed req.target (decode_body env.codec req.body))

  number-injective : {m n : ℕ} → number m ≡ number n → m ≡ n
  number-injective e = cc

  -- The server of the plugin that `Load` has started.
  pub record IsConfigured (s : Server World) : Type 0 where
    pub config : s.config ≡ c.config
    pub password : s.handler.password ≡ c.password
    pub seed : s.handler.seed ≡ c.seed

  pub IsStarted-IsConfigured :
      (before g : Globals World Sink) (port : ℕ) (st : IsStarted env around before g port)
      → IsConfigured st.server
  IsStarted-IsConfigured before g port st =
      let same = ap (λ o. o.0) (sym st.config ∙ c.loaded) in
      let (n, e, f) = st.seed in
      record {
        config = same;
        password = some-injective _ _ (
            sym st.password
            ∙ ap (λ k. Config.get k (codes "api_password") 0) same
            ∙ c.with_password);
        seed =
            f
            ∙ number-injective (
                sym e
                ∙ ap (λ k. stoul (Config.get_default k (codes "api_seed") (codes "17733194") 0))
                    same
                ∙ c.with_seed);
      }

  Guards-of :
      (s t : Server World) (req : Request) (remote : Text) (w : World)
      → IsConfigured s
      → IsKept s t
      → Guards req remote w t
  Guards-of s t req remote w h k =
      let config : t.config ≡ c.config = k.config ∙ h.config in
      let password : t.handler.password ≡ c.password = k.credentials.password ∙ h.password in
      let seed : t.handler.seed ≡ c.seed = k.credentials.seed ∙ h.seed in
      let (there, back) = authorize_iff env t.handler t.config req remote w in
      let (in_order, in_order') =
        Signs-GivesBoth_iff env t.handler req.target (decode_body env.codec req.body) password
          seed in
      (
        λ e.
            let (a, b) = there e in
            (subst (λ k. IsAdmitted remote (whitelist k)) config a, in_order b),
        λ (a, b). back (subst (λ k. IsAdmitted remote (whitelist k)) (sym config) a, in_order' b),
      )

  started-Guards :
      (es : List (Event World)) (before : Globals World Sink) (req : Request) (remote : Text)
      (w : World) (o : Outcome World Sink)
      → All EventHasPeer es
      → StartsRight env around before o
      → Listens env around (to_u16 c.port) around.sdk_loaded o
      → Defined
          (λ g. (t : Server World) × Runs g t × Guards req remote w t)
          (next_call (ended o) (call_all env {Fs = Fs} (map event es)))
  started-Guards es before req remote w (listening g port ret) ps st l =
      Defined-map (RunsFrom env st.server) _ (call_all env {Fs = Fs} (map event es) g)
        (λ g' (t, runs, v, kept). (
          t,
          runs,
          Guards-of st.server t req remote w (IsStarted-IsConfigured before g port st) kept,
        ))
        (events-RunsFrom env Fs st.server es g ps (st.server, st.runs, st.inv, IsKept-of refl refl))
  started-Guards es before req remote w (refused g) ps st l = absurd l
  started-Guards es before req remote w (thrown g) ps st l = absurd l

  -- Where `Load` finds what it needs, and whatever callbacks follow, as long as no connection is
  -- gone when a request of it is processed: all calls return, and the plugin then lets a request in
  -- exactly if the whitelist of `server.cfg` admits its address, its body decodes, and the body
  -- gives the password of `server.cfg` and the hash of the target by the seed of `server.cfg`, or by
  -- the default seed.
  pub call_all-Guards :
      (es : List (Event World)) (before : Globals World Sink) (req : Request) (remote : Text)
      (w : World)
      → All EventHasPeer es
      → Defined
          (λ g. (t : Server World) × Runs g t × Guards req remote w t)
          (call_all env (load_call around ∷ map event es) before)
  unfolding call_all call_plugin
  call_all-Guards es before req remote w ps =
      started-Guards es before req remote w (load env around before) ps
        (load-StartsRight env around before) (load_starts env around c before)
