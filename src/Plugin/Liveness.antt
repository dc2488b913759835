-- ===== src/Plugin/Liveness.antt =====
-- What is enough for `Load` to start the plugin.
use samp_plugin_api.Prelude.{
  ℕ, ◌≡◌, refl, sym, subst, Bool, true, false, Option, none, some, [], ◌∷◌, Text, codes, arith,
}
use samp_plugin_api.Config
use samp_plugin_api.Config.{Config, new_config}
use samp_plugin_api.Players.{to_u16, to_u32}
use samp_plugin_api.Env.{Env, str}
use samp_plugin_api.Log.{Log, open_log}
use samp_plugin_api.Globals.{Globals, Endpoint, live}
use samp_plugin_api.Numbers.{number, stoi, stoul}
use samp_plugin_api.Numbers.Bounds.{stoi-lt}
use samp_plugin_api.Plugin.{
  Outcome, listening, Surroundings, load_seed, load_endpoint, load_config, load_log, load,
  new_endpoint, set_seed,
}

module _ {World Float Fs Sink : Type 0} (env : Env World Float)
    (around : Surroundings Fs Sink) where
  -- What `Load` needs to start the plugin: the log opens, the file is read and holds a password, the
  -- port and the seed are numbers, and the port can be bound.
  pub record CanStart : Type 0 where
    pub config : Config
    pub password : Text
    pub port : ℕ
    pub seed : ℕ
    pub logged : (open_log around.files around.fs).2 ≡ some true
    pub loaded : Config.load around.file new_config ≡ (config, true)
    pub with_password : Config.get config (codes "api_password") 0 ≡ some password
    pub with_port :
        stoi (Config.get_default config (codes "api_port") (codes "7778") 0) ≡ number port
    pub bound : around.can_bind (to_u16 port) ≡ true
    pub with_seed :
        stoul (Config.get_default config (codes "api_seed") (codes "17733194") 0) ≡ number seed

  abbrev pub Listens : ℕ → Bool → Outcome World Sink → Type 0
  Listens port ret (listening g port' ret') = (port' ≡ port) × (ret' ≡ ret)
  Listens port ret _ = ⊥

  module _ (c : CanStart) where
    -- The endpoint of a plugin that has just started, and the line that it logs.
    abbrev pub fresh : Endpoint
    fresh = record (new_endpoint env around (to_u16 c.port) c.password) {
      handler =
          set_seed (to_u32 c.seed) (new_endpoint env around (to_u16 c.port) c.password).handler;
      accepting = true;
    }

    abbrev pub greet : World → World
    greet w =
        env.samp.log_info
          (env.format (codes "[SA-MP API] Starting listening on port {}.")
            (str (Config.get_default c.config (codes "api_port") (codes "7778") 0) ∷ []))
          w

    -- The globals after `Load`.
    abbrev pub opened : Globals World Sink → Globals World Sink
    opened g = record g {
      logger = live (open_log around.files around.fs).1;
      config = live c.config;
      players = live [];
      service = true;
      endpoint = live fresh;
      world = greet g.world;
    }

    abbrev listens : Globals World Sink → Outcome World Sink
    listens g = listening g (to_u16 c.port) around.sdk_loaded

    endpoint_starts :
        (g : Globals World Sink)
        → load_endpoint env around
            (Config.get_default c.config (codes "api_port") (codes "7778") 0)
            (Config.get_default c.config (codes "api_seed") (codes "17733194") 0)
            c.password
            g
          ≡ listens (record g { endpoint = live fresh; world = greet g.world })
    unfolding load_endpoint load_seed
    endpoint_starts g =
        let small : to_u32 c.port ≡ c.port = omega (
          arith,
          stoi-lt (Config.get_default c.config (codes "api_port") (codes "7778") 0) c.port
              c.with_port,
        ) in
        rw (c.with_port, load_endpoint) (rw small (rw c.bound (rw (c.with_seed, load_seed) refl)))

    config_starts :
        (o : Config × Bool) (g : Globals World Sink)
        → o ≡ (c.config, true)
        → load_config env around o g
          ≡ listens (record g {
            config = live c.config;
            service = true;
            endpoint = live fresh;
            world = greet g.world;
          })
    unfolding load_config
    config_starts o g e = rw (e, c.with_password) (endpoint_starts _)

    log_starts :
        (out : Fs × Log Sink × Option Bool) (g : Globals World Sink)
        → out.2 ≡ some true
        → load_log env around out g
          ≡ listens (record g {
            logger = live out.1;
            config = live c.config;
            service = true;
            endpoint = live fresh;
            world = greet g.world;
          })
    unfolding load_log
    log_starts (fs, log, some true) g e = config_starts _ _ c.loaded
    log_starts (fs, log, some false) g e = cc
    log_starts (fs, log, none) g e = cc

    -- `Load`, where the log opened, the file was read and holds a password, the port and the seed
    -- are numbers, and the port can be bound.
    pub load_lem : (g : Globals World Sink) → load env around g ≡ listens (opened g)
    unfolding load
    load_lem g = log_starts (open_log around.files around.fs) _ c.logged

    -- The plugin then listens on the port, and `Load` returns the SDK's result.
    pub load_starts :
        (g : Globals World Sink) → Listens (to_u16 c.port) around.sdk_loaded (load env around g)
    load_starts g =
        subst (Listens (to_u16 c.port) around.sdk_loaded) (sym (load_lem g)) (refl, refl)
