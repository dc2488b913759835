-- ===== src/Plugin/Start.antt =====
-- `Load` of api/Api.cpp: when the plugin starts, and what it has then.
use samp_plugin_api.Prelude.{
  ℕ, ◌≡◌, ◌≢◌, ◌∙◌, sym, inl, inr, refl, Bool, true, false, Option, none, some, [], Text, codes,
  arith, Bool-cases,
}
use samp_plugin_api.Config
use samp_plugin_api.Config.{Config, new_config}
use samp_plugin_api.Players.{to_u16, to_u32}
use samp_plugin_api.Env.{Env}
use samp_plugin_api.Route.{new_route}
use samp_plugin_api.Handler.Table.{register_functions_lem}
use samp_plugin_api.Handler.Dispatch.{IsRegistered}
use samp_plugin_api.Log.{Log, Logger, open_log}
use samp_plugin_api.Log.Opening.{Opened, open_log-Opened}
use samp_plugin_api.Globals.{Globals, live, get_logger}
use samp_plugin_api.Numbers.{Number, number, invalid_argument, out_of_range, stoi, stoul}
use samp_plugin_api.Numbers.Bounds.{stoul-lt}
use samp_plugin_api.Plugin.Started.{IsIdle, IsAbandoned, StartsRight}
use samp_plugin_api.Plugin.{
  Surroundings, new_handler, new_endpoint, load_seed, load_endpoint, with_password, load_config,
  load_log, load, set_password, set_seed,
}

new_handler-IsRegistered :
    (pw : Text) (unset seed : ℕ)
    → IsRegistered (set_seed seed (set_password pw (new_handler unset)))
unfolding new_handler
new_handler-IsRegistered pw unset seed =
    rw
      (register_functions_lem
        (record { password = []; seed = unset; routes = []; route = new_route }) refl)
      (record { routes = refl; no_cache = refl })

module _ {World Float Fs Sink : Type 0} (env : Env World Float)
    (around : Surroundings Fs Sink) where
  module _ (before : Globals World Sink) where
    -- The globals when `Load` has read the configuration.
    record IsReading (read : Config) (g : Globals World Sink) : Type 0 where
      players : g.players ≡ live []
      endpoint : g.endpoint ≡ before.endpoint
      logger : (l : Logger Sink) × (get_logger g.logger ≡ some l)
      config : g.config ≡ live read
      service : g.service ≡ true
      ready : g.ready ≡ before.ready

    idle :
        (config : Config) (g : Globals World Sink) → IsReading config g → IsIdle env around before g
    idle config g r = record { players = r.players; endpoint = r.endpoint }

    module _ (config : Config) (loaded : Config.load around.file new_config ≡ (config, true)) where
      abbrev port_text : Text
      port_text = Config.get_default config (codes "api_port") (codes "7778") 0

      abbrev seed_text : Text
      seed_text = Config.get_default config (codes "api_seed") (codes "17733194") 0

      abandoned :
          (pw : Text) (n : ℕ) (g : Globals World Sink)
          → Config.get config (codes "api_password") 0 ≡ some pw
          → stoi port_text ≡ number n
          → around.can_bind (to_u16 (to_u32 n)) ≡ true
          → IsReading config g
          → ((k : ℕ) → stoul seed_text ≢ number k)
          → IsAbandoned env around
              (record g { endpoint = live (new_endpoint env around (to_u16 (to_u32 n)) pw) })
      abandoned pw n g p q b r bad = record {
        players = r.players;
        read = config;
        config = loaded;
        password = (pw, p);
        bad_seed = bad;
        left = new_endpoint env around (to_u16 (to_u32 n)) pw;
        endpoint = refl;
        port_number = (n, q, omega arith);
        bound = b;
        accepts = refl;
      }

      load_seed-StartsRight :
          (pw : Text) (n : ℕ) (g : Globals World Sink)
          → Config.get config (codes "api_password") 0 ≡ some pw
          → stoi port_text ≡ number n
          → around.can_bind (to_u16 (to_u32 n)) ≡ true
          → IsReading config g
          → (o : Number) → stoul seed_text ≡ o
          → StartsRight env around before (
              load_seed env around port_text
                (to_u16 (to_u32 n))
                seed_text
                (new_endpoint env around (to_u16 (to_u32 n)) pw)
                g)
      unfolding load_seed
      load_seed-StartsRight pw n g p q b r (number k) e =
          rw (e, load_seed)
            (record {
              server = record {
                ready = g.ready;
                config = config;
                players = [];
                handler = set_seed (to_u32 k) (set_password pw (new_handler around.unset_seed));
                manager = record { sessions = []; heap = [] };
                next = 0;
                port = to_u16 (to_u32 n);
                accepting = true;
                world = _;
              };
              runs = record {
                logger = r.logger;
                config = r.config;
                players = r.players;
                endpoint = refl;
                service = r.service;
                ready = refl;
                world = refl;
              };
              inv = record {
                registered = new_handler-IsRegistered pw around.unset_seed (to_u32 k);
                players = tt;
                distinct = tt;
                managed = tt;
              };
              ready = r.ready;
              accepts = refl;
              listens = refl;
              config = loaded;
              password = p;
              seed = (k, e, omega (arith, stoul-lt seed_text k e));
              port_number = (n, q, omega arith);
              bound = b;
            })
      load_seed-StartsRight pw n g p q b r invalid_argument e =
          rw (e, load_seed) (inr (abandoned pw n g p q b r (λ k f. cc (sym e ∙ f))))
      load_seed-StartsRight pw n g p q b r out_of_range e =
          rw (e, load_seed) (inr (abandoned pw n g p q b r (λ k f. cc (sym e ∙ f))))

      load_endpoint-StartsRight :
          (pw : Text) (g : Globals World Sink)
          → Config.get config (codes "api_password") 0 ≡ some pw
          → IsReading config g
          → (o : Number) → stoi port_text ≡ o
          → StartsRight env around before (load_endpoint env around port_text seed_text pw g)
      unfolding load_endpoint
      load_endpoint-StartsRight pw g p r (number n) e =
          rw (e, load_endpoint)
            (elim (Bool-cases (around.can_bind (to_u16 (to_u32 n)))) [
              | inl b ↦ rw b (load_seed-StartsRight pw n g p e b r (stoul seed_text) refl)
              | inr b ↦ rw b (inl (idle config g r))
            ])
      load_endpoint-StartsRight pw g p r invalid_argument e =
          rw (e, load_endpoint) (inl (idle config g r))
      load_endpoint-StartsRight pw g p r out_of_range e =
          rw (e, load_endpoint) (inl (idle config g r))

      with_password-StartsRight :
          (o : Option Text) (g : Globals World Sink)
          → Config.get config (codes "api_password") 0 ≡ o
          → IsReading config g
          → StartsRight env around before (with_password env around port_text seed_text o g)
      with_password-StartsRight none g e r = record { players = r.players; endpoint = r.endpoint }
      with_password-StartsRight (some pw) g e r =
          load_endpoint-StartsRight pw g e r (stoi port_text) refl

    load_config-StartsRight :
        (c : Config × Bool) (g : Globals World Sink)
        → Config.load around.file new_config ≡ c
        → g.players ≡ live []
        → g.endpoint ≡ before.endpoint
        → g.ready ≡ before.ready
        → (l : Logger Sink) × (get_logger g.logger ≡ some l)
        → StartsRight env around before (load_config env around c g)
    unfolding load_config
    load_config-StartsRight (config, false) g e p q k l = record { players = p; endpoint = q }
    load_config-StartsRight (config, true) g e p q k l =
        with_password-StartsRight config e (Config.get config (codes "api_password") 0) _ refl
          (record {
            players = p;
            endpoint = q;
            logger = l;
            config = refl;
            service = refl;
            ready = k;
          })

    load_log-StartsRight :
        (checked : Fs × Option Bool) (out : Fs × Log Sink × Option Bool) (g : Globals World Sink)
        → Opened around.files checked out
        → g.players ≡ live []
        → g.endpoint ≡ before.endpoint
        → g.ready ≡ before.ready
        → StartsRight env around before (load_log env around out g)
    unfolding load_log
    load_log-StartsRight c (fs, log, none) g o p q k = inl (record { players = p; endpoint = q })
    load_log-StartsRight c (fs, log, some false) g o p q k = record { players = p; endpoint = q }
    load_log-StartsRight c (fs, log, some true) g (inl (e, _, _)) p q k = cc
    load_log-StartsRight c (fs, log, some true) g (inr (inl (e, _, _))) p q k = cc
    load_log-StartsRight c (fs, log, some true) g (inr (inr (sink, e, _, _, l))) p q k =
        load_config-StartsRight (Config.load around.file new_config) _ refl p q k (_, l)

  pub load-StartsRight : (g : Globals World Sink) → StartsRight env around g (load env around g)
  unfolding load
  load-StartsRight g =
      let (checked, _, opened) = open_log-Opened around.files around.fs in
      load_log-StartsRight g checked (open_log around.files around.fs) _ opened refl refl refl
