-- ===== src/Plugin/Started.antt =====
-- What a plugin has once `Load` of api/Api.cpp has ended.
use samp_plugin_api.Prelude.{ℕ, ◌≡◌, ◌≢◌, ◌⊎◌, true, false, some, [], Text, codes}
use samp_plugin_api.Config
use samp_plugin_api.Config.{Config, new_config}
use samp_plugin_api.Players.{to_u16}
use samp_plugin_api.Env.{Env}
use samp_plugin_api.Server.{Server}
use samp_plugin_api.Server.Invariant.{Inv}
use samp_plugin_api.Globals.{Globals, Endpoint, live, Runs}
use samp_plugin_api.Numbers.{number, stoi, stoul}
use samp_plugin_api.Plugin.{Outcome, refused, thrown, listening, Surroundings}

module _ {World Float Fs Sink : Type 0} (env : Env World Float)
    (around : Surroundings Fs Sink) where
  -- What holds of a plugin that listens: it has a server, whose handler is registered, with the
  -- first argument of `api_password` as the password, the number of `api_seed` as the seed, and the
  -- port that `api_port` names, where it listens and has an accept outstanding; the two numbers have
  -- defaults.
  pub record IsStarted (before g : Globals World Sink) (port : ℕ) : Type 0 where
    pub server : Server World
    pub runs : Runs g server
    pub inv : Inv env server
    pub ready : g.ready ≡ before.ready
    pub accepts : server.accepting ≡ true
    pub listens : server.port ≡ port
    pub config : Config.load around.file new_config ≡ (server.config, true)
    pub password : Config.get server.config (codes "api_password") 0 ≡ some server.handler.password
    pub seed :
        (n : ℕ) × (stoul (Config.get_default server.config (codes "api_seed") (codes "17733194") 0)
          ≡ number n)
        × (server.handler.seed ≡ n)
    pub port_number :
        (n : ℕ) × (stoi (Config.get_default server.config (codes "api_port") (codes "7778") 0)
          ≡ number n)
        × (port ≡ to_u16 n)
    pub bound : around.can_bind port ≡ true

  -- What holds of a plugin that has no new endpoint: the players are there, but nobody is among
  -- them.
  pub record IsIdle (before g : Globals World Sink) : Type 0 where
    pub players : g.players ≡ live []
    pub endpoint : g.endpoint ≡ before.endpoint

  -- What holds of a plugin whose `Load` has thrown when the endpoint was there: the file was read,
  -- `api_seed` is not a number, and an endpoint is left that listens on the port of `api_port`, but
  -- with no accept outstanding.
  pub record IsAbandoned (g : Globals World Sink) : Type 0 where
    pub players : g.players ≡ live []
    pub read : Config
    pub config : Config.load around.file new_config ≡ (read, true)
    pub password : (pw : Text) × (Config.get read (codes "api_password") 0 ≡ some pw)
    pub bad_seed :
        (n : ℕ) → stoul (Config.get_default read (codes "api_seed") (codes "17733194") 0) ≢ number n
    pub left : Endpoint
    pub endpoint : g.endpoint ≡ live left
    pub port_number :
        (n : ℕ) × (stoi (Config.get_default read (codes "api_port") (codes "7778") 0) ≡ number n)
        × (left.port ≡ to_u16 n)
    pub bound : around.can_bind left.port ≡ true
    pub accepts : left.accepting ≡ false

  abbrev pub StartsRight : Globals World Sink → Outcome World Sink → Type 0
  StartsRight before (listening g port _) = IsStarted before g port
  StartsRight before (refused g) = IsIdle before g
  StartsRight before (thrown g) = IsIdle before g ⊎ IsAbandoned g
