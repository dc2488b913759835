-- ===== src/Plugin/Printed.antt =====
-- A plugin that is started from a `server.cfg` in which its entries are written out.
use samp_plugin_api.Prelude.{
  ℕ, ◌^◌, ◌<◌, ◌≡◌, ◌↔◌, refl, subst, ap, ◌∙◌, true, Option, some, List, [], ◌∷◌, Text, codes, All,
  map, arith,
}
use samp_plugin_api.Prelude.OrdMap
use samp_plugin_api.Config
use samp_plugin_api.Config.{Config, new_config, at_pos, appended, or_default}
use samp_plugin_api.Config.Printing.{print, IsPrintable, load-print}
use samp_plugin_api.Players.{to_u16}
use samp_plugin_api.Codecs.{decode_body}
use samp_plugin_api.Env.{Env, Request}
use samp_plugin_api.Numbers.{stoi, stoul}
use samp_plugin_api.Numbers.Digits.{IsDecimal, value, stoi-number, stoul-number}
use samp_plugin_api.Handler.{authorize}
use samp_plugin_api.Handler.Access.{IsAdmitted, GivesBoth, whitelist}
use samp_plugin_api.Log.{open_log}
use samp_plugin_api.Server.{Server, Event}
use samp_plugin_api.Server.Invariant.{EventHasPeer}
use samp_plugin_api.Globals.{Globals, Runs}
use samp_plugin_api.Plugin.{Surroundings, load}
use samp_plugin_api.Plugin.Liveness.{CanStart, Listens, load_starts}
use samp_plugin_api.Plugin.Lifecycle.{load_call, event, call_all}
use samp_plugin_api.Plugin.Lifecycle.Order.{Defined}
use samp_plugin_api.Plugin.Lifecycle.Access.{call_all-Guards}

-- The first argument of a key, and its arguments, in the entries that were written out.
abbrev pub argument : Text → List (Text × List Text) → Option Text
argument k es = at_pos (OrdMap.find k es) 0

abbrev pub arguments : Text → List (Text × List Text) → List Text
arguments k es = (appended (OrdMap.find k es) []).0

module _ {World Float Fs Sink : Type 0} (env : Env World Float)
    (around : Surroundings Fs Sink) where
  -- The log opens, the file holds the entries, which give a password, and a port and a seed in
  -- digits that are small enough, and the port can be bound.
  pub record IsWritten (es : List (Text × List Text)) (password port seed : Text) : Type 0 where
    pub logged : (open_log around.files around.fs).2 ≡ some true
    pub file : around.file ≡ some (print es)
    pub printable : All IsPrintable es
    pub with_password : argument (codes "api_password") es ≡ some password
    pub with_port : argument (codes "api_port") es ≡ some port
    pub with_seed : argument (codes "api_seed") es ≡ some seed
    pub port_digits : IsDecimal port
    pub seed_digits : IsDecimal seed
    pub port_small : value 0 port < 2 ^ 16
    pub seed_small : value 0 seed < 2 ^ 32
    pub bound : around.can_bind (value 0 port) ≡ true

  -- A server lets a request in exactly by a whitelist, a password and a seed.
  abbrev pub Enforces : List Text → Text → ℕ → Request → Text → World → Server World → Type 0
  Enforces ips password seed req remote w t =
      ((authorize env t.handler t.config req remote w).1 ≡ true) ↔ (
        IsAdmitted remote ips
        × GivesBoth env password seed req.target (decode_body env.codec req.body))

  module _ (es : List (Text × List Text)) (password port seed : Text)
      (i : IsWritten es password port seed) where
    abbrev read : Config
    read = (Config.load (some (print es)) new_config).0

    get-argument : (k : Text) → Config.get read k 0 ≡ argument k es
    unfolding Config.get
    get-argument k = ap (λ o. at_pos o 0) (load-print k es i.printable)

    get_default-argument :
        (k def t : Text) → argument k es ≡ some t → Config.get_default read k def 0 ≡ t
    unfolding Config.get_default
    get_default-argument k def t e = ap (λ o. or_default o def) (get-argument k ∙ e)

    read_loaded : Config.load around.file new_config ≡ (read, true)
    unfolding Config.load
    read_loaded = rw (i.file) refl

    whitelist-arguments : whitelist read ≡ arguments (codes "api_ip_whitelist") es
    unfolding Config.get_args
    whitelist-arguments = ap (λ o. (appended o []).0) (load-print _ es i.printable)

    port_fits : to_u16 (value 0 port) ≡ value 0 port
    port_fits = omega (arith, i.port_small)

    can_start : CanStart env around
    can_start = record {
      config = read;
      password = password;
      port = value 0 port;
      seed = value 0 seed;
      logged = i.logged;
      loaded = read_loaded;
      with_password = get-argument (codes "api_password") ∙ i.with_password;
      with_port =
          ap stoi (get_default-argument (codes "api_port") (codes "7778") port i.with_port)
          ∙ stoi-number port i.port_digits (omega (arith, i.port_small));
      bound = ap around.can_bind port_fits ∙ i.bound;
      with_seed =
          ap stoul (get_default-argument (codes "api_seed") (codes "17733194") seed i.with_seed)
          ∙ stoul-number seed i.seed_digits i.seed_small;
    }

    -- What is written in `server.cfg` is what holds. Where the log opens, the file holds entries
    -- with a password, and with a port under 2 ^ 16 and a seed under 2 ^ 32 in digits, and the port
    -- can be bound: `Load` listens on that port. After any callbacks, in which no connection is gone
    -- when a request of it is processed, the plugin lets a request in exactly if the whitelist of
    -- the entries admits its address, its body decodes, and it gives the password of the entries and
    -- the hash of the target by their seed.
    pub load-IsWritten :
        (calls : List (Event World)) (before : Globals World Sink) (req : Request) (remote : Text)
        (w : World)
        → All EventHasPeer calls
        → Listens env around (value 0 port) around.sdk_loaded (load env around before)
          × Defined
              (λ g.
                (t : Server World) × Runs g t
                × Enforces
                    (arguments (codes "api_ip_whitelist") es)
                    password
                    (value 0 seed)
                    req
                    remote
                    w
                    t)
              (call_all env (load_call around ∷ map event calls) before)
    unfolding can_start
    load-IsWritten calls before req remote w ps = (
      subst (λ n. Listens env around n around.sdk_loaded (load env around before)) port_fits
          (load_starts env around can_start before),
      subst
          (λ ips.
            Defined
              (λ g.
                (t : Server World) × Runs g t × Enforces ips password (value 0 seed) req remote w t)
              (call_all env (load_call around ∷ map event calls) before))
          whitelist-arguments (call_all-Guards env around can_start calls before req remote w ps),
    )
