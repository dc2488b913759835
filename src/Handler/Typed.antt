-- ===== src/Handler/Typed.antt =====
-- The objects that are answered against their schemas.
use samp_plugin_api.Prelude.{ℕ, ◌<◌, ◌^◌, ◌≡◌, List, ◌++◌, arith}
use samp_plugin_api.Config.{Config}
use samp_plugin_api.Players.{to_u16, to_u32}
use samp_plugin_api.Messages.{Object}
use samp_plugin_api.Env.{Env, Response}
use samp_plugin_api.Handler.{Handler, elapsed}
use samp_plugin_api.Handler.Schema.{Schema, IsTyped}

elapsed-lt : (ticks p now : ℕ) → elapsed ticks p now < 2 ^ 32
unfolding elapsed
elapsed-lt ticks p now = ground arith

to_u32-lt : (n : ℕ) → to_u32 n < 2 ^ 32
to_u32-lt n = omega arith

to_u16-lt : (n : ℕ) → to_u16 n < 2 ^ 16
to_u16-lt n = omega arith

ruleset width_rules = (to_u16-lt, to_u32-lt, elapsed-lt)

module _ {World Float : Type 0} (env : Env World Float) where
  open env use {samp}

  -- An object of a schema was appended to the body.
  pub record Writes (s : Schema) (response response' : Response) : Type 0 where
    pub object : Object Float
    pub body : response'.body ≡ response.body ++ env.codec.encode object
    typed : IsTyped s object
