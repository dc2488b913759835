-- ===== src/Handler/Schema.antt =====
-- The JSON objects of the answers by the types of the structs that they are made of, of Types.hpp and
-- SampTypes.hpp.
use samp_plugin_api.Prelude.{
  ℕ, ◌<◌, ◌^◌, ◌≡◌, Bool, true, Option, some, List, [], ◌∷◌, Text, codes, All,
}
use samp_plugin_api.Messages.{Value, text, num, real, flag, Field, Object}
use samp_plugin_api.Route.{Match}
use samp_plugin_api.Handler.{RouteHandler, on_player_list, on_settings_list}

-- The types of the members of the structs; an unsigned integer has a number of bits.
pub data MemberType : Type 0 where
  string_type float_type bool_type : MemberType
  unsigned : ℕ → MemberType

abbrev Members : Type 0
Members = List (Text × MemberType)

-- The members of an object, and of the elements of each array in it.
pub record Schema : Type 0 where
  pub members : Members
  arrays : List (Text × Members)

abbrev pub message_schema : Schema
message_schema = record {
  members =
      (codes "type", string_type)
      ∷ (codes "code", unsigned 32)
      ∷ (codes "message", string_type)
      ∷ (codes "response_time", unsigned 32)
      ∷ [];
  arrays = [];
}

abbrev pub player_members : Members
player_members =
    (codes "name", string_type)
    ∷ (codes "x", float_type)
    ∷ (codes "y", float_type)
    ∷ (codes "z", float_type)
    ∷ (codes "health", float_type)
    ∷ (codes "armor", float_type)
    ∷ (codes "skin", unsigned 16)
    ∷ (codes "score", unsigned 32)
    ∷ (codes "ip", string_type)
    ∷ (codes "ping", unsigned 16)
    ∷ (codes "vehicleID", unsigned 32)
    ∷ (codes "isNpc", bool_type)
    ∷ []

abbrev pub players_schema : Schema
players_schema = record {
  members =
      (codes "type", string_type)
      ∷ (codes "code", unsigned 32)
      ∷ (codes "count", unsigned 32)
      ∷ (codes "message", string_type)
      ∷ (codes "time", unsigned 32)
      ∷ [];
  arrays = (codes "players", player_members) ∷ [];
}

abbrev pub settings_schema : Schema
settings_schema = record {
  members =
      (codes "type", string_type)
      ∷ (codes "code", unsigned 32)
      ∷ (codes "message", string_type)
      ∷ (codes "time", unsigned 32)
      ∷ (codes "tickcount", unsigned 32)
      ∷ (codes "tickrate", unsigned 32)
      ∷ (codes "gravity", float_type)
      ∷ (codes "apoolsize", unsigned 32)
      ∷ (codes "vpoolsize", unsigned 32)
      ∷ (codes "maxplayers", unsigned 32)
      ∷ [];
  arrays = [];
}

abbrev pub schema_of : RouteHandler → Schema
schema_of on_player_list = players_schema
schema_of on_settings_list = settings_schema
schema_of _ = message_schema

-- The schema of the answer to a request, by whether it is authorised and where it is routed.
abbrev pub schema_for : Bool → Option (RouteHandler × Match) → Schema
schema_for true (some (f, m)) = schema_of f
schema_for _ _ = message_schema

module _ {Float : Type 0} where
  abbrev HasType : Value Float → MemberType → Type 0
  HasType (text _) string_type = Unit
  HasType (real _) float_type = Unit
  HasType (flag _) bool_type = Unit
  HasType (num n) (unsigned w) = n < 2 ^ w
  HasType _ _ = ⊥

  abbrev pub Fits : Members → List (Field Float) → Type 0
  Fits [] [] = Unit
  Fits ((n, t) ∷ ms) (f ∷ fs) = (f.name ≡ n) × (HasType f.value t × Fits ms fs)
  Fits _ _ = ⊥

  abbrev FitArrays : List (Text × Members) → List (Text × List (List (Field Float))) → Type 0
  FitArrays [] [] = Unit
  FitArrays ((n, ms) ∷ ss) ((m, rows) ∷ bs) = (m ≡ n) × (All (Fits ms) rows × FitArrays ss bs)
  FitArrays _ _ = ⊥

  abbrev pub IsTyped : Schema → Object Float → Type 0
  IsTyped s o = Fits s.members o.fields × FitArrays s.arrays o.rows
