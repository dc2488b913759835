-- ===== src/Messages.antt =====
-- api/Types.hpp and api/SampTypes.hpp: the requests, the messages, and the JSON objects that the
-- codecs make of the messages.
use samp_plugin_api.Prelude.{
  ℕ, Bool, true, false, Option, none, some, List, [], ◌∷◌, map, Text, codes,
}
use samp_plugin_api.Players.{PlayerData}

pub record BodyRequest : Type 0 where
  pub password : Text
  pub hash : ℕ

-- `color` is the bit pattern of an `int`.
pub record SayRequest : Type 0 where
  pub color : ℕ
  pub name : Text
  pub message : Text

pub record SimpleRequest : Type 0 where
  pub value : Text

pub record SimpleIntRequest : Type 0 where
  pub value : ℕ

pub record GravityRequest (Float : Type 0) : Type 0 where
  pub gravity : Float

-- `time` has no value where the request gives none.
pub record IpRequest : Type 0 where
  pub address : Text
  pub time : Option ℕ

-- `time` has no value until `Finalize` writes it.
pub record Message : Type 0 where
  pub type : Text
  pub code : ℕ
  pub message : Text
  pub time : Option ℕ

-- A `Message` as its constructor leaves it.
abbrev pub new_message : Message
new_message = record { type = []; code = 200; message = []; time = none }

pub record PlayerMessage (Float : Type 0) : Type 0 where
  pub base : Message
  pub players : List (PlayerData Float)
  pub count : Option ℕ

pub record Settings (Float : Type 0) : Type 0 where
  pub tickcount : ℕ
  pub tickrate : ℕ
  pub gravity : Float
  pub apoolsize : ℕ
  pub vpoolsize : ℕ
  pub maxplayers : ℕ

-- The members of a `SettingsMessage` beside the base have no value until the handler writes them.
pub record SettingsMessage (Float : Type 0) : Type 0 where
  pub base : Message
  pub settings : Option (Settings Float)

-- A value of a JSON field; `unset` is a number that was never written.
pub data Value (Float : Type 0) : Type 0 where
  text : Text → Value Float
  num : ℕ → Value Float
  real : Float → Value Float
  flag : Bool → Value Float
  unset : Value Float

pub record Field (Float : Type 0) : Type 0 where
  is_required : Bool
  pub name : Text
  pub value : Value Float

-- A JSON object: plain fields, and perhaps one field that is an array of objects.
pub record Object (Float : Type 0) : Type 0 where
  pub fields : List (Field Float)
  pub rows : List (Text × List (List (Field Float)))

module _ {Float : Type 0} where
  abbrev pub required : Text → Value Float → Field Float
  required n v = record { is_required = true; name = n; value = v }

  abbrev pub optional : Text → Value Float → Field Float
  optional n v = record { is_required = false; name = n; value = v }

  abbrev pub number : Option ℕ → Value Float
  number none = unset
  number (some n) = num n

  -- `default_codec_t<Message>`.
  unfoldable pub message_object : Message → Object Float
  message_object m = record {
    fields =
        required (codes "type") (text m.type)
        ∷ required (codes "code") (num m.code)
        ∷ optional (codes "message") (text m.message)
        ∷ optional (codes "response_time") (number m.time)
        ∷ [];
    rows = [];
  }

  abbrev settings_fields : Option (Settings Float) → List (Field Float)
  settings_fields none =
      map (λ n. required n unset)
        (codes "tickcount"
          ∷ codes "tickrate"
          ∷ codes "gravity"
          ∷ codes "apoolsize"
          ∷ codes "vpoolsize"
          ∷ codes "maxplayers"
          ∷ [])
  settings_fields (some s) =
      required (codes "tickcount") (num s.tickcount)
      ∷ required (codes "tickrate") (num s.tickrate)
      ∷ required (codes "gravity") (real s.gravity)
      ∷ required (codes "apoolsize") (num s.apoolsize)
      ∷ required (codes "vpoolsize") (num s.vpoolsize)
      ∷ required (codes "maxplayers") (num s.maxplayers)
      ∷ []

  -- `default_codec_t<SettingsMessage>`.
  unfoldable pub settings_object : SettingsMessage Float → Object Float
  settings_object m = record {
    fields =
        required (codes "type") (text m.base.type)
        ∷ required (codes "code") (num m.base.code)
        ∷ optional (codes "message") (text m.base.message)
        ∷ optional (codes "time") (number m.base.time)
        ∷ settings_fields m.settings;
    rows = [];
  }

  -- `default_codec_t<PlayerData>`.
  unfoldable pub player_fields : PlayerData Float → List (Field Float)
  player_fields p =
      required (codes "name") (text p.name)
      ∷ required (codes "x") (real p.x)
      ∷ required (codes "y") (real p.y)
      ∷ required (codes "z") (real p.z)
      ∷ required (codes "health") (real p.health)
      ∷ required (codes "armor") (real p.armor)
      ∷ required (codes "skin") (num p.skin)
      ∷ required (codes "score") (num p.score)
      ∷ required (codes "ip") (text p.ip)
      ∷ required (codes "ping") (num p.ping)
      ∷ required (codes "vehicleID") (num p.vehicle_id)
      ∷ required (codes "isNpc") (flag p.is_npc)
      ∷ []

  -- `default_codec_t<PlayerMessage>`.
  unfoldable pub players_object : PlayerMessage Float → Object Float
  unfolding player_fields
  players_object m = record {
    fields =
        required (codes "type") (text m.base.type)
        ∷ required (codes "code") (num m.base.code)
        ∷ required (codes "count") (number m.count)
        ∷ optional (codes "message") (text m.base.message)
        ∷ optional (codes "time") (number m.base.time)
        ∷ [];
    rows = (codes "players", map player_fields m.players) ∷ [];
  }

-- What decoding gives: a value, or the text of a `decode_exception`.
pub data Decoded (A : Type 0) : Type 0 where
  decoded : A → Decoded A
  decode_exception : Text → Decoded A
