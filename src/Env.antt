-- ===== src/Env.antt =====
-- Everything that the request handlers are given: the interfaces of the code outside the
-- repository, and the HTTP messages as they see them.
use samp_plugin_api.Prelude.{ℕ, Bool, Option, List, [], ◌∷◌, Text, ◌==◌, if◌then◌else◌}
use samp_plugin_api.Samp.{Natives}
use samp_plugin_api.Codecs.{Codec}
use samp_plugin_api.Players.{Entries}

-- An argument of `fmt::format`.
pub data Arg : Type 0 where
  str : Text → Arg
  int : ℕ → Arg

pub record Env (World Float : Type 0) : Type 0 where
  pub samp : Natives World Float
  pub codec : Codec Float
  -- `fmt::format`, and `XXH32` of a text and a seed.
  pub format : Text → List Arg → Text
  pub xxh32 : Text → ℕ → ℕ
  -- The ticks of `std::chrono::system_clock`, and how many of them are a millisecond.
  pub now : World → ℕ
  pub ticks_per_ms : ℕ
  -- What a `uint32_t` reads as that was never written.
  pub stale : World → ℕ
  -- The order in which the hash map of the players is iterated.
  pub order : Entries → Entries

pub data Verb : Type 0 where
  post get : Verb
  other_verb : Text → Verb

pub record Request : Type 0 where
  pub verb : Verb
  pub target : Text
  pub version : ℕ
  pub body : Text

pub record Response : Type 0 where
  pub version : ℕ
  pub keep_alive : Bool
  pub status : ℕ
  pub content_type : Option Text
  pub content_length : Option ℕ
  pub body : Text

-- `c_str()`, as a function that takes a null-terminated string reads it.
unfoldable pub c_str : Text → Text
c_str [] = []
c_str (c ∷ s) = if c == 0 then [] else c ∷ c_str s
