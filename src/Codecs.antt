-- ===== src/Codecs.antt =====
-- The codecs of the requests in api/Types.hpp and api/SampTypes.hpp: which members a JSON object has,
-- of which kind, and what is made of them. The JSON library itself is the interface `Codec`.
use samp_plugin_api.Prelude.{ℕ, Option, List, [], ◌∷◌, Text, codes}
use samp_plugin_api.Messages.{
  BodyRequest, SayRequest, SimpleRequest, SimpleIntRequest, GravityRequest, IpRequest, Object,
  Decoded, decoded, decode_exception,
}

-- The codec of a member, by its type in C++.
pub data Kind : Type 0 where
  string_kind uint32_kind int_kind float_kind : Kind

-- `required` and `optional` of `codec::object`.
pub data Member : Type 0 where
  required_member optional_member : Text → Kind → Member

module _ (Float : Type 0) where
  -- A decoded member; an `int` is its bit pattern.
  abbrev pub Decodes : Kind → Type 0
  Decodes string_kind = Text
  Decodes uint32_kind = ℕ
  Decodes int_kind = ℕ
  Decodes float_kind = Float

  -- An optional member may be missing from the object.
  abbrev pub Slot : Member → Type 0
  Slot (required_member _ k) = Decodes k
  Slot (optional_member _ k) = Option (Decodes k)

  abbrev pub Slots : List Member → Type 0
  Slots [] = Unit
  Slots (m ∷ ms) = Slot m × Slots ms

-- `spotify::json::encode` of an object, and `spotify::json::decode` by the members of an object: it
-- throws where the text is no object, a required member is missing, or a member has another kind.
pub record Codec (Float : Type 0) : Type 0 where
  pub encode : Object Float → Text
  pub decode : (members : List Member) → Text → Decoded (Slots Float members)

abbrev body_members : List Member
body_members =
    required_member (codes "password") string_kind ∷ required_member (codes "hash") uint32_kind ∷ []

abbrev say_members : List Member
say_members =
    required_member (codes "color") int_kind
    ∷ required_member (codes "name") string_kind
    ∷ required_member (codes "message") string_kind
    ∷ []

abbrev simple_members : List Member
simple_members = required_member (codes "value") string_kind ∷ []

abbrev int_members : List Member
int_members = required_member (codes "value") uint32_kind ∷ []

abbrev gravity_members : List Member
gravity_members = required_member (codes "gravity") float_kind ∷ []

abbrev ip_members : List Member
ip_members =
    required_member (codes "address") string_kind ∷ optional_member (codes "time") uint32_kind ∷ []

abbrev pub made : {A B : Type 0} → (A → B) → Decoded A → Decoded B
made f (decoded a) = decoded (f a)
made f (decode_exception what) = decode_exception what

module _ {Float : Type 0} (codec : Codec Float) where
  -- `spotify::json::decode<T>`, at each type that the program uses.
  unfoldable pub decode_body : Text → Decoded BodyRequest
  decode_body s =
      made (λ (password, (hash, _)). record { password = password; hash = hash })
        (codec.decode body_members s)

  pub decode_say : Text → Decoded SayRequest
  decode_say s =
      made
        (λ (color, (name, (message, _))). record { color = color; name = name; message = message })
        (codec.decode say_members s)

  pub decode_simple : Text → Decoded SimpleRequest
  decode_simple s = made (λ (value, _). record { value = value }) (codec.decode simple_members s)

  unfoldable pub decode_int : Text → Decoded SimpleIntRequest
  decode_int s = made (λ (value, _). record { value = value }) (codec.decode int_members s)

  pub decode_gravity : Text → Decoded (GravityRequest Float)
  decode_gravity s =
      made (λ (gravity, _). record { gravity = gravity }) (codec.decode gravity_members s)

  pub decode_ip : Text → Decoded IpRequest
  decode_ip s =
      made (λ (address, (time, _)). record { address = address; time = time })
        (codec.decode ip_members s)
