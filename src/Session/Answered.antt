-- ===== src/Session/Answered.antt =====
-- What a session that has a fresh response sends.
use samp_plugin_api.Prelude.{
  ◌≡◌, ◌⊎◌, refl, ap, ◌∙◌, inl, inr, false, some, [], ◌++◌, Text, codes, length,
}
use samp_plugin_api.Config.{Config}
use samp_plugin_api.Players.{Entries}
use samp_plugin_api.Messages.{Object, num}
use samp_plugin_api.Env.{Env, Request, Response, Verb, post, get, other_verb}
use samp_plugin_api.Route.{Returns, Returns-bind, Returns-both}
use samp_plugin_api.Handler.{Handler}
use samp_plugin_api.Handler.Dispatch.{IsRegistered}
use samp_plugin_api.Handler.Status.{IsAnswer, handle_request-IsAnswer}
use samp_plugin_api.Handler.Encoding.{IsEncoded, IsComplete, field, handle_request-IsEncoded}
use samp_plugin_api.Session.{
  Session, new_response, create_response, by_verb, process_request, write,
}

module _ {World Float : Type 0} (env : Env World Float) where
  -- The body is one object whose `code` is the status, with no field unset.
  pub record IsObject (r : Response) : Type 0 where
    pub object : Object Float
    pub body : r.body ≡ env.codec.encode object
    pub code : field (codes "code") object.fields ≡ some (num r.status)
    pub complete : IsComplete object

  -- A response that may be sent: it closes the connection, counts its body, and the body is one
  -- object, or empty where the status is 200.
  pub record IsAnswered (r : Response) : Type 0 where
    pub closing : r.keep_alive ≡ false
    pub counted : r.content_length ≡ some (length r.body)
    pub content : ((r.status ≡ 200) × (r.body ≡ [])) ⊎ IsObject r

  abbrev Content : Response → Type 0
  Content r = (r.keep_alive ≡ false) × (((r.status ≡ 200) × (r.body ≡ [])) ⊎ IsObject r)

  abbrev IsFresh : Response → Type 0
  IsFresh r = (r.keep_alive ≡ false) × (r.status ≡ 200) × (r.body ≡ [])

  encoded-Content :
      (r : Response) (out : Handler × World × Response)
      → IsFresh r
      → IsAnswer env r out
      → IsEncoded env r out.2
      → Content out.2
  encoded-Content r out (k, _, b) (_, (_, alive, _), _) encoded = (
    alive ∙ k,
    inr (record {
      object = encoded.object;
      body = encoded.body ∙ ap (λ t. t ++ env.codec.encode encoded.object) b;
      code = encoded.code;
      complete = encoded.complete;
    }),
  )

  create_response-Content :
      (h : Handler) (config : Config) (ps : Entries) (w : World) (req : Request) (ip : Text)
      (s : Session)
      → IsRegistered h
      → IsFresh s.response
      → Returns (λ out. Content out.2.response) (create_response env h config ps w req (some ip) s)
  unfolding create_response
  create_response-Content h config ps w req ip s g f =
      Returns-bind (λ out. IsAnswer env s.response out × IsEncoded env s.response out.2) _ _ _
        (Returns-both (IsAnswer env s.response) (λ out. IsEncoded env s.response out.2) _
          (handle_request-IsAnswer env h config ps req s.response ip s.init_time w g)
          (handle_request-IsEncoded env h config ps req s.response ip s.init_time w g))
        (λ out (a, e). encoded-Content s.response out f a e)

  by_verb-Content :
      (v : Verb) (h : Handler) (config : Config) (ps : Entries) (w : World) (req : Request)
      (ip : Text) (s : Session)
      → IsRegistered h
      → IsFresh s.response
      → Returns (λ out. Content out.2.response) (by_verb env v h config ps w req (some ip) s)
  unfolding by_verb
  by_verb-Content post h config ps w req ip s g f =
      create_response-Content h config ps w req ip s g f
  by_verb-Content get h config ps w req ip s g f =
      create_response-Content h config ps w req ip s g f
  by_verb-Content (other_verb _) h config ps w req ip s g (k, c, b) = (k, inl (c, b))

  write-IsAnswered : (s : Session) → Content s.response → IsAnswered (write s).response
  unfolding write
  write-IsAnswered s (k, inl c) = record { closing = k; counted = refl; content = inl c }
  write-IsAnswered s (k, inr o) = record {
    closing = k;
    counted = refl;
    content =
        inr (record { object = o.object; body = o.body; code = o.code; complete = o.complete });
  }

  -- A session whose response is new, on a connection that is not gone, with a handler that has
  -- registered its functions, sends an answer of its own: one complete JSON object whose `code` is
  -- the status, or an empty body with the status 200; the response counts it and closes the
  -- connection.
  pub process_request-IsAnswered :
      (h : Handler) (config : Config) (ps : Entries) (w : World) (req : Request) (ip : Text)
      (s : Session)
      → IsRegistered h
      → s.response ≡ new_response
      → Returns
          (λ out. IsAnswered out.2.response)
          (process_request env h config ps w req (some ip) s)
  unfolding process_request
  process_request-IsAnswered h config ps w req ip s g n =
      Returns-bind (λ out. Content out.2.response) _ _ _
        (by_verb-Content req.verb h config ps w req ip _ g
          (refl, ap (λ r. r.status) n, ap (λ r. r.body) n))
        (λ out c. write-IsAnswered out.2 c)
