-- ===== src/Session/Requests.antt =====
-- `Session::ProcessRequest` on every verb.
use samp_plugin_api.Prelude.{
  ◌≡◌, ◌↔◌, ◌∙◌, subst, ◌≡◌, ◌⊎◌, inl, inr, refl, ap, false, Option, none, some, [], Text, length,
}
use samp_plugin_api.Config.{Config}
use samp_plugin_api.Players.{Entries}
use samp_plugin_api.Env.{Env, Request, Verb, post, get, other_verb}
use samp_plugin_api.Route.{ok, ◌>>=◌, system_error, Returns, Returns-bind}
use samp_plugin_api.Handler.{Handler}
use samp_plugin_api.Handler.Dispatch.{IsRegistered}
use samp_plugin_api.Handler.Status.{IsAnswer, handle_request-IsAnswer}
use samp_plugin_api.Session.{
  Session, writing, new_response, create_response, by_verb, process_request, write,
}

module _ {World Float : Type 0} (env : Env World Float) where
  -- What a session sends once it has a request.
  pub record IsSent (req : Request) (before s : Session) : Type 0 where
    pub version : s.response.version ≡ req.version
    pub closing : s.response.keep_alive ≡ false
    pub counted : s.response.content_length ≡ some (length s.response.body)
    pub phase : s.phase ≡ writing
    pub timer : s.timer ≡ before.timer
    pub socket : s.socket_open ≡ before.socket_open

  -- The response of a session, and all else of it that a handler leaves alone.
  record IsCreated (req : Request) (before s : Session) : Type 0 where
    version : s.response.version ≡ req.version
    closing : s.response.keep_alive ≡ false
    timer : s.timer ≡ before.timer
    socket : s.socket_open ≡ before.socket_open

  abbrev prepared : Request → Session → Session
  prepared req s = record s {
    response = record s.response { version = req.version; keep_alive = false };
  }

  create_response-IsCreated :
      (h : Handler) (config : Config) (ps : Entries) (w : World) (req : Request) (ip : Text)
      (s : Session)
      → IsRegistered h
      → Returns
          (λ out. IsRegistered out.0 × IsCreated req s out.2)
          (create_response env h config ps w req (some ip) (prepared req s))
  unfolding create_response
  create_response-IsCreated h config ps w req ip s g =
      Returns-bind (IsAnswer env (prepared req s).response) _ _ _
        (handle_request-IsAnswer env h config ps req (prepared req s).response ip s.init_time w g)
        (λ (h', w', response) (registered, (version, alive, _), _).
          (registered, record { version = version; closing = alive; timer = refl; socket = refl }))

  by_verb-IsCreated :
      (v : Verb) (h : Handler) (config : Config) (ps : Entries) (w : World) (req : Request)
      (ip : Text) (s : Session)
      → IsRegistered h
      → Returns
          (λ out. IsRegistered out.0 × IsCreated req s out.2)
          (by_verb env v h config ps w req (some ip) (prepared req s))
  unfolding by_verb
  by_verb-IsCreated post h config ps w req ip s g =
      create_response-IsCreated h config ps w req ip s g
  by_verb-IsCreated get h config ps w req ip s g =
      create_response-IsCreated h config ps w req ip s g
  by_verb-IsCreated (other_verb _) h config ps w req ip s g =
      (g, record { version = refl; closing = refl; timer = refl; socket = refl })

  -- A request of any verb, on a connection that is not gone and with a handler that has registered
  -- its functions, is processed without an error. The session then writes a response with the
  -- version of the request that does not keep the connection alive and counts its body, the deadline
  -- and the socket are left alone, and the handler stays registered.
  pub process_request-IsSent :
      (h : Handler) (config : Config) (ps : Entries) (w : World) (req : Request) (ip : Text)
      (s : Session)
      → IsRegistered h
      → Returns
          (λ out. IsRegistered out.0 × IsSent req s out.2)
          (process_request env h config ps w req (some ip) s)
  unfolding process_request write
  process_request-IsSent h config ps w req ip s g =
      Returns-bind (λ out. IsRegistered out.0 × IsCreated req s out.2) _ _ _
        (by_verb-IsCreated req.verb h config ps w req ip s g)
        (λ (h', w', s') (registered, c). (
          registered,
          record {
            version = c.version;
            closing = c.closing;
            counted = refl;
            phase = refl;
            timer = c.timer;
            socket = c.socket;
          },
        ))

  -- A new session answers a verb other than GET and POST with an empty response of status 200,
  -- without authorisation, and touches neither the handler nor the game server.
  pub process_request_other :
      (h : Handler) (config : Config) (ps : Entries) (w : World) (req : Request)
      (peer : Option Text) (s : Session) (verb : Text)
      → req.verb ≡ other_verb verb
      → s.response ≡ new_response
      → Returns
          (λ out.
            (out.0 ≡ h)
            × (out.1 ≡ w)
            × (out.2.response.status ≡ 200)
            × (out.2.response.body ≡ [])
            × (out.2.response.content_length ≡ some 0))
          (process_request env h config ps w req peer s)
  unfolding process_request by_verb write
  process_request_other h config ps w req peer s verb e n =
      rw (e, by_verb)
        (refl, refl, ap (λ r. r.status) n, ap (λ r. r.body) n, ap (λ r. some (length r.body)) n)

  verb_of_error :
      (h : Handler) (config : Config) (ps : Entries) (w : World) (req : Request) (s : Session)
      (verb : Verb) (k : Handler × World × Session → Handler × World × Session)
      → (by_verb env verb h config ps w req none s >>= λ out. ok (k out)) ≡ system_error
      → (verb ≡ post) ⊎ (verb ≡ get)
  unfolding by_verb
  verb_of_error h config ps w req s post k e = inl refl
  verb_of_error h config ps w req s get k e = inr refl
  verb_of_error h config ps w req s (other_verb _) k e = cc

  cause_of_error :
      (peer : Option Text) (h : Handler) (config : Config) (ps : Entries) (w : World)
      (req : Request) (s : Session)
      → IsRegistered h
      → process_request env h config ps w req peer s ≡ system_error
      → (peer ≡ none) × ((req.verb ≡ post) ⊎ (req.verb ≡ get))
  unfolding process_request
  cause_of_error (some ip) h config ps w req s g e = absurd (
      subst (Returns (λ out. IsRegistered out.0 × IsSent req s out.2)) e
        (process_request-IsSent h config ps w req ip s g))
  cause_of_error none h config ps w req s g e = (
    refl,
    verb_of_error h config ps w req (prepared req s) req.verb (λ out. (out.0, out.1, write out.2))
        e,
  )

  gone :
      (h : Handler) (config : Config) (ps : Entries) (w : World) (req : Request) (s : Session)
      → (req.verb ≡ post) ⊎ (req.verb ≡ get)
      → process_request env h config ps w req none s ≡ system_error
  unfolding process_request by_verb create_response
  gone h config ps w req s (inl e) = rw (e, by_verb) refl
  gone h config ps w req s (inr e) = rw (e, by_verb) refl

  -- Processing a request, by a handler that has registered its functions, raises a `system_error`
  -- exactly if the connection is gone by then and the verb is one that the handler answers.
  pub process_request_error_iff :
      (h : Handler) (config : Config) (ps : Entries) (w : World) (req : Request)
      (peer : Option Text) (s : Session)
      → IsRegistered h
      → (process_request env h config ps w req peer s ≡ system_error)
        ↔ ((peer ≡ none) × ((req.verb ≡ post) ⊎ (req.verb ≡ get)))
  process_request_error_iff h config ps w req peer s g = (
    cause_of_error peer h config ps w req s g,
    λ (e, v). ap (λ o. process_request env h config ps w req o s) e ∙ gone h config ps w req s v,
  )
