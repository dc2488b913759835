-- ===== src/Session/Isolation.antt =====
-- What a session answers does not depend on what other sessions have asked.
use samp_plugin_api.Prelude.{◌≡◌, refl, sym, ap, ◌∙◌, Option, none, some, Text}
use samp_plugin_api.Config.{Config}
use samp_plugin_api.Players.{Entries}
use samp_plugin_api.Messages.{BodyRequest, Decoded, decoded, decode_exception}
use samp_plugin_api.Codecs.{decode_body}
use samp_plugin_api.Env.{Env, Request, Verb, post, get, other_verb}
use samp_plugin_api.Route.{Checked, ok, regex_error, out_of_range, system_error, ◌>>=◌}
use samp_plugin_api.Handler.{Handler, authorize, check_body}
use samp_plugin_api.Handler.Dispatch.{IsRegistered, after, handle_request_lem}
use samp_plugin_api.Session.{Session, create_response, by_verb, process_request, write}
use samp_plugin_api.Session.Credentials.{SameCredentials}

-- What the rest of the program sees of a result: not the state of the handler.
abbrev pub seen {ℓ κ μ} :
    {H : Type ℓ} {W : Type κ} {A : Type μ} → Checked (H × W × A) → Checked (W × A)
seen r = r >>= λ (_, w, a). ok (w, a)

module _ {World Float : Type 0} (env : Env World Float) where
  check_body-SameCredentials :
      (h h' : Handler) (uri remote : Text) (d : Decoded BodyRequest) (w : World)
      → SameCredentials h h'
      → check_body env h' uri remote d w ≡ check_body env h uri remote d w
  unfolding check_body
  check_body-SameCredentials h h' uri remote (decode_exception _) w c = refl
  check_body-SameCredentials h h' uri remote (decoded body) w c = rw (c.password, c.seed) refl

  pub authorize-SameCredentials :
      (h h' : Handler) (config : Config) (req : Request) (remote : Text) (w : World)
      → SameCredentials h h'
      → authorize env h' config req remote w ≡ authorize env h config req remote w
  unfolding authorize
  authorize-SameCredentials h h' config req remote w c =
      rw (check_body-SameCredentials h h' req.target remote (decode_body env.codec req.body) w c)
        refl

  create_response-SameCredentials :
      (h h' : Handler) (config : Config) (ps : Entries) (w : World) (req : Request) (ip : Text)
      (s : Session)
      → IsRegistered h
      → IsRegistered h'
      → SameCredentials h h'
      → seen (create_response env h' config ps w req (some ip) s)
        ≡ seen (create_response env h config ps w req (some ip) s)
  unfolding create_response
  create_response-SameCredentials h h' config ps w req ip s g g' c =
      rw
        (
          handle_request_lem env h config ps req s.response ip s.init_time w g,
          handle_request_lem env h' config ps req s.response ip s.init_time w g',
          authorize-SameCredentials (after req.target h) (after req.target h') config req ip w
              (record { password = c.password; seed = c.seed }),
        )
        refl

  by_verb-SameCredentials :
      (v : Verb) (peer : Option Text) (h h' : Handler) (config : Config) (ps : Entries) (w : World)
      (req : Request) (s : Session)
      → IsRegistered h
      → IsRegistered h'
      → SameCredentials h h'
      → seen (by_verb env v h' config ps w req peer s)
        ≡ seen (by_verb env v h config ps w req peer s)
  unfolding by_verb create_response
  by_verb-SameCredentials post (some ip) h h' config ps w req s g g' c =
      create_response-SameCredentials h h' config ps w req ip s g g' c
  by_verb-SameCredentials get (some ip) h h' config ps w req s g g' c =
      create_response-SameCredentials h h' config ps w req ip s g g' c
  by_verb-SameCredentials post none h h' config ps w req s g g' c = refl
  by_verb-SameCredentials get none h h' config ps w req s g g' c = refl
  by_verb-SameCredentials (other_verb _) peer h h' config ps w req s g g' c = refl

  -- What is seen of a processed request is what is seen of the answer, written.
  seen-write :
      (r : Checked (Handler × World × Session))
      → seen (r >>= λ (h, w, s). ok (h, w, write s)) ≡ (seen r >>= λ (w, s). ok (w, write s))
  seen-write (ok _) = refl
  seen-write regex_error = refl
  seen-write out_of_range = refl
  seen-write system_error = refl

  -- Two handlers that have registered their functions, with the same password and seed, may have
  -- handled any requests before: a session that processes a request by the one does to the game
  -- server what it does by the other, and answers the same, or both find that the connection is gone.
  pub process_request_isolated :
      (h h' : Handler) (config : Config) (ps : Entries) (w : World) (req : Request)
      (peer : Option Text) (s : Session)
      → IsRegistered h
      → IsRegistered h'
      → SameCredentials h h'
      → seen (process_request env h' config ps w req peer s)
        ≡ seen (process_request env h config ps w req peer s)
  unfolding process_request
  process_request_isolated h h' config ps w req peer s g g' c =
      seen-write (by_verb env req.verb h' config ps w req peer _)
      ∙ ap (λ r. r >>= λ (w', s'). ok (w', write s'))
          (by_verb-SameCredentials req.verb peer h h' config ps w req _ g g' c)
      ∙ sym (seen-write (by_verb env req.verb h config ps w req peer _))
