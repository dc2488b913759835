-- ===== src/Session/Credentials.antt =====
-- What a handler keeps while a session processes a request.
use samp_plugin_api.Prelude.{◌≡◌, refl, sym, subst, some, Text}
use samp_plugin_api.Config.{Config}
use samp_plugin_api.Players.{Entries}
use samp_plugin_api.Env.{Env, Request, Verb, post, get, other_verb}
use samp_plugin_api.Route.{Returns, Returns-bind}
use samp_plugin_api.Handler.{Handler, handle_request}
use samp_plugin_api.Handler.Dispatch.{IsRegistered, handle_request_lem}
use samp_plugin_api.Session.{Session, create_response, by_verb, process_request}

-- The password and the seed are the same.
pub record SameCredentials (before h : Handler) : Type 0 where
  pub password : h.password ≡ before.password
  pub seed : h.seed ≡ before.seed

module _ {World Float : Type 0} (env : Env World Float) where
  create_response-SameCredentials :
      (h : Handler) (config : Config) (ps : Entries) (w : World) (req : Request) (ip : Text)
      (s : Session)
      → IsRegistered h
      → Returns (λ out. SameCredentials h out.0) (create_response env h config ps w req (some ip) s)
  unfolding create_response
  create_response-SameCredentials h config ps w req ip s g =
      Returns-bind (λ out. SameCredentials h out.0) _
        (handle_request env h config ps req s.response ip s.init_time w) _
        (subst (Returns (λ out. SameCredentials h out.0))
          (sym (handle_request_lem env h config ps req s.response ip s.init_time w g))
          (record { password = refl; seed = refl }))
        (λ out c. c)

  by_verb-SameCredentials :
      (v : Verb) (h : Handler) (config : Config) (ps : Entries) (w : World) (req : Request)
      (ip : Text) (s : Session)
      → IsRegistered h
      → Returns (λ out. SameCredentials h out.0) (by_verb env v h config ps w req (some ip) s)
  unfolding by_verb
  by_verb-SameCredentials post h config ps w req ip s g =
      create_response-SameCredentials h config ps w req ip s g
  by_verb-SameCredentials get h config ps w req ip s g =
      create_response-SameCredentials h config ps w req ip s g
  by_verb-SameCredentials (other_verb _) h config ps w req ip s g = record {
    password = refl;
    seed = refl;
  }

  pub process_request-SameCredentials :
      (h : Handler) (config : Config) (ps : Entries) (w : World) (req : Request) (ip : Text)
      (s : Session)
      → IsRegistered h
      → Returns (λ out. SameCredentials h out.0) (process_request env h config ps w req (some ip) s)
  unfolding process_request
  process_request-SameCredentials h config ps w req ip s g =
      Returns-bind (λ out. SameCredentials h out.0) _ _ _
        (by_verb-SameCredentials req.verb h config ps w req ip _ g) (λ out c. c)
