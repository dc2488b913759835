-- ===== src/Session/Foreign.antt =====
-- What a request that is not authorised can do.
use samp_plugin_api.Prelude.{sym, subst, Bool, true, false, some, Text, if◌then◌else◌}
use samp_plugin_api.Config.{Config}
use samp_plugin_api.Players.{Entries}
use samp_plugin_api.Messages.{BodyRequest, Decoded, decoded, decode_exception}
use samp_plugin_api.Codecs.{decode_body}
use samp_plugin_api.Env.{Env, Request, Verb, post, get, other_verb}
use samp_plugin_api.Route.{Returns, Returns-bind}
use samp_plugin_api.Handler.{Handler, authorize, check_body, handle_request}
use samp_plugin_api.Handler.Access.{IsAdmitted, Signs, whitelist}
use samp_plugin_api.Handler.Dispatch.{IsRegistered, after, unauthorized}
use samp_plugin_api.Session.{Session, create_response, by_verb, process_request}

module _ {World Float : Type 0} (env : Env World Float) where
  open env use {samp}

  -- The second world is the first one, with warnings written to the log.
  pub data Logged : World → World → Type 0 where
    same : {w : World} → Logged w w
    warns : {w v : World} (t : Text) → Logged (samp.log_warn t w) v → Logged w v

  pub Logged-trans : {u v w : World} → Logged u v → Logged v w → Logged u w
  Logged-trans same k = k
  Logged-trans (warns t h) k = warns t (Logged-trans h k)

  either-Logged :
      {w : World} (b : Bool) (x y : World × Bool)
      → Logged w x.0
      → Logged w y.0
      → Logged w (if b then x else y).0
  either-Logged true x y h k = h
  either-Logged false x y h k = k

  check_body-Logged :
      (h : Handler) (uri remote : Text) (d : Decoded BodyRequest) (w : World)
      → Logged w (check_body env h uri remote d w).0
  unfolding check_body
  check_body-Logged h uri remote (decode_exception _) w = same
  check_body-Logged h uri remote (decoded body) w = either-Logged _ _ _ (warns _ same) same

  pub authorize-Logged :
      (h : Handler) (config : Config) (req : Request) (remote : Text) (w : World)
      → Logged w (authorize env h config req remote w).0
  unfolding authorize
  authorize-Logged h config req remote w =
      either-Logged _ (w, false) _ same
        (check_body-Logged h req.target remote (decode_body env.codec req.body) w)

  -- A request that is not authorised, by what a handler and a configuration ask for.
  abbrev pub IsRefused : Handler → Config → Text → Request → Type 0
  IsRefused h config remote req = ¬ (
      IsAdmitted remote (whitelist config)
      × Signs env h req.target (decode_body env.codec req.body))

  create_response-Logged :
      (h : Handler) (config : Config) (ps : Entries) (w : World) (req : Request) (ip : Text)
      (s : Session)
      → IsRegistered h
      → IsRefused h config ip req
      → Returns (λ out. Logged w out.1) (create_response env h config ps w req (some ip) s)
  unfolding create_response
  create_response-Logged h config ps w req ip s g n =
      Returns-bind (λ out. Logged w out.1) _
        (handle_request env h config ps req s.response ip s.init_time w) _
        (subst (Returns (λ out. Logged w out.1))
          (sym (unauthorized env h config ps req s.response ip s.init_time w g n))
          (authorize-Logged (after req.target h) config req ip w))
        (λ out l. l)

  by_verb-Logged :
      (v : Verb) (h : Handler) (config : Config) (ps : Entries) (w : World) (req : Request)
      (ip : Text) (s : Session)
      → IsRegistered h
      → IsRefused h config ip req
      → Returns (λ out. Logged w out.1) (by_verb env v h config ps w req (some ip) s)
  unfolding by_verb
  by_verb-Logged post h config ps w req ip s g n = create_response-Logged h config ps w req ip s g n
  by_verb-Logged get h config ps w req ip s g n = create_response-Logged h config ps w req ip s g n
  by_verb-Logged (other_verb _) h config ps w req ip s g n = same

  pub process_request-Logged :
      (h : Handler) (config : Config) (ps : Entries) (w : World) (req : Request) (ip : Text)
      (s : Session)
      → IsRegistered h
      → IsRefused h config ip req
      → Returns (λ out. Logged w out.1) (process_request env h config ps w req (some ip) s)
  unfolding process_request
  process_request-Logged h config ps w req ip s g n =
      Returns-bind (λ out. Logged w out.1) _ _ _
        (by_verb-Logged req.verb h config ps w req ip _ g n) (λ out l. l)
