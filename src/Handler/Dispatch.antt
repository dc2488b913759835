-- ===== src/Handler/Dispatch.antt =====
-- The whole of `Handler::HandleRequest`, with no regular expression and no error left in it.
use samp_plugin_api.Prelude.{
  ℕ, ◌≡◌, refl, ap, ◌∙◌, Bool, true, false, Option, none, some, List, [], Text, codes, inr,
  get_elem?,
}
use samp_plugin_api.Config.{Config}
use samp_plugin_api.Players.{Entries}
use samp_plugin_api.Messages.{new_message}
use samp_plugin_api.Codecs.{decode_body}
use samp_plugin_api.Env.{Env, Request, Response}
use samp_plugin_api.Route.{Match, Checked, ok, ◌>>=◌, new_match}
use samp_plugin_api.Route.Template.{template, fits}
use samp_plugin_api.Route.Laws.{aimed, answer, set_lem}
use samp_plugin_api.Handler.{
  RouteHandler, Handler, find_route, answer_route, handle_authorized, handle_request, authorize,
  call, show_error, invalid_message,
}
use samp_plugin_api.Handler.Table.{table, choose, find_route_lem, choose-table, table-ArePlain}
use samp_plugin_api.Handler.Access.{IsAdmitted, Signs, whitelist, authorize_iff, authorize_quiet}

-- The state of a handler that has registered its functions, whatever it has handled since.
pub record IsRegistered (h : Handler) : Type 0 where
  pub routes : h.routes ≡ table
  pub no_cache : h.route.cache ≡ []

-- A handler after a request for a target.
abbrev pub after : Text → Handler → Handler
after u h = record h { route = aimed u h.route }

module _ {World Float : Type 0} (env : Env World Float) where
  -- An error message as the answer.
  abbrev pub refusal : Response → ℕ → World → ℕ → Text → World × Response
  refusal response p w code message = (
    w,
    invalid_message env response p
        (record new_message { type = codes "error"; code = code; message = message }) w,
  )

  abbrev pub routed :
      Entries → Request → Response → ℕ → World → Option (RouteHandler × Match) → World × Response
  routed ps req response p w none = refusal response p w 404 (codes "Invalid route")
  routed ps req response p w (some (f, m)) =
      call env f ps m req (record response { status = 200 }) p w

  abbrev pub admitted : Entries → Request → Response → ℕ → World × Bool → World × Response
  admitted ps req response p (w, false) = refusal response p w 401 (codes "Unauthorized")
  admitted ps req response p (w, true) = routed ps req response p w (choose table req.target)

  answer_route_lem :
      (h : Handler) (ps : Entries) (req : Request) (response : Response) (p : ℕ) (w : World)
      (o : Option (RouteHandler × Match))
      → answer_route env (after req.target h) ps req response p w o
        ≡ ok
            (after req.target h, (routed ps req response p w o).0, (routed ps req response p w o).1)
  unfolding answer_route show_error
  answer_route_lem h ps req response p w none = rw (set_lem req.target (aimed req.target h.route))
  answer_route_lem h ps req response p w (some (f, m)) = refl

  handle_authorized_lem :
      (h : Handler) (ps : Entries) (req : Request) (response : Response) (p : ℕ)
      (auth : World × Bool)
      → IsRegistered h
      → handle_authorized env (after req.target h) ps req response p new_match auth
        ≡ ok (
          after req.target h,
          (admitted ps req response p auth).0,
          (admitted ps req response p auth).1,
        )
  unfolding handle_authorized show_error
  handle_authorized_lem h ps req response p (w, false) g =
      rw (set_lem req.target (aimed req.target h.route))
  handle_authorized_lem h ps req response p (w, true) g =
      let found =
        ap (find_route (aimed req.target h.route) new_match) g.routes
        ∙ find_route_lem table req.target h.route new_match table-ArePlain g.no_cache in
      ap (λ c. c >>= answer_route env (after req.target h) ps req response p w) found
      ∙ answer_route_lem h ps req response p w (choose table req.target)

  -- A handler that has registered its functions answers every request: it raises no error and keeps
  -- its password, its seed and its table. A request that is not authorised gets 401, one that
  -- fits no template 404, and any other what the function of its route makes of it.
  pub handle_request_lem :
      (h : Handler) (config : Config) (ps : Entries) (req : Request) (response : Response)
      (remote : Text) (p : ℕ) (w : World)
      → IsRegistered h
      → handle_request env h config ps req response remote p w ≡ (
          let (w', response') =
            admitted ps req response p (authorize env (after req.target h) config req remote w) in
          ok (after req.target h, w', response'))
  unfolding handle_request
  handle_request_lem h config ps req response remote p w g = rw (set_lem req.target h.route) (
      handle_authorized_lem h ps req response p
        (authorize env (after req.target h) config req remote w) g)

  -- A request to a handler that has registered its functions, from an address that is not admitted
  -- or with a body that does not sign the target, is answered with 401 and the message
  -- "Unauthorized", whatever its target; no function behind a route is called.
  pub unauthorized :
      (h : Handler) (config : Config) (ps : Entries) (req : Request) (response : Response)
      (remote : Text) (p : ℕ) (w : World)
      → IsRegistered h
      → ¬ (
          IsAdmitted remote (whitelist config)
          × Signs env h req.target (decode_body env.codec req.body))
      → let w' = (authorize env (after req.target h) config req remote w).0 in
        let (_, response') = refusal response p w' 401 (codes "Unauthorized") in
        handle_request env h config ps req response remote p w
        ≡ ok (after req.target h, w', response')
  unauthorized h config ps req response remote p w g n =
      handle_request_lem h config ps req response remote p w g
      ∙ refused (authorize env (after req.target h) config req remote w)
          (λ e. n ((authorize_iff env (after req.target h) config req remote w).0 e))
    where
      refused :
          (auth : World × Bool)
          → ¬ (auth.1 ≡ true)
          → ◌≡◌ {A = Checked (Handler × World × Response)}
              (ok (
                after req.target h,
                (admitted ps req response p auth).0,
                (admitted ps req response p auth).1,
              ))
              (ok (
                after req.target h,
                auth.0,
                (refusal response p auth.0 401 (codes "Unauthorized")).1,
              ))
      refused (w', false) k = refl
      refused (w', true) k = absurd (k refl)

  -- An authorised request to a handler that has registered its functions, whose target fits the
  -- template of a route, is answered by that route's function, with the values of the template's
  -- parameters, and the game server is not touched before the function runs.
  pub dispatched :
      (h : Handler) (config : Config) (ps : Entries) (req : Request) (response : Response)
      (remote : Text) (p : ℕ) (w : World) (i : ℕ) (tmpl : Text) (f : RouteHandler) (vs : List Text)
      → IsRegistered h
      → IsAdmitted remote (whitelist config)
      → Signs env h req.target (decode_body env.codec req.body)
      → get_elem? table i ≡ some (tmpl, f)
      → fits (template tmpl) req.target ≡ some vs
      → let m = (answer (template tmpl) (some vs)).0 in
        let (w', response') = call env f ps m req (record response { status = 200 }) p w in
        handle_request env h config ps req response remote p w
        ≡ ok (after req.target h, w', response')
  dispatched h config ps req response remote p w i tmpl f vs g a s e v =
      let u = req.target in
      let auth = authorize env (after u h) config req remote w in
      let granted : auth.1 ≡ true = (authorize_iff env (after u h) config req remote w).1 (a, s) in
      let quiet : auth.0 ≡ w = authorize_quiet env (after u h) config req remote w (inr (inr s)) in
      handle_request_lem h config ps req response remote p w g
      ∙ ap (λ x. answered u (admitted ps req response p x)) (λ j. (quiet j, granted j))
      ∙ ap (λ o. answered u (routed ps req response p w o)) (choose-table i tmpl f u vs e v)
    where
      answered : Text → World × Response → Checked (Handler × World × Response)
      answered u out = ok (after u h, out.0, out.1)
