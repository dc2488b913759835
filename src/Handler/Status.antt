-- ===== src/Handler/Status.antt =====
-- The status of every answer, and what an answer never changes.
use samp_plugin_api.Prelude.{
  ℕ, ◌≡◌, ◌⊎◌, refl, ap, ◌∙◌, Bool, true, false, Option, none, some, [], ◌∷◌, Text, codes, inl, inr,
  All,
}
use samp_plugin_api.Config.{Config}
use samp_plugin_api.Players.{Entries}
use samp_plugin_api.Codecs.{decode_body}
use samp_plugin_api.Env.{Env, Request, Response}
use samp_plugin_api.Route.{Match, Checked, ok, Returns}
use samp_plugin_api.Route.Template.{template, fits}
use samp_plugin_api.Handler.{RouteHandler, Handler, Routes, handle_request, authorize}
use samp_plugin_api.Handler.Table.{table, choose}
use samp_plugin_api.Handler.Access.{IsAdmitted, Signs, whitelist, authorize_iff, authorize_quiet}
use samp_plugin_api.Handler.Answers.{
  Frames, call-IsAnswerCode, call-Frames, invalid_message-Frames, status-invalid_message,
}
use samp_plugin_api.Handler.Dispatch.{
  IsRegistered, after, refusal, routed, admitted, handle_request_lem,
}

abbrev IsStatus : ℕ → Type 0
IsStatus c = (c ≡ 401) ⊎ ((c ≡ 404) ⊎ ((c ≡ 200) ⊎ ((c ≡ 417) ⊎ (c ≡ 500))))

-- A url that fits no template is no choice.
choose-none :
    (routes : Routes) (u : Text)
    → All (λ e. fits (template e.0) u ≡ none) routes
    → choose routes u ≡ none
unfolding choose
choose-none [] u h = refl
choose-none ((tmpl, f) ∷ routes) u (e, h) = rw e (choose-none routes u h)

module _ {World Float : Type 0} (env : Env World Float) where
  -- What holds of every answer: the handler stays registered, the status is one of five, and the
  -- version, the keep-alive flag and the content length of the response are left alone.
  abbrev pub IsAnswer : Response → Handler × World × Response → Type 0
  IsAnswer response (h, _, response') =
      IsRegistered h × Frames env response response' × IsStatus response'.status

  routed-IsStatus :
      (ps : Entries) (req : Request) (response : Response) (p : ℕ) (w : World)
      (o : Option (RouteHandler × Match))
      → Frames env response (routed env ps req response p w o).1
        × IsStatus (routed env ps req response p w o).1.status
  routed-IsStatus ps req response p w none = (
    invalid_message-Frames env response p _ w,
    inr (inl (status-invalid_message env response p _ w)),
  )
  routed-IsStatus ps req response p w (some (f, m)) =
      (call-Frames env f ps m req _ p w, inr (inr (call-IsAnswerCode env f ps m req _ p w)))

  admitted-IsStatus :
      (ps : Entries) (req : Request) (response : Response) (p : ℕ) (auth : World × Bool)
      → Frames env response (admitted env ps req response p auth).1
        × IsStatus (admitted env ps req response p auth).1.status
  admitted-IsStatus ps req response p (w, false) =
      (invalid_message-Frames env response p _ w, inl (status-invalid_message env response p _ w))
  admitted-IsStatus ps req response p (w, true) =
      routed-IsStatus ps req response p w (choose table req.target)

  -- `HandleRequest` of a handler that has registered its functions returns for every request; its answer has the status 200, 401, 404, 417 or 500,
  -- the response keeps its version, its keep-alive flag and its content length, and the handler
  -- stays as registered.
  pub handle_request-IsAnswer :
      (h : Handler) (config : Config) (ps : Entries) (req : Request) (response : Response)
      (remote : Text) (p : ℕ) (w : World)
      → IsRegistered h
      → Returns (IsAnswer response) (handle_request env h config ps req response remote p w)
  handle_request-IsAnswer h config ps req response remote p w g =
      let auth = authorize env (after req.target h) config req remote w in
      let (frames, status) = admitted-IsStatus ps req response p auth in
      rw (handle_request_lem env h config ps req response remote p w g)
        (record { routes = g.routes; no_cache = g.no_cache }, frames, status)

  -- An authorised request to a handler that has registered its functions, whose target fits no
  -- template is answered with 404 and the message
  -- "Invalid route"; the game server is left alone.
  pub not_found :
      (h : Handler) (config : Config) (ps : Entries) (req : Request) (response : Response)
      (remote : Text) (p : ℕ) (w : World)
      → IsRegistered h
      → IsAdmitted remote (whitelist config)
      → Signs env h req.target (decode_body env.codec req.body)
      → All (λ e. fits (template e.0) req.target ≡ none) table
      → let (_, response') = refusal env response p w 404 (codes "Invalid route") in
        handle_request env h config ps req response remote p w
        ≡ ok (after req.target h, w, response')
  not_found h config ps req response remote p w g a s n =
      let u = req.target in
      let granted = (authorize_iff env (after u h) config req remote w).1 (a, s) in
      let quiet = authorize_quiet env (after u h) config req remote w (inr (inr s)) in
      handle_request_lem env h config ps req response remote p w g
      ∙ ap (λ x. answered (admitted env ps req response p x)) (λ j. (quiet j, granted j))
      ∙ ap (λ o. answered (routed env ps req response p w o)) (choose-none table u n)
    where
      answered : World × Response → Checked (Handler × World × Response)
      answered out = ok (after req.target h, out.0, out.1)
