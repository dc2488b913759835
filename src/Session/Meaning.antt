-- ===== src/Session/Meaning.antt =====
-- What the description of a request comes to, by the whitelist, the password and the hash.
use samp_plugin_api.Prelude.{
  ℕ, ◌≡◌, refl, ap, ◌∙◌, Bool, true, false, some, List, Text, codes, inl, inr, ◌⊎◌, get_elem?,
}
use samp_plugin_api.Players.{Entries}
use samp_plugin_api.Codecs.{decode_body}
use samp_plugin_api.Env.{Env, Request, Verb, post, get, other_verb}
use samp_plugin_api.Route.{or_blank}
use samp_plugin_api.Route.Template.{template, fits, names, value_of}
use samp_plugin_api.Route.Laws.{get-answer}
use samp_plugin_api.Handler.{RouteHandler}
use samp_plugin_api.Handler.Table.{table, choose, choose-table}
use samp_plugin_api.Handler.Access.{
  Signs-GivesBoth_iff, IsAdmitted, GivesBoth, whitelist, authorize_iff, authorize_quiet,
}
use samp_plugin_api.Handler.Effects.{outcome}
use samp_plugin_api.Session.Foreign.{Logged, same, authorize-Logged}
use samp_plugin_api.Session.Serving.{Gate, serve, judge, let_in, aimed_at, served, keyed}

module _ {World Float : Type 0} (env : Env World Float) where
  -- What a gate lets in.
  abbrev IsLetIn : Gate → Request → Text → Type 0
  IsLetIn g req ip =
      IsAdmitted ip (whitelist g.config)
      × GivesBoth env g.password g.seed req.target (decode_body env.codec req.body)

  serve_answered :
      (v : Verb) (g : Gate) (ps : Entries) (req : Request) (ip : Text) (w : World)
      → (v ≡ post) ⊎ (v ≡ get)
      → served env v g ps req ip w ≡ let_in env ps req (judge env g req ip w)
  serve_answered post g ps req ip w k = refl
  serve_answered get g ps req ip w k = refl
  serve_answered (other_verb _) g ps req ip w (inl e) = cc
  serve_answered (other_verb _) g ps req ip w (inr e) = cc

  let_in-judge :
      (g : Gate) (ps : Entries) (req : Request) (ip : Text) (w : World)
      → IsLetIn g req ip
      → let_in env ps req (judge env g req ip w)
        ≡ aimed_at env (choose table req.target) ps req.body w
  let_in-judge g ps req ip w (a, b) =
      let h = keyed g in
      let s =
        (Signs-GivesBoth_iff env h req.target (decode_body env.codec req.body) refl refl).1 b in
      let granted : (judge env g req ip w).1 ≡ true =
        (authorize_iff env h g.config req ip w).1 (a, s) in
      let quiet : (judge env g req ip w).0 ≡ w =
        authorize_quiet env h g.config req ip w (inr (inr s)) in
      ap (let_in env ps req) (λ j. (quiet j, granted j))

  -- A `GET` or `POST` that is let in, whose target fits the template of a route, does to the game
  -- server exactly what the route stands for, on the name in the target.
  serve_let_in :
      (g : Gate) (ps : Entries) (req : Request) (ip : Text) (w : World) (i : ℕ) (tmpl : Text)
      (f : RouteHandler) (vs : List Text)
      → (req.verb ≡ post) ⊎ (req.verb ≡ get)
      → IsLetIn g req ip
      → get_elem? table i ≡ some (tmpl, f)
      → fits (template tmpl) req.target ≡ some vs
      → let name = or_blank (value_of (codes "name") (names (template tmpl)) vs) in
        serve env g ps req ip w ≡ (outcome env f name ps req.body w).0
  unfolding serve
  serve_let_in g ps req ip w i tmpl f vs k l e v =
      serve_answered req.verb g ps req ip w k
      ∙ let_in-judge g ps req ip w l
      ∙ ap (λ o. aimed_at env o ps req.body w) (choose-table i tmpl f req.target vs e v)
      ∙ ap (λ n. (outcome env f n ps req.body w).0) (get-answer (codes "name") (template tmpl) vs)

  let_in-Logged :
      (ps : Entries) (req : Request) (w : World) (j : World × Bool)
      → ¬ (j.1 ≡ true)
      → Logged env w j.0
      → Logged env w (let_in env ps req j)
  let_in-Logged ps req w (w', true) n l = absurd (n refl)
  let_in-Logged ps req w (w', false) n l = l

  judge-Logged :
      (g : Gate) (ps : Entries) (req : Request) (ip : Text) (w : World)
      → ¬ IsLetIn g req ip
      → Logged env w (let_in env ps req (judge env g req ip w))
  judge-Logged g ps req ip w n =
      let h = keyed g in
      let iff = Signs-GivesBoth_iff env h req.target (decode_body env.codec req.body) refl refl in
      let_in-Logged ps req w (judge env g req ip w)
        (λ e. let (a, s) = (authorize_iff env h g.config req ip w).0 e in n (a, iff.0 s))
        (authorize-Logged env h g.config req ip w)

  served-Logged :
      (v : Verb) (g : Gate) (ps : Entries) (req : Request) (ip : Text) (w : World)
      → ¬ IsLetIn g req ip
      → Logged env w (served env v g ps req ip w)
  served-Logged post g ps req ip w n = judge-Logged g ps req ip w n
  served-Logged get g ps req ip w n = judge-Logged g ps req ip w n
  served-Logged (other_verb _) g ps req ip w n = same

  -- Any request that is not let in leaves warnings in the log at most.
  serve_refused :
      (g : Gate) (ps : Entries) (req : Request) (ip : Text) (w : World)
      → ¬ IsLetIn g req ip
      → Logged env w (serve env g ps req ip w)
  unfolding serve
  serve_refused g ps req ip w n = served-Logged req.verb g ps req ip w n
