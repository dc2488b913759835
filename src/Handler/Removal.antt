-- ===== src/Handler/Removal.antt =====
-- A request to kick or to ban a player, from the target of the request to the native.
use samp_plugin_api.Prelude.{
  ℕ, ◌≡◌, ◌≢◌, refl, sym, subst, ap, ◌∙◌, Bool, true, false, some, [], ◌∷◌, ◌++◌, Text, codes, All,
  get_elem?, text_eq, arith, if◌then◌else◌,
}
use mathlib.Core.List.{Perm}
use samp_plugin_api.Config.{Config}
use samp_plugin_api.Players.{Entries}
use samp_plugin_api.Players.Names.{ids}
use samp_plugin_api.Messages.{Message, decoded}
use samp_plugin_api.Codecs.{decode_body}
use samp_plugin_api.Env.{Env, Request, Response}
use samp_plugin_api.Route
use samp_plugin_api.Route.{Match, Returns}
use samp_plugin_api.Route.Template.{template, fits, word, after, names, value_of, param}
use samp_plugin_api.Route.Laws.{answer, get-answer}
use samp_plugin_api.Functions.{Handled, player_kick, player_ban}
use samp_plugin_api.Functions.Effects.{kick-ban_unique}
use samp_plugin_api.Handler.{
  RouteHandler, Handler, on_player_kick, on_player_ban, run_message, conclude, finalize, call,
  handle_request, fresh_message,
}
use samp_plugin_api.Handler.Table.{table}
use samp_plugin_api.Handler.Access.{IsAdmitted, Signs, whitelist}
use samp_plugin_api.Handler.Dispatch.{IsRegistered, dispatched}

pub data Removal : Type 0 where
  kicks bans : Removal

-- The part of the target before the name.
abbrev pub prefix : Removal → Text
prefix kicks = codes "/player/kick/"
prefix bans = codes "/player/ban/"

abbrev place : Removal → ℕ
place kicks = 5
place bans = 4

abbrev route : Removal → RouteHandler
route kicks = on_player_kick
route bans = on_player_ban

abbrev route_template : Removal → Text
route_template kicks = codes "/player/kick/:name"
route_template bans = codes "/player/ban/:name"

at_place : (r : Removal) → get_elem? table (place r) ≡ some (route_template r, route r)
at_place kicks = refl
at_place bans = refl

-- A text that can stand for a parameter.
abbrev pub IsName : Text → Type 0
IsName name = (name ≢ []) × All {A = ℕ} (λ c. c ≢ b'/') name

word_self : (t : Text) → All {A = ℕ} (λ c. c ≢ b'/') t → (word t ≡ t) × (after t ≡ [])
unfolding word after
word_self [] h = (refl, refl)
word_self (c ∷ t) (n, h) = ground (arith, word_self t h)

fits-param : (n name : Text) → IsName name → fits (param n ∷ []) name ≡ some (name ∷ [])
unfolding fits
fits-param n [] (k, h) = absurd (k refl)
fits-param n (c ∷ t) (k, h) = let (e, f) = word_self (c ∷ t) h in rw (e, fits) (rw (f, fits) refl)

fits-prefix :
    (r : Removal) (name : Text)
    → IsName name
    → fits (template (route_template r)) (prefix r ++ name) ≡ some (name ∷ [])
unfolding template fits
fits-prefix kicks name h = fits-param (codes "name") name h
fits-prefix bans name h = fits-param (codes "name") name h

get-name :
    (r : Removal) (name : Text)
    → Route.get (codes "name") (answer (template (route_template r)) (some (name ∷ []))).0 ≡ name
unfolding template names value_of text_eq
get-name kicks name = get-answer (codes "name") (template (route_template kicks)) (name ∷ [])
get-name bans name = get-answer (codes "name") (template (route_template bans)) (name ∷ [])

module _ {World Float : Type 0} (env : Env World Float) where
  open env use {samp, order}

  abbrev pub native : Removal → ℕ → World → World × Bool
  native kicks = samp.kick
  native bans = samp.ban

  -- What a native has done, with the status that tells of its result.
  abbrev pub Tells : World × Bool → World × Response → Type 0
  Tells (w', done) (w, response) = (w ≡ w') × (response.status ≡ (if done then 200 else 417))

  run_message-Tells :
      (handled : Handled World Message) (response : Response) (p : ℕ) (done : World × Bool)
      → handled.0 ≡ done.0
      → handled.2 ≡ decoded done.1
      → Tells done (run_message env handled response p)
  unfolding run_message finalize conclude
  run_message-Tells (w, msg, _) response p (w', true) e f = (e, rw f refl)
  run_message-Tells (w, msg, _) response p (w', false) e f = (e, rw f refl)

  call-Tells :
      (r : Removal) (ps : Entries) (m : Match) (req : Request) (response : Response) (p i : ℕ)
      (w : World)
      → Perm (order ps) ps
      → ids (Route.get (codes "name") m) ps ≡ i ∷ []
      → Tells (native r i w) (call env (route r) ps m req response p w)
  unfolding call
  call-Tells kicks ps m req response p i w h e =
      let (k, l, _, _) = kick-ban_unique env ps m w (fresh_message env) i h e in
      run_message-Tells (player_kick env ps m w (fresh_message env)) response p (samp.kick i w) k l
  call-Tells bans ps m req response p i w h e =
      let (_, _, k, l) = kick-ban_unique env ps m w (fresh_message env) i h e in
      run_message-Tells (player_ban env ps m w (fresh_message env)) response p (samp.ban i w) k l

  -- An authorised request, to a handler that has registered its functions, whose target is
  -- /player/kick/ or /player/ban/ and then a name that one player bears, is answered without an
  -- error, whatever the order of the players: what happens to the game server is the native for that
  -- player and nothing else, and the status is 200 where the native succeeds, and 417 where it fails.
  -- The name is not empty and has no slash.
  pub handle_request-Tells :
      (r : Removal) (name : Text) (i : ℕ) (h : Handler) (config : Config) (ps : Entries)
      (req : Request) (response : Response) (remote : Text) (p : ℕ) (w : World)
      → IsRegistered h
      → IsAdmitted remote (whitelist config)
      → Signs env h req.target (decode_body env.codec req.body)
      → IsName name
      → req.target ≡ prefix r ++ name
      → Perm (order ps) ps
      → ids name ps ≡ i ∷ []
      → Returns
          (λ out. Tells (native r i w) (out.1, out.2))
          (handle_request env h config ps req response remote p w)
  handle_request-Tells r name i h config ps req response remote p w g a s n t perm one =
      subst (Returns (λ out. Tells (native r i w) (out.1, out.2)))
        (sym (
          dispatched env h config ps req response remote p w (place r) (route_template r) (route r)
            (name ∷ []) g a s (at_place r)
            (ap (fits (template (route_template r))) t ∙ fits-prefix r name n)))
        (call-Tells r ps _ req (record response { status = 200 }) p i w perm
          (ap (λ k. ids k ps) (get-name r name) ∙ one))
