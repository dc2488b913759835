-- ===== src/Tests/Routes.antt =====
-- Requests and what they do to the game server.
use mathlib.Core.List.{filter_map}
use mathlib.Core.List.Perm
use samp_plugin_api.Prelude.{◌≡◌, refl, some, [], ◌∷◌, codes, text_eq}
use samp_plugin_api.Codecs.{decode_body}
use samp_plugin_api.Route.{or_blank, Returns}
use samp_plugin_api.Route.Template.{template, fits, names, value_of}
use samp_plugin_api.Session.{new_response}
use samp_plugin_api.Handler.{handle_request, on_weather}
use samp_plugin_api.Handler.Listing.{Lists, roster, handle_request-Lists}
use samp_plugin_api.Handler.Removal.{bans, IsName, Tells, native, handle_request-Tells}
use samp_plugin_api.Handler.Effects.{Shows, outcome, handle_request-Shows}
use samp_plugin_api.Players.Names.{ids}
use samp_plugin_api.Env.{Request}
use samp_plugin_api.Tests.{
  env, config, handler, handler-IsRegistered, players, request, remote, remote-IsAdmitted,
}

abbrev ban_request : Request
ban_request = request (codes "/player/ban/ann") 16 (codes "pw")

ann_alone : ids (codes "ann") players ≡ 1 ∷ []
unfolding text_eq filter_map
ann_alone = refl

ann-IsName : IsName (codes "ann")
ann-IsName = (λ e. cc, (λ e. cc, (λ e. cc, (λ e. cc, tt))))

handle_request-Tells_example :
    Returns
      (λ out. Tells env (native env bans 1 7) (out.1, out.2))
      (handle_request env handler config players ban_request new_response remote 5 7)
unfolding decode_body
handle_request-Tells_example =
    handle_request-Tells env bans (codes "ann") 1 handler config players ban_request new_response
      remote 5 7 handler-IsRegistered remote-IsAdmitted (refl, refl) ann-IsName refl
      (Perm.refl players) ann_alone

abbrev weather_request : Request
weather_request = request (codes "/settings/weather") 18 (codes "pw")

weather_request-fits : fits (template (codes "/settings/weather")) weather_request.target ≡ some []
unfolding fits template
weather_request-fits = refl

handle_request-Shows_example :
    Returns
      (λ out.
        Shows env
          (outcome env on_weather
            (or_blank (value_of (codes "name") (names (template (codes "/settings/weather"))) []))
            players
            weather_request.body
            7)
          (out.1, out.2))
      (handle_request env handler config players weather_request new_response remote 5 7)
unfolding decode_body
handle_request-Shows_example =
    handle_request-Shows env handler config players weather_request new_response remote 5 7 10
      (codes "/settings/weather") on_weather [] handler-IsRegistered remote-IsAdmitted (refl, refl)
      refl weather_request-fits

abbrev list_request : Request
list_request = request (codes "/player/list") 13 (codes "pw")

handle_request-Lists_example :
    Returns
      (λ out. (out.1 ≡ 7) × Lists env 7 (roster players) [] out.2)
      (handle_request env handler config players list_request new_response remote 5 7)
unfolding decode_body
handle_request-Lists_example =
    handle_request-Lists env handler config players list_request new_response remote 5 7
      handler-IsRegistered remote-IsAdmitted (refl, refl) refl (Perm.refl players)
