-- ===== src/Tests/Requests.antt =====
-- Requests, from the template of a route to the answer.
use samp_plugin_api.Prelude.{
  text_eq, ◌≡◌, ◌↔◌, refl, true, Option, none, some, List, [], ◌∷◌, Text, codes, All, arith,
}
use samp_plugin_api.Codecs.{decode_body, decode_int}
use samp_plugin_api.Messages.{decoded, message_object}
use samp_plugin_api.Route.{ok, test, get, new_match, new_route, Returns}
use samp_plugin_api.Route.Template.{template, fits, IsPlain, names}
use samp_plugin_api.Route.Laws.{aimed, answer, test_lem}
use samp_plugin_api.Regex.Parse.{symbol}
use samp_plugin_api.Session.{new_response}
use samp_plugin_api.Route.Filling.{fill, AreValues, test-fill, test_iff, Gives}
use samp_plugin_api.Handler.{
  find_route, handle_request, authorize, call, on_player_kick, on_weather,
}
use samp_plugin_api.Handler.Table.{table, find_route-table}
use samp_plugin_api.Handler.Access.{IsAdmitted, Signs, whitelist, authorize_iff}
use samp_plugin_api.Handler.Dispatch
use samp_plugin_api.Handler.Dispatch.{
  admitted, refusal, handle_request_lem, unauthorized, dispatched,
}
use samp_plugin_api.Handler.Encoding.{IsEncoded, handle_request-IsEncoded}
use samp_plugin_api.Handler.Status.{IsAnswer, handle_request-IsAnswer, not_found}
use samp_plugin_api.Handler.Answers.{call-Undecodable, failure}
use samp_plugin_api.Tests.{
  env, config, handler, handler-IsRegistered, players, request, remote, remote-IsAdmitted,
}

abbrev kick_template : Text
kick_template = codes "/player/kick/:name"

abbrev kick_url : Text
kick_url = codes "/player/kick/ann"

abbrev ann : Option (List Text)
ann = some (codes "ann" ∷ [])

kick_url-fits : fits (template kick_template) kick_url ≡ ann
unfolding fits template
kick_url-fits = refl

kick_template-IsPlain : IsPlain kick_template
unfolding template symbol
kick_template-IsPlain = (
  refl,
  (
    refl,
    (
      refl,
      (refl, (refl, (refl, (refl, (refl, (refl, (refl, (refl, (refl, (refl, (tt, tt))))))))))),
    ),
  ),
)

test_lem_example :
    test (aimed kick_url new_route) kick_template new_match
    ≡ ok (answer (template kick_template) (fits (template kick_template) kick_url))
test_lem_example = test_lem kick_template kick_url new_route new_match kick_template-IsPlain refl

-- A template with two parameters is filled, and the two values are read back.
abbrev pair : Text
pair = codes "/say/:name/:text"

abbrev pair_values : List Text
pair_values = codes "bob" ∷ codes "hi" ∷ []

pair-IsPlain : IsPlain pair
unfolding template symbol
pair-IsPlain = (refl, (refl, (refl, (refl, (refl, (tt, (refl, (tt, tt))))))))

test-fill_example :
    Returns
      (λ out. (out.1 ≡ true) × Gives (λ k. get k out.0) (template pair) pair_values)
      (test (aimed (fill (template pair) pair_values) new_route) pair new_match)
unfolding template names text_eq
test-fill_example =
    test-fill pair pair_values new_route new_match pair-IsPlain ((refl, tt), (tt, tt)) refl
      ((refl, (refl, (refl, tt))), ((refl, (refl, tt)), tt))

test_iff_example :
    Returns (λ out. out.1 ≡ true) (test (aimed kick_url new_route) kick_template new_match) ↔ (
      (vs : List Text) × (AreValues (template kick_template) vs
        × (fill (template kick_template) vs ≡ kick_url)))
test_iff_example = test_iff kick_template kick_url new_route new_match kick_template-IsPlain refl

find_route-table_example :
    find_route (aimed kick_url new_route) new_match table
    ≡ ok (some (on_player_kick, (answer (template kick_template) ann).0))
find_route-table_example =
    find_route-table 5 kick_template on_player_kick kick_url (codes "ann" ∷ []) new_route new_match
      refl kick_url-fits refl

authorize_iff_example :
    ((authorize env handler config (request kick_url 17 (codes "pw")) remote 7).1 ≡ true) ↔ (
      IsAdmitted remote (whitelist config)
      × Signs env handler kick_url (decoded (record { password = codes "pw"; hash = 17 })))
unfolding decode_body
authorize_iff_example = authorize_iff env handler config (request kick_url 17 (codes "pw")) remote 7

handle_request_lem_example :
    handle_request env handler config players
      (request kick_url 17 (codes "pw"))
      new_response
      remote
      5
      7
    ≡ (let (w', response') =
          admitted env players (request kick_url 17 (codes "pw")) new_response 5 (
            authorize env
              (Dispatch.after kick_url handler)
              config
              (request kick_url 17 (codes "pw"))
              remote
              7) in
        ok (Dispatch.after kick_url handler, w', response'))
handle_request_lem_example =
    handle_request_lem env handler config players (request kick_url 17 (codes "pw")) new_response
      remote 5 7 handler-IsRegistered

unauthorized_example :
    handle_request env handler config players
      (request kick_url 18 (codes "pw"))
      new_response
      remote
      5
      7
    ≡ (let w' =
          (authorize env
            (Dispatch.after kick_url handler)
            config
            (request kick_url 18 (codes "pw"))
            remote
            7).0 in
        let (_, response') = refusal env new_response 5 w' 401 (codes "Unauthorized") in
        ok (Dispatch.after kick_url handler, w', response'))
unfolding decode_body
unauthorized_example =
    unauthorized env handler config players (request kick_url 18 (codes "pw")) new_response remote 5
      7 handler-IsRegistered (λ (_, (_, h)). omega arith)

abbrev lost_url : Text
lost_url = codes "/player"

lost_url-unfit : All (λ e. fits (template e.0) lost_url ≡ none) table
unfolding fits template
lost_url-unfit =
    (refl, (refl, (refl, (refl, (refl, (refl, (refl, (refl, (refl, (refl, (refl, tt)))))))))))

not_found_example :
    handle_request env handler config players
      (request lost_url 8 (codes "pw"))
      new_response
      remote
      5
      7
    ≡ ok (
      Dispatch.after lost_url handler,
      7,
      (refusal env new_response 5 7 404 (codes "Invalid route")).1,
    )
unfolding decode_body
not_found_example =
    not_found env handler config players (request lost_url 8 (codes "pw")) new_response remote 5 7
      handler-IsRegistered remote-IsAdmitted (refl, refl) lost_url-unfit

handle_request-IsAnswer_example : Returns (IsAnswer env new_response) (
    handle_request env handler config players
      (request lost_url 8 (codes "pw"))
      new_response
      remote
      5
      7)
handle_request-IsAnswer_example =
    handle_request-IsAnswer env handler config players (request lost_url 8 (codes "pw"))
      new_response remote 5 7 handler-IsRegistered

handle_request-IsEncoded_example :
    Returns
      (λ out. IsEncoded env new_response out.2)
      (handle_request env handler config players
        (request lost_url 8 (codes "pw"))
        new_response
        remote
        5
        7)
handle_request-IsEncoded_example =
    handle_request-IsEncoded env handler config players (request lost_url 8 (codes "pw"))
      new_response remote 5 7 handler-IsRegistered

call-Undecodable_example :
    call env on_weather players new_match
      (record (request kick_url 17 []) { body = [] })
      new_response
      5
      7
    ≡ (
      7,
      record new_response {
        content_type = some (codes "application/json");
        status = 500;
        body = env.codec.encode (message_object (failure env (codes "empty") 5 7));
      },
    )
unfolding decode_int
call-Undecodable_example =
    call-Undecodable env on_weather players new_match
      (record (request kick_url 17 []) { body = [] }) new_response 5 7 (codes "empty") refl
