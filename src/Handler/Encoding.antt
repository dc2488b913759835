-- ===== src/Handler/Encoding.antt =====
-- The body of an answer, as a JSON object.
use samp_plugin_api.Prelude.{
  All, map, ℕ, ◌≡◌, refl, Bool, true, false, Option, none, some, List, [], ◌∷◌, ◌++◌, Text, codes,
  text_eq, if◌then◌else◌,
}
use samp_plugin_api.Config.{Config}
use samp_plugin_api.Players.{Entries}
use samp_plugin_api.Messages.{
  unset, Settings, Decoded, player_fields, Field, Value, num, Object, message_object,
  players_object, settings_object, Message,
}
use samp_plugin_api.Players.{PlayerData}
use samp_plugin_api.Env.{Env, Request, Response}
use samp_plugin_api.Route.{Match, Returns}
use samp_plugin_api.Functions.{player_list, settings_list, Handled}
use samp_plugin_api.Handler.{
  RouteHandler, Handler, on_player_list, on_settings_list, finalize, invalid_message, run_message,
  run_players, run_settings, call, handle_request, authorize,
}
use samp_plugin_api.Handler.Table.{table, choose}
use samp_plugin_api.Handler.Dispatch.{IsRegistered, after, routed, admitted, handle_request_lem}

-- The value of the first field with a name.
unfoldable pub field : {Float : Type 0} → Text → List (Field Float) → Option (Value Float)
field k [] = none
field k (f ∷ fs) = if text_eq f.name k then some f.value else field k fs

module _ {Float : Type 0} where
  -- No field is a number that was never written.
  abbrev pub IsWritten : Value Float → Type 0
  IsWritten unset = ⊥
  IsWritten _ = Unit

  abbrev AreWritten : List (Field Float) → Type 0
  AreWritten = All (λ f. IsWritten f.value)

  abbrev pub IsComplete : Object Float → Type 0
  IsComplete o = AreWritten o.fields × All (λ row. All AreWritten row.1) o.rows

  players-AreWritten : (ps : List (PlayerData Float)) → All AreWritten (map player_fields ps)
  unfolding player_fields
  players-AreWritten [] = tt
  players-AreWritten (p ∷ ps) = (
    (tt, (tt, (tt, (tt, (tt, (tt, (tt, (tt, (tt, (tt, (tt, (tt, tt)))))))))))),
    players-AreWritten ps,
  )

module _ {World Float : Type 0} (env : Env World Float) where
  -- A JSON object without unset fields was appended to the body, and its `code` is the status.
  pub record IsEncoded (response response' : Response) : Type 0 where
    pub object : Object Float
    pub content_type : response'.content_type ≡ some (codes "application/json")
    pub body : response'.body ≡ response.body ++ env.codec.encode object
    pub code : field (codes "code") object.fields ≡ some (num response'.status)
    pub complete : IsComplete object

  invalid_message-IsEncoded :
      (response : Response) (p : ℕ) (m : Message) (w : World)
      → IsEncoded response (invalid_message env response p m w)
  unfolding invalid_message finalize field text_eq message_object
  invalid_message-IsEncoded response p m w = record {
    object = _;
    content_type = refl;
    body = refl;
    code = refl;
    complete = ((tt, (tt, (tt, (tt, tt)))), tt);
  }

  run_message-IsEncoded :
      (handled : Handled World Message) (response : Response) (p : ℕ)
      → IsEncoded response (run_message env handled response p).1
  unfolding run_message finalize field text_eq message_object
  run_message-IsEncoded handled response p = record {
    object = _;
    content_type = refl;
    body = refl;
    code = refl;
    complete = ((tt, (tt, (tt, (tt, tt)))), tt);
  }

  run_players-IsEncoded :
      (base : Message) (players : List (PlayerData Float)) (n : ℕ) (result : Decoded Bool)
      (w : World) (response : Response) (p : ℕ)
      → IsEncoded response
          (run_players env
            (w, record { base = base; players = players; count = some n }, result)
            response
            p).1
  unfolding run_players finalize field text_eq players_object
  run_players-IsEncoded base players n result w response p = record {
    object = _;
    content_type = refl;
    body = refl;
    code = refl;
    complete = ((tt, (tt, (tt, (tt, (tt, tt))))), (players-AreWritten players, tt));
  }

  run_settings-IsEncoded :
      (base : Message) (settings : Settings Float) (result : Decoded Bool) (w : World)
      (response : Response) (p : ℕ)
      → IsEncoded response
          (run_settings env
            (w, record { base = base; settings = some settings }, result)
            response
            p).1
  unfolding run_settings finalize field text_eq settings_object
  run_settings-IsEncoded base settings result w response p = record {
    object = _;
    content_type = refl;
    body = refl;
    code = refl;
    complete = ((tt, (tt, (tt, (tt, (tt, (tt, (tt, (tt, (tt, (tt, tt)))))))))), tt);
  }

  call-IsEncoded :
      (f : RouteHandler) (ps : Entries) (m : Match) (req : Request) (response : Response) (p : ℕ)
      (w : World)
      → IsEncoded response (call env f ps m req response p w).1
  unfolding call player_list settings_list
  call-IsEncoded on_player_list ps m req response p w = run_players-IsEncoded _ _ _ _ _ response p
  call-IsEncoded on_settings_list ps m req response p w = run_settings-IsEncoded _ _ _ _ response p
  call-IsEncoded _ ps m req response p w = run_message-IsEncoded _ response p

  routed-IsEncoded :
      (ps : Entries) (req : Request) (response : Response) (p : ℕ) (w : World)
      (o : Option (RouteHandler × Match))
      → IsEncoded response (routed env ps req response p w o).1
  routed-IsEncoded ps req response p w none = invalid_message-IsEncoded response p _ w
  routed-IsEncoded ps req response p w (some (f, m)) =
      let called = call-IsEncoded f ps m req (record response { status = 200 }) p w in
      record {
        object = called.object;
        content_type = called.content_type;
        body = called.body;
        code = called.code;
        complete = called.complete;
      }

  admitted-IsEncoded :
      (ps : Entries) (req : Request) (response : Response) (p : ℕ) (auth : World × Bool)
      → IsEncoded response (admitted env ps req response p auth).1
  admitted-IsEncoded ps req response p (w, false) = invalid_message-IsEncoded response p _ w
  admitted-IsEncoded ps req response p (w, true) =
      routed-IsEncoded ps req response p w (choose table req.target)

  -- Every answer of a handler that has registered its functions, whatever its status, is one JSON object behind what the body
  -- held, of the content type application/json, the field `code` of the object is
  -- the status, and no field of it is a number that was never written.
  pub handle_request-IsEncoded :
      (h : Handler) (config : Config) (ps : Entries) (req : Request) (response : Response)
      (remote : Text) (p : ℕ) (w : World)
      → IsRegistered h
      → Returns
          (λ out. IsEncoded response out.2)
          (handle_request env h config ps req response remote p w)
  handle_request-IsEncoded h config ps req response remote p w g =
      rw (handle_request_lem env h config ps req response remote p w g) (
        admitted-IsEncoded ps req response p
          (authorize env (after req.target h) config req remote w))
