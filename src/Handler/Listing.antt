-- ===== src/Handler/Listing.antt =====
-- The answer of /player/list, as a view of the players that forgets their order.
use mathlib.Core.List.{Perm}
use mathlib.Core.List.Perm
use samp_plugin_api.Prelude.{
  ℕ, ◌≡◌, refl, sym, subst, ap, ◌∙◌, Option, none, some, List, [], ◌∷◌, ◌++◌, Text, codes, map,
  length, length-map, text_eq, if◌then◌else◌, Bag, bag_of, bag_of-Perm, size, map_bag, size-bag_of,
  map_bag-bag_of,
}
use samp_plugin_api.Config.{Config}
use samp_plugin_api.Players.{Player, Entries, player_data, get_player_data, to_u32}
use samp_plugin_api.Players.Data.{get_player_data_lem}
use samp_plugin_api.Messages.{Field, Object, num, player_fields, players_object}
use samp_plugin_api.Codecs.{decode_body}
use samp_plugin_api.Env.{Env, Request, Response}
use samp_plugin_api.Route.{Match, Returns}
use samp_plugin_api.Route.Template.{template, fits}
use samp_plugin_api.Functions.{player_list}
use samp_plugin_api.Handler.{Handler, on_player_list, run_players, finalize, call, handle_request}
use samp_plugin_api.Handler.Access.{IsAdmitted, Signs, whitelist}
use samp_plugin_api.Handler.Dispatch.{IsRegistered, dispatched}
use samp_plugin_api.Handler.Encoding.{field}

-- The players of a map, without their order.
abbrev pub roster : Entries → Bag Player
roster ps = bag_of (map (λ e. e.1) ps)

module _ {Float : Type 0} where
  -- The array of an object with a name.
  pub array : Text → List (Text × List (List (Field Float))) → Option (List (List (Field Float)))
  array k [] = none
  array k ((n, rows) ∷ rest) = if text_eq n k then some rows else array k rest

module _ {World Float : Type 0} (env : Env World Float) where
  open env use {samp, order}

  -- What is reported of a player.
  abbrev row_of : World → Player → List (Field Float)
  row_of w p = player_fields (player_data samp w p)

  -- An object was appended to the body that counts and reports each player once.
  pub record Lists (w : World) (players : Bag Player) (before : Text) (response : Response)
      : Type 0 where
    pub object : Object Float
    pub rows : List (List (Field Float))
    pub body : response.body ≡ before ++ env.codec.encode object
    pub count : field (codes "count") object.fields ≡ some (num (to_u32 (size players)))
    pub found : array (codes "players") object.rows ≡ some rows
    pub reported : bag_of rows ≡ map_bag (row_of w) players

  rows-roster :
      (w : World) (ps : Entries)
      → map player_fields (get_player_data samp w ps []) ≡ map (row_of w) (map (λ e. e.1) ps)
  rows-roster w ps = ap (map player_fields) (get_player_data_lem samp w ps []) ∙ fuse ps
    where
      fuse :
          (es : Entries)
          → map player_fields (map (λ e. player_data samp w e.1) es)
            ≡ map (row_of w) (map (λ e. e.1) es)
      fuse [] = refl
      fuse (e ∷ es) = ap (row_of w e.1 ∷◌) (fuse es)

  length-get_player_data :
      (w : World) (ps : Entries)
      → length (get_player_data samp w ps []) ≡ length (map (λ e. e.1) ps)
  length-get_player_data w ps =
      ap length (get_player_data_lem samp w ps [])
      ∙ length-map (λ e. player_data samp w e.1) ps
      ∙ sym (length-map (λ e. e.1) ps)

  roster-Perm : (ps qs : Entries) → Perm ps qs → roster ps ≡ roster qs
  roster-Perm ps qs h = bag_of-Perm (Perm.map (λ e. e.1) h)

  call-Lists :
      (ps : Entries) (m : Match) (req : Request) (response : Response) (p : ℕ) (w : World)
      → Perm (order ps) ps
      → let (w', response') = call env on_player_list ps m req response p w in
        (w' ≡ w) × Lists w (roster ps) response.body response'
  unfolding call run_players finalize player_list players_object array field text_eq
  call-Lists ps m req response p w h = (
    refl,
    record {
      object = _;
      rows = _;
      body = refl;
      count =
          ap (λ n. some (num (to_u32 n)))
            (length-get_player_data w (order ps)
              ∙ sym (size-bag_of (map (λ e. e.1) (order ps)))
              ∙ ap size (roster-Perm (order ps) ps h));
      found = refl;
      reported =
          ap bag_of (rows-roster w (order ps))
          ∙ sym (map_bag-bag_of (row_of w) (map (λ e. e.1) (order ps)))
          ∙ ap (map_bag (row_of w)) (roster-Perm (order ps) ps h);
    },
  )

  list_url-fits : fits (template (codes "/player/list")) (codes "/player/list") ≡ some []
  unfolding template fits
  list_url-fits = refl

  -- An authorised request for /player/list, to a handler that has registered its functions: the
  -- answer raises no error and leaves the game server alone. One object is appended to the body,
  -- whose count is the number of the players as a uint32_t, and whose array reports every player
  -- once. The players count as a bag here, so no more is said of their order than the hash map
  -- promises.
  pub handle_request-Lists :
      (h : Handler) (config : Config) (ps : Entries) (req : Request) (response : Response)
      (remote : Text) (p : ℕ) (w : World)
      → IsRegistered h
      → IsAdmitted remote (whitelist config)
      → Signs env h req.target (decode_body env.codec req.body)
      → req.target ≡ codes "/player/list"
      → Perm (order ps) ps
      → Returns
          (λ out. (out.1 ≡ w) × Lists w (roster ps) response.body out.2)
          (handle_request env h config ps req response remote p w)
  handle_request-Lists h config ps req response remote p w g a s t perm =
      subst (Returns (λ out. (out.1 ≡ w) × Lists w (roster ps) response.body out.2))
        (sym (
          dispatched env h config ps req response remote p w 6 (codes "/player/list") on_player_list
            [] g a s refl (ap (fits (template (codes "/player/list"))) t ∙ list_url-fits)))
        (call-Lists ps _ req (record response { status = 200 }) p w perm)
