-- ===== src/Handler/Table.antt =====
-- The table of routes that `RegisterFunctions` makes, and what the loop over it finds.
use mathlib.Core.Bool.{and-eq-true_iff}
use mathlib.Core.Option.{some-injective}
use samp_plugin_api.Prelude.{
  ℕ, zero, suc, ◌≡◌, refl, sym, subst, ap, ◌∙◌, Bool, true, false, not, ◌&&◌, Option, none, some,
  List, [], ◌∷◌, Text, codes, All, get_elem?, text_eq, text_lt, arith, ◌==◌,
}
use samp_plugin_api.Prelude.OrdMap
use samp_plugin_api.Regex.Parse.{Symbol, symbol, plain}
use samp_plugin_api.Route.{Route, Match, ok}
use samp_plugin_api.Route.Template.{Token, lit, param, template, fits, IsPlain, IsPlainToken}
use samp_plugin_api.Route.Laws.{aimed, answer, test_lem}
use samp_plugin_api.Route.Overlap.{may_overlap, IsFit, not-may_overlap}
use samp_plugin_api.Handler.{
  RouteHandler, Routes, Handler, register_functions, find_route, on_player_list, on_player_kick,
  on_player_ban, on_say, on_echo, on_ipban, on_ipunban, on_gamemodetext, on_gravity, on_weather,
  on_settings_list,
}

-- The table, in the order of `std::map`.
abbrev pub table : Routes
table =
    (codes "/misc/echo", on_echo)
    ∷ (codes "/misc/ip/ban", on_ipban)
    ∷ (codes "/misc/ip/unban", on_ipunban)
    ∷ (codes "/misc/say", on_say)
    ∷ (codes "/player/ban/:name", on_player_ban)
    ∷ (codes "/player/kick/:name", on_player_kick)
    ∷ (codes "/player/list", on_player_list)
    ∷ (codes "/settings/gamemodetext", on_gamemodetext)
    ∷ (codes "/settings/gravity", on_gravity)
    ∷ (codes "/settings/list", on_settings_list)
    ∷ (codes "/settings/weather", on_weather)
    ∷ []

-- Registering in an empty map gives the table.
pub register_functions_lem :
    (h : Handler) → h.routes ≡ [] → register_functions h ≡ record h { routes = table }
unfolding register_functions OrdMap.emplace OrdMap.find OrdMap.place text_eq text_lt
register_functions_lem h e = rw e refl

-- Checks of a table by evaluation.
abbrev is_plain_symbol : ℕ → Symbol → Bool
is_plain_symbol c (plain d) = c == d
is_plain_symbol c _ = false

is_plain : List Token → Bool
is_plain [] = true
is_plain (lit c ∷ ts) = is_plain_symbol c (symbol c) && is_plain ts
is_plain (param _ ∷ ts) = is_plain ts

all_plain : Routes → Bool
unfolding is_plain
all_plain [] = true
all_plain ((tmpl, _) ∷ routes) = is_plain (template tmpl) && all_plain routes

-- No template of the second table overlaps the first argument.
apart_from : List Token → Routes → Bool
apart_from ts [] = true
apart_from ts ((tmpl, _) ∷ routes) = not (may_overlap ts (template tmpl)) && apart_from ts routes

all_apart : Routes → Bool
unfolding apart_from
all_apart [] = true
all_apart ((tmpl, _) ∷ routes) = apart_from (template tmpl) routes && all_apart routes

table_plain : all_plain table ≡ true
unfolding all_plain template symbol
table_plain = refl

table_apart : all_apart table ≡ true
unfolding all_apart template may_overlap
table_apart = refl

is_plain_symbol_sound : (c : ℕ) (s : Symbol) → is_plain_symbol c s ≡ true → s ≡ plain c
is_plain_symbol_sound c (plain d) h = ground arith
is_plain_symbol_sound c _ h = cc

is_plain_sound : (ts : List Token) → is_plain ts ≡ true → All IsPlainToken ts
unfolding is_plain
is_plain_sound [] h = tt
is_plain_sound (lit c ∷ ts) h =
    let (e, k) = (and-eq-true_iff _ _).0 h in
    (is_plain_symbol_sound c (symbol c) e, is_plain_sound ts k)
is_plain_sound (param _ ∷ ts) h = (tt, is_plain_sound ts h)

abbrev ArePlain : Routes → Type 0
ArePlain routes = All (λ e. IsPlain e.0) routes

all_plain_sound : (routes : Routes) → all_plain routes ≡ true → ArePlain routes
unfolding all_plain
all_plain_sound [] h = tt
all_plain_sound ((tmpl, _) ∷ routes) h =
    let (e, k) = (and-eq-true_iff _ _).0 h in
    (is_plain_sound (template tmpl) e, all_plain_sound routes k)

-- What the loop over the routes finds, from the meaning of the templates alone.
abbrev chosen :
    Text
    → RouteHandler
    → Option (List Text)
    → Option (RouteHandler × Match)
    → Option (RouteHandler × Match)
chosen tmpl function none later = later
chosen tmpl function (some vs) later = some (function, (answer (template tmpl) (some vs)).0)

unfoldable pub choose : Routes → Text → Option (RouteHandler × Match)
choose [] u = none
choose ((tmpl, function) ∷ routes) u =
    chosen tmpl function (fits (template tmpl) u) (choose routes u)

pub find_route_lem :
    (routes : Routes) (u : Text) (r : Route) (m : Match)
    → ArePlain routes
    → r.cache ≡ []
    → find_route (aimed u r) m routes ≡ ok (choose routes u)
unfolding find_route choose
find_route_lem [] u r m h e = refl
find_route_lem ((tmpl, function) ∷ routes) u r m (p, h) e =
    rw (test_lem tmpl u r m p e)
      (later (fits (template tmpl) u) (λ m'. find_route_lem routes u r m' h e))
  where
    later :
        (o : Option (List Text))
        → ((m' : Match) → find_route (aimed u r) m' routes ≡ ok (choose routes u))
        → (elim (answer (template tmpl) o).1 [
          | true ↦ ok (some (function, (answer (template tmpl) o).0))
          | false ↦ find_route (aimed u r) (answer (template tmpl) o).0 routes
        ])
          ≡ ok (chosen tmpl function o (choose routes u))
    later none ih = ih _
    later (some vs) ih = refl

apart_from_elem :
    (ts : List Token) (routes : Routes) (i : ℕ) (tmpl : Text) (function : RouteHandler)
    → apart_from ts routes ≡ true
    → get_elem? routes i ≡ some (tmpl, function)
    → may_overlap ts (template tmpl) ≡ false
unfolding apart_from
apart_from_elem ts [] i tmpl function h e = cc
apart_from_elem ts ((t, g) ∷ routes) zero tmpl function h e =
    subst (λ x. may_overlap ts (template x.0) ≡ false) (some-injective _ _ e) (ground arith)
apart_from_elem ts ((t, g) ∷ routes) (suc i) tmpl function h e =
    apart_from_elem ts routes i tmpl function ((and-eq-true_iff _ _).0 h).1 e

unfit : (o : Option (List Text)) → ¬ IsFit o → o ≡ none
unfit none h = refl
unfit (some _) h = absurd (h tt)

choose_apart :
    (routes : Routes) (i : ℕ) (tmpl : Text) (function : RouteHandler) (u : Text) (vs : List Text)
    → all_apart routes ≡ true
    → get_elem? routes i ≡ some (tmpl, function)
    → fits (template tmpl) u ≡ some vs
    → choose routes u ≡ some (function, (answer (template tmpl) (some vs)).0)
unfolding all_apart choose
choose_apart [] i tmpl function u vs h e f = cc
choose_apart ((t, g) ∷ routes) zero tmpl function u vs h e f =
    subst
      (λ x.
        chosen x.0 x.1 (fits (template x.0) u) (choose routes u)
        ≡ some (function, (answer (template tmpl) (some vs)).0))
      (sym (some-injective _ _ e)) (rw f refl)
choose_apart ((t, g) ∷ routes) (suc i) tmpl function u vs h e f =
    let (here, later) = (and-eq-true_iff _ _).0 h in
    let apart = apart_from_elem (template t) routes i tmpl function here e in
    let fit : IsFit (fits (template tmpl) u) = rw f tt in
    rw
      (unfit (fits (template t) u)
        (λ k. not-may_overlap (template t) (template tmpl) u apart k fit))
      (choose_apart routes i tmpl function u vs later e f)

pub table-ArePlain : ArePlain table
table-ArePlain = all_plain_sound table table_plain

-- The choice among the registered routes.
pub choose-table :
    (i : ℕ) (tmpl : Text) (function : RouteHandler) (u : Text) (vs : List Text)
    → get_elem? table i ≡ some (tmpl, function)
    → fits (template tmpl) u ≡ some vs
    → choose table u ≡ some (function, (answer (template tmpl) (some vs)).0)
choose-table i tmpl function u vs e f = choose_apart table i tmpl function u vs table_apart e f

-- A url that fits the template of a route of `RegisterFunctions` reaches that route's function,
-- wherever the others stand in the table, and the match holds the values of its parameters; so no
-- url fits two of the templates. It is found without an error, by the loop of `HandleRequest` over
-- a route that `set` has returned with an empty cache.
pub find_route-table :
    (i : ℕ) (tmpl : Text) (function : RouteHandler) (u : Text) (vs : List Text) (r : Route)
    (m : Match)
    → get_elem? table i ≡ some (tmpl, function)
    → fits (template tmpl) u ≡ some vs
    → r.cache ≡ []
    → find_route (aimed u r) m table ≡ ok (some (function, (answer (template tmpl) (some vs)).0))
find_route-table i tmpl function u vs r m e f c =
    find_route_lem table u r m table-ArePlain c ∙ ap ok (choose-table i tmpl function u vs e f)
