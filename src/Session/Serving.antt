-- ===== src/Session/Serving.antt =====
-- What a request does to the game server, and what its client is answered, told without sessions,
-- handlers and regular expressions.
use samp_plugin_api.Prelude.{
  ap, length, ℕ, ◌≡◌, refl, Bool, true, false, Option, none, some, Text, codes,
}
use samp_plugin_api.Config.{Config}
use samp_plugin_api.Players.{Entries}
use samp_plugin_api.Env.{Env, Request, Response, Verb, post, get, other_verb}
use samp_plugin_api.Route
use samp_plugin_api.Route.{Match, ok, Returns, Returns-bind, new_route}
use samp_plugin_api.Handler.{RouteHandler, Handler, authorize}
use samp_plugin_api.Handler.Table.{table, choose}
use samp_plugin_api.Handler.Dispatch.{IsRegistered, after, admitted, routed, handle_request_lem}
use samp_plugin_api.Handler.Effects.{outcome, call-Shows}
use samp_plugin_api.Session.{Session, create_response, by_verb, process_request, write}
use samp_plugin_api.Session.Isolation.{authorize-SameCredentials}

-- What the plugin asks of a request.
pub record Gate : Type 0 where
  pub config : Config
  pub password : Text
  pub seed : ℕ

abbrev pub gate : Config → Handler → Gate
gate config h = record { config = config; password = h.password; seed = h.seed }

-- What a client sees of its session: when it came, and the response as it stands.
pub record Client : Type 0 where
  pub arrived : ℕ
  pub answer : Response

abbrev pub client_of : Session → Client
client_of s = record { arrived = s.init_time; answer = s.response }

-- A response before and after the handler has filled it in.
abbrev pub prepared : Request → Response → Response
prepared req r = record r { version = req.version; keep_alive = false }

abbrev pub counted : Response → Response
counted r = record r { content_length = some (length r.body) }

abbrev pub sent : Client → Client
sent c = record c { answer = counted c.answer }

-- A new handler with the password and the seed.
abbrev pub keyed : Gate → Handler
keyed g = record { password = g.password; seed = g.seed; routes = table; route = new_route }

module _ {World Float : Type 0} (env : Env World Float) where
  abbrev pub judge : Gate → Request → Text → World → World × Bool
  judge g req ip w = authorize env (keyed g) g.config req ip w

  abbrev pub aimed_at : Option (RouteHandler × Match) → Entries → Text → World → World
  aimed_at none ps body w = w
  aimed_at (some (f, m)) ps body w = (outcome env f (Route.get (codes "name") m) ps body w).0

  -- A request that is let in does what its route stands for; any other leaves its warning.
  abbrev pub let_in : Entries → Request → World × Bool → World
  let_in ps req (w, true) = aimed_at (choose table req.target) ps req.body w
  let_in ps req (w, false) = w

  -- `GET` and `POST` are served alike, and other verbs do nothing.
  abbrev pub served : Verb → Gate → Entries → Request → Text → World → World
  served post g ps req ip w = let_in ps req (judge g req ip w)
  served get g ps req ip w = let_in ps req (judge g req ip w)
  served (other_verb _) g ps req ip w = w

  unfoldable pub serve : Gate → Entries → Request → Text → World → World
  serve g ps req ip w = served req.verb g ps req ip w

  -- What the client is answered.
  abbrev pub replied : Verb → Gate → Entries → Request → Text → World → Client → Response
  replied post g ps req ip w c = (admitted env ps req c.answer c.arrived (judge g req ip w)).1
  replied get g ps req ip w c = (admitted env ps req c.answer c.arrived (judge g req ip w)).1
  replied (other_verb _) g ps req ip w c = c.answer

  unfoldable pub reply : Gate → Entries → Request → Text → World → Client → Client
  reply g ps req ip w c =
      let c' = record c { answer = prepared req c.answer } in
      sent (record c { answer = replied req.verb g ps req ip w c' })

  routed-aimed_at :
      (ps : Entries) (req : Request) (response : Response) (p : ℕ) (w : World)
      (o : Option (RouteHandler × Match))
      → (routed env ps req response p w o).0 ≡ aimed_at o ps req.body w
  routed-aimed_at ps req response p w none = refl
  routed-aimed_at ps req response p w (some (f, m)) =
      (call-Shows env f ps m req (record response { status = 200 }) p w).0

  admitted-let_in :
      (ps : Entries) (req : Request) (response : Response) (p : ℕ) (auth : World × Bool)
      → (admitted env ps req response p auth).0 ≡ let_in ps req auth
  admitted-let_in ps req response p (w, false) = refl
  admitted-let_in ps req response p (w, true) =
      routed-aimed_at ps req response p w (choose table req.target)

  judge-authorize :
      (h : Handler) (config : Config) (req : Request) (ip : Text) (w : World)
      → authorize env (after req.target h) config req ip w ≡ judge (gate config h) req ip w
  judge-authorize h config req ip w =
      authorize-SameCredentials env (keyed (gate config h)) (after req.target h) config req ip w
        (record { password = refl; seed = refl })

  -- What a call leaves of the game server and of the session.
  abbrev pub Leaves : World → Client → Handler × World × Session → Type 0
  Leaves w c out = (out.1 ≡ w) × (client_of out.2 ≡ c)

  create_response-Leaves :
      (h : Handler) (config : Config) (ps : Entries) (w : World) (req : Request) (ip : Text)
      (s : Session)
      → IsRegistered h
      → let j = judge (gate config h) req ip w in
        Returns
          (Leaves (let_in ps req j) (record {
            arrived = s.init_time;
            answer = (admitted env ps req s.response s.init_time j).1;
          }))
          (create_response env h config ps w req (some ip) s)
  unfolding create_response
  create_response-Leaves h config ps w req ip s g =
      rw
        (
          handle_request_lem env h config ps req s.response ip s.init_time w g,
          judge-authorize h config req ip w,
        )
        (admitted-let_in ps req s.response s.init_time (judge (gate config h) req ip w), refl)

  by_verb-Leaves :
      (v : Verb) (h : Handler) (config : Config) (ps : Entries) (w : World) (req : Request)
      (ip : Text) (s : Session)
      → IsRegistered h
      → Returns
          (Leaves (served v (gate config h) ps req ip w) (record {
            arrived = s.init_time;
            answer = replied v (gate config h) ps req ip w (client_of s);
          }))
          (by_verb env v h config ps w req (some ip) s)
  unfolding by_verb
  by_verb-Leaves post h config ps w req ip s g = create_response-Leaves h config ps w req ip s g
  by_verb-Leaves get h config ps w req ip s g = create_response-Leaves h config ps w req ip s g
  by_verb-Leaves (other_verb _) h config ps w req ip s g = (refl, refl)

  -- A session that processes a request by a registered handler does to the game server what the
  -- request stands for, and answers what it is to be replied.
  pub process_request-Leaves :
      (h : Handler) (config : Config) (ps : Entries) (w : World) (req : Request) (ip : Text)
      (s : Session)
      → IsRegistered h
      → Returns
          (Leaves
            (serve (gate config h) ps req ip w)
            (reply (gate config h) ps req ip w (client_of s)))
          (process_request env h config ps w req (some ip) s)
  unfolding process_request serve reply write
  process_request-Leaves h config ps w req ip s g =
      Returns-bind
        (Leaves (served req.verb (gate config h) ps req ip w) (record {
          arrived = s.init_time;
          answer =
              replied req.verb (gate config h) ps req ip w
                (record { arrived = s.init_time; answer = prepared req s.response });
        }))
        _ _ _ (by_verb-Leaves req.verb h config ps w req ip _ g) (λ out (e, f). (e, ap sent f))
