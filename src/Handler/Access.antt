-- ===== src/Handler/Access.antt =====
-- Who is let in: `Handler::Authorize`.
use samp_plugin_api.Prelude.{
  tests, ℕ, ◌≡◌, ◌↔◌, ◌⊎◌, refl, sym, ap, ◌∙◌, Bool, true, false, List, [], ◌∷◌, Text, codes, ◌==◌,
  arith, length, inl, inr,
}
use samp_plugin_api.Config.{Config, get_args}
use samp_plugin_api.Messages.{BodyRequest, Decoded, decoded, decode_exception}
use samp_plugin_api.Codecs.{decode_body}
use samp_plugin_api.Env.{Env, Request}
use samp_plugin_api.Handler.{Handler, scan_whitelist, check_body, authorize}

-- Where an address stands in a list.
abbrev Listed : Text → List Text → Type 0
Listed ip [] = ⊥
Listed ip (x ∷ xs) = (x ≡ ip) ⊎ Listed ip xs

scan_whitelist_iff :
    (ips : List Text) (remote : Text) (ready : Bool)
    → (scan_whitelist ips remote ready ≡ true) ↔ ((ready ≡ true) ⊎ Listed remote ips)
unfolding scan_whitelist
scan_whitelist_iff [] remote ready = ground arith
scan_whitelist_iff (ip ∷ ips) remote ready =
    grind (tests, scan_whitelist_iff ips remote ready, scan_whitelist_iff ips remote true)

-- An empty whitelist admits every address.
abbrev pub IsAdmitted : Text → List Text → Type 0
IsAdmitted remote ips = (ips ≡ []) ⊎ Listed remote ips

whitelist_iff :
    (ips : List Text) (remote : Text)
    → (scan_whitelist ips remote (length ips == 0) ≡ true) ↔ IsAdmitted remote ips
whitelist_iff [] remote = ground (arith, scan_whitelist_iff [] remote true)
whitelist_iff (ip ∷ ips) remote = ground (arith, scan_whitelist_iff (ip ∷ ips) remote false)

abbrev pub whitelist : Config → List Text
whitelist config = (get_args config (codes "api_ip_whitelist") []).0

module _ {World Float : Type 0} (env : Env World Float) where
  -- The body gives the password and the hash of the target.
  abbrev pub Signs : Handler → Text → Decoded BodyRequest → Type 0
  Signs h uri (decode_exception _) = ⊥
  Signs h uri (decoded body) = (h.password ≡ body.password) × (body.hash ≡ env.xxh32 uri h.seed)

  -- The body gives a password, and the hash of a target by a seed.
  abbrev pub GivesBoth : Text → ℕ → Text → Decoded BodyRequest → Type 0
  GivesBoth password seed uri (decode_exception _) = ⊥
  GivesBoth password seed uri (decoded body) =
      (body.password ≡ password) × (body.hash ≡ env.xxh32 uri seed)

  pub Signs-GivesBoth_iff :
      {password : Text} {seed : ℕ} (h : Handler) (uri : Text) (d : Decoded BodyRequest)
      → h.password ≡ password
      → h.seed ≡ seed
      → Signs h uri d ↔ GivesBoth password seed uri d
  Signs-GivesBoth_iff h uri (decode_exception _) p q = (λ k. k, λ k. k)
  Signs-GivesBoth_iff h uri (decoded body) p q = (
    λ (e, f). (sym e ∙ p, f ∙ ap (env.xxh32 uri) q),
    λ (e, f). (p ∙ sym e, f ∙ ap (env.xxh32 uri) (sym q)),
  )

  check_body_iff :
      (h : Handler) (uri remote : Text) (d : Decoded BodyRequest) (w : World)
      → ((check_body env h uri remote d w).1 ≡ true) ↔ Signs h uri d
  unfolding check_body
  check_body_iff h uri remote (decode_exception _) w = ground arith
  check_body_iff h uri remote (decoded body) w = grind tests

  -- A request is authorised exactly if its address is admitted by the whitelist, its body decodes,
  -- and the body holds the password and the seeded hash of the request's target.
  pub authorize_iff :
      (h : Handler) (config : Config) (req : Request) (remote : Text) (w : World)
      → ((authorize env h config req remote w).1 ≡ true) ↔ (
          IsAdmitted remote (whitelist config)
          × Signs h req.target (decode_body env.codec req.body))
  unfolding authorize
  authorize_iff h config req remote w = ground (
    arith,
    whitelist_iff (whitelist config) remote,
    check_body_iff h req.target remote (decode_body env.codec req.body) w,
  )

  check_body_quiet :
      (h : Handler) (uri remote : Text) (d : Decoded BodyRequest) (w : World)
      → ((what : Text) × (d ≡ decode_exception what)) ⊎ Signs h uri d
      → (check_body env h uri remote d w).0 ≡ w
  unfolding check_body
  check_body_quiet h uri remote (decode_exception _) w c = refl
  check_body_quiet h uri remote (decoded body) w (inl (_, e)) = cc
  check_body_quiet h uri remote (decoded body) w (inr (e, f)) = grind tests

  -- Authorisation does not touch the game server, except that a wrong password or hash is logged:
  -- a foreign address, a body that does not decode, and an authorised request leave it as it was.
  pub authorize_quiet :
      (h : Handler) (config : Config) (req : Request) (remote : Text) (w : World)
      → (¬ IsAdmitted remote (whitelist config))
        ⊎ (((what : Text) × (decode_body env.codec req.body ≡ decode_exception what))
            ⊎ Signs h req.target (decode_body env.codec req.body))
      → (authorize env h config req remote w).0 ≡ w
  unfolding authorize
  authorize_quiet h config req remote w (inl foreign) =
      ground (arith, whitelist_iff (whitelist config) remote)
  authorize_quiet h config req remote w (inr c) =
      ground (arith, check_body_quiet h req.target remote (decode_body env.codec req.body) w c)
