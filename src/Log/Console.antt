-- ===== src/Log/Console.antt =====
-- api/LogSink.hpp: the sink that prints to the server's console. The formatters of spdlog are
-- functions from messages to texts, and the mutex is left out: the plugin has one thread.
use samp_plugin_api.Prelude.{
  ℕ, zero, suc, ◌-◌, ◌≡◌, ◌≢◌, ◌↔◌, refl, ap, [], ◌∷◌, Text, codes, length, take, All, arith,
}
use samp_plugin_api.Samp.{Natives}
use samp_plugin_api.Env.{c_str}

pub record ConsoleSink (Msg : Type 0) : Type 0 where
  pub formatter : Msg → Text

-- The elements from a position on.
abbrev pub drop : ℕ → Text → Text
drop zero t = t
drop (suc n) [] = []
drop (suc n) (c ∷ t) = drop n t

-- `pattern_formatter` makes a formatter of a pattern.
module _ {World Float Msg : Type 0} (samp : Natives World Float)
    (pattern_formatter : Text → Msg → Text) where
  -- `LogSink::set_formatter` and `LogSink::set_pattern`.
  pub set_formatter : (Msg → Text) → ConsoleSink Msg → ConsoleSink Msg
  set_formatter f sink = record { formatter = f }

  set_pattern : Text → ConsoleSink Msg → ConsoleSink Msg
  set_pattern pattern sink = set_formatter (pattern_formatter pattern) sink

  -- The constructor.
  pub new_sink : ConsoleSink Msg
  new_sink = set_pattern (codes "%+") (record { formatter = λ _. [] })

  -- `LogSink::print_range_`.
  pub print_range : Text → (start finish : ℕ) → World → World
  print_range formatted start finish w =
      samp.logprintf (c_str (take (finish - start) (drop start formatted))) w

  -- `LogSink::log`.
  unfoldable pub log : Msg → ConsoleSink Msg → World → World
  log msg sink w =
      let formatted = sink.formatter msg in print_range formatted 0 (length formatted) w

  take-length : (t : Text) → take (length t) t ≡ t
  take-length [] = refl
  take-length (c ∷ t) = ap (c ∷◌) (take-length t)

  whole : (t : Text) → take (length t - 0) t ≡ t
  whole t = let same : length t - 0 ≡ length t = omega arith in rw same (take-length t)

  c_str-self_iff : (t : Text) → (c_str t ≡ t) ↔ All (λ c. c ≢ 0) t
  unfolding c_str
  c_str-self_iff [] = (λ _. tt, λ _. refl)
  c_str-self_iff (c ∷ t) = ground (arith, c_str-self_iff t)

  -- A new sink prints a message by the pattern "%+" and a sink whose formatter was set by that
  -- formatter, as one line of the server's log, up to the first null character; so the text comes
  -- whole exactly if there is none in it.
  pub log_lem :
      (msg : Msg) (f : Msg → Text) (sink : ConsoleSink Msg) (w : World)
      → (log msg new_sink w ≡ samp.logprintf (c_str (pattern_formatter (codes "%+") msg)) w)
        × (log msg (set_formatter f sink) w ≡ samp.logprintf (c_str (f msg)) w)
        × ((c_str (f msg) ≡ f msg) ↔ All (λ c. c ≢ 0) (f msg))
  unfolding log print_range new_sink set_pattern set_formatter
  log_lem msg f sink w = (
    ap (λ t. samp.logprintf (c_str t) w) (whole (pattern_formatter (codes "%+") msg)),
    ap (λ t. samp.logprintf (c_str t) w) (whole (f msg)),
    c_str-self_iff (f msg),
  )
