-- ===== src/Config/Printing.antt =====
-- Writing a configuration out, and reading it back.
use samp_plugin_api.Prelude.{
  append_laws, ℕ, ◌≡◌, ◌≢◌, refl, ap, ◌∙◌, false, none, some, List, [], ◌∷◌, ◌++◌, Text,
  if◌then◌else◌, All, All-append, arith, text_eq,
}
use samp_plugin_api.Prelude.OrdMap
use samp_plugin_api.Config.{new_config, is_blank, split, split_from, lines, lines_from, load}
use samp_plugin_api.Config.Lookup.{first_entry, entry_of, find-load_lines}

-- The tokens with a space after each but the last.
join : Text → List Text → Text
join t [] = t
join t (u ∷ us) = t ++ b' ' ∷ join u us

pub print : List (Text × List Text) → Text
print [] = []
print ((k, args) ∷ es) = join k args ++ 10 ∷ print es

abbrev IsWordCode : ℕ → Type 0
IsWordCode c = (is_blank c ≡ false) × (c ≢ 10)

abbrev IsWord : Text → Type 0
IsWord t = All IsWordCode t

abbrev pub IsPrintable : Text × List Text → Type 0
IsPrintable (k, args) = IsWord k × All IsWord args × (args ≢ [])

split_word :
    (t : Text)
    → IsWord t
    → (token s : Text) → split_from token (t ++ b' ' ∷ s) ≡ (token ++ t) ∷ split_from [] s
unfolding split_from
split_word [] h token s = simp append_laws
split_word (c ∷ t) ((e, _), h) token s =
    rw (e, split_from) (split_word t h (token ++ c ∷ []) s ∙ simp append_laws)

split_last : (t : Text) → IsWord t → (token : Text) → split_from token t ≡ (token ++ t) ∷ []
unfolding split_from
split_last [] h token = simp append_laws
split_last (c ∷ t) ((e, _), h) token =
    rw (e, split_from) (split_last t h (token ++ c ∷ []) ∙ simp append_laws)

split-join : (t : Text) (us : List Text) → IsWord t → All IsWord us → split (join t us) ≡ t ∷ us
unfolding split join
split-join t [] h k = split_last t h []
split-join t (u ∷ us) h (k, ks) = split_word t h [] (join u us) ∙ ap (t ∷◌) (split-join u us k ks)

abbrev HasNoNewline : Text → Type 0
HasNoNewline t = All (λ c. c ≢ 10) t

word-HasNoNewline : (t : Text) → IsWord t → HasNoNewline t
word-HasNoNewline [] h = tt
word-HasNoNewline (c ∷ t) ((_, n), h) = (n, word-HasNoNewline t h)

join-HasNoNewline :
    (t : Text) (us : List Text) → IsWord t → All IsWord us → HasNoNewline (join t us)
unfolding join
join-HasNoNewline t [] h k = word-HasNoNewline t h
join-HasNoNewline t (u ∷ us) h (k, ks) =
    All-append (λ c. c ≢ 10) t (b' ' ∷ join u us) (word-HasNoNewline t h)
      (omega arith, join-HasNoNewline u us k ks)

next_char :
    (acc : Text) (c : ℕ) (s : Text) → c ≢ 10 → lines_from acc (c ∷ s) ≡ lines_from (acc ++ c ∷ []) s
unfolding lines_from
next_char [] c s n = ground arith
next_char (a ∷ acc) c s n = ground arith

lines_from_line :
    (t : Text)
    → HasNoNewline t
    → (acc s : Text) → lines_from acc (t ++ 10 ∷ s) ≡ (acc ++ t) ∷ lines_from [] s
lines_from_line [] h [] s = unfold lines_from in refl
lines_from_line [] h (a ∷ acc) s = unfold lines_from in simp append_laws
lines_from_line (c ∷ t) (n, h) acc s =
    next_char acc c (t ++ 10 ∷ s) n ∙ lines_from_line t h (acc ++ c ∷ []) s ∙ simp append_laws

-- The first entry of a key, in the lines that are printed.
printed_lines : List (Text × List Text) → List Text
printed_lines [] = []
printed_lines ((k, args) ∷ es) = join k args ∷ printed_lines es

lines-print :
    (es : List (Text × List Text)) → All IsPrintable es → lines (print es) ≡ printed_lines es
unfolding lines print printed_lines
lines-print [] h = unfold lines_from in refl
lines-print ((k, args) ∷ es) ((hk, ha, _), h) =
    lines_from_line (join k args) (join-HasNoNewline k args hk ha) [] (print es)
    ∙ ap (join k args ∷◌) (lines-print es h)

entry_of_tokens :
    (k j : Text) (args : List Text)
    → args ≢ []
    → entry_of k (j ∷ args) ≡ (if text_eq j k then some args else none)
entry_of_tokens k j [] h = absurd (h refl)
entry_of_tokens k j (a ∷ args) h = refl

first_entry-printed :
    (k : Text) (es : List (Text × List Text))
    → All IsPrintable es
    → first_entry k (printed_lines es) ≡ OrdMap.find k es
unfolding first_entry printed_lines OrdMap.find
first_entry-printed k [] h = refl
first_entry-printed k ((j, args) ∷ es) ((hk, ha, n), h) =
    rw (split-join j args hk ha, entry_of_tokens k j args n)
      (ground (arith, first_entry-printed k es h))

-- Entries whose keys and arguments hold no blank and no newline, and that have an argument, come
-- back from a file in which they are printed: the key of every entry finds its first arguments.
pub load-print :
    (k : Text) (es : List (Text × List Text))
    → All IsPrintable es
    → OrdMap.find k (load (some (print es)) new_config).0.entries ≡ OrdMap.find k es
unfolding load
load-print k es h =
    find-load_lines k (lines (print es)) new_config
    ∙ rw (lines-print es h, first_entry-printed k es h) (unfold OrdMap.find in refl)
