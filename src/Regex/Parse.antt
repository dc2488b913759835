-- ===== src/Regex/Parse.antt =====
-- Reading an expression. `none` stands for a `regex_error`, and for syntax outside the part of
-- ECMAScript that is modelled.
use samp_plugin_api.Prelude.{
  ℕ, Bool, true, false, Option, none, some, List, [], ◌∷◌, map, Text, ◌==◌, if◌then◌else◌,
}
use samp_plugin_api.Regex.{
  exactly, none_but, Regex, empty, one, many, optional, group, cluster, at_start, at_end, seq,
}

pub data Symbol : Type 0 where
  lparen rparen lbracket rbracket question colon plus caret dollar backslash other : Symbol
  plain : ℕ → Symbol

-- `other` are the characters whose syntax is not modelled: `*`, `.`, `|`, `{` and `}`.
unfoldable pub symbol : ℕ → Symbol
symbol c =
    if c == b'('
    then lparen
    else if c == b')'
    then rparen
    else if c == b'['
    then lbracket
    else if c == b']'
    then rbracket
    else if c == b'?'
    then question
    else if c == b':'
    then colon
    else if c == b'+'
    then plus
    else if c == b'^'
    then caret
    else if c == b'$'
    then dollar
    else if c == 92
    then backslash
    else if c == b'*'
    then other
    else if c == b'.'
    then other
    else if c == b'|'
    then other
    else if c == b'{'
    then other
    else if c == b'}'
    then other
    else plain c

-- An open group: what stands before it, and whether it is numbered.
pub record Frame : Type 0 where
  numbered : Bool
  pub before : Regex

-- The last atom is kept apart, since a quantifier may follow it.
abbrev pub close : Regex → Option Regex → Regex
close acc none = acc
close acc (some a) = seq acc a

abbrev wrap : Bool → Regex → Regex
wrap true r = group r
wrap false r = cluster r

unfoldable pub parse : List Frame → Regex → Option Regex → List Symbol → Option Regex
parse [] acc prev [] = some (close acc prev)
parse (_ ∷ _) acc prev [] = none
parse fs acc prev (lparen ∷ question ∷ colon ∷ s) =
    parse (record { numbered = false; before = close acc prev } ∷ fs) empty none s
parse fs acc prev (lparen ∷ question ∷ s) = none
parse fs acc prev (lparen ∷ s) =
    parse (record { numbered = true; before = close acc prev } ∷ fs) empty none s
parse [] acc prev (rparen ∷ s) = none
parse (f ∷ fs) acc prev (rparen ∷ s) = parse fs f.before (some (wrap f.numbered (close acc prev))) s
parse fs acc prev (lbracket ∷ caret ∷ backslash ∷ plain x ∷ rbracket ∷ s) =
    parse fs (close acc prev) (some (one (none_but x))) s
parse fs acc (some (one k)) (plus ∷ question ∷ s) = parse fs (seq acc (many true k)) none s
parse fs acc (some (one k)) (plus ∷ s) = parse fs (seq acc (many false k)) none s
parse fs acc (some a) (question ∷ s) = parse fs (seq acc (optional a)) none s
parse fs acc prev (caret ∷ s) = parse fs (close acc prev) (some at_start) s
parse fs acc prev (dollar ∷ s) = parse fs (close acc prev) (some at_end) s
parse fs acc prev (colon ∷ s) = parse fs (close acc prev) (some (one (exactly b':'))) s
parse fs acc prev (plain c ∷ s) = parse fs (close acc prev) (some (one (exactly c))) s
parse _ _ _ _ = none

-- `regex(pattern)`.
unfoldable pub compile : Text → Option Regex
unfolding symbol parse
compile pattern = parse [] empty none (map symbol pattern)
