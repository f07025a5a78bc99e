-- ===== src/Collector/Config.antt =====
-- src/collector/src/config.cpp: what the parser of the configuration reads at its place in the text:
-- tokens, strings, booleans and values to be skipped. The place is the text that is left.
pub mod Skips
use project_sh_fms.Prelude.{
  ℕ, zero, suc, ◌+◌, ◌-◌, Bool, true, false, List, [], ◌∷◌, ◌++◌, Option, none, some, Text, codes,
  if◌then◌else◌, ◌==◌, length, drop, take, text_eq,
}

-- `out += …` before what the rest of the string adds.
abbrev pub cons_char : ℕ → Option (Text × Text) → Option (Text × Text)
cons_char c none = none
cons_char c (some (out, rest)) = some (c ∷ out, rest)

-- The character that follows a backslash stands for this one.
abbrev pub unescaped : ℕ → ℕ
unescaped c = if c == b'n' then 10 else if c == b't' then 9 else c

-- The loop of str, after a backslash or not. A backslash that ends the text leaves it unterminated.
unfoldable pub string_from : Bool → Text → Option (Text × Text)
string_from escaping [] = none
string_from true (c ∷ s) = cons_char (unescaped c) (string_from false s)
string_from false (c ∷ s) =
    let rest = string_from (c == 92) s in
    if c == 34 then some ([], s) else if c == 92 then rest else cons_char c rest

-- What the loop of skip_value is in.
pub data Inside : Type 0 where
  plain quoted escaped : Inside

-- The loop of skip_value, at a depth, after its first bracket.
unfoldable pub skip_from : ℕ → ℕ → ℕ → Inside → Text → Option Text
skip_from opens closes depth st [] = none
skip_from opens closes depth escaped (c ∷ s) = skip_from opens closes depth quoted s
skip_from opens closes depth quoted (c ∷ s) =
    skip_from opens closes depth (if c == 92 then escaped else if c == 34 then plain else quoted) s
skip_from opens closes depth plain (c ∷ s) =
    let next =
      if c == 34
      then depth
      else if c == opens
      then depth + 1
      else if c == closes
      then depth - 1
      else depth in
    let rest = skip_from opens closes next (if c == 34 then quoted else plain) s in
    if next == 0 then some s else rest

module _ (space : ℕ → Bool) (strtod : Text → Option Text) where
  -- ws
  unfoldable pub ws : Text → Text
  ws [] = []
  ws (c ∷ s) = let rest = ws s in if space c then rest else c ∷ s

  abbrev pub eaten : ℕ → Text → Option Text
  eaten c [] = none
  eaten c (d ∷ s) = if d == c then some s else none

  -- eat
  unfoldable pub eat : ℕ → Text → Option Text
  eat c s = eaten c (ws s)

  abbrev pub after_quote : Option Text → Option (Text × Text)
  after_quote none = none
  after_quote (some s) = string_from false s

  -- str, with the string and the text that is left.
  unfoldable pub str : Text → Option (Text × Text)
  str s = after_quote (eat 34 s)

  abbrev pub boolean_at : Text → Option (Bool × Text)
  boolean_at s =
      if text_eq (take 4 s) (codes "true")
      then some (true, drop 4 s)
      else if text_eq (take 5 s) (codes "false")
      then some (false, drop 5 s)
      else none

  -- boolean
  unfoldable pub boolean : Text → Option (Bool × Text)
  boolean s = boolean_at (ws s)

  abbrev pub left : {A : Type 0} → Option (A × Text) → Option Text
  left none = none
  left (some (a, s)) = some s

  -- A value by its first character. `strtod` is the text that the runtime's strtod leaves, if it reads
  -- a number.
  abbrev pub skip_at : Text → Option Text
  skip_at [] = none
  skip_at (c ∷ s) =
      if c == 34
      then left (string_from false s)
      else if c == b'{'
      then skip_from b'{' b'}' 1 plain s
      else if c == b'['
      then skip_from b'[' b']' 1 plain s
      else if c == b't'
      then left (boolean_at (c ∷ s))
      else if c == b'f'
      then left (boolean_at (c ∷ s))
      else strtod (c ∷ s)

  -- skip_value
  unfoldable pub skip_value : Text → Option Text
  skip_value s = skip_at (ws s)
