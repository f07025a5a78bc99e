-- ===== src/Collector/Config/Skips.antt =====
-- What the parser of the collector's configuration reads and skips of a text that is written well.
use Prim.Native.Nat.{◌≤◌}
use project_sh_fms.Prelude.{
  ℕ, ◌+◌, ◌-◌, ◌≡◌, refl, ap, ◌∙◌, Bool, true, false, List, not, ◌||◌, [], ◌∷◌, ◌++◌, append_assoc,
  Option, some, Text, if◌then◌else◌, ◌==◌, All, arith,
}
use project_sh_fms.Collector.Config.{
  string_from, Inside, plain, quoted, skip_from, ws, eat, str, skip_value,
}

-- A character of a string as it is written: itself, which no quote or backslash can be, or any
-- character after a backslash.
pub data Piece : Type 0 where
  as_is : (c : ℕ) → (c == 34 || c == 92) ≡ false → Piece
  after_backslash : ℕ → Piece

-- What is written, as far as the closing quote.
abbrev pub written : List Piece → Text
written [] = 34 ∷ []
written (as_is c h ∷ ps) = c ∷ written ps
written (after_backslash c ∷ ps) = 92 ∷ c ∷ written ps

-- What it means: after a backslash, n is a newline, t a tab and any other character itself.
abbrev pub meant : List Piece → Text
meant [] = []
meant (as_is c h ∷ ps) = c ∷ meant ps
meant (after_backslash c ∷ ps) = (if c == b'n' then 10 else if c == b't' then 9 else c) ∷ meant ps

string_from-written :
    (ps : List Piece) (rest : Text) → string_from false (written ps ++ rest) ≡ some (meant ps, rest)
unfolding string_from
string_from-written [] rest = refl
string_from-written (as_is c h ∷ ps) rest =
    let ih = string_from-written ps rest in
    let a : (c == 34) ≡ false = ground (arith, h) in
    let b : (c == 92) ≡ false = ground (arith, h) in simp (a, b, ih) refl
string_from-written (after_backslash c ∷ ps) rest =
    let ih = string_from-written ps rest in simp ih refl

-- A text in which brackets of each kind are balanced outside of strings.
pub data Balanced : Text → Type 0 where
  nothing : Balanced []
  character :
      (c : ℕ)
      → (c == 34 || c == b'{' || c == b'}' || c == b'[' || c == b']') ≡ false
      → Balanced (c ∷ [])
  string : (ps : List Piece) → Balanced (34 ∷ written ps)
  joined : {xs ys : Text} → Balanced xs → Balanced ys → Balanced (xs ++ ys)
  braced : {xs : Text} → Balanced xs → Balanced (b'{' ∷ (xs ++ (b'}' ∷ [])))
  bracketed : {xs : Text} → Balanced xs → Balanced (b'[' ∷ (xs ++ (b']' ∷ [])))

skip-written :
    (opens closes depth : ℕ) (ps : List Piece) (rest : Text)
    → skip_from opens closes depth quoted (written ps ++ rest)
      ≡ skip_from opens closes depth plain rest
unfolding skip_from
skip-written opens closes depth [] rest = refl
skip-written opens closes depth (as_is c h ∷ ps) rest =
    let ih = skip-written opens closes depth ps rest in
    let a : (c == 34) ≡ false = ground (arith, h) in
    let b : (c == 92) ≡ false = ground (arith, h) in
    let same : (if c == 92 then Inside.escaped else if c == 34 then plain else quoted) ≡ quoted =
      ground (arith, a, b) in
    ap (λ st. skip_from opens closes depth st (written ps ++ rest)) same ∙ ih
skip-written opens closes depth (after_backslash c ∷ ps) rest =
    let ih = skip-written opens closes depth ps rest in simp ih refl

-- The two kinds of brackets.
abbrev pub opener : Bool → ℕ
opener true = b'{'
opener false = b'['

abbrev pub closer : Bool → ℕ
closer true = b'}'
closer false = b']'

-- A pair of brackets within the loop: of its own kind it is a level, of the other it is passed over.
skip-own :
    (b : Bool) (depth : ℕ) (xs rest : Text)
    → 1 ≤ depth
    → ((n : ℕ) (rest : Text)
        → 1 ≤ n
        → skip_from (opener b) (closer b) n plain (xs ++ rest)
          ≡ skip_from (opener b) (closer b) n plain rest)
    → skip_from (opener b) (closer b) depth plain (opener b ∷ (xs ++ (closer b ∷ rest)))
      ≡ skip_from (opener b) (closer b) depth plain rest
unfolding skip_from
skip-own true depth xs rest h ih =
    let more : (depth + 1 == 0) ≡ false = ground arith in
    let here : (depth == 0) ≡ false = ground (arith, h) in
    let back : depth + 1 - 1 ≡ depth = omega arith in
    simp (more, here, back, ih (depth + 1) (b'}' ∷ rest) (omega arith)) refl
skip-own false depth xs rest h ih =
    let more : (depth + 1 == 0) ≡ false = ground arith in
    let here : (depth == 0) ≡ false = ground (arith, h) in
    let back : depth + 1 - 1 ≡ depth = omega arith in
    simp (more, here, back, ih (depth + 1) (b']' ∷ rest) (omega arith)) refl

skip-other :
    (b : Bool) (depth : ℕ) (xs rest : Text)
    → 1 ≤ depth
    → ((n : ℕ) (rest : Text)
        → 1 ≤ n
        → skip_from (opener b) (closer b) n plain (xs ++ rest)
          ≡ skip_from (opener b) (closer b) n plain rest)
    → skip_from (opener b) (closer b) depth plain (opener (not b) ∷ (xs ++ (closer (not b) ∷ rest)))
      ≡ skip_from (opener b) (closer b) depth plain rest
unfolding skip_from
skip-other true depth xs rest h ih =
    let here : (depth == 0) ≡ false = ground (arith, h) in
    simp (here, ih depth (b']' ∷ rest) h) refl
skip-other false depth xs rest h ih =
    let here : (depth == 0) ≡ false = ground (arith, h) in
    simp (here, ih depth (b'}' ∷ rest) h) refl

skip-character :
    (b : Bool) (depth c : ℕ) (rest : Text)
    → 1 ≤ depth
    → (c == 34 || c == b'{' || c == b'}' || c == b'[' || c == b']') ≡ false
    → skip_from (opener b) (closer b) depth plain (c ∷ rest)
      ≡ skip_from (opener b) (closer b) depth plain rest
unfolding skip_from
skip-character true depth c rest h k = ground (arith, h, k)
skip-character false depth c rest h k = ground (arith, h, k)

-- A pair of brackets of any kind within the loop for one kind.
pair :
    (k b : Bool) (depth : ℕ) (xs rest : Text)
    → 1 ≤ depth
    → ((n : ℕ) (rest : Text)
        → 1 ≤ n
        → skip_from (opener b) (closer b) n plain (xs ++ rest)
          ≡ skip_from (opener b) (closer b) n plain rest)
    → skip_from (opener b) (closer b) depth plain (opener k ∷ (xs ++ (closer k ∷ rest)))
      ≡ skip_from (opener b) (closer b) depth plain rest
pair true true depth xs rest h ih = skip-own true depth xs rest h ih
pair false false depth xs rest h ih = skip-own false depth xs rest h ih
pair true false depth xs rest h ih = skip-other false depth xs rest h ih
pair false true depth xs rest h ih = skip-other true depth xs rest h ih

skip-Balanced :
    (b : Bool) (xs : Text)
    → Balanced xs
    → (depth : ℕ) (rest : Text) → 1 ≤ depth
    → skip_from (opener b) (closer b) depth plain (xs ++ rest)
      ≡ skip_from (opener b) (closer b) depth plain rest
unfolding skip_from
skip-Balanced b xs nothing depth rest h = refl
skip-Balanced b xs (character c k) depth rest h = skip-character b depth c rest h k
skip-Balanced b xs (string s) depth rest h =
    let here : (depth == 0) ≡ false = ground (arith, h) in
    rw here (skip-written (opener b) (closer b) depth s rest)
skip-Balanced b _ (joined {xs} {ys} p q) depth rest h =
    ap (skip_from (opener b) (closer b) depth plain) (append_assoc xs ys rest)
    ∙ skip-Balanced b xs p depth (ys ++ rest) h
    ∙ skip-Balanced b ys q depth rest h
skip-Balanced b _ (braced {xs} p) depth rest h =
    ap (λ ks. skip_from (opener b) (closer b) depth plain (b'{' ∷ ks))
      (append_assoc xs (b'}' ∷ []) rest)
    ∙ pair true b depth xs rest h (skip-Balanced b xs p)
skip-Balanced b _ (bracketed {xs} p) depth rest h =
    ap (λ ks. skip_from (opener b) (closer b) depth plain (b'[' ∷ ks))
      (append_assoc xs (b']' ∷ []) rest)
    ∙ pair false b depth xs rest h (skip-Balanced b xs p)

module _ (space : ℕ → Bool) (strtod : Text → Option Text) where
  ws-append :
      (pre xs : Text)
      → All (λ c. space c ≡ true) pre
      → ws space strtod (pre ++ xs) ≡ ws space strtod xs
  unfolding ws
  ws-append [] xs h = refl
  ws-append (c ∷ pre) xs h = rw (h.0) (ws-append pre xs h.1)

  -- With quotes and opening brackets not white space, and after any white space: a string, whatever
  -- stands after backslashes in it, is read as the characters it is written with, but that n and t
  -- after a backslash are a newline and a tab, and what follows its closing quote is left; and a
  -- string, an object or an array that is to be skipped is skipped as a whole and no further, whatever
  -- brackets stand in its strings and however its brackets of the two kinds are nested.
  pub config_reads :
      (pre : Text) (ps : List Piece) (xs rest : Text)
      → All (λ c. space c ≡ true) pre
      → All (λ c. space c ≡ false) (34 ∷ b'{' ∷ b'[' ∷ [])
      → Balanced xs
      → (str space strtod (pre ++ (34 ∷ (written ps ++ rest))) ≡ some (meant ps, rest))
        × (skip_value space strtod (pre ++ (34 ∷ (written ps ++ rest))) ≡ some rest)
        × (skip_value space strtod (pre ++ (b'{' ∷ (xs ++ (b'}' ∷ rest)))) ≡ some rest)
        × (skip_value space strtod (pre ++ (b'[' ∷ (xs ++ (b']' ∷ rest)))) ≡ some rest)
  unfolding str eat skip_value ws skip_from
  config_reads pre ps xs rest h (q, (o, (p, u))) b = (
    rw (ws-append pre (34 ∷ (written ps ++ rest)) h, q) (string_from-written ps rest),
    rw (ws-append pre (34 ∷ (written ps ++ rest)) h, q, string_from-written ps rest) refl,
    rw (ws-append pre (b'{' ∷ (xs ++ (b'}' ∷ rest))) h, o)
        (skip-Balanced true xs b 1 (b'}' ∷ rest) (omega arith)),
    rw (ws-append pre (b'[' ∷ (xs ++ (b']' ∷ rest))) h, p)
        (skip-Balanced false xs b 1 (b']' ∷ rest) (omega arith)),
  )
