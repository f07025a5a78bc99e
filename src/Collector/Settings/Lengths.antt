-- ===== src/Collector/Settings/Lengths.antt =====
-- What the tokens of src/collector/src/config.cpp leave of the text.
use Prim.Native.Nat.{◌≤◌, ◌<◌}
use project_sh_fms.Prelude.{
  ℕ, suc, ◌+◌, ◌-◌, Bool, true, false, [], ◌∷◌, Option, none, some, Text, codes, if◌then◌else◌,
  ◌==◌, text_eq, length, length-drop, drop, take, arith,
}
use project_sh_fms.Collector.Config.{
  string_from, cons_char, ws, eaten, eat, after_quote, str, boolean, boolean_at, skip_from, skip_at,
  skip_value, left, Inside, plain, quoted, escaped,
}

-- What is left of a text is shorter than `n`.
abbrev pub Left : {A : Type 0} → ℕ → Option (A × Text) → Type 0
Left n none = Unit
Left n (some (a, s)) = length s < n

abbrev pub LeftText : ℕ → Option Text → Type 0
LeftText n none = Unit
LeftText n (some s) = length s < n

cons_char-Left : (n c : ℕ) (o : Option (Text × Text)) → Left n o → Left n (cons_char c o)
cons_char-Left n c none h = h
cons_char-Left n c (some (out, s)) h = h

pub Left-later : {A : Type 0} (m n : ℕ) (o : Option (A × Text)) → Left m o → m ≤ n → Left n o
Left-later m n none h k = tt
Left-later m n (some (a, s)) h k = omega (arith, h, k)

pub LeftText-later : (m n : ℕ) (o : Option Text) → LeftText m o → m ≤ n → LeftText n o
LeftText-later m n none h k = tt
LeftText-later m n (some s) h k = omega (arith, h, k)

if-Left :
    {A : Type 0} (b : Bool) (n : ℕ) (x y : Option (A × Text))
    → Left n x
    → Left n y
    → Left n (if b then x else y)
if-Left true n x y h k = h
if-Left false n x y h k = k

if-LeftText :
    (b : Bool) (n : ℕ) (x y : Option Text)
    → LeftText n x
    → LeftText n y
    → LeftText n (if b then x else y)
if-LeftText true n x y h k = h
if-LeftText false n x y h k = k

string_from-Left : (b : Bool) (s : Text) → Left (length s) (string_from b s)
unfolding string_from
string_from-Left b [] = tt
string_from-Left true (c ∷ s) =
    Left-later (length s) (suc (length s)) _
      (cons_char-Left (length s) _ (string_from false s) (string_from-Left false s)) (omega arith)
string_from-Left false (c ∷ s) =
    let rest = string_from-Left (c == 92) s in
    if-Left (c == 34) (suc (length s)) _ _ (omega arith) (
      if-Left (c == 92) (suc (length s)) _ _
        (Left-later (length s) (suc (length s)) (string_from (c == 92) s) rest (omega arith))
        (Left-later (length s) (suc (length s)) _
          (cons_char-Left (length s) c (string_from (c == 92) s) rest) (omega arith)))

skip_from-Left :
    (o c : ℕ) (s : Text) (d : ℕ) (i : Inside) → LeftText (length s) (skip_from o c d i s)
unfolding skip_from
skip_from-Left o c [] d i = tt
skip_from-Left o c (x ∷ s) d escaped =
    LeftText-later (length s) (suc (length s)) _ (skip_from-Left o c s d quoted) (omega arith)
skip_from-Left o c (x ∷ s) d quoted =
    let i = if x == 92 then escaped else if x == 34 then plain else quoted in
    LeftText-later (length s) (suc (length s)) _ (skip_from-Left o c s d i) (omega arith)
skip_from-Left o c (x ∷ s) d plain =
    let next = if x == 34 then d else if x == o then d + 1 else if x == c then d - 1 else d in
    let i = if x == 34 then quoted else plain in
    if-LeftText (next == 0) (suc (length s)) (some s) _ (omega arith)
      (LeftText-later (length s) (suc (length s)) _ (skip_from-Left o c s next i) (omega arith))

boolean_at-Left :
    (space : ℕ → Bool) (strtod : Text → Option Text) (s : Text)
    → Left (suc (length s)) (boolean_at space strtod s)
boolean_at-Left space strtod s =
    if-Left (text_eq (take 4 s) (codes "true")) (suc (length s)) (some (true, drop 4 s))
      (if text_eq (take 5 s) (codes "false") then some (false, drop 5 s) else none)
      (omega (arith, length-drop 4 s))
      (if-Left (text_eq (take 5 s) (codes "false")) (suc (length s)) (some (false, drop 5 s)) none
        (omega (arith, length-drop 5 s)) tt)

pub left-Left :
    {A : Type 0} (space : ℕ → Bool) (strtod : Text → Option Text) (n : ℕ) (o : Option (A × Text))
    → Left n o
    → LeftText n (left space strtod o)
left-Left space strtod n none h = tt
left-Left space strtod n (some (a, s)) h = h

module _ (space : ℕ → Bool) (strtod : Text → Option Text) where
  pub length-ws : (s : Text) → length (ws space strtod s) ≤ length s
  unfolding ws
  length-ws [] = omega arith
  length-ws (c ∷ s) = let h = length-ws s in ground arith

  pub eat-Left : (c : ℕ) (s : Text) → LeftText (length s) (eat space strtod c s)
  unfolding eat
  eat-Left c s = go (ws space strtod s) (length-ws s)
    where
      go : (t : Text) → length t ≤ length s → LeftText (length s) (eaten space strtod c t)
      go [] h = tt
      go (d ∷ t) h = if-LeftText (d == c) (length s) _ _ (omega (arith, h)) tt

  pub str-Left : (s : Text) → Left (length s) (str space strtod s)
  unfolding str
  str-Left s = go (eat space strtod 34 s) (eat-Left 34 s)
    where
      go : (o : Option Text) → LeftText (length s) o → Left (length s) (after_quote space strtod o)
      go none h = tt
      go (some t) h =
          Left-later (length t) (length s) (string_from false t) (string_from-Left false t)
            (omega (arith, h))

  pub boolean-Left : (s : Text) → Left (suc (length s)) (boolean space strtod s)
  unfolding boolean
  boolean-Left s =
      let h = length-ws s in
      Left-later _ (suc (length s)) _ (boolean_at-Left space strtod (ws space strtod s))
        (omega (arith, h))

  module _ (h : (s : Text) → LeftText (suc (length s)) (strtod s)) where
    skip_at-Left : (t : Text) → LeftText (suc (length t)) (skip_at space strtod t)
    skip_at-Left [] = tt
    skip_at-Left (c ∷ t) =
        let n = suc (suc (length t)) in
        if-LeftText (c == 34) n _ _
          (LeftText-later (length t) n _
            (left-Left space strtod (length t) _ (string_from-Left false t)) (omega arith))
          (if-LeftText (c == b'{') n _ _
            (LeftText-later (length t) n _ (skip_from-Left b'{' b'}' t 1 plain) (omega arith))
            (if-LeftText (c == b'[') n _ _
              (LeftText-later (length t) n _ (skip_from-Left b'[' b']' t 1 plain) (omega arith))
              (if-LeftText (c == b't') n _ _
                (left-Left space strtod n _ (boolean_at-Left space strtod (c ∷ t)))
                (if-LeftText (c == b'f') n _ _
                  (left-Left space strtod n _ (boolean_at-Left space strtod (c ∷ t)))
                  (h (c ∷ t))))))

    pub skip_value-Left : (s : Text) → LeftText (suc (length s)) (skip_value space strtod s)
    unfolding skip_value
    skip_value-Left s =
        let l = length-ws s in
        LeftText-later (suc (length (ws space strtod s))) (suc (length s)) _
          (skip_at-Left (ws space strtod s)) (omega (arith, l))
