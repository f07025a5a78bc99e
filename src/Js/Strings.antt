-- ===== src/Js/Strings.antt =====
-- String methods: trim, toLowerCase, indexOf, split, encodeURIComponent. Case mapping and percent
-- encoding are written out for ASCII, and taken as arguments for texts with other code units,
-- since they rest on the tables of Unicode.
use project_sh_fms.Prelude.{
  ℕ, ◌+◌, ◌/◌, ◌%◌, ◌≡◌, refl, ap, Bool, true, false, ◌&&◌, ◌||◌, [], ◌∷◌, ◌++◌, Text, ltb, leb,
  ◌==◌, if◌then◌else◌, Bool-cases, inl, inr, map, All,
}

-- WhiteSpace and LineTerminator of the language's grammar.
unfoldable pub is_space : ℕ → Bool
is_space c =
    (leb 9 c && leb c 13)
    || c == 32
    || c == 0xa0
    || c == 0x1680
    || (leb 0x2000 c && leb c 0x200a)
    || c == 0x2028
    || c == 0x2029
    || c == 0x202f
    || c == 0x205f
    || c == 0x3000
    || c == 0xfeff

unfoldable pub trim_start : Text → Text
unfolding is_space
trim_start [] = []
trim_start (c ∷ s) = if is_space c then trim_start s else c ∷ s

-- `c ∷ r`, unless nothing but space remains.
unfoldable pub keep_from : ℕ → Text → Text
unfolding is_space
keep_from c [] = if is_space c then [] else c ∷ []
keep_from c (d ∷ r) = c ∷ d ∷ r

unfoldable pub trim_end : Text → Text
unfolding keep_from
trim_end [] = []
trim_end (c ∷ s) = keep_from c (trim_end s)

unfoldable pub trim : Text → Text
trim s = trim_end (trim_start s)

abbrev pub is_ascii : Text → Bool
is_ascii [] = true
is_ascii (c ∷ s) = ltb c 128 && is_ascii s

unfoldable pub lower_unit : ℕ → ℕ
lower_unit c = if leb b'A' c && leb c b'Z' then c + 32 else c

unfoldable pub to_lower_case : (Text → Text) → Text → Text
unfolding lower_unit
to_lower_case other s = if is_ascii s then map lower_unit s else other s

-- `s` begins with `p`.
unfoldable pub begins : Text → Text → Bool
begins [] s = true
begins (a ∷ p) [] = false
begins (a ∷ p) (b ∷ s) = a == b && begins p s

-- `s.indexOf(p) > -1`
unfoldable pub contains : Text → Text → Bool
unfolding begins
contains p [] = begins p []
contains p (c ∷ s) = begins p (c ∷ s) || contains p s

-- `s.split(sep).pop()` for a separator of one unit.
unfoldable pub last_part_from : ℕ → Text → Text → Text
last_part_from sep acc [] = acc
last_part_from sep acc (c ∷ s) = last_part_from sep (if c == sep then [] else acc ++ c ∷ []) s

unfoldable pub last_part : ℕ → Text → Text
unfolding last_part_from
last_part sep s = last_part_from sep [] s

-- The units that encodeURIComponent leaves alone.
unfoldable pub is_unreserved : ℕ → Bool
is_unreserved c =
    (leb b'A' c && leb c b'Z')
    || (leb b'a' c && leb c b'z')
    || (leb b'0' c && leb c b'9')
    || c == b'-'
    || c == b'_'
    || c == b'.'
    || c == b'!'
    || c == b'~'
    || c == b'*'
    || c == 39
    || c == b'('
    || c == b')'

unfoldable pub hex_digit : ℕ → ℕ
hex_digit d = if ltb d 10 then d + 48 else d + 55

unfoldable pub encode_ascii : Text → Text
unfolding is_unreserved hex_digit
encode_ascii [] = []
encode_ascii (c ∷ s) =
    (if is_unreserved c then c ∷ [] else b'%' ∷ hex_digit (c / 16) ∷ hex_digit (c % 16) ∷ [])
    ++ encode_ascii s

unfoldable pub encode_uri_component : (Text → Text) → Text → Text
unfolding encode_ascii
encode_uri_component other s = if is_ascii s then encode_ascii s else other s

-- Space in front of a text is trimmed away.
pub trim_start-append :
    (w s : Text) → All (λ c. is_space c ≡ true) w → trim_start (w ++ s) ≡ trim_start s
unfolding trim_start
trim_start-append [] s h = refl
trim_start-append (c ∷ w) s h = rw (h.0) (trim_start-append w s h.1)

trim_end-space : (w : Text) → All (λ c. is_space c ≡ true) w → trim_end w ≡ []
unfolding trim_end keep_from
trim_end-space [] h = refl
trim_end-space (c ∷ w) h = rw (trim_end-space w h.1, keep_from) (rw (h.0))

pub trim_end-append : (s w : Text) → All (λ c. is_space c ≡ true) w → trim_end (s ++ w) ≡ trim_end s
unfolding trim_end
trim_end-append [] w h = trim_end-space w h
trim_end-append (c ∷ s) w h = ap (keep_from c) (trim_end-append s w h)

trim_start-append_end :
    (s w : Text)
    → All (λ c. is_space c ≡ true) w
    → trim_end (trim_start (s ++ w)) ≡ trim_end (trim_start s)
unfolding trim_start
trim_start-append_end [] w h = trim_end-append_start w h
  where
    trim_end-append_start :
        (v : Text) → All (λ c. is_space c ≡ true) v → trim_end (trim_start v) ≡ trim_end []
    trim_end-append_start [] k = refl
    trim_end-append_start (c ∷ v) k = rw (k.0) (trim_end-append_start v k.1)
trim_start-append_end (c ∷ s) w h = elim (Bool-cases (is_space c)) [
  | inl e ↦ rw e (trim_start-append_end s w h)
  | inr e ↦ rw e (trim_end-append (c ∷ s) w h)
]

-- Space on either side of a text is trimmed away.
pub trim-append :
    (w s v : Text)
    → All (λ c. is_space c ≡ true) w
    → All (λ c. is_space c ≡ true) v
    → trim (w ++ (s ++ v)) ≡ trim s
unfolding trim
trim-append w s v h k = rw (trim_start-append w (s ++ v) h) (trim_start-append_end s v k)
