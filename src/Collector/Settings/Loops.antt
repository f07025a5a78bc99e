-- ===== src/Collector/Settings/Loops.antt =====
-- The loops of src/collector/src/config.cpp come to an end, and keep what their bodies keep.
use Prim.Native.Nat.{◌≤◌, ◌<◌}
use project_sh_fms.Prelude.{
  ℕ, zero, suc, ◌≡◌, Bool, true, false, Option, none, some, Text, if◌then◌else◌, length, arith,
}
use project_sh_fms.Number.{Number}
use project_sh_fms.Collector.Settings.{
  Result, parsed, refused, out_of_turns, and_then, stored, skipped, members, comma, go_on,
  after_key, after_colon, closed, opened, object, elements, unless_empty, listed, array, eats,
  string_of, strtod_left,
}
use project_sh_fms.Collector.Settings.Lengths.{Left, LeftText, eat-Left, str-Left}

-- A parser has come to an end; what it has read has the property, and what is left is shorter than `n`.
abbrev pub Good : {A : Type 0} → (A → Type 0) → ℕ → Result A → Type 0
Good P n (parsed a s) = P a × (length s < n)
Good P n refused = Unit
Good P n out_of_turns = false ≡ true

module _ {A : Type 0} (P : A → Type 0) where
  pub Good-later : (m n : ℕ) (x : Result A) → Good P m x → m ≤ n → Good P n x
  Good-later m n (parsed a s) h k = (h.0, omega (arith, h.1, k))
  Good-later m n refused h k = tt
  Good-later m n out_of_turns h k = h

  pub if-Good :
      (b : Bool) (n : ℕ) (x y : Result A) → Good P n x → Good P n y → Good P n (if b then x else y)
  if-Good true n x y h k = h
  if-Good false n x y h k = k

  pub stored-Good :
      {B : Type 0} (f : B → A) (n : ℕ) (o : Option (B × Text))
      → Left n o
      → ((b : B) → P (f b))
      → Good P n (stored f o)
  stored-Good f n none h p = tt
  stored-Good f n (some (b, s)) h p = (p b, h)

  pub skipped-Good : (a : A) (n : ℕ) (o : Option Text) → LeftText n o → P a → Good P n (skipped a o)
  skipped-Good a n none h p = tt
  skipped-Good a n (some s) h p = (p, h)

pub and_then-Good :
    {A B : Type 0} (P : A → Type 0) (Q : B → Type 0) (f : A → Text → Result B) (m n : ℕ)
    (x : Result A)
    → Good P m x
    → ((a : A) (s : Text) → P a → length s < m → Good Q n (f a s))
    → Good Q n (and_then f x)
and_then-Good P Q f m n (parsed a s) h k = k a s h.0 h.1
and_then-Good P Q f m n refused h k = tt
and_then-Good P Q f m n out_of_turns h k = h

module _ (r : Number) (space : ℕ → Bool) (strtod : Text → Option (r.Num × Text))
    (to_int : r.Num → ℕ) where
  module _ {A : Type 0} (P : A → Type 0) where
    comma-Good :
        (again : A → Text → Result A) (a : A) (s : Text) (n : ℕ)
        → P a
        → length s < n
        → ((t : Text) → length t < length s → Good P n (again a t))
        → Good P n (comma r space strtod to_int again a s)
    comma-Good again a s n p l h =
        go (eats r space strtod to_int b',' s)
          (eat-Left space (strtod_left r space strtod to_int) b',' s)
      where
        go :
            (o : Option Text)
            → LeftText (length s) o
            → Good P n (go_on r space strtod to_int again a s o)
        go none k = (p, l)
        go (some t) k = h t k

    after_key-Good :
        (field : Text → A → Text → Result A)
        → ((k : Text) (a : A) (s : Text) → P a → Good P (suc (length s)) (field k a s))
        → (a : A) (s : Text) → P a
        → Good P
            (length s)
            (after_key r space strtod to_int field a (string_of r space strtod to_int s))
    after_key-Good field h a s p =
        go (string_of r space strtod to_int s)
          (str-Left space (strtod_left r space strtod to_int) s)
      where
        colon :
            (k : Text) (n : ℕ) (o : Option Text)
            → LeftText n o
            → n < length s
            → Good P (length s) (after_colon r space strtod to_int field k a o)
        colon k n none l m = tt
        colon k n (some t) l m =
            Good-later P (suc (length t)) (length s) (field k a t) (h k a t p) (omega (arith, l, m))

        go :
            (o : Option (Text × Text))
            → Left (length s) o
            → Good P (length s) (after_key r space strtod to_int field a o)
        go none l = tt
        go (some (k, t)) l =
            colon k (length t) (eats r space strtod to_int b':' t)
              (eat-Left space (strtod_left r space strtod to_int) b':' t) l

    members-Good :
        (field : Text → A → Text → Result A)
        → ((k : Text) (a : A) (s : Text) → P a → Good P (suc (length s)) (field k a s))
        → (n : ℕ) (a : A) (s : Text) → P a
        → length s < n
        → Good P (length s) (members r space strtod to_int n field a s)
    unfolding members
    members-Good field h zero a s p l = absurd (omega (arith, l))
    members-Good field h (suc n) a s p l =
        and_then-Good P P _ (length s) (length s) _ (after_key-Good field h a s p) (λ b t q k.
          comma-Good (members r space strtod to_int n field) b t (length s) q k (λ u j.
            Good-later P (length u) (length s) _
              (members-Good field h n b u q (omega (arith, l, k, j))) (omega (arith, k, j))))

    elements-Good :
        (element : A → Text → Result A)
        → ((a : A) (s : Text) → P a → Good P (length s) (element a s))
        → (n : ℕ) (a : A) (s : Text) → P a
        → length s < n
        → Good P (length s) (elements r space strtod to_int n element a s)
    unfolding elements
    elements-Good element h zero a s p l = absurd (omega (arith, l))
    elements-Good element h (suc n) a s p l =
        and_then-Good P P _ (length s) (length s) _ (h a s p) (λ b t q k.
          comma-Good (elements r space strtod to_int n element) b t (length s) q k (λ u j.
            Good-later P (length u) (length s) _
              (elements-Good element h n b u q (omega (arith, l, k, j))) (omega (arith, k, j))))

    closed-Good :
        (c : ℕ) (a : A) (s : Text) → P a → Good P (length s) (closed r space strtod to_int c a s)
    closed-Good c a s p =
        skipped-Good P a (length s) _ (eat-Left space (strtod_left r space strtod to_int) c s) p

    pub object-Good :
        (field : Text → A → Text → Result A)
        → ((k : Text) (a : A) (s : Text) → P a → Good P (suc (length s)) (field k a s))
        → (a : A) (s : Text) → P a
        → Good P (length s) (object r space strtod to_int field a s)
    unfolding object
    object-Good field h a s p =
        go (eats r space strtod to_int b'{' s)
          (eat-Left space (strtod_left r space strtod to_int) b'{' s)
      where
        go :
            (o : Option Text)
            → LeftText (length s) o
            → Good P (length s) (opened r space strtod to_int field a o)
        go none l = tt
        go (some t) l =
            and_then-Good P P _ (length t) (length s) _
              (members-Good field h (suc (length t)) a t p (omega arith))
              (λ b u q k.
                Good-later P (length u) (length s) _ (closed-Good b'}' b u q) (omega (arith, l, k)))

    pub array-Good :
        (element : A → Text → Result A)
        → ((a : A) (s : Text) → P a → Good P (length s) (element a s))
        → (a : A) (s : Text) → P a
        → Good P (length s) (array r space strtod to_int element a s)
    unfolding array
    array-Good element h a s p =
        go (eats r space strtod to_int b'[' s)
          (eat-Left space (strtod_left r space strtod to_int) b'[' s)
      where
        inner :
            (t : Text) (o : Option Text)
            → Good P (suc (length t)) (unless_empty r space strtod to_int element a t o)
        inner t (some u) = (p, omega arith)
        inner t none =
            Good-later P (length t) (suc (length t)) _
              (elements-Good element h (suc (length t)) a t p (omega arith)) (omega arith)

        go :
            (o : Option Text)
            → LeftText (length s) o
            → Good P (length s) (listed r space strtod to_int element a o)
        go none l = tt
        go (some t) l =
            and_then-Good P P _ (suc (length t)) (length s) _
              (inner t (eats r space strtod to_int b']' t))
              (λ b u q k.
                Good-later P (length u) (length s) _ (closed-Good b']' b u q) (omega (arith, l, k)))
