-- ===== src/Engine/Store/Laws.antt =====
-- The laws of the engine's containers.
use Prim.Native.Nat.{◌≤◌}
use Prim.Native.Nat.{◌<◌, ◌-◌, suc}
use project_sh_fms.Prelude.{
  Bool-cases, inl, inr, drop, ltb, ℕ, ◌≡◌, refl, ◌∙◌, Bool, true, false, List, [], ◌∷◌, ◌++◌, none,
  some, Text, if◌then◌else◌, text_eq, text_eq_iff, text_eq_refl, length, length-append, arith,
}
use project_sh_fms.Engine.Store.{
  lookup, insert, remove, shrink, push, contains_key, remove_key, suppress_keys,
}

module _ {ℓ} {V : Type ℓ} where
  pub lookup-insert :
      (k j : Text) (v : V) (m : List (Text × V))
      → lookup j (insert k v m) ≡ (if text_eq k j then some v else lookup j m)
  unfolding lookup insert
  lookup-insert k j v [] = refl
  lookup-insert k j v ((i, w) ∷ m) =
      ground (arith, text_eq_iff k j, text_eq_iff i k, text_eq_iff i j, lookup-insert k j v m)

  pub lookup-remove :
      (k j : Text) (m : List (Text × V))
      → lookup j (remove k m) ≡ (if text_eq k j then none else lookup j m)
  unfolding lookup remove
  lookup-remove k j [] = ground arith
  lookup-remove k j ((i, w) ∷ m) =
      ground (arith, text_eq_iff k j, text_eq_iff i k, text_eq_iff i j, lookup-remove k j m)

module _ {ℓ} {A : Type ℓ} where
  pub length-shrink : (limit : ℕ) (xs : List A) → length (shrink limit xs) ≤ limit
  unfolding shrink
  length-shrink limit [] = omega arith
  length-shrink limit (x ∷ xs) = ground (arith, length-shrink limit xs)

  pub length-push : (limit : ℕ) (x : A) (xs : List A) → length (push limit x xs) ≤ limit
  unfolding push
  length-push limit x xs = length-shrink limit (xs ++ x ∷ [])

  pub shrink_within : (limit : ℕ) (xs : List A) → length xs ≤ limit → shrink limit xs ≡ xs
  unfolding shrink
  shrink_within limit [] h = refl
  shrink_within limit (x ∷ xs) h = ground arith

  pub push_within :
      (limit : ℕ) (x : A) (xs : List A) → length xs < limit → push limit x xs ≡ xs ++ x ∷ []
  unfolding push
  push_within limit x xs h =
      shrink_within limit (xs ++ x ∷ []) (omega (arith, h, length-append xs (x ∷ [])))

  -- What is left are the newest.
  pub shrink-drop : (limit : ℕ) (xs : List A) → shrink limit xs ≡ drop (length xs - limit) xs
  unfolding shrink
  shrink-drop limit [] = ground arith
  shrink-drop limit (x ∷ xs) = elim (Bool-cases (ltb limit (length (x ∷ xs)))) [
    | inl e ↦
        let n : length (x ∷ xs) - limit ≡ suc (length xs - limit) = ground arith in
        rw (e, n) (shrink-drop limit xs)
    | inr e ↦ let n : length (x ∷ xs) - limit ≡ 0 = ground arith in rw (e, n) refl
  ]

  -- Shrinking what stands before does not show in the end.
  pub shrink_append :
      (limit : ℕ) (xs ys : List A) → shrink limit (shrink limit xs ++ ys) ≡ shrink limit (xs ++ ys)
  unfolding shrink
  shrink_append limit [] ys = refl
  shrink_append limit (x ∷ xs) ys = elim (Bool-cases (ltb limit (length (x ∷ xs)))) [
    | inl e ↦
        let n : ltb limit (length (x ∷ (xs ++ ys))) ≡ true = ground (arith, length-append xs ys) in
        rw (e, n) (shrink_append limit xs ys)
    | inr e ↦ rw e refl
  ]

  -- A push into a full history drops the oldest entry, and one into any other drops none.
  pub push_full :
      (limit : ℕ) (x y : A) (ys : List A)
      → length (y ∷ ys) ≡ limit
      → push limit x (y ∷ ys) ≡ ys ++ x ∷ []
  unfolding push shrink
  push_full limit x y ys h =
      let n : length (ys ++ x ∷ []) ≡ limit = length-append ys (x ∷ []) ∙ (omega (arith, h)) in
      ground (arith, n, shrink_within limit (ys ++ x ∷ []))

module _ (fold : Text → Text) where
  contains-remove_key :
      (k : Text) (ks : List Text) → contains_key fold k (remove_key fold k ks) ≡ false
  unfolding contains_key remove_key
  contains-remove_key k [] = refl
  contains-remove_key k (j ∷ ks) = ground (arith, contains-remove_key k ks)

  -- A key is suppressed after it was switched on, and is not after it was switched off, in whatever
  -- case it is written.
  pub contains-suppress :
      (k : Text) (on : Bool) (ks : List Text)
      → contains_key fold k (suppress_keys fold k on ks) ≡ on
  unfolding suppress_keys contains_key
  contains-suppress k true ks = ground (arith, text_eq_refl (fold k))
  contains-suppress k false ks = contains-remove_key k ks
