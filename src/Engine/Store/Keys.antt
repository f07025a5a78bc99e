-- ===== src/Engine/Store/Keys.antt =====
-- What holds of every entry of a dictionary, and that its keys are different, through its changes.
use project_sh_fms.Prelude.{
  ◌≡◌, ◌≢◌, sym, List, [], ◌∷◌, some, Text, text_eq, text_eq_iff, Bool-cases, inl, inr, subst,
}
use project_sh_fms.Engine.Store.{lookup, insert, remove, map_values}

module _ {ℓ κ} {V : Type ℓ} (P : Text → V → Type κ) where
  -- Every entry of the dictionary has the property.
  abbrev pub Entries : List (Text × V) → Type κ
  Entries [] = Unit
  Entries ((k, v) ∷ m) = P k v × Entries m

  pub insert-Entries :
      (k : Text) (v : V) (m : List (Text × V)) → P k v → Entries m → Entries (insert k v m)
  unfolding insert
  insert-Entries k v [] p h = (p, tt)
  insert-Entries k v ((j, w) ∷ m) p h = elim (Bool-cases (text_eq j k)) [
    | inl e ↦ rw e (subst (λ i. P i v) (sym ((text_eq_iff j k).0 e)) p, h.1)
    | inr e ↦ rw e (h.0, insert-Entries k v m p h.1)
  ]

  pub remove-Entries : (k : Text) (m : List (Text × V)) → Entries m → Entries (remove k m)
  unfolding remove
  remove-Entries k [] h = tt
  remove-Entries k ((j, w) ∷ m) h = elim (Bool-cases (text_eq j k)) [
    | inl e ↦ rw e (remove-Entries k m h.1)
    | inr e ↦ rw e (h.0, remove-Entries k m h.1)
  ]

  pub map_values-Entries :
      (f : V → V)
      → ((k : Text) (v : V) → P k v → P k (f v))
      → (m : List (Text × V)) → Entries m
      → Entries (map_values f m)
  unfolding map_values
  map_values-Entries f g [] h = tt
  map_values-Entries f g ((j, w) ∷ m) h = (g j w h.0, map_values-Entries f g m h.1)

  pub lookup-Entries :
      (k : Text) (m : List (Text × V)) {v : V} → Entries m → lookup k m ≡ some v → P k v
  unfolding lookup
  lookup-Entries k [] h e = absurd (cc)
  lookup-Entries k ((j, w) ∷ m) {v} h e = elim (Bool-cases (text_eq j k)) [
    | inl t ↦
        let q : some w ≡ some v = (rw t at e) in
        let u : w ≡ v = cc in subst (λ x. P k x) u (subst (λ i. P i w) ((text_eq_iff j k).0 t) h.0)
    | inr t ↦ lookup-Entries k m h.1 (rw t at e)
  ]

module _ {ℓ} {V : Type ℓ} where
  -- No entry has the key.
  abbrev pub Absent : Text → List (Text × V) → Type 0
  Absent k [] = Unit
  Absent k ((j, v) ∷ m) = (k ≢ j) × Absent k m

  -- The keys are pairwise different.
  abbrev pub UniqueKeys : List (Text × V) → Type 0
  UniqueKeys [] = Unit
  UniqueKeys ((k, v) ∷ m) = Absent k m × UniqueKeys m

  insert-Absent :
      (i k : Text) (v : V) (m : List (Text × V)) → i ≢ k → Absent i m → Absent i (insert k v m)
  unfolding insert
  insert-Absent i k v [] n h = (n, tt)
  insert-Absent i k v ((j, w) ∷ m) n h = elim (Bool-cases (text_eq j k)) [
    | inl e ↦ rw e h
    | inr e ↦ rw e (h.0, insert-Absent i k v m n h.1)
  ]

  pub insert-UniqueKeys :
      (k : Text) (v : V) (m : List (Text × V)) → UniqueKeys m → UniqueKeys (insert k v m)
  unfolding insert
  insert-UniqueKeys k v [] h = (tt, tt)
  insert-UniqueKeys k v ((j, w) ∷ m) h = elim (Bool-cases (text_eq j k)) [
    | inl e ↦ rw e h
    | inr e ↦ rw e (
      insert-Absent j k v m (λ q. let t = (text_eq_iff j k).1 q in cc) h.0,
      insert-UniqueKeys k v m h.1,
    )
  ]

  remove-Absent : (i k : Text) (m : List (Text × V)) → Absent i m → Absent i (remove k m)
  unfolding remove
  remove-Absent i k [] h = tt
  remove-Absent i k ((j, w) ∷ m) h = elim (Bool-cases (text_eq j k)) [
    | inl e ↦ rw e (remove-Absent i k m h.1)
    | inr e ↦ rw e (h.0, remove-Absent i k m h.1)
  ]

  pub remove-UniqueKeys : (k : Text) (m : List (Text × V)) → UniqueKeys m → UniqueKeys (remove k m)
  unfolding remove
  remove-UniqueKeys k [] h = tt
  remove-UniqueKeys k ((j, w) ∷ m) h = elim (Bool-cases (text_eq j k)) [
    | inl e ↦ rw e (remove-UniqueKeys k m h.1)
    | inr e ↦ rw e (remove-Absent j k m h.0, remove-UniqueKeys k m h.1)
  ]

  map_values-Absent :
      (i : Text) (f : V → V) (m : List (Text × V)) → Absent i m → Absent i (map_values f m)
  unfolding map_values
  map_values-Absent i f [] h = tt
  map_values-Absent i f ((j, w) ∷ m) h = (h.0, map_values-Absent i f m h.1)

  pub map_values-UniqueKeys :
      (f : V → V) (m : List (Text × V)) → UniqueKeys m → UniqueKeys (map_values f m)
  unfolding map_values
  map_values-UniqueKeys f [] h = tt
  map_values-UniqueKeys f ((j, w) ∷ m) h =
      (map_values-Absent j f m h.0, map_values-UniqueKeys f m h.1)
