-- ===== src/Engine/Store.antt =====
-- AlarmEngine.cs: its containers. The dictionary of active alarms, the bounded history (Push) and
-- the set of suppressed keys (Suppress, IsSuppressed).
pub mod Laws
pub mod Keys
use project_sh_fms.Prelude.{
  ℕ, zero, suc, Bool, true, false, not, ◌&&◌, ◌||◌, List, [], ◌∷◌, ◌++◌, Option, none, some, Text,
  codes, if◌then◌else◌, text_eq, ltb, ◌==◌, length, head_or,
}
use project_sh_fms.Number.{Number}
use project_sh_fms.Engine.{Runtime, Meta, Raised, Event, Engine, same_folded}

-- HistoryLimit
abbrev pub history_limit : ℕ
history_limit = 5000

module _ {ℓ} {V : Type ℓ} where
  -- TryGetValue
  unfoldable pub lookup : Text → List (Text × V) → Option V
  lookup k [] = none
  lookup k ((j, v) ∷ m) = let rest = lookup k m in if text_eq j k then some v else rest

  -- `d[k] = v`
  unfoldable pub insert : Text → V → List (Text × V) → List (Text × V)
  insert k v [] = (k, v) ∷ []
  insert k v ((j, w) ∷ m) =
      let rest = insert k v m in if text_eq j k then (j, v) ∷ m else (j, w) ∷ rest

  -- TryRemove
  unfoldable pub remove : Text → List (Text × V) → List (Text × V)
  remove k [] = []
  remove k ((j, v) ∷ m) = let rest = remove k m in if text_eq j k then rest else (j, v) ∷ rest

  -- A change of every value.
  unfoldable pub map_values : (V → V) → List (Text × V) → List (Text × V)
  map_values f [] = []
  map_values f ((j, v) ∷ m) = (j, f v) ∷ map_values f m

module _ {ℓ} {A : Type ℓ} where
  -- `while (q.Count > limit) q.TryDequeue(out _);`
  unfoldable pub shrink : ℕ → List A → List A
  shrink limit [] = []
  shrink limit (x ∷ xs) =
      let rest = shrink limit xs in if ltb limit (length (x ∷ xs)) then rest else x ∷ xs

  -- Push
  unfoldable pub push : ℕ → A → List A → List A
  unfolding shrink
  push limit x xs = shrink limit (xs ++ x ∷ [])

-- `m.Tag.Split('_')[0]`
unfoldable pub before_underscore : Text → Text
before_underscore [] = []
before_underscore (c ∷ s) = let rest = before_underscore s in if c == b'_' then [] else c ∷ rest

module _ (fold : Text → Text) where
  unfoldable pub contains_key : Text → List Text → Bool
  contains_key k [] = false
  contains_key k (j ∷ ks) = same_folded fold j k || contains_key k ks

  -- HashSet.Add
  unfoldable pub add_key : Text → List Text → List Text
  unfolding contains_key
  add_key k ks = if contains_key k ks then ks else k ∷ ks

  -- HashSet.Remove
  unfoldable pub remove_key : Text → List Text → List Text
  remove_key k [] = []
  remove_key k (j ∷ ks) =
      let rest = remove_key k ks in if same_folded fold j k then rest else j ∷ rest

  -- Suppress
  unfoldable pub suppress_keys : Text → Bool → List Text → List Text
  unfolding add_key remove_key
  suppress_keys k true ks = add_key k ks
  suppress_keys k false ks = remove_key k ks

module _ (r : Number) (t : Runtime r) where
  unfoldable pub suppress : Text → Bool → Engine r → Engine r
  suppress k on e = record e { suppressed = suppress_keys t.fold k on e.suppressed }

  unfoldable pub is_suppressed : Meta r → List Text → Bool
  unfolding before_underscore contains_key
  is_suppressed m [] = false
  is_suppressed m (k ∷ ks) =
      contains_key t.fold (before_underscore m.tag) (k ∷ ks) || contains_key t.fold m.area (k ∷ ks)
