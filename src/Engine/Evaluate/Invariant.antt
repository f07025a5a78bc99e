-- ===== src/Engine/Evaluate/Invariant.antt =====
-- What Evaluate keeps: the well-formedness of the engine.
use Prim.Native.Nat.{◌≤◌}
use project_sh_fms.Prelude.{
  ℕ, ◌+◌, ◌≡◌, refl, Bool, true, false, List, [], ◌∷◌, Option, none, some, Text, length, arith,
  Bool-cases, inl, inr,
}
use project_sh_fms.Number.{Number}
use project_sh_fms.Engine.{State, normal, shelved, Kind, Runtime, Sample, Meta, Event, Engine}
use project_sh_fms.Engine.Classify.{classify}
use project_sh_fms.Engine.Store.{history_limit, lookup, is_suppressed}
use project_sh_fms.Engine.Store.Laws.{length-push}
use project_sh_fms.Engine.Store.Keys.{
  Entries, insert-Entries, remove-Entries, map_values-Entries, lookup-Entries, UniqueKeys,
  insert-UniqueKeys, remove-UniqueKeys, map_values-UniqueKeys,
}
use project_sh_fms.Engine.Evaluate.{
  is_cleared, clear, try_clear, try_clear_found, raised, is_same_kind, refresh, fire, on_kind,
  on_meta, expire, expire_shelves, evaluate_one, evaluate_all, evaluate, is_unack_active,
}

-- Eight hours in ticks.
abbrev pub shelf_limit : ℕ
shelf_limit = 288_000_000_000

-- A shelved alarm has an instant at which it expires, eight hours past `now` at the latest.
abbrev pub ShelfEnds : ℕ → State → Option ℕ → Type 0
ShelfEnds now shelved none = ⊥
ShelfEnds now shelved (some x) = x ≤ now + shelf_limit
ShelfEnds now _ x = Unit

abbrev pub is_live : State → Bool
is_live normal = false
is_live _ = true

module _ (r : Number) where
  -- An active alarm stands under its tag, is not in the normal state, and is shelved for a time only.
  pub record IsActive (now : ℕ) (k : Text) (ev : Event r) : Type 0 where
    pub tagged : ev.raised.tag ≡ k
    pub live : is_live ev.state ≡ true
    pub shelf : ShelfEnds now ev.state ev.shelf_expires_at

  -- The engine at the instant `now`: each tag has one active alarm at most, all of them are in
  -- order, and the history is within its limit.
  pub record IsValid (now : ℕ) (e : Engine r) : Type 0 where
    pub unique : UniqueKeys e.active
    pub active : Entries (IsActive now) e.active
    pub bounded : length e.history ≤ history_limit

module _ (r : Number) (t : Runtime r) (now : ℕ) where
  clear-IsActive :
      (k : Text) (at : ℕ) (ev : Event r) (act : List (Text × Event r))
      → IsActive r now k ev
      → UniqueKeys act
      → Entries (IsActive r now) act
      → UniqueKeys (clear r t k at ev act) × Entries (IsActive r now) (clear r t k at ev act)
  unfolding clear
  clear-IsActive k at ev act i u h = elim (Bool-cases (is_unack_active ev.state)) [
    | inl e ↦ rw e (
      insert-UniqueKeys k _ act u,
      insert-Entries (IsActive r now) k _ act
          (record { tagged = i.tagged; live = refl; shelf = tt }) h,
    )
    | inr e ↦ rw e (remove-UniqueKeys k act u, remove-Entries (IsActive r now) k act h)
  ]

  try_clear-IsActive :
      (v : Sample r) (m : Meta r) (at : ℕ) (act : List (Text × Event r))
      → UniqueKeys act
      → Entries (IsActive r now) act
      → UniqueKeys (try_clear r t v m at act) × Entries (IsActive r now) (try_clear r t v m at act)
  unfolding try_clear
  try_clear-IsActive v m at act u h = go (lookup v.tag act) refl
    where
      go :
          (o : Option (Event r))
          → lookup v.tag act ≡ o
          → UniqueKeys (try_clear_found r t v m at o act)
            × Entries (IsActive r now) (try_clear_found r t v m at o act)
      go none q = (u, h)
      go (some ev) q = elim (Bool-cases (is_cleared r t ev.raised.kind ev v m)) [
        | inl e ↦
            rw e
              (clear-IsActive v.tag at ev act (lookup-Entries (IsActive r now) v.tag act h q) u h)
        | inr e ↦ rw e (u, h)
      ]

  refresh-IsValid :
      (v : Sample r) (e : Engine r)
      → IsValid r now e
      → IsValid r now (refresh r t v (lookup v.tag e.active) e)
  refresh-IsValid v e i = go (lookup v.tag e.active) refl
    where
      go : (o : Option (Event r)) → lookup v.tag e.active ≡ o → IsValid r now (refresh r t v o e)
      go none q = i
      go (some cur) q =
          let a = lookup-Entries (IsActive r now) v.tag e.active i.active q in
          record {
            unique = insert-UniqueKeys v.tag _ e.active i.unique;
            active =
                insert-Entries (IsActive r now) v.tag _ e.active
                  (record { tagged = a.tagged; live = a.live; shelf = a.shelf }) i.active;
            bounded = i.bounded;
          }

  fire-IsValid :
      (v : Sample r) (m : Meta r) (at : ℕ) (k : Kind) (l : r.Num) (e : Engine r)
      → IsValid r now e
      → IsValid r now (fire r t v m at k l e).0
  unfolding fire raised
  fire-IsValid v m at k l e i = record {
    unique = insert-UniqueKeys v.tag _ e.active i.unique;
    active =
        insert-Entries (IsActive r now) v.tag _ e.active
          (record { tagged = refl; live = refl; shelf = tt }) i.active;
    bounded = length-push history_limit _ e.history;
  }

  on_kind-IsValid :
      (v : Sample r) (m : Meta r) (at : ℕ) (o : Option (Kind × r.Num)) (e : Engine r)
      → IsValid r now e
      → IsValid r now (on_kind r t v m at o e).0
  on_kind-IsValid v m at none e i =
      let (u, a) = try_clear-IsActive v m at e.active i.unique i.active in
      record { unique = u; active = a; bounded = i.bounded }
  on_kind-IsValid v m at (some (k, l)) e i =
      elim (Bool-cases (is_same_kind r t (lookup v.tag e.active) k)) [
        | inl q ↦ rw q (refresh-IsValid v e i)
        | inr q ↦ rw q (fire-IsValid v m at k l e i)
      ]

  on_meta-IsValid :
      (v : Sample r) (o : Option (Meta r)) (at : ℕ) (e : Engine r)
      → IsValid r now e
      → IsValid r now (on_meta r t v o at e).0
  on_meta-IsValid v none at e i = i
  on_meta-IsValid v (some m) at e i = elim (Bool-cases (is_suppressed r t m e.suppressed)) [
    | inl q ↦ rw q i
    | inr q ↦ rw q (on_kind-IsValid v m at (classify r t v m) e i)
  ]

  expire-IsActive :
      (at : ℕ) (k : Text) (ev : Event r) → IsActive r now k ev → IsActive r now k (expire r t at ev)
  unfolding expire
  expire-IsActive at k ev i = ground arith

  module _ (meta : Text → Option (Meta r)) where
    evaluate_all-IsValid :
        (vs : List (Sample r × ℕ)) (e : Engine r)
        → IsValid r now e
        → IsValid r now (evaluate_all r t meta vs e).0
    unfolding evaluate_all evaluate_one
    evaluate_all-IsValid [] e i = i
    evaluate_all-IsValid ((v, at) ∷ vs) e i =
        evaluate_all-IsValid vs (evaluate_one r t meta v at e).0
          (on_meta-IsValid v (meta v.tag) at e i)

    -- A batch of any values keeps the engine well-formed.
    pub evaluate-IsValid :
        (vs : List (Sample r × ℕ)) (at : ℕ) (e : Engine r)
        → IsValid r now e
        → IsValid r now (evaluate r t meta vs at e).0
    unfolding evaluate expire_shelves
    evaluate-IsValid vs at e i =
        let j = evaluate_all-IsValid vs e i in
        record {
          unique = map_values-UniqueKeys (expire r t at) _ j.unique;
          active =
              map_values-Entries (IsActive r now) (expire r t at) (expire-IsActive at) _ j.active;
          bounded = j.bounded;
        }
