-- ===== src/Historian/Refine.antt =====
-- The historian as the list of what was written to it.
use project_sh_fms.Prelude.{
  ℕ, zero, suc, ◌+◌, ◌-◌, ◌≡◌, inl, inr, refl, ap₂, ◌∙◌, List, [], ◌∷◌, ◌++◌, append_assoc,
  append-nil, Option, none, some, Text, if◌then◌else◌, text_eq, text_eq_iff, length, drop, arith,
  select, Bool-cases, subst,
}
use project_sh_fms.Number.{Number}
use project_sh_fms.Engine.{Sample}
use project_sh_fms.Engine.Store.{lookup, shrink, push}
use project_sh_fms.Engine.Store.Laws.{lookup-insert, shrink_append}
use project_sh_fms.Historian.{
  RingBuffer, new_ring, add_point, point_at, is_within, range_from, range, per_tag_capacity,
  get_or_add, write_one, write,
}
use project_sh_fms.Historian.Ring.{
  cells, start_of, contents, IsValid, new_ring-IsValid, add_point-IsValid, contents-add_point,
  cap-add,
}

module _ (r : Number) where
  range_from-cells :
      (from to start i n : ℕ) (b : RingBuffer r)
      → range_from r from to start i n b
        ≡ select (is_within r from to) (cells b.cap (point_at r b) start i n)
  unfolding range_from
  range_from-cells from to start i zero b = refl
  range_from-cells from to start i (suc n) b =
      ground (arith, range_from-cells from to start (i + 1) n b)

  -- Range returns those of the points that a ring holds which lie in the interval.
  pub range-contents :
      (from to : ℕ) (b : RingBuffer r)
      → range r from to b ≡ select (is_within r from to) (contents r b)
  unfolding range
  range-contents from to b = range_from-cells from to (start_of r b) 0 b.count b

  -- The specification: of all that was written, a tag's points in the order of writing.
  abbrev pub points_of : Text → List (Sample r) → List (ℕ × r.Num)
  points_of tag [] = []
  points_of tag (v ∷ vs) =
      let rest = points_of tag vs in if text_eq v.tag tag then (v.ts, v.value) ∷ rest else rest

  -- The newest points of a series, as many as a ring has room for.
  abbrev pub newest : List (ℕ × r.Num) → List (ℕ × r.Num)
  newest xs = drop (length xs - per_tag_capacity) xs

  -- A tag has no series and nothing was written for it, or a ring that holds the newest of what was.
  pub data Holds (xs : List (ℕ × r.Num)) : Option (RingBuffer r) → Type 0 where
    nothing : xs ≡ [] → Holds xs none
    ring :
        (b : RingBuffer r)
        → IsValid r b
        → b.cap ≡ per_tag_capacity
        → contents r b ≡ shrink per_tag_capacity xs
        → Holds xs (some b)

  add-Holds :
      (xs : List (ℕ × r.Num)) (ts : ℕ) (v : r.Num) (b : RingBuffer r)
      → IsValid r b
      → b.cap ≡ per_tag_capacity
      → contents r b ≡ shrink per_tag_capacity xs
      → Holds (xs ++ (ts, v) ∷ []) (some (add_point r ts v b))
  unfolding push
  add-Holds xs ts v b i c e =
      ring (add_point r ts v b) (add_point-IsValid r ts v b i) (cap-add r ts v b i ∙ c) (
        contents-add_point r ts v b i
        ∙ ap₂ (λ k ys. push k (ts, v) ys) c e
        ∙ shrink_append per_tag_capacity xs ((ts, v) ∷ []))

  get_or_add-Holds :
      {xs : List (ℕ × r.Num)} {o : Option (RingBuffer r)} (ts : ℕ) (v : r.Num)
      → Holds xs o
      → Holds (xs ++ (ts, v) ∷ []) (some (add_point r ts v (get_or_add r o)))
  unfolding shrink new_ring
  get_or_add-Holds ts v (nothing e) = rw e (
      add-Holds [] ts v (new_ring r per_tag_capacity)
        (new_ring-IsValid r per_tag_capacity (omega arith)) refl refl)
  get_or_add-Holds {xs} ts v (ring b i c e) = add-Holds xs ts v b i c e

  points-append :
      (tag : Text) (vs ws : List (Sample r))
      → points_of tag (vs ++ ws) ≡ points_of tag vs ++ points_of tag ws
  points-append tag [] ws = refl
  points-append tag (v ∷ vs) ws = ground (arith, points-append tag vs ws)

  write_one-Holds :
      (vs : List (Sample r)) (v : Sample r) (s : List (Text × RingBuffer r))
      → ((tag : Text) → Holds (points_of tag vs) (lookup tag s))
      → (tag : Text) → Holds (points_of tag (vs ++ v ∷ [])) (lookup tag (write_one r v s))
  unfolding write_one
  write_one-Holds vs v s h tag =
      rw
        (
          points-append tag vs (v ∷ []),
          lookup-insert v.tag tag (add_point r v.ts v.value (get_or_add r (lookup v.tag s))) s,
        )
        (elim (Bool-cases (text_eq v.tag tag)) [
          | inl e ↦ rw e (
              subst
                (λ k.
                  Holds (points_of k vs ++ (v.ts, v.value) ∷ [])
                    (some (add_point r v.ts v.value (get_or_add r (lookup v.tag s)))))
                ((text_eq_iff v.tag tag).0 e) (get_or_add-Holds v.ts v.value (h v.tag)))
          | inr e ↦ rw (e, append-nil (points_of tag vs)) (h tag)
        ])

  -- After any batches, each tag's series holds the newest of what was written for it.
  pub write-Holds :
      (ws vs : List (Sample r)) (s : List (Text × RingBuffer r))
      → ((tag : Text) → Holds (points_of tag ws) (lookup tag s))
      → (tag : Text) → Holds (points_of tag (ws ++ vs)) (lookup tag (write r vs s))
  unfolding write
  write-Holds ws [] s h tag = rw (append-nil ws) (h tag)
  write-Holds ws (v ∷ vs) s h tag =
      rw (← append_assoc ws (v ∷ []) vs)
        (write-Holds (ws ++ v ∷ []) vs (write_one r v s) (write_one-Holds ws v s h) tag)
