-- ===== src/Historian.antt =====
-- src/SHFms.Server/Services/Historian.cs: the series of the tags, each in a ring of two arrays.
-- Times are milliseconds since 1970, never negative.
pub mod Ring
pub mod Refine
pub mod Index
pub mod Query
use project_sh_fms.Prelude.{
  ℕ, zero, suc, ◌+◌, ◌-◌, ◌%◌, Bool, ◌&&◌, List, [], ◌∷◌, Option, none, some, Text, if◌then◌else◌,
  ltb, leb, length, set, get_or, replicate,
}
use project_sh_fms.Number.{Number}
use project_sh_fms.Engine.{Sample}
use project_sh_fms.Engine.Store.{lookup, insert}

-- PerTagCapacity
abbrev pub per_tag_capacity : ℕ
per_tag_capacity = 21600

module _ (r : Number) where
  open r use {Num, lit, mul, div}

  -- RingBuffer
  pub record RingBuffer : Type 0 where
    pub ts : List ℕ
    pub val : List Num
    pub cap : ℕ
    pub head : ℕ
    pub count : ℕ

  unfoldable pub new_ring : ℕ → RingBuffer
  new_ring cap = record {
    ts = replicate cap 0;
    val = replicate cap (lit 0 0);
    cap = cap;
    head = 0;
    count = 0;
  }

  -- Add
  unfoldable pub add_point : ℕ → Num → RingBuffer → RingBuffer
  add_point ts v b = record b {
    ts = set b.ts b.head ts;
    val = set b.val b.head v;
    head = (b.head + 1) % b.cap;
    count = if ltb b.count b.cap then b.count + 1 else b.count;
  }

  -- `(_ts[idx], _val[idx])`
  abbrev pub point_at : RingBuffer → ℕ → ℕ × Num
  point_at b idx = (get_or b.ts idx 0, get_or b.val idx (lit 0 0))

  abbrev pub is_within : ℕ → ℕ → ℕ × Num → Bool
  is_within from to p = leb from p.0 && leb p.0 to

  -- The loop of Range, with `n` turns left. `_head - _count + _cap` is not negative, since the count
  -- is at most the capacity.
  unfoldable pub range_from : ℕ → ℕ → ℕ → ℕ → ℕ → RingBuffer → List (ℕ × Num)
  range_from from to start i zero b = []
  range_from from to start i (suc n) b =
      let p = point_at b ((start + i) % b.cap) in
      let rest = range_from from to start (i + 1) n b in
      if is_within from to p then p ∷ rest else rest

  -- Range
  unfoldable pub range : ℕ → ℕ → RingBuffer → List (ℕ × Num)
  unfolding range_from
  range from to b = range_from from to ((b.head + b.cap - b.count) % b.cap) 0 b.count b

  abbrev pub get_or_add : Option RingBuffer → RingBuffer
  get_or_add none = new_ring per_tag_capacity
  get_or_add (some b) = b

  -- Write, for one value and for a batch.
  unfoldable pub write_one : Sample r → List (Text × RingBuffer) → List (Text × RingBuffer)
  write_one v s = insert v.tag (add_point v.ts v.value (get_or_add (lookup v.tag s))) s

  unfoldable pub write : List (Sample r) → List (Text × RingBuffer) → List (Text × RingBuffer)
  write [] s = s
  write (v ∷ vs) s = write vs (write_one v s)

  module _ (to_int : Num → ℕ) where
    -- `(int)(i * step)` with `step` of `(double)raw.Count / maxPoints`; `to_int` is the cast.
    unfoldable pub index_of : ℕ → ℕ → ℕ → ℕ
    index_of i count points =
        let step = div (lit count 0) (lit points 0) in to_int (mul (lit i 0) step)

    -- The loop of Query, with `n` turns left.
    unfoldable pub sampled : List (ℕ × Num) → ℕ → ℕ → ℕ → List (ℕ × Num)
    unfolding index_of
    sampled raw points i zero = []
    sampled raw points i (suc n) =
        get_or raw (index_of i (length raw) points) (0, lit 0 0) ∷ sampled raw points (i + 1) n

    abbrev pub thin_out : ℕ → List (ℕ × Num) → List (ℕ × Num)
    thin_out points raw = if leb (length raw) points then raw else sampled raw points 0 points

    abbrev pub query_found : Option RingBuffer → ℕ → ℕ → ℕ → List (ℕ × Num)
    query_found none from to points = []
    query_found (some b) from to points = thin_out points (range from to b)

    -- Query
    unfoldable pub query : Text → ℕ → ℕ → ℕ → List (Text × RingBuffer) → List (ℕ × Num)
    query tag from to points s = query_found (lookup tag s) from to points
