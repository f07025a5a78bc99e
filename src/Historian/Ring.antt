-- ===== src/Historian/Ring.antt =====
-- The points that a ring holds, oldest first, and what Add does to them.
use Prim.Native.Nat.{◌<◌}
use native.Mathlib.Nat.{
  mod-lt, mod_self, mod-eq_of_lt, mod-eq-sub-mod, mod-add-mod, zero-mod, add-mod_right,
}
use native.Mathlib.Decide.{dec_lt}
use project_sh_fms.Prelude.{
  ℕ, zero, suc, ◌+◌, ◌-◌, ◌%◌, ◌≡◌, ◌≢◌, ◌⊎◌, inl, inr, refl, sym, ap, ap₂, ◌∙◌, List, [], ◌∷◌,
  ◌++◌, if◌then◌else◌, ltb, length, arith, length-set, length-replicate, get_or-set_self,
  get_or-set_ne,
}
use project_sh_fms.Number.{Number}
use project_sh_fms.Engine.Store.{push}
use project_sh_fms.Engine.Store.Laws.{push_full, push_within}
use project_sh_fms.Historian.{RingBuffer, new_ring, add_point, point_at}

-- Fewer than `cap` steps round the ring do not come back.
round_ne :
    (cap start i n : ℕ) → start < cap → i < n → n < cap → (start + i) % cap ≢ (start + n) % cap
round_ne cap start i n a b c = elim (dec_lt (start + n) cap) [
  | yes p ↦
      omega (arith, mod-eq_of_lt p, mod-eq_of_lt {n = start + i} {m = cap} (omega (arith, p, b)))
  | no p ↦ elim (dec_lt (start + i) cap) [
    | yes q ↦ omega (
      arith,
      a,
      b,
      c,
      mod-eq_of_lt q,
      mod-eq-sub-mod {n = start + n} {m = cap} (omega (arith, p)),
      mod-eq_of_lt {n = start + n - cap} {m = cap} (omega (arith, a, c)),
    )
    | no q ↦ omega (
      arith,
      a,
      b,
      c,
      mod-eq-sub-mod {n = start + n} {m = cap} (omega (arith, p)),
      mod-eq_of_lt {n = start + n - cap} {m = cap} (omega (arith, a, c)),
      mod-eq-sub-mod {n = start + i} {m = cap} (omega (arith, q)),
      mod-eq_of_lt {n = start + i - cap} {m = cap} (omega (arith, a, b, c)),
    )
  ]
]

module _ {ℓ} {A : Type ℓ} (cap : ℕ) where
  -- `n` cells going round from the `i`th after `start`.
  abbrev pub cells : (ℕ → A) → ℕ → ℕ → ℕ → List A
  cells at start i zero = []
  cells at start i (suc n) = at ((start + i) % cap) ∷ cells at start (i + 1) n

  -- A write to the cell after the last makes one cell more, and changes none before it.
  cells_grow :
      (at at' : ℕ → A) (start i n k : ℕ)
      → start < cap
      → k ≡ i + n
      → k < cap
      → ((j : ℕ) → j ≢ (start + k) % cap → at' j ≡ at j)
      → cells at' start i (suc n) ≡ cells at start i n ++ at' ((start + k) % cap) ∷ []
  cells_grow at at' start i zero k a e b f = let q : k ≡ i = omega (arith, e) in rw q refl
  cells_grow at at' start i (suc n) k a e b f =
      ap₂ ◌∷◌ (f ((start + i) % cap) (round_ne cap start i k a (omega (arith, e)) b))
        (cells_grow at at' start (i + 1) n k a (omega (arith, e)) b f)

  -- A start one cell later, and one cell fewer.
  cells_shift :
      (at : ℕ → A) (start i n : ℕ) → cells at ((start + 1) % cap) i n ≡ cells at start (i + 1) n
  cells_shift at start i zero = refl
  cells_shift at start i (suc n) =
      let e : ((start + 1) % cap + i) % cap ≡ (start + (i + 1)) % cap =
        mod-add-mod (start + 1) cap i ∙ ap (λ k. k % cap) (omega arith) in
      ap₂ ◌∷◌ (ap at e) (cells_shift at start (i + 1) n)

  pub length-cells : (at : ℕ → A) (start i n : ℕ) → length (cells at start i n) ≡ n
  length-cells at start i zero = refl
  length-cells at start i (suc n) = ap suc (length-cells at start (i + 1) n)

module _ (r : Number) where
  -- Where Range begins to read.
  abbrev pub start_of : RingBuffer r → ℕ
  start_of b = (b.head + b.cap - b.count) % b.cap

  -- The points of a ring, oldest first.
  abbrev pub contents : RingBuffer r → List (ℕ × r.Num)
  contents b = cells b.cap (point_at r b) (start_of b) 0 b.count

  contents_as :
      (b : RingBuffer r) (c s n : ℕ)
      → b.cap ≡ c
      → start_of b ≡ s
      → b.count ≡ n
      → contents b ≡ cells c (point_at r b) s 0 n
  contents_as b c s n e f g = rw (← e, ← f, ← g) refl

  -- The arrays have the capacity, the head is inside, and the ring is full or filled from the start.
  pub record IsValid (b : RingBuffer r) : Type 0 where
    pub positive : 0 < b.cap
    pub times : length b.ts ≡ b.cap
    pub values : length b.val ≡ b.cap
    pub inside : b.head < b.cap
    pub filled : (b.count ≡ b.cap) ⊎ (b.count ≡ b.head)

  pub new_ring-IsValid : (cap : ℕ) → 0 < cap → IsValid (new_ring r cap)
  unfolding new_ring
  new_ring-IsValid cap h = record {
    positive = h;
    times = length-replicate cap 0;
    values = length-replicate cap _;
    inside = h;
    filled = inr refl;
  }

  pub contents-new_ring : (cap : ℕ) → contents (new_ring r cap) ≡ []
  unfolding new_ring
  contents-new_ring cap = refl

  next_head :
      (b : RingBuffer r)
      → b.head < b.cap
      → ((b.head + 1) % b.cap < b.cap)
        × ((b.head + 1 ≡ b.cap) ⊎ ((b.head + 1) % b.cap ≡ b.head + 1))
  next_head b h = (
    mod-lt (b.head + 1) {m = b.cap} (omega (arith, h)),
    elim (dec_lt (b.head + 1) b.cap) [
      | yes p ↦ inr (mod-eq_of_lt p)
      | no p ↦ inl (omega (arith, p, h))
    ],
  )

  pub add_point-IsValid :
      (ts : ℕ) (v : r.Num) (b : RingBuffer r) → IsValid b → IsValid (add_point r ts v b)
  unfolding add_point
  add_point-IsValid ts v b i =
      let (lt, next) = next_head b i.inside in
      record {
        positive = i.positive;
        times = length-set b.ts b.head ts ∙ i.times;
        values = length-set b.val b.head v ∙ i.values;
        inside = lt;
        filled = ground arith;
      }

  module _ (ts : ℕ) (v : r.Num) (b : RingBuffer r) (i : IsValid b) where
    new_cell : point_at r (add_point r ts v b) b.head ≡ (ts, v)
    unfolding add_point
    new_cell =
        ap₂ (λ x y. (x, y)) (get_or-set_self b.ts b.head ts 0 (omega (arith, i.times, i.inside)))
          (get_or-set_self b.val b.head v _ (omega (arith, i.values, i.inside)))

    old_cell : (j : ℕ) → j ≢ b.head → point_at r (add_point r ts v b) j ≡ point_at r b j
    unfolding add_point
    old_cell j h =
        ap₂ (λ x y. (x, y)) (get_or-set_ne b.ts b.head j ts 0 h)
          (get_or-set_ne b.val b.head j v _ h)

    grown :
        (start n : ℕ)
        → start < b.cap
        → n < b.cap
        → (start + n) % b.cap ≡ b.head
        → cells b.cap (point_at r (add_point r ts v b)) start 0 (suc n)
          ≡ cells b.cap (point_at r b) start 0 n ++ (ts, v) ∷ []
    grown start n h k e =
        cells_grow b.cap (point_at r b) (point_at r (add_point r ts v b)) start 0 n n h
          (omega arith) k (λ j q. old_cell j (rw e at q))
        ∙ ap (λ x. cells b.cap (point_at r b) start 0 n ++ x ∷ [])
            (ap (point_at r (add_point r ts v b)) e ∙ new_cell)

    pub cap-add : (add_point r ts v b).cap ≡ b.cap
    unfolding add_point
    cap-add = refl

    start_filling : b.count ≡ b.head → start_of (add_point r ts v b) ≡ 0
    unfolding add_point
    start_filling e =
        let (lt, next) = next_head b i.inside in
        let c : (if ltb b.count b.cap then b.count + 1 else b.count) ≡ b.head + 1 =
          ground (arith, i.inside) in
        let at_end : (h : ℕ)
            → (h ≡ b.head + 1) ⊎ ((h ≡ 0) × (b.head + 1 ≡ b.cap))
            → (h + b.cap - (b.head + 1)) % b.cap ≡ 0 =
          λ h q. elim q [
            | inl x ↦
                let y : h + b.cap - (b.head + 1) ≡ b.cap = omega (arith, x) in rw y (mod_self b.cap)
            | inr (x, y) ↦
                let z : h + b.cap - (b.head + 1) ≡ 0 = omega (arith, x, y) in rw z (zero-mod b.cap)
          ] in
        rw c (
          at_end ((b.head + 1) % b.cap)
            (elim next [ inl x ↦ inr (rw x (mod_self b.cap), x) | inr x ↦ inl x ]))

    add_filling : b.count ≡ b.head → contents (add_point r ts v b) ≡ contents b ++ (ts, v) ∷ []
    add_filling e =
        let c : (add_point r ts v b).count ≡ suc b.head =
          unfold add_point in ground (arith, i.inside, e) in
        let s : start_of b ≡ 0 =
          let y : b.head + b.cap - b.count ≡ b.cap = omega (arith, e) in rw y (mod_self b.cap) in
        contents_as (add_point r ts v b) b.cap 0 (suc b.head) cap-add (start_filling e) c
        ∙ grown 0 b.head i.positive i.inside
            (let z : 0 + b.head ≡ b.head = omega arith in rw z (mod-eq_of_lt i.inside))
        ∙ ap (λ xs. xs ++ (ts, v) ∷ []) (sym (contents_as b b.cap 0 b.head refl s e))

    start_full : b.count ≡ b.cap → start_of (add_point r ts v b) ≡ (b.head + 1) % b.cap
    unfolding add_point
    start_full e =
        let lt = (next_head b i.inside).0 in
        let c : (if ltb b.count b.cap then b.count + 1 else b.count) ≡ b.cap = ground arith in
        let z : (b.head + 1) % b.cap + b.cap - b.cap ≡ (b.head + 1) % b.cap = omega arith in
        rw (c, z) (mod-eq_of_lt lt)

    come_round : (m : ℕ) → b.cap ≡ suc m → ((b.head + 1) % b.cap + m) % b.cap ≡ b.head
    come_round m q =
        let y : b.head + 1 + m ≡ b.head + b.cap = omega (arith, q) in
        mod-add-mod (b.head + 1) b.cap m ∙ rw y (add-mod_right b.head b.cap ∙ mod-eq_of_lt i.inside)

    add_full : b.count ≡ b.cap → contents (add_point r ts v b) ≡ push b.cap (ts, v) (contents b)
    add_full e =
        let m = b.cap - 1 in
        let q : b.cap ≡ suc m = omega (arith, i.positive) in
        let h' = (b.head + 1) % b.cap in
        let lt = (next_head b i.inside).0 in
        let at = point_at r b in
        let c : (add_point r ts v b).count ≡ suc m = unfold add_point in ground (arith, e, q) in
        let s : start_of b ≡ b.head =
          let z : b.head + b.cap - b.count ≡ b.head = omega (arith, e) in
          rw z (mod-eq_of_lt i.inside) in
        let tail = cells b.cap at b.head (0 + 1) m in
        let whole : contents b ≡ at ((b.head + 0) % b.cap) ∷ tail =
          contents_as b b.cap b.head (suc m) refl s (e ∙ q) in
        let n : length (at ((b.head + 0) % b.cap) ∷ tail) ≡ b.cap =
          length-cells b.cap at b.head 0 (suc m) ∙ sym q in
        contents_as (add_point r ts v b) b.cap h' (suc m) cap-add (start_full e) c
        ∙ grown h' m lt (omega (arith, q)) (come_round m q)
        ∙ ap (λ xs. xs ++ (ts, v) ∷ []) (cells_shift b.cap at b.head 0 m)
        ∙ sym (push_full b.cap (ts, v) _ tail n)
        ∙ ap (push b.cap (ts, v)) (sym whole)

    -- Add puts a point behind those that the ring holds, and drops the oldest if it was full.
    pub contents-add_point : contents (add_point r ts v b) ≡ push b.cap (ts, v) (contents b)
    contents-add_point = elim (dec_lt b.count b.cap) [
      | yes p ↦
          let e : b.count ≡ b.head = ground (arith, p, i.filled) in
          add_filling e
          ∙ sym (
              push_within b.cap (ts, v) (contents b)
                (omega (arith, p, length-cells b.cap (point_at r b) (start_of b) 0 b.count)))
      | no p ↦ add_full (ground (arith, p, i.filled, i.inside))
    ]
