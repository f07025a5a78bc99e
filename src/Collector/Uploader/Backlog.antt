-- ===== src/Collector/Uploader/Backlog.antt =====
-- The backlog of the uploader: it is bounded, it keeps order, and it drains.
use Prim.Native.Nat.{◌≤◌}
use native.Mathlib.Nat.{suc-mul, zero-mul}
use project_sh_fms.Prelude.{
  ℕ, ◌+◌, ◌-◌, ◌*◌, ◌≡◌, refl, sym, ap, ◌∙◌, Bool, true, false, List, [], ◌∷◌, ◌++◌, append_assoc,
  append-nil, length, take, drop, length-append, length-drop, take-append-drop, arith, Bool-cases,
  inl, inr, All,
}
use project_sh_fms.Engine.Store.{shrink}
use project_sh_fms.Engine.Store.Laws.{length-shrink, shrink_within, shrink-drop}
use project_sh_fms.Collector.Uploader.{
  max_queue, chunk, is_empty, Uploader, new_uploader, posted, flush, upload, cycles,
}

module _ {ℓ} (A : Type ℓ) where
  -- All values that the cycles brought.
  abbrev pub brought : List (Bool × List A) → List A
  brought [] = []
  brought ((ok, changed) ∷ cs) = changed ++ brought cs

  -- A bounded queue, of which the gateway has confirmed as many values as were counted.
  record IsBounded (u : Uploader A) : Type ℓ where
    pub queue : length u.queue ≤ max_queue
    pub counted : length u.confirmed ≡ u.sent

  posted-IsBounded :
      (ok : Bool) (q : List A) (u : Uploader A)
      → length q ≤ max_queue
      → IsBounded u
      → IsBounded (posted A ok q u).0
  posted-IsBounded true q u h i = record {
    queue = omega (arith, h, length-drop chunk q);
    counted = omega (arith, i.counted, length-append u.confirmed (take chunk q));
  }
  posted-IsBounded false q u h i = record {
    queue = rw (take-append-drop chunk q) h;
    counted = i.counted;
  }

  upload-IsBounded :
      (ok : Bool) (changed : List A) (u : Uploader A)
      → IsBounded u
      → IsBounded (upload A ok changed u)
  unfolding upload flush
  upload-IsBounded ok changed u i = elim (Bool-cases (is_empty changed)) [
    | inl e ↦ rw e i
    | inr e ↦
        let q = shrink max_queue (u.queue ++ changed) in
        let h : length q ≤ max_queue = length-shrink max_queue (u.queue ++ changed) in
        rw e (elim (Bool-cases (is_empty q)) [
          | inl f ↦ rw f (record { queue = h; counted = i.counted })
          | inr f ↦ rw f (posted-IsBounded ok q u h i)
        ])
  ]

  cycles-IsBounded :
      (cs : List (Bool × List A)) (u : Uploader A) → IsBounded u → IsBounded (cycles A cs u)
  unfolding cycles
  cycles-IsBounded [] u i = i
  cycles-IsBounded ((ok, changed) ∷ cs) u i =
      cycles-IsBounded cs (upload A ok changed u) (upload-IsBounded ok changed u i)

  posted_keeps :
      (ok : Bool) (q : List A) (u : Uploader A)
      → let v = (posted A ok q u).0 in v.confirmed ++ v.queue ≡ u.confirmed ++ q
  posted_keeps true q u =
      append_assoc u.confirmed (take chunk q) (drop chunk q)
      ∙ ap (λ xs. u.confirmed ++ xs) (take-append-drop chunk q)
  posted_keeps false q u = ap (λ xs. u.confirmed ++ xs) (take-append-drop chunk q)

  empty_lem : (xs : List A) → is_empty xs ≡ true → xs ≡ []
  empty_lem [] h = refl
  empty_lem (x ∷ xs) h = cc

  upload_keeps :
      (ok : Bool) (changed : List A) (u : Uploader A)
      → length u.queue + length changed ≤ max_queue
      → let v = upload A ok changed u in
        v.confirmed ++ v.queue ≡ (u.confirmed ++ u.queue) ++ changed
  unfolding upload flush
  upload_keeps ok changed u h = elim (Bool-cases (is_empty changed)) [
    | inl e ↦
        rw e (sym (ap (λ xs. (u.confirmed ++ u.queue) ++ xs) (empty_lem changed e) ∙ append-nil _))
    | inr e ↦
        let q = shrink max_queue (u.queue ++ changed) in
        let same : q ≡ u.queue ++ changed =
          shrink_within max_queue (u.queue ++ changed)
            (omega (arith, h, length-append u.queue changed)) in
        let end : u.confirmed ++ q ≡ (u.confirmed ++ u.queue) ++ changed =
          ap (λ xs. u.confirmed ++ xs) same ∙ sym (append_assoc u.confirmed u.queue changed) in
        rw e (elim (Bool-cases (is_empty q)) [
          | inl f ↦ rw f end
          | inr f ↦ rw f (posted_keeps ok q u ∙ end)
        ])
  ]

  length-shrink_le : (limit : ℕ) (xs : List A) → length (shrink limit xs) ≤ length xs
  length-shrink_le limit xs =
      rw (shrink-drop limit xs) (omega (arith, length-drop (length xs - limit) xs))

  length-posted : (q : List A) (u : Uploader A) → length (posted A false q u).0.queue ≡ length q
  length-posted q u = ap length (take-append-drop chunk q)

  length-upload :
      (ok : Bool) (changed : List A) (u : Uploader A)
      → length (upload A ok changed u).queue ≤ length u.queue + length changed
  unfolding upload flush
  length-upload ok changed u = elim (Bool-cases (is_empty changed)) [
    | inl e ↦ rw e (omega arith)
    | inr e ↦
        let q = shrink max_queue (u.queue ++ changed) in
        let h : length q ≤ length u.queue + length changed =
          omega (
            arith,
            length-shrink_le max_queue (u.queue ++ changed),
            length-append u.queue changed,
          ) in
        rw e (elim (Bool-cases (is_empty q)) [ inl f ↦ rw f h | inr f ↦ rw f (go ok q h) ])
  ]
    where
      go :
          (b : Bool) (q : List A)
          → length q ≤ length u.queue + length changed
          → length (posted A b q u).0.queue ≤ length u.queue + length changed
      go true q h = omega (arith, h, length-drop chunk q)
      go false q h = omega (arith, h, length-posted q u)

  -- While the queue cannot overflow, what the gateway has confirmed and what waits are, together and
  -- in order, what was confirmed and waiting before and all that the cycles brought since, whichever
  -- posts failed: nothing is lost, repeated or overtaken.
  pub cycles_keep :
      (cs : List (Bool × List A)) (u : Uploader A)
      → length u.queue + length (brought cs) ≤ max_queue
      → let v = cycles A cs u in v.confirmed ++ v.queue ≡ (u.confirmed ++ u.queue) ++ brought cs
  unfolding cycles
  cycles_keep [] u h = sym (append-nil _)
  cycles_keep ((ok, changed) ∷ cs) u h =
      let v = upload A ok changed u in
      let n = length-append changed (brought cs) in
      cycles_keep cs v (omega (arith, h, n, length-upload ok changed u))
      ∙ ap (λ xs. xs ++ brought cs) (upload_keeps ok changed u (omega (arith, h, n)))
      ∙ append_assoc (u.confirmed ++ u.queue) changed (brought cs)

  -- Through any cycles of a collector just started, 50000 values wait at most, and the gateway has
  -- confirmed as many values as the collector counts.
  pub cycles_bounded :
      (cs : List (Bool × List A))
      → let v = cycles A cs (new_uploader A) in
        (length v.queue ≤ max_queue) × (length v.confirmed ≡ v.sent)
  unfolding new_uploader
  cycles_bounded cs =
      let i =
        cycles-IsBounded cs (new_uploader A) (record { queue = omega arith; counted = refl }) in
      (i.queue, i.counted)

  -- A cycle whose post is confirmed and which brings from one to `k` values.
  abbrev pub Confirmed : ℕ → Bool × List A → Type 0
  Confirmed k c = (c.0 ≡ true) × (1 ≤ length c.1) × (length c.1 ≤ k)

  length-Confirmed :
      (k : ℕ) (c : Bool × List A) (u : Uploader A)
      → Confirmed k c
      → length (upload A c.0 c.1 u).queue ≤ length u.queue + k - chunk
  unfolding upload flush
  length-Confirmed k (ok, []) u h = absurd (omega (arith, h.1))
  length-Confirmed k (ok, x ∷ xs) u h =
      let q = shrink max_queue (u.queue ++ x ∷ xs) in
      let n : length q ≤ length u.queue + k = omega (
        arith,
        h.2,
        length-shrink_le max_queue (u.queue ++ x ∷ xs),
        length-append u.queue (x ∷ xs),
      ) in
      rw (h.0) (elim (Bool-cases (is_empty q)) [
        | inl f ↦ rw f (rw (empty_lem q f) (omega arith))
        | inr f ↦ rw f (omega (arith, n, length-drop chunk q))
      ])

  -- A backlog drains: after as many confirmed cycles as its length takes at 500 values less the `k`
  -- new ones, not above 500, that a cycle brings at most, nothing waits.
  pub backlog_drains :
      (k : ℕ) (cs : List (Bool × List A)) (u : Uploader A)
      → All (Confirmed k) cs
      → k ≤ chunk
      → length u.queue ≤ length cs * (chunk - k)
      → (cycles A cs u).queue ≡ []
  unfolding cycles
  backlog_drains k [] u a b h = go u.queue (omega (arith, h, zero-mul (chunk - k)))
    where
      go : (q : List A) → length q ≤ 0 → q ≡ []
      go [] h = refl
      go (x ∷ q) h = absurd (omega (arith, h))
  backlog_drains k (c ∷ cs) u a b h =
      backlog_drains k cs (upload A c.0 c.1 u) a.1 b
        (omega (arith, b, h, length-Confirmed k c u a.0, suc-mul (length cs) (chunk - k)))
