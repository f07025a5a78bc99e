-- ===== src/Engine/Evaluate/Repeat.antt =====
-- What the engine does with values that repeat and that tremble at a limit.
use project_sh_fms.Prelude.{
  ℕ, ◌+◌, ◌*◌, ◌≡◌, ◌≢◌, refl, sym, subst, ap, ap₂, ◌∙◌, true, false, List, [], ◌∷◌, Option, none,
  some, Text, if◌then◌else◌, text_eq_refl, length, length-append, arith, Bool-cases, inl, inr, ◌==◌,
  ==_iff,
}
use project_sh_fms.Number.{Number}
use project_sh_fms.Engine.{Kind, Runtime, Sample, Meta, Raised, Event, Engine}
use project_sh_fms.Engine.Classify.{classify}
use project_sh_fms.Engine.Store.{lookup, insert, is_suppressed}
use project_sh_fms.Engine.Store.Laws.{lookup-insert}
use project_sh_fms.Engine.Evaluate.{
  kind_code, raised, new_event, is_same_kind, fire, on_kind, evaluate_one, evaluate_all,
}

some_eq : {m n : ℕ} → some m ≡ some n → m ≡ n
some_eq h = cc

module _ (r : Number) (t : Runtime r) (meta : Text → Option (Meta r)) where
  -- The tag of the value is configured and not suppressed, and the value is of the kind `k`.
  pub record Alarming (v : Sample r) (k : Kind) (ks : List Text) : Type 0 where
    pub m : Meta r
    pub l : r.Num
    pub configured : meta v.tag ≡ some m
    pub heard : is_suppressed r t m ks ≡ false
    pub classified : classify r t v m ≡ some (k, l)

  pub evaluate_one-Alarming :
      {v : Sample r} {k : Kind} (now : ℕ) (e : Engine r) (a : Alarming v k e.suppressed)
      → evaluate_one r t meta v now e ≡ on_kind r t v a.m now (some (k, a.l)) e
  unfolding evaluate_one
  evaluate_one-Alarming now e a = rw (a.configured, a.heard, a.classified)

  pub lookup-insert_self :
      (k : Text) (x : Event r) (m : List (Text × Event r)) → lookup k (insert k x m) ≡ some x
  lookup-insert_self k x m = rw (lookup-insert k k x m, text_eq_refl k)

  abbrev kind_at : Option (Event r) → Option ℕ
  kind_at none = none
  kind_at (some ev) = some (kind_code ev.raised.kind)

  -- The kind of the active alarm of a tag.
  abbrev pub active_kind : Text → Engine r → Option ℕ
  active_kind tag e = kind_at (lookup tag e.active)

  -- What one value has done: the number of alarms fired, and the kind active at its tag then.
  record Did (n : ℕ) (tag : Text) (k : Kind) (ks : List Text) (x : Engine r × List (Raised r))
      : Type 0 where
    count : length x.1 ≡ n
    kind : active_kind tag x.0 ≡ some (kind_code k)
    keys : x.0.suppressed ≡ ks

  same_kind :
      (o : Option (Event r)) (k : Kind)
      → is_same_kind r t o k ≡ true
      → kind_at o ≡ some (kind_code k)
  same_kind none k h = absurd (cc)
  same_kind (some cur) k h = ap some ((==_iff (kind_code cur.raised.kind) (kind_code k)).0 h)

  other_kind :
      (o : Option (Event r)) (k : Kind)
      → is_same_kind r t o k ≡ false
      → kind_at o ≢ some (kind_code k)
  other_kind none k h = λ q. cc
  other_kind (some cur) k h = λ q. ground (arith, ==_iff (kind_code cur.raised.kind) (kind_code k))

  not_same :
      (o : Option (Event r)) (k : Kind)
      → kind_at o ≢ some (kind_code k)
      → is_same_kind r t o k ≡ false
  not_same none k h = refl
  not_same (some cur) k h = elim (Bool-cases (kind_code cur.raised.kind == kind_code k)) [
    | inl e ↦ absurd (h (ground (arith, ==_iff (kind_code cur.raised.kind) (kind_code k))))
    | inr e ↦ e
  ]

  repeats :
      (v : Sample r) (k : Kind) (m : Meta r) (l : r.Num) (now : ℕ) (e : Engine r)
      → active_kind v.tag e ≡ some (kind_code k)
      → Did 0 v.tag k e.suppressed (on_kind r t v m now (some (k, l)) e)
  repeats v k m l now e h = go (lookup v.tag e.active) refl h
    where
      go :
          (o : Option (Event r))
          → lookup v.tag e.active ≡ o
          → kind_at o ≡ some (kind_code k)
          → Did 0 v.tag k e.suppressed (on_kind r t v m now (some (k, l)) e)
      go none q h = absurd (cc)
      go (some cur) q h =
          let s : (kind_code cur.raised.kind == kind_code k) ≡ true = ground arith in
          rw (q, s)
            (record {
              count = refl;
              kind = rw (lookup-insert_self v.tag (record cur { value = v.value }) e.active) h;
              keys = refl;
            })

  differs :
      (v : Sample r) (k : Kind) (m : Meta r) (l : r.Num) (now : ℕ) (e : Engine r)
      → active_kind v.tag e ≢ some (kind_code k)
      → Did 1 v.tag k e.suppressed (on_kind r t v m now (some (k, l)) e)
  unfolding fire raised
  differs v k m l now e h = rw (not_same (lookup v.tag e.active) k h) (record {
    count = refl;
    kind = rw (lookup-insert_self v.tag (new_event r t _ v.value) e.active);
    keys = refl;
  })

  -- Values of one tag, all of them of one kind.
  abbrev pub Steady : Text → Kind → List Text → List (Sample r × ℕ) → Type 0
  Steady tag k ks [] = Unit
  Steady tag k ks ((v, now) ∷ vs) = (v.tag ≡ tag) × Alarming v k ks × Steady tag k ks vs

  one_repeats :
      (tag : Text) (v : Sample r) (k : Kind) (now : ℕ) (e : Engine r)
      → v.tag ≡ tag
      → Alarming v k e.suppressed
      → active_kind tag e ≡ some (kind_code k)
      → Did 0 tag k e.suppressed (evaluate_one r t meta v now e)
  one_repeats tag v k now e same a h = rw (evaluate_one-Alarming now e a) (
      subst
        (λ g.
          active_kind g e ≡ some (kind_code k)
          → Did 0 g k e.suppressed (on_kind r t v a.m now (some (k, a.l)) e))
        same (repeats v k a.m a.l now e) h)

  one_differs :
      (tag : Text) (v : Sample r) (k : Kind) (now : ℕ) (e : Engine r)
      → v.tag ≡ tag
      → Alarming v k e.suppressed
      → active_kind tag e ≢ some (kind_code k)
      → Did 1 tag k e.suppressed (evaluate_one r t meta v now e)
  one_differs tag v k now e same a h = rw (evaluate_one-Alarming now e a) (
      subst
        (λ g.
          active_kind g e ≢ some (kind_code k)
          → Did 1 g k e.suppressed (on_kind r t v a.m now (some (k, a.l)) e))
        same (differs v k a.m a.l now e) h)

  length-evaluate_all :
      (v : Sample r) (now : ℕ) (vs : List (Sample r × ℕ)) (e : Engine r)
      → length (evaluate_all r t meta ((v, now) ∷ vs) e).1
        ≡ length (evaluate_one r t meta v now e).1
          + length (evaluate_all r t meta vs (evaluate_one r t meta v now e).0).1
  unfolding evaluate_all
  length-evaluate_all v now vs e = length-append (evaluate_one r t meta v now e).1 _

  Steady-silent :
      (tag : Text) (k : Kind) (vs : List (Sample r × ℕ)) (e : Engine r)
      → Steady tag k e.suppressed vs
      → active_kind tag e ≡ some (kind_code k)
      → length (evaluate_all r t meta vs e).1 ≡ 0
  Steady-silent tag k [] e s h = unfold evaluate_all in refl
  Steady-silent tag k ((v, now) ∷ vs) e s h =
      let (same, a, rest) = s in
      let d = one_repeats tag v k now e same a h in
      let e' = (evaluate_one r t meta v now e).0 in
      length-evaluate_all v now vs e
      ∙ ap₂ ◌+◌ d.count (Steady-silent tag k vs e' (rw (d.keys) rest) d.kind)

  -- However many values of one kind a tag reports in a row, with any numbers in them, one alarm is
  -- fired if its active alarm was of another kind or there was none, else none.
  pub Steady-fires :
      (tag : Text) (k : Kind) (v : Sample r) (now : ℕ) (vs : List (Sample r × ℕ)) (e : Engine r)
      → Steady tag k e.suppressed ((v, now) ∷ vs)
      → length (evaluate_all r t meta ((v, now) ∷ vs) e).1
        ≡ (if is_same_kind r t (lookup tag e.active) k then 0 else 1)
  Steady-fires tag k v now vs e s = elim (Bool-cases (is_same_kind r t (lookup tag e.active) k)) [
    | inl q ↦ rw q (Steady-silent tag k ((v, now) ∷ vs) e s (same_kind (lookup tag e.active) k q))
    | inr q ↦
        let (same, a, rest) = s in
        let d = one_differs tag v k now e same a (other_kind (lookup tag e.active) k q) in
        rw q (
          length-evaluate_all v now vs e
          ∙ ap₂ ◌+◌ d.count
              (Steady-silent tag k vs (evaluate_one r t meta v now e).0 (rw (d.keys) rest) d.kind))
  ]

  -- The values of one tag go to and fro between two kinds, `n` times.
  abbrev pub Trembling :
      Text → Kind → Kind → List Text → List ((Sample r × ℕ) × (Sample r × ℕ)) → Type 0
  Trembling tag k j ks [] = Unit
  Trembling tag k j ks (((v, a), (w, b)) ∷ ps) =
      (v.tag ≡ tag) × Alarming v k ks × (w.tag ≡ tag) × Alarming w j ks × Trembling tag k j ks ps

  abbrev pub in_turn : List ((Sample r × ℕ) × (Sample r × ℕ)) → List (Sample r × ℕ)
  in_turn [] = []
  in_turn ((v, w) ∷ ps) = v ∷ w ∷ in_turn ps

  -- A value that trembles between two kinds, as it does at the upper of two limits, fires an alarm
  -- each time that it passes: of `n` passes up and down, 2 n alarms, whatever the deadband is.
  pub tremble_fires :
      (tag : Text) (k j : Kind) (ps : List ((Sample r × ℕ) × (Sample r × ℕ))) (e : Engine r)
      → kind_code k ≢ kind_code j
      → active_kind tag e ≢ some (kind_code k)
      → Trembling tag k j e.suppressed ps
      → length (evaluate_all r t meta (in_turn ps) e).1 ≡ 2 * length ps
  tremble_fires tag k j [] e n h s = unfold evaluate_all in refl
  tremble_fires tag k j (((v, a), (w, b)) ∷ ps) e n h s =
      let (same, av, same', aw, rest) = s in
      let d = one_differs tag v k a e same av h in
      let e1 = (evaluate_one r t meta v a e).0 in
      let up : active_kind tag e1 ≢ some (kind_code j) = λ q. n (some_eq (sym d.kind ∙ q)) in
      let d' = one_differs tag w j b e1 same' (rw (d.keys) aw) up in
      let e2 = (evaluate_one r t meta w b e1).0 in
      let down : active_kind tag e2 ≢ some (kind_code k) =
        λ q. n (sym (some_eq (sym d'.kind ∙ q))) in
      let keys : e2.suppressed ≡ e.suppressed = d'.keys ∙ d.keys in
      let ih = tremble_fires tag k j ps e2 n down (rw keys rest) in
      omega (
        arith,
        length-evaluate_all v a ((w, b) ∷ in_turn ps) e,
        length-evaluate_all w b (in_turn ps) e1,
        d.count,
        d'.count,
        ih,
      )
