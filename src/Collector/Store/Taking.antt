-- ===== src/Collector/Store/Taking.antt =====
-- What the collector's store takes of its entries, by their names.
use project_sh_fms.Prelude.{
  ℕ, ◌≡◌, ◌≢◌, refl, sym, ap, subst, ◌∙◌, Bool, true, false, List, [], ◌∷◌, some, Text, text_eq,
  text_eq_iff, if◌then◌else◌, All, Memᴰ, Bool-cases, inl, inr,
}
use project_sh_fms.Number.{Number}
use project_sh_fms.Engine.Store.{lookup}
use project_sh_fms.Engine.Store.Keys.{Entries, Absent}
use project_sh_fms.Collector.{TagValue}
use project_sh_fms.Collector.Store.{Entry, sent_entry, take_if, take_dirty}
use project_sh_fms.Collector.Store.Names.{IsNamed, IsKeyed}

module _ (r : Number) (float_of : ℕ → r.Num) where
  -- What taking leaves of an entry.
  abbrev pub taken : Bool → Entry r float_of → Entry r float_of
  taken b e = if b then sent_entry r float_of e else e

  take_if-lookup :
      (b : Bool) (k n : Text) (e : Entry r float_of)
      (x : List (Text × Entry r float_of) × List (TagValue r))
      → lookup n (take_if r float_of b k e x).0
        ≡ (if text_eq k n then some (taken b e) else lookup n x.0)
  unfolding lookup
  take_if-lookup true k n e (m, out) = refl
  take_if-lookup false k n e (m, out) = refl

  pub take_dirty-lookup :
      (n : Text) (m : List (Text × Entry r float_of)) (e : Entry r float_of)
      → lookup n m ≡ some e
      → lookup n (take_dirty r float_of m).0 ≡ some (taken e.dirty e)
  unfolding lookup
  take_dirty-lookup n [] e h = absurd (cc)
  take_dirty-lookup n ((k, c) ∷ m) e h =
      take_if-lookup c.dirty k n c (take_dirty r float_of m) ∙ elim (Bool-cases (text_eq k n)) [
        | inl q ↦
            let same : some c ≡ some e = (rw q at h) in
            let eq : c ≡ e = cc in rw q (ap (λ x. some (taken x.dirty x)) eq)
        | inr q ↦ rw q (take_dirty-lookup n m e (rw q at h))
      ]

  take_if-told :
      (b : Bool) (n : Text) (e : Entry r float_of) (v : TagValue r)
      (x : List (Text × Entry r float_of) × List (TagValue r))
      → Memᴰ v x.1
      → Memᴰ v (take_if r float_of b n e x).1
  take_if-told true n e v (m, out) i = Memᴰ.tail i
  take_if-told false n e v (m, out) i = i

  -- The value of an entry that is marked is taken.
  pub dirty_told :
      (n : Text) (m : List (Text × Entry r float_of)) (e : Entry r float_of)
      → lookup n m ≡ some e
      → e.dirty ≡ true
      → Memᴰ e.cur (take_dirty r float_of m).1
  unfolding lookup
  dirty_told n [] e h d = absurd (cc)
  dirty_told n ((k, c) ∷ m) e h d = elim (Bool-cases (text_eq k n)) [
    | inl q ↦
        let same : some c ≡ some e = (rw q at h) in
        let eq : e ≡ c = cc in
        let marked : c.dirty ≡ true = ap (λ x. x.dirty) (sym eq) ∙ d in
        rw marked (Memᴰ.head (ap (λ x. x.cur) eq))
    | inr q ↦
        take_if-told c.dirty k c e.cur (take_dirty r float_of m) (dirty_told n m e (rw q at h) d)
  ]

  -- None of the values has the name.
  abbrev pub Untold : Text → List (TagValue r) → Type 0
  Untold n vs = All (λ v. text_eq v.name n ≡ false) vs

  take_if-Untold :
      (b : Bool) (k n : Text) (e : Entry r float_of)
      (x : List (Text × Entry r float_of) × List (TagValue r))
      → text_eq e.cur.name n ≡ false
      → Untold n x.1
      → Untold n (take_if r float_of b k e x).1
  take_if-Untold true k n e (m, out) h u = (h, u)
  take_if-Untold false k n e (m, out) h u = u

  differs : (n k : Text) → n ≢ k → text_eq k n ≡ false
  differs n k h = elim (Bool-cases (text_eq k n)) [
    | inl q ↦ absurd (h (sym ((text_eq_iff k n).0 q)))
    | inr q ↦ q
  ]

  Absent-Untold :
      (n : Text) (m : List (Text × Entry r float_of))
      → Absent n m
      → Entries (IsNamed r float_of) m
      → Untold n (take_dirty r float_of m).1
  Absent-Untold n [] a h = tt
  Absent-Untold n ((k, e) ∷ m) a h =
      take_if-Untold e.dirty k n e (take_dirty r float_of m) (rw (h.0) (differs n k a.0))
        (Absent-Untold n m a.1 h.1)

  -- Of an entry that is not marked, no value is taken.
  pub clean-Untold :
      (n : Text) (m : List (Text × Entry r float_of)) (e : Entry r float_of)
      → IsKeyed r float_of m
      → lookup n m ≡ some e
      → e.dirty ≡ false
      → Untold n (take_dirty r float_of m).1
  unfolding lookup
  clean-Untold n [] e h k d = tt
  clean-Untold n ((j, c) ∷ m) e h k d = elim (Bool-cases (text_eq j n)) [
    | inl q ↦
        let same : some c ≡ some e = (rw q at k) in
        let eq : c ≡ e = cc in
        let clean : c.dirty ≡ false = ap (λ x. x.dirty) eq ∙ d in
        rw clean
          (Absent-Untold n m (subst (λ x. Absent x m) ((text_eq_iff j n).0 q) h.unique.0) h.named.1)
    | inr q ↦
        take_if-Untold c.dirty j n c (take_dirty r float_of m) (rw (h.named.0) q)
          (clean-Untold n m e (record { unique = h.unique.1; named = h.named.1 }) (rw q at k) d)
  ]

  take_if-Absent :
      (b : Bool) (i n : Text) (e : Entry r float_of)
      (x : List (Text × Entry r float_of) × List (TagValue r))
      → i ≢ n
      → Absent i x.0
      → Absent i (take_if r float_of b n e x).0
  take_if-Absent true i n e (m, out) h a = (h, a)
  take_if-Absent false i n e (m, out) h a = (h, a)

  take_dirty-Absent :
      (i : Text) (m : List (Text × Entry r float_of))
      → Absent i m
      → Absent i (take_dirty r float_of m).0
  take_dirty-Absent i [] a = tt
  take_dirty-Absent i ((n, e) ∷ m) a =
      take_if-Absent e.dirty i n e (take_dirty r float_of m) a.0 (take_dirty-Absent i m a.1)

  take_if-IsKeyed :
      (b : Bool) (n : Text) (e : Entry r float_of)
      (x : List (Text × Entry r float_of) × List (TagValue r))
      → Absent n x.0
      → IsNamed r float_of n e
      → IsKeyed r float_of x.0
      → IsKeyed r float_of (take_if r float_of b n e x).0
  unfolding sent_entry
  take_if-IsKeyed true n e (m, out) a h k = record { unique = (a, k.unique); named = (h, k.named) }
  take_if-IsKeyed false n e (m, out) a h k = record { unique = (a, k.unique); named = (h, k.named) }

  pub take_dirty-IsKeyed :
      (m : List (Text × Entry r float_of))
      → IsKeyed r float_of m
      → IsKeyed r float_of (take_dirty r float_of m).0
  take_dirty-IsKeyed [] h = record { unique = tt; named = tt }
  take_dirty-IsKeyed ((n, e) ∷ m) h =
      take_if-IsKeyed e.dirty n e (take_dirty r float_of m) (take_dirty-Absent n m h.unique.0)
        h.named.0 (take_dirty-IsKeyed m (record { unique = h.unique.1; named = h.named.1 }))
