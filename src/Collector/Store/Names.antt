-- ===== src/Collector/Store/Names.antt =====
-- How the entries of the collector's store are found by their names, through its changes.
use project_sh_fms.Prelude.{
  ℕ, ◌≡◌, refl, sym, subst, ◌∙◌, true, false, List, [], ◌∷◌, Option, none, some, Text, text_eq,
  text_eq_iff, tally, arith, Bool-cases, inl, inr,
}
use project_sh_fms.Number.{Number}
use project_sh_fms.Engine.Store.{lookup}
use project_sh_fms.Engine.Store.Laws.{lookup-insert}
use project_sh_fms.Engine.Store.Keys.{
  Entries, insert-Entries, lookup-Entries, UniqueKeys, insert-UniqueKeys,
}
use project_sh_fms.Collector.Store.{Entry, change_entry, change_found, change_all}

module _ (r : Number) (float_of : ℕ → r.Num) where
  -- The value of an entry has the name that the entry stands under.
  abbrev pub IsNamed : Text → Entry r float_of → Type 0
  IsNamed n e = e.cur.name ≡ n

  -- The dictionary has an entry for a name at most, with values of that name.
  pub record IsKeyed (m : List (Text × Entry r float_of)) : Type 0 where
    pub unique : UniqueKeys m
    pub named : Entries IsNamed m

  -- How often a name is registered.
  abbrev pub times : Text → List Text → ℕ
  times n ns = tally (λ j. text_eq j n) ns

  module _ (f : Entry r float_of → Entry r float_of) where
    change_other :
        (j n : Text) (m : List (Text × Entry r float_of))
        → text_eq j n ≡ false
        → lookup n (change_entry r float_of j f m) ≡ lookup n m
    unfolding change_entry
    change_other j n m h = go (lookup j m)
      where
        go :
            (o : Option (Entry r float_of))
            → lookup n (change_found r float_of j f m o) ≡ lookup n m
        go none = refl
        go (some e) = lookup-insert j n (f e) m ∙ rw h refl

    change_own :
        (j n : Text) (m : List (Text × Entry r float_of)) (e : Entry r float_of)
        → text_eq j n ≡ true
        → lookup n m ≡ some e
        → lookup n (change_entry r float_of j f m) ≡ some (f e)
    unfolding change_entry
    change_own j n m e h k =
        let same : lookup j m ≡ some e =
          subst (λ x. lookup x m ≡ some e) (sym ((text_eq_iff j n).0 h)) k in
        rw same (lookup-insert j n (f e) m ∙ rw h refl)

    change_none :
        (n : Text) (ns : List Text) (m : List (Text × Entry r float_of))
        → times n ns ≡ 0
        → lookup n (change_all r float_of f ns m) ≡ lookup n m
    unfolding change_all
    change_none n [] m h = refl
    change_none n (j ∷ ns) m h = elim (Bool-cases (text_eq j n)) [
      | inl e ↦ absurd (ground (arith, h, e))
      | inr e ↦ change_none n ns (change_entry r float_of j f m) (rw e at h) ∙ change_other j n m e
    ]

    -- An entry that is registered once is changed once.
    pub change_once :
        (n : Text) (ns : List Text) (m : List (Text × Entry r float_of)) (e : Entry r float_of)
        → times n ns ≡ 1
        → lookup n m ≡ some e
        → lookup n (change_all r float_of f ns m) ≡ some (f e)
    unfolding change_all
    change_once n [] m e h k = absurd (omega (arith, h))
    change_once n (j ∷ ns) m e h k = elim (Bool-cases (text_eq j n)) [
      | inl q ↦
          let left : times n ns ≡ 0 = ground (arith, h, q) in
          change_none n ns (change_entry r float_of j f m) left ∙ change_own j n m e q k
      | inr q ↦
          change_once n ns (change_entry r float_of j f m) e (rw q at h) (change_other j n m q ∙ k)
    ]

    pub change_all-IsKeyed :
        ((e : Entry r float_of) → (f e).cur.name ≡ e.cur.name)
        → (ns : List Text) (m : List (Text × Entry r float_of)) → IsKeyed m
        → IsKeyed (change_all r float_of f ns m)
    unfolding change_all change_entry
    change_all-IsKeyed g [] m h = h
    change_all-IsKeyed g (n ∷ ns) m h = change_all-IsKeyed g ns _ (go (lookup n m) refl)
      where
        go :
            (o : Option (Entry r float_of))
            → lookup n m ≡ o
            → IsKeyed (change_found r float_of n f m o)
        go none q = h
        go (some e) q = record {
          unique = insert-UniqueKeys n (f e) m h.unique;
          named =
              insert-Entries IsNamed n (f e) m (g e ∙ lookup-Entries IsNamed n m h.named q) h.named;
        }
