-- ===== src/Engine/Evaluate/Suppressed.antt =====
-- What the engine does with the tags of a suppressed key.
use project_sh_fms.Prelude.{
  ℕ, ◌≡◌, ◌⊎◌, inl, inr, refl, sym, subst, true, List, [], ◌∷◌, Option, some, Text, All, arith,
}
use project_sh_fms.Number.{Number}
use project_sh_fms.Engine.{Runtime, Sample, Meta, Engine}
use project_sh_fms.Engine.Store.{contains_key, before_underscore, suppress, is_suppressed}
use project_sh_fms.Engine.Store.Laws.{contains-suppress}
use project_sh_fms.Engine.Evaluate.{evaluate_one, evaluate_all, expire_shelves, evaluate}

module _ (r : Number) (t : Runtime r) (meta : Text → Option (Meta r)) where
  -- The tag of the value is configured, and is of the equipment or the area of that name.
  pub record Belongs (k : Text) (x : Sample r × ℕ) : Type 0 where
    pub m : Meta r
    pub configured : meta x.0.tag ≡ some m
    pub part : (before_underscore m.tag ≡ k) ⊎ (m.area ≡ k)

  suppressed_by :
      (k : Text) (m : Meta r) (ks : List Text)
      → contains_key t.fold k ks ≡ true
      → (before_underscore m.tag ≡ k) ⊎ (m.area ≡ k)
      → is_suppressed r t m ks ≡ true
  unfolding is_suppressed contains_key
  suppressed_by k m [] h p = absurd (cc)
  suppressed_by k m (j ∷ ks) h (inl e) =
      ground (arith, subst (λ x. contains_key t.fold x (j ∷ ks) ≡ true) (sym e) h)
  suppressed_by k m (j ∷ ks) h (inr e) =
      ground (arith, subst (λ x. contains_key t.fold x (j ∷ ks) ≡ true) (sym e) h)

  kept_silent :
      (k : Text) (vs : List (Sample r × ℕ)) (e : Engine r)
      → contains_key t.fold k e.suppressed ≡ true
      → All (Belongs k) vs
      → evaluate_all r t meta vs e ≡ (e, [])
  unfolding evaluate_all evaluate_one
  kept_silent k [] e h b = refl
  kept_silent k ((v, now) ∷ vs) e h b =
      rw (b.0.configured, suppressed_by k b.0.m e.suppressed h b.0.part) (kept_silent k vs e h b.1)

  -- Once an equipment or an area is suppressed, all that a batch of any values of its configured tags
  -- does is what ends every batch: the shelves that have run out by then expire. No alarm is raised,
  -- refreshed or cleared.
  pub suppress_silences :
      (k : Text) (vs : List (Sample r × ℕ)) (now : ℕ) (e : Engine r)
      → All (Belongs k) vs
      → evaluate r t meta vs now (suppress r t k true e)
        ≡ (expire_shelves r t now (suppress r t k true e), [])
  unfolding suppress evaluate
  suppress_silences k vs now e b =
      rw (kept_silent k vs (suppress r t k true e) (contains-suppress t.fold k true e.suppressed) b)
        refl
