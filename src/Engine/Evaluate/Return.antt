-- ===== src/Engine/Evaluate/Return.antt =====
-- What the engine does with an alarm whose value comes back within its limits.
use project_sh_fms.Prelude.{
  ℕ, ◌≡◌, refl, true, false, List, [], Option, none, some, Text, text_eq_refl, subst, ap, ◌∙◌, ◌∷◌,
}
use project_sh_fms.Number.{Number}
use project_sh_fms.Engine.{
  Kind, pvhh, pvh, pvl, pvll, bad, dev, unack_active, unack_cleared, Runtime, Sample, Meta, Event,
  Engine,
}
use project_sh_fms.Engine.Classify.{classify}
use project_sh_fms.Engine.Store.{lookup, insert, remove, is_suppressed}
use project_sh_fms.Engine.Store.Laws.{lookup-remove}
use project_sh_fms.Engine.Evaluate.{
  is_cleared, clear, try_clear, is_same_kind, evaluate_one, evaluate_all, is_unack_active,
}
use project_sh_fms.Engine.Evaluate.Repeat.{Alarming, evaluate_one-Alarming, lookup-insert_self}

module _ (r : Number) (t : Runtime r) (meta : Text → Option (Meta r)) where
  -- The tag of the value is configured and not suppressed, the value is within all limits, and it
  -- is far enough inside for the alarm `ev` to be cleared.
  pub record Clearing (v : Sample r) (ev : Event r) (ks : List Text) : Type 0 where
    pub m : Meta r
    pub configured : meta v.tag ≡ some m
    pub heard : is_suppressed r t m ks ≡ false
    pub classified : classify r t v m ≡ none
    pub inside : is_cleared r t ev.raised.kind ev v m ≡ true

  evaluate_one-Clearing :
      {v : Sample r} {ev : Event r} (now : ℕ) (e : Engine r) (a : Clearing v ev e.suppressed)
      → evaluate_one r t meta v now e ≡ (record e { active = try_clear r t v a.m now e.active }, [])
  unfolding evaluate_one
  evaluate_one-Clearing now e a = rw (a.configured, a.heard, a.classified)

  lookup-remove_self : (k : Text) (m : List (Text × Event r)) → lookup k (remove k m) ≡ none
  lookup-remove_self k m = rw (lookup-remove k k m, text_eq_refl k)

  try_clear-found :
      {v : Sample r} {ev : Event r} (now : ℕ) (e : Engine r) (c : Clearing v ev e.suppressed)
      → lookup v.tag e.active ≡ some ev
      → try_clear r t v c.m now e.active ≡ clear r t v.tag now ev e.active
  unfolding try_clear
  try_clear-found now e c h = rw (h, c.inside) refl

  Clearing-found :
      {v : Sample r} {ev : Event r} (now : ℕ) (e : Engine r)
      → Clearing v ev e.suppressed
      → lookup v.tag e.active ≡ some ev
      → (evaluate_one r t meta v now e).0 ≡ record e { active = clear r t v.tag now ev e.active }
  unfolding try_clear
  Clearing-found now e a h = rw (evaluate_one-Clearing now e a, h, a.inside)

  clear_unacked :
      (k : Text) (now : ℕ) (ev : Event r) (act : List (Text × Event r))
      → ev.state ≡ unack_active
      → lookup k (clear r t k now ev act)
        ≡ some (record ev { cleared_at = some now; state = unack_cleared })
  unfolding clear
  clear_unacked k now ev act h = rw (
    h,
    lookup-insert_self r t meta k (record ev { cleared_at = some now; state = unack_cleared }) act,
  )

  clear_other :
      (k : Text) (now : ℕ) (ev : Event r) (act : List (Text × Event r))
      → is_unack_active ev.state ≡ false
      → lookup k (clear r t k now ev act) ≡ none
  unfolding clear
  clear_other k now ev act h = rw (h, lookup-remove_self k act)

  is_cleared_later :
      (k : Kind) (a : ℕ) (ev : Event r) (v : Sample r) (m : Meta r)
      → is_cleared r t k (record ev { cleared_at = some a; state = unack_cleared }) v m
        ≡ is_cleared r t k ev v m
  unfolding is_cleared
  is_cleared_later pvhh a ev v m = refl
  is_cleared_later pvh a ev v m = refl
  is_cleared_later pvl a ev v m = refl
  is_cleared_later pvll a ev v m = refl
  is_cleared_later bad a ev v m = refl
  is_cleared_later dev a ev v m = refl

  Clearing-later :
      {v : Sample r} {ev : Event r} {ks : List Text} (a : ℕ)
      → Clearing v ev ks
      → Clearing v (record ev { cleared_at = some a; state = unack_cleared }) ks
  Clearing-later {v} {ev} a c = record {
    m = c.m;
    configured = c.configured;
    heard = c.heard;
    classified = c.classified;
    inside = is_cleared_later ev.raised.kind a ev v c.m ∙ c.inside;
  }

  cleared_goes :
      (w : Sample r) (b : ℕ) (ev : Event r) (e : Engine r)
      → is_unack_active ev.state ≡ false
      → lookup w.tag e.active ≡ some ev
      → Clearing w ev e.suppressed
      → lookup w.tag (evaluate_one r t meta w b e).0.active ≡ none
  cleared_goes w b ev e u h c = rw (Clearing-found b e c h) (clear_other w.tag b ev e.active u)

  -- An alarm that nobody has acknowledged and whose value has come back, past the deadband, stays
  -- for one value in the state unack_cleared; one more such value of its tag removes it.
  pub unacked_vanishes :
      (v w : Sample r) (a b : ℕ) (ev : Event r) (e : Engine r)
      → w.tag ≡ v.tag
      → ev.state ≡ unack_active
      → lookup v.tag e.active ≡ some ev
      → Clearing v ev e.suppressed
      → Clearing w ev e.suppressed
      → let e1 = (evaluate_one r t meta v a e).0 in
        (lookup v.tag e1.active ≡ some (record ev { cleared_at = some a; state = unack_cleared }))
        × (lookup v.tag (evaluate_one r t meta w b e1).0.active ≡ none)
  unacked_vanishes v w a b ev e same u h c d =
      let ev1 : Event r = record ev { cleared_at = some a; state = unack_cleared } in
      let e1 : Engine r = record e { active = clear r t v.tag a ev e.active } in
      let one = clear_unacked v.tag a ev e.active u in
      let d1 : Clearing w ev1 e.suppressed = Clearing-later a d in
      rw (Clearing-found a e c h) (
        one,
        subst (λ k. lookup k (evaluate_one r t meta w b e1).0.active ≡ none) same
            (cleared_goes w b ev1 e1 refl (rw same one) d1),
      )

  standing_refreshed :
      (v : Sample r) (k : Kind) (now : ℕ) (ev : Event r) (e : Engine r)
      → lookup v.tag e.active ≡ some ev
      → is_same_kind r t (some ev) k ≡ true
      → Alarming r t meta v k e.suppressed
      → evaluate_one r t meta v now e
        ≡ (record e { active = insert v.tag (record ev { value = v.value }) e.active }, [])
  standing_refreshed v k now ev e h s a = rw (evaluate_one-Alarming r t meta now e a, h, s) refl

  -- The value of the last of the samples.
  abbrev pub last_value : List (Sample r × ℕ) → r.Num → r.Num
  last_value [] x = x
  last_value ((v, now) ∷ vs) x = last_value vs v.value

  -- Values of one kind of alarm, of one tag that is configured and not suppressed.
  abbrev pub Returning : Text → Kind → List Text → List (Sample r × ℕ) → Type 0
  Returning tag k ks [] = Unit
  Returning tag k ks ((v, now) ∷ vs) =
      (v.tag ≡ tag) × Alarming r t meta v k ks × Returning tag k ks vs

  standing_run :
      (tag : Text) (k : Kind) (vs : List (Sample r × ℕ)) (ev : Event r) (e : Engine r)
      → lookup tag e.active ≡ some ev
      → is_same_kind r t (some ev) k ≡ true
      → Returning tag k e.suppressed vs
      → ((evaluate_all r t meta vs e).1 ≡ [])
        × (lookup tag (evaluate_all r t meta vs e).0.active
            ≡ some (record ev { value = last_value vs ev.value }))
  unfolding evaluate_all
  standing_run tag k [] ev e h s a = (refl, h)
  standing_run tag k ((v, now) ∷ vs) ev e h s (same, a, rest) =
      let ev1 : Event r = record ev { value = v.value } in
      let e1 : Engine r = record e { active = insert v.tag ev1 e.active } in
      let found : lookup tag e1.active ≡ some ev1 =
        subst (λ j. lookup j e1.active ≡ some ev1) same
          (lookup-insert_self r t meta v.tag ev1 e.active) in
      let (none_fired, last) = standing_run tag k vs ev1 e1 found s rest in
      rw (standing_refreshed v k now ev e (rw same h) s a) (none_fired, last)

  -- Once an alarm that nobody has acknowledged has been cleared by a value, the values of its tag that
  -- pass the same limit again, however many there are, raise nothing, and the alarm goes on saying that
  -- it is cleared, as of the instant at which it was, with the newest of these values.
  pub return_unraised :
      (v : Sample r) (a : ℕ) (k : Kind) (vs : List (Sample r × ℕ)) (ev : Event r) (e : Engine r)
      → ev.state ≡ unack_active
      → lookup v.tag e.active ≡ some ev
      → Clearing v ev e.suppressed
      → is_same_kind r t (some ev) k ≡ true
      → Returning v.tag k e.suppressed vs
      → let (e', fired) = evaluate_all r t meta ((v, a) ∷ vs) e in
        (fired ≡ [])
        × (lookup v.tag e'.active
            ≡ some (record ev {
              cleared_at = some a;
              state = unack_cleared;
              value = last_value vs ev.value;
            }))
  unfolding evaluate_all
  return_unraised v a k vs ev e u h c s w =
      let ev1 : Event r = record ev { cleared_at = some a; state = unack_cleared } in
      let e1 : Engine r = record e { active = clear r t v.tag a ev e.active } in
      let first : evaluate_one r t meta v a e ≡ (e1, []) =
        evaluate_one-Clearing a e c
        ∙ ap (λ x. (record e { active = x }, [])) (try_clear-found a e c h) in
      rw first (standing_run v.tag k vs ev1 e1 (clear_unacked v.tag a ev e.active u) s w)
