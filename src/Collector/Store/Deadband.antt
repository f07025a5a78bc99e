-- ===== src/Collector/Store/Deadband.antt =====
-- What the deadband of the collector guarantees.
use project_sh_fms.Prelude.{
  ℕ, ◌≡◌, ◌⊎◌, inl, inr, refl, Bool, true, false, List, [], ◌∷◌, Option, none, some, Text, arith,
  Bool-cases,
}
use project_sh_fms.Number.{Number}
use project_sh_fms.Engine.Store.{lookup}
use project_sh_fms.Engine.Store.Keys.{Entries, insert-Entries}
use project_sh_fms.Collector.{Quality, good, uncertain, bad, TagDef, TagValue}
use project_sh_fms.Collector.Store.{
  is_bad, Entry, new_entry, is_moved, is_outside, apply_entry, bad_entry, sent_entry, Tags,
  change_entry, change_found, change_all, register_tags, register_device, mark_bad, apply, take_if,
  take_dirty, take_changed,
}

-- A call of the store.
pub data Call (r : Number) : Type 0 where
  registering : Text → List (TagDef r) → Call r
  marking : Text → ℕ → Call r
  applying : Text → List ℕ → ℕ → ℕ → Call r
  taking : Call r

abbrev pub is_good_quality : Quality → Bool
is_good_quality good = true
is_good_quality _ = false

bad_lem : (q : Quality) → is_bad q ≡ true → is_good_quality q ≡ false
bad_lem good h = cc
bad_lem uncertain h = refl
bad_lem bad h = refl

module _ (r : Number) (float_of : ℕ → r.Num) where
  -- An entry of quality Good that waits for nothing was sent before, and its value is the one last
  -- sent or is within the deadband of it.
  abbrev pub Tracked : Text → Entry r float_of → Type 0
  Tracked name e =
      (e.dirty ≡ true)
      ⊎ (is_good_quality e.cur.quality ≡ false)
      ⊎ ((e.ever_sent ≡ true)
          × ((e.cur.value ≡ e.last_sent) ⊎ (is_moved r float_of e e.cur.value ≡ false)))

  apply_entry-Tracked :
      (n : Text) (ws : List ℕ) (start ts : ℕ) (e : Entry r float_of)
      → Tracked n (apply_entry r float_of ws start ts e)
  unfolding apply_entry
  apply_entry-Tracked n ws start ts e = elim (Bool-cases (is_outside r float_of e.def ws start)) [
    | inl o ↦ rw o (inr (inl refl))
    | inr o ↦ rw o (ground arith)
  ]

  bad_entry-Tracked :
      (n : Text) (ts : ℕ) (e : Entry r float_of) → Tracked n (bad_entry r float_of ts e)
  unfolding bad_entry
  bad_entry-Tracked n ts e = elim (Bool-cases (is_bad e.cur.quality)) [
    | inl b ↦ simp b (inr (inl (bad_lem e.cur.quality b)))
    | inr b ↦ simp b (inl refl)
  ]

  sent_entry-Tracked : (n : Text) (e : Entry r float_of) → Tracked n (sent_entry r float_of e)
  unfolding sent_entry
  sent_entry-Tracked n e = inr (inr (refl, inl refl))

  change_all-Tracked :
      (f : Entry r float_of → Entry r float_of)
      → ((n : Text) (e : Entry r float_of) → Tracked n (f e))
      → (ns : List Text) (m : List (Text × Entry r float_of)) → Entries Tracked m
      → Entries Tracked (change_all r float_of f ns m)
  unfolding change_all change_entry
  change_all-Tracked f g [] m h = h
  change_all-Tracked f g (n ∷ ns) m h = change_all-Tracked f g ns _ (go (lookup n m))
    where
      go : (o : Option (Entry r float_of)) → Entries Tracked (change_found r float_of n f m o)
      go none = h
      go (some e) = insert-Entries Tracked n (f e) m (g n e) h

  take_if-Tracked :
      (b : Bool) (n : Text) (e : Entry r float_of)
      (x : List (Text × Entry r float_of) × List (TagValue r))
      → Tracked n e
      → Entries Tracked x.0
      → Entries Tracked (take_if r float_of b n e x).0
  take_if-Tracked true n e (m, out) h k = (sent_entry-Tracked n e, k)
  take_if-Tracked false n e (m, out) h k = (h, k)

  take_dirty-Tracked :
      (m : List (Text × Entry r float_of))
      → Entries Tracked m
      → Entries Tracked (take_dirty r float_of m).0
  take_dirty-Tracked [] h = tt
  take_dirty-Tracked ((n, e) ∷ m) h =
      take_if-Tracked e.dirty n e (take_dirty r float_of m) h.0 (take_dirty-Tracked m h.1)

  register_tags-Tracked :
      (id : Text) (ds : List (TagDef r)) (s : Tags r float_of)
      → Entries Tracked s.defs
      → Entries Tracked (register_tags r float_of id ds s).defs
  register_tags-Tracked id [] s h = h
  register_tags-Tracked id (d ∷ ds) s h =
      register_tags-Tracked id ds _
        (insert-Entries Tracked d.name (new_entry r float_of d) s.defs (inr (inl refl)) h)

  unfoldable pub call : Call r → Tags r float_of → Tags r float_of
  call (registering id ds) s = register_device r float_of id ds s
  call (marking device ts) s = mark_bad r float_of device ts s
  call (applying device ws start ts) s = apply r float_of device ws start ts s
  call taking s = (take_changed r float_of s).0

  unfoldable pub run : List (Call r) → Tags r float_of → Tags r float_of
  run [] s = s
  run (c ∷ cs) s = run cs (call c s)

  call-Tracked :
      (c : Call r) (s : Tags r float_of) → Entries Tracked s.defs → Entries Tracked (call c s).defs
  unfolding call register_device mark_bad apply take_changed
  call-Tracked (registering id ds) s h = register_tags-Tracked id ds _ h
  call-Tracked (marking device ts) s h =
      change_all-Tracked (bad_entry r float_of ts) (λ n e. bad_entry-Tracked n ts e) _ s.defs h
  call-Tracked (applying device ws start ts) s h =
      change_all-Tracked (apply_entry r float_of ws start ts)
        (λ n e. apply_entry-Tracked n ws start ts e) _ s.defs h
  call-Tracked taking s h = take_dirty-Tracked s.defs h

  -- Through any calls of the collector's store, a tag of quality Good that waits for no upload was
  -- sent before, and its value is the one last sent or has moved less than the deadband since.
  pub run-Tracked :
      (cs : List (Call r)) (s : Tags r float_of)
      → Entries Tracked s.defs
      → Entries Tracked (run cs s).defs
  unfolding run
  run-Tracked [] s h = h
  run-Tracked (c ∷ cs) s h = run-Tracked cs (call c s) (call-Tracked c s h)
