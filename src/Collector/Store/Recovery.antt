-- ===== src/Collector/Store/Recovery.antt =====
-- What the gateway is not told of changes of quality.
use project_sh_fms.Prelude.{
  ℕ, ◌-◌, ◌≡◌, refl, ap, ◌∙◌, true, false, List, [], ◌∷◌, some, Text, Memᴰ, Bool-cases, inl, inr,
}
use project_sh_fms.Number.{Number}
use project_sh_fms.Engine.Store.{lookup}
use project_sh_fms.Engine.Store.Keys.{insert-Entries, insert-UniqueKeys}
use project_sh_fms.Collector.{TagDef, good, bad}
use project_sh_fms.Collector.Store.{
  is_bad, Entry, new_entry, measured, is_outside, apply_entry, bad_entry, sent_entry, Tags,
  names_of, register_tags, register_device, mark_bad, apply, take_changed, take_dirty, scaled,
  decode, change_all,
}
use project_sh_fms.Collector.Store.Deadband.{
  Call, registering, marking, applying, taking, call, run,
}
use project_sh_fms.Collector.Store.Names.{IsNamed, IsKeyed, times, change_once, change_all-IsKeyed}
use project_sh_fms.Collector.Store.Taking.{
  take_dirty-lookup, dirty_told, Untold, clean-Untold, take_dirty-IsKeyed,
}

module _ (r : Number) (float_of : ℕ → r.Num) where
  bad_entry-name :
      (ts : ℕ) (e : Entry r float_of) → (bad_entry r float_of ts e).cur.name ≡ e.cur.name
  unfolding bad_entry
  bad_entry-name ts e = elim (Bool-cases (is_bad e.cur.quality)) [
    | inl b ↦ simp b refl
    | inr b ↦ simp b refl
  ]

  apply_entry-name :
      (ws : List ℕ) (start ts : ℕ) (e : Entry r float_of)
      → (apply_entry r float_of ws start ts e).cur.name ≡ e.cur.name
  unfolding apply_entry
  apply_entry-name ws start ts e = elim (Bool-cases (is_outside r float_of e.def ws start)) [
    | inl o ↦ rw o refl
    | inr o ↦ rw o refl
  ]

  register_tags-IsKeyed :
      (id : Text) (ds : List (TagDef r)) (s : Tags r float_of)
      → IsKeyed r float_of s.defs
      → IsKeyed r float_of (register_tags r float_of id ds s).defs
  register_tags-IsKeyed id [] s h = h
  register_tags-IsKeyed id (d ∷ ds) s h = register_tags-IsKeyed id ds _ (record {
    unique = insert-UniqueKeys d.name (new_entry r float_of d) s.defs h.unique;
    named = insert-Entries (IsNamed r float_of) d.name (new_entry r float_of d) s.defs refl h.named;
  })

  call-IsKeyed :
      (c : Call r) (s : Tags r float_of)
      → IsKeyed r float_of s.defs
      → IsKeyed r float_of (call r float_of c s).defs
  unfolding call register_device mark_bad apply take_changed
  call-IsKeyed (registering id ds) s h = register_tags-IsKeyed id ds _ h
  call-IsKeyed (marking device ts) s h =
      change_all-IsKeyed r float_of (bad_entry r float_of ts) (bad_entry-name ts) _ s.defs h
  call-IsKeyed (applying device ws start ts) s h =
      change_all-IsKeyed r float_of (apply_entry r float_of ws start ts)
        (apply_entry-name ws start ts) _ s.defs h
  call-IsKeyed taking s h = take_dirty-IsKeyed r float_of s.defs h

  run-IsKeyed :
      (cs : List (Call r)) (s : Tags r float_of)
      → IsKeyed r float_of s.defs
      → IsKeyed r float_of (run r float_of cs s).defs
  unfolding run
  run-IsKeyed [] s h = h
  run-IsKeyed (c ∷ cs) s h = run-IsKeyed cs (call r float_of c s) (call-IsKeyed c s h)

  -- The store before any call.
  abbrev pub new_store : Tags r float_of
  new_store = record { defs = []; by_device = [] }

  -- A tag that has just gone bad.
  abbrev pub lost : ℕ → Entry r float_of → Entry r float_of
  lost ts e = record e { cur = record e.cur { quality = bad; ts_ms = ts }; dirty = true }

  bad_entry-lost :
      (ts : ℕ) (e : Entry r float_of)
      → is_bad e.cur.quality ≡ false
      → bad_entry r float_of ts e ≡ lost ts e
  unfolding bad_entry
  bad_entry-lost ts e b = simp b refl

  -- The read has the tag's registers, and decodes to a value that is within the deadband of `x`.
  pub record Steady (ws : List ℕ) (start : ℕ) (x : r.Num) (e : Entry r float_of) : Type 0 where
    pub read : is_outside r float_of e.def ws start ≡ false
    pub near :
        r.le e.def.deadband (
          r.abs (
            r.sub (scaled r float_of e.def (decode r float_of e.def ws (e.def.address - start))) x))
        ≡ false

  -- The tag that was lost, taken, and read again.
  abbrev again : List ℕ → ℕ → ℕ → ℕ → Entry r float_of → Entry r float_of
  again ws start t1 t2 e =
      let old = sent_entry r float_of (lost t1 e) in
      let raw = decode r float_of e.def ws (e.def.address - start) in
      record (measured r float_of t2 (scaled r float_of e.def raw) old) { dirty = false }

  apply_entry-again :
      (ws : List ℕ) (start t1 t2 : ℕ) (e : Entry r float_of)
      → Steady ws start e.cur.value e
      → apply_entry r float_of ws start t2 (sent_entry r float_of (lost t1 e))
        ≡ again ws start t1 t2 e
  unfolding apply_entry sent_entry
  apply_entry-again ws start t1 t2 e h = rw (h.read, h.near) refl

  -- In a store after any calls, of a tag that its device has registered once and that is not bad: when
  -- the device is lost, the gateway is told that the tag is bad; when a read succeeds again with a value
  -- within the deadband of the old one, the tag is good again in the collector, and the gateway is told
  -- nothing of it.
  pub recovery_unreported :
      (cs : List (Call r)) (device n : Text) (ws : List ℕ) (start t1 t2 : ℕ) (e : Entry r float_of)
      → lookup n (run r float_of cs new_store).defs ≡ some e
      → times r float_of n (names_of r float_of device (run r float_of cs new_store)) ≡ 1
      → is_bad e.cur.quality ≡ false
      → Steady ws start e.cur.value e
      → let s = run r float_of cs new_store in
        let (gone, told) = take_changed r float_of (mark_bad r float_of device t1 s) in
        let (back, told') = take_changed r float_of (apply r float_of device ws start t2 gone) in
        Memᴰ (record e.cur { quality = bad; ts_ms = t1 }) told
        × Untold r float_of n told'
        × (c : Entry r float_of) × (lookup n back.defs ≡ some c)
        × (c.cur.quality ≡ good)
  unfolding take_changed mark_bad apply
  recovery_unreported cs device n ws start t1 t2 e at once b h =
      let s : Tags r float_of = run r float_of cs new_store in
      let ns : List Text = names_of r float_of device s in
      let k0 = run-IsKeyed cs new_store (record { unique = tt; named = tt }) in
      let m1 = change_all r float_of (bad_entry r float_of t1) ns s.defs in
      let at1 : lookup n m1 ≡ some (lost t1 e) =
        change_once r float_of (bad_entry r float_of t1) n ns s.defs e once at
        ∙ ap some (bad_entry-lost t1 e b) in
      let k1 =
        change_all-IsKeyed r float_of (bad_entry r float_of t1) (bad_entry-name t1) ns s.defs k0 in
      let m2 = (take_dirty r float_of m1).0 in
      let at2 : lookup n m2 ≡ some (sent_entry r float_of (lost t1 e)) =
        take_dirty-lookup r float_of n m1 (lost t1 e) at1 in
      let f = apply_entry r float_of ws start t2 in
      let m3 = change_all r float_of f ns m2 in
      let at3 : lookup n m3 ≡ some (again ws start t1 t2 e) =
        change_once r float_of f n ns m2 (sent_entry r float_of (lost t1 e)) once at2
        ∙ ap some (apply_entry-again ws start t1 t2 e h) in
      let k3 =
        change_all-IsKeyed r float_of f (apply_entry-name ws start t2) ns m2
          (take_dirty-IsKeyed r float_of m1 k1) in
      (
        dirty_told r float_of n m1 (lost t1 e) at1 refl,
        clean-Untold r float_of n m3 (again ws start t1 t2 e) k3 at3 refl,
        again ws start t1 t2 e,
        take_dirty-lookup r float_of n m3 (again ws start t1 t2 e) at3,
        refl,
      )
