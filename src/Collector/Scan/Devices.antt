-- ===== src/Collector/Scan/Devices.antt =====
-- What the scans of a device keep: no value of a lost device looks good, and a device comes back.
use Prim.Native.Nat.{◌≤◌}
use project_sh_fms.Prelude.{
  ℕ, ◌+◌, ◌≡◌, refl, sym, ◌∙◌, true, false, List, [], ◌∷◌, Option, none, some, Text, le→leb,
  text_eq, text_eq_refl, arith, Bool-cases, inl, inr, All,
}
use project_sh_fms.Number.{Number}
use project_sh_fms.Engine.Store.{lookup}
use project_sh_fms.Engine.Store.Laws.{lookup-insert}
use project_sh_fms.Collector.{ReadResult, read, failed}
use project_sh_fms.Collector.Store.{
  Entry, Tags, is_bad, bad_entry, change_entry, change_found, change_all, names_of, mark_bad, apply,
}
use project_sh_fms.Collector.Scan.{
  Backoff, is_ready, secs, on_fail, new_backoff, Link, new_link, Meeting, reading, scan, scans,
}

secs_le : (n : ℕ) → secs n ≤ 60
unfolding secs
secs_le n = ground arith

module _ (r : Number) (float_of : ℕ → r.Num) where
  -- The tag is not registered or has the quality Bad.
  abbrev pub BadAt : Option (Entry r float_of) → Type 0
  BadAt none = Unit
  BadAt (some e) = is_bad e.cur.quality ≡ true

  bad_entry-IsBad :
      (ts : ℕ) (e : Entry r float_of) → is_bad (bad_entry r float_of ts e).cur.quality ≡ true
  unfolding bad_entry
  bad_entry-IsBad ts e = elim (Bool-cases (is_bad e.cur.quality)) [
    | inl b ↦ simp b refl
    | inr b ↦ simp b refl
  ]

  change-BadAt :
      (ts : ℕ) (n k : Text) (m : List (Text × Entry r float_of))
      → BadAt (lookup k m)
      → BadAt (lookup k (change_entry r float_of n (bad_entry r float_of ts) m))
  unfolding change_entry
  change-BadAt ts n k m h = go (lookup n m)
    where
      go :
          (o : Option (Entry r float_of))
          → BadAt (lookup k (change_found r float_of n (bad_entry r float_of ts) m o))
      go none = h
      go (some e) = elim (Bool-cases (text_eq n k)) [
        | inl q ↦ rw (lookup-insert n k (bad_entry r float_of ts e) m, q) (bad_entry-IsBad ts e)
        | inr q ↦ rw (lookup-insert n k (bad_entry r float_of ts e) m, q) h
      ]

  changed-BadAt :
      (ts : ℕ) (n : Text) (m : List (Text × Entry r float_of))
      → BadAt (lookup n (change_entry r float_of n (bad_entry r float_of ts) m))
  unfolding change_entry
  changed-BadAt ts n m = go (lookup n m) refl
    where
      go :
          (o : Option (Entry r float_of))
          → lookup n m ≡ o
          → BadAt (lookup n (change_found r float_of n (bad_entry r float_of ts) m o))
      go none q = rw q tt
      go (some e) q =
          rw (lookup-insert n n (bad_entry r float_of ts e) m, text_eq_refl n)
            (bad_entry-IsBad ts e)

  stays-BadAt :
      (ts : ℕ) (k : Text) (ns : List Text) (m : List (Text × Entry r float_of))
      → BadAt (lookup k m)
      → BadAt (lookup k (change_all r float_of (bad_entry r float_of ts) ns m))
  unfolding change_all
  stays-BadAt ts k [] m h = h
  stays-BadAt ts k (n ∷ ns) m h = stays-BadAt ts k ns _ (change-BadAt ts n k m h)

  change_all-BadAt :
      (ts : ℕ) (ns : List Text) (m : List (Text × Entry r float_of))
      → All (λ n. BadAt (lookup n (change_all r float_of (bad_entry r float_of ts) ns m))) ns
  unfolding change_all
  change_all-BadAt ts [] m = tt
  change_all-BadAt ts (n ∷ ns) m = (
    stays-BadAt ts n ns _ (changed-BadAt ts n m),
    change_all-BadAt ts ns (change_entry r float_of n (bad_entry r float_of ts) m),
  )

  -- Every tag of the device has the quality Bad.
  abbrev pub AllBad : Text → Tags r float_of → Type 0
  AllBad id s = All (λ n. BadAt (lookup n s.defs)) (names_of r float_of id s)

  mark_bad-AllBad :
      (id : Text) (ts : ℕ) (s : Tags r float_of) → AllBad id (mark_bad r float_of id ts s)
  unfolding mark_bad
  mark_bad-AllBad id ts s = change_all-BadAt ts (names_of r float_of id s) s.defs

  module _ (id : Text) (start : ℕ) where
    reading-AllBad :
        (m : Meeting) (res : ReadResult) (l : Link) (s : Tags r float_of)
        → l.connected ≡ true
        → let (l', s') = reading r float_of id start m res l s in
          l'.connected ≡ false → AllBad id s'
    reading-AllBad m (read ws) l s c h = absurd (let k : false ≡ true = sym h ∙ c in cc)
    reading-AllBad m (failed e closed) l s c h = mark_bad-AllBad id m.ts s

    -- After a scan that leaves a device without a connection, be it that connecting or reading failed
    -- or that it was too early to try, each tag of the device has the quality Bad: no value of a
    -- lost device goes on looking good.
    pub scan-AllBad :
        (m : Meeting) (l : Link) (s : Tags r float_of)
        → (scan r float_of id start m (l, s)).0.connected ≡ false
        → AllBad id (scan r float_of id start m (l, s)).1
    unfolding scan
    scan-AllBad m l s h = elim (Bool-cases l.connected) [
      | inl c ↦ simp c (reading-AllBad m m.result l s c (simp c at h))
      | inr c ↦ elim (Bool-cases (is_ready m.t0 l.backoff)) [
        | inr d ↦ simp (c, d) (mark_bad-AllBad id m.ts s)
        | inl d ↦ elim (Bool-cases m.connects) [
          | inr e ↦ simp (c, d, e) (mark_bad-AllBad id m.ts s)
          | inl e ↦
              simp (c, d, e)
                (reading-AllBad m m.result (record { connected = true; backoff = new_backoff }) s
                  refl (simp (c, d, e) at h))
        ]
      ]
    ]

    -- The next try of a device is a minute past `now` at the latest.
    abbrev DueBy : ℕ → Link → Type 0
    DueBy now l = l.backoff.next ≤ now + 60_000

    on_fail-DueBy : (t0 now : ℕ) (b : Backoff) → t0 ≤ now → (on_fail t0 b).next ≤ now + 60_000
    unfolding on_fail
    on_fail-DueBy t0 now b h = omega (arith, h, secs_le (b.fails + 1))

    scan-DueBy :
        (now : ℕ) (m : Meeting) (l : Link) (s : Tags r float_of)
        → m.t0 ≤ now
        → DueBy now l
        → DueBy now (scan r float_of id start m (l, s)).0
    unfolding scan
    scan-DueBy now m l s a h = elim (Bool-cases l.connected) [
      | inl c ↦ simp c (reads m.result l h)
      | inr c ↦ elim (Bool-cases (is_ready m.t0 l.backoff)) [
        | inr d ↦ simp (c, d) h
        | inl d ↦ elim (Bool-cases m.connects) [
          | inr e ↦ simp (c, d, e) (on_fail-DueBy m.t0 now l.backoff a)
          | inl e ↦
              simp (c, d, e)
                (reads m.result (record { connected = true; backoff = new_backoff }) (omega arith))
        ]
      ]
    ]
      where
        reads :
            (res : ReadResult) (l : Link)
            → DueBy now l
            → DueBy now (reading r float_of id start m res l s).0
        reads (read ws) l h = h
        reads (failed e closed) l h = on_fail-DueBy m.t0 now l.backoff a

    scans-DueBy :
        (now : ℕ) (ms : List Meeting) (x : Link × Tags r float_of)
        → All (λ m. m.t0 ≤ now) ms
        → DueBy now x.0
        → DueBy now (scans r float_of id start ms x).0
    unfolding scans
    scans-DueBy now [] x a h = h
    scans-DueBy now (m ∷ ms) (l, s) a h =
        scans-DueBy now ms (scan r float_of id start m (l, s)) a.1 (scan-DueBy now m l s a.0 h)

    scan_reads :
        (m : Meeting) (ws : List ℕ) (l : Link) (s : Tags r float_of)
        → m.connects ≡ true
        → m.result ≡ read ws
        → is_ready m.t0 l.backoff ≡ true
        → let (l', s') = scan r float_of id start m (l, s) in
          (l'.connected ≡ true) × (s' ≡ apply r float_of id ws start m.ts s)
    unfolding scan
    scan_reads m ws l s a b d = elim (Bool-cases l.connected) [
      | inl c ↦ simp (c, b) (refl, refl)
      | inr c ↦ simp (c, d, a, b) (refl, refl)
    ]

    -- However a device has failed in its scans up to an instant, a scan a minute later or more, at
    -- which it lets itself be connected and read, has it connected and its registers taken in.
    pub device_recovers :
        (now : ℕ) (ms : List Meeting) (m : Meeting) (ws : List ℕ) (s : Tags r float_of)
        → All (λ x. x.t0 ≤ now) ms
        → now + 60_000 ≤ m.t0
        → m.connects ≡ true
        → m.result ≡ read ws
        → let before = scans r float_of id start ms (new_link, s) in
          let (l', s') = scan r float_of id start m before in
          (l'.connected ≡ true) × (s' ≡ apply r float_of id ws start m.ts before.1)
    device_recovers now ms m ws s a late c b =
        let x : Link × Tags r float_of = scans r float_of id start ms (new_link, s) in
        let due : x.0.backoff.next ≤ now + 60_000 =
          scans-DueBy now ms (new_link, s) a (omega arith) in
        scan_reads m ws x.0 x.1 c b (le→leb x.0.backoff.next m.t0 (omega (arith, due, late)))
