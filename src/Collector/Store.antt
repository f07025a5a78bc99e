-- ===== src/Collector/Store.antt =====
-- src/collector/src/tag_store.cpp. The maps are lists; what take_changed takes first is left open by
-- the source's hash map, and is the order of registration here.
pub mod Deadband
pub mod Names
pub mod Taking
pub mod Recovery
use project_sh_fms.Prelude.{
  ℕ, zero, suc, ◌+◌, ◌-◌, ◌*◌, Bool, true, false, not, ◌&&◌, ◌||◌, List, [], ◌∷◌, ◌++◌, Option,
  none, some, Text, if◌then◌else◌, ltb, ◌==◌, length, get_or,
}
use project_sh_fms.Number.{Number}
use project_sh_fms.Engine.Store.{lookup, insert}
use project_sh_fms.Collector.{Quality, good, uncertain, bad, TagDef, TagValue}

abbrev pub is_bad : Quality → Bool
is_bad bad = true
is_bad _ = false

module _ (r : Number) (float_of : ℕ → r.Num) where
  open r use {Num, lit, neg, add, sub, mul, abs, le}

  -- TagStore::Entry
  pub record Entry : Type 0 where
    pub def : TagDef r
    pub cur : TagValue r
    pub last_sent : Num
    pub dirty : Bool
    pub ever_sent : Bool

  abbrev pub new_entry : TagDef r → Entry
  new_entry d = record {
    def = d;
    cur = record { name = d.name; value = lit 0 0; quality = bad; ts_ms = 0 };
    last_sent = lit 0 0;
    dirty = false;
    ever_sent = false;
  }

  -- An integer of `w` bits in two's complement.
  abbrev pub signed : ℕ → ℕ → Num
  signed half w = if ltb w half then lit w 0 else neg (lit (2 * half - w) 0)

  -- decode. The reinterpretation of 32 bits as a float is the machine's.
  unfoldable pub decode : TagDef r → List ℕ → ℕ → Num
  decode d ws idx =
      let raw = get_or ws idx 0 * 65536 + get_or ws (idx + 1) 0 in
      if not (d.words == 2)
      then signed 32768 (get_or ws idx 0)
      else if d.is_float
      then float_of raw
      else signed 2147483648 raw

  -- `raw * scale + offset`
  abbrev pub scaled : TagDef r → Num → Num
  scaled d raw = add (mul raw d.scale) d.offset

  -- `std::fabs(eu - last_sent) >= deadband`
  abbrev pub is_moved : Entry → Num → Bool
  is_moved e eu = le e.def.deadband (abs (sub eu e.last_sent))

  abbrev pub measured : ℕ → Num → Entry → Entry
  measured ts eu e = record e {
    cur = record e.cur { value = eu; quality = good; ts_ms = ts };
    dirty = if not e.ever_sent || is_moved e eu then true else e.dirty;
  }

  abbrev pub is_outside : TagDef r → List ℕ → ℕ → Bool
  is_outside d ws start = ltb d.address start || ltb (length ws) (d.address - start + d.words)

  -- The body of the loop of apply.
  unfoldable pub apply_entry : List ℕ → ℕ → ℕ → Entry → Entry
  apply_entry ws start ts e =
      if is_outside e.def ws start
      then record e { cur = record e.cur { quality = uncertain; ts_ms = ts } }
      else measured ts (scaled e.def (decode e.def ws (e.def.address - start))) e

  -- The body of the loop of mark_bad.
  unfoldable pub bad_entry : ℕ → Entry → Entry
  bad_entry ts e =
      if is_bad e.cur.quality
      then record e { cur = record e.cur { ts_ms = ts } }
      else record e { cur = record e.cur { quality = bad; ts_ms = ts }; dirty = true }

  -- The body of the loop of take_changed, for an entry that is dirty.
  unfoldable pub sent_entry : Entry → Entry
  sent_entry e = record e { last_sent = e.cur.value; ever_sent = true; dirty = false }

  -- TagStore
  pub record Tags : Type 0 where
    pub defs : List (Text × Entry)
    pub by_device : List (Text × List Text)

  abbrev pub change_found :
      Text → (Entry → Entry) → List (Text × Entry) → Option Entry → List (Text × Entry)
  change_found name f m none = m
  change_found name f m (some e) = insert name (f e) m

  -- `defs_[name]` changed in place. Each name of a device is registered.
  unfoldable pub change_entry : Text → (Entry → Entry) → List (Text × Entry) → List (Text × Entry)
  change_entry name f m = change_found name f m (lookup name m)

  unfoldable pub change_all :
      (Entry → Entry) → List Text → List (Text × Entry) → List (Text × Entry)
  change_all f [] m = m
  change_all f (n ∷ ns) m = change_all f ns (change_entry n f m)

  abbrev pub or_no_names : Option (List Text) → List Text
  or_no_names none = []
  or_no_names (some ns) = ns

  abbrev pub names_of : Text → Tags → List Text
  names_of device s = or_no_names (lookup device s.by_device)

  abbrev pub register_tags : Text → List (TagDef r) → Tags → Tags
  register_tags id [] s = s
  register_tags id (d ∷ ds) s = register_tags id ds (record {
    defs = insert d.name (new_entry d) s.defs;
    by_device = insert id (names_of id s ++ d.name ∷ []) s.by_device;
  })

  -- register_device
  unfoldable pub register_device : Text → List (TagDef r) → Tags → Tags
  register_device id ds s =
      register_tags id ds (record s { by_device = insert id (names_of id s) s.by_device })

  -- mark_bad, at the instant `ts`.
  unfoldable pub mark_bad : Text → ℕ → Tags → Tags
  mark_bad device ts s = record s { defs = change_all (bad_entry ts) (names_of device s) s.defs }

  -- apply, of a read that succeeded; for another it is mark_bad.
  unfoldable pub apply : Text → List ℕ → ℕ → ℕ → Tags → Tags
  apply device ws start ts s = record s {
    defs = change_all (apply_entry ws start ts) (names_of device s) s.defs;
  }

  -- One turn of that loop.
  abbrev pub take_if :
      Bool
      → Text
      → Entry
      → List (Text × Entry) × List (TagValue r)
      → List (Text × Entry) × List (TagValue r)
  take_if true n e (m, out) = ((n, sent_entry e) ∷ m, e.cur ∷ out)
  take_if false n e (m, out) = ((n, e) ∷ m, out)

  abbrev pub take_dirty : List (Text × Entry) → List (Text × Entry) × List (TagValue r)
  take_dirty [] = ([], [])
  take_dirty ((n, e) ∷ m) = take_if e.dirty n e (take_dirty m)

  -- take_changed
  unfoldable pub take_changed : Tags → Tags × List (TagValue r)
  take_changed s = let (m, out) = take_dirty s.defs in (record s { defs = m }, out)
