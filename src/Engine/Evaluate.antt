-- ===== src/Engine/Evaluate.antt =====
-- AlarmEngine.cs: Evaluate, TryClear, ExpireShelves. A batch is a list of values, each with the
-- instant at which it is dealt with. Calls that run at the same time are not interleaved.
pub mod Invariant
pub mod Repeat
pub mod Return
pub mod Suppressed
use project_sh_fms.Prelude.{
  ℕ, zero, suc, ◌+◌, ◌-◌, ◌*◌, Bool, true, false, not, ◌&&◌, ◌||◌, List, [], ◌∷◌, ◌++◌, Option,
  none, some, Text, codes, if◌then◌else◌, text_eq, leb, ◌==◌,
}
use project_sh_fms.Number.{Number}
use project_sh_fms.Engine.{
  State, normal, unack_active, ack_active, unack_cleared, shelved, Kind, pvhh, pvh, pvl, pvll, bad,
  dev, Runtime, Sample, Meta, Raised, Event, Engine,
}
use project_sh_fms.Engine.Classify.{classify, is_good, priority_of, describe}
use project_sh_fms.Engine.Store.{
  history_limit, lookup, insert, remove, map_values, push, is_suppressed,
}

abbrev pub kind_code : Kind → ℕ
kind_code pvhh = 0
kind_code pvh = 1
kind_code pvl = 2
kind_code pvll = 3
kind_code bad = 4
kind_code dev = 5

abbrev pub is_unack_active : State → Bool
is_unack_active unack_active = true
is_unack_active _ = false

abbrev pub is_shelved : State → Bool
is_shelved shelved = true
is_shelved _ = false

-- `now >= exp`, where there is an `exp`.
abbrev pub is_due : ℕ → Option ℕ → Bool
is_due now none = false
is_due now (some exp) = leb exp now

module _ (r : Number) (t : Runtime r) where
  open r use {Num, le, add, sub}

  -- The `switch` of TryClear.
  unfoldable pub is_cleared : Kind → Event r → Sample r → Meta r → Bool
  is_cleared pvhh ev v m = le v.value (sub ev.raised.limit m.deadband)
  is_cleared pvh ev v m = le v.value (sub ev.raised.limit m.deadband)
  is_cleared pvll ev v m = le (add ev.raised.limit m.deadband) v.value
  is_cleared pvl ev v m = le (add ev.raised.limit m.deadband) v.value
  is_cleared bad ev v m = is_good r t v
  is_cleared dev ev v m = true

  -- The end of TryClear, once the alarm is cleared: one that nobody has acknowledged stays.
  unfoldable pub clear : Text → ℕ → Event r → List (Text × Event r) → List (Text × Event r)
  clear k now ev act =
      if is_unack_active ev.state
      then insert k (record ev { cleared_at = some now; state = unack_cleared }) act
      else remove k act

  abbrev pub try_clear_found :
      Sample r → Meta r → ℕ → Option (Event r) → List (Text × Event r) → List (Text × Event r)
  try_clear_found v m now none act = act
  try_clear_found v m now (some ev) act =
      if is_cleared ev.raised.kind ev v m then clear v.tag now ev act else act

  -- TryClear
  unfoldable pub try_clear : Sample r → Meta r → ℕ → List (Text × Event r) → List (Text × Event r)
  try_clear v m now act = try_clear_found v m now (lookup v.tag act) act

  -- NextId, with the number that it has drawn.
  unfoldable pub next_id : ℕ → ℕ → Text
  next_id now n = codes "AL-" ++ (t.stamp now ++ (b'-' ∷ t.four n))

  unfoldable pub raised : Sample r → Meta r → ℕ → Kind → Num → ℕ → Raised r
  unfolding priority_of describe next_id
  raised v m now k l n = record {
    id = next_id now n;
    tag = v.tag;
    area = m.area;
    priority = priority_of r t k m;
    kind = k;
    message = describe r t k m v.value l;
    raised_at = now;
    limit = l;
  }

  abbrev pub new_event : Raised r → Num → Event r
  new_event a x = record {
    raised = a;
    acked_at = none;
    acked_by = none;
    cleared_at = none;
    state = unack_active;
    shelf_expires_at = none;
    value = x;
  }

  -- `_active.TryGetValue(v.Tag, out var cur) && cur.Type == type.Value`
  abbrev pub is_same_kind : Option (Event r) → Kind → Bool
  is_same_kind none k = false
  is_same_kind (some cur) k = kind_code cur.raised.kind == kind_code k

  -- `cur.Value = v.Value;`
  abbrev pub refresh : Sample r → Option (Event r) → Engine r → Engine r
  refresh v none e = e
  refresh v (some cur) e = record e {
    active = insert v.tag (record cur { value = v.value }) e.active;
  }

  -- A new alarm: into the active ones, the history and what the batch has fired.
  unfoldable pub fire : Sample r → Meta r → ℕ → Kind → Num → Engine r → Engine r × List (Raised r)
  fire v m now k l e =
      let a = raised v m now k l (e.seq + 1) in
      (
        record e {
          active = insert v.tag (new_event a v.value) e.active;
          history = push history_limit a e.history;
          seq = e.seq + 1;
        },
        a ∷ [],
      )

  abbrev pub on_kind :
      Sample r → Meta r → ℕ → Option (Kind × Num) → Engine r → Engine r × List (Raised r)
  on_kind v m now none e = (record e { active = try_clear v m now e.active }, [])
  on_kind v m now (some (k, l)) e =
      let cur = lookup v.tag e.active in
      if is_same_kind cur k then (refresh v cur e, []) else fire v m now k l e

  abbrev pub on_meta : Sample r → Option (Meta r) → ℕ → Engine r → Engine r × List (Raised r)
  on_meta v none now e = (e, [])
  on_meta v (some m) now e =
      if is_suppressed r t m e.suppressed then (e, []) else on_kind v m now (classify r t v m) e

  -- The part of ExpireShelves for one alarm.
  unfoldable pub expire : ℕ → Event r → Event r
  expire now ev =
      if is_shelved ev.state && is_due now ev.shelf_expires_at
      then record ev { state = unack_active; shelf_expires_at = none }
      else ev

  -- ExpireShelves
  unfoldable pub expire_shelves : ℕ → Engine r → Engine r
  expire_shelves now e = record e { active = map_values (expire now) e.active }

  module _ (meta : Text → Option (Meta r)) where
    -- The body of the loop of Evaluate, for one value.
    unfoldable pub evaluate_one : Sample r → ℕ → Engine r → Engine r × List (Raised r)
    evaluate_one v now e = on_meta v (meta v.tag) now e

    -- The loop of Evaluate, with what has been fired.
    unfoldable pub evaluate_all : List (Sample r × ℕ) → Engine r → Engine r × List (Raised r)
    evaluate_all [] e = (e, [])
    evaluate_all ((v, now) ∷ vs) e =
        let (e', a) = evaluate_one v now e in let (e'', as') = evaluate_all vs e' in (e'', a ++ as')

    -- Evaluate, whose last act at the instant `now` is to let shelves expire.
    unfoldable pub evaluate : List (Sample r × ℕ) → ℕ → Engine r → Engine r × List (Raised r)
    evaluate vs now e = let (e', fired) = evaluate_all vs e in (expire_shelves now e', fired)
