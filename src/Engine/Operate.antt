-- ===== src/Engine/Operate.antt =====
-- AlarmEngine.cs: Ack, Shelve, Load, and the operations of the engine as a whole.
pub mod Bounds
use project_sh_fms.Prelude.{
  ℕ, zero, suc, ◌+◌, ◌-◌, ◌*◌, Bool, true, false, not, ◌&&◌, List, [], ◌∷◌, Option, none, some,
  Text, if◌then◌else◌, text_eq, leb, ltb, tally,
}
use project_sh_fms.Number.{Number}
use project_sh_fms.Engine.{
  State, normal, unack_active, ack_active, unack_cleared, shelved, Runtime, Sample, Meta, Raised,
  Event, Engine,
}
use project_sh_fms.Engine.Store.{insert, remove, suppress}
use project_sh_fms.Engine.Evaluate.{evaluate, is_unack_active, is_shelved}

-- A tick is 100 ns, as in .NET.
abbrev pub ticks_per_hour : ℕ
ticks_per_hour = 36_000_000_000

-- `if (duration > TimeSpan.FromHours(8)) duration = TimeSpan.FromHours(8);`
unfoldable pub capped : ℕ → ℕ
capped d = if ltb (8 * ticks_per_hour) d then 8 * ticks_per_hour else d

abbrev pub is_unack_cleared : State → Bool
is_unack_cleared unack_cleared = true
is_unack_cleared _ = false

module _ (r : Number) where
  -- `_active.Values.FirstOrDefault(a => a.Id == id)`
  unfoldable pub find : Text → List (Text × Event r) → Option (Event r)
  find id [] = none
  find id ((k, ev) ∷ m) = let rest = find id m in if text_eq ev.raised.id id then some ev else rest

  abbrev pub ack_found :
      Text → ℕ → Option (Event r) → List (Text × Event r) → List (Text × Event r) × Bool
  ack_found user now none act = (act, false)
  ack_found user now (some ev) act =
      if is_unack_cleared ev.state then (remove ev.raised.tag act, true) else (
        insert ev.raised.tag
            (record ev { acked_at = some now; acked_by = some user; state = ack_active }) act,
        true,
      )

  unfoldable pub ack : Text → Text → ℕ → Engine r → Engine r × Bool
  ack id user now e =
      let (act, done) = ack_found user now (find id e.active) e.active in
      (record e { active = act }, done)

  abbrev pub shelve_found :
      Text → ℕ → ℕ → Option (Event r) → List (Text × Event r) → List (Text × Event r) × Bool
  shelve_found user duration now none act = (act, false)
  shelve_found user duration now (some ev) act = (
    insert ev.raised.tag
        (record ev {
          state = shelved;
          shelf_expires_at = some (now + capped duration);
          acked_by = some user;
        })
        act,
    true,
  )

  unfoldable pub shelve : Text → Text → ℕ → ℕ → Engine r → Engine r × Bool
  shelve id user duration now e =
      let (act, done) = shelve_found user duration now (find id e.active) e.active in
      (record e { active = act }, done)

  unfoldable pub new_engine : Engine r
  new_engine = record { active = []; history = []; suppressed = []; seq = 0 }

  pub record AlarmLoad : Type 0 where
    pub last_24h : ℕ
    pub last_hour : ℕ
    pub unack_count : ℕ
    pub shelved_count : ℕ
    pub target_per_hour : ℕ
    pub target_per_day : ℕ

  unfoldable pub load : ℕ → Engine r → AlarmLoad
  load now e = record {
    last_24h = tally (λ a. leb (now - a.raised_at) (24 * ticks_per_hour)) e.history;
    last_hour = tally (λ a. leb (now - a.raised_at) ticks_per_hour) e.history;
    unack_count = tally (λ p. is_unack_active p.1.state) e.active;
    shelved_count = tally (λ p. is_shelved p.1.state) e.active;
    target_per_hour = 6;
    target_per_day = 300;
  }

-- A call of the engine.
pub data Call (r : Number) : Type 0 where
  evaluating : List (Sample r × ℕ) → ℕ → Call r
  acking : Text → Text → ℕ → Call r
  shelving : Text → Text → ℕ → ℕ → Call r
  suppressing : Text → Bool → Call r

module _ (r : Number) (t : Runtime r) (meta : Text → Option (Meta r)) where
  unfoldable pub call : Call r → Engine r → Engine r
  call (evaluating vs now) e = (evaluate r t meta vs now e).0
  call (acking id user now) e = (ack r id user now e).0
  call (shelving id user duration now) e = (shelve r id user duration now e).0
  call (suppressing k on) e = suppress r t k on e

  unfoldable pub run : List (Call r) → Engine r → Engine r
  run [] e = e
  run (c ∷ cs) e = run cs (call c e)
