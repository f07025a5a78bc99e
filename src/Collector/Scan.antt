-- ===== src/Collector/Scan.antt =====
-- src/collector/src/main.cpp: Backoff, and what the main loop does with one device in one scan.
-- Times are milliseconds of the steady clock.
pub mod Devices
use project_sh_fms.Prelude.{
  ℕ, ◌+◌, ◌*◌, Bool, true, false, not, List, [], ◌∷◌, Text, if◌then◌else◌, ltb, leb,
}
use project_sh_fms.Number.{Number}
use project_sh_fms.Collector.{ReadResult, read, failed}
use project_sh_fms.Collector.Store.{Tags, mark_bad, apply}

pub record Backoff : Type 0 where
  pub fails : ℕ
  pub next : ℕ

-- ready
abbrev pub is_ready : ℕ → Backoff → Bool
is_ready now b = leb b.next now

-- `secs`
unfoldable pub secs : ℕ → ℕ
secs fails = if ltb fails 3 then 1 else if ltb fails 6 then 5 else if ltb fails 10 then 15 else 60

unfoldable pub on_fail : ℕ → Backoff → Backoff
unfolding secs
on_fail now b = record { fails = b.fails + 1; next = now + 1000 * secs (b.fails + 1) }

-- on_ok
abbrev pub new_backoff : Backoff
new_backoff = record { fails = 0; next = 0 }

-- A device of the loop: whether its socket is open, and its backoff.
pub record Link : Type 0 where
  pub connected : Bool
  pub backoff : Backoff

abbrev pub new_link : Link
new_link = record { connected = false; backoff = new_backoff }

-- What one scan meets: its instant `t0`, the wall clock, what connecting gives and what reading gives,
-- where it comes to that.
pub record Meeting : Type 0 where
  pub t0 : ℕ
  pub ts : ℕ
  pub connects : Bool
  pub result : ReadResult

module _ (r : Number) (float_of : ℕ → r.Num) (id : Text) (read_start : ℕ) where
  abbrev pub reading : Meeting → ReadResult → Link → Tags r float_of → Link × Tags r float_of
  reading m (read ws) l s = (l, apply r float_of id ws read_start m.ts s)
  reading m (failed e closed) l s = (
    record { connected = false; backoff = on_fail m.t0 l.backoff },
    mark_bad r float_of id m.ts s,
  )

  -- The body of the loop over the devices.
  unfoldable pub scan : Meeting → Link × Tags r float_of → Link × Tags r float_of
  scan m (l, s) =
      if l.connected
      then reading m m.result l s
      else if not (is_ready m.t0 l.backoff)
      then (l, mark_bad r float_of id m.ts s)
      else if not m.connects
      then (record l { backoff = on_fail m.t0 l.backoff }, mark_bad r float_of id m.ts s)
      else reading m m.result (record { connected = true; backoff = new_backoff }) s

  unfoldable pub scans : List Meeting → Link × Tags r float_of → Link × Tags r float_of
  scans [] x = x
  scans (m ∷ ms) x = scans ms (scan m x)
