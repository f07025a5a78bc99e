-- ===== src/Engine/Operate/Bounds.antt =====
-- The engine through any sequence of calls.
use Prim.Native.Nat.{◌≤◌}
use project_sh_fms.Prelude.{
  ℕ, ◌≡◌, refl, false, ◌&&◌, List, [], ◌∷◌, Option, none, some, Text, text_eq, text_eq_iff, arith,
  Bool-cases, inl, inr, All,
}
use project_sh_fms.Number.{Number}
use project_sh_fms.Engine.{Runtime, Sample, Meta, Event, Engine}
use project_sh_fms.Engine.Store.{suppress, map_values}
use project_sh_fms.Engine.Store.Keys.{
  Entries, insert-Entries, remove-Entries, insert-UniqueKeys, remove-UniqueKeys,
}
use project_sh_fms.Engine.Evaluate.{
  evaluate, expire, expire_shelves, is_shelved, is_due, evaluate_all,
}
use project_sh_fms.Engine.Evaluate.Invariant.{IsActive, IsValid, shelf_limit, evaluate-IsValid}
use project_sh_fms.Engine.Operate.{
  capped, is_unack_cleared, find, ack, ack_found, shelve, shelve_found, new_engine, Call,
  evaluating, acking, shelving, suppressing, call, run,
}

capped-le : (d : ℕ) → capped d ≤ shelf_limit
unfolding capped
capped-le d = ground arith

module _ (r : Number) (now : ℕ) where
  find-IsActive :
      (id : Text) (m : List (Text × Event r)) {ev : Event r}
      → Entries (IsActive r now) m
      → find r id m ≡ some ev
      → IsActive r now ev.raised.tag ev × (ev.raised.id ≡ id)
  unfolding find
  find-IsActive id [] h e = absurd (cc)
  find-IsActive id ((k, w) ∷ m) {ev} h e = elim (Bool-cases (text_eq w.raised.id id)) [
    | inl q ↦
        let s : some w ≡ some ev = (rw q at e) in
        let u : w ≡ ev = cc in
        let a = h.0 in
        rw (← u) (
          record { tagged = refl; live = a.live; shelf = a.shelf },
          (text_eq_iff w.raised.id id).0 q,
        )
    | inr q ↦ find-IsActive id m h.1 (rw q at e)
  ]

  -- An acknowledgement, at whatever instant, keeps the engine well-formed.
  ack-IsValid :
      (id user : Text) (at : ℕ) (e : Engine r)
      → IsValid r now e
      → IsValid r now (ack r id user at e).0
  unfolding ack
  ack-IsValid id user at e i = go (find r id e.active) refl
    where
      go :
          (o : Option (Event r))
          → find r id e.active ≡ o
          → IsValid r now (record e { active = (ack_found r user at o e.active).0 })
      go none q = record { unique = i.unique; active = i.active; bounded = i.bounded }
      go (some ev) q = elim (Bool-cases (is_unack_cleared ev.state)) [
        | inl c ↦ rw c (record {
          unique = remove-UniqueKeys ev.raised.tag e.active i.unique;
          active = remove-Entries (IsActive r now) ev.raised.tag e.active i.active;
          bounded = i.bounded;
        })
        | inr c ↦ rw c (record {
          unique = insert-UniqueKeys ev.raised.tag _ e.active i.unique;
          active =
              insert-Entries (IsActive r now) ev.raised.tag _ e.active
                (record { tagged = refl; live = refl; shelf = tt }) i.active;
          bounded = i.bounded;
        })
      ]

  shelve-IsValid :
      (id user : Text) (d at : ℕ) (e : Engine r)
      → at ≤ now
      → IsValid r now e
      → IsValid r now (shelve r id user d at e).0
  unfolding shelve
  shelve-IsValid id user d at e h i = go (find r id e.active)
    where
      go :
          (o : Option (Event r))
          → IsValid r now (record e { active = (shelve_found r user d at o e.active).0 })
      go none = record { unique = i.unique; active = i.active; bounded = i.bounded }
      go (some ev) = record {
        unique = insert-UniqueKeys ev.raised.tag _ e.active i.unique;
        active =
            insert-Entries (IsActive r now) ev.raised.tag _ e.active
              (record { tagged = refl; live = refl; shelf = omega (arith, capped-le d, h) })
              i.active;
        bounded = i.bounded;
      }

  -- A shelving of the sequence happens by `now`.
  abbrev pub IsBy : Call r → Type 0
  IsBy (shelving id user d at) = at ≤ now
  IsBy _ = Unit

  module _ (t : Runtime r) (meta : Text → Option (Meta r)) where
    call-IsValid :
        (c : Call r) (e : Engine r) → IsBy c → IsValid r now e → IsValid r now (call r t meta c e)
    unfolding call suppress
    call-IsValid (evaluating vs at) e b i = evaluate-IsValid r t now meta vs at e i
    call-IsValid (acking id user at) e b i = ack-IsValid id user at e i
    call-IsValid (shelving id user d at) e b i = shelve-IsValid id user d at e b i
    call-IsValid (suppressing k on) e b i = record {
      unique = i.unique;
      active = i.active;
      bounded = i.bounded;
    }

    -- After any sequence of calls, whose shelvings happen by `now`, from a well-formed engine: each
    -- tag has one active alarm at most, which stands under its tag and is not in the normal state;
    -- each shelved alarm has an instant of expiry, eight hours past `now` at the latest, however
    -- long a time was asked for; and the history has 5000 entries at most.
    pub run-IsValid :
        (cs : List (Call r)) (e : Engine r)
        → All IsBy cs
        → IsValid r now e
        → IsValid r now (run r t meta cs e)
    unfolding run
    run-IsValid [] e b i = i
    run-IsValid (c ∷ cs) e b i = run-IsValid cs (call r t meta c e) b.1 (call-IsValid c e b.0 i)

  pub new_engine-IsValid : IsValid r now (new_engine r)
  unfolding new_engine
  new_engine-IsValid = record { unique = tt; active = tt; bounded = omega arith }

module _ (r : Number) (t : Runtime r) where
  -- The alarm is not on a shelf whose time has come.
  abbrev pub NotOverdue : ℕ → Text → Event r → Type 0
  NotOverdue at k ev = (is_shelved ev.state && is_due at ev.shelf_expires_at) ≡ false

  expire-NotOverdue :
      (at : ℕ) (m : List (Text × Event r)) → Entries (NotOverdue at) (map_values (expire r t at) m)
  unfolding map_values expire
  expire-NotOverdue at [] = tt
  expire-NotOverdue at ((k, ev) ∷ m) = (ground arith, expire-NotOverdue at m)

  -- After a batch that ends at the instant `at` no alarm is on a shelf whose time has come by then,
  -- whatever the values of the batch were, none included.
  pub evaluate-NotOverdue :
      (meta : Text → Option (Meta r)) (vs : List (Sample r × ℕ)) (at : ℕ) (e : Engine r)
      → Entries (NotOverdue at) (evaluate r t meta vs at e).0.active
  unfolding evaluate expire_shelves
  evaluate-NotOverdue meta vs at e = expire-NotOverdue at (evaluate_all r t meta vs e).0.active
