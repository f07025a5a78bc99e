-- ===== src/Gateway.antt =====
-- The gateway: src/SHFms.Server/Services/TagStore.cs, the newest value of each tag, and the handlers
-- of Program.cs that change its state or answer from it. What is pushed to the pages through the hub
-- is the list of messages.
pub mod Current
pub mod Answers
use project_sh_fms.Prelude.{
  ℕ, zero, suc, ◌+◌, ◌*◌, Bool, true, false, not, ◌&&◌, List, [], ◌∷◌, ◌++◌, Option, none, some,
  Text, if◌then◌else◌, text_eq, length, ◌==◌, select, codes, tally, map,
}
use project_sh_fms.Number.{Number}
use project_sh_fms.Engine.{Runtime, Sample, Meta, Raised, Event, Engine, same_folded}
use project_sh_fms.Engine.Classify.{Shade, state_of}
use project_sh_fms.Engine.Store.{lookup, insert, suppress}
use project_sh_fms.Engine.Evaluate.{evaluate}
use project_sh_fms.Engine.Operate.{ack, shelve, new_engine, ticks_per_hour}
use project_sh_fms.Historian.{RingBuffer, write}

module _ (r : Number) where
  -- TagStore
  pub record TagStore : Type 0 where
    pub values : List (Text × Sample r)
    pub meta : List (Text × Meta r)
    pub received : ℕ

  -- LoadMeta
  unfoldable pub load_meta : List (Meta r) → TagStore → TagStore
  load_meta [] s = s
  load_meta (m ∷ ms) s = load_meta ms (record s { meta = insert m.tag m s.meta })

  abbrev pub set_values : List (Sample r) → List (Text × Sample r) → List (Text × Sample r)
  set_values [] s = s
  set_values (v ∷ vs) s = set_values vs (insert v.tag v s)

  -- Apply
  unfoldable pub apply : List (Sample r) → TagStore → TagStore
  apply vs s = record s { values = set_values vs s.values; received = s.received + length vs }

  -- TagSnapshot
  pub record TagSnapshot : Type 0 where
    pub tag : Text
    pub desc : Text
    pub unit : Text
    pub value : r.Num
    pub quality : Text
    pub ts : ℕ
    pub state : Shade

  abbrev pub desc_of : Option (Meta r) → Text
  desc_of none = []
  desc_of (some m) = m.desc

  abbrev pub unit_text : Option (Meta r) → Text
  unit_text none = []
  unit_text (some m) = m.unit

  module _ (t : Runtime r) where
    abbrev pub snapshot_of : Sample r → Option (Meta r) → TagSnapshot
    snapshot_of v m = record {
      tag = v.tag;
      desc = desc_of m;
      unit = unit_text m;
      value = v.value;
      quality = v.quality;
      ts = v.ts;
      state = state_of r t v m;
    }

    abbrev pub snapshot_found : Option (Sample r) → TagStore → Option TagSnapshot
    snapshot_found none s = none
    snapshot_found (some v) s = some (snapshot_of v (lookup v.tag s.meta))

    -- Snapshot. The value of a tag stands under the tag's own name.
    unfoldable pub snapshot : Text → TagStore → Option TagSnapshot
    snapshot tag s = snapshot_found (lookup tag s.values) s

    -- `area is not null && !string.Equals(m?.Area, area, …)` keeps these.
    abbrev pub is_of_area : Option Text → Option (Meta r) → Bool
    is_of_area none m = true
    is_of_area (some area) none = false
    is_of_area (some area) (some m) = same_folded t.fold m.area area

    -- All
    unfoldable pub all_of : Option Text → TagStore → List (Text × Sample r) → List TagSnapshot
    all_of area s [] = []
    all_of area s ((k, v) ∷ vs) =
        let rest = all_of area s vs in
        let m = lookup k s.meta in if is_of_area area m then snapshot_of v m ∷ rest else rest

-- What the hub sends to every page.
pub data Message (r : Number) : Type 0 where
  tags : List (Sample r) → Message r
  alarms : List (Raised r) → Message r
  alarm_ack : Text → Text → Message r
  alarm_shelve : Text → Text → ℕ → Message r

-- What a handler answers, with the numbers of the answer to a batch.
pub data Answer : Type 0 where
  unauthorized bad_request not_found : Answer
  received : ℕ → ℕ → Answer
  acked : Text → Answer
  shelved_until : Text → ℕ → Answer
  suppressed : Text → Bool → Answer

-- The services of the process.
pub record Services (r : Number) : Type 0 where
  pub store : TagStore r
  pub engine : Engine r
  pub series : List (Text × RingBuffer r)

-- `string.IsNullOrWhiteSpace`, with the runtime's test of white space.
abbrev pub is_white : (ℕ → Bool) → Text → Bool
is_white space [] = true
is_white space (c ∷ s) = space c && is_white space s

-- `req.Headers["X-Api-Key"] != apiKey` is the negation: a request without the header has no key.
abbrev pub is_key : Text → Option Text → Bool
is_key key none = false
is_key key (some k) = text_eq k key

-- A call of the batch endpoint: the header's key, the values with the instants at which the engine
-- takes them, and the instant at which it ends.
pub record Request (r : Number) : Type 0 where
  pub given : Option Text
  pub values : List (Sample r × ℕ)
  pub now : ℕ

abbrev pub samples_of : (r : Number) → List (Sample r × ℕ) → List (Sample r)
samples_of r [] = []
samples_of r ((v, at) ∷ vs) = v ∷ samples_of r vs

module _ (r : Number) (t : Runtime r) where
  abbrev pub fired_messages : List (Raised r) → List (Message r)
  fired_messages [] = []
  fired_messages (a ∷ as') = alarms (a ∷ as') ∷ []

  -- A batch that is let in and not empty, each value with the instant at which the engine takes it.
  abbrev pub take_in : List (Sample r × ℕ) → ℕ → Services r → Services r × List (Message r) × Answer
  take_in vs now s =
      let samples = samples_of r vs in
      let store = apply r samples s.store in
      let series = write r samples s.series in
      let (engine, fired) = evaluate r t (λ k. lookup k store.meta) vs now s.engine in
      (
        record { store = store; engine = engine; series = series },
        tags samples ∷ fired_messages fired,
        received (length samples) (length fired),
      )

  -- The handler of `/api/v1/tags/batch`. The answer to an empty batch has no count of alarms.
  unfoldable pub batch : Text → Request r → Services r → Services r × List (Message r) × Answer
  batch key q s =
      if not (is_key key q.given)
      then (s, [], unauthorized)
      else if length q.values == 0
      then (s, [], received 0 0)
      else take_in q.values q.now s

  unfoldable pub run_batches : Text → List (Request r) → Services r → Services r
  run_batches key [] s = s
  run_batches key (q ∷ qs) s = run_batches key qs (batch key q s).0

abbrev pub ticks_per_minute : ℕ
ticks_per_minute = 600_000_000

-- `body.Minutes <= 0 ? 120 : body.Minutes`, where 0 stands for the negative numbers too.
abbrev pub minutes_or : ℕ → ℕ
minutes_or m = if m == 0 then 120 else m

module _ (r : Number) where
  unfoldable pub new_services : TagStore r → Services r
  new_services store = record { store = store; engine = new_engine r; series = [] }

  abbrev pub ack_done :
      Text → Text → Services r → Engine r × Bool → Services r × List (Message r) × Answer
  ack_done id user s (e, false) = (record s { engine = e }, [], not_found)
  ack_done id user s (e, true) = (record s { engine = e }, alarm_ack id user ∷ [], acked id)

  -- The handler of `/api/v1/alarms/{id}/ack`.
  unfoldable pub ack_alarm :
      (ℕ → Bool) → Text → Text → ℕ → Services r → Services r × List (Message r) × Answer
  ack_alarm space id user now s =
      if is_white space user
      then (s, [], bad_request)
      else ack_done id user s (ack r id user now s.engine)

  abbrev pub shelve_done :
      Text → Text → ℕ → ℕ → Services r → Engine r × Bool → Services r × List (Message r) × Answer
  shelve_done id user minutes later s (e, false) = (record s { engine = e }, [], not_found)
  shelve_done id user minutes later s (e, true) = (
    record s { engine = e },
    alarm_shelve id user minutes ∷ [],
    shelved_until id (later + minutes * ticks_per_minute),
  )

  -- The handler of `/api/v1/alarms/{id}/shelve`, which reads the clock again for its answer.
  unfoldable pub shelve_alarm :
      (ℕ → Bool) → Text → Text → ℕ → ℕ → ℕ → Services r → Services r × List (Message r) × Answer
  shelve_alarm space id user minutes now later s =
      if is_white space user
      then (s, [], bad_request)
      else shelve_done id user (minutes_or minutes) later s
          (shelve r id user (minutes_or minutes * ticks_per_minute) now s.engine)

  -- The handler of `/api/v1/alarms/suppress`.
  unfoldable pub suppress_key :
      Runtime r → Text → Bool → Services r → Services r × List (Message r) × Answer
  suppress_key t k on s = (record s { engine = suppress r t k on s.engine }, [], suppressed k on)
