-- ===== src/Gateway/Answers.antt =====
-- The answers of the gateway's handlers.
use Prim.Native.Nat.{◌<◌}
use project_sh_fms.Prelude.{
  ℕ, ◌+◌, ◌*◌, ◌≡◌, refl, ap, ◌∙◌, Bool, true, false, List, [], Option, none, some, Text,
  if◌then◌else◌, text_eq_refl, length, ◌==◌, ltb, arith, Bool-cases, inl, inr,
}
use project_sh_fms.Number.{Number}
use project_sh_fms.Engine.{Runtime, Event}
use project_sh_fms.Engine.Store.{lookup}
use project_sh_fms.Engine.Store.Laws.{lookup-insert}
use project_sh_fms.Engine.Operate.{
  ack, ack_found, shelve, shelve_found, find, capped, ticks_per_hour, is_unack_cleared,
}
use project_sh_fms.Gateway.{
  Services, Request, is_key, batch, Message, Answer, unauthorized, bad_request, not_found,
  shelved_until, is_white, ack_alarm, ack_done, shelve_alarm, shelve_done, minutes_or, suppress_key,
  ticks_per_minute,
}

-- A call of one of the handlers that change state.
pub data Posted (r : Number) : Type 0 where
  posted_batch : Request r → Posted r
  posted_ack : Text → Text → ℕ → Posted r
  posted_shelve : Text → Text → ℕ → ℕ → ℕ → Posted r
  posted_suppress : Text → Bool → Posted r

-- The status of the answer is 400 or above.
abbrev pub is_error : Answer → Bool
is_error unauthorized = true
is_error bad_request = true
is_error not_found = true
is_error _ = false

module _ (r : Number) (t : Runtime r) (key : Text) (space : ℕ → Bool) where
  unfoldable pub handle : Posted r → Services r → Services r × List (Message r) × Answer
  handle (posted_batch q) s = batch r t key q s
  handle (posted_ack id user now) s = ack_alarm r space id user now s
  handle (posted_shelve id user minutes now later) s =
      shelve_alarm r space id user minutes now later s
  handle (posted_suppress k on) s = suppress_key r t k on s

  -- The services are as they were, and the pages are sent nothing.
  abbrev pub Untouched : Services r → Services r × List (Message r) × Answer → Type 0
  Untouched s x = (x.0 ≡ s) × (x.1 ≡ [])

  batch-Untouched :
      (q : Request r) (s : Services r)
      → is_error (batch r t key q s).2 ≡ true
      → Untouched s (batch r t key q s)
  unfolding batch
  batch-Untouched q s h = elim (Bool-cases (is_key key q.given)) [
    | inr e ↦ rw e (refl, refl)
    | inl e ↦ elim (Bool-cases (length q.values == 0)) [
      | inl n ↦ rw (e, n) (refl, refl)
      | inr n ↦ absurd (let k : false ≡ true = (rw (e, n) at h) in cc)
    ]
  ]

  ack_alarm-Untouched :
      (id user : Text) (now : ℕ) (s : Services r)
      → is_error (ack_alarm r space id user now s).2 ≡ true
      → Untouched s (ack_alarm r space id user now s)
  unfolding ack_alarm ack
  ack_alarm-Untouched id user now s h = elim (Bool-cases (is_white space user)) [
    | inl e ↦ rw e (refl, refl)
    | inr e ↦ rw e (go (find r id s.engine.active) (rw e at h))
  ]
    where
      after : Option (Event r) → Services r × List (Message r) × Answer
      after o =
          let (act, done) = ack_found r user now o s.engine.active in
          ack_done r id user s (record s.engine { active = act }, done)

      go : (o : Option (Event r)) → is_error (after o).2 ≡ true → Untouched s (after o)
      go none h = (refl, refl)
      go (some ev) h = elim (Bool-cases (is_unack_cleared ev.state)) [
        | inl c ↦ absurd (let k : false ≡ true = (rw c at h) in cc)
        | inr c ↦ absurd (let k : false ≡ true = (rw c at h) in cc)
      ]

  shelve_alarm-Untouched :
      (id user : Text) (minutes now later : ℕ) (s : Services r)
      → is_error (shelve_alarm r space id user minutes now later s).2 ≡ true
      → Untouched s (shelve_alarm r space id user minutes now later s)
  unfolding shelve_alarm shelve
  shelve_alarm-Untouched id user minutes now later s h = elim (Bool-cases (is_white space user)) [
    | inl e ↦ rw e (refl, refl)
    | inr e ↦ rw e (go (find r id s.engine.active) (rw e at h))
  ]
    where
      after : Option (Event r) → Services r × List (Message r) × Answer
      after o =
          let (act, done) =
            shelve_found r user (minutes_or minutes * ticks_per_minute) now o s.engine.active in
          shelve_done r id user (minutes_or minutes) later s
            (record s.engine { active = act }, done)

      go : (o : Option (Event r)) → is_error (after o).2 ≡ true → Untouched s (after o)
      go none h = (refl, refl)
      go (some ev) h = cc

  -- A request that is answered with an error, be it for a wrong key, for a missing user or for an
  -- alarm that is not active, changes nothing of the services and sends nothing to the pages.
  pub error-Untouched :
      (c : Posted r) (s : Services r) → is_error (handle c s).2 ≡ true → Untouched s (handle c s)
  unfolding handle suppress_key
  error-Untouched (posted_batch q) s h = batch-Untouched q s h
  error-Untouched (posted_ack id user now) s h = ack_alarm-Untouched id user now s h
  error-Untouched (posted_shelve id user minutes now later) s h =
      shelve_alarm-Untouched id user minutes now later s h
  error-Untouched (posted_suppress k on) s h = cc

-- The instant at which the shelf of a tag's alarm expires.
abbrev pub expiry : {r : Number} → Option (Event r) → Option ℕ
expiry none = none
expiry (some ev) = ev.shelf_expires_at

module _ (r : Number) (space : ℕ → Bool) where
  -- A shelving for more than eight hours of an active alarm is answered with an instant that lies
  -- past the one at which the engine lets the shelf expire, by all that was asked beyond the eight.
  pub shelve_overstates :
      (id user : Text) (minutes now later : ℕ) (ev : Event r) (s : Services r)
      → is_white space user ≡ false
      → find r id s.engine.active ≡ some ev
      → 480 < minutes
      → let (after, sent, answer) = shelve_alarm r space id user minutes now later s in
        (answer ≡ shelved_until id (later + minutes * ticks_per_minute))
        × (expiry (lookup ev.raised.tag after.engine.active) ≡ some (now + 480 * ticks_per_minute))
  unfolding shelve_alarm shelve capped
  shelve_overstates id user minutes now later ev s w f m =
      let long : minutes_or minutes ≡ minutes = ground (arith, m) in
      let cut : (if ltb (8 * ticks_per_hour) (minutes * ticks_per_minute)
            then 8 * ticks_per_hour
            else minutes * ticks_per_minute)
          ≡ 480 * ticks_per_minute =
        ground (arith, m) in
      rw (w, f, long)
        (
          refl,
          ap expiry (lookup-insert ev.raised.tag ev.raised.tag _ s.engine.active)
              ∙ rw (text_eq_refl ev.raised.tag) (ap (λ n. some (now + n)) cut),
        )
