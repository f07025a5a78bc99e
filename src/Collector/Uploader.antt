-- ===== src/Collector/Uploader.antt =====
-- src/collector/src/uploader.cpp: the queue of values that wait for the gateway. Whether a post is
-- confirmed is an input.
pub mod Backlog
use project_sh_fms.Prelude.{
  ℕ, zero, suc, ◌+◌, Bool, true, false, List, [], ◌∷◌, ◌++◌, if◌then◌else◌, length, take, drop,
}
use project_sh_fms.Engine.Store.{shrink}

-- max_queue_
abbrev pub max_queue : ℕ
max_queue = 50000

abbrev pub chunk : ℕ
chunk = 500

module _ {ℓ} {A : Type ℓ} where
  abbrev pub is_empty : List A → Bool
  is_empty [] = true
  is_empty (x ∷ xs) = false

module _ {ℓ} (A : Type ℓ) where
  -- Uploader, with the values that the gateway has confirmed, in order.
  pub record Uploader : Type ℓ where
    pub queue : List A
    pub sent : ℕ
    pub fails : ℕ
    pub confirmed : List A

  unfoldable pub new_uploader : Uploader
  new_uploader = record { queue = []; sent = 0; fails = 0; confirmed = [] }

  -- The end of flush, with the queue bounded: what was taken out of it for a post that failed is put
  -- back in front.
  abbrev pub posted : Bool → List A → Uploader → Uploader × Bool
  posted true queue u = (
    record u {
      queue = drop chunk queue;
      sent = u.sent + length (take chunk queue);
      confirmed = u.confirmed ++ take chunk queue;
    },
    true,
  )
  posted false queue u =
      (record u { queue = take chunk queue ++ drop chunk queue; fails = u.fails + 1 }, false)

  -- flush
  unfoldable pub flush : Bool → List A → Uploader → Uploader × Bool
  flush ok values u =
      let queue = shrink max_queue (u.queue ++ values) in
      if is_empty queue then (record u { queue = queue }, true) else posted ok queue u

  -- The part of the main loop that uploads: nothing is flushed in a cycle without changes.
  unfoldable pub upload : Bool → List A → Uploader → Uploader
  upload ok changed u = if is_empty changed then u else (flush ok changed u).0

  unfoldable pub cycles : List (Bool × List A) → Uploader → Uploader
  cycles [] u = u
  cycles ((ok, changed) ∷ cs) u = cycles cs (upload ok changed u)
