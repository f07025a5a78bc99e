-- ===== src/Gateway/Current.antt =====
-- The state of the gateway after any requests to its batch endpoint.
use project_sh_fms.Prelude.{
  ℕ, ◌+◌, ◌≡◌, refl, sym, ap, ◌∙◌, true, List, [], ◌∷◌, ◌++◌, append_assoc, append-nil, Option,
  none, some, Text, if◌then◌else◌, text_eq, length, length-append, ◌==◌, arith, Bool-cases, inl,
  inr, select,
}
use project_sh_fms.Number.{Number}
use project_sh_fms.Engine.{Runtime, Sample, Meta}
use project_sh_fms.Engine.Store.{lookup, insert}
use project_sh_fms.Engine.Store.Laws.{lookup-insert}
use project_sh_fms.Historian.{query, thin_out, is_within}
use project_sh_fms.Historian.Refine.{points_of, Holds, nothing, newest, write-Holds}
use project_sh_fms.Historian.Query.{query_found-Holds}
use project_sh_fms.Gateway.{
  apply, set_values, Services, Request, samples_of, is_key, batch, run_batches, take_in,
  new_services,
}

module _ (r : Number) where
  -- The last of the values of a tag, or what there was before.
  abbrev pub last_from : Text → Option (Sample r) → List (Sample r) → Option (Sample r)
  last_from tag o [] = o
  last_from tag o (v ∷ vs) = last_from tag (if text_eq v.tag tag then some v else o) vs

  last_from-append :
      (tag : Text) (o : Option (Sample r)) (vs ws : List (Sample r))
      → last_from tag o (vs ++ ws) ≡ last_from tag (last_from tag o vs) ws
  last_from-append tag o [] ws = refl
  last_from-append tag o (v ∷ vs) ws =
      last_from-append tag (if text_eq v.tag tag then some v else o) vs ws

  lookup-set_values :
      (tag : Text) (vs : List (Sample r)) (s : List (Text × Sample r))
      → lookup tag (set_values r vs s) ≡ last_from tag (lookup tag s) vs
  lookup-set_values tag [] s = refl
  lookup-set_values tag (v ∷ vs) s =
      lookup-set_values tag vs (insert v.tag v s)
      ∙ ap (λ o. last_from tag o vs) (lookup-insert v.tag tag v s)

  -- What the accepted requests brought, in order.
  abbrev pub accepted : Text → List (Request r) → List (Sample r)
  accepted key [] = []
  accepted key (q ∷ qs) =
      let rest = accepted key qs in
      if is_key key q.given then samples_of r q.values ++ rest else rest

  -- The store and the historian have taken in the values of the list and no others.
  record Has (ws : List (Sample r)) (s : Services r) : Type 0 where
    values : (tag : Text) → lookup tag s.store.values ≡ last_from tag none ws
    series : (tag : Text) → Holds r (points_of r tag ws) (lookup tag s.series)
    received : s.store.received ≡ length ws

  module _ (t : Runtime r) (key : Text) where
    take_in-Has :
        (ws : List (Sample r)) (vs : List (Sample r × ℕ)) (now : ℕ) (s : Services r)
        → Has ws s
        → Has (ws ++ samples_of r vs) (take_in r t vs now s).0
    unfolding apply
    take_in-Has ws vs now s h = record {
      values = λ tag.
          lookup-set_values tag (samples_of r vs) s.store.values
          ∙ ap (λ o. last_from tag o (samples_of r vs)) (h.values tag)
          ∙ sym (last_from-append tag none ws (samples_of r vs));
      series = write-Holds r ws (samples_of r vs) s.series h.series;
      received =
          ap (λ n. n + length (samples_of r vs)) h.received
          ∙ sym (length-append ws (samples_of r vs));
    }

    no_samples : (vs : List (Sample r × ℕ)) → (length vs == 0) ≡ true → samples_of r vs ≡ []
    no_samples [] h = refl
    no_samples (v ∷ vs) h = absurd (ground arith)

    batch-Has :
        (ws : List (Sample r)) (q : Request r) (s : Services r)
        → Has ws s
        → Has (ws ++ accepted key (q ∷ [])) (batch r t key q s).0
    unfolding batch
    batch-Has ws q s h = elim (Bool-cases (is_key key q.given)) [
      | inr e ↦ rw (e, append-nil ws) h
      | inl e ↦ elim (Bool-cases (length q.values == 0)) [
        | inl n ↦ rw (e, n, no_samples q.values n, append-nil ws) h
        | inr n ↦ rw (e, n, append-nil (samples_of r q.values)) (take_in-Has ws q.values q.now s h)
      ]
    ]

    accepted-append :
        (q : Request r) (qs : List (Request r))
        → accepted key (q ∷ qs) ≡ accepted key (q ∷ []) ++ accepted key qs
    accepted-append q qs = elim (Bool-cases (is_key key q.given)) [
      | inl e ↦ rw (e, append-nil (samples_of r q.values)) refl
      | inr e ↦ rw e refl
    ]

    run-Has :
        (ws : List (Sample r)) (qs : List (Request r)) (s : Services r)
        → Has ws s
        → Has (ws ++ accepted key qs) (run_batches r t key qs s)
    unfolding run_batches
    run-Has ws [] s h = rw (append-nil ws) h
    run-Has ws (q ∷ qs) s h =
        rw (accepted-append q qs, ← append_assoc ws (accepted key (q ∷ [])) (accepted key qs))
          (run-Has (ws ++ accepted key (q ∷ [])) qs (batch r t key q s).0 (batch-Has ws q s h))

    -- After any requests to the batch endpoint of a gateway just started, with whatever keys, the
    -- current value of a tag is the last that an accepted request brought for it, a query answers with
    -- the tag's newest accepted points of the interval, thinned out, and the count of values received
    -- is the number of accepted ones: store and historian never drift apart.
    pub current-accepted :
        (to_int : r.Num → ℕ) (ms : List (Text × Meta r)) (qs : List (Request r)) (tag : Text)
        (from to points : ℕ)
        → let s =
            run_batches r t key qs
              (new_services r (record { values = []; meta = ms; received = 0 })) in
          (lookup tag s.store.values ≡ last_from tag none (accepted key qs))
          × (query r to_int tag from to points s.series
              ≡ thin_out r to_int points
                  (select (is_within r from to) (newest r (points_of r tag (accepted key qs)))))
          × (s.store.received ≡ length (accepted key qs))
    unfolding new_services lookup query
    current-accepted to_int ms qs tag from to points =
        let h =
          run-Has [] qs (new_services r (record { values = []; meta = ms; received = 0 }))
            (record { values = λ k. refl; series = λ k. nothing refl; received = refl }) in
        (h.values tag, query_found-Holds r to_int _ _ from to points (h.series tag), h.received)
