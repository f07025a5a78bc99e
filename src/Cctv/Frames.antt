-- ===== src/Cctv/Frames.antt =====
-- The frames of the viewer.
use Prim.Native.Nat.{◌<◌, ◌≤◌}
use project_sh_fms.Prelude.{
  ℕ, zero, suc, ◌+◌, ◌≡◌, ◌≢◌, refl, ap, ◌∙◌, Bool, true, false, not, ◌||◌, List, [], ◌∷◌, ◌++◌,
  length, ◌==◌, if◌then◌else◌, select, All, arith, Bool-cases, and-parts, inl, inr,
}
use project_sh_fms.Number.{Number}
use project_sh_fms.Mock.Cameras.{Camera}
use project_sh_fms.Cctv.{
  View, Viewer, new_viewer, attach, clear, is_connected, is_held, drawn, called, loop, Happening,
  attaching, clearing, framing, happen, happen_all, canvas_of, appended, emptied, scene_in, scenes,
}

module _ (r : Number) where
  -- A camera is attached among what happens.
  abbrev pub attaches : List (Happening r) → Bool
  attaches [] = false
  attaches (attaching host width cam ∷ hs) = true
  attaches (_ ∷ hs) = attaches hs

  -- One call of `loop` is asked for, or none if no camera has been attached so far.
  abbrev pub InStep : Viewer r → Type 0
  InStep v = v.pending ≡ (if v.running then 1 else 0)

  called-InStep :
      (n : ℕ) (in_page : ℕ → Bool) (v : Viewer r)
      → v.pending ≡ n
      → InStep v
      → InStep (called r n in_page v).0 × ((called r n in_page v).0.running ≡ v.running)
  called-InStep zero in_page v e i = (i, refl)
  called-InStep (suc n) in_page v e i = (omega (arith, e, i), refl)

  happen_all-InStep :
      (hs : List (Happening r)) (v : Viewer r)
      → InStep v
      → let w = happen_all r hs v in InStep w × (w.running ≡ (v.running || attaches hs))
  unfolding happen happen_all attach clear loop
  happen_all-InStep [] v i = (i, ground arith)
  happen_all-InStep (attaching host width cam ∷ hs) v i =
      let (j, e) = happen_all-InStep hs (attach r host width cam v) (ground arith) in
      (j, ground arith)
  happen_all-InStep (clearing ∷ hs) v i = happen_all-InStep hs (clear r v) i
  happen_all-InStep (framing in_page ∷ hs) v i =
      let (j, q) = called-InStep v.pending in_page v refl i in
      let (k, e) = happen_all-InStep hs (called r v.pending in_page v).0 j in
      (k, e ∙ ap (λ b. b || attaches hs) q)

  -- Through whatever happens to a viewer just made, one call of the loop is asked for if a camera
  -- has been attached and none else, so the views are drawn once a frame however many there are;
  -- clearing does not stop the loop.
  pub one_loop :
      (hs : List (Happening r))
      → (happen_all r hs (new_viewer r)).pending ≡ (if attaches hs then 1 else 0)
  unfolding new_viewer
  one_loop hs =
      let (i, e) = happen_all-InStep hs (new_viewer r) refl in
      i ∙ ap {B = ℕ} (λ b. if b then 1 else 0) e

  -- No other canvas of the list has the number of this one.
  abbrev pub Other : View r → View r → Type 0
  Other v w = w.canvas.number ≢ v.canvas.number

  -- The numbers of the canvases are pairwise different.
  abbrev pub Apart : List (View r) → Type 0
  Apart [] = Unit
  Apart (v ∷ vs) = All (Other v) vs × Apart vs

  -- The containers of the views are pairwise different.
  abbrev pub HostsApart : List (View r) → Type 0
  HostsApart [] = Unit
  HostsApart (v ∷ vs) = All (λ w. w.canvas.host ≢ v.canvas.host) vs × HostsApart vs

  -- The canvases of the views are among those made, and are different; a container holds one at most.
  record IsMade (v : Viewer r) : Type 0 where
    made : All (λ w. w.canvas.number < v.made) v.views
    apart : Apart v.views
    sole : (h : ℕ) → length (v.shown h) ≤ 1

  -- A container that is emptied first holds one canvas after one is appended.
  emptied-sole :
      (host number : ℕ) (shown : ℕ → List ℕ)
      → ((h : ℕ) → length (shown h) ≤ 1)
      → (h : ℕ) → length (appended r host number (emptied r host shown) h) ≤ 1
  unfolding emptied appended
  emptied-sole host number shown s h = elim (Bool-cases (h == host)) [
    | inl e ↦ rw e (omega arith)
    | inr e ↦ rw e (s h)
  ]

  made_later :
      (n : ℕ) (vs : List (View r))
      → All (λ w. w.canvas.number < n) vs
      → All (λ w. w.canvas.number < n + 1) vs
  made_later n [] h = tt
  made_later n (v ∷ vs) h = (omega (arith, h.0), made_later n vs h.1)

  append-All :
      (P : View r → Type 0) (vs : List (View r)) (w : View r)
      → All P vs
      → P w
      → All P (vs ++ w ∷ [])
  append-All P [] w h p = (p, tt)
  append-All P (v ∷ vs) w h p = (h.0, append-All P vs w h.1 p)

  append-Apart :
      (vs : List (View r)) (w : View r)
      → All (λ v. v.canvas.number < w.canvas.number) vs
      → Apart vs
      → Apart (vs ++ w ∷ [])
  append-Apart [] w h a = (tt, tt)
  append-Apart (v ∷ vs) w h a =
      (append-All (Other v) vs w a.0 (λ q. omega (arith, q, h.0)), append-Apart vs w h.1 a.1)

  happen_all-IsMade :
      (hs : List (Happening r)) (v : Viewer r) → IsMade v → IsMade (happen_all r hs v)
  unfolding happen happen_all attach clear loop
  happen_all-IsMade [] v i = i
  happen_all-IsMade (attaching host width cam ∷ hs) v i =
      happen_all-IsMade hs (attach r host width cam v) (record {
        made = append-All _ v.views _ (made_later v.made v.views i.made) (omega arith);
        apart = append-Apart v.views _ i.made i.apart;
        sole = emptied-sole host v.made v.shown i.sole;
      })
  happen_all-IsMade (clearing ∷ hs) v i =
      happen_all-IsMade hs (clear r v) (record { made = tt; apart = tt; sole = i.sole })
  happen_all-IsMade (framing in_page ∷ hs) v i =
      happen_all-IsMade hs (called r v.pending in_page v).0 (go v.pending)
    where
      go : (n : ℕ) → IsMade (called r n in_page v).0
      go zero = i
      go (suc n) = record { made = i.made; apart = i.apart; sole = i.sole }

  held_eq :
      (xs : List ℕ) (m n : ℕ)
      → length xs ≤ 1
      → is_held r xs m ≡ true
      → is_held r xs n ≡ true
      → n ≡ m
  held_eq [] m n l h k = absurd (cc)
  held_eq (x ∷ []) m n l h k = ground (arith, h, k)
  held_eq (x ∷ y ∷ ys) m n l h k = absurd (omega (arith, l))

  -- Two connected canvases of one container are one.
  same_host :
      (in_page : ℕ → Bool) (shown : ℕ → List ℕ) (v w : View r)
      → ((x : ℕ) → length (shown x) ≤ 1)
      → is_connected r in_page shown v ≡ true
      → is_connected r in_page shown w ≡ true
      → w.canvas.host ≡ v.canvas.host
      → w.canvas.number ≡ v.canvas.number
  same_host in_page shown v w s h k e =
      let (a, b) = and-parts (in_page v.canvas.host) _ h in
      let (c, d) = and-parts (in_page w.canvas.host) _ k in
      held_eq (shown v.canvas.host) v.canvas.number w.canvas.number (s v.canvas.host) b (rw e at d)

  select-All :
      (p : View r → Bool) (P Q : View r → Type 0) (vs : List (View r))
      → ((w : View r) → p w ≡ true → Q w → P w)
      → All Q vs
      → All P (select p vs)
  select-All p P Q [] f h = tt
  select-All p P Q (v ∷ vs) f h = elim (Bool-cases (p v)) [
    | inl e ↦ rw e (f v e h.0, select-All p P Q vs f h.1)
    | inr e ↦ rw e (select-All p P Q vs f h.1)
  ]

  connected-HostsApart :
      (in_page : ℕ → Bool) (shown : ℕ → List ℕ) (vs : List (View r))
      → ((x : ℕ) → length (shown x) ≤ 1)
      → Apart vs
      → HostsApart (select (is_connected r in_page shown) vs)
  connected-HostsApart in_page shown [] s a = tt
  connected-HostsApart in_page shown (v ∷ vs) s a =
      elim (Bool-cases (is_connected r in_page shown v)) [
        | inl e ↦ rw e (
          select-All (is_connected r in_page shown) (λ w. w.canvas.host ≢ v.canvas.host) (Other v)
              vs (λ w k o q. o (same_host in_page shown v w s e k q)) a.0,
          connected-HostsApart in_page shown vs s a.1,
        )
        | inr e ↦ rw e (connected-HostsApart in_page shown vs s a.1)
      ]

  -- Through whatever happens to a viewer just made, and whichever containers are in the page, a
  -- frame draws one canvas of a container at most, though views of replaced canvases are kept.
  pub drawn-HostsApart :
      (hs : List (Happening r)) (in_page : ℕ → Bool)
      → HostsApart (drawn r in_page (happen_all r hs (new_viewer r)))
  unfolding drawn new_viewer
  drawn-HostsApart hs in_page =
      let v : Viewer r = happen_all r hs (new_viewer r) in
      let i : IsMade v =
        happen_all-IsMade hs (new_viewer r)
          (record { made = tt; apart = tt; sole = λ x. omega arith }) in
      connected-HostsApart in_page v.shown v.views i.sole i.apart

  select_last :
      (p : View r → Bool) (vs : List (View r)) (w : View r)
      → p w ≡ true
      → select p (vs ++ w ∷ []) ≡ select p vs ++ w ∷ []
  select_last p [] w h = rw h refl
  select_last p (v ∷ vs) w h = elim (Bool-cases (p v)) [
    | inl e ↦ rw (e, select_last p vs w h) refl
    | inr e ↦ rw (e, select_last p vs w h) refl
  ]

  called_once :
      (n : ℕ) (in_page : ℕ → Bool) (v : Viewer r)
      → n ≡ 1
      → (called r n in_page v).1 ≡ drawn r in_page v
  called_once zero in_page v e = absurd (omega (arith, e))
  called_once (suc n) in_page v e = refl

  -- Whatever has happened before, once a camera is attached to a container of the page, the next
  -- frame draws it last, on a canvas of that container, in the scene of its id.
  pub attached_drawn :
      (hs : List (Happening r)) (host : ℕ) (width : r.Num) (cam : Camera) (in_page : ℕ → Bool)
      → in_page host ≡ true
      → let v = happen_all r hs (new_viewer r) in
        (vs : List (View r)) × ((loop r in_page (attach r host width cam v)).1
          ≡ vs
            ++ record {
              canvas = canvas_of r v.made host width;
              cam = cam;
              scene = scene_in r cam.id (scenes r);
            }
              ∷ [])
  unfolding loop attach drawn emptied appended
  attached_drawn hs host width cam in_page h =
      let v : Viewer r = happen_all r hs (new_viewer r) in
      let (i, e) = happen_all-InStep hs (new_viewer r) (unfold new_viewer in refl) in
      let one : (if not v.running then v.pending + 1 else v.pending) ≡ 1 = ground (arith, i) in
      (
        select (is_connected r in_page (appended r host v.made (emptied r host v.shown))) v.views,
        called_once _ in_page _ one ∙ select_last _ v.views _ (ground (arith, h)),
      )
