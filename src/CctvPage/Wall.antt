-- ===== src/CctvPage/Wall.antt =====
-- What the wall of app/cctv.html shows after it is drawn.
use Prim.Native.Nat.{◌≤◌, ◌<◌}
use project_sh_fms.Prelude.{
  ℕ, suc, ◌+◌, ◌≡◌, refl, sym, subst, ap, ◌-◌, ◌∙◌, Bool, true, false, not, ◌&&◌, List, [], ◌∷◌,
  ◌++◌, append_assoc, append-nil, some, Text, ltb, ◌==◌, text_eq, text_eq_refl, select, take,
  length, map, Memᴰ, All, arith, Bool-cases, and-parts, inl, inr,
}
use project_sh_fms.Number.{Number}
use project_sh_fms.Mock.Cameras.{Camera, cams}
use project_sh_fms.Cctv.{
  View, Viewer, attach, clear, drawn, emptied, appended, is_connected, canvas_of, scene_in, scenes,
}
use project_sh_fms.CctvPage.{
  areas, analyses, is_listed, filtered, has_id, or_first, shown, tiles_from, feed, Page, attach_all,
  draw_wall,
}
use project_sh_fms.CctvPage.Ids.{
  is_fresh, are_unique, select-are_unique, take-are_unique, cams-are_unique,
}

length-tiles_from : (k : ℕ) (cs : List Camera) → length (tiles_from k cs) ≡ length cs
length-tiles_from k [] = refl
length-tiles_from k (c ∷ cs) = ap suc (length-tiles_from (k + 1) cs)

-- The containers of the tiles, found by the ids of the cameras.
abbrev Feeds : ℕ → List Camera → List (Text × ℕ) → Type 0
Feeds k [] ts = Unit
Feeds k (c ∷ cs) ts = (feed c.id ts ≡ some k) × Feeds (k + 1) cs ts

Feeds-later :
    (id : Text) (h k : ℕ) (cs : List Camera) (ts : List (Text × ℕ))
    → is_fresh id cs ≡ true
    → Feeds k cs ts
    → Feeds k cs ((id, h) ∷ ts)
Feeds-later id h k [] ts e f = tt
Feeds-later id h k (c ∷ cs) ts e f =
    let (a, b) = and-parts (not (text_eq id c.id)) (is_fresh id cs) e in
    (ground (arith, a, f.0), Feeds-later id h (k + 1) cs ts b f.1)

tiles_from-Feeds : (k : ℕ) (cs : List Camera) → are_unique cs ≡ true → Feeds k cs (tiles_from k cs)
tiles_from-Feeds k [] h = tt
tiles_from-Feeds k (c ∷ cs) h =
    let (a, b) = and-parts (is_fresh c.id cs) (are_unique cs) h in
    (
      rw (text_eq_refl c.id) refl,
      Feeds-later c.id k (k + 1) cs (tiles_from (k + 1) cs) a (tiles_from-Feeds (k + 1) cs b),
    )

module _ (r : Number) (width : ℕ → r.Num) where
  -- Cameras attached to the containers from `k` on.
  abbrev attach_from : ℕ → List Camera → Viewer r → Viewer r
  attach_from k [] v = v
  attach_from k (c ∷ cs) v = attach_from (k + 1) cs (attach r k (width k) c v)

  attach_all-from :
      (k : ℕ) (ts : List (Text × ℕ)) (cs : List Camera) (v : Viewer r)
      → Feeds k cs ts
      → attach_all r width ts cs (some v) ≡ some (attach_from k cs v)
  unfolding attach_all
  attach_all-from k ts [] v f = refl
  attach_all-from k ts (c ∷ cs) v f =
      rw (f.0) (attach_all-from (k + 1) ts cs (attach r k (width k) c v) f.1)

  -- The views that this makes, on canvases from `n` on.
  abbrev views_from : ℕ → ℕ → List Camera → List (View r)
  views_from k n [] = []
  views_from k n (c ∷ cs) =
      record { canvas = canvas_of r n k (width k); cam = c; scene = scene_in r c.id (scenes r) }
      ∷ views_from (k + 1) (n + 1) cs

  map-views_from : (k n : ℕ) (cs : List Camera) → map (λ v. v.cam) (views_from k n cs) ≡ cs
  map-views_from k n [] = refl
  map-views_from k n (c ∷ cs) = ap (λ xs. c ∷ xs) (map-views_from (k + 1) (n + 1) cs)

  views-attach_from :
      (k : ℕ) (cs : List Camera) (v : Viewer r)
      → (attach_from k cs v).views ≡ v.views ++ views_from k v.made cs
  unfolding attach
  views-attach_from k [] v = sym (append-nil v.views)
  views-attach_from k (c ∷ cs) v =
      views-attach_from (k + 1) cs (attach r k (width k) c v)
      ∙ append_assoc v.views _ (views_from (k + 1) (v.made + 1) cs)

  -- A container before the `k`th keeps its canvas.
  attach_from_below :
      (k h : ℕ) (cs : List Camera) (v : Viewer r) → h < k → (attach_from k cs v).shown h ≡ v.shown h
  unfolding attach emptied appended
  attach_from_below k h [] v l = refl
  attach_from_below k h (c ∷ cs) v l =
      let e : (h == k) ≡ false = ground (arith, l) in
      attach_from_below (k + 1) h cs (attach r k (width k) c v) (omega (arith, l)) ∙ rw e refl

  select-views_from :
      (in_page : ℕ → Bool) (k : ℕ) (cs : List Camera) (v : Viewer r)
      → ((h : ℕ) → k ≤ h → h < k + length cs → in_page h ≡ true)
      → select (is_connected r in_page (attach_from k cs v).shown) (views_from k v.made cs)
        ≡ views_from k v.made cs
  unfolding attach emptied appended
  select-views_from in_page k [] v f = refl
  select-views_from in_page k (c ∷ cs) v f =
      let v1 = attach r k (width k) c v in
      let own : (attach_from (k + 1) cs v1).shown k ≡ v.made ∷ [] =
        attach_from_below (k + 1) k cs v1 (omega arith) ∙ ground arith in
      let here : in_page k ≡ true = f k (omega arith) (omega arith) in
      let same : (v.made == v.made) ≡ true = ground arith in
      rw (own, here, same)
        (ap
          (λ xs.
            record {
              canvas = canvas_of r v.made k (width k);
              cam = c;
              scene = scene_in r c.id (scenes r);
            }
            ∷ xs)
          (select-views_from in_page (k + 1) cs v1
            (λ h l u. f h (omega (arith, l)) (omega (arith, u)))))

-- The list of the page is not empty, whatever its selects say.
abbrev pub is_nil : List Camera → Bool
is_nil [] = true
is_nil (c ∷ cs) = false

filtered_offered : All (λ area. All (λ ai. is_nil (filtered area ai) ≡ false) analyses) areas
unfolding filtered text_eq
filtered_offered = (
  (refl, (refl, tt)),
  (
    (refl, (refl, tt)),
    (
      (refl, (refl, tt)),
      ((refl, (refl, tt)), ((refl, (refl, tt)), ((refl, (refl, tt)), ((refl, (refl, tt)), tt)))),
    ),
  ),
)

shown_some :
    (n : ℕ) (sel : Text) (list : List Camera)
    → is_nil list ≡ false
    → are_unique list ≡ true
    → (ys : List Camera) × (shown n sel list ≡ some ys) × (are_unique ys ≡ true)
unfolding shown
shown_some n sel [] h u = absurd cc
shown_some n sel (c ∷ cs) h u = elim (Bool-cases (n == 1)) [
  | inl e ↦ rw e (go (select (has_id sel) (c ∷ cs)) (select-are_unique (has_id sel) (c ∷ cs) u))
  | inr e ↦ rw e (take n (c ∷ cs), refl, take-are_unique n (c ∷ cs) u)
]
  where
    go :
        (own : List Camera)
        → are_unique own ≡ true
        → (ys : List Camera) × (or_first (c ∷ cs) own ≡ some ys) × (are_unique ys ≡ true)
    go [] v = (c ∷ [], refl, refl)
    go (d ∷ ds) v = (d ∷ ds, refl, v)

All_at : (P : Text → Type 0) (xs : List Text) (x : Text) → All P xs → Memᴰ x xs → P x
All_at P [] x a i = elim i [ ]
All_at P (y ∷ xs) x a i = elim i [
  | Memᴰ.head e ↦ subst P (sym e) a.0
  | Memᴰ.tail j ↦ All_at P xs x a.1 j
]

pub filtered-is_nil :
    (area ai : Text) → Memᴰ area areas → Memᴰ ai analyses → is_nil (filtered area ai) ≡ false
filtered-is_nil area ai i j =
    All_at (λ y. is_nil (filtered area y) ≡ false) analyses ai
      (All_at (λ x. All (λ y. is_nil (filtered x y) ≡ false) analyses) areas area filtered_offered
        i)
      j

filtered-are_unique : (area ai : Text) → are_unique (filtered area ai) ≡ true
unfolding filtered
filtered-are_unique area ai = select-are_unique (is_listed area ai) cams cams-are_unique

-- The containers of the wall, by their numbers.
abbrev pub in_wall : {r : Number} → Page r → ℕ → Bool
in_wall p h = not (ltb h (p.made - length p.tiles)) && ltb h p.made

module _ (r : Number) (width : ℕ → r.Num) where
  -- Whatever the page's selects say and whichever camera is selected, drawing the wall throws nothing;
  -- the next frame draws the cameras that are to be shown, in their order, each once and on a
  -- container of the wall, and no view that was there before.
  pub wall_drawn :
      (p : Page r)
      → Memᴰ p.area areas
      → Memᴰ p.ai analyses
      → (ys : List Camera) × (q : Page r) × (shown p.layout p.sel (filtered p.area p.ai) ≡ some ys)
        × (draw_wall r width p ≡ some q)
        × (map (λ v. v.cam) (drawn r (in_wall q) q.viewer) ≡ ys)
  unfolding draw_wall drawn clear
  wall_drawn p i j =
      let list = filtered p.area p.ai in
      let (ys, e, u) =
        shown_some p.layout p.sel list (filtered-is_nil p.area p.ai i j)
          (filtered-are_unique p.area p.ai) in
      let v0 : Viewer r = clear r p.viewer in
      let v : Viewer r = attach_from r width p.made ys v0 in
      let ts = tiles_from p.made ys in
      let q : Page r = record p { tiles = ts; made = p.made + length ys; viewer = v } in
      let all = attach_all-from r width p.made ts ys v0 (tiles_from-Feeds p.made ys u) in
      let n = length-tiles_from p.made ys in
      let here : (h : ℕ) → p.made ≤ h → h < p.made + length ys → in_wall q h ≡ true =
        λ h l k. ground (arith, l, k, n) in
      (
        ys,
        q,
        e,
        rw (e, all) refl,
        ap (λ vs. map (λ w. w.cam) (select (is_connected r (in_wall q) v.shown) vs))
              (views-attach_from r width p.made ys v0)
            ∙ ap (map (λ w. w.cam)) (select-views_from r width (in_wall q) p.made ys v0 here)
            ∙ map-views_from r width p.made v0.made ys,
      )

  -- Drawing the wall changes the wall alone.
  pub draw_wall_keeps :
      (p : Page r)
      → Memᴰ p.area areas
      → Memᴰ p.ai analyses
      → (ts : List (Text × ℕ)) × (n : ℕ) × (v : Viewer r) × (draw_wall r width p
          ≡ some (record p { tiles = ts; made = n; viewer = v }))
  unfolding draw_wall
  draw_wall_keeps p i j =
      let list = filtered p.area p.ai in
      let (ys, e, u) =
        shown_some p.layout p.sel list (filtered-is_nil p.area p.ai i j)
          (filtered-are_unique p.area p.ai) in
      let v0 : Viewer r = clear r p.viewer in
      let ts = tiles_from p.made ys in
      let all = attach_all-from r width p.made ts ys v0 (tiles_from-Feeds p.made ys u) in
      (ts, p.made + length ys, attach_from r width p.made ys v0, rw (e, all) refl)
