-- ===== src/Shell/Frame.antt =====
-- What the frame of a page shows.
use Prim.Native.Nat.{◌≤◌, ◌<◌}
use project_sh_fms.Prelude.{
  ℕ, suc, ◌+◌, ◌≡◌, ◌≢◌, refl, ap, Bool, true, false, not, List, [], ◌∷◌, map, none, some, Text,
  if◌then◌else◌, ◌==◌, ltb, select, length, arith, tally, length-select, text_eq, ◌⊎◌, inl, inr,
  subst, Memᴰ, All, Bool-cases, ◌∙◌, sym, text_eq_iff,
}
use project_sh_fms.Auth.{Browser, Platform, current}
use project_sh_fms.Auth.Access.{guard_decides}
use project_sh_fms.Mock.Alarms.{Alarm, Load}
use project_sh_fms.AlarmPage.{is_in}
use project_sh_fms.AlarmPage.Table.{figures}
use project_sh_fms.Shell.{
  Entry, grp, page, menu, Banner, quiet, ringing, unacknowledged, banner_of, Node, heading, link,
  node_of, Screen, build,
}

-- A banner that rings for the alarms `xs`: it shows one of them that is not acknowledged, and
-- counts those not acknowledged, all of them and those of the priorities 1 and 2.
pub record Rings (xs : List Alarm) (b : Banner) : Type 0 where
  pub top : Alarm
  pub total : ℕ
  pub p1 : ℕ
  pub p2 : ℕ
  pub shows : b ≡ ringing top total p1 p2
  pub listed : Memᴰ top xs
  pub unacked : top.ack ≡ false
  pub counted : total ≡ tally (λ a. not a.ack) xs
  pub some_counted : 0 < total
  pub within : p1 + p2 ≤ total

select-head :
    (q : Alarm → Bool) (xs : List Alarm) {a : Alarm} {ys : List Alarm}
    → select q xs ≡ a ∷ ys
    → Memᴰ a xs × (q a ≡ true)
select-head q [] e = absurd (cc)
select-head q (x ∷ xs) {a} {ys} e = elim (Bool-cases (q x)) [
  | inl t ↦
      let k : x ∷ select q xs ≡ a ∷ ys = (rw t at e) in
      let h : x ≡ a = cc in (Memᴰ.head (sym h), rw (← h) t)
  | inr t ↦ let r = select-head q xs (rw t at e) in (Memᴰ.tail r.0, r.1)
]

pri_disjoint :
    (xs : List Alarm)
    → length (select (λ x. x.pri == 1) xs) + length (select (λ x. x.pri == 2) xs) ≤ length xs
pri_disjoint [] = omega arith
pri_disjoint (a ∷ xs) = ground (arith, pri_disjoint xs)

ringing-Rings :
    (xs ys : List Alarm)
    → select (λ a. not a.ack) xs ≡ ys
    → ((ys ≡ []) × (banner_of ys ≡ quiet)) ⊎ Rings xs (banner_of ys)
unfolding banner_of
ringing-Rings xs [] e = inl (refl, refl)
ringing-Rings xs (a ∷ ys) e =
    let (m, u) = select-head (λ x. not x.ack) xs e in
    inr (record {
      top = a;
      total = length (a ∷ ys);
      p1 = length (select (λ x. x.pri == 1) (a ∷ ys));
      p2 = length (select (λ x. x.pri == 2) (a ∷ ys));
      shows = refl;
      listed = m;
      unacked = ground arith;
      counted = ap length (sym e) ∙ length-select (λ x. not x.ack) xs;
      some_counted = omega arith;
      within = pri_disjoint (a ∷ ys);
    })

-- The banner is quiet when every alarm is acknowledged; else it rings: it shows an alarm of the
-- list that is not acknowledged, with the number of those, and its counts of the priorities 1 and
-- 2 together are at most that number.
pub banner_tells :
    (xs : List Alarm)
    → ((tally (λ a. not a.ack) xs ≡ 0) × (banner_of (unacknowledged (some xs)) ≡ quiet))
      ⊎ Rings xs (banner_of (unacknowledged (some xs)))
unfolding unacknowledged
banner_tells xs = elim (ringing-Rings xs (select (λ a. not a.ack) xs) refl) [
  | inl (e, b) ↦ inl (sym (length-select (λ a. not a.ack) xs) ∙ ap length e, b)
  | inr k ↦ inr k
]

abbrev pub is_marked : Node → Bool
is_marked (heading t) = false
is_marked (link on href ic name badge) = on

abbrev pub has_badge : Node → Bool
has_badge (link on href ic name (some n)) = true
has_badge _ = false

abbrev pub page_ids : List Entry → List Text
page_ids [] = []
page_ids (grp t ∷ es) = page_ids es
page_ids (page id name ic href badge ∷ es) = id ∷ page_ids es

-- At most one link is marked in each part of the menu, and one is if the page is among its ids.
marks :
    (es : List Entry) (k : Text) (n : ℕ)
    → tally is_marked (map (node_of k n) es) ≡ tally (λ i. text_eq i k) (page_ids es)
unfolding node_of
marks [] k n = refl
marks (grp t ∷ es) k n = marks es k n
marks (page id name ic href badge ∷ es) k n =
    ap (λ m. if text_eq id k then suc m else m) (marks es k n)

abbrev pub Distinct : List Text → Type 0
Distinct [] = Unit
Distinct (i ∷ ids) = All (λ j. i ≢ j) ids × Distinct ids

absent :
    (k : Text) (ids : List Text)
    → All (λ j. k ≢ j) ids
    → (is_in ids k ≡ false) × (tally (λ i. text_eq i k) ids ≡ 0)
unfolding is_in
absent k [] h = (refl, refl)
absent k (i ∷ ids) h = elim (Bool-cases (text_eq i k)) [
  | inl e ↦ absurd (h.0 (sym ((text_eq_iff i k).0 e)))
  | inr e ↦ rw e (absent k ids h.1)
]

tally-is_in :
    (k : Text) (ids : List Text)
    → Distinct ids
    → tally (λ i. text_eq i k) ids ≡ (if is_in ids k then 1 else 0)
unfolding is_in
tally-is_in k [] h = refl
tally-is_in k (i ∷ ids) h = elim (Bool-cases (text_eq i k)) [
  | inl e ↦
      rw e (ap suc (absent k ids (subst (λ j. All (λ l. j ≢ l) ids) ((text_eq_iff i k).0 e) h.0)).1)
  | inr e ↦ rw e (tally-is_in k ids h.1)
]

menu-Distinct : Distinct (page_ids menu)
menu-Distinct = ground arith

badges : (k : Text) (n : ℕ) → tally has_badge (map (node_of k n) menu) ≡ (if ltb 0 n then 1 else 0)
unfolding node_of
badges k n = elim (Bool-cases (ltb 0 n)) [ inl e ↦ rw e | inr e ↦ rw e ]

module _ (p : Platform) where
  -- What `build` has made of a tab: nothing, where there is no session.
  pub record Framed (k : Text) (xs : List Alarm) (ld : Load) (b : Browser) (w : Screen)
      : Type 0 where
    pub same_tab : (build p k (some xs) b).1 ≡ b
    pub owner : current p b ≡ some w.user
    pub marked : tally is_marked w.nav ≡ (if is_in (page_ids menu) k then 1 else 0)
    pub badged : tally has_badge w.nav ≡ (if ltb 0 (figures ld xs).unack.value then 1 else 0)
    pub banner : w.banner ≡ banner_of (unacknowledged (some xs))

  -- A page is framed exactly when the tab has a session. The frame then names that session's user
  -- and leaves the tab alone; its menu marks one link if the page is one of the menu's, else none,
  -- and has one badge if the alarm page's figure of alarms not acknowledged is above 0, else none.
  pub build_frames :
      (k : Text) (xs : List Alarm) (ld : Load) (b : Browser)
      → ((current p b ≡ none) × ((build p k (some xs) b).0 ≡ none))
        ⊎ ((w : Screen) × ((build p k (some xs) b).0 ≡ some w) × Framed k xs ld b w)
  unfolding build figures
  build_frames k xs ld b = elim (guard_decides p b) [
    | inl (s, c, g) ↦
        let w : Screen = record {
          banner = banner_of (unacknowledged (some xs));
          user = s;
          nav = map (node_of k (length (unacknowledged (some xs)))) menu;
        } in
        inr (
          w,
          rw g,
          record {
            same_tab = rw g;
            owner = c;
            marked =
                marks menu k (length (unacknowledged (some xs)))
                ∙ tally-is_in k (page_ids menu) menu-Distinct;
            badged = badges k (length (unacknowledged (some xs)));
            banner = refl;
          },
        )
    | inr (c, g) ↦ inl (c, rw g)
  ]
