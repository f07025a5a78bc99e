-- ===== src/CctvPage/Known.antt =====
-- The cameras that the tiles, the rows and the sequence of app/cctv.html name are those of the plant.
use Prim.Native.Nat.{◌<◌}
use project_sh_fms.Prelude.{
  ℕ, zero, suc, ◌≡◌, refl, Bool, List, [], ◌∷◌, some, Text, text_eq, select, first, get_elem?,
  length, All, arith, Bool-cases, inl, inr,
}
use project_sh_fms.Mock.Cameras.{Camera, cams}
use project_sh_fms.CctvPage.{is_listed, filtered, has_id}

-- The id of a camera of the plant.
abbrev pub IsKnown : Text → Type 0
IsKnown id = (c : Camera) × (first (has_id id) cams ≡ some c)

abbrev pub AllKnown : List Camera → Type 0
AllKnown cs = All (λ c. IsKnown c.id) cs

select-AllKnown : (q : Camera → Bool) (cs : List Camera) → AllKnown cs → AllKnown (select q cs)
select-AllKnown q [] h = tt
select-AllKnown q (c ∷ cs) h = elim (Bool-cases (q c)) [
  | inl e ↦ rw e (h.0, select-AllKnown q cs h.1)
  | inr e ↦ rw e (select-AllKnown q cs h.1)
]

pub get_elem?-AllKnown :
    (cs : List Camera) (i : ℕ)
    → i < length cs
    → AllKnown cs
    → (c : Camera) × (get_elem? cs i ≡ some c) × IsKnown c.id
get_elem?-AllKnown [] i l a = absurd (omega (arith, l))
get_elem?-AllKnown (c ∷ cs) zero l a = (c, refl, a.0)
get_elem?-AllKnown (c ∷ cs) (suc i) l a = get_elem?-AllKnown cs i (omega (arith, l)) a.1

cams-AllKnown : AllKnown cams
unfolding text_eq
cams-AllKnown = (
  (_, refl),
  (
    (_, refl),
    (
      (_, refl),
      (
        (_, refl),
        (
          (_, refl),
          (
            (_, refl),
            ((_, refl), ((_, refl), ((_, refl), ((_, refl), ((_, refl), ((_, refl), tt)))))),
          ),
        ),
      ),
    ),
  ),
)

pub filtered-AllKnown : (area ai : Text) → AllKnown (filtered area ai)
unfolding filtered
filtered-AllKnown area ai = select-AllKnown (is_listed area ai) cams cams-AllKnown
