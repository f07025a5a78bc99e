-- ===== src/CctvPage/Ids.antt =====
-- The ids of the cameras of a list tell them apart.
use project_sh_fms.Prelude.{
  ℕ, zero, suc, ◌≡◌, refl, Bool, true, not, ◌&&◌, List, [], ◌∷◌, Text, text_eq, select, take, arith,
  and-parts,
}
use project_sh_fms.Mock.Cameras.{Camera, cams}

-- No camera of the list has the id.
abbrev pub is_fresh : Text → List Camera → Bool
is_fresh id [] = true
is_fresh id (c ∷ cs) = not (text_eq id c.id) && is_fresh id cs

abbrev pub are_unique : List Camera → Bool
are_unique [] = true
are_unique (c ∷ cs) = is_fresh c.id cs && are_unique cs

select-is_fresh :
    (id : Text) (q : Camera → Bool) (cs : List Camera)
    → is_fresh id cs ≡ true
    → is_fresh id (select q cs) ≡ true
select-is_fresh id q [] h = refl
select-is_fresh id q (c ∷ cs) h =
    let (a, b) = and-parts (not (text_eq id c.id)) (is_fresh id cs) h in
    let rest = select-is_fresh id q cs b in ground arith

pub select-are_unique :
    (q : Camera → Bool) (cs : List Camera) → are_unique cs ≡ true → are_unique (select q cs) ≡ true
select-are_unique q [] h = refl
select-are_unique q (c ∷ cs) h =
    let (a, b) = and-parts (is_fresh c.id cs) (are_unique cs) h in
    let rest = select-are_unique q cs b in let fresh = select-is_fresh c.id q cs a in ground arith

take-is_fresh :
    (id : Text) (n : ℕ) (cs : List Camera) → is_fresh id cs ≡ true → is_fresh id (take n cs) ≡ true
take-is_fresh id zero cs h = refl
take-is_fresh id (suc n) [] h = refl
take-is_fresh id (suc n) (c ∷ cs) h =
    let (a, b) = and-parts (not (text_eq id c.id)) (is_fresh id cs) h in
    rw (a, take-is_fresh id n cs b) refl

pub take-are_unique :
    (n : ℕ) (cs : List Camera) → are_unique cs ≡ true → are_unique (take n cs) ≡ true
take-are_unique zero cs h = refl
take-are_unique (suc n) [] h = refl
take-are_unique (suc n) (c ∷ cs) h =
    let (a, b) = and-parts (is_fresh c.id cs) (are_unique cs) h in
    rw (take-is_fresh c.id n cs a, take-are_unique n cs b) refl

pub cams-are_unique : are_unique cams ≡ true
unfolding text_eq
cams-are_unique = refl
