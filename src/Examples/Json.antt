-- ===== src/Examples/Json.antt =====
-- A platform whose JSON is a length before each text.
use project_sh_fms.Prelude.{
  ℕ, zero, suc, ◌≡◌, refl, ap, [], ◌∷◌, ◌++◌, Option, none, some, Text, length, if◌then◌else◌, ◌==◌,
}
use project_sh_fms.Auth.{Session, Platform, IsJson}

-- A text with its length in front, and what follows.
abbrev pub field : Text → Text → Text
field t rest = length t ∷ (t ++ rest)

-- The first `n` units, and the rest.
abbrev pub cut : ℕ → Text → Text × Text
cut zero s = ([], s)
cut (suc n) [] = ([], [])
cut (suc n) (c ∷ s) = let (t, rest) = cut n s in (c ∷ t, rest)

abbrev pub read_field : Text → Text × Text
read_field [] = ([], [])
read_field (n ∷ s) = cut n s

cut-append : (t rest : Text) → cut (length t) (t ++ rest) ≡ (t, rest)
cut-append [] rest = refl
cut-append (c ∷ t) rest = ap (λ q. (c ∷ q.0, q.1)) (cut-append t rest)

abbrev pub write_session : Session → Text
write_session s = b'{' ∷ field s.id (field s.name (field s.dept (field s.role (s.lv ∷ s.at ∷ []))))

abbrev pub end_session : Text → Text → Text → Text → Text → Option Session
end_session id name dept role (lv ∷ at ∷ []) =
    some (record { id = id; name = name; dept = dept; role = role; lv = lv; at = at })
end_session id name dept role _ = none

abbrev pub read_session : Text → Option Session
read_session s =
    let (id, s1) = read_field s in
    let (name, s2) = read_field s1 in
    let (dept, s3) = read_field s2 in
    let (role, s4) = read_field s3 in end_session id name dept role s4

abbrev pub read_value : Text → Option (Option Session)
read_value [] = none
read_value (c ∷ s) =
    if c == b'{' then some (read_session s) else if c == b'n' then some none else none

abbrev pub platform : Platform
platform = record {
  lower_other = λ s. s;
  encode_other = λ s. s;
  stringify = write_session;
  parse = read_value;
}

read-write : (s : Session) → read_value (write_session s) ≡ some (some s)
read-write s =
    ap some (rw (cut-append s.id _, cut-append s.name _, cut-append s.dept _, cut-append s.role _))

pub platform-IsJson : IsJson platform
platform-IsJson = record {
  parse-stringify = read-write;
  parse-null = refl;
  stringify-cons = λ s. (b'{', _, refl);
}
