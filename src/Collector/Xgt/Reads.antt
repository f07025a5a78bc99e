-- ===== src/Collector/Xgt/Reads.antt =====
-- Which replies the collector reads outside of.
use Prim.Native.Nat.{◌≤◌, ◌<◌}
use project_sh_fms.Prelude.{
  ℕ, zero, suc, ◌+◌, ◌*◌, ◌/◌, ◌≡◌, refl, sym, ap, ◌∙◌, Bool, true, false, ◌||◌, ◌&&◌, List, [],
  ◌∷◌, ◌++◌, Option, none, some, ltb, ◌==◌, length, take, get_elem?, arith, Bool-cases, inl, inr,
  text_eq, codes,
}
use project_sh_fms.Collector.{ReadResult, failed, outside, recv_exact}
use project_sh_fms.Collector.Receive.{recv_exact-append}
use project_sh_fms.Collector.Xgt.{
  get_le16, both, words_from, on_data_length, on_status, on_body, on_body_length, on_header,
  read_block,
}

get_some : (xs : List ℕ) (i : ℕ) → i < length xs → (x : ℕ) × (get_elem? xs i ≡ some x)
get_some [] i h = absurd (omega (arith, h))
get_some (x ∷ xs) zero h = (x, refl)
get_some (x ∷ xs) (suc i) h = get_some xs i (omega (arith, h))

get_none : (xs : List ℕ) (i : ℕ) → length xs ≤ i → get_elem? xs i ≡ none
get_none [] i h = refl
get_none (x ∷ xs) zero h = absurd (omega (arith, h))
get_none (x ∷ xs) (suc i) h = get_none xs i (omega (arith, h))

get_le16_inside : (xs : List ℕ) (i : ℕ) → i + 1 < length xs → (w : ℕ) × (get_le16 xs i ≡ some w)
get_le16_inside xs i h =
    let (a, p) = get_some xs i (omega (arith, h)) in
    let (b, q) = get_some xs (i + 1) h in (a + 256 * b, rw (p, q) refl)

words_inside :
    (body : List ℕ) (i n : ℕ)
    → 12 + (i + n) * 2 ≤ length body
    → (ws : List ℕ) × (words_from body i n ≡ some ws)
unfolding words_from
words_inside body i zero h = ([], refl)
words_inside body i (suc n) h =
    let (w, p) = get_le16_inside body (12 + i * 2) (omega (arith, h)) in
    let (ws, q) = words_inside body (i + 1) n (omega (arith, h)) in (w ∷ ws, rw (p, q) refl)

-- The result is not a read outside of the reply.
abbrev pub is_outside : ReadResult → Bool
is_outside (failed outside closed) = true
is_outside _ = false

on_data_length_inside :
    (body : List ℕ) → 12 ≤ length body → is_outside (on_data_length body (get_le16 body 10)) ≡ false
on_data_length_inside body h =
    let (n, p) = get_le16_inside body 10 (omega (arith, h)) in
    rw p (elim (Bool-cases (ltb (length body) (12 + n))) [
      | inl e ↦ rw e refl
      | inr e ↦
          let fits : 12 + n ≤ length body = ground arith in
          let (ws, q) = words_inside body 0 (n / 2) (omega (arith, fits)) in rw (e, q) refl
    ])

-- A reply of 12 bytes or more in its body is never read outside.
on_status_inside :
    (body : List ℕ) → 12 ≤ length body → is_outside (on_status body (get_le16 body 6)) ≡ false
on_status_inside body h =
    let (st, p) = get_le16_inside body 6 (omega (arith, h)) in
    rw p (elim (Bool-cases (st == 0)) [
      | inl e ↦ rw e (on_data_length_inside body h)
      | inr e ↦ rw e refl
    ])

both-none : (o : Option ℕ) → both o none ≡ none
both-none none = refl
both-none (some a) = refl

on_status_short :
    (body : List ℕ)
    → get_le16 body 6 ≡ some 0
    → length body < 12
    → is_outside (on_status body (get_le16 body 6)) ≡ true
on_status_short body z h =
    let none_there : get_le16 body 10 ≡ none =
      ap (both (get_elem? body 10)) (get_none body 11 (omega (arith, h)))
      ∙ both-none (get_elem? body 10) in
    rw (z, none_there) refl

status_outside :
    (body : List ℕ) (st : ℕ)
    → get_le16 body 6 ≡ some st
    → is_outside (on_status body (get_le16 body 6)) ≡ (st == 0 && ltb (length body) 12)
status_outside body st e = elim (Bool-cases (st == 0)) [
  | inr z ↦ rw (e, z) refl
  | inl z ↦ elim (Bool-cases (ltb (length body) 12)) [
    | inl s ↦
        let q : st ≡ 0 = ground arith in rw (z, s) (on_status_short body (rw q at e) (ground arith))
    | inr s ↦ rw (z, s) (on_status_inside body (ground arith))
  ]
]

-- Of the replies that the header lets pass, the collector reads outside of exactly those whose body
-- is shorter than 12 bytes and whose status is 0: it asks for 10 bytes at least, and reads 12.
pub read_block-outside :
    (hdr body rest : List ℕ) (st : ℕ)
    → length hdr ≡ 20
    → text_eq (take 8 hdr) (codes "LSIS-XGT") ≡ true
    → get_le16 hdr 14 ≡ some (length body)
    → 10 ≤ length body
    → length body ≤ 4096
    → get_le16 body 6 ≡ some st
    → is_outside (read_block true (hdr ++ (body ++ rest))) ≡ (st == 0 && ltb (length body) 12)
unfolding read_block
read_block-outside hdr body rest st n sign len lo hi e =
    let head : recv_exact 20 (hdr ++ (body ++ rest)) ≡ some (hdr, body ++ rest) =
      ap (λ k. recv_exact k (hdr ++ (body ++ rest))) (sym n)
      ∙ recv_exact-append hdr (body ++ rest) in
    let bounds : (ltb (length body) 10 || ltb 4096 (length body)) ≡ false =
      ground (arith, lo, hi) in
    let all : is_outside (on_body_length (get_le16 hdr 14) (body ++ rest))
        ≡ (st == 0 && ltb (length body) 12) =
      ap (λ o. is_outside (on_body_length o (body ++ rest))) len
      ∙ rw bounds (
          ap (λ o. is_outside (on_body o)) (recv_exact-append body rest)
          ∙ status_outside body st e) in
    ap (λ o. is_outside (on_header o)) head ∙ rw sign all
