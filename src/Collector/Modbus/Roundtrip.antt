-- ===== src/Collector/Modbus/Roundtrip.antt =====
-- What the collector reads of a reply.
use Prim.Native.Nat.{◌≤◌}
use project_sh_fms.Prelude.{
  ℕ, zero, suc, ◌+◌, ◌*◌, ◌/◌, ◌%◌, ◌≡◌, refl, sym, ap, ap₂, ◌∙◌, true, false, ◌||◌, List, [], ◌∷◌,
  ◌++◌, append_assoc, some, ltb, ◌==◌, length, length-append, get_or, arith,
}
use project_sh_fms.Collector.{read, recv_exact}
use project_sh_fms.Collector.Receive.{recv_exact-append}
use project_sh_fms.Collector.Modbus.{Block, next_id, registers, on_body, on_header, read_block}

-- Registers as the protocol sends them, high byte first.
abbrev pub big_endian : List ℕ → List ℕ
big_endian [] = []
big_endian (w ∷ ws) = w / 256 ∷ w % 256 ∷ big_endian ws

length-big_endian : (ws : List ℕ) → length (big_endian ws) ≡ length ws * 2
length-big_endian [] = omega arith
length-big_endian (w ∷ ws) = omega (arith, length-big_endian ws)

-- The reply of a device to a request of that number, as the protocol has it.
abbrev pub reply : ℕ → ℕ → List ℕ → List ℕ
reply tid unit ws =
    tid / 256
    ∷ tid % 256
    ∷ 0
    ∷ 0
    ∷ (length ws * 2 + 3) / 256
    ∷ (length ws * 2 + 3) % 256
    ∷ unit
    ∷ 3
    ∷ length ws * 2
    ∷ big_endian ws

get_or_past :
    (pre ys : List ℕ) (k n : ℕ) → n ≡ length pre + k → get_or (pre ++ ys) n 0 ≡ get_or ys k 0
get_or_past [] ys k n h = let e : n ≡ k = omega (arith, h) in ap (λ j. get_or ys j 0) e
get_or_past (x ∷ pre) ys k zero h = absurd (omega (arith, h))
get_or_past (x ∷ pre) ys k (suc n) h = get_or_past pre ys k n (omega (arith, h))

-- The registers from the `i`th on, after `i` that are left aside.
registers-big_endian :
    (pre : List ℕ) (ws : List ℕ) (i : ℕ)
    → length pre ≡ i * 2
    → registers (pre ++ big_endian ws) i (length ws) ≡ ws
unfolding registers
registers-big_endian pre [] i h = refl
registers-big_endian pre (w ∷ ws) i h =
    let ys = w / 256 ∷ w % 256 ∷ big_endian ws in
    let pre' = pre ++ w / 256 ∷ w % 256 ∷ [] in
    let first : get_or (pre ++ ys) (i * 2) 0 ≡ w / 256 =
      get_or_past pre ys 0 (i * 2) (omega (arith, h)) in
    let second : get_or (pre ++ ys) (i * 2 + 1) 0 ≡ w % 256 =
      get_or_past pre ys 1 (i * 2 + 1) (omega (arith, h)) in
    let whole : pre' ++ big_endian ws ≡ pre ++ ys =
      append_assoc pre (w / 256 ∷ w % 256 ∷ []) (big_endian ws) in
    let rest =
      registers-big_endian pre' ws (i + 1)
        (omega (arith, h, length-append pre (w / 256 ∷ w % 256 ∷ []))) in
    ap₂ ◌∷◌ (rw (first, second) (omega arith))
      (ap (λ b. registers b (i + 1) (length ws)) (sym whole) ∙ rest)

-- A device that replies as the protocol has it is read right, whatever follows on the socket: from 1
-- to 125 registers of any values, in their order.
pub read_block-reply :
    (c : Block) (tid : ℕ) (ws rest : List ℕ)
    → c.read_count ≡ length ws
    → 1 ≤ length ws
    → length ws ≤ 125
    → read_block c tid true (reply (next_id tid) c.unit_id ws ++ rest) ≡ read ws
unfolding read_block
read_block-reply c tid ws rest e lo hi =
    let n = length ws in
    let count : (c.read_count == 0 || ltb 125 c.read_count) ≡ false = ground (arith, e, lo, hi) in
    let id : (next_id tid / 256 * 256 + next_id tid % 256 == next_id tid) ≡ true = ground arith in
    let bytes : (n * 2 == c.read_count * 2) ≡ true = ground (arith, e) in
    let id' = next_id tid in
    let hdr : List ℕ =
      id' / 256
      ∷ id' % 256
      ∷ 0
      ∷ 0
      ∷ (n * 2 + 3) / 256
      ∷ (n * 2 + 3) % 256
      ∷ c.unit_id
      ∷ 3
      ∷ n * 2
      ∷ [] in
    let head : recv_exact 9 (reply id' c.unit_id ws ++ rest) ≡ some (hdr, big_endian ws ++ rest) =
      recv_exact-append hdr (big_endian ws ++ rest) in
    let body : recv_exact (n * 2) (big_endian ws ++ rest) ≡ some (big_endian ws, rest) =
      ap (λ k. recv_exact k (big_endian ws ++ rest)) (sym (length-big_endian ws))
      ∙ recv_exact-append (big_endian ws) rest in
    let parts : registers (big_endian ws) 0 c.read_count ≡ ws =
      ap (registers (big_endian ws) 0) e ∙ registers-big_endian [] ws 0 (omega arith) in
    rw count
      (ap (on_header c id') head ∙ rw (id, bytes) (ap (on_body c.read_count) body ∙ ap read parts))
