-- ===== src/Collector/Modbus.antt =====
-- src/collector/src/modbus_tcp.cpp: read_block of a device whose socket is open. The socket is what
-- arrives on it before the time limits; bytes are numbers below 256.
pub mod Roundtrip
use project_sh_fms.Prelude.{
  ℕ, zero, suc, ◌+◌, ◌*◌, ◌/◌, ◌%◌, Bool, true, false, not, ◌||◌, List, [], ◌∷◌, ◌++◌, Option, none,
  some, if◌then◌else◌, ltb, leb, ◌==◌, length, take, drop, get_or,
}
use project_sh_fms.Collector.{
  ReadError, ReadResult, read, failed, bad_count, send_failed, header_timeout, mismatch, exception,
  bad_byte_count, body_timeout, recv_exact,
}

-- What of DeviceConfig the read uses.
pub record Block : Type 0 where
  pub unit_id : ℕ
  pub read_start : ℕ
  pub read_count : ℕ

-- `++tid_`
abbrev pub next_id : ℕ → ℕ
next_id tid = (tid + 1) % 65536

-- The request: MBAP header and PDU.
unfoldable pub request : Block → ℕ → List ℕ
request c tid =
    tid / 256
    ∷ tid % 256
    ∷ 0
    ∷ 0
    ∷ 0
    ∷ 6
    ∷ c.unit_id % 256
    ∷ 3
    ∷ c.read_start / 256 % 256
    ∷ c.read_start % 256
    ∷ c.read_count / 256 % 256
    ∷ c.read_count % 256
    ∷ []

-- The loop that puts the registers together, with `n` turns left.
unfoldable pub registers : List ℕ → ℕ → ℕ → List ℕ
registers body i zero = []
registers body i (suc n) =
    (get_or body (i * 2) 0 * 256 + get_or body (i * 2 + 1) 0) ∷ registers body (i + 1) n

abbrev pub on_body : ℕ → Option (List ℕ × List ℕ) → ReadResult
on_body count none = failed body_timeout true
on_body count (some (body, rest)) = read (registers body 0 count)

abbrev pub on_header : Block → ℕ → Option (List ℕ × List ℕ) → ReadResult
on_header c tid none = failed header_timeout true
on_header c tid (some (hdr, rest)) =
    if not (get_or hdr 0 0 * 256 + get_or hdr 1 0 == tid)
    then failed mismatch true
    else if leb 128 (get_or hdr 7 0)
    then failed (exception (get_or hdr 8 0)) false
    else if not (get_or hdr 8 0 == c.read_count * 2)
    then failed bad_byte_count true
    else on_body c.read_count (recv_exact (get_or hdr 8 0) rest)

-- read_block, with whether the request could be sent and what arrives after it.
unfoldable pub read_block : Block → ℕ → Bool → List ℕ → ReadResult
read_block c tid sends bytes =
    if c.read_count == 0 || ltb 125 c.read_count
    then failed bad_count false
    else if not sends
    then failed send_failed true
    else on_header c (next_id tid) (recv_exact 9 bytes)
