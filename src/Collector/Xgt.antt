-- ===== src/Collector/Xgt.antt =====
-- src/collector/src/ls_xgt.cpp: read_block of a device whose socket is open, from the reply on. A
-- read past the end of the reply's body, which C++ leaves undefined, is the error `outside`.
pub mod Reads
use project_sh_fms.Prelude.{
  ℕ, zero, suc, ◌+◌, ◌*◌, ◌/◌, ◌%◌, Bool, true, false, not, ◌||◌, List, [], ◌∷◌, ◌++◌, Option, none,
  some, Text, codes, if◌then◌else◌, ltb, leb, ◌==◌, text_eq, length, take, drop, get_or, get_elem?,
}
use project_sh_fms.Js.Decimal.{decimal}
use project_sh_fms.Collector.{
  ReadError, ReadResult, read, failed, send_failed, header_timeout, bad_signature, bad_length,
  exception, truncated, body_timeout, outside, recv_exact,
}

-- put_le16
abbrev pub put_le16 : ℕ → List ℕ
put_le16 v = v % 256 ∷ v / 256 % 256 ∷ []

abbrev pub both : Option ℕ → Option ℕ → Option ℕ
both (some a) (some b) = some (a + 256 * b)
both _ _ = none

-- get_le16, at an index of a buffer.
abbrev pub get_le16 : List ℕ → ℕ → Option ℕ
get_le16 p i = both (get_elem? p i) (get_elem? p (i + 1))

-- The name of the variable that is read: `%MW` and the address.
abbrev pub variable_name : ℕ → Text
variable_name start = codes "%MW" ++ decimal start

-- The command block of the request, which ends in the number of bytes asked for.
unfoldable pub command : ℕ → ℕ → List ℕ
command start count =
    let var = variable_name start in
    put_le16 4
    ++ (put_le16 20
        ++ (put_le16 0 ++ (put_le16 1 ++ (put_le16 (length var) ++ (var ++ put_le16 (count * 2))))))

-- The frame: a header of 20 bytes and the command block.
unfoldable pub frame : ℕ → ℕ → ℕ → ℕ → List ℕ
frame invoke unit start count =
    let cmd = command start count in
    codes "LSIS-XGT"
    ++ (0 ∷ 0 ∷ 160 ∷ 51 ∷ []
        ++ (put_le16 invoke ++ (put_le16 (length cmd) ++ (unit % 256 ∷ 0 ∷ 0 ∷ 0 ∷ [] ++ cmd))))

abbrev pub cons_word : Option ℕ → Option (List ℕ) → Option (List ℕ)
cons_word (some w) (some ws) = some (w ∷ ws)
cons_word _ _ = none

-- The loop that puts the registers together, with `n` turns left.
unfoldable pub words_from : List ℕ → ℕ → ℕ → Option (List ℕ)
words_from body i zero = some []
words_from body i (suc n) = cons_word (get_le16 body (12 + i * 2)) (words_from body (i + 1) n)

abbrev pub on_words : Option (List ℕ) → ReadResult
on_words none = failed outside false
on_words (some ws) = read ws

abbrev pub on_data_length : List ℕ → Option ℕ → ReadResult
on_data_length body none = failed outside false
on_data_length body (some n) =
    if ltb (length body) (12 + n)
    then failed truncated false
    else on_words (words_from body 0 (n / 2))

abbrev pub on_status : List ℕ → Option ℕ → ReadResult
on_status body none = failed outside false
on_status body (some status) =
    if not (status == 0)
    then failed (exception status) false
    else on_data_length body (get_le16 body 10)

abbrev pub on_body : Option (List ℕ × List ℕ) → ReadResult
on_body none = failed body_timeout true
on_body (some (body, rest)) = on_status body (get_le16 body 6)

abbrev pub on_body_length : Option ℕ → List ℕ → ReadResult
on_body_length none rest = failed outside false
on_body_length (some n) rest =
    if ltb n 10 || ltb 4096 n then failed bad_length true else on_body (recv_exact n rest)

abbrev pub on_header : Option (List ℕ × List ℕ) → ReadResult
on_header none = failed header_timeout true
on_header (some (hdr, rest)) =
    if not (text_eq (take 8 hdr) (codes "LSIS-XGT"))
    then failed bad_signature true
    else on_body_length (get_le16 hdr 14) rest

-- read_block, with whether the request could be sent and what arrives after it.
unfoldable pub read_block : Bool → List ℕ → ReadResult
read_block sends bytes =
    if not sends then failed send_failed true else on_header (recv_exact 20 bytes)
