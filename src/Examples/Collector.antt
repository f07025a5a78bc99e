-- ===== src/Examples/Collector.antt =====
-- The collector with one tag of a device, a backlog, and replies of devices.
use project_sh_fms.Prelude.{
  ℕ, suc, ◌-◌, ◌*◌, ◌/◌, ◌≡◌, refl, Bool, true, false, ◌&&◌, List, [], ◌∷◌, ◌++◌, Text, codes,
  length, arith, ◌==◌, ltb, text_eq, Option, none, some, inl, inr, replicate, Memᴰ,
}
use project_sh_fms.Engine.Store.Keys.{Entries}
use project_sh_fms.Collector.{good, bad, TagDef, read, failed, body_timeout}
use project_sh_fms.Collector.Store.{
  Entry, Tags, mark_bad, apply, take_changed, decode, register_device, change_all, change_entry,
  apply_entry, sent_entry, names_of,
}
use project_sh_fms.Collector.Store.Deadband.{
  call, Call, registering, marking, applying, taking, Tracked, run, run-Tracked,
}
use project_sh_fms.Collector.Store.Recovery.{new_store, Steady, recovery_unreported}
use project_sh_fms.Collector.Store.Names.{times}
use project_sh_fms.Collector.Store.Taking.{Untold}
use project_sh_fms.Engine.Store.{lookup, insert}
use project_sh_fms.Collector.Uploader.{Uploader, cycles}
use project_sh_fms.Collector.Uploader.Backlog.{brought, cycles_keep, backlog_drains}
use project_sh_fms.Collector.Scan.{Meeting, new_link, scan, scans}
use project_sh_fms.Collector.Scan.Devices.{AllBad, scan-AllBad, device_recovers}
use project_sh_fms.Collector.Modbus.{Block, next_id}
use project_sh_fms.Collector.Modbus
use project_sh_fms.Collector.Modbus.Roundtrip.{reply, read_block-reply}
use project_sh_fms.Collector.Xgt.{get_le16}
use project_sh_fms.Collector.Xgt
use project_sh_fms.Collector.Xgt.Reads.{is_outside, read_block-outside}
use project_sh_fms.Collector.Config.{str, skip_value, eat, ws, string_from}
use project_sh_fms.Collector.Config.Skips.{
  Piece, as_is, after_backslash, written, Balanced, joined, string, bracketed, character,
  config_reads,
}
use project_sh_fms.Collector.Settings.{
  Result, parsed, load_config, parse_device, parse_tag, object, array, members, elements, num,
}
use project_sh_fms.Collector.Settings.Lengths.{Left}
use project_sh_fms.Collector.Settings.Loops.{Good}
use project_sh_fms.Collector.Settings.Validity.{IsAccepted, load_config-Good}
use project_sh_fms.Examples.Thousandths.{thousandths}

abbrev bits : ℕ → ℕ
bits x = x

abbrev name : Text
name = codes "T1"

abbrev device : Text
device = codes "PLC1"

abbrev probe_def : TagDef thousandths
probe_def = record {
  name = name;
  device = device;
  address = 10;
  words = 1;
  is_float = false;
  scale = 100;
  offset = 0;
  deadband = 500;
}

abbrev probe_entry : Entry thousandths bits
probe_entry = record {
  def = probe_def;
  cur = record { name = name; value = 2000; quality = good; ts_ms = 1 };
  last_sent = 2000;
  dirty = false;
  ever_sent = true;
}

abbrev store : Tags thousandths bits
store = record { defs = (name, probe_entry) ∷ []; by_device = (device, name ∷ []) ∷ [] }

abbrev calls : List (Call thousandths)
calls = applying device (21 ∷ []) 10 2 ∷ taking ∷ marking device 3 ∷ []

run-Tracked_example : Entries (Tracked thousandths bits) (run thousandths bits calls store).defs
run-Tracked_example = run-Tracked thousandths bits calls store (inr (inr (refl, inl refl)), tt)

Steady-read : Steady thousandths bits (21 ∷ []) 10 2000 probe_entry
unfolding decode
Steady-read = record { read = refl; near = refl }

-- The device is registered, read once, and its value taken.
abbrev reading : List (Call thousandths)
reading = registering device (probe_def ∷ []) ∷ applying device (20 ∷ []) 10 1 ∷ taking ∷ []

abbrev read_store : Tags thousandths bits
read_store = run thousandths bits reading (new_store thousandths bits)

read_entry : lookup name read_store.defs ≡ some probe_entry
unfolding lookup run call register_device apply change_all change_entry apply_entry take_changed
    sent_entry insert text_eq decode
read_entry = refl

registered_once : times thousandths bits name (names_of thousandths bits device read_store) ≡ 1
unfolding lookup run call register_device apply change_all change_entry take_changed insert text_eq
registered_once = refl

recovery_unreported_example :
    let (gone, told) =
      take_changed thousandths bits (mark_bad thousandths bits device 3 read_store) in
    let (back, told') =
      take_changed thousandths bits (apply thousandths bits device (21 ∷ []) 10 4 gone) in
    Memᴰ (record probe_entry.cur { quality = bad; ts_ms = 3 }) told
    × Untold thousandths bits name told'
    × (c : Entry thousandths bits) × (lookup name back.defs ≡ some c)
    × (c.cur.quality ≡ good)
recovery_unreported_example =
    recovery_unreported thousandths bits reading device name (21 ∷ []) 10 3 4 probe_entry read_entry
      registered_once refl Steady-read

abbrev waiting : Uploader ℕ
waiting = record { queue = 1 ∷ 2 ∷ []; sent = 0; fails = 3; confirmed = [] }

abbrev two_cycles : List (Bool × List ℕ)
two_cycles = (false, 3 ∷ []) ∷ (true, 4 ∷ []) ∷ []

cycles_keep_example :
    let v = cycles ℕ two_cycles waiting in
    v.confirmed ++ v.queue ≡ ([] ++ (1 ∷ 2 ∷ [])) ++ brought ℕ two_cycles
cycles_keep_example = cycles_keep ℕ two_cycles waiting (omega arith)

backlog_drains_example : (cycles ℕ ((true, 4 ∷ []) ∷ []) waiting).queue ≡ []
backlog_drains_example =
    backlog_drains ℕ 1 ((true, 4 ∷ []) ∷ []) waiting ((refl, omega arith, omega arith), tt)
      (omega arith) (omega arith)

abbrev silent : Meeting
silent = record { t0 = 1000; ts = 5; connects = true; result = failed body_timeout true }

abbrev answering : Meeting
answering = record { t0 = 61_000; ts = 6; connects = true; result = read (21 ∷ []) }

lost_link : (scan thousandths bits device 10 silent (new_link, store)).0.connected ≡ false
unfolding scan
lost_link = refl

scan-AllBad_example :
    AllBad thousandths bits device (scan thousandths bits device 10 silent (new_link, store)).1
scan-AllBad_example = scan-AllBad thousandths bits device 10 silent new_link store lost_link

device_recovers_example :
    let before = scans thousandths bits device 10 (silent ∷ []) (new_link, store) in
    let (l', s') = scan thousandths bits device 10 answering before in
    (l'.connected ≡ true) × (s' ≡ apply thousandths bits device (21 ∷ []) 10 6 before.1)
device_recovers_example =
    device_recovers thousandths bits device 10 1000 (silent ∷ []) answering (21 ∷ []) store
      (omega arith, tt) (omega arith) refl refl

abbrev block : Block
block = record { unit_id = 1; read_start = 100; read_count = 2 }

read_block-reply_example :
    Modbus.read_block block 7 true (reply (next_id 7) 1 (258 ∷ 65535 ∷ []) ++ (9 ∷ []))
    ≡ read (258 ∷ 65535 ∷ [])
read_block-reply_example =
    read_block-reply block 7 (258 ∷ 65535 ∷ []) (9 ∷ []) refl (omega arith) (omega arith)

-- A reply whose body has ten bytes, all of them 0.
abbrev short_header : List ℕ
short_header = codes "LSIS-XGT" ++ (0 ∷ 0 ∷ 160 ∷ 51 ∷ 1 ∷ 0 ∷ 10 ∷ 0 ∷ 0 ∷ 0 ∷ 0 ∷ 0 ∷ [])

abbrev short_body : List ℕ
short_body = replicate 10 0

read_block-outside_example :
    is_outside (Xgt.read_block true (short_header ++ (short_body ++ [])))
    ≡ ((0 == 0) && ltb (length short_body) 12)
unfolding text_eq
read_block-outside_example =
    read_block-outside short_header short_body [] 0 refl refl refl (omega arith) (omega arith) refl

-- White space, and what is left of a number that is never read.
abbrev is_space : ℕ → Bool
is_space c = c == 32

abbrev no_number : Text → Option Text
no_number s = none

-- Members of an object: a name with a quote and a bracket in it, and an array of one number.
abbrev odd_name : List Piece
odd_name = as_is b'a' refl ∷ as_is b'}' refl ∷ after_backslash 34 ∷ []

abbrev member_text : Text
member_text = (34 ∷ written odd_name) ++ (b'[' ∷ (codes "7" ++ (b']' ∷ [])))

member_text-Balanced : Balanced member_text
member_text-Balanced = joined (string odd_name) (bracketed (character b'7' refl))

-- A name of two lines.
abbrev two_lines : List Piece
two_lines = as_is b'C' refl ∷ after_backslash b'n' ∷ as_is b'T' refl ∷ []

config_reads_example :
    (str is_space no_number (codes " " ++ (34 ∷ (written two_lines ++ codes ", 1")))
      ≡ some (b'C' ∷ 10 ∷ b'T' ∷ [], codes ", 1"))
    × (skip_value is_space no_number (codes " " ++ (34 ∷ (written two_lines ++ codes ", 1")))
        ≡ some (codes ", 1"))
    × (skip_value is_space no_number (codes " " ++ (b'{' ∷ (member_text ++ (b'}' ∷ codes ", 1"))))
        ≡ some (codes ", 1"))
    × (skip_value is_space no_number (codes " " ++ (b'[' ∷ (member_text ++ (b']' ∷ codes ", 1"))))
        ≡ some (codes ", 1"))
config_reads_example =
    config_reads is_space no_number (codes " ") two_lines member_text (codes ", 1") (refl, tt)
      (refl, (refl, (refl, tt))) member_text-Balanced

-- Numbers of one digit.
abbrev one_digit : Text → Option (ℕ × Text)
one_digit [] = none
one_digit (c ∷ s) = some ((c - 48) * 1000, s)

one_digit-Left : (s : Text) → Left (suc (length s)) (one_digit s)
one_digit-Left [] = tt
one_digit-Left (c ∷ s) = omega arith

abbrev to_int : ℕ → ℕ
to_int x = x / 1000

-- A configuration with one device and one tag.
abbrev config_text : Text
config_text =
    codes
      "{\"devices\":[{\"id\":\"M1\",\"protocol\":\"ls_xgt\",\"host\":\"h\",\"tags\":[{\"name\":\"T\",\"words\":2}]}]}"

abbrev is_parsed : {A : Type 0} → Result A → Bool
is_parsed (parsed a s) = true
is_parsed _ = false

config_text_accepted :
    is_parsed (load_config thousandths is_space one_digit to_int config_text) ≡ true
unfolding load_config parse_device parse_tag object array members elements eat str ws string_from
    num text_eq
config_text_accepted = refl

load_config-Good_example :
    Good
      (IsAccepted thousandths)
      (length config_text)
      (load_config thousandths is_space one_digit to_int config_text)
load_config-Good_example =
    load_config-Good thousandths is_space one_digit to_int one_digit-Left config_text
