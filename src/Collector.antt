-- ===== src/Collector.antt =====
-- src/collector: the collector polls the controllers and sends the changed values to the gateway.
-- This file has include/tag.h and include/device.h; Store is src/tag_store.cpp, Uploader
-- src/uploader.cpp, Scan the loop of src/main.cpp, Modbus src/modbus_tcp.cpp, Xgt src/ls_xgt.cpp, Config src/config.cpp.
pub mod Store
pub mod Uploader
pub mod Scan
pub mod Receive
pub mod Modbus
pub mod Xgt
pub mod Config
pub mod Settings
use project_sh_fms.Prelude.{
  ℕ, zero, suc, ◌+◌, Bool, true, false, List, [], ◌∷◌, Option, none, some, Text, codes,
  if◌then◌else◌, leb, length, take, drop,
}
use project_sh_fms.Number.{Number}

-- Quality
pub data Quality : Type 0 where
  good uncertain bad : Quality

-- to_string
abbrev pub quality_text : Quality → Text
quality_text good = codes "Good"
quality_text uncertain = codes "Uncertain"
quality_text bad = codes "Bad"

module _ (r : Number) where
  open r use {Num}

  -- TagDef. Register addresses and word counts are not negative.
  pub record TagDef : Type 0 where
    pub name : Text
    pub device : Text
    pub address : ℕ
    pub words : ℕ
    pub is_float : Bool
    pub scale : Num
    pub offset : Num
    pub deadband : Num

  -- TagValue
  pub record TagValue : Type 0 where
    pub name : Text
    pub value : Num
    pub quality : Quality
    pub ts_ms : ℕ

-- What a read fails with.
pub data ReadError : Type 0 where
  connect_failed bad_count send_failed header_timeout mismatch bad_signature bad_length
        bad_byte_count body_timeout truncated outside :
      ReadError
  exception : ℕ → ReadError

-- ReadResult: the registers, or the error and whether the socket was closed on it.
pub data ReadResult : Type 0 where
  read : List ℕ → ReadResult
  failed : ReadError → Bool → ReadResult

-- net.h's recv_exact on the bytes that arrive before the time limit: all that were asked for, with
-- what is left, or none.
abbrev pub recv_exact : ℕ → List ℕ → Option (List ℕ × List ℕ)
recv_exact n bytes = if leb n (length bytes) then some (take n bytes, drop n bytes) else none
