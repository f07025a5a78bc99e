-- ===== src/Collector/Settings.antt =====
-- src/collector/src/config.cpp with include/config.h: the members of tags, devices and of the whole
-- configuration, on the tokens of Config. What an error says is not modelled.
pub mod Lengths
pub mod Loops
pub mod Validity
use project_sh_fms.Prelude.{
  ℕ, zero, suc, ◌+◌, Bool, true, false, List, [], ◌∷◌, ◌++◌, map, Option, none, some, Text, codes,
  if◌then◌else◌, ltb, text_eq, length,
}
use project_sh_fms.Number.{Number}
use project_sh_fms.Collector.{TagDef}
use project_sh_fms.Collector.Config.{ws, eat, str, boolean, skip_value, left}

-- What a parser gives: what it has read and the text that is left, or an error. The bound on the turns
-- of a loop is not the source's.
pub data Result (A : Type 0) : Type 0 where
  parsed : A → Text → Result A
  refused : Result A
  out_of_turns : Result A

module _ {A : Type 0} where
  abbrev pub and_then : {B : Type 0} → (A → Text → Result B) → Result A → Result B
  and_then f (parsed a s) = f a s
  and_then f refused = refused
  and_then f out_of_turns = out_of_turns

  -- A value that was read for a field.
  abbrev pub stored : {B : Type 0} → (B → A) → Option (B × Text) → Result A
  stored f none = refused
  stored f (some (b, s)) = parsed (f b) s

  abbrev pub skipped : A → Option Text → Result A
  skipped a none = refused
  skipped a (some s) = parsed a s

abbrev pub is_empty : {A : Type 0} → List A → Bool
is_empty [] = true
is_empty (x ∷ xs) = false

module _ (r : Number) where
  open r use {Num, lit}

  -- DeviceConfig
  pub record DeviceConfig : Type 0 where
    pub id : Text
    pub protocol : Text
    pub host : Text
    pub port : ℕ
    pub unit_id : ℕ
    pub timeout_ms : ℕ
    pub read_start : ℕ
    pub read_count : ℕ
    pub tags : List (TagDef r)

  -- AppConfig
  pub record AppConfig : Type 0 where
    pub scan_period_ms : ℕ
    pub gw_host : Text
    pub gw_port : ℕ
    pub gw_path : Text
    pub api_key : Text
    pub devices : List DeviceConfig

  abbrev pub new_tag : TagDef r
  new_tag = record {
    name = [];
    device = [];
    address = 0;
    words = 1;
    is_float = false;
    scale = lit 1 0;
    offset = lit 0 0;
    deadband = lit 0 0;
  }

  abbrev pub new_device : DeviceConfig
  new_device = record {
    id = [];
    protocol = [];
    host = [];
    port = 502;
    unit_id = 1;
    timeout_ms = 1000;
    read_start = 0;
    read_count = 64;
    tags = [];
  }

  abbrev pub new_config : AppConfig
  new_config = record {
    scan_period_ms = 1000;
    gw_host = codes "127.0.0.1";
    gw_port = 5080;
    gw_path = codes "/api/v1/tags/batch";
    api_key = [];
    devices = [];
  }

  -- The runtime's isspace and strtod, and the conversion of a double to int, which is not negative in a
  -- configuration.
  module _ (space : ℕ → Bool) (strtod : Text → Option (Num × Text)) (to_int : Num → ℕ) where
    abbrev pub strtod_left : Text → Option Text
    strtod_left s = left space (λ t. none) (strtod s)

    abbrev pub string_of : Text → Option (Text × Text)
    string_of s = str space strtod_left s

    -- num
    unfoldable pub num : Text → Option (Num × Text)
    num s = strtod (ws space strtod_left s)

    abbrev pub skip : Text → Option Text
    skip s = skip_value space strtod_left s

    abbrev pub eats : ℕ → Text → Option Text
    eats c s = eat space strtod_left c s

    module _ {A : Type 0} where
      abbrev pub go_on : (A → Text → Result A) → A → Text → Option Text → Result A
      go_on again a s none = parsed a s
      go_on again a s (some rest) = again a rest

      -- `while (p.eat(','))`
      abbrev pub comma : (A → Text → Result A) → A → Text → Result A
      comma again a s = go_on again a s (eats b',' s)

      abbrev pub after_colon : (Text → A → Text → Result A) → Text → A → Option Text → Result A
      after_colon field k a none = refused
      after_colon field k a (some s) = field k a s

      abbrev pub after_key : (Text → A → Text → Result A) → A → Option (Text × Text) → Result A
      after_key field a none = refused
      after_key field a (some (k, s)) = after_colon field k a (eats b':' s)

      -- The loop over the members of an object.
      unfoldable pub members : ℕ → (Text → A → Text → Result A) → A → Text → Result A
      members zero field a s = out_of_turns
      members (suc n) field a s =
          and_then (comma (members n field)) (after_key field a (string_of s))

      abbrev pub closed : ℕ → A → Text → Result A
      closed c a s = skipped a (eats c s)

      abbrev pub opened : (Text → A → Text → Result A) → A → Option Text → Result A
      opened field a none = refused
      opened field a (some s) = and_then (closed b'}') (members (suc (length s)) field a s)

      -- An object, from its bracket to the other.
      unfoldable pub object : (Text → A → Text → Result A) → A → Text → Result A
      object field a s = opened field a (eats b'{' s)

      -- The loop over the elements of an array, which `element` adds.
      unfoldable pub elements : ℕ → (A → Text → Result A) → A → Text → Result A
      elements zero element a s = out_of_turns
      elements (suc n) element a s = and_then (comma (elements n element)) (element a s)

      abbrev pub unless_empty : (A → Text → Result A) → A → Text → Option Text → Result A
      unless_empty element a s (some rest) = parsed a s
      unless_empty element a s none = elements (suc (length s)) element a s

      abbrev pub listed : (A → Text → Result A) → A → Option Text → Result A
      listed element a none = refused
      listed element a (some s) = and_then (closed b']') (unless_empty element a s (eats b']' s))

      unfoldable pub array : (A → Text → Result A) → A → Text → Result A
      array element a s = listed element a (eats b'[' s)

    abbrev pub tag_field : Text → TagDef r → Text → Result (TagDef r)
    tag_field k t s =
        if text_eq k (codes "name")
        then stored (λ v. record t { name = v }) (string_of s)
        else if text_eq k (codes "unit")
        then stored (λ v. t) (string_of s)
        else if text_eq k (codes "desc")
        then stored (λ v. t) (string_of s)
        else if text_eq k (codes "address")
        then stored (λ v. record t { address = to_int v }) (num s)
        else if text_eq k (codes "words")
        then stored (λ v. record t { words = to_int v }) (num s)
        else if text_eq k (codes "scale")
        then stored (λ v. record t { scale = v }) (num s)
        else if text_eq k (codes "offset")
        then stored (λ v. record t { offset = v }) (num s)
        else if text_eq k (codes "deadband")
        then stored (λ v. record t { deadband = v }) (num s)
        else if text_eq k (codes "float")
        then stored (λ v. record t { is_float = v }) (boolean space strtod_left s)
        else skipped t (skip s)

    abbrev pub named_tag : TagDef r → Text → Result (TagDef r)
    named_tag t s = if is_empty t.name then refused else parsed t s

    -- parse_tag
    unfoldable pub parse_tag : Text → Result (TagDef r)
    parse_tag s = and_then named_tag (object tag_field new_tag s)

    abbrev pub add_tag : DeviceConfig → Text → Result DeviceConfig
    add_tag d s =
        and_then
          (λ t rest. parsed (record d { tags = d.tags ++ record t { device = d.id } ∷ [] }) rest)
          (parse_tag s)

    abbrev pub device_field : Text → DeviceConfig → Text → Result DeviceConfig
    device_field k d s =
        if text_eq k (codes "id")
        then stored (λ v. record d { id = v }) (string_of s)
        else if text_eq k (codes "protocol")
        then stored (λ v. record d { protocol = v }) (string_of s)
        else if text_eq k (codes "host")
        then stored (λ v. record d { host = v }) (string_of s)
        else if text_eq k (codes "port")
        then stored (λ v. record d { port = to_int v }) (num s)
        else if text_eq k (codes "unit_id")
        then stored (λ v. record d { unit_id = to_int v }) (num s)
        else if text_eq k (codes "timeout_ms")
        then stored (λ v. record d { timeout_ms = to_int v }) (num s)
        else if text_eq k (codes "read_start")
        then stored (λ v. record d { read_start = to_int v }) (num s)
        else if text_eq k (codes "read_count")
        then stored (λ v. record d { read_count = to_int v }) (num s)
        else if text_eq k (codes "tags")
        then array add_tag d s
        else skipped d (skip s)

    abbrev pub owned : DeviceConfig → DeviceConfig
    owned d = record d { tags = map {B = TagDef r} (λ t. record t { device = d.id }) d.tags }

    abbrev pub checked_device : DeviceConfig → Text → Result DeviceConfig
    checked_device d s =
        if is_empty d.id
        then refused
        else if is_empty d.protocol
        then refused
        else if is_empty d.host
        then refused
        else parsed (owned d) s

    -- parse_device
    unfoldable pub parse_device : Text → Result DeviceConfig
    parse_device s = and_then checked_device (object device_field new_device s)

    abbrev pub add_device : AppConfig → Text → Result AppConfig
    add_device c s =
        and_then (λ d rest. parsed (record c { devices = c.devices ++ d ∷ [] }) rest)
          (parse_device s)

    abbrev pub gateway_field : Text → AppConfig → Text → Result AppConfig
    gateway_field k c s =
        if text_eq k (codes "host")
        then stored (λ v. record c { gw_host = v }) (string_of s)
        else if text_eq k (codes "path")
        then stored (λ v. record c { gw_path = v }) (string_of s)
        else if text_eq k (codes "api_key")
        then stored (λ v. record c { api_key = v }) (string_of s)
        else if text_eq k (codes "port")
        then stored (λ v. record c { gw_port = to_int v }) (num s)
        else skipped c (skip s)

    abbrev pub root_field : Text → AppConfig → Text → Result AppConfig
    root_field k c s =
        if text_eq k (codes "scan_period_ms")
        then stored (λ v. record c { scan_period_ms = to_int v }) (num s)
        else if text_eq k (codes "gateway")
        then object gateway_field c s
        else if text_eq k (codes "devices")
        then array add_device c s
        else skipped c (skip s)

    abbrev pub checked_config : AppConfig → Text → Result AppConfig
    checked_config c s =
        if is_empty c.devices
        then refused
        else if ltb c.scan_period_ms 100
        then refused
        else parsed c s

    -- load_config, of a file that can be opened.
    unfoldable pub load_config : Text → Result AppConfig
    load_config s = and_then checked_config (object root_field new_config s)
