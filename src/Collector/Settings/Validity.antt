-- ===== src/Collector/Settings/Validity.antt =====
-- What a configuration that the collector accepts has, and that its parser comes to an end.
use Prim.Native.Nat.{◌≤◌, ◌<◌}
use project_sh_fms.Prelude.{
  ℕ, suc, ◌≡◌, ◌⊎◌, refl, Bool, true, false, List, [], ◌∷◌, ◌++◌, map, Option, none, Text, codes,
  ltb, text_eq, length, All, arith, Bool-cases, inl, inr,
}
use project_sh_fms.Number.{Number}
use project_sh_fms.Collector.{TagDef}
use project_sh_fms.Collector.Config.{ws}
use project_sh_fms.Collector.Settings.{
  stored, skipped, is_empty, DeviceConfig, AppConfig, num, tag_field, named_tag, parse_tag, add_tag,
  device_field, checked_device, parse_device, add_device, gateway_field, root_field, checked_config,
  load_config, new_tag, new_device, new_config, string_of, skip, strtod_left,
}
use project_sh_fms.Collector.Settings.Lengths.{
  Left, LeftText, Left-later, length-ws, str-Left, boolean-Left, skip_value-Left, left-Left,
}
use project_sh_fms.Collector.Settings.Loops.{
  Good, Good-later, if-Good, stored-Good, skipped-Good, and_then-Good, object-Good, array-Good,
}

module _ (r : Number) where
  -- A tag with a name, in the device of that id.
  abbrev pub IsOwned : Text → TagDef r → Type 0
  IsOwned id t = (is_empty t.name ≡ false) × (t.device ≡ id)

  -- A device with an id, a protocol and a host, whose tags have names and are its own.
  abbrev pub IsComplete : DeviceConfig r → Type 0
  IsComplete d =
      (is_empty d.id ≡ false)
      × (is_empty d.protocol ≡ false)
      × (is_empty d.host ≡ false)
      × All (IsOwned d.id) d.tags

  -- A configuration with devices, all complete, that are scanned every 100 milliseconds at most often.
  abbrev pub IsAccepted : AppConfig r → Type 0
  IsAccepted c = (is_empty c.devices ≡ false) × (100 ≤ c.scan_period_ms) × All IsComplete c.devices

append_one-All :
    {A : Type 0} (P : A → Type 0) (xs : List A) (x : A) → All P xs → P x → All P (xs ++ x ∷ [])
append_one-All P [] x h p = (p, tt)
append_one-All P (y ∷ xs) x h p = (h.0, append_one-All P xs x h.1 p)

module _ (r : Number) (space : ℕ → Bool) (strtod : Text → Option (r.Num × Text))
    (to_int : r.Num → ℕ) where
  module _ (h : (s : Text) → Left (suc (length s)) (strtod s)) where
    string_of-Left : (s : Text) → Left (suc (length s)) (string_of r space strtod to_int s)
    string_of-Left s =
        Left-later (length s) (suc (length s)) _
          (str-Left space (strtod_left r space strtod to_int) s) (omega arith)

    num-Left : (s : Text) → Left (suc (length s)) (num r space strtod to_int s)
    unfolding num
    num-Left s =
        let t = ws space (strtod_left r space strtod to_int) s in
        let l = length-ws space (strtod_left r space strtod to_int) s in
        Left-later (suc (length t)) (suc (length s)) _ (h t) (omega (arith, l))

    skip-Left : (s : Text) → LeftText (suc (length s)) (skip r space strtod to_int s)
    skip-Left s =
        skip_value-Left space (strtod_left r space strtod to_int)
          (λ t. left-Left space (λ u. none) (suc (length t)) (strtod t) (h t)) s

    -- The fields that are read as strings and numbers, and those that are skipped.
    module _ {A : Type 0} (P : A → Type 0) (s : Text) where
      string_field :
          (f : Text → A)
          → ((v : Text) → P (f v))
          → Good P (suc (length s)) (stored f (string_of r space strtod to_int s))
      string_field f p = stored-Good P f (suc (length s)) _ (string_of-Left s) p

      num_field :
          (f : r.Num → A)
          → ((v : r.Num) → P (f v))
          → Good P (suc (length s)) (stored f (num r space strtod to_int s))
      num_field f p = stored-Good P f (suc (length s)) _ (num-Left s) p

      other_field :
          (a : A) → P a → Good P (suc (length s)) (skipped a (skip r space strtod to_int s))
      other_field a p = skipped-Good P a (suc (length s)) _ (skip-Left s) p

    tag_field-Good :
        (k : Text) (t : TagDef r) (s : Text)
        → Unit {0}
        → Good (λ u. Unit {0}) (suc (length s)) (tag_field r space strtod to_int k t s)
    tag_field-Good k t s u =
        let P : TagDef r → Type 0 = λ u. Unit {0} in
        let n = suc (length s) in
        if-Good P (text_eq k (codes "name")) n _ _ (string_field P s _ (λ v. tt)) (
          if-Good P (text_eq k (codes "unit")) n _ _ (string_field P s _ (λ v. tt)) (
            if-Good P (text_eq k (codes "desc")) n _ _ (string_field P s _ (λ v. tt)) (
              if-Good P (text_eq k (codes "address")) n _ _ (num_field P s _ (λ v. tt)) (
                if-Good P (text_eq k (codes "words")) n _ _ (num_field P s _ (λ v. tt)) (
                  if-Good P (text_eq k (codes "scale")) n _ _ (num_field P s _ (λ v. tt)) (
                    if-Good P (text_eq k (codes "offset")) n _ _ (num_field P s _ (λ v. tt)) (
                      if-Good P (text_eq k (codes "deadband")) n _ _ (num_field P s _ (λ v. tt)) (
                        if-Good P (text_eq k (codes "float")) n _ _
                          (stored-Good P _ n _
                            (boolean-Left space (strtod_left r space strtod to_int) s) (λ v. tt))
                          (other_field P s t tt)))))))))

    abbrev IsNamed : TagDef r → Type 0
    IsNamed t = is_empty t.name ≡ false

    parse_tag-Good : (s : Text) → Good IsNamed (length s) (parse_tag r space strtod to_int s)
    unfolding parse_tag
    parse_tag-Good s =
        and_then-Good (λ u. Unit {0}) IsNamed _ (length s) (length s) _
          (object-Good r space strtod to_int (λ u. Unit {0}) _ tag_field-Good (new_tag r) s tt)
          (λ t u p l. go t u l (Bool-cases (is_empty t.name)))
      where
        go :
            (t : TagDef r) (u : Text)
            → length u < length s
            → (is_empty t.name ≡ true) ⊎ (is_empty t.name ≡ false)
            → Good IsNamed (length s) (named_tag r space strtod to_int t u)
        go t u l (inl e) = rw e tt
        go t u l (inr e) = rw e (e, l)

    -- The tags so far have names.
    abbrev Tagged : DeviceConfig r → Type 0
    Tagged d = All IsNamed d.tags

    add_tag-Good :
        (d : DeviceConfig r) (s : Text)
        → Tagged d
        → Good Tagged (length s) (add_tag r space strtod to_int d s)
    add_tag-Good d s p =
        and_then-Good IsNamed Tagged _ (length s) (length s) _ (parse_tag-Good s)
          (λ t u q l. (append_one-All IsNamed d.tags (record t { device = d.id }) p q, l))

    device_field-Good :
        (k : Text) (d : DeviceConfig r) (s : Text)
        → Tagged d
        → Good Tagged (suc (length s)) (device_field r space strtod to_int k d s)
    device_field-Good k d s p =
        let n = suc (length s) in
        if-Good Tagged (text_eq k (codes "id")) n _ _ (string_field Tagged s _ (λ v. p)) (
          if-Good Tagged (text_eq k (codes "protocol")) n _ _ (string_field Tagged s _ (λ v. p)) (
            if-Good Tagged (text_eq k (codes "host")) n _ _ (string_field Tagged s _ (λ v. p)) (
              if-Good Tagged (text_eq k (codes "port")) n _ _ (num_field Tagged s _ (λ v. p)) (
                if-Good Tagged (text_eq k (codes "unit_id")) n _ _ (num_field Tagged s _ (λ v. p)) (
                  if-Good Tagged (text_eq k (codes "timeout_ms")) n _ _
                    (num_field Tagged s _ (λ v. p))
                    (if-Good Tagged (text_eq k (codes "read_start")) n _ _
                      (num_field Tagged s _ (λ v. p))
                      (if-Good Tagged (text_eq k (codes "read_count")) n _ _
                        (num_field Tagged s _ (λ v. p))
                        (if-Good Tagged (text_eq k (codes "tags")) n _ _
                          (Good-later Tagged (length s) n _
                            (array-Good r space strtod to_int Tagged _ add_tag-Good d s p)
                            (omega arith))
                          (other_field Tagged s d p)))))))))

    owned_lem :
        (id : Text) (ts : List (TagDef r))
        → All IsNamed ts
        → All (IsOwned r id) (map {B = TagDef r} (λ t. record t { device = id }) ts)
    owned_lem id [] h = tt
    owned_lem id (t ∷ ts) h = ((h.0, refl), owned_lem id ts h.1)

    parse_device-Good :
        (s : Text) → Good (IsComplete r) (length s) (parse_device r space strtod to_int s)
    unfolding parse_device
    parse_device-Good s =
        and_then-Good Tagged (IsComplete r) _ (length s) (length s) _
          (object-Good r space strtod to_int Tagged _ device_field-Good (new_device r) s tt)
          (λ d u p l.
            go d u p l (Bool-cases (is_empty d.id)) (Bool-cases (is_empty d.protocol))
              (Bool-cases (is_empty d.host)))
      where
        go :
            (d : DeviceConfig r) (u : Text)
            → Tagged d
            → length u < length s
            → (is_empty d.id ≡ true) ⊎ (is_empty d.id ≡ false)
            → (is_empty d.protocol ≡ true) ⊎ (is_empty d.protocol ≡ false)
            → (is_empty d.host ≡ true) ⊎ (is_empty d.host ≡ false)
            → Good (IsComplete r) (length s) (checked_device r space strtod to_int d u)
        go d u p l (inl e) b c = rw e tt
        go d u p l (inr e) (inl b) c = rw (e, b) tt
        go d u p l (inr e) (inr b) (inl c) = rw (e, b, c) tt
        go d u p l (inr e) (inr b) (inr c) = rw (e, b, c) ((e, b, c, owned_lem d.id d.tags p), l)

    -- The devices so far are complete.
    abbrev Equipped : AppConfig r → Type 0
    Equipped c = All (IsComplete r) c.devices

    add_device-Good :
        (c : AppConfig r) (s : Text)
        → Equipped c
        → Good Equipped (length s) (add_device r space strtod to_int c s)
    add_device-Good c s p =
        and_then-Good (IsComplete r) Equipped _ (length s) (length s) _ (parse_device-Good s)
          (λ d u q l. (append_one-All (IsComplete r) c.devices d p q, l))

    gateway_field-Good :
        (k : Text) (c : AppConfig r) (s : Text)
        → Equipped c
        → Good Equipped (suc (length s)) (gateway_field r space strtod to_int k c s)
    gateway_field-Good k c s p =
        let n = suc (length s) in
        if-Good Equipped (text_eq k (codes "host")) n _ _ (string_field Equipped s _ (λ v. p)) (
          if-Good Equipped (text_eq k (codes "path")) n _ _ (string_field Equipped s _ (λ v. p)) (
            if-Good Equipped (text_eq k (codes "api_key")) n _ _
              (string_field Equipped s _ (λ v. p))
              (if-Good Equipped (text_eq k (codes "port")) n _ _ (num_field Equipped s _ (λ v. p))
                (other_field Equipped s c p))))

    root_field-Good :
        (k : Text) (c : AppConfig r) (s : Text)
        → Equipped c
        → Good Equipped (suc (length s)) (root_field r space strtod to_int k c s)
    root_field-Good k c s p =
        let n = suc (length s) in
        if-Good Equipped (text_eq k (codes "scan_period_ms")) n _ _
          (num_field Equipped s _ (λ v. p))
          (if-Good Equipped (text_eq k (codes "gateway")) n _ _
            (Good-later Equipped (length s) n _
              (object-Good r space strtod to_int Equipped _ gateway_field-Good c s p) (omega arith))
            (if-Good Equipped (text_eq k (codes "devices")) n _ _
              (Good-later Equipped (length s) n _
                (array-Good r space strtod to_int Equipped _ add_device-Good c s p) (omega arith))
              (other_field Equipped s c p)))

    -- Where what strtod leaves is no longer than what it was given: the parser of the configuration
    -- comes to an end on every text, and what it accepts has devices, scanned every 100 milliseconds at
    -- most often; each has an id, a protocol and a host, and tags that have names and are its own.
    pub load_config-Good :
        (s : Text) → Good (IsAccepted r) (length s) (load_config r space strtod to_int s)
    unfolding load_config
    load_config-Good s =
        and_then-Good Equipped (IsAccepted r) _ (length s) (length s) _
          (object-Good r space strtod to_int Equipped _ root_field-Good (new_config r) s tt)
          (λ c u p l.
            go c u p l (Bool-cases (is_empty c.devices)) (Bool-cases (ltb c.scan_period_ms 100)))
      where
        go :
            (c : AppConfig r) (u : Text)
            → Equipped c
            → length u < length s
            → (is_empty c.devices ≡ true) ⊎ (is_empty c.devices ≡ false)
            → (ltb c.scan_period_ms 100 ≡ true) ⊎ (ltb c.scan_period_ms 100 ≡ false)
            → Good (IsAccepted r) (length s) (checked_config r space strtod to_int c u)
        go c u p l (inl e) b = rw e tt
        go c u p l (inr e) (inl b) = rw (e, b) tt
        go c u p l (inr e) (inr b) = rw (e, b) ((e, ground arith, p), l)
