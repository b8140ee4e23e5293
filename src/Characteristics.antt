-- ===== src/Characteristics.antt =====
-- esp_hap_char.c, priv_includes/esp_hap_char.h: a characteristic, its value, and the constraints on it.
pub mod Constraints
pub mod Updates
pub mod Making
use nina_fw_homekit.Prelude.{
  ℕ, ◌≡◌, ◌+◌, ◌-◌, ◌%◌, ◌^◌, Bool, true, false, not, ◌&&◌, ◌||◌, Option, none, some, List, [],
  length, ltb, ◌==◌, if◌then◌else◌,
}
use nina_fw_homekit.Prelude.Strings.{bytes_eq}
use nina_fw_homekit.Keystore.{Text}
use nina_fw_homekit.Sessions.{set_bit, test_bit}

abbrev pub char_string_max_len : ℕ
char_string_max_len = 256

-- The bits of `constraint_flags`, and the bit of HAP_CHAR_PERM_SPECIAL_READ.
abbrev pub min_flag : ℕ
min_flag = 0

abbrev pub max_flag : ℕ
max_flag = 1

abbrev pub step_flag : ℕ
step_flag = 2

abbrev pub maxlen_flag : ℕ
maxlen_flag = 3

abbrev pub maxdatalen_flag : ℕ
maxdatalen_flag = 4

abbrev pub perm_special_read : ℕ
perm_special_read = 6

-- `hap_char_format_t`
pub data Format : Type 0 where
  format_none : Format
  format_bool : Format
  format_uint8 : Format
  format_uint16 : Format
  format_uint32 : Format
  format_uint64 : Format
  format_int : Format
  format_float : Format
  format_string : Format
  format_tlv8 : Format
  format_data : Format

-- What the code asks of a C float: its comparisons, whether it is not zero, and the one that
-- calloc leaves. Floats that compare as equal stand alike in every comparison.
pub record Floats : Type 1 where
  pub Float : Type 0
  pub zero : Float
  pub lt : Float → Float → Bool
  pub ne : Float → Float → Bool
  pub nonzero : Float → Bool
  pub lt_left : (a b c : Float) → ne a b ≡ false → lt a c ≡ lt b c
  pub lt_right : (a b c : Float) → ne a b ≡ false → lt c a ≡ lt c b

-- `hap_data_val_t` and `hap_tlv8_val_t`: the address of the bytes, and their number.
pub record Blob : Type 0 where
  pub buf : ℕ
  pub buflen : ℕ

module _ (fl : Floats) where
  open fl use {Float, zero, lt, ne, nonzero}

  -- `hap_val_t`. The code reads a union by the field of the format, which is the field that it
  -- wrote; `i` and `u` are the same 32 bits, read as a signed or as an unsigned number.
  pub record HapVal : Type 0 where
    pub b : Bool
    pub u : ℕ
    pub i64 : ℕ
    pub f : Float
    pub s : Option Text
    pub d : Blob

  -- `__hap_char_t`; the chain of `next_char` is the list of the service, and `ev` is never used.
  pub record HapChar : Type 0 where
    pub iid : ℕ
    pub type_uuid : Text
    pub permission : ℕ
    pub format : Format
    pub val : HapVal
    pub parent : Option ℕ
    pub constraint_flags : ℕ
    pub max : HapVal
    pub min : HapVal
    pub step : HapVal
    pub ev_ctrls : ℕ
    pub owner_ctrl : ℕ
    pub description : Option Text
    pub unit : Option Text
    pub valid_vals : Option (List ℕ)
    pub valid_vals_range : Option (ℕ × ℕ)
    pub update_called : Bool

  -- A union that is all zero.
  abbrev pub zero_val : HapVal
  zero_val = record {
    b = false;
    u = 0;
    i64 = 0;
    f = zero;
    s = none;
    d = record { buf = 0; buflen = 0 };
  }

-- The order of signed numbers on 32 bits, and the size of a signed number.
unfoldable pub signed_lt : ℕ → ℕ → Bool
signed_lt a b = ltb ((a + 2 ^ 31) % 2 ^ 32) ((b + 2 ^ 31) % 2 ^ 32)

unfoldable pub magnitude : ℕ → ℕ
magnitude a = if ltb a (2 ^ 31) then a else 2 ^ 32 - a

-- The branches of `hap_char_check_val_constraints` for the signed and the unsigned formats. The
-- signed difference wraps around; where it leaves the range of an int, which takes a range of 2 ^ 31
-- or more, C does not define it.
unfoldable pub check_int : ℕ → ℕ → ℕ → ℕ → Bool
check_int min max step value =
    if signed_lt max value || signed_lt value min
    then false
    else if step == 0
    then true
    else magnitude ((value + 2 ^ 32 - min) % 2 ^ 32) % magnitude step == 0

unfoldable pub check_uint : ℕ → ℕ → ℕ → ℕ → Bool
check_uint min max step value =
    if ltb max value || ltb value min
    then false
    else if step == 0
    then true
    else (value - min) % step == 0

-- Whether two strings are both there and the same, as `hap_char_update_val` tests.
unfoldable pub same_string : Option Text → Option Text → Bool
same_string none t = false
same_string (some s) none = false
same_string (some s) (some t) = bytes_eq s t

-- `strdup`: without memory, null.
unfoldable pub strdup : Bool → Option Text → Option Text
strdup memory none = none
strdup memory (some s) = if memory then some s else none

module _ (fl : Floats) where
  open fl use {Float, zero, lt, ne, nonzero}

  unfoldable pub check_float : Float → Float → Float → Bool
  check_float min max value = not (lt max value || lt value min)

  -- `hap_char_check_val_constraints`
  unfoldable pub check_format : Format → HapVal fl → HapVal fl → HapVal fl → HapVal fl → Bool
  check_format format_int min max step val = check_int min.u max.u step.u val.u
  check_format format_float min max step val = check_float min.f max.f val.f
  check_format format_uint8 min max step val = check_uint min.u max.u step.u val.u
  check_format format_uint16 min max step val = check_uint min.u max.u step.u val.u
  check_format format_uint32 min max step val = check_uint min.u max.u step.u val.u
  check_format format_uint64 min max step val = true
  check_format format_none min max step val = true
  check_format format_bool min max step val = true
  check_format format_string min max step val = true
  check_format format_tlv8 min max step val = true
  check_format format_data min max step val = true

  unfoldable pub hap_char_check_val_constraints : HapChar fl → HapVal fl → Bool
  hap_char_check_val_constraints hc val =
      if hc.constraint_flags == 0 then true else check_format hc.format hc.min hc.max hc.step val

  -- What the switch of `hap_char_update_val` does: whether it goes on, whether the value has
  -- changed, and the new value.
  unfoldable pub set_num : HapVal fl → HapVal fl → Bool × Bool × HapVal fl
  set_num old val = (true, not (old.u == val.u), record old { u = val.u })

  unfoldable pub store_string : Bool → HapVal fl → Bool → Option Text → Bool × Bool × HapVal fl
  store_string memory old changed none = (true, changed, record old { s = none })
  store_string memory old changed (some s) =
      (memory, changed, record old { s = strdup memory (some s) })

  unfoldable pub set_string : Bool → HapVal fl → HapVal fl → Bool × Bool × HapVal fl
  set_string memory old val = store_string memory old (not (same_string old.s val.s)) val.s

  unfoldable pub set_val : Format → Bool → HapVal fl → HapVal fl → Bool × Bool × HapVal fl
  set_val format_bool memory old val =
      (true, (old.b && not val.b) || (not old.b && val.b), record old { b = val.b })
  set_val format_int memory old val = set_num old val
  set_val format_uint8 memory old val = set_num old val
  set_val format_uint16 memory old val = set_num old val
  set_val format_uint32 memory old val = set_num old val
  set_val format_float memory old val =
      (true, ne old.f val.f, if ne old.f val.f then record old { f = val.f } else old)
  set_val format_string memory old val = set_string memory old val
  set_val format_data memory old val = (true, true, record old { d = val.d })
  set_val format_tlv8 memory old val = (true, true, record old { d = val.d })
  set_val format_uint64 memory old val = (true, false, old)
  set_val format_none memory old val = (true, false, old)

  -- The end of `hap_char_update_val`: whether it succeeds, the characteristic, and whether it is
  -- handed to `hap_queue_event`.
  unfoldable pub after_set : HapChar fl → Bool × Bool × HapVal fl → Bool × HapChar fl × Bool
  after_set hc (ok, changed, val) =
      let set = record hc { val = val } in
      if not ok
      then (false, set, false)
      else if changed || test_bit hc.permission perm_special_read
      then (true, set, true)
      else (true, record set { owner_ctrl = 0 }, false)

  -- `hap_char_update_val` with pointers that are not null; `memory` is whether `strdup` has some.
  unfoldable pub hap_char_update_val : Bool → HapChar fl → HapVal fl → Bool × HapChar fl × Bool
  hap_char_update_val memory hc val =
      let called = record hc { update_called = true } in
      if hap_char_check_val_constraints called val
      then after_set called (set_val hc.format memory hc.val val)
      else (false, called, false)
