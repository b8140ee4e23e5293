-- ===== src/Characteristics/Making.antt =====
-- esp_hap_char.c: how a characteristic is made, described, constrained and asked.
use nina_fw_homekit.Prelude.{
  ℕ, Bool, false, not, ◌||◌, Option, none, some, List, length, ltb, ◌==◌, if◌then◌else◌,
}
use nina_fw_homekit.Keystore.{Text}
use nina_fw_homekit.Sessions.{set_bit, test_bit}
use nina_fw_homekit.Characteristics.{
  Floats, Format, Blob, HapVal, HapChar, zero_val, strdup, signed_lt, char_string_max_len, min_flag,
  max_flag, step_flag, maxlen_flag,
}
use nina_fw_homekit.Characteristics.Format.{
  format_bool, format_uint8, format_uint16, format_uint32, format_uint64, format_int, format_float,
  format_string, format_tlv8, format_data,
}

-- Whether a string is longer than a characteristic may hold, by its format.
unfoldable pub too_long : Format → Option Text → Bool
too_long format_string (some s) = ltb char_string_max_len (length s)
too_long format s = false

module _ (fl : Floats) where
  open fl use {Float, nonzero}

  -- The object that calloc gives, with its first fields set.
  unfoldable pub new_char : Text → ℕ → Format → HapVal fl → HapChar fl
  new_char type_uuid permission format val = record {
    iid = 0;
    type_uuid = type_uuid;
    permission = permission;
    format = format;
    val = val;
    parent = none;
    constraint_flags = 0;
    max = zero_val fl;
    min = zero_val fl;
    step = zero_val fl;
    ev_ctrls = 0;
    owner_ctrl = 0;
    description = none;
    unit = none;
    valid_vals = none;
    valid_vals_range = none;
    update_called = false;
  }

  -- `hap_char_create`; `memory` is whether calloc has some.
  unfoldable pub hap_char_create : Bool → Text → ℕ → Format → HapVal fl → Option (HapChar fl)
  hap_char_create memory type_uuid permission format val =
      if too_long format val.s
      then none
      else if memory
      then some (new_char type_uuid permission format val)
      else none

  unfoldable pub hap_char_bool_create : Bool → Text → ℕ → Bool → Option (HapChar fl)
  hap_char_bool_create memory type_uuid perms b =
      hap_char_create memory type_uuid perms format_bool (record (zero_val fl) { b = b })

  unfoldable pub hap_char_uint8_create : Bool → Text → ℕ → ℕ → Option (HapChar fl)
  hap_char_uint8_create memory type_uuid perms u =
      hap_char_create memory type_uuid perms format_uint8 (record (zero_val fl) { u = u })

  unfoldable pub hap_char_uint16_create : Bool → Text → ℕ → ℕ → Option (HapChar fl)
  hap_char_uint16_create memory type_uuid perms u =
      hap_char_create memory type_uuid perms format_uint16 (record (zero_val fl) { u = u })

  unfoldable pub hap_char_uint32_create : Bool → Text → ℕ → ℕ → Option (HapChar fl)
  hap_char_uint32_create memory type_uuid perms u =
      hap_char_create memory type_uuid perms format_uint32 (record (zero_val fl) { u = u })

  unfoldable pub hap_char_uint64_create : Bool → Text → ℕ → ℕ → Option (HapChar fl)
  hap_char_uint64_create memory type_uuid perms u =
      hap_char_create memory type_uuid perms format_uint64 (record (zero_val fl) { i64 = u })

  unfoldable pub hap_char_int_create : Bool → Text → ℕ → ℕ → Option (HapChar fl)
  hap_char_int_create memory type_uuid perms i =
      hap_char_create memory type_uuid perms format_int (record (zero_val fl) { u = i })

  unfoldable pub hap_char_float_create : Bool → Text → ℕ → Float → Option (HapChar fl)
  hap_char_float_create memory type_uuid perms f =
      hap_char_create memory type_uuid perms format_float (record (zero_val fl) { f = f })

  -- `copied` is whether strdup has memory.
  unfoldable pub hap_char_string_create : Bool → Bool → Text → ℕ → Option Text → Option (HapChar fl)
  hap_char_string_create copied memory type_uuid perms s =
      hap_char_create memory type_uuid perms format_string
        (record (zero_val fl) { s = strdup copied s })

  -- A null pointer leaves a value that is all zero.
  unfoldable pub blob_val : Option Blob → HapVal fl
  blob_val none = zero_val fl
  blob_val (some d) = record (zero_val fl) { d = d }

  unfoldable pub hap_char_data_create : Bool → Text → ℕ → Option Blob → Option (HapChar fl)
  hap_char_data_create memory type_uuid perms d =
      hap_char_create memory type_uuid perms format_data (blob_val d)

  unfoldable pub hap_char_tlv8_create : Bool → Text → ℕ → Option Blob → Option (HapChar fl)
  hap_char_tlv8_create memory type_uuid perms t =
      hap_char_create memory type_uuid perms format_tlv8 (blob_val t)

  -- The flags of a range, with or without a step.
  unfoldable pub range_flags : Bool → ℕ → ℕ
  range_flags stepped flags =
      let ranged = set_bit (set_bit flags min_flag) max_flag in
      if stepped then set_bit ranged step_flag else ranged

  unfoldable pub hap_char_int_set_constraints : ℕ → ℕ → ℕ → HapChar fl → HapChar fl
  hap_char_int_set_constraints min max step hc = record hc {
    min = record hc.min { u = min };
    max = record hc.max { u = max };
    step = record hc.step { u = step };
    constraint_flags = range_flags (not (step == 0)) hc.constraint_flags;
  }

  unfoldable pub hap_char_float_set_constraints : Float → Float → Float → HapChar fl → HapChar fl
  hap_char_float_set_constraints min max step hc = record hc {
    min = record hc.min { f = min };
    max = record hc.max { f = max };
    step = record hc.step { f = step };
    constraint_flags = range_flags (nonzero step) hc.constraint_flags;
  }

  unfoldable pub hap_char_string_set_maxlen : ℕ → HapChar fl → HapChar fl
  hap_char_string_set_maxlen maxlen hc = record hc {
    max = record hc.max {
      u = if signed_lt char_string_max_len maxlen then char_string_max_len else maxlen;
    };
    constraint_flags = set_bit hc.constraint_flags maxlen_flag;
  }

  unfoldable pub hap_char_add_description : Text → HapChar fl → HapChar fl
  hap_char_add_description description hc = record hc { description = some description }

  unfoldable pub hap_char_add_unit : Text → HapChar fl → HapChar fl
  hap_char_add_unit unit hc = record hc { unit = some unit }

  -- `hap_char_add_valid_vals`; `memory` is whether malloc has some.
  unfoldable pub hap_char_add_valid_vals : Bool → List ℕ → HapChar fl → HapChar fl
  hap_char_add_valid_vals memory vals hc = record hc {
    valid_vals = if memory then some vals else none;
  }

  -- `hap_char_add_valid_vals_range`, as if its array had room for both bytes.
  unfoldable pub hap_char_add_valid_vals_range : Bool → ℕ → ℕ → HapChar fl → HapChar fl
  hap_char_add_valid_vals_range memory start_val end_val hc = record hc {
    valid_vals_range = if memory then some (start_val, end_val) else none;
  }

  -- The bounds, where the flags say that there are any.
  unfoldable pub hap_char_get_min_val : HapChar fl → Option (HapVal fl)
  hap_char_get_min_val hc = if test_bit hc.constraint_flags min_flag then some hc.min else none

  unfoldable pub hap_char_get_max_val : HapChar fl → Option (HapVal fl)
  hap_char_get_max_val hc =
      if test_bit hc.constraint_flags max_flag || test_bit hc.constraint_flags maxlen_flag
      then some hc.max
      else none

  unfoldable pub hap_char_get_step_val : HapChar fl → Option (HapVal fl)
  hap_char_get_step_val hc = if test_bit hc.constraint_flags step_flag then some hc.step else none

  -- The owner of the last change.
  unfoldable pub hap_char_set_owner_ctrl : ℕ → HapChar fl → HapChar fl
  hap_char_set_owner_ctrl index hc = record hc { owner_ctrl = set_bit 0 index }

  unfoldable pub hap_char_is_ctrl_owner : ℕ → HapChar fl → Bool
  hap_char_is_ctrl_owner index hc = test_bit hc.owner_ctrl index
