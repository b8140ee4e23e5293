-- ===== src/Tests/Characteristics.antt =====
-- A characteristic of 8 bits with a range from 10 to 100 in steps of 5, whose value is 20.
use nina_fw_homekit.Prelude.{
  ℕ, ◌≡◌, ◌≢◌, ◌⊎◌, inr, refl, arith, true, false, not, none, some, [], ◌∷◌, ltb, ◌==◌,
}
use nina_fw_homekit.Sessions.{test_bit}
use nina_fw_homekit.Characteristics.{
  Floats, HapVal, HapChar, zero_val, perm_special_read, hap_char_check_val_constraints,
  check_format, check_uint, set_val, set_num, after_set, hap_char_update_val,
}
use nina_fw_homekit.Characteristics.Format.{format_uint8, format_string}
use nina_fw_homekit.Characteristics.Constraints.{IsAllowed, hap_char_update_val-IsAllowed}
use nina_fw_homekit.Characteristics.Updates.{hap_char_update_val_again, hap_char_update_val-false}

pub same : (a b : ℕ) → not (a == b) ≡ false → a ≡ b
same a b h = ground arith

-- Whole numbers in place of floats.
abbrev pub whole : Floats
whole = record {
  Float = ℕ;
  zero = 0;
  lt = ltb;
  ne = λ a b. not (a == b);
  nonzero = λ a. not (a == 0);
  lt_left = λ a b c h. rw (same a b h) refl;
  lt_right = λ a b c h. rw (same a b h) refl;
}

abbrev number : ℕ → HapVal whole
number n = record (zero_val whole) { u = n }

abbrev hue : HapChar whole
hue = record {
  iid = 9;
  type_uuid = b'1' ∷ b'3' ∷ [];
  permission = 7;
  format = format_uint8;
  val = number 20;
  parent = some 1;
  constraint_flags = 7;
  max = number 100;
  min = number 10;
  step = number 5;
  ev_ctrls = 0;
  owner_ctrl = 1;
  description = none;
  unit = none;
  valid_vals = none;
  valid_vals_range = none;
  update_called = false;
}

hue-IsAllowed : IsAllowed whole hue
hue-IsAllowed = inr (omega arith, omega arith, inr (2, refl))

hap_char_update_val-IsAllowed_example :
    IsAllowed whole (hap_char_update_val whole true hue (number 36)).1
hap_char_update_val-IsAllowed_example =
    hap_char_update_val-IsAllowed whole true hue (number 36) tt hue-IsAllowed

accepted : (hap_char_update_val whole true hue (number 35)).0 ≡ true
unfolding hap_char_update_val hap_char_check_val_constraints check_format check_uint after_set
    set_val set_num
accepted = refl

refused : (hap_char_update_val whole true hue (number 36)).0 ≡ false
unfolding hap_char_update_val hap_char_check_val_constraints check_format check_uint
refused = refl

not_special : test_bit 7 perm_special_read ≡ false
unfolding test_bit
not_special = refl

hap_char_update_val_again_example :
    let hc' = (hap_char_update_val whole true hue (number 35)).1 in
    hap_char_update_val whole true hc' (number 35) ≡ (true, record hc' { owner_ctrl = 0 }, false)
hap_char_update_val_again_example =
    hap_char_update_val_again whole true true hue (number 35) accepted refl not_special

hap_char_update_val-false_example :
    let (ok, hc', notified) = hap_char_update_val whole true hue (number 36) in
    (notified ≡ false)
    × ((hc' ≡ record hue { update_called = true })
        ⊎ ((format_uint8 ≡ format_string)
            × (true ≡ false)
            × ((number 36).s ≢ none)
            × (hc'.val ≡ record hue.val { s = none })))
hap_char_update_val-false_example = hap_char_update_val-false whole true hue (number 36) refused
