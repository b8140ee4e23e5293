-- ===== src/Characteristics/Updates.antt =====
-- esp_hap_char.c: what an update stores, when it asks for a notification, and what a refused one leaves.
use nina_fw_homekit.Prelude.{
  ℕ, ◌≡◌, ◌≢◌, ◌∙◌, ◌⊎◌, inl, inr, refl, Bool, true, false, not, ◌&&◌, ◌||◌, Option, none, some,
  Bool-cases, ==_refl,
}
use nina_fw_homekit.Keystore.{Text}
use nina_fw_homekit.Sessions.{test_bit}
use nina_fw_homekit.Characteristics.{
  Floats, Format, HapVal, HapChar, perm_special_read, hap_char_check_val_constraints, set_val,
  set_num, set_string, store_string, strdup, after_set, hap_char_update_val,
}
use nina_fw_homekit.Characteristics.Format.{
  format_none, format_bool, format_uint8, format_uint16, format_uint32, format_uint64, format_int,
  format_float, format_string, format_tlv8, format_data,
}

-- The formats whose values are numbers of 32 bits or Booleans.
abbrev pub is_plain : Format → Bool
is_plain format_bool = true
is_plain format_int = true
is_plain format_uint8 = true
is_plain format_uint16 = true
is_plain format_uint32 = true
is_plain format_float = false
is_plain format_uint64 = false
is_plain format_none = false
is_plain format_string = false
is_plain format_tlv8 = false
is_plain format_data = false

module _ (fl : Floats) where
  -- A value holds what another one says in a format. The code does not store 64-bit numbers.
  abbrev pub Holds : Format → HapVal fl → HapVal fl → Type 0
  Holds format_bool a b = a.b ≡ b.b
  Holds format_int a b = a.u ≡ b.u
  Holds format_uint8 a b = a.u ≡ b.u
  Holds format_uint16 a b = a.u ≡ b.u
  Holds format_uint32 a b = a.u ≡ b.u
  Holds format_float a b = (a.f ≡ b.f) ⊎ (fl.ne a.f b.f ≡ false)
  Holds format_string a b = a.s ≡ b.s
  Holds format_tlv8 a b = a.d ≡ b.d
  Holds format_data a b = a.d ≡ b.d
  Holds format_uint64 a b = Unit {0}
  Holds format_none a b = Unit {0}

  store_string-Holds :
      (memory : Bool) (old : HapVal fl) (changed : Bool) (t : Option Text)
      → (store_string fl memory old changed t).0 ≡ true
      → (store_string fl memory old changed t).2.s ≡ t
  unfolding store_string strdup
  store_string-Holds memory old changed none h = refl
  store_string-Holds true old changed (some t) h = refl
  store_string-Holds false old changed (some t) h = cc

  store_string-false :
      (memory : Bool) (old : HapVal fl) (changed : Bool) (t : Option Text)
      → (store_string fl memory old changed t).0 ≡ false
      → (memory ≡ false)
        × (t ≢ none)
        × ((store_string fl memory old changed t).2 ≡ record old { s = none })
  unfolding store_string strdup
  store_string-false memory old changed none h = cc
  store_string-false true old changed (some t) h = cc
  store_string-false false old changed (some t) h = (refl, (λ e. cc), refl)

  set_val-Holds :
      (format : Format) (memory : Bool) (old val : HapVal fl)
      → (set_val fl format memory old val).0 ≡ true
      → Holds format (set_val fl format memory old val).2 val
  unfolding set_val set_num set_string
  set_val-Holds format_bool memory old val h = refl
  set_val-Holds format_int memory old val h = refl
  set_val-Holds format_uint8 memory old val h = refl
  set_val-Holds format_uint16 memory old val h = refl
  set_val-Holds format_uint32 memory old val h = refl
  set_val-Holds format_float memory old val h = elim (Bool-cases (fl.ne old.f val.f)) [
    | inl e ↦ rw e (inl refl)
    | inr e ↦ rw e (inr e)
  ]
  set_val-Holds format_string memory old val h = store_string-Holds memory old _ val.s h
  set_val-Holds format_tlv8 memory old val h = refl
  set_val-Holds format_data memory old val h = refl
  set_val-Holds format_uint64 memory old val h = tt
  set_val-Holds format_none memory old val h = tt

  xor_same : (b : Bool) → ((b && not b) || (not b && b)) ≡ false
  xor_same true = refl
  xor_same false = refl

  set_num_again :
      (old val : HapVal fl)
      → let new = record old { u = val.u } in set_num fl new val ≡ (true, false, new)
  unfolding set_num
  set_num_again old val = rw (==_refl val.u) refl

  -- A value that is set again has not changed.
  set_val_again :
      (format : Format) (memory memory' : Bool) (old val : HapVal fl)
      → is_plain format ≡ true
      → let new = (set_val fl format memory old val).2 in
        set_val fl format memory' new val ≡ (true, false, new)
  unfolding set_val set_num
  set_val_again format_bool memory memory' old val h = rw (xor_same val.b) refl
  set_val_again format_int memory memory' old val h = set_num_again old val
  set_val_again format_uint8 memory memory' old val h = set_num_again old val
  set_val_again format_uint16 memory memory' old val h = set_num_again old val
  set_val_again format_uint32 memory memory' old val h = set_num_again old val
  set_val_again format_float memory memory' old val h = cc
  set_val_again format_uint64 memory memory' old val h = cc
  set_val_again format_none memory memory' old val h = cc
  set_val_again format_string memory memory' old val h = cc
  set_val_again format_tlv8 memory memory' old val h = cc
  set_val_again format_data memory memory' old val h = cc

  -- A format whose update can fail after the check is that of strings, which then have no value.
  set_val-false :
      (format : Format) (memory : Bool) (old val : HapVal fl)
      → (set_val fl format memory old val).0 ≡ false
      → (format ≡ format_string)
        × (memory ≡ false)
        × (val.s ≢ none)
        × ((set_val fl format memory old val).2 ≡ record old { s = none })
  unfolding set_val set_num set_string
  set_val-false format_bool memory old val h = cc
  set_val-false format_int memory old val h = cc
  set_val-false format_uint8 memory old val h = cc
  set_val-false format_uint16 memory old val h = cc
  set_val-false format_uint32 memory old val h = cc
  set_val-false format_float memory old val h = cc
  set_val-false format_uint64 memory old val h = cc
  set_val-false format_none memory old val h = cc
  set_val-false format_string memory old val h =
      let (full, given, lost) = store_string-false memory old _ val.s h in (refl, full, given, lost)
  set_val-false format_tlv8 memory old val h = cc
  set_val-false format_data memory old val h = cc

  -- The two ways through `after_set`.
  after_set-true :
      (hc : HapChar fl) (ok changed : Bool) (val : HapVal fl)
      → (after_set fl hc (ok, changed, val)).0 ≡ true
      → (ok ≡ true)
        × ((after_set fl hc (ok, changed, val)).1.val ≡ val)
        × ((after_set fl hc (ok, changed, val)).2
            ≡ changed || test_bit hc.permission perm_special_read)
  unfolding after_set
  after_set-true hc false changed val h = cc
  after_set-true hc true changed val h =
      elim (Bool-cases (changed || test_bit hc.permission perm_special_read)) [
        | inl e ↦ rw (e, after_set) (refl, refl, refl)
        | inr e ↦ rw (e, after_set) (refl, refl, refl)
      ]

  after_set-false :
      (hc : HapChar fl) (ok changed : Bool) (val : HapVal fl)
      → (after_set fl hc (ok, changed, val)).0 ≡ false
      → (ok ≡ false)
        × ((after_set fl hc (ok, changed, val)).1.val ≡ val)
        × ((after_set fl hc (ok, changed, val)).2 ≡ false)
  unfolding after_set
  after_set-false hc false changed val h = (refl, refl, refl)
  after_set-false hc true changed val h =
      elim (Bool-cases (changed || test_bit hc.permission perm_special_read)) [
        | inl e ↦ let g = rw (e, after_set) at h in cc
        | inr e ↦ let g = rw (e, after_set) at h in cc
      ]

  update_checked :
      (memory : Bool) (hc : HapChar fl) (val : HapVal fl)
      → hap_char_check_val_constraints fl hc val ≡ true
      → let called = record hc { update_called = true } in
        hap_char_update_val fl memory hc val
        ≡ after_set fl called (set_val fl hc.format memory hc.val val)
  unfolding hap_char_update_val hap_char_check_val_constraints
  update_checked memory hc val h = rw (h, hap_char_update_val) refl

  update_unchecked :
      (memory : Bool) (hc : HapChar fl) (val : HapVal fl)
      → hap_char_check_val_constraints fl hc val ≡ false
      → hap_char_update_val fl memory hc val ≡ (false, record hc { update_called = true }, false)
  unfolding hap_char_update_val hap_char_check_val_constraints
  update_unchecked memory hc val h = rw (h, hap_char_update_val) refl

  after_set_shape :
      (hc : HapChar fl) (ok changed : Bool) (val : HapVal fl)
      → (o : ℕ) × ((after_set fl hc (ok, changed, val)).1 ≡ record hc { val = val; owner_ctrl = o })
  unfolding after_set
  after_set_shape hc false changed val = (hc.owner_ctrl, refl)
  after_set_shape hc true changed val =
      elim (Bool-cases (changed || test_bit hc.permission perm_special_read)) [
        | inl e ↦ (hc.owner_ctrl, rw (e, after_set) refl)
        | inr e ↦ (0, rw (e, after_set) refl)
      ]

  -- An update that succeeds stores its value, and asks for a notification exactly if that has
  -- changed or the permission is special.
  pub hap_char_update_val_lem :
      (memory : Bool) (hc : HapChar fl) (val : HapVal fl)
      → (hap_char_update_val fl memory hc val).0 ≡ true
      → let (ok, hc', notified) = hap_char_update_val fl memory hc val in
        Holds hc.format hc'.val val
        × (notified
            ≡ (set_val fl hc.format memory hc.val val).1
              || test_bit hc.permission perm_special_read)
  hap_char_update_val_lem memory hc val h =
      let called = record hc { update_called = true } in
      let (ok, changed, new) = set_val fl hc.format memory hc.val val in
      elim (Bool-cases (hap_char_check_val_constraints fl hc val)) [
        | inl checked ↦
            let step = update_checked memory hc val checked in
            let (set, stored, notified) = after_set-true called ok changed new (rw step at h) in
            rw step (rw stored (set_val-Holds hc.format memory hc.val val set), notified)
        | inr refused ↦ let step = update_unchecked memory hc val refused in cc
      ]

  update_same :
      (memory : Bool) (hc : HapChar fl) (val : HapVal fl)
      → hap_char_check_val_constraints fl hc val ≡ true
      → set_val fl hc.format memory hc.val val ≡ (true, false, hc.val)
      → test_bit hc.permission perm_special_read ≡ false
      → hap_char_update_val fl memory hc val
        ≡ (true, record hc { update_called = true; owner_ctrl = 0 }, false)
  unfolding after_set
  update_same memory hc val checked same silent =
      rw (update_checked memory hc val checked, same, after_set, silent) refl

  -- For a Boolean or a number of at most 32 bits without the special permission, setting the same
  -- value again after an update that has succeeded succeeds, asks for no notification, and changes
  -- nothing but that the change has no owner any more.
  pub hap_char_update_val_again :
      (memory memory' : Bool) (hc : HapChar fl) (val : HapVal fl)
      → (hap_char_update_val fl memory hc val).0 ≡ true
      → is_plain hc.format ≡ true
      → test_bit hc.permission perm_special_read ≡ false
      → let hc' = (hap_char_update_val fl memory hc val).1 in
        hap_char_update_val fl memory' hc' val ≡ (true, record hc' { owner_ctrl = 0 }, false)
  unfolding hap_char_check_val_constraints
  hap_char_update_val_again memory memory' hc val h plain silent =
      let called = record hc { update_called = true } in
      let (ok, changed, new) = set_val fl hc.format memory hc.val val in
      elim (Bool-cases (hap_char_check_val_constraints fl hc val)) [
        | inl checked ↦
            let step = update_checked memory hc val checked in
            let (o, shape) = after_set_shape called ok changed new in
            let again = set_val_again hc.format memory memory' hc.val val plain in
            let set = record called { val = new; owner_ctrl = o } in
            rw (step, shape) (update_same memory' set val checked again silent)
        | inr refused ↦ let step = update_unchecked memory hc val refused in cc
      ]

  -- A hap_char_update_val that fails asks for no notification, and changes nothing but the flag
  -- that it was called; or it is called with a string for a string characteristic and there is no
  -- memory, and then the characteristic has no string any more and the rest of its value is as
  -- before.
  pub hap_char_update_val-false :
      (memory : Bool) (hc : HapChar fl) (val : HapVal fl)
      → (hap_char_update_val fl memory hc val).0 ≡ false
      → let (ok, hc', notified) = hap_char_update_val fl memory hc val in
        (notified ≡ false)
        × ((hc' ≡ record hc { update_called = true })
            ⊎ ((hc.format ≡ format_string)
                × (memory ≡ false)
                × (val.s ≢ none)
                × (hc'.val ≡ record hc.val { s = none })))
  hap_char_update_val-false memory hc val h =
      let called = record hc { update_called = true } in
      let (ok, changed, new) = set_val fl hc.format memory hc.val val in
      elim (Bool-cases (hap_char_check_val_constraints fl hc val)) [
        | inl checked ↦
            let step = update_checked memory hc val checked in
            let (failed, stored, silent) = after_set-false called ok changed new (rw step at h) in
            let (string, full, given, lost) = set_val-false hc.format memory hc.val val failed in
            rw step (silent, inr (string, full, given, stored ∙ lost))
        | inr refused ↦ rw (update_unchecked memory hc val refused) (refl, inl refl)
      ]
