-- ===== src/Characteristics/Constraints.antt =====
-- esp_hap_char.c: what the constraints of a characteristic allow, and that every update keeps to them.
use native.Mathlib.Nat.{mod-add-div'}
use nina_fw_homekit.Prelude.{
  ℕ, ◌+◌, ◌-◌, ◌*◌, ◌/◌, ◌%◌, ◌^◌, ◌≤◌, ◌<◌, ◌≡◌, ◌∙◌, ◌⊎◌, inl, inr, refl, arith, Bool, true,
  false, not, ltb, ◌==◌, ◌||◌, if◌then◌else◌, Bool-cases, ==_iff, ltb-false,
}
use nina_fw_homekit.Sessions.{test_bit}
use nina_fw_homekit.Characteristics.{
  perm_special_read, Floats, Format, HapVal, HapChar, signed_lt, magnitude, check_int, check_uint,
  check_float, check_format, hap_char_check_val_constraints, set_val, set_num, after_set,
  hap_char_update_val,
}
use nina_fw_homekit.Characteristics.Format.{
  format_none, format_bool, format_uint8, format_uint16, format_uint32, format_uint64, format_int,
  format_float, format_string, format_tlv8, format_data,
}

-- An unsigned number is in the range, and a whole number of steps above its start.
abbrev pub InRange : ℕ → ℕ → ℕ → ℕ → Type 0
InRange min max step value =
    (min ≤ value) × (value ≤ max) × ((step ≡ 0) ⊎ ((q : ℕ) × (value ≡ min + q * step)))

-- The place of a signed number of 32 bits in the order of signed numbers.
abbrev pub place : ℕ → ℕ
place a = (a + 2 ^ 31) % 2 ^ 32

-- The same for signed numbers.
abbrev pub InSignedRange : ℕ → ℕ → ℕ → ℕ → Type 0
InSignedRange min max step value =
    (place min ≤ place value)
    × (place value ≤ place max)
    × ((step ≡ 0) ⊎ ((q : ℕ) × (place value ≡ place min + q * magnitude step)))

-- The distance of two signed numbers does not wrap around in a range of less than 2 ^ 31.
distance :
    (min max value : ℕ)
    → min < 2 ^ 32
    → place max < place min + 2 ^ 31
    → place min ≤ place value
    → place value ≤ place max
    → magnitude ((value + 2 ^ 32 - min) % 2 ^ 32) ≡ place value - place min
unfolding magnitude
distance min max value bound narrow lo hi =
    let same : (value + 2 ^ 32 - min) % 2 ^ 32 ≡ place value - place min = omega arith in
    let small : ltb (place value - place min) (2 ^ 31) ≡ true = ground arith in
    rw (same, small) refl

-- The shape of both checks.
check_inv :
    (outside all divides : Bool)
    → (if outside then false else if all then true else divides) ≡ true
    → (outside ≡ false) × ((all ≡ true) ⊎ (divides ≡ true))
check_inv true all divides h = cc
check_inv false true divides h = (refl, inl refl)
check_inv false false divides h = (refl, inr h)

||_false : (a b : Bool) → (a || b) ≡ false → (a ≡ false) × (b ≡ false)
||_false true b h = cc
||_false false b h = (refl, h)

flipped : (b : Bool) → not b ≡ true → b ≡ false
flipped true h = cc
flipped false h = refl

multiple : (a s : ℕ) → (a % s == 0) ≡ true → (q : ℕ) × (a ≡ q * s)
multiple a s h = (a / s, omega (arith, mod-add-div' a s, (==_iff (a % s) 0).0 h))

check_uint-InRange :
    (min max step value : ℕ) → check_uint min max step value ≡ true → InRange min max step value
unfolding check_uint
check_uint-InRange min max step value h =
    let (inside, steps) = check_inv _ _ _ h in
    let (below, above) = ||_false (ltb max value) (ltb value min) inside in
    let lo = ltb-false value min above in
    let hi = ltb-false max value below in
    (
      lo,
      hi,
      elim steps [
        | inl z ↦ inl ((==_iff step 0).0 z)
        | inr d ↦ let (q, e) = multiple (value - min) step d in inr (q, omega arith)
      ],
    )

check_int-InSignedRange :
    (min max step value : ℕ)
    → min < 2 ^ 32
    → place max < place min + 2 ^ 31
    → check_int min max step value ≡ true
    → InSignedRange min max step value
unfolding check_int signed_lt
check_int-InSignedRange min max step value bound narrow h =
    let (inside, steps) = check_inv _ _ _ h in
    let (below, above) = ||_false (signed_lt max value) (signed_lt value min) inside in
    let lo = ltb-false (place value) (place min) above in
    let hi = ltb-false (place max) (place value) below in
    (
      lo,
      hi,
      elim steps [
        | inl z ↦ inl ((==_iff step 0).0 z)
        | inr d ↦
            let (q, e) = multiple _ (magnitude step) d in
            let far = distance min max value bound narrow lo hi in
            inr (q, omega (arith, far, e, lo))
      ],
    )

module _ (fl : Floats) where
  -- What the constraints ask of a value of a format.
  abbrev pub Fits : Format → HapVal fl → HapVal fl → HapVal fl → HapVal fl → Type 0
  Fits format_int min max step val = InSignedRange min.u max.u step.u val.u
  Fits format_float min max step val = (fl.lt max.f val.f ≡ false) × (fl.lt val.f min.f ≡ false)
  Fits format_uint8 min max step val = InRange min.u max.u step.u val.u
  Fits format_uint16 min max step val = InRange min.u max.u step.u val.u
  Fits format_uint32 min max step val = InRange min.u max.u step.u val.u
  Fits format_uint64 min max step val = Unit {0}
  Fits format_none min max step val = Unit {0}
  Fits format_bool min max step val = Unit {0}
  Fits format_string min max step val = Unit {0}
  Fits format_tlv8 min max step val = Unit {0}
  Fits format_data min max step val = Unit {0}

  -- A characteristic with constraints holds a value that they allow.
  abbrev pub IsAllowed : HapChar fl → Type 0
  IsAllowed hc = (hc.constraint_flags ≡ 0) ⊎ Fits hc.format hc.min hc.max hc.step hc.val

  -- The range of a signed characteristic is narrower than 2 ^ 31, so that no distance in it overflows
  -- an int.
  abbrev pub IsNarrow : Format → HapVal fl → HapVal fl → Type 0
  IsNarrow format_int min max = (min.u < 2 ^ 32) × (place max.u < place min.u + 2 ^ 31)
  IsNarrow format_float min max = Unit {0}
  IsNarrow format_uint8 min max = Unit {0}
  IsNarrow format_uint16 min max = Unit {0}
  IsNarrow format_uint32 min max = Unit {0}
  IsNarrow format_uint64 min max = Unit {0}
  IsNarrow format_none min max = Unit {0}
  IsNarrow format_bool min max = Unit {0}
  IsNarrow format_string min max = Unit {0}
  IsNarrow format_tlv8 min max = Unit {0}
  IsNarrow format_data min max = Unit {0}

  check_float-false :
      (min max value : fl.Float)
      → check_float fl min max value ≡ true
      → (fl.lt max value ≡ false) × (fl.lt value min ≡ false)
  unfolding check_float
  check_float-false min max value h = ||_false (fl.lt max value) (fl.lt value min) (flipped _ h)

  -- A value that has passed the check is allowed, and so is what is stored of it.
  set_val-Fits :
      (format : Format) (memory : Bool) (min max step old val : HapVal fl)
      → IsNarrow format min max
      → check_format fl format min max step val ≡ true
      → Fits format min max step (set_val fl format memory old val).2
  unfolding check_format set_val set_num
  set_val-Fits format_int memory min max step old val n h =
      check_int-InSignedRange _ _ _ _ n.0 n.1 h
  set_val-Fits format_float memory min max step old val n h =
      elim (Bool-cases (fl.ne old.f val.f)) [
        | inl e ↦ rw e (check_float-false min.f max.f val.f h)
        | inr e ↦
            let (below, above) = check_float-false min.f max.f val.f h in
            rw e (fl.lt_right _ _ max.f e ∙ below, fl.lt_left _ _ min.f e ∙ above)
      ]
  set_val-Fits format_uint8 memory min max step old val n h = check_uint-InRange _ _ _ _ h
  set_val-Fits format_uint16 memory min max step old val n h = check_uint-InRange _ _ _ _ h
  set_val-Fits format_uint32 memory min max step old val n h = check_uint-InRange _ _ _ _ h
  set_val-Fits format_uint64 memory min max step old val n h = tt
  set_val-Fits format_none memory min max step old val n h = tt
  set_val-Fits format_bool memory min max step old val n h = tt
  set_val-Fits format_string memory min max step old val n h = tt
  set_val-Fits format_tlv8 memory min max step old val n h = tt
  set_val-Fits format_data memory min max step old val n h = tt

  after_set-IsAllowed :
      (hc : HapChar fl) (ok changed : Bool) (val : HapVal fl)
      → (hc.constraint_flags ≡ 0) ⊎ Fits hc.format hc.min hc.max hc.step val
      → IsAllowed (after_set fl hc (ok, changed, val)).1
  unfolding after_set
  after_set-IsAllowed hc false changed val h = h
  after_set-IsAllowed hc true changed val h =
      elim (Bool-cases (changed || test_bit hc.permission perm_special_read)) [
        | inl e ↦ rw (e, after_set) h
        | inr e ↦ rw (e, after_set) h
      ]

  -- If the value of a characteristic is allowed by its constraints, so is its value after
  -- hap_char_update_val, whatever value that is called with: unsigned and signed numbers stay in
  -- their range and a whole number of steps above its start, and floats compare neither as less
  -- than their minimum nor as more than their maximum. The range of a signed characteristic is
  -- narrower than 2 ^ 31.
  pub hap_char_update_val-IsAllowed :
      (memory : Bool) (hc : HapChar fl) (val : HapVal fl)
      → IsNarrow hc.format hc.min hc.max
      → IsAllowed hc
      → IsAllowed (hap_char_update_val fl memory hc val).1
  unfolding hap_char_update_val hap_char_check_val_constraints
  hap_char_update_val-IsAllowed memory hc val narrow h =
      let called = record hc { update_called = true } in
      elim (Bool-cases (hc.constraint_flags == 0)) [
        | inl free ↦
            rw (free, hap_char_update_val, hap_char_check_val_constraints)
              (after_set-IsAllowed called _ _ _ (inl ((==_iff hc.constraint_flags 0).0 free)))
        | inr bound ↦ elim (Bool-cases (check_format fl hc.format hc.min hc.max hc.step val)) [
          | inl ok ↦
              rw (bound, ok, hap_char_update_val, hap_char_check_val_constraints)
                (after_set-IsAllowed called _ _ _
                  (inr (set_val-Fits hc.format memory hc.min hc.max hc.step hc.val val narrow ok)))
          | inr bad ↦ rw (bound, bad, hap_char_update_val, hap_char_check_val_constraints) h
        ]
      ]
