-- ===== src/Sessions/Subscriptions.antt =====
-- esp_hap_char.c: the bits of the notification bitmaps.
use native.Mathlib.Nat.{two-pow-succ, div-div-eq-div-mul, pow-succ', div-mul-le_self}
use nina_fw_homekit.Prelude.{
  ℕ, zero, suc, ◌+◌, ◌*◌, ◌/◌, ◌%◌, ◌^◌, ◌≤◌, ◌<◌, ◌≡◌, sym, ap, ◌∙◌, arith, Bool, true, false,
  ◌==◌, if◌then◌else◌,
}
use nina_fw_homekit.Sessions.{
  test_bit, set_bit, reset_bit, hap_char_manage_notification, hap_char_is_ctrl_subscribed,
}

div_pow_suc : (val i : ℕ) → val / 2 ^ suc i ≡ val / 2 / 2 ^ i
div_pow_suc val i = ap (λ (t : ℕ). val / t) (pow-succ' 2 i) ∙ sym (div-div-eq-div-mul val 2 (2 ^ i))

test_bit_zero : (val : ℕ) → test_bit val 0 ≡ (val % 2 == 1)
unfolding test_bit
test_bit_zero val = ground arith

test_bit-suc : (val i : ℕ) → test_bit val (suc i) ≡ test_bit (val / 2) i
unfolding test_bit
test_bit-suc val i = ap (λ (t : ℕ). t % 2 == 1) (div_pow_suc val i)

le_of_div_pos : (x p : ℕ) → 1 ≤ x / p → p ≤ x
le_of_div_pos x p h = grind (arith, div-mul-le_self x p)

reset_bit-suc : (val i : ℕ) → reset_bit val (suc i) ≡ 2 * reset_bit (val / 2) i + val % 2
unfolding reset_bit test_bit
reset_bit-suc val i =
    ground (arith, div_pow_suc val i, two-pow-succ i, le_of_div_pos (val / 2) (2 ^ i))

-- A bitmap as its lowest bit and the rest.
test_bit_rest : (x b j : ℕ) → b < 2 → test_bit (2 * x + b) (suc j) ≡ test_bit x j
test_bit_rest x b j h =
    test_bit-suc (2 * x + b) j
    ∙ ap (λ (t : ℕ). test_bit t j) (let e : (2 * x + b) / 2 ≡ x = omega arith in e)

reset_bit_zero : (val : ℕ) → reset_bit val 0 ≡ val / 2 * 2
unfolding reset_bit
reset_bit_zero val = ground (arith, test_bit_zero val)

-- A bit that is reset is off, and the others stay.
pub reset_bit_lem :
    (val i j : ℕ) → test_bit (reset_bit val i) j ≡ (if i == j then false else test_bit val j)
reset_bit_lem val zero zero =
    ap (λ (t : ℕ). test_bit t 0) (reset_bit_zero val) ∙ test_bit_zero (val / 2 * 2) ∙ ground arith
reset_bit_lem val zero (suc j) =
    ap (λ (t : ℕ). test_bit t (suc j)) (reset_bit_zero val)
    ∙ test_bit-suc (val / 2 * 2) j
    ∙ ap (λ (t : ℕ). test_bit t j) (let e : val / 2 * 2 / 2 ≡ val / 2 = omega arith in e)
    ∙ ground (arith, test_bit-suc val j)
reset_bit_lem val (suc i) zero =
    ap (λ (t : ℕ). test_bit t 0) (reset_bit-suc val i)
    ∙ test_bit_zero (2 * reset_bit (val / 2) i + val % 2)
    ∙ ground (arith, test_bit_zero val)
reset_bit_lem val (suc i) (suc j) =
    ap (λ (t : ℕ). test_bit t (suc j)) (reset_bit-suc val i)
    ∙ test_bit_rest (reset_bit (val / 2) i) (val % 2) j (omega arith)
    ∙ reset_bit_lem (val / 2) i j
    ∙ ground (arith, test_bit-suc val j)

-- `val | (1 << i)` before it is cut to 16 bits.
or_bit : ℕ → ℕ → ℕ
or_bit val i = if test_bit val i then val else val + 2 ^ i

or_bit-suc : (val i : ℕ) → or_bit val (suc i) ≡ 2 * or_bit (val / 2) i + val % 2
unfolding or_bit test_bit
or_bit-suc val i = ground (arith, div_pow_suc val i, two-pow-succ i)

or_bit_zero : (val : ℕ) → or_bit val 0 ≡ val / 2 * 2 + 1
unfolding or_bit
or_bit_zero val = ground (arith, test_bit_zero val)

or_bit-lt : (val i n : ℕ) → val < 2 ^ n → i < n → or_bit val i < 2 ^ n
or_bit-lt val i zero h k = absurd (omega arith)
or_bit-lt val zero (suc n) h k = omega (arith, or_bit_zero val, two-pow-succ n)
or_bit-lt val (suc i) (suc n) h k = omega (
  arith,
  or_bit-suc val i,
  two-pow-succ n,
  or_bit-lt (val / 2) i n (omega (arith, two-pow-succ n)) (omega arith),
)

or_bit_lem : (val i j : ℕ) → test_bit (or_bit val i) j ≡ (if i == j then true else test_bit val j)
or_bit_lem val zero zero =
    ap (λ (t : ℕ). test_bit t 0) (or_bit_zero val) ∙ test_bit_zero (val / 2 * 2 + 1) ∙ ground arith
or_bit_lem val zero (suc j) =
    ap (λ (t : ℕ). test_bit t (suc j)) (or_bit_zero val)
    ∙ test_bit-suc (val / 2 * 2 + 1) j
    ∙ ap (λ (t : ℕ). test_bit t j) (let e : (val / 2 * 2 + 1) / 2 ≡ val / 2 = omega arith in e)
    ∙ ground (arith, test_bit-suc val j)
or_bit_lem val (suc i) zero =
    ap (λ (t : ℕ). test_bit t 0) (or_bit-suc val i)
    ∙ test_bit_zero (2 * or_bit (val / 2) i + val % 2)
    ∙ ground (arith, test_bit_zero val)
or_bit_lem val (suc i) (suc j) =
    ap (λ (t : ℕ). test_bit t (suc j)) (or_bit-suc val i)
    ∙ test_bit_rest (or_bit (val / 2) i) (val % 2) j (omega arith)
    ∙ or_bit_lem (val / 2) i j
    ∙ ground (arith, test_bit-suc val j)

set_bit-or_bit : (val i : ℕ) → val < 2 ^ 16 → i < 16 → set_bit val i ≡ or_bit val i
unfolding set_bit or_bit
set_bit-or_bit val i h k = ground (arith, fits)
  where
    fits : or_bit val i < 2 ^ 16
    fits = or_bit-lt val i 16 h k

-- On a bitmap of 16 bits, a change of the subscription at a slot below 16 shows when that slot is
-- asked for, and leaves the subscriptions of all other slots as they were.
pub manage_notification_lem :
    (val i j : ℕ) (ev : Bool)
    → val < 2 ^ 16
    → i < 16
    → hap_char_is_ctrl_subscribed (hap_char_manage_notification val i ev) j
      ≡ (if i == j then ev else hap_char_is_ctrl_subscribed val j)
unfolding hap_char_is_ctrl_subscribed hap_char_manage_notification
manage_notification_lem val i j true h k =
    ap (λ (t : ℕ). test_bit t j) (set_bit-or_bit val i h k) ∙ or_bit_lem val i j
manage_notification_lem val i j false h k = reset_bit_lem val i j
