-- ===== src/Hexbin/RoundTrip.antt =====
-- hexbin.c: `hex2bin` against a printer of hexadecimal digits.
use Prim.Native.Nat.{bit_or}
use nina_fw_homekit.Prelude.{
  ℕ, zero, suc, ◌+◌, ◌*◌, ◌/◌, ◌%◌, ◌^◌, ◌<◌, ◌≤◌, ◌≡◌, refl, ap, ◌∙◌, ◌⊎◌, arith, Bool, some, List,
  [], ◌∷◌, get_or, drop, length, ltb, >>=-eq-some, some_inj, sym, if◌then◌else◌,
}
use nina_fw_homekit.Prelude.Words.{bit_or_high_low}
use nina_fw_homekit.Hexbin.{hex2bin_byte, hex2bin_pair, hex2bin_loop, hex2bin}

-- The digits of a printer, in lower or upper case.
abbrev pub digit : Bool → ℕ → ℕ
digit upper d = if ltb d 10 then d + b'0' else (if upper then d + 55 else d + 87)

abbrev pub to_hex : Bool → List ℕ → List ℕ
to_hex upper [] = []
to_hex upper (b ∷ bs) = digit upper (b / 16) ∷ digit upper (b % 16) ∷ to_hex upper bs

abbrev pub IsByteList : List ℕ → Type 0
IsByteList [] = Unit {0}
IsByteList (b ∷ bs) = (b < 256) × IsByteList bs

hex2bin_byte-digit : (upper : Bool) (d : ℕ) → d < 16 → hex2bin_byte (digit upper d) ≡ some d
unfolding hex2bin_byte
hex2bin_byte-digit upper d h = ground arith

hex2bin_pair-digit :
    (upper : Bool) (b : ℕ)
    → b < 256
    → hex2bin_pair (digit upper (b / 16)) (digit upper (b % 16)) ≡ some b
unfolding hex2bin_pair
hex2bin_pair-digit upper b h =
    rw
      (
        hex2bin_byte-digit upper (b / 16) (omega arith),
        hex2bin_byte-digit upper (b % 16) (omega arith),
      )
      (ap some (
        let fits : b / 16 * 2 ^ 4 % 2 ^ 8 ≡ b / 16 * 2 ^ 4 = omega arith in
        ap (λ (t : ℕ). bit_or t (b % 16)) fits
        ∙ bit_or_high_low 4 (b % 16) (b / 16) (omega arith)
        ∙ omega arith))

hex2bin_loop-to_hex :
    (upper : Bool) (bs : List ℕ)
    → IsByteList bs
    → hex2bin_loop (length bs) (to_hex upper bs) ≡ some bs
unfolding hex2bin_loop
hex2bin_loop-to_hex upper [] h = refl
hex2bin_loop-to_hex upper (b ∷ bs) h =
    rw (hex2bin_pair-digit upper b h.0, hex2bin_loop-to_hex upper bs h.1)

length-to_hex : (upper : Bool) (bs : List ℕ) → length (to_hex upper bs) ≡ 2 * length bs
length-to_hex upper [] = refl
length-to_hex upper (b ∷ bs) = omega (arith, length-to_hex upper bs)

-- The printed form of a list of bytes, in lower or in upper case, is read back by hex2bin as those
-- bytes, if obin has room for them and its size is below 2 ^ 31.
pub hex2bin-to_hex :
    (upper : Bool) (bs : List ℕ) (olen : ℕ)
    → IsByteList bs
    → length bs ≤ olen
    → olen < 2 ^ 31
    → hex2bin (to_hex upper bs) (length (to_hex upper bs)) olen ≡ some bs
unfolding hex2bin
hex2bin-to_hex upper bs olen h fits small =
    let n = length-to_hex upper bs in
    rw n (
      ground (
        arith,
        hex2bin_loop-to_hex upper bs h,
        let half : 2 * length bs / 2 ≡ length bs = omega arith in
            ap (λ (k : ℕ). hex2bin_loop k (to_hex upper bs)) half,
      ))

-- The characters that are hexadecimal digits.
abbrev pub IsHex : ℕ → Type 0
IsHex c = ((b'0' ≤ c) × (c ≤ b'9')) ⊎ ((b'a' ≤ c) × (c ≤ b'f')) ⊎ ((b'A' ≤ c) × (c ≤ b'F'))

hex2bin_byte_inv : (c : ℕ) {d : ℕ} → hex2bin_byte c ≡ some d → IsHex c × (d < 16)
unfolding hex2bin_byte
hex2bin_byte_inv c e = ground arith

hex2bin_pair_inv :
    (first second b : ℕ)
    → hex2bin_pair first second ≡ some b
    → IsHex first × IsHex second × (b < 256)
unfolding hex2bin_pair
hex2bin_pair_inv first second b e =
    let (h, e1, rest) = >>=-eq-some (hex2bin_byte first) _ e in
    let (l, e2, last) = >>=-eq-some (hex2bin_byte second) _ rest in
    let (digit1, h_lt) = hex2bin_byte_inv first e1 in
    let (digit2, l_lt) = hex2bin_byte_inv second e2 in
    let fits : h * 2 ^ 4 % 2 ^ 8 ≡ h * 2 ^ 4 = omega arith in
    let sum : b ≡ h * 2 ^ 4 + l =
      sym (some_inj last) ∙ ap (λ (t : ℕ). bit_or t l) fits ∙ bit_or_high_low 4 l h (omega arith) in
    (digit1, digit2, omega arith)

-- The first characters of a text, `n` in number, are digits.
abbrev pub StartsHex : ℕ → List ℕ → Type 0
StartsHex zero cs = Unit {0}
StartsHex (suc n) cs = IsHex (get_or cs 0 0) × IsHex (get_or cs 1 0) × StartsHex n (drop 2 cs)

hex2bin_loop_inv :
    (n : ℕ) (ihex : List ℕ) (out : List ℕ)
    → hex2bin_loop n ihex ≡ some out
    → StartsHex n ihex × (length out ≡ n) × IsByteList out
unfolding hex2bin_loop
hex2bin_loop_inv zero ihex out e = ground arith
hex2bin_loop_inv (suc n) ihex out e =
    let (byte, e1, rest) = >>=-eq-some (hex2bin_pair (get_or ihex 0 0) (get_or ihex 1 0)) _ e in
    let (out', e2, last) = >>=-eq-some (hex2bin_loop n (drop 2 ihex)) _ rest in
    let here = hex2bin_pair_inv (get_or ihex 0 0) (get_or ihex 1 0) byte e1 in
    let there = hex2bin_loop_inv n (drop 2 ihex) out' e2 in
    let same : byte ∷ out' ≡ out = some_inj last in
    rw (← same) ((here.0, here.1, there.0), ap suc there.1, (here.2, there.2))

-- Whatever hex2bin accepts has an even length and digits only, and gives half as many bytes, each
-- below 256, within the room of obin.
pub hex2bin_inv :
    (ihex : List ℕ) (ilen olen : ℕ) (out : List ℕ)
    → hex2bin ihex ilen olen ≡ some out
    → (ilen ≡ 2 * length out) × StartsHex (length out) ihex × IsByteList out × (length out ≤ olen)
unfolding hex2bin
hex2bin_inv ihex ilen olen out e =
    let accepted : (hex2bin_loop (ilen / 2) ihex ≡ some out) × (ilen % 2 ≡ 0) × (ilen ≤ 2 * olen) =
      ground arith in
    let (digits, n, bytes) = hex2bin_loop_inv (ilen / 2) ihex out accepted.0 in
    (omega arith, rw n digits, bytes, omega arith)
