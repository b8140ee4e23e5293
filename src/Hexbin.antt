-- ===== src/Hexbin.antt =====
-- hexbin.c: hexadecimal text into bytes.
pub mod RoundTrip
use Prim.Native.Nat.{bit_or}
use nina_fw_homekit.Prelude.{
  ℕ, zero, suc, ◌+◌, ◌-◌, ◌*◌, ◌/◌, ◌%◌, ◌^◌, Bool, ◌&&◌, Option, none, some, List, [], ◌∷◌, get_or,
  drop, length, ltb, leb, ◌==◌, ◌>>=◌, if◌then◌else◌,
}

-- `hex2bin_byte`: the value that it leaves in `*byte`; `none` is -1.
unfoldable pub hex2bin_byte : ℕ → Option ℕ
hex2bin_byte byte =
    if leb b'0' byte && leb byte b'9'
    then some (byte - b'0')
    else if leb b'a' byte && leb byte b'f'
    then some (byte - (b'a' - 0x0a))
    else if leb b'A' byte && leb byte b'F'
    then some (byte - (b'A' - 0x0a))
    else none

-- The body of the loop: `obin[i] = (byte << 4)`, kept to a `uint8_t`, and `obin[i] |= byte`.
unfoldable pub hex2bin_pair : ℕ → ℕ → Option ℕ
hex2bin_pair first second = do
  high ← hex2bin_byte first
  low ← hex2bin_byte second
  some (bit_or (high * 2 ^ 4 % 2 ^ 8) low)

-- The loop of `hex2bin` with `rounds` left, at the text `ihex + j`.
unfoldable pub hex2bin_loop : ℕ → List ℕ → Option (List ℕ)
hex2bin_loop zero ihex = some []
hex2bin_loop (suc rounds) ihex = do
  byte ← hex2bin_pair (get_or ihex 0 0) (get_or ihex 1 0)
  out ← hex2bin_loop rounds (drop 2 ihex)
  some (byte ∷ out)

-- `hex2bin`: the bytes stored in `obin`, whose number goes through `olen`. `size_t` has 32 bits.
unfoldable pub hex2bin : List ℕ → ℕ → ℕ → Option (List ℕ)
hex2bin ihex ilen olen =
    if ltb (2 * olen % 2 ^ 32) ilen
    then none
    else if ilen % 2 == 0
    then hex2bin_loop (ilen / 2) ihex
    else none
