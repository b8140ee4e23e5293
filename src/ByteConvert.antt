-- ===== src/ByteConvert.antt =====
-- byte_convert.c: numbers of 16, 32 and 64 bits as bytes, in both orders.
pub mod RoundTrip
use Prim.Native.Nat.{bit_or}
use nina_fw_homekit.Prelude.{ℕ, ◌*◌, ◌/◌, ◌%◌, ◌^◌, List, [], ◌∷◌, get_or}

-- `(uintW_t)x << k`
abbrev pub shl : ℕ → ℕ → ℕ → ℕ
shl w x k = x * 2 ^ k % 2 ^ w

-- `(uint8_t)(val >> k) & 0xff`: the cast leaves eight bits, and the mask leaves those.
abbrev pub byte_at : ℕ → ℕ → ℕ
byte_at val k = val / 2 ^ k % 2 ^ 8

-- `p[i]`
abbrev pub at : List ℕ → ℕ → ℕ
at p i = get_or p i 0

-- `get_u16_le`
unfoldable pub get_u16_le : List ℕ → ℕ
get_u16_le p = bit_or (at p 0) (shl 16 (at p 1) 8)

-- `get_u16_be`
unfoldable pub get_u16_be : List ℕ → ℕ
get_u16_be p = bit_or (shl 16 (at p 0) 8) (at p 1)

-- `get_u32_le`
unfoldable pub get_u32_le : List ℕ → ℕ
get_u32_le p =
    bit_or (bit_or (bit_or (at p 0) (shl 32 (at p 1) 8)) (shl 32 (at p 2) 16)) (shl 32 (at p 3) 24)

-- `get_u32_be`
unfoldable pub get_u32_be : List ℕ → ℕ
get_u32_be p =
    bit_or (bit_or (bit_or (shl 32 (at p 0) 24) (shl 32 (at p 1) 16)) (shl 32 (at p 2) 8)) (at p 3)

-- `get_u64_le`
unfoldable pub get_u64_le : List ℕ → ℕ
get_u64_le p =
    bit_or
      (bit_or
        (bit_or
          (bit_or
            (bit_or (bit_or (bit_or (at p 0) (shl 64 (at p 1) 8)) (shl 64 (at p 2) 16))
              (shl 64 (at p 3) 24))
            (shl 64 (at p 4) 32))
          (shl 64 (at p 5) 40))
        (shl 64 (at p 6) 48))
      (shl 64 (at p 7) 56)

-- `get_u64_be`
unfoldable pub get_u64_be : List ℕ → ℕ
get_u64_be p =
    bit_or
      (bit_or
        (bit_or
          (bit_or
            (bit_or (bit_or (bit_or (shl 64 (at p 0) 56) (shl 64 (at p 1) 48)) (shl 64 (at p 2) 40))
              (shl 64 (at p 3) 32))
            (shl 64 (at p 4) 24))
          (shl 64 (at p 5) 16))
        (shl 64 (at p 6) 8))
      (at p 7)

-- `put_u16_le`: the bytes that it stores.
unfoldable pub put_u16_le : ℕ → List ℕ
put_u16_le val = byte_at val 0 ∷ byte_at val 8 ∷ []

-- `put_u16_be`: the bytes that it stores.
unfoldable pub put_u16_be : ℕ → List ℕ
put_u16_be val = byte_at val 8 ∷ byte_at val 0 ∷ []

-- `put_u32_le`: the bytes that it stores.
unfoldable pub put_u32_le : ℕ → List ℕ
put_u32_le val = byte_at val 0 ∷ byte_at val 8 ∷ byte_at val 16 ∷ byte_at val 24 ∷ []

-- `put_u32_be`: the bytes that it stores.
unfoldable pub put_u32_be : ℕ → List ℕ
put_u32_be val = byte_at val 24 ∷ byte_at val 16 ∷ byte_at val 8 ∷ byte_at val 0 ∷ []

-- `put_u64_le`: the bytes that it stores.
unfoldable pub put_u64_le : ℕ → List ℕ
put_u64_le val =
    byte_at val 0
    ∷ byte_at val 8
    ∷ byte_at val 16
    ∷ byte_at val 24
    ∷ byte_at val 32
    ∷ byte_at val 40
    ∷ byte_at val 48
    ∷ byte_at val 56
    ∷ []

-- `put_u64_be`: the bytes that it stores.
unfoldable pub put_u64_be : ℕ → List ℕ
put_u64_be val =
    byte_at val 56
    ∷ byte_at val 48
    ∷ byte_at val 40
    ∷ byte_at val 32
    ∷ byte_at val 24
    ∷ byte_at val 16
    ∷ byte_at val 8
    ∷ byte_at val 0
    ∷ []
