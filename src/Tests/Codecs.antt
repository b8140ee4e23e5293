-- ===== src/Tests/Codecs.antt =====
-- The codecs at concrete inputs.
use nina_fw_homekit.Prelude.{
  ℕ, suc, ◌+◌, ◌%◌, ◌^◌, ◌≤◌, ◌<◌, ◌≡◌, inr, refl, arith, true, none, some, List, [], ◌∷◌, ◌++◌,
  replicate, length, length-replicate,
}
use mathlib.Core.Option
use nina_fw_homekit.Tlv.{
  TlvData, curlen, add_tlv, fragments, get_value_from_tlv, get_tlv_length, tlv_state,
  tlv_identifier, tlv_public_key,
}
use nina_fw_homekit.Tlv.Codec.{encode}
use nina_fw_homekit.Tlv.Writing.{
  get_value-add_tlv, add_tlv_bounds, add_tlv_overflow, get_value_full_fragments,
}
use nina_fw_homekit.Tlv.Extent.{get_value-behind, get_tlv_length_lem}
use nina_fw_homekit.Hexbin.{hex2bin, hex2bin_loop, hex2bin_pair, hex2bin_byte}
use nina_fw_homekit.Hexbin.RoundTrip.{to_hex, hex2bin-to_hex}
use nina_fw_homekit.ByteConvert.{
  get_u16_le, get_u16_be, get_u32_le, get_u32_be, get_u64_le, get_u64_be, put_u16_le, put_u16_be,
  put_u32_le, put_u32_be, put_u64_le, put_u64_be,
}
use nina_fw_homekit.ByteConvert.RoundTrip.{get-put}

-- A buffer of 20 bytes that holds a state already.
abbrev started : TlvData
started = record { bufptr = true; bufsize = 20; bytes = tlv_state ∷ 1 ∷ 3 ∷ [] }

abbrev ended : TlvData
ended = record started { bytes = tlv_state ∷ 1 ∷ 3 ∷ tlv_identifier ∷ 2 ∷ b'h' ∷ b'i' ∷ [] }

added_name : add_tlv started tlv_identifier (b'h' ∷ b'i' ∷ []) ≡ some (4, ended)
unfolding add_tlv fragments
added_name = refl

get_value-add_tlv_example :
    get_value_from_tlv (ended.bytes ++ 9 ∷ []) (length (ended.bytes ++ 9 ∷ [])) tlv_identifier 64
    ≡ some (b'h' ∷ b'i' ∷ [])
get_value-add_tlv_example =
    get_value-add_tlv started tlv_identifier ((tlv_state, 3 ∷ []) ∷ []) (b'h' ∷ b'i' ∷ []) (9 ∷ [])
      64 4 ended refl (omega arith, tt) (inr (omega arith)) (omega arith) added_name

add_tlv_bounds_example : (4 ≡ 2 + 2) × (curlen ended ≡ curlen started + 4) × (curlen ended ≤ 20)
add_tlv_bounds_example =
    add_tlv_bounds started tlv_identifier (b'h' ∷ b'i' ∷ []) 4 ended (omega arith) added_name

-- A value of 300 bytes in a buffer of 302.
abbrev exact : TlvData
exact = record { bufptr = true; bufsize = 302; bytes = [] }

add_tlv_overflow_example :
    (n : ℕ) × (t' : TlvData) × (add_tlv exact tlv_public_key (replicate 300 7) ≡ some (n, t'))
    × (t'.bufsize < curlen t')
add_tlv_overflow_example =
    add_tlv_overflow exact tlv_public_key (replicate 300 7) refl
      (omega (arith, length-replicate {A = ℕ} 300 7))
      (unfold curlen in omega (arith, length-replicate {A = ℕ} 300 7))

sevens : List ℕ
sevens = replicate 255 7

get_value_full_fragments_example :
    let buf = encode [] ++ (fragments (suc (length sevens)) 3 sevens ++ []) in
    get_value_from_tlv buf (length buf) 3 1000 ≡ none
unfolding sevens
get_value_full_fragments_example =
    get_value_full_fragments 3 0 [] sevens 1000 tt (omega (arith, length-replicate {A = ℕ} 255 7))
      (omega (arith, length-replicate {A = ℕ} 255 7))

-- The message ends after the type of its second record.
get_value-behind_example :
    get_value_from_tlv (6 ∷ 1 ∷ 3 ∷ 1 ∷ 2 ∷ 8 ∷ 8 ∷ []) 4 1 64
    ≡ get_value_from_tlv (6 ∷ 1 ∷ 3 ∷ 1 ∷ []) 4 1 64
get_value-behind_example = get_value-behind (6 ∷ 1 ∷ 3 ∷ 1 ∷ []) (2 ∷ 8 ∷ 8 ∷ []) 1 64

get_tlv_length_lem_example :
    get_tlv_length (6 ∷ 1 ∷ 3 ∷ 1 ∷ 2 ∷ 8 ∷ 8 ∷ []) 7 1
    ≡ Option.map length (get_value_from_tlv (6 ∷ 1 ∷ 3 ∷ 1 ∷ 2 ∷ 8 ∷ 8 ∷ []) 7 1 64)
get_tlv_length_lem_example = get_tlv_length_lem (6 ∷ 1 ∷ 3 ∷ 1 ∷ 2 ∷ 8 ∷ 8 ∷ []) 1 64 (omega arith)

hex2bin-to_hex_example : hex2bin (to_hex true (0x2f ∷ 0xa0 ∷ [])) 4 2 ≡ some (0x2f ∷ 0xa0 ∷ [])
hex2bin-to_hex_example =
    hex2bin-to_hex true (0x2f ∷ 0xa0 ∷ []) 2 (omega arith) (omega arith) (omega arith)

hex_accepted : hex2bin (b'2' ∷ b'f' ∷ []) 2 1 ≡ some (0x2f ∷ [])
unfolding hex2bin hex2bin_loop hex2bin_pair hex2bin_byte
hex_accepted = refl

get-put_example :
    (get_u16_le (put_u16_le (0x12345 % 2 ^ 16)) ≡ 0x12345 % 2 ^ 16)
    × (get_u16_be (put_u16_be (0x12345 % 2 ^ 16)) ≡ 0x12345 % 2 ^ 16)
    × (get_u32_le (put_u32_le (0x12345 % 2 ^ 32)) ≡ 0x12345 % 2 ^ 32)
    × (get_u32_be (put_u32_be (0x12345 % 2 ^ 32)) ≡ 0x12345 % 2 ^ 32)
    × (get_u64_le (put_u64_le (0x12345 % 2 ^ 64)) ≡ 0x12345 % 2 ^ 64)
    × (get_u64_be (put_u64_be (0x12345 % 2 ^ 64)) ≡ 0x12345 % 2 ^ 64)
get-put_example = get-put 0x12345
