-- ===== src/Tlv.antt =====
-- esp_hap_pair_common.c: the type-length-value records of the pairing messages. A buffer is the
-- list of the bytes from its pointer on, and a byte is a number.
pub mod Codec
pub mod Writing
pub mod Records
pub mod Extent
use nina_fw_homekit.Prelude.{
  ℕ, zero, suc, ◌+◌, ◌-◌, Bool, true, false, not, ◌&&◌, ◌||◌, Option, none, some, List, [], ◌∷◌,
  ◌++◌, length, get_or, take, drop, ltb, ◌==◌, if◌then◌else◌,
}

-- `hap_tlv_data_t`: `bufptr` is whether the pointer is set, and `bytes` are `bufptr[0 .. curlen)`.
pub record TlvData : Type 0 where
  pub bufptr : Bool
  pub bufsize : ℕ
  pub bytes : List ℕ

unfoldable pub curlen : TlvData → ℕ
curlen t = length t.bytes

-- `hap_tlv_data_init`
unfoldable pub hap_tlv_data_init : Bool → ℕ → TlvData
hap_tlv_data_init buf buf_size = record { bufptr = buf; bufsize = buf_size; bytes = [] }

-- `hap_tlv_type_t`
abbrev pub tlv_method : ℕ
tlv_method = 0x00

abbrev pub tlv_identifier : ℕ
tlv_identifier = 0x01

abbrev pub tlv_public_key : ℕ
tlv_public_key = 0x03

abbrev pub tlv_encrypted_data : ℕ
tlv_encrypted_data = 0x05

abbrev pub tlv_state : ℕ
tlv_state = 0x06

abbrev pub tlv_error : ℕ
tlv_error = 0x07

abbrev pub tlv_signature : ℕ
tlv_signature = 0x0a

abbrev pub tlv_permissions : ℕ
tlv_permissions = 0x0b

abbrev pub tlv_separator : ℕ
tlv_separator = 0xff

-- `tmp_len` of the loop in `add_tlv`
abbrev pub fragment_len : ℕ → ℕ
fragment_len len = if ltb 255 len then 255 else len

-- The do-while loop of `add_tlv`: the bytes that it writes for the rest of the value. Every round
-- but the last takes 255 bytes off, so a fuel above the length is enough.
unfoldable pub fragments : ℕ → ℕ → List ℕ → List ℕ
fragments zero type val = []
fragments (suc fuel) type val =
    let tmp_len = fragment_len (length val) in
    let rest = fragments fuel type (drop tmp_len val) in
    type ∷ tmp_len ∷ (take tmp_len val ++ (if length val - tmp_len == 0 then [] else rest))

-- `add_tlv`: `none` is the return of -1; `len` is the length of the value. The sizes are C ints, so
-- the test against `bufsize - curlen` is written without a subtraction.
unfoldable pub add_tlv : TlvData → ℕ → List ℕ → Option (ℕ × TlvData)
unfolding curlen
add_tlv t type val =
    if not t.bufptr || ltb t.bufsize (length val + 2 + curlen t)
    then none
    else let out = fragments (suc (length val)) type val in
      some (length out, record t { bytes = t.bytes ++ out })

-- One round of the loop of `get_value_from_tlv` stands at `rest`, with `buflen` bytes left of the
-- message; `acc` is what has been copied. A byte behind the list reads as 0. `buflen` falls by two
-- at least, and a negative `buflen` ends the loop as 0 does, so fuel `buflen` is enough.
unfoldable pub get_value_loop : ℕ → ℕ → List ℕ → ℕ → ℕ → Bool → List ℕ → Option (List ℕ)
get_value_loop zero type rest buflen val_size found acc = none
get_value_loop (suc fuel) type rest buflen val_size found acc =
    let len = get_or rest 1 0 in
    let next = drop (suc (suc len)) rest in
    let left = buflen - suc (suc len) in
    let val = acc ++ take len (drop 2 rest) in
    let more = get_value_loop fuel type next left (val_size - len) true val in
    let skip = get_value_loop fuel type next left val_size found acc in
    if buflen == 0
    then none
    else if get_or rest 0 0 == type
    then if ltb val_size len || ltb buflen (len + 2)
      then none
      else if ltb len 255
      then some val
      else more
    else if found
    then some acc
    else skip

-- `get_value_from_tlv`: the bytes that it copies, whose number it returns; `none` is -1.
unfoldable pub get_value_from_tlv : List ℕ → ℕ → ℕ → ℕ → Option (List ℕ)
get_value_from_tlv buf buflen type val_size =
    get_value_loop buflen type buf buflen val_size false []

-- The loop of `get_tlv_length`.
unfoldable pub get_length_loop : ℕ → ℕ → List ℕ → ℕ → Bool → ℕ → Option ℕ
get_length_loop zero type rest buflen found val_len = none
get_length_loop (suc fuel) type rest buflen found val_len =
    let len = get_or rest 1 0 in
    let next = drop (suc (suc len)) rest in
    let left = buflen - suc (suc len) in
    let more = get_length_loop fuel type next left true (val_len + len) in
    let skip = get_length_loop fuel type next left found val_len in
    if buflen == 0
    then none
    else if get_or rest 0 0 == type
    then if ltb buflen (len + 2) then none else if ltb len 255 then some (val_len + len) else more
    else if found
    then some val_len
    else skip

-- `get_tlv_length`
unfoldable pub get_tlv_length : List ℕ → ℕ → ℕ → Option ℕ
get_tlv_length buf buflen type = get_length_loop buflen type buf buflen false 0

-- A call of `add_tlv` whose result is not looked at.
unfoldable pub add_tlv_or_keep : TlvData → ℕ → List ℕ → TlvData
add_tlv_or_keep t type val = elim (add_tlv t type val) [ none ↦ t | some (n, t') ↦ t' ]

-- `hap_prepare_error_tlv`: the bytes of the answer, `*outlen` in number.
unfoldable pub hap_prepare_error_tlv : ℕ → ℕ → ℕ → List ℕ
hap_prepare_error_tlv state error bufsize =
    let tlv_data : TlvData = record { bufptr = true; bufsize = bufsize; bytes = [] } in
    let stated = add_tlv_or_keep tlv_data tlv_state (state ∷ []) in
    (add_tlv_or_keep stated tlv_error (error ∷ [])).bytes
