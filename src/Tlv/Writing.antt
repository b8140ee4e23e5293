-- ===== src/Tlv/Writing.antt =====
-- esp_hap_pair_common.c: what a call of `add_tlv` leaves in the buffer.
use nina_fw_homekit.Prelude.{
  ℕ, zero, suc, ◌+◌, ◌-◌, ◌*◌, ◌≤◌, ◌<◌, ◌≡◌, refl, sym, ap, ◌∙◌, arith, Bool, true, false, none,
  some, List, [], ◌∷◌, ◌++◌, append-nil, append_assoc, length, take, drop, length-append,
  length-take, length-drop, dec_lt,
}
use nina_fw_homekit.Tlv.{
  TlvData, curlen, fragments, get_value_loop, get_value_from_tlv, add_tlv, add_tlv_or_keep,
  hap_prepare_error_tlv, tlv_state, tlv_error,
}
use nina_fw_homekit.Tlv.Codec.{
  Item, encode, Without, IsTerminated, get_value-fragments, get_value_loop-zero, fragments_short,
  length-fragments_short, length-fragments_long, loop-encode, loop_full, fragments_long,
}

-- What `add_tlv` accepts.
abbrev pub Accepts : TlvData → List ℕ → Type 0
Accepts t val = (t.bufptr ≡ true) × (length t.bytes + length val + 2 ≤ t.bufsize)

pub add_tlv-some :
    (t : TlvData) (type : ℕ) (val : List ℕ)
    → Accepts t val
    → let out = fragments (suc (length val)) type val in
      add_tlv t type val ≡ some (length out, record t { bytes = t.bytes ++ out })
unfolding add_tlv
add_tlv-some t type val h = ground arith

pub add_tlv_inv :
    (t : TlvData) (type : ℕ) (val : List ℕ) {n : ℕ} {t' : TlvData}
    → add_tlv t type val ≡ some (n, t')
    → let out = fragments (suc (length val)) type val in
      Accepts t val × (n ≡ length out) × (t' ≡ record t { bytes = t.bytes ++ out })
unfolding add_tlv
add_tlv_inv t type val e = ground arith

-- A value that add_tlv appends to records of other types is read back by get_value_from_tlv,
-- whatever is written behind it, if the receiving array is large enough and the length of the value
-- is no positive multiple of 255.
pub get_value-add_tlv :
    (t : TlvData) (type : ℕ) (items : List Item) (val post : List ℕ) (size n : ℕ) (t' : TlvData)
    → t.bytes ≡ encode items
    → Without type items
    → IsTerminated val
    → length val ≤ size
    → add_tlv t type val ≡ some (n, t')
    → get_value_from_tlv (t'.bytes ++ post) (length (t'.bytes ++ post)) type size ≡ some val
get_value-add_tlv t type items val post size n t' e w term fits added =
    let (a, m, same) = add_tlv_inv t type val added in
    let out = fragments (suc (length val)) type val in
    let bytes : t'.bytes ++ post ≡ encode items ++ (out ++ post) =
      ap (λ (r : TlvData). r.bytes ++ post) same
      ∙ ap (λ (b : List ℕ). (b ++ out) ++ post) e
      ∙ append_assoc (encode items) out post in
    rw bytes (get_value-fragments type items val post size w term fits)

-- A value of at most 255 bytes that add_tlv accepts stays inside the buffer, and the number
-- returned is the growth of curlen: two bytes more than the value.
pub add_tlv_bounds :
    (t : TlvData) (type : ℕ) (val : List ℕ) (n : ℕ) (t' : TlvData)
    → length val ≤ 255
    → add_tlv t type val ≡ some (n, t')
    → (n ≡ length val + 2) × (curlen t' ≡ curlen t + n) × (curlen t' ≤ t'.bufsize)
unfolding curlen
add_tlv_bounds t type val n t' short e =
    let (a, m, same) = add_tlv_inv t type val e in
    rw same (
      omega (
        arith,
        length-fragments_short (length val) type val [] short,
        ap length (append-nil (fragments (suc (length val)) type val)),
        length-append t.bytes (fragments (suc (length val)) type val),
      ))

length-fragments-above :
    (f type : ℕ) (val : List ℕ)
    → length val < f
    → length val + 2 ≤ length (fragments f type val ++ [])
length-fragments-above zero type val h = absurd (omega arith)
length-fragments-above (suc f) type val h = elim (dec_lt 255 (length val)) [
  | yes long ↦ omega (
    arith,
    length-fragments_long f type val [] long,
    length-fragments-above f type (drop 255 val) (omega (arith, length-drop 255 val)),
    length-drop 255 val,
  )
  | no short ↦ omega (arith, length-fragments_short f type val [] (omega arith))
]

-- A value of more than 255 bytes whose length and two bytes more are just the room of the buffer is
-- accepted by add_tlv and written past the end of the buffer.
pub add_tlv_overflow :
    (t : TlvData) (type : ℕ) (val : List ℕ)
    → t.bufptr ≡ true
    → 255 < length val
    → curlen t + length val + 2 ≡ t.bufsize
    → (n : ℕ) × (t' : TlvData) × (add_tlv t type val ≡ some (n, t')) × (t'.bufsize < curlen t')
unfolding curlen
add_tlv_overflow t type val set long e =
    let out = fragments (suc (length val)) type val in
    (
      length out,
      record t { bytes = t.bytes ++ out },
      add_tlv-some t type val (set, omega arith),
      omega (
        arith,
        length-append t.bytes out,
        ap length (append-nil out),
        length-fragments_long (length val) type val [] long,
        length-fragments-above (length val) type (drop 255 val)
            (omega (arith, length-drop 255 val)),
        length-drop 255 val,
      ),
    )

get_value_loop-no_fuel :
    (type : ℕ) (rest : List ℕ) (buflen size : ℕ) (found : Bool) (acc : List ℕ)
    → get_value_loop zero type rest buflen size found acc ≡ none
unfolding get_value_loop
get_value_loop-no_fuel type rest buflen size found acc = refl

-- The loop finds no end of a value whose last fragment is full if the message ends there.
loop-full_fragments :
    (f fuel type k : ℕ) (val : List ℕ) (buflen size : ℕ) (found : Bool) (acc : List ℕ)
    → length val ≡ 255 * suc k
    → length val < f
    → buflen ≡ length (fragments f type val ++ [])
    → buflen ≤ fuel
    → length val ≤ size
    → get_value_loop fuel type (fragments f type val ++ []) buflen size found acc ≡ none
loop-full_fragments zero fuel type k val buflen size found acc e hf hb hl hs = absurd (omega arith)
loop-full_fragments (suc f) zero type k val buflen size found acc e hf hb hl hs =
    get_value_loop-no_fuel type (fragments (suc f) type val ++ []) buflen size found acc
loop-full_fragments (suc f) (suc fuel) type zero val buflen size found acc e hf hb hl hs =
    let full : length val ≡ 255 = omega arith in
    rw (fragments_short f type val (omega arith), full)
      (loop_full fuel type 255 val [] size acc buflen found (sym full) (omega arith)
          (omega (arith, length-fragments_short f type val [] (omega arith)))
        ∙ ap (λ n. get_value_loop fuel type [] n (size - 255) true (acc ++ val))
            (let z : buflen - 257 ≡ 0 =
                omega (arith, length-fragments_short f type val [] (omega arith)) in
              z)
        ∙ get_value_loop-zero fuel type [] (size - 255) true (acc ++ val))
loop-full_fragments (suc f) (suc fuel) type (suc k) val buflen size found acc e hf hb hl hs =
    let long : 255 < length val = omega arith in
    let lengths = length-fragments_long f type val [] long in
    rw (fragments_long f type val long, append_assoc (take 255 val))
      (loop_full fuel type 255 (take 255 val) (fragments f type (drop 255 val) ++ []) size acc
          buflen found (omega (arith, length-take 255 val)) (omega arith) (omega arith)
        ∙ loop-full_fragments f fuel type k (drop 255 val) (buflen - 257) (size - 255) true
            (acc ++ take 255 val) (omega (arith, length-drop 255 val))
            (omega (arith, length-drop 255 val)) (omega arith) (omega arith)
            (omega (arith, length-drop 255 val)))

-- A value whose length is a positive multiple of 255 is lost where it ends the message behind
-- records of other types: get_value_from_tlv returns -1, though the receiving array has room.
pub get_value_full_fragments :
    (type k : ℕ) (items : List Item) (val : List ℕ) (size : ℕ)
    → Without type items
    → length val ≡ 255 * suc k
    → length val ≤ size
    → let buf = encode items ++ (fragments (suc (length val)) type val ++ []) in
      get_value_from_tlv buf (length buf) type size ≡ none
unfolding get_value_from_tlv
get_value_full_fragments type k items val size w e hs =
    let n = length (encode items ++ (fragments (suc (length val)) type val ++ [])) in
    loop-encode type items _ size none w
      (λ fuel buflen hf hb.
        loop-full_fragments (suc (length val)) fuel type k val buflen size false [] e (omega arith)
          hb hf hs)
      n n (omega arith) (omega arith)

add_tlv_or_keep-room :
    (bufsize type byte : ℕ) (bytes : List ℕ)
    → length bytes + 3 ≤ bufsize
    → add_tlv_or_keep (record { bufptr = true; bufsize = bufsize; bytes = bytes }) type (byte ∷ [])
      ≡ record { bufptr = true; bufsize = bufsize; bytes = bytes ++ type ∷ 1 ∷ byte ∷ [] }
unfolding add_tlv_or_keep add_tlv fragments
add_tlv_or_keep-room bufsize type byte bytes h = ground arith

error_tlv_bytes :
    (state error bufsize : ℕ)
    → 6 ≤ bufsize
    → hap_prepare_error_tlv state error bufsize ≡ tlv_state ∷ 1 ∷ state ∷ tlv_error ∷ 1 ∷ error ∷ []
unfolding hap_prepare_error_tlv
error_tlv_bytes state error bufsize h =
    ap (λ (r : TlvData). (add_tlv_or_keep r tlv_error (error ∷ [])).bytes)
      (add_tlv_or_keep-room bufsize tlv_state state [] (omega arith))
    ∙ ap (λ (r : TlvData). r.bytes)
        (add_tlv_or_keep-room bufsize tlv_error error (tlv_state ∷ 1 ∷ state ∷ []) (omega arith))

-- In a buffer of at least six bytes, hap_prepare_error_tlv writes six bytes from which the state
-- and the error are read back.
pub hap_prepare_error_tlv_lem :
    (state error bufsize : ℕ)
    → 6 ≤ bufsize
    → let out = hap_prepare_error_tlv state error bufsize in
      (length out ≡ 6)
      × (get_value_from_tlv out (length out) tlv_state 1 ≡ some (state ∷ []))
      × (get_value_from_tlv out (length out) tlv_error 1 ≡ some (error ∷ []))
unfolding get_value_from_tlv get_value_loop
hap_prepare_error_tlv_lem state error bufsize h =
    rw (error_tlv_bytes state error bufsize h) (refl, refl, refl)
