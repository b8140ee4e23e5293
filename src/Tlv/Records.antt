-- ===== src/Tlv/Records.antt =====
-- esp_hap_tlv.c: messages of records that are all shorter than a fragment.
use nina_fw_homekit.Prelude.{
  ℕ, ◌<◌, ◌+◌, true, append-nil, ◌≤◌, ◌≡◌, ◌∙◌, refl, suc, sym, ap, inl, inr, arith, some, List, [],
  ◌∷◌, ◌++◌, length, append_assoc,
}
use nina_fw_homekit.Tlv.Writing.{add_tlv-some}
use nina_fw_homekit.Tlv.{add_tlv, fragments, get_value_from_tlv}
use nina_fw_homekit.Tlv.Codec.{
  Item, encode, Without, IsTerminated, fragments_short, get_value-fragments,
}

encode-append : (xs ys : List Item) → encode (xs ++ ys) ≡ encode xs ++ encode ys
encode-append [] ys = refl
encode-append ((tag, body) ∷ xs) ys =
    rw (encode-append xs ys, append_assoc body (encode xs) (encode ys)) refl

short-IsTerminated : (val : List ℕ) → length val < 255 → IsTerminated val
short-IsTerminated [] h = inl refl
short-IsTerminated (x ∷ xs) h = inr (omega arith)

-- The first record of a type is read back.
pub get_value-encode :
    (type : ℕ) (before : List Item) (val : List ℕ) (after : List Item) (size : ℕ)
    → Without type before
    → length val < 255
    → length val ≤ size
    → let buf = encode (before ++ (type, val) ∷ after) in
      get_value_from_tlv buf (length buf) type size ≡ some val
get_value-encode type before val after size w h hs =
    let e : encode (before ++ (type, val) ∷ after)
        ≡ encode before ++ (fragments (suc (length val)) type val ++ encode after) =
      encode-append before _
      ∙ ap (λ f. encode before ++ (f ++ encode after))
          (sym (fragments_short (length val) type val (omega arith))) in
    rw e (get_value-fragments type before val (encode after) size w (short-IsTerminated val h) hs)

-- A short record is written behind those that are there.
pub add_tlv-encode :
    (bufsize type : ℕ) (items : List Item) (val : List ℕ)
    → length val < 255
    → length (encode items) + length val + 2 ≤ bufsize
    → add_tlv (record { bufptr = true; bufsize = bufsize; bytes = encode items }) type val
      ≡ some (
        suc (suc (length val)),
        record { bufptr = true; bufsize = bufsize; bytes = encode (items ++ (type, val) ∷ []) },
      )
add_tlv-encode bufsize type items val h fits =
    let short = fragments_short (length val) type val (omega arith) in
    let joined : encode (items ++ (type, val) ∷ []) ≡ encode items ++ (type ∷ length val ∷ val) =
      encode-append items _ ∙ ap (λ v. encode items ++ (type ∷ length val ∷ v)) (append-nil val) in
    add_tlv-some (record { bufptr = true; bufsize = bufsize; bytes = encode items }) type val
      (refl, fits)
    ∙ rw (short, joined) refl
