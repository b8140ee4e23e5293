-- ===== src/Tlv/Extent.antt =====
-- esp_hap_pair_common.c: how much of a buffer the scans read, and what they have in common.
use nina_fw_homekit.Prelude.{
  ℕ, zero, suc, ◌+◌, ◌-◌, ◌≤◌, ◌≡◌, refl, ap, arith, Bool, true, false, List, [], ◌∷◌, ◌++◌, length,
  take, drop, length-append, length-take, length-drop, dec_lt, get_or,
}
use mathlib.Core.Option
use nina_fw_homekit.Tlv.Codec.{get_value_loop-zero}
use nina_fw_homekit.Tlv.{get_value_loop, get_value_from_tlv, get_tlv_length, get_length_loop}

take-append_le {ℓ} :
    {A : Type ℓ} (n : ℕ) (xs ys : List A) → n ≤ length xs → take n (xs ++ ys) ≡ take n xs
take-append_le zero xs ys h = refl
take-append_le (suc n) [] ys h = absurd (omega arith)
take-append_le (suc n) (x ∷ xs) ys h = ap (◌∷◌ x) (take-append_le n xs ys (omega arith))

drop-append_le {ℓ} :
    {A : Type ℓ} (n : ℕ) (xs ys : List A) → n ≤ length xs → drop n (xs ++ ys) ≡ drop n xs ++ ys
drop-append_le zero xs ys h = refl
drop-append_le (suc n) [] ys h = absurd (omega arith)
drop-append_le (suc n) (x ∷ xs) ys h = drop-append_le n xs ys (omega arith)

get_value_loop-append :
    (fuel type : ℕ) (rest tail : List ℕ) (buflen size : ℕ) (found : Bool) (acc : List ℕ)
    → buflen ≤ length rest
    → get_value_loop fuel type (rest ++ tail) buflen size found acc
      ≡ get_value_loop fuel type rest buflen size found acc
unfolding get_value_loop
get_value_loop-append zero type rest tail buflen size found acc h = refl
get_value_loop-append (suc fuel) type [] tail buflen size found acc h = ground arith
get_value_loop-append (suc fuel) type (t ∷ []) tail buflen size found acc h = ground (
  arith,
  get_value_loop-zero fuel type (drop (suc (suc (get_or tail 0 0))) (t ∷ tail)) size found acc,
  get_value_loop-zero fuel type [] size found acc,
)
get_value_loop-append (suc fuel) type (t ∷ l ∷ body) tail buflen size found acc h =
    elim (dec_lt buflen (l + 2)) [
      | yes p ↦ ground (
        arith,
        get_value_loop-zero fuel type (drop l (body ++ tail)) size found acc,
        get_value_loop-zero fuel type (drop l body) size found acc,
      )
      | no p ↦
          rw (take-append_le l body tail (omega arith), drop-append_le l body tail (omega arith))
            (ground (
              arith,
              get_value_loop-append fuel type (drop l body) tail (buflen - suc (suc l)) size found
                  acc,
              get_value_loop-append fuel type (drop l body) tail (buflen - suc (suc l)) (size - l)
                  true (acc ++ take l body),
              length-drop l body,
            ))
    ]

-- What get_value_from_tlv finds in a message does not depend on the bytes that lie behind the
-- message in memory.
pub get_value-behind :
    (buf tail : List ℕ) (type size : ℕ)
    → get_value_from_tlv (buf ++ tail) (length buf) type size
      ≡ get_value_from_tlv buf (length buf) type size
unfolding get_value_from_tlv
get_value-behind buf tail type size =
    get_value_loop-append (length buf) type buf tail (length buf) size false [] (omega arith)

get_length_loop_lem :
    (fuel type : ℕ) (rest : List ℕ) (buflen size : ℕ) (found : Bool) (acc : List ℕ)
    → buflen ≤ length rest
    → buflen ≤ size
    → get_length_loop fuel type rest buflen found (length acc)
      ≡ Option.map length (get_value_loop fuel type rest buflen size found acc)
unfolding get_length_loop get_value_loop
get_length_loop_lem zero type rest buflen size found acc h k = refl
get_length_loop_lem (suc fuel) type [] buflen size found acc h k = ground arith
get_length_loop_lem (suc fuel) type (t ∷ []) buflen size found acc h k =
    ground (arith, get_length_loop_lem fuel type [] (buflen - 2) size found acc)
get_length_loop_lem (suc fuel) type (t ∷ l ∷ body) buflen size found acc h k =
    elim (dec_lt buflen (l + 2)) [
      | yes p ↦
          ground (
            arith,
            get_length_loop_lem fuel type (drop l body) (buflen - suc (suc l)) size found acc,
          )
      | no p ↦ ground (
        arith,
        length-append acc (take l body),
        length-take l body,
        length-drop l body,
        get_length_loop_lem fuel type (drop l body) (buflen - suc (suc l)) size found acc,
        get_length_loop_lem fuel type (drop l body) (buflen - suc (suc l)) (size - l) true
            (acc ++ take l body),
      )
    ]

-- get_tlv_length is the number of bytes that get_value_from_tlv copies, and -1 where that returns
-- -1, if the receiving array has room for the whole message.
pub get_tlv_length_lem :
    (buf : List ℕ) (type size : ℕ)
    → length buf ≤ size
    → get_tlv_length buf (length buf) type
      ≡ Option.map length (get_value_from_tlv buf (length buf) type size)
unfolding get_tlv_length get_value_from_tlv
get_tlv_length_lem buf type size h =
    get_length_loop_lem (length buf) type buf (length buf) size false [] (omega arith) h
