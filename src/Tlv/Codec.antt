-- ===== src/Tlv/Codec.antt =====
-- esp_hap_pair_common.c: the loop of `get_value_from_tlv` on the bytes of whole records.
use nina_fw_homekit.Prelude.{
  ℕ, zero, suc, ◌+◌, ◌-◌, ◌%◌, ◌≤◌, ◌<◌, ◌≡◌, ◌≢◌, ◌⊎◌, inl, inr, refl, ap, ◌∙◌, arith, Bool, true,
  false, Option, none, some, List, [], ◌∷◌, ◌++◌, append-nil, append_assoc, length, take, drop,
  length-append, length-take, length-drop, take-append-drop, take-append_eq, drop-append_eq,
  take_all, lt→ltb, dec_lt, ◌==◌,
}
use nina_fw_homekit.Tlv.{fragments, get_value_loop, get_value_from_tlv}

-- The fragments of a value of at most 255 bytes.
pub fragments_short :
    (fuel type : ℕ) (val : List ℕ)
    → length val ≤ 255
    → fragments (suc fuel) type val ≡ type ∷ length val ∷ val
unfolding fragments
fragments_short fuel type val h = ground (arith, take_all (length val) val, append-nil val)

pub fragments_long :
    (fuel type : ℕ) (val : List ℕ)
    → 255 < length val
    → fragments (suc fuel) type val
      ≡ type ∷ 255 ∷ (take 255 val ++ fragments fuel type (drop 255 val))
unfolding fragments
fragments_long fuel type val h =
    let more : (length val - 255 == 0) ≡ false = ground arith in rw (lt→ltb _ _ h, more)

-- Nothing is left to read.
pub get_value_loop-zero :
    (fuel type : ℕ) (rest : List ℕ) (size : ℕ) (found : Bool) (acc : List ℕ)
    → get_value_loop fuel type rest 0 size found acc ≡ none
unfolding get_value_loop
get_value_loop-zero zero type rest size found acc = refl
get_value_loop-zero (suc fuel) type rest size found acc = refl

-- The message byte for byte: its tag, its length and its body stand where the loop looks for them.
module _ (fuel type len : ℕ) (body post : List ℕ) (size : ℕ) (acc : List ℕ) where
  -- The last fragment of the value that is asked for.
  loop_last :
      (buflen : ℕ) (found : Bool)
      → len ≡ length body
      → len < 255
      → len ≤ size
      → len + 2 ≤ buflen
      → get_value_loop (suc fuel) type (type ∷ len ∷ (body ++ post)) buflen size found acc
        ≡ some (acc ++ body)
  unfolding get_value_loop
  loop_last buflen found e short fits in_buf = ground (arith, take-append_eq len body post e)

  -- A full fragment of the value that is asked for.
  pub loop_full :
      (buflen : ℕ) (found : Bool)
      → 255 ≡ length body
      → 255 ≤ size
      → 257 ≤ buflen
      → get_value_loop (suc fuel) type (type ∷ 255 ∷ (body ++ post)) buflen size found acc
        ≡ get_value_loop fuel type post (buflen - 257) (size - 255) true (acc ++ body)
  unfolding get_value_loop
  loop_full buflen found e fits in_buf =
      rw (take-append_eq 255 body post e, drop-append_eq 255 body post e) (ground arith)

  -- A record of another type in front of the value.
  loop_other :
      (tag buflen : ℕ)
      → tag ≢ type
      → len ≡ length body
      → 0 < buflen
      → get_value_loop (suc fuel) type (tag ∷ len ∷ (body ++ post)) buflen size false acc
        ≡ get_value_loop fuel type post (buflen - suc (suc len)) size false acc
  unfolding get_value_loop
  loop_other tag buflen ne e in_buf = rw (drop-append_eq len body post e) (ground arith)

  -- A record of another type behind the fragments of the value.
  pub loop_stop :
      (tag buflen : ℕ)
      → tag ≢ type
      → 0 < buflen
      → get_value_loop (suc fuel) type (tag ∷ body) buflen size true acc ≡ some acc
  unfolding get_value_loop
  loop_stop tag buflen ne in_buf = ground arith

-- The records of other types that stand in front of a value.
abbrev pub Item : Type 0
Item = ℕ × List ℕ

abbrev pub encode : List Item → List ℕ
encode [] = []
encode ((tag, body) ∷ items) = tag ∷ length body ∷ (body ++ encode items)

abbrev pub Without : ℕ → List Item → Type 0
Without type [] = Unit {0}
Without type ((tag, body) ∷ items) = (tag ≢ type) × Without type items

-- The last fragment is not a full one.
abbrev pub IsTerminated : List ℕ → Type 0
IsTerminated val = (length val ≡ 0) ⊎ (length val % 255 ≢ 0)

pub length-fragments_short :
    (f type : ℕ) (val post : List ℕ)
    → length val ≤ 255
    → length (fragments (suc f) type val ++ post) ≡ 2 + length val + length post
length-fragments_short f type val post h =
    rw (fragments_short f type val h) (omega (arith, length-append {0} val post))

pub length-fragments_long :
    (f type : ℕ) (val post : List ℕ)
    → 255 < length val
    → length (fragments (suc f) type val ++ post)
      ≡ 257 + length (fragments f type (drop 255 val) ++ post)
length-fragments_long f type val post h = rw (fragments_long f type val h) (
    omega (
      arith,
      ap length (append_assoc (take 255 val) (fragments f type (drop 255 val)) post),
      length-append (take 255 val) (fragments f type (drop 255 val) ++ post),
      length-take 255 val,
    ))

IsTerminated-drop :
    (val : List ℕ) → 255 < length val → IsTerminated val → IsTerminated (drop 255 val)
IsTerminated-drop val h t =
    inr (λ e. elim t [ inl z ↦ omega arith | inr n ↦ n (omega (arith, length-drop 255 val)) ])

not_full : (val : List ℕ) → length val ≤ 255 → IsTerminated val → length val < 255
not_full val h (inl z) = omega arith
not_full val h (inr n) = elim (dec_lt (length val) 255) [
  | yes p ↦ p
  | no p ↦ absurd (n (let e : length val ≡ 255 = omega arith in rw e refl))
]

loop-fragments :
    (f fuel type : ℕ) (val post : List ℕ) (buflen size : ℕ) (found : Bool) (acc : List ℕ)
    → length val < f
    → length (fragments f type val ++ post) ≤ buflen
    → buflen ≤ fuel
    → length val ≤ size
    → IsTerminated val
    → get_value_loop fuel type (fragments f type val ++ post) buflen size found acc
      ≡ some (acc ++ val)
loop-fragments zero fuel type val post buflen size found acc hf hb hl hs ht = absurd (omega arith)
loop-fragments (suc f) zero type val post buflen size found acc hf hb hl hs ht =
    elim (dec_lt 255 (length val)) [
      | yes long ↦ absurd (omega (arith, length-fragments_long f type val post long))
      | no short ↦ absurd (omega (arith, length-fragments_short f type val post (omega arith)))
    ]
loop-fragments (suc f) (suc fuel) type val post buflen size found acc hf hb hl hs ht =
    elim (dec_lt 255 (length val)) [
      | yes long ↦
          rw (fragments_long f type val long, append_assoc (take 255 val))
            (loop_full fuel type 255 (take 255 val) (fragments f type (drop 255 val) ++ post) size
                acc buflen found (omega (arith, length-take 255 val)) (omega arith)
                (omega (arith, length-fragments_long f type val post long))
              ∙ loop-fragments f fuel type (drop 255 val) post (buflen - 257) (size - 255) true
                  (acc ++ take 255 val) (omega (arith, length-drop 255 val))
                  (omega (arith, length-fragments_long f type val post long)) (omega arith)
                  (omega (arith, length-drop 255 val)) (IsTerminated-drop val long ht)
              ∙ ap some (
                  append_assoc acc (take 255 val) (drop 255 val)
                  ∙ ap (◌++◌ acc) (take-append-drop 255 val)))
      | no short ↦ rw (fragments_short f type val (omega arith)) (
          loop_last fuel type (length val) val post size acc buflen found refl
            (not_full val (omega arith) ht) hs
            (omega (arith, length-fragments_short f type val post (omega arith))))
    ]

-- The loop passes the records of other types.
pub loop-encode :
    (type : ℕ) (items : List Item) (post : List ℕ) (size : ℕ) (r : Option (List ℕ))
    → Without type items
    → ((fuel buflen : ℕ)
        → buflen ≤ fuel
        → buflen ≡ length post
        → get_value_loop fuel type post buflen size false [] ≡ r)
    → (fuel buflen : ℕ) → buflen ≤ fuel
    → buflen ≡ length (encode items ++ post)
    → get_value_loop fuel type (encode items ++ post) buflen size false [] ≡ r
loop-encode type [] post size r w k fuel buflen hf hb = k fuel buflen hf hb
loop-encode type ((tag, body) ∷ items) post size r w k zero buflen hf hb = absurd (omega arith)
loop-encode type ((tag, body) ∷ items) post size r w k (suc fuel) buflen hf hb =
    let regroup = ap length (append_assoc body (encode items) post) in
    rw (append_assoc body (encode items) post) (
      loop_other fuel type (length body) body (encode items ++ post) size [] tag buflen w.0 refl
        (omega (arith, hb, regroup))
      ∙ loop-encode type items post size r w.1 k fuel _ (omega arith) (
          omega (
            arith,
            ap length (append_assoc body (encode items) post),
            length-append body (encode items ++ post),
          )))

-- A value is read back from a message, behind records of other types and whatever comes after it.
pub get_value-fragments :
    (type : ℕ) (items : List Item) (val post : List ℕ) (size : ℕ)
    → Without type items
    → IsTerminated val
    → length val ≤ size
    → let buf = encode items ++ (fragments (suc (length val)) type val ++ post) in
      get_value_from_tlv buf (length buf) type size ≡ some val
unfolding get_value_from_tlv
get_value-fragments type items val post size w t hs =
    let n = length (encode items ++ (fragments (suc (length val)) type val ++ post)) in
    loop-encode type items _ size (some val) w
      (λ fuel buflen hf hb.
        loop-fragments (suc (length val)) fuel type val post buflen size false [] (omega arith)
          (omega arith) hf hs t)
      n n (omega arith) (omega arith)
