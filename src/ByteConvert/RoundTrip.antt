-- ===== src/ByteConvert/RoundTrip.antt =====
-- byte_convert.c: loading against storing.
use Prim.Native.Nat.{bit_or}
use native.Mathlib.Nat.{mod-eq_of_lt}
use nina_fw_homekit.Prelude.{ℕ, ◌+◌, ◌*◌, ◌%◌, ◌^◌, ◌<◌, ◌≡◌, ap, ◌∙◌, arith, [], ◌∷◌}
use nina_fw_homekit.Prelude.Words.{bit_or_low_high, bit_or_high_low}
use nina_fw_homekit.ByteConvert.{
  get_u16_le, get_u16_be, get_u32_le, get_u32_be, get_u64_le, get_u64_be, put_u16_le, put_u16_be,
  put_u32_le, put_u32_be, put_u64_le, put_u64_be, shl, byte_at,
}

-- No bit of a byte is shifted out.
shl_fits : (w k x : ℕ) → x * 2 ^ k < 2 ^ w → shl w x k ≡ x * 2 ^ k
shl_fits w k x fits = mod-eq_of_lt fits

-- One more byte above what has been read.
or_above : (k v x : ℕ) → v < 2 ^ k → bit_or v (x * 2 ^ k) ≡ v + x * 2 ^ k
or_above k v x h = bit_or_low_high k v x h

-- One more byte below it.
or_below : (k v c y : ℕ) → v ≡ c * 2 ^ k → y < 2 ^ k → bit_or v y ≡ v + y
or_below k v c y e h = ap (λ (t : ℕ). bit_or t y) e ∙ bit_or_high_low k y c h ∙ omega arith

abbrev IsByte : ℕ → Type 0
IsByte x = x < 256

get_u16_le-sum : (a b : ℕ) → IsByte a → IsByte b → get_u16_le (a ∷ b ∷ []) ≡ a + b * 2 ^ 8
unfolding get_u16_le
get_u16_le-sum a b ha hb = rw (shl_fits 16 8 b (omega arith), or_above 8 (a) b (omega arith))

get_u16_be-sum : (a b : ℕ) → IsByte a → IsByte b → get_u16_be (a ∷ b ∷ []) ≡ a * 2 ^ 8 + b
unfolding get_u16_be
get_u16_be-sum a b ha hb = rw (
  shl_fits 16 8 a (omega arith),
  or_below 8 (a * 2 ^ 8) (a * 2 ^ 0) (b) (omega arith) (omega arith),
)

get_u32_le-sum :
    (a b c d : ℕ)
    → IsByte a
    → IsByte b
    → IsByte c
    → IsByte d
    → get_u32_le (a ∷ b ∷ c ∷ d ∷ []) ≡ a + b * 2 ^ 8 + c * 2 ^ 16 + d * 2 ^ 24
unfolding get_u32_le
get_u32_le-sum a b c d ha hb hc hd = rw (
  shl_fits 32 8 b (omega arith),
  shl_fits 32 16 c (omega arith),
  shl_fits 32 24 d (omega arith),
  or_above 8 (a) b (omega arith),
  or_above 16 (a + b * 2 ^ 8) c (omega arith),
  or_above 24 (a + b * 2 ^ 8 + c * 2 ^ 16) d (omega arith),
)

get_u32_be-sum :
    (a b c d : ℕ)
    → IsByte a
    → IsByte b
    → IsByte c
    → IsByte d
    → get_u32_be (a ∷ b ∷ c ∷ d ∷ []) ≡ a * 2 ^ 24 + b * 2 ^ 16 + c * 2 ^ 8 + d
unfolding get_u32_be
get_u32_be-sum a b c d ha hb hc hd = rw (
  shl_fits 32 24 a (omega arith),
  shl_fits 32 16 b (omega arith),
  shl_fits 32 8 c (omega arith),
  or_below 24 (a * 2 ^ 24) (a * 2 ^ 0) (b * 2 ^ 16) (omega arith) (omega arith),
  or_below 16 (a * 2 ^ 24 + b * 2 ^ 16) (a * 2 ^ 8 + b * 2 ^ 0) (c * 2 ^ 8) (omega arith)
      (omega arith),
  or_below 8 (a * 2 ^ 24 + b * 2 ^ 16 + c * 2 ^ 8) (a * 2 ^ 16 + b * 2 ^ 8 + c * 2 ^ 0) (d)
      (omega arith) (omega arith),
)

get_u64_le-sum :
    (a b c d e f g h : ℕ)
    → IsByte a
    → IsByte b
    → IsByte c
    → IsByte d
    → IsByte e
    → IsByte f
    → IsByte g
    → IsByte h
    → get_u64_le (a ∷ b ∷ c ∷ d ∷ e ∷ f ∷ g ∷ h ∷ [])
      ≡ a + b * 2 ^ 8 + c * 2 ^ 16 + d * 2 ^ 24 + e * 2 ^ 32 + f * 2 ^ 40 + g * 2 ^ 48 + h * 2 ^ 56
unfolding get_u64_le
get_u64_le-sum a b c d e f g h ha hb hc hd he hf hg hh = rw (
  shl_fits 64 8 b (omega arith),
  shl_fits 64 16 c (omega arith),
  shl_fits 64 24 d (omega arith),
  shl_fits 64 32 e (omega arith),
  shl_fits 64 40 f (omega arith),
  shl_fits 64 48 g (omega arith),
  shl_fits 64 56 h (omega arith),
  or_above 8 (a) b (omega arith),
  or_above 16 (a + b * 2 ^ 8) c (omega arith),
  or_above 24 (a + b * 2 ^ 8 + c * 2 ^ 16) d (omega arith),
  or_above 32 (a + b * 2 ^ 8 + c * 2 ^ 16 + d * 2 ^ 24) e (omega arith),
  or_above 40 (a + b * 2 ^ 8 + c * 2 ^ 16 + d * 2 ^ 24 + e * 2 ^ 32) f (omega arith),
  or_above 48 (a + b * 2 ^ 8 + c * 2 ^ 16 + d * 2 ^ 24 + e * 2 ^ 32 + f * 2 ^ 40) g (omega arith),
  or_above 56 (a + b * 2 ^ 8 + c * 2 ^ 16 + d * 2 ^ 24 + e * 2 ^ 32 + f * 2 ^ 40 + g * 2 ^ 48) h
      (omega arith),
)

get_u64_be-sum :
    (a b c d e f g h : ℕ)
    → IsByte a
    → IsByte b
    → IsByte c
    → IsByte d
    → IsByte e
    → IsByte f
    → IsByte g
    → IsByte h
    → get_u64_be (a ∷ b ∷ c ∷ d ∷ e ∷ f ∷ g ∷ h ∷ [])
      ≡ a * 2 ^ 56 + b * 2 ^ 48 + c * 2 ^ 40 + d * 2 ^ 32 + e * 2 ^ 24 + f * 2 ^ 16 + g * 2 ^ 8 + h
unfolding get_u64_be
get_u64_be-sum a b c d e f g h ha hb hc hd he hf hg hh = rw (
  shl_fits 64 56 a (omega arith),
  shl_fits 64 48 b (omega arith),
  shl_fits 64 40 c (omega arith),
  shl_fits 64 32 d (omega arith),
  shl_fits 64 24 e (omega arith),
  shl_fits 64 16 f (omega arith),
  shl_fits 64 8 g (omega arith),
  or_below 56 (a * 2 ^ 56) (a * 2 ^ 0) (b * 2 ^ 48) (omega arith) (omega arith),
  or_below 48 (a * 2 ^ 56 + b * 2 ^ 48) (a * 2 ^ 8 + b * 2 ^ 0) (c * 2 ^ 40) (omega arith)
      (omega arith),
  or_below 40 (a * 2 ^ 56 + b * 2 ^ 48 + c * 2 ^ 40) (a * 2 ^ 16 + b * 2 ^ 8 + c * 2 ^ 0)
      (d * 2 ^ 32) (omega arith) (omega arith),
  or_below 32 (a * 2 ^ 56 + b * 2 ^ 48 + c * 2 ^ 40 + d * 2 ^ 32)
      (a * 2 ^ 24 + b * 2 ^ 16 + c * 2 ^ 8 + d * 2 ^ 0) (e * 2 ^ 24) (omega arith) (omega arith),
  or_below 24 (a * 2 ^ 56 + b * 2 ^ 48 + c * 2 ^ 40 + d * 2 ^ 32 + e * 2 ^ 24)
      (a * 2 ^ 32 + b * 2 ^ 24 + c * 2 ^ 16 + d * 2 ^ 8 + e * 2 ^ 0) (f * 2 ^ 16) (omega arith)
      (omega arith),
  or_below 16 (a * 2 ^ 56 + b * 2 ^ 48 + c * 2 ^ 40 + d * 2 ^ 32 + e * 2 ^ 24 + f * 2 ^ 16)
      (a * 2 ^ 40 + b * 2 ^ 32 + c * 2 ^ 24 + d * 2 ^ 16 + e * 2 ^ 8 + f * 2 ^ 0) (g * 2 ^ 8)
      (omega arith) (omega arith),
  or_below 8
      (a * 2 ^ 56 + b * 2 ^ 48 + c * 2 ^ 40 + d * 2 ^ 32 + e * 2 ^ 24 + f * 2 ^ 16 + g * 2 ^ 8)
      (a * 2 ^ 48 + b * 2 ^ 40 + c * 2 ^ 32 + d * 2 ^ 24 + e * 2 ^ 16 + f * 2 ^ 8 + g * 2 ^ 0) (h)
      (omega arith) (omega arith),
)

get-put_u16_le : (v : ℕ) → get_u16_le (put_u16_le (v % 2 ^ 16)) ≡ v % 2 ^ 16
unfolding put_u16_le
get-put_u16_le v =
    get_u16_le-sum (byte_at (v % 2 ^ 16) 0) (byte_at (v % 2 ^ 16) 8) (omega arith) (omega arith)
    ∙ omega arith

get-put_u16_be : (v : ℕ) → get_u16_be (put_u16_be (v % 2 ^ 16)) ≡ v % 2 ^ 16
unfolding put_u16_be
get-put_u16_be v =
    get_u16_be-sum (byte_at (v % 2 ^ 16) 8) (byte_at (v % 2 ^ 16) 0) (omega arith) (omega arith)
    ∙ omega arith

get-put_u32_le : (v : ℕ) → get_u32_le (put_u32_le (v % 2 ^ 32)) ≡ v % 2 ^ 32
unfolding put_u32_le
get-put_u32_le v =
    get_u32_le-sum (byte_at (v % 2 ^ 32) 0) (byte_at (v % 2 ^ 32) 8) (byte_at (v % 2 ^ 32) 16)
      (byte_at (v % 2 ^ 32) 24) (omega arith) (omega arith) (omega arith) (omega arith)
    ∙ omega arith

get-put_u32_be : (v : ℕ) → get_u32_be (put_u32_be (v % 2 ^ 32)) ≡ v % 2 ^ 32
unfolding put_u32_be
get-put_u32_be v =
    get_u32_be-sum (byte_at (v % 2 ^ 32) 24) (byte_at (v % 2 ^ 32) 16) (byte_at (v % 2 ^ 32) 8)
      (byte_at (v % 2 ^ 32) 0) (omega arith) (omega arith) (omega arith) (omega arith)
    ∙ omega arith

get-put_u64_le : (v : ℕ) → get_u64_le (put_u64_le (v % 2 ^ 64)) ≡ v % 2 ^ 64
unfolding put_u64_le
get-put_u64_le v =
    get_u64_le-sum (byte_at (v % 2 ^ 64) 0) (byte_at (v % 2 ^ 64) 8) (byte_at (v % 2 ^ 64) 16)
      (byte_at (v % 2 ^ 64) 24) (byte_at (v % 2 ^ 64) 32) (byte_at (v % 2 ^ 64) 40)
      (byte_at (v % 2 ^ 64) 48) (byte_at (v % 2 ^ 64) 56) (omega arith) (omega arith) (omega arith)
      (omega arith) (omega arith) (omega arith) (omega arith) (omega arith)
    ∙ omega arith

get-put_u64_be : (v : ℕ) → get_u64_be (put_u64_be (v % 2 ^ 64)) ≡ v % 2 ^ 64
unfolding put_u64_be
get-put_u64_be v =
    get_u64_be-sum (byte_at (v % 2 ^ 64) 56) (byte_at (v % 2 ^ 64) 48) (byte_at (v % 2 ^ 64) 40)
      (byte_at (v % 2 ^ 64) 32) (byte_at (v % 2 ^ 64) 24) (byte_at (v % 2 ^ 64) 16)
      (byte_at (v % 2 ^ 64) 8) (byte_at (v % 2 ^ 64) 0) (omega arith) (omega arith) (omega arith)
      (omega arith) (omega arith) (omega arith) (omega arith) (omega arith)
    ∙ omega arith

-- A number of 16, 32 or 64 bits that is stored and loaded again is the same number, in little and
-- in big endian order.
pub get-put :
    (v : ℕ)
    → (get_u16_le (put_u16_le (v % 2 ^ 16)) ≡ v % 2 ^ 16)
      × (get_u16_be (put_u16_be (v % 2 ^ 16)) ≡ v % 2 ^ 16)
      × (get_u32_le (put_u32_le (v % 2 ^ 32)) ≡ v % 2 ^ 32)
      × (get_u32_be (put_u32_be (v % 2 ^ 32)) ≡ v % 2 ^ 32)
      × (get_u64_le (put_u64_le (v % 2 ^ 64)) ≡ v % 2 ^ 64)
      × (get_u64_be (put_u64_be (v % 2 ^ 64)) ≡ v % 2 ^ 64)
get-put v = (
  get-put_u16_le v,
  get-put_u16_be v,
  get-put_u32_le v,
  get-put_u32_be v,
  get-put_u64_le v,
  get-put_u64_be v,
)
