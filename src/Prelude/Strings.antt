-- ===== src/Prelude/Strings.antt =====
-- C strings in byte arrays.
use nina_fw_homekit.Prelude.Tests.{◌==◌, if◌then◌else◌, Bool-cases}
use nina_fw_homekit.Prelude.Lists.{length, drop, length-append, length-drop, drop_all}
use Prim.Native.Nat.{ℕ, ◌+◌, ◌/◌, ◌%◌, ◌≤◌}
use mathlib.Core.Path.{◌≡◌, refl, ap}
use mathlib.Core.Logic.{◌↔◌, inl, inr}
use mathlib.Core.Bool.{Bool, true, false, ◌&&◌}
use mathlib.Core.List.{List, [], ◌∷◌, ◌++◌, append-nil}
use Prim.Native.Char.{code}
use Prim.Native.String.{String}
use native.Mathlib.Omega.{arith}

-- The bytes of a text of the source.
unfoldable pub codes : String → List ℕ
codes String.[] = []
codes (String.◌∷◌ c s) = code c ∷ codes s

-- The characters of an array up to the terminator, or all of them.
unfoldable pub c_string : List ℕ → List ℕ
c_string [] = []
c_string (c ∷ cs) = let rest = c ∷ c_string cs in if c == 0 then [] else rest

-- `!memcmp`, and `!strcmp` on the strings of two arrays
unfoldable pub bytes_eq : List ℕ → List ℕ → Bool
bytes_eq [] [] = true
bytes_eq [] (d ∷ ds) = false
bytes_eq (c ∷ cs) [] = false
bytes_eq (c ∷ cs) (d ∷ ds) = (c == d) && bytes_eq cs ds

pub bytes_eq_refl : (xs : List ℕ) → bytes_eq xs xs ≡ true
unfolding bytes_eq
bytes_eq_refl [] = refl
bytes_eq_refl (x ∷ xs) = ground (arith, bytes_eq_refl xs)

pub bytes_eq→eq : (xs ys : List ℕ) → bytes_eq xs ys ≡ true → xs ≡ ys
unfolding bytes_eq
bytes_eq→eq [] [] h = refl
bytes_eq→eq [] (y ∷ ys) h = cc
bytes_eq→eq (x ∷ xs) [] h = cc
bytes_eq→eq (x ∷ xs) (y ∷ ys) h = ground (arith, bytes_eq→eq xs ys)

pub bytes_eq_iff : (xs ys : List ℕ) → (bytes_eq xs ys ≡ true) ↔ (xs ≡ ys)
bytes_eq_iff xs ys =
    (bytes_eq→eq xs ys, λ e. let p : bytes_eq xs ys ≡ true = rw e (bytes_eq_refl ys) in p)

-- A copy into the front of an array leaves the rest of it.
unfoldable pub overlay : List ℕ → List ℕ → List ℕ
overlay val old = val ++ drop (length val) old

-- `snprintf("%d", i)` of a `uint8_t`
unfoldable pub decimal : ℕ → List ℕ
decimal i =
    if i / 100 == 0
    then (if i / 10 == 0 then (i + b'0') ∷ [] else (i / 10 + b'0') ∷ (i % 10 + b'0') ∷ [])
    else (i / 100 + b'0') ∷ (i / 10 % 10 + b'0') ∷ (i % 10 + b'0') ∷ []

pub decimal_injective : (i j : ℕ) → decimal i ≡ decimal j → i ≡ j
unfolding decimal
decimal_injective i j e = ground arith

-- A string that is copied with its terminator is the same string, whatever lies behind it.
pub c_string-append_zero : (xs ys : List ℕ) → c_string (c_string xs ++ 0 ∷ ys) ≡ c_string xs
unfolding c_string
c_string-append_zero [] ys = refl
c_string-append_zero (x ∷ xs) ys = elim (Bool-cases (x == 0)) [
  | inl z ↦ rw z refl
  | inr n ↦ rw n (rw n (ap (◌∷◌ x) (c_string-append_zero xs ys)))
]

pub length-overlay :
    (val old : List ℕ) → length val ≤ length old → length (overlay val old) ≡ length old
unfolding overlay
length-overlay val old h =
    omega (arith, length-append val (drop (length val) old), length-drop (length val) old)

pub overlay_all : (val old : List ℕ) → length old ≤ length val → overlay val old ≡ val
unfolding overlay
overlay_all val old h = rw (drop_all (length val) old h, append-nil)
