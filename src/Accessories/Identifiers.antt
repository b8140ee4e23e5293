-- ===== src/Accessories/Identifiers.antt =====
-- esp_hap_acc.c, esp_hap_serv.c: the instance identifiers of an accessory.
use mathlib.Core.List.{Memᴰ}
use nina_fw_homekit.Prelude.{ℕ, ◌≤◌, ◌<◌, ◌≡◌, ◌⊎◌, inl, inr, sym, ◌∙◌, arith}
use nina_fw_homekit.Characteristics.{Floats}
use nina_fw_homekit.Accessories.{Objects}

-- A service or a characteristic.
abbrev pub Thing : Type 0
Thing = ℕ ⊎ ℕ

module _ {fl : Floats} where
  abbrev pub thing_iid : Objects fl → Thing → ℕ
  thing_iid o (inl s) = (o.serv s).iid
  thing_iid o (inr c) = (o.char c).iid

  -- The services and the characteristics of an accessory.
  abbrev pub Has : Objects fl → ℕ → Thing → Type 0
  Has o a (inl s) = Memᴰ s (o.acc a).servs
  Has o a (inr c) = (s : ℕ) × Memᴰ s (o.acc a).servs × Memᴰ c (o.serv s).chars

  -- No two of them have the same identifier, and all identifiers are below the next one.
  pub record HasUniqueIids (o : Objects fl) (a : ℕ) : Type 0 where
    pub unique : (x y : Thing) → Has o a x → Has o a y → thing_iid o x ≡ thing_iid o y → x ≡ y
    pub bounded : (x : Thing) → Has o a x → thing_iid o x < (o.acc a).next_iid

  -- The things of an accessory are old ones with their old identifiers, or new ones that are
  -- numbered from the old next identifier on, each with a number of its own.
  pub extend :
      (o r : Objects fl) (a : ℕ) (New : Thing → Type 0)
      → HasUniqueIids o a
      → ((x : Thing) → Has r a x → (Has o a x × (thing_iid r x ≡ thing_iid o x)) ⊎ New x)
      → ((x : Thing)
          → New x
          → ((o.acc a).next_iid ≤ thing_iid r x) × (thing_iid r x < (r.acc a).next_iid))
      → ((x y : Thing) → New x → New y → thing_iid r x ≡ thing_iid r y → x ≡ y)
      → (o.acc a).next_iid ≤ (r.acc a).next_iid
      → HasUniqueIids r a
  extend o r a New u old fresh distinct grown = record {
    unique = λ x y hx hy e. elim (old x hx) [
      | inl (ox, ex) ↦ elim (old y hy) [
        | inl (oy, ey) ↦ u.unique x y ox oy (sym ex ∙ e ∙ ey)
        | inr ny ↦ absurd (omega (arith, u.bounded x ox, (fresh y ny).0, ex, e))
      ]
      | inr nx ↦ elim (old y hy) [
        | inl (oy, ey) ↦ absurd (omega (arith, u.bounded y oy, (fresh x nx).0, ey, e))
        | inr ny ↦ distinct x y nx ny e
      ]
    ];
    bounded = λ x hx. elim (old x hx) [
      | inl (ox, ex) ↦ omega (arith, u.bounded x ox, ex, grown)
      | inr nx ↦ (fresh x nx).1
    ];
  }
