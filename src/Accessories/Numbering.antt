-- ===== src/Accessories/Numbering.antt =====
-- esp_hap_acc.c: the numbers that hap_acc_add_serv gives to the characteristics of a service.
use mathlib.Core.List.{Memᴰ}
use mathlib.Core.List.Memᴰ
use nina_fw_homekit.Prelude.{
  ℕ, ◌+◌, ◌^◌, ◌≤◌, ◌<◌, ◌≡◌, ◌≢◌, inl, inr, refl, sym, ap, subst, ◌∙◌, arith, some, List, [], ◌∷◌,
  length, ==_refl, ==_false, ℕ_discrete,
}
use nina_fw_homekit.Characteristics.{Floats, HapChar}
use nina_fw_homekit.Accessories.{
  Objects, HapAcc, next32, put_char, put_acc, number_char, number_chars,
}

-- No address stands twice in a chain.
abbrev pub NoRepeat : List ℕ → Type 0
NoRepeat [] = Unit {0}
NoRepeat (c ∷ cs) = ¬ Memᴰ c cs × NoRepeat cs

module _ {fl : Floats} where
  pub put_char_same : (c : ℕ) (hc : HapChar fl) (o : Objects fl) → (put_char c hc o).char c ≡ hc
  unfolding put_char
  put_char_same c hc o = rw (==_refl c) refl

  pub put_char_other :
      (c d : ℕ) (hc : HapChar fl) (o : Objects fl) → d ≢ c → (put_char c hc o).char d ≡ o.char d
  unfolding put_char
  put_char_other c d hc o h = rw (==_false d c h) refl

  pub put_acc_same : (a : ℕ) (ha : HapAcc) (o : Objects fl) → (put_acc a ha o).acc a ≡ ha
  unfolding put_acc
  put_acc_same a ha o = rw (==_refl a) refl

  pub put_acc_other :
      (a b : ℕ) (ha : HapAcc) (o : Objects fl) → b ≢ a → (put_acc a ha o).acc b ≡ o.acc b
  unfolding put_acc
  put_acc_other a b ha o h = rw (==_false b a h) refl

  -- One characteristic.
  pub number_char_acc :
      (a c : ℕ) (o : Objects fl)
      → (number_char (some a) c o).acc a ≡ record (o.acc a) { next_iid = next32 (o.acc a).next_iid }
  unfolding number_char
  number_char_acc a c o = put_acc_same a _ (put_char c _ o)

  pub number_char_char :
      (a c : ℕ) (o : Objects fl)
      → (number_char (some a) c o).char c ≡ record (o.char c) { iid = (o.acc a).next_iid }
  unfolding number_char put_acc
  number_char_char a c o = put_char_same c _ o

  pub number_char_other :
      (a c d : ℕ) (o : Objects fl) → d ≢ c → (number_char (some a) c o).char d ≡ o.char d
  unfolding number_char put_acc
  number_char_other a c d o h = put_char_other c d _ o h

  -- A characteristic that is not among them is kept.
  pub number_chars_other :
      (a : ℕ) (cs : List ℕ) (d : ℕ) (o : Objects fl)
      → ¬ Memᴰ d cs
      → (number_chars a cs o).char d ≡ o.char d
  unfolding number_chars
  number_chars_other a [] d o h = refl
  number_chars_other a (c ∷ cs) d o h =
      number_chars_other a cs d (number_char (some a) c o) (λ m. h (Memᴰ.tail m))
      ∙ number_char_other a c d o (λ e. h (Memᴰ.head e))

  -- The services, the parents, and the other accessories are kept.
  pub number_chars_serv :
      (a : ℕ) (cs : List ℕ) (o : Objects fl) → (number_chars a cs o).serv ≡ o.serv
  unfolding number_chars number_char put_acc put_char
  number_chars_serv a [] o = refl
  number_chars_serv a (c ∷ cs) o = number_chars_serv a cs (number_char (some a) c o)

  number_char_parent :
      (a c d : ℕ) (o : Objects fl) → ((number_char (some a) c o).char d).parent ≡ (o.char d).parent
  number_char_parent a c d o = elim (ℕ_discrete d c) [
    | yes e ↦
        subst (λ x. ((number_char (some a) c o).char x).parent ≡ (o.char x).parent) (sym e)
          (ap (λ hc. hc.parent) (number_char_char a c o))
    | no n ↦ ap (λ hc. hc.parent) (number_char_other a c d o n)
  ]

  pub number_chars_parent :
      (a : ℕ) (cs : List ℕ) (d : ℕ) (o : Objects fl)
      → ((number_chars a cs o).char d).parent ≡ (o.char d).parent
  unfolding number_chars
  number_chars_parent a [] d o = refl
  number_chars_parent a (c ∷ cs) d o =
      number_chars_parent a cs d (number_char (some a) c o) ∙ number_char_parent a c d o

  pub number_chars_acc_other :
      (a b : ℕ) (cs : List ℕ) (o : Objects fl) → b ≢ a → (number_chars a cs o).acc b ≡ o.acc b
  unfolding number_chars number_char put_char
  number_chars_acc_other a b [] o h = refl
  number_chars_acc_other a b (c ∷ cs) o h =
      number_chars_acc_other a b cs (number_char (some a) c o) h
      ∙ put_acc_other a b _ (put_char c _ o) h

  pub number_chars_servs :
      (a : ℕ) (cs : List ℕ) (o : Objects fl) → ((number_chars a cs o).acc a).servs ≡ (o.acc a).servs
  unfolding number_chars
  number_chars_servs a [] o = refl
  number_chars_servs a (c ∷ cs) o =
      number_chars_servs a cs (number_char (some a) c o)
      ∙ ap (λ ha. ha.servs) (number_char_acc a c o)

  number_char_next :
      (a c : ℕ) (o : Objects fl)
      → (o.acc a).next_iid + 1 < 2 ^ 32
      → ((number_char (some a) c o).acc a).next_iid ≡ (o.acc a).next_iid + 1
  unfolding next32
  number_char_next a c o h = ap (λ ha. ha.next_iid) (number_char_acc a c o) ∙ omega arith

  pub number_chars_next :
      (a : ℕ) (cs : List ℕ) (o : Objects fl)
      → (o.acc a).next_iid + length cs < 2 ^ 32
      → ((number_chars a cs o).acc a).next_iid ≡ (o.acc a).next_iid + length cs
  unfolding number_chars
  number_chars_next a [] o h = omega arith
  number_chars_next a (c ∷ cs) o h =
      let step = number_char_next a c o (omega arith) in
      number_chars_next a cs (number_char (some a) c o) (omega (arith, step)) ∙ omega (arith, step)

  -- Each one that is numbered gets a number of its own, from the next one of the accessory on.
  pub number_chars_bounds :
      (a : ℕ) (cs : List ℕ) (d : ℕ) (o : Objects fl)
      → NoRepeat cs
      → (o.acc a).next_iid + length cs < 2 ^ 32
      → Memᴰ d cs
      → ((o.acc a).next_iid ≤ ((number_chars a cs o).char d).iid)
        × (((number_chars a cs o).char d).iid < (o.acc a).next_iid + length cs)
  unfolding number_chars
  number_chars_bounds a [] d o u h m = absurd (Memᴰ.not-nil m)
  number_chars_bounds a (c ∷ cs) d o u h m = elim (Memᴰ.cases_cons m) [
    | inl e ↦
        let kept =
          number_chars_other a cs d (number_char (some a) c o) (λ k. u.0 (Memᴰ.cast (sym e) k)) in
        let same =
          ap (λ x. ((number_char (some a) c o).char x).iid) e
          ∙ ap (λ hc. hc.iid) (number_char_char a c o) in
        let iid = ap (λ hc. hc.iid) kept ∙ same in (omega (arith, iid), omega (arith, iid))
    | inr k ↦
        let step = number_char_next a c o (omega arith) in
        let (lo, hi) =
          number_chars_bounds a cs d (number_char (some a) c o) u.1 (omega (arith, step)) k in
        (omega (arith, step, lo), omega (arith, step, hi))
  ]

  number_chars_first :
      (a c : ℕ) (cs : List ℕ) (o : Objects fl)
      → ¬ Memᴰ c cs
      → ((number_chars a cs (number_char (some a) c o)).char c).iid ≡ (o.acc a).next_iid
  number_chars_first a c cs o h =
      ap (λ hc. hc.iid)
        (number_chars_other a cs c (number_char (some a) c o) h ∙ number_char_char a c o)

  number_chars_later :
      (a c : ℕ) (cs : List ℕ) (d : ℕ) (o : Objects fl)
      → NoRepeat cs
      → (o.acc a).next_iid + length (c ∷ cs) < 2 ^ 32
      → Memᴰ d cs
      → (o.acc a).next_iid < ((number_chars a cs (number_char (some a) c o)).char d).iid
  number_chars_later a c cs d o u h m =
      let step = number_char_next a c o (omega arith) in
      omega (
        arith,
        step,
        (number_chars_bounds a cs d (number_char (some a) c o) u (omega (arith, step)) m).0,
      )

  pub number_chars_distinct :
      (a : ℕ) (cs : List ℕ) (d e : ℕ) (o : Objects fl)
      → NoRepeat cs
      → (o.acc a).next_iid + length cs < 2 ^ 32
      → Memᴰ d cs
      → Memᴰ e cs
      → ((number_chars a cs o).char d).iid ≡ ((number_chars a cs o).char e).iid
      → d ≡ e
  unfolding number_chars
  number_chars_distinct a [] d e o u h md me same = absurd (Memᴰ.not-nil md)
  number_chars_distinct a (c ∷ cs) d e o u h md me same =
      let step = number_char_next a c o (omega arith) in
      let first = number_chars_first a c cs o u.0 in
      elim (Memᴰ.cases_cons md) [
        | inl ed ↦ elim (Memᴰ.cases_cons me) [
          | inl ee ↦ ed ∙ sym ee
          | inr ke ↦
              let at_d = ap (λ x. ((number_chars a cs (number_char (some a) c o)).char x).iid) ed in
              absurd (omega (arith, same, first, at_d, number_chars_later a c cs e o u.1 h ke))
        ]
        | inr kd ↦ elim (Memᴰ.cases_cons me) [
          | inl ee ↦
              let at_e = ap (λ x. ((number_chars a cs (number_char (some a) c o)).char x).iid) ee in
              absurd (omega (arith, same, first, at_e, number_chars_later a c cs d o u.1 h kd))
          | inr ke ↦
              number_chars_distinct a cs d e (number_char (some a) c o) u.1 (omega (arith, step)) kd
                ke same
        ]
      ]
