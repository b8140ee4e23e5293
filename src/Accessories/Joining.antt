-- ===== src/Accessories/Joining.antt =====
-- esp_hap_acc.c: what hap_acc_add_serv changes.
use mathlib.Core.List.{Memᴰ}
use nina_fw_homekit.Prelude.{
  ℕ, ◌+◌, ◌^◌, ◌<◌, ◌≡◌, ◌≢◌, refl, ap, ◌∙◌, arith, true, false, none, some, [], ◌∷◌, ◌++◌, length,
  ==_refl, ==_false,
}
use nina_fw_homekit.Characteristics.{Floats}
use nina_fw_homekit.Accessories.{
  Objects, HapServ, next32, put_serv, put_acc, number_chars, join_serv, hap_acc_add_serv,
}
use nina_fw_homekit.Accessories.Numbering.{
  NoRepeat, put_acc_same, put_acc_other, number_chars_serv, number_chars_servs, number_chars_next,
  number_chars_acc_other, number_chars_other, number_chars_parent, number_chars_bounds,
  number_chars_distinct,
}

abbrev attached : ℕ → HapServ → HapServ
attached a hs = record hs { parent = some a }

module _ {fl : Floats} where
  pub put_serv_same : (s : ℕ) (hs : HapServ) (o : Objects fl) → (put_serv s hs o).serv s ≡ hs
  unfolding put_serv
  put_serv_same s hs o = rw (==_refl s) refl

  pub put_serv_other :
      (s t : ℕ) (hs : HapServ) (o : Objects fl) → t ≢ s → (put_serv s hs o).serv t ≡ o.serv t
  unfolding put_serv
  put_serv_other s t hs o h = rw (==_false t s h) refl

  -- The state in which `hap_acc_add_serv` starts to number the characteristics.
  abbrev pub chained : ℕ → ℕ → Objects fl → Objects fl
  chained a s o =
      put_acc a
        (record (o.acc a) {
          servs = (o.acc a).servs ++ s ∷ [];
          next_iid = next32 (o.acc a).next_iid;
        })
        (put_serv s (record (o.serv s) { iid = (o.acc a).next_iid }) o)

  abbrev pub numbered : ℕ → ℕ → Objects fl → Objects fl
  numbered a s o = number_chars a (o.serv s).chars (chained a s o)

  pub add_serv_joins :
      (a s : ℕ) (o : Objects fl)
      → (o.serv s).parent ≡ none
      → hap_acc_add_serv a s o
        ≡ (true, put_serv s (record ((numbered a s o).serv s) { parent = some a }) (numbered a s o))
  unfolding hap_acc_add_serv join_serv
  add_serv_joins a s o h = ap (λ q. join_serv q a s o) h

  pub add_serv_refused :
      (a s p : ℕ) (o : Objects fl)
      → (o.serv s).parent ≡ some p
      → hap_acc_add_serv a s o ≡ (false, o)
  unfolding hap_acc_add_serv join_serv
  add_serv_refused a s p o h = ap (λ q. join_serv q a s o) h

  module _ (a s : ℕ) (o : Objects fl) (free : (o.serv s).parent ≡ none) where
    joined :
        hap_acc_add_serv a s o
        ≡ (true, put_serv s (record ((numbered a s o).serv s) { parent = some a }) (numbered a s o))
    joined = add_serv_joins a s o free

    chained_next :
        (o.acc a).next_iid + 1 < 2 ^ 32 → ((chained a s o).acc a).next_iid ≡ (o.acc a).next_iid + 1
    unfolding next32
    chained_next h = ap (λ ha. ha.next_iid) (put_acc_same a _ (put_serv s _ o)) ∙ omega arith

    pub add_serv_servs : ((hap_acc_add_serv a s o).1.acc a).servs ≡ (o.acc a).servs ++ s ∷ []
    unfolding put_serv
    add_serv_servs = rw joined (
        number_chars_servs a (o.serv s).chars (chained a s o)
        ∙ ap (λ ha. ha.servs) (put_acc_same a _ (put_serv s _ o)))

    pub add_serv_next :
        (o.acc a).next_iid + 1 + length (o.serv s).chars < 2 ^ 32
        → ((hap_acc_add_serv a s o).1.acc a).next_iid
          ≡ (o.acc a).next_iid + 1 + length (o.serv s).chars
    unfolding put_serv
    add_serv_next h =
        let first = chained_next (omega arith) in
        rw joined (
          number_chars_next a (o.serv s).chars (chained a s o) (omega (arith, first))
          ∙ omega (arith, first))

    pub add_serv_acc : (b : ℕ) → b ≢ a → (hap_acc_add_serv a s o).1.acc b ≡ o.acc b
    unfolding put_serv
    add_serv_acc b h = rw joined (
        number_chars_acc_other a b (o.serv s).chars (chained a s o) h
        ∙ put_acc_other a b _ (put_serv s _ o) h)

    pub add_serv_serv :
        (hap_acc_add_serv a s o).1.serv s
        ≡ record (o.serv s) { iid = (o.acc a).next_iid; parent = some a }
    unfolding put_acc
    add_serv_serv = rw joined (
        put_serv_same s _ (numbered a s o)
        ∙ ap (λ f. attached a (f s)) (number_chars_serv a (o.serv s).chars (chained a s o))
        ∙ ap (attached a) (put_serv_same s _ o))

    pub add_serv_other : (t : ℕ) → t ≢ s → (hap_acc_add_serv a s o).1.serv t ≡ o.serv t
    unfolding put_acc
    add_serv_other t h = rw joined (
        put_serv_other s t _ (numbered a s o) h
        ∙ ap (λ f. f t) (number_chars_serv a (o.serv s).chars (chained a s o))
        ∙ put_serv_other s t _ o h)

    pub add_serv_char :
        (d : ℕ) → ¬ Memᴰ d (o.serv s).chars → (hap_acc_add_serv a s o).1.char d ≡ o.char d
    unfolding put_serv put_acc
    add_serv_char d h = rw joined (number_chars_other a (o.serv s).chars d (chained a s o) h)

    pub add_serv_parent : (d : ℕ) → ((hap_acc_add_serv a s o).1.char d).parent ≡ (o.char d).parent
    unfolding put_serv put_acc
    add_serv_parent d = rw joined (number_chars_parent a (o.serv s).chars d (chained a s o))

    module _ (u : NoRepeat (o.serv s).chars)
        (h : (o.acc a).next_iid + 1 + length (o.serv s).chars < 2 ^ 32) where
      pub add_serv_bounds :
          (d : ℕ)
          → Memᴰ d (o.serv s).chars
          → let iid = ((hap_acc_add_serv a s o).1.char d).iid in
            ((o.acc a).next_iid < iid) × (iid < (o.acc a).next_iid + 1 + length (o.serv s).chars)
      unfolding put_serv
      add_serv_bounds d m =
          let first = chained_next (omega arith) in
          let (lo, hi) =
            number_chars_bounds a (o.serv s).chars d (chained a s o) u (omega (arith, first)) m in
          rw joined (omega (arith, first, lo), omega (arith, first, hi))

      pub add_serv_distinct :
          (d e : ℕ)
          → Memᴰ d (o.serv s).chars
          → Memᴰ e (o.serv s).chars
          → ((hap_acc_add_serv a s o).1.char d).iid ≡ ((hap_acc_add_serv a s o).1.char e).iid
          → d ≡ e
      unfolding put_serv
      add_serv_distinct d e md me same =
          let first = chained_next (omega arith) in
          number_chars_distinct a (o.serv s).chars d e (chained a s o) u (omega (arith, first)) md
            me (rw joined at same)
