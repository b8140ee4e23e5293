-- ===== src/Accessories/ServIdentifiers.antt =====
-- esp_hap_acc.c: the instance identifiers of an accessory that a service joins.
use mathlib.Core.List.{Memᴰ}
use mathlib.Core.List.Memᴰ
use nina_fw_homekit.Prelude.{
  ℕ, ◌+◌, ◌^◌, ◌≤◌, ◌<◌, ◌≡◌, ◌≢◌, ◌⊎◌, inl, inr, sym, ap, subst, ◌∙◌, arith, none, length,
  ℕ_discrete, Option-cases, some_inj,
}
use nina_fw_homekit.Characteristics.{Floats}
use nina_fw_homekit.Accessories.{Objects, hap_acc_add_serv}
use nina_fw_homekit.Accessories.Joining.{
  add_serv_refused, add_serv_servs, add_serv_next, add_serv_acc, add_serv_serv, add_serv_other,
  add_serv_char, add_serv_bounds, add_serv_distinct,
}
use nina_fw_homekit.Accessories.Ownership.{IsOwned, free_serv, add_serv_chars}
use nina_fw_homekit.Accessories.Identifiers.{Thing, thing_iid, Has, HasUniqueIids, extend}

module _ {fl : Floats} where
  -- A characteristic of another service is not one of a service that joins.
  other_char :
      (o : Objects fl) (s t c : ℕ)
      → IsOwned o
      → t ≢ s
      → Memᴰ c (o.serv t).chars
      → ¬ Memᴰ c (o.serv s).chars
  other_char o s t c w n m k = n (some_inj (sym (w.char_parent t c m) ∙ w.char_parent s c k))

  -- What was there when a service joins keeps its identifier.
  add_serv_kept :
      (a s b : ℕ) (o : Objects fl) (free : (o.serv s).parent ≡ none) (w : IsOwned o) (x : Thing)
      → Has o b x
      → thing_iid (hap_acc_add_serv a s o).1 x ≡ thing_iid o x
  add_serv_kept a s b o free w (inl t) h =
      ap (λ hs. hs.iid) (add_serv_other a s o free t (free_serv o w b s t free h))
  add_serv_kept a s b o free w (inr c) (t, mt, mc) =
      ap (λ hc. hc.iid)
        (add_serv_char a s o free c (other_char o s t c w (free_serv o w b s t free mt) mc))

  -- What joins with a service.
  abbrev Joins : Objects fl → ℕ → Thing → Type 0
  Joins o s (inl t) = t ≡ s
  Joins o s (inr c) = Memᴰ c (o.serv s).chars

  add_serv-Has :
      (a s : ℕ) (o : Objects fl) (free : (o.serv s).parent ≡ none) (x : Thing)
      → Has (hap_acc_add_serv a s o).1 a x
      → Has o a x ⊎ Joins o s x
  add_serv-Has a s o free (inl t) h =
      elim (Memᴰ.append_cases (o.acc a).servs (subst (Memᴰ t) (add_serv_servs a s o free) h)) [
        | inl k ↦ inl k
        | inr k ↦ elim (Memᴰ.cases_cons k) [ inl e ↦ inr e | inr n ↦ absurd (Memᴰ.not-nil n) ]
      ]
  add_serv-Has a s o free (inr c) (t, mt, mc) =
      let same = subst (Memᴰ c) (add_serv_chars a s t o free) mc in
      elim (Memᴰ.append_cases (o.acc a).servs (subst (Memᴰ t) (add_serv_servs a s o free) mt)) [
        | inl k ↦ inl (t, k, same)
        | inr k ↦ elim (Memᴰ.cases_cons k) [
          | inl e ↦ inr (subst (λ x. Memᴰ c (o.serv x).chars) e same)
          | inr n ↦ absurd (Memᴰ.not-nil n)
        ]
      ]

  add_serv-Has_other :
      (a s b : ℕ) (o : Objects fl) (free : (o.serv s).parent ≡ none) (x : Thing)
      → b ≢ a
      → Has (hap_acc_add_serv a s o).1 b x
      → Has o b x
  add_serv-Has_other a s b o free (inl t) n h =
      subst (λ ha. Memᴰ t ha.servs) (add_serv_acc a s o free b n) h
  add_serv-Has_other a s b o free (inr c) n (t, mt, mc) = (
    t,
    subst (λ ha. Memᴰ t ha.servs) (add_serv_acc a s o free b n) mt,
    subst (Memᴰ c) (add_serv_chars a s t o free) mc,
  )

  module _ (a s : ℕ) (o : Objects fl) (free : (o.serv s).parent ≡ none) (w : IsOwned o)
      (room : (o.acc a).next_iid + 1 + length (o.serv s).chars < 2 ^ 32) where
    joins_serv : (t : ℕ) → t ≡ s → ((hap_acc_add_serv a s o).1.serv t).iid ≡ (o.acc a).next_iid
    joins_serv t e =
        ap (λ x. ((hap_acc_add_serv a s o).1.serv x).iid) e
        ∙ ap (λ hs. hs.iid) (add_serv_serv a s o free)

    Joins-fresh :
        (x : Thing)
        → Joins o s x
        → ((o.acc a).next_iid ≤ thing_iid (hap_acc_add_serv a s o).1 x)
          × (thing_iid (hap_acc_add_serv a s o).1 x < ((hap_acc_add_serv a s o).1.acc a).next_iid)
    Joins-fresh (inl t) e =
        let next = add_serv_next a s o free room in
        (omega (arith, joins_serv t e), omega (arith, joins_serv t e, next))
    Joins-fresh (inr c) m =
        let next = add_serv_next a s o free room in
        let (lo, hi) = add_serv_bounds a s o free (w.no_repeat s) room c m in
        (omega (arith, lo), omega (arith, hi, next))

    Joins-distinct :
        (x y : Thing)
        → Joins o s x
        → Joins o s y
        → thing_iid (hap_acc_add_serv a s o).1 x ≡ thing_iid (hap_acc_add_serv a s o).1 y
        → x ≡ y
    Joins-distinct (inl t) (inl t') e e' same = ap inl (e ∙ sym e')
    Joins-distinct (inl t) (inr c) e m same = absurd (
        omega
          (arith, joins_serv t e, same, (add_serv_bounds a s o free (w.no_repeat s) room c m).0))
    Joins-distinct (inr c) (inl t) m e same = absurd (
        omega
          (arith, joins_serv t e, same, (add_serv_bounds a s o free (w.no_repeat s) room c m).0))
    Joins-distinct (inr c) (inr d) mc md same =
        ap inr (add_serv_distinct a s o free (w.no_repeat s) room c d mc md same)

    add_serv_joined : HasUniqueIids o a → HasUniqueIids (hap_acc_add_serv a s o).1 a
    add_serv_joined u =
        extend o (hap_acc_add_serv a s o).1 a (Joins o s) u
          (λ x h. elim (add_serv-Has a s o free x h) [
            | inl k ↦ inl (k, add_serv_kept a s a o free w x k)
            | inr k ↦ inr k
          ])
          Joins-fresh Joins-distinct (omega (arith, add_serv_next a s o free room))

  add_serv_elsewhere :
      (a s b : ℕ) (o : Objects fl)
      → (o.serv s).parent ≡ none
      → IsOwned o
      → b ≢ a
      → HasUniqueIids o b
      → HasUniqueIids (hap_acc_add_serv a s o).1 b
  add_serv_elsewhere a s b o free w n u =
      extend o (hap_acc_add_serv a s o).1 b (λ x. ⊥) u
        (λ x h.
          let k = add_serv-Has_other a s b o free x n h in
          inl (k, add_serv_kept a s b o free w x k))
        (λ x k. absurd k) (λ x y k l e. absurd k)
        (omega (arith, ap (λ ha. ha.next_iid) (add_serv_acc a s o free b n)))

  -- A service that joins an accessory.
  pub hap_acc_add_serv-HasUniqueIids :
      (a s : ℕ) (o : Objects fl)
      → IsOwned o
      → ((b : ℕ) → HasUniqueIids o b)
      → (o.acc a).next_iid + 1 + length (o.serv s).chars < 2 ^ 32
      → (b : ℕ) → HasUniqueIids (hap_acc_add_serv a s o).1 b
  hap_acc_add_serv-HasUniqueIids a s o w u room b = elim (Option-cases (o.serv s).parent) [
    | inl free ↦ elim (ℕ_discrete b a) [
      | yes e ↦
          subst (HasUniqueIids (hap_acc_add_serv a s o).1) (sym e)
            (add_serv_joined a s o free w room (u a))
      | no n ↦ add_serv_elsewhere a s b o free w n (u b)
    ]
    | inr (p, e) ↦ rw (add_serv_refused a s p o e) (u b)
  ]
