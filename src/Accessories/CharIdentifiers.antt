-- ===== src/Accessories/CharIdentifiers.antt =====
-- esp_hap_serv.c: the instance identifiers of an accessory that a characteristic joins.
use mathlib.Core.List.{Memᴰ}
use mathlib.Core.List.Memᴰ
use nina_fw_homekit.Prelude.{
  ℕ, ◌+◌, ◌^◌, ◌<◌, ◌≡◌, ◌≢◌, ◌⊎◌, inl, inr, sym, ap, subst, ◌∙◌, arith, Option, none, some,
  ℕ_discrete, Option-cases, some_inj,
}
use nina_fw_homekit.Characteristics.{Floats}
use nina_fw_homekit.Accessories.{Objects, hap_serv_add_char}
use nina_fw_homekit.Accessories.AddChar.{
  add_char_refused, add_char_serv, add_char_serv_other, add_char_other, add_char_servs,
  add_char_acc, add_char_iid, add_char_next,
}
use nina_fw_homekit.Accessories.Ownership.{IsOwned, free_char}
use nina_fw_homekit.Accessories.Identifiers.{Thing, thing_iid, Has, HasUniqueIids, extend}

dec_owner : (q : Option ℕ) (b : ℕ) → (q ≡ some b) ⊎ (q ≢ some b)
dec_owner none b = inr (λ e. cc)
dec_owner (some a) b = elim (ℕ_discrete a b) [
  | yes e ↦ inl (ap some e)
  | no n ↦ inr (λ e. n (some_inj e))
]

module _ {fl : Floats} where
  add_char_serv_iid :
      (s c t : ℕ) (o : Objects fl)
      → (o.char c).parent ≡ none
      → ((hap_serv_add_char (some s) (some c) o).1.serv t).iid ≡ (o.serv t).iid
  add_char_serv_iid s c t o free = elim (ℕ_discrete t s) [
    | yes e ↦
        ap (λ x. ((hap_serv_add_char (some s) (some c) o).1.serv x).iid) e
        ∙ ap (λ hs. hs.iid) (add_char_serv s c o free)
        ∙ ap (λ x. (o.serv x).iid) (sym e)
    | no n ↦ ap (λ hs. hs.iid) (add_char_serv_other s c o free t n)
  ]

  module _ (s c : ℕ) (o : Objects fl) (free : (o.char c).parent ≡ none) (w : IsOwned o) where
    add_char_kept :
        (b : ℕ) (x : Thing)
        → Has o b x
        → thing_iid (hap_serv_add_char (some s) (some c) o).1 x ≡ thing_iid o x
    add_char_kept b (inl t) h = add_char_serv_iid s c t o free
    add_char_kept b (inr d) (t, mt, md) =
        ap (λ hc. hc.iid) (add_char_other s c o free d (free_char o w t c d free md))

    add_char_chars :
        (t d : ℕ)
        → Memᴰ d ((hap_serv_add_char (some s) (some c) o).1.serv t).chars
        → Memᴰ d (o.serv t).chars ⊎ ((t ≡ s) × (d ≡ c))
    add_char_chars t d m = elim (ℕ_discrete t s) [
      | yes e ↦
          let at_s =
            ap (λ x. ((hap_serv_add_char (some s) (some c) o).1.serv x).chars) e
            ∙ ap (λ hs. hs.chars) (add_char_serv s c o free) in
          elim (Memᴰ.append_cases (o.serv s).chars (subst (Memᴰ d) at_s m)) [
            | inl k ↦ inl (subst (λ x. Memᴰ d (o.serv x).chars) (sym e) k)
            | inr k ↦ elim (Memᴰ.cases_cons k) [
              | inl new ↦ inr (e, new)
              | inr n ↦ absurd (Memᴰ.not-nil n)
            ]
          ]
      | no n ↦ inl (subst (λ hs. Memᴰ d hs.chars) (add_char_serv_other s c o free t n) m)
    ]

    add_char-Has :
        (b : ℕ) (x : Thing)
        → Has (hap_serv_add_char (some s) (some c) o).1 b x
        → Has o b x ⊎ (Memᴰ s (o.acc b).servs × (x ≡ inr c))
    add_char-Has b (inl t) h = inl (subst (Memᴰ t) (add_char_servs s c o free b) h)
    add_char-Has b (inr d) (t, mt, md) =
        let k = subst (Memᴰ t) (add_char_servs s c o free b) mt in
        elim (add_char_chars t d md) [
          | inl old ↦ inl (t, k, old)
          | inr (e, new) ↦ inr (subst (λ x. Memᴰ x (o.acc b).servs) e k, ap inr new)
        ]

    add_char_joined :
        (a : ℕ)
        → (o.serv s).parent ≡ some a
        → (o.acc a).next_iid + 1 < 2 ^ 32
        → HasUniqueIids o a
        → HasUniqueIids (hap_serv_add_char (some s) (some c) o).1 a
    add_char_joined a parent room u =
        let r = (hap_serv_add_char (some s) (some c) o).1 in
        let next = add_char_next s c o free a parent room in
        let iid = add_char_iid s c o free a parent in
        extend o r a (λ x. x ≡ inr c) u
          (λ x h. elim (add_char-Has a x h) [
            | inl k ↦ inl (k, add_char_kept a x k)
            | inr (m, e) ↦ inr e
          ])
          (λ x e.
            let at_c = ap (thing_iid r) e in
            (omega (arith, at_c, iid), omega (arith, at_c, iid, next)))
          (λ x y ex ey same. ex ∙ sym ey) (omega (arith, next))

    add_char_elsewhere :
        (b : ℕ)
        → (o.serv s).parent ≢ some b
        → HasUniqueIids o b
        → HasUniqueIids (hap_serv_add_char (some s) (some c) o).1 b
    add_char_elsewhere b n u =
        extend o (hap_serv_add_char (some s) (some c) o).1 b (λ x. ⊥) u
          (λ x h. elim (add_char-Has b x h) [
            | inl k ↦ inl (k, add_char_kept b x k)
            | inr (m, e) ↦ absurd (n (w.serv_parent b s m))
          ])
          (λ x k. absurd k) (λ x y k l e. absurd k)
          (omega (arith, ap (λ ha. ha.next_iid) (add_char_acc s c o free b n)))

  -- A characteristic that joins a service.
  pub hap_serv_add_char-HasUniqueIids :
      (s c : ℕ) (o : Objects fl)
      → IsOwned o
      → ((b : ℕ) → HasUniqueIids o b)
      → ((a : ℕ) → (o.serv s).parent ≡ some a → (o.acc a).next_iid + 1 < 2 ^ 32)
      → (b : ℕ) → HasUniqueIids (hap_serv_add_char (some s) (some c) o).1 b
  hap_serv_add_char-HasUniqueIids s c o w u room b = elim (Option-cases (o.char c).parent) [
    | inl free ↦ elim (dec_owner (o.serv s).parent b) [
      | inl e ↦ add_char_joined s c o free w b e (room b e) (u b)
      | inr n ↦ add_char_elsewhere s c o free w b n (u b)
    ]
    | inr (p, e) ↦ rw (add_char_refused s c p o e) (u b)
  ]
