-- ===== src/Accessories/Ownership.antt =====
-- esp_hap_acc.c, esp_hap_serv.c: every object hangs in at most one place of the tree.
use mathlib.Core.List.{Memᴰ}
use mathlib.Core.List.Memᴰ
use nina_fw_homekit.Prelude.{
  ℕ, ◌≡◌, ◌≢◌, inl, inr, refl, sym, ap, subst, ◌∙◌, Option, none, some, List, [], ◌∷◌, ◌++◌,
  ℕ_discrete, Option-cases,
}
use nina_fw_homekit.Characteristics.{Floats}
use nina_fw_homekit.Accessories.{Objects, hap_acc_add_serv, hap_serv_add_char}
use nina_fw_homekit.Accessories.Numbering.{NoRepeat}
use nina_fw_homekit.Accessories.Joining.{
  add_serv_refused, add_serv_servs, add_serv_acc, add_serv_serv, add_serv_other, add_serv_parent,
}
use nina_fw_homekit.Accessories.AddChar.{
  add_char_refused, add_char_serv, add_char_serv_other, add_char_parent, add_char_other,
  add_char_servs,
}

NoRepeat-concat : (cs : List ℕ) (c : ℕ) → NoRepeat cs → ¬ Memᴰ c cs → NoRepeat (cs ++ c ∷ [])
NoRepeat-concat [] c u h = (λ m. Memᴰ.not-nil m, tt)
NoRepeat-concat (x ∷ cs) c u h = (
  λ m. elim (Memᴰ.append_cases cs m) [
    | inl k ↦ u.0 k
    | inr k ↦ elim (Memᴰ.cases_cons k) [ inl e ↦ h (Memᴰ.head (sym e)) | inr n ↦ Memᴰ.not-nil n ]
  ],
  NoRepeat-concat cs c u.1 (λ m. h (Memᴰ.tail m)),
)

module _ {fl : Floats} where
  -- What is in a chain points back to the owner of the chain, and no chain of characteristics holds
  -- one twice.
  pub record IsOwned (o : Objects fl) : Type 0 where
    pub serv_parent : (a s : ℕ) → Memᴰ s (o.acc a).servs → (o.serv s).parent ≡ some a
    pub char_parent : (s c : ℕ) → Memᴰ c (o.serv s).chars → (o.char c).parent ≡ some s
    pub no_repeat : (s : ℕ) → NoRepeat (o.serv s).chars

  -- An object with no parent is in no chain.
  pub free_serv :
      (o : Objects fl)
      → IsOwned o
      → (a s t : ℕ) → (o.serv s).parent ≡ none
      → Memᴰ t (o.acc a).servs
      → t ≢ s
  free_serv o w a s t free m e =
      let owned = w.serv_parent a t m in let same = ap (λ x. (o.serv x).parent) e in cc

  pub free_char :
      (o : Objects fl)
      → IsOwned o
      → (s c d : ℕ) → (o.char c).parent ≡ none
      → Memᴰ d (o.serv s).chars
      → d ≢ c
  free_char o w s c d free m e =
      let owned = w.char_parent s d m in let same = ap (λ x. (o.char x).parent) e in cc

  pub add_serv_chars :
      (a s t : ℕ) (o : Objects fl)
      → (o.serv s).parent ≡ none
      → ((hap_acc_add_serv a s o).1.serv t).chars ≡ (o.serv t).chars
  add_serv_chars a s t o free = elim (ℕ_discrete t s) [
    | yes e ↦
        ap (λ x. ((hap_acc_add_serv a s o).1.serv x).chars) e
        ∙ ap (λ hs. hs.chars) (add_serv_serv a s o free)
        ∙ ap (λ x. (o.serv x).chars) (sym e)
    | no n ↦ ap (λ hs. hs.chars) (add_serv_other a s o free t n)
  ]

  add_serv_owned :
      (a s : ℕ) (o : Objects fl)
      → (o.serv s).parent ≡ none
      → IsOwned o
      → (b t : ℕ) → Memᴰ t ((hap_acc_add_serv a s o).1.acc b).servs
      → ((hap_acc_add_serv a s o).1.serv t).parent ≡ some b
  add_serv_owned a s o free w b t m = elim (ℕ_discrete b a) [
    | yes e ↦
        let at_a = subst (λ x. Memᴰ t ((hap_acc_add_serv a s o).1.acc x).servs) e m in
        elim (Memᴰ.append_cases (o.acc a).servs (subst (Memᴰ t) (add_serv_servs a s o free) at_a)) [
          | inl k ↦
              ap (λ hs. hs.parent) (add_serv_other a s o free t (free_serv o w a s t free k))
              ∙ w.serv_parent a t k
              ∙ ap some (sym e)
          | inr k ↦ elim (Memᴰ.cases_cons k) [
            | inl new ↦
                ap (λ x. ((hap_acc_add_serv a s o).1.serv x).parent) new
                ∙ ap (λ hs. hs.parent) (add_serv_serv a s o free)
                ∙ ap some (sym e)
            | inr n ↦ absurd (Memᴰ.not-nil n)
          ]
        ]
    | no n ↦
        let k = subst (λ ha. Memᴰ t ha.servs) (add_serv_acc a s o free b n) m in
        ap (λ hs. hs.parent) (add_serv_other a s o free t (free_serv o w b s t free k))
        ∙ w.serv_parent b t k
  ]

  pub hap_acc_add_serv-IsOwned :
      (a s : ℕ) (o : Objects fl) → IsOwned o → IsOwned (hap_acc_add_serv a s o).1
  hap_acc_add_serv-IsOwned a s o w = elim (Option-cases (o.serv s).parent) [
    | inl free ↦ record {
      serv_parent = add_serv_owned a s o free w;
      char_parent = λ t c m.
          add_serv_parent a s o free c
          ∙ w.char_parent t c (subst (Memᴰ c) (add_serv_chars a s t o free) m);
      no_repeat = λ t. subst NoRepeat (sym (add_serv_chars a s t o free)) (w.no_repeat t);
    }
    | inr (p, e) ↦ rw (add_serv_refused a s p o e) w
  ]

  add_char_owns :
      (s c : ℕ) (o : Objects fl)
      → (o.char c).parent ≡ none
      → IsOwned o
      → (t d : ℕ) → Memᴰ d ((hap_serv_add_char (some s) (some c) o).1.serv t).chars
      → ((hap_serv_add_char (some s) (some c) o).1.char d).parent ≡ some t
  add_char_owns s c o free w t d m = elim (ℕ_discrete t s) [
    | yes e ↦
        let r = (hap_serv_add_char (some s) (some c) o).1 in
        let at_s = ap (λ x. (r.serv x).chars) e ∙ ap (λ hs. hs.chars) (add_char_serv s c o free) in
        elim (Memᴰ.append_cases (o.serv s).chars (subst (Memᴰ d) at_s m)) [
          | inl k ↦
              ap (λ hc. hc.parent) (add_char_other s c o free d (free_char o w s c d free k))
              ∙ w.char_parent s d k
              ∙ ap some (sym e)
          | inr k ↦ elim (Memᴰ.cases_cons k) [
            | inl new ↦
                ap (λ x. (r.char x).parent) new ∙ add_char_parent s c o free ∙ ap some (sym e)
            | inr n ↦ absurd (Memᴰ.not-nil n)
          ]
        ]
    | no n ↦
        let k = subst (λ hs. Memᴰ d hs.chars) (add_char_serv_other s c o free t n) m in
        ap (λ hc. hc.parent) (add_char_other s c o free d (free_char o w t c d free k))
        ∙ w.char_parent t d k
  ]

  pub add_char_serv_parent :
      (s c t : ℕ) (o : Objects fl)
      → (o.char c).parent ≡ none
      → ((hap_serv_add_char (some s) (some c) o).1.serv t).parent ≡ (o.serv t).parent
  add_char_serv_parent s c t o free = elim (ℕ_discrete t s) [
    | yes e ↦
        ap (λ x. ((hap_serv_add_char (some s) (some c) o).1.serv x).parent) e
        ∙ ap (λ hs. hs.parent) (add_char_serv s c o free)
        ∙ ap (λ x. (o.serv x).parent) (sym e)
    | no n ↦ ap (λ hs. hs.parent) (add_char_serv_other s c o free t n)
  ]

  add_char-NoRepeat :
      (s c t : ℕ) (o : Objects fl)
      → (o.char c).parent ≡ none
      → IsOwned o
      → NoRepeat ((hap_serv_add_char (some s) (some c) o).1.serv t).chars
  add_char-NoRepeat s c t o free w = elim (ℕ_discrete t s) [
    | yes e ↦
        let r = (hap_serv_add_char (some s) (some c) o).1 in
        let at_s = ap (λ x. (r.serv x).chars) e ∙ ap (λ hs. hs.chars) (add_char_serv s c o free) in
        subst NoRepeat (sym at_s) (
          NoRepeat-concat (o.serv s).chars c (w.no_repeat s) (λ m. free_char o w s c c free m refl))
    | no n ↦
        subst NoRepeat (sym (ap (λ hs. hs.chars) (add_char_serv_other s c o free t n)))
          (w.no_repeat t)
  ]

  add_char-IsOwned :
      (s c : ℕ) (o : Objects fl) → IsOwned o → IsOwned (hap_serv_add_char (some s) (some c) o).1
  add_char-IsOwned s c o w = elim (Option-cases (o.char c).parent) [
    | inl free ↦ record {
      serv_parent = λ b t m.
          add_char_serv_parent s c t o free
          ∙ w.serv_parent b t (subst (Memᴰ t) (add_char_servs s c o free b) m);
      char_parent = add_char_owns s c o free w;
      no_repeat = λ t. add_char-NoRepeat s c t o free w;
    }
    | inr (p, e) ↦ rw (add_char_refused s c p o e) w
  ]

  pub hap_serv_add_char-IsOwned :
      (hs hc : Option ℕ) (o : Objects fl) → IsOwned o → IsOwned (hap_serv_add_char hs hc o).1
  unfolding hap_serv_add_char
  hap_serv_add_char-IsOwned none hc o w = w
  hap_serv_add_char-IsOwned (some s) none o w = w
  hap_serv_add_char-IsOwned (some s) (some c) o w = add_char-IsOwned s c o w
