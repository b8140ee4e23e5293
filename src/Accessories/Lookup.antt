-- ===== src/Accessories/Lookup.antt =====
-- esp_hap_acc.c, esp_hap_serv.c: the searches of the tree.
use mathlib.Core.List.{Memᴰ}
use mathlib.Core.List.Memᴰ
use nina_fw_homekit.Prelude.{
  ℕ, ◌≡◌, ◌≢◌, inl, inr, refl, sym, ap, subst, ◌∙◌, Bool, true, false, none, some, some_inj, List,
  [], ◌∷◌, Bool-cases, Option-cases, ==_iff, ==_refl, ◌==◌,
}
use nina_fw_homekit.Characteristics.{Floats}
use nina_fw_homekit.Accessories.{
  Objects, find_object, char_of_servs, hap_serv_get_char_by_iid, hap_acc_get_char_by_iid,
  hap_acc_get_serv_by_iid,
}
use nina_fw_homekit.Accessories.Identifiers.{HasUniqueIids}
use nina_fw_homekit.Accessories.Steps.{Steps, IsUnlinked, Steps-IsWell}

-- What is found is in the chain, and the test holds of it.
find_object-some :
    (test : ℕ → Bool) (chain : List ℕ) {a : ℕ}
    → find_object test chain ≡ some a
    → Memᴰ a chain × (test a ≡ true)
unfolding find_object
find_object-some test [] h = cc
find_object-some test (x ∷ chain) h = elim (Bool-cases (test x)) [
  | inl e ↦
      let same = some_inj (rw e at h) in (Memᴰ.head (sym same), subst (λ y. test y ≡ true) same e)
  | inr e ↦ let (m, t) = find_object-some test chain (rw e at h) in (Memᴰ.tail m, t)
]

-- Something is found if the test holds of an object of the chain.
find_object-none :
    (test : ℕ → Bool) (chain : List ℕ) (a : ℕ)
    → find_object test chain ≡ none
    → Memᴰ a chain
    → test a ≡ false
unfolding find_object
find_object-none test [] a h m = absurd (Memᴰ.not-nil m)
find_object-none test (x ∷ chain) a h m = elim (Bool-cases (test x)) [
  | inl e ↦ let g = rw e at h in cc
  | inr e ↦ elim (Memᴰ.cases_cons m) [
    | inl same ↦ ap test same ∙ e
    | inr k ↦ find_object-none test chain a (rw e at h) k
  ]
]

module _ {fl : Floats} where
  char_of_servs-some :
      (iid : ℕ) (ss : List ℕ) (o : Objects fl) {c : ℕ}
      → char_of_servs iid ss o ≡ some c
      → (s : ℕ) × Memᴰ s ss × Memᴰ c (o.serv s).chars × ((o.char c).iid ≡ iid)
  unfolding char_of_servs hap_serv_get_char_by_iid
  char_of_servs-some iid [] o h = cc
  char_of_servs-some iid (s ∷ ss) o {c} h =
      elim (Option-cases (hap_serv_get_char_by_iid (some s) iid o)) [
        | inl e ↦
            let (t, mt, mc, i) = char_of_servs-some iid ss o (rw (e, char_of_servs) at h) in
            (t, Memᴰ.tail mt, mc, i)
        | inr (d, e) ↦
            let same : d ≡ c = some_inj (rw (e, char_of_servs) at h) in
            let (m, t) =
              find_object-some (λ x. (o.char x).iid == iid) (o.serv s).chars (e ∙ ap some same) in
            (s, Memᴰ.head refl, m, (==_iff (o.char c).iid iid).0 t)
      ]

  char_of_servs-none :
      (iid : ℕ) (ss : List ℕ) (o : Objects fl) (s c : ℕ)
      → char_of_servs iid ss o ≡ none
      → Memᴰ s ss
      → Memᴰ c (o.serv s).chars
      → (o.char c).iid ≢ iid
  unfolding char_of_servs hap_serv_get_char_by_iid
  char_of_servs-none iid [] o s c h ms mc = absurd (Memᴰ.not-nil ms)
  char_of_servs-none iid (t ∷ ss) o s c h ms mc =
      elim (Option-cases (hap_serv_get_char_by_iid (some t) iid o)) [
        | inl e ↦ elim (Memᴰ.cases_cons ms) [
          | inl same ↦
              let m = subst (λ x. Memᴰ c (o.serv x).chars) same mc in
              let missed = find_object-none (λ x. (o.char x).iid == iid) (o.serv t).chars c e m in
              λ i. let hit = (==_iff (o.char c).iid iid).1 i in cc
          | inr k ↦ char_of_servs-none iid ss o s c (rw (e, char_of_servs) at h) k mc
        ]
        | inr (d, e) ↦ let g = rw (e, char_of_servs) at h in cc
      ]

  get_char_by_iid :
      (o : Objects fl) (a s c : ℕ)
      → HasUniqueIids o a
      → Memᴰ s (o.acc a).servs
      → Memᴰ c (o.serv s).chars
      → hap_acc_get_char_by_iid (some a) (o.char c).iid o ≡ some c
  unfolding hap_acc_get_char_by_iid
  get_char_by_iid o a s c u ms mc =
      elim (Option-cases (char_of_servs (o.char c).iid (o.acc a).servs o)) [
        | inl e ↦ absurd (char_of_servs-none (o.char c).iid (o.acc a).servs o s c e ms mc refl)
        | inr (d, e) ↦
            let (t, mt, md, i) = char_of_servs-some (o.char c).iid (o.acc a).servs o e in
            let same = u.unique (inr d) (inr c) (t, mt, md) (s, ms, mc) i in
            let d≡c : d ≡ c = cc in e ∙ ap some d≡c
      ]

  get_serv_by_iid :
      (o : Objects fl) (a s : ℕ)
      → HasUniqueIids o a
      → Memᴰ s (o.acc a).servs
      → hap_acc_get_serv_by_iid (some a) (o.serv s).iid o ≡ some s
  unfolding hap_acc_get_serv_by_iid
  get_serv_by_iid o a s u ms =
      elim (Option-cases (find_object (λ x. (o.serv x).iid == (o.serv s).iid) (o.acc a).servs)) [
        | inl e ↦
            let missed =
              find_object-none (λ x. (o.serv x).iid == (o.serv s).iid) (o.acc a).servs s e ms in
            let hit = ==_refl (o.serv s).iid in cc
        | inr (t, e) ↦
            let (mt, i) =
              find_object-some (λ x. (o.serv x).iid == (o.serv s).iid) (o.acc a).servs e in
            let same =
              u.unique (inl t) (inl s) mt ms ((==_iff (o.serv t).iid (o.serv s).iid).0 i) in
            let t≡s : t ≡ s = cc in e ∙ ap some t≡s
      ]

  get_char_by_serv_iid :
      (o : Objects fl) (a s : ℕ)
      → HasUniqueIids o a
      → Memᴰ s (o.acc a).servs
      → hap_acc_get_char_by_iid (some a) (o.serv s).iid o ≡ none
  unfolding hap_acc_get_char_by_iid
  get_char_by_serv_iid o a s u ms =
      elim (Option-cases (char_of_servs (o.serv s).iid (o.acc a).servs o)) [
        | inl e ↦ e
        | inr (d, e) ↦
            let (t, mt, md, i) = char_of_servs-some (o.serv s).iid (o.acc a).servs o e in
            let same = u.unique (inr d) (inl s) (t, mt, md) ms i in cc
      ]

  -- In a database that is built by these steps, a characteristic of an accessory is found under its
  -- instance identifier, a service under its own, and no characteristic is found under the
  -- identifier of a service.
  pub hap_acc_get_char_by_iid_lem :
      (o p : Objects fl) (a s c : ℕ)
      → IsUnlinked o
      → Steps o p
      → Memᴰ s (p.acc a).servs
      → Memᴰ c (p.serv s).chars
      → (hap_acc_get_char_by_iid (some a) (p.char c).iid p ≡ some c)
        × (hap_acc_get_serv_by_iid (some a) (p.serv s).iid p ≡ some s)
        × (hap_acc_get_char_by_iid (some a) (p.serv s).iid p ≡ none)
  hap_acc_get_char_by_iid_lem o p a s c h steps ms mc =
      let (w, u) = Steps-IsWell o p h steps in
      (
        get_char_by_iid p a s c (u a) ms mc,
        get_serv_by_iid p a s (u a) ms,
        get_char_by_serv_iid p a s (u a) ms,
      )
