-- ===== src/Pairings/Adding.antt =====
-- esp_hap_pairings.c: what an Add Pairing request can do to the table of controllers.
use nina_fw_homekit.Prelude.{
  ℕ, ◌<◌, ◌≡◌, ◌≢◌, ◌⊎◌, inl, inr, refl, sym, ap, subst, ◌∙◌, arith, Bool, true, false, none, some,
  some_inj, List, [], ◌∷◌, ◌++◌, suc, ◌-◌, take, take-append, set, length, Option-cases, length-set,
  ℕ_discrete, append_assoc, >>=-eq-some, drop,
}
use nina_fw_homekit.Prelude.Strings.{c_string, overlay, c_string-append_zero}
use nina_fw_homekit.Keystore.{Keystore}
use nina_fw_homekit.HapPriv.{HapPriv, CtrlData, slot}
use nina_fw_homekit.Controllers.{hap_get_controller}
use nina_fw_homekit.Controllers.Table.{hap_get_controller-some, hap_get_controller-none}
use nina_fw_homekit.Tlv.{tlv_public_key, tlv_permissions}
use nina_fw_homekit.Pairings.{
  value_in, byte_in, ctrl_id_in, Locals, Request, new_pairing, add_ctrl, added,
  hap_process_pair_add, refuse,
}
use nina_fw_homekit.Pairings.Tables.{
  UniqueIds, Added, known, fresh, paired, with_perms, slot-set_split, slot-set_self, slot-set_ne,
  add_ctrl-Added,
}

-- What a slot keeps: that it is valid, its name and its key.
abbrev pub KeepsIdentity : CtrlData → CtrlData → Type 0
KeepsIdentity c c' =
    (c'.valid ≡ true) × (c_string c'.info.id ≡ c_string c.info.id) × (c'.info.ltpk ≡ c.info.ltpk)

-- The name of a new controller, as it stands in its slot.
paired_id :
    (i perms : ℕ) (ctrl_id ltpkc : List ℕ) (c : CtrlData)
    → length (c_string ctrl_id) < 64
    → c_string (paired i ctrl_id ltpkc perms c).info.id ≡ c_string ctrl_id
unfolding overlay
paired_id i perms ctrl_id ltpkc c short =
    let one : 64 - length (c_string ctrl_id) ≡ suc (63 - length (c_string ctrl_id)) = omega arith in
    let rest = 0 ∷ drop (length (c_string ctrl_id ++ 0 ∷ [])) (c.info.id ++ c.info.ltpk) in
    ap (λ b. c_string (take 64 b)) (append_assoc (c_string ctrl_id) (0 ∷ []) _)
    ∙ ap c_string (take-append 64 (c_string ctrl_id) rest (omega arith))
    ∙ ap (λ n. c_string (c_string ctrl_id ++ take n rest)) one
    ∙ c_string-append_zero ctrl_id _

module _ {ctrl_id ltpkc : List ℕ} {perms : ℕ} where
  Added-KeepsIdentity :
      (cs : List CtrlData) {cs' : List CtrlData} (j : ℕ)
      → Added ctrl_id ltpkc perms cs cs'
      → (slot cs j).valid ≡ true
      → KeepsIdentity (slot cs j) (slot cs' j)
  Added-KeepsIdentity cs j (known i found same) v =
      slot-set_split (λ n c. (slot cs n).valid ≡ true → KeepsIdentity (slot cs n) c) cs i
        (with_perms perms (slot cs i)) (hap_get_controller-some ctrl_id cs i found).0
        (λ _. (refl, refl, refl)) (λ n ne w. (w, refl, refl)) j v
  Added-KeepsIdentity cs j (fresh i missing h free) v =
      slot-set_split (λ n c. (slot cs n).valid ≡ true → KeepsIdentity (slot cs n) c) cs i
        (paired i ctrl_id ltpkc perms (slot cs i)) h (λ w. absurd (cc (free, w)))
        (λ n ne w. (w, refl, refl)) j v

UniqueIds-set :
    (cs : List CtrlData) (i : ℕ) (c : CtrlData)
    → i < length cs
    → UniqueIds cs
    → ((j : ℕ)
        → i ≢ j
        → j < length cs
        → (slot cs j).valid ≡ true
        → c_string (slot cs j).info.id ≢ c_string c.info.id)
    → UniqueIds (set cs i c)
UniqueIds-set cs i c h unique other a b ha hb va vb same = elim (ℕ_discrete i a) [
  | yes ia ↦ elim (ℕ_discrete i b) [
    | yes ib ↦ sym ia ∙ ib
    | no nb ↦ absurd (
        other b nb (below hb) (ap valid (sym (kept b nb)) ∙ vb)
          (ap name (sym (kept b nb)) ∙ sym same ∙ ap name (here a ia)))
  ]
  | no na ↦ elim (ℕ_discrete i b) [
    | yes ib ↦ absurd (
        other a na (below ha) (ap valid (sym (kept a na)) ∙ va)
          (ap name (sym (kept a na)) ∙ same ∙ ap name (here b ib)))
    | no nb ↦
        unique a b (below ha) (below hb) (ap valid (sym (kept a na)) ∙ va)
          (ap valid (sym (kept b nb)) ∙ vb) (ap name (sym (kept a na)) ∙ same ∙ ap name (kept b nb))
  ]
]
  where
    valid : CtrlData → Bool
    valid d = d.valid

    name : CtrlData → List ℕ
    name d = c_string d.info.id

    kept : (n : ℕ) → i ≢ n → slot (set cs i c) n ≡ slot cs n
    kept n ne = slot-set_ne cs i n c ne

    here : (n : ℕ) → i ≡ n → slot (set cs i c) n ≡ c
    here n e = ap (slot (set cs i c)) (sym e) ∙ slot-set_self cs i c h

    below : {n : ℕ} → n < length (set cs i c) → n < length cs
    below lt = omega (arith, length-set cs i c)

-- A slot whose name and validity stay keeps the names unique.
UniqueIds-known :
    (cs : List CtrlData) (i perms : ℕ)
    → i < length cs
    → (slot cs i).valid ≡ true
    → UniqueIds cs
    → UniqueIds (set cs i (with_perms perms (slot cs i)))
UniqueIds-known cs i perms h v unique =
    UniqueIds-set cs i (with_perms perms (slot cs i)) h unique
      (λ j ne hj vj same. ne (sym (unique j i hj h vj v same)))

UniqueIds-fresh :
    (cs : List CtrlData) (i perms : ℕ) (ctrl_id ltpkc : List ℕ)
    → length (c_string ctrl_id) < 64
    → i < length cs
    → hap_get_controller ctrl_id cs ≡ none
    → UniqueIds cs
    → UniqueIds (set cs i (paired i ctrl_id ltpkc perms (slot cs i)))
UniqueIds-fresh cs i perms ctrl_id ltpkc short h missing unique =
    UniqueIds-set cs i (paired i ctrl_id ltpkc perms (slot cs i)) h unique (λ j ne hj vj same.
      hap_get_controller-none ctrl_id cs j missing hj vj
        (same ∙ paired_id i perms ctrl_id ltpkc (slot cs i) short))

Added-UniqueIds :
    {ctrl_id ltpkc : List ℕ} {perms : ℕ} (cs : List CtrlData) {cs' : List CtrlData}
    → length (c_string ctrl_id) < 64
    → Added ctrl_id ltpkc perms cs cs'
    → UniqueIds cs
    → UniqueIds cs'
Added-UniqueIds {perms} cs short (known i found same) unique =
    let there = hap_get_controller-some _ cs i found in
    UniqueIds-known cs i perms there.0 there.1 unique
Added-UniqueIds {ctrl_id} {ltpkc} {perms} cs short (fresh i missing h free) unique =
    UniqueIds-fresh cs i perms ctrl_id ltpkc short h missing unique

-- The named controller has a slot, with this key and these permissions.
abbrev pub Registered : List ℕ → List ℕ → ℕ → List CtrlData → Type 0
Registered ctrl_id ltpkc perms cs =
    (i : ℕ) × (hap_get_controller ctrl_id cs ≡ some i)
    × ((slot cs i).info.ltpk ≡ ltpkc)
    × ((slot cs i).info.perms ≡ perms)

-- The name that is read.
new_pairing_id :
    (l : Locals) (r : Request) {ctrl_id ltpkc : List ℕ} {perms : ℕ}
    → new_pairing l r ≡ some (ctrl_id, ltpkc, perms)
    → ctrl_id_in r ≡ some ctrl_id
unfolding new_pairing
new_pairing_id l r {ctrl_id} e =
    let (id, got, rest) = >>=-eq-some (ctrl_id_in r) _ e in
    let (key, got2, rest2) = >>=-eq-some (value_in r tlv_public_key l.ltpkc) _ rest in
    let (perms', got3, last) = >>=-eq-some (byte_in r tlv_permissions l.perms) _ rest2 in
    let same : id ≡ ctrl_id = ground (arith, some_inj last) in got ∙ ap some same

sum_cases : {A B : Type 0} (s : A ⊎ B) → ((a : A) × (s ≡ inl a)) ⊎ ((b : B) × (s ≡ inr b))
sum_cases (inl a) = inl (a, refl)
sum_cases (inr b) = inr (b, refl)

module _ (k : Keystore) (l : Locals) (r : Request) (p : HapPriv k.Store) where
  -- The table after an Add Pairing request: as before, or changed by what the request names.
  process_add_cases :
      let a = hap_process_pair_add k l r p in
      ((a.0 ≡ false) × (a.2 ≡ p))
      ⊎ ((ctrl_id : List ℕ) × (ltpkc : List ℕ) × (perms : ℕ) × (new_pairing l r
            ≡ some (ctrl_id, ltpkc, perms))
          × Added ctrl_id ltpkc perms p.controllers a.2.controllers)
  unfolding hap_process_pair_add refuse added
  process_add_cases = elim (Option-cases (new_pairing l r)) [
    | inl n ↦ inl (ground arith)
    | inr ((ctrl_id, ltpkc, perms), got) ↦ elim (sum_cases (add_ctrl k ctrl_id ltpkc perms p)) [
      | inl (error, e) ↦ inl (ground arith)
      | inr (q, e) ↦ inr (
        ctrl_id,
        ltpkc,
        perms,
        got,
        subst (Added ctrl_id ltpkc perms p.controllers) (ground arith)
            (add_ctrl-Added k ctrl_id ltpkc perms p q e),
      )
    ]
  ]

  -- Whatever an Add Pairing request holds, if the name in it ends within its array of 64 bytes, a
  -- valid slot stays valid and keeps its name and its long-term key: on success and on every error.
  pub process_add_keeps :
      ((ctrl_id : List ℕ) → ctrl_id_in r ≡ some ctrl_id → length (c_string ctrl_id) < 64)
      → (j : ℕ) → (slot p.controllers j).valid ≡ true
      → KeepsIdentity (slot p.controllers j) (slot (hap_process_pair_add k l r p).2.controllers j)
  process_add_keeps short j v = elim process_add_cases [
    | inl same ↦
        subst (λ (q : HapPriv k.Store). KeepsIdentity (slot p.controllers j) (slot q.controllers j))
          (sym same.1) (v, refl, refl)
    | inr (ctrl_id, ltpkc, perms, got, done) ↦ Added-KeepsIdentity p.controllers j done v
  ]

  -- If no two valid slots have the same name, that is so after an Add Pairing request too, on
  -- success and on every error, if the name in it ends within its array of 64 bytes.
  pub process_add-UniqueIds :
      ((ctrl_id : List ℕ) → ctrl_id_in r ≡ some ctrl_id → length (c_string ctrl_id) < 64)
      → UniqueIds p.controllers
      → UniqueIds (hap_process_pair_add k l r p).2.controllers
  process_add-UniqueIds short unique = elim process_add_cases [
    | inl same ↦ subst (λ (q : HapPriv k.Store). UniqueIds q.controllers) (sym same.1) unique
    | inr (ctrl_id, ltpkc, perms, got, done) ↦
        Added-UniqueIds p.controllers (short ctrl_id (new_pairing_id l r got)) done unique
  ]
