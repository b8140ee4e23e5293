-- ===== src/Controllers/Table.antt =====
-- esp_hap_controllers.c: the searches of the table of controllers.
use nina_fw_homekit.Prelude.{
  ℕ, zero, suc, ◌+◌, ◌<◌, ◌≡◌, ◌≢◌, inl, inr, ap, sym, ◌∙◌, arith, Bool, true, false, none, some,
  List, [], ◌∷◌, length, Bool-cases, Option-cases,
}
use nina_fw_homekit.Prelude.Strings.{c_string, bytes_eq, bytes_eq→eq, bytes_eq_refl}
use nina_fw_homekit.HapPriv.{CtrlData, slot}
use nina_fw_homekit.Controllers.{find_slot, any_slot, hap_get_controller}

module _ (test : CtrlData → Bool) where
  find_slot_from :
      (i : ℕ) (cs : List CtrlData) {j : ℕ}
      → find_slot test i cs ≡ some j
      → (d : ℕ) × (j ≡ i + d) × (d < length cs) × (test (slot cs d) ≡ true)
  unfolding find_slot
  find_slot_from i [] e = cc
  find_slot_from i (c ∷ cs) {j} e = elim (Bool-cases (test c)) [
    | inl hit ↦ (0, ground arith, omega arith, hit)
    | inr miss ↦
        let (d, same, below, hit) = find_slot_from (i + 1) cs {j = j} (ground arith) in
        (suc d, omega arith, omega arith, hit)
  ]

  -- A search that succeeds gives a slot of the table that passes the test.
  pub find_slot-some :
      (cs : List CtrlData) (j : ℕ)
      → find_slot test 0 cs ≡ some j
      → (j < length cs) × (test (slot cs j) ≡ true)
  find_slot-some cs j e =
      let (d, same, below, hit) = find_slot_from 0 cs e in
      let here : d ≡ j = omega arith in
      (omega arith, ap (λ (n : ℕ). test (slot cs n)) (sym here) ∙ hit)

  -- A search that fails has seen every slot fail the test.
  pub find_slot-none :
      (i : ℕ) (cs : List CtrlData) (d : ℕ)
      → find_slot test i cs ≡ none
      → d < length cs
      → test (slot cs d) ≡ false
  unfolding find_slot
  find_slot-none i [] d e h = absurd (omega arith)
  find_slot-none i (c ∷ cs) zero e h = ground arith
  find_slot-none i (c ∷ cs) (suc d) e h = find_slot-none (i + 1) cs d (ground arith) (omega arith)

  -- A slot that passes the test, and no other does, is found.
  pub find_slot_only :
      (cs : List CtrlData) (i : ℕ)
      → i < length cs
      → test (slot cs i) ≡ true
      → ((j : ℕ) → j < length cs → test (slot cs j) ≡ true → j ≡ i)
      → find_slot test 0 cs ≡ some i
  find_slot_only cs i h hit only = elim (Option-cases (find_slot test 0 cs)) [
    | inl missed ↦ absurd (cc (find_slot-none 0 cs i missed h, hit))
    | inr (j, found) ↦ let r = find_slot-some cs j found in found ∙ ap some (only j r.0 r.1)
  ]

  -- The answer of `any_slot`, by the slots.
  pub any_slot-false :
      (cs : List CtrlData) (d : ℕ)
      → any_slot test cs ≡ false
      → d < length cs
      → test (slot cs d) ≡ false
  unfolding any_slot
  any_slot-false [] d e h = absurd (omega arith)
  any_slot-false (c ∷ cs) zero e h = ground arith
  any_slot-false (c ∷ cs) (suc d) e h = any_slot-false cs d (ground arith) (omega arith)

  pub any_slot-true :
      (cs : List CtrlData) (d : ℕ)
      → d < length cs
      → test (slot cs d) ≡ true
      → any_slot test cs ≡ true
  unfolding any_slot
  any_slot-true [] d h e = absurd (omega arith)
  any_slot-true (c ∷ cs) zero h e = ground arith
  any_slot-true (c ∷ cs) (suc d) h e = ground (arith, any_slot-true cs d)

  pub any_slot_some :
      (cs : List CtrlData)
      → any_slot test cs ≡ true
      → (d : ℕ) × (d < length cs) × (test (slot cs d) ≡ true)
  unfolding any_slot
  any_slot_some [] e = cc
  any_slot_some (c ∷ cs) e = elim (Bool-cases (test c)) [
    | inl hit ↦ (0, omega arith, hit)
    | inr miss ↦ let (d, below, hit) = any_slot_some cs (ground arith) in (suc d, omega arith, hit)
  ]

-- `hap_get_controller` answers with a valid slot whose name is the one that is asked for.
pub hap_get_controller-some :
    (id : List ℕ) (cs : List CtrlData) (i : ℕ)
    → hap_get_controller id cs ≡ some i
    → (i < length cs) × ((slot cs i).valid ≡ true) × (c_string (slot cs i).info.id ≡ c_string id)
unfolding hap_get_controller
hap_get_controller-some id cs i e =
    let found = find_slot-some _ cs i e in (found.0, ground arith, bytes_eq→eq _ _ (ground arith))

-- It answers with a null pointer only if no valid slot has that name.
pub hap_get_controller-none :
    (id : List ℕ) (cs : List CtrlData) (i : ℕ)
    → hap_get_controller id cs ≡ none
    → i < length cs
    → (slot cs i).valid ≡ true
    → c_string (slot cs i).info.id ≢ c_string id
unfolding hap_get_controller
hap_get_controller-none id cs i e h v same =
    let missed = find_slot-none _ 0 cs i e h in
    let equal : bytes_eq (c_string (slot cs i).info.id) (c_string id) ≡ true =
      rw same (bytes_eq_refl (c_string id)) in
    ground arith
