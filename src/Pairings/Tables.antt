-- ===== src/Pairings/Tables.antt =====
-- esp_hap_pairings.c: the tables that the pairing requests leave behind.
use nina_fw_homekit.Prelude.{
  ℕ, ◌<◌, ◌≡◌, ◌≢◌, inl, inr, sym, ap, subst, ◌∙◌, arith, true, false, not, none, some, List, [],
  ◌∷◌, ◌++◌, set, take, drop, length, Option-cases, set-set, get_or-set_self, get_or-set_ne,
  ℕ_discrete,
}
use nina_fw_homekit.Prelude.Strings.{c_string, bytes_eq, overlay, bytes_eq→eq, bytes_eq_refl}
use nina_fw_homekit.Keystore.{Keystore}
use nina_fw_homekit.HapPriv.{HapPriv, CtrlData, slot, empty_slot}
use nina_fw_homekit.Controllers.{
  find_slot, hap_get_controller, hap_controller_get_empty_loc, hap_controller_save,
}
use nina_fw_homekit.Controllers.Table.{find_slot-some, find_slot_only, hap_get_controller-some}
use nina_fw_homekit.Controllers.Persistence.{hap_controller_save_fields}
use nina_fw_homekit.Pairings.{change_perms, fill_slot, store_pairing, add_ctrl}

-- No two valid slots have the same name.
abbrev pub UniqueIds : List CtrlData → Type 0
UniqueIds cs =
    (i j : ℕ)
    → i < length cs
    → j < length cs
    → (slot cs i).valid ≡ true
    → (slot cs j).valid ≡ true
    → c_string (slot cs i).info.id ≡ c_string (slot cs j).info.id
    → i ≡ j

pub slot-set_self :
    (cs : List CtrlData) (i : ℕ) (c : CtrlData) → i < length cs → slot (set cs i c) i ≡ c
slot-set_self cs i c h = get_or-set_self cs i c empty_slot h

pub slot-set_ne :
    (cs : List CtrlData) (i j : ℕ) (c : CtrlData) → i ≢ j → slot (set cs i c) j ≡ slot cs j
slot-set_ne cs i j c h = get_or-set_ne cs i j c empty_slot h

-- A name that is found stays the only one of its kind.
pub hap_get_controller_unique :
    (id : List ℕ) (cs : List CtrlData) (i : ℕ)
    → UniqueIds cs
    → i < length cs
    → (slot cs i).valid ≡ true
    → c_string (slot cs i).info.id ≡ c_string id
    → hap_get_controller id cs ≡ some i
unfolding hap_get_controller
hap_get_controller_unique id cs i unique h v same =
    find_slot_only _ cs i h
      (let e : bytes_eq (c_string (slot cs i).info.id) (c_string id) ≡ true =
          rw same (bytes_eq_refl (c_string id)) in
        rw (v, e))
      (λ j hj hit.
        unique j i hj h (ground arith) v
          (bytes_eq→eq (c_string (slot cs j).info.id) (c_string id) (ground arith) ∙ sym same))

-- The slot that `hap_controller_get_empty_loc` offers.
pub empty_loc_some :
    (cs : List CtrlData) {i : ℕ} {cs' : List CtrlData}
    → hap_controller_get_empty_loc cs ≡ some (i, cs')
    → (i < length cs)
      × ((slot cs i).valid ≡ false)
      × (cs' ≡ set cs i (record (slot cs i) { index = i }))
unfolding hap_controller_get_empty_loc
empty_loc_some cs {i} {cs'} e = elim (Option-cases (find_slot (λ c. not c.valid) 0 cs)) [
  | inl n ↦ absurd (ground (arith))
  | inr (j, found) ↦
      let room = find_slot-some (λ c. not c.valid) cs j found in
      let same : i ≡ j = ground arith in rw same (room.0, ground arith, ground arith)
]

-- What holds of the value written to slot `i`, and of the other slots, holds of every slot.
pub slot-set_split {ℓ} :
    (P : ℕ → CtrlData → Type ℓ) (cs : List CtrlData) (i : ℕ) (c : CtrlData)
    → i < length cs
    → P i c
    → ((j : ℕ) → i ≢ j → P j (slot cs j))
    → (j : ℕ) → P j (slot (set cs i c) j)
slot-set_split P cs i c h here others j = elim (ℕ_discrete i j) [
  | yes e ↦
      subst (λ (n : ℕ). P n (slot (set cs i c) n)) e
        (subst (P i) (sym (slot-set_self cs i c h)) here)
  | no ne ↦ subst (P j) (sym (slot-set_ne cs i j c ne)) (others j ne)
]

-- A controller whose permissions have been changed and saved.
abbrev pub with_perms : ℕ → CtrlData → CtrlData
with_perms perms c = record c { info = record c.info { perms = perms }; valid = true }

-- A new controller as it stands in its slot.
abbrev pub paired : ℕ → List ℕ → List ℕ → ℕ → CtrlData → CtrlData
paired i ctrl_id ltpkc perms c = record {
  info = record {
    id = take 64 (overlay (c_string ctrl_id ++ (0 ∷ [])) (c.info.id ++ c.info.ltpk));
    ltpk =
        overlay ltpkc
          (take 32 (drop 64 (overlay (c_string ctrl_id ++ (0 ∷ [])) (c.info.id ++ c.info.ltpk))));
    perms = perms;
  };
  valid = true;
  index = i;
}

-- What `add_ctrl` can do when it reports no error: change the permissions of the controller with
-- that name and key, or fill a free slot.
pub data Added (ctrl_id ltpkc : List ℕ) (perms : ℕ) (cs : List CtrlData)
    : List CtrlData → Type 0 where
  known :
      (i : ℕ)
      → hap_get_controller ctrl_id cs ≡ some i
      → ltpkc ≡ (slot cs i).info.ltpk
      → Added ctrl_id ltpkc perms cs (set cs i (with_perms perms (slot cs i)))
  fresh :
      (i : ℕ)
      → hap_get_controller ctrl_id cs ≡ none
      → i < length cs
      → (slot cs i).valid ≡ false
      → Added ctrl_id ltpkc perms cs (set cs i (paired i ctrl_id ltpkc perms (slot cs i)))

-- `fill_slot` on a slot whose index has been set.
fill_slot_lem :
    (cs : List CtrlData) (i perms : ℕ) (ctrl_id ltpkc : List ℕ)
    → i < length cs
    → let c = slot cs i in
      fill_slot i ctrl_id ltpkc perms (set cs i (record c { index = i }))
      ≡ set cs i (record (paired i ctrl_id ltpkc perms c) { valid = c.valid })
unfolding fill_slot
fill_slot_lem cs i perms ctrl_id ltpkc h =
    rw (slot-set_self cs i (record (slot cs i) { index = i }) h) (set-set cs i _ _)

module _ (k : Keystore) where
  open k use {Store}

  saved_table :
      (p : HapPriv Store) (i : ℕ) (c : CtrlData)
      → i < length p.controllers
      → (hap_controller_save k i (record p { controllers = set p.controllers i c })).1.controllers
        ≡ set p.controllers i (record c { valid = true })
  saved_table p i c h =
      (hap_controller_save_fields k (record p { controllers = set p.controllers i c }) i).1
      ∙ set-set p.controllers i c _
      ∙ ap (λ (d : CtrlData). set p.controllers i (record d { valid = true }))
          (slot-set_self p.controllers i c h)

  pub change_perms_table :
      (p : HapPriv Store) (i perms : ℕ)
      → i < length p.controllers
      → let c = slot p.controllers i in
        (change_perms k i perms p).controllers
        ≡ set p.controllers i (record c { info = record c.info { perms = perms }; valid = true })
  unfolding change_perms
  change_perms_table p i perms h = saved_table p i _ h

  pub store_pairing_table :
      (p : HapPriv Store) (cs : List CtrlData) (i perms : ℕ) (ctrl_id ltpkc : List ℕ)
      → i < length cs
      → let c = slot cs i in
        (store_pairing k i ctrl_id ltpkc perms (set cs i (record c { index = i })) p).controllers
        ≡ set cs i (paired i ctrl_id ltpkc perms c)
  unfolding store_pairing
  store_pairing_table p cs i perms ctrl_id ltpkc h =
      ap
        (λ (t : List CtrlData).
          (hap_controller_save k i (record p { controllers = t })).1.controllers)
        (fill_slot_lem cs i perms ctrl_id ltpkc h)
      ∙ saved_table (record p { controllers = cs }) i _ h

  -- `add_ctrl` does one of these whenever it reports no error.
  pub add_ctrl-Added :
      (ctrl_id ltpkc : List ℕ) (perms : ℕ) (p q : HapPriv Store)
      → add_ctrl k ctrl_id ltpkc perms p ≡ inr q
      → Added ctrl_id ltpkc perms p.controllers q.controllers
  unfolding add_ctrl
  add_ctrl-Added ctrl_id ltpkc perms p q e =
      elim (Option-cases (hap_get_controller ctrl_id p.controllers)) [
        | inl n ↦ elim (Option-cases (hap_controller_get_empty_loc p.controllers)) [
          | inl full ↦ absurd (ground arith)
          | inr ((i, cs'), room) ↦
              let (h, v, same) = empty_loc_some p.controllers room in
              let done : store_pairing k i ctrl_id ltpkc perms cs' p ≡ q = ground arith in
              subst (Added ctrl_id ltpkc perms p.controllers)
                (sym (store_pairing_table p p.controllers i perms ctrl_id ltpkc h)
                  ∙ ap (λ t. (store_pairing k i ctrl_id ltpkc perms t p).controllers) (sym same)
                  ∙ ap (λ (r : HapPriv Store). r.controllers) done)
                (fresh i n h v)
        ]
        | inr (i, found) ↦
            let there = hap_get_controller-some ctrl_id p.controllers i found in
            let done : (bytes_eq ltpkc (slot p.controllers i).info.ltpk ≡ true)
                × (change_perms k i perms p ≡ q) =
              ground arith in
            subst (Added ctrl_id ltpkc perms p.controllers)
              (sym (change_perms_table p i perms there.0)
                ∙ ap (λ (r : HapPriv Store). r.controllers) done.1)
              (known i found (bytes_eq→eq ltpkc (slot p.controllers i).info.ltpk done.0))
      ]
