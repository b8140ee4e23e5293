-- ===== src/Pairings/Removing.antt =====
-- esp_hap_pairings.c: what a Remove Pairing request does to the table of controllers.
use nina_fw_homekit.Prelude.{
  ℕ, zero, suc, ◌+◌, ◌≤◌, ◌<◌, ◌≡◌, ◌≢◌, ◌⊎◌, inl, inr, refl, sym, ap, subst, ◌∙◌, arith, Bool,
  true, false, Option, none, some, List, [], ◌∷◌, set, length, if◌then◌else◌, Bool-cases,
  Option-cases, length-set, ℕ_discrete,
}
use nina_fw_homekit.Prelude.Strings.{c_string}
use nina_fw_homekit.Keystore.{Keystore}
use nina_fw_homekit.HapPriv.{HapPriv, CtrlData, slot, empty_slot, max_controllers}
use nina_fw_homekit.Controllers.{
  any_slot, hap_get_controller, is_admin_paired, is_accessory_paired, hap_controller_remove,
}
use nina_fw_homekit.Controllers.Table.{any_slot_some, hap_get_controller-some}
use nina_fw_homekit.Sessions.{hap_close_sessions_of_ctrl}
use nina_fw_homekit.Pairings.{
  Request, ctrl_id_in, remove_if_valid, remove_all_loop, hap_remove_all_controllers, remove_ctrl,
  removed, state_answer, hap_process_pair_remove, refuse,
}
use nina_fw_homekit.Pairings.Tables.{UniqueIds, slot-set_self, slot-set_ne, slot-set_split}

-- No controller of the table is valid.
any_slot_none :
    (test : CtrlData → Bool) (cs : List CtrlData)
    → ((d : ℕ) → d < length cs → test (slot cs d) ≡ false)
    → any_slot test cs ≡ false
any_slot_none test cs h = elim (Bool-cases (any_slot test cs)) [
  | inr e ↦ e
  | inl e ↦ let (d, below, hit) = any_slot_some test cs e in absurd (cc (h d below, hit))
]

module _ (k : Keystore) where
  open k use {Store}

  close_controllers :
      (c : Option ℕ) (p : HapPriv Store)
      → (hap_close_sessions_of_ctrl c p).controllers ≡ p.controllers
  unfolding hap_close_sessions_of_ctrl
  close_controllers none p = refl
  close_controllers (some i) p = refl

  remove_controllers :
      (i : ℕ) (p : HapPriv Store)
      → (hap_controller_remove k (some i) (hap_close_sessions_of_ctrl (some i) p)).controllers
        ≡ set p.controllers i empty_slot
  unfolding hap_controller_remove hap_close_sessions_of_ctrl
  remove_controllers i p = refl

  remove_if_valid_table :
      (i : ℕ) (p : HapPriv Store)
      → (remove_if_valid k i p).controllers
        ≡ (if (slot p.controllers i).valid then set p.controllers i empty_slot else p.controllers)
  unfolding remove_if_valid
  remove_if_valid_table i p = elim (Bool-cases (slot p.controllers i).valid) [
    | inl v ↦ rw v (remove_controllers i p)
    | inr v ↦ rw v refl
  ]

  -- One round keeps the size of the table, leaves slot `i` invalid and validates no other.
  record Cleared (i : ℕ) (cs cs' : List CtrlData) : Type 0 where
    size : length cs' ≡ length cs
    gone : i < length cs → (slot cs' i).valid ≡ false
    only : (j : ℕ) → (slot cs j).valid ≡ false → (slot cs' j).valid ≡ false

  set_empty-Cleared :
      (cs : List CtrlData) (i : ℕ) → i < length cs → Cleared i cs (set cs i empty_slot)
  set_empty-Cleared cs i h = record {
    size = length-set cs i empty_slot;
    gone = λ _. ap (λ (c : CtrlData). c.valid) (slot-set_self cs i empty_slot h);
    only =
        slot-set_split (λ j c. (slot cs j).valid ≡ false → c.valid ≡ false) cs i empty_slot h
          (λ _. refl) (λ j ne v. v);
  }

  valid_below : (cs : List CtrlData) (i : ℕ) → (slot cs i).valid ≡ true → i < length cs
  valid_below [] i v = cc
  valid_below (c ∷ cs) zero v = omega arith
  valid_below (c ∷ cs) (suc i) v = omega (arith, valid_below cs i v)

  remove_if_valid-Cleared :
      (i : ℕ) (p : HapPriv Store) → Cleared i p.controllers (remove_if_valid k i p).controllers
  remove_if_valid-Cleared i p = elim (Bool-cases (slot p.controllers i).valid) [
    | inl v ↦
        rw (remove_if_valid_table i p, v)
          (set_empty-Cleared p.controllers i (valid_below p.controllers i v))
    | inr v ↦
        rw (remove_if_valid_table i p, v) (record { size = refl; gone = λ _. v; only = λ j w. w })
  ]

  remove_all_loop_lem :
      (n i : ℕ) (p : HapPriv Store)
      → let cs' = (remove_all_loop k n i p).controllers in
        (length cs' ≡ length p.controllers)
        × ((j : ℕ) → (slot p.controllers j).valid ≡ false → (slot cs' j).valid ≡ false)
        × ((j : ℕ) → i ≤ j → j < i + n → j < length p.controllers → (slot cs' j).valid ≡ false)
  unfolding remove_all_loop
  remove_all_loop_lem zero i p = (refl, λ j v. v, λ j h h' b. absurd (omega arith))
  remove_all_loop_lem (suc n) i p =
      let c = remove_if_valid-Cleared i p in
      let (size, only, gone) = remove_all_loop_lem n (i + 1) (remove_if_valid k i p) in
      (
        size ∙ c.size,
        λ j v. only j (c.only j v),
        λ j h h' b. elim (ℕ_discrete i j) [
          | yes e ↦ only j (
              subst (λ (m : ℕ). (slot (remove_if_valid k i p).controllers m).valid ≡ false) e
                (c.gone (omega arith)))
          | no ne ↦ gone j (omega arith) (omega arith) (omega (arith, c.size))
        ],
      )

  -- After `hap_remove_all_controllers` the accessory is not paired.
  remove_all_unpaired :
      (p : HapPriv Store)
      → length p.controllers ≡ max_controllers
      → is_accessory_paired (hap_remove_all_controllers k p).controllers ≡ false
  unfolding hap_remove_all_controllers is_accessory_paired
  remove_all_unpaired p size =
      let (kept, only, gone) = remove_all_loop_lem max_controllers 0 p in
      any_slot_none (λ c. c.valid) _ (λ d h. gone d (omega arith) (omega arith) (omega arith))

  removed_controllers :
      (r : Request) (unpaired : Bool) (q : HapPriv Store)
      → (removed k r (unpaired, q)).2.controllers ≡ q.controllers
  unfolding removed refuse
  removed_controllers r unpaired q = elim (Option-cases (state_answer r.bufsize)) [
    | inl e ↦ rw (e, removed) refl
    | inr (out, e) ↦
        rw (e, removed) (elim (Bool-cases unpaired) [ inl u ↦ rw u refl | inr u ↦ rw u refl ])
  ]

  process_remove_controllers :
      (r : Request) (p : HapPriv Store) {ctrl_id : List ℕ}
      → ctrl_id_in r ≡ some ctrl_id
      → (hap_process_pair_remove k r p).2.controllers
        ≡ (remove_ctrl k (hap_get_controller ctrl_id p.controllers) p).1.controllers
  unfolding hap_process_pair_remove
  process_remove_controllers r p {ctrl_id} e =
      rw (e, hap_process_pair_remove)
        (removed_controllers r (remove_ctrl k (hap_get_controller ctrl_id p.controllers) p).0 _)

  remove_some_or_none :
      (c : Option ℕ) (p : HapPriv Store)
      → length (hap_controller_remove k c (hap_close_sessions_of_ctrl c p)).controllers
        ≡ length p.controllers
  unfolding hap_controller_remove hap_close_sessions_of_ctrl
  remove_some_or_none none p = refl
  remove_some_or_none (some i) p = length-set p.controllers i empty_slot

  remove_ctrl_admin :
      (c : Option ℕ) (p : HapPriv Store)
      → length p.controllers ≡ max_controllers
      → let q = (remove_ctrl k c p).1 in
        (is_admin_paired q.controllers ≡ true) ⊎ (is_accessory_paired q.controllers ≡ false)
  unfolding remove_ctrl
  remove_ctrl_admin c p size =
      let p' = hap_controller_remove k c (hap_close_sessions_of_ctrl c p) in
      elim (Bool-cases (is_admin_paired p'.controllers)) [
        | inl a ↦ inl (rw a a)
        | inr a ↦ inr (rw a (remove_all_unpaired p' (remove_some_or_none c p ∙ size)))
      ]

  -- After a Remove Pairing request that names a controller, known or not, with a table of 16 slots,
  -- an administrator is paired or no controller is.
  pub process_remove_admin :
      (r : Request) (p : HapPriv Store) (ctrl_id : List ℕ)
      → length p.controllers ≡ max_controllers
      → ctrl_id_in r ≡ some ctrl_id
      → let q = (hap_process_pair_remove k r p).2 in
        (is_admin_paired q.controllers ≡ true) ⊎ (is_accessory_paired q.controllers ≡ false)
  process_remove_admin r p ctrl_id size e =
      rw (process_remove_controllers r p e)
        (remove_ctrl_admin (hap_get_controller ctrl_id p.controllers) p size)

  -- What is left of the table while an administrator stays: slot `i` is emptied.
  Removed : List ℕ → List CtrlData → List CtrlData → Type 0
  Removed ctrl_id cs cs' =
      ((j : ℕ) → c_string (slot cs j).info.id ≢ c_string ctrl_id → slot cs' j ≡ slot cs j)
      × (hap_get_controller ctrl_id cs' ≡ none)

  Removed-set :
      (ctrl_id : List ℕ) (cs : List CtrlData) (i : ℕ)
      → UniqueIds cs
      → hap_get_controller ctrl_id cs ≡ some i
      → Removed ctrl_id cs (set cs i empty_slot)
  unfolding Removed
  Removed-set ctrl_id cs i unique found = (
    λ j ne.
        slot-set_ne cs i j empty_slot
          (λ e. ne (ap (λ (n : ℕ). c_string (slot cs n).info.id) (sym e) ∙ there.2)),
    elim (Option-cases (hap_get_controller ctrl_id cs')) [
      | inl e ↦ e
      | inr (j, e) ↦
          let again = hap_get_controller-some ctrl_id cs' j e in
          elim (ℕ_discrete i j) [
            | yes same ↦ absurd (
                cc (
                  again.1,
                  ap (λ (n : ℕ). (slot cs' n).valid) same,
                  ap (λ (c : CtrlData). c.valid) (slot-set_self cs i empty_slot there.0),
                ))
            | no ne ↦
                let kept = slot-set_ne cs i j empty_slot ne in
                absurd (
                  ne (
                    unique i j there.0 (omega (arith, again.0, length-set cs i empty_slot)) there.1
                      (ap (λ (c : CtrlData). c.valid) (sym kept) ∙ again.1)
                      (there.2 ∙ sym again.2 ∙ ap (λ (c : CtrlData). c_string c.info.id) kept)))
          ]
    ],
  )
    where
      cs' : List CtrlData
      cs' = set cs i empty_slot

      there :
          (i < length cs)
          × ((slot cs i).valid ≡ true)
          × (c_string (slot cs i).info.id ≡ c_string ctrl_id)
      there = hap_get_controller-some ctrl_id cs i found

  no_admin_after_all :
      (p : HapPriv Store)
      → length p.controllers ≡ max_controllers
      → is_admin_paired (hap_remove_all_controllers k p).controllers ≡ false
  unfolding hap_remove_all_controllers is_admin_paired
  no_admin_after_all p size =
      let (kept, only, gone) = remove_all_loop_lem max_controllers 0 p in
      any_slot_none _ (remove_all_loop k max_controllers 0 p).controllers
        (λ d h. rw (gone d (omega arith) (omega arith) (omega arith)) refl)

  abbrev remaining : Option ℕ → HapPriv Store → List CtrlData
  remaining c p = (hap_controller_remove k c (hap_close_sessions_of_ctrl c p)).controllers

  remove_ctrl_kept :
      (c : Option ℕ) (p : HapPriv Store)
      → length p.controllers ≡ max_controllers
      → is_admin_paired (remove_ctrl k c p).1.controllers ≡ true
      → (remove_ctrl k c p).1.controllers ≡ remaining c p
  unfolding remove_ctrl
  remove_ctrl_kept c p size admin =
      let p' = hap_controller_remove k c (hap_close_sessions_of_ctrl c p) in
      elim (Bool-cases (is_admin_paired p'.controllers)) [
        | inl a ↦ rw a refl
        | inr a ↦
            let cleared = no_admin_after_all p' (remove_some_or_none c p ∙ size) in
            let after : is_admin_paired (remove_ctrl k c p).1.controllers
                ≡ is_admin_paired (hap_remove_all_controllers k p').controllers =
              rw a refl in
            absurd (cc (cleared, admin, after))
      ]

  remove_ctrl-Removed :
      (ctrl_id : List ℕ) (p : HapPriv Store)
      → length p.controllers ≡ max_controllers
      → UniqueIds p.controllers
      → let q = (remove_ctrl k (hap_get_controller ctrl_id p.controllers) p).1 in
        is_admin_paired q.controllers ≡ true → Removed ctrl_id p.controllers q.controllers
  remove_ctrl-Removed ctrl_id p size unique admin =
      elim (Option-cases (hap_get_controller ctrl_id p.controllers)) [
        | inl e ↦
            subst (Removed ctrl_id p.controllers)
              (sym (remove_ctrl_kept _ p size admin ∙ ap (λ c. remaining c p) e))
              (unfold Removed hap_controller_remove hap_close_sessions_of_ctrl in (λ j ne. refl, e))
        | inr (i, e) ↦
            subst (Removed ctrl_id p.controllers)
              (sym (
                remove_ctrl_kept _ p size admin
                ∙ ap (λ c. remaining c p) e
                ∙ remove_controllers i p))
              (Removed-set ctrl_id p.controllers i unique e)
      ]

  -- With unique names in a table of 16 slots, and while an administrator stays paired, a Remove
  -- Pairing request leaves the controller that it names unknown, and every slot with another name
  -- exactly as it was.
  pub process_remove_exact :
      (r : Request) (p : HapPriv Store) (ctrl_id : List ℕ)
      → length p.controllers ≡ max_controllers
      → UniqueIds p.controllers
      → ctrl_id_in r ≡ some ctrl_id
      → is_admin_paired (hap_process_pair_remove k r p).2.controllers ≡ true
      → let q = (hap_process_pair_remove k r p).2 in
        ((j : ℕ)
          → c_string (slot p.controllers j).info.id ≢ c_string ctrl_id
          → slot q.controllers j ≡ slot p.controllers j)
        × (hap_get_controller ctrl_id q.controllers ≡ none)
  unfolding Removed
  process_remove_exact r p ctrl_id size unique e admin =
      let same = process_remove_controllers r p e in
      subst (Removed ctrl_id p.controllers) (sym same)
        (remove_ctrl-Removed ctrl_id p size unique (ap is_admin_paired (sym same) ∙ admin))
