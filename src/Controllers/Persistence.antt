-- ===== src/Controllers/Persistence.antt =====
-- esp_hap_controllers.c: the table of controllers against what the key store holds.
use nina_fw_homekit.Prelude.{
  ℕ, zero, suc, ◌+◌, ◌-◌, ◌≤◌, ◌<◌, ◌≡◌, ◌≢◌, inl, inr, refl, ap, sym, subst, ◌∙◌, arith, true,
  false, none, some, List, [], ◌∷◌, ◌++◌, append-nil, get_or, set, take, drop, length, length-set,
  length-append, get_or-set_self, get_or-set_ne, Bool-cases, if◌then◌else◌, take-append_eq,
  drop-append_eq, drop_all, ℕ_discrete,
}
use nina_fw_homekit.Prelude.Strings.{overlay, decimal, decimal_injective}
use nina_fw_homekit.Keystore.{Keystore}
use nina_fw_homekit.HapPriv.{HapPriv, CtrlInfo, CtrlData, empty_slot, slot, max_controllers}
use nina_fw_homekit.Controllers.{
  ns_ctrl, info_len, info_bytes, bytes_info, load_slot, loaded_slot, load_slots,
  hap_controllers_init, hap_controller_save, hap_controller_remove,
}

-- The arrays of a controller have their C sizes.
pub record IsInfo (c : CtrlInfo) : Type 0 where
  pub id_size : length c.id ≡ 64
  pub ltpk_size : length c.ltpk ≡ 32

length-info_bytes : (c : CtrlInfo) → IsInfo c → length (info_bytes c) ≡ 97
unfolding info_bytes
length-info_bytes c v = omega (
  arith,
  v.id_size,
  v.ltpk_size,
  length-append c.id (c.ltpk ++ (c.perms ∷ [])),
  length-append c.ltpk (c.perms ∷ []),
)

drop-append_ge :
    (n : ℕ) (xs ys : List ℕ) → length xs ≤ n → drop n (xs ++ ys) ≡ drop (n - length xs) ys
drop-append_ge n [] ys h = ap (λ (k : ℕ). drop k ys) (omega arith)
drop-append_ge zero (x ∷ xs) ys h = absurd (omega arith)
drop-append_ge (suc n) (x ∷ xs) ys h =
    drop-append_ge n xs ys (omega arith) ∙ ap (λ (k : ℕ). drop k ys) (omega arith)

-- The structure that is copied in and out of the store byte by byte is the same structure.
bytes_info-info_bytes : (c : CtrlInfo) → IsInfo c → bytes_info (info_bytes c) ≡ c
unfolding bytes_info info_bytes
bytes_info-info_bytes c v = λ i. record {
  id = take-append_eq 64 c.id tail (sym v.id_size) i;
  ltpk =
      (ap (take 32) (drop-append_eq 64 c.id tail (sym v.id_size))
          ∙ take-append_eq 32 c.ltpk (c.perms ∷ []) (sym v.ltpk_size))
        i;
  perms = perms_last i;
}
  where
    tail : List ℕ
    tail = c.ltpk ++ (c.perms ∷ [])

    perms_last : get_or (drop 96 (c.id ++ tail)) 0 0 ≡ c.perms
    perms_last =
        ap (λ (b : List ℕ). get_or b 0 0)
          (drop-append_ge 96 c.id tail (omega (arith, v.id_size))
            ∙ ap (λ (n : ℕ). drop n tail) {y = 32} (omega (arith, v.id_size))
            ∙ drop-append_eq 32 c.ltpk (c.perms ∷ []) (sym v.ltpk_size))

zero_info-IsInfo : IsInfo empty_slot.info
zero_info-IsInfo = record { id_size = refl; ltpk_size = refl }

loaded_slot-some :
    (i : ℕ) (c : CtrlInfo)
    → IsInfo c
    → loaded_slot i (some (info_bytes c)) ≡ record { info = c; valid = true; index = i }
unfolding loaded_slot overlay
loaded_slot-some i c v =
    let n = length-info_bytes c v in
    let none_left : drop (length (info_bytes c)) (info_bytes empty_slot.info) ≡ [] =
      drop_all (length (info_bytes c)) (info_bytes empty_slot.info)
        (omega (arith, n, length-info_bytes empty_slot.info zero_info-IsInfo)) in
    rw (none_left, append-nil, bytes_info-info_bytes c v, n)

module _ (k : Keystore) where
  open k use {Store, get}

  load_slots_at :
      (s : Store) (n i d : ℕ) → d < n → slot (load_slots k s n i) d ≡ load_slot k s (i + d)
  unfolding load_slots
  load_slots_at s zero i d h = absurd (omega arith)
  load_slots_at s (suc n) i zero h = ap (load_slot k s) (omega arith)
  load_slots_at s (suc n) i (suc d) h =
      load_slots_at s n (i + 1) d (omega arith) ∙ ap (load_slot k s) (omega arith)

  load_slot-saved :
      (s : Store) (i : ℕ) (c : CtrlInfo)
      → IsInfo c
      → get ns_ctrl (decimal i) info_len s ≡ some (info_bytes c)
      → load_slot k s i ≡ record { info = c; valid = true; index = i }
  unfolding load_slot
  load_slot-saved s i c v e = ap (loaded_slot i) e ∙ loaded_slot-some i c v

  load_slot-absent :
      (s : Store) (i : ℕ) → get ns_ctrl (decimal i) info_len s ≡ none → load_slot k s i ≡ empty_slot
  unfolding load_slot loaded_slot
  load_slot-absent s i e = ap (loaded_slot i) e

  -- The store has the bytes of a valid slot under its index, and nothing for an invalid one.
  abbrev pub Backed : Store → CtrlData → ℕ → Type 0
  Backed s c i =
      (c.valid ≡ true
        → (c.index ≡ i)
          × IsInfo c.info
          × (get ns_ctrl (decimal i) info_len s ≡ some (info_bytes c.info)))
      × (c.valid ≡ false → get ns_ctrl (decimal i) info_len s ≡ none)

  pub record Mirrors (cs : List CtrlData) (s : Store) : Type 0 where
    pub size : length cs ≡ max_controllers
    pub backed : (i : ℕ) → i < max_controllers → Backed s (slot cs i) i

  -- A restart: if the store mirrors the table, then the table that hap_controllers_init reads back
  -- has the valid slots of the table before it, each with its name, key, permissions and index, and
  -- its other slots are empty.
  pub hap_controllers_init_restores :
      (p : HapPriv Store) (i : ℕ)
      → Mirrors p.controllers p.store
      → i < max_controllers
      → let c = slot p.controllers i in
        slot (hap_controllers_init k p).controllers i ≡ (if c.valid then c else empty_slot)
  unfolding hap_controllers_init
  hap_controllers_init_restores p i m h =
      let start : 0 + i ≡ i = omega arith in
      load_slots_at p.store max_controllers 0 i h
      ∙ ap (load_slot k p.store) start
      ∙ (elim (Bool-cases (slot p.controllers i).valid) [
        | inl v ↦
            let (at_i, sizes, bytes) = (m.backed i h).0 v in
            load_slot-saved p.store i (slot p.controllers i).info sizes bytes ∙ ground arith
        | inr v ↦ load_slot-absent p.store i ((m.backed i h).1 v) ∙ ground arith
      ])

  -- A write of slot `i` and of its key, and of nothing else.
  set-Backed :
      (cs : List CtrlData) (i : ℕ) (c : CtrlData) (s s' : Store)
      → length cs ≡ max_controllers
      → i < max_controllers
      → ((j : ℕ) → j < max_controllers → i ≢ j → Backed s (slot cs j) j)
      → ((j : ℕ) → i ≢ j → get ns_ctrl (decimal j) info_len s' ≡ get ns_ctrl (decimal j) info_len s)
      → Backed s' c i
      → Mirrors (set cs i c) s'
  set-Backed cs i c s s' size h others frame b = record {
    size = length-set cs i c ∙ size;
    backed = λ j hj. elim (ℕ_discrete i j) [
      | yes e ↦
          subst (λ n. Backed s' (slot (set cs i c) n) n) e
            (rw (get_or-set_self cs i c empty_slot (omega arith)) b)
      | no ne ↦
          let old = others j hj ne in
          rw (get_or-set_ne cs i j c empty_slot ne)
            (λ v. let r = old.0 v in (r.0, r.1, frame j ne ∙ r.2), λ v. frame j ne ∙ old.1 v)
    ];
  }

  decimal_ne : (i j : ℕ) → i ≢ j → decimal i ≢ decimal j
  decimal_ne i j ne e = ne (decimal_injective i j e)

  -- What `hap_controller_save` does, on both of its branches.
  pub hap_controller_save_fields :
      (p : HapPriv Store) (i : ℕ)
      → let c = record (slot p.controllers i) { valid = true } in
        let written = k.set ns_ctrl (decimal c.index) (info_bytes c.info) p.store in
        ((hap_controller_save k i p).0 ≡ written.0)
        × ((hap_controller_save k i p).1.controllers ≡ set p.controllers i c)
        × ((hap_controller_save k i p).1.store ≡ written.1)
        × ((hap_controller_save k i p).1.sessions ≡ p.sessions)
        × ((hap_controller_save k i p).1.heap ≡ p.heap)
  unfolding hap_controller_save
  hap_controller_save_fields p i =
      let c = record (slot p.controllers i) { valid = true } in
      elim (Bool-cases (k.set ns_ctrl (decimal c.index) (info_bytes c.info) p.store).0) [
        | inl w ↦ rw w (refl, refl, refl, refl, refl)
        | inr w ↦ rw w (refl, refl, refl, refl, refl)
      ]

  -- If a slot below 16 has its own index and arrays of the right sizes, the store mirrors all other
  -- slots of a table of 16, and hap_controller_save succeeds, then the store mirrors the whole
  -- table.
  pub hap_controller_save-Mirrors :
      (p : HapPriv Store) (i : ℕ)
      → length p.controllers ≡ max_controllers
      → i < max_controllers
      → ((j : ℕ) → j < max_controllers → i ≢ j → Backed p.store (slot p.controllers j) j)
      → (slot p.controllers i).index ≡ i
      → IsInfo (slot p.controllers i).info
      → (hap_controller_save k i p).0 ≡ true
      → let p' = (hap_controller_save k i p).1 in Mirrors p'.controllers p'.store
  hap_controller_save-Mirrors p i size h others at_i sizes saved =
      let f = hap_controller_save_fields p i in
      let c = record (slot p.controllers i) { valid = true } in
      let key = ap decimal at_i in
      let s' = (k.set ns_ctrl (decimal c.index) (info_bytes c.info) p.store).1 in
      rw (f.1, f.2)
        (set-Backed p.controllers i c p.store s' size h others
          (λ j ne.
            k.get-set_ne ns_ctrl (decimal c.index) (decimal j) (info_bytes c.info) info_len p.store
              (λ e. decimal_ne i j ne (sym key ∙ e)))
          (
            λ v. (
              at_i,
              sizes,
              ap (λ t. get ns_ctrl t info_len s') (sym key)
                  ∙ k.get-set ns_ctrl (decimal c.index) (info_bytes c.info) info_len p.store
                      (sym f.0 ∙ saved) (omega (arith, length-info_bytes c.info sizes)),
            ),
            λ v. absurd (cc v),
          ))

  -- If the store mirrors the table and can delete the entry, it still mirrors the table after
  -- hap_controller_remove of a valid slot below 16.
  pub hap_controller_remove-Mirrors :
      (p : HapPriv Store) (i : ℕ)
      → Mirrors p.controllers p.store
      → i < max_controllers
      → (slot p.controllers i).valid ≡ true
      → (k.delete ns_ctrl (decimal i) p.store).0 ≡ true
      → let p' = hap_controller_remove k (some i) p in Mirrors p'.controllers p'.store
  unfolding hap_controller_remove
  hap_controller_remove-Mirrors p i m h v deleted =
      let at_i = ((m.backed i h).0 v).0 in
      let key = ap decimal at_i in
      rw key (
        set-Backed p.controllers i empty_slot p.store _ m.size h (λ j hj ne. m.backed j hj)
          (λ j ne.
            k.get-delete_ne ns_ctrl (decimal i) (decimal j) info_len p.store (decimal_ne i j ne))
          (λ w. absurd (cc w), λ w. k.get-delete ns_ctrl (decimal i) info_len p.store deleted))
