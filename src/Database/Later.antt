-- ===== src/Database/Later.antt =====
-- esp_hap_database.c, esp_hap_acc.c: what can follow the assignment of a number to an accessory.
use nina_fw_homekit.Prelude.{
  ℕ, ◌+◌, ◌%◌, ◌^◌, ◌≡◌, ◌≢◌, refl, ap, ◌∙◌, Option, none, some, List, ltb, inl, inr, Option-cases,
  Bool-cases,
}
use nina_fw_homekit.Prelude.Strings.{overlay}
use nina_fw_homekit.Keystore.{Keystore, Text}
use nina_fw_homekit.ByteConvert.{get_u32_le, put_u32_le}
use nina_fw_homekit.HapPriv.{CtrlData}
use nina_fw_homekit.Controllers.{is_accessory_paired}
use nina_fw_homekit.Database.{
  hap_main, key_config_num, key_cur_aid, key_state_num, Counters, hap_save_config_number,
  limit_config_num, hap_get_config_number, hap_increment_and_save_config_num, hap_save_state_number,
  hap_increment_and_save_state_num, hap_init_state_number, hap_save_cur_aid, hap_get_cur_aid,
  hap_get_next_aid, hap_get_unique_aid,
}

-- The key is none of those of the numbers of the accessory.
abbrev pub IsApart : Text → Type 0
IsApart id = (key_cur_aid ≢ id) × (key_config_num ≢ id) × (key_state_num ≢ id)

module _ (ks : Keystore) where
  open ks use {Store, get, set}

  -- What the code can do after the number of the accessory `id` is assigned: a restart, after which
  -- the numbers are whatever they are, with the store as it was; the functions on the numbers; the
  -- numbers of other accessories; and what else is stored under another key of the namespace.
  pub data Later (id : Text) (d : Counters Store) : Counters Store → Type 0 where
    now : Later id d d
    restart :
        {e : Counters Store} (f : Counters Store)
        → Later id d e
        → Later id d (record f { store = e.store })
    get_config : {e : Counters Store} → Later id d e → Later id d (hap_get_config_number ks e)
    increment_config :
        {e : Counters Store} → Later id d e → Later id d (hap_increment_and_save_config_num ks e)
    init_state :
        {e : Counters Store} (controllers : List CtrlData)
        → Later id d e
        → Later id d (hap_init_state_number ks controllers e)
    increment_state :
        {e : Counters Store} (controllers : List CtrlData)
        → Later id d e
        → Later id d (hap_increment_and_save_state_num ks controllers e)
    get_aid : {e : Counters Store} → Later id d e → Later id d (hap_get_cur_aid ks e)
    next_aid : {e : Counters Store} → Later id d e → Later id d (hap_get_next_aid ks e).1
    unique_aid :
        {e : Counters Store} (other : Option Text)
        → other ≢ some id
        → Later id d e
        → Later id d (hap_get_unique_aid ks other e).1
    put :
        {e : Counters Store} (key : Text) (val : List ℕ)
        → key ≢ id
        → Later id d e
        → Later id d (record e { store = (set hap_main key val e.store).1 })

  module _ (id : Text) (apart : IsApart id) where
    -- What stands under the identifier stays.
    abbrev Keeps : Counters Store → Counters Store → Type 0
    Keeps d e = get hap_main id 4 e.store ≡ get hap_main id 4 d.store

    put_keeps :
        (key : Text) (val : List ℕ) (s : Store)
        → key ≢ id
        → get hap_main id 4 (set hap_main key val s).1 ≡ get hap_main id 4 s
    put_keeps key val s ne = ks.get-set_ne hap_main key id val 4 s ne

    save_config-Keeps : (d : Counters Store) → Keeps d (hap_save_config_number ks d)
    unfolding hap_save_config_number
    save_config-Keeps d = put_keeps key_config_num _ d.store apart.1

    limit_keeps : (d : Counters Store) → (limit_config_num ks d).store ≡ d.store
    unfolding limit_config_num
    limit_keeps d = elim (Bool-cases (ltb 65535 d.config_num)) [
      | inl e ↦ rw (e, limit_config_num) refl
      | inr e ↦ rw (e, limit_config_num) refl
    ]

    get_config-Keeps : (d : Counters Store) → Keeps d (hap_get_config_number ks d)
    unfolding hap_get_config_number
    get_config-Keeps d = elim (Option-cases (get hap_main key_config_num 4 d.store)) [
      | inl e ↦ rw (e, hap_get_config_number) (save_config-Keeps (record d { config_num = 1 }))
      | inr (val, e) ↦
          let n = get_u32_le (overlay val (put_u32_le d.config_num)) in
          let read = record d { config_num = n } in
          elim (Bool-cases (ltb 65535 n)) [
            | inl f ↦
                rw (e, f, hap_get_config_number)
                  (save_config-Keeps (limit_config_num ks read)
                    ∙ ap (get hap_main id 4) (limit_keeps read))
            | inr f ↦ rw (e, f, hap_get_config_number) refl
          ]
    ]

    increment_config-Keeps : (d : Counters Store) → Keeps d (hap_increment_and_save_config_num ks d)
    unfolding hap_increment_and_save_config_num
    increment_config-Keeps d =
        let next = record d { config_num = (d.config_num + 1) % 2 ^ 32 } in
        save_config-Keeps (limit_config_num ks next) ∙ ap (get hap_main id 4) (limit_keeps next)

    save_state-Keeps : (d : Counters Store) → Keeps d (hap_save_state_number ks d)
    unfolding hap_save_state_number
    save_state-Keeps d = put_keeps key_state_num _ d.store apart.2

    increment_state-Keeps :
        (cs : List CtrlData) (d : Counters Store)
        → Keeps d (hap_increment_and_save_state_num ks cs d)
    unfolding hap_increment_and_save_state_num
    increment_state-Keeps cs d = elim (Bool-cases (is_accessory_paired cs)) [
      | inl e ↦ rw (e, hap_increment_and_save_state_num) (save_state-Keeps _)
      | inr e ↦ rw (e, hap_increment_and_save_state_num) refl
    ]

    init_state-Keeps :
        (cs : List CtrlData) (d : Counters Store) → Keeps d (hap_init_state_number ks cs d)
    unfolding hap_init_state_number
    init_state-Keeps cs d = elim (Option-cases (get hap_main key_state_num 2 d.store)) [
      | inl e ↦ rw (e, hap_init_state_number) (save_state-Keeps (record d { state_num = 1 }))
      | inr (val, e) ↦ rw (e, hap_init_state_number) (increment_state-Keeps cs _)
    ]

    save_aid-Keeps : (d : Counters Store) → Keeps d (hap_save_cur_aid ks d)
    unfolding hap_save_cur_aid
    save_aid-Keeps d = put_keeps key_cur_aid _ d.store apart.0

    get_aid-Keeps : (d : Counters Store) → Keeps d (hap_get_cur_aid ks d)
    unfolding hap_get_cur_aid
    get_aid-Keeps d = elim (Option-cases (get hap_main key_cur_aid 4 d.store)) [
      | inl e ↦ rw (e, hap_get_cur_aid) (save_aid-Keeps (record d { cur_aid = 1 }))
      | inr (val, e) ↦ rw (e, hap_get_cur_aid) refl
    ]

    next_aid-Keeps : (d : Counters Store) → Keeps d (hap_get_next_aid ks d).1
    unfolding hap_get_next_aid
    next_aid-Keeps d = save_aid-Keeps (record d { cur_aid = (d.cur_aid + 1) % 2 ^ 32 })

    unique_aid-Keeps :
        (other : Option Text) (d : Counters Store)
        → other ≢ some id
        → Keeps d (hap_get_unique_aid ks other d).1
    unfolding hap_get_unique_aid
    unique_aid-Keeps none d ne = refl
    unique_aid-Keeps (some key) d ne = elim (Option-cases (get hap_main key 4 d.store)) [
      | inl e ↦
          rw (e, hap_get_unique_aid)
            (put_keeps key _ (hap_get_next_aid ks d).1.store (λ same. ne (ap some same))
              ∙ next_aid-Keeps d)
      | inr (val, e) ↦ rw (e, hap_get_unique_aid) refl
    ]

    pub later-Keeps : (d e : Counters Store) → Later id d e → Keeps d e
    later-Keeps d _ now = refl
    later-Keeps d _ (restart f h) = later-Keeps d _ h
    later-Keeps d _ (get_config h) = get_config-Keeps _ ∙ later-Keeps d _ h
    later-Keeps d _ (increment_config h) = increment_config-Keeps _ ∙ later-Keeps d _ h
    later-Keeps d _ (init_state cs h) = init_state-Keeps cs _ ∙ later-Keeps d _ h
    later-Keeps d _ (increment_state cs h) = increment_state-Keeps cs _ ∙ later-Keeps d _ h
    later-Keeps d _ (get_aid h) = get_aid-Keeps _ ∙ later-Keeps d _ h
    later-Keeps d _ (next_aid h) = next_aid-Keeps _ ∙ later-Keeps d _ h
    later-Keeps d _ (unique_aid other ne h) = unique_aid-Keeps other _ ne ∙ later-Keeps d _ h
    later-Keeps d _ (put key val ne h) = put_keeps key val _ ne ∙ later-Keeps d _ h
