-- ===== src/Database.antt =====
-- esp_hap_database.c: the numbers of the accessory that are kept over a restart, and
-- hap_get_unique_aid of esp_hap_acc.c.
pub mod Later
pub mod Restarts
use nina_fw_homekit.Prelude.{
  ℕ, ◌+◌, ◌%◌, ◌^◌, Bool, true, false, Option, none, some, List, ◌==◌, ltb, if◌then◌else◌,
}
use nina_fw_homekit.Prelude.Strings.{codes, overlay}
use nina_fw_homekit.Keystore.{Keystore, Text}
use nina_fw_homekit.HapPriv.{CtrlData}
use nina_fw_homekit.Controllers.{is_accessory_paired}
use nina_fw_homekit.ByteConvert.{get_u16_le, get_u32_le, put_u16_le, put_u32_le}

abbrev pub hap_main : Text
hap_main = codes "hap_main"

abbrev pub key_config_num : Text
key_config_num = codes "config_num"

abbrev pub key_cur_aid : Text
key_cur_aid = codes "cur_aid"

abbrev pub key_state_num : Text
key_state_num = codes "state_num"

-- `config_num`, `cur_aid` and `state_num` of `hap_priv_t`, and the store behind them. Numbers are in
-- memory with their lowest byte first.
pub record Counters (Store : Type 0) : Type 0 where
  pub config_num : ℕ
  pub cur_aid : ℕ
  pub state_num : ℕ
  pub store : Store

module _ (ks : Keystore) where
  open ks use {Store, get, set}

  -- `hap_save_config_number`; as in the code, whether the store takes the number is not looked at.
  unfoldable pub hap_save_config_number : Counters Store → Counters Store
  hap_save_config_number d = record d {
    store = (set hap_main key_config_num (put_u32_le d.config_num) d.store).1;
  }

  -- The second test of `hap_get_config_number`, which `hap_increment_and_save_config_num` has too.
  unfoldable pub limit_config_num : Counters Store → Counters Store
  limit_config_num d = if ltb 65535 d.config_num then record d { config_num = 1 } else d

  -- `hap_get_config_number`
  unfoldable pub hap_get_config_number : Counters Store → Counters Store
  hap_get_config_number d = elim (get hap_main key_config_num 4 d.store) [
    | none ↦ hap_save_config_number (record d { config_num = 1 })
    | some val ↦
        let read = record d { config_num = get_u32_le (overlay val (put_u32_le d.config_num)) } in
        if ltb 65535 read.config_num then hap_save_config_number (limit_config_num read) else read
  ]

  -- `hap_increment_and_save_config_num`
  unfoldable pub hap_increment_and_save_config_num : Counters Store → Counters Store
  hap_increment_and_save_config_num d =
      hap_save_config_number
        (limit_config_num (record d { config_num = (d.config_num + 1) % 2 ^ 32 }))

  -- `hap_save_state_number`
  unfoldable pub hap_save_state_number : Counters Store → Counters Store
  hap_save_state_number d = record d {
    store = (set hap_main key_state_num (put_u16_le d.state_num) d.store).1;
  }

  -- `hap_increment_and_save_state_num`
  unfoldable pub hap_increment_and_save_state_num : List CtrlData → Counters Store → Counters Store
  hap_increment_and_save_state_num controllers d =
      let next = (d.state_num + 1) % 2 ^ 16 in
      if is_accessory_paired controllers
      then hap_save_state_number (record d { state_num = if next == 0 then 1 else next })
      else d

  -- `hap_init_state_number`
  unfoldable pub hap_init_state_number : List CtrlData → Counters Store → Counters Store
  hap_init_state_number controllers d = elim (get hap_main key_state_num 2 d.store) [
    | none ↦ hap_save_state_number (record d { state_num = 1 })
    | some val ↦
        hap_increment_and_save_state_num controllers
          (record d { state_num = get_u16_le (overlay val (put_u16_le d.state_num)) })
  ]

  -- `hap_save_cur_aid`
  unfoldable pub hap_save_cur_aid : Counters Store → Counters Store
  hap_save_cur_aid d = record d {
    store = (set hap_main key_cur_aid (put_u32_le d.cur_aid) d.store).1;
  }

  -- `hap_get_cur_aid`
  unfoldable pub hap_get_cur_aid : Counters Store → Counters Store
  hap_get_cur_aid d = elim (get hap_main key_cur_aid 4 d.store) [
    | none ↦ hap_save_cur_aid (record d { cur_aid = 1 })
    | some val ↦ record d { cur_aid = get_u32_le (overlay val (put_u32_le d.cur_aid)) }
  ]

  -- `hap_get_next_aid`
  unfoldable pub hap_get_next_aid : Counters Store → ℕ × Counters Store
  hap_get_next_aid d =
      let next = record d { cur_aid = (d.cur_aid + 1) % 2 ^ 32 } in
      (next.cur_aid, hap_save_cur_aid next)

  -- `hap_get_unique_aid`; an identifier is given by its 32 bits.
  unfoldable pub hap_get_unique_aid : Option Text → Counters Store → ℕ × Counters Store
  hap_get_unique_aid none d = (4294967295, d)
  hap_get_unique_aid (some id) d = elim (get hap_main id 4 d.store) [
    | none ↦
        let (aid, next) = hap_get_next_aid d in
        (aid, record next { store = (set hap_main id (put_u32_le aid) next.store).1 })
    | some val ↦ (get_u32_le (overlay val (put_u32_le 0)), d)
  ]
