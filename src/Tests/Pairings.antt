-- ===== src/Tests/Pairings.antt =====
-- Requests to the concrete accessory.
use nina_fw_homekit.Prelude.{
  ℕ, ◌<◌, ◌≡◌, ◌≢◌, ◌⊎◌, refl, sym, subst, some_inj, ◌∙◌, arith, true, false, none, some, List, [],
  ◌∷◌, ◌++◌, replicate, length,
}
use nina_fw_homekit.Prelude.Strings.{c_string, overlay, bytes_eq}
use nina_fw_homekit.Tlv.{
  get_value_from_tlv, get_value_loop, add_tlv, hap_tlv_data_init, fragments, curlen, tlv_state,
  tlv_error,
}
use nina_fw_homekit.HapPriv.{slot, max_controllers}
use nina_fw_homekit.Controllers.{
  find_slot, any_slot, hap_controller_remove, is_admin_paired, is_accessory_paired,
  hap_get_controller,
}
use nina_fw_homekit.Pairings.{
  Locals, Request, removed, remove_ctrl, state_answer, value_in, byte_in, ctrl_id_in, method_in,
  hap_pairings_process, hap_process_pair_add, hap_process_pair_remove, add_pairing, remove_pairing,
  state_m2, error_authentication,
}
use nina_fw_homekit.Sessions.{hap_close_sessions_of_ctrl}
use nina_fw_homekit.Pairings.Tables.{UniqueIds}
use nina_fw_homekit.Pairings.Adding.{KeepsIdentity, process_add_keeps, process_add-UniqueIds}
use nina_fw_homekit.Pairings.Removing.{process_remove_admin, process_remove_exact}
use nina_fw_homekit.Pairings.Access.{
  IsAdminSession, pairings_process_not_admin, pairings_process_changes,
}
use nina_fw_homekit.Tests.MemoryStore.{memory_store}
use nina_fw_homekit.Tests.Accessory.{accessory, table, table-UniqueIds}

abbrev locals : Locals
locals = record { state = 0; method = 0; perms = 0; ltpkc = replicate 32 0 }

-- Remove the pairing of "B".
abbrev remove_b : Request
remove_b = record { buf = 6 ∷ 1 ∷ 1 ∷ 0 ∷ 1 ∷ 4 ∷ 1 ∷ 1 ∷ b'B' ∷ []; inlen = 9; bufsize = 200 }

-- Add "C", whose key is 32 times its letter, as an administrator.
abbrev add_c : Request
add_c = record {
  buf = 6 ∷ 1 ∷ 1 ∷ 0 ∷ 1 ∷ 3 ∷ 1 ∷ 1 ∷ b'C' ∷ 3 ∷ 32 ∷ (replicate 32 b'C' ++ 11 ∷ 1 ∷ 1 ∷ []);
  inlen = 46;
  bufsize = 200;
}

abbrev name_b : List ℕ
name_b = b'B' ∷ replicate 63 0

names_b : ctrl_id_in remove_b ≡ some name_b
unfolding ctrl_id_in value_in get_value_from_tlv get_value_loop overlay
names_b = refl

size : length table ≡ max_controllers
size = refl

removes_b : method_in locals remove_b ≡ some remove_pairing
unfolding method_in byte_in value_in get_value_from_tlv get_value_loop overlay
removes_b = refl

-- Session 1 is one of "B", which is not an administrator.
user : ¬ IsAdminSession (some 1) accessory
user (verified, perms) = absurd (omega (arith, perms))

pairings_process_not_admin_example :
    let (ret, out, q) = hap_pairings_process memory_store (some 1) locals remove_b accessory in
    (ret ≡ false)
    × (q ≡ accessory)
    × (get_value_from_tlv out (length out) tlv_state 1 ≡ some (state_m2 ∷ []))
    × (get_value_from_tlv out (length out) tlv_error 1 ≡ some (error_authentication ∷ []))
pairings_process_not_admin_example =
    pairings_process_not_admin memory_store (some 1) locals remove_b accessory user (omega arith)

pairings_process_changes_example :
    ((hap_pairings_process memory_store (some 0) locals remove_b accessory).2 ≡ accessory)
    ⊎ (IsAdminSession (some 0) accessory
        × ((method_in locals remove_b ≡ some add_pairing)
            ⊎ (method_in locals remove_b ≡ some remove_pairing)))
pairings_process_changes_example =
    pairings_process_changes memory_store (some 0) locals remove_b accessory

process_remove_admin_example :
    let q = (hap_process_pair_remove memory_store remove_b accessory).2 in
    (is_admin_paired q.controllers ≡ true) ⊎ (is_accessory_paired q.controllers ≡ false)
process_remove_admin_example =
    process_remove_admin memory_store remove_b accessory name_b size names_b

admin_stays :
    is_admin_paired (hap_process_pair_remove memory_store remove_b accessory).2.controllers ≡ true
unfolding hap_process_pair_remove removed remove_ctrl state_answer ctrl_id_in value_in
    get_value_from_tlv get_value_loop overlay hap_get_controller find_slot c_string bytes_eq
    hap_controller_remove hap_close_sessions_of_ctrl is_admin_paired any_slot add_tlv
    hap_tlv_data_init fragments curlen
admin_stays = refl

process_remove_exact_example :
    let q = (hap_process_pair_remove memory_store remove_b accessory).2 in
    ((j : ℕ)
      → c_string (slot table j).info.id ≢ c_string name_b
      → slot q.controllers j ≡ slot table j)
    × (hap_get_controller name_b q.controllers ≡ none)
process_remove_exact_example =
    process_remove_exact memory_store remove_b accessory name_b size table-UniqueIds names_b
      admin_stays

-- The name "C" as it is read.
abbrev name_c : List ℕ
name_c = b'C' ∷ replicate 63 0

read_c : ctrl_id_in add_c ≡ some name_c
unfolding ctrl_id_in value_in get_value_from_tlv get_value_loop overlay
read_c = refl

short_name : length (c_string name_c) < 64
unfolding c_string
short_name = omega arith

short_c : (ctrl_id : List ℕ) → ctrl_id_in add_c ≡ some ctrl_id → length (c_string ctrl_id) < 64
short_c ctrl_id e =
    subst (λ (b : List ℕ). length (c_string b) < 64) (some_inj (sym read_c ∙ e)) short_name

process_add_keeps_example :
    KeepsIdentity
      (slot table 0)
      (slot (hap_process_pair_add memory_store locals add_c accessory).2.controllers 0)
process_add_keeps_example = process_add_keeps memory_store locals add_c accessory short_c 0 refl

process_add-UniqueIds_example :
    UniqueIds (hap_process_pair_add memory_store locals add_c accessory).2.controllers
process_add-UniqueIds_example =
    process_add-UniqueIds memory_store locals add_c accessory short_c table-UniqueIds
