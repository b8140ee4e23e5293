-- ===== src/Controllers.antt =====
-- esp_hap_controllers.c: the table of paired controllers and its copy in the key store.
pub mod Table
pub mod Persistence
use nina_fw_homekit.Prelude.{
  ℕ, zero, suc, ◌+◌, ◌-◌, Bool, true, false, not, ◌&&◌, Option, none, some, List, [], ◌∷◌, ◌++◌,
  get_or, set, take, drop, length, replicate, ◌==◌, if◌then◌else◌,
}
use nina_fw_homekit.Prelude.Strings.{c_string, bytes_eq, overlay, decimal}
use nina_fw_homekit.Keystore.{Keystore, Text}
use nina_fw_homekit.HapPriv.{
  HapPriv, CtrlInfo, CtrlData, Effect, ctrl_paired, ctrl_unpaired, empty_slot, slot,
  max_controllers,
}

-- HAP_KEYSTORE_NAMESPACE_CTRL, "hap_ctrl"
abbrev pub ns_ctrl : Text
ns_ctrl = b'h' ∷ b'a' ∷ b'p' ∷ b'_' ∷ b'c' ∷ b't' ∷ b'r' ∷ b'l' ∷ []

-- `sizeof(hap_ctrl_info_t)`
abbrev pub info_len : ℕ
info_len = 97

-- The packed structure in memory, and the structure that given bytes make.
unfoldable pub info_bytes : CtrlInfo → List ℕ
info_bytes c = c.id ++ (c.ltpk ++ (c.perms ∷ []))

unfoldable pub bytes_info : List ℕ → CtrlInfo
bytes_info b = record { id = take 64 b; ltpk = take 32 (drop 64 b); perms = get_or (drop 96 b) 0 0 }

-- The first slot from index `i` on that a test holds of.
unfoldable pub find_slot : (CtrlData → Bool) → ℕ → List CtrlData → Option ℕ
find_slot test i [] = none
find_slot test i (c ∷ cs) = let rest = find_slot test (i + 1) cs in if test c then some i else rest

-- `hap_controller_get_empty_loc`: the index of the slot, and the table with `index` set there.
unfoldable pub hap_controller_get_empty_loc : List CtrlData → Option (ℕ × List CtrlData)
hap_controller_get_empty_loc cs = elim (find_slot (λ c. not c.valid) 0 cs) [
  | none ↦ none
  | some i ↦ some (i, set cs i (record (slot cs i) { index = i }))
]

-- `hap_get_paired_controller_count`
unfoldable pub hap_get_paired_controller_count : List CtrlData → ℕ
hap_get_paired_controller_count [] = 0
hap_get_paired_controller_count (c ∷ cs) =
    let rest = hap_get_paired_controller_count cs in if c.valid then suc rest else rest

unfoldable pub any_slot : (CtrlData → Bool) → List CtrlData → Bool
any_slot test [] = false
any_slot test (c ∷ cs) = let rest = any_slot test cs in if test c then true else rest

-- `is_accessory_paired`
unfoldable pub is_accessory_paired : List CtrlData → Bool
is_accessory_paired = any_slot (λ c. c.valid)

-- `is_admin_paired`
unfoldable pub is_admin_paired : List CtrlData → Bool
is_admin_paired = any_slot (λ c. c.valid && not (c.info.perms == 0))

-- `hap_get_controller`, for a name that ends within its array: strcmp reads on behind a `ctrl_id` that
-- does not, where it is cut off here.
unfoldable pub hap_get_controller : List ℕ → List CtrlData → Option ℕ
hap_get_controller ctrl_id =
    find_slot (λ c. c.valid && bytes_eq (c_string c.info.id) (c_string ctrl_id)) 0

-- One round of the loop of `hap_controllers_init`: what the slot at index `i`, all zero so far,
-- becomes by what the key store returns. A blob of another size is copied over the front of the
-- structure and leaves the slot invalid.
unfoldable pub loaded_slot : ℕ → Option (List ℕ) → CtrlData
loaded_slot i none = empty_slot
loaded_slot i (some blob) =
    let info = bytes_info (overlay blob (info_bytes empty_slot.info)) in
    if length blob == info_len
    then record { info = info; valid = true; index = i }
    else record empty_slot { info = info }

module _ (k : Keystore) where
  open k use {Store, get, set as put, delete, delete_namespace}

  unfoldable pub load_slot : Store → ℕ → CtrlData
  load_slot s i = loaded_slot i (get ns_ctrl (decimal i) info_len s)

  unfoldable pub load_slots : Store → ℕ → ℕ → List CtrlData
  load_slots s zero i = []
  load_slots s (suc n) i = load_slot s i ∷ load_slots s n (i + 1)

  -- `hap_controllers_init`
  unfoldable pub hap_controllers_init : HapPriv Store → HapPriv Store
  hap_controllers_init p = record p { controllers = load_slots p.store max_controllers 0 }

  -- `hap_controller_save` for the controller at index `i` of the table: whether it succeeds.
  unfoldable pub hap_controller_save : ℕ → HapPriv Store → Bool × HapPriv Store
  hap_controller_save i p =
      let c = record (slot p.controllers i) { valid = true } in
      let p' = record p { controllers = set p.controllers i c } in
      let (ret, s) = put ns_ctrl (decimal c.index) (info_bytes c.info) p.store in
      let stored = record p' { store = s } in
      if ret
      then (true, record stored { effects = ctrl_paired c.info.id ∷ p.effects })
      else (false, stored)

  -- `hap_controller_remove`; `none` is a null pointer. The result of the deletion is not looked at.
  unfoldable pub hap_controller_remove : Option ℕ → HapPriv Store → HapPriv Store
  hap_controller_remove none p = p
  hap_controller_remove (some i) p =
      let c = slot p.controllers i in
      record p {
        controllers = set p.controllers i empty_slot;
        store = (delete ns_ctrl (decimal c.index) p.store).1;
        effects = ctrl_unpaired c.info.id ∷ p.effects;
      }

  -- `hap_erase_controller_info`
  unfoldable pub hap_erase_controller_info : HapPriv Store → HapPriv Store
  hap_erase_controller_info p = record p { store = (delete_namespace ns_ctrl p.store).1 }
