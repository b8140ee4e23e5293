-- ===== src/Tests/Controllers.antt =====
-- The table of controllers and its store at a concrete accessory.
use nina_fw_homekit.Prelude.{
  ℕ, zero, suc, ◌<◌, ◌≡◌, ◌≢◌, refl, ap, arith, false, some, List, ◌∷◌, replicate, if◌then◌else◌,
}
use nina_fw_homekit.HapPriv.{HapPriv, CtrlData, slot, empty_slot, max_controllers}
use nina_fw_homekit.Controllers.{hap_controllers_init, hap_controller_save, hap_controller_remove}
use nina_fw_homekit.Controllers.Persistence.{
  IsInfo, Backed, Mirrors, hap_controllers_init_restores, hap_controller_save-Mirrors,
  hap_controller_remove-Mirrors, hap_controller_save_fields,
}
use nina_fw_homekit.Tests.MemoryStore.{Memory, memory_store}
use nina_fw_homekit.Tests.Accessory.{accessory, named, get_or-replicate}

-- A table with the administrator in its first slot, not yet valid, and nothing in the store.
abbrev entered : HapPriv Memory
entered = record accessory {
  controllers = record { info = named b'A' 1; valid = false; index = 0 } ∷ replicate 15 empty_slot;
}

entered_rest :
    (j : ℕ)
    → j < max_controllers
    → 0 ≢ j
    → Backed memory_store entered.store (slot entered.controllers j) j
entered_rest zero h ne = absurd (ne refl)
entered_rest (suc j) h ne = (
  λ v. absurd (cc (v, ap (λ (c : CtrlData). c.valid) (get_or-replicate 15 empty_slot j))),
  λ v. refl,
)

named-IsInfo : IsInfo (named b'A' 1)
named-IsInfo = record { id_size = refl; ltpk_size = refl }

abbrev saved : HapPriv Memory
saved = (hap_controller_save memory_store 0 entered).1

hap_controller_save-Mirrors_example : Mirrors memory_store saved.controllers saved.store
hap_controller_save-Mirrors_example =
    hap_controller_save-Mirrors memory_store entered 0 refl (omega arith) entered_rest refl
      named-IsInfo (hap_controller_save_fields memory_store entered 0).0

saved-Mirrors : Mirrors memory_store saved.controllers saved.store
saved-Mirrors =
    hap_controller_save-Mirrors memory_store entered 0 refl (omega arith) entered_rest refl
      named-IsInfo (hap_controller_save_fields memory_store entered 0).0

hap_controllers_init_restores_example :
    let c = slot saved.controllers 0 in
    slot (hap_controllers_init memory_store saved).controllers 0
    ≡ (if c.valid then c else empty_slot)
hap_controllers_init_restores_example =
    hap_controllers_init_restores memory_store saved 0 saved-Mirrors (omega arith)

hap_controller_remove-Mirrors_example :
    let p' = hap_controller_remove memory_store (some 0) saved in
    Mirrors memory_store p'.controllers p'.store
hap_controller_remove-Mirrors_example =
    hap_controller_remove-Mirrors memory_store saved 0 saved-Mirrors (omega arith)
      (ap (λ (cs : List CtrlData). (slot cs 0).valid)
        (hap_controller_save_fields memory_store entered 0).1)
      refl
