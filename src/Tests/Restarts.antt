-- ===== src/Tests/Restarts.antt =====
-- The numbers of an accessory that starts with an empty store, and of a bridged lamp.
use nina_fw_homekit.Prelude.{ℕ, ◌+◌, ◌%◌, ◌^◌, ◌≡◌, ◌≢◌, refl, none, some, List}
use nina_fw_homekit.Prelude.Strings.{codes}
use nina_fw_homekit.Database.{Counters, hap_get_cur_aid, hap_get_next_aid, hap_get_unique_aid}
use nina_fw_homekit.Database.Later.{IsApart, now, restart, get_aid, unique_aid}
use nina_fw_homekit.Database.Restarts.{hap_get_unique_aid_again, hap_get_cur_aid-hap_get_next_aid}
use nina_fw_homekit.Tests.MemoryStore.{Memory, memory_store}

abbrev lamp : List ℕ
lamp = codes "lamp"

abbrev counters : Counters Memory
counters = record { config_num = 1; cur_aid = 1; state_num = 1; store = λ ns key. none }

abbrev at_start : Counters Memory
at_start = record counters { config_num = 0; cur_aid = 0; state_num = 0 }

abbrev fan : List ℕ
fan = codes "fan"

lamp-IsApart : IsApart lamp
unfolding codes
lamp-IsApart = ((λ e. cc), (λ e. cc), (λ e. cc))

fan_other : some fan ≢ some lamp
unfolding codes
fan_other e = cc

-- The numbers after the lamp has one, the accessory has started again and read its own, and the fan
-- has got one.
abbrev lamp_first : Counters Memory
lamp_first = (hap_get_unique_aid memory_store (some lamp) counters).1

abbrev fan_second : Counters Memory
fan_second =
    (hap_get_unique_aid memory_store (some fan)
      (hap_get_cur_aid memory_store (record at_start { store = lamp_first.store }))).1

hap_get_unique_aid_again_example :
    ((hap_get_unique_aid memory_store (some lamp) counters).0 ≡ (1 + 1) % 2 ^ 32)
    × (hap_get_unique_aid memory_store (some lamp) fan_second
        ≡ ((hap_get_unique_aid memory_store (some lamp) counters).0, fan_second))
hap_get_unique_aid_again_example =
    hap_get_unique_aid_again memory_store lamp counters fan_second lamp-IsApart refl refl
      (unique_aid (some fan) fan_other (get_aid (restart at_start now)))

hap_get_cur_aid-hap_get_next_aid_example :
    let (aid, after) = hap_get_next_aid memory_store counters in
    (hap_get_cur_aid memory_store (record at_start { store = after.store })).cur_aid ≡ aid
hap_get_cur_aid-hap_get_next_aid_example =
    hap_get_cur_aid-hap_get_next_aid memory_store counters at_start refl
