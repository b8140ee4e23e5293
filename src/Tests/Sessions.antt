-- ===== src/Tests/Sessions.antt =====
-- The session table at a concrete accessory.
use nina_fw_homekit.Prelude.{
  ℕ, zero, suc, ◌<◌, ◌≡◌, ◌≢◌, refl, sym, ◌∙◌, arith, Option, none, some, some_inj, List, replicate,
  length, get_or,
}
use nina_fw_homekit.HapPriv.{HapPriv}
use nina_fw_homekit.Sessions.{find_free, hap_add_secure_session, hap_get_ctrl_session_index}
use nina_fw_homekit.Sessions.Slots.{NoRepeat}
use nina_fw_homekit.Sessions.Lifecycle.{hap_add_secure_session_lem, hap_add_secure_session_full}
use nina_fw_homekit.Tests.MemoryStore.{Memory}
use nina_fw_homekit.Tests.Accessory.{accessory, slots, get_or-replicate}

-- Session 0 stands in slot 0 and session 1 in slot 1.
slot_is : (a i : ℕ) → get_or slots i none ≡ some a → i ≡ a
slot_is a zero e = some_inj e
slot_is a (suc zero) e = some_inj e
slot_is a (suc (suc i)) e = absurd (cc (e, get_or-replicate {A = Option ℕ} 6 none i))

slots-NoRepeat : NoRepeat slots
slots-NoRepeat a i j ei ej = slot_is a i ei ∙ sym (slot_is a j ej)

no_ninth : (j : ℕ) → get_or slots j none ≢ some 9
no_ninth zero e = absurd (omega (arith, some_inj e))
no_ninth (suc zero) e = absurd (omega (arith, some_inj e))
no_ninth (suc (suc j)) e = cc (e, get_or-replicate {A = Option ℕ} 6 none j)

free_slot : find_free 0 slots ≡ some 2
unfolding find_free
free_slot = refl

hap_add_secure_session_lem_example :
    let p' = hap_add_secure_session 9 accessory in
    (hap_get_ctrl_session_index 9 p'.sessions ≡ some 2)
    × ((j : ℕ) → 2 ≢ j → get_or p'.sessions j none ≡ get_or slots j none)
    × NoRepeat p'.sessions
hap_add_secure_session_lem_example =
    hap_add_secure_session_lem accessory 9 2 slots-NoRepeat no_ninth free_slot

-- A table whose slots are all taken, by one session here.
abbrev crowded : HapPriv Memory
crowded = record accessory { sessions = replicate 8 (some 1) }

-- A table of `n` slots, all taken.
abbrev full : ℕ → List (Option ℕ)
full n = replicate n (some 1)

taken : (n j : ℕ) → j < length (full n) → get_or (full n) j none ≡ some 1
taken zero j h = absurd (omega arith)
taken (suc n) zero h = refl
taken (suc n) (suc j) h = taken n j (omega arith)

not_nine : (n j : ℕ) → get_or (full n) j none ≢ some 9
not_nine zero j e = cc e
not_nine (suc n) zero e = absurd (omega (arith, some_inj e))
not_nine (suc n) (suc j) e = not_nine n j e

hap_add_secure_session_full_example :
    hap_get_ctrl_session_index 9 (hap_add_secure_session 9 crowded).sessions ≡ none
hap_add_secure_session_full_example =
    hap_add_secure_session_full crowded 9 0 (λ j h e. cc (e, taken 8 j h)) (not_nine 8)
