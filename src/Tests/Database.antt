-- ===== src/Tests/Database.antt =====
-- An accessory that gets a service with one characteristic, and then another characteristic.
use nina_fw_homekit.Sessions.{
  find_session, holds, hap_free_session, hap_get_ctrl_session_index, hap_char_is_ctrl_subscribed,
}
use nina_fw_homekit.Accessories.Subscribed.{with_objects, hap_free_session_objects}
use nina_fw_homekit.Tests.Accessory.{accessory}
use mathlib.Core.List.{Memᴰ}
use nina_fw_homekit.Prelude.{
  ℕ, ◌+◌, ◌^◌, ◌<◌, ◌≡◌, ◌≢◌, ◌∙◌, false, refl, sym, subst, arith, none, some, some_inj, [], ◌∷◌,
  length,
}
use nina_fw_homekit.Characteristics.Format.{format_bool}
use nina_fw_homekit.Characteristics.Making.{new_char}
use nina_fw_homekit.Characteristics.{zero_val}
use nina_fw_homekit.Accessories.{
  Objects, new_serv, hap_acc_add_serv, hap_serv_add_char, join_serv, join_char, number_char,
  number_chars, next32, put_char, put_serv, put_acc, hap_acc_get_char_by_iid,
  hap_acc_get_serv_by_iid,
}
use nina_fw_homekit.Accessories.Steps.{Steps, IsUnlinked, IsWell, Steps-IsWell}
use nina_fw_homekit.Accessories.Steps.Step.{add_serv, add_char}
use nina_fw_homekit.Accessories.Steps.Steps.{none_left, then_step}
use nina_fw_homekit.Accessories.Lookup.{hap_acc_get_char_by_iid_lem}
use nina_fw_homekit.Tests.Characteristics.{whole}

abbrev bare : Objects whole
bare = record {
  char = λ c. new_char whole (b'2' ∷ b'5' ∷ []) 3 format_bool (zero_val whole);
  serv = λ s. new_serv (b'4' ∷ b'3' ∷ []);
  acc = λ a. record { aid = 1; servs = []; next_iid = 1 };
  accessories = 0 ∷ [];
}

bare-IsUnlinked : IsUnlinked bare
bare-IsUnlinked = (λ a. refl, λ s. refl)

abbrev first : Objects whole
first = (hap_serv_add_char (some 1) (some 5) bare).1

abbrev second : Objects whole
second = (hap_acc_add_serv 0 1 first).1

abbrev built : Objects whole
built = (hap_serv_add_char (some 1) (some 6) second).1

room_0 : (a : ℕ) → (bare.serv 1).parent ≡ some a → (bare.acc a).next_iid + 1 < 2 ^ 32
room_0 a e = omega arith

room_1 : (first.acc 0).next_iid + 1 + length (first.serv 1).chars < 2 ^ 32
unfolding hap_serv_add_char join_char number_char put_char put_serv new_char
room_1 = omega arith

owner_1 : (second.serv 1).parent ≡ some 0
unfolding hap_acc_add_serv join_serv hap_serv_add_char join_char number_char number_chars put_char
    put_serv put_acc new_char next32
owner_1 = refl

next_1 : (second.acc 0).next_iid ≡ 3
unfolding hap_acc_add_serv join_serv hap_serv_add_char join_char number_char number_chars put_char
    put_serv put_acc new_char next32
next_1 = refl

room_2 : (a : ℕ) → (second.serv 1).parent ≡ some a → (second.acc a).next_iid + 1 < 2 ^ 32
room_2 a e =
    subst (λ b. (second.acc b).next_iid + 1 < 2 ^ 32) (some_inj (sym owner_1 ∙ e))
      (omega (arith, next_1))

built-Steps : Steps bare built
built-Steps =
    then_step (then_step (then_step none_left (add_char 1 5 room_0)) (add_serv 0 1 room_1))
      (add_char 1 6 room_2)

servs_are : (built.acc 0).servs ≡ 1 ∷ []
unfolding hap_acc_add_serv join_serv hap_serv_add_char join_char number_char number_chars put_char
    put_serv put_acc new_char next32
servs_are = refl

chars_are : (built.serv 1).chars ≡ 5 ∷ 6 ∷ []
unfolding hap_acc_add_serv join_serv hap_serv_add_char join_char number_char number_chars put_char
    put_serv put_acc new_char next32
chars_are = refl

Steps-IsWell_example : IsWell built
Steps-IsWell_example = Steps-IsWell bare built bare-IsUnlinked built-Steps

hap_acc_get_char_by_iid_lem_example :
    (hap_acc_get_char_by_iid (some 0) (built.char 6).iid built ≡ some 6)
    × (hap_acc_get_serv_by_iid (some 0) (built.serv 1).iid built ≡ some 1)
    × (hap_acc_get_char_by_iid (some 0) (built.serv 1).iid built ≡ none)
hap_acc_get_char_by_iid_lem_example =
    hap_acc_get_char_by_iid_lem bare built 0 1 6 bare-IsUnlinked built-Steps
      (subst (Memᴰ 1) (sym servs_are) (Memᴰ.head refl))
      (subst (Memᴰ 6) (sym chars_are) (Memᴰ.tail (Memᴰ.head refl)))

-- Session 1 of the concrete accessory, beside these objects.
found : hap_get_ctrl_session_index 1 accessory.sessions ≡ some 1
unfolding hap_get_ctrl_session_index find_session holds
found = refl

hap_free_session_objects_example :
    let ev_ctrls' = (hap_free_session (some 1) (with_objects built accessory)).ev_ctrls in
    ((ha hs hc : ℕ)
      → Memᴰ ha built.accessories
      → Memᴰ hs (built.acc ha).servs
      → Memᴰ hc (built.serv hs).chars
      → hap_char_is_ctrl_subscribed (ev_ctrls' hc) 1 ≡ false)
    × ((hc j : ℕ)
        → 1 ≢ j
        → hap_char_is_ctrl_subscribed (ev_ctrls' hc) j
          ≡ hap_char_is_ctrl_subscribed (built.char hc).ev_ctrls j)
hap_free_session_objects_example = hap_free_session_objects built accessory 1 1 found
