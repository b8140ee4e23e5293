-- ===== src/Database/Restarts.antt =====
-- esp_hap_database.c: what the numbers of the accessory are after a restart.
use nina_fw_homekit.Prelude.{
  ℕ, ◌+◌, ◌%◌, ◌^◌, ◌≡◌, arith, refl, sym, ap, ◌∙◌, true, none, some, length,
}
use nina_fw_homekit.Prelude.Strings.{overlay, overlay_all}
use nina_fw_homekit.Keystore.{Keystore, Text}
use nina_fw_homekit.ByteConvert.{get_u32_le, put_u32_le}
use nina_fw_homekit.ByteConvert.RoundTrip.{get-put}
use nina_fw_homekit.Database.Later.{IsApart, Later, later-Keeps}
use nina_fw_homekit.Database.{
  hap_main, key_cur_aid, Counters, hap_save_cur_aid, hap_get_cur_aid, hap_get_next_aid,
  hap_get_unique_aid,
}

length-put_u32_le : (v : ℕ) → length (put_u32_le v) ≡ 4
unfolding put_u32_le
length-put_u32_le v = refl

-- A number of 32 bits that is read over another one.
read_number :
    (v old : ℕ) → get_u32_le (overlay (put_u32_le (v % 2 ^ 32)) (put_u32_le old)) ≡ v % 2 ^ 32
read_number v old =
    ap get_u32_le (
      overlay_all (put_u32_le (v % 2 ^ 32)) (put_u32_le old)
        (omega (arith, length-put_u32_le (v % 2 ^ 32), length-put_u32_le old)))
    ∙ (get-put v).2

module _ (ks : Keystore) where
  open ks use {Store, get, set, get-set}

  stored_number :
      (key : Text) (v : ℕ) (s : Store)
      → (set hap_main key (put_u32_le v) s).0 ≡ true
      → get hap_main key 4 (set hap_main key (put_u32_le v) s).1 ≡ some (put_u32_le v)
  stored_number key v s ok =
      get-set hap_main key (put_u32_le v) 4 s ok (omega (arith, length-put_u32_le v))

  assigned :
      (id : Text) (d : Counters Store)
      → get hap_main id 4 d.store ≡ none
      → let (aid, next) = hap_get_next_aid ks d in
        hap_get_unique_aid ks (some id) d
        ≡ (aid, record next { store = (set hap_main id (put_u32_le aid) next.store).1 })
  unfolding hap_get_unique_aid
  assigned id d fresh = rw (fresh, hap_get_unique_aid) refl

  recalled :
      (id : Text) (v : ℕ) (d : Counters Store)
      → get hap_main id 4 d.store ≡ some (put_u32_le (v % 2 ^ 32))
      → hap_get_unique_aid ks (some id) d ≡ (v % 2 ^ 32, d)
  unfolding hap_get_unique_aid
  recalled id v d stored = rw (stored, hap_get_unique_aid, read_number v 0) refl

  -- hap_get_unique_aid gives an accessory that it does not know the next number. If that can be
  -- stored under its identifier, and this is none of the keys of the accessory's own numbers, then
  -- a later call with the identifier gives the same number and changes nothing: after any sequence
  -- of restarts, calls of the functions on the numbers, assignments to other accessories and writes
  -- under other keys of the namespace.
  pub hap_get_unique_aid_again :
      (id : Text) (d e : Counters Store)
      → IsApart id
      → get hap_main id 4 d.store ≡ none
      → let next = hap_get_next_aid ks d in
        (set hap_main id (put_u32_le next.0) next.1.store).0 ≡ true
        → let assigned = hap_get_unique_aid ks (some id) d in
          Later ks id assigned.1 e
          → (assigned.0 ≡ (d.cur_aid + 1) % 2 ^ 32)
            × (hap_get_unique_aid ks (some id) e ≡ (assigned.0, e))
  unfolding hap_get_next_aid
  hap_get_unique_aid_again id d e apart fresh ok later =
      let v = d.cur_aid + 1 in
      let next = hap_get_next_aid ks d in
      let stored = stored_number id (v % 2 ^ 32) next.1.store ok in
      let kept = later-Keeps ks id apart _ e later in
      let first = assigned id d fresh in
      let there = ap (λ (x : ℕ × Counters Store). get hap_main id 4 x.1.store) first in
      (
        ap (λ (x : ℕ × Counters Store). x.0) first,
        recalled id v e (kept ∙ there ∙ stored)
            ∙ ap (λ (n : ℕ). (n, e)) (sym (ap (λ (x : ℕ × Counters Store). x.0) first)),
      )

  -- If the number that hap_get_next_aid gives can be stored, then hap_get_cur_aid reads it back
  -- after a restart, whatever cur_aid holds by then, so that the next accessory gets the number
  -- behind it.
  pub hap_get_cur_aid-hap_get_next_aid :
      (d d' : Counters Store)
      → let next = record d { cur_aid = (d.cur_aid + 1) % 2 ^ 32 } in
        (set hap_main key_cur_aid (put_u32_le next.cur_aid) d.store).0 ≡ true
        → let (aid, after) = hap_get_next_aid ks d in
          (hap_get_cur_aid ks (record d' { store = after.store })).cur_aid ≡ aid
  unfolding hap_get_next_aid hap_save_cur_aid hap_get_cur_aid
  hap_get_cur_aid-hap_get_next_aid d d' ok =
      let stored = stored_number key_cur_aid ((d.cur_aid + 1) % 2 ^ 32) d.store ok in
      rw (stored, hap_get_cur_aid) (read_number (d.cur_aid + 1) d'.cur_aid)
