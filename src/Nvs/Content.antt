-- ===== src/Nvs/Content.antt =====
-- hap_platform_keystore.c: what the flash holds before and after a call.
use nina_fw_homekit.Prelude.{
  ℕ, ◌≡◌, ◌≢◌, ◌⊎◌, inl, inr, refl, sym, ap, ◌∙◌, Bool, true, false, none, some, List, Option-cases,
}
use nina_fw_homekit.Keystore.{Text}
use nina_fw_homekit.Nvs.{
  Nvs, room, committed, with_handle, hap_platform_keystore_get, hap_platform_keystore_set,
  hap_platform_keystore_delete,
}

module _ (n : Nvs) where
  open n use {
    Flash, Handle, part_of, ns_of, content, nvs_open_from_partition, nvs_set_blob, nvs_erase_key,
  }

  committed-content :
      (h : Handle) (r : Bool × Flash) (part ns key : Text)
      → content part ns key (committed n h r).1 ≡ content part ns key r.1
  unfolding committed
  committed-content h (true, fl) part ns key = n.commit-content h fl part ns key
  committed-content h (false, fl) part ns key = refl

  -- A change is not made, or it is made through a handle of the namespace.
  with_handle_cases :
      (change : Handle → Flash → Bool × Flash) (part ns : Text) (fl : Flash)
      → let r = with_handle n change part ns fl in
        ((r.0 ≡ false)
          × ((part' ns' key : Text) → content part' ns' key r.1 ≡ content part' ns' key fl))
        ⊎ ((h : Handle) × (fl1 : Flash) × (part_of h ≡ part)
            × (ns_of h ≡ ns)
            × (r.0 ≡ (change h fl1).0)
            × ((part' ns' key : Text) → content part' ns' key fl1 ≡ content part' ns' key fl)
            × ((part' ns' key : Text)
                → content part' ns' key r.1 ≡ content part' ns' key (change h fl1).1))
  unfolding with_handle committed
  with_handle_cases change part ns fl =
      let fl1 = (nvs_open_from_partition part ns true fl).1 in
      elim (Option-cases (nvs_open_from_partition part ns true fl).0) [
        | inl e ↦
            inl (rw (e, with_handle) (refl, λ p s key. n.open-content part ns true fl p s key))
        | inr (h, e) ↦ inr (
          h,
          fl1,
          n.open-part part ns true fl h e,
          n.open-ns part ns true fl h e,
          rw (e, with_handle) refl,
          λ p s key. n.open-content part ns true fl p s key,
          λ p s key. rw (e, with_handle) (committed-content h (change h fl1) p s key),
        )
      ]

  pub platform_get_lem :
      (part ns key : Text) (size : ℕ) (fl : Flash)
      → hap_platform_keystore_get n part ns key size fl ≡ room size (content part ns key fl)
  unfolding hap_platform_keystore_get
  platform_get_lem part ns key size fl =
      let fl1 = (nvs_open_from_partition part ns false fl).1 in
      elim (Option-cases (nvs_open_from_partition part ns false fl).0) [
        | inl e ↦
            rw (e, hap_platform_keystore_get)
              (sym (ap (room size) (n.open_absent part ns key fl e)))
        | inr (h, e) ↦
            rw (e, hap_platform_keystore_get)
              (n.get_blob-content h key size fl1
                ∙ ap (λ p. room size (content p (ns_of h) key fl1))
                    (n.open-part part ns false fl h e)
                ∙ ap (λ s. room size (content part s key fl1)) (n.open-ns part ns false fl h e)
                ∙ ap (room size) (n.open-content part ns false fl part ns key))
      ]

  module _ (part ns key : Text) where
    -- A handle of the namespace shows its values.
    at_handle :
        (h : Handle) (fl : Flash) (k : Text)
        → part_of h ≡ part
        → ns_of h ≡ ns
        → content (part_of h) (ns_of h) k fl ≡ content part ns k fl
    at_handle h fl k p s = ap (λ t. content t (ns_of h) k fl) p ∙ ap (λ t. content part t k fl) s

    pub platform_set_some :
        (val : List ℕ) (fl : Flash)
        → (hap_platform_keystore_set n part ns key val fl).0 ≡ true
        → content part ns key (hap_platform_keystore_set n part ns key val fl).1 ≡ some val
    unfolding hap_platform_keystore_set
    platform_set_some val fl ok =
        elim (with_handle_cases (λ h. nvs_set_blob h key val) part ns fl) [
          | inl (bad, same) ↦ absurd (cc (bad, ok))
          | inr (h, fl1, p, s, ret, before, after) ↦
              after part ns key
              ∙ sym (at_handle h (nvs_set_blob h key val fl1).1 key p s)
              ∙ n.set_blob-content h key val fl1 (sym ret ∙ ok)
        ]

    pub platform_set_ne :
        (key' : Text) (val : List ℕ) (fl : Flash)
        → key ≢ key'
        → content part ns key' (hap_platform_keystore_set n part ns key val fl).1
          ≡ content part ns key' fl
    unfolding hap_platform_keystore_set
    platform_set_ne key' val fl ne =
        elim (with_handle_cases (λ h. nvs_set_blob h key val) part ns fl) [
          | inl (bad, same) ↦ same part ns key'
          | inr (h, fl1, p, s, ret, before, after) ↦
              after part ns key'
              ∙ sym (at_handle h (nvs_set_blob h key val fl1).1 key' p s)
              ∙ n.set_blob-content_ne h key key' val fl1 ne
              ∙ at_handle h fl1 key' p s
              ∙ before part ns key'
        ]

    pub platform_delete_none :
        (fl : Flash)
        → (hap_platform_keystore_delete n part ns key fl).0 ≡ true
        → content part ns key (hap_platform_keystore_delete n part ns key fl).1 ≡ none
    unfolding hap_platform_keystore_delete
    platform_delete_none fl ok = elim (with_handle_cases (λ h. nvs_erase_key h key) part ns fl) [
      | inl (bad, same) ↦ absurd (cc (bad, ok))
      | inr (h, fl1, p, s, ret, before, after) ↦
          after part ns key
          ∙ sym (at_handle h (nvs_erase_key h key fl1).1 key p s)
          ∙ n.erase_key-content h key fl1 (sym ret ∙ ok)
    ]

    pub platform_delete_ne :
        (key' : Text) (fl : Flash)
        → key ≢ key'
        → content part ns key' (hap_platform_keystore_delete n part ns key fl).1
          ≡ content part ns key' fl
    unfolding hap_platform_keystore_delete
    platform_delete_ne key' fl ne = elim (with_handle_cases (λ h. nvs_erase_key h key) part ns fl) [
      | inl (bad, same) ↦ same part ns key'
      | inr (h, fl1, p, s, ret, before, after) ↦
          after part ns key'
          ∙ sym (at_handle h (nvs_erase_key h key fl1).1 key' p s)
          ∙ n.erase_key-content_ne h key key' fl1 ne
          ∙ at_handle h fl1 key' p s
          ∙ before part ns key'
    ]
