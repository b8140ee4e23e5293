-- ===== src/Nvs/Implementation.antt =====
-- esp_hap_keystore.c as an instance of the interface `Keystore`.
use nina_fw_homekit.Prelude.{
  ℕ, ◌≡◌, ◌≢◌, ◌≤◌, ◌⊎◌, inl, inr, refl, sym, ap, ◌∙◌, arith, Bool, true, false, Option, none, some,
  List, length, Bool-cases,
}
use nina_fw_homekit.Keystore.{Text, Keystore}
use nina_fw_homekit.Nvs.{
  Nvs, room, KeystoreState, keystore_get, keystore_set, guarded, hap_keystore_get, hap_keystore_set,
  hap_keystore_delete, hap_keystore_delete_namespace, hap_platform_keystore_set,
  hap_platform_keystore_delete,
}
use nina_fw_homekit.Nvs.Content.{
  platform_get_lem, platform_set_some, platform_set_ne, platform_delete_none, platform_delete_ne,
}

room-some : (size : ℕ) (v : List ℕ) → length v ≤ size → room size (some v) ≡ some v
room-some size v h = ground arith

module _ (n : Nvs) where
  open n use {Flash, content}

  get_done :
      (part ns key : Text) (size : ℕ) (s : KeystoreState n)
      → s.keystore_init_done ≡ true
      → keystore_get n part ns key size s ≡ room size (content part ns key s.flash)
  unfolding keystore_get
  get_done part ns key size s done = rw done (platform_get_lem n part ns key size s.flash)

  get_same :
      (part ns key : Text) (size : ℕ) (s : KeystoreState n) (fl : Flash)
      → content part ns key fl ≡ content part ns key s.flash
      → keystore_get n part ns key size (record s { flash = fl })
        ≡ keystore_get n part ns key size s
  unfolding keystore_get
  get_same part ns key size s fl same = elim (Bool-cases s.keystore_init_done) [
    | inl done ↦ rw done (
        platform_get_lem n part ns key size fl
        ∙ ap (room size) same
        ∙ sym (platform_get_lem n part ns key size s.flash))
    | inr undone ↦ rw undone refl
  ]

  guarded_cases :
      (r : Bool × Flash) (s : KeystoreState n)
      → ((s.keystore_init_done ≡ true) × (guarded n r s ≡ (r.0, record s { flash = r.1 })))
        ⊎ (guarded n r s ≡ (false, s))
  unfolding guarded
  guarded_cases r s = elim (Bool-cases s.keystore_init_done) [
    | inl done ↦ inl (done, rw done refl)
    | inr undone ↦ inr (rw undone refl)
  ]

  -- A change that succeeds shows under its key.
  guarded_value :
      (part ns key : Text) (size : ℕ) (v : Option (List ℕ)) (r : Bool × Flash) (s : KeystoreState n)
      → (guarded n r s).0 ≡ true
      → (r.0 ≡ true → content part ns key r.1 ≡ v)
      → keystore_get n part ns key size (guarded n r s).1 ≡ room size v
  guarded_value part ns key size v r s ok change = elim (guarded_cases r s) [
    | inr e ↦
        absurd (let no_success = ap (λ (x : Bool × KeystoreState n). x.0) e in cc (no_success, ok))
    | inl (done, e) ↦
        let success : r.0 ≡ true = sym (ap (λ (x : Bool × KeystoreState n). x.0) e) ∙ ok in
        ap (λ (x : Bool × KeystoreState n). keystore_get n part ns key size x.1) e
        ∙ get_done part ns key size (record s { flash = r.1 }) done
        ∙ ap (room size) (change success)
  ]

  -- A change that leaves a key alone does not show under it.
  guarded_same :
      (part ns key : Text) (size : ℕ) (r : Bool × Flash) (s : KeystoreState n)
      → content part ns key r.1 ≡ content part ns key s.flash
      → keystore_get n part ns key size (guarded n r s).1 ≡ keystore_get n part ns key size s
  guarded_same part ns key size r s same = elim (guarded_cases r s) [
    | inr e ↦ ap (λ (x : Bool × KeystoreState n). keystore_get n part ns key size x.1) e
    | inl (done, e) ↦
        ap (λ (x : Bool × KeystoreState n). keystore_get n part ns key size x.1) e
        ∙ get_same part ns key size s r.1 same
  ]

  pub keystore_set_ne :
      (part ns key key' : Text) (val : List ℕ) (size : ℕ) (s : KeystoreState n)
      → key ≢ key'
      → keystore_get n part ns key' size (keystore_set n part ns key val s).1
        ≡ keystore_get n part ns key' size s
  unfolding keystore_set
  keystore_set_ne part ns key key' val size s ne =
      guarded_same part ns key' size (hap_platform_keystore_set n part ns key val s.flash) s
        (platform_set_ne n part ns key key' val s.flash ne)

  -- After a call of __hap_keystore_set that succeeds, __hap_keystore_get reads back the value, if
  -- the receiving array has room for it, and the other keys of the namespace read as before.
  pub keystore_get-keystore_set :
      (part ns key : Text) (val : List ℕ) (size : ℕ) (s : KeystoreState n)
      → (keystore_set n part ns key val s).0 ≡ true
      → length val ≤ size
      → let s' = (keystore_set n part ns key val s).1 in
        (keystore_get n part ns key size s' ≡ some val)
        × ((key' : Text)
            → key ≢ key'
            → keystore_get n part ns key' size s' ≡ keystore_get n part ns key' size s)
  unfolding keystore_set
  keystore_get-keystore_set part ns key val size s ok fits = (
    guarded_value part ns key size (some val) (hap_platform_keystore_set n part ns key val s.flash)
          s ok (platform_set_some n part ns key val s.flash)
        ∙ room-some size val fits,
    λ key' ne. keystore_set_ne part ns key key' val size s ne,
  )

  guarded_partition :
      (r : Bool × Flash) (s : KeystoreState n) → (guarded n r s).1.nvs_partition ≡ s.nvs_partition
  guarded_partition r s = elim (guarded_cases r s) [
    | inr e ↦ ap (λ (x : Bool × KeystoreState n). x.1.nvs_partition) e
    | inl (done, e) ↦ ap (λ (x : Bool × KeystoreState n). x.1.nvs_partition) e
  ]

  hap_keystore_get_at :
      (ns key : Text) (size : ℕ) (r : Bool × Flash) (s : KeystoreState n)
      → hap_keystore_get n ns key size (guarded n r s).1
        ≡ keystore_get n s.nvs_partition ns key size (guarded n r s).1
  unfolding hap_keystore_get
  hap_keystore_get_at ns key size r s =
      ap (λ part. keystore_get n part ns key size (guarded n r s).1) (guarded_partition r s)

  pub hap_keystore_set-some :
      (ns key : Text) (val : List ℕ) (size : ℕ) (s : KeystoreState n)
      → (hap_keystore_set n ns key val s).0 ≡ true
      → length val ≤ size
      → hap_keystore_get n ns key size (hap_keystore_set n ns key val s).1 ≡ some val
  unfolding hap_keystore_set keystore_set
  hap_keystore_set-some ns key val size s ok fits =
      hap_keystore_get_at ns key size
        (hap_platform_keystore_set n s.nvs_partition ns key val s.flash) s
      ∙ (keystore_get-keystore_set s.nvs_partition ns key val size s ok fits).0

  pub hap_keystore_set_ne :
      (ns key key' : Text) (val : List ℕ) (size : ℕ) (s : KeystoreState n)
      → key ≢ key'
      → hap_keystore_get n ns key' size (hap_keystore_set n ns key val s).1
        ≡ hap_keystore_get n ns key' size s
  unfolding hap_keystore_get hap_keystore_set keystore_set
  hap_keystore_set_ne ns key key' val size s ne =
      hap_keystore_get_at ns key' size
        (hap_platform_keystore_set n s.nvs_partition ns key val s.flash) s
      ∙ keystore_set_ne s.nvs_partition ns key key' val size s ne

  pub deleted_none :
      (ns key : Text) (size : ℕ) (s : KeystoreState n)
      → (hap_keystore_delete n ns key s).0 ≡ true
      → hap_keystore_get n ns key size (hap_keystore_delete n ns key s).1 ≡ none
  unfolding hap_keystore_delete
  deleted_none ns key size s ok =
      hap_keystore_get_at ns key size
        (hap_platform_keystore_delete n s.nvs_partition ns key s.flash) s
      ∙ guarded_value s.nvs_partition ns key size none
          (hap_platform_keystore_delete n s.nvs_partition ns key s.flash) s ok
          (platform_delete_none n s.nvs_partition ns key s.flash)

  pub deleted_ne :
      (ns key key' : Text) (size : ℕ) (s : KeystoreState n)
      → key ≢ key'
      → hap_keystore_get n ns key' size (hap_keystore_delete n ns key s).1
        ≡ hap_keystore_get n ns key' size s
  unfolding hap_keystore_get hap_keystore_delete
  deleted_ne ns key key' size s ne =
      hap_keystore_get_at ns key' size
        (hap_platform_keystore_delete n s.nvs_partition ns key s.flash) s
      ∙ guarded_same s.nvs_partition ns key' size
          (hap_platform_keystore_delete n s.nvs_partition ns key s.flash) s
          (platform_delete_ne n s.nvs_partition ns key key' s.flash ne)

  -- After a call of hap_keystore_delete that succeeds, hap_keystore_get finds nothing under the
  -- key, and the other keys of the namespace read as before.
  pub hap_keystore_get-hap_keystore_delete :
      (ns key : Text) (size : ℕ) (s : KeystoreState n)
      → (hap_keystore_delete n ns key s).0 ≡ true
      → let s' = (hap_keystore_delete n ns key s).1 in
        (hap_keystore_get n ns key size s' ≡ none)
        × ((key' : Text)
            → key ≢ key'
            → hap_keystore_get n ns key' size s' ≡ hap_keystore_get n ns key' size s)
  hap_keystore_get-hap_keystore_delete ns key size s ok =
      (deleted_none ns key size s ok, λ key' ne. deleted_ne ns key key' size s ne)

-- The key store as the controllers use it.
abbrev pub nvs_keystore : Nvs → Keystore
nvs_keystore n = record {
  Store = KeystoreState n;
  get = hap_keystore_get n;
  set = hap_keystore_set n;
  delete = hap_keystore_delete n;
  delete_namespace = hap_keystore_delete_namespace n;
  get-set = hap_keystore_set-some n;
  get-delete = deleted_none n;
  get-set_ne = hap_keystore_set_ne n;
  get-delete_ne = deleted_ne n;
}
