-- ===== src/Nvs/Starting.antt =====
-- esp_hap_keystore.c: the key store before and after its initialisation.
use nina_fw_homekit.Prelude.{
  ℕ, ◌≡◌, inl, inr, refl, sym, ap, ◌∙◌, Bool, true, false, Option, none, some, some_inj, List,
  Bool-cases, Option-cases, if◌then◌else◌,
}
use nina_fw_homekit.Keystore.{Text}
use nina_fw_homekit.Nvs.{
  Nvs, KeystoreState, hap_keystore_init, init_factory, hap_platform_keystore_init_partition,
  keystore_get, keystore_set, guarded, hap_platform_keystore_get, hap_platform_keystore_set,
}

module _ (n : Nvs) where
  -- The flag says what the call has returned.
  IsFlagged : Option (Bool × KeystoreState n) → Type 0
  IsFlagged r = (ok : Bool) (s : KeystoreState n) → r ≡ some (ok, s) → s.keystore_init_done ≡ ok

  some-IsFlagged :
      (ok : Bool) (s : KeystoreState n) → s.keystore_init_done ≡ ok → IsFlagged (some (ok, s))
  unfolding IsFlagged
  some-IsFlagged ok s e ok' s' same =
      let pair = some_inj same in
      sym (ap (λ (x : Bool × KeystoreState n). x.1.keystore_init_done) pair)
      ∙ e
      ∙ ap (λ (x : Bool × KeystoreState n). x.0) pair

  none-IsFlagged : IsFlagged none
  unfolding IsFlagged
  none-IsFlagged ok s e = absurd (cc e)

  init_factory-IsFlagged :
      (factory : Text) (s : KeystoreState n) → IsFlagged (init_factory n factory s)
  unfolding init_factory
  init_factory-IsFlagged factory s =
      elim (Option-cases (hap_platform_keystore_init_partition n factory true s.flash)) [
        | inl e ↦ rw (e, init_factory) none-IsFlagged
        | inr ((ok, fl), e) ↦ rw (e, init_factory) (some-IsFlagged true _ refl)
      ]

  init-IsFlagged :
      (part factory : Text) (s : KeystoreState n) → IsFlagged (hap_keystore_init n part factory s)
  unfolding hap_keystore_init
  init-IsFlagged part factory s = elim (Bool-cases s.keystore_init_done) [
    | inl done ↦ rw done (some-IsFlagged true _ refl)
    | inr undone ↦ elim (Option-cases (hap_platform_keystore_init_partition n part false s.flash)) [
      | inl e ↦ rw (undone, e, hap_keystore_init) none-IsFlagged
      | inr ((true, fl), e) ↦ rw (undone, e, hap_keystore_init) (init_factory-IsFlagged factory _)
      | inr ((false, fl), e) ↦ rw (undone, e, hap_keystore_init) (some-IsFlagged false _ undone)
    ]
  ]

  set_flagged :
      (part ns key : Text) (val : List ℕ) (s : KeystoreState n) (ok : Bool)
      → s.keystore_init_done ≡ ok
      → (keystore_set n part ns key val s).0
        ≡ (if ok then (hap_platform_keystore_set n part ns key val s.flash).0 else false)
  unfolding keystore_set guarded
  set_flagged part ns key val s true e = rw e refl
  set_flagged part ns key val s false e = rw e refl

  -- If hap_keystore_init returns, the flag of the key store says whether it has succeeded, and then
  -- reading goes to the flash and writing succeeds as the write to the flash does; if it has
  -- failed, reading finds nothing and writing fails, for every partition, namespace and key.
  pub hap_keystore_init_lem :
      (part factory : Text) (s s' : KeystoreState n) (ok : Bool)
      → hap_keystore_init n part factory s ≡ some (ok, s')
      → (s'.keystore_init_done ≡ ok)
        × ((part' ns key : Text) (size : ℕ)
            → keystore_get n part' ns key size s'
              ≡ (if ok then hap_platform_keystore_get n part' ns key size s'.flash else none))
        × ((part' ns key : Text) (val : List ℕ)
            → (keystore_set n part' ns key val s').0
              ≡ (if ok then (hap_platform_keystore_set n part' ns key val s'.flash).0 else false))
  unfolding IsFlagged keystore_get keystore_set guarded
  hap_keystore_init_lem part factory s s' ok e =
      let flag = init-IsFlagged part factory s ok s' e in
      (
        flag,
        λ part' ns key size.
            ap (λ b. if b then hap_platform_keystore_get n part' ns key size s'.flash else none)
              flag,
        λ part' ns key val. set_flagged part' ns key val s' ok flag,
      )
