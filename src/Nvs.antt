-- ===== src/Nvs.antt =====
-- esp_hap_keystore.c and, below it, hap_platform_keystore.c: named values in the flash, on top of
-- the NVS library of the platform.
pub mod Content
pub mod Implementation
pub mod Starting
use nina_fw_homekit.Prelude.{
  ℕ, ◌≤◌, ◌≡◌, ◌≢◌, Bool, true, false, not, Option, none, some, List, length, leb, if◌then◌else◌,
}
use nina_fw_homekit.Keystore.{Text}

-- A value is read if the receiving array has room for it.
abbrev pub room : ℕ → Option (List ℕ) → Option (List ℕ)
room size none = none
room size (some v) = if leb (length v) size then some v else none

-- What the initialisation of a partition returns: ESP_OK, ESP_ERR_NVS_NO_FREE_PAGES or another.
pub data EspErr : Type 0 where
  esp_ok : EspErr
  no_free_pages : EspErr
  esp_fail : EspErr

-- What the code relies on of the NVS library, once a partition is initialised and as long as there
-- is memory for handles. `content` is the value of a key: of a partition and of a namespace in it.
-- A test is whether the call returns ESP_OK.
pub record Nvs : Type 1 where
  pub Flash : Type 0
  pub Handle : Type 0
  pub part_of : Handle → Text
  pub ns_of : Handle → Text
  pub content : Text → Text → Text → Flash → Option (List ℕ)
  pub nvs_flash_init_partition : Text → Flash → EspErr × Flash
  pub nvs_flash_erase_partition : Text → Flash → Bool × Flash
  -- The test says whether the namespace is opened for writing.
  pub nvs_open_from_partition : Text → Text → Bool → Flash → Option Handle × Flash
  pub nvs_get_blob : Handle → Text → ℕ → Flash → Option (List ℕ)
  pub nvs_set_blob : Handle → Text → List ℕ → Flash → Bool × Flash
  pub nvs_erase_key : Handle → Text → Flash → Bool × Flash
  pub nvs_erase_all : Handle → Flash → Bool × Flash
  pub nvs_commit : Handle → Flash → Flash
  pub open-part :
      (part ns : Text) (w : Bool) (fl : Flash) (h : Handle)
      → (nvs_open_from_partition part ns w fl).0 ≡ some h
      → part_of h ≡ part
  pub open-ns :
      (part ns : Text) (w : Bool) (fl : Flash) (h : Handle)
      → (nvs_open_from_partition part ns w fl).0 ≡ some h
      → ns_of h ≡ ns
  pub open-content :
      (part ns : Text) (w : Bool) (fl : Flash) (part' ns' key : Text)
      → content part' ns' key (nvs_open_from_partition part ns w fl).1 ≡ content part' ns' key fl
  -- Opening for reading fails only for a namespace that is not there.
  pub open_absent :
      (part ns key : Text) (fl : Flash)
      → (nvs_open_from_partition part ns false fl).0 ≡ none
      → content part ns key fl ≡ none
  pub get_blob-content :
      (h : Handle) (key : Text) (size : ℕ) (fl : Flash)
      → nvs_get_blob h key size fl ≡ room size (content (part_of h) (ns_of h) key fl)
  pub set_blob-content :
      (h : Handle) (key : Text) (v : List ℕ) (fl : Flash)
      → (nvs_set_blob h key v fl).0 ≡ true
      → content (part_of h) (ns_of h) key (nvs_set_blob h key v fl).1 ≡ some v
  pub set_blob-content_ne :
      (h : Handle) (key key' : Text) (v : List ℕ) (fl : Flash)
      → key ≢ key'
      → content (part_of h) (ns_of h) key' (nvs_set_blob h key v fl).1
        ≡ content (part_of h) (ns_of h) key' fl
  pub erase_key-content :
      (h : Handle) (key : Text) (fl : Flash)
      → (nvs_erase_key h key fl).0 ≡ true
      → content (part_of h) (ns_of h) key (nvs_erase_key h key fl).1 ≡ none
  pub erase_key-content_ne :
      (h : Handle) (key key' : Text) (fl : Flash)
      → key ≢ key'
      → content (part_of h) (ns_of h) key' (nvs_erase_key h key fl).1
        ≡ content (part_of h) (ns_of h) key' fl
  pub commit-content :
      (h : Handle) (fl : Flash) (part ns key : Text)
      → content part ns key (nvs_commit h fl) ≡ content part ns key fl

module _ (n : Nvs) where
  open n use {
    Flash, Handle, nvs_open_from_partition, nvs_get_blob, nvs_set_blob, nvs_erase_key,
    nvs_erase_all, nvs_commit, nvs_flash_init_partition, nvs_flash_erase_partition,
  }

  -- `hap_platform_keystore_get`; `none` is -1.
  unfoldable pub hap_platform_keystore_get : Text → Text → Text → ℕ → Flash → Option (List ℕ)
  hap_platform_keystore_get part ns key size fl =
      elim (nvs_open_from_partition part ns false fl).0 [
        | none ↦ none
        | some h ↦ nvs_get_blob h key size (nvs_open_from_partition part ns false fl).1
      ]

  -- The commit, whose result is not looked at, after a change that succeeds.
  unfoldable pub committed : Handle → Bool × Flash → Bool × Flash
  committed h (ok, fl) = (ok, if ok then nvs_commit h fl else fl)

  -- A change through a handle that is opened for writing.
  unfoldable pub with_handle : (Handle → Flash → Bool × Flash) → Text → Text → Flash → Bool × Flash
  with_handle change part ns fl = elim (nvs_open_from_partition part ns true fl).0 [
    | none ↦ (false, (nvs_open_from_partition part ns true fl).1)
    | some h ↦ committed h (change h (nvs_open_from_partition part ns true fl).1)
  ]

  unfoldable pub hap_platform_keystore_set : Text → Text → Text → List ℕ → Flash → Bool × Flash
  hap_platform_keystore_set part ns key val = with_handle (λ h. nvs_set_blob h key val) part ns

  unfoldable pub hap_platform_keystore_delete : Text → Text → Text → Flash → Bool × Flash
  hap_platform_keystore_delete part ns key = with_handle (λ h. nvs_erase_key h key) part ns

  unfoldable pub hap_platform_keystore_delete_namespace : Text → Text → Flash → Bool × Flash
  hap_platform_keystore_delete_namespace part ns = with_handle nvs_erase_all part ns

  -- The static variables of esp_hap_keystore.c, with the flash.
  pub record KeystoreState : Type 0 where
    pub keystore_init_done : Bool
    pub nvs_partition : Text
    pub factory_nvs_partition : Text
    pub flash : Flash

  -- `__hap_keystore_get`, `__hap_keystore_set`
  unfoldable pub keystore_get : Text → Text → Text → ℕ → KeystoreState → Option (List ℕ)
  keystore_get part ns key size s =
      if s.keystore_init_done then hap_platform_keystore_get part ns key size s.flash else none

  unfoldable pub guarded : Bool × Flash → KeystoreState → Bool × KeystoreState
  guarded (ok, fl) s = if s.keystore_init_done then (ok, record s { flash = fl }) else (false, s)

  unfoldable pub keystore_set : Text → Text → Text → List ℕ → KeystoreState → Bool × KeystoreState
  keystore_set part ns key val s = guarded (hap_platform_keystore_set part ns key val s.flash) s

  unfoldable pub hap_keystore_get : Text → Text → ℕ → KeystoreState → Option (List ℕ)
  hap_keystore_get ns key size s = keystore_get s.nvs_partition ns key size s

  unfoldable pub hap_factory_keystore_get : Text → Text → ℕ → KeystoreState → Option (List ℕ)
  hap_factory_keystore_get ns key size s = keystore_get s.factory_nvs_partition ns key size s

  unfoldable pub hap_keystore_set : Text → Text → List ℕ → KeystoreState → Bool × KeystoreState
  hap_keystore_set ns key val s = keystore_set s.nvs_partition ns key val s

  unfoldable pub hap_factory_keystore_set :
      Text → Text → List ℕ → KeystoreState → Bool × KeystoreState
  hap_factory_keystore_set ns key val s = keystore_set s.factory_nvs_partition ns key val s

  unfoldable pub hap_keystore_delete : Text → Text → KeystoreState → Bool × KeystoreState
  hap_keystore_delete ns key s =
      guarded (hap_platform_keystore_delete s.nvs_partition ns key s.flash) s

  unfoldable pub hap_keystore_delete_namespace : Text → KeystoreState → Bool × KeystoreState
  hap_keystore_delete_namespace ns s =
      guarded (hap_platform_keystore_delete_namespace s.nvs_partition ns s.flash) s

  -- `err == ESP_OK`
  unfoldable pub is_ok : EspErr → Bool
  is_ok esp_ok = true
  is_ok no_free_pages = false
  is_ok esp_fail = false

  -- The second attempt at a partition that is to be written; `none` is the abort of
  -- ESP_ERROR_CHECK.
  unfoldable pub retried : Text → EspErr → Flash → Option (Bool × Flash)
  retried part esp_ok fl = some (true, fl)
  retried part esp_fail fl = some (false, fl)
  retried part no_free_pages fl =
      let (erased, fl1) = nvs_flash_erase_partition part fl in
      let (err, fl2) = nvs_flash_init_partition part fl1 in
      if erased then some (is_ok err, fl2) else none

  -- `hap_platform_keystore_init_partition` without CONFIG_NVS_ENCRYPTION
  unfoldable pub hap_platform_keystore_init_partition : Text → Bool → Flash → Option (Bool × Flash)
  hap_platform_keystore_init_partition part read_only fl =
      let (err, fl1) = nvs_flash_init_partition part fl in
      if read_only then some (is_ok err, fl1) else retried part err fl1

  -- `hap_platfrom_keystore_erase_partition`
  unfoldable pub hap_platfrom_keystore_erase_partition : Text → Flash → Bool × Flash
  hap_platfrom_keystore_erase_partition part fl = nvs_flash_erase_partition part fl

  -- The end of `hap_keystore_init`: the factory partition may be absent.
  unfoldable pub init_factory : Text → KeystoreState → Option (Bool × KeystoreState)
  init_factory factory s = elim (hap_platform_keystore_init_partition factory true s.flash) [
    | none ↦ none
    | some (ok, fl) ↦
        some (
          true,
          record s { keystore_init_done = true; factory_nvs_partition = factory; flash = fl },
        )
  ]

  -- `hap_keystore_init`, with the names of the partitions from the configuration
  unfoldable pub hap_keystore_init : Text → Text → KeystoreState → Option (Bool × KeystoreState)
  hap_keystore_init part factory s =
      if s.keystore_init_done
      then some (true, s)
      else elim (hap_platform_keystore_init_partition part false s.flash) [
        | none ↦ none
        | some (false, fl) ↦ some (false, record s { nvs_partition = part; flash = fl })
        | some (true, fl) ↦ init_factory factory (record s { nvs_partition = part; flash = fl })
      ]

  -- `hap_keystore_erase_all_data`
  unfoldable pub hap_keystore_erase_all_data : KeystoreState → KeystoreState
  hap_keystore_erase_all_data s = record s {
    flash = (hap_platfrom_keystore_erase_partition s.nvs_partition s.flash).1;
  }
