-- ===== src/Tests/Flash.antt =====
-- An NVS library in memory, and the key store on top of it.
use nina_fw_homekit.Prelude.{
  ℕ, ◌≡◌, false, ◌≢◌, inl, inr, refl, sym, ap, arith, true, ◌&&◌, Option, none, some, some_inj,
  List, [], ◌∷◌, Bool-cases, if◌then◌else◌,
}
use nina_fw_homekit.Prelude.Strings.{bytes_eq, bytes_eq_refl, bytes_eq→eq}
use nina_fw_homekit.Keystore.{Text}
use nina_fw_homekit.Nvs.{
  hap_keystore_init, init_factory, hap_platform_keystore_init_partition, retried, is_ok,
  hap_platform_keystore_get, esp_ok, Nvs, room, KeystoreState, keystore_get, keystore_set,
  hap_keystore_delete, hap_platform_keystore_set, hap_platform_keystore_delete, with_handle,
  committed, guarded,
}
use nina_fw_homekit.Nvs.Starting.{hap_keystore_init_lem}
use nina_fw_homekit.Nvs.Implementation.{keystore_get-keystore_set}

-- By partition, namespace and key.
abbrev pub Cells : Type 0
Cells = Text → Text → Text → Option (List ℕ)

abbrev pub put : Text × Text → Text → Option (List ℕ) → Cells → Cells
put h key v m part ns key' =
    if bytes_eq key key' && (bytes_eq h.0 part && bytes_eq h.1 ns) then v else m part ns key'

pub put_self :
    (h : Text × Text) (key : Text) (v : Option (List ℕ)) (m : Cells) → put h key v m h.0 h.1 key ≡ v
put_self h key v m = rw (bytes_eq_refl key, bytes_eq_refl h.0, bytes_eq_refl h.1)

pub put_ne :
    (h : Text × Text) (key key' : Text) (v : Option (List ℕ)) (m : Cells)
    → key ≢ key'
    → put h key v m h.0 h.1 key' ≡ m h.0 h.1 key'
put_ne h key key' v m ne = elim (Bool-cases (bytes_eq key key')) [
  | inl e ↦ absurd (ne (bytes_eq→eq key key' e))
  | inr e ↦ rw e refl
]

pub some_handle : (h : Text × Text) → some h ≢ none
some_handle h e = cc e

abbrev pub cells : Nvs
cells = record {
  Flash = Cells;
  Handle = Text × Text;
  part_of = λ h. h.0;
  ns_of = λ h. h.1;
  content = λ part ns key m. m part ns key;
  nvs_flash_init_partition = λ part m. (esp_ok, m);
  nvs_flash_erase_partition =
      λ part m. (true, λ part' ns key. if bytes_eq part part' then none else m part' ns key);
  nvs_open_from_partition = λ part ns w m. (some (part, ns), m);
  nvs_get_blob = λ h key size m. room size (m h.0 h.1 key);
  nvs_set_blob = λ h key v m. (true, put h key (some v) m);
  nvs_erase_key = λ h key m. (true, put h key none m);
  nvs_erase_all = λ h m.
      (true, λ part ns key. if bytes_eq h.0 part && bytes_eq h.1 ns then none else m part ns key);
  nvs_commit = λ h m. m;
  open-part = λ part ns w m h e. ap (λ (x : Text × Text). x.0) (sym (some_inj e));
  open-ns = λ part ns w m h e. ap (λ (x : Text × Text). x.1) (sym (some_inj e));
  open-content = λ part ns w m part' ns' key. refl;
  open_absent = λ part ns key m e. absurd (some_handle (part, ns) e);
  get_blob-content = λ h key size m. refl;
  set_blob-content = λ h key v m ok. put_self h key (some v) m;
  set_blob-content_ne = λ h key key' v m ne. put_ne h key key' (some v) m ne;
  erase_key-content = λ h key m ok. put_self h key none m;
  erase_key-content_ne = λ h key key' m ne. put_ne h key key' none m ne;
  commit-content = λ h m part ns key. refl;
}

abbrev ready : KeystoreState cells
ready = record {
  keystore_init_done = true;
  nvs_partition = b'n' ∷ [];
  factory_nvs_partition = b'f' ∷ [];
  flash = λ part ns key. none;
}

abbrev zero_key : Text
zero_key = b'0' ∷ []

abbrev ctrl : Text
ctrl = b'c' ∷ []

stored : (keystore_set cells ctrl ctrl zero_key (7 ∷ []) ready).0 ≡ true
unfolding keystore_set guarded hap_platform_keystore_set with_handle committed
stored = refl

keystore_get-keystore_set_example :
    let s' = (keystore_set cells ctrl ctrl zero_key (7 ∷ []) ready).1 in
    (keystore_get cells ctrl ctrl zero_key 97 s' ≡ some (7 ∷ []))
    × ((key' : Text)
        → zero_key ≢ key'
        → keystore_get cells ctrl ctrl key' 97 s' ≡ keystore_get cells ctrl ctrl key' 97 ready)
keystore_get-keystore_set_example =
    keystore_get-keystore_set cells ctrl ctrl zero_key (7 ∷ []) 97 ready stored (omega arith)

deleted : (hap_keystore_delete cells ctrl zero_key ready).0 ≡ true
unfolding hap_keystore_delete guarded hap_platform_keystore_delete with_handle committed
deleted = refl

abbrev unready : KeystoreState cells
unready = record ready {
  keystore_init_done = false;
  nvs_partition = [];
  factory_nvs_partition = [];
}

started : hap_keystore_init cells (b'n' ∷ []) (b'f' ∷ []) unready ≡ some (true, ready)
unfolding hap_keystore_init init_factory hap_platform_keystore_init_partition retried is_ok
started = refl

hap_keystore_init_lem_example :
    (ready.keystore_init_done ≡ true)
    × ((part' ns key : Text) (size : ℕ)
        → keystore_get cells part' ns key size ready
          ≡ hap_platform_keystore_get cells part' ns key size ready.flash)
    × ((part' ns key : Text) (val : List ℕ)
        → (keystore_set cells part' ns key val ready).0
          ≡ (hap_platform_keystore_set cells part' ns key val ready.flash).0)
hap_keystore_init_lem_example =
    hap_keystore_init_lem cells (b'n' ∷ []) (b'f' ∷ []) unready ready true started
