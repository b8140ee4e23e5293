-- ===== src/Keystore.antt =====
-- What the controllers need of the key store (esp_hap_keystore.c). Names are C strings, and a value
-- is the list of its bytes.
use nina_fw_homekit.Prelude.{ℕ, ◌≤◌, ◌≡◌, ◌≢◌, Bool, true, Option, none, some, List, length}

abbrev pub Text : Type 0
Text = List ℕ

pub record Keystore : Type 1 where
  pub Store : Type 0
  -- `hap_keystore_get` with the size of the receiving array
  pub get : Text → Text → ℕ → Store → Option (List ℕ)
  -- `hap_keystore_set`, `hap_keystore_delete` and `hap_keystore_delete_namespace`: whether they
  -- return HAP_SUCCESS
  pub set : Text → Text → List ℕ → Store → Bool × Store
  pub delete : Text → Text → Store → Bool × Store
  pub delete_namespace : Text → Store → Bool × Store
  -- A value that is stored is read back, if the array has room for it.
  pub get-set :
      (ns key : Text) (val : List ℕ) (size : ℕ) (s : Store)
      → (set ns key val s).0 ≡ true
      → length val ≤ size
      → get ns key size (set ns key val s).1 ≡ some val
  -- A value that is deleted is not read back.
  pub get-delete :
      (ns key : Text) (size : ℕ) (s : Store)
      → (delete ns key s).0 ≡ true
      → get ns key size (delete ns key s).1 ≡ none
  -- The other keys of the namespace keep their values, whether the call succeeds or not.
  pub get-set_ne :
      (ns key key' : Text) (val : List ℕ) (size : ℕ) (s : Store)
      → key ≢ key'
      → get ns key' size (set ns key val s).1 ≡ get ns key' size s
  pub get-delete_ne :
      (ns key key' : Text) (size : ℕ) (s : Store)
      → key ≢ key'
      → get ns key' size (delete ns key s).1 ≡ get ns key' size s
