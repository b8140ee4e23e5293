-- ===== src/Tests/MemoryStore.antt =====
-- A key store in memory that never fails: an instance of the interface.
use nina_fw_homekit.Prelude.{
  ℕ, ◌≤◌, ◌≡◌, ◌≢◌, inl, inr, refl, ap, ◌∙◌, arith, true, ◌&&◌, Option, none, some, List, length,
  leb, if◌then◌else◌, Bool-cases,
}
use nina_fw_homekit.Prelude.Strings.{bytes_eq, bytes_eq_refl, bytes_eq→eq}
use nina_fw_homekit.Keystore.{Keystore, Text}

abbrev pub Memory : Type 0
Memory = Text → Text → Option (List ℕ)

-- A value fits the array that receives it.
abbrev pub fit : ℕ → Option (List ℕ) → Option (List ℕ)
fit size none = none
fit size (some v) = if leb (length v) size then some v else none

abbrev pub write : Text → Text → Option (List ℕ) → Memory → Memory
write ns key v m ns' key' = if bytes_eq key key' && bytes_eq ns ns' then v else m ns' key'

pub write_self : (ns key : Text) (v : Option (List ℕ)) (m : Memory) → write ns key v m ns key ≡ v
write_self ns key v m = rw (bytes_eq_refl key, bytes_eq_refl ns)

pub write_ne :
    (ns key key' : Text) (v : Option (List ℕ)) (m : Memory)
    → key ≢ key'
    → write ns key v m ns key' ≡ m ns key'
write_ne ns key key' v m h = elim (Bool-cases (bytes_eq key key')) [
  | inl e ↦ absurd (h (bytes_eq→eq key key' e))
  | inr e ↦ rw e refl
]

pub fit-some : (size : ℕ) (v : List ℕ) → length v ≤ size → fit size (some v) ≡ some v
fit-some size v h = ground arith

abbrev pub memory_store : Keystore
memory_store = record {
  Store = Memory;
  get = λ ns key size m. fit size (m ns key);
  set = λ ns key v m. (true, write ns key (some v) m);
  delete = λ ns key m. (true, write ns key none m);
  delete_namespace = λ ns m. (true, λ ns' key. if bytes_eq ns ns' then none else m ns' key);
  get-set = λ ns key v size m w h. ap (fit size) (write_self ns key (some v) m) ∙ fit-some size v h;
  get-delete = λ ns key size m w. ap (fit size) (write_self ns key none m);
  get-set_ne = λ ns key key' v size m h. ap (fit size) (write_ne ns key key' (some v) m h);
  get-delete_ne = λ ns key key' size m h. ap (fit size) (write_ne ns key key' none m h);
}
