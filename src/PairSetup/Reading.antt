-- ===== src/PairSetup/Reading.antt =====
-- esp_hap_pair_setup.c: what the fifth message writes into the slot of the controller.
use nina_fw_homekit.Prelude.{
  ℕ, zero, suc, ◌<◌, ◌≡◌, refl, sym, ap, ◌∙◌, arith, some, List, [], ◌∷◌, ◌++◌, append_assoc,
  length, drop, set, length-append, length-drop, take-append_eq, drop-append_eq, take_all, inl, inr,
  Option-cases, Bool-cases, ==_iff, ◌==◌,
}
use nina_fw_homekit.Prelude.Strings.{overlay}
use nina_fw_homekit.HapPriv.{CtrlInfo}
use nina_fw_homekit.Tlv.{get_value_from_tlv, tlv_identifier, tlv_public_key, tlv_signature}
use nina_fw_homekit.PairSetup.Exchange.{terminate_id, read_ltpk, read_controller}

set_behind : (xs ys : List ℕ) (y v : ℕ) → set (xs ++ y ∷ ys) (length xs) v ≡ xs ++ v ∷ ys
set_behind [] ys y v = refl
set_behind (x ∷ xs) ys y v = ap (λ zs. x ∷ zs) (set_behind xs ys y v)

drop_step : (n : ℕ) (xs : List ℕ) → n < length xs → (x : ℕ) × (drop n xs ≡ x ∷ drop (suc n) xs)
drop_step n [] h = absurd (omega arith)
drop_step zero (x ∷ xs) h = (x, refl)
drop_step (suc n) (x ∷ xs) h = drop_step n xs (omega arith)

-- A slot after a name and a key have been read into it.
abbrev pub filled : List ℕ → List ℕ → CtrlInfo → CtrlInfo
filled name key info = record info { id = name ++ 0 ∷ drop (suc (length name)) info.id; ltpk = key }

-- The terminator of a name that is shorter than its array stands behind the name.
pub terminate_id_lem :
    (name key : List ℕ) (info : CtrlInfo)
    → length name < 64
    → length info.id ≡ 64
    → length key ≡ 32
    → terminate_id (length name) (record info { id = overlay name info.id; ltpk = key })
      ≡ filled name key info
unfolding terminate_id overlay
terminate_id_lem name key info short hid hkey =
    let n = length name in
    let (x, step) = drop_step n info.id (omega arith) in
    let id = name ++ 0 ∷ drop (suc n) info.id in
    let size : 64 ≡ length id =
      omega (arith, length-append name (0 ∷ drop (suc n) info.id), length-drop (suc n) info.id) in
    let written : set ((name ++ drop n info.id) ++ key) n 0 ≡ id ++ key =
      ap (λ b. set b n 0)
        (append_assoc name (drop n info.id) key ∙ ap (λ b. name ++ (b ++ key)) step)
      ∙ set_behind name (drop (suc n) info.id ++ key) x 0
      ∙ sym (append_assoc name (0 ∷ drop (suc n) info.id) key) in
    rw
      (
        written,
        take-append_eq 64 id key size,
        drop-append_eq 64 id key size,
        take_all 32 key (omega arith),
      )
      refl

-- A message that is read whole.
pub read_controller-some :
    (m : List ℕ) (info info' : CtrlInfo) {n : ℕ} {signature : List ℕ}
    → read_controller m info ≡ (info', some (n, signature))
    → (name : List ℕ) × (key : List ℕ) × (get_value_from_tlv m (length m) tlv_identifier 64
        ≡ some name)
      × (get_value_from_tlv m (length m) tlv_public_key 32 ≡ some key)
      × (length key ≡ 32)
      × (get_value_from_tlv m (length m) tlv_signature 64 ≡ some signature)
      × (length signature ≡ 64)
      × (n ≡ length name)
      × (info'
          ≡ terminate_id
              (length name)
              (record info { id = overlay name info.id; ltpk = overlay key info.ltpk }))
unfolding read_controller read_ltpk
read_controller-some m info info' {signature} h =
    elim (Option-cases (get_value_from_tlv m (length m) tlv_identifier 64)) [
      | inl e ↦ let g = rw (e, read_controller) at h in cc
      | inr (name, e) ↦ elim (Option-cases (get_value_from_tlv m (length m) tlv_public_key 32)) [
        | inl f ↦ let g = rw (e, f, read_controller, read_ltpk) at h in cc
        | inr (key, f) ↦ elim (Option-cases (get_value_from_tlv m (length m) tlv_signature 64)) [
          | inl s ↦ let g = rw (e, f, s, read_controller, read_ltpk) at h in cc
          | inr (sig, s) ↦ elim (Bool-cases (length key == 32)) [
            | inl k32 ↦ elim (Bool-cases (length sig == 64)) [
              | inl s64 ↦
                  let g = rw (e, f, s, k32, s64, read_controller, read_ltpk) at h in
                  let same : sig ≡ signature = cc in
                  (
                    name,
                    key,
                    e,
                    f,
                    (==_iff (length key) 32).0 k32,
                    s ∙ ap some same,
                    ap length (sym same) ∙ (==_iff (length sig) 64).0 s64,
                    cc,
                    cc,
                  )
              | inr bad ↦ let g = rw (e, f, s, k32, bad, read_controller, read_ltpk) at h in cc
            ]
            | inr bad ↦ let g = rw (e, f, s, bad, read_controller, read_ltpk) at h in cc
          ]
        ]
      ]
    ]
