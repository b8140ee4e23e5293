-- ===== src/Tests/Accessory.antt =====
-- An accessory with an administrator "A" and a user "B", and a session of each.
use nina_fw_homekit.Prelude.{
  if◌then◌else◌, ◌==◌, ℕ, zero, suc, ◌+◌, ◌≡◌, ◌⊎◌, inl, inr, refl, sym, ap, ◌∙◌, arith, true,
  Option, none, some, List, [], ◌∷◌, replicate, get_or,
}
use nina_fw_homekit.Prelude.Strings.{c_string}
use nina_fw_homekit.HapPriv.{HapPriv, CtrlInfo, CtrlData, Session, slot, empty_slot, state_verified}
use nina_fw_homekit.Pairings.Tables.{UniqueIds}
use nina_fw_homekit.Tests.MemoryStore.{Memory}

abbrev pub named : ℕ → ℕ → CtrlInfo
named letter perms = record {
  id = letter ∷ replicate 63 0;
  ltpk = replicate 32 letter;
  perms = perms;
}

abbrev pub table : List CtrlData
table =
    record { info = named b'A' 1; valid = true; index = 0 }
    ∷ record { info = named b'B' 0; valid = true; index = 1 }
    ∷ replicate 14 empty_slot

-- The session at address `a` belongs to the controller at index `a`.
abbrev pub session_at : ℕ → Session
session_at a = record {
  state = state_verified;
  encrypt_key = [];
  decrypt_key = [];
  encrypt_nonce = replicate 8 0;
  decrypt_nonce = replicate 8 0;
  ctrl = a;
  pid = 0;
  ttl = 0;
  prepare_time = 0;
  conn_identifier = 50 + a;
}

abbrev pub slots : List (Option ℕ)
slots = some 0 ∷ some 1 ∷ replicate 6 none

abbrev pub accessory : HapPriv Memory
accessory = record {
  controllers = table;
  sessions = slots;
  heap = session_at;
  chains = ((5 ∷ []) ∷ (6 ∷ []) ∷ []) ∷ [];
  ev_ctrls = λ c. if c == 5 then 3 else 2;
  disconnected_event_sent = true;
  acc_id = b'4' ∷ b'2' ∷ 0 ∷ [];
  ltska = replicate 32 5;
  ltpka = replicate 32 6;
  pair_attempts = 0;
  pairing_flags = 0;
  config_num = 1;
  cur_aid = 1;
  state_num = 1;
  store = λ ns key. none;
  effects = [];
}

pub get_or-replicate {ℓ} : {A : Type ℓ} (n : ℕ) (a : A) (i : ℕ) → get_or (replicate n a) i a ≡ a
get_or-replicate zero a i = refl
get_or-replicate (suc n) a zero = refl
get_or-replicate (suc n) a (suc i) = get_or-replicate n a i

valid_slots : (i : ℕ) → (slot table i).valid ≡ true → (i ≡ 0) ⊎ (i ≡ 1)
valid_slots zero v = inl refl
valid_slots (suc zero) v = inr refl
valid_slots (suc (suc i)) v =
    absurd (cc (v, ap (λ (c : CtrlData). c.valid) (get_or-replicate 14 empty_slot i)))

name_at : ℕ → List ℕ
name_at i = c_string (slot table i).info.id

names_differ : (name_at 0 ≡ b'A' ∷ []) × (name_at 1 ≡ b'B' ∷ [])
unfolding name_at c_string
names_differ = (refl, refl)

letters_apart : ◌≡◌ {A = List ℕ} (b'A' ∷ []) (b'B' ∷ []) → ⊥
letters_apart e =
    let n : ◌≡◌ {A = ℕ} b'A' b'B' = ap (λ (xs : List ℕ). get_or xs 0 0) e in omega arith

pub table-UniqueIds : UniqueIds table
unfolding name_at
table-UniqueIds i j hi hj vi vj same = elim (valid_slots i vi) [
  | inl i0 ↦ elim (valid_slots j vj) [
    | inl j0 ↦ i0 ∙ sym j0
    | inr j1 ↦ absurd (
        letters_apart
          (sym names_differ.0 ∙ sym (ap name_at i0) ∙ same ∙ ap name_at j1 ∙ names_differ.1))
  ]
  | inr i1 ↦ elim (valid_slots j vj) [
    | inl j0 ↦ absurd (
        letters_apart
          (sym (sym names_differ.1 ∙ sym (ap name_at i1) ∙ same ∙ ap name_at j0 ∙ names_differ.0)))
    | inr j1 ↦ i1 ∙ sym j1
  ]
]
