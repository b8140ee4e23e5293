-- ===== src/Tests/PairVerify.antt =====
-- An exchange with the administrator "A", with a cipher and curves that stand in for the libraries.
use nina_fw_homekit.Prelude.{
  ℕ, ◌+◌, ◌≤◌, ◌<◌, ◌≡◌, refl, ap, subst, arith, true, false, some_inj, Option, none, some, List,
  [], ◌∷◌, ◌++◌, replicate, length, length-replicate, get_or, ◌∙◌, sym,
}
use nina_fw_homekit.Prelude.Strings.{bytes_eq, bytes_eq_refl, c_string, overlay}
use nina_fw_homekit.Crypto.{Curves, sealed, unsealed, newnonce}
use nina_fw_homekit.PairVerify.{
  VerifyLocals, PairVerifyCtx, verifying, secured, new_context, new_session,
  hap_pair_verify_process, start_session, finished, finish_failed, pv_nonce2,
}
use nina_fw_homekit.PairVerify.Checks.{IsProved, IsSessionOf}
use nina_fw_homekit.PairVerify.Sound.{
  hap_pair_verify_process-IsProved, hap_pair_verify_process-false, process-finish, finish-inr,
}
use nina_fw_homekit.PairVerify.Complete.{
  m3, name_items, unsealed-sealed, process-m3, authenticate-m3,
}
use nina_fw_homekit.PairVerify.Exchange.{
  m1, m2, exchange_key, m2_context, hap_pair_verify_process_lem,
}
use nina_fw_homekit.Pairings.{Request, message, value_in, state_m4, error_unknown}
use nina_fw_homekit.Sessions.{hap_add_secure_session, set_session}
use nina_fw_homekit.Tlv.{
  tlv_state, tlv_identifier, tlv_encrypted_data, hap_prepare_error_tlv, get_value_from_tlv,
  get_value_loop,
}
use nina_fw_homekit.Tlv.Codec.{encode}
use nina_fw_homekit.Controllers.{hap_get_controller, find_slot}
use nina_fw_homekit.HapPriv.{HapPriv, Session, slot}
use nina_fw_homekit.Tests.Network.{plain_cipher}
use nina_fw_homekit.Tests.MemoryStore.{Memory}
use nina_fw_homekit.Tests.Accessory.{accessory, table}

abbrev pub head : List ℕ → ℕ
head b = get_or b 0 0

abbrev pub sum : List ℕ → ℕ
sum [] = 0
sum (b ∷ bs) = b + sum bs

-- A key is its first byte, and a point times a key is their sum.
abbrev pub point : ℕ → List ℕ
point n = replicate 32 n

pub toy_shared :
    (base a b pa pb : List ℕ)
    → some (point (head a + head base)) ≡ some pa
    → some (point (head b + head base)) ≡ some pb
    → some (point (head a + head pb)) ≡ some (point (head b + head pa))
toy_shared base a b pa pb ha hb =
    let ea = ap head (some_inj ha) in
    let eb = ap head (some_inj hb) in ap (λ n. some (point n)) (omega (arith, ea, eb))

abbrev pub curves : Curves
curves = record {
  scalarmult = λ sk p. some (point (head sk + head p));
  sign = λ m sk. replicate 64 (sum m + head sk);
  verify = λ s m pk. bytes_eq s (replicate 64 (sum m + head pk));
  hkdf = λ salt ikm info n. replicate n (head ikm + length info);
  curve_size =
      λ sk p q h. ap length (sym (some_inj h)) ∙ length-replicate {A = ℕ} 32 (head sk + head p);
  sign_size = λ m sk. length-replicate {A = ℕ} 64 (sum m + head sk);
  hkdf_size = λ salt ikm info n. length-replicate {A = ℕ} n (head ikm + length info);
  shared = toy_shared;
}

abbrev name : List ℕ
name = b'A' ∷ []

found : hap_get_controller (overlay name (replicate 64 0)) table ≡ some 0
unfolding hap_get_controller find_slot c_string bytes_eq overlay
found = refl

-- The signature of "A" of both public keys and its name.
abbrev signature : List ℕ
signature = replicate 64 (sum (point 14 ++ (name ++ point 12)) + b'A')

signed :
    curves.verify signature
      (point 14 ++ (c_string (overlay name (replicate 64 0)) ++ point 12))
      (slot table 0).info.ltpk
    ≡ true
unfolding c_string overlay
signed = bytes_eq_refl signature

acc_id_size : length (c_string accessory.acc_id) ≤ 17
unfolding c_string
acc_id_size = omega arith

abbrev locals : VerifyLocals
locals = record { state = 7; ed_sign = replicate 64 0 }

abbrev third : Request
third = m3 plain_cipher 512 (exchange_key curves (point 17)) name signature

abbrev second_context : PairVerifyCtx
second_context = m2_context curves (point 14) (point 12) (point 17)

abbrev connected : HapPriv Memory
connected = hap_add_secure_session 9 (set_session 9 (new_session curves second_context 0) accessory)

hap_pair_verify_process_lem_example :
    let (answer, x, p1) =
      hap_pair_verify_process plain_cipher curves
        (3 ∷ [])
        (some 9)
        locals
        (m1 512 (point 14))
        (verifying new_context)
        accessory in
    (answer ≡ (true, m2 plain_cipher curves (point 14) (point 12) (point 17) accessory))
    × ((s : Session) × IsSessionOf curves (point 17) 0 s
        × (hap_pair_verify_process plain_cipher curves (3 ∷ []) (some 9) locals third x p1 ≡ (
          (true, encode ((tlv_state, state_m4 ∷ []) ∷ [])),
          secured 9,
          hap_add_secure_session 9 (set_session 9 s accessory),
        )))
hap_pair_verify_process_lem_example =
    hap_pair_verify_process_lem plain_cipher curves (3 ∷ []) (5 ∷ []) (point 14) (point 12)
      (point 17) 9 locals locals accessory 512 0 name signature refl refl refl acc_id_size
      (omega arith) (omega arith) refl refl found signed

third_accepted :
    hap_pair_verify_process plain_cipher curves
      (3 ∷ [])
      (some 9)
      locals
      third
      (verifying second_context)
      accessory
    ≡ ((true, encode ((tlv_state, state_m4 ∷ []) ∷ [])), secured 9, connected)
third_accepted =
    process-m3 plain_cipher curves (3 ∷ []) 9 locals second_context accessory 512 0 name signature
      refl (omega arith) (omega arith) refl refl found signed

-- What the third message holds.
abbrev third_inner : List ℕ
third_inner = encode (name_items name signature)

abbrev third_edata : List ℕ
third_edata = sealed plain_cipher (exchange_key curves (point 17)) pv_nonce2 third_inner

received : get_value_from_tlv third.buf third.inlen tlv_encrypted_data 148 ≡ some third_edata
unfolding get_value_from_tlv get_value_loop sealed newnonce overlay
received = refl

named :
    value_in (message third_inner) tlv_identifier (replicate 64 0)
    ≡ some (overlay name (replicate 64 0))
unfolding value_in get_value_from_tlv get_value_loop
named = refl

short_name : length (c_string (overlay name (replicate 64 0))) < 64
unfolding c_string overlay
short_name = omega arith

short_names :
    (edata m ctrl_id : List ℕ)
    → get_value_from_tlv third.buf third.inlen tlv_encrypted_data 148 ≡ some edata
    → unsealed plain_cipher second_context.hkdf_key pv_nonce2 edata ≡ some m
    → value_in (message m) tlv_identifier (replicate 64 0) ≡ some ctrl_id
    → length (c_string ctrl_id) < 64
short_names edata m ctrl_id e f g =
    let key = exchange_key curves (point 17) in
    let same = some_inj (sym received ∙ e) in
    let opened =
      sym (unsealed-sealed plain_cipher key pv_nonce2 third_inner)
      ∙ ap (unsealed plain_cipher key pv_nonce2) same
      ∙ f in
    let read =
      ap (λ (b : List ℕ). value_in (message b) tlv_identifier (replicate 64 0)) (some_inj opened) in
    subst (λ (b : List ℕ). length (c_string b) < 64) (some_inj (sym named ∙ read ∙ g)) short_name

hap_pair_verify_process-IsProved_example :
    (i : ℕ) × IsProved plain_cipher curves locals third second_context accessory i
    × ◌≡◌ {A = Option ℕ} (some 9) (some 9)
    × ((s : Session) × IsSessionOf curves (point 17) i s
        × (connected ≡ hap_add_secure_session 9 (set_session 9 s accessory)))
hap_pair_verify_process-IsProved_example =
    hap_pair_verify_process-IsProved plain_cipher curves (3 ∷ []) (some 9) locals third
      second_context accessory connected (encode ((tlv_state, state_m4 ∷ []) ∷ [])) 9 refl
      short_names third_accepted

-- The same message with no memory left for a session.
third_refused :
    hap_pair_verify_process plain_cipher curves
      (3 ∷ [])
      none
      locals
      third
      (verifying second_context)
      accessory
    ≡ (
      (false, hap_prepare_error_tlv state_m4 error_unknown 512),
      verifying second_context,
      accessory,
    )
unfolding start_session finished finish_failed
third_refused =
    process-finish plain_cipher curves (3 ∷ []) none locals third second_context accessory refl
    ∙ ap finished (
        finish-inr plain_cipher curves none locals third second_context accessory (
          authenticate-m3 plain_cipher curves locals second_context accessory 512 0 name signature
            (omega arith) refl refl found signed))

hap_pair_verify_process-false_example :
    (ctx' : PairVerifyCtx) × (verifying second_context ≡ verifying ctx') × (accessory ≡ accessory)
hap_pair_verify_process-false_example =
    hap_pair_verify_process-false plain_cipher curves (3 ∷ []) none locals third second_context
      (verifying second_context) accessory accessory
      (hap_prepare_error_tlv state_m4 error_unknown 512) third_refused
