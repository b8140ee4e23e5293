-- ===== src/PairSetup/Exchange.antt =====
-- esp_hap_pair_setup.c: hap_pair_setup_process_exchange, the fifth message.
use nina_fw_homekit.Prelude.{
  ℕ, true, ◌&&◌, Option, none, some, List, [], ◌∷◌, ◌++◌, length, take, drop, set, ◌==◌,
  if◌then◌else◌, ◌⊎◌, inl, inr,
}
use nina_fw_homekit.Prelude.Results.{◌>>=◌, required, require}
use nina_fw_homekit.Prelude.Strings.{c_string, overlay}
use nina_fw_homekit.Keystore.{Keystore}
use nina_fw_homekit.Crypto.{Cipher, Curves, sealed, unsealed}
use nina_fw_homekit.HapPriv.{HapPriv, CtrlInfo, slot, acc_paired}
use nina_fw_homekit.Controllers.{hap_controller_save}
use nina_fw_homekit.Tlv.{
  add_tlv, add_tlv_or_keep, get_value_from_tlv, hap_tlv_data_init, tlv_identifier, tlv_public_key,
  tlv_encrypted_data, tlv_state, tlv_signature,
}
use nina_fw_homekit.Pairings.{Request, byte_in, error_unknown, error_authentication, state_m4}
use nina_fw_homekit.PairSetup.{
  SetupLocals, PairSetupCtx, SetupStep, setup_failed, state_m5, state_m6, ps_nonce2, ps_nonce3,
  pair_setup_ctrl_sign_salt, pair_setup_ctrl_sign_info, pair_setup_acc_sign_salt,
  pair_setup_acc_sign_info,
}

-- The encrypted data of a message that is the fifth, opened: the error, or the text.
unfoldable pub m5_in : Cipher → List ℕ → SetupLocals → Request → ℕ ⊎ List ℕ
m5_in c key l r = do
  state ← required error_unknown (byte_in r tlv_state l.state)
  edata ← required error_unknown (get_value_from_tlv r.buf r.inlen tlv_encrypted_data 220)
  in_m5 ← require error_unknown (state == state_m5)
  required error_authentication (unsealed c key ps_nonce2 edata)

-- `info.id[ctrl_id_len] = 0`: behind 64 bytes of a name it is the first byte of the key.
unfoldable pub terminate_id : ℕ → CtrlInfo → CtrlInfo
terminate_id ctrl_id_len info =
    let b = set (info.id ++ info.ltpk) ctrl_id_len 0 in
    record info { id = take 64 b; ltpk = take 32 (drop 64 b) }

-- What the fifth message says of the controller, read into its slot: the slot, and the length of
-- the name with the signature if all is there. What a value that does not fit leaves of its first
-- fragments is not modelled.
unfoldable pub read_ltpk : ℕ → List ℕ → CtrlInfo → CtrlInfo × Option (ℕ × List ℕ)
read_ltpk n m info = elim (get_value_from_tlv m (length m) tlv_public_key 32) [
  | none ↦ (info, none)
  | some key ↦
      let keyed = record info { ltpk = overlay key info.ltpk } in
      elim (get_value_from_tlv m (length m) tlv_signature 64) [
        | none ↦ (keyed, none)
        | some signature ↦
            if (length key == 32) && (length signature == 64)
            then (terminate_id n keyed, some (n, signature))
            else (keyed, none)
      ]
]

unfoldable pub read_controller : List ℕ → CtrlInfo → CtrlInfo × Option (ℕ × List ℕ)
read_controller m info = elim (get_value_from_tlv m (length m) tlv_identifier 64) [
  | none ↦ (info, none)
  | some name ↦ read_ltpk (length name) m (record info { id = overlay name info.id })
]

-- The answer M6 in clear: the identifier, the key and the signature of the accessory in 136 bytes.
unfoldable pub m6_subtlv : List ℕ → List ℕ → List ℕ → List ℕ
m6_subtlv acc_id ltpka signature =
    let named = add_tlv_or_keep (hap_tlv_data_init true 136) tlv_identifier acc_id in
    let keyed = add_tlv_or_keep named tlv_public_key ltpka in
    (add_tlv_or_keep keyed tlv_signature signature).bytes

unfoldable pub exchange_answer : List ℕ → ℕ → Option (List ℕ)
exchange_answer edata bufsize =
    elim (add_tlv (hap_tlv_data_init true bufsize) tlv_state (state_m6 ∷ [])) [
      | none ↦ none
      | some (n1, t1) ↦ elim (add_tlv t1 tlv_encrypted_data edata) [
        | none ↦ none
        | some (n2, t2) ↦ some t2.bytes
      ]
    ]

module _ (c : Cipher) (k : Curves) (ks : Keystore) {Handle : Type 0} where
  open k use {hkdf, sign, verify}
  open ks use {Store}

  -- The sealed answer M6.
  unfoldable pub m6_edata : PairSetupCtx Handle → HapPriv Store → List ℕ
  m6_edata ctx p =
      let acc_x = hkdf pair_setup_acc_sign_salt ctx.shared_secret pair_setup_acc_sign_info 32 in
      let acc_info = acc_x ++ (c_string p.acc_id ++ p.ltpka) in
      sealed c ctx.session_key ps_nonce3
        (m6_subtlv (c_string p.acc_id) p.ltpka (sign acc_info (p.ltska ++ p.ltpka)))

  -- The pairing is stored.
  unfoldable pub store_setup : PairSetupCtx Handle → HapPriv Store → HapPriv Store
  store_setup ctx p =
      let ctrl = slot p.controllers ctx.ctrl in
      let admin = record ctrl { info = record ctrl.info { perms = 1 } } in
      let saved =
        (hap_controller_save ks ctx.ctrl
          (record p { controllers = set p.controllers ctx.ctrl admin; pair_attempts = 0 })).1 in
      record saved { effects = acc_paired ∷ saved.effects }

  -- The end of the fifth message, of a controller with a valid signature.
  unfoldable pub setup_answer :
      Request → PairSetupCtx Handle → HapPriv Store → SetupStep Handle Store
  setup_answer r ctx p = elim (exchange_answer (m6_edata ctx p) r.bufsize) [
    | none ↦ setup_failed state_m4 error_unknown r ctx p
    | some out ↦ ((true, out), record ctx { state = state_m6 }, store_setup ctx p)
  ]

  -- The controller's signature of its device info.
  unfoldable pub check_signature :
      ℕ → List ℕ → Request → PairSetupCtx Handle → HapPriv Store → SetupStep Handle Store
  check_signature n signature r ctx p =
      let info = (slot p.controllers ctx.ctrl).info in
      let ios_device_x =
        hkdf pair_setup_ctrl_sign_salt ctx.shared_secret pair_setup_ctrl_sign_info 32 in
      let ok = setup_answer r ctx p in
      if verify signature (ios_device_x ++ (take n info.id ++ info.ltpk)) info.ltpk
      then ok
      else setup_failed state_m6 error_authentication r ctx p

  -- `hap_pair_setup_process_exchange`
  unfoldable pub hap_pair_setup_process_exchange :
      SetupLocals → Request → PairSetupCtx Handle → HapPriv Store → SetupStep Handle Store
  hap_pair_setup_process_exchange l r ctx p = elim (m5_in c ctx.session_key l r) [
    | inl error ↦ setup_failed state_m6 error r ctx p
    | inr m ↦
        let ctrl = slot p.controllers ctx.ctrl in
        let (info, signed) = read_controller m ctrl.info in
        let p' = record p {
          controllers = set p.controllers ctx.ctrl (record ctrl { info = info });
        } in
        elim signed [
          | none ↦ setup_failed state_m6 error_authentication r ctx p'
          | some (n, signature) ↦ check_signature n signature r ctx p'
        ]
  ]
