-- ===== src/PairSetup/Verify.antt =====
-- esp_hap_pair_setup.c: hap_pair_setup_process_srp_verify, the third message.
use nina_fw_homekit.Prelude.{ℕ, true, Option, none, some, List, [], ◌∷◌, ◌==◌, if◌then◌else◌}
use nina_fw_homekit.Crypto.{Curves}
use nina_fw_homekit.HapPriv.{HapPriv, pairing_aborted}
use nina_fw_homekit.Tlv.{add_tlv, get_value_from_tlv, hap_tlv_data_init, tlv_public_key, tlv_state}
use nina_fw_homekit.Pairings.{
  Request, value_in, byte_in, error_unknown, error_authentication, state_m4,
}
use nina_fw_homekit.PairVerify.{state_m3}
use nina_fw_homekit.PairSetup.{
  Srp, SetupLocals, PairSetupCtx, SetupStep, setup_failed, hap_pair_setup_manage_mfi_auth,
  tlv_proof, pair_setup_encrypt_salt, pair_setup_encrypt_info,
}

-- The public key and the proof of the controller, of a message that is the third.
unfoldable pub m3_in : SetupLocals → Request → Option (List ℕ × List ℕ)
m3_in l r = elim (byte_in r tlv_state l.state) [
  | none ↦ none
  | some state ↦ elim (get_value_from_tlv r.buf r.inlen tlv_public_key 384) [
    | none ↦ none
    | some key ↦ elim (value_in r tlv_proof l.ctrl_proof) [
      | none ↦ none
      | some proof ↦ if state == state_m3 then some (key, proof) else none
    ]
  ]
]

-- The answer M4.
unfoldable pub verify_answer : List ℕ → ℕ → Option (List ℕ)
verify_answer host_proof bufsize =
    elim (add_tlv (hap_tlv_data_init true bufsize) tlv_state (state_m4 ∷ [])) [
      | none ↦ none
      | some (n1, t1) ↦ elim (add_tlv t1 tlv_proof host_proof) [
        | none ↦ none
        | some (n2, t2) ↦ some t2.bytes
      ]
    ]

module _ (k : Curves) (srp : Srp) {Store : Type 0} where
  open srp use {Handle, get_session_key, exchange_proofs}

  -- The end of the third message, with a controller that knows the setup code.
  unfoldable pub verified_answer :
      List ℕ → Request → PairSetupCtx Handle → HapPriv Store → SetupStep Handle Store
  verified_answer host_proof r ctx p =
      let key = k.hkdf pair_setup_encrypt_salt ctx.shared_secret pair_setup_encrypt_info 32 in
      let keyed = record ctx { session_key = key } in
      elim (verify_answer host_proof r.bufsize) [
        | none ↦ setup_failed state_m4 error_unknown r keyed p
        | some out ↦ elim (hap_pair_setup_manage_mfi_auth ctx.method) [
          | some error ↦ setup_failed state_m4 error r keyed p
          | none ↦ ((true, out), record keyed { state = state_m4 }, p)
        ]
      ]

  -- `hap_pair_setup_process_srp_verify`
  unfoldable pub hap_pair_setup_process_srp_verify :
      SetupLocals → Request → PairSetupCtx Handle → HapPriv Store → SetupStep Handle Store
  hap_pair_setup_process_srp_verify l r ctx p = elim (m3_in l r) [
    | none ↦ setup_failed state_m4 error_unknown r ctx p
    | some (key, proof) ↦
        let (hd, secret) = get_session_key ctx.srp_hd key in
        let shared = record ctx { srp_hd = hd; shared_secret = secret } in
        elim (exchange_proofs hd proof) [
          | none ↦
              setup_failed state_m4 error_authentication r shared
                (record p { effects = pairing_aborted ∷ p.effects })
          | some host_proof ↦ verified_answer host_proof r shared p
        ]
  ]
