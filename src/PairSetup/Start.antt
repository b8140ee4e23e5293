-- ===== src/PairSetup/Start.antt =====
-- esp_hap_pair_setup.c: hap_pair_setup_process_srp_start, the first message.
use nina_fw_homekit.Prelude.{
  ℕ, true, not, ◌||◌, Option, none, some, List, [], ◌∷◌, take, length, leb, ◌==◌, if◌then◌else◌,
}
use nina_fw_homekit.Prelude.Strings.{overlay}
use nina_fw_homekit.HapPriv.{HapPriv, pairing_started}
use nina_fw_homekit.Controllers.{is_accessory_paired, hap_controller_get_empty_loc}
use nina_fw_homekit.Sessions.{test_bit}
use nina_fw_homekit.Tlv.{
  add_tlv, add_tlv_or_keep, get_value_from_tlv, hap_tlv_data_init, tlv_method, tlv_public_key,
  tlv_state,
}
use nina_fw_homekit.Pairings.{
  Request, byte_in, error_unknown, error_authentication, state_m1, state_m2,
}
use nina_fw_homekit.PairSetup.{
  Srp, Setup, setup_code, setup_info, SetupLocals, PairSetupCtx, SetupStep, setup_failed,
  word_bytes, bytes_word, hap_pair_setup_max_attempts, pair_flag_transient, pair_flag_split,
  error_max_tries, error_unavailable, tlv_salt, tlv_flags,
}

-- The answer M2.
unfoldable pub srp_start_answer : List ℕ → List ℕ → ℕ → ℕ → ℕ → Option (List ℕ)
srp_start_answer bytes_B salt flags flags_len bufsize =
    elim (add_tlv (hap_tlv_data_init true bufsize) tlv_state (state_m2 ∷ [])) [
      | none ↦ none
      | some (n1, t1) ↦ elim (add_tlv t1 tlv_public_key bytes_B) [
        | none ↦ none
        | some (n2, t2) ↦ elim (add_tlv t2 tlv_salt salt) [
          | none ↦ none
          | some (n3, t3) ↦ some (
              if flags_len == 0
              then t3.bytes
              else (add_tlv_or_keep t3 tlv_flags (take flags_len (word_bytes flags))).bytes)
        ]
      ]
    ]

module _ (srp : Srp) where
  open srp use {Handle, srv_pubkey, pubkey_from_verifier}

  -- The public key and the salt; `random` is what mu_srp draws.
  unfoldable pub srp_pubkey : Setup → List ℕ → Handle × Option (List ℕ × List ℕ)
  srp_pubkey (setup_code code) random = srv_pubkey code random
  srp_pubkey (setup_info salt verifier) random =
      let (hd, key) = pubkey_from_verifier salt verifier random in
      (hd, elim key [ none ↦ none | some b ↦ some (b, salt) ])

module _ (srp : Srp) {Store : Type 0} where
  open srp use {Handle}

  -- The end of the first message, once the request has been read.
  unfoldable pub start_srp :
      Setup → List ℕ → Request → PairSetupCtx Handle → HapPriv Store → SetupStep Handle Store
  start_srp setup random r ctx p =
      let (hd, keys) = srp_pubkey srp setup random in
      let keyed = record ctx { srp_hd = hd } in
      let flagged = record p { pairing_flags = ctx.pairing_flags } in
      elim keys [
        | none ↦ setup_failed state_m2 error_unknown r keyed flagged
        | some (bytes_B, salt) ↦
            elim (srp_start_answer bytes_B salt ctx.pairing_flags ctx.pairing_flags_len r.bufsize) [
              | none ↦ setup_failed state_m2 error_unknown r keyed flagged
              | some out ↦ (
                (true, out),
                record keyed { state = state_m2 },
                record flagged { effects = pairing_started ∷ p.effects },
              )
            ]
      ]

  -- The pairing flags of the message, if there are any.
  unfoldable pub check_flags :
      Setup
      → List ℕ
      → Option (List ℕ)
      → Request
      → PairSetupCtx Handle
      → HapPriv Store
      → SetupStep Handle Store
  check_flags setup random none r ctx p = start_srp setup random r ctx p
  check_flags setup random (some []) r ctx p = start_srp setup random r ctx p
  check_flags setup random (some (b ∷ bs)) r ctx p =
      let flags = bytes_word (overlay (b ∷ bs) (word_bytes ctx.pairing_flags)) in
      let flagged = record ctx { pairing_flags = flags; pairing_flags_len = length (b ∷ bs) } in
      let go = start_srp setup random r flagged p in
      if not (test_bit flags pair_flag_split)
      then setup_failed state_m2 error_unknown r flagged p
      else if test_bit flags pair_flag_transient || test_bit p.pairing_flags pair_flag_transient
      then go
      else setup_failed state_m2 error_authentication r flagged p

  -- The state and the method of the message.
  unfoldable pub read_start :
      Setup
      → List ℕ
      → SetupLocals
      → Request
      → PairSetupCtx Handle
      → HapPriv Store
      → SetupStep Handle Store
  read_start setup random l r ctx p = elim (byte_in r tlv_state l.state) [
    | none ↦ setup_failed state_m2 error_unknown r ctx p
    | some state ↦ elim (byte_in r tlv_method ctx.method) [
      | none ↦ setup_failed state_m2 error_unknown r ctx p
      | some method ↦
          let read = record ctx { method = method } in
          if state == state_m1
          then check_flags setup random (get_value_from_tlv r.buf r.inlen tlv_flags 4) r read p
          else setup_failed state_m2 error_unknown r read p
    ]
  ]

  -- `hap_pair_setup_process_srp_start`
  unfoldable pub hap_pair_setup_process_srp_start :
      Setup
      → List ℕ
      → SetupLocals
      → Request
      → PairSetupCtx Handle
      → HapPriv Store
      → SetupStep Handle Store
  hap_pair_setup_process_srp_start setup random l r ctx p =
      if is_accessory_paired p.controllers
      then setup_failed state_m2 error_unavailable r ctx p
      else if leb hap_pair_setup_max_attempts p.pair_attempts
      then setup_failed state_m2 error_max_tries r ctx p
      else elim (hap_controller_get_empty_loc p.controllers) [
        | none ↦ setup_failed state_m2 error_unknown r ctx p
        | some (i, cs) ↦
            read_start setup random l r (record ctx { ctrl = i }) (record p { controllers = cs })
      ]
