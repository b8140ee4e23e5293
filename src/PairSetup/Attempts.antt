-- ===== src/PairSetup/Attempts.antt =====
-- esp_hap_pair_setup.c: the limit on the attempts to pair.
use nina_fw_homekit.Prelude.{
  ℕ, ◌≡◌, ◌≢◌, arith, refl, ap, Bool, true, false, List, inl, inr, Option-cases, ==_false, ==_iff,
  ◌==◌,
}
use nina_fw_homekit.Keystore.{Keystore}
use nina_fw_homekit.Crypto.{Cipher, Curves}
use nina_fw_homekit.HapPriv.{HapPriv}
use nina_fw_homekit.Pairings.{Request, state_m1, state_m2}
use nina_fw_homekit.PairVerify.{state_m0}
use nina_fw_homekit.PairSetup.{
  Srp, Setup, SetupLocals, PairSetupCtx, setup_failed, hap_pair_setup_manage_mfi_auth,
}
use nina_fw_homekit.PairSetup.Verify.{
  m3_in, verify_answer, verified_answer, hap_pair_setup_process_srp_verify,
}
use nina_fw_homekit.PairSetup.Process.{
  in_setup, setup_goes_on, setup_step, count_attempt, hap_pair_setup_process,
  hap_pair_setup_get_received_state,
}

module _ (k : Curves) (srp : Srp) {Store : Type 0} where
  verified_answer_same :
      (host : List ℕ) (r : Request) (ctx : PairSetupCtx srp.Handle) (p q : HapPriv Store)
      → ((verified_answer k srp host r ctx p).0 ≡ (verified_answer k srp host r ctx q).0)
        × ((verified_answer k srp host r ctx p).1 ≡ (verified_answer k srp host r ctx q).1)
  unfolding verified_answer setup_failed
  verified_answer_same host r ctx p q = elim (Option-cases (verify_answer host r.bufsize)) [
    | inl e ↦ rw (e, verified_answer) (refl, refl)
    | inr (out, e) ↦ elim (Option-cases (hap_pair_setup_manage_mfi_auth ctx.method)) [
      | inl f ↦ rw (e, f, verified_answer) (refl, refl)
      | inr (error, f) ↦ rw (e, f, verified_answer) (refl, refl)
    ]
  ]

  -- The answer to the third message does not depend on the state of the accessory.
  verify_same :
      (l : SetupLocals) (r : Request) (ctx : PairSetupCtx srp.Handle) (p q : HapPriv Store)
      → ((hap_pair_setup_process_srp_verify k srp l r ctx p).0
          ≡ (hap_pair_setup_process_srp_verify k srp l r ctx q).0)
        × ((hap_pair_setup_process_srp_verify k srp l r ctx p).1
            ≡ (hap_pair_setup_process_srp_verify k srp l r ctx q).1)
  unfolding hap_pair_setup_process_srp_verify setup_failed
  verify_same l r ctx p q = elim (Option-cases (m3_in l r)) [
    | inl e ↦ rw (e, hap_pair_setup_process_srp_verify) (refl, refl)
    | inr (kp, e) ↦
        let (hd, secret) = srp.get_session_key ctx.srp_hd kp.0 in
        elim (Option-cases (srp.exchange_proofs hd kp.1)) [
          | inl f ↦ rw (e, f, hap_pair_setup_process_srp_verify) (refl, refl)
          | inr (host, f) ↦
              rw (e, f, hap_pair_setup_process_srp_verify)
                (verified_answer_same host r (record ctx { srp_hd = hd; shared_secret = secret }) p
                  q)
        ]
  ]

module _ (c : Cipher) (k : Curves) (ks : Keystore) (srp : Srp) where
  open ks use {Store}

  -- The answer to a message that is not the first, and the context behind it, in an exchange that
  -- has sent its second message, do not depend on the number of attempts to pair so far: the limit
  -- is checked in the first message only.
  pub hap_pair_setup_process_attempts :
      (memory : Bool) (setup : Setup) (random : List ℕ) (l : SetupLocals) (r : Request)
      (ctx : PairSetupCtx srp.Handle) (p : HapPriv Store) (n : ℕ)
      → ctx.state ≡ state_m2
      → hap_pair_setup_get_received_state r ≢ state_m1
      → let tried = record p { pair_attempts = n } in
        ((hap_pair_setup_process c k ks srp memory setup random l r (in_setup ctx) tried).0
          ≡ (hap_pair_setup_process c k ks srp memory setup random l r (in_setup ctx) p).0)
        × ((hap_pair_setup_process c k ks srp memory setup random l r (in_setup ctx) tried).1
            ≡ (hap_pair_setup_process c k ks srp memory setup random l r (in_setup ctx) p).1)
  unfolding hap_pair_setup_process setup_step setup_goes_on
  hap_pair_setup_process_attempts memory setup random l r ctx p n m2 other =
      let tried = record p { pair_attempts = n } in
      let (answer, context) = verify_same k srp l r ctx (count_attempt tried) (count_attempt p) in
      let first : (ctx.state == state_m0) ≡ false =
        ==_false ctx.state state_m0 (λ e. omega (arith, m2, e)) in
      let third : (ctx.state == state_m2) ≡ true = (==_iff ctx.state state_m2).1 m2 in
      let received = ==_false (hap_pair_setup_get_received_state r) state_m1 other in
      rw (received, first, third, hap_pair_setup_process, setup_step) (answer, ap in_setup context)
