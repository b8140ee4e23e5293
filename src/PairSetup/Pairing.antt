-- ===== src/PairSetup/Pairing.antt =====
-- esp_hap_pair_setup.c: which branches a message takes that leaves no context behind.
use nina_fw_homekit.Prelude.{
  ℕ, ◌≡◌, arith, ap, Bool, true, false, not, ◌&&◌, some, List, ◌++◌, take, set, inl, inr, ⊎-cases,
  Option-cases, Bool-cases, ==_iff, ◌==◌,
}
use nina_fw_homekit.Keystore.{Keystore}
use nina_fw_homekit.Crypto.{Cipher, Curves}
use nina_fw_homekit.HapPriv.{HapPriv, CtrlInfo, slot}
use nina_fw_homekit.Pairings.{Request, state_m1, state_m2, state_m4}
use nina_fw_homekit.PairVerify.{state_m0}
use nina_fw_homekit.PairSetup.{
  Srp, Setup, SetupLocals, PairSetupCtx, SetupStep, setup_failed, pair_setup_ctrl_sign_salt,
  pair_setup_ctrl_sign_info,
}
use nina_fw_homekit.PairSetup.Exchange.{
  m5_in, read_controller, check_signature, setup_answer, store_setup, m6_edata, exchange_answer,
  hap_pair_setup_process_exchange,
}
use nina_fw_homekit.PairSetup.Process.{
  no_setup, in_setup, new_setup, setup_goes_on, setup_ends, setup_step, hap_pair_setup_process,
  hap_pair_setup_get_received_state, hap_pair_setup_context_init,
}

module _ (c : Cipher) (k : Curves) (ks : Keystore) where
  open ks use {Store}

  -- The table with what the fifth message says of the controller in the slot of the exchange.
  abbrev pub with_info : ℕ → CtrlInfo → HapPriv Store → HapPriv Store
  with_info i info p = record p {
    controllers = set p.controllers i (record (slot p.controllers i) { info = info });
  }

  -- What the checks of the fifth message let through, in the terms of the code.
  abbrev pub IsAccepted :
      {Handle : Type 0}
      → SetupLocals
      → Request
      → PairSetupCtx Handle
      → HapPriv Store
      → HapPriv Store
      → Type 0
  IsAccepted l r ctx p p' =
      (m : List ℕ) × (info : CtrlInfo) × (n : ℕ) × (signature : List ℕ) × (m5_in c ctx.session_key l
          r
        ≡ inr m)
      × (read_controller m (slot p.controllers ctx.ctrl).info ≡ (info, some (n, signature)))
      × (let p1 = with_info ctx.ctrl info p in
          let stored = (slot p1.controllers ctx.ctrl).info in
          let device_x =
            k.hkdf pair_setup_ctrl_sign_salt ctx.shared_secret pair_setup_ctrl_sign_info 32 in
          (k.verify signature (device_x ++ (take n stored.id ++ stored.ltpk)) stored.ltpk ≡ true)
          × (p' ≡ store_setup c k ks ctx p1))

  module _ {Handle : Type 0} where
    setup_answer-true :
        (r : Request) (ctx ctx' : PairSetupCtx Handle) (p p' : HapPriv Store) {out : List ℕ}
        → setup_answer c k ks r ctx p ≡ ((true, out), ctx', p')
        → p' ≡ store_setup c k ks ctx p
    unfolding setup_answer setup_failed
    setup_answer-true r ctx ctx' p p' h =
        elim (Option-cases (exchange_answer (m6_edata c k ks ctx p) r.bufsize)) [
          | inl e ↦ let g = rw (e, setup_answer) at h in cc
          | inr (o, e) ↦ let g = rw (e, setup_answer) at h in cc
        ]

    check_signature-true :
        (n : ℕ) (signature : List ℕ) (r : Request) (ctx ctx' : PairSetupCtx Handle)
        (p p' : HapPriv Store) {out : List ℕ}
        → check_signature c k ks n signature r ctx p ≡ ((true, out), ctx', p')
        → let stored = (slot p.controllers ctx.ctrl).info in
          let device_x =
            k.hkdf pair_setup_ctrl_sign_salt ctx.shared_secret pair_setup_ctrl_sign_info 32 in
          (k.verify signature (device_x ++ (take n stored.id ++ stored.ltpk)) stored.ltpk ≡ true)
          × (p' ≡ store_setup c k ks ctx p)
    unfolding check_signature setup_failed
    check_signature-true n signature r ctx ctx' p p' h =
        let stored = (slot p.controllers ctx.ctrl).info in
        let device_x =
          k.hkdf pair_setup_ctrl_sign_salt ctx.shared_secret pair_setup_ctrl_sign_info 32 in
        elim (Bool-cases
          (k.verify signature (device_x ++ (take n stored.id ++ stored.ltpk)) stored.ltpk)) [
            | inl e ↦ (e, setup_answer-true r ctx ctx' p p' (rw (e, check_signature) at h))
            | inr e ↦ let g = rw (e, check_signature) at h in cc
          ]

    exchange-true :
        (l : SetupLocals) (r : Request) (ctx ctx' : PairSetupCtx Handle) (p p' : HapPriv Store)
        {out : List ℕ}
        → hap_pair_setup_process_exchange c k ks l r ctx p ≡ ((true, out), ctx', p')
        → IsAccepted l r ctx p p'
    unfolding hap_pair_setup_process_exchange setup_failed
    exchange-true l r ctx ctx' p p' h = elim (⊎-cases (m5_in c ctx.session_key l r)) [
      | inl (error, e) ↦ let g = rw (e, hap_pair_setup_process_exchange) at h in cc
      | inr (m, e) ↦
          let (info, signed) = read_controller m (slot p.controllers ctx.ctrl).info in
          elim (Option-cases signed) [
            | inl f ↦ let g = rw (e, f, hap_pair_setup_process_exchange) at h in cc
            | inr (ns, f) ↦
                let g = rw (e, f, hap_pair_setup_process_exchange) at h in
                let (verified, stored) =
                  check_signature-true ns.0 ns.1 r ctx ctx' (with_info ctx.ctrl info p) p' g in
                (m, info, ns.0, ns.1, e, ap (λ o. (info, o)) f, (verified, stored))
          ]
    ]

  module _ (srp : Srp) where
    setup_ends-no_setup :
        (step : SetupStep srp.Handle Store) {out : List ℕ} {b : Bool} {p' : HapPriv Store}
        → setup_ends c k ks srp step ≡ ((b, out), no_setup, p')
        → (ctx : PairSetupCtx srp.Handle) × (step ≡ ((true, out), ctx, p'))
    unfolding setup_ends
    setup_ends-no_setup ((true, o), ctx, q) h = (ctx, cc)
    setup_ends-no_setup ((false, o), ctx, q) h = cc

    step-no_setup :
        (setup : Setup) (random : List ℕ) (l : SetupLocals) (r : Request)
        (ctx : PairSetupCtx srp.Handle) (p p' : HapPriv Store) {b : Bool} {out : List ℕ}
        → setup_step c k ks srp setup random l r ctx p ≡ ((b, out), no_setup, p')
        → (ctx.state ≡ state_m4) × IsAccepted l r ctx p p'
    unfolding setup_step setup_goes_on
    step-no_setup setup random l r ctx p p' h = elim (Bool-cases (ctx.state == state_m0)) [
      | inl e0 ↦ let g = rw (e0, setup_step) at h in cc
      | inr e0 ↦ elim (Bool-cases (ctx.state == state_m2)) [
        | inl e2 ↦ let g = rw (e0, e2, setup_step) at h in cc
        | inr e2 ↦ elim (Bool-cases (ctx.state == state_m4)) [
          | inl e4 ↦
              let (ctx', step) = setup_ends-no_setup _ (rw (e0, e2, e4, setup_step) at h) in
              ((==_iff ctx.state state_m4).0 e4, exchange-true l r ctx ctx' p p' step)
          | inr e4 ↦ let g = rw (e0, e2, e4, setup_step) at h in cc
        ]
      ]
    ]

    -- The fifth message is the one that leaves no context.
    pub hap_pair_setup_process-IsAccepted :
        (memory : Bool) (setup : Setup) (random : List ℕ) (l : SetupLocals) (r : Request)
        (ctx : PairSetupCtx srp.Handle) (p p' : HapPriv Store) (b : Bool) (out : List ℕ)
        → hap_pair_setup_process c k ks srp memory setup random l r (in_setup ctx) p
          ≡ ((b, out), no_setup, p')
        → (ctx.state ≡ state_m4) × IsAccepted l r ctx p p'
    unfolding hap_pair_setup_process hap_pair_setup_context_init
    hap_pair_setup_process-IsAccepted memory setup random l r ctx p p' b out h =
        elim (Bool-cases
          ((hap_pair_setup_get_received_state r == state_m1) && not (ctx.state == state_m0))) [
            | inl again ↦ elim (Bool-cases memory) [
              | inl e ↦
                  let (m4, s) =
                    step-no_setup setup random l r (new_setup srp ctx.sock_fd) p p'
                      (rw (again, e, hap_pair_setup_process) at h) in
                  absurd (omega (arith, m4))
              | inr e ↦ let g = rw (again, e, hap_pair_setup_process) at h in cc
            ]
            | inr on ↦
                step-no_setup setup random l r ctx p p' (rw (on, hap_pair_setup_process) at h)
          ]
