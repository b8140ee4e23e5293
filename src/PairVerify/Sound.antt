-- ===== src/PairVerify/Sound.antt =====
-- esp_hap_pair_verify.c: who gets a secure session, and what a failed message leaves.
use nina_fw_homekit.Prelude.{
  ℕ_discrete, ⊎-cases, ==_false, ℕ, ◌≡◌, refl, ◌∙◌, sym, ap, Bool, true, false, Option, none, some,
  List, [], ◌∷◌, ◌≢◌, ◌<◌, length, replicate, inl, inr, Option-cases,
}
use nina_fw_homekit.Prelude.Strings.{c_string}
use nina_fw_homekit.Crypto.{Cipher, Curves, unsealed}
use nina_fw_homekit.Tlv.{
  TlvData, hap_prepare_error_tlv, add_tlv, hap_tlv_data_init, tlv_state, get_value_from_tlv,
  tlv_encrypted_data, tlv_identifier,
}
use nina_fw_homekit.HapPriv.{HapPriv, Session}
use nina_fw_homekit.Sessions.{hap_add_secure_session, set_session}
use nina_fw_homekit.Pairings.{Request, message, value_in, error_unknown, state_m2, state_m4}
use nina_fw_homekit.PairVerify.{
  Context, verifying, secured, PairVerifyCtx, VerifyLocals, finished, authenticate, start_session,
  finish_failed, new_session, hap_pair_verify_process, hap_pair_verify_process_start,
  hap_pair_verify_process_finish, state_m0, pv_nonce2,
}
use nina_fw_homekit.PairVerify.Checks.{
  IsProved, IsSessionOf, authenticate-inr, new_session-IsSessionOf,
}

-- `hap_pair_verify_process` in the state of the second message.
pub process-finish :
    (c : Cipher) (k : Curves) {Store : Type 0} (sk : List ℕ) (fresh : Option ℕ) (l : VerifyLocals)
    (r : Request) (ctx : PairVerifyCtx) (p : HapPriv Store)
    → ctx.state ≡ state_m2
    → hap_pair_verify_process c k sk fresh l r (verifying ctx) p
      ≡ finished (hap_pair_verify_process_finish c k fresh l r ctx p)
unfolding hap_pair_verify_process
process-finish c k sk fresh l r ctx p h = rw h refl

-- In any other state.
process_other :
    (c : Cipher) (k : Curves) {Store : Type 0} (sk : List ℕ) (fresh : Option ℕ) (l : VerifyLocals)
    (r : Request) (ctx : PairVerifyCtx) (p : HapPriv Store)
    → ctx.state ≢ state_m2
    → (ctx' : PairVerifyCtx) × (out : Bool × List ℕ) × (hap_pair_verify_process c k sk fresh l r
          (verifying ctx)
          p
        ≡ (out, verifying ctx', p))
unfolding hap_pair_verify_process
process_other c k sk fresh l r ctx p h = elim (ℕ_discrete ctx.state state_m0) [
  | yes m0 ↦ (
    (hap_pair_verify_process_start c k sk l r ctx p).1,
    (hap_pair_verify_process_start c k sk l r ctx p).0,
    rw m0 refl,
  )
  | no m0 ↦ (
    ctx,
    (false, hap_prepare_error_tlv state_m2 error_unknown r.bufsize),
    rw (==_false ctx.state state_m0 m0, ==_false ctx.state state_m2 h) refl,
  )
]

finish-inl :
    (c : Cipher) (k : Curves) {Store : Type 0} (fresh : Option ℕ) (l : VerifyLocals) (r : Request)
    (ctx : PairVerifyCtx) (p : HapPriv Store) {error : ℕ}
    → authenticate c k l r ctx p ≡ inl error
    → hap_pair_verify_process_finish c k fresh l r ctx p ≡ finish_failed error r ctx p
unfolding hap_pair_verify_process_finish
finish-inl c k fresh l r ctx p h = rw (h, hap_pair_verify_process_finish) refl

pub finish-inr :
    (c : Cipher) (k : Curves) {Store : Type 0} (fresh : Option ℕ) (l : VerifyLocals) (r : Request)
    (ctx : PairVerifyCtx) (p : HapPriv Store) {i : ℕ}
    → authenticate c k l r ctx p ≡ inr i
    → hap_pair_verify_process_finish c k fresh l r ctx p ≡ start_session c k fresh i r ctx p
unfolding hap_pair_verify_process_finish
finish-inr c k fresh l r ctx p h = rw (h, hap_pair_verify_process_finish) refl

pub session_started :
    (c : Cipher) (k : Curves) {Store : Type 0} (a i : ℕ) (r : Request) (ctx : PairVerifyCtx)
    (p : HapPriv Store) (n : ℕ) (t : TlvData)
    → add_tlv (hap_tlv_data_init true r.bufsize) tlv_state (state_m4 ∷ []) ≡ some (n, t)
    → finished (start_session c k (some a) i r ctx p) ≡ (
      (true, t.bytes),
      secured a,
      hap_add_secure_session a (set_session a (new_session k ctx i) p),
    )
unfolding finished start_session
session_started c k a i r ctx p n t e = rw (e, start_session) refl

session_refused :
    (c : Cipher) (k : Curves) {Store : Type 0} (a i : ℕ) (r : Request) (ctx : PairVerifyCtx)
    (p : HapPriv Store)
    → add_tlv (hap_tlv_data_init true r.bufsize) tlv_state (state_m4 ∷ []) ≡ none
    → start_session c k (some a) i r ctx p ≡ finish_failed error_unknown r ctx p
unfolding start_session
session_refused c k a i r ctx p e = rw (e, start_session) refl

finished_failed :
    {Store : Type 0} (error : ℕ) (r : Request) (ctx : PairVerifyCtx) (p : HapPriv Store)
    → finished (finish_failed error r ctx p)
      ≡ ((false, hap_prepare_error_tlv state_m4 error r.bufsize), verifying ctx, p)
unfolding finished finish_failed
finished_failed error r ctx p = refl

-- The sessions that `start_session` hands out.
start_session-secured :
    (c : Cipher) (k : Curves) {Store : Type 0} (fresh : Option ℕ) (i : ℕ) (r : Request)
    (ctx : PairVerifyCtx) (p p' : HapPriv Store) {out : List ℕ} {a : ℕ}
    → finished (start_session c k fresh i r ctx p) ≡ ((true, out), secured a, p')
    → (fresh ≡ some a) × (p' ≡ hap_add_secure_session a (set_session a (new_session k ctx i) p))
unfolding start_session
start_session-secured c k none i r ctx p p' h =
    let failed = finished_failed error_unknown r ctx p in cc
start_session-secured c k (some b) i r ctx p p' {out} {a} h =
    elim (Option-cases (add_tlv (hap_tlv_data_init true r.bufsize) tlv_state (state_m4 ∷ []))) [
      | inl e ↦
          let refused = ap finished (session_refused c k b i r ctx p e) in
          let failed = finished_failed error_unknown r ctx p in cc
      | inr (nt, e) ↦
          let started = session_started c k b i r ctx p nt.0 nt.1 e in
          let same : b ≡ a = cc in (ap some same, cc)
    ]

finished-start_session :
    (c : Cipher) (k : Curves) {Store : Type 0} (fresh : Option ℕ) (i : ℕ) (r : Request)
    (ctx : PairVerifyCtx) (p p' : HapPriv Store) {out : List ℕ} {x : Context}
    → finished (start_session c k fresh i r ctx p) ≡ ((false, out), x, p')
    → (p' ≡ p) × (x ≡ verifying ctx)
unfolding start_session
finished-start_session c k none i r ctx p p' h =
    let failed = finished_failed error_unknown r ctx p in (cc, cc)
finished-start_session c k (some b) i r ctx p p' {out} {x} h =
    elim (Option-cases (add_tlv (hap_tlv_data_init true r.bufsize) tlv_state (state_m4 ∷ []))) [
      | inl e ↦
          let refused = ap finished (session_refused c k b i r ctx p e) in
          let failed = finished_failed error_unknown r ctx p in (cc, cc)
      | inr (nt, e) ↦ let started = session_started c k b i r ctx p nt.0 nt.1 e in cc
    ]

-- If hap_pair_verify_process, in an exchange that waits for its third message, succeeds and leaves
-- a session, then that message is a third one, its encrypted data opens with the key of the
-- exchange, it names a paired controller i and holds a signature of both public keys and the name
-- that verifies under the long-term key of i; the session is the fresh one, verified and of
-- controller i, encrypts with the key that is derived from the shared secret for reading and
-- decrypts with the one for writing, with both nonces at zero; and adding it is the only change of
-- the state. The name in the message ends within its array of 64 bytes.
pub hap_pair_verify_process-IsProved :
    (c : Cipher) (k : Curves) {Store : Type 0} (sk : List ℕ) (fresh : Option ℕ) (l : VerifyLocals)
    (r : Request) (ctx : PairVerifyCtx) (p p' : HapPriv Store) (out : List ℕ) (a : ℕ)
    → ctx.state ≡ state_m2
    → ((edata m ctrl_id : List ℕ)
        → get_value_from_tlv r.buf r.inlen tlv_encrypted_data 148 ≡ some edata
        → unsealed c ctx.hkdf_key pv_nonce2 edata ≡ some m
        → value_in (message m) tlv_identifier (replicate 64 0) ≡ some ctrl_id
        → length (c_string ctrl_id) < 64)
    → hap_pair_verify_process c k sk fresh l r (verifying ctx) p ≡ ((true, out), secured a, p')
    → (i : ℕ) × IsProved c k l r ctx p i
      × (fresh ≡ some a)
      × ((s : Session) × IsSessionOf k ctx.shared_secret i s
          × (p' ≡ hap_add_secure_session a (set_session a s p)))
hap_pair_verify_process-IsProved c k sk fresh l r ctx p p' out a m2 short h =
    let step = process-finish c k sk fresh l r ctx p m2 in
    elim (⊎-cases (authenticate c k l r ctx p)) [
      | inl (error, e) ↦
          let refused = ap finished (finish-inl c k fresh l r ctx p e) in
          let failed = finished_failed error r ctx p in cc
      | inr (i, e) ↦
          let authentic = ap finished (finish-inr c k fresh l r ctx p e) in
          let (given, after) =
            start_session-secured c k fresh i r ctx p p' (sym (step ∙ authentic) ∙ h) in
          (
            i,
            authenticate-inr c k l r ctx p e,
            given,
            (new_session k ctx i, new_session-IsSessionOf k ctx i, after),
          )
    ]

-- If hap_pair_verify_process fails in an exchange, in whatever state that is, the state of the
-- accessory is not changed, no session is handed out, and the connection's context is still an
-- exchange.
pub hap_pair_verify_process-false :
    (c : Cipher) (k : Curves) {Store : Type 0} (sk : List ℕ) (fresh : Option ℕ) (l : VerifyLocals)
    (r : Request) (ctx : PairVerifyCtx) (x : Context) (p p' : HapPriv Store) (out : List ℕ)
    → hap_pair_verify_process c k sk fresh l r (verifying ctx) p ≡ ((false, out), x, p')
    → (ctx' : PairVerifyCtx) × (x ≡ verifying ctx') × (p' ≡ p)
hap_pair_verify_process-false c k sk fresh l r ctx x p p' out h =
    elim (ℕ_discrete ctx.state state_m2) [
      | yes m2 ↦
          let step = process-finish c k sk fresh l r ctx p m2 in
          elim (⊎-cases (authenticate c k l r ctx p)) [
            | inl (error, e) ↦
                let refused = ap finished (finish-inl c k fresh l r ctx p e) in
                let failed = finished_failed error r ctx p in (ctx, cc, cc)
            | inr (i, e) ↦
                let authentic = ap finished (finish-inr c k fresh l r ctx p e) in
                let (same, kept) =
                  finished-start_session c k fresh i r ctx p p' (sym (step ∙ authentic) ∙ h) in
                (ctx, kept, same)
          ]
      | no m2 ↦ let (ctx', out', step) = process_other c k sk fresh l r ctx p m2 in (ctx', cc, cc)
    ]
