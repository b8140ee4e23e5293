-- ===== src/PairVerify.antt =====
-- esp_hap_pair_verify.c: the Pair Verify exchange, which ends with a secure session.
pub mod Checks
pub mod Sound
pub mod Complete
pub mod Exchange
use nina_fw_homekit.Prelude.{
  ℕ, ◌+◌, ◌-◌, Bool, true, false, Option, none, some, List, [], ◌∷◌, ◌++◌, length, replicate, take,
  drop, ltb, ◌==◌, if◌then◌else◌, ◌⊎◌, inl, inr,
}
use nina_fw_homekit.Prelude.Results.{◌>>=◌, required, require}
use nina_fw_homekit.Prelude.Strings.{c_string, codes}
use nina_fw_homekit.Crypto.{Cipher, Curves, sealed, unsealed}
use nina_fw_homekit.Tlv.{
  TlvData, add_tlv, add_tlv_or_keep, get_value_from_tlv, hap_prepare_error_tlv, hap_tlv_data_init,
  tlv_identifier, tlv_public_key, tlv_encrypted_data, tlv_state, tlv_signature,
}
use nina_fw_homekit.HapPriv.{HapPriv, Session, CtrlInfo, slot, state_verified}
use nina_fw_homekit.Controllers.{hap_get_controller}
use nina_fw_homekit.Sessions.{hap_add_secure_session, set_session}
use nina_fw_homekit.Pairings.{
  Request, message, value_in, byte_in, error_unknown, error_authentication, state_m1, state_m2,
  state_m4,
}

abbrev pub state_m0 : ℕ
state_m0 = 0

abbrev pub state_m3 : ℕ
state_m3 = 3

-- The salts, infos and nonces of the exchange.
abbrev pub pair_verify_encrypt_salt : List ℕ
pair_verify_encrypt_salt = codes "Pair-Verify-Encrypt-Salt"

abbrev pub pair_verify_encrypt_info : List ℕ
pair_verify_encrypt_info = codes "Pair-Verify-Encrypt-Info"

abbrev pub pv_nonce1 : List ℕ
pv_nonce1 = codes "PV-Msg02"

abbrev pub pv_nonce2 : List ℕ
pv_nonce2 = codes "PV-Msg03"

abbrev pub control_salt : List ℕ
control_salt = codes "Control-Salt"

abbrev pub control_read_info : List ℕ
control_read_info = codes "Control-Read-Encryption-Key"

abbrev pub control_write_info : List ℕ
control_write_info = codes "Control-Write-Encryption-Key"

-- `basepoint`
abbrev pub basepoint : List ℕ
basepoint = 9 ∷ replicate 31 0

-- `pair_verify_ctx_t`
pub record PairVerifyCtx : Type 0 where
  pub state : ℕ
  pub ctrl_curve_pk : List ℕ
  pub acc_curve_pk : List ℕ
  pub hkdf_key : List ℕ
  pub shared_secret : List ℕ
  pub session : Option ℕ

-- What the context of a connection points to: nothing, an exchange, or a session object.
pub data Context : Type 0 where
  no_context : Context
  verifying : PairVerifyCtx → Context
  secured : ℕ → Context

-- What the uninitialised locals hold when they are entered: `state`, and `ed_sign`.
pub record VerifyLocals : Type 0 where
  pub state : ℕ
  pub ed_sign : List ℕ

-- The context that `hap_pair_verify_context_init` allocates: all zero.
abbrev pub new_context : PairVerifyCtx
new_context = record {
  state = 0;
  ctrl_curve_pk = replicate 32 0;
  acc_curve_pk = replicate 32 0;
  hkdf_key = replicate 32 0;
  shared_secret = replicate 32 0;
  session = none;
}

-- `hap_pair_verify_context_init`: the new context, or the bytes of the error if there is no memory.
unfoldable pub hap_pair_verify_context_init : Bool → ℕ → List ℕ ⊎ Context
hap_pair_verify_context_init true bufsize = inr (verifying new_context)
hap_pair_verify_context_init false bufsize =
    inl (hap_prepare_error_tlv state_m2 error_unknown bufsize)

-- The answer M2.
unfoldable pub m2_answer : PairVerifyCtx → List ℕ → ℕ → Option (List ℕ)
m2_answer ctx edata bufsize =
    elim (add_tlv (hap_tlv_data_init true bufsize) tlv_state (state_m2 ∷ [])) [
      | none ↦ none
      | some (n1, t1) ↦ elim (add_tlv t1 tlv_public_key ctx.acc_curve_pk) [
        | none ↦ none
        | some (n2, t2) ↦ elim (add_tlv t2 tlv_encrypted_data edata) [
          | none ↦ none
          | some (n3, t3) ↦ some t3.bytes
        ]
      ]
    ]

unfoldable pub start_failed : Request → PairVerifyCtx → (Bool × List ℕ) × PairVerifyCtx
start_failed r ctx = ((false, hap_prepare_error_tlv state_m2 error_unknown r.bufsize), ctx)

-- What `hap_pair_verify_process_start` reads of M1.
unfoldable pub m1_in : VerifyLocals → Request → PairVerifyCtx → Option (ℕ × List ℕ)
m1_in l r ctx = elim (byte_in r tlv_state l.state) [
  | none ↦ none
  | some state ↦ elim (value_in r tlv_public_key ctx.ctrl_curve_pk) [
    | none ↦ none
    | some pk ↦ some (state, pk)
  ]
]

abbrev pub Finished : Type 0 → Type 0
Finished Store = (Bool × List ℕ) × PairVerifyCtx × HapPriv Store

module _ {Store : Type 0} where
  unfoldable pub finish_failed : ℕ → Request → PairVerifyCtx → HapPriv Store → Finished Store
  finish_failed error r ctx p = ((false, hap_prepare_error_tlv state_m4 error r.bufsize), ctx, p)

  -- What `hap_pair_verify_process` leaves in `*ctx` after the second message.
  unfoldable pub finished : Finished Store → (Bool × List ℕ) × Context × HapPriv Store
  finished ((false, out), ctx, p) = ((false, out), verifying ctx, p)
  finished ((true, out), ctx, p) = elim ctx.session [
    | none ↦ ((true, out), no_context, p)
    | some a ↦ ((true, out), secured a, p)
  ]

module _ {Store : Type 0} where
  -- `hap_pair_verify_get_state`; the state stands first in a session object as well.
  unfoldable pub hap_pair_verify_get_state : Context → HapPriv Store → ℕ
  hap_pair_verify_get_state no_context p = 0
  hap_pair_verify_get_state (verifying ctx) p = ctx.state
  hap_pair_verify_get_state (secured a) p = (p.heap a).state

module _ (k : Curves) where
  open k use {hkdf}

  -- The session that an exchange ends with.
  unfoldable pub new_session : PairVerifyCtx → ℕ → Session
  new_session ctx i = record {
    state = state_verified;
    encrypt_key = hkdf control_salt ctx.shared_secret control_read_info 32;
    decrypt_key = hkdf control_salt ctx.shared_secret control_write_info 32;
    encrypt_nonce = replicate 8 0;
    decrypt_nonce = replicate 8 0;
    ctrl = i;
    pid = 0;
    ttl = 0;
    prepare_time = 0;
    conn_identifier = 0;
  }

module _ (c : Cipher) (k : Curves) {Store : Type 0} where
  open k use {scalarmult, sign, verify, hkdf}

  -- The identifier and the signature of the accessory: `subtlv`, of 102 bytes. The secret key of
  -- libsodium is 64 bytes from `ltska` on, and `ltpka` stands behind it.
  unfoldable pub acc_subtlv : PairVerifyCtx → HapPriv Store → List ℕ
  acc_subtlv ctx p =
      let acc_info = ctx.acc_curve_pk ++ (c_string p.acc_id ++ ctx.ctrl_curve_pk) in
      let named = add_tlv_or_keep (hap_tlv_data_init true 102) tlv_identifier (c_string p.acc_id) in
      (add_tlv_or_keep named tlv_signature (sign acc_info (p.ltska ++ p.ltpka))).bytes

  -- The end of `hap_pair_verify_process_start`, from the shared secret on.
  unfoldable pub start_answer :
      Request → PairVerifyCtx → HapPriv Store → (Bool × List ℕ) × PairVerifyCtx
  start_answer r ctx p =
      let key = hkdf pair_verify_encrypt_salt ctx.shared_secret pair_verify_encrypt_info 32 in
      let keyed = record ctx { hkdf_key = key } in
      elim (m2_answer ctx (sealed c key pv_nonce1 (acc_subtlv ctx p)) r.bufsize) [
        | none ↦ ((false, hap_prepare_error_tlv state_m2 error_unknown r.bufsize), keyed)
        | some out ↦ ((true, out), record keyed { state = state_m2 })
      ]

  -- The key pair and the shared secret; `sk` is what `esp_mfi_get_random` gives.
  unfoldable pub start_keys :
      List ℕ → Request → PairVerifyCtx → HapPriv Store → (Bool × List ℕ) × PairVerifyCtx
  start_keys sk r ctx p = elim (scalarmult sk basepoint) [
    | none ↦ start_failed r ctx
    | some pk ↦ elim (scalarmult sk ctx.ctrl_curve_pk) [
      | none ↦ start_failed r (record ctx { acc_curve_pk = pk })
      | some secret ↦ start_answer r (record ctx { acc_curve_pk = pk; shared_secret = secret }) p
    ]
  ]

  -- `hap_pair_verify_process_start`
  unfoldable pub hap_pair_verify_process_start :
      List ℕ
      → VerifyLocals
      → Request
      → PairVerifyCtx
      → HapPriv Store
      → (Bool × List ℕ) × PairVerifyCtx
  hap_pair_verify_process_start sk l r ctx p = elim (m1_in l r ctx) [
    | none ↦ start_failed r ctx
    | some (state, pk) ↦
        let read = record ctx { ctrl_curve_pk = pk } in
        if state == state_m1 then start_keys sk r read p else start_failed r read
  ]

  -- The checks of `hap_pair_verify_process_finish`: the error of the one that fails, or the index
  -- of the controller that has proved itself.
  unfoldable pub authenticate : VerifyLocals → Request → PairVerifyCtx → HapPriv Store → ℕ ⊎ ℕ
  authenticate l r ctx p = do
    state ← required error_unknown (byte_in r tlv_state l.state)
    edata ← required error_unknown (get_value_from_tlv r.buf r.inlen tlv_encrypted_data 148)
    in_m3 ← require error_unknown (state == state_m3)
    m ← required error_authentication (unsealed c ctx.hkdf_key pv_nonce2 edata)
    ctrl_id ← required error_unknown (value_in (message m) tlv_identifier (replicate 64 0))
    ed_sign ← required error_unknown (value_in (message m) tlv_signature l.ed_sign)
    i ← required error_authentication (hap_get_controller ctrl_id p.controllers)
    signed ← require error_authentication (
        verify ed_sign (ctx.ctrl_curve_pk ++ (c_string ctrl_id ++ ctx.acc_curve_pk))
          (slot p.controllers i).info.ltpk)
    inr i

  -- The session object of the controller at index `i`; `fresh` is its address, `none` with no memory.
  unfoldable pub start_session :
      Option ℕ → ℕ → Request → PairVerifyCtx → HapPriv Store → Finished Store
  start_session none i r ctx p = finish_failed error_unknown r ctx p
  start_session (some a) i r ctx p =
      elim (add_tlv (hap_tlv_data_init true r.bufsize) tlv_state (state_m4 ∷ [])) [
        | none ↦ finish_failed error_unknown r ctx p
        | some (n, t) ↦ (
          (true, t.bytes),
          record ctx { state = state_verified; session = some a },
          hap_add_secure_session a (set_session a (new_session k ctx i) p),
        )
      ]

  -- `hap_pair_verify_process_finish`
  unfoldable pub hap_pair_verify_process_finish :
      Option ℕ → VerifyLocals → Request → PairVerifyCtx → HapPriv Store → Finished Store
  hap_pair_verify_process_finish fresh l r ctx p = elim (authenticate l r ctx p) [
    | inl error ↦ finish_failed error r ctx p
    | inr i ↦ start_session fresh i r ctx p
  ]

  -- `hap_pair_verify_process`; the state of a session object is never that of an exchange.
  unfoldable pub hap_pair_verify_process :
      List ℕ
      → Option ℕ
      → VerifyLocals
      → Request
      → Context
      → HapPriv Store
      → (Bool × List ℕ) × Context × HapPriv Store
  hap_pair_verify_process sk fresh l r no_context p =
      ((false, hap_prepare_error_tlv state_m2 error_unknown r.bufsize), no_context, p)
  hap_pair_verify_process sk fresh l r (secured a) p =
      ((false, hap_prepare_error_tlv state_m2 error_unknown r.bufsize), secured a, p)
  hap_pair_verify_process sk fresh l r (verifying ctx) p =
      let (out, ctx') = hap_pair_verify_process_start sk l r ctx p in
      if ctx.state == state_m0
      then (out, verifying ctx', p)
      else if ctx.state == state_m2
      then finished (hap_pair_verify_process_finish fresh l r ctx p)
      else ((false, hap_prepare_error_tlv state_m2 error_unknown r.bufsize), verifying ctx, p)
