-- ===== src/PairVerify/Exchange.antt =====
-- esp_hap_pair_verify.c: the first message, and the whole exchange with a controller that keeps to
-- the protocol.
use nina_fw_homekit.Prelude.{
  ℕ, ◌≤◌, ◌≡◌, ◌∙◌, refl, arith, true, Option, some, List, [], ◌∷◌, ◌++◌, length, length-append,
  replicate,
}
use nina_fw_homekit.Prelude.Strings.{c_string, overlay, overlay_all}
use nina_fw_homekit.Crypto.{Cipher, Curves, sealed}
use nina_fw_homekit.Tlv.{
  add_tlv_or_keep, hap_tlv_data_init, tlv_identifier, tlv_signature, tlv_state, tlv_encrypted_data,
  tlv_public_key,
}
use nina_fw_homekit.Tlv.Codec.{Item, encode}
use nina_fw_homekit.Tlv.Records.{add_tlv-encode}
use nina_fw_homekit.HapPriv.{HapPriv, Session, slot}
use nina_fw_homekit.Controllers.{hap_get_controller}
use nina_fw_homekit.Sessions.{hap_add_secure_session, set_session}
use nina_fw_homekit.Pairings.{Request, state_m1, state_m2, state_m4}
use nina_fw_homekit.PairVerify.{
  verifying, secured, PairVerifyCtx, VerifyLocals, new_context, basepoint, m1_in, m2_answer,
  acc_subtlv, start_answer, start_keys, hap_pair_verify_process_start, new_session,
  hap_pair_verify_process, pair_verify_encrypt_salt, pair_verify_encrypt_info, pv_nonce1,
}
use nina_fw_homekit.PairVerify.Checks.{IsSessionOf, new_session-IsSessionOf}
use nina_fw_homekit.PairVerify.Complete.{
  request, m3, name_items, length-sealed, byte_in-encode, value_in-encode, process-m3,
}

-- The first message.
abbrev pub m1 : ℕ → List ℕ → Request
m1 bufsize pk = request bufsize ((tlv_state, state_m1 ∷ []) ∷ (tlv_public_key, pk) ∷ [])

-- The answer to it.
abbrev pub m2_items : List ℕ → List ℕ → List Item
m2_items pk edata =
    (tlv_state, state_m2 ∷ []) ∷ (tlv_public_key, pk) ∷ (tlv_encrypted_data, edata) ∷ []

m1_in-m1 :
    (l : VerifyLocals) (ctx : PairVerifyCtx) (bufsize : ℕ) (pk : List ℕ)
    → length pk ≡ 32
    → length ctx.ctrl_curve_pk ≡ 32
    → m1_in l (m1 bufsize pk) ctx ≡ some (state_m1, pk)
unfolding m1_in
m1_in-m1 l ctx bufsize pk h hc =
    let e1 = byte_in-encode bufsize tlv_state [] state_m1 ((tlv_public_key, pk) ∷ []) l.state tt in
    let e2 =
      value_in-encode bufsize tlv_public_key ((tlv_state, state_m1 ∷ []) ∷ []) pk []
        ctx.ctrl_curve_pk ((λ e. omega arith), tt) (omega arith) (omega arith) in
    rw (e1, e2, overlay_all pk ctx.ctrl_curve_pk (omega arith), m1_in) refl

m2_answer_lem :
    (ctx : PairVerifyCtx) (edata : List ℕ) (bufsize : ℕ)
    → length ctx.acc_curve_pk ≡ 32
    → length edata ≤ 118
    → 157 ≤ bufsize
    → m2_answer ctx edata bufsize ≡ some (encode (m2_items ctx.acc_curve_pk edata))
unfolding m2_answer hap_tlv_data_init
m2_answer_lem ctx edata bufsize hp he room =
    let e1 = add_tlv-encode bufsize tlv_state [] (state_m2 ∷ []) (omega arith) (omega arith) in
    let e2 =
      add_tlv-encode bufsize tlv_public_key ((tlv_state, state_m2 ∷ []) ∷ []) ctx.acc_curve_pk
        (omega arith) (omega arith) in
    let e3 =
      add_tlv-encode bufsize tlv_encrypted_data
        ((tlv_state, state_m2 ∷ []) ∷ (tlv_public_key, ctx.acc_curve_pk) ∷ []) edata (omega arith)
        (omega (arith, length-append ctx.acc_curve_pk [])) in
    rw (e1, e2, e3, m2_answer, hap_tlv_data_init) refl

-- The identifier and the signature of the accessory fit their buffer.
acc_subtlv_lem :
    (c : Cipher) (k : Curves) {Store : Type 0} (ctx : PairVerifyCtx) (p : HapPriv Store)
    → length (c_string p.acc_id) ≤ 17
    → acc_subtlv c k ctx p
      ≡ encode (
          name_items (c_string p.acc_id) (
            k.sign
              (ctx.acc_curve_pk ++ (c_string p.acc_id ++ ctx.ctrl_curve_pk))
              (p.ltska ++ p.ltpka)))
unfolding acc_subtlv add_tlv_or_keep hap_tlv_data_init
acc_subtlv_lem c k ctx p h =
    let id = c_string p.acc_id in
    let signature =
      k.sign (ctx.acc_curve_pk ++ (c_string p.acc_id ++ ctx.ctrl_curve_pk)) (p.ltska ++ p.ltpka) in
    let size =
      k.sign_size (ctx.acc_curve_pk ++ (c_string p.acc_id ++ ctx.ctrl_curve_pk))
        (p.ltska ++ p.ltpka) in
    let e1 = add_tlv-encode 102 tlv_identifier [] id (omega arith) (omega arith) in
    let e2 =
      add_tlv-encode 102 tlv_signature ((tlv_identifier, id) ∷ []) signature (omega (arith, size))
        (omega (arith, size, length-append id [])) in
    rw (e1, e2, acc_subtlv, add_tlv_or_keep, hap_tlv_data_init) refl

-- The key that seals the exchange.
abbrev pub exchange_key : Curves → List ℕ → List ℕ
exchange_key k secret = k.hkdf pair_verify_encrypt_salt secret pair_verify_encrypt_info 32

-- The context after the first message.
abbrev pub m2_context : Curves → List ℕ → List ℕ → List ℕ → PairVerifyCtx
m2_context k cpk apk secret = record new_context {
  state = state_m2;
  ctrl_curve_pk = cpk;
  acc_curve_pk = apk;
  shared_secret = secret;
  hkdf_key = exchange_key k secret;
}

-- The answer to it: the accessory's signature of both public keys and its name, sealed.
abbrev pub m2 :
    Cipher → Curves → {Store : Type 0} → List ℕ → List ℕ → List ℕ → HapPriv Store → List ℕ
m2 c k cpk apk secret p =
    let id = c_string p.acc_id in
    encode (
      m2_items apk (
        sealed c (exchange_key k secret) pv_nonce1
          (encode (name_items id (k.sign (apk ++ (id ++ cpk)) (p.ltska ++ p.ltpka))))))

start_answer_lem :
    (c : Cipher) (k : Curves) {Store : Type 0} (r : Request) (ctx : PairVerifyCtx)
    (p : HapPriv Store)
    → length ctx.acc_curve_pk ≡ 32
    → length (c_string p.acc_id) ≤ 17
    → 157 ≤ r.bufsize
    → start_answer c k r ctx p ≡ (
      (true, m2 c k ctx.ctrl_curve_pk ctx.acc_curve_pk ctx.shared_secret p),
      record ctx { hkdf_key = exchange_key k ctx.shared_secret; state = state_m2 },
    )
unfolding start_answer
start_answer_lem c k r ctx p hp hid room =
    let id = c_string p.acc_id in
    let info = ctx.acc_curve_pk ++ (id ++ ctx.ctrl_curve_pk) in
    let key = exchange_key k ctx.shared_secret in
    let named = acc_subtlv_lem c k ctx p hid in
    let items = encode (name_items id (k.sign info (p.ltska ++ p.ltpka))) in
    let inner : length items ≤ 85 = omega (
      arith,
      k.sign_size info (p.ltska ++ p.ltpka),
      length-append id (
          tlv_signature
          ∷ length (k.sign info (p.ltska ++ p.ltpka))
          ∷ (k.sign info (p.ltska ++ p.ltpka) ++ [])),
      length-append (k.sign info (p.ltska ++ p.ltpka)) [],
    ) in
    let outer = length-sealed c key pv_nonce1 items in
    let answer = m2_answer_lem ctx (sealed c key pv_nonce1 items) r.bufsize hp (omega arith) room in
    rw (named, answer, start_answer) refl

-- The first message of an exchange is answered with a key of the accessory's, whose secret is shared.
pub process-m1 :
    (c : Cipher) (k : Curves) {Store : Type 0} (sk csk cpk apk : List ℕ) (fresh : Option ℕ)
    (l : VerifyLocals) (p : HapPriv Store) (bufsize : ℕ)
    → k.scalarmult csk basepoint ≡ some cpk
    → k.scalarmult sk basepoint ≡ some apk
    → (secret : List ℕ) → k.scalarmult csk apk ≡ some secret
    → length (c_string p.acc_id) ≤ 17
    → 157 ≤ bufsize
    → hap_pair_verify_process c k sk fresh l (m1 bufsize cpk) (verifying new_context) p
      ≡ ((true, m2 c k cpk apk secret p), verifying (m2_context k cpk apk secret), p)
unfolding hap_pair_verify_process hap_pair_verify_process_start start_keys
process-m1 c k sk csk cpk apk fresh l p bufsize hc ha secret hs hid room =
    let read =
      m1_in-m1 l new_context bufsize cpk (k.curve_size csk basepoint cpk hc) (omega arith) in
    let agreed : k.scalarmult sk cpk ≡ some secret = k.shared basepoint sk csk apk cpk ha hc ∙ hs in
    let ctx : PairVerifyCtx = record new_context {
      ctrl_curve_pk = cpk;
      acc_curve_pk = apk;
      shared_secret = secret;
    } in
    let answer =
      start_answer_lem c k (m1 bufsize cpk) ctx p (k.curve_size sk basepoint apk ha) hid room in
    rw
      (read, ha, agreed, answer, hap_pair_verify_process, hap_pair_verify_process_start, start_keys)
      refl

-- The exchange with a controller that keeps to the protocol completes: its first message is
-- answered with the accessory's public key and its sealed name and signature, and its third, sealed
-- with the key that the controller derives from its own secret, with state M4 and a verified
-- session of this controller, whose keys for the two directions are derived from the same secret
-- and whose nonces are zero. The controller is paired and its signature verifies under its stored
-- key, its name has at most 63 bytes and the accessory's at most 17, signatures and the array that
-- they are read into have 64, the buffer has at least 157 bytes, and there is memory for the
-- session.
pub hap_pair_verify_process_lem :
    (c : Cipher) (k : Curves) {Store : Type 0} (sk csk cpk apk secret : List ℕ) (a : ℕ)
    (l l' : VerifyLocals) (p : HapPriv Store) (bufsize i : ℕ) (id signature : List ℕ)
    → k.scalarmult csk basepoint ≡ some cpk
    → k.scalarmult sk basepoint ≡ some apk
    → k.scalarmult csk apk ≡ some secret
    → length (c_string p.acc_id) ≤ 17
    → 157 ≤ bufsize
    → length id ≤ 63
    → length signature ≡ 64
    → length l'.ed_sign ≡ 64
    → hap_get_controller (overlay id (replicate 64 0)) p.controllers ≡ some i
    → k.verify signature
        (cpk ++ (c_string (overlay id (replicate 64 0)) ++ apk))
        (slot p.controllers i).info.ltpk
      ≡ true
    → let (answer, x, p1) =
        hap_pair_verify_process c k sk (some a) l (m1 bufsize cpk) (verifying new_context) p in
      (answer ≡ (true, m2 c k cpk apk secret p))
      × ((s : Session) × IsSessionOf k secret i s
          × (hap_pair_verify_process c k sk
                (some a)
                l'
                (m3 c bufsize (exchange_key k secret) id signature)
                x
                p1
              ≡ (
                (true, encode ((tlv_state, state_m4 ∷ []) ∷ [])),
                secured a,
                hap_add_secure_session a (set_session a s p),
              )))
hap_pair_verify_process_lem c k sk csk cpk apk secret a l l' p bufsize i id signature hc ha hs hacc
      room hid hsig hl found signed =
    let first = process-m1 c k sk csk cpk apk (some a) l p bufsize hc ha secret hs hacc room in
    rw first (
      refl,
      (
        new_session k (m2_context k cpk apk secret) i,
        new_session-IsSessionOf k (m2_context k cpk apk secret) i,
        process-m3 c k sk a l' (m2_context k cpk apk secret) p bufsize i id signature refl
            (omega arith) (omega arith) hsig hl found signed,
      ),
    )
