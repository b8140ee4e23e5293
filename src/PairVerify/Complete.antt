-- ===== src/PairVerify/Complete.antt =====
-- esp_hap_pair_verify.c: the exchange with a controller that keeps to the protocol.
use nina_fw_homekit.Prelude.{
  ℕ, ◌+◌, ◌-◌, ◌≤◌, ◌<◌, ◌≡◌, ◌∙◌, refl, ap, arith, true, false, some, List, [], ◌∷◌, ◌++◌, length,
  length-append, take-append_eq, drop-append_eq, replicate, ltb, inr,
}
use nina_fw_homekit.Prelude.Results.{◌>>=◌, required, require}
use nina_fw_homekit.Prelude.Strings.{c_string, overlay, overlay_all}
use nina_fw_homekit.Crypto.{Cipher, Curves, auth_tag_len, newnonce, sealed, unsealed}
use nina_fw_homekit.Tlv.{
  fragments, hap_tlv_data_init, tlv_identifier, tlv_signature, tlv_state, tlv_encrypted_data,
}
use nina_fw_homekit.Tlv.Codec.{Item, encode, Without}
use nina_fw_homekit.Tlv.Records.{get_value-encode}
use nina_fw_homekit.Tlv.Writing.{add_tlv-some}
use nina_fw_homekit.PairVerify.Sound.{process-finish, finish-inr, session_started}
use nina_fw_homekit.HapPriv.{HapPriv, slot}
use nina_fw_homekit.Controllers.{hap_get_controller}
use nina_fw_homekit.Sessions.{hap_add_secure_session, set_session}
use nina_fw_homekit.Pairings.{Request, value_in, byte_in, state_m2, state_m4}
use nina_fw_homekit.PairVerify.{
  verifying, secured, finished, PairVerifyCtx, VerifyLocals, authenticate, pv_nonce2, state_m3,
  new_session, hap_pair_verify_process,
}

unsealed-append :
    (c : Cipher) (key nonce text tag : List ℕ)
    → length tag ≡ auth_tag_len
    → unsealed c key nonce (text ++ tag) ≡ c.decrypt key (newnonce nonce) [] text tag
unfolding unsealed
unsealed-append c key nonce text tag h =
    let size = length-append text tag in
    let n : length (text ++ tag) - auth_tag_len ≡ length text = omega (arith, size, h) in
    let long : ltb (length (text ++ tag)) auth_tag_len ≡ false = ground (arith, size, h) in
    rw (long, take-append_eq _ text tag n, drop-append_eq _ text tag n) refl

-- The cipher's round trip with the tag behind the text.
pub unsealed-sealed :
    (c : Cipher) (key nonce m : List ℕ) → unsealed c key nonce (sealed c key nonce m) ≡ some m
unfolding sealed
unsealed-sealed c key nonce m =
    unsealed-append c key nonce _ _ (c.tag_size key (newnonce nonce) [] m)
    ∙ c.decrypt-encrypt key (newnonce nonce) [] m

pub length-sealed :
    (c : Cipher) (key nonce m : List ℕ) → length (sealed c key nonce m) ≡ length m + auth_tag_len
unfolding sealed
length-sealed c key nonce m =
    length-append (c.encrypt key (newnonce nonce) [] m).0 _
    ∙ omega (arith, c.tag_size key (newnonce nonce) [] m, c.encrypt_size key (newnonce nonce) [] m)

-- A value of a message of short records, read into an array.
pub value_in-encode :
    (bufsize : ℕ) (type : ℕ) (before : List Item) (val : List ℕ) (after : List Item) (old : List ℕ)
    → Without type before
    → length val < 255
    → length val ≤ length old
    → let buf = encode (before ++ (type, val) ∷ after) in
      value_in (record { buf = buf; inlen = length buf; bufsize = bufsize }) type old
      ≡ some (overlay val old)
unfolding value_in
value_in-encode bufsize type before val after old w h hs =
    rw (get_value-encode type before val after (length old) w h hs) refl

pub byte_in-encode :
    (bufsize type : ℕ) (before : List Item) (b : ℕ) (after : List Item) (old : ℕ)
    → Without type before
    → let buf = encode (before ++ (type, b ∷ []) ∷ after) in
      byte_in (record { buf = buf; inlen = length buf; bufsize = bufsize }) type old ≡ some b
unfolding byte_in overlay
byte_in-encode bufsize type before b after old w =
    rw (value_in-encode bufsize type before (b ∷ []) after (old ∷ []) w (omega arith) (omega arith))
      refl

-- The request that carries the records of a message.
abbrev pub request : ℕ → List Item → Request
request bufsize items = record {
  buf = encode items;
  inlen = length (encode items);
  bufsize = bufsize;
}

-- The third message: the records in clear, and those that are sealed.
abbrev pub m3_items : List ℕ → List Item
m3_items edata = (tlv_state, state_m3 ∷ []) ∷ (tlv_encrypted_data, edata) ∷ []

abbrev pub name_items : List ℕ → List ℕ → List Item
name_items id signature = (tlv_identifier, id) ∷ (tlv_signature, signature) ∷ []

abbrev pub m3 : Cipher → ℕ → List ℕ → List ℕ → List ℕ → Request
m3 c bufsize key id signature =
    request bufsize (m3_items (sealed c key pv_nonce2 (encode (name_items id signature))))

pub authenticate-m3 :
    (c : Cipher) (k : Curves) {Store : Type 0} (l : VerifyLocals) (ctx : PairVerifyCtx)
    (p : HapPriv Store) (bufsize i : ℕ) (id signature : List ℕ)
    → length id ≤ 64
    → length signature ≡ 64
    → length l.ed_sign ≡ 64
    → hap_get_controller (overlay id (replicate 64 0)) p.controllers ≡ some i
    → k.verify signature
        (ctx.ctrl_curve_pk ++ (c_string (overlay id (replicate 64 0)) ++ ctx.acc_curve_pk))
        (slot p.controllers i).info.ltpk
      ≡ true
    → authenticate c k l (m3 c bufsize ctx.hkdf_key id signature) ctx p ≡ inr i
unfolding authenticate ◌>>=◌ required require
authenticate-m3 c k l ctx p bufsize i id signature hid hs hl found signed =
    let inner = encode (name_items id signature) in
    let edata = sealed c ctx.hkdf_key pv_nonce2 inner in
    let size : length inner ≡ 68 + length id = omega (
      arith,
      length-append id (tlv_signature ∷ length signature ∷ (signature ++ [])),
      length-append signature [],
    ) in
    let esize = length-sealed c ctx.hkdf_key pv_nonce2 inner in
    let e1 =
      byte_in-encode bufsize tlv_state [] state_m3 ((tlv_encrypted_data, edata) ∷ []) l.state tt in
    let e2 =
      get_value-encode tlv_encrypted_data ((tlv_state, state_m3 ∷ []) ∷ []) edata [] 148
        ((λ e. omega arith), tt) (omega arith) (omega arith) in
    let e3 =
      value_in-encode 0 tlv_identifier [] id ((tlv_signature, signature) ∷ []) (replicate 64 0) tt
        (omega arith) (omega arith) in
    let e4 =
      value_in-encode 0 tlv_signature ((tlv_identifier, id) ∷ []) signature [] l.ed_sign
        ((λ e. omega arith), tt) (omega arith) (omega arith) in
    rw
      (
        e1,
        e2,
        unsealed-sealed c ctx.hkdf_key pv_nonce2 inner,
        e3,
        e4,
        overlay_all signature l.ed_sign (omega arith),
        found,
        signed,
      )
      refl

-- The third message of a controller that is paired and signs with its key ends the exchange.
pub process-m3 :
    (c : Cipher) (k : Curves) {Store : Type 0} (sk : List ℕ) (a : ℕ) (l : VerifyLocals)
    (ctx : PairVerifyCtx) (p : HapPriv Store) (bufsize i : ℕ) (id signature : List ℕ)
    → ctx.state ≡ state_m2
    → 3 ≤ bufsize
    → length id ≤ 64
    → length signature ≡ 64
    → length l.ed_sign ≡ 64
    → hap_get_controller (overlay id (replicate 64 0)) p.controllers ≡ some i
    → k.verify signature
        (ctx.ctrl_curve_pk ++ (c_string (overlay id (replicate 64 0)) ++ ctx.acc_curve_pk))
        (slot p.controllers i).info.ltpk
      ≡ true
    → hap_pair_verify_process c k sk
        (some a)
        l
        (m3 c bufsize ctx.hkdf_key id signature)
        (verifying ctx)
        p
      ≡ (
        (true, encode ((tlv_state, state_m4 ∷ []) ∷ [])),
        secured a,
        hap_add_secure_session a (set_session a (new_session k ctx i) p),
      )
unfolding hap_tlv_data_init fragments
process-m3 c k sk a l ctx p bufsize i id signature m2 room hid hs hl found signed =
    let r = m3 c bufsize ctx.hkdf_key id signature in
    let ok = authenticate-m3 c k l ctx p bufsize i id signature hid hs hl found signed in
    let fits =
      add_tlv-some (hap_tlv_data_init true bufsize) tlv_state (state_m4 ∷ []) (refl, omega arith) in
    process-finish c k sk (some a) l r ctx p m2
    ∙ ap finished (finish-inr c k (some a) l r ctx p ok)
    ∙ session_started c k a i r ctx p _ _ fits
