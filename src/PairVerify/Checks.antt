-- ===== src/PairVerify/Checks.antt =====
-- esp_hap_pair_verify.c: what the checks of the second message establish, and the session that
-- follows.
use nina_fw_homekit.Prelude.{
  ℕ, ◌≡◌, refl, true, some, List, ◌++◌, replicate, inr, ap, ◌∙◌, ==_iff, subst,
}
use nina_fw_homekit.Prelude.Results.{required-bind, require-bind}
use nina_fw_homekit.Prelude.Strings.{c_string, codes}
use nina_fw_homekit.Crypto.{Cipher, Curves, unsealed}
use nina_fw_homekit.Tlv.{
  get_value_from_tlv, tlv_identifier, tlv_encrypted_data, tlv_state, tlv_signature,
}
use nina_fw_homekit.HapPriv.{HapPriv, Session, slot}
use nina_fw_homekit.Controllers.{hap_get_controller}
use nina_fw_homekit.Pairings.{Request, message, value_in, byte_in}
use nina_fw_homekit.PairVerify.{
  PairVerifyCtx, VerifyLocals, authenticate, new_session, pv_nonce2, state_m3,
}

-- What a session of the controller at index `i` is to be: verified, with the key of each direction
-- derived from the shared secret, and counting from zero. The names are those of the protocol.
abbrev pub IsSessionOf : Curves → List ℕ → ℕ → Session → Type 0
IsSessionOf k secret i s =
    (s.state ≡ 0x55)
    × (s.encrypt_key
        ≡ k.hkdf (codes "Control-Salt") secret (codes "Control-Read-Encryption-Key") 32)
    × (s.decrypt_key
        ≡ k.hkdf (codes "Control-Salt") secret (codes "Control-Write-Encryption-Key") 32)
    × (s.encrypt_nonce ≡ replicate 8 0)
    × (s.decrypt_nonce ≡ replicate 8 0)
    × (s.ctrl ≡ i)

pub new_session-IsSessionOf :
    (k : Curves) (ctx : PairVerifyCtx) (i : ℕ)
    → IsSessionOf k ctx.shared_secret i (new_session k ctx i)
unfolding new_session
new_session-IsSessionOf k ctx i = (refl, refl, refl, refl, refl, refl)

module _ (c : Cipher) (k : Curves) {Store : Type 0} where
  -- The controller at index `i` has proved itself: the message is its third, its encrypted data
  -- opens with the key of the exchange, names the controller, and holds its signature of the two
  -- public keys and its name under its long-term key.
  abbrev pub IsProved : VerifyLocals → Request → PairVerifyCtx → HapPriv Store → ℕ → Type 0
  IsProved l r ctx p i =
      (edata : List ℕ) × (m : List ℕ) × (ctrl_id : List ℕ) × (ed_sign : List ℕ) × (byte_in r
          tlv_state l.state
        ≡ some state_m3)
      × (get_value_from_tlv r.buf r.inlen tlv_encrypted_data 148 ≡ some edata)
      × (unsealed c ctx.hkdf_key pv_nonce2 edata ≡ some m)
      × (value_in (message m) tlv_identifier (replicate 64 0) ≡ some ctrl_id)
      × (value_in (message m) tlv_signature l.ed_sign ≡ some ed_sign)
      × (hap_get_controller ctrl_id p.controllers ≡ some i)
      × (k.verify ed_sign (ctx.ctrl_curve_pk ++ (c_string ctrl_id ++ ctx.acc_curve_pk))
            (slot p.controllers i).info.ltpk
          ≡ true)

  pub authenticate-inr :
      (l : VerifyLocals) (r : Request) (ctx : PairVerifyCtx) (p : HapPriv Store) {i : ℕ}
      → authenticate c k l r ctx p ≡ inr i
      → IsProved l r ctx p i
  unfolding authenticate
  authenticate-inr l r ctx p {i} h = required-bind _ _ _ h (λ state e1 h1.
      required-bind _ _ _ h1 (λ edata e2 h2. require-bind _ _ _ h2 (λ e3 h3.
        required-bind _ _ _ h3 (λ m e4 h4. required-bind _ _ _ h4 (λ ctrl_id e5 h5.
          required-bind _ _ _ h5 (λ ed_sign e6 h6. required-bind _ _ _ h6 (λ j e7 h7.
            require-bind _ _ _ h7 (λ e8 h8.
              let i≡j : j ≡ i = cc in
              (
                edata,
                m,
                ctrl_id,
                ed_sign,
                e1 ∙ ap some ((==_iff state state_m3).0 e3),
                e2,
                e4,
                e5,
                e6,
                e7 ∙ ap some i≡j,
                subst
                    (λ n.
                      k.verify ed_sign (ctx.ctrl_curve_pk ++ (c_string ctrl_id ++ ctx.acc_curve_pk))
                        (slot p.controllers n).info.ltpk
                      ≡ true)
                    i≡j e8,
              )))))))))
