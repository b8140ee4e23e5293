-- ===== src/PairSetup.antt =====
-- esp_hap_pair_setup.c: the exchange that pairs the first controller, and esp_mfi_dummy.c.
pub mod Start
pub mod Verify
pub mod Exchange
pub mod Process
pub mod Pairing
pub mod Reading
pub mod Storing
pub mod Attempts
use nina_fw_homekit.Prelude.{
  ℕ, ◌+◌, ◌*◌, ◌/◌, ◌%◌, Bool, true, false, Option, none, some, List, [], ◌∷◌, replicate, ◌==◌,
  if◌then◌else◌, get_or,
}
use nina_fw_homekit.Prelude.Strings.{codes}
use nina_fw_homekit.Keystore.{Text}
use nina_fw_homekit.HapPriv.{HapPriv}
use nina_fw_homekit.Tlv.{hap_prepare_error_tlv}
use nina_fw_homekit.Pairings.{Request, error_unknown}

abbrev pub hap_pair_setup_max_attempts : ℕ
hap_pair_setup_max_attempts = 100

abbrev pub pair_setup_encrypt_salt : List ℕ
pair_setup_encrypt_salt = codes "Pair-Setup-Encrypt-Salt"

abbrev pub pair_setup_encrypt_info : List ℕ
pair_setup_encrypt_info = codes "Pair-Setup-Encrypt-Info"

abbrev pub pair_setup_ctrl_sign_salt : List ℕ
pair_setup_ctrl_sign_salt = codes "Pair-Setup-Controller-Sign-Salt"

abbrev pub pair_setup_ctrl_sign_info : List ℕ
pair_setup_ctrl_sign_info = codes "Pair-Setup-Controller-Sign-Info"

abbrev pub pair_setup_acc_sign_salt : List ℕ
pair_setup_acc_sign_salt = codes "Pair-Setup-Accessory-Sign-Salt"

abbrev pub pair_setup_acc_sign_info : List ℕ
pair_setup_acc_sign_info = codes "Pair-Setup-Accessory-Sign-Info"

abbrev pub ps_nonce2 : List ℕ
ps_nonce2 = codes "PS-Msg05"

abbrev pub ps_nonce3 : List ℕ
ps_nonce3 = codes "PS-Msg06"

-- The bits PAIR_FLAG_TRANSIENT and PAIR_FLAG_SPLIT.
abbrev pub pair_flag_transient : ℕ
pair_flag_transient = 4

abbrev pub pair_flag_split : ℕ
pair_flag_split = 24

abbrev pub error_max_tries : ℕ
error_max_tries = 5

abbrev pub error_unavailable : ℕ
error_unavailable = 6

abbrev pub error_busy : ℕ
error_busy = 7

abbrev pub tlv_salt : ℕ
tlv_salt = 2

abbrev pub tlv_proof : ℕ
tlv_proof = 4

abbrev pub tlv_flags : ℕ
tlv_flags = 0x13

abbrev pub state_m5 : ℕ
state_m5 = 5

abbrev pub state_m6 : ℕ
state_m6 = 6

abbrev pub method_pair_setup : ℕ
method_pair_setup = 1

-- What the exchange calls of mu_srp, with the random bytes that it draws: the public key and the
-- salt from a setup code, the public key from a salt and a verifier (`none` is a negative return or
-- a null key), the session key, and the exchange of proofs (`none` is a return that is not 1).
pub record Srp : Type 1 where
  pub Handle : Type 0
  pub fresh : Handle
  pub srv_pubkey : Text → List ℕ → Handle × Option (List ℕ × List ℕ)
  pub pubkey_from_verifier : List ℕ → List ℕ → List ℕ → Handle × Option (List ℕ)
  pub get_session_key : Handle → List ℕ → Handle × List ℕ
  pub exchange_proofs : Handle → List ℕ → Option (List ℕ)

-- `hap_priv.setup_code`, or the salt and the verifier of `hap_priv.setup_info`.
pub data Setup : Type 0 where
  setup_code : Text → Setup
  setup_info : List ℕ → List ℕ → Setup

-- What the uninitialised locals hold when they are entered: `state` and
-- `ctrl_proof`.
pub record SetupLocals : Type 0 where
  pub state : ℕ
  pub ctrl_proof : List ℕ

-- A number of 32 bits in memory.
unfoldable pub word_bytes : ℕ → List ℕ
word_bytes w = w % 256 ∷ w / 256 % 256 ∷ w / 65536 % 256 ∷ w / 16777216 % 256 ∷ []

unfoldable pub bytes_word : List ℕ → ℕ
bytes_word b = get_or b 0 0 + 256 * get_or b 1 0 + 65536 * get_or b 2 0 + 16777216 * get_or b 3 0

-- `pair_setup_ctx_t`, without the timer; `session` is never set by the code in the repository. The
-- controller is its index in the table.
pub record PairSetupCtx (Handle : Type 0) : Type 0 where
  pub state : ℕ
  pub method : ℕ
  pub pairing_flags : ℕ
  pub pairing_flags_len : ℕ
  pub shared_secret : List ℕ
  pub srp_hd : Handle
  pub ctrl : ℕ
  pub session_key : List ℕ
  pub sock_fd : ℕ

-- The answer to a message, the context, and the state behind it.
abbrev pub SetupStep : Type 0 → Type 0 → Type 0
SetupStep Handle Store = (Bool × List ℕ) × PairSetupCtx Handle × HapPriv Store

-- `hap_pair_setup_manage_mfi_auth`: its error, if it fails.
unfoldable pub hap_pair_setup_manage_mfi_auth : ℕ → Option ℕ
hap_pair_setup_manage_mfi_auth method =
    if method == method_pair_setup then some error_unknown else none

module _ {Handle Store : Type 0} where
  unfoldable pub setup_failed :
      ℕ → ℕ → Request → PairSetupCtx Handle → HapPriv Store → SetupStep Handle Store
  setup_failed state error r ctx p = ((false, hap_prepare_error_tlv state error r.bufsize), ctx, p)
