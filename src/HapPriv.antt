-- ===== src/HapPriv.antt =====
-- esp_hap_database.h, esp_hap_controllers.h, esp_hap_pair_common.h: the data that the pairing code
-- shares, `hap_priv`, as far as controllers and sessions use it. A pointer into the table of
-- controllers is an index, and a session object is an address of the heap.
use nina_fw_homekit.Prelude.{ℕ, Bool, false, Option, List, get_or, replicate}

abbrev pub max_controllers : ℕ
max_controllers = 16

abbrev pub ctrl_id_len : ℕ
ctrl_id_len = 64

abbrev pub ed_key_len : ℕ
ed_key_len = 32

abbrev pub max_sessions : ℕ
max_sessions = 8

abbrev pub state_verified : ℕ
state_verified = 0x55

abbrev pub state_invalid : ℕ
state_invalid = 0xaa

-- `hap_ctrl_info_t`
pub record CtrlInfo : Type 0 where
  pub id : List ℕ
  pub ltpk : List ℕ
  pub perms : ℕ

-- `hap_ctrl_data_t`
pub record CtrlData : Type 0 where
  pub info : CtrlInfo
  pub valid : Bool
  pub index : ℕ

-- A slot that is all zero.
abbrev pub empty_slot : CtrlData
empty_slot = record {
  info = record { id = replicate 64 0; ltpk = replicate 32 0; perms = 0 };
  valid = false;
  index = 0;
}

-- `hap_secure_session_t`
pub record Session : Type 0 where
  pub state : ℕ
  pub encrypt_key : List ℕ
  pub decrypt_key : List ℕ
  pub encrypt_nonce : List ℕ
  pub decrypt_nonce : List ℕ
  pub ctrl : ℕ
  pub pid : ℕ
  pub ttl : ℕ
  pub prepare_time : ℕ
  pub conn_identifier : ℕ

-- What the code asks of the rest of the firmware: `hap_report_event`, `httpd_sess_trigger_close`
-- and `hap_send_event`.
pub data Effect : Type 0 where
  ctrl_paired : List ℕ → Effect
  ctrl_unpaired : List ℕ → Effect
  ctrl_connected : List ℕ → Effect
  ctrl_disconnected : List ℕ → Effect
  trigger_close : ℕ → Effect
  acc_unpaired : Effect
  acc_paired : Effect
  pairing_started : Effect
  pairing_aborted : Effect

-- `hap_priv`, with the flash store behind it; `effects` holds the newest first. `chains` has the
-- addresses of the characteristics, in the order of the chains of accessories, of the services of
-- each and of the characteristics of each of these; `ev_ctrls` is the notification bitmap of the
-- characteristic at an address.
pub record HapPriv (Store : Type 0) : Type 0 where
  pub controllers : List CtrlData
  pub sessions : List (Option ℕ)
  pub heap : ℕ → Session
  pub chains : List (List (List ℕ))
  pub ev_ctrls : ℕ → ℕ
  pub disconnected_event_sent : Bool
  pub acc_id : List ℕ
  pub ltska : List ℕ
  pub ltpka : List ℕ
  pub pair_attempts : ℕ
  pub pairing_flags : ℕ
  pub config_num : ℕ
  pub cur_aid : ℕ
  pub state_num : ℕ
  pub store : Store
  pub effects : List Effect

-- `hap_priv.controllers[i]`
abbrev pub slot : List CtrlData → ℕ → CtrlData
slot cs i = get_or cs i empty_slot
