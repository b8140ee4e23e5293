-- ===== src/Pairings.antt =====
-- esp_hap_pairings.c: the requests that add, remove and list pairings.
pub mod Tables
pub mod Adding
pub mod Removing
pub mod Access
use nina_fw_homekit.Prelude.{
  ℕ, zero, suc, ◌+◌, Bool, true, false, not, ◌&&◌, Option, none, some, List, [], ◌∷◌, ◌++◌, get_or,
  set, take, drop, length, replicate, ◌==◌, if◌then◌else◌, ◌>>=◌, ◌⊎◌, inl, inr,
}
use nina_fw_homekit.Prelude.Strings.{c_string, bytes_eq, overlay}
use nina_fw_homekit.Tlv.{
  TlvData, add_tlv, get_value_from_tlv, hap_prepare_error_tlv, hap_tlv_data_init, tlv_method,
  tlv_identifier, tlv_public_key, tlv_state, tlv_permissions, tlv_separator,
}
use nina_fw_homekit.Keystore.{Keystore}
use nina_fw_homekit.HapPriv.{
  HapPriv, CtrlInfo, CtrlData, Effect, acc_unpaired, slot, max_controllers, ctrl_id_len, ed_key_len,
  state_verified,
}
use nina_fw_homekit.Controllers.{
  hap_get_controller, hap_controller_get_empty_loc, hap_controller_save, hap_controller_remove,
  is_admin_paired,
}
use nina_fw_homekit.Sessions.{hap_close_sessions_of_ctrl}

-- `hap_tlv_error_t`
abbrev pub error_unknown : ℕ
error_unknown = 0x01

abbrev pub error_authentication : ℕ
error_authentication = 0x02

abbrev pub error_max_peers : ℕ
error_max_peers = 0x04

-- `hap_pairing_methods_t`
abbrev pub add_pairing : ℕ
add_pairing = 3

abbrev pub remove_pairing : ℕ
remove_pairing = 4

abbrev pub list_pairings : ℕ
list_pairings = 5

-- STATE_M1, STATE_M2 and STATE_M4
abbrev pub state_m1 : ℕ
state_m1 = 1

abbrev pub state_m2 : ℕ
state_m2 = 2

abbrev pub state_m4 : ℕ
state_m4 = 4

-- What the uninitialised locals of the handlers hold when they are entered.
pub record Locals : Type 0 where
  pub state : ℕ
  pub method : ℕ
  pub perms : ℕ
  pub ltpkc : List ℕ

-- `buf` with its `inlen` and `bufsize`
pub record Request : Type 0 where
  pub buf : List ℕ
  pub inlen : ℕ
  pub bufsize : ℕ

-- A message in a local array.
abbrev pub message : List ℕ → Request
message m = record { buf = m; inlen = length m; bufsize = 0 }

-- `get_value_from_tlv` of the request into a local array, or into a single byte: what is received
-- is copied over the front of what is there.
unfoldable pub value_in : Request → ℕ → List ℕ → Option (List ℕ)
value_in r type old = do
  val ← get_value_from_tlv r.buf r.inlen type (length old)
  some (overlay val old)

unfoldable pub byte_in : Request → ℕ → ℕ → Option ℕ
byte_in r type old = do val ← value_in r type (old ∷ []); some (get_or val 0 0)

-- `char ctrl_id[HAP_CTRL_ID_LEN]` after its `memset`
unfoldable pub ctrl_id_in : Request → Option (List ℕ)
ctrl_id_in r = value_in r tlv_identifier (replicate 64 0)

-- The state that answers a request, alone in the buffer.
unfoldable pub state_answer : ℕ → Option (List ℕ)
state_answer bufsize = do
  (n, t) ← add_tlv (hap_tlv_data_init true bufsize) tlv_state (state_m2 ∷ [])
  some t.bytes

-- One controller of the list that answers `hap_process_pair_list`.
unfoldable pub list_entry : Bool → CtrlInfo → TlvData → Option TlvData
list_entry entry_added c t = do
  (n1, t1) ←
      (if entry_added then add_tlv t tlv_separator [] else add_tlv t tlv_state (state_m2 ∷ []))
  (n2, t2) ← add_tlv t1 tlv_identifier (c_string c.id)
  (n3, t3) ← add_tlv t2 tlv_public_key c.ltpk
  (n4, t4) ← add_tlv t3 tlv_permissions (c.perms ∷ [])
  some t4

-- The loop of `hap_process_pair_list`.
unfoldable pub list_loop : List CtrlData → Bool → TlvData → Option TlvData
list_loop [] entry_added t = some t
list_loop (c ∷ cs) entry_added t =
    let here = list_entry entry_added c.info t >>= list_loop cs true in
    let skip = list_loop cs entry_added t in if c.valid then here else skip

-- `strcpy` of the name with its terminator, which runs on into the key where the name fills its
-- array, and then the key and the permissions, for slot `i` of the table. What stands behind
-- `ctrl_id`, where a name of 64 bytes is read on, is taken for a 0.
unfoldable pub fill_slot : ℕ → List ℕ → List ℕ → ℕ → List CtrlData → List CtrlData
fill_slot i ctrl_id ltpkc perms cs =
    let c = slot cs i in
    let copied = overlay (c_string ctrl_id ++ (0 ∷ [])) (c.info.id ++ c.info.ltpk) in
    let info : CtrlInfo = record {
      id = take 64 copied;
      ltpk = overlay ltpkc (take 32 (drop 64 copied));
      perms = perms;
    } in
    set cs i (record c { info = info })

-- What `hap_process_pair_add` reads of the request.
unfoldable pub new_pairing : Locals → Request → Option (List ℕ × List ℕ × ℕ)
new_pairing l r = do
  ctrl_id ← ctrl_id_in r
  ltpkc ← value_in r tlv_public_key l.ltpkc
  perms ← byte_in r tlv_permissions l.perms
  some (ctrl_id, ltpkc, perms)

-- The state and the method of a request, if it opens an exchange.
unfoldable pub method_in : Locals → Request → Option ℕ
method_in l r = do
  state ← byte_in r tlv_state l.state
  method ← byte_in r tlv_method l.method
  if state == state_m1 then some method else none

module _ (k : Keystore) where
  open k use {Store}

  -- Whether the return is HAP_SUCCESS, the bytes `buf[0 .. *outlen)` of the answer, and the state.
  abbrev pub Answer : Type 0
  Answer = Bool × List ℕ × HapPriv Store

  unfoldable pub refuse : ℕ → ℕ → Request → HapPriv Store → Answer
  refuse state error r p = (false, hap_prepare_error_tlv state error r.bufsize, p)

  -- `hap_is_req_admin`; `none` is a null pointer.
  unfoldable pub hap_is_req_admin : Option ℕ → HapPriv Store → Bool
  hap_is_req_admin none p = false
  hap_is_req_admin (some a) p =
      ((p.heap a).state == state_verified) && ((slot p.controllers (p.heap a).ctrl).info.perms == 1)

  -- `hap_req_get_ctrl_id` and `hap_is_req_secure`
  unfoldable pub hap_req_get_ctrl_id : Option ℕ → HapPriv Store → Option (List ℕ)
  hap_req_get_ctrl_id none p = none
  hap_req_get_ctrl_id (some a) p =
      if (p.heap a).state == state_verified
      then some (slot p.controllers (p.heap a).ctrl).info.id
      else none

  unfoldable pub hap_is_req_secure : Option ℕ → HapPriv Store → Bool
  hap_is_req_secure none p = false
  hap_is_req_secure (some a) p = (p.heap a).state == state_verified

  -- One round of `hap_remove_all_controllers`, and its loop from index `i` on.
  unfoldable pub remove_if_valid : ℕ → HapPriv Store → HapPriv Store
  remove_if_valid i p =
      if (slot p.controllers i).valid
      then hap_controller_remove k (some i) (hap_close_sessions_of_ctrl (some i) p)
      else p

  unfoldable pub remove_all_loop : ℕ → ℕ → HapPriv Store → HapPriv Store
  remove_all_loop zero i p = p
  remove_all_loop (suc n) i p = remove_all_loop n (i + 1) (remove_if_valid i p)

  unfoldable pub hap_remove_all_controllers : HapPriv Store → HapPriv Store
  hap_remove_all_controllers p = remove_all_loop max_controllers 0 p

  -- The controllers after a removal: all go with the last administrator.
  unfoldable pub remove_ctrl : Option ℕ → HapPriv Store → Bool × HapPriv Store
  remove_ctrl ctrl p =
      let p' = hap_controller_remove k ctrl (hap_close_sessions_of_ctrl ctrl p) in
      if is_admin_paired p'.controllers then (false, p') else (true, hap_remove_all_controllers p')

  unfoldable pub removed : Request → Bool × HapPriv Store → Answer
  removed r (unpaired, p) = elim (state_answer r.bufsize) [
    | none ↦ refuse state_m2 error_unknown r p
    | some out ↦
        (true, out, (if unpaired then record p { effects = acc_unpaired ∷ p.effects } else p))
  ]

  -- `hap_process_pair_remove`
  unfoldable pub hap_process_pair_remove : Request → HapPriv Store → Answer
  hap_process_pair_remove r p = elim (ctrl_id_in r) [
    | none ↦ refuse state_m2 error_unknown r p
    | some ctrl_id ↦ removed r (remove_ctrl (hap_get_controller ctrl_id p.controllers) p)
  ]

  unfoldable pub added : Request → HapPriv Store → Answer
  added r p = elim (state_answer r.bufsize) [
    | none ↦ refuse state_m2 error_unknown r p
    | some out ↦ (true, out, p)
  ]

  -- The permissions of the controller at index `i` are changed and saved.
  unfoldable pub change_perms : ℕ → ℕ → HapPriv Store → HapPriv Store
  change_perms i perms p =
      let c = slot p.controllers i in
      let info = record c.info { perms = perms } in
      (hap_controller_save k i
        (record p { controllers = set p.controllers i (record c { info = info }) })).1

  unfoldable pub store_pairing :
      ℕ → List ℕ → List ℕ → ℕ → List CtrlData → HapPriv Store → HapPriv Store
  store_pairing i ctrl_id ltpkc perms cs p =
      (hap_controller_save k i (record p { controllers = fill_slot i ctrl_id ltpkc perms cs })).1

  -- The state after `hap_process_pair_add` has dealt with a pairing, or the error that it reports.
  -- The result of `hap_controller_save` is not looked at.
  unfoldable pub add_ctrl : List ℕ → List ℕ → ℕ → HapPriv Store → ℕ ⊎ HapPriv Store
  add_ctrl ctrl_id ltpkc perms p = elim (hap_get_controller ctrl_id p.controllers) [
    | some i ↦
        if bytes_eq ltpkc (slot p.controllers i).info.ltpk
        then inr (change_perms i perms p)
        else inl error_unknown
    | none ↦ elim (hap_controller_get_empty_loc p.controllers) [
      | none ↦ inl error_max_peers
      | some (i, cs) ↦ inr (store_pairing i ctrl_id ltpkc perms cs p)
    ]
  ]

  -- `hap_process_pair_add`
  unfoldable pub hap_process_pair_add : Locals → Request → HapPriv Store → Answer
  hap_process_pair_add l r p = elim (new_pairing l r) [
    | none ↦ refuse state_m4 error_unknown r p
    | some (ctrl_id, ltpkc, perms) ↦ elim (add_ctrl ctrl_id ltpkc perms p) [
      | inl error ↦ refuse state_m2 error r p
      | inr q ↦ added r q
    ]
  ]

  -- `hap_process_pair_list`
  unfoldable pub hap_process_pair_list : Request → HapPriv Store → Answer
  hap_process_pair_list r p =
      elim (list_loop p.controllers false (hap_tlv_data_init true r.bufsize)) [
        | none ↦ refuse state_m2 error_unknown r p
        | some t ↦ (true, t.bytes, p)
      ]

  unfoldable pub dispatch : ℕ → Locals → Request → HapPriv Store → Answer
  dispatch method l r p =
      if method == add_pairing
      then hap_process_pair_add l r p
      else if method == remove_pairing
      then hap_process_pair_remove r p
      else if method == list_pairings
      then hap_process_pair_list r p
      else refuse state_m2 error_unknown r p

  -- `hap_pairings_process`
  unfoldable pub hap_pairings_process : Option ℕ → Locals → Request → HapPriv Store → Answer
  hap_pairings_process session l r p =
      if hap_is_req_admin session p
      then elim (method_in l r) [
        | none ↦ refuse state_m2 error_unknown r p
        | some method ↦ dispatch method l r p
      ]
      else refuse state_m2 error_authentication r p
