-- ===== src/Sessions.antt =====
-- esp_hap_pair_verify.c: the table of secure sessions, and the notification bitmaps that
-- esp_hap_char.c keeps for them. The table has a slot for each session; the bit of a slot in a
-- bitmap says that its session is subscribed.
pub mod Subscriptions
pub mod Walk
pub mod Slots
pub mod Lifecycle
use nina_fw_homekit.Prelude.{
  ℕ, zero, suc, ◌+◌, ◌-◌, ◌*◌, ◌/◌, ◌%◌, ◌^◌, Bool, true, false, not, ◌&&◌, Option, none, some,
  List, [], ◌∷◌, get_or, set, map, ◌==◌, if◌then◌else◌,
}
use nina_fw_homekit.HapPriv.{
  HapPriv, Session, CtrlInfo, Effect, ctrl_connected, ctrl_disconnected, trigger_close, slot,
  state_verified,
}

-- `(1 << index)` tested against a bitmap
unfoldable pub test_bit : ℕ → ℕ → Bool
test_bit val index = val / 2 ^ index % 2 == 1

-- The macros `set_bit` and `reset_bit`, on the 16 bits of a bitmap: with one bit at issue, the or
-- adds it where it is off, and the mask takes it away where it is on.
unfoldable pub set_bit : ℕ → ℕ → ℕ
set_bit val index = if test_bit val index then val else (val + 2 ^ index) % 2 ^ 16

unfoldable pub reset_bit : ℕ → ℕ → ℕ
reset_bit val index = if test_bit val index then val - 2 ^ index else val

-- `hap_char_manage_notification`, `hap_char_is_ctrl_subscribed` on the bitmap of a characteristic
unfoldable pub hap_char_manage_notification : ℕ → ℕ → Bool → ℕ
hap_char_manage_notification ev_ctrls index ev =
    if ev then set_bit ev_ctrls index else reset_bit ev_ctrls index

unfoldable pub hap_char_is_ctrl_subscribed : ℕ → ℕ → Bool
hap_char_is_ctrl_subscribed ev_ctrls index = test_bit ev_ctrls index

-- The three loops of `hap_disable_all_char_notif`: over the characteristics of a service, the
-- services of an accessory, and the accessories.
unfoldable pub disable_chars : ℕ → List ℕ → (ℕ → ℕ) → ℕ → ℕ
disable_chars index [] ev_ctrls = ev_ctrls
disable_chars index (hc ∷ hcs) ev_ctrls =
    disable_chars index hcs (λ c. if c == hc then reset_bit (ev_ctrls hc) index else ev_ctrls c)

unfoldable pub disable_servs : ℕ → List (List ℕ) → (ℕ → ℕ) → ℕ → ℕ
disable_servs index [] ev_ctrls = ev_ctrls
disable_servs index (hs ∷ hss) ev_ctrls = disable_servs index hss (disable_chars index hs ev_ctrls)

unfoldable pub hap_disable_all_char_notif : ℕ → List (List (List ℕ)) → (ℕ → ℕ) → ℕ → ℕ
hap_disable_all_char_notif index [] ev_ctrls = ev_ctrls
hap_disable_all_char_notif index (ha ∷ has) ev_ctrls =
    hap_disable_all_char_notif index has (disable_servs index ha ev_ctrls)

-- Whether a slot holds a given session.
unfoldable pub holds : Option ℕ → ℕ → Bool
holds none session = false
holds (some a) session = a == session

-- The first slot from index `i` on that holds a session, and the first that is free.
unfoldable pub find_session : ℕ → ℕ → List (Option ℕ) → Option ℕ
find_session session i [] = none
find_session session i (s ∷ ss) =
    let rest = find_session session (i + 1) ss in if holds s session then some i else rest

unfoldable pub find_free : ℕ → List (Option ℕ) → Option ℕ
find_free i [] = none
find_free i (none ∷ ss) = some i
find_free i (some a ∷ ss) = find_free (i + 1) ss

-- `hap_get_ctrl_session_index`; `none` is -1.
unfoldable pub hap_get_ctrl_session_index : ℕ → List (Option ℕ) → Option ℕ
hap_get_ctrl_session_index session ss = find_session session 0 ss

-- The effects of `hap_close_session` for the slots of a table, on top of those so far.
unfoldable pub close_session_loop : List ℕ → ℕ → ℕ → List (Option ℕ) → List Effect → List Effect
close_session_loop id session conn [] effects = effects
close_session_loop id session conn (s ∷ ss) effects =
    close_session_loop id session conn ss
      (if holds s session then trigger_close conn ∷ ctrl_disconnected id ∷ effects else effects)

-- The effects of `hap_close_sessions_of_ctrl`.
unfoldable pub close_sessions_loop :
    List ℕ → ℕ → (ℕ → Session) → List (Option ℕ) → List Effect → List Effect
close_sessions_loop id ctrl heap [] effects = effects
close_sessions_loop id ctrl heap (none ∷ ss) effects = close_sessions_loop id ctrl heap ss effects
close_sessions_loop id ctrl heap (some a ∷ ss) effects = close_sessions_loop id ctrl heap ss (
    if (heap a).ctrl == ctrl
    then trigger_close (heap a).conn_identifier ∷ ctrl_disconnected id ∷ effects
    else effects)

module _ {Store : Type 0} where
  -- `session->ctrl->info`
  unfoldable pub session_info : HapPriv Store → ℕ → CtrlInfo
  session_info p a = (slot p.controllers (p.heap a).ctrl).info

  -- `hap_close_session`; `none` is a null pointer.
  unfoldable pub hap_close_session : Option ℕ → HapPriv Store → HapPriv Store
  hap_close_session none p = p
  hap_close_session (some a) p = record p {
    effects =
        close_session_loop (session_info p a).id a (p.heap a).conn_identifier p.sessions p.effects;
  }

  -- `hap_close_sessions_of_ctrl`
  unfoldable pub hap_close_sessions_of_ctrl : Option ℕ → HapPriv Store → HapPriv Store
  hap_close_sessions_of_ctrl none p = p
  hap_close_sessions_of_ctrl (some c) p = record p {
    effects = close_sessions_loop (slot p.controllers c).info.id c p.heap p.sessions p.effects;
  }

  -- The loop of `hap_close_all_sessions` over the slots that are left.
  unfoldable pub close_all_loop : List (Option ℕ) → HapPriv Store → HapPriv Store
  close_all_loop [] p = p
  close_all_loop (s ∷ ss) p = close_all_loop ss (hap_close_session s p)

  unfoldable pub hap_close_all_sessions : HapPriv Store → HapPriv Store
  hap_close_all_sessions p = close_all_loop p.sessions p

  -- `hap_add_secure_session`: with no free slot, nothing happens.
  unfoldable pub hap_add_secure_session : ℕ → HapPriv Store → HapPriv Store
  hap_add_secure_session a p = elim (find_free 0 p.sessions) [
    | none ↦ p
    | some i ↦ record p {
      sessions = set p.sessions i (some a);
      disconnected_event_sent = false;
      effects = ctrl_connected (session_info p a).id ∷ p.effects;
    }
  ]

  -- `hap_free_session`; the object itself goes back to the allocator.
  unfoldable pub hap_free_session : Option ℕ → HapPriv Store → HapPriv Store
  hap_free_session none p = p
  hap_free_session (some a) p = elim (find_session a 0 p.sessions) [
    | none ↦ p
    | some i ↦ record p {
      sessions = set p.sessions i none;
      ev_ctrls = hap_disable_all_char_notif i p.chains p.ev_ctrls;
    }
  ]

  -- `*session = ...`
  unfoldable pub set_session : ℕ → Session → HapPriv Store → HapPriv Store
  set_session a s p = record p { heap = λ b. if b == a then s else p.heap b }
