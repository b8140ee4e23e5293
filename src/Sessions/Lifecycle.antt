-- ===== src/Sessions/Lifecycle.antt =====
-- esp_hap_pair_verify.c: what adding, freeing and closing sessions does to the table, the bitmaps and the connections.
use nina_fw_homekit.Prelude.{
  ℕ, ◌<◌, ◌≡◌, ◌≢◌, inl, inr, refl, sym, ap, ◌∙◌, arith, false, none, some, List, [], ◌∷◌, ◌++◌,
  get_or, length, set, ◌==◌, if◌then◌else◌, Bool-cases, Option-cases, get_or-set_self,
  get_or-set_ne, ℕ_discrete, length-set,
}
use mathlib.Core.List.{Memᴰ, reverse, reverse-cons, append_assoc}
use nina_fw_homekit.HapPriv.{
  HapPriv, Session, Effect, ctrl_paired, ctrl_unpaired, ctrl_connected, ctrl_disconnected,
  trigger_close, acc_unpaired, acc_paired, pairing_started, pairing_aborted,
}
use nina_fw_homekit.Sessions.{
  find_session, find_free, close_sessions_loop, hap_close_sessions_of_ctrl, hap_add_secure_session,
  hap_free_session, hap_get_ctrl_session_index, hap_char_is_ctrl_subscribed,
}
use nina_fw_homekit.Sessions.Walk.{all-Resets, all_off}
use nina_fw_homekit.Sessions.Slots.{
  Slots, NoRepeat, find_session-some, find_session-none, find_free-some,
}

-- A table without the session gives no index for it.
index_absent :
    (a : ℕ) (ss : Slots)
    → ((j : ℕ) → get_or ss j none ≢ some a)
    → hap_get_ctrl_session_index a ss ≡ none
unfolding hap_get_ctrl_session_index
index_absent a ss h = elim (Option-cases (find_session a 0 ss)) [
  | inl e ↦ e
  | inr (j, e) ↦ absurd (h j (find_session-some a ss j e).1)
]

-- A session that stands in a slot, and in that one only, is found there.
index_present :
    (a i : ℕ) (ss : Slots)
    → i < length ss
    → get_or ss i none ≡ some a
    → ((j : ℕ) → get_or ss j none ≡ some a → j ≡ i)
    → hap_get_ctrl_session_index a ss ≡ some i
unfolding hap_get_ctrl_session_index
index_present a i ss h e only = elim (Option-cases (find_session a 0 ss)) [
  | inl none_at ↦ absurd (find_session-none a 0 i ss none_at h e)
  | inr (j, at_j) ↦ at_j ∙ ap some (only j (find_session-some a ss j at_j).1)
]

-- A session that is in no slot is written to one.
NoRepeat-set :
    (a i : ℕ) (ss : Slots)
    → i < length ss
    → NoRepeat ss
    → ((j : ℕ) → get_or ss j none ≢ some a)
    → NoRepeat (set ss i (some a))
NoRepeat-set a i ss h once fresh b j l ej el = elim (ℕ_discrete i j) [
  | yes ij ↦ elim (ℕ_discrete i l) [
    | yes il ↦ sym ij ∙ il
    | no nl ↦ absurd (fresh l (sym (kept l nl) ∙ el ∙ sym (at_i j ij ej)))
  ]
  | no nj ↦ elim (ℕ_discrete i l) [
    | yes il ↦ absurd (fresh j (sym (kept j nj) ∙ ej ∙ sym (at_i l il el)))
    | no nl ↦ once b j l (sym (kept j nj) ∙ ej) (sym (kept l nl) ∙ el)
  ]
]
  where
    kept : (n : ℕ) → i ≢ n → get_or (set ss i (some a)) n none ≡ get_or ss n none
    kept n ne = get_or-set_ne ss i n (some a) none ne

    at_i : (n : ℕ) → i ≡ n → get_or (set ss i (some a)) n none ≡ some b → some a ≡ some b
    at_i n e g =
        sym (get_or-set_self ss i (some a) none h)
        ∙ ap (λ (m : ℕ). get_or (set ss i (some a)) m none) e
        ∙ g

module _ {Store : Type 0} (p : HapPriv Store) (a i : ℕ) where
  free_sessions :
      find_session a 0 p.sessions ≡ some i
      → (hap_free_session (some a) p).sessions ≡ set p.sessions i none
  unfolding hap_free_session
  free_sessions e = ground arith

  -- If no session stands in two slots, a session of the table that ends is in the table no more,
  -- and every other slot keeps its session.
  pub hap_free_session_slots :
      NoRepeat p.sessions
      → hap_get_ctrl_session_index a p.sessions ≡ some i
      → let p' = hap_free_session (some a) p in
        (hap_get_ctrl_session_index a p'.sessions ≡ none)
        × ((j : ℕ) → i ≢ j → get_or p'.sessions j none ≡ get_or p.sessions j none)
  unfolding hap_get_ctrl_session_index
  hap_free_session_slots once found =
      let there = find_session-some a p.sessions i found in
      rw (free_sessions found) (
        index_absent a (set p.sessions i none) (λ j e. elim (ℕ_discrete i j) [
          | yes same ↦ absurd (
              cc (
                get_or-set_self p.sessions i none none there.0,
                ap (λ (n : ℕ). get_or (set p.sessions i none) n none) same,
                e,
              ))
          | no ne ↦ ne (once a i j there.1 (sym (get_or-set_ne p.sessions i j none none ne) ∙ e))
        ]),
        λ j ne. get_or-set_ne p.sessions i j none none ne,
      )

  -- After hap_free_session of the session that is found at a slot, the bit of that slot is off in
  -- the bitmap of every characteristic of every service of every accessory in the chains of
  -- objects, and the bits of the other slots are kept.
  pub hap_free_session_subscriptions :
      hap_get_ctrl_session_index a p.sessions ≡ some i
      → let ev_ctrls' = (hap_free_session (some a) p).ev_ctrls in
        ((ha : List (List ℕ)) (hs : List ℕ) (c : ℕ)
          → Memᴰ ha p.chains
          → Memᴰ hs ha
          → Memᴰ c hs
          → hap_char_is_ctrl_subscribed (ev_ctrls' c) i ≡ false)
        × ((c j : ℕ)
            → i ≢ j
            → hap_char_is_ctrl_subscribed (ev_ctrls' c) j
              ≡ hap_char_is_ctrl_subscribed (p.ev_ctrls c) j)
  unfolding hap_free_session hap_get_ctrl_session_index hap_char_is_ctrl_subscribed
  hap_free_session_subscriptions found =
      rw (found, hap_free_session)
        (
          (λ ha hs c in_all in_ha in_hs. all_off i p.chains p.ev_ctrls in_all in_ha in_hs),
          (all-Resets i p.chains p.ev_ctrls).0,
        )

  -- A new session, with a slot free at `i`.
  added_sessions :
      find_free 0 p.sessions ≡ some i
      → (hap_add_secure_session a p).sessions ≡ set p.sessions i (some a)
  unfolding hap_add_secure_session
  added_sessions e = ground arith

  -- If no session stands in two slots and the table does not hold the new session, which is added
  -- while the first free slot is i, then it is found at i, the other slots keep their sessions, and
  -- no session stands in two slots.
  pub hap_add_secure_session_lem :
      NoRepeat p.sessions
      → ((j : ℕ) → get_or p.sessions j none ≢ some a)
      → find_free 0 p.sessions ≡ some i
      → let p' = hap_add_secure_session a p in
        (hap_get_ctrl_session_index a p'.sessions ≡ some i)
        × ((j : ℕ) → i ≢ j → get_or p'.sessions j none ≡ get_or p.sessions j none)
        × NoRepeat p'.sessions
  hap_add_secure_session_lem once fresh free =
      let room = find_free-some p.sessions i free in
      let here = get_or-set_self p.sessions i (some a) none room.0 in
      let others = λ (j : ℕ) (ne : i ≢ j). get_or-set_ne p.sessions i j (some a) none ne in
      rw (added_sessions free) (
        index_present a i (set p.sessions i (some a))
            (omega (arith, length-set p.sessions i (some a), room.0)) here
            (λ j e. elim (ℕ_discrete i j) [
              | yes same ↦ sym same
              | no ne ↦ absurd (fresh j (sym (others j ne) ∙ e))
            ]),
        others,
        NoRepeat-set a i p.sessions room.0 once fresh,
      )

  -- If every slot is taken, and by other sessions, the session that is added has no index
  -- afterwards.
  pub hap_add_secure_session_full :
      ((j : ℕ) → j < length p.sessions → get_or p.sessions j none ≢ none)
      → ((j : ℕ) → get_or p.sessions j none ≢ some a)
      → hap_get_ctrl_session_index a (hap_add_secure_session a p).sessions ≡ none
  unfolding hap_add_secure_session
  hap_add_secure_session_full full fresh = elim (Option-cases (find_free 0 p.sessions)) [
    | inl e ↦ rw (e, hap_add_secure_session) (index_absent a p.sessions fresh)
    | inr (j, e) ↦ let room = find_free-some p.sessions j e in absurd (full j room.0 room.1)
  ]

-- The connections that are closed, newest first, and those of the sessions of a controller.
abbrev pub closed : List Effect → List ℕ
closed [] = []
closed (trigger_close n ∷ es) = n ∷ closed es
closed (ctrl_paired id ∷ es) = closed es
closed (ctrl_unpaired id ∷ es) = closed es
closed (ctrl_connected id ∷ es) = closed es
closed (ctrl_disconnected id ∷ es) = closed es
closed (acc_unpaired ∷ es) = closed es
closed (acc_paired ∷ es) = closed es
closed (pairing_started ∷ es) = closed es
closed (pairing_aborted ∷ es) = closed es

abbrev pub conns_of : ℕ → (ℕ → Session) → Slots → List ℕ
conns_of c heap [] = []
conns_of c heap (none ∷ ss) = conns_of c heap ss
conns_of c heap (some a ∷ ss) =
    if (heap a).ctrl == c then (heap a).conn_identifier ∷ conns_of c heap ss else conns_of c heap ss

close_sessions_loop_lem :
    (id : List ℕ) (c : ℕ) (heap : ℕ → Session) (ss : Slots) (es : List Effect)
    → closed (close_sessions_loop id c heap ss es) ≡ reverse (conns_of c heap ss) ++ closed es
unfolding close_sessions_loop
close_sessions_loop_lem id c heap [] es = refl
close_sessions_loop_lem id c heap (none ∷ ss) es = close_sessions_loop_lem id c heap ss es
close_sessions_loop_lem id c heap (some a ∷ ss) es = elim (Bool-cases ((heap a).ctrl == c)) [
  | inl hit ↦ rw hit (
      close_sessions_loop_lem id c heap ss
        (trigger_close (heap a).conn_identifier ∷ ctrl_disconnected id ∷ es)
      ∙ sym (
          ap (λ t. t ++ closed es) (reverse-cons (heap a).conn_identifier (conns_of c heap ss))
          ∙ append_assoc (reverse (conns_of c heap ss)) ((heap a).conn_identifier ∷ [])
              (closed es)))
  | inr miss ↦ rw miss (close_sessions_loop_lem id c heap ss es)
]

-- hap_close_sessions_of_ctrl closes the connections of exactly the sessions in the table that
-- belong to the controller, in the order of the slots.
pub hap_close_sessions_of_ctrl_lem :
    {Store : Type 0} (p : HapPriv Store) (c : ℕ)
    → closed (hap_close_sessions_of_ctrl (some c) p).effects
      ≡ reverse (conns_of c p.heap p.sessions) ++ closed p.effects
unfolding hap_close_sessions_of_ctrl
hap_close_sessions_of_ctrl_lem p c = close_sessions_loop_lem _ c p.heap p.sessions p.effects
