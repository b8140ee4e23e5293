-- ===== src/Pairings/Access.antt =====
-- esp_hap_pairings.c: who may change the pairings.
use nina_fw_homekit.Prelude.{
  ℕ, ◌≤◌, ◌≡◌, ◌⊎◌, inl, inr, refl, ap, ◌∙◌, arith, true, false, Option, none, some, [], ◌∷◌,
  length, ◌==◌, ==_iff, Bool-cases, Option-cases,
}
use nina_fw_homekit.Keystore.{Keystore}
use nina_fw_homekit.HapPriv.{HapPriv, slot, state_verified}
use nina_fw_homekit.Tlv.{hap_tlv_data_init, get_value_from_tlv, tlv_state, tlv_error}
use nina_fw_homekit.Tlv.Writing.{hap_prepare_error_tlv_lem}
use nina_fw_homekit.Pairings.{
  Locals, Request, hap_is_req_admin, hap_pairings_process, hap_process_pair_list, refuse, dispatch,
  method_in, error_authentication, state_m2, add_pairing, remove_pairing, list_pairings, list_loop,
}

-- Whose request it is: a session object that has gone through Pair Verify, for a controller whose
-- slot has the administrator's permissions now.
abbrev pub IsAdminSession : {Store : Type 0} → Option ℕ → HapPriv Store → Type 0
IsAdminSession none p = ⊥
IsAdminSession (some a) p =
    ((p.heap a).state ≡ state_verified) × ((slot p.controllers (p.heap a).ctrl).info.perms ≡ 1)

module _ (k : Keystore) where
  admin_session :
      (session : Option ℕ) (p : HapPriv k.Store)
      → hap_is_req_admin k session p ≡ true
      → IsAdminSession session p
  unfolding hap_is_req_admin
  admin_session none p h = cc
  admin_session (some a) p h = ground arith

  -- A request that is not on a verified session of an administrator, to a buffer of at least six
  -- bytes, fails, changes nothing, and is answered by state M2 and the error of authentication,
  -- which are read back from the answer.
  pub pairings_process_not_admin :
      (session : Option ℕ) (l : Locals) (r : Request) (p : HapPriv k.Store)
      → ¬ IsAdminSession session p
      → 6 ≤ r.bufsize
      → let (ret, out, q) = hap_pairings_process k session l r p in
        (ret ≡ false)
        × (q ≡ p)
        × (get_value_from_tlv out (length out) tlv_state 1 ≡ some (state_m2 ∷ []))
        × (get_value_from_tlv out (length out) tlv_error 1 ≡ some (error_authentication ∷ []))
  unfolding hap_pairings_process refuse
  pairings_process_not_admin session l r p h room =
      elim (Bool-cases (hap_is_req_admin k session p)) [
        | inl a ↦ absurd (h (admin_session session p a))
        | inr a ↦
            let e = hap_prepare_error_tlv_lem state_m2 error_authentication r.bufsize room in
            rw a (refl, refl, e.1, e.2)
      ]

  list_keeps : (r : Request) (p : HapPriv k.Store) → (hap_process_pair_list k r p).2 ≡ p
  unfolding hap_process_pair_list refuse
  list_keeps r p =
      elim (Option-cases (list_loop p.controllers false (hap_tlv_data_init true r.bufsize))) [
        | inl e ↦ rw (e, hap_process_pair_list) refl
        | inr (t, e) ↦ rw (e, hap_process_pair_list) refl
      ]

  dispatch_keeps :
      (method : ℕ) (l : Locals) (r : Request) (p : HapPriv k.Store)
      → ((dispatch k method l r p).2 ≡ p) ⊎ ((method ≡ add_pairing) ⊎ (method ≡ remove_pairing))
  unfolding dispatch refuse
  dispatch_keeps method l r p = elim (Bool-cases (method == add_pairing)) [
    | inl a ↦ inr (inl ((==_iff method add_pairing).0 a))
    | inr na ↦ elim (Bool-cases (method == remove_pairing)) [
      | inl d ↦ inr (inr ((==_iff method remove_pairing).0 d))
      | inr nd ↦ elim (Bool-cases (method == list_pairings)) [
        | inl t ↦ inl (rw (na, nd, t) (list_keeps r p))
        | inr nt ↦ inl (rw (na, nd, nt) refl)
      ]
    ]
  ]

  -- Whatever a request to /pairings does to the state, either nothing is changed or the request is
  -- on a verified session of a controller with the administrator's permissions and asks to add or
  -- to remove a pairing.
  pub pairings_process_changes :
      (session : Option ℕ) (l : Locals) (r : Request) (p : HapPriv k.Store)
      → ((hap_pairings_process k session l r p).2 ≡ p)
        ⊎ (IsAdminSession session p
            × ((method_in l r ≡ some add_pairing) ⊎ (method_in l r ≡ some remove_pairing)))
  unfolding hap_pairings_process refuse
  pairings_process_changes session l r p = elim (Bool-cases (hap_is_req_admin k session p)) [
    | inr a ↦ inl (rw a refl)
    | inl a ↦ elim (Option-cases (method_in l r)) [
      | inl e ↦ inl (rw (a, e, hap_pairings_process) refl)
      | inr (method, e) ↦ elim (dispatch_keeps method l r p) [
        | inl same ↦ inl (rw (a, e, hap_pairings_process) same)
        | inr (inl add) ↦ inr (admin_session session p a, inl (e ∙ ap some add))
        | inr (inr remove) ↦ inr (admin_session session p a, inr (e ∙ ap some remove))
      ]
    ]
  ]
