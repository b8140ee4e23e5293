-- ===== src/Transport/Failure.antt =====
-- esp_hap_network_io.c: a session whose reading fails.
use nina_fw_homekit.Prelude.{
  ℕ, ◌≡◌, ◌≢◌, inl, inr, refl, sym, subst, arith, true, false, none, some, ◌==◌, Bool-cases,
  Option-cases,
}
use nina_fw_homekit.HapPriv.{HapPriv, state_verified, state_invalid}
use nina_fw_homekit.Sessions.{hap_close_session}
use nina_fw_homekit.Sessions.{set_session}
use nina_fw_homekit.Crypto.{Cipher}
use nina_fw_homekit.Transport.{
  Socket, DecryptFrame, owned, hap_session_error, open_packet, read_packet, opened, next_packet,
  hap_decrypt_data, hap_httpd_recv, Received,
}

session_error_invalid :
    {Store : Type 0} (a : ℕ) (p : HapPriv Store)
    → ((hap_session_error a p).heap a).state ≡ state_invalid
unfolding hap_session_error set_session hap_close_session
session_error_invalid a p = let here : (a == a) ≡ true = ground arith in rw here refl

module _ (c : Cipher) (k : Socket) {Store : Type 0} where
  open k use {Net}

  -- The result is no error, or the session is invalid.
  abbrev IsMarked : ℕ → Received k Store → Type 0
  IsMarked a r = (r.0 ≡ none) → (r.2.heap a).state ≡ state_invalid

  next_packet_error :
      (a n : ℕ) (f : DecryptFrame) (p : HapPriv Store) (net : Net)
      → IsMarked a (next_packet c k a n f p net)
  unfolding next_packet opened
  next_packet_error a n f p net = elim (Bool-cases (read_packet k f net).0) [
    | inr short ↦ rw short (λ e. session_error_invalid a p)
    | inl ok ↦ elim (Option-cases (open_packet c (read_packet k f net).1 (p.heap a))) [
      | inl e1 ↦ rw (ok, e1, opened) (λ e. session_error_invalid a p)
      | inr ((f', s), e1) ↦ rw (ok, e1, opened) (λ e. absurd (cc e))
    ]
  ]

  decrypt_error :
      (a n : ℕ) (f : DecryptFrame) (p : HapPriv Store) (net : Net)
      → IsMarked a (hap_decrypt_data c k a n f p net)
  unfolding hap_decrypt_data
  decrypt_error a n f p net = elim (Bool-cases ((owned a f).pkt_size == (owned a f).bytes_read)) [
    | inl d ↦ rw d (next_packet_error a n (owned a f) p net)
    | inr d ↦ rw d (λ e. absurd (cc e))
  ]

  IsOver : ℕ → Received k Store → Type 0
  IsOver a r =
      r.0 ≡ none
      → ((r.2.heap a).state ≢ state_verified)
        × ((m : ℕ) → hap_httpd_recv c k (some a) m r.1 r.2 r.3 ≡ (none, r.1, r.2, r.3))

  refused :
      (a m : ℕ) (f : DecryptFrame) (p : HapPriv Store) (net : Net)
      → (p.heap a).state ≢ state_verified
      → hap_httpd_recv c k (some a) m f p net ≡ (none, f, p, net)
  unfolding hap_httpd_recv
  refused a m f p net h =
      let not_verified : ((p.heap a).state == state_verified) ≡ false = ground (arith, h) in
      rw not_verified refl

  verified_recv :
      (a n : ℕ) (f : DecryptFrame) (p : HapPriv Store) (net : Net)
      → ((p.heap a).state == state_verified) ≡ true
      → hap_httpd_recv c k (some a) n f p net ≡ hap_decrypt_data c k a n f p net
  unfolding hap_httpd_recv
  verified_recv a n f p net v = rw v refl

  -- Once hap_httpd_recv has failed on a session, the session is not verified, and every further
  -- call fails with no effect on the state, the frame or the network.
  pub hap_httpd_recv_error :
      (a n : ℕ) (frame : DecryptFrame) (p : HapPriv Store) (net : Net)
      → (hap_httpd_recv c k (some a) n frame p net).0 ≡ none
      → let (out, f, q, net') = hap_httpd_recv c k (some a) n frame p net in
        ((q.heap a).state ≢ state_verified)
        × ((m : ℕ) → hap_httpd_recv c k (some a) m f q net' ≡ (none, f, q, net'))
  unfolding IsOver
  hap_httpd_recv_error a n frame p net = elim (Bool-cases ((p.heap a).state == state_verified)) [
    | inl v ↦
        let same : hap_httpd_recv c k (some a) n frame p net
            ≡ hap_decrypt_data c k a n frame p net =
          verified_recv a n frame p net v in
        subst (IsOver a) (sym same) (λ e.
          let bad : ((hap_decrypt_data c k a n frame p net).2.heap a).state ≢ state_verified =
            λ v'. absurd (omega (arith, v', decrypt_error a n frame p net e)) in
          (bad, λ m. refused a m _ _ _ bad))
    | inr v ↦
        let other : (p.heap a).state ≢ state_verified = λ w. absurd (ground (arith, w, v)) in
        subst (IsOver a) (sym (refused a n frame p net other))
          (λ e. (other, λ m. refused a m frame p net other))
  ]
