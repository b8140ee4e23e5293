-- ===== src/Transport/Sending.antt =====
-- esp_hap_network_io.c: what `hap_httpd_send` puts on the network.
use nina_fw_homekit.Prelude.{
  ℕ, zero, suc, ◌≤◌, ◌<◌, ◌≡◌, refl, sym, ap, subst, ◌∙◌, arith, Bool, true, false, some, List, [],
  ◌∷◌, ◌++◌, append-nil, append_assoc, length, take, drop, min, length-take, length-drop,
  take-append-drop, take_all, ◌==◌,
}
use nina_fw_homekit.ByteConvert.{put_u16_le}
use nina_fw_homekit.HapPriv.{HapPriv, Session, state_verified}
use nina_fw_homekit.Sessions.{set_session}
use nina_fw_homekit.Crypto.{Cipher}
use nina_fw_homekit.Transport.{
  Socket, max_nw_frame_size, hap_encrypt_data, send_loop, hap_httpd_send,
}

-- The pieces of a message put together again.
abbrev pub concat : List (List ℕ) → List ℕ
concat [] = []
concat (x ∷ xs) = x ++ concat xs

-- Every piece has a byte, and fits a frame.
abbrev pub IsFrameList : List (List ℕ) → Type 0
IsFrameList [] = Unit {0}
IsFrameList (x ∷ xs) = (0 < length x) × (length x ≤ max_nw_frame_size) × IsFrameList xs

-- The frames of the pieces, one behind the other, and the session after them.
abbrev pub encrypt_all : Cipher → Session → List (List ℕ) → List ℕ × Session
encrypt_all c s [] = ([], s)
encrypt_all c s (x ∷ xs) =
    let here = hap_encrypt_data c s x in
    let rest = encrypt_all c here.1 xs in (here.0 ++ rest.0, rest.1)

frame_some : (c : Cipher) (s : Session) (m : List ℕ) → 0 < length (hap_encrypt_data c s m).0
unfolding hap_encrypt_data put_u16_le
frame_some c s m = omega arith

module _ (c : Cipher) (k : Socket)
    (takes : (b : List ℕ) (net : k.Net) → (k.send b net).0 ≡ length b) where
  open k use {Net, send, sent}

  sent_whole : (b : List ℕ) (net : Net) → sent (send b net).1 ≡ sent net ++ b
  sent_whole b net =
      k.send-sent b net
      ∙ ap (λ t. sent net ++ t)
          (ap (λ n. take n b) (takes b net) ∙ take_all (length b) b (omega arith))

  abbrev IsSent : Session → List ℕ → Net → Bool × Session × Net → Type 0
  IsSent s buf net r =
      (pieces : List (List ℕ)) × (concat pieces ≡ buf)
      × IsFrameList pieces
      × (r.0 ≡ true)
      × (r.1 ≡ (encrypt_all c s pieces).1)
      × (sent r.2 ≡ sent net ++ (encrypt_all c s pieces).0)

  send_loop_lem :
      (fuel : ℕ) (buf : List ℕ) (s : Session) (net : Net)
      → length buf ≤ fuel
      → IsSent s buf net (send_loop c k fuel buf s net)
  unfolding send_loop
  send_loop_lem zero [] s net h = ([], refl, tt, refl, refl, sym (append-nil (sent net)))
  send_loop_lem zero (x ∷ xs) s net h = absurd (omega arith)
  send_loop_lem (suc fuel) [] s net h = ([], refl, tt, refl, refl, sym (append-nil (sent net)))
  send_loop_lem (suc fuel) (x ∷ xs) s net h =
      let buf = x ∷ xs in
      let len = min (length buf) max_nw_frame_size in
      let piece = take len buf in
      let here = hap_encrypt_data c s piece in
      let net' = (send here.0 net).1 in
      let (pieces, all, fit, ok, after, wire) =
        send_loop_lem fuel (drop len buf) here.1 net' (omega (arith, length-drop len buf)) in
      let some_left : (length buf == 0) ≡ false = ground arith in
      let took : ((send here.0 net).0 == 0) ≡ false =
        ground (arith, takes here.0 net, frame_some c s piece) in
      let step : send_loop c k (suc fuel) buf s net
          ≡ send_loop c k fuel (drop len buf) here.1 net' =
        rw (some_left, took) refl in
      subst (IsSent s buf net) (sym step) (
        piece ∷ pieces,
        ap (λ t. piece ++ t) all ∙ take-append-drop len buf,
        (omega (arith, length-take len buf), omega (arith, length-take len buf), fit),
        ok,
        after,
        wire
            ∙ ap (λ t. t ++ (encrypt_all c here.1 pieces).0) (sent_whole here.0 net)
            ∙ append_assoc (sent net) here.0 (encrypt_all c here.1 pieces).0,
      )

  -- On a verified session, and if the socket takes every frame whole, hap_httpd_send splits the
  -- message into pieces of 1 to 1024 bytes, sends their frames one behind the other, each under the
  -- nonce that the frame before it leaves, and succeeds.
  pub hap_httpd_send-encrypt_all :
      {Store : Type 0} (a : ℕ) (buf : List ℕ) (p : HapPriv Store) (net : Net)
      → (p.heap a).state ≡ state_verified
      → let (ok, q, net') = hap_httpd_send c k (some a) buf p net in
        (pieces : List (List ℕ)) × (concat pieces ≡ buf)
        × IsFrameList pieces
        × (ok ≡ true)
        × (q.heap a ≡ (encrypt_all c (p.heap a) pieces).1)
        × (sent net' ≡ sent net ++ (encrypt_all c (p.heap a) pieces).0)
  unfolding hap_httpd_send set_session
  hap_httpd_send-encrypt_all a buf p net v =
      let verified : ((p.heap a).state == state_verified) ≡ true = ground (arith, v) in
      let here : (a == a) ≡ true = ground arith in
      let (pieces, all, fit, ok, after, wire) =
        send_loop_lem (length buf) buf (p.heap a) net (omega arith) in
      (pieces, all, fit, rw verified ok, rw (verified, here) after, rw verified wire)
