-- ===== src/Transport/Receiving.antt =====
-- esp_hap_network_io.c: `hap_decrypt_data` against `hap_encrypt_data`.
use nina_fw_homekit.Prelude.{
  ℕ, ◌+◌, ◌%◌, ◌^◌, ◌≤◌, ◌<◌, ◌≡◌, refl, sym, ap, ◌∙◌, arith, Bool, true, false, some, List, [],
  ◌++◌, append_assoc, length, take, drop, length-append, take-append_eq, drop-append_eq, ◌==◌,
}
use nina_fw_homekit.Prelude.Strings.{overlay}
use nina_fw_homekit.ByteConvert.{put_u16_le}
use nina_fw_homekit.HapPriv.{HapPriv, Session}
use nina_fw_homekit.Sessions.{set_session}
use nina_fw_homekit.Crypto.{Cipher, auth_tag_len, newnonce}
use nina_fw_homekit.Transport.{
  Socket, DecryptFrame, max_nw_frame_size, owned, next_nonce, deliver, hap_encrypt_data,
  open_packet, read_packet, opened, next_packet, hap_decrypt_data,
}
use nina_fw_homekit.Transport.Frames.{read_packet_lem, deliver_lem, IsHolding}

module _ (c : Cipher) where
  -- The bytes of a packet, text and tag, at the front of the array of a frame.
  open_packet_lem :
      (f : DecryptFrame) (s r : Session) (m bytes : List ℕ)
      → s.encrypt_key ≡ r.decrypt_key
      → s.encrypt_nonce ≡ r.decrypt_nonce
      → f.pkt_size ≡ length m
      → f.bytes_read ≡ length m
      → length m ≤ max_nw_frame_size
      → let (text, tag) =
          c.encrypt s.encrypt_key (newnonce s.encrypt_nonce) (put_u16_le (length m % 2 ^ 16)) m in
        f.bytes ≡ overlay (text ++ tag) bytes
        → (f' : DecryptFrame) × (open_packet c f r
            ≡ some (f', record r { decrypt_nonce = next_nonce s.encrypt_nonce }))
          × (f'.session ≡ f.session)
          × IsHolding f' m
  unfolding open_packet overlay
  open_packet_lem f s r m bytes key nonce size read small e =
      let aad = put_u16_le (length m % 2 ^ 16) in
      let text = (c.encrypt s.encrypt_key (newnonce s.encrypt_nonce) aad m).0 in
      let tag = (c.encrypt s.encrypt_key (newnonce s.encrypt_nonce) aad m).1 in
      let text_size = c.encrypt_size s.encrypt_key (newnonce s.encrypt_nonce) aad m in
      let tag_size = c.tag_size s.encrypt_key (newnonce s.encrypt_nonce) aad m in
      let behind = drop (length (text ++ tag)) bytes in
      let split : f.bytes ≡ text ++ (tag ++ behind) = e ∙ append_assoc text tag behind in
      let in_text : take f.pkt_size f.bytes ≡ text =
        ap (take f.pkt_size) split
        ∙ take-append_eq f.pkt_size text (tag ++ behind) (omega (arith, size, text_size)) in
      let in_tag : take auth_tag_len (drop f.bytes_read f.bytes) ≡ tag =
        ap (λ b. take auth_tag_len (drop f.bytes_read b)) split
        ∙ ap (take auth_tag_len)
            (drop-append_eq f.bytes_read text (tag ++ behind) (omega (arith, read, text_size)))
        ∙ take-append_eq auth_tag_len tag behind (sym tag_size) in
      let aad_eq : put_u16_le f.pkt_size ≡ aad = ap put_u16_le (omega (arith, size, small)) in
      let plain : c.decrypt r.decrypt_key (newnonce r.decrypt_nonce) (put_u16_le f.pkt_size)
            (take f.pkt_size f.bytes) (take auth_tag_len (drop f.bytes_read f.bytes))
          ≡ some m =
        rw (in_text, in_tag, aad_eq, ← key, ← nonce)
          (c.decrypt-encrypt s.encrypt_key (newnonce s.encrypt_nonce) aad m) in
      (
        record f { bytes = m ++ drop (length m) f.bytes; bytes_read = 0 },
        rw (plain, open_packet)
            (ap
              (λ n. some (
                record f { bytes = m ++ drop (length m) f.bytes; bytes_read = 0 },
                record r { decrypt_nonce = next_nonce n },
              ))
              (sym nonce)),
        refl,
        (omega (arith, size), take-append_eq (length m) m (drop (length m) f.bytes) refl),
      )

module _ (c : Cipher) (k : Socket) {Store : Type 0} where
  open k use {Net, pending, recv}

  next_packet_ok :
      (a buf_size : ℕ) (f f1 f2 : DecryptFrame) (p : HapPriv Store) (net net' : Net) (s : Session)
      → read_packet k f net ≡ (true, f1, net')
      → open_packet c f1 (p.heap a) ≡ some (f2, s)
      → next_packet c k a buf_size f p net
        ≡ (some (deliver buf_size f2).0, (deliver buf_size f2).1, set_session a s p, net')
  unfolding next_packet opened
  next_packet_ok a buf_size f f1 f2 p net net' s read clear =
      rw (read, clear, opened)
        (ap
          (λ (x : Net).
            (some (deliver buf_size f2).0, (deliver buf_size f2).1, set_session a s p, x))
          (ap (λ (x : Bool × DecryptFrame × Net). x.2) read))

  -- If a frame still holds a part of a message, hap_decrypt_data delivers the front of it that the
  -- buffer has room for, holds the rest, and neither changes the state nor reads from the network.
  pub hap_decrypt_data-deliver :
      (a buf_size : ℕ) (frame : DecryptFrame) (p : HapPriv Store) (net : Net) (m : List ℕ)
      → IsHolding (owned a frame) m
      → 0 < length m
      → let (out, f, q, net') = hap_decrypt_data c k a buf_size frame p net in
        (out ≡ some (take buf_size m)) × IsHolding f (drop buf_size m) × (q ≡ p) × (net' ≡ net)
  unfolding hap_decrypt_data
  hap_decrypt_data-deliver a buf_size frame p net m holds some_left =
      let f = owned a frame in
      let left : (f.pkt_size == f.bytes_read) ≡ false = ground (arith, holds.0) in
      let given = deliver_lem buf_size f m holds in rw left (ap some given.0, given.1, refl, refl)

  -- If a session encrypts a message of at most 1024 bytes, and its frame is next to arrive at a
  -- session with the same key and nonce that has delivered its last frame whole, its length
  -- arriving in one piece, then hap_decrypt_data delivers the front of the message that the buffer
  -- has room for and holds the rest of it, keeps its key, goes on to the same next nonce, and
  -- leaves what is behind the frame.
  pub hap_decrypt_data-hap_encrypt_data :
      (a buf_size : ℕ) (frame : DecryptFrame) (p : HapPriv Store) (net : Net) (s : Session)
      (m rest : List ℕ)
      → IsHolding (owned a frame) []
      → s.encrypt_key ≡ (p.heap a).decrypt_key
      → s.encrypt_nonce ≡ (p.heap a).decrypt_nonce
      → length m ≤ max_nw_frame_size
      → pending net ≡ (hap_encrypt_data c s m).0 ++ rest
      → 2 ≤ length (recv 2 net).0
      → let (out, f, q, net') = hap_decrypt_data c k a buf_size frame p net in
        (out ≡ some (take buf_size m))
        × IsHolding f (drop buf_size m)
        × ((q.heap a).decrypt_key ≡ (p.heap a).decrypt_key)
        × ((q.heap a).decrypt_nonce ≡ (hap_encrypt_data c s m).1.encrypt_nonce)
        × (pending net' ≡ rest)
  unfolding hap_decrypt_data hap_encrypt_data set_session
  hap_decrypt_data-hap_encrypt_data a buf_size frame p net s m rest holds key nonce small e whole =
      let f = owned a frame in
      let aad = put_u16_le (length m % 2 ^ 16) in
      let text = (c.encrypt s.encrypt_key (newnonce s.encrypt_nonce) aad m).0 in
      let tag = (c.encrypt s.encrypt_key (newnonce s.encrypt_nonce) aad m).1 in
      let text_size = c.encrypt_size s.encrypt_key (newnonce s.encrypt_nonce) aad m in
      let tag_size = c.tag_size s.encrypt_key (newnonce s.encrypt_nonce) aad m in
      let done : (f.pkt_size == f.bytes_read) ≡ true = ground (arith, holds.0) in
      let size : length (text ++ tag) ≡ length m + auth_tag_len =
        omega (arith, length-append text tag, text_size, tag_size) in
      let (bytes, net', read, left) =
        read_packet_lem k f (length m) (text ++ tag) rest net size small
          (e ∙ append_assoc aad (text ++ tag) rest) whole in
      let f1 : DecryptFrame = record f {
        pkt_size = length m;
        bytes_read = length m;
        bytes = overlay (text ++ tag) bytes;
      } in
      let (f2, clear, same, held) =
        open_packet_lem c f1 s (p.heap a) m bytes key nonce refl refl small refl in
      let given = deliver_lem buf_size f2 m held in
      let here : (a == a) ≡ true = ground arith in
      let s' : Session = record (p.heap a) { decrypt_nonce = next_nonce s.encrypt_nonce } in
      let result = next_packet_ok a buf_size f f1 f2 p net net' s' read clear in
      rw (done, result, here) (ap some given.0, given.1, refl, refl, left)
