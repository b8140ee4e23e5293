-- ===== src/Transport.antt =====
-- esp_hap_network_io.c: the frames of a session, encrypted when sent and decrypted when received.
pub mod Frames
pub mod Receiving
pub mod Sending
pub mod Failure
use nina_fw_homekit.Prelude.{
  ℕ, zero, suc, ◌+◌, ◌-◌, ◌%◌, ◌^◌, ◌≤◌, ◌<◌, ◌≡◌, Bool, true, false, not, Option, none, some, List,
  [], ◌∷◌, ◌++◌, length, take, drop, replicate, min, ltb, ◌==◌, if◌then◌else◌,
}
use nina_fw_homekit.Prelude.Strings.{overlay}
use nina_fw_homekit.ByteConvert.{get_u16_le, put_u16_le, get_u64_le, put_u64_le}
use nina_fw_homekit.HapPriv.{HapPriv, Session, state_verified, state_invalid}
use nina_fw_homekit.Crypto.{Cipher, newnonce, auth_tag_len}
use nina_fw_homekit.Sessions.{hap_close_session, set_session}

abbrev pub max_nw_frame_size : ℕ
max_nw_frame_size = 1024

-- What the code relies on of a blocking stream socket: `pending` is what is still to arrive, and
-- `sent` is what has been handed to the network. A return of `send` that is not positive is 0, and
-- of `recv` no bytes.
pub record Socket : Type 1 where
  pub Net : Type 0
  pub pending : Net → List ℕ
  pub sent : Net → List ℕ
  pub recv : ℕ → Net → List ℕ × Net
  pub send : List ℕ → Net → ℕ × Net
  pub recv-pending : (n : ℕ) (net : Net) → (recv n net).0 ++ pending (recv n net).1 ≡ pending net
  pub recv_size : (n : ℕ) (net : Net) → length (recv n net).0 ≤ n
  pub recv_some : (n : ℕ) (net : Net) → 0 < n → 0 < length (pending net) → 0 < length (recv n net).0
  pub send-sent : (b : List ℕ) (net : Net) → sent (send b net).1 ≡ sent net ++ take (send b net).0 b

-- `hap_decrypt_frame_t`; `session` is the object that the frame belongs to.
pub record DecryptFrame : Type 0 where
  pub pkt_size : ℕ
  pub bytes_read : ℕ
  pub bytes : List ℕ
  pub session : Option ℕ

-- `memset(frame, 0, ...)` and `frame->session = session`
abbrev pub new_frame : ℕ → DecryptFrame
new_frame a = record { pkt_size = 0; bytes_read = 0; bytes = replicate 1040 0; session = some a }

unfoldable pub owned : ℕ → DecryptFrame → DecryptFrame
owned a f = elim f.session [ none ↦ new_frame a | some b ↦ if b == a then f else new_frame a ]

-- `int_nonce++` between `get_u64_le` and `put_u64_le`
unfoldable pub next_nonce : List ℕ → List ℕ
next_nonce nonce = put_u64_le ((get_u64_le nonce + 1) % 2 ^ 64)

-- `memcpy(buf, &frame->data[frame->bytes_read], bytes)`, at the end of `hap_decrypt_data`. More
-- than the packet has been read only after a failure in the middle of its tag, and then the session
-- is invalid and hap_httpd_recv does not come here again; in C the size is then negative, here 0.
unfoldable pub deliver : ℕ → DecryptFrame → List ℕ × DecryptFrame
deliver buf_size f =
    let bytes = min (f.pkt_size - f.bytes_read) buf_size in
    (take bytes (drop f.bytes_read f.bytes), record f { bytes_read = f.bytes_read + bytes })

module _ {Store : Type 0} where
  -- `hap_session_error`
  unfoldable pub hap_session_error : ℕ → HapPriv Store → HapPriv Store
  hap_session_error a p =
      hap_close_session (some a) (set_session a (record (p.heap a) { state = state_invalid }) p)

module _ (c : Cipher) where
  -- `hap_encrypt_data` of at most 1024 bytes: the bytes of the frame that its return counts, and
  -- the session with the next nonce.
  unfoldable pub hap_encrypt_data : Session → List ℕ → List ℕ × Session
  hap_encrypt_data s buf =
      let pkt_size = put_u16_le (length buf % 2 ^ 16) in
      let (text, tag) = c.encrypt s.encrypt_key (newnonce s.encrypt_nonce) pkt_size buf in
      (pkt_size ++ (text ++ tag), record s { encrypt_nonce = next_nonce s.encrypt_nonce })

  -- The decryption of a packet that has been read into `data`: the frame and the session after it.
  unfoldable pub open_packet : DecryptFrame → Session → Option (DecryptFrame × Session)
  open_packet f s =
      let aad = put_u16_le f.pkt_size in
      let tag = take auth_tag_len (drop f.bytes_read f.bytes) in
      elim (c.decrypt s.decrypt_key (newnonce s.decrypt_nonce) aad (take f.pkt_size f.bytes) tag) [
        | none ↦ none
        | some m ↦ some (
          record f { bytes = overlay m f.bytes; bytes_read = 0 },
          record s { decrypt_nonce = next_nonce s.decrypt_nonce },
        )
      ]

module _ (k : Socket) where
  open k use {Net, recv, send}

  -- The loop that reads a packet: whether it is read, and the bytes that are. Every round reads a
  -- byte at least, so fuel `bytes_to_read` is enough.
  unfoldable pub read_loop : ℕ → ℕ → List ℕ → Net → Bool × List ℕ × Net
  read_loop zero bytes_to_read acc net = (true, acc, net)
  read_loop (suc fuel) bytes_to_read acc net =
      let got = (recv bytes_to_read net).0 in
      let net' = (recv bytes_to_read net).1 in
      let rest = read_loop fuel (bytes_to_read - length got) (acc ++ got) net' in
      if bytes_to_read == 0
      then (true, acc, net)
      else if length got == 0
      then (false, acc, net')
      else rest

  -- A new packet: its length in two bytes, and then the packet with its tag, which start at the
  -- front of the array again. `bytes_read` counts them in 16 bits, and the tag is taken off again.
  unfoldable pub read_packet : DecryptFrame → Net → Bool × DecryptFrame × Net
  read_packet f net =
      let header = (recv 2 net).0 in
      let net1 = (recv 2 net).1 in
      let f1 = record f { bytes = overlay header f.bytes } in
      let pkt_size = get_u16_le header in
      let bytes_to_read = (pkt_size + auth_tag_len) % 2 ^ 16 in
      let (ok, packet, net2) = read_loop bytes_to_read bytes_to_read [] net1 in
      let count = length packet % 2 ^ 16 in
      let bytes_read = if ok then (count + 2 ^ 16 - auth_tag_len) % 2 ^ 16 else count in
      if ltb (length header) 2 then (false, f1, net1) else (
        ok,
        record f1 { pkt_size = pkt_size; bytes_read = bytes_read; bytes = overlay packet f1.bytes },
        net2,
      )

module _ (c : Cipher) (k : Socket) where
  open k use {Net, send}

  -- The loop of `hap_httpd_send`: whether all is sent. Every round takes a byte at least, so fuel
  -- `length buf` is enough.
  unfoldable pub send_loop : ℕ → List ℕ → Session → Net → Bool × Session × Net
  send_loop zero buf s net = (true, s, net)
  send_loop (suc fuel) buf s net =
      let len = min (length buf) max_nw_frame_size in
      let (frame, s') = hap_encrypt_data c s (take len buf) in
      let (ret, net') = send frame net in
      let rest = send_loop fuel (drop len buf) s' net' in
      if length buf == 0 then (true, s, net) else if ret == 0 then (false, s', net') else rest

-- What `hap_decrypt_data` returns, `none` for HAP_FAIL, with the frame, the state and the socket.
abbrev pub Received : (k : Socket) → Type 0 → Type 0
Received k Store = Option (List ℕ) × DecryptFrame × HapPriv Store × k.Net

module _ (c : Cipher) (k : Socket) {Store : Type 0} where
  open k use {Net, recv, send}

  unfoldable pub opened : ℕ → ℕ → DecryptFrame → HapPriv Store → Net → Received k Store
  opened a buf_size f p net = elim (open_packet c f (p.heap a)) [
    | none ↦ (none, f, hap_session_error a p, net)
    | some (f', s) ↦ let (out, f'') = deliver buf_size f' in (some out, f'', set_session a s p, net)
  ]

  -- The branch of `hap_decrypt_data` for a frame that has been delivered whole.
  unfoldable pub next_packet : ℕ → ℕ → DecryptFrame → HapPriv Store → Net → Received k Store
  next_packet a buf_size f p net =
      let (ok, f', net') = read_packet k f net in
      if ok then opened a buf_size f' p net' else (none, f', hap_session_error a p, net')

  -- `hap_decrypt_data` for the session object `a`, with `recv` as `read_fn`.
  unfoldable pub hap_decrypt_data : ℕ → ℕ → DecryptFrame → HapPriv Store → Net → Received k Store
  hap_decrypt_data a buf_size frame p net =
      let f = owned a frame in
      let (out, f') = deliver buf_size f in
      if f.pkt_size == f.bytes_read then next_packet a buf_size f p net else (some out, f', p, net)

  -- `hap_httpd_recv`; `session` is the context of the connection.
  unfoldable pub hap_httpd_recv :
      Option ℕ → ℕ → DecryptFrame → HapPriv Store → Net → Received k Store
  hap_httpd_recv none buf_len frame p net =
      let (got, net') = recv buf_len net in (some got, frame, p, net')
  hap_httpd_recv (some a) buf_len frame p net =
      if (p.heap a).state == state_verified
      then hap_decrypt_data a buf_len frame p net
      else (none, frame, p, net)

  -- `hap_httpd_send`: whether it returns what it says it has sent; a return of `send` that is not
  -- positive is passed on.
  unfoldable pub hap_httpd_send :
      Option ℕ → List ℕ → HapPriv Store → Net → Bool × HapPriv Store × Net
  hap_httpd_send none buf p net = let (ret, net') = send buf net in (not (ret == 0), p, net')
  hap_httpd_send (some a) buf p net =
      let (ok, s, net') = send_loop c k (length buf) buf (p.heap a) net in
      let (ret, plain) = send buf net in
      if (p.heap a).state == state_verified
      then (ok, set_session a s p, net')
      else (not (ret == 0), p, plain)
