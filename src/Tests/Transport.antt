-- ===== src/Tests/Transport.antt =====
-- Frames between two ends of a concrete connection.
use nina_fw_homekit.Prelude.{
  ℕ, ◌≤◌, ◌≡◌, ◌≢◌, refl, arith, true, none, some, List, [], ◌∷◌, ◌++◌, length, take, drop,
}
use nina_fw_homekit.ByteConvert.{put_u16_le}
use nina_fw_homekit.HapPriv.{state_verified}
use nina_fw_homekit.Transport.{
  DecryptFrame, new_frame, owned, hap_encrypt_data, read_packet, next_packet, hap_decrypt_data,
  hap_httpd_recv, hap_httpd_send,
}
use nina_fw_homekit.Transport.Frames.{IsHolding}
use nina_fw_homekit.Transport.Receiving.{
  hap_decrypt_data-deliver, hap_decrypt_data-hap_encrypt_data,
}
use nina_fw_homekit.Transport.Sending.{concat, IsFrameList, encrypt_all, hap_httpd_send-encrypt_all}
use nina_fw_homekit.Transport.Failure.{hap_httpd_recv_error}
use nina_fw_homekit.Tests.Accessory.{accessory, session_at}
use nina_fw_homekit.Tests.Network.{plain_cipher, line, Line}

abbrev hi : List ℕ
hi = b'h' ∷ b'i' ∷ []

-- A frame that holds two more bytes.
abbrev half_read : DecryptFrame
half_read = record { pkt_size = 3; bytes_read = 1; bytes = 9 ∷ hi; session = some 1 }

holds_hi : IsHolding (owned 1 half_read) hi
unfolding owned
holds_hi = (refl, refl)

hap_decrypt_data-deliver_example :
    let (out, f, q, net') = hap_decrypt_data plain_cipher line 1 1 half_read accessory ([], []) in
    (out ≡ some (take 1 hi)) × IsHolding f (drop 1 hi) × (q ≡ accessory) × (net' ≡ ([], []))
hap_decrypt_data-deliver_example =
    hap_decrypt_data-deliver plain_cipher line 1 1 half_read accessory ([], []) hi holds_hi
      (omega arith)

-- Another session's frame.
holds_nothing : IsHolding (owned 1 (new_frame 0)) []
unfolding owned
holds_nothing = (refl, refl)

abbrev arriving : Line
arriving = ((hap_encrypt_data plain_cipher (session_at 1) hi).0 ++ 7 ∷ [], [])

header_whole : 2 ≤ length (take 2 arriving.0)
unfolding hap_encrypt_data put_u16_le
header_whole = omega arith

hap_decrypt_data-hap_encrypt_data_example :
    let (out, f, q, net') =
      hap_decrypt_data plain_cipher line 1 64 (new_frame 0) accessory arriving in
    (out ≡ some (take 64 hi))
    × IsHolding f (drop 64 hi)
    × ((q.heap 1).decrypt_key ≡ [])
    × ((q.heap 1).decrypt_nonce ≡ (hap_encrypt_data plain_cipher (session_at 1) hi).1.encrypt_nonce)
    × (net'.0 ≡ 7 ∷ [])
hap_decrypt_data-hap_encrypt_data_example =
    hap_decrypt_data-hap_encrypt_data plain_cipher line 1 64 (new_frame 0) accessory arriving
      (session_at 1) hi (7 ∷ []) holds_nothing refl refl (omega arith) refl header_whole

hap_httpd_send-encrypt_all_example :
    let (ok, q, net') = hap_httpd_send plain_cipher line (some 1) hi accessory ([], []) in
    (pieces : List (List ℕ)) × (concat pieces ≡ hi)
    × IsFrameList pieces
    × (ok ≡ true)
    × (q.heap 1 ≡ (encrypt_all plain_cipher (session_at 1) pieces).1)
    × (net'.1 ≡ [] ++ (encrypt_all plain_cipher (session_at 1) pieces).0)
hap_httpd_send-encrypt_all_example =
    hap_httpd_send-encrypt_all plain_cipher line (λ b net. refl) 1 hi accessory ([], []) refl

hung_up : (hap_httpd_recv plain_cipher line (some 1) 64 (new_frame 1) accessory ([], [])).0 ≡ none
unfolding hap_httpd_recv hap_decrypt_data next_packet read_packet owned
hung_up = refl

hap_httpd_recv_error_example :
    let (out, f, q, net') =
      hap_httpd_recv plain_cipher line (some 1) 64 (new_frame 1) accessory ([], []) in
    ((q.heap 1).state ≢ state_verified)
    × ((m : ℕ) → hap_httpd_recv plain_cipher line (some 1) m f q net' ≡ (none, f, q, net'))
hap_httpd_recv_error_example =
    hap_httpd_recv_error plain_cipher line 1 64 (new_frame 1) accessory ([], []) hung_up
