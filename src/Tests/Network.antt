-- ===== src/Tests/Network.antt =====
-- A stream socket in memory and a cipher that leaves the text as it is: instances of the interfaces.
use nina_fw_homekit.Prelude.{
  ℕ, ◌≤◌, ◌<◌, refl, sym, ap, arith, none, some, List, ◌++◌, replicate, length, take, drop,
  take-append-drop, length-take, take_all, length-replicate, if◌then◌else◌,
}
use nina_fw_homekit.Prelude.Strings.{bytes_eq, bytes_eq_refl}
use nina_fw_homekit.Crypto.{Cipher}
use nina_fw_homekit.Transport.{Socket}

abbrev pub zero_tag : List ℕ
zero_tag = replicate 16 0

abbrev pub plain_cipher : Cipher
plain_cipher = record {
  encrypt = λ key nonce aad m. (m, zero_tag);
  decrypt = λ key nonce aad c tag. if bytes_eq tag zero_tag then some c else none;
  encrypt_size = λ key nonce aad m. refl;
  tag_size = λ key nonce aad m. length-replicate {A = ℕ} 16 0;
  decrypt-encrypt = λ key nonce aad m. rw (bytes_eq_refl zero_tag) refl;
}

-- What is still to arrive, and what has been sent.
abbrev pub Line : Type 0
Line = List ℕ × List ℕ

pub taken_some : (n : ℕ) (xs : List ℕ) → 0 < n → 0 < length xs → 0 < length (take n xs)
taken_some n xs h k = omega (arith, length-take n xs)

pub taken_size : (n : ℕ) (xs : List ℕ) → length (take n xs) ≤ n
taken_size n xs = omega (arith, length-take n xs)

abbrev pub line : Socket
line = record {
  Net = Line;
  pending = λ net. net.0;
  sent = λ net. net.1;
  recv = λ n net. (take n net.0, (drop n net.0, net.1));
  send = λ b net. (length b, (net.0, net.1 ++ b));
  recv-pending = λ n net. take-append-drop n net.0;
  recv_size = λ n net. taken_size n net.0;
  recv_some = λ n net h k. taken_some n net.0 h k;
  send-sent = λ b net. ap (λ t. net.1 ++ t) (sym (take_all (length b) b (omega arith)));
}
