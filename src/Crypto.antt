-- ===== src/Crypto.antt =====
-- The cryptography that the pairing exchanges and the transport call: libsodium, and the copy of
-- hkdf-sha in the repository.
use nina_fw_homekit.Prelude.{
  ℕ, ◌≡◌, Bool, Option, none, some, List, [], ◌++◌, length, replicate, ◌-◌, take, drop, ltb,
  if◌then◌else◌,
}

abbrev pub auth_tag_len : ℕ
auth_tag_len = 16

-- What the code relies on of crypto_aead_chacha20poly1305_ietf_encrypt_detached and
-- crypto_aead_chacha20poly1305_ietf_decrypt_detached: key, nonce, additional data, text; `none` is
-- a return that is not 0.
pub record Cipher : Type 0 where
  pub encrypt : List ℕ → List ℕ → List ℕ → List ℕ → List ℕ × List ℕ
  pub decrypt : List ℕ → List ℕ → List ℕ → List ℕ → List ℕ → Option (List ℕ)
  pub encrypt_size : (key nonce aad m : List ℕ) → length (encrypt key nonce aad m).0 ≡ length m
  pub tag_size : (key nonce aad m : List ℕ) → length (encrypt key nonce aad m).1 ≡ auth_tag_len
  pub decrypt-encrypt :
      (key nonce aad m : List ℕ)
      → let (c, tag) = encrypt key nonce aad m in decrypt key nonce aad c tag ≡ some m

-- `newnonce`
unfoldable pub newnonce : List ℕ → List ℕ
newnonce nonce = replicate 4 0 ++ nonce

-- What the exchanges rely on of crypto_scalarmult_curve25519 (`none` is -1, and `curve_size` and
-- `shared` are its laws), crypto_sign_ed25519_detached, crypto_sign_ed25519_verify_detached
-- (whether it returns 0) and hkdf with SHA512: salt, secret, info, and the size of the key.
pub record Curves : Type 0 where
  pub scalarmult : List ℕ → List ℕ → Option (List ℕ)
  pub sign : List ℕ → List ℕ → List ℕ
  pub verify : List ℕ → List ℕ → List ℕ → Bool
  pub hkdf : List ℕ → List ℕ → List ℕ → ℕ → List ℕ
  pub curve_size : (sk p q : List ℕ) → scalarmult sk p ≡ some q → length q ≡ 32
  pub sign_size : (m sk : List ℕ) → length (sign m sk) ≡ 64
  pub hkdf_size : (salt ikm info : List ℕ) (n : ℕ) → length (hkdf salt ikm info n) ≡ n
  -- Both ends of an exchange compute the same secret from the other's public key.
  pub shared :
      (base a b pa pb : List ℕ)
      → scalarmult a base ≡ some pa
      → scalarmult b base ≡ some pb
      → scalarmult a pb ≡ scalarmult b pa

module _ (c : Cipher) where
  -- An encryption with no additional data, its tag behind it.
  unfoldable pub sealed : List ℕ → List ℕ → List ℕ → List ℕ
  sealed key nonce m = let (text, tag) = c.encrypt key (newnonce nonce) [] m in text ++ tag

  -- The decryption of `edata`. With fewer bytes than those of a tag the code passes a negative
  -- length on; here the decryption fails.
  unfoldable pub unsealed : List ℕ → List ℕ → List ℕ → Option (List ℕ)
  unsealed key nonce edata =
      let n = length edata - auth_tag_len in
      if ltb (length edata) auth_tag_len
      then none
      else c.decrypt key (newnonce nonce) [] (take n edata) (drop n edata)
