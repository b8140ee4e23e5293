-- ===== src/Tests/PairSetup.antt =====
-- The pairing of the first controller "A" with the stand-ins of the other examples.
use nina_fw_homekit.Prelude.{
  ℕ, ◌+◌, ◌≡◌, ◌≢◌, refl, inr, arith, true, none, some, List, [], ◌∷◌, ◌++◌, replicate, take,
  if◌then◌else◌,
}
use nina_fw_homekit.Prelude.Results.{◌>>=◌, required, require}
use nina_fw_homekit.Prelude.Strings.{bytes_eq, overlay}
use nina_fw_homekit.Crypto.{newnonce, sealed, unsealed}
use nina_fw_homekit.HapPriv.{HapPriv, empty_slot}
use nina_fw_homekit.Tlv.{
  add_tlv_or_keep, get_value_from_tlv, get_value_loop, tlv_state, tlv_encrypted_data,
  tlv_identifier, tlv_public_key, tlv_signature,
}
use nina_fw_homekit.Tlv.Codec.{encode}
use nina_fw_homekit.Pairings.{Request, byte_in, value_in}
use nina_fw_homekit.PairVerify.Complete.{request}
use nina_fw_homekit.PairSetup.{Srp, Setup, setup_code, SetupLocals, PairSetupCtx, state_m5}
use nina_fw_homekit.PairSetup.Exchange.{m5_in}
use nina_fw_homekit.PairSetup.Process.{
  in_setup, new_setup, hap_pair_setup_get_received_state, hap_pair_setup_process,
}
use nina_fw_homekit.PairSetup.Attempts.{hap_pair_setup_process_attempts}
use nina_fw_homekit.Tests.Network.{plain_cipher}
use nina_fw_homekit.Tests.MemoryStore.{Memory, memory_store}
use nina_fw_homekit.Tests.Accessory.{accessory}
use nina_fw_homekit.Tests.PairVerify.{curves, sum}

-- The handle is the setup code, and the proof is one byte of it.
abbrev toy_srp : Srp
toy_srp = record {
  Handle = List ℕ;
  fresh = [];
  srv_pubkey = λ code random. (code, some (replicate 32 1, replicate 16 2));
  pubkey_from_verifier = λ salt verifier random. (verifier, some (replicate 32 1));
  get_session_key = λ hd key. (hd, replicate 64 3);
  exchange_proofs =
      λ hd proof. if bytes_eq (take 1 proof) (take 1 hd) then some (replicate 64 4) else none;
}

abbrev unpaired : HapPriv Memory
unpaired = record accessory {
  controllers = replicate 16 empty_slot;
  sessions = replicate 8 none;
  pair_attempts = 100;
}

abbrev locals : SetupLocals
locals = record { state = 9; ctrl_proof = replicate 64 0 }

abbrev context : ℕ → PairSetupCtx (List ℕ)
context state = record (new_setup toy_srp 54) {
  state = state;
  shared_secret = replicate 64 3;
  srp_hd = b'7' ∷ [];
}

-- The device info of "A": the key of the secret, its name, and its long-term key.
abbrev signature : List ℕ
signature = replicate 64 (sum (replicate 32 34 ++ (b'A' ∷ replicate 32 8)) + 8)

abbrev inner : List ℕ
inner = encode (
    (tlv_identifier, b'A' ∷ [])
    ∷ (tlv_public_key, replicate 32 8)
    ∷ (tlv_signature, signature)
    ∷ [])

abbrev fifth : Request
fifth =
    request 512 ((tlv_state, state_m5 ∷ []) ∷ (tlv_encrypted_data, inner ++ replicate 16 0) ∷ [])

abbrev code : Setup
code = setup_code (b'7' ∷ [])

abbrev paired : HapPriv Memory
paired =
    (hap_pair_setup_process plain_cipher curves memory_store toy_srp true code [] locals fifth
      (in_setup (context 4)) unpaired).2

abbrev answer : List ℕ
answer =
    (hap_pair_setup_process plain_cipher curves memory_store toy_srp true code [] locals fifth
      (in_setup (context 4)) unpaired).0.1

-- A third message, with a wrong proof.
abbrev third : Request
third =
    request 512 ((tlv_state, 3 ∷ []) ∷ (tlv_public_key, replicate 32 8) ∷ (4, replicate 64 9) ∷ [])

third_received : hap_pair_setup_get_received_state third ≡ 3
unfolding hap_pair_setup_get_received_state byte_in get_value_from_tlv get_value_loop value_in
    overlay
third_received = refl

not_first : hap_pair_setup_get_received_state third ≢ 1
not_first e = omega (arith, third_received, e)

opened : m5_in plain_cipher (context 4).session_key locals fifth ≡ inr inner
unfolding m5_in ◌>>=◌ required require byte_in value_in get_value_from_tlv get_value_loop unsealed
    newnonce overlay sealed add_tlv_or_keep bytes_eq
opened = refl

hap_pair_setup_process_attempts_example :
    let tried = record unpaired { pair_attempts = 255 } in
    let process =
      hap_pair_setup_process plain_cipher curves memory_store toy_srp true code [] locals third
        (in_setup (context 2)) in
    ((process tried).0 ≡ (process unpaired).0) × ((process tried).1 ≡ (process unpaired).1)
hap_pair_setup_process_attempts_example =
    hap_pair_setup_process_attempts plain_cipher curves memory_store toy_srp true code [] locals
      third (context 2) unpaired 255 refl not_first
