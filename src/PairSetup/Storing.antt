-- ===== src/PairSetup/Storing.antt =====
-- esp_hap_pair_setup.c: what it takes to be paired by Pair Setup, and what is stored.
use nina_fw_homekit.Prelude.{ℕ, ◌≡◌, ◌≢◌, true, some, List, ◌∷◌, ◌++◌, length, suc, drop, set, inr}
use nina_fw_homekit.Prelude.Strings.{codes, decimal}
use nina_fw_homekit.Keystore.{Keystore}
use nina_fw_homekit.Crypto.{Cipher, Curves}
use nina_fw_homekit.HapPriv.{HapPriv, CtrlInfo, slot}
use nina_fw_homekit.Controllers.{info_bytes, ns_ctrl}
use nina_fw_homekit.Tlv.{get_value_from_tlv, tlv_identifier, tlv_public_key, tlv_signature}
use nina_fw_homekit.Pairings.{Request}
use nina_fw_homekit.PairSetup.{SetupLocals, PairSetupCtx}
use nina_fw_homekit.PairSetup.Exchange.{m5_in}

module _ (c : Cipher) (k : Curves) (ks : Keystore) where
  open ks use {Store}

  -- The controller that message m describes has proved itself: it has a name, a key of 32 bytes, and
  -- a signature of 64 bytes that verifies under this key, of the value that both sides derive from
  -- the shared secret, the name and the key.
  abbrev pub IsSigned : List ℕ → List ℕ → List ℕ → List ℕ → Type 0
  IsSigned secret m name key =
      (signature : List ℕ) × (get_value_from_tlv m (length m) tlv_identifier 64 ≡ some name)
      × (get_value_from_tlv m (length m) tlv_public_key 32 ≡ some key)
      × (length key ≡ 32)
      × (get_value_from_tlv m (length m) tlv_signature 64 ≡ some signature)
      × (length signature ≡ 64)
      × (let device_x =
            k.hkdf (codes "Pair-Setup-Controller-Sign-Salt") secret
              (codes "Pair-Setup-Controller-Sign-Info") 32 in
          k.verify signature (device_x ++ (name ++ key)) key ≡ true)

  -- In slot i stands this controller, as a valid administrator, the other slots are as before, the
  -- slot is what the key store has been given, and the attempts to pair are counted anew.
  abbrev pub IsStored : ℕ → List ℕ → List ℕ → HapPriv Store → HapPriv Store → Type 0
  IsStored i name key p p' =
      let old = slot p.controllers i in
      let info : CtrlInfo = record {
        id = name ++ 0 ∷ drop (suc (length name)) old.info.id;
        ltpk = key;
        perms = 1;
      } in
      (slot p'.controllers i ≡ record { info = info; valid = true; index = old.index })
      × ((j : ℕ) → i ≢ j → slot p'.controllers j ≡ slot p.controllers j)
      × (p'.store ≡ (ks.set ns_ctrl (decimal old.index) (info_bytes info) p.store).1)
      × (p'.pair_attempts ≡ 0)

  abbrev pub IsSetUp :
      {Handle : Type 0}
      → SetupLocals
      → Request
      → PairSetupCtx Handle
      → HapPriv Store
      → HapPriv Store
      → Type 0
  IsSetUp l r ctx p p' =
      (m : List ℕ) × (name : List ℕ) × (key : List ℕ) × (m5_in c ctx.session_key l r ≡ inr m)
      × IsSigned ctx.shared_secret m name key
      × IsStored ctx.ctrl name key p p'
