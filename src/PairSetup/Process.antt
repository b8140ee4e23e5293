-- ===== src/PairSetup/Process.antt =====
-- esp_hap_pair_setup.c: hap_pair_setup_process, which leads through the exchange, and its context.
use nina_fw_homekit.Prelude.{
  ℕ, ◌+◌, ◌%◌, Bool, true, false, not, ◌&&◌, none, some, List, [], replicate, ◌==◌, if◌then◌else◌,
  ◌⊎◌, inl, inr,
}
use nina_fw_homekit.Keystore.{Keystore}
use nina_fw_homekit.Crypto.{Cipher, Curves}
use nina_fw_homekit.HapPriv.{HapPriv}
use nina_fw_homekit.Tlv.{hap_prepare_error_tlv, tlv_state}
use nina_fw_homekit.Pairings.{Request, byte_in, error_unknown, state_m1, state_m2, state_m4}
use nina_fw_homekit.PairVerify.{state_m0}
use nina_fw_homekit.PairSetup.{Srp, Setup, SetupLocals, PairSetupCtx, SetupStep, error_busy}
use nina_fw_homekit.PairSetup.Start.{hap_pair_setup_process_srp_start}
use nina_fw_homekit.PairSetup.Verify.{hap_pair_setup_process_srp_verify}
use nina_fw_homekit.PairSetup.Exchange.{hap_pair_setup_process_exchange}

-- What the context of a connection points to: nothing, the exchange, or an object that is freed,
-- with which the code would go on.
pub data SetupContext (Handle : Type 0) : Type 0 where
  no_setup : SetupContext Handle
  in_setup : PairSetupCtx Handle → SetupContext Handle
  freed_setup : SetupContext Handle

-- `hap_pair_setup_get_received_state`
unfoldable pub hap_pair_setup_get_received_state : Request → ℕ
hap_pair_setup_get_received_state r = elim (byte_in r tlv_state 0) [ none ↦ 0 | some state ↦ state ]

module _ (srp : Srp) where
  -- The context that calloc gives.
  abbrev pub new_setup : ℕ → PairSetupCtx srp.Handle
  new_setup sock_fd = record {
    state = 0;
    method = 0;
    pairing_flags = 0;
    pairing_flags_len = 0;
    shared_secret = [];
    srp_hd = srp.fresh;
    ctrl = 0;
    session_key = replicate 32 0;
    sock_fd = sock_fd;
  }

  -- `hap_pair_setup_context_init`: the bytes of the error, or the new context. `busy` is whether
  -- there is an exchange already, and `memory` whether calloc has some.
  unfoldable pub hap_pair_setup_context_init :
      Bool → Bool → ℕ → ℕ → List ℕ ⊎ PairSetupCtx srp.Handle
  hap_pair_setup_context_init true memory sock_fd bufsize =
      inl (hap_prepare_error_tlv state_m2 error_busy bufsize)
  hap_pair_setup_context_init false false sock_fd bufsize =
      inl (hap_prepare_error_tlv state_m2 error_busy bufsize)
  hap_pair_setup_context_init false true sock_fd bufsize = inr (new_setup sock_fd)

-- `pair_attempts++` on 8 bits
unfoldable pub count_attempt : {Store : Type 0} → HapPriv Store → HapPriv Store
count_attempt p = record p { pair_attempts = (p.pair_attempts + 1) % 256 }

module _ (c : Cipher) (k : Curves) (ks : Keystore) (srp : Srp) where
  open ks use {Store}
  open srp use {Handle}

  abbrev pub Processed : Type 0
  Processed = (Bool × List ℕ) × SetupContext Handle × HapPriv Store

  -- The context stays, and it goes after the fifth message if that succeeds.
  unfoldable pub setup_goes_on : SetupStep Handle Store → Processed
  setup_goes_on (out, ctx, p) = (out, in_setup ctx, p)

  unfoldable pub setup_ends : SetupStep Handle Store → Processed
  setup_ends ((true, out), ctx, p) = ((true, out), no_setup, p)
  setup_ends ((false, out), ctx, p) = ((false, out), in_setup ctx, p)

  -- `hap_pair_setup_process` in the state that the context is in.
  unfoldable pub setup_step :
      Setup → List ℕ → SetupLocals → Request → PairSetupCtx Handle → HapPriv Store → Processed
  setup_step setup random l r ctx p =
      let start = setup_goes_on (hap_pair_setup_process_srp_start srp setup random l r ctx p) in
      let verify =
        setup_goes_on (hap_pair_setup_process_srp_verify k srp l r ctx (count_attempt p)) in
      let exchange = setup_ends (hap_pair_setup_process_exchange c k ks l r ctx p) in
      if ctx.state == state_m0
      then start
      else if ctx.state == state_m2
      then verify
      else if ctx.state == state_m4
      then exchange
      else ((false, hap_prepare_error_tlv state_m2 error_unknown r.bufsize), in_setup ctx, p)

  -- `hap_pair_setup_process`; `memory` is whether there is some for a context that starts again.
  unfoldable pub hap_pair_setup_process :
      Bool
      → Setup
      → List ℕ
      → SetupLocals
      → Request
      → SetupContext Handle
      → HapPriv Store
      → Processed
  hap_pair_setup_process memory setup random l r no_setup p =
      let state = (hap_pair_setup_get_received_state r + 1) % 256 in
      ((false, hap_prepare_error_tlv state error_unknown r.bufsize), no_setup, p)
  hap_pair_setup_process memory setup random l r freed_setup p =
      ((false, hap_prepare_error_tlv state_m2 error_unknown r.bufsize), freed_setup, p)
  hap_pair_setup_process memory setup random l r (in_setup ctx) p =
      let step = setup_step setup random l r ctx p in
      if (hap_pair_setup_get_received_state r == state_m1) && not (ctx.state == state_m0)
      then elim (hap_pair_setup_context_init srp false memory ctx.sock_fd r.bufsize) [
        | inl out ↦ ((false, out), freed_setup, p)
        | inr new ↦ setup_step setup random l r new p
      ]
      else step
