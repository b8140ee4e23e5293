-- ===== src/Accessories/Subscribed.antt =====
-- esp_hap_char.c, esp_hap_pair_verify.c: the subscriptions to the characteristics of the database.
use mathlib.Core.List.{Memᴰ}
use mathlib.Core.List.Memᴰ
use nina_fw_homekit.Prelude.{ℕ, ◌≡◌, ◌≢◌, false, some, List, map}
use nina_fw_homekit.HapPriv.{HapPriv}
use nina_fw_homekit.Sessions.{
  hap_free_session, hap_get_ctrl_session_index, hap_char_is_ctrl_subscribed,
}
use nina_fw_homekit.Sessions.Lifecycle.{hap_free_session_subscriptions}
use nina_fw_homekit.Characteristics.{Floats}
use nina_fw_homekit.Accessories.{Objects}

module _ {fl : Floats} where
  -- The characteristics of an accessory and of the database, in the order in which
  -- `hap_disable_all_char_notif` meets them.
  abbrev pub acc_chains : Objects fl → ℕ → List (List ℕ)
  acc_chains o ha = map (λ hs. (o.serv hs).chars) (o.acc ha).servs

  abbrev pub chains_of : Objects fl → List (List (List ℕ))
  chains_of o = map (acc_chains o) o.accessories

  -- `hap_priv` beside the objects of the database.
  abbrev pub with_objects : {Store : Type 0} → Objects fl → HapPriv Store → HapPriv Store
  with_objects o p = record p { chains = chains_of o; ev_ctrls = λ hc. (o.char hc).ev_ctrls }

  -- After hap_free_session of the session that is found at a slot, the bit of that slot is off in
  -- the bitmap of every characteristic of every service of every accessory of the database, and the
  -- bits of the other slots are kept in all bitmaps.
  pub hap_free_session_objects :
      {Store : Type 0} (o : Objects fl) (p : HapPriv Store) (a i : ℕ)
      → hap_get_ctrl_session_index a p.sessions ≡ some i
      → let ev_ctrls' = (hap_free_session (some a) (with_objects o p)).ev_ctrls in
        ((ha hs hc : ℕ)
          → Memᴰ ha o.accessories
          → Memᴰ hs (o.acc ha).servs
          → Memᴰ hc (o.serv hs).chars
          → hap_char_is_ctrl_subscribed (ev_ctrls' hc) i ≡ false)
        × ((hc j : ℕ)
            → i ≢ j
            → hap_char_is_ctrl_subscribed (ev_ctrls' hc) j
              ≡ hap_char_is_ctrl_subscribed (o.char hc).ev_ctrls j)
  hap_free_session_objects o p a i found =
      let (off, kept) = hap_free_session_subscriptions (with_objects o p) a i found in
      (
        (λ ha hs hc in_all in_acc in_serv.
            off (acc_chains o ha) (o.serv hs).chars hc (Memᴰ.map (acc_chains o) in_all)
              (Memᴰ.map (λ s. (o.serv s).chars) in_acc) in_serv),
        kept,
      )
