-- ===== src/Sessions/Walk.antt =====
-- esp_hap_char.c: what hap_disable_all_char_notif does to the bitmaps of the characteristics.
use mathlib.Core.List.{Memᴰ}
use mathlib.Core.List.Memᴰ
use nina_fw_homekit.Prelude.{
  ℕ, ◌≡◌, ◌≢◌, refl, sym, ap, subst, ◌∙◌, false, List, [], ◌∷◌, ◌==◌, if◌then◌else◌, inl, inr,
  Bool-cases, ==_iff, ==_refl, ==_false,
}
use nina_fw_homekit.Sessions.{
  test_bit, reset_bit, disable_chars, disable_servs, hap_disable_all_char_notif,
}
use nina_fw_homekit.Sessions.Subscriptions.{reset_bit_lem}

-- The bitmap of `c` after the bit has been reset in that of `hc`.
abbrev reset_at : ℕ → ℕ → (ℕ → ℕ) → ℕ → ℕ
reset_at index hc m c = if c == hc then reset_bit (m hc) index else m c

-- From `m` to `m'` the other bits stay, and a bit that is off stays off.
abbrev Resets : ℕ → (ℕ → ℕ) → (ℕ → ℕ) → Type 0
Resets i m m' =
    ((c j : ℕ) → i ≢ j → test_bit (m' c) j ≡ test_bit (m c) j)
    × ((c : ℕ) → test_bit (m c) i ≡ false → test_bit (m' c) i ≡ false)

reset_here : (i hc : ℕ) (m : ℕ → ℕ) → test_bit (reset_at i hc m hc) i ≡ false
reset_here i hc m = rw (==_refl hc, reset_bit_lem (m hc) i i, ==_refl i) refl

reset_other :
    (i hc : ℕ) (m : ℕ → ℕ) (c j : ℕ) → i ≢ j → test_bit (reset_at i hc m c) j ≡ test_bit (m c) j
reset_other i hc m c j ne = elim (Bool-cases (c == hc)) [
  | inl e ↦
      rw (e, reset_bit_lem (m hc) i j, ==_false i j ne)
        (ap (λ (x : ℕ). test_bit (m x) j) (sym ((==_iff c hc).0 e)))
  | inr e ↦ rw e refl
]

reset_off :
    (i hc : ℕ) (m : ℕ → ℕ) (c : ℕ)
    → test_bit (m c) i ≡ false
    → test_bit (reset_at i hc m c) i ≡ false
reset_off i hc m c off = elim (Bool-cases (c == hc)) [
  | inl e ↦ rw (e, reset_bit_lem (m hc) i i, ==_refl i) refl
  | inr e ↦ rw e off
]

Resets-∙ : (i : ℕ) (a b c : ℕ → ℕ) → Resets i a b → Resets i b c → Resets i a c
Resets-∙ i a b c f g = ((λ x j ne. g.0 x j ne ∙ f.0 x j ne), (λ x off. g.1 x (f.1 x off)))

chars-Resets : (i : ℕ) (hcs : List ℕ) (m : ℕ → ℕ) → Resets i m (disable_chars i hcs m)
unfolding disable_chars
chars-Resets i [] m = ((λ c j ne. refl), (λ c off. off))
chars-Resets i (hc ∷ hcs) m =
    Resets-∙ i _ _ _ (reset_other i hc m, reset_off i hc m) (chars-Resets i hcs (reset_at i hc m))

servs-Resets : (i : ℕ) (hss : List (List ℕ)) (m : ℕ → ℕ) → Resets i m (disable_servs i hss m)
unfolding disable_servs
servs-Resets i [] m = ((λ c j ne. refl), (λ c off. off))
servs-Resets i (hs ∷ hss) m =
    Resets-∙ i _ _ _ (chars-Resets i hs m) (servs-Resets i hss (disable_chars i hs m))

pub all-Resets :
    (i : ℕ) (has : List (List (List ℕ))) (m : ℕ → ℕ)
    → Resets i m (hap_disable_all_char_notif i has m)
unfolding hap_disable_all_char_notif
all-Resets i [] m = ((λ c j ne. refl), (λ c off. off))
all-Resets i (ha ∷ has) m =
    Resets-∙ i _ _ _ (servs-Resets i ha m) (all-Resets i has (disable_servs i ha m))

chars_off :
    (i : ℕ) (hcs : List ℕ) (m : ℕ → ℕ) {c : ℕ}
    → Memᴰ c hcs
    → test_bit (disable_chars i hcs m c) i ≡ false
unfolding disable_chars
chars_off i [] m mem = elim mem [ ]
chars_off i (hc ∷ hcs) m {c} mem = elim (Memᴰ.cases_cons mem) [
  | inl e ↦
      (chars-Resets i hcs (reset_at i hc m)).1 c
        (ap (λ (x : ℕ). test_bit (reset_at i hc m x) i) e ∙ reset_here i hc m)
  | inr k ↦ chars_off i hcs (reset_at i hc m) k
]

servs_off :
    (i : ℕ) (hss : List (List ℕ)) (m : ℕ → ℕ) {hs : List ℕ} {c : ℕ}
    → Memᴰ hs hss
    → Memᴰ c hs
    → test_bit (disable_servs i hss m c) i ≡ false
unfolding disable_servs
servs_off i [] m mem in_hs = elim mem [ ]
servs_off i (h ∷ hss) m {c} mem in_hs = elim (Memᴰ.cases_cons mem) [
  | inl e ↦
      (servs-Resets i hss (disable_chars i h m)).1 c (chars_off i h m (subst (Memᴰ c) e in_hs))
  | inr k ↦ servs_off i hss (disable_chars i h m) k in_hs
]

pub all_off :
    (i : ℕ) (has : List (List (List ℕ))) (m : ℕ → ℕ) {ha : List (List ℕ)} {hs : List ℕ} {c : ℕ}
    → Memᴰ ha has
    → Memᴰ hs ha
    → Memᴰ c hs
    → test_bit (hap_disable_all_char_notif i has m c) i ≡ false
unfolding hap_disable_all_char_notif
all_off i [] m mem in_ha in_hs = elim mem [ ]
all_off i (a ∷ has) m {c} mem in_ha in_hs = elim (Memᴰ.cases_cons mem) [
  | inl e ↦
      (all-Resets i has (disable_servs i a m)).1 c (servs_off i a m (subst (Memᴰ _) e in_ha) in_hs)
  | inr k ↦ all_off i has (disable_servs i a m) k in_ha in_hs
]
