-- ===== src/Sessions/Slots.antt =====
-- esp_hap_pair_verify.c: the slots of the session table: who is in it, what a session leaves behind, and what is closed.
use nina_fw_homekit.Prelude.{
  ℕ, zero, suc, ◌+◌, ◌<◌, ◌≡◌, ◌≢◌, inl, inr, refl, ap, ◌∙◌, arith, true, Option, none, some, List,
  [], ◌∷◌, get_or, length, Bool-cases,
}
use nina_fw_homekit.Sessions.{holds, find_session, find_free}

abbrev pub Slots : Type 0
Slots = List (Option ℕ)

holds_iff : (s : Option ℕ) (a : ℕ) → holds s a ≡ true → s ≡ some a
unfolding holds
holds_iff none a h = cc
holds_iff (some b) a h = ground arith

find_session_from :
    (a i : ℕ) (ss : Slots) {j : ℕ}
    → find_session a i ss ≡ some j
    → (d : ℕ) × (j ≡ i + d) × (d < length ss) × (get_or ss d none ≡ some a)
unfolding find_session
find_session_from a i [] e = cc
find_session_from a i (s ∷ ss) {j} e = elim (Bool-cases (holds s a)) [
  | inl hit ↦ (0, ground arith, omega arith, holds_iff s a hit)
  | inr miss ↦
      let (d, same, below, hit) = find_session_from a (i + 1) ss {j = j} (ground arith) in
      (suc d, omega arith, omega arith, hit)
]

-- A session that is found stands in the slot of its index.
pub find_session-some :
    (a : ℕ) (ss : Slots) (j : ℕ)
    → find_session a 0 ss ≡ some j
    → (j < length ss) × (get_or ss j none ≡ some a)
find_session-some a ss j e =
    let (d, same, below, hit) = find_session_from a 0 ss e in
    let here : j ≡ d = omega arith in (omega arith, ap (λ (n : ℕ). get_or ss n none) here ∙ hit)

pub find_session-none :
    (a i d : ℕ) (ss : Slots)
    → find_session a i ss ≡ none
    → d < length ss
    → get_or ss d none ≢ some a
unfolding find_session holds
find_session-none a i d [] e h same = absurd (omega arith)
find_session-none a i zero (none ∷ ss) e h same = cc
find_session-none a i zero (some b ∷ ss) e h same = ground arith
find_session-none a i (suc d) (none ∷ ss) e h same =
    find_session-none a (i + 1) d ss (ground arith) (omega arith) same
find_session-none a i (suc d) (some b ∷ ss) e h same =
    find_session-none a (i + 1) d ss (ground arith) (omega arith) same

find_free_from :
    (i : ℕ) (ss : Slots) {j : ℕ}
    → find_free i ss ≡ some j
    → (d : ℕ) × (j ≡ i + d) × (d < length ss) × (get_or ss d none ≡ none)
unfolding find_free
find_free_from i [] e = cc
find_free_from i (none ∷ ss) e = (0, ground arith, omega arith, refl)
find_free_from i (some a ∷ ss) {j} e =
    let (d, same, below, hit) = find_free_from (i + 1) ss {j = j} e in
    (suc d, omega arith, omega arith, hit)

pub find_free-some :
    (ss : Slots) (j : ℕ) → find_free 0 ss ≡ some j → (j < length ss) × (get_or ss j none ≡ none)
find_free-some ss j e =
    let (d, same, below, hit) = find_free_from 0 ss e in
    let here : j ≡ d = omega arith in (omega arith, ap (λ (n : ℕ). get_or ss n none) here ∙ hit)

-- No session object stands in two slots.
abbrev pub NoRepeat : Slots → Type 0
NoRepeat ss = (a i j : ℕ) → get_or ss i none ≡ some a → get_or ss j none ≡ some a → i ≡ j
