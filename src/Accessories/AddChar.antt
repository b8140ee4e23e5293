-- ===== src/Accessories/AddChar.antt =====
-- esp_hap_serv.c: what hap_serv_add_char changes.
use nina_fw_homekit.Prelude.{
  ℕ, ◌+◌, ◌^◌, ◌<◌, ◌≡◌, ◌≢◌, refl, sym, ap, ◌∙◌, arith, true, false, Option, none, some, [], ◌∷◌,
  ◌++◌, ℕ_discrete,
}
use nina_fw_homekit.Characteristics.{Floats}
use nina_fw_homekit.Accessories.{
  Objects, next32, put_char, put_serv, put_acc, number_char, join_char, hap_serv_add_char,
}
use nina_fw_homekit.Accessories.Numbering.{
  number_char_acc, number_char_char, put_acc_other, put_char_same, put_char_other,
}
use nina_fw_homekit.Accessories.Joining.{put_serv_same, put_serv_other}

module _ {fl : Floats} where
  -- The parts of `hap_serv_add_char`, for a service that belongs to `q`.
  abbrev pub longer : ℕ → ℕ → Objects fl → Objects fl
  longer s c o = put_serv s (record (o.serv s) { chars = (o.serv s).chars ++ c ∷ [] }) o

  number_char_serv : (q : Option ℕ) (c : ℕ) (o : Objects fl) → (number_char q c o).serv ≡ o.serv
  unfolding number_char put_acc put_char
  number_char_serv none c o = refl
  number_char_serv (some a) c o = refl

  number_char_keeps :
      (q : Option ℕ) (c d : ℕ) (o : Objects fl) → d ≢ c → (number_char q c o).char d ≡ o.char d
  unfolding number_char put_acc
  number_char_keeps none c d o h = refl
  number_char_keeps (some a) c d o h = put_char_other c d _ o h

  number_char_servs :
      (q : Option ℕ) (c b : ℕ) (o : Objects fl)
      → ((number_char q c o).acc b).servs ≡ (o.acc b).servs
  unfolding number_char put_char
  number_char_servs none c b o = refl
  number_char_servs (some a) c b o = elim (ℕ_discrete b a) [
    | yes e ↦
        ap (λ x. ((number_char (some a) c o).acc x).servs) e
        ∙ ap (λ ha. ha.servs) (number_char_acc a c o)
        ∙ ap (λ x. (o.acc x).servs) (sym e)
    | no n ↦ ap (λ ha. ha.servs) (put_acc_other a b _ (put_char c _ o) n)
  ]

  number_char_acc_other :
      (q : Option ℕ) (c b : ℕ) (o : Objects fl) → q ≢ some b → (number_char q c o).acc b ≡ o.acc b
  unfolding number_char put_char
  number_char_acc_other none c b o h = refl
  number_char_acc_other (some a) c b o h =
      put_acc_other a b _ (put_char c _ o) (λ e. h (ap some (sym e)))

  pub add_char_refused :
      (s c p : ℕ) (o : Objects fl)
      → (o.char c).parent ≡ some p
      → hap_serv_add_char (some s) (some c) o ≡ (false, o)
  unfolding hap_serv_add_char join_char
  add_char_refused s c p o h = ap (λ q. join_char q s c o) h

  module _ (s c : ℕ) (o : Objects fl) (free : (o.char c).parent ≡ none) where
    abbrev counted : Objects fl
    counted = number_char (o.serv s).parent c (longer s c o)

    add_char_joins :
        hap_serv_add_char (some s) (some c) o
        ≡ (true, put_char c (record (counted.char c) { parent = some s }) counted)
    unfolding hap_serv_add_char join_char
    add_char_joins = ap (λ q. join_char q s c o) free

    pub add_char_serv :
        (hap_serv_add_char (some s) (some c) o).1.serv s
        ≡ record (o.serv s) { chars = (o.serv s).chars ++ c ∷ [] }
    unfolding put_char
    add_char_serv =
        rw add_char_joins (
          ap (λ f. f s) (number_char_serv (o.serv s).parent c (longer s c o)) ∙ put_serv_same s _ o)

    pub add_char_serv_other :
        (t : ℕ) → t ≢ s → (hap_serv_add_char (some s) (some c) o).1.serv t ≡ o.serv t
    unfolding put_char
    add_char_serv_other t h = rw add_char_joins (
        ap (λ f. f t) (number_char_serv (o.serv s).parent c (longer s c o))
        ∙ put_serv_other s t _ o h)

    pub add_char_parent : ((hap_serv_add_char (some s) (some c) o).1.char c).parent ≡ some s
    add_char_parent = rw add_char_joins (ap (λ hc. hc.parent) (put_char_same c _ counted))

    pub add_char_other :
        (d : ℕ) → d ≢ c → (hap_serv_add_char (some s) (some c) o).1.char d ≡ o.char d
    unfolding put_serv
    add_char_other d h =
        rw add_char_joins (
          put_char_other c d _ counted h ∙ number_char_keeps (o.serv s).parent c d (longer s c o) h)

    pub add_char_servs :
        (b : ℕ) → ((hap_serv_add_char (some s) (some c) o).1.acc b).servs ≡ (o.acc b).servs
    unfolding put_char put_serv
    add_char_servs b = rw add_char_joins (number_char_servs (o.serv s).parent c b (longer s c o))

    pub add_char_acc :
        (b : ℕ)
        → (o.serv s).parent ≢ some b
        → (hap_serv_add_char (some s) (some c) o).1.acc b ≡ o.acc b
    unfolding put_char put_serv
    add_char_acc b h =
        rw add_char_joins (number_char_acc_other (o.serv s).parent c b (longer s c o) h)

    pub add_char_iid :
        (a : ℕ)
        → (o.serv s).parent ≡ some a
        → ((hap_serv_add_char (some s) (some c) o).1.char c).iid ≡ (o.acc a).next_iid
    unfolding put_serv
    add_char_iid a h = rw add_char_joins (
        ap (λ hc. hc.iid) (put_char_same c _ counted)
        ∙ ap (λ q. ((number_char q c (longer s c o)).char c).iid) h
        ∙ ap (λ hc. hc.iid) (number_char_char a c (longer s c o)))

    pub add_char_next :
        (a : ℕ)
        → (o.serv s).parent ≡ some a
        → (o.acc a).next_iid + 1 < 2 ^ 32
        → ((hap_serv_add_char (some s) (some c) o).1.acc a).next_iid ≡ (o.acc a).next_iid + 1
    unfolding put_char put_serv next32
    add_char_next a h room = rw add_char_joins (
        ap (λ q. ((number_char q c (longer s c o)).acc a).next_iid) h
        ∙ ap (λ ha. ha.next_iid) (number_char_acc a c (longer s c o))
        ∙ omega arith)
