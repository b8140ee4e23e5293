-- ===== src/Accessories/Steps.antt =====
-- esp_hap_acc.c, esp_hap_serv.c, esp_hap_char.c: the databases that the operations can build.
use mathlib.Core.List.{Memᴰ}
use mathlib.Core.List.Memᴰ
use nina_fw_homekit.Prelude.{
  ℕ, ◌+◌, ◌^◌, ◌<◌, ◌≡◌, refl, sym, ap, subst, ◌∙◌, some, [], length, ℕ_discrete, arith, inl, inr,
}
use nina_fw_homekit.Characteristics.{Floats, HapChar}
use nina_fw_homekit.Accessories.{Objects, put_char, hap_acc_add_serv, hap_serv_add_char}
use nina_fw_homekit.Accessories.Numbering.{NoRepeat, put_char_same, put_char_other}
use nina_fw_homekit.Accessories.Ownership.{
  IsOwned, hap_acc_add_serv-IsOwned, hap_serv_add_char-IsOwned,
}
use nina_fw_homekit.Accessories.Identifiers.{Thing, thing_iid, Has, HasUniqueIids, extend}
use nina_fw_homekit.Accessories.ServIdentifiers.{hap_acc_add_serv-HasUniqueIids}
use nina_fw_homekit.Accessories.CharIdentifiers.{hap_serv_add_char-HasUniqueIids}

module _ {fl : Floats} where
  -- One operation. The identifiers of an accessory do not reach 2 ^ 32. An update of a
  -- characteristic, of whatever kind, keeps its identifier and its parent.
  pub data Step (o : Objects fl) : Objects fl → Type 0 where
    add_serv :
        (a s : ℕ)
        → (o.acc a).next_iid + 1 + length (o.serv s).chars < 2 ^ 32
        → Step o (hap_acc_add_serv a s o).1
    add_char :
        (s c : ℕ)
        → ((a : ℕ) → (o.serv s).parent ≡ some a → (o.acc a).next_iid + 1 < 2 ^ 32)
        → Step o (hap_serv_add_char (some s) (some c) o).1
    set_char :
        (c : ℕ) (hc : HapChar fl)
        → hc.iid ≡ (o.char c).iid
        → hc.parent ≡ (o.char c).parent
        → Step o (put_char c hc o)

  pub data Steps : Objects fl → Objects fl → Type 0 where
    none_left : {o : Objects fl} → Steps o o
    then_step : {o p q : Objects fl} → Steps o p → Step p q → Steps o q

  -- Nothing hangs in any chain.
  abbrev pub IsUnlinked : Objects fl → Type 0
  IsUnlinked o = ((a : ℕ) → (o.acc a).servs ≡ []) × ((s : ℕ) → (o.serv s).chars ≡ [])

  abbrev pub IsWell : Objects fl → Type 0
  IsWell o = IsOwned o × ((a : ℕ) → HasUniqueIids o a)

  put_char_iid :
      (c d : ℕ) (hc : HapChar fl) (o : Objects fl)
      → hc.iid ≡ (o.char c).iid
      → ((put_char c hc o).char d).iid ≡ (o.char d).iid
  put_char_iid c d hc o h = elim (ℕ_discrete d c) [
    | yes e ↦
        ap (λ x. ((put_char c hc o).char x).iid) e
        ∙ ap (λ x. x.iid) (put_char_same c hc o)
        ∙ h
        ∙ ap (λ x. (o.char x).iid) (sym e)
    | no n ↦ ap (λ x. x.iid) (put_char_other c d hc o n)
  ]

  put_char_parent :
      (c d : ℕ) (hc : HapChar fl) (o : Objects fl)
      → hc.parent ≡ (o.char c).parent
      → ((put_char c hc o).char d).parent ≡ (o.char d).parent
  put_char_parent c d hc o h = elim (ℕ_discrete d c) [
    | yes e ↦
        ap (λ x. ((put_char c hc o).char x).parent) e
        ∙ ap (λ x. x.parent) (put_char_same c hc o)
        ∙ h
        ∙ ap (λ x. (o.char x).parent) (sym e)
    | no n ↦ ap (λ x. x.parent) (put_char_other c d hc o n)
  ]

  put_char-IsOwned :
      (c : ℕ) (hc : HapChar fl) (o : Objects fl)
      → hc.parent ≡ (o.char c).parent
      → IsOwned o
      → IsOwned (put_char c hc o)
  unfolding put_char
  put_char-IsOwned c hc o h w = record {
    serv_parent = w.serv_parent;
    char_parent = λ s d m. put_char_parent c d hc o h ∙ w.char_parent s d m;
    no_repeat = w.no_repeat;
  }

  put_char_thing :
      (c : ℕ) (hc : HapChar fl) (o : Objects fl) (x : Thing)
      → hc.iid ≡ (o.char c).iid
      → thing_iid (put_char c hc o) x ≡ thing_iid o x
  unfolding put_char
  put_char_thing c hc o (inl s) h = refl
  put_char_thing c hc o (inr d) h = put_char_iid c d hc o h

  put_char-Has :
      (c : ℕ) (hc : HapChar fl) (o : Objects fl) (a : ℕ) (x : Thing)
      → Has (put_char c hc o) a x
      → Has o a x
  unfolding put_char
  put_char-Has c hc o a (inl s) m = m
  put_char-Has c hc o a (inr d) m = m

  put_char-HasUniqueIids :
      (c : ℕ) (hc : HapChar fl) (o : Objects fl) (a : ℕ)
      → hc.iid ≡ (o.char c).iid
      → HasUniqueIids o a
      → HasUniqueIids (put_char c hc o) a
  unfolding put_char
  put_char-HasUniqueIids c hc o a h u =
      extend o (put_char c hc o) a (λ x. ⊥) u
        (λ x k. inl (put_char-Has c hc o a x k, put_char_thing c hc o x h)) (λ x k. absurd k)
        (λ x y k l e. absurd k) (omega arith)

  pub Step-IsWell : {o p : Objects fl} → IsWell o → Step o p → IsWell p
  Step-IsWell {o} (w, u) (add_serv a s room) =
      (hap_acc_add_serv-IsOwned a s o w, hap_acc_add_serv-HasUniqueIids a s o w u room)
  Step-IsWell {o} (w, u) (add_char s c room) = (
    hap_serv_add_char-IsOwned (some s) (some c) o w,
    hap_serv_add_char-HasUniqueIids s c o w u room,
  )
  Step-IsWell {o} (w, u) (set_char c hc hi hp) =
      (put_char-IsOwned c hc o hp w, λ a. put_char-HasUniqueIids c hc o a hi (u a))

  unlinked-Has : (o : Objects fl) (a : ℕ) (x : Thing) → IsUnlinked o → ¬ Has o a x
  unlinked-Has o a (inl s) (es, ec) m = Memᴰ.not-nil (subst (Memᴰ s) (es a) m)
  unlinked-Has o a (inr c) (es, ec) (s, m, k) = Memᴰ.not-nil (subst (Memᴰ s) (es a) m)

  pub unlinked-IsWell : (o : Objects fl) → IsUnlinked o → IsWell o
  unlinked-IsWell o (es, ec) = (
    record {
      serv_parent = λ a s m. absurd (Memᴰ.not-nil (subst (Memᴰ s) (es a) m));
      char_parent = λ s c m. absurd (Memᴰ.not-nil (subst (Memᴰ c) (ec s) m));
      no_repeat = λ s. subst NoRepeat (sym (ec s)) tt;
    },
    λ a. record {
      unique = λ x y hx hy e. absurd (unlinked-Has o a x (es, ec) hx);
      bounded = λ x hx. absurd (unlinked-Has o a x (es, ec) hx);
    },
  )

  -- From a database with no links, after any sequence of hap_serv_add_char, hap_acc_add_serv and
  -- updates of characteristics, whether they succeed or are refused: every service and every
  -- characteristic in a chain points back to its owner, no chain of characteristics holds one
  -- twice, and in every accessory the services and characteristics have different instance
  -- identifiers, all below the next one. The identifiers do not reach 2 ^ 32.
  pub Steps-IsWell : (o p : Objects fl) → IsUnlinked o → Steps o p → IsWell p
  Steps-IsWell o p h none_left = unlinked-IsWell o h
  Steps-IsWell o p h (then_step before step) = Step-IsWell (Steps-IsWell o _ h before) step
