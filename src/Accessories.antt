-- ===== src/Accessories.antt =====
-- esp_hap_serv.c, esp_hap_acc.c: the objects of the accessory database, which are accessories with
-- their services and the characteristics of those.
pub mod Numbering
pub mod Joining
pub mod AddChar
pub mod Ownership
pub mod Identifiers
pub mod ServIdentifiers
pub mod CharIdentifiers
pub mod Steps
pub mod Lookup
pub mod Subscribed
use nina_fw_homekit.Prelude.{
  ℕ, ◌+◌, ◌%◌, ◌^◌, Bool, true, false, Option, none, some, List, [], ◌∷◌, ◌++◌, ◌==◌, if◌then◌else◌,
}
use nina_fw_homekit.Prelude.Strings.{bytes_eq}
use nina_fw_homekit.Keystore.{Text}
use nina_fw_homekit.Characteristics.{Floats, HapChar}

-- `__hap_serv_t`, without its callbacks. A chain of objects, linked by `next_char`, `next_serv` or
-- `next`, is the list of their addresses.
pub record HapServ : Type 0 where
  pub type_uuid : Text
  pub iid : ℕ
  pub hidden : Bool
  pub primary : Bool
  pub chars : List ℕ
  pub parent : Option ℕ
  pub linked_servs : List ℕ

-- `__hap_acc_t`, without the identify routine
pub record HapAcc : Type 0 where
  pub aid : ℕ
  pub servs : List ℕ
  pub next_iid : ℕ

-- The memory of the three kinds of objects; `primary_acc` is the first of `accessories`.
pub record Objects (fl : Floats) : Type 0 where
  pub char : ℕ → HapChar fl
  pub serv : ℕ → HapServ
  pub acc : ℕ → HapAcc
  pub accessories : List ℕ

-- `x++` on 32 bits
unfoldable pub next32 : ℕ → ℕ
next32 n = (n + 1) % 2 ^ 32

-- The first address of a chain that a test holds of.
unfoldable pub find_object : (ℕ → Bool) → List ℕ → Option ℕ
find_object test [] = none
find_object test (a ∷ chain) = let rest = find_object test chain in if test a then some a else rest

-- The object that `hap_serv_create` allocates.
abbrev pub new_serv : Text → HapServ
new_serv type_uuid = record {
  type_uuid = type_uuid;
  iid = 0;
  hidden = false;
  primary = false;
  chars = [];
  parent = none;
  linked_servs = [];
}

module _ {fl : Floats} where
  -- `*a = ...`
  unfoldable pub put_char : ℕ → HapChar fl → Objects fl → Objects fl
  put_char a hc o = record o { char = λ b. if b == a then hc else o.char b }

  unfoldable pub put_serv : ℕ → HapServ → Objects fl → Objects fl
  put_serv a hs o = record o { serv = λ b. if b == a then hs else o.serv b }

  unfoldable pub put_acc : ℕ → HapAcc → Objects fl → Objects fl
  put_acc a ha o = record o { acc = λ b. if b == a then ha else o.acc b }

  -- `hap_serv_link_serv`; `memory` is whether calloc has some.
  unfoldable pub hap_serv_link_serv : Bool → Option ℕ → Option ℕ → Objects fl → Bool × Objects fl
  hap_serv_link_serv memory none linked o = (false, o)
  hap_serv_link_serv memory (some s) none o = (false, o)
  hap_serv_link_serv false (some s) (some l) o = (false, o)
  hap_serv_link_serv true (some s) (some l) o =
      let hs = o.serv s in
      (true, put_serv s (record hs { linked_servs = hs.linked_servs ++ l ∷ [] }) o)

  -- The number for a characteristic that joins a service of an accessory.
  unfoldable pub number_char : Option ℕ → ℕ → Objects fl → Objects fl
  number_char none c o = o
  number_char (some a) c o =
      let ha = o.acc a in
      put_acc a (record ha { next_iid = next32 ha.next_iid })
        (put_char c (record (o.char c) { iid = ha.next_iid }) o)

  unfoldable pub join_char : Option ℕ → ℕ → ℕ → Objects fl → Bool × Objects fl
  join_char (some p) s c o = (false, o)
  join_char none s c o =
      let hs = o.serv s in
      let chained = put_serv s (record hs { chars = hs.chars ++ c ∷ [] }) o in
      let numbered = number_char hs.parent c chained in
      (true, put_char c (record (numbered.char c) { parent = some s }) numbered)

  -- `hap_serv_add_char`
  unfoldable pub hap_serv_add_char : Option ℕ → Option ℕ → Objects fl → Bool × Objects fl
  hap_serv_add_char none hc o = (false, o)
  hap_serv_add_char (some s) none o = (false, o)
  hap_serv_add_char (some s) (some c) o = join_char (o.char c).parent s c o

  -- The loop of `hap_acc_add_serv` over the characteristics that are left.
  unfoldable pub number_chars : ℕ → List ℕ → Objects fl → Objects fl
  number_chars a [] o = o
  number_chars a (c ∷ cs) o = number_chars a cs (number_char (some a) c o)

  unfoldable pub join_serv : Option ℕ → ℕ → ℕ → Objects fl → Bool × Objects fl
  join_serv (some p) a s o = (false, o)
  join_serv none a s o =
      let ha = o.acc a in
      let hs = o.serv s in
      let chained =
        put_acc a (record ha { servs = ha.servs ++ s ∷ []; next_iid = next32 ha.next_iid })
          (put_serv s (record hs { iid = ha.next_iid }) o) in
      let numbered = number_chars a hs.chars chained in
      (true, put_serv s (record (numbered.serv s) { parent = some a }) numbered)

  -- `hap_acc_add_serv`
  unfoldable pub hap_acc_add_serv : ℕ → ℕ → Objects fl → Bool × Objects fl
  hap_acc_add_serv a s o = join_serv (o.serv s).parent a s o

  -- `hap_serv_get_char_by_iid` and `hap_serv_get_char_by_uuid`
  unfoldable pub hap_serv_get_char_by_iid : Option ℕ → ℕ → Objects fl → Option ℕ
  hap_serv_get_char_by_iid none iid o = none
  hap_serv_get_char_by_iid (some s) iid o =
      find_object (λ c. (o.char c).iid == iid) (o.serv s).chars

  unfoldable pub hap_serv_get_char_by_uuid : Option ℕ → Option Text → Objects fl → Option ℕ
  hap_serv_get_char_by_uuid none uuid o = none
  hap_serv_get_char_by_uuid (some s) none o = none
  hap_serv_get_char_by_uuid (some s) (some uuid) o =
      find_object (λ c. bytes_eq (o.char c).type_uuid uuid) (o.serv s).chars

  -- `hap_acc_get_serv_by_iid` and `hap_acc_get_serv_by_uuid`
  unfoldable pub hap_acc_get_serv_by_iid : Option ℕ → ℕ → Objects fl → Option ℕ
  hap_acc_get_serv_by_iid none iid o = none
  hap_acc_get_serv_by_iid (some a) iid o = find_object (λ s. (o.serv s).iid == iid) (o.acc a).servs

  unfoldable pub hap_acc_get_serv_by_uuid : Option ℕ → Text → Objects fl → Option ℕ
  hap_acc_get_serv_by_uuid none uuid o = none
  hap_acc_get_serv_by_uuid (some a) uuid o =
      find_object (λ s. bytes_eq (o.serv s).type_uuid uuid) (o.acc a).servs

  -- The loop of `hap_acc_get_char_by_iid` over the services that are left.
  unfoldable pub char_of_servs : ℕ → List ℕ → Objects fl → Option ℕ
  char_of_servs iid [] o = none
  char_of_servs iid (s ∷ ss) o =
      let rest = char_of_servs iid ss o in
      elim (hap_serv_get_char_by_iid (some s) iid o) [ none ↦ rest | some c ↦ some c ]

  -- `hap_acc_get_char_by_iid`
  unfoldable pub hap_acc_get_char_by_iid : Option ℕ → ℕ → Objects fl → Option ℕ
  hap_acc_get_char_by_iid none iid o = none
  hap_acc_get_char_by_iid (some a) iid o = char_of_servs iid (o.acc a).servs o

  -- `hap_acc_get_by_aid`
  unfoldable pub hap_acc_get_by_aid : ℕ → Objects fl → Option ℕ
  hap_acc_get_by_aid aid o = find_object (λ a. (o.acc a).aid == aid) o.accessories
