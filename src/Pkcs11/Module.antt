-- ===== src/Pkcs11/Module.antt =====
-- common/pkcs11_lib.c: loading and releasing the PKCS #11 module, and the table of its slots. A
-- result of `none` is an access to memory that was freed, or that lies outside the table.
pub mod Refresh
pub mod Present
use pam_pkcs.Base.{
  ℕ, zero, suc, ◌+◌, ◌*◌, ◌/◌, ◌%◌, Bool, true, false, ◌&&◌, ◌||◌, not, List, [], ◌∷◌, Option, none,
  some, Bytes, if◌then◌else◌, ◌==◌, take, drop, ltb,
}
use pam_pkcs.Base.Int.{ℤ, pos, negsuc}
use pam_pkcs.Pkcs11.Slots.{Slot, cstring}
use pam_pkcs.Pkcs11.Cryptoki.{
  Call, get_slot_list, get_slot_info, get_token_info, initialize, get_info, finalize, Reply, is_ok,
  SlotTable, null, freed, live, Handle, Cryptoki, ask,
}

-- What `stat` gives of the file of the module.
pub record ModuleStat : Type 0 where
  pub st_uid : ℕ
  pub st_mode : ℕ

-- `S_IWGRP` and `S_IWOTH`
abbrev is_writable_by_others : ℕ → Bool
is_writable_by_others mode = mode / 16 % 2 == 1 || mode / 2 % 2 == 1

-- What the dynamic linker finds: whether dlopen and dlsym succeed, and what C_GetFunctionList
-- returns.
pub record Linker : Type 0 where
  pub stat : Bytes → Option ModuleStat
  pub dlopen : Bytes → Bool
  pub dlsym : Bytes → Bool
  pub get_function_list : Bytes → ℕ

-- -1 cast to CK_ULONG
abbrev pub no_count : ℕ
no_count = 18446744073709551615

abbrev pub new_handle : {X509 : Type 0} → Handle X509
new_handle = record {
  module_open = true;
  should_finalize = false;
  slots = null;
  slot_count = 0;
  session = 0;
  certs = none;
  current_slot = 0;
  calls = [];
}

open_module : {X509 : Type 0} → Linker → Bytes → ModuleStat → Option (Handle X509)
open_module ld path st =
    if is_writable_by_others st.st_mode || not (st.st_uid == 0)
    then none
    else if not (ld.dlopen path)
    then none
    else if not (ld.dlsym path)
    then none
    else if not (is_ok (ld.get_function_list path))
    then none
    else some new_handle

-- The new handle; none for a result of -1.
unfoldable pub load_pkcs11_module : {X509 : Type 0} → Linker → Bytes → Option (Handle X509)
unfolding open_module
load_pkcs11_module ld path = elim (ld.stat path) [ none ↦ none | some st ↦ open_module ld path st ]

-- `free(h->slots)`: freeing what was freed is an error.
abbrev free_slots : SlotTable → Option SlotTable
free_slots null = some null
free_slots freed = none
free_slots (live l) = some freed

-- `memset(h->slots, 0, …)`
zero_slots : ℕ → List Slot
zero_slots zero = []
zero_slots (suc n) =
    record { id = 0; token_present = false; label = []; slot_description = [] } ∷ zero_slots n

set_ids : List ℕ → List Slot → List Slot
set_ids [] l = l
set_ids (i ∷ ids) [] = []
set_ids (i ∷ ids) (s ∷ l) = record s { id = i } ∷ set_ids ids l

-- The blanks at the end of some bytes become nulls.
trim_label : Bytes → Bytes
trim_label [] = []
trim_label (c ∷ s) = elim (trim_label s) [ [] ↦ if c == 32 then [] else c ∷ [] | d ∷ t ↦ c ∷ d ∷ t ]

-- TRUE, the byte `token_present` that stands before the label of a slot.
abbrev true_byte : ℕ
true_byte = 1

-- The loop over the label has no lower bound: in a blank label it ends at `token_present`.
label_of : Bytes → Bytes
unfolding trim_label
label_of text = cstring (drop 1 (trim_label (true_byte ∷ take 32 text)))

-- A slot that the module has told of, and whether all calls for it went well.
abbrev with_token : Slot → Bytes → Slot
with_token s label = record s { token_present = true; label = label }

-- CKR_CRYPTOKI_ALREADY_INITIALIZED
abbrev already_initialized : ℕ
already_initialized = 401

module _ {X509 : Type 0} (env : Cryptoki X509) where
  read_token : Slot → Handle X509 → Bool × Slot × Handle X509
  unfolding label_of
  read_token s h =
      let (t, h1) = ask env (get_token_info s.id) h in
      if is_ok t.rv then (true, with_token s (label_of t.text), h1) else (false, s, h1)

  read_slot : Slot → Handle X509 → Bool × Slot × Handle X509
  unfolding read_token
  read_slot s h =
      let (r, h1) = ask env (get_slot_info s.id) h in
      let s1 = record s { slot_description = r.text } in
      if not (is_ok r.rv)
      then (false, s, h1)
      else if r.token_present
      then read_token s1 h1
      else (true, s1, h1)

  -- The loop over the slots of the table, up to `slot_count`.
  read_slots : ℕ → List Slot → Handle X509 → Option (ℤ × List Slot × Handle X509)
  unfolding read_slot
  read_slots zero l h = some (pos 0, l, h)
  read_slots (suc n) [] h = none
  read_slots (suc n) (s ∷ l) h = elim (read_slot s h).0 [
    | false ↦ some (negsuc 0, (read_slot s h).1 ∷ l, (read_slot s h).2)
    | true ↦ elim (read_slots n l (read_slot s h).2) [
      | none ↦ none
      | some (rv, l', h') ↦ some (rv, (read_slot s h).1 ∷ l', h')
    ]
  ]

  read_table : SlotTable → Handle X509 → Option (ℤ × Handle X509)
  unfolding read_slots
  read_table (live l) h = elim (read_slots h.slot_count l h) [
    | none ↦ none
    | some (rv, l', h') ↦ some (rv, record h' { slots = live l' })
  ]
  read_table null h = if h.slot_count == 0 then some (pos 0, h) else none
  read_table freed h = if h.slot_count == 0 then some (pos 0, h) else none

  -- The list is asked for once the table for it is there. More slots than it has place for are read
  -- and written behind it.
  fill_table : ℕ → Handle X509 → Option (ℤ × Handle X509)
  unfolding read_table zero_slots set_ids
  fill_table n h =
      let (r, h1) = ask env (get_slot_list (some n)) h in
      let l = set_ids (take r.count r.ids) (zero_slots n) in
      if not (is_ok r.rv)
      then some (negsuc 0, record h1 { slot_count = r.count; slots = live (zero_slots n) })
      else if ltb n r.count
      then none
      else read_table (live l) (record h1 { slot_count = r.count; slots = live l })

  -- The part of `refresh_slots` after the old table was freed.
  unfoldable pub new_table : Handle X509 → Option (ℤ × Handle X509)
  unfolding fill_table
  new_table h =
      let (r, h1) = ask env (get_slot_list none) h in
      let h2 = record h1 { slot_count = r.count } in
      if not (is_ok r.rv)
      then some (negsuc 0, h2)
      else if r.count == 0
      then some (negsuc 0, h2)
      else fill_table r.count h2

  -- What is done for a number of slots that has changed, and for one that has not.
  unfoldable pub refresh_table : ℕ → Handle X509 → Option (ℤ × Handle X509)
  unfolding new_table read_table
  refresh_table n h =
      if n == h.slot_count
      then read_table h.slots h
      else elim (free_slots h.slots) [ none ↦ none | some t ↦ new_table (record h { slots = t }) ]

  unfoldable pub refresh_slots : Handle X509 → Option (ℤ × Handle X509)
  unfolding refresh_table
  refresh_slots h =
      let (r, h1) = ask env (get_slot_list none) h in
      if is_ok r.rv then refresh_table r.count h1 else some (negsuc 0, h1)

  info_and_slots : Handle X509 → Option (ℤ × Handle X509)
  unfolding refresh_slots
  info_and_slots h =
      let (r, h1) = ask env get_info h in
      if is_ok r.rv
      then refresh_slots (record h1 { slot_count = no_count; slots = null })
      else some (negsuc 0, h1)

  unfoldable pub init_pkcs11_module : Bool → Handle X509 → Option (ℤ × Handle X509)
  unfolding info_and_slots
  init_pkcs11_module flag h =
      let (r, h1) = ask env (initialize flag) h in
      if is_ok r.rv
      then info_and_slots (record h1 { should_finalize = true })
      else if r.rv == already_initialized
      then info_and_slots h1
      else some (negsuc 0, h1)

  -- The handle is freed with all that it holds.
  unfoldable pub release_pkcs11_module : Handle X509 → Option (List (Call × ℕ))
  release_pkcs11_module h =
      let h1 = if h.should_finalize then (ask env finalize h).1 else h in
      elim (free_slots h.slots) [ none ↦ none | some t ↦ some h1.calls ]
