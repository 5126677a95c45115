-- ===== src/Pkcs11/Module/Present.antt =====
-- What common/pkcs11_lib.c asks of a module file before it is loaded, and what a refresh of the slot
-- table keeps.
use pam_pkcs.Base.{
  ℕ, zero, suc, ◌/◌, ◌%◌, ◌≡◌, refl, inl, inr, subst, sym, ◌∙◌, arith, Bool, true, false, List, [],
  ◌∷◌, Option, none, some, Bytes, Option-cases,
}
use pam_pkcs.Base.Int.{ℤ, negsuc}
use pam_pkcs.Pkcs11.Slots.{Slot}
use pam_pkcs.Pkcs11.Cryptoki.{get_slot_list, live, Handle, Cryptoki, ask}
use pam_pkcs.Pkcs11.Module.{
  ModuleStat, Linker, load_pkcs11_module, read_token, read_slot, read_slots, read_table,
  refresh_table, refresh_slots,
}
use pam_pkcs.Pkcs11.Module.Refresh.{HasCount}

-- A module is loaded only from a file that root owns, and that neither its group nor others may
-- write; and the linker and C_GetFunctionList had to succeed on it.
pub load_pkcs11_module_sound :
    {X509 : Type 0} (ld : Linker) (path : Bytes) (h : Handle X509)
    → load_pkcs11_module ld path ≡ some h
    → (st : ModuleStat) × (ld.stat path ≡ some st)
      × (st.st_uid ≡ 0)
      × (st.st_mode / 16 % 2 ≡ 0)
      × (st.st_mode / 2 % 2 ≡ 0)
      × (ld.dlopen path ≡ true)
      × (ld.dlsym path ≡ true)
      × (ld.get_function_list path ≡ 0)
unfolding load_pkcs11_module
load_pkcs11_module_sound ld path h e = elim (Option-cases (ld.stat path)) [
  | inl n ↦ absurd (ground (arith, e, n))
  | inr (st, n) ↦ (
    st,
    n,
    ground (arith, e, n),
    ground (arith, e, n),
    ground (arith, e, n),
    ground (arith, e, n),
    ground (arith, e, n),
    ground (arith, e, n),
  )
]

-- A slot that had a token has one.
abbrev pub Keeps : List Slot → List Slot → Type 0
Keeps [] [] = Unit
Keeps [] (t ∷ l') = ⊥
Keeps (s ∷ l) [] = ⊥
Keeps (s ∷ l) (t ∷ l') = (s.token_present ≡ true → t.token_present ≡ true) × Keeps l l'

Keeps-refl : (l : List Slot) → Keeps l l
Keeps-refl [] = tt
Keeps-refl (s ∷ l) = ((λ e. e), Keeps-refl l)

module _ {X509 : Type 0} (env : Cryptoki X509) where
  read_slot-token_present :
      (s : Slot) (h : Handle X509)
      → s.token_present ≡ true
      → (read_slot env s h).1.token_present ≡ true
  unfolding read_slot read_token
  read_slot-token_present s h e = ground (arith, e)

  abbrev ReadKeeps : List Slot → Option (ℤ × List Slot × Handle X509) → Type 0
  ReadKeeps l none = Unit
  ReadKeeps l (some (rv, l', h')) = Keeps l l'

  read_slots-Keeps : (n : ℕ) (l : List Slot) (h : Handle X509) → ReadKeeps l (read_slots env n l h)
  unfolding read_slots
  read_slots-Keeps zero l h = Keeps-refl l
  read_slots-Keeps (suc n) [] h = tt
  read_slots-Keeps (suc n) (s ∷ l) h =
      by_result (read_slot env s h).0 (read_slots env n l (read_slot env s h).2)
        (read_slots-Keeps n l (read_slot env s h).2)
    where
      by_result :
          (ok : Bool) (o : Option (ℤ × List Slot × Handle X509))
          → ReadKeeps l o
          → ReadKeeps (s ∷ l) (elim ok [
            | false ↦ some (negsuc 0, (read_slot env s h).1 ∷ l, (read_slot env s h).2)
            | true ↦ elim o [
              | none ↦ none
              | some (rv, l', h') ↦ some (rv, (read_slot env s h).1 ∷ l', h')
            ]
          ])
      by_result false o r = (read_slot-token_present s h, Keeps-refl l)
      by_result true none r = tt
      by_result true (some (rv, l', h')) r = (read_slot-token_present s h, r)

  abbrev TableKeeps : List Slot → Option (ℤ × Handle X509) → Type 0
  TableKeeps l none = Unit
  TableKeeps l (some (rv, h')) = (l' : List Slot) × (h'.slots ≡ live l') × Keeps l l'

  read_table-Keeps : (l : List Slot) (h : Handle X509) → TableKeeps l (read_table env (live l) h)
  unfolding read_table
  read_table-Keeps l h =
      by_result (read_slots env h.slot_count l h) (read_slots-Keeps h.slot_count l h)
    where
      by_result :
          (o : Option (ℤ × List Slot × Handle X509))
          → ReadKeeps l o
          → TableKeeps l (elim o [
            | none ↦ none
            | some (rv, l', h') ↦ some (rv, record h' { slots = live l' })
          ])
      by_result none r = tt
      by_result (some (rv, l', h')) r = (l', refl, r)

  refresh_slots-same :
      (h : Handle X509) (l : List Slot)
      → h.slots ≡ live l
      → HasCount env h.calls h.slot_count
      → refresh_slots env h ≡ read_table env (live l) (ask env (get_slot_list none) h).1
  unfolding refresh_slots refresh_table
  refresh_slots-same h l t c = ground (arith, t, c.0, c.1)

  -- While the number of slots stays the same, no refresh clears the mark of a token that was once in
  -- a slot, whatever the module reports of it.
  pub refresh_slots-Keeps :
      (h h' : Handle X509) (rv : ℤ) (l : List Slot)
      → h.slots ≡ live l
      → HasCount env h.calls h.slot_count
      → refresh_slots env h ≡ some (rv, h')
      → (l' : List Slot) × (h'.slots ≡ live l') × Keeps l l'
  refresh_slots-Keeps h h' rv l t c e =
      subst (TableKeeps l) (sym (refresh_slots-same h l t c) ∙ e)
        (read_table-Keeps l (ask env (get_slot_list none) h).1)
