-- ===== src/Pkcs11/Slots.antt =====
-- common/pkcs11_lib.c: the search for a slot in the slot table of a PKCS #11 module. A result of
-- -1 is `none`; an index is counted from 0.
pub mod Found
use pam_pkcs.Base.{
  ℕ, zero, suc, ◌+◌, ◌-◌, Bool, true, false, ◌&&◌, ◌||◌, not, List, [], ◌∷◌, Option, none, some,
  Bytes, if◌then◌else◌, ◌==◌, ltb, take, length,
}
use pam_pkcs.Base.Int.{ℤ, pos, negsuc, is_zero}
use pam_pkcs.Base.Cstr.{codes, streq, is_space}

-- `slot_t`: the label is the string up to its terminator, the description its 64 bytes.
pub record Slot : Type 0 where
  pub id : ℕ
  pub token_present : Bool
  pub label : Bytes
  pub slot_description : Bytes

-- A parameter of type `unsigned int`.
abbrev pub to_unsigned : ℤ → ℕ
to_unsigned (pos n) = n
to_unsigned (negsuc n) = 4294967296 - (n + 1)

-- The rest of the longer text is blank up to a null.
blank_rest : Bytes → Bool
unfolding is_space
blank_rest [] = true
blank_rest (c ∷ s) = c == 0 || (is_space c && blank_rest s)

pad_eq : Bytes → Bytes → Bool
unfolding blank_rest
pad_eq [] t = blank_rest t
pad_eq (x ∷ s) [] = blank_rest (x ∷ s)
pad_eq (x ∷ s) (y ∷ t) = x == y && pad_eq s t

-- `memcmp_pad_max(d1, …, d2, …, max_sz) == 0`
unfoldable pub memcmp_pad_max : Bytes → Bytes → ℕ → Bool
unfolding pad_eq
memcmp_pad_max d1 d2 max_sz = pad_eq (take max_sz d1) (take max_sz d2)

-- What stands before the first null.
unfoldable pub cstring : Bytes → Bytes
cstring [] = []
cstring (c ∷ s) = if c == 0 then [] else c ∷ cstring s

-- `for (i = …; i < slot_count; i++) if (test(slots[i])) return i;`
unfoldable pub first_slot : (Slot → Bool) → List Slot → ℕ → Option ℕ
first_slot test [] i = none
first_slot test (s ∷ slots) i =
    let rest = first_slot test slots (i + 1) in if test s then some i else rest

-- The slot of an index, if a token is in it.
unfoldable pub present_at : List Slot → ℕ → ℕ → Option ℕ
present_at [] n i = none
present_at (s ∷ slots) zero i = if s.token_present then some i else none
present_at (s ∷ slots) (suc n) i = present_at slots n i

unfoldable pub slot_at : List Slot → ℕ → Option Slot
slot_at [] n = none
slot_at (s ∷ slots) zero = some s
slot_at (s ∷ slots) (suc n) = slot_at slots n

-- Zero asks for the first slot with a token, another number for the slot before it in the table.
unfoldable pub find_slot_by_number : List Slot → ℕ → Option ℕ
unfolding first_slot present_at
find_slot_by_number slots zero = first_slot (λ s. s.token_present) slots 0
find_slot_by_number slots (suc n) = present_at slots n n

-- The label of the slot that was found is compared.
check_label : List Slot → Bytes → ℕ → Option ℕ
unfolding slot_at
check_label slots wanted i = elim (slot_at slots i) [
  | none ↦ none
  | some s ↦ if streq wanted s.label then some i else none
]

unfoldable pub find_slot_by_number_and_label : List Slot → ℤ → Option Bytes → Option ℕ
unfolding find_slot_by_number check_label
find_slot_by_number_and_label slots wanted_slot_id none =
    find_slot_by_number slots (to_unsigned wanted_slot_id)
find_slot_by_number_and_label slots wanted_slot_id (some wanted) =
    if not (is_zero wanted_slot_id)
    then elim (find_slot_by_number slots (to_unsigned wanted_slot_id)) [
      | none ↦ none
      | some i ↦ check_label slots wanted i
    ]
    else first_slot (λ s. s.token_present && streq wanted s.label) slots 0

unfoldable pub find_slot_by_slotlabel : List Slot → Bytes → Option ℕ
unfolding first_slot
find_slot_by_slotlabel slots wanted =
    if length wanted == 0
    then none
    else if streq wanted (codes "none")
    then first_slot (λ s. s.token_present) slots 0
    else first_slot (λ s. s.token_present && memcmp_pad_max s.slot_description wanted 64) slots 0

unfoldable pub find_slot_by_slotlabel_and_tokenlabel : List Slot → Bytes → Option Bytes → Option ℕ
unfolding find_slot_by_slotlabel
find_slot_by_slotlabel_and_tokenlabel slots wanted none = find_slot_by_slotlabel slots wanted
find_slot_by_slotlabel_and_tokenlabel slots wanted (some token) =
    if streq wanted (codes "none")
    then first_slot (λ s. s.token_present && streq token s.label) slots 0
    else first_slot
        (λ s.
          s.token_present
          && (memcmp_pad_max (cstring s.slot_description) wanted 64
              && memcmp_pad_max s.label token 33))
        slots 0

-- The loops that wait for a token: the slot table now, and what each `refresh_slots` leaves. A
-- token that has not come at the end of the list is still waited for.
unfoldable pub wait_until :
    (List Slot → Option ℕ) → List Slot → List (List Slot) → Option (ℕ × List Slot)
wait_until find slots [] = elim (find slots) [ some i ↦ some (i, slots) | none ↦ none ]
wait_until find slots (t ∷ polls) = elim (find slots) [
  | some i ↦ some (i, slots)
  | none ↦ wait_until find t polls
]

unfoldable pub wait_for_token :
    List Slot → List (List Slot) → ℤ → Option Bytes → Option (ℕ × List Slot)
unfolding wait_until
wait_for_token slots polls wanted_slot_id wanted =
    wait_until (λ t. find_slot_by_number_and_label t wanted_slot_id wanted) slots polls

unfoldable pub wait_for_token_by_slotlabel :
    List Slot → List (List Slot) → Bytes → Option Bytes → Option (ℕ × List Slot)
unfolding wait_until
wait_for_token_by_slotlabel slots polls wanted token =
    wait_until (λ t. find_slot_by_slotlabel_and_tokenlabel t wanted token) slots polls
