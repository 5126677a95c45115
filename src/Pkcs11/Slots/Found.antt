-- ===== src/Pkcs11/Slots/Found.antt =====
-- What the searches of common/pkcs11_lib.c find.
use pam_pkcs.Base.{
  ℕ, zero, suc, ◌+◌, ◌≡◌, ◌⊎◌, inl, inr, refl, Bool, true, ◌&&◌, List, [], ◌∷◌, Option, none, some,
  arith, Bytes, Bool-cases, Option-cases,
}
use pam_pkcs.Base.Int.{ℤ, is_zero}
use pam_pkcs.Base.Cstr.{streq, streq_iff}
use pam_pkcs.Pkcs11.Slots.{
  Slot, to_unsigned, first_slot, present_at, slot_at, find_slot_by_number, check_label,
  find_slot_by_number_and_label,
}

-- The slot of index `i` passes the test.
abbrev pub Passes : (Slot → Bool) → List Slot → ℕ → Type 0
Passes test slots i = (s : Slot) × (slot_at slots i ≡ some s) × (test s ≡ true)

first_slot-Passes :
    (test : Slot → Bool) (slots : List Slot) (i j : ℕ)
    → first_slot test slots i ≡ some j
    → (n : ℕ) × (j ≡ i + n) × Passes test slots n
unfolding first_slot slot_at
first_slot-Passes test [] i j h = cc
first_slot-Passes test (s ∷ slots) i j h = elim (Bool-cases (test s)) [
  | inl e ↦ (0, ground arith, (s, refl, e))
  | inr e ↦
      let (n, k, p) = first_slot-Passes test slots (i + 1) j (rw e at h) in
      (suc n, omega (arith, k), p)
]

present_at-Passes :
    (slots : List Slot) (n i j : ℕ)
    → present_at slots n i ≡ some j
    → (j ≡ i) × Passes (λ s. s.token_present) slots n
unfolding present_at slot_at
present_at-Passes [] n i j h = cc
present_at-Passes (s ∷ slots) zero i j h = (ground arith, (s, refl, ground arith))
present_at-Passes (s ∷ slots) (suc n) i j h = present_at-Passes slots n i j h

find_slot_by_number-Passes :
    (slots : List Slot) (n i : ℕ)
    → find_slot_by_number slots n ≡ some i
    → Passes (λ s. s.token_present) slots i × ((n ≡ 0) ⊎ (n ≡ i + 1))
unfolding find_slot_by_number
find_slot_by_number-Passes slots zero i h =
    let (n, e, p) = first_slot-Passes (λ s. s.token_present) slots 0 i h in
    let e' : n ≡ i = omega arith in (rw (← e') p, inl refl)
find_slot_by_number-Passes slots (suc n) i h =
    let (e, p) = present_at-Passes slots n n i h in (rw e p, inr (omega arith))

-- A token is in slot `i`, and it carries the label, if one is wanted.
pub record HasToken (slots : List Slot) (label : Option Bytes) (i : ℕ) : Type 0 where
  pub slot : Slot
  pub is_slot : slot_at slots i ≡ some slot
  pub present : slot.token_present ≡ true
  pub labelled : (wanted : Bytes) → label ≡ some wanted → slot.label ≡ wanted

Passes-HasToken :
    {slots : List Slot} {i : ℕ} → Passes (λ s. s.token_present) slots i → HasToken slots none i
Passes-HasToken (s, e, p) = record {
  slot = s;
  is_slot = e;
  present = p;
  labelled = λ w x. absurd (cc);
}

check_label-HasToken :
    (slots : List Slot) (wanted : Bytes) (i j : ℕ)
    → Passes (λ s. s.token_present) slots i
    → check_label slots wanted i ≡ some j
    → (j ≡ i) × HasToken slots (some wanted) i
unfolding check_label
check_label-HasToken slots wanted i j (s, e, p) h = elim (Bool-cases (streq wanted s.label)) [
  | inr no_label ↦ absurd (ground arith)
  | inl same ↦ (
    ground arith,
    record {
      slot = s;
      is_slot = e;
      present = p;
      labelled = λ w x. ground (arith, (streq_iff wanted s.label).0 same);
    },
  )
]

-- The slot that `find_slot_by_number_and_label` gives holds a token, with the label that is wanted
-- if one is, and it is the slot of the number that is wanted, counted from 1, unless that is 0.
pub find_slot_by_number_and_label_sound :
    (slots : List Slot) (wanted_slot_id : ℤ) (label : Option Bytes) {i : ℕ}
    → find_slot_by_number_and_label slots wanted_slot_id label ≡ some i
    → HasToken slots label i
      × ((to_unsigned wanted_slot_id ≡ 0) ⊎ (to_unsigned wanted_slot_id ≡ i + 1))
unfolding find_slot_by_number_and_label
find_slot_by_number_and_label_sound slots wanted_slot_id none {i} h =
    let (p, n) = find_slot_by_number-Passes slots (to_unsigned wanted_slot_id) i h in
    (Passes-HasToken p, n)
find_slot_by_number_and_label_sound slots wanted_slot_id (some wanted) {i} h =
    elim (Bool-cases (is_zero wanted_slot_id)) [
      | inl zero_id ↦
          let (n, e, (s, at, t)) =
            first_slot-Passes (λ s. s.token_present && streq wanted s.label) slots 0 i
              (rw zero_id at h) in
          let e' : n ≡ i = omega arith in
          (
            record {
              slot = s;
              is_slot = rw (← e') at;
              present = ground arith;
              labelled = λ w x. ground (arith, streq_iff wanted s.label);
            },
            inl (ground arith),
          )
      | inr other_id ↦
          elim (Option-cases (find_slot_by_number slots (to_unsigned wanted_slot_id))) [
            | inl e ↦ absurd (ground arith)
            | inr (j, e) ↦
                let (p, n) = find_slot_by_number-Passes slots (to_unsigned wanted_slot_id) j e in
                let (same, t) = check_label-HasToken slots wanted j i p (ground arith) in
                (rw same t, rw same n)
          ]
    ]
