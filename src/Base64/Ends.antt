-- ===== src/Base64/Ends.antt =====
-- The loops of `base64_decode` of common/base64.c end, and write within the buffer.
use pam_pkcs.Base.{
  ℕ, zero, suc, ◌+◌, ◌*◌, ◌/◌, ◌%◌, ◌^◌, ◌<◌, ◌≤◌, ◌≡◌, ◌≢◌, ◌⊎◌, refl, subst, arith, inl, inr, [],
  ◌∷◌, ◌++◌, Option, none, some, Bytes, ltb, leb, length, length-append, Bool-cases, ◌==◌,
}
use pam_pkcs.Base64.{
  bin_of, from_base64, store, continue_after, decode_group, decode_groups, base64_decode,
}

-- No more text is left, and less if bytes were read.
Rest : ℕ → ℕ → Option (ℕ × ℕ × Bytes) → Type 0
Rest n m none = Unit
Rest n m (some (r, i, input)) = (length input ≤ n) × (m ≡ 4 → r ≢ 0 → length input < n)

Rest-weaken : (n m n' m' : ℕ) (o : Option (ℕ × ℕ × Bytes)) → Rest n m o → n < n' → Rest n' m' o
unfolding Rest
Rest-weaken n m n' m' none h l = tt
Rest-weaken n m n' m' (some (r, i, input)) h l =
    (omega (arith, h.0, l), λ e f. omega (arith, h.0, l))

Rest-newline : (n m : ℕ) (o : Option (ℕ × ℕ × Bytes)) → Rest n m o → Rest (suc n) m o
Rest-newline n m o h = Rest-weaken n m (suc n) m o h (omega arith)

from_base64-Rest : (s res : ℕ) (input : Bytes) → Rest (length input) s (from_base64 s res input)
unfolding from_base64 Rest
from_base64-Rest zero res input = (omega arith, λ e. absurd (omega (arith, e)))
from_base64-Rest (suc s) res [] = elim (Bool-cases (s == 3)) [
  | inl e ↦ rw e (omega arith, λ _ n. absurd (n refl))
  | inr e ↦ rw e tt
]
from_base64-Rest (suc s) res (k ∷ input) = elim (Bool-cases (leb 128 k)) [
  | inl e ↦ rw e tt
  | inr e ↦ elim (Bool-cases (bin_of k == 0xC0)) [
    | inl f ↦ rw (e, f) (omega arith, λ m n. absurd (n (omega (arith, m))))
    | inr f ↦ elim (Bool-cases (bin_of k == 0xD0)) [
      | inl g ↦
          rw (e, f, g)
            (Rest-newline (length input) (suc s) (from_base64 (suc s) res input)
              (from_base64-Rest (suc s) res input))
      | inr g ↦ elim (Bool-cases (ltb 0x3F (bin_of k))) [
        | inl h ↦ rw (e, f, g, h) tt
        | inr h ↦
            rw (e, f, g, h)
              (Rest-weaken (length input) s (suc (length input)) (suc s)
                (from_base64 s (res + bin_of k * 64 ^ s) input)
                (from_base64-Rest s (res + bin_of k * 64 ^ s) input) (omega arith))
      ]
    ]
  ]
]

abbrev Stored : ℕ → Option (Bytes × ℕ) → Type 0
Stored outlen none = Unit
Stored outlen (some (stored, left)) = length stored + left ≡ outlen

store-Stored : (r : ℕ) (bytes : Bytes) (outlen : ℕ) → Stored outlen (store r bytes outlen)
unfolding store
store-Stored zero bytes outlen = omega arith
store-Stored (suc r) [] outlen = omega arith
store-Stored (suc r) (x ∷ bytes) zero = tt
store-Stored (suc r) (x ∷ bytes) (suc outlen) =
    one_more (store r bytes outlen) (store-Stored r bytes outlen)
  where
    one_more :
        (o : Option (Bytes × ℕ))
        → Stored outlen o
        → Stored
            (suc outlen)
            (elim o [ none ↦ none | some (stored, left) ↦ some (x ∷ stored, left) ])
    one_more none h = tt
    one_more (some (stored, left)) h = omega (arith, h)

-- The loop has ended, with no more bytes than there is room.
Fits : ℕ → Option (Option Bytes) → Type 0
Fits n none = 1 ≤ 0
Fits n (some none) = Unit
Fits n (some (some bytes)) = length bytes ≤ n

-- The rest of the loop is in order for all shorter texts.
abbrev Next : ℕ → (Bytes → Bytes → ℕ → Option (Option Bytes)) → Type 0
Next n next =
    (done input : Bytes) (left : ℕ)
    → length input < n
    → Fits (length done + left) (next done input left)

continue_after-Fits :
    (r : ℕ) (o : Option (Bytes × ℕ)) (done input : Bytes) (outlen : ℕ)
    (next : Bytes → Bytes → ℕ → Option (Option Bytes))
    → Stored outlen o
    → Next (suc (length input)) next
    → Fits (length done + outlen) (continue_after r o done input next)
unfolding continue_after Fits
continue_after-Fits r none done input outlen next s k = tt
continue_after-Fits r (some (stored, left)) done [] outlen next s k =
    omega (arith, s, length-append done stored)
continue_after-Fits r (some (stored, left)) done (c ∷ input) outlen next s k =
    elim (Bool-cases (ltb r 3)) [
      | inl e ↦ rw e (omega (arith, s, length-append done stored))
      | inr e ↦ rw e (
          let p : length (done ++ stored) + left ≡ length done + outlen =
            omega (arith, s, length-append done stored) in
          subst (λ n. Fits n (next (done ++ stored) (c ∷ input) left)) p
            (k (done ++ stored) (c ∷ input) left (omega arith)))
    ]

decode_group-Fits :
    (n outlen : ℕ) (done : Bytes) (o : Option (ℕ × ℕ × Bytes))
    (next : Bytes → Bytes → ℕ → Option (Option Bytes))
    → Rest n 4 o
    → Next n next
    → Fits (length done + outlen) (decode_group done outlen o next)
unfolding decode_group Fits Rest
decode_group-Fits n outlen done none next s k = tt
decode_group-Fits n outlen done (some (zero, i, input)) next s k = omega arith
decode_group-Fits n outlen done (some (suc r, i, input)) next s k =
    let bytes = i / 65536 % 256 ∷ i / 256 % 256 ∷ i % 256 ∷ [] in
    continue_after-Fits (suc r) (store (suc r) bytes outlen) done input outlen next
      (store-Stored (suc r) bytes outlen)
      (λ d x left l. k d x left (omega (arith, l, s.1 refl (λ e. absurd (omega (arith, e))))))

decode_groups-Fits :
    (fuel : ℕ) (done input : Bytes) (outlen : ℕ)
    → length input < fuel
    → Fits (length done + outlen) (decode_groups fuel done input outlen)
unfolding decode_groups
decode_groups-Fits zero done input outlen l = absurd (omega (arith, l))
decode_groups-Fits (suc fuel) done input outlen l =
    decode_group-Fits (length input) outlen done (from_base64 4 0 input) (decode_groups fuel)
      (from_base64-Rest 4 0 input)
      (λ d x left k. decode_groups-Fits fuel d x left (omega (arith, l, k)))

-- On every text `base64_decode` ends, and it never stores more bytes than its buffer has.
pub base64_decode_total :
    (input : Bytes) (outlen : ℕ)
    → (base64_decode input outlen ≡ some none)
      ⊎ ((bytes : Bytes) × (base64_decode input outlen ≡ some (some bytes))
          × (length bytes ≤ outlen))
unfolding base64_decode Fits
base64_decode_total input outlen =
    by_result (decode_groups (suc (length input)) [] input outlen) refl
      (decode_groups-Fits (suc (length input)) [] input outlen (omega arith))
  where
    by_result :
        (o : Option (Option Bytes))
        → base64_decode input outlen ≡ o
        → Fits (0 + outlen) o
        → (base64_decode input outlen ≡ some none)
          ⊎ ((bytes : Bytes) × (base64_decode input outlen ≡ some (some bytes))
              × (length bytes ≤ outlen))
    by_result none e f = absurd (omega (arith, f))
    by_result (some none) e f = inl e
    by_result (some (some bytes)) e f = inr (bytes, e, omega (arith, f))
