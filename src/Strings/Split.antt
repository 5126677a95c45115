-- ===== src/Strings/Split.antt =====
-- `split` of common/strings.c: the items are the text between the separators.
use pam_pkcs.Base.{
  ℕ, zero, suc, ◌≤◌, ◌≡◌, ◌≢◌, refl, ap, sym, subst, inl, inr, arith, List, [], ◌∷◌, ◌++◌, none,
  some, Bytes, All, length, Option-cases,
}
use mathlib.Core.Option.{some-injective}
use pam_pkcs.Base.Cstr.{strchr}
use pam_pkcs.Strings.{split, split_more}

abbrev pub join : ℕ → List Bytes → Bytes
join sep [] = []
join sep (x ∷ []) = x
join sep (x ∷ y ∷ xs) = x ++ sep ∷ join sep (y ∷ xs)

pub strchr_lem :
    (s : Bytes) (c : ℕ) (p r : Bytes)
    → strchr s c ≡ some (p, r)
    → (s ≡ p ++ c ∷ r) × All (λ x. x ≢ c) p
unfolding strchr
strchr_lem [] c p r h = ground (arith, h)
strchr_lem (x ∷ s) c p r h = elim (Option-cases (strchr s c)) [
  | inl e ↦ ground (arith, h, e)
  | inr ((p', r'), e) ↦ ground (arith, h, e, strchr_lem s c p' r' e)
]

-- No item but the last holds the separator.
abbrev pub Separated : ℕ → List Bytes → Type 0
Separated sep [] = Unit
Separated sep (x ∷ []) = Unit
Separated sep (x ∷ y ∷ xs) = All (λ c. c ≢ sep) x × Separated sep (y ∷ xs)

IsSplit : ℕ → ℕ → Bytes → List Bytes → Type 0
IsSplit sep n s items =
    (join sep items ≡ s) × (1 ≤ length items) × (length items ≤ n) × Separated sep items

IsSplit-cons :
    (sep n : ℕ) (x s : Bytes) (items : List Bytes)
    → All (λ c. c ≢ sep) x
    → IsSplit sep n s items
    → IsSplit sep (suc n) (x ++ sep ∷ s) (x ∷ items)
unfolding IsSplit
IsSplit-cons sep n x s [] a i = absurd (omega (arith, i.1))
IsSplit-cons sep n x s (y ∷ items) a i =
    (ap (λ t. x ++ sep ∷ t) i.0, omega (arith, i.1), omega (arith, i.2), (a, i.3))

IsSplit-one : (sep n : ℕ) (s : Bytes) → IsSplit sep (suc n) s (s ∷ [])
unfolding IsSplit
IsSplit-one sep n s = (refl, omega arith, omega arith, tt)

split_more-none : (sep n : ℕ) (s : Bytes) → strchr s sep ≡ none → split_more sep (suc n) s ≡ s ∷ []
unfolding split_more
split_more-none sep n s e = rw (e, split_more) refl

split_more-some :
    (sep n : ℕ) (s x r : Bytes)
    → strchr s sep ≡ some (x, r)
    → split_more sep (suc n) s ≡ x ∷ split_more sep n r
unfolding split_more
split_more-some sep n s x r e = rw (e, split_more) refl

split_more-IsSplit : (sep n : ℕ) (s : Bytes) → IsSplit sep (suc n) s (split_more sep n s)
unfolding split_more
split_more-IsSplit sep zero s = IsSplit-one sep 0 s
split_more-IsSplit sep (suc n) s = elim (Option-cases (strchr s sep)) [
  | inl e ↦
      subst (IsSplit sep (suc (suc n)) s) (sym (split_more-none sep n s e))
        (IsSplit-one sep (suc n) s)
  | inr ((x, r), e) ↦
      subst (λ t. IsSplit sep (suc (suc n)) t (split_more sep (suc n) s))
        (sym (strchr_lem s sep x r e).0)
        (subst (IsSplit sep (suc (suc n)) (x ++ sep ∷ r)) (sym (split_more-some sep n s x r e)) (
          IsSplit-cons sep (suc n) x r (split_more sep n r) (strchr_lem s sep x r e).1
            (split_more-IsSplit sep n r)))
]

-- Splitting into at most one item or more gives at least one item and no more than asked for, the
-- items with the separator between them are the string, and no item but the last holds the
-- separator.
pub split_sound :
    (str : Bytes) (sep nelems : ℕ) (items : List Bytes)
    → split str sep nelems ≡ some items
    → (join sep items ≡ str) × (1 ≤ length items) × (length items ≤ nelems) × Separated sep items
unfolding split IsSplit
split_sound str sep zero items h = ground (arith, h)
split_sound str sep (suc n) items h =
    subst (IsSplit sep (suc n) str) (some-injective (split_more sep n str) items h)
      (split_more-IsSplit sep n str)
