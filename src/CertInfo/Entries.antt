-- ===== src/CertInfo/Entries.antt =====
-- The lists of names that common/cert_info.c gives.
use pam_pkcs.Base.{
  ℕ, zero, suc, ◌≤◌, ◌<◌, ◌≡◌, refl, ap, ◌∙◌, arith, Bool, true, false, List, [], ◌∷◌, ◌++◌, map,
  Option, none, some, Bytes, if◌then◌else◌, inl, inr, length, drop, append-nil, Option-cases,
  Option-cases,
}
use pam_pkcs.CertInfo.{
  x500_unique_identifier, user_id, Name, GeneralName, Entries, no_entries, cert_info_size,
  cert_info_max_entries, email_of, collect, cert_info_uid, fill, until_null, cert_info_email,
}

-- The texts of the names, in order.
abbrev pub texts : (GeneralName → Option Bytes) → List GeneralName → List Bytes
texts text_of [] = []
texts text_of (name ∷ gens) = elim (text_of name) [
  | none ↦ texts text_of gens
  | some text ↦ text ∷ texts text_of gens
]

abbrev is_cons : List Bytes → Bool
is_cons [] = false
is_cons (x ∷ xs) = true

-- An array once texts were written from its start on.
abbrev overlaid : List Bytes → Entries → Entries
overlaid ts entries = map some ts ++ drop (length ts) entries

is_empty : (ts : List Bytes) → length ts < 1 → ts ≡ []
is_empty [] h = refl
is_empty (t ∷ ts) h = absurd (omega (arith, h))

fill_lem :
    (text_of : GeneralName → Option Bytes) (gens : List GeneralName) (entries : Entries)
    → length (texts text_of gens) < length entries
    → fill text_of gens entries
      ≡ (overlaid (texts text_of gens) entries, is_cons (texts text_of gens))
unfolding fill
fill_lem text_of [] entries h = refl
fill_lem text_of (name ∷ gens) [] h = absurd (omega (arith, h))
fill_lem text_of (name ∷ gens) (e ∷ []) h = rw (is_empty (texts text_of (name ∷ gens)) h) refl
fill_lem text_of (name ∷ gens) (e ∷ f ∷ entries) h =
    elim (text_of name)
        as (λ o.
          length (elim o [ none ↦ texts text_of gens | some text ↦ text ∷ texts text_of gens ])
            < suc (suc (length entries))
          → elim o [
            | none ↦ fill text_of gens (e ∷ f ∷ entries)
            | some text ↦ (some text ∷ (fill text_of gens (f ∷ entries)).0, true)
          ]
            ≡ (
              overlaid
                  (elim o [ none ↦ texts text_of gens | some text ↦ text ∷ texts text_of gens ])
                  (e ∷ f ∷ entries),
              is_cons
                  (elim o [ none ↦ texts text_of gens | some text ↦ text ∷ texts text_of gens ]),
            )) [
              | none ↦ λ l. fill_lem text_of gens (e ∷ f ∷ entries) l
              | some text ↦ λ l. rw (fill_lem text_of gens (f ∷ entries) (omega (arith, l))) refl
            ]
      h

until_null-append :
    (ts : List Bytes) (rest : Entries) → until_null (map some ts ++ rest) ≡ ts ++ until_null rest
unfolding until_null
until_null-append [] rest = refl
until_null-append (t ∷ ts) rest = ap (λ x. t ∷ x) (until_null-append ts rest)

drop-append :
    (k : ℕ) (ts : List Bytes) (rest : Entries)
    → k ≤ length ts
    → drop k (map some ts ++ rest) ≡ map some (drop k ts) ++ rest
drop-append zero ts rest h = refl
drop-append (suc k) [] rest h = absurd (omega (arith, h))
drop-append (suc k) (t ∷ ts) rest h = drop-append k ts rest (omega (arith, h))

drop-no_entries : (k n : ℕ) → until_null (drop k (no_entries n)) ≡ []
unfolding until_null
drop-no_entries zero zero = refl
drop-no_entries zero (suc n) = refl
drop-no_entries (suc k) zero = refl
drop-no_entries (suc k) (suc n) = drop-no_entries k n

length-overlaid :
    (ts : List Bytes) (entries : Entries)
    → length ts ≤ length entries
    → length (overlaid ts entries) ≡ length entries
length-overlaid [] entries h = refl
length-overlaid (t ∷ ts) [] h = absurd (omega (arith, h))
length-overlaid (t ∷ ts) (e ∷ entries) h = ap suc (length-overlaid ts entries (omega (arith, h)))

abbrev pub emails : List GeneralName → List Bytes
emails gens = texts email_of gens

shown_cons :
    (ts : List Bytes) (entries : Entries)
    → 0 < length ts
    → (if is_cons ts then some (until_null entries) else none) ≡ some (until_null entries)
shown_cons [] entries h = absurd (omega (arith, h))
shown_cons (t ∷ ts) entries h = refl

cert_info_email_lem :
    (gens : List GeneralName) (entries : Entries)
    → length (emails gens) < length entries
    → 0 < length (emails gens)
    → cert_info_email (some gens) entries ≡ (
      some (emails gens ++ until_null (drop (length (emails gens)) entries)),
      overlaid (emails gens) entries,
    )
unfolding cert_info_email
cert_info_email_lem gens entries h p =
    let ts = emails gens in
    rw (fill_lem email_of gens entries h) (
      ap (λ x. (x, overlaid ts entries))
        (shown_cons ts (overlaid ts entries) p
          ∙ ap some (until_null-append ts (drop (length ts) entries))))

-- After a certificate with at least as many addresses, `cert_info_email` gives the addresses of a
-- certificate followed by those of the certificate before from there on.
pub cert_info_email-stale :
    (first second : List GeneralName)
    → length (emails first) ≤ cert_info_max_entries
    → 0 < length (emails second)
    → length (emails second) ≤ length (emails first)
    → let entries = (cert_info_email (some first) (no_entries cert_info_size)).1 in
      (cert_info_email (some second) entries).0
      ≡ some (emails second ++ drop (length (emails second)) (emails first))
cert_info_email-stale first second h p l =
    let us = emails first in
    let k = length (emails second) in
    let tail = drop (length us) (no_entries cert_info_size) in
    rw
      (cert_info_email_lem first (no_entries cert_info_size) (omega (arith, h))
        (omega (arith, p, l)))
      (rw
        (cert_info_email_lem second (map some us ++ tail)
          (omega (arith, length-overlaid us (no_entries cert_info_size) (omega (arith, h)), h, l))
          p)
        (ap (λ x. some (emails second ++ x))
          (ap until_null (drop-append k us tail l)
            ∙ until_null-append (drop k us) tail
            ∙ ap (λ x. drop k us ++ x) (drop-no_entries (length us) cert_info_size)
            ∙ append-nil (drop k us))))

-- Of a certificate with no X.500 unique identifier `cert_info_uid` gives one user identifier at most.
pub cert_info_uid_bounds :
    (name : Name) (uids : List Bytes)
    → ((i : Option ℕ) → name.get_index_by_nid x500_unique_identifier i ≡ none)
    → cert_info_uid (some name) ≡ some uids
    → length uids ≤ 1
unfolding cert_info_uid collect
cert_info_uid_bounds name uids h e = elim (Option-cases (name.get_index_by_nid user_id none)) [
  | inl k ↦ ground (arith, h none, k, e)
  | inr (i, k) ↦ ground (arith, h none, h (some i), k, e)
]
