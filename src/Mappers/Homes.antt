-- ===== src/Mappers/Homes.antt =====
-- The loop over the password database in mappers/opensc_mapper.c and mappers/openssh_mapper.c.
use pam_pkcs.Base.{
  ℕ, zero, suc, ◌≡◌, ◌↔◌, refl, ap, ◌∙◌, arith, Bool, true, false, List, [], ◌∷◌, ◌++◌, none, some,
  Option, Bytes, All, ◌⊎◌, inl, inr,
}
use pam_pkcs.Base.Int.{ℤ, pos, negsuc}

-- An entry of the password database.
pub record Passwd : Type 0 where
  pub pw_name : Bytes
  pub pw_dir : Option Bytes

-- The login, and whether `*match` is set; none where the look at an entry goes outside of a buffer.
abbrev pub Found : Type 0
Found = Option (Option Bytes × Bool)

-- The loop goes on behind a result of 0, and ends for a negative one with no login.
found_or : Passwd → Option ℤ → Found → Found
found_or pw none rest = none
found_or pw (some (negsuc n)) rest = some (none, false)
found_or pw (some (pos zero)) rest = rest
found_or pw (some (pos (suc n))) rest = some (some pw.pw_name, true)

unfoldable pub find_first : (Passwd → Option ℤ) → List Passwd → Found
unfolding found_or
find_first look [] = some (none, false)
find_first look (pw ∷ pws) = found_or pw (look pw) (find_first look pws)

-- The login of an entry that matches, where those before it do not match and do not fail.
pub record IsFirst (look : Passwd → Option ℤ) (pws : List Passwd) (user : Bytes) : Type 0 where
  pub before : List Passwd
  pub pw : Passwd
  pub after : List Passwd
  pub entries : pws ≡ before ++ pw ∷ after
  pub passed : All (λ p. look p ≡ some (pos 0)) before
  pub matched : (n : ℕ) × (look pw ≡ some (pos (suc n)))
  pub named : pw.pw_name ≡ user

ℤ-cases :
    (r : Option ℤ)
    → (r ≡ none)
      ⊎ (((n : ℕ) × (r ≡ some (negsuc n)))
          ⊎ ((r ≡ some (pos 0)) ⊎ ((n : ℕ) × (r ≡ some (pos (suc n))))))
ℤ-cases none = inl refl
ℤ-cases (some (negsuc n)) = inr (inl (n, refl))
ℤ-cases (some (pos zero)) = inr (inr (inl refl))
ℤ-cases (some (pos (suc n))) = inr (inr (inr (n, refl)))

module _ (look : Passwd → Option ℤ) where
  IsFirst-later :
      (pw : Passwd) (pws : List Passwd) (user : Bytes)
      → look pw ≡ some (pos 0)
      → IsFirst look pws user
      → IsFirst look (pw ∷ pws) user
  IsFirst-later pw pws user e f = record {
    before = pw ∷ f.before;
    pw = f.pw;
    after = f.after;
    entries = ap (λ l. pw ∷ l) f.entries;
    passed = (e, f.passed);
    matched = f.matched;
    named = f.named;
  }

  first :
      (pws : List Passwd) (user : Bytes)
      → find_first look pws ≡ some (some user, true)
      → IsFirst look pws user
  unfolding find_first
  first [] user e = cc
  first (pw ∷ pws) user e = elim (ℤ-cases (look pw)) [
    | inl k ↦ absurd (ground (arith, k, e))
    | inr (inl (n, k)) ↦ absurd (ground (arith, k, e))
    | inr (inr (inl k)) ↦ IsFirst-later pw pws user k (first pws user (ground (arith, k, e)))
    | inr (inr (inr (n, k))) ↦ record {
      before = [];
      pw = pw;
      after = pws;
      entries = refl;
      passed = _;
      matched = (n, k);
      named = ground (arith, k, e);
    }
  ]

  found :
      (before : List Passwd) (pw : Passwd) (after : List Passwd) (n : ℕ)
      → All (λ p. look p ≡ some (pos 0)) before
      → look pw ≡ some (pos (suc n))
      → find_first look (before ++ pw ∷ after) ≡ some (some pw.pw_name, true)
  unfolding find_first
  found [] pw after n h k = rw (k, found_or) refl
  found (p ∷ before) pw after n (e, h) k = rw (e, found_or) (found before pw after n h k)

  pub find_first_iff :
      (pws : List Passwd) (user : Bytes)
      → (find_first look pws ≡ some (some user, true)) ↔ IsFirst look pws user
  find_first_iff pws user = (
    first pws user,
    λ f. rw f.entries (
        found f.before f.pw f.after f.matched.0 f.passed f.matched.1
        ∙ ap (λ u. some (some u, true)) f.named),
  )

-- What holds of all entries holds of one.
pub All-middle {ℓ κ} :
    {A : Type ℓ} (P : A → Type κ) (before : List A) (x : A) (after : List A)
    → All P (before ++ x ∷ after)
    → P x
All-middle P [] x after (p, h) = p
All-middle P (y ∷ before) x after (p, h) = All-middle P before x after h
