-- ===== src/Mappers/Generic/Agreement.antt =====
-- The finder and the matcher of mappers/generic_mapper.c.
use pam_pkcs.Base.{
  ◌≡◌, ◌↔◌, ◌⊎◌, inl, inr, subst, map, arith, Bool, true, false, List, [], ◌∷◌, Option, none, some,
  Bytes, Bool-cases,
}
use pam_pkcs.Base.Int.{pos}
use pam_pkcs.Base.Cstr.{to_lower, strcaseeq, streq_refl}
use pam_pkcs.Strings.{is_empty_str}
use pam_pkcs.Mappers.Mapfile.{MapEnv}
use pam_pkcs.Mappers.Mapfile.Match.{same_name}
use pam_pkcs.Mappers.Pwent.{Passwd}
use pam_pkcs.Mappers.Generic.{
  GenericSettings, get_mapped_entries, first_nonblank, generic_mapper_find_user, match_nonblank,
  match_mapped, generic_mapper_match_user,
}

-- Some entry that is not blank has the name.
abbrev pub SomeSame : Bool → Bytes → List Bytes → Type 0
SomeSame ignorecase login [] = ⊥
SomeSame ignorecase login (str ∷ entries) =
    ((is_empty_str (some str) ≡ false) × (same_name ignorecase str login ≡ true))
    ⊎ SomeSame ignorecase login entries

match_nonblank_iff :
    (ignorecase : Bool) (login : Bytes) (entries : List Bytes)
    → (match_nonblank ignorecase login entries ≡ pos 1) ↔ SomeSame ignorecase login entries
unfolding match_nonblank
match_nonblank_iff ignorecase login [] = ground arith
match_nonblank_iff ignorecase login (str ∷ entries) =
    ground (arith, match_nonblank_iff ignorecase login entries)

same_name_refl : (ignorecase : Bool) (s : Bytes) → same_name ignorecase s s ≡ true
unfolding strcaseeq
same_name_refl true s = streq_refl (map to_lower s)
same_name_refl false s = streq_refl s

first_nonblank-SomeSame :
    (ignorecase : Bool) (login : Bytes) (entries : List Bytes)
    → (first_nonblank entries).0 ≡ some login
    → (is_empty_str (some login) ≡ false) × SomeSame ignorecase login entries
unfolding first_nonblank
first_nonblank-SomeSame ignorecase login [] h = ground (arith, h)
first_nonblank-SomeSame ignorecase login (str ∷ entries) h =
    elim (Bool-cases (is_empty_str (some str))) [
      | inl e ↦
          let (n, s) = first_nonblank-SomeSame ignorecase login entries (ground (arith, e, h)) in
          (n, inr s)
      | inr e ↦
          let same : str ≡ login = ground (arith, e, h) in
          subst (λ l. (is_empty_str (some l) ≡ false) × SomeSame ignorecase l (str ∷ entries)) same
            (e, inl (e, same_name_refl ignorecase str))
    ]

module _ (env : MapEnv) (passwords : List Passwd) where
  -- The matcher of the generic mapper returns 1 for a login that is not blank just where, after the
  -- map file and the password database were applied, some entry that is not blank is the login, with
  -- or without regard to case.
  pub generic_mapper_match_user_iff :
      (s : GenericSettings) (entries : List Bytes) (login : Bytes)
      → is_empty_str (some login) ≡ false
      → (generic_mapper_match_user env passwords s (some entries) (some login) ≡ pos 1)
        ↔ SomeSame s.ignorecase login (get_mapped_entries env passwords s entries)
  unfolding generic_mapper_match_user match_mapped
  generic_mapper_match_user_iff s entries login n =
      rw n (match_nonblank_iff s.ignorecase login (get_mapped_entries env passwords s entries))

  -- A login that the finder of the generic mapper gives for a certificate is matched by its matcher.
  pub generic_mapper_match_user-find_user :
      (s : GenericSettings) (entries : Option (List Bytes)) (login : Bytes)
      → (generic_mapper_find_user env passwords s entries).0 ≡ some login
      → generic_mapper_match_user env passwords s entries (some login) ≡ pos 1
  unfolding generic_mapper_find_user
  generic_mapper_match_user-find_user s none login h = ground (arith, h)
  generic_mapper_match_user-find_user s (some entries) login h =
      let (n, same) =
        first_nonblank-SomeSame s.ignorecase login (get_mapped_entries env passwords s entries) h in
      (generic_mapper_match_user_iff s entries login n).1 same
