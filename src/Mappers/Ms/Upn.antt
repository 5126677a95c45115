-- ===== src/Mappers/Ms/Upn.antt =====
-- The logins that mappers/ms_mapper.c accepts.
use pam_pkcs.Base.{
  ◌≡◌, sym, subst, ◌⊎◌, inl, inr, true, arith, List, [], ◌∷◌, ◌++◌, some, Bytes, Bool-cases,
  Option-cases,
}
use pam_pkcs.Base.Int.{pos}
use pam_pkcs.Base.Cstr.{streq, streq_iff, strchr}
use pam_pkcs.Strings.Split.{strchr_lem}
use pam_pkcs.Mappers.Ms.{
  MsSettings, add_nickname, check_parts, check_upn, fold_name, compare_name, find_upn, match_upn,
  ms_mapper_find_user, ms_mapper_match_user,
}

-- The text is a name at a domain, which is the configured one unless it is to be ignored; the
-- login is the name, after the nickname of the domain if that is checked and has one.
abbrev pub IsLogin : MsSettings → Bytes → Bytes → Type 0
IsLogin s upn login =
    (name : Bytes) × (domain : Bytes) × (upn ≡ name ++ b'@' ∷ domain)
    × (((s.ignoredomain ≡ true) × (login ≡ name))
        ⊎ ((domain ≡ s.domainname) × (login ≡ add_nickname s name)))

check_parts-IsLogin :
    (s : MsSettings) (upn name domain login : Bytes)
    → upn ≡ name ++ b'@' ∷ domain
    → check_parts s (some (name, domain)) ≡ some login
    → IsLogin s upn login
unfolding check_parts
check_parts-IsLogin s upn name domain login e h = elim (Bool-cases s.ignoredomain) [
  | inl i ↦ (name, domain, e, inl (i, ground (arith, i, h)))
  | inr i ↦ elim (Bool-cases (streq s.domainname domain)) [
    | inl d ↦
        (name, domain, e, inr (sym ((streq_iff s.domainname domain).0 d), ground (arith, i, d, h)))
    | inr d ↦ absurd (ground (arith, i, d, h))
  ]
]

check_upn-IsLogin :
    (s : MsSettings) (upn login : Bytes) → check_upn s upn ≡ some login → IsLogin s upn login
unfolding check_upn check_parts
check_upn-IsLogin s upn login h = elim (Option-cases (strchr upn b'@')) [
  | inl e ↦ absurd (ground (arith, h, e))
  | inr ((name, domain), e) ↦
      check_parts-IsLogin s upn name domain login (strchr_lem upn b'@' name domain e).0
        (subst (λ o. check_parts s o ≡ some login) e h)
]

-- Some principal name of the certificate has this login.
abbrev pub SomeLogin : MsSettings → Bytes → List Bytes → Type 0
SomeLogin s login [] = ⊥
SomeLogin s login (str ∷ entries) = IsLogin s (fold_name s str) login ⊎ SomeLogin s login entries

-- Some principal name of the certificate has a login that is the user.
abbrev pub SomeUser : MsSettings → Bytes → List Bytes → Type 0
SomeUser s user [] = ⊥
SomeUser s user (str ∷ entries) =
    ((login : Bytes) × IsLogin s (fold_name s str) login × (fold_name s login ≡ fold_name s user))
    ⊎ SomeUser s user entries

find_upn-SomeLogin :
    (s : MsSettings) (entries : List Bytes) (login : Bytes)
    → (find_upn s entries).0 ≡ some login
    → SomeLogin s login entries
unfolding find_upn
find_upn-SomeLogin s [] login h = ground (arith, h)
find_upn-SomeLogin s (str ∷ entries) login h = elim (Option-cases (check_upn s (fold_name s str))) [
  | inl e ↦ inr (find_upn-SomeLogin s entries login (ground (arith, h, e)))
  | inr (res, e) ↦ inl (check_upn-IsLogin s (fold_name s str) login (ground (arith, h, e)))
]

match_upn-SomeUser :
    (s : MsSettings) (user : Bytes) (entries : List Bytes)
    → match_upn s user entries ≡ some (pos 1)
    → SomeUser s user entries
unfolding match_upn
match_upn-SomeUser s user [] h = ground (arith, h)
match_upn-SomeUser s user (str ∷ entries) h = elim (Option-cases (check_upn s (fold_name s str))) [
  | inl e ↦ absurd (ground (arith, h, e))
  | inr (login, e) ↦ elim (Bool-cases (compare_name s login user)) [
    | inl m ↦ inl (
      login,
      check_upn-IsLogin s (fold_name s str) login e,
      (streq_iff (fold_name s login) (fold_name s user)).0 (unfold compare_name in m),
    )
    | inr m ↦ inr (match_upn-SomeUser s user entries (ground (arith, h, e, m)))
  ]
]

-- A login that the finder of the MS mapper gives comes from some principal name of the certificate:
-- it is the part before the `@`, if domains are to be ignored, or else this part after the nickname
-- of the domain, if there is one, and then the domain is the configured one.
pub ms_mapper_find_user_sound :
    (s : MsSettings) (entries : List Bytes) (login : Bytes)
    → (ms_mapper_find_user s (some entries)).0 ≡ some login
    → SomeLogin s login entries
unfolding ms_mapper_find_user
ms_mapper_find_user_sound s entries login h = find_upn-SomeLogin s entries login h

-- A certificate that the MS mapper matches with a user has a principal name whose login, of the
-- same form, is the user, up to the case where this is to be ignored.
pub ms_mapper_match_user_sound :
    (s : MsSettings) (entries : List Bytes) (user : Bytes)
    → ms_mapper_match_user s (some entries) user ≡ some (pos 1)
    → SomeUser s user entries
unfolding ms_mapper_match_user
ms_mapper_match_user_sound s entries user h = match_upn-SomeUser s user entries h
