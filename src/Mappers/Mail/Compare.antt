-- ===== src/Mappers/Mail/Compare.antt =====
-- What a match of mappers/mail_mapper.c says of the address and the login.
use pam_pkcs.Base.{
  ◌≡◌, refl, ap, subst, ◌∙◌, inl, inr, ◌⊎◌, true, arith, List, [], ◌∷◌, ◌++◌, some, Bytes, length,
  Bool-cases, Option-cases,
}
use pam_pkcs.Base.Int.{pos}
use pam_pkcs.Base.Cstr.{starts_with, strchr, streq_iff}
use pam_pkcs.Strings.Split.{strchr_lem}
use pam_pkcs.Mappers.Mapfile.{MapEnv, mapfile_find}
use pam_pkcs.Mappers.Mail.{
  MailSettings, check_domain, fold_case, compare_parts, compare_email, match_mails,
  mail_mapper_match_user,
}

starts_with-same : (p t u : Bytes) → starts_with (p ++ t) u ≡ true → length p ≡ length u → p ≡ u
unfolding starts_with
starts_with-same [] t [] h l = refl
starts_with-same [] t (y ∷ u) h l = ground (arith, l)
starts_with-same (x ∷ p) t [] h l = ground (arith, l)
starts_with-same (x ∷ p) t (y ∷ u) h l = ground (arith, h, l, starts_with-same p t u)

-- The address is the login, or the login at a domain that is accepted.
abbrev pub IsAddress : MailSettings → Bytes → Bytes → Type 0
IsAddress s email login =
    (email ≡ login)
    ⊎ ((domain : Bytes) × (email ≡ login ++ b'@' ∷ domain) × (check_domain s domain ≡ true))

compare_parts-some :
    (s : MailSettings) (email login local domain : Bytes)
    → compare_parts s email login (some (local, domain)) ≡ true
    → (check_domain s domain ≡ true)
      × (length local ≡ length login)
      × (starts_with email login ≡ true)
unfolding compare_parts
compare_parts-some s email login local domain h = ground (arith, h)

-- The local part of an accepted address is the login.
IsAddress-split :
    (s : MailSettings) (email login local domain : Bytes)
    → email ≡ local ++ b'@' ∷ domain
    → compare_parts s email login (some (local, domain)) ≡ true
    → IsAddress s email login
IsAddress-split s email login local domain e h =
    let (checked, same, starts) = compare_parts-some s email login local domain h in
    let is_login =
      starts_with-same local (b'@' ∷ domain) login
        (subst (λ t. starts_with t login ≡ true) e starts) same in
    inr (domain, e ∙ ap (λ t. t ++ b'@' ∷ domain) is_login, checked)

compare_parts_sound :
    (s : MailSettings) (email login : Bytes)
    → compare_parts s email login (strchr email b'@') ≡ true
    → IsAddress s email login
unfolding compare_parts
compare_parts_sound s email login h = elim (Option-cases (strchr email b'@')) [
  | inl e ↦ inl ((streq_iff email login).0 (subst (λ o. compare_parts s email login o ≡ true) e h))
  | inr ((local, domain), e) ↦
      IsAddress-split s email login local domain (strchr_lem email b'@' local domain e).0
        (subst (λ o. compare_parts s email login o ≡ true) e h)
]

module _ (env : MapEnv) where
  -- Some address of the certificate is mapped to the login, or to the login at an accepted domain.
  abbrev pub SomeAddress : MailSettings → Bytes → List Bytes → Type 0
  SomeAddress s login [] = ⊥
  SomeAddress s login (item ∷ items) =
      ((str : Bytes) × ((mapfile_find env (some s.mapfile) (some item) s.ignorecase).0 ≡ some str)
        × IsAddress s (fold_case s str) (fold_case s login))
      ⊎ SomeAddress s login items

  match_mails_sound :
      (s : MailSettings) (login : Bytes) (items : List Bytes)
      → match_mails env s login items ≡ pos 1
      → SomeAddress s login items
  unfolding match_mails
  match_mails_sound s login [] h = ground (arith, h)
  match_mails_sound s login (item ∷ items) h =
      elim (Option-cases (mapfile_find env (some s.mapfile) (some item) s.ignorecase).0) [
        | inl e ↦ ground (arith, h, e)
        | inr (str, e) ↦ elim (Bool-cases (compare_email s str login)) [
          | inl m ↦ inl (
            str,
            e,
            compare_parts_sound s (fold_case s str) (fold_case s login) (unfold compare_email in m),
          )
          | inr m ↦ inr (match_mails_sound s login items (ground (arith, h, e, m)))
        ]
      ]

  -- A certificate that the mail mapper matches with a login has an address that the map file maps
  -- to the login itself, or to the login followed by `@` and a domain that `check_domain` accepts,
  -- both in lower case where the mapper ignores the case.
  pub mail_mapper_match_user_sound :
      (s : MailSettings) (entries : List Bytes) (login : Bytes)
      → mail_mapper_match_user env s (some entries) login ≡ pos 1
      → SomeAddress s login entries
  unfolding mail_mapper_match_user
  mail_mapper_match_user_sound s entries login h = match_mails_sound s login entries h
