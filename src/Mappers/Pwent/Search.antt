-- ===== src/Mappers/Pwent/Search.antt =====
-- What the finder and the matcher of mappers/pwent_mapper.c look at.
use pam_pkcs.Base.{
  ◌≡◌, refl, sym, subst, inl, inr, ◌⊎◌, ◌↔◌, Bool, true, false, arith, List, [], ◌∷◌, Option, none,
  some, Bytes, Option-cases,
}
use pam_pkcs.Base.Int.{pos}
use pam_pkcs.Mappers.Pwent.{
  Passwd, PwEnv, compare_pw_entry, look_direct, after_direct, search_all, match_pw, match_login,
  pwent_mapper_find_user, pwent_mapper_match_user,
}

abbrev pub SomeEntry : Passwd → List Bytes → Bool → Type 0
SomeEntry pw [] ignorecase = ⊥
SomeEntry pw (name ∷ names) ignorecase =
    (compare_pw_entry name pw ignorecase ≡ true) ⊎ SomeEntry pw names ignorecase

match_pw_iff :
    (pw : Passwd) (names : List Bytes) (ignorecase : Bool)
    → (match_pw pw names ignorecase ≡ pos 1) ↔ SomeEntry pw names ignorecase
unfolding match_pw
match_pw_iff pw [] ignorecase = ground arith
match_pw_iff pw (name ∷ names) ignorecase = ground (arith, match_pw_iff pw names ignorecase)

match_login_only :
    (names : List Bytes) (ignorecase : Bool) (o : Option Passwd)
    → match_login o names ignorecase ≡ pos 1
    → (pw : Passwd) × (o ≡ some pw) × SomeEntry pw names ignorecase
unfolding match_login
match_login_only names ignorecase none h = ground (arith, h)
match_login_only names ignorecase (some pw) h = (pw, refl, (match_pw_iff pw names ignorecase).0 h)

module _ (env : PwEnv) where
  -- The login of the first name that `getpwnam` knows.
  abbrev pub first_login : List Bytes → Option Bytes × Bool
  first_login [] = (none, false)
  first_login (name ∷ names) = elim (env.getpwnam name) [
    | some pw ↦ (some pw.pw_name, true)
    | none ↦ first_login names
  ]

  after_direct-look_direct :
      (names : List Bytes) (ignorecase : Bool)
      → after_direct env (look_direct env names) ignorecase ≡ first_login names
  unfolding after_direct look_direct search_all
  after_direct-look_direct [] ignorecase = refl
  after_direct-look_direct (name ∷ names) ignorecase = elim (Option-cases (env.getpwnam name)) [
    | inl e ↦ ground (arith, e, after_direct-look_direct names ignorecase)
    | inr (pw, e) ↦ ground (arith, e)
  ]

  -- The finder of the pwent mapper gives the login of the first common name that `getpwnam` knows,
  -- and nothing if it knows none: the search by login or gecos in the whole database that is to
  -- follow has no name left to look for.
  pub pwent_mapper_find_user-first_login :
      (names : List Bytes) (ignorecase : Bool)
      → pwent_mapper_find_user env (some names) ignorecase ≡ first_login names
  unfolding pwent_mapper_find_user
  pwent_mapper_find_user-first_login names ignorecase = after_direct-look_direct names ignorecase

  -- The matcher of the pwent mapper returns 1 just where the login has an entry in the database
  -- and some common name of the certificate is the login name or the gecos field of this entry.
  pub pwent_mapper_match_user_iff :
      (names : List Bytes) (login : Bytes) (ignorecase : Bool)
      → (pwent_mapper_match_user env (some names) login ignorecase ≡ pos 1)
        ↔ ((pw : Passwd) × (env.getpwnam login ≡ some pw) × SomeEntry pw names ignorecase)
  unfolding pwent_mapper_match_user match_login
  pwent_mapper_match_user_iff names login ignorecase = (
    match_login_only names ignorecase (env.getpwnam login),
    (λ (pw, e, m).
        subst (λ o. match_login o names ignorecase ≡ pos 1) (sym e)
          ((match_pw_iff pw names ignorecase).1 m)),
  )
