-- ===== src/Mappers/Pwent.antt =====
-- mappers/mapper.c: the search of the password database, and mappers/pwent_mapper.c, whose settings
-- are Booleans here. The entries that getpwent gives, in
-- order, are an argument.
pub mod Search
use pam_pkcs.Base.{
  Bool, true, false, ◌==◌, ◌||◌, List, [], ◌∷◌, Option, none, some, Bytes, if◌then◌else◌,
}
use pam_pkcs.Base.Int.{ℤ, pos, negsuc}
use pam_pkcs.Base.Cstr.{streq, strcaseeq}

pub record Passwd : Type 0 where
  pub pw_name : Bytes
  pub pw_gecos : Bytes

unfoldable pub compare_pw_entry : Bytes → Passwd → Bool → Bool
compare_pw_entry str pw ignorecase =
    if ignorecase
    then strcaseeq pw.pw_name str || strcaseeq pw.pw_gecos str
    else streq pw.pw_name str || streq pw.pw_gecos str

unfoldable pub search_pw_entry : List Passwd → Bytes → Bool → Option Bytes
unfolding compare_pw_entry
search_pw_entry [] str ignorecase = none
search_pw_entry (pw ∷ pws) str ignorecase =
    if compare_pw_entry str pw ignorecase
    then some pw.pw_name
    else search_pw_entry pws str ignorecase

-- What `getpwent` gives in order, and `getpwnam`.
pub record PwEnv : Type 0 where
  pub entries : List Passwd
  pub getpwnam : Bytes → Option Passwd

-- The first loop of the finder: the entry that is found, or where the cursor is left.
pub data Direct : Type 0 where
  found : Passwd → Direct
  left : List Bytes → Direct

match_pw : Passwd → List Bytes → Bool → ℤ
unfolding compare_pw_entry
match_pw pw [] ignorecase = pos 0
match_pw pw (str ∷ names) ignorecase =
    if compare_pw_entry str pw ignorecase then pos 1 else match_pw pw names ignorecase

match_login : Option Passwd → List Bytes → Bool → ℤ
unfolding match_pw
match_login none names ignorecase = negsuc 0
match_login (some pw) names ignorecase = match_pw pw names ignorecase

module _ (env : PwEnv) where
  look_direct : List Bytes → Direct
  look_direct [] = left []
  look_direct (str ∷ names) = elim (env.getpwnam str) [
    | some pw ↦ found pw
    | none ↦ look_direct names
  ]

  search_all : List Bytes → Bool → Option Bytes × Bool
  unfolding search_pw_entry
  search_all [] ignorecase = (none, false)
  search_all (str ∷ names) ignorecase = elim (search_pw_entry env.entries str ignorecase) [
    | some user ↦ (some user, true)
    | none ↦ search_all names ignorecase
  ]

  after_direct : Direct → Bool → Option Bytes × Bool
  unfolding search_all
  after_direct (found pw) ignorecase = (some pw.pw_name, true)
  after_direct (left names) ignorecase = search_all names ignorecase

  -- The second loop goes on with the cursor of the first.
  unfoldable pub pwent_mapper_find_user : Option (List Bytes) → Bool → Option Bytes × Bool
  unfolding after_direct look_direct
  pwent_mapper_find_user none ignorecase = (none, false)
  pwent_mapper_find_user (some names) ignorecase = after_direct (look_direct names) ignorecase

  unfoldable pub pwent_mapper_match_user : Option (List Bytes) → Bytes → Bool → ℤ
  unfolding match_login
  pwent_mapper_match_user none login ignorecase = negsuc 0
  pwent_mapper_match_user (some names) login ignorecase =
      match_login (env.getpwnam login) names ignorecase
