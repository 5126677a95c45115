-- ===== src/Mappers/Null.antt =====
-- mappers/null_mapper.c: the mapper that answers from its settings alone. The certificates that the
-- manager hands over are not null.
use pam_pkcs.Base.{◌≡◌, ◌↔◌, Bool, true, false, ℕ, Option, none, some, Bytes, if◌then◌else◌, arith}
use pam_pkcs.Base.Int.{ℤ, pos}
use pam_pkcs.Base.Cstr.{codes, streq, streq_iff}
use pam_pkcs.MapperMgr.{MapperModule, InitResult, inited}
use pam_pkcs.Mappers.Names.{Block, get_debug, level_of}

pub record NullSettings : Type 0 where
  pub default_user : Bytes
  pub match : Bool
  pub debug : Bool

abbrev pub null_defaults : NullSettings
null_defaults = record { default_user = codes "nobody"; match = false; debug = false }

unfoldable pub null_settings : Option Block → NullSettings → NullSettings
unfolding get_debug
null_settings none s = s
null_settings (some ctx) s = record {
  default_user = ctx.get_str (codes "default_user") s.default_user;
  match = ctx.get_bool (codes "default_match") false;
  debug = get_debug (some ctx) s.debug;
}

unfoldable pub null_mapper_find_user : NullSettings → Option Bytes × Bool
null_mapper_find_user s = if s.match then (some s.default_user, true) else (none, false)

match_username : Option Bytes → Bytes → ℤ
match_username none login = pos 0
match_username (some username) login = if streq login username then pos 1 else pos 0

-- The matcher that `_DEFAULT_MAPPER_MATCH_USER` makes of the finder.
unfoldable pub null_mapper_match_user : NullSettings → Bytes → ℤ
unfolding match_username
null_mapper_match_user s login = match_username (null_mapper_find_user s).0 login

null_mapper : {X509 : Type 0} → NullSettings → MapperModule X509
null_mapper s = record {
  dbg_level = 0;
  entries = none;
  finder = some (λ x509. null_mapper_find_user s);
  matcher = some (λ x509 login. null_mapper_match_user s login);
  deinit = true;
}

unfoldable pub null_mapper_module_init :
    {X509 : Type 0} → Option Block → Bytes → ℕ → InitResult X509
unfolding null_mapper
null_mapper_module_init ctx mapper_name level =
    let s = null_settings ctx null_defaults in inited (null_mapper s) (level_of s.debug)

-- The matcher takes a login exactly when it is the one that the finder gives, as a match.
null_mapper_match_user_iff :
    (s : NullSettings) (login : Bytes)
    → (null_mapper_match_user s login ≡ pos 1) ↔ (null_mapper_find_user s ≡ (some login, true))
unfolding null_mapper_match_user match_username null_mapper_find_user
null_mapper_match_user_iff s login =
    (ground (arith, streq_iff login s.default_user), ground (arith, streq_iff login s.default_user))
