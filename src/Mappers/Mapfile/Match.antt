-- ===== src/Mappers/Mapfile/Match.antt =====
-- `mapfile_match` of mappers/mapper.c against `mapfile_find`.
use pam_pkcs.Base.{◌≡◌, ◌∙◌, ap, refl, Bool, true, false, Option, some, Bytes, if◌then◌else◌}
use pam_pkcs.Base.Int.{pos}
use pam_pkcs.Base.Cstr.{streq, strcaseeq, streq_refl}
use pam_pkcs.Mappers.Mapfile.{MapEnv, mapfile_find, mapfile_match, compare_mapped}

compare_mapped-same :
    (env : MapEnv) (login : Bytes) (icase : Bool)
    → compare_mapped env (some login) login icase ≡ pos 1
unfolding compare_mapped strcaseeq
compare_mapped-same env login true = rw streq_refl
compare_mapped-same env login false = rw streq_refl

abbrev pub same_name : Bool → Bytes → Bytes → Bool
same_name icase s t = if icase then strcaseeq s t else streq s t

compare_mapped-value :
    (env : MapEnv) (value login : Bytes) (icase : Bool)
    → compare_mapped env (some value) login icase
      ≡ (if same_name icase value login then pos 1 else pos 0)
unfolding compare_mapped
compare_mapped-value env value login true = refl
compare_mapped-value env value login false = refl

module _ (env : MapEnv) where
  pub mapfile_match-found :
      (file : Option Bytes) (key login : Bytes) (icase : Bool)
      → (mapfile_find env file (some key) icase).0 ≡ some login
      → mapfile_match env file (some key) login icase ≡ pos 1
  unfolding mapfile_match
  mapfile_match-found file key login icase h =
      ap (λ o. compare_mapped env o login icase) h ∙ compare_mapped-same env login icase

  pub mapfile_match-value :
      (file : Option Bytes) (key value login : Bytes) (icase : Bool)
      → (mapfile_find env file (some key) icase).0 ≡ some value
      → mapfile_match env file (some key) login icase
        ≡ (if same_name icase value login then pos 1 else pos 0)
  unfolding mapfile_match
  mapfile_match-value file key value login icase h =
      ap (λ o. compare_mapped env o login icase) h ∙ compare_mapped-value env value login icase
