-- ===== src/Mappers/Names/Agreement.antt =====
-- The finders and the matchers of mappers/cn_mapper.c and the like: who is found is matched.
use pam_pkcs.Base.{
  inl, inr, ◌≡◌, refl, Bool-cases, arith, List, [], ◌∷◌, Option, none, some, Bytes, if◌then◌else◌,
}
use pam_pkcs.Base.Int.{pos, negsuc}
use pam_pkcs.Mappers.Mapfile.{MapEnv, mapfile_find}
use pam_pkcs.Mappers.Mapfile.Match.{same_name, mapfile_match-found, mapfile_match-value}
use pam_pkcs.Mappers.Names.{
  Settings, map_first, match_entries, match_any, cn_mapper_find_user, cn_mapper_match_user,
  uid_mapper_match_user, subject_mapper_match_user,
}

find_none :
    (env : MapEnv) (s : Settings) → (mapfile_find env (some s.mapfile) none s.ignorecase).0 ≡ none
unfolding mapfile_find
find_none env s = refl

module _ (env : MapEnv) where
  match_any-map_first :
      (s : Settings) (entries : Option (List Bytes)) (login : Bytes)
      → (map_first env s entries).0 ≡ some login
      → match_any env s entries login ≡ pos 1
  unfolding match_any match_entries map_first
  match_any-map_first s none login h = ground (arith, h)
  match_any-map_first s (some []) login h = ground (arith, h, find_none env s)
  match_any-map_first s (some (e ∷ es)) login h =
      ground (arith, mapfile_match-found env (some s.mapfile) e login s.ignorecase h)

  subject_match :
      (s : Settings) (entries : List Bytes) (login : Bytes)
      → (map_first env s (some entries)).0 ≡ some login
      → subject_mapper_match_user env s (some entries) login ≡ pos 1
  unfolding subject_mapper_match_user map_first
  subject_match s [] login h = ground (arith, h, find_none env s)
  subject_match s (e ∷ es) login h = mapfile_match-found env (some s.mapfile) e login s.ignorecase h

  -- A login that the finder of the CN mapper gives for the entries of a certificate, whatever its
  -- map file and settings, is matched by the matcher of the CN mapper, and so it is with the UID
  -- and the subject mapper.
  pub cn_mapper_match_user-find_user :
      (s : Settings) (entries : Option (List Bytes)) (login : Bytes)
      → (cn_mapper_find_user env s entries).0 ≡ some login
      → (cn_mapper_match_user env s entries login ≡ pos 1)
        × (uid_mapper_match_user env s entries login ≡ pos 1)
        × (subject_mapper_match_user env s entries login ≡ pos 1)
  unfolding cn_mapper_find_user cn_mapper_match_user uid_mapper_match_user subject_mapper_match_user
      map_first
  cn_mapper_match_user-find_user s none login h = ground (arith, h)
  cn_mapper_match_user-find_user s (some entries) login h = (
    match_any-map_first s (some entries) login h,
    match_any-map_first s (some entries) login h,
    subject_match s entries login h,
  )

  -- The entry that a matcher of the CN mapper stops at.
  match_entries-first :
      (s : Settings) (e : Bytes) (es : List Bytes) (login value : Bytes)
      → (mapfile_find env (some s.mapfile) (some e) s.ignorecase).0 ≡ some value
      → match_entries env s login (e ∷ es)
        ≡ (if same_name s.ignorecase value login then pos 1 else negsuc 0)
  unfolding match_entries
  match_entries-first s e es login value h =
      elim (Bool-cases (same_name s.ignorecase value login)) [
        | inl m ↦
            ground (arith, mapfile_match-value env (some s.mapfile) e value login s.ignorecase h, m)
        | inr m ↦
            ground (arith, mapfile_match-value env (some s.mapfile) e value login s.ignorecase h, m)
      ]

  -- Where the finder of the CN mapper maps the first entry of a certificate to a value, the
  -- matcher decides by that value alone: 1 if it is the login, up to the case where this is to be
  -- ignored, and an error if not, whatever other entries the certificate has.
  pub cn_mapper_match_user-first :
      (s : Settings) (e : Bytes) (es : List Bytes) (login value : Bytes)
      → (cn_mapper_find_user env s (some (e ∷ es))).0 ≡ some value
      → cn_mapper_match_user env s (some (e ∷ es)) login
        ≡ (if same_name s.ignorecase value login then pos 1 else negsuc 0)
  unfolding cn_mapper_find_user cn_mapper_match_user map_first match_any
  cn_mapper_match_user-first s e es login value h = match_entries-first s e es login value h
