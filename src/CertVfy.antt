-- ===== src/CertVfy.antt =====
-- common/cert_vfy.c, the OpenSSL build: the X509 store, the revocation check and the verification
-- of a certificate. OpenSSL, the file system and the download of a CRL are the parameter `Ossl`.
pub mod Download
pub mod Signature
pub mod Sound
pub mod Store
use pam_pkcs.Base.{
  ℕ, Bool, true, false, ◌&&◌, ◌||◌, not, List, [], ◌∷◌, ◌++◌, Option, none, some, Bytes,
  if◌then◌else◌, drop,
}
use pam_pkcs.Base.Int.{ℤ, pos, negsuc, is_neg, is_zero, is_pos, is_one}
use pam_pkcs.Base.Cstr.{codes}
use pam_pkcs.Uri.{FileMode, is_dir, is_file, contains}

-- `crl_policy_t`, and any other number.
pub data CrlPolicy : Type 0 where
  crlp_none crlp_online crlp_offline crlp_auto : CrlPolicy
  crlp_other : ℕ → CrlPolicy

-- `cert_policy`.
pub record CertPolicy : Type 0 where
  pub ca_policy : Bool
  pub crl_policy : CrlPolicy
  pub signature_policy : Bool
  pub ca_dir : Bytes
  pub crl_dir : Bytes

pub data FileType : Type 0 where
  pem asn1 : FileType

-- What was added to the store: a hash directory in a format, or a file that was loaded.
pub data Source : Type 0 where
  hash_dir : Bytes → FileType → Source
  loaded : Bytes → FileType → Source

-- `GENERAL_NAME`: a URI, a name of another kind, or a null pointer.
pub data GeneralName : Type 0 where
  gen_uri : Bytes → GeneralName
  gen_other gen_null : GeneralName

-- The cases that `verify_certificate` tells apart of `X509_STORE_CTX_get_error`.
pub data VerifyError : Type 0 where
  cert_has_expired cert_not_yet_valid unable_to_get_issuer_cert_locally other_error : VerifyError

pub record Ossl (X509 Crl Key : Type 0) : Type 0 where
  pub stat : Bytes → Option FileMode
  pub store_new : Bool
  pub add_lookup_hash_dir : Bool
  pub add_lookup_file : Bool
  -- X509_LOOKUP_add_dir and X509_LOOKUP_load_file
  pub add_dir : Bytes → FileType → ℤ
  pub load_file : Bytes → FileType → ℤ
  pub store_ctx_new : Bool
  pub verify_cert : List Source → X509 → ℤ
  pub get_error : List Source → X509 → VerifyError
  -- X509_STORE_get_by_subject for the issuer of the certificate, and of the CRL
  pub issuer_crl : List Source → X509 → Option Crl
  pub issuer_cert : List Source → X509 → Option X509
  pub crl_issuer_cert : List Source → Crl → Option X509
  pub get_pubkey : X509 → Option Key
  pub crl_verify : Crl → Key → ℤ
  -- X509_cmp_current_time of the two dates of the CRL
  pub cmp_last_update : Crl → ℤ
  pub cmp_next_update : Crl → ℤ
  pub get0_by_cert : Crl → X509 → ℤ
  -- the extension "CRL distribution points": for each point its full names, if it has them
  pub dist_points : X509 → Option (List (Option (List GeneralName)))
  pub download_crl : Bytes → Option Crl

-- The comparison of the update times with the current time.
verify_dates : ℤ → ℤ → ℤ
verify_dates last next =
    if is_zero last
    then negsuc 0
    else if is_pos last
    then pos 0
    else if is_zero next
    then negsuc 0
    else if is_neg next
    then pos 0
    else pos 1

-- A path with "file:///" in it loses its first eight characters.
pub strip_url : Bytes → Bytes
strip_url pt = if contains pt (codes "file:///") then drop 8 pt else pt

abbrev when : Bool → (List Source → Option (List Source)) → List Source → Option (List Source)
when b f store = elim b [ true ↦ f store | false ↦ some store ]

infixl 5 ◌>>=◌
abbrev ◌>>=◌ : Option (List Source) → (List Source → Option (List Source)) → Option (List Source)
none >>= f = none
some s >>= f = f s

abbrev pub check_crl_dir : CrlPolicy → Bool
check_crl_dir crlp_none = false
check_crl_dir _ = true

abbrev error_code : VerifyError → ℤ
error_code cert_has_expired = negsuc 1
error_code cert_not_yet_valid = negsuc 2
error_code unable_to_get_issuer_cert_locally = negsuc 3
error_code other_error = pos 0

-- The check for revocation at the end: any error is -1.
abbrev revocation_result : ℤ → ℤ
revocation_result rv = if is_neg rv then negsuc 0 else rv

module _ {X509 Crl Key : Type 0} (o : Ossl X509 Crl Key) where
  verify_signed : Crl → ℤ → ℤ
  verify_signed crl rv =
      if is_neg rv
      then negsuc 0
      else if is_zero rv
      then pos 0
      else verify_dates (o.cmp_last_update crl) (o.cmp_next_update crl)

  unfoldable pub verify_crl : List Source → Crl → ℤ
  unfolding verify_dates verify_signed
  verify_crl store crl = elim (o.crl_issuer_cert store crl) [
    | none ↦ negsuc 0
    | some issuer_cert ↦ elim (o.get_pubkey issuer_cert) [
      | none ↦ negsuc 0
      | some pkey ↦ verify_signed crl (o.crl_verify crl pkey)
    ]
  ]

  -- The inner loop: the first URI from which a CRL comes.
  pub fetch_names : List GeneralName → Option Crl
  fetch_names [] = none
  fetch_names (gen_uri u ∷ ns) = elim (o.download_crl u) [
    | some crl ↦ some crl
    | none ↦ fetch_names ns
  ]
  fetch_names (gen_other ∷ ns) = fetch_names ns
  fetch_names (gen_null ∷ ns) = fetch_names ns

  -- The outer loop, over the distribution points.
  pub fetch_points : List (Option (List GeneralName)) → Option Crl
  unfolding fetch_names
  fetch_points [] = none
  fetch_points (none ∷ ps) = fetch_points ps
  fetch_points (some names ∷ ps) = elim (fetch_names names) [
    | some crl ↦ some crl
    | none ↦ fetch_points ps
  ]

  fetch_from_ca : Option X509 → Option Crl
  unfolding fetch_points
  fetch_from_ca none = none
  fetch_from_ca (some ca) = elim (o.dist_points ca) [ none ↦ none | some ps ↦ fetch_points ps ]

  -- The CRL of the policy ONLINE: from the points of the certificate, else of its issuer.
  unfoldable pub fetch_online : List Source → X509 → Option Crl
  unfolding fetch_points fetch_from_ca
  fetch_online store x509 = elim (o.dist_points x509) [
    | some ps ↦ fetch_points ps
    | none ↦ fetch_from_ca (o.issuer_cert store x509)
  ]

  -- The end of `check_for_revocation`, for the CRL that was found.
  unfoldable pub check_crl : List Source → X509 → Option Crl → ℤ
  check_crl store x509 none = negsuc 0
  check_crl store x509 (some crl) =
      let rv = verify_crl store crl in
      if is_neg rv
      then negsuc 0
      else if is_zero rv
      then pos 0
      else if is_zero (o.get0_by_cert crl x509)
      then pos 1
      else pos 0

  -- The policy AUTO calls the function again with ONLINE, and with OFFLINE where that is an error.
  unfoldable pub check_for_revocation : List Source → X509 → CrlPolicy → ℤ
  unfolding check_crl fetch_online
  check_for_revocation store x509 crlp_none = pos 1
  check_for_revocation store x509 crlp_auto =
      let rv = check_crl store x509 (fetch_online store x509) in
      if is_neg rv then check_crl store x509 (o.issuer_crl store x509) else rv
  check_for_revocation store x509 crlp_offline = check_crl store x509 (o.issuer_crl store x509)
  check_for_revocation store x509 crlp_online = check_crl store x509 (fetch_online store x509)
  check_for_revocation store x509 (crlp_other n) = negsuc 0

  -- Both formats must be accepted.
  unfoldable pub add_hash : Bytes → List Source → Option (List Source)
  add_hash dir store =
      if not (is_one (o.add_dir dir pem))
      then none
      else if not (is_one (o.add_dir dir asn1))
      then none
      else some (hash_dir dir asn1 ∷ hash_dir dir pem ∷ store)

  -- One of the two formats must be accepted.
  unfoldable pub add_file : Bytes → List Source → Option (List Source)
  add_file file store =
      if is_one (o.load_file file pem)
      then some (loaded file pem ∷ store)
      else if not (is_one (o.load_file file asn1))
      then none
      else some (loaded file asn1 ∷ store)

  -- The hash directories, and then the files; a lookup that cannot be added fails the store.
  unfoldable pub add_hash_dirs : CertPolicy → List Source → Option (List Source)
  unfolding add_hash strip_url
  add_hash_dirs policy store =
      let ca = is_pos (is_dir o.stat policy.ca_dir) in
      let crl = is_pos (is_dir o.stat policy.crl_dir) in
      if (ca || crl) && not o.add_lookup_hash_dir
      then none
      else when (policy.ca_policy && ca) (add_hash (strip_url policy.ca_dir)) store
        >>= when (check_crl_dir policy.crl_policy && crl) (add_hash (strip_url policy.crl_dir))

  unfoldable pub add_files : CertPolicy → List Source → Option (List Source)
  unfolding add_file strip_url
  add_files policy store =
      let ca = is_pos (is_file o.stat policy.ca_dir) in
      let crl = is_pos (is_file o.stat policy.crl_dir) in
      if (ca || crl) && not o.add_lookup_file
      then none
      else when (policy.ca_policy && ca) (add_file (strip_url policy.ca_dir)) store
        >>= when (check_crl_dir policy.crl_policy && crl) (add_file (strip_url policy.crl_dir))

  unfoldable pub setup_store : CertPolicy → Option (List Source)
  unfolding add_hash_dirs add_files
  setup_store policy =
      if not o.store_new then none else add_hash_dirs policy [] >>= add_files policy

  verify_in_store : List Source → X509 → CertPolicy → ℤ
  verify_in_store store x509 policy =
      if not o.store_ctx_new
      then negsuc 0
      else if policy.ca_policy && not (is_one (o.verify_cert store x509))
      then error_code (o.get_error store x509)
      else revocation_result (check_for_revocation store x509 policy.crl_policy)

  -- Nothing is checked if neither check is asked for.
  unfoldable pub verify_certificate : X509 → CertPolicy → ℤ
  unfolding verify_in_store
  verify_certificate x509 policy =
      if not policy.ca_policy && not (check_crl_dir policy.crl_policy)
      then pos 1
      else elim (setup_store policy) [
        | none ↦ negsuc 0
        | some store ↦ verify_in_store store x509 policy
      ]
