-- ===== src/CertVfy/Store.antt =====
-- What `setup_store` of common/cert_vfy.c puts into the store that a certificate is verified in.
use pam_pkcs.Base.{
  ◌≡◌, ◌⊎◌, inl, inr, refl, Bool, true, false, ◌&&◌, ◌||◌, not, List, [], Option, none, some, Bytes,
  if◌then◌else◌, Bool-cases, All,
}
use pam_pkcs.Base.Int.{is_pos, is_one}
use pam_pkcs.Uri.{is_dir, is_file}
use pam_pkcs.CertVfy.{
  check_crl_dir, CertPolicy, Source, hash_dir, loaded, pem, asn1, Ossl, add_hash, add_file,
  strip_url, add_hash_dirs, add_files, setup_store, when, ◌>>=◌,
}

module _ {X509 Crl Key : Type 0} (o : Ossl X509 Crl Key) (policy : CertPolicy) where
  -- The path that was configured for the CA certificates or for the CRLs, where the policy has
  -- the check that needs it.
  abbrev pub IsWanted : Bytes → Type 0
  IsWanted path =
      ((policy.ca_policy ≡ true) × (path ≡ strip_url policy.ca_dir))
      ⊎ ((check_crl_dir policy.crl_policy ≡ true) × (path ≡ strip_url policy.crl_dir))

  -- A hash directory that the library took in this format, or a file that it could load in it.
  abbrev pub IsTrusted : Source → Type 0
  IsTrusted (hash_dir path t) = IsWanted path × (is_one (o.add_dir path t) ≡ true)
  IsTrusted (loaded path t) = IsWanted path × (is_one (o.load_file path t) ≡ true)

  -- What a step leaves is trusted, if it does not fail.
  abbrev Ensures : Option (List Source) → Type 0
  Ensures none = Unit
  Ensures (some store) = All IsTrusted store

  add_hash-Ensures :
      (path : Bytes) (store : List Source)
      → IsWanted path
      → All IsTrusted store
      → Ensures (add_hash o path store)
  unfolding add_hash
  add_hash-Ensures path store w a = elim (Bool-cases (is_one (o.add_dir path pem))) [
    | inr e ↦ rw e tt
    | inl e ↦ elim (Bool-cases (is_one (o.add_dir path asn1))) [
      | inr e' ↦ rw (e, e') tt
      | inl e' ↦ rw (e, e') ((w, e'), ((w, e), a))
    ]
  ]

  add_file-Ensures :
      (path : Bytes) (store : List Source)
      → IsWanted path
      → All IsTrusted store
      → Ensures (add_file o path store)
  unfolding add_file
  add_file-Ensures path store w a = elim (Bool-cases (is_one (o.load_file path pem))) [
    | inl e ↦ rw e ((w, e), a)
    | inr e ↦ elim (Bool-cases (is_one (o.load_file path asn1))) [
      | inr e' ↦ rw (e, e') tt
      | inl e' ↦ rw (e, e') ((w, e'), a)
    ]
  ]

  when-Ensures :
      (b c : Bool) (f : List Source → Option (List Source)) (store : List Source)
      → All IsTrusted store
      → (b ≡ true → Ensures (f store))
      → Ensures (when (b && c) f store)
  when-Ensures true true f store a k = k refl
  when-Ensures true false f store a k = a
  when-Ensures false c f store a k = a

  then-Ensures :
      (m : Option (List Source)) (f : List Source → Option (List Source))
      → Ensures m
      → ((store : List Source) → All IsTrusted store → Ensures (f store))
      → Ensures (m >>= f)
  then-Ensures none f a k = tt
  then-Ensures (some store) f a k = k store a

  if-Ensures : (b : Bool) (m : Option (List Source)) → Ensures m → Ensures (if b then none else m)
  if-Ensures true m a = tt
  if-Ensures false m a = a

  add_hash_dirs-Ensures :
      (store : List Source) → All IsTrusted store → Ensures (add_hash_dirs o policy store)
  unfolding add_hash_dirs
  add_hash_dirs-Ensures store a =
      let ca = is_pos (is_dir o.stat policy.ca_dir) in
      let crl = is_pos (is_dir o.stat policy.crl_dir) in
      let f = add_hash o (strip_url policy.ca_dir) in
      let g = add_hash o (strip_url policy.crl_dir) in
      let second = when (check_crl_dir policy.crl_policy && crl) g in
      if-Ensures ((ca || crl) && not o.add_lookup_hash_dir)
        (when (policy.ca_policy && ca) f store >>= second)
        (then-Ensures (when (policy.ca_policy && ca) f store) second
          (when-Ensures policy.ca_policy ca f store a
            (λ e. add_hash-Ensures _ store (inl (e, refl)) a))
          (λ s b.
            when-Ensures (check_crl_dir policy.crl_policy) crl g s b
              (λ e. add_hash-Ensures _ s (inr (e, refl)) b)))

  add_files-Ensures :
      (store : List Source) → All IsTrusted store → Ensures (add_files o policy store)
  unfolding add_files
  add_files-Ensures store a =
      let ca = is_pos (is_file o.stat policy.ca_dir) in
      let crl = is_pos (is_file o.stat policy.crl_dir) in
      let f = add_file o (strip_url policy.ca_dir) in
      let g = add_file o (strip_url policy.crl_dir) in
      let second = when (check_crl_dir policy.crl_policy && crl) g in
      if-Ensures ((ca || crl) && not o.add_lookup_file)
        (when (policy.ca_policy && ca) f store >>= second)
        (then-Ensures (when (policy.ca_policy && ca) f store) second
          (when-Ensures policy.ca_policy ca f store a
            (λ e. add_file-Ensures _ store (inl (e, refl)) a))
          (λ s b.
            when-Ensures (check_crl_dir policy.crl_policy) crl g s b
              (λ e. add_file-Ensures _ s (inr (e, refl)) b)))

  setup_store-Ensures : Ensures (setup_store o policy)
  unfolding setup_store
  setup_store-Ensures =
      if-Ensures (not o.store_new) (add_hash_dirs o policy [] >>= add_files o policy) (
        then-Ensures (add_hash_dirs o policy []) (add_files o policy) (add_hash_dirs-Ensures [] tt)
          add_files-Ensures)

  -- All that the store holds was configured: it is the CA path where the policy has the CA check,
  -- or the CRL path where it has a CRL check, and the library took it in the format noted.
  pub setup_store-IsTrusted :
      (store : List Source) → setup_store o policy ≡ some store → All IsTrusted store
  setup_store-IsTrusted store e = rw e at setup_store-Ensures
