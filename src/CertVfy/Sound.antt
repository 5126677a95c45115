-- ===== src/CertVfy/Sound.antt =====
-- When common/cert_vfy.c accepts a certificate: the checks that the policy asks for have passed.
use pam_pkcs.Base.{
  ◌≡◌, ◌⊎◌, inl, inr, refl, not, ◌&&◌, true, false, List, [], ◌∷◌, Option, none, some, arith, Bytes,
  Bool-cases, Option-cases,
}
use pam_pkcs.Base.Int.{is_neg, is_zero, is_pos, is_one}
use pam_pkcs.CertVfy.{
  CrlPolicy, crlp_none, crlp_online, crlp_offline, crlp_auto, crlp_other, check_crl_dir, CertPolicy,
  Source, GeneralName, gen_uri, gen_other, gen_null, Ossl, verify_crl, fetch_names, fetch_points,
  fetch_online, check_crl, check_for_revocation, setup_store, verify_in_store, verify_certificate,
}

module _ {X509 Crl Key : Type 0} (o : Ossl X509 Crl Key) where
  -- The CRL is signed by the certificate that the store has for its issuer, and is in date: its
  -- last update is past and its next update to come.
  pub record IsCurrent (store : List Source) (crl : Crl) : Type 0 where
    pub issuer : X509
    pub key : Key
    pub has_issuer : o.crl_issuer_cert store crl ≡ some issuer
    pub has_key : o.get_pubkey issuer ≡ some key
    pub signed : is_pos (o.crl_verify crl key) ≡ true
    pub updated : is_neg (o.cmp_last_update crl) ≡ true
    pub expires : is_pos (o.cmp_next_update crl) ≡ true

  verify_crl-IsCurrent :
      (store : List Source) (crl : Crl)
      → is_pos (verify_crl o store crl) ≡ true
      → IsCurrent store crl
  unfolding verify_crl
  verify_crl-IsCurrent store crl h = elim (Option-cases (o.crl_issuer_cert store crl)) [
    | inl e ↦ ground arith
    | inr (issuer, e) ↦ elim (Option-cases (o.get_pubkey issuer)) [
      | inl e' ↦ ground arith
      | inr (key, e') ↦ record {
        issuer = issuer;
        key = key;
        has_issuer = e;
        has_key = e';
        signed = ground arith;
        updated = ground arith;
        expires = ground arith;
      }
    ]
  ]

  -- A CRL that is current and does not list the certificate.
  abbrev pub Clears : List Source → X509 → Crl → Type 0
  Clears store x509 crl = IsCurrent store crl × (is_zero (o.get0_by_cert crl x509) ≡ true)

  check_crl-Clears :
      (store : List Source) (x509 : X509) (found : Option Crl)
      → is_pos (check_crl o store x509 found) ≡ true
      → (crl : Crl) × (found ≡ some crl) × Clears store x509 crl
  unfolding check_crl
  check_crl-Clears store x509 none h = cc
  check_crl-Clears store x509 (some crl) h =
      (crl, refl, (verify_crl-IsCurrent store crl (ground arith), ground arith))

  pub data InNames (u : Bytes) : List GeneralName → Type 0 where
    here : {ns : List GeneralName} → InNames u (gen_uri u ∷ ns)
    there : {n : GeneralName} {ns : List GeneralName} → InNames u ns → InNames u (n ∷ ns)

  pub data InPoints (u : Bytes) : List (Option (List GeneralName)) → Type 0 where
    here :
        {ns : List GeneralName} {ps : List (Option (List GeneralName))}
        → InNames u ns
        → InPoints u (some ns ∷ ps)
    there :
        {p : Option (List GeneralName)} {ps : List (Option (List GeneralName))}
        → InPoints u ps
        → InPoints u (p ∷ ps)

  fetch_names-InNames :
      (ns : List GeneralName) (crl : Crl)
      → fetch_names o ns ≡ some crl
      → (u : Bytes) × InNames u ns × (o.download_crl u ≡ some crl)
  unfolding fetch_names
  fetch_names-InNames [] crl h = cc
  fetch_names-InNames (gen_uri u ∷ ns) crl h = elim (Option-cases (o.download_crl u)) [
    | inr (c, e) ↦ (u, InNames.here, ground arith)
    | inl e ↦ let (v, i, d) = fetch_names-InNames ns crl (ground arith) in (v, InNames.there i, d)
  ]
  fetch_names-InNames (gen_other ∷ ns) crl h =
      let (v, i, d) = fetch_names-InNames ns crl h in (v, InNames.there i, d)
  fetch_names-InNames (gen_null ∷ ns) crl h =
      let (v, i, d) = fetch_names-InNames ns crl h in (v, InNames.there i, d)

  fetch_points-InPoints :
      (ps : List (Option (List GeneralName))) (crl : Crl)
      → fetch_points o ps ≡ some crl
      → (u : Bytes) × InPoints u ps × (o.download_crl u ≡ some crl)
  unfolding fetch_points
  fetch_points-InPoints [] crl h = cc
  fetch_points-InPoints (none ∷ ps) crl h =
      let (v, i, d) = fetch_points-InPoints ps crl h in (v, InPoints.there i, d)
  fetch_points-InPoints (some ns ∷ ps) crl h = elim (Option-cases (fetch_names o ns)) [
    | inr (c, e) ↦ let (v, i, d) = fetch_names-InNames ns c e in (v, InPoints.here i, ground arith)
    | inl e ↦
        let (v, i, d) = fetch_points-InPoints ps crl (ground arith) in (v, InPoints.there i, d)
  ]

  -- The distribution points of the certificate, or those of its issuer if it has none.
  abbrev PointsOf : List Source → X509 → List (Option (List GeneralName)) → Type 0
  PointsOf store x509 ps =
      (o.dist_points x509 ≡ some ps)
      ⊎ ((ca : X509) × (o.dist_points x509 ≡ none)
          × (o.issuer_cert store x509 ≡ some ca)
          × (o.dist_points ca ≡ some ps))

  -- The CRL was downloaded from a URI of those points.
  pub record Published (store : List Source) (x509 : X509) (crl : Crl) : Type 0 where
    pub points : List (Option (List GeneralName))
    pub uri : Bytes
    pub points_of : PointsOf store x509 points
    pub named : InPoints uri points
    pub downloads : o.download_crl uri ≡ some crl

  fetch_points-Published :
      (store : List Source) (x509 : X509) (ps : List (Option (List GeneralName))) (crl : Crl)
      → PointsOf store x509 ps
      → fetch_points o ps ≡ some crl
      → Published store x509 crl
  fetch_points-Published store x509 ps crl from h =
      let (u, i, d) = fetch_points-InPoints ps crl h in
      record { points = ps; uri = u; points_of = from; named = i; downloads = d }

  fetch_online-Published :
      (store : List Source) (x509 : X509) (crl : Crl)
      → fetch_online o store x509 ≡ some crl
      → Published store x509 crl
  unfolding fetch_online
  fetch_online-Published store x509 crl h = elim (Option-cases (o.dist_points x509)) [
    | inr (ps, e) ↦ fetch_points-Published store x509 ps crl (inl e) (ground arith)
    | inl e ↦ elim (Option-cases (o.issuer_cert store x509)) [
      | inl e' ↦ ground arith
      | inr (ca, e') ↦ elim (Option-cases (o.dist_points ca)) [
        | inl e'' ↦ ground arith
        | inr (ps, e'') ↦
            fetch_points-Published store x509 ps crl (inr (ca, e, e', e'')) (ground arith)
      ]
    ]
  ]

  -- Where each policy may take its CRL from.
  pub data Offered (store : List Source) (x509 : X509) (crl : Crl) : CrlPolicy → Type 0 where
    online : Published store x509 crl → Offered store x509 crl crlp_online
    offline : o.issuer_crl store x509 ≡ some crl → Offered store x509 crl crlp_offline
    auto_online : Published store x509 crl → Offered store x509 crl crlp_auto
    auto_offline : o.issuer_crl store x509 ≡ some crl → Offered store x509 crl crlp_auto

  abbrev NotRevoked : List Source → X509 → CrlPolicy → Type 0
  NotRevoked store x509 policy =
      (policy ≡ crlp_none) ⊎ ((crl : Crl) × Offered store x509 crl policy × Clears store x509 crl)

  check_for_revocation_sound :
      (store : List Source) (x509 : X509) (policy : CrlPolicy)
      → is_pos (check_for_revocation o store x509 policy) ≡ true
      → NotRevoked store x509 policy
  unfolding check_for_revocation
  check_for_revocation_sound store x509 crlp_none h = inl refl
  check_for_revocation_sound store x509 crlp_online h =
      let (crl, e, c) = check_crl-Clears store x509 _ h in
      inr (crl, online (fetch_online-Published store x509 crl e), c)
  check_for_revocation_sound store x509 crlp_offline h =
      let (crl, e, c) = check_crl-Clears store x509 _ h in inr (crl, offline e, c)
  check_for_revocation_sound store x509 crlp_auto h =
      elim (Bool-cases (is_neg (check_crl o store x509 (fetch_online o store x509)))) [
        | inl failed ↦
            let (crl, e, c) =
              check_crl-Clears store x509 (o.issuer_crl store x509) (rw failed at h) in
            inr (crl, auto_offline e, c)
        | inr answered ↦
            let (crl, e, c) = check_crl-Clears store x509 _ (rw answered at h) in
            inr (crl, auto_online (fetch_online-Published store x509 crl e), c)
      ]
  check_for_revocation_sound store x509 (crlp_other n) h = cc

  -- What the policy asks for of a certificate, in the store that `setup_store` has made for it.
  pub record Accepted (policy : CertPolicy) (x509 : X509) : Type 0 where
    pub store : List Source
    pub is_store : setup_store o policy ≡ some store
    pub ca_checked : policy.ca_policy ≡ true → is_one (o.verify_cert store x509) ≡ true
    pub crl_checked : NotRevoked store x509 policy.crl_policy

  verify_in_store_sound :
      (store : List Source) (x509 : X509) (policy : CertPolicy)
      → is_pos (verify_in_store o store x509 policy) ≡ true
      → (policy.ca_policy ≡ true → is_one (o.verify_cert store x509) ≡ true)
        × (is_pos (check_for_revocation o store x509 policy.crl_policy) ≡ true)
  unfolding verify_in_store
  verify_in_store_sound store x509 policy h = ((λ ca. ground arith), ground arith)

  -- A certificate is accepted only if the policy asks for no check at all, or if X509_verify_cert
  -- accepts it in the store of the policy where the CA check is asked for, and where a CRL check
  -- is, some CRL that the policy may use is current, signed by its issuer and does not list it.
  pub verify_certificate_sound :
      (policy : CertPolicy) (x509 : X509)
      → is_pos (verify_certificate o x509 policy) ≡ true
      → ((policy.ca_policy ≡ false) × (policy.crl_policy ≡ crlp_none)) ⊎ Accepted policy x509
  unfolding verify_certificate
  verify_certificate_sound policy x509 h =
      elim (Bool-cases (not policy.ca_policy && not (check_crl_dir policy.crl_policy))) [
        | inl skip ↦ inl (ground arith)
        | inr checked ↦ elim (Option-cases (setup_store o policy)) [
          | inl e ↦ absurd (ground arith)
          | inr (store, e) ↦
              let (ca, crl) = verify_in_store_sound store x509 policy (ground arith) in
              inr (record {
                store = store;
                is_store = e;
                ca_checked = ca;
                crl_checked = check_for_revocation_sound store x509 policy.crl_policy crl;
              })
        ]
      ]
