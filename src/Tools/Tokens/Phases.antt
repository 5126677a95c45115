-- ===== src/Tools/Tokens/Phases.antt =====
-- The phases of the `main` of tools/pklogin_finder.c: what each keeps, and how each ends.
use pam_pkcs.Base.{
  ℕ, ◌≡◌, inl, inr, refl, ◌≢◌, Bool, true, false, List, [], ◌∷◌, Option, none, some, arith, Bytes,
  not, ◌==◌, Bool-cases, Option-cases,
}
use pam_pkcs.Base.Int.{is_neg, is_one}
use pam_pkcs.MapperMgr.{find_user}
use pam_pkcs.Pam.World.{Config}
use pam_pkcs.Tools.Tokens.{
  Reader, Desk, go, exit, crash, Run, ◌>>=◌, release, unload, close, token_slot, session_at,
  open_with, open_reader, read_certs, end_with, print_login, try_login, find_login, login_code,
}

module _ {X509 Block : Type 0} (r : Reader X509 Block) where
  -- A part that goes on keeps the mappers and the output; it does not end the program with 0.
  abbrev pub Keeps : {A : Type 0} → Desk X509 → Run X509 A → Type 0
  Keeps w (go a, w1) = (w1.mgr ≡ w.mgr) × (w1.output ≡ w.output)
  Keeps w (exit c, w1) = c ≢ 0
  Keeps w (crash, w1) = Unit

  pub >>=-go_rule :
      {A B C : Type 0} (m : Run X509 A) (f : A → Desk X509 → Run X509 B) (w w' : Desk X509) {b : B}
      → Keeps w m
      → (m >>= f) ≡ (go b, w')
      → ((a : A) (w1 : Desk X509)
          → m ≡ (go a, w1)
          → (w1.mgr ≡ w.mgr) × (w1.output ≡ w.output)
          → f a w1 ≡ (go b, w')
          → C)
      → C
  >>=-go_rule (go a, w1) f w w' k h c = c a w1 refl k h
  >>=-go_rule (exit n, w1) f w w' k h c = absurd (cc)
  >>=-go_rule (crash, w1) f w w' k h c = absurd (cc)

  >>=-Keeps :
      {A B : Type 0} (m : Run X509 A) (f : A → Desk X509 → Run X509 B) (w : Desk X509)
      → Keeps w m
      → ((a : A) (w1 : Desk X509) → w1.mgr ≡ w.mgr → w1.output ≡ w.output → Keeps w (f a w1))
      → Keeps w (m >>= f)
  >>=-Keeps (go a, w1) f w k h = h a w1 k.0 k.1
  >>=-Keeps (exit c, w1) f w k h = k
  >>=-Keeps (crash, w1) f w k h = k

  abbrev pub ends_well : {A : Type 0} → Run X509 A → Bool
  ends_well (go a, w) = true
  ends_well (exit c, w) = not (c == 0)
  ends_well (crash, w) = true

  pub Keeps-ends_well :
      {A : Type 0} (w : Desk X509) (m : Run X509 A) → Keeps w m → ends_well m ≡ true
  Keeps-ends_well w (go a, w1) k = refl
  Keeps-ends_well w (exit c, w1) k = ground arith
  Keeps-ends_well w (crash, w1) k = refl

  pub >>=-ends_well :
      {A B : Type 0} (m : Run X509 A) (f : A → Desk X509 → Run X509 B)
      → ends_well m ≡ true
      → ((a : A) (w : Desk X509) → ends_well (f a w) ≡ true)
      → ends_well (m >>= f) ≡ true
  >>=-ends_well (go a, w1) f t k = k a w1
  >>=-ends_well (exit c, w1) f t k = t
  >>=-ends_well (crash, w1) f t k = refl

  session_at-Keeps :
      (cfg : Config) (slot : Option ℕ) (w : Desk X509) → Keeps w (session_at r cfg slot w)
  unfolding session_at
  session_at-Keeps cfg none w = ground arith
  session_at-Keeps cfg (some i) w = ground arith

  open_with-Keeps : (cfg : Config) (w : Desk X509) → Keeps w (open_with r cfg w)
  unfolding open_with
  open_with-Keeps cfg w =
      ground (arith, session_at-Keeps cfg (token_slot r cfg) (record w { module_loaded = true }))

  open_reader-Keeps : (w : Desk X509) → Keeps w (open_reader r w)
  unfolding open_reader
  open_reader-Keeps w = elim (Option-cases r.env.configuration) [
    | inl e ↦ ground arith
    | inr (cfg, e) ↦ rw e (open_with-Keeps cfg w)
  ]

  read_certs-Keeps :
      (w w1 : Desk X509) → w1.mgr ≡ w.mgr → w1.output ≡ w.output → Keeps w (read_certs r w1)
  unfolding read_certs
  read_certs-Keeps w w1 m o = elim (Option-cases r.certificate_list) [
    | inl e ↦ ground arith
    | inr (certs, e) ↦ rw e (m, o)
  ]

  read_certs-certs :
      (w w' : Desk X509) {certs : List (Option X509)}
      → read_certs r w ≡ (go certs, w')
      → r.certificate_list ≡ some certs
  unfolding read_certs
  read_certs-certs w w' h = ground arith

  -- The certificates, read from the token of the open session.
  abbrev pub opened : Desk X509 → Run X509 (List (Option X509))
  opened w = open_reader r w >>= (λ cfg w1. read_certs r w1)

  pub opened-Keeps : (w : Desk X509) → Keeps w (opened w)
  opened-Keeps w =
      >>=-Keeps (open_reader r w) (λ cfg w1. read_certs r w1) w (open_reader-Keeps w)
        (λ cfg w1. read_certs-Keeps w w1)

  pub opened-certs :
      (w w' : Desk X509) {certs : List (Option X509)}
      → opened w ≡ (go certs, w')
      → r.certificate_list ≡ some certs
  opened-certs w w' h =
      >>=-go_rule (open_reader r w) (λ cfg w1. read_certs r w1) w w' (open_reader-Keeps w) h
        (λ cfg w1 e k. read_certs-certs w1 w')

  end_with-zero :
      (code : ℕ) (w w' : Desk X509)
      → end_with r code 1 w ≡ (exit 0, w')
      → (code ≡ 0) × (w'.output ≡ w.output)
  unfolding end_with close release
  end_with-zero code w w' h = ground arith

  pub try_login-neg :
      (x509 : X509) (d : Desk X509) (next : Desk X509 → Run X509 (Option Bytes))
      → is_neg (r.env.verify_certificate x509) ≡ true
      → try_login r x509 d next ≡ (exit 1, unload (release (close r d)))
  unfolding try_login
  try_login-neg x509 d next n = ground arith

  pub try_login-skip :
      (x509 : X509) (d : Desk X509) (next : Desk X509 → Run X509 (Option Bytes))
      → is_neg (r.env.verify_certificate x509) ≡ false
      → is_one (r.env.verify_certificate x509) ≡ false
      → try_login r x509 d next ≡ next d
  unfolding try_login
  try_login-skip x509 d next n o = ground arith

  pub try_login-one :
      (x509 : X509) (d : Desk X509) (next : Desk X509 → Run X509 (Option Bytes))
      → is_neg (r.env.verify_certificate x509) ≡ false
      → is_one (r.env.verify_certificate x509) ≡ true
      → try_login r x509 d next
        ≡ print_login r
            (find_user d.mgr (some x509)).0
            (record d { mgr = (find_user d.mgr (some x509)).1 })
            next
  unfolding try_login
  try_login-one x509 d next n o = ground arith

  print_login-ends :
      (o : Option Bytes) (d : Desk X509) (next : Desk X509 → Run X509 (Option Bytes))
      → ((d' : Desk X509) → ends_well (next d') ≡ true)
      → ends_well (print_login r o d next) ≡ true
  unfolding print_login
  print_login-ends none d next k = k d
  print_login-ends (some login) d next k = refl

  pub find_login-ends :
      (certs : List (Option X509)) (d : Desk X509) → ends_well (find_login r certs d) ≡ true
  unfolding find_login
  find_login-ends [] d = refl
  find_login-ends (none ∷ certs) d = find_login-ends certs d
  find_login-ends (some x509 ∷ certs) d =
      elim (Bool-cases (is_neg (r.env.verify_certificate x509))) [
        | inl n ↦ (unfold try_login in ground arith)
        | inr n ↦ elim (Bool-cases (is_one (r.env.verify_certificate x509))) [
          | inl o ↦ rw (try_login-one x509 d (find_login r certs) n o) (
              print_login-ends (find_user d.mgr (some x509)).0
                (record d { mgr = (find_user d.mgr (some x509)).1 }) (find_login r certs)
                (find_login-ends certs))
          | inr o ↦ rw (try_login-skip x509 d (find_login r certs) n o) (find_login-ends certs d)
        ]
      ]

  -- The end of the program after the loop.
  pub after_login :
      {C : Type 0} (m : Run X509 (Option Bytes)) (w' : Desk X509)
      → ends_well m ≡ true
      → (m >>= (λ login w3. end_with r (login_code r login) 1 (unload w3))) ≡ (exit 0, w')
      → ((login : Bytes) (w3 : Desk X509) → m ≡ (go (some login), w3) → w'.output ≡ w3.output → C)
      → C
  unfolding login_code unload
  after_login (go none, w3) w' t h c = absurd (ground (arith, end_with-zero 1 (unload w3) w' h))
  after_login (go (some login), w3) w' t h c = c login w3 refl (end_with-zero 0 (unload w3) w' h).1
  after_login (exit n, w3) w' t h c = absurd (ground arith)
  after_login (crash, w3) w' t h c = absurd (cc)
