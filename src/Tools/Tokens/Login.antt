-- ===== src/Tools/Tokens/Login.antt =====
-- The login that tools/pklogin_finder.c prints, and the one that pam_pkcs11/pam_pkcs11.c chooses for
-- the same token.
use pam_pkcs.Base.{
  ◌≡◌, inl, inr, refl, ap, ◌∙◌, sym, true, false, List, [], ◌∷◌, ◌++◌, Option, none, some, arith,
  Bytes, Bool-cases,
}
use pam_pkcs.Base.Int.{ℤ, is_neg, is_one}
use mathlib.Core.Option.{some-injective}
use pam_pkcs.MapperMgr.{load_mappers, find_user}
use pam_pkcs.Pam.World.{is_success, Config, Env, World, Res}
use pam_pkcs.Pam.World
use pam_pkcs.Pam.Token.{is_spaced_str}
use pam_pkcs.Pam.Certs.{use_login, try_cert, choose_cert, find_cert}
use pam_pkcs.Tools.Tokens.{
  Reader, Line, Desk, go, exit, ◌>>=◌, print, load, print_login, try_login, find_login,
  pklogin_finder,
}
use pam_pkcs.Tools.Tokens.Phases.{
  >>=-go_rule, >>=-ends_well, Keeps-ends_well, opened, opened-Keeps, opened-certs, find_login-ends,
  after_login, try_login-one, try_login-skip,
}

-- The loop of `pam_sm_authenticate` chooses a certificate and sets this login.
abbrev pub Sets : {X509 : Type 0} → Bytes → Res X509 X509 → Type 0
Sets {X509} login m =
    (x509 : X509) × (w : World X509) × (m ≡ (World.go x509, w)) × (w.pam_user ≡ some login)

module _ {X509 Block : Type 0} (r : Reader X509 Block) (cfg : Config) (name : Option Bytes)
    (blank : is_spaced_str name ≡ true)
    (sets : (login : Bytes) → is_success (r.env.set_user login) ≡ true) where
  -- What `find_login` prints, and what the other loop does.
  abbrev Agrees : Bytes → Desk X509 → Desk X509 → Res X509 X509 → Type 0
  Agrees login d d' m = (d'.output ≡ d.output ++ Line.user login ∷ []) × Sets login m

  print_login-Agrees :
      (x509 : X509) (certs : List (Option X509)) (o : Option Bytes) (d d' : Desk X509)
      (w : World X509) {login : Bytes}
      → ((find_login r certs d ≡ (go (some login), d'))
          → Agrees login d d' (choose_cert r.env cfg name certs w))
      → print_login r o d (find_login r certs) ≡ (go (some login), d')
      → Agrees login d d' (use_login r.env cfg x509 o w (choose_cert r.env cfg name certs))
  unfolding print_login use_login print
  print_login-Agrees x509 certs none d d' w k h = k h
  print_login-Agrees x509 certs (some l) d d' w k h =
      (cc, (x509, record w { pam_user = some l }, ground (arith, sets l), cc))

  try_cert-skip :
      (x509 : X509) (w : World X509) (next : World X509 → Res X509 X509)
      → is_neg (r.env.verify_certificate x509) ≡ false
      → is_one (r.env.verify_certificate x509) ≡ false
      → try_cert r.env cfg name x509 w next ≡ next w
  unfolding try_cert
  try_cert-skip x509 w next n o = ground arith

  try_cert-one :
      (x509 : X509) (w : World X509) (next : World X509 → Res X509 X509)
      → is_neg (r.env.verify_certificate x509) ≡ false
      → is_one (r.env.verify_certificate x509) ≡ true
      → try_cert r.env cfg name x509 w next
        ≡ use_login r.env cfg x509
            (find_user w.mgr (some x509)).0
            (record w { mgr = (find_user w.mgr (some x509)).1 })
            next
  unfolding try_cert
  try_cert-one x509 w next n o = ground arith

  -- Every login that one loop prints, the other one sets.
  find_login-Agrees :
      (certs : List (Option X509)) (d d' : Desk X509) (w : World X509) {login : Bytes}
      → d.mgr ≡ w.mgr
      → find_login r certs d ≡ (go (some login), d')
      → Agrees login d d' (choose_cert r.env cfg name certs w)
  unfolding find_login choose_cert
  find_login-Agrees [] d d' w e h = absurd (ground arith)
  find_login-Agrees (none ∷ certs) d d' w e h = find_login-Agrees certs d d' w e h
  find_login-Agrees (some x509 ∷ certs) d d' w {login} e h =
      elim (Bool-cases (is_neg (r.env.verify_certificate x509))) [
        | inl n ↦ absurd (unfold try_login in ground arith)
        | inr n ↦ elim (Bool-cases (is_one (r.env.verify_certificate x509))) [
          | inl o ↦
              (let found = find_user d.mgr (some x509) in
                let w1 = record w { mgr = found.1 } in
                let d1 = record d { mgr = found.1 } in
                rw (try_cert-one x509 w (choose_cert r.env cfg name certs) n o) (
                  rw (sym e) (
                    print_login-Agrees x509 certs found.0 d1 d' w1
                      (find_login-Agrees certs d1 d' w1 refl)
                      (sym (try_login-one r x509 d (find_login r certs) n o) ∙ h))))
          | inr o ↦ rw (try_cert-skip x509 w (choose_cert r.env cfg name certs) n o) (
              find_login-Agrees certs d d' w e
                (sym (try_login-skip r x509 d (find_login r certs) n o) ∙ h))
        ]
      ]

module _ {X509 Block : Type 0} (r : Reader X509 Block) (cfg : Config) (name : Option Bytes) where
  find_cert-Sets :
      (rv : ℤ) (certs : List (Option X509)) (w : World X509) (login : Bytes)
      → certs ≡ r.env.certs
      → is_neg rv ≡ false
      → Sets login
          (choose_cert r.env cfg name certs (record w { mgr = load_mappers r.env.mappers w.mgr }))
      → Sets login (find_cert r.env cfg name rv w)
  unfolding find_cert
  find_cert-Sets rv certs w login e n (x509, w', c, u) = (x509, w', ground arith, u)

  -- Where pklogin_finder ends with 0, it prints one login. If `get_certificate_list` gives the same
  -- certificates, the mappers were in the same state before and PAM accepts each login, then
  -- `pam_sm_authenticate`, with a blank user name, chooses a certificate and sets this login.
  pub pklogin_finder-find_cert :
      is_spaced_str name ≡ true
      → ((login : Bytes) → is_success (r.env.set_user login) ≡ true)
      → r.certificate_list ≡ some r.env.certs
      → (rv : ℤ) (w w' : Desk X509) (pw : World X509) → is_neg rv ≡ false
      → pw.mgr ≡ w.mgr
      → pklogin_finder r w ≡ (exit 0, w')
      → (login : Bytes) × (w'.output ≡ w.output ++ Line.user login ∷ [])
        × Sets login (find_cert r.env cfg name rv pw)
  unfolding pklogin_finder load
  pklogin_finder-find_cert blank sets same rv w w' pw n m h =
      let loop = λ (certs : List (Option X509)) (w2 : Desk X509). find_login r certs (load r w2) in
      let loaded = record pw { mgr = load_mappers r.env.mappers pw.mgr } in
      after_login r (opened r w >>= loop) w'
        (>>=-ends_well r (opened r w) loop (Keeps-ends_well r w (opened r w) (opened-Keeps r w))
          (λ certs w2. find_login-ends r certs (load r w2)))
        h
        (λ login w3 e o.
          >>=-go_rule r (opened r w) loop w w3 (opened-Keeps r w) e (λ certs w2 eo k hf.
            let a =
              find_login-Agrees r cfg name blank sets certs (load r w2) w3 loaded
                (ap (load_mappers r.env.mappers) (k.0 ∙ sym m)) hf in
            (
              login,
              o ∙ a.0 ∙ ap (λ s. s ++ Line.user login ∷ []) k.1,
              find_cert-Sets rv certs pw login
                  (some-injective certs r.env.certs (sym (opened-certs r w w2 eo) ∙ same)) n a.1,
            )))
