-- ===== src/Pam/Certs/Choice.antt =====
-- pam_pkcs11/pam_pkcs11.c: the certificate that the loop of `pam_sm_authenticate` chooses.
use pam_pkcs.Base.{
  ℕ, zero, suc, ◌≡◌, ◌⊎◌, inl, inr, refl, true, false, List, [], ◌∷◌, Option, none, some, arith,
  Bytes, Bool-cases,
}
use pam_pkcs.Base.Int.{ℤ, pos, negsuc, is_neg, is_one, is_pos}
use pam_pkcs.MapperMgr.{MapperInstance, Mgr, find_user, match_user}
use pam_pkcs.MapperMgr.Search.{
  FirstFinder, SomeMatches, find_user_iff, match_user_iff, match_user-none,
}
use pam_pkcs.Pam.World.{is_success, Config, Env, World, go, Res, tell}
use pam_pkcs.Pam.Pin.{auth_failed_nopw}
use pam_pkcs.Pam.Token.{is_spaced_str}
use pam_pkcs.Pam.Certs.{verify_message, use_login, use_match, try_cert, choose_cert}

module _ {X509 Block : Type 0} (env : Env X509 Block) where
  pub data Listed (x509 : X509) : List (Option X509) → Type 0 where
    here : {certs : List (Option X509)} → Listed x509 (some x509 ∷ certs)
    there :
        {c : Option X509} {certs : List (Option X509)} → Listed x509 certs → Listed x509 (c ∷ certs)

  -- The certificate is verified. With no user name, the first mapper module that finds a login
  -- finds one that PAM takes as the user; with a user name, some mapper module matches it.
  abbrev pub IsOwn : List (MapperInstance X509) → Option Bytes → X509 → Type 0
  IsOwn chain user x509 =
      (is_one (env.verify_certificate x509) ≡ true)
      × (((is_spaced_str user ≡ true)
            × (login : Bytes) × FirstFinder x509 login chain
            × (is_success (env.set_user login) ≡ true))
          ⊎ ((is_spaced_str user ≡ false)
              × (login : Bytes) × (user ≡ some login)
              × SomeMatches x509 login chain))

  mgr-tell : (cfg : Config) (n : ℕ) (w : World X509) → (tell cfg n w).mgr ≡ w.mgr
  unfolding tell
  mgr-tell cfg n w = ground arith

  -- What a round that chooses a certificate has done: chosen its own, or gone on with the rest.
  abbrev Round :
      World X509 → Option Bytes → X509 → (World X509 → Res X509 X509) → X509 → World X509 → Type 0
  Round w user x509 next y w' =
      ((y ≡ x509) × IsOwn w.mgr.root_mapper_list user x509)
      ⊎ ((w1 : World X509) × (w1.mgr ≡ w.mgr) × (next w1 ≡ (go y, w')))

  use_login-Round :
      (cfg : Config) (user : Option Bytes) (x509 : X509) (w : World X509)
      (next : World X509 → Res X509 X509) (y : X509) (w' : World X509) (found : Option Bytes)
      → is_one (env.verify_certificate x509) ≡ true
      → is_spaced_str user ≡ true
      → ((login : Bytes) → found ≡ some login → FirstFinder x509 login w.mgr.root_mapper_list)
      → use_login env cfg x509 found w next ≡ (go y, w')
      → Round w user x509 next y w'
  unfolding use_login auth_failed_nopw
  use_login-Round cfg user x509 w next y w' none v s f h = inr (w, refl, h)
  use_login-Round cfg user x509 w next y w' (some login) v s f h =
      elim (Bool-cases (is_success (env.set_user login))) [
        | inl e ↦ inl (ground arith, (v, inl (s, login, f login refl, e)))
        | inr e ↦ absurd (ground arith)
      ]

  use_match-Round :
      (cfg : Config) (user : Option Bytes) (x509 : X509) (w : World X509)
      (next : World X509 → Res X509 X509) (y : X509) (w' : World X509) (rv : ℤ)
      → is_one (env.verify_certificate x509) ≡ true
      → is_spaced_str user ≡ false
      → (is_pos rv ≡ true
          → (login : Bytes) × (user ≡ some login) × SomeMatches x509 login w.mgr.root_mapper_list)
      → use_match env cfg x509 rv w next ≡ (go y, w')
      → Round w user x509 next y w'
  unfolding use_match auth_failed_nopw
  use_match-Round cfg user x509 w next y w' (negsuc n) v s f h = absurd (cc)
  use_match-Round cfg user x509 w next y w' (pos zero) v s f h = inr (w, refl, h)
  use_match-Round cfg user x509 w next y w' (pos (suc n)) v s f h =
      let (login, e, m) = f refl in inl (ground arith, (v, inr (s, login, e, m)))

  match_user_user :
      (mgr : Mgr X509) (x509 : X509) (user : Option Bytes)
      → is_pos (match_user mgr (some x509) user).0 ≡ true
      → (login : Bytes) × (user ≡ some login) × SomeMatches x509 login mgr.root_mapper_list
  match_user_user mgr x509 none h = absurd (ground (arith, match_user-none mgr x509))
  match_user_user mgr x509 (some login) h = (login, refl, (match_user_iff mgr x509 login).0.0 h)

  match_user_mgr :
      (mgr : Mgr X509) (x509 : X509) (user : Option Bytes)
      → (match_user mgr (some x509) user).1 ≡ mgr
  match_user_mgr mgr x509 none = rw match_user-none
  match_user_mgr mgr x509 (some login) = (match_user_iff mgr x509 login).2

  set_mgr : (w : World X509) (mgr : Mgr X509) → mgr ≡ w.mgr → record w { mgr = mgr } ≡ w
  set_mgr w mgr e = λ i. record w { mgr = e i }

  try_cert-Round :
      (cfg : Config) (user : Option Bytes) (x509 : X509) (w : World X509)
      (next : World X509 → Res X509 X509) (y : X509) (w' : World X509)
      → try_cert env cfg user x509 w next ≡ (go y, w')
      → Round w user x509 next y w'
  unfolding try_cert
  try_cert-Round cfg user x509 w next y w' h =
      elim (Bool-cases (is_neg (env.verify_certificate x509))) [
        | inl e ↦ inr (
          tell cfg (verify_message (env.verify_certificate x509)) w,
          mgr-tell _ _ w,
          ground arith,
        )
        | inr e ↦ elim (Bool-cases (is_one (env.verify_certificate x509))) [
          | inr e' ↦ inr (w, refl, ground arith)
          | inl e' ↦ elim (Bool-cases (is_spaced_str user)) [
            | inl e'' ↦
                use_login-Round cfg user x509 w next y w' (find_user w.mgr (some x509)).0 e' e''
                  (λ login f. (find_user_iff w.mgr x509 login).0.0 f)
                  (ground (arith, set_mgr w _ (find_user_iff w.mgr x509 []).1))
            | inr e'' ↦
                use_match-Round cfg user x509 w next y w' (match_user w.mgr (some x509) user).0 e'
                  e'' (match_user_user w.mgr x509 user)
                  (ground (arith, set_mgr w _ (match_user_mgr w.mgr x509 user)))
          ]
        ]
      ]

  -- The certificate chosen is one of the token's, and its own user's.
  pub choose_cert_sound :
      (cfg : Config) (user : Option Bytes) (certs : List (Option X509)) (w : World X509) {y : X509}
      {w' : World X509}
      → choose_cert env cfg user certs w ≡ (go y, w')
      → Listed y certs × IsOwn w.mgr.root_mapper_list user y
  unfolding choose_cert
  choose_cert_sound cfg user [] w h = (unfold auth_failed_nopw in absurd (cc))
  choose_cert_sound cfg user (none ∷ certs) w h =
      let (l, own) = choose_cert_sound cfg user certs w h in (there l, own)
  choose_cert_sound cfg user (some x509 ∷ certs) w {y} {w'} h =
      elim (try_cert-Round cfg user x509 w (choose_cert env cfg user certs) y w' h) [
        | inl (e, own) ↦ (rw e here, rw e own)
        | inr (w1, m, rest) ↦
            let (l, own) = choose_cert_sound cfg user certs w1 rest in (there l, rw m at own)
      ]

  -- A rule for what holds at the end of the loop, from an invariant of the state.
  module _ (cfg : Config) (Inv : World X509 → Type 0) (Post : Res X509 X509 → Type 0)
      (keep_tell : (n : ℕ) (w : World X509) → Inv w → Inv (tell cfg n w))
      (keep_user : (login : Bytes) (w : World X509)
        → Inv w
        → Inv (record w { pam_user = some login }))
      (at_fail : (n : ℕ) (w : World X509) → Inv w → Post (auth_failed_nopw env cfg (tell cfg n w)))
      (at_choice : (x509 : X509) (w : World X509) → Inv w → Post (go x509, w)) where
    use_login_rule :
        (x509 : X509) (found : Option Bytes) (w : World X509) (next : World X509 → Res X509 X509)
        → ((w1 : World X509) → Inv w1 → Post (next w1))
        → Inv w
        → Post (use_login env cfg x509 found w next)
    unfolding use_login
    use_login_rule x509 none w next k i = k w i
    use_login_rule x509 (some login) w next k i =
        elim (Bool-cases (is_success (env.set_user login))) [
          | inl e ↦ rw e (at_choice x509 _ (keep_user login w i))
          | inr e ↦ rw e (at_fail 2332 w i)
        ]

    use_match_rule :
        (x509 : X509) (rv : ℤ) (w : World X509) (next : World X509 → Res X509 X509)
        → ((w1 : World X509) → Inv w1 → Post (next w1))
        → Inv w
        → Post (use_match env cfg x509 rv w next)
    unfolding use_match
    use_match_rule x509 (negsuc n) w next k i = at_fail 2334 w i
    use_match_rule x509 (pos zero) w next k i = k w i
    use_match_rule x509 (pos (suc n)) w next k i = at_choice x509 w i

    try_cert_rule :
        (user : Option Bytes) (x509 : X509) (w : World X509) (next : World X509 → Res X509 X509)
        → ((w1 : World X509) → Inv w1 → Post (next w1))
        → Inv w
        → Post (try_cert env cfg user x509 w next)
    unfolding try_cert
    try_cert_rule user x509 w next k i = elim (Bool-cases (is_neg (env.verify_certificate x509))) [
      | inl e ↦ rw e (k _ (keep_tell _ w i))
      | inr e ↦ elim (Bool-cases (is_one (env.verify_certificate x509))) [
        | inr e' ↦ rw (e, e') (k w i)
        | inl e' ↦ elim (Bool-cases (is_spaced_str user)) [
          | inl e'' ↦
              rw (e, e', e'')
                (use_login_rule x509 _ _ next k
                  (rw (set_mgr w _ (find_user_iff w.mgr x509 []).1) i))
          | inr e'' ↦
              rw (e, e', e'')
                (use_match_rule x509 _ _ next k
                  (rw (set_mgr w _ (match_user_mgr w.mgr x509 user)) i))
        ]
      ]
    ]

    pub choose_cert_rule :
        (user : Option Bytes) (certs : List (Option X509)) (w : World X509)
        → Inv w
        → Post (choose_cert env cfg user certs w)
    unfolding choose_cert
    choose_cert_rule user [] w i = at_fail 2336 w i
    choose_cert_rule user (none ∷ certs) w i = choose_cert_rule user certs w i
    choose_cert_rule user (some x509 ∷ certs) w i =
        try_cert_rule user x509 w (choose_cert env cfg user certs)
          (λ w1 j. choose_cert_rule user certs w1 j) i
