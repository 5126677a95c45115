-- ===== src/Pam/Sound.antt =====
-- When `pam_sm_authenticate` of pam_pkcs11/pam_pkcs11.c returns PAM_SUCCESS.
use pam_pkcs.Base.{
  ℕ, ◌≡◌, ◌⊎◌, inl, inr, refl, ◌∙◌, true, false, ◌||◌, List, Option, some, arith, Bytes, Bool-cases,
  Option-cases, is_some,
}
use pam_pkcs.Base.Int.{ℤ, is_zero, is_neg}
use pam_pkcs.MapperMgr.{Mgr, load_mappers}
use pam_pkcs.Pkcs11.Slots.{Slot}
use pam_pkcs.Pam.World.{PamCode, success, Config, Env, World, Outcome, go, stop, blocked, Res, tell}
use pam_pkcs.Pam.Pin.{auth_failed_nopw, card_login}
use pam_pkcs.Pam.Token.{
  slot_is_configured, is_remote, configure, get_login, open_module, find_slot, wait_slot,
  find_any_slot, find_token, open_session,
}
use pam_pkcs.Pam.Certs.{choose_cert, find_cert, check_signature, finish}
use pam_pkcs.Pam.Pin.Login.{TakesPin, card_login_go}
use pam_pkcs.Pam.Certs.Choice.{Listed, IsOwn, choose_cert_sound}
use pam_pkcs.Pam.Authenticate.{authenticate, pam_sm_authenticate}
use pam_pkcs.Pam.Codes.{>>=-go_rule, authenticate-fails}

module _ {X509 Block : Type 0} (env : Env X509 Block) where
  abbrev pub IsConfigured : Config → Type 0
  IsConfigured cfg =
      (env.configuration ≡ some cfg)
      × (slot_is_configured cfg ≡ true)
      × (is_remote env.display ≡ false)
      × (is_zero env.crypto_init ≡ true)

  -- The user name is the one that PAM has, or that it asks for.
  abbrev pub IsUser : Option Bytes → Type 0
  IsUser user = (user ≡ env.user_item.1) ⊎ (user ≡ env.get_user.1)

  -- The slot in which the configured token is, at once or, if a card is a must, after a wait; or
  -- the slot with any token at the last look.
  abbrev pub IsTokenSlot : Config → ℕ → Type 0
  IsTokenSlot cfg i =
      (find_slot cfg env.slots env.login_token_name ≡ some i)
      ⊎ ((cfg.card_only ≡ true)
          × (((slots : List Slot) × (wait_slot env cfg ≡ some (i, slots)))
              ⊎ (find_any_slot cfg env.slots ≡ some i)))

  -- The card has signed a random value with the key of the certificate.
  abbrev pub HasSigned : X509 → Type 0
  HasSigned x509 =
      (random : Bytes) × (signature : Bytes) × (env.random_value ≡ some random)
      × (env.sign_value x509 random ≡ some signature)
      × (is_zero (env.verify_signature x509 random signature) ≡ true)

  configure_go :
      (w : World X509) {cfg : Config} {w' : World X509}
      → configure env w ≡ (go cfg, w')
      → IsConfigured cfg × (w'.mgr ≡ w.mgr)
  unfolding configure
  configure_go w h = ground arith

  get_login_go :
      (cfg : Config) (w : World X509) {user : Option Bytes} {w' : World X509}
      → get_login env cfg w ≡ (go user, w')
      → IsUser user × (w'.mgr ≡ w.mgr)
  unfolding get_login
  get_login_go cfg w h = ground arith

  open_module_go :
      (cfg : Config) (w : World X509) {u : Unit {0}} {w' : World X509}
      → open_module env cfg w ≡ (go u, w')
      → (is_zero env.load_module ≡ true) × (is_zero env.init_module ≡ true) × (w'.mgr ≡ w.mgr)
  unfolding open_module
  open_module_go cfg w h = ground arith

  open_session_go :
      (cfg : Config) (i : ℕ) (w : World X509) {u : Unit {0}} {w' : World X509}
      → open_session env cfg i w ≡ (go u, w')
      → (is_zero (env.open_session i) ≡ true) × (w'.mgr ≡ w.mgr)
  unfolding open_session
  open_session_go cfg i w h = ground arith

  finish_go :
      (cfg : Config) (w : World X509) {c : PamCode} {w' : World X509}
      → finish env cfg w ≡ (go c, w')
      → (is_zero env.close_session ≡ true)
  unfolding finish
  finish_go cfg w h = ground arith

  check_signature_go :
      (cfg : Config) (x : X509) (w : World X509) {u : Unit {0}} {w' : World X509}
      → check_signature env cfg x w ≡ (go u, w')
      → (cfg.policy.signature_policy ≡ true → HasSigned x)
  unfolding check_signature auth_failed_nopw
  check_signature_go cfg x w h s = elim (Option-cases env.random_value) [
    | inl e ↦ absurd (ground arith)
    | inr (random, e) ↦ elim (Option-cases (env.sign_value x random)) [
      | inl e' ↦ absurd (ground arith)
      | inr (signature, e') ↦ (random, signature, e, e', ground arith)
    ]
  ]

  find_token_go :
      (cfg : Config) (user : Option Bytes) (w : World X509) {t : ℕ × Option Bytes} {w' : World X509}
      → IsUser user
      → find_token env cfg user w ≡ (go t, w')
      → IsTokenSlot cfg t.0 × IsUser t.1 × (w'.mgr ≡ w.mgr)
  unfolding find_token tell
  find_token_go cfg user w i h =
      elim (Option-cases (find_slot cfg env.slots env.login_token_name)) [
        | inr (s, e) ↦ (inl (ground arith), ground arith, ground arith)
        | inl e ↦ elim (Bool-cases cfg.card_only) [
          | inr e' ↦ absurd (ground arith)
          | inl e' ↦ elim (Option-cases (wait_slot env cfg)) [
            | inr ((s, slots), e'') ↦
                elim (Bool-cases (is_some env.login_token_name || cfg.wait_for_card)) [
                  | inl e3 ↦ (inr (e', inl (slots, ground arith)), ground arith, ground arith)
                  | inr e3 ↦ (inr (e', inr (ground arith)), ground arith, ground arith)
                ]
            | inl e'' ↦ (inr (e', inr (ground arith)), ground arith, ground arith)
          ]
        ]
      ]

  -- What holds where the login has succeeded for a user with a certificate of the token.
  pub record Authentic (mgr : Mgr X509) : Type 0 where
    pub cfg : Config
    pub slot : ℕ
    pub user : Option Bytes
    pub x509 : X509
    pub configured : IsConfigured cfg
    pub is_user : IsUser user
    pub loads : is_zero env.load_module ≡ true
    pub inits : is_zero env.init_module ≡ true
    pub token : IsTokenSlot cfg slot
    pub opens : is_zero (env.open_session slot) ≡ true
    pub takes_pin : TakesPin env cfg
    pub listed : Listed env x509 env.certs
    pub own : IsOwn env (load_mappers env.mappers mgr).root_mapper_list user x509
    pub signed : cfg.policy.signature_policy ≡ true → HasSigned x509
    pub closes : is_zero env.close_session ≡ true

  find_cert_chain :
      (cfg : Config) (user : Option Bytes) (rv : ℤ) (w : World X509) {r : Res X509 X509}
      → is_neg rv ≡ false
      → find_cert env cfg user rv w ≡ r
      → choose_cert env cfg user env.certs (record w { mgr = load_mappers env.mappers w.mgr }) ≡ r
  unfolding find_cert
  find_cert_chain cfg user rv w e h = rw e at h

  find_cert_go :
      (cfg : Config) (user : Option Bytes) (rv : ℤ) (w : World X509) {x509 : X509} {w' : World X509}
      → find_cert env cfg user rv w ≡ (go x509, w')
      → Listed env x509 env.certs
        × IsOwn env (load_mappers env.mappers w.mgr).root_mapper_list user x509
  find_cert_go cfg user rv w h = elim (Bool-cases (is_neg rv)) [
    | inl e ↦ absurd (unfold find_cert auth_failed_nopw in ground arith)
    | inr e ↦ choose_cert_sound env cfg user env.certs _ (find_cert_chain cfg user rv w e h)
  ]

  authenticate_go :
      (w : World X509) {c : PamCode} {w' : World X509}
      → authenticate env w ≡ (go c, w')
      → Authentic w.mgr
  unfolding authenticate
  authenticate_go w h = >>=-go_rule (configure env w) _ h λ cfg w1 e1 h1.
      >>=-go_rule (get_login env cfg w1) _ h1 λ user w2 e2 h2.
        >>=-go_rule (open_module env cfg w2) _ h2 λ u w3 e3 h3.
          >>=-go_rule (find_token env cfg user w3) _ h3 λ token w4 e4 h4.
            >>=-go_rule (open_session env cfg token.0 w4) _ h4 λ u' w5 e5 h5.
              >>=-go_rule (card_login env cfg w5) _ h5 λ rv w6 e6 h6.
                >>=-go_rule (find_cert env cfg token.1 rv w6) _ h6 λ x509 w7 e7 h7.
                  >>=-go_rule (check_signature env cfg x509 w7) _ h7 λ u'' w8 e8 h8.
                    let (configured, m1) = configure_go w e1 in
                    let (is_user, m2) = get_login_go cfg w1 e2 in
                    let (loads, inits, m3) = open_module_go cfg w2 e3 in
                    let (token_slot, is_user', m4) = find_token_go cfg user w3 is_user e4 in
                    let (opens, m5) = open_session_go cfg token.0 w4 e5 in
                    let (takes_pin, m6) = card_login_go env cfg w5 e6 in
                    let (listed, own) = find_cert_go cfg token.1 rv w6 e7 in
                    let m : w6.mgr ≡ w.mgr = m6 ∙ m5 ∙ m4 ∙ m3 ∙ m2 ∙ m1 in
                    record {
                      cfg = cfg;
                      slot = token.0;
                      user = token.1;
                      x509 = x509;
                      configured = configured;
                      is_user = is_user';
                      loads = loads;
                      inits = inits;
                      token = token_slot;
                      opens = opens;
                      takes_pin = takes_pin;
                      listed = listed;
                      own = rw m at own;
                      signed = check_signature_go cfg x509 w7 e8;
                      closes = finish_go cfg _ h8;
                    }

  -- PAM_SUCCESS is returned only if the module is configured, the login is local, a token is in the
  -- slot, takes the PIN if it wants one, and holds a certificate that is verified, belongs by the
  -- mapper modules to the user that PAM has or is given, and has signed a random value if the
  -- policy asks for it.
  pub pam_sm_authenticate_sound :
      (w : World X509) → (pam_sm_authenticate env w).0 ≡ some success → Authentic w.mgr
  unfolding pam_sm_authenticate
  pam_sm_authenticate_sound w h = by_result (authenticate env w).0 (authenticate env w).1 refl
    where
      by_result :
          (o : Outcome PamCode) (w' : World X509) → authenticate env w ≡ (o, w') → Authentic w.mgr
      by_result (go c) w' e = authenticate_go w e
      by_result (stop c) w' e = absurd (ground (arith, authenticate-fails env w))
      by_result blocked w' e = absurd (ground arith)
