-- ===== src/Pam/Pin/Login.antt =====
-- pam_pkcs11/pam_pkcs11.c: when the login to the token succeeds.
use pam_pkcs.Base.{
  ◌∷◌, ◌≡◌, ◌≢◌, ◌⊎◌, inl, inr, refl, Bool, true, false, ◌||◌, not, [], Option, none, some, arith,
  Bytes, Bool-cases, if◌then◌else◌,
}
use pam_pkcs.Base.Int.{ℤ, is_zero}
use pam_pkcs.Pam.World.{PamCode, cred_insufficient, is_success, Config, Env, World, go, Res}
use pam_pkcs.Pam.Pin.{
  is_minus_one, ask_new, ask_user, after_stored, pam_get_pwd, get_password, token_login,
  check_password, with_password, card_login,
}

module _ {X509 Block : Type 0} (env : Env X509 Block) where
  -- The token asks for no login; or it takes the PIN of its pin pad; or it takes the password that
  -- `pam_get_pwd` gives, which is not empty unless `nullok` is set.
  abbrev pub TakesPin : Config → Type 0
  TakesPin cfg =
      (is_zero env.login_required ≡ true)
      ⊎ (((is_minus_one env.protected_path || is_zero env.protected_path) ≡ false)
          × (is_zero (env.login none) ≡ true))
      ⊎ ((p : Bytes) × (is_success (get_password env cfg).0 ≡ true)
          × ((get_password env cfg).1 ≡ some p)
          × (is_zero (env.login (some p)) ≡ true)
          × ((cfg.nullok ≡ true) ⊎ (p ≢ [])))

  token_login_go :
      (cfg : Config) (p : Option Bytes) (w : World X509) {rv : ℤ} {w' : World X509}
      → token_login env cfg p w ≡ (go rv, w')
      → (is_zero (env.login p) ≡ true) × (w'.mgr ≡ w.mgr)
  unfolding token_login
  token_login_go cfg p w h = ground arith

  -- A password comes with every success.
  abbrev Returns : PamCode × Option Bytes → Type 0
  Returns r = is_success r.0 ≡ true → (p : Bytes) × (r.1 ≡ some p)

  guard-Returns :
      (c : PamCode) (r : PamCode × Option Bytes)
      → Returns r
      → Returns (if not (is_success c) then (c, none) else r)
  guard-Returns c r k = elim (Bool-cases (is_success c)) [
    | inl e ↦ rw e k
    | inr e ↦ rw e (λ h. absurd (cc))
  ]

  if-Returns :
      (b : Bool) (r s : PamCode × Option Bytes)
      → Returns r
      → Returns s
      → Returns (if b then r else s)
  if-Returns true r s k l = k
  if-Returns false r s k l = l

  ask_new-Returns : (store : Bool) (o : Option Bytes) → Returns (ask_new env store o)
  unfolding ask_new
  ask_new-Returns store none h = absurd (cc)
  ask_new-Returns store (some p) h = (p, ground arith)

  no_password : Returns (cred_insufficient, none)
  no_password h = absurd (cc)

  ask_user-Returns : (store : Bool) → Returns (ask_user env store)
  unfolding ask_user
  ask_user-Returns store = guard-Returns env.conv_item.0 _ (
      if-Returns (not env.conv_item.1) (cred_insufficient, none) _ no_password
        (guard-Returns env.conv_answer.0 _ (ask_new-Returns store env.conv_answer.1)))

  after_stored-Returns :
      (text store : Bool) (o : Option Bytes) → Returns (after_stored env text store o)
  unfolding after_stored
  after_stored-Returns text store (some p) = λ h. (p, refl)
  after_stored-Returns text store none =
      if-Returns text (ask_user env store) (cred_insufficient, none) (ask_user-Returns store)
        no_password

  pam_get_pwd-Returns : (text old store : Bool) → Returns (pam_get_pwd env text old store)
  unfolding pam_get_pwd
  pam_get_pwd-Returns text true store =
      guard-Returns env.authtok.0 _ (after_stored-Returns text store env.authtok.1)
  pam_get_pwd-Returns text false store = after_stored-Returns text store none

  get_password-Returns : (cfg : Config) → Returns (get_password env cfg)
  unfolding get_password
  get_password-Returns cfg =
      if-Returns cfg.use_first_pass _ _ (pam_get_pwd-Returns false true false) (
        if-Returns cfg.try_first_pass _ _ (pam_get_pwd-Returns true true true)
          (pam_get_pwd-Returns true false true))

  -- What `card_login` has done to go on with a password.
  abbrev Entered : Config → Bytes → Type 0
  Entered cfg p = (is_zero (env.login (some p)) ≡ true) × ((cfg.nullok ≡ true) ⊎ (p ≢ []))

  check_password_go :
      (cfg : Config) (p : Bytes) (w : World X509) {rv : ℤ} {w' : World X509}
      → check_password env cfg (some p) w ≡ (go rv, w')
      → Entered cfg p × (w'.mgr ≡ w.mgr)
  unfolding check_password
  check_password_go cfg [] w h = ((ground arith, inl (ground arith)), ground arith)
  check_password_go cfg (c ∷ p) w h = ((ground arith, inr (cc)), ground arith)

  with_password_go :
      (cfg : Config) (r : PamCode × Option Bytes) (p : Bytes) (w : World X509) {rv : ℤ}
      {w' : World X509}
      → r.1 ≡ some p
      → with_password env cfg r w ≡ (go rv, w')
      → (is_success r.0 ≡ true) × Entered cfg p × (w'.mgr ≡ w.mgr)
  with_password_go cfg (rv, o) p w {rv = rv'} {w'} e h = elim (Bool-cases (is_success rv)) [
    | inr e' ↦ absurd (unfold with_password in ground arith)
    | inl e' ↦
        let h' : check_password env cfg (some p) (record w { pin = some p }) ≡ (go rv', w') =
          unfold with_password in ground arith in
        let (t, m) = check_password_go cfg p (record w { pin = some p }) h' in (e', t, m)
  ]

  pad_login :
      (cfg : Config) (w : World X509) {r : Res X509 ℤ}
      → card_login env cfg w ≡ r
      → is_minus_one env.login_required ≡ false
      → is_zero env.login_required ≡ false
      → (is_minus_one env.protected_path || is_zero env.protected_path) ≡ false
      → token_login env cfg none w ≡ r
  unfolding card_login
  pad_login cfg w h known needed pad = rw (known, needed, pad) at h

  typed_login :
      (cfg : Config) (w : World X509) {r : Res X509 ℤ}
      → card_login env cfg w ≡ r
      → is_minus_one env.login_required ≡ false
      → is_zero env.login_required ≡ false
      → (is_minus_one env.protected_path || is_zero env.protected_path) ≡ true
      → with_password env cfg (get_password env cfg) w ≡ r
  unfolding card_login
  typed_login cfg w h known needed typed = rw (known, needed, typed) at h

  with_password_refused :
      (cfg : Config) (r : PamCode × Option Bytes) (w : World X509) {rv : ℤ} {w' : World X509}
      → is_success r.0 ≡ false
      → ¬ (with_password env cfg r w ≡ (go rv, w'))
  with_password_refused cfg (c, o) w e h = (unfold with_password in ground arith)

  typed_go :
      (cfg : Config) (w : World X509) {rv : ℤ} {w' : World X509}
      → with_password env cfg (get_password env cfg) w ≡ (go rv, w')
      → TakesPin cfg × (w'.mgr ≡ w.mgr)
  typed_go cfg w h = elim (Bool-cases (is_success (get_password env cfg).0)) [
    | inr e ↦ absurd (with_password_refused cfg (get_password env cfg) w e h)
    | inl e ↦
        let (p, some_p) = get_password-Returns cfg e in
        let (_, (taken, allowed), m) = with_password_go cfg (get_password env cfg) p w some_p h in
        (inr (inr (p, e, some_p, taken, allowed)), m)
  ]

  pub card_login_go :
      (cfg : Config) (w : World X509) {rv : ℤ} {w' : World X509}
      → card_login env cfg w ≡ (go rv, w')
      → TakesPin cfg × (w'.mgr ≡ w.mgr)
  card_login_go cfg w h = elim (Bool-cases (is_zero env.login_required)) [
    | inl none_needed ↦ (inl none_needed, unfold card_login in ground arith)
    | inr needed ↦ elim (Bool-cases (is_minus_one env.login_required)) [
      | inl failed ↦ absurd (unfold card_login in ground arith)
      | inr known ↦
          elim (Bool-cases (is_minus_one env.protected_path || is_zero env.protected_path)) [
            | inr pad ↦
                let (t, m) = token_login_go cfg none w (pad_login cfg w h known needed pad) in
                (inr (inl (pad, t)), m)
            | inl typed ↦ typed_go cfg w (typed_login cfg w h known needed typed)
          ]
    ]
  ]
