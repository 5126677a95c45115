-- ===== src/Pam/Pin/Erased.antt =====
-- The PIN in memory after the login to the token in pam_pkcs11/pam_pkcs11.c, and what the phases of
-- `pam_sm_authenticate` keep.
use pam_pkcs.Base.{
  ℕ, if◌then◌else◌, ◌≡◌, inl, inr, refl, Bool, true, false, ◌&&◌, ◌||◌, not, List, [], ◌∷◌, Option,
  none, some, arith, Bytes, Bool-cases, is_some, length, ◌==◌,
}
use pam_pkcs.Base.Int.{ℤ, is_zero}
use pam_pkcs.Pam.World.{
  PamCode, is_success, Config, Env, World, go, stop, blocked, Res, tell, release_module, pam_fail,
}
use pam_pkcs.Pam.Pin.{
  is_minus_one, get_password, auth_failed_nopw, token_login, check_password, with_password,
  card_login,
}

abbrev pub is_nil {ℓ} : {A : Type ℓ} → List A → Bool
is_nil [] = true
is_nil (x ∷ xs) = false

-- The module is loaded or not; no PIN is in memory; under `quiet` no error was shown.
abbrev pub holds : {X509 : Type 0} → Config → Bool → World X509 → Bool
holds cfg true w = w.module_loaded && not (is_some w.pin) && (not cfg.quiet || is_nil w.errors)
holds cfg false w = not w.module_loaded && not (is_some w.pin) && (not cfg.quiet || is_nil w.errors)

-- A phase that goes on leaves this; one that ends the function leaves the module released.
abbrev pub after : {X509 A : Type 0} → Config → Bool → Res X509 A → Bool
after cfg b (go a, w) = holds cfg b w
after cfg b (stop c, w) = holds cfg false w
after cfg b (blocked, w) = true

-- The module is loaded, and under `quiet` no error was shown.
abbrev is_calm : {X509 : Type 0} → Config → World X509 → Bool
is_calm cfg w = w.module_loaded && (not cfg.quiet || is_nil w.errors)

if-after :
    {X509 A : Type 0} (cfg : Config) (b : Bool) (m m' : Res X509 A)
    → (b ≡ true → after cfg true m ≡ true)
    → (b ≡ false → after cfg true m' ≡ true)
    → after cfg true (if b then m else m') ≡ true
if-after cfg true m m' f g = f refl
if-after cfg false m m' f g = g refl

stopped-after :
    {X509 : Type 0} (cfg : Config) (c : PamCode) (n : ℕ) (w : World X509)
    → holds cfg true w ≡ true
    → after {A = ℤ} cfg true (stop c, release_module (tell cfg n w)) ≡ true
unfolding tell release_module
stopped-after cfg c n w h = ground arith

module _ {X509 Block : Type 0} (env : Env X509 Block) (cfg : Config) where
  token_login-after :
      (password : Option Bytes) (w : World X509)
      → is_calm cfg w ≡ true
      → after cfg true (token_login env cfg password w) ≡ true
  unfolding token_login auth_failed_nopw tell release_module
  token_login-after password w h = ground arith

  check_password-after :
      (password : Option Bytes) (w : World X509)
      → is_calm cfg w ≡ true
      → after cfg true (check_password env cfg password w) ≡ true
  unfolding check_password tell release_module
  check_password-after none w h = token_login-after none w h
  check_password-after (some p) w h = elim (Bool-cases (not cfg.nullok && length p == 0)) [
    | inl e ↦ ground (arith, e, h)
    | inr e ↦ rw e (token_login-after (some p) w h)
  ]

  with_password-after :
      (code : PamCode) (password : Option Bytes) (w : World X509)
      → (is_success code ≡ false → password ≡ none)
      → is_calm cfg w ≡ true
      → after cfg true (with_password env cfg (code, password) w) ≡ true
  unfolding with_password tell release_module
  with_password-after code password w n h = elim (Bool-cases (is_success code)) [
    | inl e ↦ rw e (check_password-after password (record w { pin = password }) h)
    | inr e ↦ ground (arith, e, n e, h)
  ]

  holds-is_calm : (w : World X509) → holds cfg true w ≡ true → is_calm cfg w ≡ true
  holds-is_calm w h = ground arith

  module _ (stores : is_success env.set_authtok ≡ true) where
    get_password-erases :
        is_success (get_password env cfg).0 ≡ false → (get_password env cfg).1 ≡ none
    unfolding get_password
    get_password-erases h = ground arith

    pub card_login-after :
        (w : World X509) → holds cfg true w ≡ true → after cfg true (card_login env cfg w) ≡ true
    unfolding card_login
    card_login-after w h =
        let required = env.login_required in
        let path = env.protected_path in
        let asked = with_password env cfg (get_password env cfg) w in
        let pinpad = token_login env cfg none w in
        let login : Res X509 ℤ = if is_minus_one path || is_zero path then asked else pinpad in
        let checked : Res X509 ℤ = if is_zero required then (go required, w) else login in
        if-after cfg (is_minus_one required) (stop (pam_fail cfg), release_module (tell cfg 2314 w))
          checked (λ e. stopped-after cfg (pam_fail cfg) 2314 w h)
          (λ e.
            if-after cfg (is_zero required) (go required, w) login (λ z. h)
              (λ z.
                if-after cfg (is_minus_one path || is_zero path) asked pinpad
                  (λ p.
                    with_password-after (get_password env cfg).0 (get_password env cfg).1 w
                      get_password-erases (holds-is_calm w h))
                  (λ p. token_login-after none w (holds-is_calm w h))))
