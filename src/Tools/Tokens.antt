-- ===== src/Tools/Tokens.antt =====
-- tools/pklogin_finder.c, tools/pkcs11_inspect.c and tools/pkcs11_listcerts.c: the three programs
-- that read the certificates of a token. What the other parts of the program answer is the record
-- `Reader`, with the configuration, the PKCS #11 calls and the mappers of `Pam.World.Env`.
pub mod Cleanup
pub mod Listcerts
pub mod Login
pub mod Phases
use pam_pkcs.Base.{
  ℕ, Bool, true, false, not, List, [], ◌∷◌, ◌++◌, Option, none, some, Bytes, if◌then◌else◌,
}
use pam_pkcs.Base.Int.{ℤ, is_zero, is_neg, is_one}
use pam_pkcs.MapperMgr.{Mgr, load_mappers, unload_mappers, find_user, inspect_certificate}
use pam_pkcs.Pkcs11.Slots.{find_slot_by_slotlabel, find_slot_by_number, to_unsigned}
use pam_pkcs.Pam.World.{Config, Env}
use pam_pkcs.Pam.Token.{slot_is_configured}

-- `get_certificate_list` may give a null pointer. `subject` and `key_alg` are `cert_info` with
-- CERT_SUBJECT and CERT_KEY_ALG.
pub record Reader (X509 Block : Type 0) : Type 0 where
  pub env : Env X509 Block
  pub pass_login : ℤ
  pub certificate_list : Option (List (Option X509))
  pub subject : X509 → Option (List Bytes)
  pub key_alg : X509 → Option (List Bytes)
  pub get_private_key : X509 → ℤ

-- What is printed on the standard output. A text may be a null pointer.
pub data Line : Type 0 where
  user : Bytes → Line
  contents : List (Bytes × List Bytes) → Line
  found : ℕ → Line
  certificate : Option Bytes → Option Bytes → Option Bytes → Line
  process_error verify_failed no_private_key : Line

-- The handle of the PKCS #11 module, its session, the mapper modules, and the output.
pub record Desk (X509 : Type 0) : Type 0 where
  pub module_loaded : Bool
  pub session_open : Bool
  pub mgr : Mgr X509
  pub output : List Line

-- A part of `main` goes on with a value, ends it with a code, or reads a null pointer.
pub data Step {ℓ} (A : Type ℓ) : Type ℓ where
  go : A → Step A
  exit : ℕ → Step A
  crash : Step A

abbrev pub Run : Type 0 → Type 0 → Type 0
Run X509 A = Step A × Desk X509

module _ {X509 : Type 0} where
  infixl 5 ◌>>=◌
  abbrev pub ◌>>=◌ : {A B : Type 0} → Run X509 A → (A → Desk X509 → Run X509 B) → Run X509 B
  (go a, w) >>= f = f a w
  (exit c, w) >>= f = (exit c, w)
  (crash, w) >>= f = (crash, w)

  unfoldable pub print : Line → Desk X509 → Desk X509
  print l w = record w { output = w.output ++ l ∷ [] }

  unfoldable pub release : Desk X509 → Desk X509
  release w = record w { module_loaded = false }

  unfoldable pub unload : Desk X509 → Desk X509
  unload w = record w { mgr = unload_mappers w.mgr }

module _ {X509 Block : Type 0} (r : Reader X509 Block) where
  unfoldable pub close : Desk X509 → Desk X509
  close w = if is_zero r.env.close_session then record w { session_open = false } else w

  token_slot : Config → Option ℕ
  token_slot cfg = elim cfg.slot_description [
    | some d ↦ find_slot_by_slotlabel r.env.slots d
    | none ↦ find_slot_by_number r.env.slots (to_unsigned cfg.slot_num)
  ]

  session_at : Config → Option ℕ → Desk X509 → Run X509 Config
  session_at cfg none w = (exit 1, release w)
  session_at cfg (some slot) w =
      if is_zero (r.env.open_session slot)
      then (go cfg, record w { session_open = true })
      else (exit 1, release w)

  open_with : Config → Desk X509 → Run X509 Config
  unfolding token_slot session_at
  open_with cfg w =
      if not (slot_is_configured cfg)
      then (exit 1, w)
      else if not (is_zero r.env.crypto_init)
      then (exit 1, w)
      else if not (is_zero r.env.load_module)
      then (exit 1, w)
      else if not (is_zero r.env.init_module)
      then (exit 1, release (record w { module_loaded = true }))
      else session_at cfg (token_slot cfg) (record w { module_loaded = true })

  -- From the start of `main` to the open session.
  unfoldable pub open_reader : Desk X509 → Run X509 Config
  unfolding open_with
  open_reader w = elim r.env.configuration [ none ↦ (exit 1, w) | some cfg ↦ open_with cfg w ]

  -- The certificates of the token.
  unfoldable pub read_certs : Desk X509 → Run X509 (List (Option X509))
  read_certs w = elim r.certificate_list [
    | none ↦ (exit 3, release (close w))
    | some certs ↦ (go certs, w)
  ]

  -- The end of `main`: the session is closed and the module released.
  unfoldable pub end_with : ℕ → ℕ → Desk X509 → Run X509 (Unit {0})
  end_with code failure w =
      if is_zero r.env.close_session
      then (exit code, release (close w))
      else (exit failure, release w)

  unfoldable pub load : Desk X509 → Desk X509
  load w = record w { mgr = load_mappers r.env.mappers w.mgr }

  -- pklogin_finder: the answer of `find_user`; `next` is the rest of the loop.
  pub print_login :
      Option Bytes → Desk X509 → (Desk X509 → Run X509 (Option Bytes)) → Run X509 (Option Bytes)
  print_login none w next = next w
  print_login (some login) w next = (go (some login), print (Line.user login) w)

  pub try_login : X509 → Desk X509 → (Desk X509 → Run X509 (Option Bytes)) → Run X509 (Option Bytes)
  unfolding print_login
  try_login x509 w next =
      let rv = r.env.verify_certificate x509 in
      if is_neg rv
      then (exit 1, unload (release (close w)))
      else if not (is_one rv)
      then next w
      else (let (login, mgr) = find_user w.mgr (some x509) in
          print_login login (record w { mgr = mgr }) next)

  unfoldable pub find_login : List (Option X509) → Desk X509 → Run X509 (Option Bytes)
  unfolding try_login
  find_login [] w = (go none, w)
  find_login (none ∷ certs) w = find_login certs w
  find_login (some x509 ∷ certs) w = try_login x509 w (find_login certs)

  pub login_code : Option Bytes → ℕ
  login_code none = 1
  login_code (some login) = 0

  unfoldable pub pklogin_finder : Desk X509 → Run X509 (Unit {0})
  unfolding login_code
  pklogin_finder w =
      open_reader w
      >>= (λ cfg w1. read_certs w1)
      >>= (λ certs w2. find_login certs (load w2))
      >>= (λ login w3. end_with (login_code login) 1 (unload w3))

  -- pkcs11_inspect
  inspect_one : X509 → Desk X509 → (Desk X509 → Run X509 (Unit {0})) → Run X509 (Unit {0})
  inspect_one x509 w next =
      let rv = r.env.verify_certificate x509 in
      if is_neg rv
      then (exit 1, unload (release (close w)))
      else if not (is_one rv)
      then next w
      else next (print (Line.contents (inspect_certificate w.mgr (some x509))) w)

  unfoldable pub inspect_all : List (Option X509) → Desk X509 → Run X509 (Unit {0})
  unfolding inspect_one
  inspect_all [] w = (go tt, w)
  inspect_all (none ∷ certs) w = inspect_all certs w
  inspect_all (some x509 ∷ certs) w = inspect_one x509 w (inspect_all certs)

  unfoldable pub inspect_login : Desk X509 → Run X509 (Unit {0})
  inspect_login w = if is_zero r.pass_login then (go tt, w) else (exit 2, w)

  unfoldable pub pkcs11_inspect : Desk X509 → Run X509 (Unit {0})
  pkcs11_inspect w =
      open_reader w
      >>= (λ cfg w1. inspect_login w1)
      >>= (λ u w2. read_certs w2)
      >>= (λ certs w3. inspect_all certs (load w3))
      >>= (λ u w4. end_with 0 1 (unload w4))
