-- ===== src/Tools/Tokens/Cleanup.antt =====
-- What the tools that read a token leave behind: tools/pklogin_finder.c, tools/pkcs11_inspect.c and
-- tools/pkcs11_listcerts.c.
use pam_pkcs.Base.{
  ℕ, ◌≡◌, ◌⊎◌, inl, inr, refl, true, false, ◌∷◌, [], List, Option, none, some, arith, Bytes,
  Bool-cases, Option-cases,
}
use pam_pkcs.Pam.World.{Config}
use pam_pkcs.Tools.Tokens.{
  Reader, Line, Desk, go, exit, crash, Run, ◌>>=◌, print, release, unload, load, token_slot,
  session_at, open_with, open_reader, read_certs, end_with, print_login, find_login, login_code,
  pklogin_finder, inspect_one, inspect_all, inspect_login, pkcs11_inspect,
}
use pam_pkcs.Tools.Tokens.Phases.{opened, try_login-neg, try_login-one, try_login-skip}
use pam_pkcs.Base.Int.{is_neg, is_one}
use pam_pkcs.MapperMgr.{find_user, inspect_certificate}

-- A part that goes on leaves the module loaded. Where the program ends, it is released, but with the
-- code of a login that failed, if there is one.
abbrev pub Leaves : {X509 A : Type 0} → Option ℕ → Run X509 A → Type 0
Leaves failed (go a, w) = w.module_loaded ≡ true
Leaves failed (exit c, w) = (w.module_loaded ≡ false) ⊎ (failed ≡ some c)
Leaves failed (crash, w) = ⊥

-- The program ends with a code, and the module is released, but with the code of a login that failed.
abbrev pub Ends : {X509 A : Type 0} → Option ℕ → Run X509 A → Type 0
Ends failed (go a, w) = ⊥
Ends failed (exit c, w) = (w.module_loaded ≡ false) ⊎ (failed ≡ some c)
Ends failed (crash, w) = ⊥

module _ {X509 A B : Type 0} where
  Ends->>= :
      (failed : Option ℕ) (m : Run X509 A) (f : A → Desk X509 → Run X509 B)
      → Leaves failed m
      → ((a : A) (w : Desk X509) → Ends failed (f a w))
      → Ends failed (m >>= f)
  Ends->>= failed (go a, w) f h k = k a w
  Ends->>= failed (exit c, w) f h k = h
  Ends->>= failed (crash, w) f h k = h

  Leaves->>= :
      (failed : Option ℕ) (m : Run X509 A) (f : A → Desk X509 → Run X509 B)
      → Leaves failed m
      → ((a : A) (w : Desk X509) → w.module_loaded ≡ true → Leaves failed (f a w))
      → Leaves failed (m >>= f)
  Leaves->>= failed (go a, w) f h k = k a w h
  Leaves->>= failed (exit c, w) f h k = h
  Leaves->>= failed (crash, w) f h k = h

module _ {X509 Block : Type 0} (r : Reader X509 Block) (failed : Option ℕ) where
  session_at-Leaves :
      (cfg : Config) (slot : Option ℕ) (w : Desk X509)
      → w.module_loaded ≡ true
      → Leaves failed (session_at r cfg slot w)
  unfolding session_at release
  session_at-Leaves cfg none w h = inl refl
  session_at-Leaves cfg (some i) w h = ground arith

  open_with-Leaves :
      (cfg : Config) (w : Desk X509) → w.module_loaded ≡ false → Leaves failed (open_with r cfg w)
  unfolding open_with release
  open_with-Leaves cfg w h =
      ground
        (arith, session_at-Leaves cfg (token_slot r cfg) (record w { module_loaded = true }) refl)

  open_reader-Leaves : (w : Desk X509) → w.module_loaded ≡ false → Leaves failed (open_reader r w)
  unfolding open_reader
  open_reader-Leaves w h = elim (Option-cases r.env.configuration) [
    | inl e ↦ rw e (inl h)
    | inr (cfg, e) ↦ rw e (open_with-Leaves cfg w h)
  ]

  read_certs-Leaves : (w : Desk X509) → w.module_loaded ≡ true → Leaves failed (read_certs r w)
  unfolding read_certs release
  read_certs-Leaves w h = elim (Option-cases r.certificate_list) [
    | inl e ↦ rw e (inl refl)
    | inr (certs, e) ↦ rw e h
  ]

  end_with-Ends : (code failure : ℕ) (w : Desk X509) → Ends failed (end_with r code failure w)
  unfolding end_with release
  end_with-Ends code failure w = ground arith

  print_login-Leaves :
      (o : Option Bytes) (w : Desk X509) (next : Desk X509 → Run X509 (Option Bytes))
      → w.module_loaded ≡ true
      → ((w1 : Desk X509) → w1.module_loaded ≡ true → Leaves failed (next w1))
      → Leaves failed (print_login r o w next)
  unfolding print_login print
  print_login-Leaves none w next h k = k w h
  print_login-Leaves (some login) w next h k = h

  find_login-Leaves :
      (certs : List (Option X509)) (w : Desk X509)
      → w.module_loaded ≡ true
      → Leaves failed (find_login r certs w)
  unfolding find_login release unload
  find_login-Leaves [] w h = h
  find_login-Leaves (none ∷ certs) w h = find_login-Leaves certs w h
  find_login-Leaves (some x509 ∷ certs) w h =
      elim (Bool-cases (is_neg (r.env.verify_certificate x509))) [
        | inl n ↦ rw (try_login-neg r x509 w (find_login r certs) n) (inl refl)
        | inr n ↦ elim (Bool-cases (is_one (r.env.verify_certificate x509))) [
          | inl o ↦ rw (try_login-one r x509 w (find_login r certs) n o) (
              print_login-Leaves (find_user w.mgr (some x509)).0
                (record w { mgr = (find_user w.mgr (some x509)).1 }) (find_login r certs) h
                (find_login-Leaves certs))
          | inr o ↦
              rw (try_login-skip r x509 w (find_login r certs) n o) (find_login-Leaves certs w h)
        ]
      ]

  inspect_one-Leaves :
      (x509 : X509) (w : Desk X509) (next : Desk X509 → Run X509 (Unit {0}))
      → w.module_loaded ≡ true
      → ((w1 : Desk X509) → w1.module_loaded ≡ true → Leaves failed (next w1))
      → Leaves failed (inspect_one r x509 w next)
  unfolding inspect_one print release unload
  inspect_one-Leaves x509 w next h k =
      let p = k (print (Line.contents (inspect_certificate w.mgr (some x509))) w) h in
      ground (arith, k w h)

  inspect_all-Leaves :
      (certs : List (Option X509)) (w : Desk X509)
      → w.module_loaded ≡ true
      → Leaves failed (inspect_all r certs w)
  unfolding inspect_all
  inspect_all-Leaves [] w h = h
  inspect_all-Leaves (none ∷ certs) w h = inspect_all-Leaves certs w h
  inspect_all-Leaves (some x509 ∷ certs) w h =
      inspect_one-Leaves x509 w (inspect_all r certs) h (inspect_all-Leaves certs)

module _ {X509 Block : Type 0} (r : Reader X509 Block) where
  pklogin_finder-Ends : (w : Desk X509) → w.module_loaded ≡ false → Ends none (pklogin_finder r w)
  unfolding pklogin_finder load
  pklogin_finder-Ends w h =
      let loop = λ (certs : List (Option X509)) (w2 : Desk X509). find_login r certs (load r w2) in
      Ends->>= none (opened r w >>= loop)
        (λ login w3. end_with r (login_code r login) 1 (unload w3))
        (Leaves->>= none (opened r w) loop
          (Leaves->>= none (open_reader r w) (λ cfg w1. read_certs r w1)
            (open_reader-Leaves r none w h) (λ cfg w1. read_certs-Leaves r none w1))
          (λ certs w2. find_login-Leaves r none certs (load r w2)))
        (λ login w3. end_with-Ends r none (login_code r login) 1 (unload w3))

  inspect_login-Leaves :
      (w : Desk X509) → w.module_loaded ≡ true → Leaves (some 2) (inspect_login r w)
  unfolding inspect_login
  inspect_login-Leaves w h = ground arith

  -- Up to the list of the certificates.
  abbrev logged_in : Desk X509 → Run X509 (List (Option X509))
  logged_in w = open_reader r w >>= (λ cfg w1. inspect_login r w1) >>= (λ u w2. read_certs r w2)

  logged_in-Leaves : (w : Desk X509) → w.module_loaded ≡ false → Leaves (some 2) (logged_in w)
  logged_in-Leaves w h =
      Leaves->>= (some 2) (open_reader r w >>= (λ cfg w1. inspect_login r w1))
        (λ u w2. read_certs r w2)
        (Leaves->>= (some 2) (open_reader r w) (λ cfg w1. inspect_login r w1)
          (open_reader-Leaves r (some 2) w h) (λ cfg w1. inspect_login-Leaves w1))
        (λ u w2. read_certs-Leaves r (some 2) w2)

  pkcs11_inspect-Ends :
      (w : Desk X509) → w.module_loaded ≡ false → Ends (some 2) (pkcs11_inspect r w)
  unfolding pkcs11_inspect load
  pkcs11_inspect-Ends w h =
      let loop = λ (certs : List (Option X509)) (w3 : Desk X509). inspect_all r certs (load r w3) in
      Ends->>= (some 2) (logged_in w >>= loop) (λ u w4. end_with r 0 1 (unload w4))
        (Leaves->>= (some 2) (logged_in w) loop (logged_in-Leaves w h)
          (λ certs w3. inspect_all-Leaves r (some 2) certs (load r w3)))
        (λ u w4. end_with-Ends r (some 2) 0 1 (unload w4))

  -- Where the PKCS #11 module is not loaded at the start, pklogin_finder and pkcs11_inspect end with
  -- a code and read no null pointer, and the module is released at the end, but where pkcs11_inspect
  -- ends with 2, the code of a login that failed.
  pub pklogin_finder_cleanup :
      (w : Desk X509)
      → w.module_loaded ≡ false
      → Ends none (pklogin_finder r w) × Ends (some 2) (pkcs11_inspect r w)
  pklogin_finder_cleanup w h = (pklogin_finder-Ends w h, pkcs11_inspect-Ends w h)
