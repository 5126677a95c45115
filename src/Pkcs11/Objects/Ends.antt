-- ===== src/Pkcs11/Objects/Ends.antt =====
-- The loops of common/pkcs11_lib.c over the objects of a token and over the size of a signature end.
use pam_pkcs.Base.{
  ℕ, zero, suc, ◌+◌, ◌≤◌, ◌<◌, ◌≡◌, ◌⊎◌, refl, inl, inr, ap, ◌∙◌, arith, true, false, List, [], ◌∷◌,
  Option, none, some, Bytes, if◌then◌else◌, ◌==◌, ==_iff, leb, Bool-cases, Option-cases, is_some,
}
use pam_pkcs.Base.Int.{ℤ, pos, negsuc}
use pam_pkcs.Pkcs11.Cryptoki.{
  Call, certificates, find_objects, find_objects_init, sign_init, sign, Mechanism, is_ok,
  CertObject, Handle, Cryptoki, ask,
}
use pam_pkcs.Pkcs11.Objects.{
  read_object, read_value, add_object, list_objects, get_certificate_list, buffer_too_small,
  mechanism_of, text_of, get_private_key, sign_loop, sign_with, sign_by, sign_found, sign_value,
}

-- The calls of C_FindObjects.
abbrev pub searched : List (Call × ℕ) → ℕ
searched [] = 0
searched ((find_objects, rv) ∷ cs) = suc (searched cs)
searched (_ ∷ cs) = searched cs

module _ {X509 : Type 0} (env : Cryptoki X509) where
  -- After `n` calls of C_FindObjects the token has no more objects.
  abbrev pub RunsOut : ℕ → Type 0
  RunsOut n = (cs : List (Call × ℕ)) → n ≤ searched cs → (env.reply cs find_objects).object ≡ none

  read_object-searched :
      (object : ℕ) (h : Handle X509)
      → searched (read_object env object h).1.calls ≡ searched h.calls
  unfolding read_object read_value
  read_object-searched object h = ground arith

  add_object-is_some :
      (o : Option (CertObject X509)) (h : Handle X509)
      (next : Handle X509 → Option (Option (List (CertObject X509)) × Handle X509))
      → ((h1 : Handle X509) → h1.calls ≡ h.calls → is_some (next h1) ≡ true)
      → is_some (add_object env (o, h) next) ≡ true
  unfolding add_object
  add_object-is_some none h next k = refl
  add_object-is_some (some c) h next k = k _ refl

  list_objects-is_some :
      (n fuel : ℕ) (h : Handle X509)
      → RunsOut n
      → 0 < fuel
      → n < fuel + searched h.calls
      → is_some (list_objects env fuel h) ≡ true
  unfolding list_objects
  list_objects-is_some n zero h out p l = absurd (omega arith)
  list_objects-is_some n (suc fuel) h out p l =
      let (r, h1) = ask env find_objects h in
      elim (Bool-cases (is_ok r.rv)) [
        | inl e ↦ elim (Option-cases r.object) [
          | inl o ↦ rw (e, o) refl
          | inr (object, o) ↦
              rw (e, o)
                (add_object-is_some (read_object env object h1).0 (read_object env object h1).1
                  (list_objects env fuel)
                  (λ h2 same.
                    list_objects-is_some n fuel h2 out (more object o h2 same)
                      (still object h2 same)))
        ]
        | inr e ↦ rw e refl
      ]
    where
      h1 : Handle X509
      h1 = (ask env find_objects h).1

      kept :
          (object : ℕ) (h2 : Handle X509)
          → h2.calls ≡ (read_object env object h1).1.calls
          → searched h2.calls ≡ suc (searched h.calls)
      kept object h2 same = ap searched same ∙ read_object-searched object h1

      still :
          (object : ℕ) (h2 : Handle X509)
          → h2.calls ≡ (read_object env object h1).1.calls
          → n < fuel + searched h2.calls
      still object h2 same = omega (arith, kept object h2 same)

      more :
          (object : ℕ)
          → (env.reply h.calls find_objects).object ≡ some object
          → (h2 : Handle X509) → h2.calls ≡ (read_object env object h1).1.calls
          → 0 < fuel
      more object o h2 same = elim (Bool-cases (leb n (searched h.calls))) [
        | inl q ↦ ground (arith, q, out h.calls (ground (arith, q)), o)
        | inr q ↦ ground (arith, q, l)
      ]

  -- Once a token has no more objects after `n` calls of C_FindObjects, `get_certificate_list` ends: no
  -- more than `n` rounds of its loop read an object, whatever the calls answer.
  pub get_certificate_list_total :
      (n fuel : ℕ) (h : Handle X509)
      → RunsOut n
      → n < fuel
      → is_some (get_certificate_list env fuel h) ≡ true
  unfolding get_certificate_list
  get_certificate_list_total n fuel h out l = by_certs h.certs
    where
      h1 : Handle X509
      h1 = (ask env (find_objects_init certificates) h).1

      begin :
          let ok = is_ok (env.reply h.calls (find_objects_init certificates)).rv in
          (ok ≡ true) ⊎ (ok ≡ false)
          → is_some (if ok then list_objects env fuel h1 else some (none, h1)) ≡ true
      begin (inl e) =
          rw e (list_objects-is_some n fuel h1 out (omega (arith, l)) (omega (arith, l)))
      begin (inr e) = rw e refl

      by_certs :
          (c : Option (List (CertObject X509)))
          → is_some (elim c [
            | some certs ↦ some (some certs, h)
            | none ↦
                if is_ok (env.reply h.calls (find_objects_init certificates)).rv
                then list_objects env fuel h1
                else some (none, h1)
          ])
            ≡ true
      by_certs none =
          begin (Bool-cases (is_ok (env.reply h.calls (find_objects_init certificates)).rv))
      by_certs (some certs) = refl

  -- C_Sign asks for a larger buffer only where this one has not `needed` bytes, and then for enough.
  abbrev pub Needs : ℕ → Type 0
  Needs needed =
      (cs : List (Call × ℕ)) (text : Bytes) (size : ℕ)
      → (env.reply cs (sign text size)).rv ≡ buffer_too_small
      → size < needed × needed ≤ (env.reply cs (sign text size)).count

  sign_loop_enough :
      (needed fuel : ℕ) (text : Bytes) (size : ℕ) (h : Handle X509)
      → Needs needed
      → needed ≤ size
      → is_some (sign_loop env (suc fuel) text size h) ≡ true
  unfolding sign_loop
  sign_loop_enough needed fuel text size h k e =
      let (r, h1) = ask env (sign text size) h in
      elim (Bool-cases (r.rv == buffer_too_small)) [
        | inl b ↦ absurd (omega (arith, e, k h.calls text size ((==_iff _ _).0 b)))
        | inr b ↦ ground (arith, b)
      ]

  sign_loop-is_some :
      (needed fuel : ℕ) (text : Bytes) (size : ℕ) (h : Handle X509)
      → Needs needed
      → is_some (sign_loop env (suc (suc fuel)) text size h) ≡ true
  unfolding sign_loop
  sign_loop-is_some needed fuel text size h k =
      let (r, h1) = ask env (sign text size) h in
      elim (Bool-cases (r.rv == buffer_too_small)) [
        | inl b ↦ rw b (
            sign_loop_enough needed fuel text r.count h1 k
              (k h.calls text size ((==_iff _ _).0 b)).1)
        | inr b ↦ ground (arith, b)
      ]

  sign_by-is_some :
      (needed fuel : ℕ) (m : Option Mechanism) (key : Option ℕ) (data_bytes : Bytes)
      (h : Handle X509)
      → Needs needed
      → is_some (sign_by env (suc (suc fuel)) m key data_bytes h) ≡ true
  unfolding sign_by sign_with
  sign_by-is_some needed fuel none key data_bytes h k = refl
  sign_by-is_some needed fuel (some m) none data_bytes h k = refl
  sign_by-is_some needed fuel (some m) (some key) data_bytes h k =
      let (r, h1) = ask env (sign_init m key) h in
      elim (Bool-cases (is_ok r.rv)) [
        | inl e ↦ rw e (sign_loop-is_some needed fuel (text_of m (env.sha256 data_bytes)) 64 h1 k)
        | inr e ↦ rw e refl
      ]

  -- With a token that asks for a larger buffer only where it is too small, and then for a size that is
  -- enough, `sign_value` ends: two rounds of its loop are enough.
  pub sign_value_total :
      (needed fuel : ℕ) (cert : CertObject X509) (data_bytes : Bytes) (h : Handle X509)
      → Needs needed
      → is_some (sign_value env (suc (suc fuel)) cert data_bytes h) ≡ true
  unfolding sign_value sign_found
  sign_value_total needed fuel cert data_bytes h k = by_result (get_private_key env cert h)
    where
      signed :
          (c : CertObject X509) (o : Option (Option Bytes × Handle X509))
          → is_some o ≡ true
          → is_some {A = Option Bytes × CertObject X509 × Handle X509}
              (elim o [ none ↦ none | some (signature, h1) ↦ some (signature, c, h1) ])
            ≡ true
      signed c none e = e
      signed c (some (s, h1)) e = refl

      by_result :
          (found : ℤ × CertObject X509 × Handle X509)
          → is_some (sign_found env (suc (suc fuel)) data_bytes found) ≡ true
      by_result (negsuc n, c, h1) = refl
      by_result (pos n, c, h1) =
          signed c
            (sign_by env (suc (suc fuel)) (mechanism_of c.key_type) c.private_key data_bytes h1)
            (sign_by-is_some needed fuel (mechanism_of c.key_type) c.private_key data_bytes h1 k)
