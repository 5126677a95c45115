-- ===== src/Pkcs11/Objects/Searches.antt =====
-- The searches for objects that common/pkcs11_lib.c begins and ends, and the list that it keeps.
use pam_pkcs.Base.{
  ℕ, zero, suc, ◌+◌, ◌≡◌, ◌≢◌, ◌⊎◌, inl, inr, refl, ap, subst, arith, List, [], ◌∷◌, ◌++◌, Option,
  none, some, Bytes, if◌then◌else◌, Bool-cases, Option-cases,
}
use pam_pkcs.Base.Int.{ℤ, pos, negsuc}
use pam_pkcs.Pkcs11.Cryptoki.{
  Call, Template, certificates, private_keys, private_keys_of, find_objects, find_objects_init,
  find_objects_final, is_ok, CertObject, Handle, Cryptoki, ask,
}
use pam_pkcs.Pkcs11.Objects.{
  certs_of, read_value, read_object, getlist_error, end_list, add_object, list_objects,
  get_certificate_list, get_privkey_failed, read_key, find_key, get_private_key,
}

-- The searches that were begun, that is, whose C_FindObjectsInit has succeeded.
abbrev pub begun : List (Call × ℕ) → ℕ
begun [] = 0
begun ((find_objects_init t, zero) ∷ cs) = suc (begun cs)
begun (_ ∷ cs) = begun cs

-- The calls that end a search.
abbrev pub ended : List (Call × ℕ) → ℕ
ended [] = 0
ended ((find_objects_final, rv) ∷ cs) = suc (ended cs)
ended (_ ∷ cs) = ended cs

-- As many searches were ended as begun between the two handles, or one more.
abbrev pub IsBalanced : {X509 : Type 0} → Handle X509 → Handle X509 → Type 0
IsBalanced h h' = begun h'.calls + ended h.calls ≡ begun h.calls + ended h'.calls

abbrev Ends : {X509 : Type 0} → Handle X509 → Handle X509 → Type 0
Ends h h' = begun h'.calls + ended h.calls + 1 ≡ begun h.calls + ended h'.calls

module _ {X509 : Type 0} (env : Cryptoki X509) where
  read_object-IsBalanced :
      (object : ℕ) (h : Handle X509) → IsBalanced h (read_object env object h).1
  unfolding read_object read_value
  read_object-IsBalanced object h = ground arith

  getlist_error-Ends : (h : Handle X509) → Ends h (getlist_error env h).1
  unfolding getlist_error
  getlist_error-Ends h = ground arith

  end_list-Ends : (h : Handle X509) → Ends h (end_list env h).1
  unfolding end_list
  end_list-Ends h = ground arith

  find_key-IsBalanced :
      (t : Template) (cert : CertObject X509) (h : Handle X509)
      → IsBalanced h (find_key env t cert h).2
  unfolding find_key get_privkey_failed read_key
  find_key-IsBalanced t cert h = ground arith

  -- The result is what the handle keeps; after an error it keeps nothing.
  abbrev pub IsKept : Option (List (CertObject X509)) → Handle X509 → Type 0
  IsKept none h = h.certs ≡ none
  IsKept (some l) h = certs_of h.certs ≡ l

  abbrev Lists : Handle X509 → Option (Option (List (CertObject X509)) × Handle X509) → Type 0
  Lists h none = Unit
  Lists h (some (r, h')) = Ends h h' × IsKept r h'

  end_list-IsKept : (h : Handle X509) → IsKept (end_list env h).0 (end_list env h).1
  unfolding end_list
  end_list-IsKept h = elim (Bool-cases (is_ok (env.reply h.calls find_objects_final).rv)) [
    | inl e ↦ rw e refl
    | inr e ↦ rw e refl
  ]

  Lists-balanced :
      (h h1 : Handle X509) (o : Option (Option (List (CertObject X509)) × Handle X509))
      → IsBalanced h h1
      → Lists h1 o
      → Lists h o
  Lists-balanced h h1 none b l = tt
  Lists-balanced h h1 (some (r, h')) b l = (omega (arith, b, l.0), l.1)

  add_object-Lists :
      (o : Option (CertObject X509)) (h : Handle X509)
      (next : Handle X509 → Option (Option (List (CertObject X509)) × Handle X509))
      → ((h1 : Handle X509) → Lists h1 (next h1))
      → Lists h (add_object env (o, h) next)
  unfolding add_object getlist_error
  add_object-Lists none h next k = (getlist_error-Ends h, refl)
  add_object-Lists (some c) h next k =
      Lists-balanced h (record h { certs = some (certs_of h.certs ++ c ∷ []) })
        (next (record h { certs = some (certs_of h.certs ++ c ∷ []) })) (omega arith)
        (k (record h { certs = some (certs_of h.certs ++ c ∷ []) }))

  abbrev found : Handle X509 → Handle X509
  found h = (ask env find_objects h).1

  found-IsBalanced : (h : Handle X509) → IsBalanced h (found h)
  found-IsBalanced h = omega arith

  list_objects-Lists : (fuel : ℕ) (h : Handle X509) → Lists h (list_objects env fuel h)
  unfolding list_objects
  list_objects-Lists zero h = tt
  list_objects-Lists (suc fuel) h =
      let r = env.reply h.calls find_objects in
      elim (Bool-cases (is_ok r.rv)) [
        | inl e ↦ rw e (by_object r.object (list_objects-Lists fuel))
        | inr e ↦ rw e (ends (getlist_error env (found h)) (getlist_error-Ends (found h)) refl)
      ]
    where
      ends :
          (p : Option (List (CertObject X509)) × Handle X509)
          → Ends (found h) p.1
          → IsKept p.0 p.1
          → Lists h (some p)
      ends p e k = Lists-balanced h (found h) (some p) (found-IsBalanced h) (e, k)

      by_object :
          (o : Option ℕ)
          → ((h1 : Handle X509) → Lists h1 (list_objects env fuel h1))
          → Lists h (elim o [
            | none ↦ some (end_list env (found h))
            | some object ↦
                add_object env (read_object env object (found h)) (list_objects env fuel)
          ])
      by_object none k =
          ends (end_list env (found h)) (end_list-Ends (found h)) (end_list-IsKept (found h))
      by_object (some object) k =
          let (o, h1) = read_object env object (found h) in
          Lists-balanced h h1 (add_object env (o, h1) (list_objects env fuel))
            (omega (arith, found-IsBalanced h, read_object-IsBalanced object (found h)))
            (add_object-Lists o h1 (list_objects env fuel) k)

  abbrev Listed : Handle X509 → Option (Option (List (CertObject X509)) × Handle X509) → Type 0
  Listed h none = Unit
  Listed h (some (r, h')) = IsBalanced h h' × IsKept r h'

  began-Listed :
      (h : Handle X509) (c : Call) (o : Option (Option (List (CertObject X509)) × Handle X509))
      → begun (ask env c h).1.calls ≡ begun h.calls + 1
      → ended (ask env c h).1.calls ≡ ended h.calls
      → Lists (ask env c h).1 o
      → Listed h o
  began-Listed h c none b f l = tt
  began-Listed h c (some (r, h')) b f l = (omega (arith, l.0, b, f), l.1)

  get_certificate_list-Listed :
      (fuel : ℕ) (h : Handle X509) → Listed h (get_certificate_list env fuel h)
  unfolding get_certificate_list
  get_certificate_list-Listed fuel h = by_certs h.certs refl
    where
      init : Call
      init = find_objects_init certificates

      search : Option (Option (List (CertObject X509)) × Handle X509)
      search =
          let (r, h1) = ask env init h in
          if is_ok r.rv then list_objects env fuel h1 else some (none, h1)

      search-Listed : h.certs ≡ none → Listed h search
      search-Listed n =
          let r = env.reply h.calls init in
          elim (Bool-cases (is_ok r.rv)) [
            | inl e ↦ rw e (
                began-Listed h init (list_objects env fuel (ask env init h).1) (ground (arith, e))
                  (ground arith) (list_objects-Lists fuel (ask env init h).1))
            | inr e ↦ rw e (ground (arith, e), n)
          ]

      by_certs :
          (c : Option (List (CertObject X509)))
          → h.certs ≡ c
          → Listed h (elim c [ some l ↦ some (some l, h) | none ↦ search ])
      by_certs none n = search-Listed n
      by_certs (some l) e = (refl, ap certs_of e)

  -- Whatever the token answers, `get_certificate_list` ends as many searches for objects as it has
  -- begun; the handle keeps the certificates that it returns, and none after an error.
  pub get_certificate_list_sound :
      (fuel : ℕ) (h : Handle X509) (r : Option (List (CertObject X509))) (h' : Handle X509)
      → get_certificate_list env fuel h ≡ some (r, h')
      → IsBalanced h h' × IsKept r h'
  get_certificate_list_sound fuel h r h' e = subst (Listed h) e (get_certificate_list-Listed fuel h)

  find_key-private_key :
      (t : Template) (cert : CertObject X509) (h : Handle X509)
      → (((find_key env t cert h).0 ≡ negsuc 0) ⊎ ((find_key env t cert h).1.private_key ≢ none))
        × ((find_key env t cert h).1.id ≡ cert.id)
  unfolding find_key get_privkey_failed read_key
  find_key-private_key t cert h = (
    elim (Option-cases (find_key env t cert h).1.private_key) [
      | inl n ↦ inl (ground (arith, n))
      | inr (k, e) ↦ inr (λ n. ground (arith, e, n))
    ],
    ground arith,
  )

  abbrev HasKey : Handle X509 → ℤ × CertObject X509 × Handle X509 → CertObject X509 → Type 0
  HasKey h (rv, cert', h') cert =
      IsBalanced h h' × ((rv ≡ negsuc 0) ⊎ (cert'.private_key ≢ none)) × (cert'.id ≡ cert.id)

  find_key-HasKey :
      (t : Template) (cert : CertObject X509) (h : Handle X509)
      → HasKey h (find_key env t cert h) cert
  find_key-HasKey t cert h =
      let (k, i) = find_key-private_key t cert h in (find_key-IsBalanced t cert h, k, i)

  -- As often as `get_private_key` begins a search for a key, it ends one, on every path; and it
  -- returns -1, or the certificate, which keeps its id, has a key.
  pub get_private_key_sound :
      (cert : CertObject X509) (h : Handle X509)
      → IsBalanced h (get_private_key env cert h).2
        × (((get_private_key env cert h).0 ≡ negsuc 0)
            ⊎ ((get_private_key env cert h).1.private_key ≢ none))
        × ((get_private_key env cert h).1.id ≡ cert.id)
  unfolding get_private_key
  get_private_key_sound cert h = by_key cert.private_key refl
    where
      by_id :
          (id : Bytes)
          → HasKey h
              (elim id [
                | [] ↦ find_key env private_keys cert h
                | c ∷ rest ↦ find_key env (private_keys_of cert.id) cert h
              ])
              cert
      by_id [] = find_key-HasKey private_keys cert h
      by_id (c ∷ rest) = find_key-HasKey (private_keys_of cert.id) cert h

      by_key :
          (k : Option ℕ)
          → cert.private_key ≡ k
          → HasKey h
              (elim k [
                | some object ↦ (pos 0, cert, h)
                | none ↦ elim cert.id [
                  | [] ↦ find_key env private_keys cert h
                  | c ∷ rest ↦ find_key env (private_keys_of cert.id) cert h
                ]
              ])
              cert
      by_key none e = by_id cert.id
      by_key (some object) e = (refl, inr (λ n. ground (arith, e, n)), refl)
