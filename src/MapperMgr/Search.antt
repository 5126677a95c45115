-- ===== src/MapperMgr/Search.antt =====
-- `find_user` and `match_user` of pam_pkcs11/mapper_mgr.c: which module of the chain decides.
use pam_pkcs.Base.{
  ℕ, ◌≡◌, ◌↔◌, inl, inr, refl, Option-cases, Bool-cases, Bool, true, false, List, [], ◌∷◌, Option,
  none, some, arith, Bytes,
}
use pam_pkcs.Base.Int.{ℤ, pos, is_pos, is_neg}
use pam_pkcs.MapperMgr.{MapperInstance, Mgr, find_in, find_user, match_in, match_user}

module _ {X509 : Type 0} where
  -- The module answers the certificate with this login, and calls it a match.
  abbrev pub Finds : X509 → Bytes → MapperInstance X509 → Type 0
  Finds x509 login item =
      (f : X509 → Option Bytes × Bool) × (item.module_data.finder ≡ some f)
      × (f x509 ≡ (some login, true))

  -- It has no finder, or finds no login, or does not call it a match.
  abbrev pub FindsNone : X509 → MapperInstance X509 → Type 0
  FindsNone x509 item = (login : Bytes) → ¬ Finds x509 login item

  -- The first module of the list that finds a login finds this one.
  pub data FirstFinder (x509 : X509) (login : Bytes) : List (MapperInstance X509) → Type 0 where
    here :
        {item : MapperInstance X509} {items : List (MapperInstance X509)}
        → Finds x509 login item
        → FirstFinder x509 login (item ∷ items)
    there :
        {item : MapperInstance X509} {items : List (MapperInstance X509)}
        → FindsNone x509 item
        → FirstFinder x509 login items
        → FirstFinder x509 login (item ∷ items)

  -- What one module answers.
  abbrev answer : Option (X509 → Option Bytes × Bool) → X509 → Option Bytes
  answer none x509 = none
  answer (some f) x509 = elim (f x509).1 [ true ↦ (f x509).0 | false ↦ none ]

  answer-some :
      (o : Option (X509 → Option Bytes × Bool)) (x509 : X509) {login : Bytes}
      → answer o x509 ≡ some login
      → (f : X509 → Option Bytes × Bool) × (o ≡ some f) × (f x509 ≡ (some login, true))
  answer-some none x509 h = cc
  answer-some (some f) x509 h = (f, refl, ground arith)

  answer-Finds :
      (item : MapperInstance X509) (x509 : X509) {login : Bytes}
      → Finds x509 login item
      → answer item.module_data.finder x509 ≡ some login
  answer-Finds item x509 (f, e, r) = ground arith

  find_in-none :
      (l : ℕ) (x509 : X509) (item : MapperInstance X509) (items : List (MapperInstance X509))
      → answer item.module_data.finder x509 ≡ none
      → find_in l (item ∷ items) x509 l ≡ find_in l items x509 l
  unfolding find_in
  find_in-none l x509 item items h = ground arith

  find_in-some :
      (l : ℕ) (x509 : X509) (item : MapperInstance X509) (items : List (MapperInstance X509))
      {login : Bytes}
      → answer item.module_data.finder x509 ≡ some login
      → find_in l (item ∷ items) x509 l ≡ (some login, l)
  unfolding find_in
  find_in-some l x509 item items h = ground arith

  find_in_level :
      (l : ℕ) (x509 : X509) (items : List (MapperInstance X509)) → (find_in l items x509 l).1 ≡ l
  unfolding find_in
  find_in_level l x509 [] = refl
  find_in_level l x509 (item ∷ items) = ground (arith, find_in_level l x509 items)

  find_in_sound :
      (l : ℕ) (x509 : X509) (items : List (MapperInstance X509)) {login : Bytes}
      → (find_in l items x509 l).0 ≡ some login
      → FirstFinder x509 login items
  find_in_sound l x509 [] h = (unfold find_in in cc)
  find_in_sound l x509 (item ∷ items) h =
      elim (Option-cases (answer item.module_data.finder x509)) [
        | inl e ↦
            there (λ login' f. ground (arith, answer-Finds item x509 f))
              (find_in_sound l x509 items (rw (find_in-none l x509 item items e) at h))
        | inr (login', e) ↦
            here (answer-some item.module_data.finder x509 (cc (find_in-some l x509 item items e)))
      ]

  find_in_complete :
      (l : ℕ) (x509 : X509) {login : Bytes} {items : List (MapperInstance X509)}
      → FirstFinder x509 login items
      → (find_in l items x509 l).0 ≡ some login
  find_in_complete l x509 (here {item} {items} f) =
      rw (find_in-some l x509 item items (answer-Finds item x509 f))
  find_in_complete l x509 (there {item} {items} n r) =
      elim (Option-cases (answer item.module_data.finder x509)) [
        | inl e ↦ rw (find_in-none l x509 item items e) (find_in_complete l x509 r)
        | inr (login', e) ↦ absurd (n login' (answer-some item.module_data.finder x509 e))
      ]

  -- `find_user` returns a login exactly when some module of the chain finds it and calls it a
  -- match, and no module before that one finds a login that it calls a match; the chain and the
  -- debug level stay as they were.
  pub find_user_iff :
      (s : Mgr X509) (x509 : X509) (login : Bytes)
      → (((find_user s (some x509)).0 ≡ some login) ↔ FirstFinder x509 login s.root_mapper_list)
        × ((find_user s (some x509)).1 ≡ s)
  unfolding find_user
  find_user_iff s x509 login = (
    (find_in_sound s.debug_level x509 s.root_mapper_list, find_in_complete s.debug_level x509),
    λ i. record s { debug_level = find_in_level s.debug_level x509 s.root_mapper_list i },
  )

  -- The module's matcher answers with a positive number.
  abbrev pub Matches : X509 → Bytes → MapperInstance X509 → Type 0
  Matches x509 login item =
      (f : X509 → Bytes → ℤ) × (item.module_data.matcher ≡ some f) × (is_pos (f x509 login) ≡ true)

  pub data SomeMatches (x509 : X509) (login : Bytes) : List (MapperInstance X509) → Type 0 where
    here :
        {item : MapperInstance X509} {items : List (MapperInstance X509)}
        → Matches x509 login item
        → SomeMatches x509 login (item ∷ items)
    there :
        {item : MapperInstance X509} {items : List (MapperInstance X509)}
        → SomeMatches x509 login items
        → SomeMatches x509 login (item ∷ items)

  match_in_sound :
      (l : ℕ) (x509 : X509) (login : Bytes) (items : List (MapperInstance X509))
      → is_pos (match_in l items x509 login l).0 ≡ true
      → SomeMatches x509 login items
  unfolding match_in
  match_in_sound l x509 login [] h = cc
  match_in_sound l x509 login (item ∷ items) h = elim (Option-cases item.module_data.matcher) [
    | inl e ↦ SomeMatches.there (match_in_sound l x509 login items (ground arith))
    | inr (f, e) ↦ elim (Bool-cases (is_pos (f x509 login))) [
      | inl t ↦ SomeMatches.here (f, e, t)
      | inr t ↦ SomeMatches.there (match_in_sound l x509 login items (ground arith))
    ]
  ]

  match_in_complete :
      (l : ℕ) (x509 : X509) (login : Bytes) {items : List (MapperInstance X509)}
      → SomeMatches x509 login items
      → is_pos (match_in l items x509 login l).0 ≡ true
  unfolding match_in
  match_in_complete l x509 login (SomeMatches.here (f, e, t)) = ground arith
  match_in_complete l x509 login (SomeMatches.there {item} {items} r) =
      ground (arith, match_in_complete l x509 login r)

  match_in_not_neg :
      (l : ℕ) (x509 : X509) (login : Bytes) (items : List (MapperInstance X509))
      → (is_neg (match_in l items x509 login l).0 ≡ false) × ((match_in l items x509 login l).1 ≡ l)
  unfolding match_in
  match_in_not_neg l x509 login [] = (refl, refl)
  match_in_not_neg l x509 login (item ∷ items) = ground (arith, match_in_not_neg l x509 login items)

  -- For a certificate and a login, `match_user` is positive exactly when the matcher of some module
  -- of the chain is; an error of a module is passed over, so the result is never negative; the
  -- chain and the debug level stay as they were.
  pub match_user_iff :
      (s : Mgr X509) (x509 : X509) (login : Bytes)
      → ((is_pos (match_user s (some x509) (some login)).0 ≡ true)
          ↔ SomeMatches x509 login s.root_mapper_list)
        × (is_neg (match_user s (some x509) (some login)).0 ≡ false)
        × ((match_user s (some x509) (some login)).1 ≡ s)
  unfolding match_user
  match_user_iff s x509 login =
      let (n, e) = match_in_not_neg s.debug_level x509 login s.root_mapper_list in
      (
        (
          match_in_sound s.debug_level x509 login s.root_mapper_list,
          match_in_complete s.debug_level x509 login,
        ),
        n,
        λ i. record s { debug_level = e i },
      )

  pub match_user-none : (s : Mgr X509) (x509 : X509) → match_user s (some x509) none ≡ (pos 0, s)
  unfolding match_user
  match_user-none s x509 = refl
