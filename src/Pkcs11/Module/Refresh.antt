-- ===== src/Pkcs11/Module/Refresh.antt =====
-- The slot table of common/pkcs11_lib.c after `refresh_slots`.
use pam_pkcs.Base.{
  ℕ, zero, suc, ◌≤◌, ◌<◌, ◌≡◌, ◌≢◌, inl, inr, refl, ◌∙◌, arith, Bool, true, false, List, [], ◌∷◌,
  Option, none, some, ◌==◌, ==_iff, take, length, ltb, Bool-cases,
}
use pam_pkcs.Base.Int.{ℤ, pos, negsuc}
use pam_pkcs.Pkcs11.Slots.{Slot}
use pam_pkcs.Pkcs11.Cryptoki.{
  Call, get_slot_list, get_info, initialize, is_ok, SlotTable, null, freed, live, Handle, Cryptoki,
  ask,
}
use pam_pkcs.Pkcs11.Module.{
  no_count, free_slots, zero_slots, set_ids, read_slot, read_slots, read_table, fill_table,
  new_table, refresh_table, refresh_slots, info_and_slots, init_pkcs11_module, already_initialized,
}

-- The table was never filled, or it has as many slots as `slot_count` says.
abbrev pub Holds : SlotTable → ℕ → Type 0
Holds null n = n ≡ no_count
Holds freed n = ⊥
Holds (live l) n = n ≤ length l

abbrev pub IsSound : {X509 : Type 0} → Handle X509 → Type 0
IsSound h = Holds h.slots h.slot_count

-- The module tells of fewer slots than the greatest number there is, and puts no more of them in a
-- list than it has room for.
pub record IsHonest {X509 : Type 0} (env : Cryptoki X509) : Type 0 where
  pub few :
      (cs : List (Call × ℕ))
      → is_ok (env.reply cs (get_slot_list none)).rv ≡ true
      → (env.reply cs (get_slot_list none)).count < no_count
  pub fits :
      (cs : List (Call × ℕ)) (n : ℕ)
      → is_ok (env.reply cs (get_slot_list (some n))).rv ≡ true
      → (env.reply cs (get_slot_list (some n))).count ≤ n

-- A result without a fault, after which the table is sound if it is 0.
abbrev pub IsDone : {X509 : Type 0} → Option (ℤ × Handle X509) → Type 0
IsDone none = ⊥
IsDone (some (pos n, h)) = IsSound h
IsDone (some (negsuc n, h)) = Unit

length-zero_slots : (n : ℕ) → length (zero_slots n) ≡ n
unfolding zero_slots
length-zero_slots zero = refl
length-zero_slots (suc n) = omega (arith, length-zero_slots n)

length-set_ids : (ids : List ℕ) (l : List Slot) → length (set_ids ids l) ≡ length l
unfolding set_ids
length-set_ids [] l = refl
length-set_ids (i ∷ ids) [] = refl
length-set_ids (i ∷ ids) (s ∷ l) = omega (arith, length-set_ids ids l)

module _ {X509 : Type 0} (env : Cryptoki X509) where
  read_slot-slot_count :
      (s : Slot) (h : Handle X509) → (read_slot env s h).2.slot_count ≡ h.slot_count
  unfolding read_slot
  read_slot-slot_count s h = ground arith

  -- The loop stays inside the table, and leaves it as long as it was.
  abbrev Reads : List Slot → Handle X509 → Option (ℤ × List Slot × Handle X509) → Type 0
  Reads l h none = ⊥
  Reads l h (some (rv, l', h')) = (length l' ≡ length l) × (h'.slot_count ≡ h.slot_count)

  read_slots-Reads :
      (n : ℕ) (l : List Slot) (h : Handle X509) → n ≤ length l → Reads l h (read_slots env n l h)
  unfolding read_slots
  read_slots-Reads zero l h b = (refl, refl)
  read_slots-Reads (suc n) [] h b = absurd (omega arith)
  read_slots-Reads (suc n) (s ∷ l) h b =
      by_result (read_slot env s h).0 (read_slots env n l (read_slot env s h).2)
        (read_slots-Reads n l (read_slot env s h).2 (omega arith))
    where
      by_result :
          (ok : Bool) (o : Option (ℤ × List Slot × Handle X509))
          → Reads l (read_slot env s h).2 o
          → Reads (s ∷ l) h (elim ok [
            | false ↦ some (negsuc 0, (read_slot env s h).1 ∷ l, (read_slot env s h).2)
            | true ↦ elim o [
              | none ↦ none
              | some (rv, l', h') ↦ some (rv, (read_slot env s h).1 ∷ l', h')
            ]
          ])
      by_result false o r = (refl, read_slot-slot_count s h)
      by_result true none r = r
      by_result true (some (rv, l', h')) r = (omega (arith, r.0), r.1 ∙ read_slot-slot_count s h)

  read_table-IsDone :
      (l : List Slot) (h : Handle X509)
      → h.slot_count ≤ length l
      → IsDone (read_table env (live l) h)
  unfolding read_table
  read_table-IsDone l h b =
      by_result (read_slots env h.slot_count l h) (read_slots-Reads h.slot_count l h b)
    where
      by_result :
          (o : Option (ℤ × List Slot × Handle X509))
          → Reads l h o
          → IsDone (elim o [
            | none ↦ none
            | some (rv, l', h') ↦ some (rv, record h' { slots = live l' })
          ])
      by_result none r = r
      by_result (some (pos n, l', h')) r = omega (arith, r.0, r.1, b)
      by_result (some (negsuc n, l', h')) r = tt

  -- A question for the number of slots was answered.
  abbrev pub counted : List (Call × ℕ) → List (Call × ℕ)
  counted cs = (get_slot_list none, (env.reply cs (get_slot_list none)).rv) ∷ cs

  -- The answer to a question for the number of slots, after these calls.
  abbrev pub HasCount : List (Call × ℕ) → ℕ → Type 0
  HasCount cs n =
      ((env.reply cs (get_slot_list none)).rv ≡ 0) × ((env.reply cs (get_slot_list none)).count ≡ n)

  module _ (honest : IsHonest env) where
    fill_table-IsDone : (n : ℕ) (h : Handle X509) → IsDone (fill_table env n h)
    unfolding fill_table
    fill_table-IsDone n h =
        elim (Bool-cases (is_ok (env.reply h.calls (get_slot_list (some n))).rv)) [
          | inl e ↦ rw (e, inside n h e) (read_table-IsDone (table n h) (listed n h) (filled n h e))
          | inr e ↦ rw e tt
        ]
      where
        table : ℕ → Handle X509 → List Slot
        table n h =
            let r = env.reply h.calls (get_slot_list (some n)) in
            set_ids (take r.count r.ids) (zero_slots n)

        listed : ℕ → Handle X509 → Handle X509
        listed n h =
            let (r, h1) = ask env (get_slot_list (some n)) h in
            record h1 { slot_count = r.count; slots = live (table n h) }

        inside :
            (n : ℕ) (h : Handle X509)
            → is_ok (env.reply h.calls (get_slot_list (some n))).rv ≡ true
            → ltb n (env.reply h.calls (get_slot_list (some n))).count ≡ false
        inside n h e = ground (arith, honest.fits h.calls n e)

        filled :
            (n : ℕ) (h : Handle X509)
            → is_ok (env.reply h.calls (get_slot_list (some n))).rv ≡ true
            → (listed n h).slot_count ≤ length (table n h)
        filled n h e =
            let r = env.reply h.calls (get_slot_list (some n)) in
            omega (
              arith,
              honest.fits h.calls n e,
              length-set_ids (take r.count r.ids) (zero_slots n),
              length-zero_slots n,
            )

    new_table-IsDone : (h : Handle X509) → IsDone (new_table env h)
    unfolding new_table
    new_table-IsDone h =
        let (r, h1) = ask env (get_slot_list none) h in
        elim (Bool-cases (is_ok r.rv)) [
          | inl e ↦ elim (Bool-cases (r.count == 0)) [
            | inl z ↦ rw (e, z) tt
            | inr z ↦ rw (e, z) (fill_table-IsDone r.count (record h1 { slot_count = r.count }))
          ]
          | inr e ↦ rw e tt
        ]

    refresh_table-IsDone :
        (n : ℕ) (h : Handle X509) → n < no_count → IsSound h → IsDone (refresh_table env n h)
    unfolding refresh_table
    refresh_table-IsDone n h few sound = elim (Bool-cases (n == h.slot_count)) [
      | inl e ↦ rw e (same h.slots sound ((==_iff n h.slot_count).0 e))
      | inr e ↦ rw e (changed h.slots sound)
    ]
      where
        same :
            (t : SlotTable) → Holds t h.slot_count → n ≡ h.slot_count → IsDone (read_table env t h)
        same null s e = absurd (omega (arith, few, s, e))
        same freed s e = absurd s
        same (live l) s e = read_table-IsDone l h s

        changed :
            (t : SlotTable)
            → Holds t h.slot_count
            → IsDone (elim (free_slots t) [
              | none ↦ none
              | some t' ↦ new_table env (record h { slots = t' })
            ])
        changed null s = new_table-IsDone (record h { slots = null })
        changed freed s = absurd s
        changed (live l) s = new_table-IsDone (record h { slots = freed })

    -- With a module that keeps to the lists it is asked for, a refresh of a sound slot table neither
    -- reads nor frees memory that it must not, and it leaves the table sound if it succeeds.
    pub refresh_slots-IsDone : (h : Handle X509) → IsSound h → IsDone (refresh_slots env h)
    unfolding refresh_slots
    refresh_slots-IsDone h sound =
        let (r, h1) = ask env (get_slot_list none) h in
        elim (Bool-cases (is_ok r.rv)) [
          | inl e ↦ rw e (refresh_table-IsDone r.count h1 (honest.few h.calls e) sound)
          | inr e ↦ rw e tt
        ]

    info_and_slots-IsDone : (h : Handle X509) → IsDone (info_and_slots env h)
    unfolding info_and_slots
    info_and_slots-IsDone h =
        let (r, h1) = ask env get_info h in
        elim (Bool-cases (is_ok r.rv)) [
          | inl e ↦
              rw e (refresh_slots-IsDone (record h1 { slot_count = no_count; slots = null }) refl)
          | inr e ↦ rw e tt
        ]

    -- With such a module, the same holds of the initialisation, for any handle.
    init_pkcs11_module-IsDone :
        (flag : Bool) (h : Handle X509) → IsDone (init_pkcs11_module env flag h)
    unfolding init_pkcs11_module
    init_pkcs11_module-IsDone flag h =
        let (r, h1) = ask env (initialize flag) h in
        elim (Bool-cases (is_ok r.rv)) [
          | inl e ↦ rw e (info_and_slots-IsDone (record h1 { should_finalize = true }))
          | inr e ↦ elim (Bool-cases (r.rv == already_initialized)) [
            | inl a ↦ rw (e, a) (info_and_slots-IsDone h1)
            | inr a ↦ rw (e, a) tt
          ]
        ]

  -- The handle that a refresh leaves when no slots are there any more.
  abbrev unplugged : Handle X509 → Handle X509
  unplugged h = record h {
    slots = freed;
    slot_count = (env.reply (counted h.calls) (get_slot_list none)).count;
    calls = counted (counted h.calls);
  }

  refresh_slots-freed :
      (h : Handle X509) (n : ℕ)
      → h.slots ≡ freed
      → HasCount h.calls n
      → n ≢ h.slot_count
      → refresh_slots env h ≡ none
  unfolding refresh_slots refresh_table
  refresh_slots-freed h n t c m = ground (arith, t, c.0, c.1, m)

  refresh_slots-empty :
      (h : Handle X509) (l : List Slot)
      → h.slots ≡ live l
      → h.slot_count ≢ 0
      → HasCount h.calls 0
      → HasCount (counted h.calls) 0
      → refresh_slots env h ≡ some (negsuc 0, unplugged h)
  unfolding refresh_slots refresh_table new_table
  refresh_slots-empty h l t z c0 c1 = ground (arith, t, z, c0.0, c0.1, c1.0, c1.1)

  -- Where the module reports no slots any more, the table is freed and the pointer to it kept, so
  -- that the refresh after it, which finds slots again, frees it a second time.
  pub refresh_slots-unplugged :
      (h : Handle X509) (l : List Slot) (n : ℕ)
      → h.slots ≡ live l
      → h.slot_count ≢ 0
      → HasCount h.calls 0
      → HasCount (counted h.calls) 0
      → n ≢ 0
      → HasCount (counted (counted h.calls)) n
      → (h' : Handle X509) × (refresh_slots env h ≡ some (negsuc 0, h'))
        × (refresh_slots env h' ≡ none)
  refresh_slots-unplugged h l n t z c0 c1 m c2 = (
    unplugged h,
    refresh_slots-empty h l t z c0 c1,
    refresh_slots-freed (unplugged h) n refl c2 (λ e. m (e ∙ c1.1)),
  )
