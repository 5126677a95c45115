-- ===== src/MapperMgr/Lifecycle.antt =====
-- The loading and unloading of pam_pkcs11/mapper_mgr.c: what `load_mappers` opens, `unload_mappers`
-- closes.
use pam_pkcs.Base.{
  ℕ, ◌+◌, ◌-◌, ◌≡◌, ◌==◌, if◌then◌else◌, inl, inr, refl, ap, ◌∙◌, List, [], ◌∷◌, ◌++◌, Option, none,
  some, arith, Bytes, append_assoc, Bool-cases, Option-cases, ==_iff,
}
use mathlib.Core.List.{reverse, reverse-cons}
use pam_pkcs.Base.Cstr.{codes, streq}
use pam_pkcs.MapperMgr.{
  MapperInstance, InitResult, failed, inited, Mgr, Loader, StaticResult, init_failed, searched,
  dlclose, close_handle, finish_static, finish_dynamic, load_dynamic, load_at, load_module,
  append_module, load_list, load_mappers, unload_module, unload_list, unload_mappers,
}

abbrev pub count : ℕ → List ℕ → ℕ
count h [] = 0
count h (x ∷ hs) = (if x == h then 1 else 0) + count h hs

abbrev held : ℕ → Option ℕ → ℕ
held h none = 0
held h (some x) = if x == h then 1 else 0

count-dlclose :
    (h x : ℕ) (hs : List ℕ)
    → count h (dlclose x hs)
      ≡ count h hs - (if x == h then (if count x hs == 0 then 0 else 1) else 0)
count-dlclose h x [] = ground arith
count-dlclose h x (y ∷ hs) = ground (arith, count-dlclose h x hs)

count-close_handle :
    (h : ℕ) (o : Option ℕ) (hs : List ℕ) (n : ℕ)
    → count h hs ≡ n + held h o
    → count h (close_handle o hs) ≡ n
count-close_handle h none hs n e = omega arith
count-close_handle h (some x) hs n e = ground (arith, count-dlclose h x hs, ==_iff x h)

module _ {X509 : Type 0} where
  abbrev held_by : ℕ → Option (MapperInstance X509) → ℕ
  held_by h none = 0
  held_by h (some m) = held h m.module_handler

  abbrev held_all : ℕ → List (MapperInstance X509) → ℕ
  held_all h [] = 0
  held_all h (m ∷ ms) = held h m.module_handler + held_all h ms

  held_all-append :
      (h : ℕ) (ms : List (MapperInstance X509)) (m : MapperInstance X509)
      → held_all h (ms ++ m ∷ []) ≡ held_all h ms + held h m.module_handler
  held_all-append h [] m = omega arith
  held_all-append h (x ∷ ms) m = omega (arith, held_all-append h ms m)

  -- What one call of `load_module` does to the state.
  record Loads (s : Mgr X509) (r : Option (MapperInstance X509) × Mgr X509) : Type 0 where
    opens : (h : ℕ) → count h r.1.handles ≡ count h s.handles + held_by h r.0
    same_list : r.1.root_mapper_list ≡ s.root_mapper_list
    same_deinited : r.1.deinited ≡ s.deinited

  finish_static-Loads :
      (name : Bytes) (t : StaticResult X509) (s : Mgr X509) → Loads s (finish_static name t s)
  unfolding finish_static
  finish_static-Loads name (init_failed l) s = record {
    opens = λ h. omega arith;
    same_list = refl;
    same_deinited = refl;
  }
  finish_static-Loads name (searched none l) s = record {
    opens = λ h. omega arith;
    same_list = refl;
    same_deinited = refl;
  }
  finish_static-Loads name (searched (some m) l) s = record {
    opens = λ h. omega arith;
    same_list = refl;
    same_deinited = refl;
  }

  finish_dynamic-Loads :
      (name libname : Bytes) (x : ℕ) (r : InitResult X509) (s : Mgr X509)
      → Loads s (finish_dynamic name libname x r (record s { handles = x ∷ s.handles }))
  unfolding finish_dynamic
  finish_dynamic-Loads name libname x (failed l) s = record {
    opens = λ h. ground (arith, count-dlclose h x (x ∷ s.handles));
    same_list = refl;
    same_deinited = refl;
  }
  finish_dynamic-Loads name libname x (inited m l) s = record {
    opens = λ h. omega arith;
    same_list = refl;
    same_deinited = refl;
  }

  -- What a run of the loop does: the handles opened are those that the new modules hold.
  record Balanced (s t : Mgr X509) : Type 0 where
    opens :
        (h : ℕ)
        → count h t.handles + held_all h s.root_mapper_list
          ≡ count h s.handles + held_all h t.root_mapper_list
    same_deinited : t.deinited ≡ s.deinited

  append_module-Balanced :
      (s : Mgr X509) (r : Option (MapperInstance X509) × Mgr X509)
      → Loads s r
      → Balanced s (append_module r)
  unfolding append_module
  append_module-Balanced s (none, t) l = record {
    opens = λ h. omega (arith, l.opens h, ap (held_all h) l.same_list);
    same_deinited = l.same_deinited;
  }
  append_module-Balanced s (some m, t) l = record {
    opens = λ h.
        omega
          (arith, l.opens h, held_all-append h t.root_mapper_list m, ap (held_all h) l.same_list);
    same_deinited = l.same_deinited;
  }

  module _ {Block : Type 0} (env : Loader X509 Block) where
    load_dynamic-Loads :
        (blk : Option Block) (name libname : Bytes) (s : Mgr X509)
        → Loads s (load_dynamic env blk name libname s)
    unfolding load_dynamic
    load_dynamic-Loads blk name libname s = elim (Option-cases (env.dlopen libname)) [
      | inl e ↦
          rw (e, load_dynamic)
            (record { opens = λ h. omega arith; same_list = refl; same_deinited = refl })
      | inr (x, e) ↦ elim (Option-cases (env.dlsym x)) [
        | inl e' ↦
            rw (e, e', load_dynamic)
              (record {
                opens = λ h. ground (arith, count-dlclose h x (x ∷ s.handles));
                same_list = refl;
                same_deinited = refl;
              })
        | inr (init, e') ↦
            rw (e, e', load_dynamic)
              (finish_dynamic-Loads name libname x (init blk name s.debug_level) s)
      ]
    ]

    load_at-Loads :
        (blk : Option Block) (path : Option Bytes) (name : Bytes) (s : Mgr X509)
        → Loads s (load_at env blk path name s)
    load_at-Loads blk none name s = unfold load_at in finish_static-Loads name _ s
    load_at-Loads blk (some libname) name s = elim (Bool-cases (streq libname (codes "internal"))) [
      | inl e ↦ unfold load_at in rw e (finish_static-Loads name _ s)
      | inr e ↦ unfold load_at in rw e (load_dynamic-Loads blk name libname s)
    ]

    load_module-Loads : (name : Bytes) (s : Mgr X509) → Loads s (load_module env name s)
    unfolding load_module
    load_module-Loads name s = elim (Bool-cases env.has_root) [
      | inr e ↦ rw e (record { opens = λ h. omega arith; same_list = refl; same_deinited = refl })
      | inl e ↦ elim (Option-cases (env.find_blocks name)) [
        | inl e' ↦
            rw (e, e') (record { opens = λ h. omega arith; same_list = refl; same_deinited = refl })
        | inr (bs, e') ↦ rw (e, e') (load_at-Loads _ _ name s)
      ]
    ]

    load_list-Balanced : (names : List Bytes) (s : Mgr X509) → Balanced s (load_list env names s)
    unfolding load_list
    load_list-Balanced [] s = record { opens = λ h. refl; same_deinited = refl }
    load_list-Balanced (name ∷ names) s =
        let t = append_module (load_module env name s) in
        let first = append_module-Balanced s _ (load_module-Loads name s) in
        let rest = load_list-Balanced names t in
        record {
          opens = λ h. omega (arith, first.opens h, rest.opens h);
          same_deinited = rest.same_deinited ∙ first.same_deinited;
        }

    load_mappers-Balanced :
        (s : Mgr X509) → Balanced (record s { root_mapper_list = [] }) (load_mappers env s)
    unfolding load_mappers
    load_mappers-Balanced s = elim (Bool-cases env.has_root) [
      | inr e ↦ rw e (record { opens = λ h. refl; same_deinited = refl })
      | inl e ↦ elim (Option-cases env.use_mappers) [
        | inl e' ↦ rw (e, e') (record { opens = λ h. refl; same_deinited = refl })
        | inr (names, e') ↦
            simp (e, e') (load_list-Balanced names (record s { root_mapper_list = [] }))
      ]
    ]

  -- The names of the modules that have a `deinit`, in the order of the list.
  abbrev pub deinit_names : List (MapperInstance X509) → List Bytes
  deinit_names [] = []
  deinit_names (m ∷ ms) =
      if m.module_data.deinit then m.module_name ∷ deinit_names ms else deinit_names ms

  unload_list-handles :
      (h : ℕ) (ms : List (MapperInstance X509)) (s : Mgr X509) (n : ℕ)
      → count h s.handles ≡ n + held_all h ms
      → count h (unload_list ms s).handles ≡ n
  unfolding unload_list unload_module
  unload_list-handles h [] s n e = omega arith
  unload_list-handles h (m ∷ ms) s n e =
      unload_list-handles h ms (unload_module m s) n
        (count-close_handle h m.module_handler s.handles (n + held_all h ms) (omega arith))

  unload_list-deinited :
      (ms : List (MapperInstance X509)) (s : Mgr X509)
      → (unload_list ms s).deinited ≡ reverse (deinit_names ms) ++ s.deinited
  unfolding unload_list unload_module
  unload_list-deinited [] s = refl
  unload_list-deinited (m ∷ ms) s = ground (
    arith,
    unload_list-deinited ms (unload_module m s),
    reverse-cons m.module_name (deinit_names ms),
    append_assoc (reverse (deinit_names ms)) (m.module_name ∷ []) s.deinited,
  )

  unload_list-nil :
      (ms : List (MapperInstance X509)) (s : Mgr X509) → (unload_list ms s).root_mapper_list ≡ []
  unfolding unload_list
  unload_list-nil [] s = refl
  unload_list-nil (m ∷ ms) s = unload_list-nil ms (unload_module m s)

  -- After `load_mappers` and `unload_mappers` the chain is empty, every handle is open as often as
  -- before, whichever of the modules failed to load, and `deinit` was called once, in the order of
  -- the chain, for each module of it that has one.
  pub unload_mappers-load_mappers :
      {Block : Type 0} (env : Loader X509 Block) (s : Mgr X509) (h : ℕ)
      → (count h (unload_mappers (load_mappers env s)).handles ≡ count h s.handles)
        × ((unload_mappers (load_mappers env s)).root_mapper_list ≡ [])
        × ((unload_mappers (load_mappers env s)).deinited
            ≡ reverse (deinit_names (load_mappers env s).root_mapper_list) ++ s.deinited)
  unfolding unload_mappers
  unload_mappers-load_mappers env s h =
      let t = load_mappers env s in
      let b = load_mappers-Balanced env s in
      (
        unload_list-handles h t.root_mapper_list t (count h s.handles) (omega (arith, b.opens h)),
        unload_list-nil t.root_mapper_list t,
        unload_list-deinited t.root_mapper_list t ∙ rw b.same_deinited,
      )
