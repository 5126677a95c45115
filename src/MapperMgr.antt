-- ===== src/MapperMgr.antt =====
-- pam_pkcs11/mapper_mgr.c: the chain of mapper modules, its loading and unloading, and the search
-- of a login along it. The configuration (scconf), dlopen and the table of static mappers are a
-- parameter `Loader`; a mapper module is the record of its entry points.
pub mod Search
pub mod Lifecycle
use pam_pkcs.Base.{
  ℕ, ◌+◌, ◌-◌, Bool, true, false, not, ◌||◌, List, [], ◌∷◌, ◌++◌, Option, none, some, Bytes,
  if◌then◌else◌, ◌==◌,
}
use pam_pkcs.Base.Int.{ℤ, pos, negsuc, is_pos}
use pam_pkcs.Base.Cstr.{codes, streq}

-- The entry points of `mapper_module`; an absent one is a null pointer. `finder` returns the login
-- and what it has stored in `*match`.
pub record MapperModule (X509 : Type 0) : Type 0 where
  pub dbg_level : ℕ
  pub entries : Option (X509 → Option (List Bytes))
  pub finder : Option (X509 → Option Bytes × Bool)
  pub matcher : Option (X509 → Bytes → ℤ)
  pub deinit : Bool

pub record MapperInstance (X509 : Type 0) : Type 0 where
  pub module_handler : Option ℕ
  pub module_name : Bytes
  pub module_path : Option Bytes
  pub module_data : MapperModule X509

-- What a `mapper_module_init` returns, with the debug level that it leaves set.
pub data InitResult (X509 : Type 0) : Type 0 where
  failed : ℕ → InitResult X509
  inited : MapperModule X509 → ℕ → InitResult X509

-- The state: `root_mapper_list`, the global debug level, the handles that dlopen has given and
-- dlclose has not taken back, and the names of the modules whose `deinit` was called.
pub record Mgr (X509 : Type 0) : Type 0 where
  pub root_mapper_list : List (MapperInstance X509)
  pub debug_level : ℕ
  pub handles : List ℕ
  pub deinited : List Bytes

-- The configuration file as scconf presents it, the dynamic linker, and the static mappers.
pub record Loader (X509 Block : Type 0) : Type 0 where
  pub has_root : Bool
  pub find_blocks : Bytes → Option (List Block)
  pub get_module : Block → Option Bytes
  pub use_mappers : Option (List Bytes)
  pub static_mapper_list : List (Bytes × (Option Block → Bytes → ℕ → InitResult X509))
  pub dlopen : Bytes → Option ℕ
  pub dlsym : ℕ → Option (Option Block → Bytes → ℕ → InitResult X509)

-- `dlclose(handler)`
abbrev pub dlclose : ℕ → List ℕ → List ℕ
dlclose h [] = []
dlclose h (x ∷ hs) = if x == h then hs else x ∷ dlclose h hs

abbrev first {ℓ} : {A : Type ℓ} → List A → Option A
first [] = none
first (x ∷ xs) = some x

-- What the search for a static mapper yields: a module or none, or that its init failed.
pub data StaticResult (X509 : Type 0) : Type 0 where
  init_failed : ℕ → StaticResult X509
  searched : Option (MapperModule X509) → ℕ → StaticResult X509

abbrev close_handle : Option ℕ → List ℕ → List ℕ
close_handle none hs = hs
close_handle (some h) hs = dlclose h hs

module _ {X509 : Type 0} where
  -- The loop over `static_mapper_list`, from the module found so far and the current level.
  unfoldable pub load_static :
      {Block : Type 0}
      → List (Bytes × (Option Block → Bytes → ℕ → InitResult X509))
      → Option Block
      → Bytes
      → ℕ
      → Option (MapperModule X509)
      → ℕ
      → StaticResult X509
  load_static [] blk name old_level res level = searched res level
  load_static ((n, init) ∷ ms) blk name old_level res level = elim (streq n name) [
    | false ↦ load_static ms blk name old_level res level
    | true ↦ elim (init blk name level) [
      | failed l ↦ init_failed l
      | inited m l ↦ load_static ms blk name old_level (some (record m { dbg_level = l })) old_level
    ]
  ]

  finish_static : Bytes → StaticResult X509 → Mgr X509 → Option (MapperInstance X509) × Mgr X509
  finish_static name (init_failed l) s = (none, record s { debug_level = l })
  finish_static name (searched none l) s = (none, record s { debug_level = l })
  finish_static name (searched (some m) l) s = (
    some
        (record { module_handler = none; module_name = name; module_path = none; module_data = m }),
    record s { debug_level = l },
  )

  finish_dynamic :
      Bytes → Bytes → ℕ → InitResult X509 → Mgr X509 → Option (MapperInstance X509) × Mgr X509
  finish_dynamic name libname h (failed l) s =
      (none, record s { debug_level = l; handles = dlclose h s.handles })
  finish_dynamic name libname h (inited m l) s = (
    some (record {
      module_handler = some h;
      module_name = name;
      module_path = some libname;
      module_data = record m { dbg_level = l };
    }),
    s,
  )

  append_module : Option (MapperInstance X509) × Mgr X509 → Mgr X509
  append_module (none, s) = s
  append_module (some m, s) = record s { root_mapper_list = s.root_mapper_list ++ m ∷ [] }

  module _ {Block : Type 0} (env : Loader X509 Block) where
    load_dynamic : Option Block → Bytes → Bytes → Mgr X509 → Option (MapperInstance X509) × Mgr X509
    unfolding finish_dynamic
    load_dynamic blk name libname s = elim (env.dlopen libname) [
      | none ↦ (none, s)
      | some h ↦
          let opened = record s { handles = h ∷ s.handles } in
          elim (env.dlsym h) [
            | none ↦ (none, record opened { handles = dlclose h opened.handles })
            | some init ↦ finish_dynamic name libname h (init blk name s.debug_level) opened
          ]
    ]

    -- A module whose path is absent or "internal" is looked for among the static ones.
    load_at :
        Option Block → Option Bytes → Bytes → Mgr X509 → Option (MapperInstance X509) × Mgr X509
    unfolding finish_static load_static load_dynamic
    load_at blk none name s =
        finish_static name
          (load_static env.static_mapper_list blk name s.debug_level none s.debug_level) s
    load_at blk (some libname) name s =
        if streq libname (codes "internal")
        then finish_static name
            (load_static env.static_mapper_list blk name s.debug_level none s.debug_level) s
        else load_dynamic blk name libname s

    abbrev path_of : Option Block → Option Bytes
    path_of none = none
    path_of (some b) = env.get_module b

    unfoldable pub load_module : Bytes → Mgr X509 → Option (MapperInstance X509) × Mgr X509
    unfolding load_at
    load_module name s = if not env.has_root then (none, s) else elim (env.find_blocks name) [
      | none ↦ (none, s)
      | some bs ↦ load_at (first bs) (path_of (first bs)) name s
    ]

    -- The loop of `load_mappers` over the names of `use_mappers`.
    unfoldable pub load_list : List Bytes → Mgr X509 → Mgr X509
    unfolding append_module
    load_list [] s = s
    load_list (name ∷ names) s = load_list names (append_module (load_module name s))

    unfoldable pub load_mappers : Mgr X509 → Mgr X509
    unfolding load_list
    load_mappers s =
        let s0 = record s { root_mapper_list = [] } in
        if not env.has_root
        then s0
        else elim env.use_mappers [ none ↦ s0 | some names ↦ load_list names s0 ]

  -- The level is set to the module's and then back around the call of `deinit`.
  pub unload_module : MapperInstance X509 → Mgr X509 → Mgr X509
  unload_module m s =
      let called = if m.module_data.deinit then m.module_name ∷ s.deinited else s.deinited in
      record s { handles = close_handle m.module_handler s.handles; deinited = called }

  unload_list : List (MapperInstance X509) → Mgr X509 → Mgr X509
  unload_list [] s = record s { root_mapper_list = [] }
  unload_list (m ∷ ms) s = unload_list ms (unload_module m s)

  pub unload_mappers : Mgr X509 → Mgr X509
  unfolding unload_list unload_module
  unload_mappers s = unload_list s.root_mapper_list s

  -- The loop of `find_user`: a login counts only if the mapper reports a match. The number is the
  -- debug level, set to the mapper's for the call and back to `old_level` after it.
  unfoldable pub find_in : ℕ → List (MapperInstance X509) → X509 → ℕ → Option Bytes × ℕ
  find_in old_level [] x509 level = (none, level)
  find_in old_level (item ∷ items) x509 level = elim item.module_data.finder [
    | none ↦ find_in old_level items x509 level
    | some finder ↦ elim (finder x509).0 [
      | none ↦ find_in old_level items x509 old_level
      | some login ↦ elim (finder x509).1 [
        | true ↦ (some login, old_level)
        | false ↦ find_in old_level items x509 old_level
      ]
    ]
  ]

  unfoldable pub find_user : Mgr X509 → Option X509 → Option Bytes × Mgr X509
  unfolding find_in
  find_user s none = (none, s)
  find_user s (some x509) =
      let (login, level) = find_in s.debug_level s.root_mapper_list x509 s.debug_level in
      (login, record s { debug_level = level })

  unfoldable pub match_in : ℕ → List (MapperInstance X509) → X509 → Bytes → ℕ → ℤ × ℕ
  match_in old_level [] x509 login level = (pos 0, level)
  match_in old_level (item ∷ items) x509 login level = elim item.module_data.matcher [
    | none ↦ match_in old_level items x509 login level
    | some matcher ↦ elim (is_pos (matcher x509 login)) [
      | true ↦ (matcher x509 login, old_level)
      | false ↦ match_in old_level items x509 login old_level
    ]
  ]

  unfoldable pub match_user : Mgr X509 → Option X509 → Option Bytes → ℤ × Mgr X509
  unfolding match_in
  match_user s none login = (negsuc 0, s)
  match_user s (some x509) none = (pos 0, s)
  match_user s (some x509) (some login) =
      let (res, level) = match_in s.debug_level s.root_mapper_list x509 login s.debug_level in
      (res, record s { debug_level = level })

  -- The names and entries that `inspect_certificate` prints, in order.
  inspect_in : List (MapperInstance X509) → X509 → List (Bytes × List Bytes)
  inspect_in [] x509 = []
  inspect_in (item ∷ items) x509 = elim item.module_data.entries [
    | none ↦ inspect_in items x509
    | some entries ↦ elim (entries x509) [
      | none ↦ inspect_in items x509
      | some lines ↦ (item.module_name, lines) ∷ inspect_in items x509
    ]
  ]

  pub inspect_certificate : Mgr X509 → Option X509 → List (Bytes × List Bytes)
  unfolding inspect_in
  inspect_certificate s none = []
  inspect_certificate s (some x509) = inspect_in s.root_mapper_list x509
