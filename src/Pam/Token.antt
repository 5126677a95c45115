-- ===== src/Pam/Token.antt =====
-- pam_pkcs11/pam_pkcs11.c: the first half of `pam_sm_authenticate`, from the configuration to the
-- slot of the token.
pub mod LastLook
use pam_pkcs.Base.{
  ℕ, Bool, true, false, ◌&&◌, ◌||◌, not, List, [], ◌∷◌, Option, none, some, Bytes, if◌then◌else◌,
  is_some, ◌==◌,
}
use pam_pkcs.Base.Int.{is_zero}
use pam_pkcs.Base.Cstr.{codes, streq, starts_with}
use pam_pkcs.Strings.{is_empty_str}
use pam_pkcs.Pkcs11.Slots.{
  Slot, find_slot_by_number_and_label, find_slot_by_slotlabel,
  find_slot_by_slotlabel_and_tokenlabel, find_slot_by_number, to_unsigned, wait_for_token,
  wait_for_token_by_slotlabel,
}
use pam_pkcs.Pam.World.{
  PamCode, authinfo_unavail, user_unknown, ignore, is_success, Config, Env, World, go, stop,
  blocked, Res, tell, release_module, pam_fail,
}
use pam_pkcs.Pam.Pin.{is_minus_one}

-- `is_spaced_str`, of pam_pkcs11.c: null, empty or blank.
unfoldable pub is_spaced_str : Option Bytes → Bool
unfolding is_empty_str
is_spaced_str s = is_empty_str s

-- Exactly one of `slot_description` and `slot_num` is set.
unfoldable pub slot_is_configured : Config → Bool
slot_is_configured cfg = not (
    (is_some cfg.slot_description && not (is_minus_one cfg.slot_num))
    || (not (is_some cfg.slot_description) && is_minus_one cfg.slot_num))

-- The display is on a remote host.
unfoldable pub is_remote : Option Bytes → Bool
unfolding starts_with
is_remote none = false
is_remote (some []) = false
is_remote (some (c ∷ s)) = not (starts_with (c ∷ s) (codes "localhost:")) && not (c == b':')

-- A name of the list `screen_savers` is that of the service.
unfoldable pub is_screen_saver : Option (List Bytes) → Bytes → Bool
is_screen_saver none service = false
is_screen_saver (some []) service = false
is_screen_saver (some (s ∷ ss)) service = streq s service || is_screen_saver (some ss) service

-- `rv` keeps its value 0 where neither is set, which `check_configuration` excludes.
unfoldable pub find_slot : Config → List Slot → Option Bytes → Option ℕ
find_slot cfg slots token = elim cfg.slot_description [
  | some d ↦ find_slot_by_slotlabel_and_tokenlabel slots d token
  | none ↦ find_slot_by_number_and_label slots cfg.slot_num token
]

-- The last look for a token, without its label.
unfoldable pub find_any_slot : Config → List Slot → Option ℕ
find_any_slot cfg slots = elim cfg.slot_description [
  | some d ↦ find_slot_by_slotlabel slots d
  | none ↦ find_slot_by_number slots (to_unsigned cfg.slot_num)
]

-- `rv != PAM_SUCCESS || user == NULL || user[0] == '\0'`
lacks_user : PamCode × Option Bytes → Bool
lacks_user (rv, none) = true
lacks_user (rv, some []) = true
lacks_user (rv, some (c ∷ s)) = not (is_success rv)

module _ {X509 Block : Type 0} (env : Env X509 Block) where
  unfoldable pub check_configuration : Config → World X509 → Res X509 Config
  unfolding slot_is_configured is_remote
  check_configuration cfg w =
      if not (slot_is_configured cfg)
      then (stop authinfo_unavail, w)
      else if is_remote env.display
      then (stop authinfo_unavail, w)
      else if not (is_zero env.crypto_init)
      then (stop authinfo_unavail, w)
      else (go cfg, w)

  unfoldable pub configure : World X509 → Res X509 Config
  unfolding check_configuration
  configure w = elim env.configuration [
    | none ↦ (stop authinfo_unavail, w)
    | some cfg ↦ check_configuration cfg w
  ]

  -- The user name if `card_only` is off: asked for where PAM has none.
  unfoldable pub ask_login : World X509 → Res X509 (Option Bytes)
  unfolding lacks_user
  ask_login w =
      if lacks_user env.user_item
      then (if is_success env.get_user.0 then (go env.get_user.1, w) else (stop user_unknown, w))
      else (go env.user_item.1, w)

  unfoldable pub get_login : Config → World X509 → Res X509 (Option Bytes)
  unfolding is_screen_saver ask_login
  get_login cfg w =
      if cfg.card_only
      then (if is_screen_saver cfg.screen_savers env.service && not (is_some env.login_token_name)
          then (stop ignore, w)
          else (go env.user_item.1, w))
      else ask_login w

  unfoldable pub open_module : Config → World X509 → Res X509 (Unit {0})
  open_module cfg w =
      if not (is_zero env.load_module)
      then (stop authinfo_unavail, tell cfg 2302 w)
      else if not (is_zero env.init_module)
      then (
        stop authinfo_unavail,
        tell cfg 2304 (release_module (record w { module_loaded = true })),
      )
      else (go tt, record w { module_loaded = true })

  unfoldable pub wait_slot : Config → Option (ℕ × List Slot)
  wait_slot cfg = elim cfg.slot_description [
    | some d ↦ wait_for_token_by_slotlabel env.slots env.polls d env.login_token_name
    | none ↦ wait_for_token env.slots env.polls cfg.slot_num env.login_token_name
  ]

  from_wait : Option Bytes → Option (ℕ × List Slot) → World X509 → Res X509 (ℕ × Option Bytes)
  from_wait user none w = (blocked, w)
  from_wait user (some (i, slots)) w = (go (i, user), w)

  from_last_look : Config → Option ℕ → World X509 → Res X509 (ℕ × Option Bytes)
  from_last_look cfg (some i) w = (go (i, env.get_user.1), w)
  from_last_look cfg none w = (stop authinfo_unavail, release_module (tell cfg 2310 w))

  -- The search for the token goes on where the first one has failed.
  unfoldable pub no_token : Config → Option Bytes → World X509 → Res X509 (ℕ × Option Bytes)
  unfolding wait_slot find_any_slot from_wait from_last_look
  no_token cfg user w =
      if not cfg.card_only
      then (stop authinfo_unavail, release_module w)
      else if is_some env.login_token_name || cfg.wait_for_card
      then from_wait user (wait_slot cfg) w
      else if is_some user
      then (stop authinfo_unavail, release_module (tell cfg 2308 w))
      else from_last_look cfg (find_any_slot cfg env.slots) w

  -- The slot of the token, and the user name.
  unfoldable pub find_token : Config → Option Bytes → World X509 → Res X509 (ℕ × Option Bytes)
  unfolding find_slot no_token
  find_token cfg user w = elim (find_slot cfg env.slots env.login_token_name) [
    | some i ↦ (go (i, user), w)
    | none ↦ no_token cfg user (tell cfg 2306 w)
  ]

  unfoldable pub open_session : Config → ℕ → World X509 → Res X509 (Unit {0})
  open_session cfg slot w =
      if is_zero (env.open_session slot)
      then (go tt, record w { session_open = true })
      else (stop (pam_fail cfg), release_module (tell cfg 2312 w))
