-- ===== src/Tools/Options.antt =====
-- The options of tools/card_eventmgr.c and tools/pkcs11_eventmgr.c. The parser of the file, `sscanf` with
-- "name=%d" and the compiled-in names are parameters.
pub mod Words
use pam_pkcs.Base.{
  Bool, true, false, not, ◌&&◌, ◌||◌, List, [], ◌∷◌, Option, none, some, Bytes, if◌then◌else◌,
  is_some,
}
use pam_pkcs.Base.Int.{ℤ, pos, is_pos}
use pam_pkcs.Base.Cstr.{codes, streq, strchr, strstr}

-- The items of the program's block, each with a value for where there is none.
pub record Block : Type 0 where
  pub get_bool : Bytes → Bool → Bool
  pub get_int : Bytes → ℤ → ℤ
  pub get_str : Bytes → Option Bytes → Option Bytes

-- The block of a name in a file, none where the file is not read or has no such block; the number that
-- `sscanf` reads of an argument behind a name, if one stands there; and DEF_CONFIG_FILE.
pub record Scconf : Type 0 where
  pub root : Bytes → Bytes → Option Block
  pub sscanf : Bytes → Bytes → Option ℤ
  pub def_config_file : Bytes

abbrev pub contains : Bytes → Bytes → Bool
contains arg word = is_some (strstr arg word)

-- What stands behind the first '='; none where there is none, which the callers have excluded.
abbrev pub value_of : Bytes → Option Bytes
value_of arg = elim (strchr arg b'=') [ none ↦ none | some (name, value) ↦ some value ]

abbrev pub or_else {ℓ} : {A : Type ℓ} → Option A → A → A
or_else none x = x
or_else (some y) x = y

-- The first argument with "config_file=".
unfoldable pub cfgfile_of : Bytes → List Bytes → Bytes
cfgfile_of cfgfile [] = cfgfile
cfgfile_of cfgfile (arg ∷ argv) =
    let rest = cfgfile_of cfgfile argv in
    if contains arg (codes "config_file=") then or_else (value_of arg) cfgfile else rest

-- What is behind the name of the program.
abbrev pub behind_name : List Bytes → List Bytes
behind_name [] = []
behind_name (name ∷ args) = args

-- The loop over the arguments, none where one makes the program end with its usage.
unfoldable pub set_all {ℓ} : {S : Type ℓ} → (Bytes → S → Option S) → List Bytes → S → Option S
set_all set_one [] s = some s
set_all set_one (arg ∷ argv) s = elim (set_one arg s) [
  | none ↦ none
  | some s1 ↦ set_all set_one argv s1
]

-- The settings of card_eventmgr.
pub record CardSettings : Type 0 where
  pub debug : Bool
  pub daemonize : Bool
  pub timeout : ℤ
  pub timeout_limit : ℤ
  pub kill : Bool
  pub pidfile : Option Bytes

-- The settings of pkcs11_eventmgr.
pub record PollSettings : Type 0 where
  pub debug : Bool
  pub daemonize : Bool
  pub polling_time : ℤ
  pub expire_time : ℤ
  pub pkcs11_module : Option Bytes

abbrev pub card_defaults : CardSettings
card_defaults = record {
  debug = false;
  daemonize = false;
  timeout = pos 1000;
  timeout_limit = pos 0;
  kill = false;
  pidfile = none;
}

abbrev pub poll_defaults : PollSettings
poll_defaults = record {
  debug = false;
  daemonize = false;
  polling_time = pos 1;
  expire_time = pos 0;
  pkcs11_module = none;
}

-- The items of the block.
abbrev pub card_items : Block → CardSettings → CardSettings
card_items root s = record s {
  debug = root.get_bool (codes "debug") s.debug;
  daemonize = root.get_bool (codes "daemon") s.daemonize;
  timeout = root.get_int (codes "timeout") s.timeout;
  timeout_limit = root.get_int (codes "timeout_limit") (pos 0);
}

abbrev pub poll_items : Block → PollSettings → PollSettings
poll_items root s = record {
  debug = root.get_bool (codes "debug") s.debug;
  daemonize = root.get_bool (codes "daemon") s.daemonize;
  polling_time = root.get_int (codes "polling_time") s.polling_time;
  expire_time = root.get_int (codes "expire_time") s.expire_time;
  pkcs11_module = root.get_str (codes "pkcs11_module") s.pkcs11_module;
}

module _ (conf : Scconf) where
  unfoldable pub card_config : Bytes → CardSettings → Option CardSettings
  card_config cfgfile s = elim (conf.root cfgfile (codes "card_eventmgr")) [
    | none ↦ none
    | some root ↦ some (card_items root s)
  ]

  unfoldable pub card_arg : Bytes → CardSettings → Option CardSettings
  card_arg arg s =
      if streq (codes "daemon") arg
      then some (record s { daemonize = true })
      else if streq (codes "nodaemon") arg
      then some (record s { daemonize = false })
      else if streq (codes "kill") arg
      then some (record s { kill = true })
      else if contains arg (codes "timeout=")
      then some (record s { timeout = or_else (conf.sscanf (codes "timeout=") arg) s.timeout })
      else if contains arg (codes "timeout_limit=")
      then some (record s {
        timeout_limit = or_else (conf.sscanf (codes "timeout_limit=") arg) s.timeout_limit;
      })
      else if contains arg (codes "pidfile=")
      then some (record s { pidfile = value_of arg })
      else if contains arg (codes "debug") || contains arg (codes "nodebug")
      then some s
      else if contains arg (codes "config_file=")
      then some s
      else none

  -- None where the program ends.
  unfoldable pub card_parse_args : List Bytes → Option CardSettings
  unfolding card_config card_arg cfgfile_of set_all
  card_parse_args argv = elim (card_config (cfgfile_of conf.def_config_file argv) card_defaults) [
    | none ↦ none
    | some s ↦ set_all card_arg (behind_name argv) s
  ]

  unfoldable pub poll_config : Bytes → PollSettings → Option PollSettings
  poll_config cfgfile s = elim (conf.root cfgfile (codes "pkcs11_eventmgr")) [
    | none ↦ none
    | some root ↦ some (poll_items root s)
  ]

  -- An argument with "nodebug" has "debug" as well.
  unfoldable pub poll_arg : Bytes → PollSettings → Option PollSettings
  poll_arg arg s =
      if streq (codes "daemon") arg
      then some (record s { daemonize = true })
      else if streq (codes "nodaemon") arg
      then some (record s { daemonize = false })
      else if contains arg (codes "polling_time=")
      then some (record s {
        polling_time = or_else (conf.sscanf (codes "polling_time=") arg) s.polling_time;
      })
      else if contains arg (codes "expire_time=")
      then some (record s {
        expire_time = or_else (conf.sscanf (codes "expire_time=") arg) s.expire_time;
      })
      else if contains arg (codes "pkcs11_module=")
      then some (record s { pkcs11_module = value_of arg })
      else if contains arg (codes "debug") || contains arg (codes "nodebug")
      then some s
      else if contains arg (codes "config_file=")
      then some s
      else none

  unfoldable pub poll_parse_args : List Bytes → Option PollSettings
  unfolding poll_config poll_arg cfgfile_of set_all
  poll_parse_args argv = elim (poll_config (cfgfile_of conf.def_config_file argv) poll_defaults) [
    | none ↦ none
    | some s ↦ set_all poll_arg (behind_name argv) s
  ]

-- What `main` of card_eventmgr does before it looks for readers: it ends with the usage, with a signal to a
-- process or without, behind the label `end` or with 1; or it goes on, with the file of the process.
pub data Start : Type 0 where
  usage asked ends fails : Start
  kills : ℤ → Start
  runs : Option Bytes → Start

-- Whether `daemon` and SCardEstablishContext succeed, and the number in a file of a process, 0 if it cannot
-- be opened or has none.
pub record System : Type 0 where
  pub daemon : Bool
  pub establish_context : Bool
  pub read_pidfile : Bytes → ℤ

kill_previous : System → Option Bytes → Start
kill_previous sys none = asked
kill_previous sys (some pidfile) =
    let pid = sys.read_pidfile pidfile in if is_pos pid then kills pid else asked

unfoldable pub card_main : System → Option CardSettings → Start
unfolding kill_previous
card_main sys none = usage
card_main sys (some s) =
    if s.kill
    then kill_previous sys s.pidfile
    else if s.daemonize && not sys.daemon
    then ends
    else if not sys.establish_context
    then fails
    else runs s.pidfile
