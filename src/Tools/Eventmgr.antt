-- ===== src/Tools/Eventmgr.antt =====
-- tools/pkcs11_eventmgr.c, in the build with OpenSSL: the commands that are run for an event, and the
-- loop that watches the card. The configuration, the shell and the PKCS #11 module are parameters.
pub mod Reports
use pam_pkcs.Base.{
  ℕ, ◌+◌, Bool, true, false, not, List, [], ◌∷◌, Option, none, some, Bytes, if◌then◌else◌, ◌==◌,
  leb,
}
use pam_pkcs.Base.Int.{ℤ, pos, negsuc, is_zero}
use pam_pkcs.Base.Cstr.{codes, streq}

pub data OnError : Type 0 where
  onerror_ignore onerror_return onerror_quit : OnError

pub data CardState : Type 0 where
  card_present card_not_present card_error : CardState

pub data Event : Type 0 where
  card_insert card_remove expired : Event

-- The block of an event: its item "on_error", and its list "action".
pub record EventBlock : Type 0 where
  pub on_error : Option Bytes
  pub actions : List Bytes

-- The options of the program; the first block of an event, none if there is no such block; and the
-- status of a command that is run after others, the newest first.
pub record Setup : Type 0 where
  pub polling_time : ℕ
  pub expire_time : ℕ
  pub find_block : Event → Option EventBlock
  pub my_system : List Bytes → Bytes → ℤ

-- What the module answers in a round of the loop: C_GetSlotList and its number of tokens, C_Finalize
-- and C_Initialize.
pub record Round : Type 0 where
  pub list_rv : ℕ
  pub num_tokens : ℕ
  pub finalize_rv : ℕ
  pub initialize_rv : ℕ

-- The variables of the loop, whether a change was seen (`first_loop` is not 0), and the events and
-- commands so far, newest first.
pub record Watch : Type 0 where
  pub changed : Bool
  pub old_state : CardState
  pub expire_count : ℕ
  pub events : List Event
  pub commands : List Bytes

-- An action goes on with what `execute_event` returns, or ends the program.
pub data Executed : Type 0 where
  returns : ℤ → List Bytes → Executed
  exits : List Bytes → Executed

-- A round goes on, leaves the loop, ends in `main` with CARD_ERROR, or in an action.
pub data Next : Type 0 where
  loops : Watch → Next
  leaves fails : Watch → Next
  quits : Next

unfoldable pub on_error_of : Bytes → OnError
on_error_of s =
    if streq s (codes "ignore")
    then onerror_ignore
    else if streq s (codes "return")
    then onerror_return
    else if streq s (codes "quit")
    then onerror_quit
    else onerror_ignore

abbrev pub same_state : CardState → CardState → Bool
same_state card_present card_present = true
same_state card_not_present card_not_present = true
same_state card_error card_error = true
same_state _ _ = false

-- C_GetSlotList with its answer.
unfoldable pub get_a_token : Round → CardState
get_a_token r =
    if not (r.list_rv == 0)
    then card_error
    else if r.num_tokens == 0
    then card_not_present
    else card_present

-- The loop over the actions of an event.
unfoldable pub run_actions : (List Bytes → Bytes → ℤ) → OnError → List Bytes → List Bytes → Executed
run_actions my_system onerr [] done = returns (pos 0) done
run_actions my_system onerr (action ∷ actions) done =
    let rest = run_actions my_system onerr actions (action ∷ done) in
    if is_zero (my_system done action) then rest else elim onerr [
      | onerror_ignore ↦ rest
      | onerror_return ↦ returns (pos 0) (action ∷ done)
      | onerror_quit ↦ exits (action ∷ done)
    ]

abbrev pub on_error : EventBlock → OnError
on_error block = elim block.on_error [
  | none ↦ on_error_of (codes "ignore")
  | some s ↦ on_error_of s
]

module _ (setup : Setup) where
  unfoldable pub execute_event : Event → List Bytes → Executed
  unfolding run_actions on_error_of
  execute_event event done = elim (setup.find_block event) [
    | none ↦ returns (negsuc 0) done
    | some block ↦ run_actions setup.my_system (on_error block) block.actions done
  ]

  -- The loop does not look at what `execute_event` returns.
  unfoldable pub fire : Event → Watch → Next
  unfolding execute_event
  fire event w = elim (execute_event event w.commands) [
    | returns rv done ↦ loops (record w { events = event ∷ w.events; commands = done })
    | exits done ↦ quits
  ]

  -- C_Finalize and C_Initialize, and where to go if they succeed.
  unfoldable pub restart : Round → (Watch → Next) → Next → Next
  restart r next (loops w) =
      if not (r.finalize_rv == 0)
      then fails w
      else if not (r.initialize_rv == 0)
      then fails w
      else next w
  restart r next (leaves w) = leaves w
  restart r next (fails w) = fails w
  restart r next quits = quits

  reset_count : Next → Next
  reset_count (loops w) = loops (record w { expire_count = 0 })
  reset_count (leaves w) = leaves w
  reset_count (fails w) = fails w
  reset_count quits = quits

  unfoldable pub unchanged : CardState → Watch → Next
  unfolding fire reset_count
  unchanged new_state w =
      let count = w.expire_count + setup.polling_time in
      if setup.expire_time == 0
      then loops w
      else if same_state new_state card_present
      then loops w
      else if leb setup.expire_time count
      then reset_count (fire expired (record w { expire_count = count }))
      else loops (record w { expire_count = count })

  -- The event of a change but the first.
  unfoldable pub report : Round → CardState → Watch → Next
  unfolding fire restart
  report r card_not_present w = restart r loops (fire card_remove w)
  report r card_present w = fire card_insert w
  report r card_error w = loops w

  unfoldable pub change : Round → CardState → Watch → Next
  unfolding report
  change r new_state w =
      let w1 = record w { old_state = new_state; expire_count = 0; changed = true } in
      if w.changed then report r new_state w1 else loops w1

  -- The body of the loop.
  unfoldable pub round : Round → Watch → Next
  unfolding get_a_token restart unchanged change
  round r w = elim (get_a_token r) [
    | card_error ↦ restart r leaves (loops w)
    | card_present ↦
        if same_state w.old_state card_present
        then unchanged card_present w
        else change r card_present w
    | card_not_present ↦
        if same_state w.old_state card_not_present
        then unchanged card_not_present w
        else change r card_not_present w
  ]

  -- The loop over the rounds that the module answers.
  unfoldable pub watch : List Round → Watch → Next
  unfolding round
  watch [] w = loops w
  watch (r ∷ rounds) w = elim (round r w) [
    | loops w1 ↦ watch rounds w1
    | leaves w1 ↦ leaves w1
    | fails w1 ↦ fails w1
    | quits ↦ quits
  ]

abbrev pub start : Watch
start = record {
  changed = false;
  old_state = card_not_present;
  expire_count = 0;
  events = [];
  commands = [];
}
