-- ===== src/Tools/CardEventmgr.antt =====
-- The loop of tools/card_eventmgr.c, that watches the readers of PC/SC, and the commands that are run for
-- an event. The configuration, the shell and PC/SC are parameters; the allocations succeed.
pub mod Reports
pub mod Ends
use pam_pkcs.Base.{
  ℕ, suc, Bool, true, false, not, ◌&&◌, List, [], ◌∷◌, map, Option, none, some, Bytes,
  if◌then◌else◌, ◌==◌,
}
use pam_pkcs.Base.Int.{ℤ, pos, negsuc, is_zero}
use pam_pkcs.Base.Cstr.{codes}
use pam_pkcs.Tools.Eventmgr.{
  EventBlock, Executed, returns, exits, on_error, run_actions, Event, card_insert, card_remove,
}

-- The flags of a reader's `dwEventState` that are looked at: SCARD_STATE_CHANGED, _UNKNOWN, _EMPTY and
-- _PRESENT.
pub record ReaderState : Type 0 where
  pub changed : Bool
  pub unknown : Bool
  pub empty : Bool
  pub present : Bool

-- What the system answers while one step of the program runs: the size that the first SCardListReaders of
-- a scan gives and the bytes of the second; whether SCardListReaders succeeds, and with which size, where it
-- is called in a loop; whether SCardGetStatusChange gives SCARD_S_SUCCESS or SCARD_E_TIMEOUT, and the states;
-- and whether a signal has set `AraKiri` until it is read.
pub record Tick : Type 0 where
  pub scan_size : ℕ
  pub scan_bytes : Bytes
  pub list_ok : Bool
  pub list_size : ℕ
  pub status_ok : Bool
  pub event_states : List ReaderState
  pub kill : Bool

-- The first block of an event, none if there is no such block; and the status of a command that is run after
-- others, the newest first.
pub record Shell : Type 0 where
  pub find_block : Event → Option EventBlock
  pub my_system : List Bytes → Bytes → ℤ

-- The program is before the label `get_readers`, in the loop that waits for a first reader, or before the
-- test of the loop over the events; or it has ended behind the label `end`, in an action, or by a reading
-- outside of the list of readers.
pub data Phase : Type 0 where
  scans waits polls ended quits outside : Phase

-- The variables of `main`, the current states of the readers, none for SCARD_STATE_UNAWARE; whether the
-- file of the process is there; and the events and commands so far, newest first.
pub record Watch : Type 0 where
  pub phase : Phase
  pub first_loop : Bool
  pub readers_old : ℕ
  pub readers : List Bytes
  pub current : List (Option ReaderState)
  pub pidfile : Bool
  pub events : List Event
  pub commands : List Bytes

-- The names in the list of readers, each with its null, to an empty one: none where the bytes end before.
-- The argument is what was read of a name, if one was begun.
add_char : ℕ → Option (List Bytes) → Option (List Bytes)
add_char c none = none
add_char c (some []) = some ((c ∷ []) ∷ [])
add_char c (some (name ∷ names)) = some ((c ∷ name) ∷ names)

add_name : Option (List Bytes) → Option (List Bytes)
add_name none = none
add_name (some names) = some ([] ∷ names)

unfoldable pub split_names : Bool → Bytes → Option (List Bytes)
unfolding add_char add_name
split_names begun [] = none
split_names begun (c ∷ s) =
    let inside = split_names true s in
    let behind = split_names false s in
    if c == 0 then (if begun then add_name behind else some []) else add_char c inside

-- The states that are known of the readers after a look.
unfoldable pub update_states :
    List ReaderState → List (Option ReaderState) → List (Option ReaderState)
update_states [] current = current
update_states (s ∷ states) [] = []
update_states (s ∷ states) (c ∷ current) =
    (if s.changed then some s else c) ∷ update_states states current

abbrev pub is_polling : Phase → Bool
is_polling polls = true
is_polling scans = false
is_polling waits = false
is_polling ended = false
is_polling quits = false
is_polling outside = false

-- Behind the loop over the readers.
unfoldable pub first_done : Watch → Watch
first_done w = if is_polling w.phase then record w { first_loop = false } else w

unfoldable pub end : Watch → Watch
end w = record w { phase = ended; pidfile = false }

-- What is done with the list of readers.
listed : ℕ → Watch → Option (List Bytes) → Watch
unfolding end
listed size w none = record w { phase = outside }
listed size w (some []) =
    if w.first_loop
    then end (record w { readers_old = size })
    else record w { phase = waits; readers_old = size }
listed size w (some (name ∷ names)) = record w {
  phase = polls;
  readers_old = size;
  readers = name ∷ names;
  current = none ∷ map (λ n. none) names;
}

unfoldable pub scan : Tick → Watch → Watch
unfolding listed split_names
scan t w = listed t.scan_size w (split_names false t.scan_bytes)

-- The loop that waits for a first reader does not look at `AraKiri`.
unfoldable pub wait : Tick → Watch → Watch
wait t w = if t.list_ok && t.list_size == w.readers_old then w else record w { phase = scans }

module _ (shell : Shell) where
  unfoldable pub execute_event : Event → List Bytes → Executed
  unfolding run_actions
  execute_event event done = elim (shell.find_block event) [
    | none ↦ returns (negsuc 0) done
    | some block ↦ run_actions shell.my_system (on_error block) block.actions done
  ]

  -- `thats_all_folks` and `exit` leave the file of the process as it is.
  finish : Event → Watch → Executed → Watch
  finish event w (returns rv done) = record w { events = event ∷ w.events; commands = done }
  finish event w (exits done) = record w {
    phase = quits;
    events = event ∷ w.events;
    commands = done;
  }

  unfoldable pub fire : Event → Watch → Watch
  unfolding finish execute_event
  fire event w = finish event w (execute_event event w.commands)

  -- An event, if the program still runs and the flag is set.
  unfoldable pub fire_if : Bool → Event → Watch → Watch
  unfolding fire
  fire_if flag event w = if flag && is_polling w.phase then fire event w else w

  unfoldable pub look_at : ReaderState → Watch → Watch
  unfolding fire_if
  look_at s w =
      if not s.changed
      then w
      else if w.first_loop
      then w
      else if s.unknown
      then record w { phase = scans }
      else fire_if s.present card_insert (fire_if s.empty card_remove w)

  -- The loop over the readers, that a `goto` or an action may leave.
  unfoldable pub look_at_readers : List ReaderState → Watch → Watch
  unfolding look_at
  look_at_readers [] w = w
  look_at_readers (s ∷ states) w =
      let rest = look_at_readers states (look_at s w) in
      if is_polling (look_at s w).phase then rest else look_at s w

  -- The test of the loop over the events, and its body.
  unfoldable pub poll : Tick → Watch → Watch
  unfolding end look_at_readers first_done update_states
  poll t w =
      if not t.status_ok
      then end w
      else if t.list_ok && not (t.list_size == w.readers_old)
      then record w { phase = scans }
      else if t.kill
      then end w
      else first_done (
          look_at_readers t.event_states
            (record w { current = update_states t.event_states w.current }))

  unfoldable pub go_on : Phase → Tick → Watch → Watch
  unfolding scan wait poll
  go_on scans t w = scan t w
  go_on waits t w = wait t w
  go_on polls t w = poll t w
  go_on ended t w = w
  go_on quits t w = w
  go_on outside t w = w

  unfoldable pub step : Tick → Watch → Watch
  unfolding go_on
  step t w = go_on w.phase t w

  unfoldable pub run : List Tick → Watch → Watch
  unfolding step
  run [] w = w
  run (t ∷ ticks) w = run ticks (step t w)

-- `main` before the label `get_readers`, with or without an argument `pidfile`.
abbrev pub start : Bool → Watch
start pidfile = record {
  phase = scans;
  first_loop = true;
  readers_old = 0;
  readers = [];
  current = [];
  pidfile = pidfile;
  events = [];
  commands = [];
}
