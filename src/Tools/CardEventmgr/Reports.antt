-- ===== src/Tools/CardEventmgr/Reports.antt =====
-- What the loop of tools/card_eventmgr.c reports of the states of the readers.
use pam_pkcs.Base.{
  ℕ, ◌≡◌, ◌≢◌, ◌⊎◌, inl, inr, refl, ap, sym, subst, ◌∙◌, arith, Bool, true, false, List, [], ◌∷◌,
  ◌++◌, some, Bytes, All, if◌then◌else◌, Bool-cases, Option-cases, if-each,
}
use mathlib.Core.List.{reverse_aux}
use pam_pkcs.Base.Int.{negsuc}
use pam_pkcs.Tools.Eventmgr.{EventBlock, onerror_quit, on_error, Event, card_insert, card_remove}
use pam_pkcs.Tools.Eventmgr.Reports.{Returns, run_actions-Returns}
use pam_pkcs.Tools.CardEventmgr.{
  ReaderState, Tick, Shell, polls, Watch, execute_event, finish, fire, fire_if, is_polling, look_at,
  look_at_readers, first_done, update_states, poll, go_on, step, run,
}

-- No event is set up to end the program on an error.
abbrev pub NeverQuits : Shell → Type 0
NeverQuits shell =
    (event : Event) (block : EventBlock)
    → shell.find_block event ≡ some block
    → on_error block ≢ onerror_quit

abbrev pub flag_event : Bool → Event → List Event
flag_event flag event = if flag then event ∷ [] else []

-- The events of a reader, in order.
abbrev pub reports_of : ReaderState → List Event
reports_of s =
    if s.changed then flag_event s.empty card_remove ++ flag_event s.present card_insert else []

abbrev pub reports : List ReaderState → List Event
reports [] = []
reports (s ∷ states) = reports_of s ++ reports states

abbrev pub all_reports : List Tick → List Event
all_reports [] = []
all_reports (t ∷ ticks) = reports t.event_states ++ all_reports ticks

-- A reader that did not become unknown.
abbrev pub IsReader : ReaderState → Type 0
IsReader s = (s.changed ≡ false) ⊎ (s.unknown ≡ false)

-- PC/SC answers, the list of readers is as it was, and no signal has come.
abbrev pub IsSteady : ℕ → Tick → Type 0
IsSteady size t =
    (t.status_ok ≡ true) × (t.list_size ≡ size) × (t.kill ≡ false) × All IsReader t.event_states

-- The program goes on, with further events.
record Goes (es : List Event) (w w1 : Watch) : Type 0 where
  polling : w1.phase ≡ polls
  first : w1.first_loop ≡ w.first_loop
  old : w1.readers_old ≡ w.readers_old
  told : w1.events ≡ reverse_aux es w.events

reverse_aux-append :
    (xs ys acc : List Event) → reverse_aux (xs ++ ys) acc ≡ reverse_aux ys (reverse_aux xs acc)
reverse_aux-append [] ys acc = refl
reverse_aux-append (x ∷ xs) ys acc = reverse_aux-append xs ys (x ∷ acc)

Goes-then :
    (xs ys : List Event) (w w1 w2 : Watch) → Goes xs w w1 → Goes ys w1 w2 → Goes (xs ++ ys) w w2
Goes-then xs ys w w1 w2 g h = record {
  polling = h.polling;
  first = h.first ∙ g.first;
  old = h.old ∙ g.old;
  told = h.told ∙ ap (reverse_aux ys) g.told ∙ sym (reverse_aux-append xs ys w.events);
}

Goes-same : (w : Watch) → w.phase ≡ polls → Goes [] w w
Goes-same w e = record { polling = e; first = refl; old = refl; told = refl }

module _ (shell : Shell) (never : NeverQuits shell) where
  execute_event-Returns :
      (event : Event) (done : List Bytes) → Returns (execute_event shell event done)
  unfolding execute_event
  execute_event-Returns event done = elim (Option-cases (shell.find_block event)) [
    | inl e ↦ rw (execute_event, e) (negsuc 0, done, refl)
    | inr (block, e) ↦
        rw (execute_event, e)
          (run_actions-Returns shell.my_system (on_error block) block.actions done
            (never event block e))
  ]

  fire-Goes :
      (event : Event) (w : Watch) → w.phase ≡ polls → Goes (event ∷ []) w (fire shell event w)
  unfolding fire finish
  fire-Goes event w e =
      let (rv, done, r) = execute_event-Returns event w.commands in
      rw r (record { polling = e; first = refl; old = refl; told = refl })

  fire_if-Goes :
      (flag : Bool) (event : Event) (w : Watch)
      → w.phase ≡ polls
      → Goes (flag_event flag event) w (fire_if shell flag event w)
  unfolding fire_if
  fire_if-Goes true event w e =
      let k : is_polling w.phase ≡ true = ap is_polling e in rw k (fire-Goes event w e)
  fire_if-Goes false event w e = Goes-same w e

  look_at-changed :
      (s : ReaderState) (w : Watch)
      → w.first_loop ≡ false
      → s.unknown ≡ false
      → s.changed ≡ true
      → look_at shell s w
        ≡ fire_if shell s.present card_insert (fire_if shell s.empty card_remove w)
  unfolding look_at
  look_at-changed s w f k c = ground (arith, f, k, c)

  look_at-unchanged : (s : ReaderState) (w : Watch) → s.changed ≡ false → look_at shell s w ≡ w
  unfolding look_at
  look_at-unchanged s w c = ground (arith, c)

  changed-Goes :
      (s : ReaderState) (w : Watch)
      → w.phase ≡ polls
      → s.changed ≡ true
      → Goes
          (reports_of s)
          w
          (fire_if shell s.present card_insert (fire_if shell s.empty card_remove w))
  changed-Goes s w e c =
      let g = fire_if-Goes s.empty card_remove w e in
      let h = fire_if-Goes s.present card_insert (fire_if shell s.empty card_remove w) g.polling in
      subst
        (λ b.
          Goes
            (if b then flag_event s.empty card_remove ++ flag_event s.present card_insert else []) w
            (fire_if shell s.present card_insert (fire_if shell s.empty card_remove w)))
        (sym c)
        (Goes-then (flag_event s.empty card_remove) (flag_event s.present card_insert) w
          (fire_if shell s.empty card_remove w)
          (fire_if shell s.present card_insert (fire_if shell s.empty card_remove w)) g h)

  unchanged-Goes :
      (s : ReaderState) (w : Watch)
      → w.phase ≡ polls
      → s.changed ≡ false
      → Goes (reports_of s) w (look_at shell s w)
  unchanged-Goes s w e c =
      subst (λ v. Goes (reports_of s) w v) (sym (look_at-unchanged s w c))
        (subst
          (λ b.
            Goes
              (if b then flag_event s.empty card_remove ++ flag_event s.present card_insert else [])
              w w)
          (sym c) (Goes-same w e))

  look_at-Goes :
      (s : ReaderState) (w : Watch)
      → w.phase ≡ polls
      → w.first_loop ≡ false
      → IsReader s
      → Goes (reports_of s) w (look_at shell s w)
  look_at-Goes s w e f (inl c) = unchanged-Goes s w e c
  look_at-Goes s w e f (inr k) = elim (Bool-cases s.changed) [
    | inl c ↦
        subst (λ v. Goes (reports_of s) w v) (sym (look_at-changed s w f k c))
          (changed-Goes s w e c)
    | inr c ↦ unchanged-Goes s w e c
  ]

  look_at_readers-Goes :
      (states : List ReaderState) (w : Watch)
      → w.phase ≡ polls
      → w.first_loop ≡ false
      → All IsReader states
      → Goes (reports states) w (look_at_readers shell states w)
  unfolding look_at_readers
  look_at_readers-Goes [] w e f h = Goes-same w e
  look_at_readers-Goes (s ∷ states) w e f (k, h) =
      let g = look_at-Goes s w e f k in
      let w1 = look_at shell s w in
      let still : is_polling w1.phase ≡ true = ap is_polling g.polling in
      rw still (
        Goes-then (reports_of s) (reports states) w w1 (look_at_readers shell states w1) g
          (look_at_readers-Goes states w1 g.polling (g.first ∙ f) h))

  -- The first look at the readers reports nothing.
  look_at_readers-first :
      (states : List ReaderState) (w : Watch)
      → w.first_loop ≡ true
      → look_at_readers shell states w ≡ w
  unfolding look_at_readers look_at
  look_at_readers-first [] w f = refl
  look_at_readers-first (s ∷ states) w f =
      let k : look_at shell s w ≡ w = ground (arith, f) in
      ap (λ v. if is_polling v.phase then look_at_readers shell states v else v) k
      ∙ if-each (λ x. x ≡ w) (is_polling w.phase) (look_at_readers shell states w) w
          (look_at_readers-first states w f) refl

  abbrev looked : Tick → Watch → Watch
  looked t w = record w { current = update_states t.event_states w.current }

  poll-steady :
      (t : Tick) (w : Watch)
      → IsSteady w.readers_old t
      → poll shell t w ≡ first_done (look_at_readers shell t.event_states (looked t w))
  unfolding poll
  poll-steady t w (a, b, c, h) = ground (arith, a, b, c)

  -- Behind a round: the loop goes on, and no look is the first any more.
  abbrev Told : List Event → Watch → Watch → Type 0
  Told es w w1 =
      (w1.phase ≡ polls)
      × (w1.first_loop ≡ false)
      × (w1.readers_old ≡ w.readers_old)
      × (w1.events ≡ reverse_aux es w.events)

  first_done-Told : (es : List Event) (w w1 : Watch) → Goes es w w1 → Told es w (first_done w1)
  unfolding first_done
  first_done-Told es w w1 g =
      let k : is_polling w1.phase ≡ true = ap is_polling g.polling in
      rw k (g.polling, refl, g.old, g.told)

  abbrev heard : Bool → List Event → List Event
  heard first es = if first then [] else es

  poll-Told :
      (t : Tick) (w : Watch)
      → w.phase ≡ polls
      → IsSteady w.readers_old t
      → Told (heard w.first_loop (reports t.event_states)) w (poll shell t w)
  poll-Told t w e h = elim (Bool-cases w.first_loop) [
    | inl f ↦
        subst (λ b. Told (heard b (reports t.event_states)) w (poll shell t w)) (sym f)
          (subst (λ v. Told [] w v)
            (sym (
              poll-steady t w h
              ∙ ap first_done (look_at_readers-first t.event_states (looked t w) f)))
            (first_done-Told [] w (looked t w)
              (record { polling = e; first = refl; old = refl; told = refl })))
    | inr f ↦
        let g = look_at_readers-Goes t.event_states (looked t w) e f h.3 in
        subst (λ b. Told (heard b (reports t.event_states)) w (poll shell t w)) (sym f)
          (subst (λ v. Told (reports t.event_states) w v) (sym (poll-steady t w h))
            (first_done-Told (reports t.event_states) w
              (look_at_readers shell t.event_states (looked t w))
              (record { polling = g.polling; first = g.first; old = g.old; told = g.told })))
  ]

  step-polls : (t : Tick) (w : Watch) → w.phase ≡ polls → step shell t w ≡ poll shell t w
  unfolding step go_on
  step-polls t w e = ap (λ p. go_on shell p t w) e

  run-Told :
      (size : ℕ) (ticks : List Tick) (w : Watch)
      → w.phase ≡ polls
      → w.first_loop ≡ false
      → w.readers_old ≡ size
      → All (IsSteady size) ticks
      → Told (all_reports ticks) w (run shell ticks w)
  unfolding run
  run-Told size [] w e f o h = (e, f, refl, refl)
  run-Told size (t ∷ ticks) w e f o (k, h) =
      let w1 = step shell t w in
      let known : IsSteady w.readers_old t = subst (λ n. IsSteady n t) (sym o) k in
      let m : Told (reports t.event_states) w w1 =
        subst (λ v. Told (reports t.event_states) w v) (sym (step-polls t w e))
          (subst (λ b. Told (heard b (reports t.event_states)) w (poll shell t w)) f
            (poll-Told t w e known)) in
      let (p, q, r, l) = run-Told size ticks w1 m.0 m.1 (m.2 ∙ o) h in
      (
        p,
        q,
        r ∙ m.2,
        l
            ∙ ap (reverse_aux (all_reports ticks)) m.3
            ∙ sym (reverse_aux-append (reports t.event_states) (all_reports ticks) w.events),
      )

  -- While PC/SC answers, the list of readers stays, no reader becomes unknown, no signal comes and no action
  -- ends the program, the loop over the events goes on for any number of rounds, and reports the removals and
  -- insertions of the readers whose state has changed, in the order of the rounds and of the readers, but
  -- nothing in the first round.
  pub run-reports :
      (t : Tick) (ticks : List Tick) (w : Watch)
      → w.phase ≡ polls
      → All (IsSteady w.readers_old) (t ∷ ticks)
      → ((run shell (t ∷ ticks) w).phase ≡ polls)
        × ((run shell (t ∷ ticks) w).events
            ≡ reverse_aux
                (if w.first_loop then all_reports ticks else all_reports (t ∷ ticks))
                w.events)
  unfolding run
  run-reports t ticks w e (k, h) =
      let w1 = step shell t w in
      let m : Told (heard w.first_loop (reports t.event_states)) w w1 =
        subst (λ v. Told (heard w.first_loop (reports t.event_states)) w v) (sym (step-polls t w e))
          (poll-Told t w e k) in
      let (p, q, r, l) = run-Told w.readers_old ticks w1 m.0 m.1 m.2 h in
      (p, l ∙ ap (reverse_aux (all_reports ticks)) m.3 ∙ joined w.first_loop)
    where
      joined :
          (b : Bool)
          → reverse_aux
              (all_reports ticks)
              (reverse_aux (heard b (reports t.event_states)) w.events)
            ≡ reverse_aux (if b then all_reports ticks else all_reports (t ∷ ticks)) w.events
      joined true = refl
      joined false = sym (reverse_aux-append (reports t.event_states) (all_reports ticks) w.events)
