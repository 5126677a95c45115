-- ===== src/Tools/Eventmgr/Reports.antt =====
-- What the loop of tools/pkcs11_eventmgr.c reports of the states of the card.
use pam_pkcs.Base.{
  ℕ, ◌+◌, ◌≡◌, ◌≢◌, ◌⊎◌, refl, sym, ap, subst, ◌∙◌, inl, inr, arith, Bool, true, false, not, List,
  [], ◌∷◌, map, Option, none, some, Bytes, All, drop, if◌then◌else◌, ◌==◌, leb, if-each, Bool-cases,
}
use mathlib.Core.List.{reverse, reverse_aux}
use pam_pkcs.Base.Int.{ℤ, pos, negsuc, is_zero}
use pam_pkcs.Tools.Eventmgr.{
  OnError, onerror_ignore, onerror_return, onerror_quit, CardState, card_present, card_not_present,
  card_error, Event, card_insert, card_remove, expired, EventBlock, Setup, Round, Watch, Executed,
  returns, exits, Next, loops, leaves, fails, quits, on_error, same_state, get_a_token, run_actions,
  execute_event, fire, restart, reset_count, unchanged, report, change, round, watch, start,
}

-- The module answers: a token is present or not.
abbrev pub Answers : Round → Type 0
Answers r = (r.list_rv ≡ 0) × (r.finalize_rv ≡ 0) × (r.initialize_rv ≡ 0)

abbrev pub is_present : Round → Bool
is_present r = not (r.num_tokens == 0)

-- The changes of the presence, each with its event.
abbrev pub turns : Bool → List Bool → List Event
turns old [] = []
turns true (true ∷ l) = turns true l
turns true (false ∷ l) = card_remove ∷ turns false l
turns false (true ∷ l) = card_insert ∷ turns true l
turns false (false ∷ l) = turns false l

-- The events but those of the timer.
abbrev pub card_events : List Event → List Event
card_events [] = []
card_events (expired ∷ l) = card_events l
card_events (card_insert ∷ l) = card_insert ∷ card_events l
card_events (card_remove ∷ l) = card_remove ∷ card_events l

-- No event is set up to end the program on an error.
abbrev pub NeverQuits : Setup → Type 0
NeverQuits setup =
    (event : Event) (block : EventBlock)
    → setup.find_block event ≡ some block
    → on_error block ≢ onerror_quit

abbrev state_of : Bool → CardState
state_of true = card_present
state_of false = card_not_present

-- The events after a round, with those before it.
abbrev told : Bool → Bool → Bool → List Event → List Event
told c true true es = es
told c false false es = es
told true true false es = card_remove ∷ es
told true false true es = card_insert ∷ es
told false true false es = es
told false false true es = es

abbrev turned : Bool → Bool → Bool → Bool
turned c true true = c
turned c false false = c
turned c true false = true
turned c false true = true

abbrev MovesFrom : Bool → Bool → Bool → Watch → Watch → Type 0
MovesFrom c old new w w1 =
    (w1.old_state ≡ state_of new)
    × (w1.changed ≡ turned c old new)
    × (card_events w1.events ≡ told c old new (card_events w.events))

abbrev Moves : Bool → Bool → Watch → Watch → Type 0
Moves old new w = MovesFrom w.changed old new w

abbrev Loops : (Watch → Type 0) → Next → Type 0
Loops P next = (w1 : Watch) × (next ≡ loops w1) × P w1

abbrev pub Returns : Executed → Type 0
Returns e = (rv : ℤ) × (done : List Bytes) × (e ≡ returns rv done)

pub run_actions-Returns :
    (my_system : List Bytes → Bytes → ℤ) (onerr : OnError) (actions done : List Bytes)
    → onerr ≢ onerror_quit
    → Returns (run_actions my_system onerr actions done)
unfolding run_actions
run_actions-Returns my_system onerr [] done n = (pos 0, done, refl)
run_actions-Returns my_system onerr (action ∷ actions) done n =
    by_status (Bool-cases (is_zero (my_system done action)))
      (run_actions-Returns my_system onerr actions (action ∷ done) n)
  where
    by_mode :
        (m : OnError) (rest : Executed)
        → m ≢ onerror_quit
        → Returns rest
        → Returns (elim m [
          | onerror_ignore ↦ rest
          | onerror_return ↦ returns (pos 0) (action ∷ done)
          | onerror_quit ↦ exits (action ∷ done)
        ])
    by_mode onerror_ignore rest n r = r
    by_mode onerror_return rest n r = (pos 0, action ∷ done, refl)
    by_mode onerror_quit rest n r = absurd (n refl)

    by_status :
        (is_zero (my_system done action) ≡ true) ⊎ (is_zero (my_system done action) ≡ false)
        → Returns (run_actions my_system onerr actions (action ∷ done))
        → Returns (run_actions my_system onerr (action ∷ actions) done)
    by_status (inl e) r = rw e r
    by_status (inr e) r =
        rw e (by_mode onerr (run_actions my_system onerr actions (action ∷ done)) n r)

module _ (setup : Setup) (never : NeverQuits setup) where
  execute_event-Returns :
      (event : Event) (done : List Bytes) → Returns (execute_event setup event done)
  unfolding execute_event
  execute_event-Returns event done = by_block (setup.find_block event) refl
    where
      by_block :
          (o : Option EventBlock)
          → setup.find_block event ≡ o
          → Returns (elim o [
            | none ↦ returns (negsuc 0) done
            | some block ↦ run_actions setup.my_system (on_error block) block.actions done
          ])
      by_block none e = (negsuc 0, done, refl)
      by_block (some block) e =
          run_actions-Returns setup.my_system (on_error block) block.actions done
            (never event block e)

  Fired : Event → Watch → Watch → Type 0
  Fired event w w1 =
      (w1.events ≡ event ∷ w.events) × (w1.old_state ≡ w.old_state) × (w1.changed ≡ w.changed)

  fire-Loops : (event : Event) (w : Watch) → Loops (Fired event w) (fire setup event w)
  unfolding fire Fired
  fire-Loops event w =
      let (rv, done, e) = execute_event-Returns event w.commands in
      subst
        (λ x. Loops (Fired event w) (elim x [
          | returns rv' done' ↦ loops (record w { events = event ∷ w.events; commands = done' })
          | exits done' ↦ quits
        ]))
        (sym e) (record w { events = event ∷ w.events; commands = done }, refl, (refl, refl, refl))

  Loops-refl : (P : Watch → Type 0) (w : Watch) → P w → Loops P (loops w)
  Loops-refl P w p = (w, refl, p)

  expire-Loops :
      (b : Bool) (w : Watch)
      → w.old_state ≡ state_of b
      → Loops (Moves b b w) (reset_count setup (fire setup expired w))
  unfolding reset_count Fired
  expire-Loops b w s =
      let (w1, e, f) = fire-Loops expired w in
      subst (λ x. Loops (Moves b b w) (reset_count setup x)) (sym e)
        (
          record w1 { expire_count = 0 },
          refl,
          (f.1 ∙ s, f.2 ∙ same b, ap card_events f.0 ∙ told_same b),
        )
    where
      same : (b : Bool) → w.changed ≡ turned w.changed b b
      same true = refl
      same false = refl

      told_same : (b : Bool) → card_events w.events ≡ told w.changed b b (card_events w.events)
      told_same true = refl
      told_same false = refl

  stays :
      (b : Bool) (w : Watch) (count : ℕ)
      → w.old_state ≡ state_of b
      → Loops (Moves b b w) (loops (record w { expire_count = count }))
  stays true w count s = (record w { expire_count = count }, refl, (s, refl, refl))
  stays false w count s = (record w { expire_count = count }, refl, (s, refl, refl))

  unchanged-Loops :
      (b : Bool) (w : Watch)
      → w.old_state ≡ state_of b
      → Loops (Moves b b w) (unchanged setup (state_of b) w)
  unfolding unchanged
  unchanged-Loops b w s =
      let count = w.expire_count + setup.polling_time in
      if-each (Loops (Moves b b w)) (setup.expire_time == 0) _ _ (stays b w w.expire_count s) (
        if-each (Loops (Moves b b w)) (same_state (state_of b) card_present) _ _
          (stays b w w.expire_count s)
          (if-each (Loops (Moves b b w)) (leb setup.expire_time count) _ _
            (expire-Loops b (record w { expire_count = count }) s) (stays b w count s)))

  abbrev Tells : Bool → Watch → Watch → Type 0
  Tells b w w1 =
      (w1.old_state ≡ w.old_state)
      × (w1.changed ≡ w.changed)
      × (card_events w1.events ≡ told true (not b) b (card_events w.events))

  report-Loops :
      (r : Round) (b : Bool) (w : Watch)
      → Answers r
      → Loops (Tells b w) (report setup r (state_of b) w)
  unfolding report Fired restart
  report-Loops r true w a =
      let (w1, e, f) = fire-Loops card_insert w in (w1, e, (f.1, f.2, ap card_events f.0))
  report-Loops r false w a =
      let (w1, e, f) = fire-Loops card_remove w in
      (w1, ap (restart setup r loops) e ∙ restart-loops w1, (f.1, f.2, ap card_events f.0))
    where
      restart-loops : (w1 : Watch) → restart setup r loops (loops w1) ≡ loops w1
      restart-loops w1 = rw (a.1, a.2) refl

  change-Loops :
      (r : Round) (b : Bool) (w : Watch)
      → Answers r
      → Loops (Moves (not b) b w) (change setup r (state_of b) w)
  unfolding change
  change-Loops r b w a = by_changed w.changed b
    where
      w1 : Bool → Watch
      w1 b = record w { old_state = state_of b; expire_count = 0; changed = true }

      by_changed :
          (c b : Bool)
          → Loops
              (MovesFrom c (not b) b w)
              (if c then report setup r (state_of b) (w1 b) else loops (w1 b))
      by_changed true true = report-Loops r true (w1 true) a
      by_changed true false = report-Loops r false (w1 false) a
      by_changed false true = (w1 true, refl, (refl, refl, refl))
      by_changed false false = (w1 false, refl, (refl, refl, refl))

  get_a_token-state_of : (r : Round) → Answers r → get_a_token r ≡ state_of (is_present r)
  unfolding get_a_token
  get_a_token-state_of r a = ground (arith, a.0)

  round-Loops :
      (r : Round) (old : Bool) (w : Watch)
      → Answers r
      → w.old_state ≡ state_of old
      → Loops (Moves old (is_present r) w) (round setup r w)
  unfolding round
  round-Loops r old w a s =
      subst (λ x. Loops (Moves old (is_present r) w) (body x)) (sym (get_a_token-state_of r a))
        (by_states old (is_present r) s)
    where
      body : CardState → Next
      body card_error = restart setup r leaves (loops w)
      body card_present =
          if same_state w.old_state card_present
          then unchanged setup card_present w
          else change setup r card_present w
      body card_not_present =
          if same_state w.old_state card_not_present
          then unchanged setup card_not_present w
          else change setup r card_not_present w

      branch :
          (b c : Bool) (x y : Next) (P : Watch → Type 0)
          → b ≡ c
          → Loops P (if c then x else y)
          → Loops P (if b then x else y)
      branch b c x y P e l = subst (λ d. Loops P (if d then x else y)) (sym e) l

      by_states :
          (old new : Bool)
          → w.old_state ≡ state_of old
          → Loops (Moves old new w) (body (state_of new))
      by_states true true s =
          branch (same_state w.old_state card_present) true _ _ (Moves true true w)
            (ap (λ x. same_state x card_present) s) (unchanged-Loops true w s)
      by_states false true s =
          branch (same_state w.old_state card_present) false _ _ (Moves false true w)
            (ap (λ x. same_state x card_present) s) (change-Loops r true w a)
      by_states true false s =
          branch (same_state w.old_state card_not_present) false _ _ (Moves true false w)
            (ap (λ x. same_state x card_not_present) s) (change-Loops r false w a)
      by_states false false s =
          branch (same_state w.old_state card_not_present) true _ _ (Moves false false w)
            (ap (λ x. same_state x card_not_present) s) (unchanged-Loops false w s)

  -- The first change of all is not told.
  abbrev but_first : Bool → List Event → List Event
  but_first true l = l
  but_first false l = drop 1 l

  onto_told :
      (c old new : Bool) (l : List Bool) (es : List Event)
      → reverse_aux (but_first (turned c old new) (turns new l)) (told c old new es)
        ≡ reverse_aux (but_first c (turns old (new ∷ l))) es
  onto_told c true true l es = refl
  onto_told c false false l es = refl
  onto_told true true false l es = refl
  onto_told true false true l es = refl
  onto_told false true false l es = refl
  onto_told false false true l es = refl

  abbrev Told : Bool → List Round → Watch → Watch → Type 0
  Told old rounds w w1 =
      card_events w1.events
      ≡ reverse_aux (but_first w.changed (turns old (map is_present rounds))) (card_events w.events)

  watch-Loops :
      (rounds : List Round) (old : Bool) (w : Watch)
      → All Answers rounds
      → w.old_state ≡ state_of old
      → Loops (Told old rounds w) (watch setup rounds w)
  unfolding watch
  watch-Loops [] old w h s = (w, refl, nothing w.changed)
    where
      nothing :
          (c : Bool) → card_events w.events ≡ reverse_aux (but_first c []) (card_events w.events)
      nothing true = refl
      nothing false = refl
  watch-Loops (r ∷ rounds) old w (a, h) s =
      let (w1, e, m) = round-Loops r old w a s in
      let (w2, f, t) = watch-Loops rounds (is_present r) w1 h m.0 in
      let l = turns (is_present r) (map is_present rounds) in
      (
        w2,
        ap rest e ∙ f,
        t
            ∙ ap (λ c. reverse_aux (but_first c l) (card_events w1.events)) m.1
            ∙ ap (reverse_aux (but_first (turned w.changed old (is_present r)) l)) m.2
            ∙ onto_told w.changed old (is_present r) (map is_present rounds) (card_events w.events),
      )
    where
      rest : Next → Next
      rest (loops w1) = watch setup rounds w1
      rest (leaves w1) = leaves w1
      rest (fails w1) = fails w1
      rest quits = quits

  -- While the module answers and no action ends the program, the loop goes on for any number of
  -- rounds, and the insertions and removals that it reports are the changes of the presence of a token,
  -- in their order, but without the first: where there is no token at the start, the first insertion is
  -- not reported.
  pub watch-turns :
      (rounds : List Round)
      → All Answers rounds
      → (w : Watch) × (watch setup rounds start ≡ loops w)
        × (card_events w.events ≡ reverse (drop 1 (turns false (map is_present rounds))))
  watch-turns rounds h = watch-Loops rounds false start h refl
