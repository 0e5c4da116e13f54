-- ===== src/Daemon/Stopping.antt =====
-- When the daemon stops.
use ntmd.Base.{
  ◌≡◌, refl, ap, sym, ◌∙◌, Bool, true, false, not, ◌&&◌, ◌||◌, none, some, List, [], ◌∷◌,
  if◌then◌else◌, arith, Bool-cases, inl, inr,
}
use ntmd.Daemon.{
  Daemon, Signal, sigint, sigterm, sighup, ignored, fatal, signal_handler, running, default_action,
  deliver_signal, deliver_signals, Installed, constructed, Ending, shut_down, by_signal, unfinished,
  one_more, after_round, main_loop,
}

abbrev stops : Signal → Bool
stops sigint = true
stops sigterm = true
stops sighup = false
stops ignored = false
stops fatal = false

abbrev kills : Signal → Bool
kills sigint = false
kills sigterm = false
kills sighup = false
kills ignored = false
kills fatal = true

abbrev any : (Signal → Bool) → List Signal → Bool
any test [] = false
any test (signal ∷ signals) = test signal || any test signals

-- The end that the signals of the rounds ask for, by the first round with one that is fatal, or with
-- a SIGINT or SIGTERM.
unfoldable pub ending_of : List (List Signal) → Ending
ending_of [] = unfinished 0
ending_of (signals ∷ rounds) =
    let rest = ending_of rounds in
    if any kills signals
    then by_signal 1
    else if any stops signals
    then shut_down 1
    else one_more rest

-- A constructed daemon in any state.
abbrev pub at : Daemon → Installed
at d = record constructed { daemon = d }

deliver-cons :
    (signal : Signal) (signals : List Signal) (d : Daemon)
    → deliver_signals constructed.handled (signal ∷ signals) d ≡ (
        if kills signal
        then none
        else deliver_signals constructed.handled signals (signal_handler signal d))
unfolding deliver_signals deliver_signal default_action constructed signal_handler
deliver-cons sigint signals d = refl
deliver-cons sigterm signals d = refl
deliver-cons sighup signals d = refl
deliver-cons ignored signals d = refl
deliver-cons fatal signals d = refl

handler-is_running :
    (signal : Signal) (d : Daemon)
    → kills signal ≡ false
    → (signal_handler signal d).is_running ≡ (not (stops signal) && d.is_running)
unfolding signal_handler
handler-is_running sigint d h = refl
handler-is_running sigterm d h = refl
handler-is_running sighup d h = refl
handler-is_running ignored d h = refl
handler-is_running fatal d h = refl

-- A round with a fatal signal ends the process.
deliver_fatal :
    (signals : List Signal) (d : Daemon)
    → any kills signals ≡ true
    → deliver_signals constructed.handled signals d ≡ none
deliver_fatal [] d h = absurd (cc h)
deliver_fatal (signal ∷ signals) d h =
    deliver-cons signal signals d ∙ elim (Bool-cases (kills signal)) [
      | inl now ↦ rw now
      | inr later ↦
          rw later (deliver_fatal signals (signal_handler signal d) (ground (arith, h, later)))
    ]

-- Any other round leaves the daemon running unless a signal stops it.
deliver_rest :
    (signals : List Signal) (d : Daemon)
    → any kills signals ≡ false
    → (d' : Daemon) × (deliver_signals constructed.handled signals d ≡ some d')
      × (d'.is_running ≡ (not (any stops signals) && d.is_running))
deliver_rest [] d h = (d, unfold deliver_signals in refl, refl)
deliver_rest (signal ∷ signals) d h =
    let tame : kills signal ≡ false = ground (arith, h) in
    let (d', e, kept) = deliver_rest signals (signal_handler signal d) (ground (arith, h)) in
    (
      d',
      deliver-cons signal signals d ∙ rw tame e,
      kept ∙ rw (handler-is_running signal d tame) (ground arith),
    )

running_lem :
    (d : Daemon) → ((running d).0 ≡ d.is_running) × ((running d).1.is_running ≡ d.is_running)
unfolding running
running_lem d = ground arith

main_loop-cons :
    (signals : List Signal) (rounds : List (List Signal)) (d : Daemon)
    → d.is_running ≡ true
    → main_loop (signals ∷ rounds) (at d)
      ≡ after_round
          (deliver_signals constructed.handled signals (running d).1)
          (λ d'. main_loop rounds (at d'))
unfolding main_loop
main_loop-cons signals rounds d h =
    let rest =
      after_round (deliver_signals constructed.handled signals (running d).1)
        λ d'. main_loop rounds (at d') in
    ap (λ b. if b then rest else shut_down 0) ((running_lem d).0 ∙ h)

ending_of-cons :
    (signals : List Signal) (rounds : List (List Signal))
    → ending_of (signals ∷ rounds) ≡ (
        if any kills signals
        then by_signal 1
        else if any stops signals
        then shut_down 1
        else one_more (ending_of rounds))
unfolding ending_of
ending_of-cons signals rounds = refl

main_loop_stopped :
    (rounds : List (List Signal)) (d : Daemon)
    → d.is_running ≡ false
    → main_loop rounds (at d) ≡ shut_down 0
unfolding main_loop
main_loop_stopped [] d h = rw ((running_lem d).0, h) refl
main_loop_stopped (signals ∷ rounds) d h = rw ((running_lem d).0, h) refl

-- A running daemon behind its constructor, each of whose rounds dispatches its packets and returns,
-- goes on up to the first round in which a SIGINT or SIGTERM comes, and shuts down behind it,
-- whatever SIGHUP and ignored signals come, unless a signal that it does not handle and whose
-- default is fatal comes before or in that round: that one ends the process at once. No other
-- signal ends the loop.
pub main_loop_lem :
    (rounds : List (List Signal)) (d : Daemon)
    → d.is_running ≡ true
    → main_loop rounds (at d) ≡ ending_of rounds
main_loop_lem [] d h = unfold main_loop ending_of in rw ((running_lem d).0, h) refl
main_loop_lem (signals ∷ rounds) d h =
    let later = λ (d' : Daemon). main_loop rounds (at d') in
    main_loop-cons signals rounds d h ∙ elim (Bool-cases (any kills signals)) [
      | inl now ↦
          ap (λ o. after_round o later) (deliver_fatal signals (running d).1 now)
          ∙ sym (ending_of-cons signals rounds ∙ rw now)
      | inr tame ↦
          let (d', e, kept) = deliver_rest signals (running d).1 tame in
          let going : d'.is_running ≡ not (any stops signals) =
            kept ∙ rw ((running_lem d).1, h) (ground arith) in
          ap (λ o. after_round o later) e ∙ elim (Bool-cases (any stops signals)) [
            | inl stopped ↦
                ap one_more (main_loop_stopped rounds d' (going ∙ ap not stopped))
                ∙ sym (ending_of-cons signals rounds ∙ rw (tame, stopped))
            | inr on ↦
                ap one_more (main_loop_lem rounds d' (going ∙ ap not on))
                ∙ sym (ending_of-cons signals rounds ∙ rw (tame, on))
          ]
    ]
