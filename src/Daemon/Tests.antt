-- ===== src/Daemon/Tests.antt =====
-- Tests of the daemon.
use ntmd.Base.{◌≡◌, refl, List, [], ◌∷◌}
use ntmd.Daemon.{Signal, sigint, sighup, ignored, fatal, initial, shut_down, by_signal, main_loop}
use ntmd.Daemon.Stopping.{at, ending_of, main_loop_lem}

abbrev rounds : List (List Signal)
rounds = [] ∷ (sighup ∷ ignored ∷ []) ∷ (sigint ∷ sighup ∷ []) ∷ [] ∷ []

main_loop_lem_example : main_loop rounds (at initial) ≡ ending_of rounds
main_loop_lem_example = main_loop_lem rounds initial refl

three_rounds : ending_of rounds ≡ shut_down 3
unfolding ending_of
three_rounds = refl

killed : ending_of ([] ∷ (sighup ∷ fatal ∷ []) ∷ rounds) ≡ by_signal 2
unfolding ending_of
killed = refl
