-- ===== src/Daemon.antt =====
-- Daemon.hpp and Daemon.cpp, and the loop of main.cpp. `reload` does nothing but log. What a signal
-- does that no handler is set for is the default of POSIX.
pub mod Stopping
mod Tests
use ntmd.Base.{ℕ, suc, Bool, true, false, Option, none, some, List, [], ◌∷◌, if◌then◌else◌}

-- `mIsRunning` and `mReload`
pub record Daemon : Type 0 where
  pub is_running : Bool
  pub reload : Bool

-- the default member initializers
abbrev pub initial : Daemon
initial = record { is_running = true; reload = false }

-- The signals that the daemon names; `ignored` are those whose default is to do nothing, such as
-- SIGCHLD; `fatal` are those whose default ends the process, such as SIGQUIT, SIGPIPE and SIGKILL.
pub data Signal : Type 0 where
  sigint sigterm sighup ignored fatal : Signal

-- What the process does on a signal: the handler of the daemon, or its default.
abbrev pub Dispositions : Type 0
Dispositions = Signal → Bool

abbrev same_signal : Signal → Signal → Bool
same_signal sigint sigint = true
same_signal sigterm sigterm = true
same_signal sighup sighup = true
same_signal ignored ignored = true
same_signal fatal fatal = true
same_signal _ _ = false

-- `signal(s, Daemon::signalHandler)`
abbrev handle_signal : Signal → Dispositions → Dispositions
handle_signal s handled t = if same_signal s t then true else handled t

-- the constructor
abbrev register : Dispositions → Dispositions
register handled = handle_signal sighup (handle_signal sigterm (handle_signal sigint handled))

-- The daemon with the signals that go to its handler, behind the constructor.
pub record Installed : Type 0 where
  pub daemon : Daemon
  pub handled : Dispositions

pub constructed : Installed
constructed = record { daemon = initial; handled = register (λ s. false) }

pub signal_handler : Signal → Daemon → Daemon
signal_handler sigint d = record d { is_running = false }
signal_handler sigterm d = record d { is_running = false }
signal_handler sighup d = record d { reload = true }
signal_handler ignored d = d
signal_handler fatal d = d

pub running : Daemon → Bool × Daemon
running d = let d' = if d.reload then record d { reload = false } else d in (d'.is_running, d')

-- the default of a signal; `none` is the end of the process
unfoldable pub default_action : Signal → Daemon → Option Daemon
default_action ignored d = some d
default_action sigint d = none
default_action sigterm d = none
default_action sighup d = none
default_action fatal d = none

unfoldable pub deliver_signal : Dispositions → Signal → Daemon → Option Daemon
unfolding signal_handler default_action
deliver_signal handled signal d =
    if handled signal then some (signal_handler signal d) else default_action signal d

-- the signals that arrive in one round, in order
pub deliver_signals : Dispositions → List Signal → Daemon → Option Daemon
unfolding deliver_signal
deliver_signals handled [] d = some d
deliver_signals handled (signal ∷ signals) d = elim (deliver_signal handled signal d) [
  | none ↦ none
  | some d' ↦ deliver_signals handled signals d'
]

-- How the loop of `main` ends, with the number of calls of `dispatch` that were begun: by the test
-- of `running`, by a signal, or not within the rounds that are looked at.
pub data Ending : Type 0 where
  shut_down by_signal unfinished : ℕ → Ending

abbrev pub one_more : Ending → Ending
one_more (shut_down n) = shut_down (suc n)
one_more (by_signal n) = by_signal (suc n)
one_more (unfinished n) = unfinished (suc n)

-- The rest of a round: `none` is the end of the process.
abbrev pub after_round : Option Daemon → (Daemon → Ending) → Ending
after_round none later = by_signal 1
after_round (some d) later = one_more (later d)

-- The loop of `main`, over the signals that arrive in each round between two calls of `running`.
pub main_loop : List (List Signal) → Installed → Ending
unfolding running deliver_signals
main_loop [] p = if (running p.daemon).0 then unfinished 0 else shut_down 0
main_loop (signals ∷ rounds) p =
    let (go, d) = running p.daemon in
    let rest =
      after_round (deliver_signals p.handled signals d)
        λ d'. main_loop rounds (record p { daemon = d' }) in
    if go then rest else shut_down 0
