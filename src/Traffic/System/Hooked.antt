-- ===== src/Traffic/System/Hooked.antt =====
-- The pointers of traffic/TrafficStorage.cpp to the variables of a waiting thread of the API.
use ntmd.Base.{ℕ, ◌≡◌, refl, true, false, some, List, [], ◌∷◌, arith, eqb_iff, Bool-cases, inl, inr}
use ntmd.Base.Int.{ℤ}
use ntmd.Base.Outcome.{ok, Ensures, Ensures-bind, Ensures-ok}
use ntmd.Traffic.TrafficStorage
use ntmd.Traffic.TrafficStorage.{TrafficStorage, Watcher, Watchers}
use ntmd.Traffic.TrafficStorage.Add.{add_lem}
use ntmd.Traffic.System.{System, Event, packet, await, deposit, step, run, start}

-- All three pointers are those of the thread `w`, and its mutex is locked.
pub record HookedBy (w : ℕ) (s : System) : Type 0 where
  pub api_mutex : s.storage.api_mutex ≡ some w
  pub api_traffic_map : s.storage.api_traffic_map ≡ some w
  pub api_interval : s.storage.api_interval ≡ some w
  pub locked : (s.watchers w).locked ≡ true

abbrev IsHooked : System → Type 0
IsHooked s = s.storage.api_waiting ≡ true → (w : ℕ) × HookedBy w s

-- A thread is refused while another one waits.
pub await_refused :
    (w : ℕ) (s : TrafficStorage) (watchers : Watchers)
    → s.api_waiting ≡ true
    → TrafficStorage.await_snapshot w s watchers ≡ (false, s, watchers)
unfolding TrafficStorage.await_snapshot
await_refused w s watchers waiting = rw waiting

pub await_accepted :
    (w : ℕ) (s : TrafficStorage) (watchers : Watchers)
    → s.api_waiting ≡ false
    → TrafficStorage.await_snapshot w s watchers ≡ (
      true,
      record s {
        api_waiting = true;
        api_mutex = some w;
        api_traffic_map = some w;
        api_interval = some w;
      },
      TrafficStorage.set_watcher w (record (watchers w) { locked = true }) watchers,
    )
unfolding TrafficStorage.await_snapshot
await_accepted w s watchers free = ground (arith, free)

await-IsHooked : (w : ℕ) (s : System) → IsHooked s → Ensures IsHooked (step (await w) s)
unfolding step
await-IsHooked w s hooked = elim (Bool-cases s.storage.api_waiting) [
  | inl waiting ↦ rw (await_refused w s.storage s.watchers waiting) (Ensures-ok IsHooked s hooked)
  | inr free ↦ rw (await_accepted w s.storage s.watchers free) (
      Ensures-ok IsHooked _ λ waiting. (
        w,
        record {
          api_mutex = refl;
          api_traffic_map = refl;
          api_interval = refl;
          locked = rw ((eqb_iff w w).1 refl);
        },
      ))
]

step-IsHooked : (event : Event) (s : System) → IsHooked s → Ensures IsHooked (step event s)
unfolding step TrafficStorage.deposit
step-IsHooked (packet process pkt) s hooked =
    let (m, added, lines) = add_lem process pkt s.storage in
    rw added (
      Ensures-ok IsHooked (record s { storage = record s.storage { application_traffic = m } })
        λ waiting.
          let (w, h) = hooked waiting in
          (
            w,
            record {
              api_mutex = h.api_mutex;
              api_traffic_map = h.api_traffic_map;
              api_interval = h.api_interval;
              locked = h.locked;
            },
          ))
step-IsHooked (await w) s hooked = await-IsHooked w s hooked
step-IsHooked deposit s hooked = Ensures-ok IsHooked _ λ waiting. cc

events-IsHooked : (events : List Event) (s : System) → IsHooked s → Ensures IsHooked (run events s)
unfolding run
events-IsHooked [] s hooked = Ensures-ok IsHooked s hooked
events-IsHooked (event ∷ events) s hooked =
    Ensures-bind IsHooked (step event s) (run events)
      λ t stepped. events-IsHooked events t (step-IsHooked event s hooked t stepped)

-- From the start of the daemon, whatever the threads do: while a thread of the API is waiting, the
-- three pointers are set, to the variables of one thread, and the mutex of that thread is locked.
pub run-IsHooked :
    (interval : ℤ) (watchers : Watchers) (events : List Event) (s : System)
    → run events (start interval watchers) ≡ ok s
    → s.storage.api_waiting ≡ true
    → (w : ℕ) × HookedBy w s
run-IsHooked interval watchers events s =
    events-IsHooked events (start interval watchers) (λ waiting. cc) s
