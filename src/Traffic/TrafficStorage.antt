-- ===== src/Traffic/TrafficStorage.antt =====
-- traffic/TrafficStorage.hpp and traffic/TrafficStorage.cpp. The sniffer's thread adds packets, the
-- deposit thread empties the storage into the database, and threads of the API wait for the next
-- deposit. What a thread does under `mMutex` is one step.
pub mod Add
use ntmd.Base.{
  ℕ, ◌+◌, Bool, true, false, Option, none, some, List, [], ◌∷◌, ◌++◌, Text, if◌then◌else◌, eqb,
  nat_eq, list_eq,
}
use ntmd.Base.Int.{ℤ}
use ntmd.Base.Assoc.{lookup, insert}
use ntmd.Base.Outcome.{Outcome, ok, undefined, ◌>>=◌}
use ntmd.Net.Packet.{Packet}
use ntmd.Proc.ProcessIndex.{Process}
use ntmd.Traffic.TrafficLine.{TrafficLine, TrafficMap, no_traffic, count_packet}

-- The three pointers name the local variables of the waiting thread by its number. They have no
-- initializer: `none` is the null pointer, and whatever they hold before the first wait, when
-- `api_waiting` is false and no operation reads them. `generation` counts the calls of
-- `mApplicationTraffic.clear()`: a reference into the map is valid until the next one.
pub record TrafficStorage : Type 0 where
  pub application_traffic : TrafficMap
  pub interval : ℤ
  pub api_waiting : Bool
  pub api_mutex : Option ℕ
  pub api_traffic_map : Option ℕ
  pub api_interval : Option ℕ
  pub generation : ℕ

-- the state that the constructor sets up
abbrev pub start : ℤ → TrafficStorage
start interval = record {
  application_traffic = [];
  interval = interval;
  api_waiting = false;
  api_mutex = none;
  api_traffic_map = none;
  api_interval = none;
  generation = 0;
}

pub record LineRef : Type 0 where
  pub name : Text
  pub generation : ℕ

abbrev pub line_of : Text → TrafficMap → TrafficLine
line_of name m = elim (lookup name m) [ none ↦ no_traffic | some line ↦ line ]

-- `TrafficLine& line = mApplicationTraffic[process.comm]`, in front of the lock
unfoldable pub locate : Text → TrafficStorage → TrafficStorage × LineRef
locate name s = (
  record s {
    application_traffic = insert name (line_of name s.application_traffic) s.application_traffic;
  },
  record { name = name; generation = s.generation },
)

-- the rest of `add`, under the lock
unfoldable pub count : LineRef → Packet → TrafficStorage → Outcome TrafficStorage
unfolding count_packet
count ref pkt s =
    if eqb ref.generation s.generation
    then elim (lookup ref.name s.application_traffic) [
      | none ↦ undefined
      | some line ↦ ok (record s {
        application_traffic = insert ref.name (count_packet pkt line) s.application_traffic;
      })
    ]
    else undefined

unfoldable pub add : Process → Packet → TrafficStorage → Outcome TrafficStorage
unfolding locate count
add process pkt s = let (s', ref) = locate process.comm s in count ref pkt s'

unfoldable pub get_live_snapshot : TrafficStorage → TrafficMap × ℤ
get_live_snapshot s = (s.application_traffic, s.interval)

-- the local variables of a thread of the API that waits for traffic
pub record Watcher : Type 0 where
  pub traffic : TrafficMap
  pub interval : ℤ
  pub locked : Bool

abbrev pub Watchers : Type 0
Watchers = ℕ → Watcher

abbrev pub set_watcher : ℕ → Watcher → Watchers → Watchers
set_watcher w v watchers j = if eqb w j then v else watchers j

-- The mutex of the caller is unlocked when it calls.
unfoldable pub await_snapshot : ℕ → TrafficStorage → Watchers → Bool × TrafficStorage × Watchers
await_snapshot w s watchers = if s.api_waiting then (false, s, watchers) else (
  true,
  record s {
    api_waiting = true;
    api_mutex = some w;
    api_traffic_map = some w;
    api_interval = some w;
  },
  set_watcher w (record (watchers w) { locked = true }) watchers,
)

-- `*apiTrafficMap = …; *apiInterval = …; apiMutex->unlock()` through the three pointers
unfoldable pub deliver : TrafficStorage → Watchers → Watchers
deliver s watchers = elim s.api_mutex [
  | none ↦ watchers
  | some mutex ↦ elim s.api_traffic_map [
    | none ↦ watchers
    | some map ↦ elim s.api_interval [
      | none ↦ watchers
      | some interval ↦
          let filled =
            set_watcher map (record (watchers map) { traffic = s.application_traffic }) watchers in
          let timed =
            set_watcher interval (record (filled interval) { interval = s.interval }) filled in
          set_watcher mutex (record (timed mutex) { locked = false }) timed
    ]
  ]
]

-- One round of the loop of `depositLoop`, with the map that it gives to the database. `mAPIWaiting`
-- is false behind both branches.
unfoldable pub deposit : TrafficStorage → Watchers → TrafficMap × TrafficStorage × Watchers
unfolding deliver
deposit s watchers = (
  s.application_traffic,
  record s { application_traffic = []; api_waiting = false; generation = s.generation + 1 },
  if s.api_waiting then deliver s watchers else watchers,
)
