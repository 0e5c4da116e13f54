-- ===== src/Traffic/System.antt =====
-- The threads that share the traffic storage, as a sequence of steps. A packet is one step: the
-- deposit thread does not run between the two statements of `add` (see TrafficStorage/Add).
pub mod Conservation
pub mod Hooked
pub mod Delivery
use ntmd.Base.{ℕ, Bool, true, false, List, [], ◌∷◌, ◌++◌}
use ntmd.Base.Int.{ℤ}
use ntmd.Base.Outcome.{Outcome, ok, ◌>>=◌}
use ntmd.Net.Packet.{Packet}
use ntmd.Proc.ProcessIndex.{Process}
use ntmd.Traffic.TrafficLine.{TrafficMap}
use ntmd.Traffic.TrafficStorage
use ntmd.Traffic.TrafficStorage.{TrafficStorage, Watchers}

-- `deposits` are the maps that `insertApplicationTraffic` was called with, in order.
pub record System : Type 0 where
  pub storage : TrafficStorage
  pub watchers : Watchers
  pub deposits : List TrafficMap

-- What the environment makes the threads do next: a packet is matched with its process, a thread
-- of the API asks for the next traffic, or the interval of the deposit thread ends.
pub data Event : Type 0 where
  packet : Process → Packet → Event
  await : ℕ → Event
  deposit : Event

unfoldable pub step : Event → System → Outcome System
step (packet process pkt) s = do
  storage ← TrafficStorage.add process pkt s.storage
  ok (record s { storage = storage })
step (await w) s =
    let (_, storage, watchers) = TrafficStorage.await_snapshot w s.storage s.watchers in
    ok (record s { storage = storage; watchers = watchers })
step deposit s =
    let (traffic, storage, watchers) = TrafficStorage.deposit s.storage s.watchers in
    ok (record { storage = storage; watchers = watchers; deposits = s.deposits ++ traffic ∷ [] })

unfoldable pub run : List Event → System → Outcome System
unfolding step
run [] s = ok s
run (event ∷ events) s = do s' ← step event s; run events s'

-- The system before its first packet.
abbrev pub start : ℤ → Watchers → System
start interval watchers = record {
  storage = TrafficStorage.start interval;
  watchers = watchers;
  deposits = [];
}
