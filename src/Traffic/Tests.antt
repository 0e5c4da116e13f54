-- ===== src/Traffic/Tests.antt =====
-- Tests of the traffic modules.
use ntmd.Base.{
  ◌≡◌, refl, true, false, some, List, [], ◌∷◌, ◌++◌, codes, nat_eq, list_eq, arith, All, subst, sym,
}
use ntmd.Base.Int.{pos}
use ntmd.Base.Assoc.{lookup, insert}
use ntmd.Base.Outcome.{ok}
use ntmd.Util.StringUtil.{str_to_lower, contains_semicolon}
use ntmd.Traffic.DbController.{fetch_traffic_since}
use ntmd.Traffic.DbController.Deposited.{CanStore, stored, tables-insert_application_traffic}
use ntmd.Traffic.DbController.Fetched.{since}
use ntmd.Traffic.DbController.Memory.{memory}
use ntmd.Traffic.DbController.Memory.Laws.{memory-IsLawful}
use ntmd.Traffic.History.{History, deposit_all, IsHistory}
use ntmd.Traffic.History.Reported.{Reported, run-Reported}
use ntmd.Traffic.Tables.{IsName, AllFit, same, sum, find_table, create_table, insert_row}
use ntmd.Net.Packet.{Packet, Direction, PacketType, fresh}
use ntmd.Proc.ProcessIndex.{Process}
use ntmd.Traffic.TrafficLine.{TrafficLine, no_traffic, count_packet}
use ntmd.Traffic.TrafficStorage
use ntmd.Traffic.TrafficStorage.{TrafficStorage, Watcher, Watchers}
use ntmd.Traffic.System.{System, Event, packet, await, deposit, step, run, start}
use ntmd.Traffic.System.Conservation.{Conserved, run-Conserved}
use ntmd.Traffic.System.Delivery.{Delivered, await-Delivered}

abbrev curl : Process
curl = record { comm = codes "curl"; pid = pos 7 }

abbrev sent : Packet
sent = record fresh { type = PacketType.tcp; direction = Direction.outgoing; len = 60 }

abbrev answer : Packet
answer = record fresh { type = PacketType.tcp; direction = Direction.incoming; len = 1500 }

abbrev idle : Watchers
idle w = record { traffic = []; interval = pos 0; locked = false }

-- A packet before the deposit, a packet behind it.
abbrev events : List Event
events = packet curl sent ∷ deposit ∷ packet curl answer ∷ []

-- The counters of the two packets.
abbrev sent_line : TrafficLine
sent_line = record no_traffic { bytes_tx = 60; pkt_tx_count = 1 }

abbrev answer_line : TrafficLine
answer_line = record no_traffic { bytes_rx = 1500; pkt_rx_count = 1 }

abbrev after_events : System
after_events = record {
  storage = record (TrafficStorage.start (pos 10)) {
    application_traffic = (codes "curl", answer_line) ∷ [];
    generation = 1;
  };
  watchers = idle;
  deposits = ((codes "curl", sent_line) ∷ []) ∷ [];
}

run-events : run events (start (pos 10) idle) ≡ ok after_events
unfolding run step TrafficStorage.add TrafficStorage.locate TrafficStorage.count count_packet
    TrafficStorage.deposit lookup insert
run-events = refl

run-Conserved_example : Conserved (codes "curl") events (start (pos 10) idle) after_events
run-Conserved_example =
    run-Conserved (codes "curl") events (start (pos 10) idle) after_events run-events

-- Thread 3 waits, thread 4 is refused.
abbrev asked : List Event
asked = packet curl sent ∷ await 4 ∷ []

abbrev watched : Watchers
watched =
    let locked = TrafficStorage.set_watcher 3 (record (idle 3) { locked = true }) idle in
    let filled =
      TrafficStorage.set_watcher 3 (record (locked 3) { traffic = (codes "curl", sent_line) ∷ [] })
        locked in
    let timed = TrafficStorage.set_watcher 3 (record (filled 3) { interval = pos 10 }) filled in
    TrafficStorage.set_watcher 3 (record (timed 3) { locked = false }) timed

abbrev after_delivery : System
after_delivery = record {
  storage = record (TrafficStorage.start (pos 10)) {
    api_mutex = some 3;
    api_traffic_map = some 3;
    api_interval = some 3;
    generation = 1;
  };
  watchers = watched;
  deposits = ((codes "curl", sent_line) ∷ []) ∷ [];
}

run-asked : run (await 3 ∷ (asked ++ deposit ∷ [])) (start (pos 10) idle) ≡ ok after_delivery
unfolding run step TrafficStorage.add TrafficStorage.locate TrafficStorage.count count_packet
    TrafficStorage.deposit TrafficStorage.deliver TrafficStorage.await_snapshot lookup insert
run-asked = refl

await-Delivered_example : Delivered 3 (start (pos 10) idle) after_delivery
await-Delivered_example =
    await-Delivered 3 asked (start (pos 10) idle) after_delivery refl tt run-asked

-- The deposit, at a time, in a database without tables.
abbrev history : History
history = (pos 200, (codes "curl", sent_line) ∷ []) ∷ []

curl-IsName : IsName (codes "curl")
unfolding str_to_lower
curl-IsName = record {
  shown = λ h. absurd (cc);
  plain = omega arith;
  short = omega arith;
  free = refl;
}

history-IsHistory : IsHistory (codes "curl") (pos 100) history
unfolding same str_to_lower
history-IsHistory = (refl, (tt, tt), ((curl-IsName, omega arith), tt), (refl, tt), tt)

history-CanStore : All (CanStore (pos 200) []) ((codes "curl", sent_line) ∷ [])
unfolding find_table
history-CanStore = ((curl-IsName, omega arith, tt), tt)

stored-fits : AllFit (since (pos 150)) (stored (pos 200) ((codes "curl", sent_line) ∷ []) [])
unfolding contains_semicolon create_table insert_row same str_to_lower sum
stored-fits = omega arith

history-fits : AllFit (since (pos 150)) (deposit_all memory history [])
unfolding deposit_all
history-fits =
    subst (AllFit (since (pos 150)))
      (sym
        (tables-insert_application_traffic memory memory-IsLawful (pos 200)
          ((codes "curl", sent_line) ∷ []) [] (tt, tt) history-CanStore tt).1)
      stored-fits

run-Reported_example :
    Reported
      (codes "curl")
      events
      (TrafficStorage.line_of
        (codes "curl")
        (fetch_traffic_since memory (pos 150) (deposit_all memory history [])))
      answer_line
unfolding lookup contains_semicolon find_table
run-Reported_example =
    run-Reported memory memory-IsLawful [] (codes "curl") (pos 150) (pos 100) (pos 10) history idle
      events after_events tt tt tt refl refl history-IsHistory (refl, tt) (omega arith) history-fits
      run-events refl
