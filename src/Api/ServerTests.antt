-- ===== src/Api/ServerTests.antt =====
-- Tests of the server among the threads of the daemon.
use ntmd.Base.{
  ℕ, ◌≡◌, ◌∙◌, ap, refl, true, false, Option, none, some, List, [], ◌∷◌, ◌++◌, Text, codes,
  replicate,
}
use ntmd.Base.Int.{pos}
use ntmd.Base.Assoc.{lookup, insert, has_key}
use ntmd.Util.Decimal.{to_string}
use ntmd.Util.HumanReadable.{Double}
use ntmd.Net.IpList
use ntmd.Net.IpList.{IpList}
use ntmd.Net.Packet
use ntmd.Net.Packet.{Packet, PcapHeader, Direction, PacketType, parse}
use ntmd.Net.PacketHash
use ntmd.Net.PacketHash.{of_packet}
use ntmd.Proc.FileSystem.{FileSystem}
use ntmd.Proc.ProcessIndex
use ntmd.Proc.SocketIndex
use ntmd.Proc.ProcessResolver
use ntmd.Proc.ProcessResolver.{ProcessResolver}
use ntmd.Proc.ProcessIndex.{Process}
use ntmd.Traffic.DbController.Memory.{memory}
use ntmd.Traffic.TrafficLine.{TrafficMap, no_traffic, count_packet}
use ntmd.Traffic.TrafficStorage
use ntmd.Traffic.TrafficStorage.{Watchers}
use ntmd.Api.Json.{Json}
use ntmd.Api.Handlers.{live_payload, live_round, respond}
use ntmd.Api.Requests.Commands.{handle-live, handle-live_text}
use ntmd.Api.Server.{
  goes_on, follow, course_of, json, asking, waiting, thread_in, Thread, Server, SetUp, Event,
  captured, counted, deposit, request, ask, update, put_at, start, start_socket_server, kind_in,
  thread_of, text, welcoming, welcome, listen_failed,
}
use ntmd.Api.Server.Rounds.{
  callback, resolved, count_pending, answered, answer, served, asked, asks, round_text, step, run,
  welcomed,
}
use ntmd.Api.Server.Leaks.{welcome-Lost}
use ntmd.Api.Server.Sockets.{has_thread, run-Tight}
use ntmd.Api.Server.Sound.{Waits}
use ntmd.Api.Server.Streams.{Streamed, run-Streamed}

abbrev plain : Double
plain = record {
  Value = ℕ;
  of_word = λ n. n;
  over = λ b seconds. b;
  thousandth = λ b. b;
  above_1000 = λ b. false;
  print = λ decimals b. to_string (pos b);
}

-- names and numbers, one after the other
abbrev words : Json
words = record {
  Value = Text;
  null = [];
  unsigned = λ n. to_string (pos n);
  integer = to_string;
  string = λ s. s;
  object = λ m. codes "{}";
  assign = λ v key m. v ++ (key ++ m);
  member = λ v key. [];
  dump = λ v. some v;
}

abbrev idle : Watchers
idle w = record { traffic = []; interval = pos 0; locked = false }

abbrev ready : SetUp
ready = record { made = true; attached = true; bound = λ port. true }

abbrev curl : Process
curl = record { comm = codes "curl"; pid = pos 7 }

-- A TCP packet from 192.168.0.1, port 40000, to 1.1.1.1, port 443.
abbrev raw : List ℕ
raw =
    replicate 12 0
    ++ (8 ∷ 0 ∷ 0x45 ∷ replicate 8 0)
    ++ (6 ∷ 0 ∷ 0 ∷ 192 ∷ 168 ∷ 0 ∷ 1 ∷ [])
    ++ (1 ∷ 1 ∷ 1 ∷ 1 ∷ 156 ∷ 64 ∷ 1 ∷ 187 ∷ replicate 40 0)

abbrev header : PcapHeader
header = record { len = 78; tv_sec = 1000 }

abbrev here : IpList
here = record { ips = 16820416 ∷ []; size = 1 }

abbrev sent : Packet
sent = record {
  type = PacketType.tcp;
  protocol = 6;
  sip = 16820416;
  dip = 16843009;
  sport = 40000;
  dport = 443;
  len = 78;
  total_header_len = 38;
  direction = Direction.outgoing;
  timestamp = some 1000;
  discard = false;
}

abbrev nothing_there : FileSystem
nothing_there = record {
  lines = λ path. none;
  entries = λ path. none;
  exists = λ path. false;
  link = λ path. none;
  stale = λ path. [];
}

-- the socket of the packet and its process are known
abbrev resolver : ProcessResolver
resolver = record {
  socket_index = record { socket_map = (of_packet sent, 42) ∷ []; could_not_find = [] };
  process_index = record {
    process_map = (42, curl) ∷ [];
    lru_cache = record { deque = []; size = 5 };
    could_not_find = [];
  };
}

-- A client asks for live traffic, its thread waits, and a packet comes.
abbrev events : List Event
events =
    request (some (codes "live")) (pos 0) true
    ∷ ask 0 true
    ∷ captured nothing_there header raw
    ∷ counted
    ∷ []

abbrev traffic : TrafficMap
traffic = (codes "curl", record no_traffic { bytes_tx = 78; pkt_tx_count = 1 }) ∷ []

abbrev threads : ℕ → Option Thread
threads =
    put_at 0 (some (thread_in json waiting)) (put_at 0 (some (thread_in json asking)) (λ w. none))

abbrev after : Server memory
after = record {
  system = record {
    storage = record (TrafficStorage.start (pos 10)) {
      application_traffic = traffic;
      api_waiting = true;
      api_mutex = some 0;
      api_traffic_map = some 0;
      api_interval = some 0;
    };
    watchers = TrafficStorage.set_watcher 0 (record (idle 0) { locked = true }) idle;
    deposits = [];
  };
  db = [];
  ip_list = here;
  resolver = resolver;
  pending = none;
  serving = some 13889;
  next = 1;
  is_open = put_at 0 true (λ w. false);
  threads = threads;
  sent = [];
}

abbrev opened : Server memory
opened = record (start memory ready 13889 (pos 10) idle [] here resolver) {
  next = 1;
  is_open = put_at 0 true (λ w. false);
  threads = put_at 0 (some (thread_in json asking)) (λ w. none);
}

run-request :
    step memory words plain 9
      (request (some (codes "live")) (pos 0) true)
      (start memory ready 13889 (pos 10) idle [] here resolver)
    ≡ goes_on opened
unfolding step follow course_of served answer answered respond thread_of start_socket_server
run-request = rw handle-live refl

run-later :
    run memory words plain 9 (ask 0 true ∷ captured nothing_there header raw ∷ counted ∷ []) opened
    ≡ goes_on after
unfolding run step follow course_of callback resolved count_pending parse Packet.parse_ip
    Packet.parse_direction Packet.parse_transport Packet.parse_tcp Packet.read_port Packet.read_byte
    Packet.read_address IpList.contains IpList.contains_from ProcessResolver.resolve
    ProcessResolver.resolve_inode SocketIndex.get ProcessIndex.get has_key lookup insert of_packet
    PacketHash.of_direction PacketHash.with_remote TrafficStorage.locate TrafficStorage.count
    count_packet TrafficStorage.await_snapshot asks asked kind_in start_socket_server
run-later = refl

run-events :
    run memory words plain 9 events (start memory ready 13889 (pos 10) idle [] here resolver)
    ≡ goes_on after
unfolding run follow
run-events =
    ap
      (λ course.
        follow course (
          run memory words plain 9 (ask 0 true ∷ captured nothing_there header raw ∷ counted ∷ [])))
      run-request
    ∙ run-later

abbrev bytes : Text
bytes = live_payload words traffic (pos 10)

said : round_text memory words plain 9 json true traffic (pos 10) ≡ some (goes_on bytes)
unfolding round_text live_round
said = refl

abbrev waits : Waits 0 threads after.system
waits = record { kind = json; thread = refl; locked = refl }

run-Streamed_example :
    (t : Server memory) × (run memory words plain 9 (deposit (pos 200) ∷ update 0 true ∷ []) after
      ≡ goes_on t)
    × Streamed memory 0 (pos 200) bytes after t
run-Streamed_example =
    run-Streamed memory words plain 9 ready 13889 (pos 10) (pos 200) idle [] here resolver events
      after 0 waits bytes run-events said

run-Tight_example : put_at 0 true (λ w. false) 0 ≡ has_thread (threads 0)
run-Tight_example =
    run-Tight memory words plain 9 ready 13889 (pos 10) idle [] here resolver events after 0
      run-events refl

-- A client asks for live text and is gone.
abbrev greeting : Server memory
greeting = record (start memory ready 13889 (pos 10) idle [] here resolver) {
  next = 1;
  is_open = put_at 0 true (λ w. false);
  threads = put_at 0 (some (thread_in text welcoming)) (λ w. none);
}

run-greeting :
    run memory words plain 9
      (request (some (codes "live-text")) (pos 0) true ∷ [])
      (start memory ready 13889 (pos 10) idle [] here resolver)
    ≡ goes_on greeting
unfolding run step follow course_of served answer answered respond thread_of start_socket_server
run-greeting = rw handle-live_text refl

abbrev forgotten : Server memory
forgotten = record greeting { threads = put_at 0 none greeting.threads }

run-forgotten :
    run memory words plain 9 (welcome 0 false ∷ listen_failed ∷ []) greeting ≡ goes_on forgotten
unfolding run step follow welcomed kind_in start_socket_server
run-forgotten = refl

welcome-Lost_example : (forgotten.is_open 0 ≡ true) × (forgotten.threads 0 ≡ none)
welcome-Lost_example =
    welcome-Lost memory words plain 9 ready 13889 (pos 10) idle [] here resolver
      (request (some (codes "live-text")) (pos 0) true ∷ []) (listen_failed ∷ []) greeting forgotten
      0 run-greeting refl run-forgotten
