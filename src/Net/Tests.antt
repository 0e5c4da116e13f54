-- ===== src/Net/Tests.antt =====
-- Tests of the net modules.
use ntmd.Base.{
  ℕ, ◌<◌, ◌≤◌, ◌≡◌, refl, false, not, ◌&&◌, none, some, List, [], ◌∷◌, ◌++◌, codes, nat_eq, list_eq,
  arith, length, replicate,
}
use ntmd.Base.Outcome.{ok}
use ntmd.Base.Int.{pos}
use ntmd.Base.Assoc.{lookup, insert, has_key}
use ntmd.Net.PacketHash
use ntmd.Net.PacketHash.{hash_eq}
use ntmd.Net.Sniffer
use ntmd.Net.Sniffer.{Sniffer}
use ntmd.Net.Sniffer.Accounting.{Handled, pkt_callback-Handled}
use ntmd.Proc.FileSystem.{FileSystem}
use ntmd.Proc.ProcessIndex
use ntmd.Proc.ProcessIndex.{Process}
use ntmd.Proc.SocketIndex
use ntmd.Proc.ProcessResolver
use ntmd.Traffic.TrafficLine.{count_packet}
use ntmd.Traffic.TrafficStorage
use ntmd.Net.IpList
use ntmd.Net.IpList.{IpList, Interface, fresh}
use ntmd.Net.IpList.Laws.{has, s_addrs, contains-init}
use ntmd.Net.Packet
use ntmd.Net.Packet.{Packet, PcapHeader, Direction, PacketType, parse}
use ntmd.Net.Packet.Totality.{parse-Returns}
use ntmd.Net.Packet.Kept.{IsKept, is_known, is_tracked, parse-IsKept, discard-parse}
use ntmd.Net.PacketHash.{of_packet}
use ntmd.Net.PacketHash.Laws.{reply, of_packet-reply}

-- 127.0.0.1 and 192.168.0.1 on one device, something else on another.
abbrev interfaces : List Interface
interfaces =
    record { name = codes "lo"; sa_family = 2; s_addr = some 16777343 }
    ∷ record { name = codes "eth0"; sa_family = 2; s_addr = none }
    ∷ record { name = codes "eth0"; sa_family = 2; s_addr = some 16820416 }
    ∷ record { name = codes "eth0"; sa_family = 17; s_addr = some 2 }
    ∷ []

some_on_eth0 :
    (0 < length (s_addrs (codes "eth0") interfaces))
    × (length (s_addrs (codes "eth0") interfaces) ≤ 64)
unfolding s_addrs
some_on_eth0 = omega arith

contains-init_example :
    (l : IpList) × (IpList.init (codes "eth0") (some interfaces) fresh ≡ ok l)
    × ((ip : ℕ) → IpList.contains l ip ≡ has ip (s_addrs (codes "eth0") interfaces))
contains-init_example = contains-init (codes "eth0") interfaces some_on_eth0.0 some_on_eth0.1

-- A TCP packet from 192.168.0.1, port 40000, to 1.1.1.1, port 443.
abbrev raw : List ℕ
raw =
    replicate 12 0
    ++ (8 ∷ 0 ∷ 0x45 ∷ replicate 8 0)
    ++ (6 ∷ 0 ∷ 0 ∷ 192 ∷ 168 ∷ 0 ∷ 1 ∷ [])
    ++ (1 ∷ 1 ∷ 1 ∷ 1 ∷ 156 ∷ 64 ∷ 1 ∷ 187 ∷ replicate 40 0)

abbrev header : PcapHeader
header = record { len = 78; tv_sec = 1000 }

abbrev here : IpList
here = record { ips = 16820416 ∷ []; size = 1 }

abbrev sent : Packet
sent = record {
  type = PacketType.tcp;
  protocol = 6;
  sip = 16820416;
  dip = 16843009;
  sport = 40000;
  dport = 443;
  len = 78;
  total_header_len = 38;
  direction = Direction.outgoing;
  timestamp = some 1000;
  discard = false;
}

parse-sent : parse header raw here ≡ ok sent
unfolding parse Packet.parse_ip Packet.parse_direction Packet.parse_transport Packet.parse_tcp
    Packet.read_port Packet.read_byte Packet.read_address IpList.contains IpList.contains_from
parse-sent = refl

parse-Returns_example : (p : Packet) × (parse header raw here ≡ ok p)
parse-Returns_example = parse-Returns raw header here (omega arith)

parse-IsKept_example : IsKept header here sent
parse-IsKept_example = parse-IsKept header here raw sent parse-sent refl

discard-parse_example : sent.discard ≡ not (is_known sent.direction && is_tracked sent.type)
discard-parse_example = discard-parse header here raw sent parse-sent

of_packet-reply_example : of_packet (reply sent) ≡ of_packet sent
of_packet-reply_example = of_packet-reply sent λ h. cc

-- The socket of the packet and its process are known.
abbrev curl : Process
curl = record { comm = codes "curl"; pid = pos 7 }

abbrev nothing_there : FileSystem
nothing_there = record {
  lines = λ path. none;
  entries = λ path. none;
  exists = λ path. false;
  link = λ path. none;
  stale = λ path. [];
}

abbrev sniffer : Sniffer
sniffer = record {
  ip_list = here;
  process_resolver = record {
    socket_index = record { socket_map = (of_packet sent, 42) ∷ []; could_not_find = [] };
    process_index = record {
      process_map = (42, curl) ∷ [];
      lru_cache = record { deque = []; size = 5 };
      could_not_find = [];
    };
  };
  traffic_storage = TrafficStorage.start (pos 10);
}

abbrev sniffer_after : Sniffer
sniffer_after = record sniffer {
  traffic_storage = record (TrafficStorage.start (pos 10)) {
    application_traffic =
        (codes "curl", record { bytes_rx = 0; bytes_tx = 78; pkt_rx_count = 0; pkt_tx_count = 1 })
        ∷ [];
  };
}

callback_sniffer : Sniffer.pkt_callback nothing_there header raw sniffer ≡ ok sniffer_after
unfolding Sniffer.pkt_callback Sniffer.account parse Packet.parse_ip Packet.parse_direction
    Packet.parse_transport Packet.parse_tcp Packet.read_port Packet.read_byte Packet.read_address
    IpList.contains IpList.contains_from ProcessResolver.resolve ProcessResolver.resolve_inode
    SocketIndex.get ProcessIndex.get has_key lookup insert of_packet PacketHash.of_direction
    PacketHash.with_remote TrafficStorage.add TrafficStorage.locate TrafficStorage.count
    count_packet
callback_sniffer = refl

pkt_callback-Handled_example : Handled nothing_there header raw sniffer sniffer_after
pkt_callback-Handled_example =
    pkt_callback-Handled nothing_there header raw sniffer sniffer_after callback_sniffer
