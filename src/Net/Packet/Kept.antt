-- ===== src/Net/Packet/Kept.antt =====
-- Which packets the constructor discards, and what is known of those it keeps.
use ntmd.Base.{
  ℕ, ◌≡◌, refl, Bool, true, false, not, ◌&&◌, ◌||◌, some, List, arith, eqb, if◌then◌else◌,
}
use ntmd.Base.Outcome.{ok, Ensures, Ensures-bind, Ensures-if, Ensures-ok}
use ntmd.Net.IpList
use ntmd.Net.IpList.{IpList}
use ntmd.Net.Packet.{
  Packet, Direction, PacketType, PcapHeader, of_ip_header, fresh, read_byte, read_port,
  read_address, parse_tcp, parse_udp, parse_transport, parse_direction, parse_ip, parse,
}

-- The types that the rest of the program tells sockets apart by.
abbrev pub is_tracked : PacketType → Bool
is_tracked PacketType.tcp = true
is_tracked PacketType.udp = true
is_tracked PacketType.icmp = true
is_tracked _ = false

abbrev pub is_known : Direction → Bool
is_known Direction.unknown = false
is_known _ = true

-- The protocol number of a tracked type.
abbrev protocol_of : PacketType → ℕ
protocol_of PacketType.tcp = 6
protocol_of PacketType.udp = 17
protocol_of PacketType.icmp = 1
protocol_of _ = 0

-- DNS, multicast DNS, SSDP and NTP.
abbrev is_service : ℕ → ℕ → Bool
is_service sport dport =
    ((eqb sport 53 || eqb dport 53) || (eqb sport 5353 && eqb dport 5353))
    || ((eqb sport 1900 || eqb dport 1900) || (eqb sport 123 && eqb dport 123))

-- What a packet that is not discarded shows.
pub record IsKept (header : PcapHeader) (l : IpList) (p : Packet) : Type 0 where
  tracked : is_tracked p.type ≡ true
  pub protocol : p.protocol ≡ protocol_of p.type
  pub local : (IpList.contains l p.sip || IpList.contains l p.dip) ≡ true
  pub direction :
      p.direction ≡ (if IpList.contains l p.sip then Direction.outgoing else Direction.incoming)
  service : p.type ≡ PacketType.udp → is_service p.sport p.dport ≡ false
  pub len : p.len ≡ header.len
  pub timestamp : p.timestamp ≡ some header.tv_sec

-- The two claims about one packet.
abbrev Judged : PcapHeader → IpList → Packet → Type 0
Judged header l p =
    (p.discard ≡ not (is_known p.direction && is_tracked p.type))
    × (p.discard ≡ false → IsKept header l p)

module _ (header : PcapHeader) (l : IpList) (raw : List ℕ) where
  -- The state of the packet when the `switch` is reached.
  record AtSwitch (p : Packet) : Type 0 where
    kept_so_far : p.discard ≡ false
    untyped : p.type ≡ PacketType.unknown
    known : is_known p.direction ≡ true
    local : (IpList.contains l p.sip || IpList.contains l p.dip) ≡ true
    direction :
        p.direction ≡ (if IpList.contains l p.sip then Direction.outgoing else Direction.incoming)
    len : p.len ≡ header.len
    timestamp : p.timestamp ≡ some header.tv_sec

  parse_tcp-Judged :
      (p : Packet) (offset : ℕ)
      → AtSwitch p
      → p.protocol ≡ 6
      → Ensures (Judged header l) (parse_tcp p raw offset)
  unfolding parse_tcp
  parse_tcp-Judged p offset s e = Ensures-bind (Judged header l) (read_port raw offset) _ λ sport _.
      Ensures-bind (Judged header l) (read_port raw _) _
        λ dport _. Ensures-ok (Judged header l) _ (ground arith, λ _. ground arith)

  parse_udp-Judged :
      (p : Packet) (offset : ℕ)
      → AtSwitch p
      → p.protocol ≡ 17
      → Ensures (Judged header l) (parse_udp p raw offset)
  unfolding parse_udp
  parse_udp-Judged p offset s e = Ensures-bind (Judged header l) (read_port raw offset) _ λ sport _.
      Ensures-bind (Judged header l) (read_port raw _) _
        λ dport _. Ensures-ok (Judged header l) _ (ground arith, λ kept. ground arith)

  parse_transport-Judged :
      (p : Packet) (offset : ℕ)
      → AtSwitch p
      → Ensures (Judged header l) (parse_transport p raw offset)
  parse_transport-Judged p offset s =
      unfold parse_transport in
      Ensures-if (Judged header l) (eqb p.protocol 6) _ _
        (λ e. parse_tcp-Judged p offset s (ground arith))
        (λ _.
          Ensures-if (Judged header l) (eqb p.protocol 17) _ _
            (λ e. parse_udp-Judged p offset s (ground arith))
            (λ _.
              Ensures-if (Judged header l) (eqb p.protocol 1) _ _
                (λ e. Ensures-ok (Judged header l) _ (ground arith, λ _. ground arith))
                (λ _. Ensures-ok (Judged header l) _ (ground arith, λ kept. ground arith))))

  parse_direction-Judged :
      (p : Packet) (header_len : ℕ)
      → p.discard ≡ false
      → p.type ≡ PacketType.unknown
      → p.len ≡ header.len
      → p.timestamp ≡ some header.tv_sec
      → Ensures (Judged header l) (parse_direction p raw header_len l)
  unfolding parse_direction
  parse_direction-Judged p header_len d t n ts =
      Ensures-if (Judged header l) (IpList.contains l p.sip) _ _
        (λ own.
          parse_transport-Judged (record p { direction = Direction.outgoing }) _ (ground arith))
        (λ other.
          Ensures-if (Judged header l) (IpList.contains l p.dip) _ _
            (λ own.
              parse_transport-Judged (record p { direction = Direction.incoming }) _ (ground arith))
            (λ _.
              Ensures-ok (Judged header l)
                (record p { direction = Direction.unknown; discard = true }) (refl, λ e. cc)))

  parse-Judged : Ensures (Judged header l) (parse header raw l)
  unfolding parse parse_ip
  parse-Judged = Ensures-bind (Judged header l) (read_port raw 12) _ λ ether_type _.
      Ensures-if (Judged header l) (not (eqb ether_type 0x0800)) _ _
        (λ _. Ensures-ok (Judged header l) (record fresh { discard = true }) (refl, λ e. cc))
        (λ _. Ensures-bind (Judged header l) (read_byte raw 14) _ λ version_ihl _.
          Ensures-bind (Judged header l) (read_address raw 26) _ λ saddr _.
            Ensures-bind (Judged header l) (read_address raw 30) _ λ daddr _.
              Ensures-bind (Judged header l) (read_byte raw 23) _ λ protocol _.
                parse_direction-Judged (of_ip_header header saddr daddr protocol) _ refl refl refl
                  refl)

  -- A packet is discarded exactly if its direction is unknown or its type is not TCP, UDP or ICMP;
  -- IPv6 packets, other protocols, and the DNS, SSDP and NTP packets have such a type or direction.
  pub discard-parse :
      (p : Packet)
      → parse header raw l ≡ ok p
      → p.discard ≡ not (is_known p.direction && is_tracked p.type)
  discard-parse p e = (parse-Judged p e).0

  -- A packet that is kept has the type of its IP protocol number, one end on this host, the
  -- direction of its source address, and length and time of the capture; on UDP it is none of the
  -- services that are left out.
  pub parse-IsKept :
      (p : Packet) → parse header raw l ≡ ok p → p.discard ≡ false → IsKept header l p
  parse-IsKept p e = (parse-Judged p e).1
