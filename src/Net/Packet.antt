-- ===== src/Net/Packet.antt =====
-- net/Packet.hpp and the constructor of net/Packet.cpp. The host is little-endian. A read behind
-- the captured bytes is undefined.
pub mod Totality
pub mod Kept
pub mod Bounds
use ntmd.Base.{
  ℕ, ◌+◌, ◌*◌, ◌%◌, Bool, true, false, not, ◌&&◌, ◌||◌, Option, none, some, List, get_elem?, eqb,
  if◌then◌else◌,
}
use ntmd.Base.Outcome.{Outcome, ok, undefined, ◌>>=◌}
use ntmd.Net.IpList
use ntmd.Net.IpList.{IpList}

pub data Direction : Type 0 where
  unknown incoming outgoing : Direction

pub data PacketType : Type 0 where
  unknown tcp udp icmp dns ssdp ntp : PacketType

-- `len` is the `int` that the unsigned `header->len` is converted to, as its 32-bit pattern.
-- `timestamp` has no initializer: `none` is the indeterminate value.
pub record Packet : Type 0 where
  pub type : PacketType
  pub protocol : ℕ
  pub sip : ℕ
  pub dip : ℕ
  pub sport : ℕ
  pub dport : ℕ
  pub len : ℕ
  pub total_header_len : ℕ
  pub direction : Direction
  pub timestamp : Option ℕ
  pub discard : Bool

-- the fields of `pcap_pkthdr` that the program reads
pub record PcapHeader : Type 0 where
  pub len : ℕ
  pub tv_sec : ℕ

-- the default member initializers
abbrev pub fresh : Packet
fresh = record {
  type = PacketType.unknown;
  protocol = 0;
  sip = 0;
  dip = 0;
  sport = 0;
  dport = 0;
  len = 0;
  total_header_len = 0;
  direction = Direction.unknown;
  timestamp = none;
  discard = false;
}

unfoldable pub read_byte : List ℕ → ℕ → Outcome ℕ
read_byte raw i = elim (get_elem? raw i) [ none ↦ undefined | some b ↦ ok b ]

-- `ntohs` of the 16-bit field at `i`
unfoldable pub read_port : List ℕ → ℕ → Outcome ℕ
read_port raw i = do high ← read_byte raw i; low ← read_byte raw (i + 1); ok (high * 256 + low)

-- the 32-bit field at `i`, in host order
unfoldable pub read_address : List ℕ → ℕ → Outcome ℕ
read_address raw i = do
  b₀ ← read_byte raw i
  b₁ ← read_byte raw (i + 1)
  b₂ ← read_byte raw (i + 2)
  b₃ ← read_byte raw (i + 3)
  ok (b₀ + 256 * (b₁ + 256 * (b₂ + 256 * b₃)))

-- `sizeof(ethhdr)`
abbrev ethernet_len : ℕ
ethernet_len = 14

-- the three distinctions of UDP packets, in the order of the source
classify_dns : Packet → Packet
classify_dns p =
    if (eqb p.sport 53 || eqb p.dport 53) || (eqb p.sport 5353 && eqb p.dport 5353)
    then record p { type = PacketType.dns; discard = true }
    else p

classify_ssdp : Packet → Packet
classify_ssdp p =
    if eqb p.sport 1900 || eqb p.dport 1900
    then record p { type = PacketType.ssdp; discard = true }
    else p

classify_ntp : Packet → Packet
classify_ntp p =
    if eqb p.sport 123 && eqb p.dport 123
    then record p { type = PacketType.ntp; discard = true }
    else p

unfoldable pub parse_tcp : Packet → List ℕ → ℕ → Outcome Packet
unfolding read_port
parse_tcp p raw offset = do
  sport ← read_port raw offset
  dport ← read_port raw (offset + 2)
  ok (record p {
    type = PacketType.tcp;
    total_header_len = offset + 4;
    sport = sport;
    dport = dport;
  })

pub parse_udp : Packet → List ℕ → ℕ → Outcome Packet
unfolding read_port classify_dns classify_ssdp classify_ntp
parse_udp p raw offset = do
  sport ← read_port raw offset
  dport ← read_port raw (offset + 2)
  let q = record p {
    type = PacketType.udp;
    total_header_len = offset + 8;
    sport = sport;
    dport = dport;
  }
  ok (classify_ntp (classify_ssdp (classify_dns q)))

-- the `switch` on the protocol
unfoldable pub parse_transport : Packet → List ℕ → ℕ → Outcome Packet
unfolding parse_tcp parse_udp
parse_transport p raw offset =
    if eqb p.protocol 6
    then parse_tcp p raw offset
    else if eqb p.protocol 17
    then parse_udp p raw offset
    else if eqb p.protocol 1
    then ok
        (record p { type = PacketType.icmp; total_header_len = offset + 8; sport = 0; dport = 0 })
    else ok (record p { discard = true })

unfoldable pub parse_direction : Packet → List ℕ → ℕ → IpList → Outcome Packet
unfolding parse_transport
parse_direction p raw header_len l =
    if IpList.contains l p.sip
    then parse_transport (record p { direction = Direction.outgoing }) raw
        (header_len + ethernet_len)
    else if IpList.contains l p.dip
    then parse_transport (record p { direction = Direction.incoming }) raw
        (header_len + ethernet_len)
    else ok (record p { direction = Direction.unknown; discard = true })

-- the fields that the IP header fills
abbrev pub of_ip_header : PcapHeader → ℕ → ℕ → ℕ → Packet
of_ip_header header saddr daddr protocol = record fresh {
  len = header.len;
  timestamp = some header.tv_sec;
  sip = saddr;
  dip = daddr;
  protocol = protocol;
}

unfoldable pub parse_ip : PcapHeader → List ℕ → IpList → Outcome Packet
unfolding parse_direction read_byte read_address
parse_ip header raw l = do
  version_ihl ← read_byte raw ethernet_len
  saddr ← read_address raw (ethernet_len + 12)
  daddr ← read_address raw (ethernet_len + 16)
  protocol ← read_byte raw (ethernet_len + 9)
  parse_direction (of_ip_header header saddr daddr protocol) raw (version_ihl % 16 * 4) l

-- the constructor; 0x0800 is `ETHERTYPE_IP`
unfoldable pub parse : PcapHeader → List ℕ → IpList → Outcome Packet
unfolding parse_ip read_port
parse header raw l = do
  ether_type ← read_port raw 12
  if not (eqb ether_type 0x0800)
      then ok (record fresh { discard = true })
      else parse_ip header raw l
