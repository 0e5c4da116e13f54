-- ===== src/Net/PacketHash.antt =====
-- net/PacketHash.hpp and net/PacketHash.cpp: the key that joins packets and sockets.
pub mod Laws
use ntmd.Base.{ℕ, ◌≡◌, ◌↔◌, Bool, true, ◌&&◌, arith, eqb, Eq}
use ntmd.Net.Packet.{Packet, Direction, PacketType}

pub record PacketHash : Type 0 where
  pub ip1 : ℕ
  pub port1 : ℕ
  pub ip2 : ℕ
  pub port2 : ℕ

abbrev pub default : PacketHash
default = record { ip1 = 0; port1 = 0; ip2 = 0; port2 = 0 }

abbrev pub of_endpoints : ℕ → ℕ → ℕ → ℕ → PacketHash
of_endpoints localip localport remoteip remoteport = record {
  ip1 = localip;
  port1 = localport;
  ip2 = remoteip;
  port2 = remoteport;
}

abbrev pub of_port : ℕ → PacketHash
of_port localport = record { ip1 = 0; port1 = localport; ip2 = 0; port2 = 0 }

-- `operator==`
abbrev pub hash_beq : PacketHash → PacketHash → Bool
hash_beq a b = eqb a.ip1 b.ip1 && eqb a.port1 b.port1 && eqb a.ip2 b.ip2 && eqb a.port2 b.port2

pub hash_beq_iff : (a b : PacketHash) → (hash_beq a b ≡ true) ↔ (a ≡ b)
hash_beq_iff a b = ground arith

instance abbrev pub hash_eq : Eq PacketHash
hash_eq = record { beq = hash_beq; beq_iff = hash_beq_iff }

-- UDP packets return behind the local port; the other fields keep their initializers.
unfoldable pub with_remote : PacketType → PacketHash → PacketHash → PacketHash
with_remote PacketType.udp port_only whole = port_only
with_remote _ port_only whole = whole

unfoldable pub of_direction : Direction → Packet → PacketHash
unfolding with_remote
of_direction Direction.outgoing p =
    with_remote p.type (of_port p.sport) (of_endpoints p.sip p.sport p.dip p.dport)
of_direction _ p = with_remote p.type (of_port p.dport) (of_endpoints p.dip p.dport p.sip p.sport)

-- the constructor from a packet
unfoldable pub of_packet : Packet → PacketHash
unfolding of_direction
of_packet p = of_direction p.direction p
