-- ===== src/Net/PacketHash/Laws.antt =====
-- The hashes of net/PacketHash.cpp for both directions of a connection.
use ntmd.Base.{◌≡◌, ◌≢◌, arith}
use ntmd.Net.Packet.{Packet, Direction}
use ntmd.Net.PacketHash.{of_packet}

-- The packet that goes the other way.
abbrev flip : Direction → Direction
flip Direction.outgoing = Direction.incoming
flip Direction.incoming = Direction.outgoing
flip Direction.unknown = Direction.unknown

abbrev pub reply : Packet → Packet
reply p = record p {
  sip = p.dip;
  sport = p.dport;
  dip = p.sip;
  dport = p.sport;
  direction = flip p.direction;
}

-- A packet whose direction is known and the packet that answers it have the same hash.
pub of_packet-reply :
    (p : Packet) → p.direction ≢ Direction.unknown → of_packet (reply p) ≡ of_packet p
unfolding of_packet
of_packet-reply p h = ground arith
