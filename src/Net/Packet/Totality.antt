-- ===== src/Net/Packet/Totality.antt =====
-- The reads of the constructor of net/Packet.cpp and the end of the capture.
use ntmd.Base.{
  ℕ, ◌+◌, ◌*◌, ◌%◌, ◌≤◌, ◌<◌, ◌≡◌, refl, List, arith, length, get_elem?_in_range, eqb, not, true,
}
use ntmd.Base.Outcome.{ok, Returns, Returns-bind, Returns-if}
use ntmd.Net.IpList
use ntmd.Net.IpList.{IpList}
use ntmd.Net.Packet.{
  Packet, Direction, PcapHeader, of_ip_header, read_byte, read_port, read_address, parse_transport,
  parse_direction, parse_ip, parse,
}

module _ (raw : List ℕ) where
  read_byte-Returns : (i : ℕ) → i < length raw → Returns (read_byte raw i)
  unfolding read_byte
  read_byte-Returns i h = let (b, e) = get_elem?_in_range raw i h in (b, rw (e, read_byte))

  read_port-Returns : (i : ℕ) → i + 1 < length raw → Returns (read_port raw i)
  unfolding read_port
  read_port-Returns i h = Returns-bind (read_byte raw i) _ (read_byte-Returns i (omega arith)) λ a.
      Returns-bind (read_byte raw (i + 1)) _ (read_byte-Returns (i + 1) h) λ b. (a * 256 + b, refl)

  read_address-Returns : (i : ℕ) → i + 3 < length raw → Returns (read_address raw i)
  unfolding read_address
  read_address-Returns i h =
      Returns-bind (read_byte raw i) _ (read_byte-Returns i (omega arith)) λ a.
        Returns-bind (read_byte raw (i + 1)) _ (read_byte-Returns (i + 1) (omega arith)) λ b.
          Returns-bind (read_byte raw (i + 2)) _ (read_byte-Returns (i + 2) (omega arith)) λ c.
            Returns-bind (read_byte raw (i + 3)) _ (read_byte-Returns (i + 3) h)
              λ d. (a + 256 * (b + 256 * (c + 256 * d)), refl)

  parse_transport-Returns :
      (p : Packet) (offset : ℕ) → offset + 3 < length raw → Returns (parse_transport p raw offset)
  unfolding parse_transport
  parse_transport-Returns p offset h =
      Returns-if (eqb p.protocol 6) _ _
        (Returns-bind (read_port raw offset) _ (read_port-Returns offset (omega arith)) λ a.
          Returns-bind (read_port raw (offset + 2)) _ (read_port-Returns (offset + 2) (omega arith))
            λ b. (_, refl))
        (Returns-if (eqb p.protocol 17) _ _
          (Returns-bind (read_port raw offset) _ (read_port-Returns offset (omega arith)) λ a.
            Returns-bind (read_port raw (offset + 2)) _
              (read_port-Returns (offset + 2) (omega arith)) λ b. (_, refl))
          (Returns-if (eqb p.protocol 1) _ _ (_, refl) (_, refl)))

  parse_direction-Returns :
      (p : Packet) (header_len : ℕ) (l : IpList)
      → header_len + 17 < length raw
      → Returns (parse_direction p raw header_len l)
  unfolding parse_direction
  parse_direction-Returns p header_len l h =
      Returns-if (IpList.contains l p.sip) _ _
        (parse_transport-Returns (record p { direction = Direction.outgoing }) (header_len + 14)
          (omega arith))
        (Returns-if (IpList.contains l p.dip) _ _
          (parse_transport-Returns (record p { direction = Direction.incoming }) (header_len + 14)
            (omega arith))
          (record p { direction = Direction.unknown; discard = true }, refl))

  -- From a capture of 78 bytes (the Ethernet header, the longest IP header and four bytes of the
  -- next) the constructor returns, whatever the bytes: it reads nothing behind them.
  pub parse-Returns :
      (header : PcapHeader) (l : IpList)
      → 78 ≤ length raw
      → (p : Packet) × (parse header raw l ≡ ok p)
  unfolding parse parse_ip
  parse-Returns header l h =
      Returns-bind (read_port raw 12) _ (read_port-Returns 12 (omega arith)) λ ether_type.
        Returns-if (not (eqb ether_type 0x0800)) _ _ (_, refl)
          (Returns-bind (read_byte raw 14) _ (read_byte-Returns 14 (omega arith)) λ version_ihl.
            Returns-bind (read_address raw 26) _ (read_address-Returns 26 (omega arith)) λ saddr.
              Returns-bind (read_address raw 30) _ (read_address-Returns 30 (omega arith)) λ daddr.
                Returns-bind (read_byte raw 23) _ (read_byte-Returns 23 (omega arith)) λ protocol.
                  parse_direction-Returns (of_ip_header header saddr daddr protocol)
                    (version_ihl % 16 * 4) l (omega arith))
