-- ===== src/Net/Packet/Bounds.antt =====
-- The fields of net/Packet.cpp and the widths of their types.
use ntmd.Base.{
  ℕ, ◌+◌, ◌^◌, ◌<◌, ◌≡◌, List, arith, get_elem?, All, All-get_elem?, Option-cases, inl, inr, eqb,
  not, true,
}
use ntmd.Base.Outcome.{ok, Ensures, Ensures-bind, Ensures-if, Ensures-ok}
use ntmd.Net.IpList
use ntmd.Net.IpList.{IpList}
use ntmd.Net.Packet.{
  Packet, Direction, PcapHeader, of_ip_header, fresh, read_byte, read_port, read_address, parse_tcp,
  parse_udp, parse_transport, parse_direction, parse_ip, parse,
}

-- `uint8_t`, `uint16_t` and `uint32_t`
pub record Fits (p : Packet) : Type 0 where
  pub protocol : p.protocol < 2 ^ 8
  pub sip : p.sip < 2 ^ 32
  pub dip : p.dip < 2 ^ 32
  pub sport : p.sport < 2 ^ 16
  pub dport : p.dport < 2 ^ 16

module _ (raw : List ℕ) (bytes : All (λ b. b < 256) raw) where
  read_byte-lt : (i : ℕ) → Ensures (λ b. b < 256) (read_byte raw i)
  unfolding read_byte
  read_byte-lt i b e = elim (Option-cases (get_elem? raw i)) [
    | inl missing ↦ absurd (ground arith)
    | inr (c, there) ↦ All-get_elem? (λ b. b < 256) raw i b bytes (ground arith)
  ]

  read_port-lt : (i : ℕ) → Ensures (λ n. n < 2 ^ 16) (read_port raw i)
  unfolding read_port
  read_port-lt i =
      Ensures-bind (λ n. n < 2 ^ 16) (read_byte raw i) _
        λ a ea.
          Ensures-bind (λ n. n < 2 ^ 16) (read_byte raw (i + 1)) _
            λ b eb.
              Ensures-ok (λ n. n < 2 ^ 16) _
                (omega (arith, read_byte-lt i a ea, read_byte-lt (i + 1) b eb))

  read_address-lt : (i : ℕ) → Ensures (λ n. n < 2 ^ 32) (read_address raw i)
  unfolding read_address
  read_address-lt i =
      Ensures-bind (λ n. n < 2 ^ 32) (read_byte raw i) _
        λ a ea.
          Ensures-bind (λ n. n < 2 ^ 32) (read_byte raw (i + 1)) _
            λ b eb.
              Ensures-bind (λ n. n < 2 ^ 32) (read_byte raw (i + 2)) _
                λ c ec.
                  Ensures-bind (λ n. n < 2 ^ 32) (read_byte raw (i + 3)) _
                    λ d ed.
                      Ensures-ok (λ n. n < 2 ^ 32) _
                        (omega (
                          arith,
                          read_byte-lt i a ea,
                          read_byte-lt (i + 1) b eb,
                          read_byte-lt (i + 2) c ec,
                          read_byte-lt (i + 3) d ed,
                        ))

  parse_udp-Fits : (p : Packet) (offset : ℕ) → Fits p → Ensures Fits (parse_udp p raw offset)
  unfolding parse_udp
  parse_udp-Fits p offset f = Ensures-bind Fits (read_port raw offset) _ λ sport es.
      Ensures-bind Fits (read_port raw (offset + 2)) _ λ dport ed.
        Ensures-ok Fits _
          (ground (arith, read_port-lt offset sport es, read_port-lt (offset + 2) dport ed))

  parse_tcp-Fits : (p : Packet) (offset : ℕ) → Fits p → Ensures Fits (parse_tcp p raw offset)
  unfolding parse_tcp
  parse_tcp-Fits p offset f = Ensures-bind Fits (read_port raw offset) _ λ sport es.
      Ensures-bind Fits (read_port raw (offset + 2)) _ λ dport ed.
        Ensures-ok Fits _
          (ground (arith, read_port-lt offset sport es, read_port-lt (offset + 2) dport ed))

  parse_transport-Fits :
      (p : Packet) (offset : ℕ) → Fits p → Ensures Fits (parse_transport p raw offset)
  parse_transport-Fits p offset f =
      unfold parse_transport in
      Ensures-if Fits (eqb p.protocol 6) _ _ (λ _. parse_tcp-Fits p offset f)
        (λ _.
          Ensures-if Fits (eqb p.protocol 17) _ _ (λ _. parse_udp-Fits p offset f)
            (λ _.
              Ensures-if Fits (eqb p.protocol 1) _ _ (λ _. Ensures-ok Fits _ (ground arith))
                (λ _. Ensures-ok Fits _ (ground arith))))

  parse_direction-Fits :
      (p : Packet) (header_len : ℕ) (l : IpList)
      → Fits p
      → Ensures Fits (parse_direction p raw header_len l)
  unfolding parse_direction
  parse_direction-Fits p header_len l f =
      Ensures-if Fits (IpList.contains l p.sip) _ _
        (λ _. parse_transport-Fits (record p { direction = Direction.outgoing }) _ (ground arith))
        (λ _.
          Ensures-if Fits (IpList.contains l p.dip) _ _
            (λ _.
              parse_transport-Fits (record p { direction = Direction.incoming }) _ (ground arith))
            (λ _.
              Ensures-ok Fits (record p { direction = Direction.unknown; discard = true })
                (ground arith)))

  -- If the captured bytes are bytes, every packet that the constructor returns has addresses of 32
  -- bits, ports of 16 and a protocol of 8.
  pub parse-Fits :
      (header : PcapHeader) (l : IpList) (p : Packet) → parse header raw l ≡ ok p → Fits p
  unfolding parse parse_ip
  parse-Fits header l = Ensures-bind Fits (read_port raw 12) _ λ ether_type _.
      Ensures-if Fits (not (eqb ether_type 0x0800)) _ _
        (λ _. Ensures-ok Fits (record fresh { discard = true }) (ground arith))
        (λ _. Ensures-bind Fits (read_byte raw 14) _ λ version_ihl _.
          Ensures-bind Fits (read_address raw 26) _ λ saddr es.
            Ensures-bind Fits (read_address raw 30) _ λ daddr ed.
              Ensures-bind Fits (read_byte raw 23) _ λ protocol ep.
                parse_direction-Fits (of_ip_header header saddr daddr protocol) _ l (
                  ground (
                    arith,
                    read_address-lt 26 saddr es,
                    read_address-lt 30 daddr ed,
                    read_byte-lt 23 protocol ep,
                  )))
