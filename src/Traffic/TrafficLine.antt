-- ===== src/Traffic/TrafficLine.antt =====
-- `TrafficLine` of traffic/DBController.hpp, and what a packet adds to it.
use ntmd.Base.{ℕ, ◌+◌, ◌-◌, ◌%◌, ◌^◌, Bool, ◌&&◌, Text, eqb, ltb, if◌then◌else◌}
use ntmd.Base.Assoc.{Assoc}
use ntmd.Net.Packet.{Packet, Direction}

-- The byte counts are `uint64_t`. The packet counts are `int`, kept as 32-bit patterns: up to
-- 2 ^ 31 - 1 they are the numbers themselves. The overflow of the increment behind that is undefined
-- in C++; the model has the wrap-around of the machine.
pub record TrafficLine : Type 0 where
  pub bytes_rx : ℕ
  pub bytes_tx : ℕ
  pub pkt_rx_count : ℕ
  pub pkt_tx_count : ℕ

abbrev pub no_traffic : TrafficLine
no_traffic = record { bytes_rx = 0; bytes_tx = 0; pkt_rx_count = 0; pkt_tx_count = 0 }

-- `TrafficLine::empty`
unfoldable pub empty : TrafficLine → Bool
empty line =
    eqb line.bytes_rx 0 && eqb line.bytes_tx 0 && eqb line.pkt_rx_count 0 && eqb line.pkt_tx_count 0

abbrev pub TrafficMap : Type 0
TrafficMap = Assoc Text TrafficLine

-- the conversion of the `int` length, a 32-bit pattern, to `uint64_t`
abbrev pub sign_extend : ℕ → ℕ
sign_extend n = if ltb n (2 ^ 31) then n else n + (2 ^ 64 - 2 ^ 32)

received : ℕ → TrafficLine → TrafficLine
received len line = record line {
  bytes_rx = (line.bytes_rx + sign_extend len) % 2 ^ 64;
  pkt_rx_count = (line.pkt_rx_count + 1) % 2 ^ 32;
}

transmitted : ℕ → TrafficLine → TrafficLine
transmitted len line = record line {
  bytes_tx = (line.bytes_tx + sign_extend len) % 2 ^ 64;
  pkt_tx_count = (line.pkt_tx_count + 1) % 2 ^ 32;
}

-- the branches of `TrafficStorage::add`
unfoldable pub count_packet : Packet → TrafficLine → TrafficLine
unfolding received transmitted
count_packet pkt line = elim pkt.direction [
  | Direction.incoming ↦ received pkt.len line
  | Direction.outgoing ↦ transmitted pkt.len line
  | Direction.unknown ↦ transmitted pkt.len line
]
