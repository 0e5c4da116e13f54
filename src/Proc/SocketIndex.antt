-- ===== src/Proc/SocketIndex.antt =====
-- proc/SocketIndex.hpp and proc/SocketIndex.cpp: from a packet to the inode of its socket. A method
-- takes the state and what the file system shows during its call. Log lines are left out.
pub mod Tables
pub mod Answers
pub mod Zero
pub mod Mapped
use ntmd.Base.{
  ℕ, ◌+◌, ◌%◌, ◌^◌, Bool, true, false, Option, none, some, List, [], ◌∷◌, Text, codes,
  if◌then◌else◌, ◌==◌, nat_eq, list_eq, eqb, drop,
}
use ntmd.Base.Assoc.{Assoc, lookup, insert, has_key}
use ntmd.Util.StringUtil.{skip_space}
use ntmd.Net.Packet.{Packet, PacketType}
use ntmd.Net.PacketHash.{PacketHash, hash_eq, of_packet, of_port, of_endpoints}
use ntmd.Proc.FileSystem.{FileSystem}
use ntmd.Proc.Scanf.{◌>>=◌, literal, hex_word, hex_number, decimal_number}

pub record Socket : Type 0 where
  pub local_ip : ℕ
  pub remote_ip : ℕ
  pub local_port : ℕ
  pub remote_port : ℕ
  pub inode : ℕ

abbrev pub SocketMap : Type 0
SocketMap = Assoc PacketHash ℕ

-- `mSocketMap` and `mCouldNotFind`
pub record SocketIndex : Type 0 where
  pub socket_map : SocketMap
  pub could_not_find : Assoc PacketHash Bool

-- `sscanf(packed, "%X", &ip)`; the variable keeps its 0 where nothing matches
unfoldable pub unpack : Text → ℕ
unfolding hex_number
unpack packed = elim (hex_number packed) [ none ↦ 0 | some (n, rest) ↦ n % 2 ^ 32 ]

-- an end of the connection: its packed address and its port, and the rest of the line
unfoldable pub endpoint : Text → Option (Text × ℕ × Text)
unfolding hex_word hex_number
endpoint s = do
  word ← hex_word (skip_space s)
  colon ← literal b':' word.1
  port ← hex_number colon
  some (word.0, port.0 % 2 ^ 16, port.1)

-- two `%*X` with a colon between
unfoldable pub hex_pair : Text → Option Text
unfolding hex_number
hex_pair s = do
  first ← hex_number s
  colon ← literal b':' first.1
  second ← hex_number colon
  some second.1

-- The `sscanf` of a line, with the test that it stored five values. Behind `%ld` nothing is stored.
unfoldable pub scan_line : Text → Option Socket
unfolding decimal_number endpoint hex_number hex_pair unpack
scan_line line = do
  slot ← decimal_number line
  colon ← literal b':' slot.1
  local ← endpoint colon
  remote ← endpoint local.2
  state ← hex_number remote.2
  queues ← hex_pair state.1
  timer ← hex_pair queues
  retransmits ← hex_number timer
  uid ← decimal_number retransmits.1
  timeout ← decimal_number uid.1
  inode ← decimal_number timeout.1
  some (record {
    local_ip = unpack local.0;
    remote_ip = unpack remote.0;
    local_port = local.1;
    remote_port = remote.1;
    inode = inode.0;
  })

abbrev pub hash_of : Text → Socket → PacketHash
hash_of table sock =
    if table == codes "/proc/net/udp"
    then of_port sock.local_port
    else of_endpoints sock.local_ip sock.local_port sock.remote_ip sock.remote_port

-- the body of the inner loop of `refresh`
unfoldable pub note_line : Text → Text → SocketMap → SocketMap
unfolding scan_line
note_line table line m = elim (scan_line line) [
  | none ↦ m
  | some sock ↦ if eqb sock.inode 0 then m else insert (hash_of table sock) sock.inode m
]

unfoldable pub note_lines : Text → List Text → SocketMap → SocketMap
unfolding note_line
note_lines table [] m = m
note_lines table (line ∷ lines) m = note_lines table lines (note_line table line m)

-- the body of the outer loop; the header line is skipped
unfoldable pub refresh_table : FileSystem → Text → SocketMap → SocketMap
unfolding note_lines
refresh_table fs table m = elim (fs.lines table) [
  | none ↦ m
  | some lines ↦ note_lines table (drop 1 lines) m
]

unfoldable pub refresh : FileSystem → List Text → SocketIndex → SocketIndex
unfolding refresh_table
refresh fs [] s = s
refresh fs (table ∷ tables) s =
    refresh fs tables (record s { socket_map = refresh_table fs table s.socket_map })

-- the answer behind a refresh
unfoldable pub look_again : PacketHash → SocketIndex → SocketIndex × ℕ
look_again hash s = elim (lookup hash s.socket_map) [
  | some inode ↦ (s, inode)
  | none ↦ (record s { could_not_find = insert hash true s.could_not_find }, 0)
]

-- `get` for a packet that neither map holds
unfoldable pub get_unknown : FileSystem → PacketType → PacketHash → SocketIndex → SocketIndex × ℕ
unfolding refresh look_again
get_unknown fs PacketType.tcp hash s =
    look_again hash
      (refresh fs (codes "/proc/net/tcp6" ∷ []) (refresh fs (codes "/proc/net/tcp" ∷ []) s))
get_unknown fs PacketType.udp hash s = look_again hash (refresh fs (codes "/proc/net/udp" ∷ []) s)
get_unknown fs _ hash s = (s, 0)

unfoldable pub get : FileSystem → Packet → SocketIndex → SocketIndex × ℕ
unfolding of_packet get_unknown
get fs pkt s =
    let hash = of_packet pkt in
    if has_key hash s.could_not_find then (s, 0) else elim (lookup hash s.socket_map) [
      | some inode ↦ (s, inode)
      | none ↦ get_unknown fs pkt.type hash s
    ]

-- the constructor, before its thread starts
unfoldable pub init : FileSystem → SocketIndex
unfolding refresh
init fs =
    refresh fs (codes "/proc/net/tcp" ∷ codes "/proc/net/udp" ∷ codes "/proc/net/raw" ∷ [])
      (record { socket_map = []; could_not_find = [] })

-- one round of the thread that the constructor starts
pub forget : SocketIndex → SocketIndex
forget s = record s { could_not_find = [] }
