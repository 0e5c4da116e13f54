-- ===== src/Proc/SocketTests.antt =====
-- Tests of SocketIndex and ProcessResolver.
use ntmd.Base.{
  ◌^◌, ◌≡◌, ◌<◌, ◌⊎◌, refl, true, false, none, some, [], ◌∷◌, ◌++◌, Text, codes, nat_eq, list_eq,
  int_eq, if◌then◌else◌, ◌==◌, arith,
}
use ntmd.Base.Int.{pos}
use ntmd.Base.Assoc.{lookup, insert, has_key}
use ntmd.Base.Outcome.{ok}
use ntmd.Util.StringUtil
use ntmd.Net.Packet.{Packet, PacketType, Direction, fresh}
use ntmd.Net.PacketHash
use ntmd.Net.PacketHash.{PacketHash, hash_eq, of_packet}
use ntmd.Proc.FileSystem.{FileSystem}
use ntmd.Proc.Scanf
use ntmd.Proc.ProcessIndex
use ntmd.Proc.ProcessIndex.{Process, ProcessIndex}
use ntmd.Proc.SocketIndex
use ntmd.Proc.SocketIndex.{Socket, SocketIndex, scan_line, unpack, refresh}
use ntmd.Proc.SocketIndex.Tables.{first_of, shown_in, refresh_lem}
use ntmd.Proc.SocketIndex.Answers.{found, answer_of, get_lem}
use ntmd.Proc.SocketIndex.Zero.{AllNumbered, get-zero}
use ntmd.Proc.SocketIndex.Mapped.{IsHexWord, unpack-mapped}
use ntmd.Proc.ProcessResolver
use ntmd.Proc.ProcessResolver.{ProcessResolver, unknown_process, resolve}
use ntmd.Proc.ProcessResolver.Resolved.{Matched, resolve_sound, resolve_again}

abbrev socket_line : Text
socket_line =
    codes
      "   0: 0100007F:1F90 0200007F:01BB 01 00000000:00000000 00:00000000 00000000  1000        0 42 1 00 20"

-- 127.0.0.1:8080 to 127.0.0.2:443
abbrev sock : Socket
sock = record {
  local_ip = 16777343;
  remote_ip = 33554559;
  local_port = 8080;
  remote_port = 443;
  inode = 42;
}

scan_socket_line : scan_line socket_line ≡ some sock
unfolding scan_line SocketIndex.endpoint SocketIndex.hex_pair unpack Scanf.hex_word Scanf.hex_number
    Scanf.hex_value Scanf.decimal_number Scanf.decimal_value StringUtil.skip_space
scan_socket_line = refl

abbrev proc : FileSystem
proc = record {
  lines = λ path.
      if path == codes "/proc/net/tcp" then some (codes "header" ∷ socket_line ∷ []) else none;
  entries = λ path. some [];
  exists = λ path. false;
  link = λ path. none;
  stale = λ path. [];
}

abbrev pkt : Packet
pkt = record fresh {
  type = PacketType.tcp;
  direction = Direction.outgoing;
  sip = 16777343;
  dip = 33554559;
  sport = 8080;
  dport = 443;
}

abbrev initial : SocketIndex
initial = record { socket_map = []; could_not_find = [] }

get_lem_example : (SocketIndex.get proc pkt initial).1 ≡ (
    if has_key (of_packet pkt) initial.could_not_find
    then 0
    else answer_of (found proc pkt initial))
get_lem_example = get_lem proc pkt initial

initial_numbered : AllNumbered initial.socket_map
unfolding lookup
initial_numbered hash h = cc

get-zero_example :
    AllNumbered (SocketIndex.get proc pkt initial).0.socket_map
    × ((SocketIndex.get proc pkt initial).1 ≡ 0
        → (has_key (of_packet pkt) initial.could_not_find ≡ true) ⊎ (found proc pkt initial ≡ none))
get-zero_example = get-zero proc pkt initial initial_numbered

refresh_lem_example :
    lookup (of_packet pkt) (refresh proc (codes "/proc/net/tcp" ∷ []) initial).socket_map
    ≡ first_of
        (shown_in proc (codes "/proc/net/tcp" ∷ []) (of_packet pkt))
        (lookup (of_packet pkt) initial.socket_map)
refresh_lem_example = refresh_lem proc (codes "/proc/net/tcp" ∷ []) (of_packet pkt) initial

front-IsHexWord : IsHexWord (codes "0000000000000000FFFF0000")
front-IsHexWord = (
  refl,
  (
    refl,
    (
      refl,
      (
        refl,
        (
          refl,
          (
            refl,
            (
              refl,
              (
                refl,
                (
                  refl,
                  (
                    refl,
                    (
                      refl,
                      (
                        refl,
                        (
                          refl,
                          (
                            refl,
                            (
                              refl,
                              (
                                refl,
                                (refl, (refl, (refl, (refl, (refl, (refl, (refl, (refl, tt)))))))),
                              ),
                            ),
                          ),
                        ),
                      ),
                    ),
                  ),
                ),
              ),
            ),
          ),
        ),
      ),
    ),
  ),
)

address-IsHexWord : IsHexWord (codes "0100007F")
address-IsHexWord = (refl, (refl, (refl, (refl, (refl, (refl, (refl, (refl, tt))))))))

front_fits : Scanf.hex_value 0 (codes "0000000000000000FFFF0000") < 2 ^ 32
unfolding Scanf.hex_value
front_fits = omega arith

unpack-mapped_example :
    unpack (codes "0000000000000000FFFF0000" ++ codes "0100007F") ≡ unpack (codes "0100007F")
unpack-mapped_example =
    unpack-mapped (codes "0000000000000000FFFF0000") (codes "0100007F") front-IsHexWord
      address-IsHexWord refl front_fits

abbrev curl : Process
curl = record { comm = codes "curl"; pid = pos 7 }

-- The process of inode 42 is known.
abbrev resolver : ProcessResolver
resolver = record {
  socket_index = initial;
  process_index = record {
    process_map = (42, curl) ∷ [];
    lru_cache = record { deque = pos 7 ∷ []; size = 5 };
    could_not_find = [];
  };
}

abbrev resolved : ProcessResolver
resolved = record resolver {
  socket_index = record {
    socket_map = (record { ip1 = 16777343; port1 = 8080; ip2 = 33554559; port2 = 443 }, 42) ∷ [];
    could_not_find = [];
  };
}

resolve-pkt : resolve proc pkt resolver ≡ ok (resolved, curl)
unfolding resolve ProcessResolver.resolve_inode ProcessIndex.get SocketIndex.get
    SocketIndex.get_unknown SocketIndex.look_again refresh SocketIndex.refresh_table
    SocketIndex.note_lines SocketIndex.note_line scan_line SocketIndex.endpoint SocketIndex.hex_pair
    unpack Scanf.hex_word Scanf.hex_number Scanf.hex_value Scanf.decimal_number Scanf.decimal_value
    StringUtil.skip_space of_packet PacketHash.of_direction PacketHash.with_remote has_key lookup
    insert
resolve-pkt = refl

resolve_sound_example : (curl ≡ unknown_process) ⊎ Matched proc pkt resolver resolved curl
resolve_sound_example = resolve_sound proc pkt resolver resolved curl resolve-pkt

resolve_again_example : resolve proc pkt resolved ≡ ok (resolved, curl)
resolve_again_example = resolve_again proc proc pkt resolver resolved curl resolve-pkt
