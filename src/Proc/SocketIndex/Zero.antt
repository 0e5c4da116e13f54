-- ===== src/Proc/SocketIndex/Zero.antt =====
-- The inode 0, which the kernel lists for sockets in TIME_WAIT and `get` answers for an unknown one.
use ntmd.Base.{
  ℕ, ◌≡◌, ◌≢◌, refl, ap, sym, ◌∙◌, true, Option, none, some, List, [], ◌∷◌, Text, codes, arith,
  drop, ◌==◌, eqb, eqb_iff, Bool-cases, Option-cases, inl, inr, ◌⊎◌,
}
use ntmd.Base.Assoc.{lookup, has_key}
use ntmd.Net.Packet.{Packet}
use ntmd.Net.PacketHash.{PacketHash, hash_eq, of_packet}
use ntmd.Proc.FileSystem.{FileSystem}
use ntmd.Proc.SocketIndex.{
  Socket, SocketMap, SocketIndex, scan_line, hash_of, refresh, look_again, get, init,
}
use ntmd.Proc.SocketIndex.Tables.{first_of, socket_with, last_line, shown, shown_in, refresh_lem}
use ntmd.Proc.SocketIndex.Answers.{
  found, answer_of, tables_for, is_searched, get_lem, get-missed, get-known, get-unsearched,
  get-searched,
}

abbrev IsNumbered : Option ℕ → Type 0
IsNumbered o = o ≢ some 0

-- No hash of the map leads to inode 0.
abbrev pub AllNumbered : SocketMap → Type 0
AllNumbered m = (hash : PacketHash) → IsNumbered (lookup hash m)

first_of-IsNumbered : (a b : Option ℕ) → IsNumbered a → IsNumbered b → IsNumbered (first_of a b)
first_of-IsNumbered none b ha hb = hb
first_of-IsNumbered (some i) b ha hb = ha

socket_with-IsNumbered :
    (table : Text) (hash : PacketHash) (sock : Option Socket)
    → IsNumbered (socket_with table hash sock)
socket_with-IsNumbered table hash none = λ h. cc
socket_with-IsNumbered table hash (some sock) = elim (Bool-cases (eqb sock.inode 0)) [
  | inl zero ↦ rw zero λ h. cc
  | inr numbered ↦ rw numbered (elim (Bool-cases (hash_of table sock == hash)) [
    | inl same ↦ rw same λ h. ground (arith, eqb_iff sock.inode 0)
    | inr other ↦ rw other λ h. cc
  ])
]

last_line-IsNumbered :
    (table : Text) (hash : PacketHash) (lines : List Text) → IsNumbered (last_line table hash lines)
unfolding last_line
last_line-IsNumbered table hash [] = λ h. cc
last_line-IsNumbered table hash (line ∷ lines) =
    first_of-IsNumbered _ _ (last_line-IsNumbered table hash lines)
      (socket_with-IsNumbered table hash (scan_line line))

shown-IsNumbered :
    (fs : FileSystem) (table : Text) (hash : PacketHash) → IsNumbered (shown fs table hash)
unfolding shown
shown-IsNumbered fs table hash = elim (Option-cases (fs.lines table)) [
  | inl closed ↦ rw (closed, shown) λ h. cc
  | inr (lines, read) ↦ rw (read, shown) (last_line-IsNumbered table hash (drop 1 lines))
]

shown_in-IsNumbered :
    (fs : FileSystem) (tables : List Text) (hash : PacketHash)
    → IsNumbered (shown_in fs tables hash)
unfolding shown_in
shown_in-IsNumbered fs [] hash = λ h. cc
shown_in-IsNumbered fs (table ∷ tables) hash =
    first_of-IsNumbered _ _ (shown_in-IsNumbered fs tables hash) (shown-IsNumbered fs table hash)

refresh-AllNumbered :
    (fs : FileSystem) (tables : List Text) (s : SocketIndex)
    → AllNumbered s.socket_map
    → AllNumbered (refresh fs tables s).socket_map
refresh-AllNumbered fs tables s h hash =
    rw (refresh_lem fs tables hash s)
      (first_of-IsNumbered _ _ (shown_in-IsNumbered fs tables hash) (h hash))

init-AllNumbered : (fs : FileSystem) → AllNumbered (init fs).socket_map
unfolding init lookup
init-AllNumbered fs =
    refresh-AllNumbered fs
      (codes "/proc/net/tcp" ∷ codes "/proc/net/udp" ∷ codes "/proc/net/raw" ∷ [])
      (record { socket_map = []; could_not_find = [] }) nothing
  where
    nothing : AllNumbered []
    nothing hash h = cc

look_again-map :
    (hash : PacketHash) (s : SocketIndex) → (look_again hash s).0.socket_map ≡ s.socket_map
unfolding look_again
look_again-map hash s = elim (Option-cases (lookup hash s.socket_map)) [
  | inl missed ↦ rw (missed, look_again)
  | inr (inode, hit) ↦ rw (hit, look_again)
]

get-AllNumbered :
    (fs : FileSystem) (pkt : Packet) (s : SocketIndex)
    → AllNumbered s.socket_map
    → AllNumbered (get fs pkt s).0.socket_map
get-AllNumbered fs pkt s h = elim (Bool-cases (has_key (of_packet pkt) s.could_not_find)) [
  | inl missed ↦ rw (get-missed fs pkt s missed) h
  | inr unmissed ↦ elim (Option-cases (lookup (of_packet pkt) s.socket_map)) [
    | inr (inode, known) ↦ rw (get-known fs pkt s inode unmissed known) h
    | inl unknown ↦ elim (Bool-cases (is_searched pkt.type)) [
      | inl searched ↦
          rw (get-searched fs pkt s unmissed unknown searched, look_again-map)
            (refresh-AllNumbered fs (tables_for pkt.type) s h)
      | inr unsearched ↦ rw (get-unsearched fs pkt s unmissed unknown unsearched) h
    ]
  ]
]

answer_of-IsNumbered : (o : Option ℕ) → IsNumbered o → answer_of o ≡ 0 → o ≡ none
answer_of-IsNumbered none h e = refl
answer_of-IsNumbered (some i) h e = absurd (h (ap some e))

-- On a map without inode 0, which `get` keeps so, the answer 0 means one thing: the hash of the
-- packet is on the list of misses, or neither the map nor the tables for its type have it.
pub get-zero :
    (fs : FileSystem) (pkt : Packet) (s : SocketIndex)
    → AllNumbered s.socket_map
    → AllNumbered (get fs pkt s).0.socket_map
      × ((get fs pkt s).1 ≡ 0
          → (has_key (of_packet pkt) s.could_not_find ≡ true) ⊎ (found fs pkt s ≡ none))
get-zero fs pkt s h = (
  get-AllNumbered fs pkt s h,
  λ zero. elim (Bool-cases (has_key (of_packet pkt) s.could_not_find)) [
    | inl missed ↦ inl missed
    | inr unmissed ↦ inr (
        answer_of-IsNumbered (found fs pkt s)
          (first_of-IsNumbered _ _ (h (of_packet pkt))
            (shown_in-IsNumbered fs (tables_for pkt.type) (of_packet pkt)))
          (sym (rw (get_lem fs pkt s, unmissed)) ∙ zero))
  ],
)
