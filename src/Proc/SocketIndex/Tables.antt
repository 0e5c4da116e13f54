-- ===== src/Proc/SocketIndex/Tables.antt =====
-- What the socket tables show, and what `get` answers from them.
use ntmd.Base.{
  ℕ, ◌≡◌, refl, ap, ◌∙◌, Option, none, some, List, [], ◌∷◌, Text, if◌then◌else◌, ◌==◌, nat_eq,
  list_eq, eqb, drop, Bool-cases, Option-cases, inl, inr,
}
use ntmd.Base.Assoc.{lookup, lookup-insert}
use ntmd.Net.PacketHash.{PacketHash, hash_eq}
use ntmd.Proc.FileSystem.{FileSystem}
use ntmd.Proc.SocketIndex.{
  Socket, SocketMap, SocketIndex, scan_line, hash_of, note_line, note_lines, refresh_table, refresh,
}

-- The first of two optional values that is there.
abbrev pub first_of : Option ℕ → Option ℕ → Option ℕ
first_of none b = b
first_of (some i) b = some i

-- The inode of a socket with the hash, unless it is 0.
abbrev pub socket_with : Text → PacketHash → Option Socket → Option ℕ
socket_with table hash none = none
socket_with table hash (some sock) =
    if eqb sock.inode 0 then none else if hash_of table sock == hash then some sock.inode else none

-- The inode on the last line of a table that shows a socket with the hash.
unfoldable pub last_line : Text → PacketHash → List Text → Option ℕ
last_line table hash [] = none
last_line table hash (line ∷ lines) =
    first_of (last_line table hash lines) (socket_with table hash (scan_line line))

unfoldable pub shown : FileSystem → Text → PacketHash → Option ℕ
unfolding last_line
shown fs table hash = elim (fs.lines table) [
  | none ↦ none
  | some lines ↦ last_line table hash (drop 1 lines)
]

first_of_assoc : (a b c : Option ℕ) → first_of a (first_of b c) ≡ first_of (first_of a b) c
first_of_assoc none b c = refl
first_of_assoc (some i) b c = refl

note_line_lem :
    (table line : Text) (hash : PacketHash) (m : SocketMap)
    → lookup hash (note_line table line m)
      ≡ first_of (socket_with table hash (scan_line line)) (lookup hash m)
unfolding note_line
note_line_lem table line hash m = elim (Option-cases (scan_line line)) [
  | inl malformed ↦ rw (malformed, note_line)
  | inr (sock, read) ↦
      rw (read, note_line)
        (elim (Bool-cases (eqb sock.inode 0)) [
          | inl zero ↦ rw zero
          | inr numbered ↦
              rw (numbered, lookup-insert (hash_of table sock) hash sock.inode m)
                (elim (Bool-cases (hash_of table sock == hash)) [
                  | inl same ↦ rw same
                  | inr other ↦ rw other
                ])
        ])
]

note_lines_lem :
    (table : Text) (lines : List Text) (hash : PacketHash) (m : SocketMap)
    → lookup hash (note_lines table lines m) ≡ first_of (last_line table hash lines) (lookup hash m)
unfolding note_lines last_line
note_lines_lem table [] hash m = refl
note_lines_lem table (line ∷ lines) hash m =
    note_lines_lem table lines hash (note_line table line m)
    ∙ ap (first_of (last_line table hash lines)) (note_line_lem table line hash m)
    ∙ first_of_assoc (last_line table hash lines) _ _

refresh_table_lem :
    (fs : FileSystem) (table : Text) (hash : PacketHash) (m : SocketMap)
    → lookup hash (refresh_table fs table m) ≡ first_of (shown fs table hash) (lookup hash m)
unfolding refresh_table shown
refresh_table_lem fs table hash m = elim (Option-cases (fs.lines table)) [
  | inl closed ↦ rw (closed, refresh_table, shown)
  | inr (lines, read) ↦ rw (read, refresh_table, shown) (note_lines_lem table (drop 1 lines) hash m)
]

-- What the tables of a list show, the last table first.
unfoldable pub shown_in : FileSystem → List Text → PacketHash → Option ℕ
unfolding shown
shown_in fs [] hash = none
shown_in fs (table ∷ tables) hash = first_of (shown_in fs tables hash) (shown fs table hash)

-- After `refresh` a hash leads to the last socket with it on any line of the tables, malformed
-- lines and inode 0 aside; where the tables show none, it leads where it led before.
pub refresh_lem :
    (fs : FileSystem) (tables : List Text) (hash : PacketHash) (s : SocketIndex)
    → lookup hash (refresh fs tables s).socket_map
      ≡ first_of (shown_in fs tables hash) (lookup hash s.socket_map)
unfolding refresh shown_in
refresh_lem fs [] hash s = refl
refresh_lem fs (table ∷ tables) hash s =
    refresh_lem fs tables hash (record s { socket_map = refresh_table fs table s.socket_map })
    ∙ ap (first_of (shown_in fs tables hash)) (refresh_table_lem fs table hash s.socket_map)
    ∙ first_of_assoc (shown_in fs tables hash) _ _
