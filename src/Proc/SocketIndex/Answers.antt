-- ===== src/Proc/SocketIndex/Answers.antt =====
-- The answers of `get`.
use ntmd.Base.{
  ℕ, ◌≡◌, refl, ap, sym, ◌∙◌, Bool, true, false, Option, none, some, List, [], ◌∷◌, Text, codes,
  if◌then◌else◌, nat_eq, list_eq, Bool-cases, Option-cases, inl, inr, beq_self, ◌⊎◌,
}
use ntmd.Base.Assoc.{lookup, has_key, has_key-insert}
use ntmd.Net.Packet.{Packet, PacketType}
use ntmd.Net.PacketHash.{PacketHash, hash_eq, of_packet}
use ntmd.Proc.FileSystem.{FileSystem}
use ntmd.Proc.SocketIndex.{SocketIndex, refresh, look_again, get_unknown, get}
use ntmd.Proc.SocketIndex.Tables.{first_of, shown_in, refresh_lem}

-- The tables that `get` reads for a type of packet.
abbrev pub tables_for : PacketType → List Text
tables_for PacketType.tcp = codes "/proc/net/tcp" ∷ codes "/proc/net/tcp6" ∷ []
tables_for PacketType.udp = codes "/proc/net/udp" ∷ []
tables_for _ = []

abbrev pub is_searched : PacketType → Bool
is_searched PacketType.tcp = true
is_searched PacketType.udp = true
is_searched _ = false

-- The inode that a hash leads to, in the map or on the tables.
abbrev pub found : FileSystem → Packet → SocketIndex → Option ℕ
found fs pkt s =
    first_of (lookup (of_packet pkt) s.socket_map)
      (shown_in fs (tables_for pkt.type) (of_packet pkt))

abbrev pub answer_of : Option ℕ → ℕ
answer_of none = 0
answer_of (some inode) = inode

first_of-none : (a : Option ℕ) → first_of a none ≡ a
first_of-none none = refl
first_of-none (some i) = refl

refresh_keeps :
    (fs : FileSystem) (tables : List Text) (s : SocketIndex)
    → (refresh fs tables s).could_not_find ≡ s.could_not_find
unfolding refresh
refresh_keeps fs [] s = refl
refresh_keeps fs (table ∷ tables) s = refresh_keeps fs tables _

-- What a search makes of a hash that the map lacks.
record Searched (fs : FileSystem) (tables : List Text) (hash : PacketHash) (s : SocketIndex)
    (r : SocketIndex × ℕ) : Type 0 where
  answer : r.1 ≡ answer_of (shown_in fs tables hash)
  settled :
      ((lookup hash r.0.socket_map ≡ some r.1) × (r.0.could_not_find ≡ s.could_not_find))
      ⊎ ((has_key hash r.0.could_not_find ≡ true) × (r.1 ≡ 0))

look_again_lem :
    (fs : FileSystem) (tables : List Text) (hash : PacketHash) (s : SocketIndex)
    → lookup hash s.socket_map ≡ none
    → Searched fs tables hash s (look_again hash (refresh fs tables s))
unfolding look_again
look_again_lem fs tables hash s missing =
    let now : lookup hash (refresh fs tables s).socket_map ≡ shown_in fs tables hash =
      refresh_lem fs tables hash s ∙ rw missing (first_of-none (shown_in fs tables hash)) in
    elim (Option-cases (shown_in fs tables hash)) [
      | inl none_there ↦
          let missed : lookup hash (refresh fs tables s).socket_map ≡ none = now ∙ none_there in
          rw (missed, look_again)
            (record {
              answer = rw none_there;
              settled = inr (has_key-insert hash hash true _ ∙ rw (beq_self hash), refl);
            })
      | inr (inode, there) ↦
          let hit : lookup hash (refresh fs tables s).socket_map ≡ some inode = now ∙ there in
          rw (hit, look_again)
            (record { answer = rw there; settled = inl (hit, refresh_keeps fs tables s) })
    ]

get_unknown_searched :
    (fs : FileSystem) (type : PacketType) (hash : PacketHash) (s : SocketIndex)
    → is_searched type ≡ true
    → get_unknown fs type hash s ≡ look_again hash (refresh fs (tables_for type) s)
unfolding get_unknown refresh
get_unknown_searched fs PacketType.tcp hash s h = refl
get_unknown_searched fs PacketType.udp hash s h = refl
get_unknown_searched fs PacketType.unknown hash s h = cc
get_unknown_searched fs PacketType.icmp hash s h = cc
get_unknown_searched fs PacketType.dns hash s h = cc
get_unknown_searched fs PacketType.ssdp hash s h = cc
get_unknown_searched fs PacketType.ntp hash s h = cc

get_unknown_unsearched :
    (fs : FileSystem) (type : PacketType) (hash : PacketHash) (s : SocketIndex)
    → is_searched type ≡ false
    → (get_unknown fs type hash s ≡ (s, 0)) × (shown_in fs (tables_for type) hash ≡ none)
unfolding get_unknown shown_in
get_unknown_unsearched fs PacketType.tcp hash s h = cc
get_unknown_unsearched fs PacketType.udp hash s h = cc
get_unknown_unsearched fs PacketType.unknown hash s h = (refl, refl)
get_unknown_unsearched fs PacketType.icmp hash s h = (refl, refl)
get_unknown_unsearched fs PacketType.dns hash s h = (refl, refl)
get_unknown_unsearched fs PacketType.ssdp hash s h = (refl, refl)
get_unknown_unsearched fs PacketType.ntp hash s h = (refl, refl)

-- `get` answers 0 for a hash on the list of misses. For any other it answers the inode that the map
-- has for the hash, or else the last inode that a line of the tables for the packet's type shows
-- for it, or else 0.
pub get_lem :
    (fs : FileSystem) (pkt : Packet) (s : SocketIndex)
    → (get fs pkt s).1
      ≡ (if has_key (of_packet pkt) s.could_not_find then 0 else answer_of (found fs pkt s))
unfolding get
get_lem fs pkt s = elim (Bool-cases (has_key (of_packet pkt) s.could_not_find)) [
  | inl missed ↦ rw missed
  | inr unmissed ↦ rw unmissed (elim (Option-cases (lookup (of_packet pkt) s.socket_map)) [
    | inr (inode, known) ↦ rw known
    | inl unknown ↦ rw unknown (elim (Bool-cases (is_searched pkt.type)) [
      | inl searched ↦
          rw (get_unknown_searched fs pkt.type (of_packet pkt) s searched)
            (look_again_lem fs (tables_for pkt.type) (of_packet pkt) s unknown).answer
      | inr unsearched ↦
          let (same, nothing) = get_unknown_unsearched fs pkt.type (of_packet pkt) s unsearched in
          rw (same, nothing)
    ])
  ])
]

-- The calls of `get` that change nothing.
pub get-missed :
    (fs : FileSystem) (pkt : Packet) (s : SocketIndex)
    → has_key (of_packet pkt) s.could_not_find ≡ true
    → get fs pkt s ≡ (s, 0)
unfolding get
get-missed fs pkt s missed = rw missed

pub get-known :
    (fs : FileSystem) (pkt : Packet) (s : SocketIndex) (inode : ℕ)
    → has_key (of_packet pkt) s.could_not_find ≡ false
    → lookup (of_packet pkt) s.socket_map ≡ some inode
    → get fs pkt s ≡ (s, inode)
unfolding get
get-known fs pkt s inode unmissed known = rw (unmissed, known)

pub get-unsearched :
    (fs : FileSystem) (pkt : Packet) (s : SocketIndex)
    → has_key (of_packet pkt) s.could_not_find ≡ false
    → lookup (of_packet pkt) s.socket_map ≡ none
    → is_searched pkt.type ≡ false
    → get fs pkt s ≡ (s, 0)
unfolding get
get-unsearched fs pkt s unmissed unknown unsearched =
    rw (unmissed, unknown) (get_unknown_unsearched fs pkt.type (of_packet pkt) s unsearched).0

pub get-searched :
    (fs : FileSystem) (pkt : Packet) (s : SocketIndex)
    → has_key (of_packet pkt) s.could_not_find ≡ false
    → lookup (of_packet pkt) s.socket_map ≡ none
    → is_searched pkt.type ≡ true
    → get fs pkt s ≡ look_again (of_packet pkt) (refresh fs (tables_for pkt.type) s)
unfolding get
get-searched fs pkt s unmissed unknown searched =
    rw (unmissed, unknown) (get_unknown_searched fs pkt.type (of_packet pkt) s searched)

-- A searched hash is settled.
settled_again :
    (fs later : FileSystem) (pkt : Packet) (s : SocketIndex) (r : SocketIndex × ℕ)
    → has_key (of_packet pkt) s.could_not_find ≡ false
    → Searched fs (tables_for pkt.type) (of_packet pkt) s r
    → get later pkt r.0 ≡ r
settled_again fs later pkt s r unmissed h = elim h.settled [
  | inl (there, kept) ↦
      get-known later pkt r.0 r.1 (ap (has_key (of_packet pkt)) kept ∙ unmissed) there
  | inr (missed, zero) ↦ get-missed later pkt r.0 missed ∙ ap (λ n. (r.0, n)) (sym zero)
]

-- `get` remembers its answer: until the list of misses is cleared, a second call for the packet
-- answers the same and changes nothing, whatever the tables show by then.
pub get_again :
    (fs later : FileSystem) (pkt : Packet) (s : SocketIndex)
    → get later pkt (get fs pkt s).0 ≡ get fs pkt s
get_again fs later pkt s = elim (Bool-cases (has_key (of_packet pkt) s.could_not_find)) [
  | inl missed ↦ rw (get-missed fs pkt s missed) (get-missed later pkt s missed)
  | inr unmissed ↦ elim (Option-cases (lookup (of_packet pkt) s.socket_map)) [
    | inr (inode, known) ↦
        rw (get-known fs pkt s inode unmissed known) (get-known later pkt s inode unmissed known)
    | inl unknown ↦ elim (Bool-cases (is_searched pkt.type)) [
      | inl searched ↦ rw (get-searched fs pkt s unmissed unknown searched) (
          settled_again fs later pkt s _ unmissed
            (look_again_lem fs (tables_for pkt.type) (of_packet pkt) s unknown))
      | inr unsearched ↦
          rw (get-unsearched fs pkt s unmissed unknown unsearched)
            (get-unsearched later pkt s unmissed unknown unsearched)
    ]
  ]
]
