-- ===== src/Proc/ProcessResolver.antt =====
-- proc/ProcessResolver.hpp and proc/ProcessResolver.cpp: from a packet to its process.
pub mod Resolved
use ntmd.Base.{ℕ, Option, none, some, ◌∷◌, if◌then◌else◌, eqb, codes}
use ntmd.Base.Int.{ℤ, pos}
use ntmd.Base.Outcome.{Outcome, ok, ◌>>=◌}
use ntmd.Net.Packet.{Packet}
use ntmd.Proc.FileSystem.{FileSystem}
use ntmd.Proc.ProcessIndex
use ntmd.Proc.ProcessIndex.{Process, ProcessIndex}
use ntmd.Proc.SocketIndex
use ntmd.Proc.SocketIndex.{SocketIndex}

-- `mSocketIndex` and `mProcessIndex`; `mUnknownProcess` is constant.
pub record ProcessResolver : Type 0 where
  pub socket_index : SocketIndex
  pub process_index : ProcessIndex

abbrev pub unknown_process : Process
unknown_process = record { comm = codes "Unknown Traffic"; pid = pos 0 }

-- the answer for an inode other than 0
unfoldable pub resolve_inode :
    FileSystem → ℕ → ProcessResolver → Outcome (ProcessResolver × Process)
unfolding ProcessIndex.get
resolve_inode fs inode r = do
  (index, process) ← ProcessIndex.get fs inode r.process_index
  let r' = record r { process_index = index }
  elim process [ some p ↦ ok (r', p) | none ↦ ok (r', unknown_process) ]

unfoldable pub resolve : FileSystem → Packet → ProcessResolver → Outcome (ProcessResolver × Process)
unfolding SocketIndex.get resolve_inode
resolve fs pkt r =
    let (index, inode) = SocketIndex.get fs pkt r.socket_index in
    let r' = record r { socket_index = index } in
    if eqb inode 0 then ok (r', unknown_process) else resolve_inode fs inode r'

-- the constructor
unfoldable pub init : FileSystem → ℤ → Outcome ProcessResolver
unfolding SocketIndex.init ProcessIndex.init
init fs cache_size = do
  index ← ProcessIndex.init fs cache_size
  ok (record { socket_index = SocketIndex.init fs; process_index = index })
