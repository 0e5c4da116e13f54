-- ===== src/Proc/ProcessIndex.antt =====
-- proc/ProcessIndex.hpp and proc/ProcessIndex.cpp. A method takes the state and what the file
-- system shows during its call, and comes to the new state beside its result. Log lines on stderr
-- are left out.
pub mod Inodes
pub mod Search
pub mod Get
pub mod Pids
pub mod Lacks
pub mod Complete
use ntmd.Base.{
  ℕ, zero, suc, ◌+◌, ◌-◌, ◌^◌, Bool, true, false, not, ◌&&◌, ◌||◌, Option, none, some, List, [],
  ◌∷◌, ◌++◌, Text, codes, if◌then◌else◌, ◌==◌, nat_eq, int_eq, eqb, ltb, leb, length, take, drop,
}
use ntmd.Base.Int.{ℤ, pos, negsuc, ltb_ℤ}
use ntmd.Base.Assoc.{Assoc, lookup, insert, has_key}
use ntmd.Base.Outcome.{Outcome, ok, throws, exits, undefined, out_of_range, ◌>>=◌}
use ntmd.Util.LruArray
use ntmd.Util.LruArray.{LruArray}
use ntmd.Util.StringUtil.{is_number}
use ntmd.Util.Decimal.{stoi, to_string}
use ntmd.Proc.FileSystem.{FileSystem, DirEntry, FileType, dt_dir, dt_lnk, dt_other}

pub record Process : Type 0 where
  pub comm : Text
  pub pid : ℤ

abbrev pub ProcessMap : Type 0
ProcessMap = Assoc ℕ Process

-- `mProcessMap`, `mLRUCache` and `mCouldNotFind`; inodes are `uint64_t`
pub record ProcessIndex : Type 0 where
  pub process_map : ProcessMap
  pub lru_cache : LruArray ℤ
  pub could_not_find : Assoc ℕ Bool

-- the conversion of an `int` to `uint64_t` or `size_t`
abbrev pub to_word : ℤ → ℕ
to_word (pos n) = n
to_word (negsuc n) = 2 ^ 64 - suc n

abbrev pub proc_path : Text → Text → Text
proc_path pid_str name = codes "/proc/" ++ (pid_str ++ name)

abbrev pub fd_path : Text → Text
fd_path pid_str = proc_path pid_str (codes "/fd")

-- `const std::string& link = linkRaw`: the bytes up to the first zero, if the buffer has one
unfoldable pub c_string : Text → Outcome Text
c_string [] = undefined
c_string (c ∷ s) = elim (eqb c 0) [ true ↦ ok [] | false ↦ (do rest ← c_string s; ok (c ∷ rest)) ]

-- `link.rfind(prefix, 0) == 0`
abbrev pub has_prefix : Text → Text → Bool
has_prefix [] s = true
has_prefix (p ∷ prefix) [] = false
has_prefix (p ∷ prefix) (c ∷ s) = eqb p c && has_prefix prefix s

-- `link.substr(8, link.size())`
abbrev substr : ℕ → Text → Outcome Text
substr n s = if ltb (length s) n then throws out_of_range else ok (drop n s)

-- the inode behind `socket:[`
unfoldable pub socket_inode : Text → Outcome ℕ
socket_inode link = do digits ← substr 8 link; n ← stoi digits; ok (to_word n)

-- the state of the loop of `processPidDir`
pub record Scan : Type 0 where
  pub process_map : ProcessMap
  pub found : Option Process

-- one socket of the process
unfoldable pub note_socket : Process → ℕ → ℕ → Scan → Scan
note_socket process target inode st = record {
  process_map = insert inode process st.process_map;
  found = if not (eqb inode 0) && eqb inode target then some process else st.found;
}

unfoldable pub note_link : Process → ℕ → Text → Scan → Outcome Scan
unfolding socket_inode note_socket
note_link process target link st =
    if has_prefix (codes "socket:") link
    then (do inode ← socket_inode link; ok (note_socket process target inode st))
    else ok st

-- the body of the loop for a symbolic link
unfoldable pub visit_fd : FileSystem → Text → Process → ℕ → Scan → Outcome Scan
unfolding c_string note_link
visit_fd fs path process target st = elim (fs.link path) [
  | none ↦ ok st
  | some written ↦ do
    link ← c_string (take 79 written ++ fs.stale path)
    note_link process target link st
]

unfoldable pub scan_fds : FileSystem → Text → Process → ℕ → List DirEntry → Scan → Outcome Scan
unfolding visit_fd
scan_fds fs dir process target [] st = ok st
scan_fds fs dir process target (entry ∷ rest) st = elim entry.d_type [
  | dt_lnk ↦ do
    st' ← visit_fd fs (dir ++ (codes "/" ++ entry.d_name)) process target st
    scan_fds fs dir process target rest st'
  | dt_dir ↦ scan_fds fs dir process target rest st
  | dt_other ↦ scan_fds fs dir process target rest st
]

abbrev pub first_line : List Text → Text
first_line [] = []
first_line (line ∷ _) = line

-- `processPidDir`; the map is the member that it updates
unfoldable pub process_pid_dir : FileSystem → Text → Text → ℤ → ℕ → ProcessMap → Outcome Scan
unfolding scan_fds
process_pid_dir fs dir pid_str pid target m = elim (fs.lines (proc_path pid_str (codes "/comm"))) [
  | none ↦ ok (record { process_map = m; found = none })
  | some comm ↦ elim (fs.entries dir) [
    | none ↦ ok (record { process_map = m; found = none })
    | some fds ↦
        scan_fds fs dir (record { comm = first_line comm; pid = pid }) target fds
          (record { process_map = m; found = none })
  ]
]

-- the test for a process directory
abbrev pub is_pid_dir : DirEntry → Bool
is_pid_dir entry = elim entry.d_type [
  | dt_dir ↦ is_number entry.d_name
  | dt_lnk ↦ false
  | dt_other ↦ false
]

-- the loop of `refresh`
unfoldable pub refresh_entries :
    FileSystem → LruArray ℤ → List DirEntry → ProcessMap → Outcome ProcessMap
unfolding process_pid_dir
refresh_entries fs cache [] m = ok m
refresh_entries fs cache (entry ∷ rest) m = elim (is_pid_dir entry) [
  | false ↦ refresh_entries fs cache rest m
  | true ↦ do
    pid ← stoi entry.d_name
    elim (LruArray.contains pid cache) [
      | true ↦ refresh_entries fs cache rest m
      | false ↦ do
        st ← process_pid_dir fs (fd_path entry.d_name) entry.d_name pid 0 m
        refresh_entries fs cache rest st.process_map
    ]
]

unfoldable pub refresh : FileSystem → ProcessIndex → Outcome ProcessIndex
unfolding refresh_entries
refresh fs s = elim (fs.entries (codes "/proc")) [
  | none ↦ exits 1
  | some entries ↦ do
    m ← refresh_entries fs s.lru_cache entries []
    ok (record s { process_map = m })
]

-- `std::set<pid_t, std::greater<pid_t>>::insert`
unfoldable pub insert_pid : ℤ → List ℤ → List ℤ
insert_pid pid [] = pid ∷ []
insert_pid pid (q ∷ pids) =
    if ltb_ℤ q pid then pid ∷ q ∷ pids else if q == pid then q ∷ pids else q ∷ insert_pid pid pids

-- the first loop of `search`
unfoldable pub collect_pids : LruArray ℤ → List DirEntry → List ℤ → Outcome (List ℤ)
unfolding insert_pid
collect_pids cache [] pids = ok pids
collect_pids cache (entry ∷ rest) pids = elim (is_pid_dir entry) [
  | false ↦ collect_pids cache rest pids
  | true ↦ do
    pid ← stoi entry.d_name
    collect_pids cache rest (if LruArray.contains pid cache then pids else insert_pid pid pids)
]

-- the second loop of `search`
unfoldable pub search_pids : FileSystem → ℕ → List ℤ → ProcessMap → Outcome Scan
unfolding process_pid_dir
search_pids fs target [] m = ok (record { process_map = m; found = none })
search_pids fs target (pid ∷ pids) m = do
  st ← process_pid_dir fs (fd_path (to_string pid)) (to_string pid) pid target m
  elim st.found [ some _ ↦ ok st | none ↦ search_pids fs target pids st.process_map ]

-- the loop of `searchCache`: the scan, and the expired pids
unfoldable pub scan_cache : FileSystem → ℕ → List ℤ → List ℤ → ProcessMap → Outcome (Scan × List ℤ)
unfolding process_pid_dir
scan_cache fs target [] expired m = ok (record { process_map = m; found = none }, expired)
scan_cache fs target (pid ∷ pids) expired m = elim (fs.exists (fd_path (to_string pid))) [
  | false ↦ scan_cache fs target pids (expired ++ pid ∷ []) m
  | true ↦ do
    st ← process_pid_dir fs (fd_path (to_string pid)) (to_string pid) pid target m
    elim st.found [
      | some _ ↦ ok (st, expired)
      | none ↦ scan_cache fs target pids expired st.process_map
    ]
]

unfoldable pub erase_all : List ℤ → LruArray ℤ → LruArray ℤ
erase_all [] cache = cache
erase_all (pid ∷ pids) cache = erase_all pids (LruArray.erase pid cache)

-- An early return leaves the expired pids in the cache.
unfoldable pub search_cache :
    FileSystem → ℕ → ProcessIndex → Outcome (ProcessIndex × Option Process)
unfolding scan_cache erase_all
search_cache fs target s = do
  (st, expired) ← scan_cache fs target s.lru_cache.deque [] s.process_map
  elim st.found [
    | some p ↦ ok (record s { process_map = st.process_map }, some p)
    | none ↦
        ok (
          record s { process_map = st.process_map; lru_cache = erase_all expired s.lru_cache },
          none,
        )
  ]

-- `search` behind a cache that did not find the inode
unfoldable pub search_all : FileSystem → ℕ → ProcessIndex → Outcome (ProcessIndex × Option Process)
unfolding collect_pids search_pids
search_all fs target s = elim (fs.entries (codes "/proc")) [
  | none ↦ exits 1
  | some entries ↦ do
    pids ← collect_pids s.lru_cache entries []
    st ← search_pids fs target pids s.process_map
    ok (record s { process_map = st.process_map }, st.found)
]

unfoldable pub search : FileSystem → ℕ → ProcessIndex → Outcome (ProcessIndex × Option Process)
unfolding search_cache search_all
search fs target s = do
  (s', cached) ← search_cache fs target s
  elim cached [ some p ↦ ok (s', some p) | none ↦ search_all fs target s' ]

-- `get` for an inode that no map holds
unfoldable pub get_unknown : FileSystem → ℕ → ProcessIndex → Outcome (ProcessIndex × Option Process)
unfolding search
get_unknown fs inode s = do
  (s', found) ← search fs inode s
  elim found [
    | some p ↦ ok (record s' { lru_cache = LruArray.update p.pid s'.lru_cache }, some p)
    | none ↦ ok (record s' { could_not_find = insert inode true s'.could_not_find }, none)
  ]

unfoldable pub get : FileSystem → ℕ → ProcessIndex → Outcome (ProcessIndex × Option Process)
unfolding get_unknown
get fs inode s =
    if has_key inode s.could_not_find then ok (s, none) else elim (lookup inode s.process_map) [
      | some p ↦ ok (s, some p)
      | none ↦ get_unknown fs inode s
    ]

-- the constructor, before its thread starts
unfoldable pub init : FileSystem → ℤ → Outcome ProcessIndex
unfolding refresh
init fs cache_size = refresh fs (record {
  process_map = [];
  lru_cache = LruArray.init (to_word cache_size);
  could_not_find = [];
})

-- one round of the thread that the constructor starts
pub forget : ProcessIndex → ProcessIndex
forget s = record s { could_not_find = [] }
