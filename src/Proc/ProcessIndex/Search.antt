-- ===== src/Proc/ProcessIndex/Search.antt =====
-- What a search that finds a process has established.
use ntmd.Base.{
  ℕ, ◌≡◌, refl, subst, ◌∙◌, true, Option, none, some, List, [], ◌∷◌, ◌++◌, Text, codes, arith,
  nat_eq, int_eq, Option-cases, inl, inr, Bool-cases,
}
use ntmd.Base.Int.{ℤ}
use ntmd.Base.Assoc.{lookup}
use ntmd.Base.Outcome.{
  Outcome, ok, ◌>>=◌, Ensures, Ensures-bind, Ensures-ok, Ensures-option, Ensures-bool,
  Ensures-exits,
}
use ntmd.Util.Decimal.{to_string}
use ntmd.Proc.FileSystem.{FileSystem}
use ntmd.Proc.ProcessIndex.{
  Process, ProcessMap, ProcessIndex, Scan, process_pid_dir, proc_path, fd_path, first_line,
  search_pids, scan_cache, search_cache, search_all, search, collect_pids,
}
use ntmd.Proc.ProcessIndex.Inodes.{
  dir_inodes, note_all, has_inode, scan_fds-eq, lookup-note_all, found-note_all,
}

-- The sockets and the name of a process, as far as its directory can be read.
pub pid_inodes : FileSystem → Text → Text → Outcome (List ℕ)
pid_inodes fs dir pid_str = elim (fs.lines (proc_path pid_str (codes "/comm"))) [
  | none ↦ ok []
  | some _ ↦ elim (fs.entries dir) [ none ↦ ok [] | some fds ↦ dir_inodes fs dir fds ]
]

pub comm_of : FileSystem → Text → Text
comm_of fs pid_str = elim (fs.lines (proc_path pid_str (codes "/comm"))) [
  | none ↦ []
  | some comm ↦ first_line comm
]

-- A process directory notes the inodes of its sockets for its process.
pub process_pid_dir-eq :
    (fs : FileSystem) (dir pid_str : Text) (pid : ℤ) (target : ℕ) (m : ProcessMap)
    → process_pid_dir fs dir pid_str pid target m ≡ (
        pid_inodes fs dir pid_str >>= λ is. ok (
          note_all
            (record { comm = comm_of fs pid_str; pid = pid })
            target
            is
            (record { process_map = m; found = none })))
unfolding process_pid_dir pid_inodes comm_of note_all
process_pid_dir-eq fs dir pid_str pid target m =
    elim (Option-cases (fs.lines (proc_path pid_str (codes "/comm")))) [
      | inl gone ↦ rw (gone, process_pid_dir, pid_inodes)
      | inr (comm, there) ↦ elim (Option-cases (fs.entries dir)) [
        | inl gone ↦ rw (there, gone, process_pid_dir, pid_inodes)
        | inr (fds, listed) ↦
            rw (there, listed, process_pid_dir, pid_inodes, comm_of)
              (scan_fds-eq fs dir (record { comm = first_line comm; pid = pid }) target fds
                (record { process_map = m; found = none }))
      ]
    ]

-- The directory of the process shows a socket with the inode, and the name is the process's own.
pub record Owns (fs : FileSystem) (target : ℕ) (p : Process) : Type 0 where
  inodes : List ℕ
  pub listed : pid_inodes fs (fd_path (to_string p.pid)) (to_string p.pid) ≡ ok inodes
  pub held : has_inode target inodes ≡ true
  named : p.comm ≡ comm_of fs (to_string p.pid)

module _ (fs : FileSystem) (target : ℕ) where
  -- A process that is found is in the map, and owns the socket.
  abbrev IsFound : ProcessMap → Option Process → Type 0
  IsFound m r = (p : Process) → r ≡ some p → (lookup target m ≡ some p) × Owns fs target p

  abbrev ScanFound : Scan → Type 0
  ScanFound st = IsFound st.process_map st.found

  abbrev IndexFound : ProcessIndex × Option Process → Type 0
  IndexFound r = IsFound r.0.process_map r.1

  IsFound-none : (m : ProcessMap) → IsFound m none
  IsFound-none m p e = absurd (cc)

  noted_found :
      (process : Process) (is : List ℕ) (m : ProcessMap)
      → pid_inodes fs (fd_path (to_string process.pid)) (to_string process.pid) ≡ ok is
      → process.comm ≡ comm_of fs (to_string process.pid)
      → ScanFound (note_all process target is (record { process_map = m; found = none }))
  noted_found process is m listed named p e = elim (Bool-cases (has_inode target is)) [
    | inl held ↦
        let same : process ≡ p = ground (arith, found-note_all process target is start, e) in
        subst
          (λ q.
            (lookup target (note_all process target is start).process_map ≡ some q)
            × Owns fs target q)
          same
          (
            lookup-note_all process target is start target ∙ rw held,
            record { inodes = is; listed = listed; held = held; named = named },
          )
    | inr absent ↦ absurd (ground (arith, found-note_all process target is start, e))
  ]
    where
      start : Scan
      start = record { process_map = m; found = none }

  process_pid_dir_found :
      (pid : ℤ) (m : ProcessMap)
      → Ensures ScanFound
          (process_pid_dir fs (fd_path (to_string pid)) (to_string pid) pid target m)
  process_pid_dir_found pid m =
      rw (process_pid_dir-eq fs (fd_path (to_string pid)) (to_string pid) pid target m) (
        Ensures-bind ScanFound (pid_inodes fs (fd_path (to_string pid)) (to_string pid)) _
          λ is listed. Ensures-ok ScanFound _ (
            noted_found (record { comm = comm_of fs (to_string pid); pid = pid }) is m listed refl))

  search_pids_found :
      (pids : List ℤ) (m : ProcessMap) → Ensures ScanFound (search_pids fs target pids m)
  unfolding search_pids
  search_pids_found [] m = Ensures-ok ScanFound _ (IsFound-none m)
  search_pids_found (pid ∷ pids) m =
      Ensures-bind ScanFound
        (process_pid_dir fs (fd_path (to_string pid)) (to_string pid) pid target m) _
        λ st e.
          Ensures-option ScanFound st.found _ _ (λ _. search_pids_found pids st.process_map)
            (λ p _. Ensures-ok ScanFound st (process_pid_dir_found pid m st e))

  scan_cache_found :
      (pids expired : List ℤ) (m : ProcessMap)
      → Ensures (λ r. ScanFound r.0) (scan_cache fs target pids expired m)
  unfolding scan_cache
  scan_cache_found [] expired m = Ensures-ok (λ r. ScanFound r.0) _ (IsFound-none m)
  scan_cache_found (pid ∷ pids) expired m =
      Ensures-bool (λ r. ScanFound r.0) (fs.exists (fd_path (to_string pid))) _ _
        (λ _.
          Ensures-bind (λ r. ScanFound r.0)
            (process_pid_dir fs (fd_path (to_string pid)) (to_string pid) pid target m) _
            λ st e.
              Ensures-option (λ r. ScanFound r.0) st.found _ _
                (λ _. scan_cache_found pids expired st.process_map)
                (λ p _.
                  Ensures-ok (λ r. ScanFound r.0) (st, expired) (process_pid_dir_found pid m st e)))
        (λ _. scan_cache_found pids (expired ++ pid ∷ []) m)

  search_cache_found : (s : ProcessIndex) → Ensures IndexFound (search_cache fs target s)
  unfolding search_cache
  search_cache_found s =
      Ensures-bind IndexFound (scan_cache fs target s.lru_cache.deque [] s.process_map) _ λ r e.
        Ensures-option IndexFound r.0.found _ _
          (λ _. Ensures-ok IndexFound _ (IsFound-none r.0.process_map))
          (λ p found.
            Ensures-ok IndexFound _
              (λ q same. scan_cache_found s.lru_cache.deque [] s.process_map r e q (found ∙ same)))

  search_all_found : (s : ProcessIndex) → Ensures IndexFound (search_all fs target s)
  unfolding search_all
  search_all_found s =
      Ensures-option IndexFound (fs.entries (codes "/proc")) _ _ (λ _. Ensures-exits IndexFound 1)
        (λ entries _. Ensures-bind IndexFound (collect_pids s.lru_cache entries []) _ λ pids _.
          Ensures-bind IndexFound (search_pids fs target pids s.process_map) _
            λ st e. Ensures-ok IndexFound _ (search_pids_found pids s.process_map st e))

  pub search_found : (s : ProcessIndex) → Ensures IndexFound (search fs target s)
  unfolding search
  search_found s = Ensures-bind IndexFound (search_cache fs target s) _ λ r e.
      Ensures-option IndexFound r.1 _ _ (λ _. search_all_found r.0)
        (λ p found. Ensures-ok IndexFound _ (λ q same. search_cache_found s r e q (found ∙ same)))
