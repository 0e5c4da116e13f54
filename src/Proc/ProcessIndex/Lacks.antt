-- ===== src/Proc/ProcessIndex/Lacks.antt =====
-- What a scan that finds nothing says of the directories that it read.
use ntmd.Base.{
  ℕ, ◌≡◌, ◌∙◌, subst, true, false, inl, inr, none, List, [], ◌∷◌, ◌++◌, arith, nat_eq, int_eq, eqb,
  ◌==◌, Bool-cases,
}
use ntmd.Base.Int.{ℤ, eqb_ℤ_iff}
use ntmd.Base.Outcome.{ok, Ensures, Ensures-bind, Ensures-ok, Ensures-option, Ensures-bool}
use ntmd.Util.LruArray.{find}
use ntmd.Util.Decimal.{stoi, to_string}
use ntmd.Proc.FileSystem.{FileSystem, DirEntry}
use ntmd.Proc.ProcessIndex.{
  ProcessMap, Scan, process_pid_dir, fd_path, is_pid_dir, search_pids, scan_cache,
}
use ntmd.Proc.ProcessIndex.Pids.{find-append, or_true}
use ntmd.Proc.ProcessIndex.Inodes.{has_inode, found-note_all}
use ntmd.Proc.ProcessIndex.Search.{pid_inodes, comm_of, process_pid_dir-eq}

module _ (fs : FileSystem) (target : ℕ) where
  -- What the directory of a process shows does not hold the inode.
  abbrev pub Lacks : ℤ → Type 0
  Lacks pid =
      (is : List ℕ)
      → pid_inodes fs (fd_path (to_string pid)) (to_string pid) ≡ ok is
      → has_inode target is ≡ false

  -- Every process directory of a listing lacks the inode.
  abbrev pub NoneOwns : List DirEntry → Type 0
  NoneOwns [] = Unit
  NoneOwns (entry ∷ rest) =
      (is_pid_dir entry ≡ true → (pid : ℤ) × (stoi entry.d_name ≡ ok pid) × Lacks pid)
      × NoneOwns rest

  -- Every pid of the list lacks the inode, or is excused.
  abbrev pub AllLack : List ℤ → List ℤ → Type 0
  AllLack pids excused = (q : ℤ) → find q pids ≡ true → find q excused ≡ false → Lacks q

module _ (fs : FileSystem) (target : ℕ) (numbered : eqb target 0 ≡ false) where
  abbrev Scanned : ℤ → Scan → Type 0
  Scanned pid st = st.found ≡ none → Lacks fs target pid

  Scanned-dir :
      (pid : ℤ) (m : ProcessMap)
      → Ensures
          (Scanned pid)
          (process_pid_dir fs (fd_path (to_string pid)) (to_string pid) pid target m)
  Scanned-dir pid m =
      rw (process_pid_dir-eq fs (fd_path (to_string pid)) (to_string pid) pid target m) (
        Ensures-bind (Scanned pid) (pid_inodes fs (fd_path (to_string pid)) (to_string pid)) _
          λ is listed. Ensures-ok (Scanned pid) _ λ none_found js also.
            let same : is ≡ js = cc in
            subst (λ ks. has_inode target ks ≡ false) same
              (ground (
                arith,
                none_found,
                numbered,
                found-note_all (record { comm = comm_of fs (to_string pid); pid = pid }) target is
                    (record { process_map = m; found = none }),
              )))

  AllLack-cons :
      (pid : ℤ) (pids excused : List ℤ)
      → Lacks fs target pid
      → AllLack fs target pids excused
      → AllLack fs target (pid ∷ pids) excused
  unfolding find
  AllLack-cons pid pids excused here there q member kept = elim (Bool-cases (pid == q)) [
    | inl same ↦ subst (Lacks fs target) ((eqb_ℤ_iff pid q).0 same) here
    | inr other ↦ there q (rw other at member) kept
  ]

  pub search_pids_lack :
      (pids : List ℤ) (m : ProcessMap)
      → Ensures (λ st. st.found ≡ none → AllLack fs target pids []) (search_pids fs target pids m)
  unfolding search_pids find
  search_pids_lack [] m =
      Ensures-ok (λ st. st.found ≡ none → AllLack fs target [] []) _ λ _ q member _. absurd (cc)
  search_pids_lack (pid ∷ pids) m =
      Ensures-bind (λ st. st.found ≡ none → AllLack fs target (pid ∷ pids) [])
        (process_pid_dir fs (fd_path (to_string pid)) (to_string pid) pid target m) _
        λ st e.
          Ensures-option (λ st. st.found ≡ none → AllLack fs target (pid ∷ pids) []) st.found _ _
            (λ none_here st' e' none_there.
              AllLack-cons pid pids [] (Scanned-dir pid m st e none_here)
                (search_pids_lack pids st.process_map st' e' none_there))
            (λ p found.
              Ensures-ok (λ st. st.found ≡ none → AllLack fs target (pid ∷ pids) []) st
                (λ e'. absurd (cc)))

  excused : (q : ℤ) (pids : List ℤ) → find q pids ≡ true → find q pids ≡ false → ⊥
  excused q pids a b = cc

  -- The state of the loop of `searchCache`: `expired` grows by the pids without a directory.
  abbrev CacheLacks : List ℤ → List ℤ → Scan × List ℤ → Type 0
  CacheLacks pids expired r =
      r.0.found ≡ none
      → ((q : ℤ) → find q expired ≡ true → find q r.1 ≡ true) × AllLack fs target pids r.1

  pub scan_cache_lack :
      (pids expired : List ℤ) (m : ProcessMap)
      → Ensures (CacheLacks pids expired) (scan_cache fs target pids expired m)
  unfolding scan_cache find
  scan_cache_lack [] expired m =
      Ensures-ok (CacheLacks [] expired) _ λ _. (λ q member. member, λ q member _. absurd (cc))
  scan_cache_lack (pid ∷ pids) expired m =
      Ensures-bool (CacheLacks (pid ∷ pids) expired) (fs.exists (fd_path (to_string pid))) _ _
        (λ _.
          Ensures-bind (CacheLacks (pid ∷ pids) expired)
            (process_pid_dir fs (fd_path (to_string pid)) (to_string pid) pid target m) _
            λ st e.
              Ensures-option (CacheLacks (pid ∷ pids) expired) st.found _ _
                (λ none_here r e' none_there.
                  let (grows, lack) = scan_cache_lack pids expired st.process_map r e' none_there in
                  (grows, AllLack-cons pid pids r.1 (Scanned-dir pid m st e none_here) lack))
                (λ p found.
                  Ensures-ok (CacheLacks (pid ∷ pids) expired) (st, expired) (λ e'. absurd (cc))))
        (λ _ r e none_there.
          let (grows, lack) = scan_cache_lack pids (expired ++ pid ∷ []) m r e none_there in
          (
            λ q member. grows q (rw (find-append q expired (pid ∷ []), member)),
            λ q member kept. elim (Bool-cases (pid == q)) [
              | inl same ↦ absurd (
                  excused q r.1
                    (grows q
                      (find-append q expired (pid ∷ []) ∙ rw same (or_true (find q expired))))
                    kept)
              | inr other ↦ lack q (rw other at member) kept
            ],
          ))
