-- ===== src/Proc/ProcessIndex/Inodes.antt =====
-- What the scan of a process directory comes to: the inodes of its sockets, and what noting them
-- one after the other leaves in the map.
use ntmd.Base.{
  ℕ, ◌≡◌, refl, ap, sym, ◌∙◌, Bool, false, not, ◌&&◌, ◌||◌, none, some, List, [], ◌∷◌, ◌++◌, Text,
  codes, arith, if◌then◌else◌, nat_eq, eqb, take, Option-cases, inl, inr, Bool-cases,
}
use ntmd.Base.Assoc.{lookup, lookup-insert}
use ntmd.Base.Outcome.{Outcome, ok, ◌>>=◌, bind_assoc, bind_ext}
use ntmd.Proc.FileSystem.{FileSystem, FileType, DirEntry, dt_dir, dt_lnk, dt_other}
use ntmd.Proc.ProcessIndex.{
  Process, Scan, c_string, has_prefix, socket_inode, note_socket, note_link, visit_fd, scan_fds,
}

-- The inode of a link that is a socket.
link_inodes : FileSystem → Text → Outcome (List ℕ)
link_inodes fs path = elim (fs.link path) [
  | none ↦ ok []
  | some written ↦ do
    link ← c_string (take 79 written ++ fs.stale path)
    if has_prefix (codes "socket:") link then (do i ← socket_inode link; ok (i ∷ [])) else ok []
]

-- The inodes of the sockets among the entries of a directory.
pub dir_inodes : FileSystem → Text → List DirEntry → Outcome (List ℕ)
dir_inodes fs dir [] = ok []
dir_inodes fs dir (entry ∷ rest) = elim entry.d_type [
  | dt_lnk ↦ do
    is ← link_inodes fs (dir ++ (codes "/" ++ entry.d_name))
    others ← dir_inodes fs dir rest
    ok (is ++ others)
  | dt_dir ↦ dir_inodes fs dir rest
  | dt_other ↦ dir_inodes fs dir rest
]

unfoldable pub note_all : Process → ℕ → List ℕ → Scan → Scan
note_all process target [] st = st
note_all process target (i ∷ is) st = note_all process target is (note_socket process target i st)

abbrev pub has_inode : ℕ → List ℕ → Bool
has_inode i [] = false
has_inode i (j ∷ js) = eqb j i || has_inode i js

note_all-append :
    (process : Process) (target : ℕ) (is js : List ℕ) (st : Scan)
    → note_all process target (is ++ js) st
      ≡ note_all process target js (note_all process target is st)
unfolding note_all
note_all-append process target [] js st = refl
note_all-append process target (i ∷ is) js st =
    note_all-append process target is js (note_socket process target i st)

note_link-eq :
    (process : Process) (target : ℕ) (link : Text) (st : Scan)
    → note_link process target link st ≡ (
        (if has_prefix (codes "socket:") link
          then (do i ← socket_inode link; ok (i ∷ []))
          else ok [])
        >>= λ is. ok (note_all process target is st))
unfolding note_link note_all
note_link-eq process target link st = elim (Bool-cases (has_prefix (codes "socket:") link)) [
  | inl socket ↦ rw socket (sym (bind_assoc (socket_inode link) (λ i. ok (i ∷ [])) _))
  | inr other ↦ rw other
]

visit_fd-eq :
    (fs : FileSystem) (path : Text) (process : Process) (target : ℕ) (st : Scan)
    → visit_fd fs path process target st
      ≡ (link_inodes fs path >>= λ is. ok (note_all process target is st))
unfolding visit_fd link_inodes note_all
visit_fd-eq fs path process target st = elim (Option-cases (fs.link path)) [
  | inl gone ↦ rw (gone, visit_fd, link_inodes)
  | inr (written, there) ↦
      rw (there, visit_fd, link_inodes)
        (bind_ext (c_string (take 79 written ++ fs.stale path)) _ _
            (λ link. note_link-eq process target link st)
          ∙ sym (bind_assoc (c_string (take 79 written ++ fs.stale path)) _ _))
]

-- Two lists of inodes noted one behind the other.
note_twice :
    (process : Process) (target : ℕ) (first second : Outcome (List ℕ)) (st : Scan)
    → (first >>= λ is.
        second >>= λ others. ok (note_all process target others (note_all process target is st)))
      ≡ ((first >>= λ is. second >>= λ others. ok (is ++ others)) >>= λ is.
          ok (note_all process target is st))
note_twice process target first second st =
    bind_ext first _ _ (λ is.
      bind_ext second _ _ (λ others. ap ok (sym (note_all-append process target is others st)))
      ∙ sym (bind_assoc second _ _))
    ∙ sym (bind_assoc first _ _)

-- The loop over a directory notes the inodes of its sockets, in order.
pub scan_fds-eq :
    (fs : FileSystem) (dir : Text) (process : Process) (target : ℕ) (fds : List DirEntry)
    (st : Scan)
    → scan_fds fs dir process target fds st
      ≡ (dir_inodes fs dir fds >>= λ is. ok (note_all process target is st))
unfolding scan_fds dir_inodes note_all
scan_fds-eq fs dir process target [] st = refl
scan_fds-eq fs dir process target (entry ∷ rest) st =
    by_type entry.d_type refl (scan_fds-eq fs dir process target rest)
  where
    by_type :
        (t : FileType)
        → entry.d_type ≡ t
        → ((u : Scan)
            → scan_fds fs dir process target rest u
              ≡ (dir_inodes fs dir rest >>= λ is. ok (note_all process target is u)))
        → scan_fds fs dir process target (entry ∷ rest) st
          ≡ (dir_inodes fs dir (entry ∷ rest) >>= λ is. ok (note_all process target is st))
    by_type dt_dir e ih = rw (e, scan_fds, dir_inodes) (ih st)
    by_type dt_other e ih = rw (e, scan_fds, dir_inodes) (ih st)
    by_type dt_lnk e ih =
        rw (e, scan_fds, dir_inodes)
          (ap (λ m. m >>= λ st'. scan_fds fs dir process target rest st')
              (visit_fd-eq fs (dir ++ (codes "/" ++ entry.d_name)) process target st)
            ∙ bind_assoc (link_inodes fs (dir ++ (codes "/" ++ entry.d_name))) _ _
            ∙ bind_ext (link_inodes fs (dir ++ (codes "/" ++ entry.d_name))) _ _ (λ is. ih _)
            ∙ note_twice process target (link_inodes fs (dir ++ (codes "/" ++ entry.d_name)))
                (dir_inodes fs dir rest) st)

-- A noted inode belongs to the process, and all others keep theirs.
pub lookup-note_all :
    (process : Process) (target : ℕ) (is : List ℕ) (st : Scan) (j : ℕ)
    → lookup j (note_all process target is st).process_map
      ≡ (if has_inode j is then some process else lookup j st.process_map)
unfolding note_all note_socket
lookup-note_all process target [] st j = refl
lookup-note_all process target (i ∷ is) st j =
    lookup-note_all process target is (note_socket process target i st) j
    ∙ ground (arith, lookup-insert i j process st.process_map)

pub found-note_all :
    (process : Process) (target : ℕ) (is : List ℕ) (st : Scan)
    → (note_all process target is st).found
      ≡ (if not (eqb target 0) && has_inode target is then some process else st.found)
unfolding note_all note_socket
found-note_all process target [] st = ground arith
found-note_all process target (i ∷ is) st =
    found-note_all process target is (note_socket process target i st) ∙ ground arith
