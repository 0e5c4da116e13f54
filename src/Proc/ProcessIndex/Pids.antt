-- ===== src/Proc/ProcessIndex/Pids.antt =====
-- The pids that the loops of a search go through.
use ntmd.Base.{
  ◌≡◌, refl, ◌∙◌, Bool, true, false, ◌||◌, inl, inr, List, [], ◌∷◌, ◌++◌, arith, if◌then◌else◌,
  nat_eq, int_eq, ◌==◌, Bool-cases,
}
use ntmd.Base.Int.{ℤ, ltb_ℤ, eqb_ℤ_iff}
use ntmd.Base.Outcome.{ok, Ensures, Ensures-bind, Ensures-ok, Ensures-bool}
use ntmd.Util.LruArray
use ntmd.Util.LruArray.{LruArray, find}
use ntmd.Util.LruArray.Invariant.{IsValid, erase_lem}
use ntmd.Util.Decimal.{stoi}
use ntmd.Proc.FileSystem.{DirEntry}
use ntmd.Proc.ProcessIndex.{is_pid_dir, insert_pid, collect_pids, erase_all}

pub find-append : (q : ℤ) (xs ys : List ℤ) → find q (xs ++ ys) ≡ (find q xs || find q ys)
unfolding find
find-append q [] ys = refl
find-append q (x ∷ xs) ys = ground (arith, find-append q xs ys)

pub or_true : (b : Bool) → (b || true) ≡ true
or_true b = ground arith

if_or : (a b : Bool) → (if a then true else b) ≡ (a || b)
if_or a b = ground arith

or_if_self : (a b : Bool) → (if a then true else b) ≡ (a || (if a then true else b))
or_if_self a b = ground arith

if_or_swap : (a b c : Bool) → (if a then true else (b || c)) ≡ (b || (if a then true else c))
if_or_swap a b c = ground arith

find-insert_pid :
    (q pid : ℤ) (pids : List ℤ) → find q (insert_pid pid pids) ≡ (pid == q || find q pids)
unfolding insert_pid find
find-insert_pid q pid [] = ground arith
find-insert_pid q pid (r ∷ pids) = elim (Bool-cases (ltb_ℤ r pid)) [
  | inl front ↦ rw front (if_or (pid == q) _)
  | inr behind ↦ elim (Bool-cases (r == pid)) [
    | inl same ↦ rw (behind, same, (eqb_ℤ_iff r pid).0 same) (or_if_self (pid == q) _)
    | inr other ↦ rw (behind, other, find-insert_pid q pid pids) (if_or_swap (r == q) (pid == q) _)
  ]
]

-- The pids that `search` sorts hold every process directory that the cache does not.
abbrev pub IsListed : LruArray ℤ → List DirEntry → List ℤ → Type 0
IsListed cache [] pids = Unit
IsListed cache (entry ∷ rest) pids =
    (is_pid_dir entry ≡ true
      → (pid : ℤ) × (stoi entry.d_name ≡ ok pid)
        × (LruArray.contains pid cache ≡ false → find pid pids ≡ true))
    × IsListed cache rest pids

pub contains-erase_all :
    (q : ℤ) (pids : List ℤ) (c : LruArray ℤ)
    → IsValid c
    → LruArray.contains q (erase_all pids c)
      ≡ (if find q pids then false else LruArray.contains q c)
unfolding erase_all find
contains-erase_all q [] c v = refl
contains-erase_all q (pid ∷ pids) c v =
    contains-erase_all q pids (LruArray.erase pid c) (erase_lem pid c v).0
    ∙ ground (arith, (erase_lem pid c v).1 q)

abbrev Collected : LruArray ℤ → List DirEntry → List ℤ → List ℤ → Type 0
Collected cache entries pids all =
    ((q : ℤ) → find q pids ≡ true → find q all ≡ true) × IsListed cache entries all

-- One round adds the pid, unless the cache holds it.
added : LruArray ℤ → ℤ → List ℤ → List ℤ
added cache pid pids = if LruArray.contains pid cache then pids else insert_pid pid pids

find-added :
    (cache : LruArray ℤ) (pid q : ℤ) (pids : List ℤ)
    → find q pids ≡ true
    → find q (added cache pid pids) ≡ true
unfolding added
find-added cache pid q pids member = elim (Bool-cases (LruArray.contains pid cache)) [
  | inl cached ↦ rw cached member
  | inr absent ↦ rw (absent, find-insert_pid q pid pids, member) (or_true (pid == q))
]

find-added_self :
    (cache : LruArray ℤ) (pid : ℤ) (pids : List ℤ)
    → LruArray.contains pid cache ≡ false
    → find pid (added cache pid pids) ≡ true
unfolding added
find-added_self cache pid pids absent =
    rw (absent, find-insert_pid pid pid pids, (eqb_ℤ_iff pid pid).1 refl)

pub collect_pids_listed :
    (cache : LruArray ℤ) (entries : List DirEntry) (pids : List ℤ)
    → Ensures (Collected cache entries pids) (collect_pids cache entries pids)
unfolding collect_pids added
collect_pids_listed cache [] pids =
    Ensures-ok (Collected cache [] pids) pids (λ q member. member, tt)
collect_pids_listed cache (entry ∷ rest) pids =
    Ensures-bool (Collected cache (entry ∷ rest) pids) (is_pid_dir entry) _ _
      (λ process.
        Ensures-bind (Collected cache (entry ∷ rest) pids) (stoi entry.d_name) _ λ pid parsed all e.
          let (grows, listed) = collect_pids_listed cache rest (added cache pid pids) all e in
          (
            λ q member. grows q (find-added cache pid q pids member),
            (
              λ _. (pid, parsed, λ absent. grows pid (find-added_self cache pid pids absent)),
              listed,
            ),
          ))
      (λ other all e.
        let (grows, listed) = collect_pids_listed cache rest pids all e in
        (grows, (λ process. absurd (cc), listed)))
