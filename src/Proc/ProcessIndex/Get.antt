-- ===== src/Proc/ProcessIndex/Get.antt =====
-- `get`: where its answer comes from, what it remembers, and the cache it leaves.
use ntmd.Base.{
  ℕ, ◌≡◌, refl, ◌∙◌, true, false, ◌⊎◌, inl, inr, Option, none, some, List, [], ◌∷◌, codes, nat_eq,
  int_eq, beq_self,
}
use ntmd.Base.Int.{ℤ}
use ntmd.Base.Assoc.{lookup, has_key, has_key-insert}
use ntmd.Base.Outcome.{
  ok, Ensures, Ensures-bind, Ensures-ok, Ensures-if, Ensures-option, Ensures-exits,
}
use ntmd.Util.LruArray
use ntmd.Util.LruArray.{LruArray}
use ntmd.Util.LruArray.Invariant.{IsValid, update-IsValid, erase_lem}
use ntmd.Proc.FileSystem.{FileSystem}
use ntmd.Proc.ProcessIndex.{
  Process, ProcessIndex, scan_cache, search_cache, search_all, search, get_unknown, get,
  collect_pids, search_pids, erase_all,
}
use ntmd.Proc.ProcessIndex.Search.{Owns, search_found}

module _ (fs : FileSystem) (inode : ℕ) where
  -- What a search leaves alone, and the invariant of the cache.
  abbrev Spared : ProcessIndex → ProcessIndex × Option Process → Type 0
  Spared s r =
      (r.0.could_not_find ≡ s.could_not_find) × (IsValid s.lru_cache → IsValid r.0.lru_cache)

  erase_all-IsValid : (pids : List ℤ) (c : LruArray ℤ) → IsValid c → IsValid (erase_all pids c)
  unfolding erase_all
  erase_all-IsValid [] c v = v
  erase_all-IsValid (pid ∷ pids) c v =
      erase_all-IsValid pids (LruArray.erase pid c) (erase_lem pid c v).0

  search_cache_spares : (s : ProcessIndex) → Ensures (Spared s) (search_cache fs inode s)
  unfolding search_cache
  search_cache_spares s =
      Ensures-bind (Spared s) (scan_cache fs inode s.lru_cache.deque [] s.process_map) _ λ r _.
        Ensures-option (Spared s) r.0.found _ _
          (λ _. Ensures-ok (Spared s) _ (refl, erase_all-IsValid r.1 s.lru_cache))
          (λ p _. Ensures-ok (Spared s) _ (refl, λ v. v))

  search_all_spares : (s : ProcessIndex) → Ensures (Spared s) (search_all fs inode s)
  unfolding search_all
  search_all_spares s =
      Ensures-option (Spared s) (fs.entries (codes "/proc")) _ _ (λ _. Ensures-exits (Spared s) 1)
        (λ entries _. Ensures-bind (Spared s) (collect_pids s.lru_cache entries []) _ λ pids _.
          Ensures-bind (Spared s) (search_pids fs inode pids s.process_map) _
            λ st _. Ensures-ok (Spared s) _ (refl, λ v. v))

  search_spares : (s : ProcessIndex) → Ensures (Spared s) (search fs inode s)
  unfolding search
  search_spares s = Ensures-bind (Spared s) (search_cache fs inode s) _ λ r e.
      let first = search_cache_spares s r e in
      Ensures-option (Spared s) r.1 _ _
        (λ _ t done.
          let second = search_all_spares r.0 t done in
          (second.0 ∙ first.0, λ v. second.1 (first.1 v)))
        (λ p _. Ensures-ok (Spared s) _ first)

  -- What is true of the answer of `get`.
  pub record Answered (s s' : ProcessIndex) (r : Option Process) : Type 0 where
    pub hit :
        (p : Process)
        → r ≡ some p
        → (lookup inode s'.process_map ≡ some p)
          × (has_key inode s'.could_not_find ≡ false)
          × ((lookup inode s.process_map ≡ some p) ⊎ Owns fs inode p)
    pub miss : r ≡ none → has_key inode s'.could_not_find ≡ true
    pub cache : IsValid s.lru_cache → IsValid s'.lru_cache

  abbrev Answers : ProcessIndex → ProcessIndex × Option Process → Type 0
  Answers s r = Answered s r.0 r.1

  get_unknown-Answers :
      (s : ProcessIndex)
      → has_key inode s.could_not_find ≡ false
      → Ensures (Answers s) (get_unknown fs inode s)
  unfolding get_unknown
  get_unknown-Answers s fresh = Ensures-bind (Answers s) (search fs inode s) _ λ r e.
      let spared = search_spares s r e in
      Ensures-option (Answers s) r.1 _ _
        (λ _. Ensures-ok (Answers s) _ (record {
          hit = λ p e'. absurd (cc);
          miss = λ _. has_key-insert inode inode true r.0.could_not_find ∙ rw (beq_self inode);
          cache = spared.1;
        }))
        (λ p found. Ensures-ok (Answers s) _ (record {
          hit = λ q same.
              let known = search_found fs inode s r e q (found ∙ same) in
              (known.0, rw spared.0 fresh, inr known.1);
          miss = λ e'. absurd (cc);
          cache = λ v. update-IsValid p.pid r.0.lru_cache (spared.1 v);
        }))

  get-Answers : (s : ProcessIndex) → Ensures (Answers s) (get fs inode s)
  unfolding get
  get-Answers s =
      Ensures-if (Answers s) (has_key inode s.could_not_find) _ _
        (λ listed.
          Ensures-ok (Answers s) (s, none)
            (record { hit = λ p e. absurd (cc); miss = λ _. listed; cache = λ v. v }))
        (λ fresh.
          Ensures-option (Answers s) (lookup inode s.process_map) _ _
            (λ _. get_unknown-Answers s fresh)
            (λ p known.
              Ensures-ok (Answers s) (s, some p)
                (record {
                  hit = λ q same. (known ∙ same, fresh, inl (known ∙ same));
                  miss = λ e. absurd (cc);
                  cache = λ v. v;
                })))

-- A process that `get` returns was in the map for the inode, or its directory under /proc shows a
-- socket with the inode and its name; afterwards the map holds it for the inode.
pub get_sound :
    (fs : FileSystem) (inode : ℕ) (s s' : ProcessIndex) (p : Process)
    → get fs inode s ≡ ok (s', some p)
    → ((lookup inode s.process_map ≡ some p) ⊎ Owns fs inode p)
      × (lookup inode s'.process_map ≡ some p)
get_sound fs inode s s' p e =
    let answer = (get-Answers fs inode s (s', some p) e).hit p refl in (answer.2, answer.0)

-- `get` remembers its answer, a miss too: if the very next call, with no other search and no
-- clearing of the list of misses in between, is for the same inode, it answers the same and changes
-- nothing, whatever /proc shows by then.
pub get-get :
    (fs later : FileSystem) (inode : ℕ) (s s' : ProcessIndex) (r : Option Process)
    → get fs inode s ≡ ok (s', r)
    → get later inode s' ≡ ok (s', r)
unfolding get
get-get fs later inode s s' none e =
    let missed = (get-Answers fs inode s (s', none) e).miss refl in rw missed
get-get fs later inode s s' (some p) e =
    let (known, fresh, _) = (get-Answers fs inode s (s', some p) e).hit p refl in
    rw (fresh, known, get)

-- `get` keeps the invariant of the cache of pids.
pub get-IsValid :
    (fs : FileSystem) (inode : ℕ) (s s' : ProcessIndex) (r : Option Process)
    → get fs inode s ≡ ok (s', r)
    → IsValid s.lru_cache
    → IsValid s'.lru_cache
get-IsValid fs inode s s' r e = (get-Answers fs inode s (s', r) e).cache
