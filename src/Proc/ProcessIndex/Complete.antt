-- ===== src/Proc/ProcessIndex/Complete.antt =====
-- What `search` of proc/ProcessIndex.cpp has read when it finds nothing.
use ntmd.Base.{
  ℕ, ◌≡◌, refl, ap, true, false, inl, inr, Option, none, some, List, [], ◌∷◌, codes, arith, nat_eq,
  int_eq, eqb, Option-cases, Bool-cases,
}
use ntmd.Base.Int.{ℤ}
use ntmd.Base.Assoc.{has_key, lookup}
use ntmd.Base.Outcome.{ok, ok-injective, Ensures, Ensures-bind, Ensures-ok, Ensures-option}
use ntmd.Util.LruArray
use ntmd.Util.LruArray.{LruArray, find}
use ntmd.Util.LruArray.Invariant.{IsValid}
use ntmd.Proc.FileSystem.{FileSystem, DirEntry}
use ntmd.Proc.ProcessIndex.{
  Process, ProcessIndex, collect_pids, search_pids, scan_cache, search_cache, search_all, search,
  get_unknown, get, erase_all,
}
use ntmd.Proc.ProcessIndex.Pids.{IsListed, contains-erase_all, collect_pids_listed}
use ntmd.Proc.ProcessIndex.Lacks.{Lacks, NoneOwns, AllLack, search_pids_lack, scan_cache_lack}

module _ (fs : FileSystem) (target : ℕ) (numbered : eqb target 0 ≡ false) where
  none_owns :
      (cache : LruArray ℤ) (entries : List DirEntry) (pids : List ℤ)
      → IsListed cache entries pids
      → AllLack fs target pids []
      → ((q : ℤ) → LruArray.contains q cache ≡ true → Lacks fs target q)
      → NoneOwns fs target entries
  unfolding find
  none_owns cache [] pids listed searched cached = tt
  none_owns cache (entry ∷ rest) pids listed searched cached = (
    λ process.
        let (pid, parsed, searched_here) = listed.0 process in
        (
          pid,
          parsed,
          elim (Bool-cases (LruArray.contains pid cache)) [
            | inl held ↦ cached pid held
            | inr absent ↦ searched pid (searched_here absent) refl
          ],
        ),
    none_owns cache rest pids listed.1 searched cached,
  )

  -- After the cache was searched in vain, every pid that it still holds lacks the inode.
  abbrev CacheSearched : ProcessIndex × Option Process → Type 0
  CacheSearched r =
      r.1 ≡ none → (q : ℤ) → LruArray.contains q r.0.lru_cache ≡ true → Lacks fs target q

  search_cache_lack :
      (s : ProcessIndex) → IsValid s.lru_cache → Ensures CacheSearched (search_cache fs target s)
  unfolding search_cache
  search_cache_lack s v =
      Ensures-bind CacheSearched (scan_cache fs target s.lru_cache.deque [] s.process_map) _ λ r e.
        Ensures-option CacheSearched r.0.found _ _
          (λ vain. Ensures-ok CacheSearched _ λ _ q held.
            let lack =
              (scan_cache_lack fs target numbered s.lru_cache.deque [] s.process_map r e vain).1 in
            still_held q r.1 s.lru_cache v held lack)
          (λ p found. Ensures-ok CacheSearched _ (λ e'. absurd (cc)))
    where
      still_held :
          (q : ℤ) (expired : List ℤ) (c : LruArray ℤ)
          → IsValid c
          → LruArray.contains q (erase_all expired c) ≡ true
          → AllLack fs target c.deque expired
          → Lacks fs target q
      still_held q expired c w held lack = elim (Bool-cases (find q expired)) [
        | inl gone ↦ absurd (ground (arith, contains-erase_all q expired c w, held, gone))
        | inr kept ↦ lack q (held_before (rw (contains-erase_all q expired c w, kept) at held)) kept
      ]
        where
          held_before : LruArray.contains q c ≡ true → find q c.deque ≡ true
          held_before h = unfold LruArray.contains in h

  abbrev Searched : List DirEntry → ProcessIndex × Option Process → Type 0
  Searched entries r = r.1 ≡ none → NoneOwns fs target entries

  module _ (entries : List DirEntry) (shown : fs.entries (codes "/proc") ≡ some entries) where
    search_all_lack :
        (s : ProcessIndex)
        → ((q : ℤ) → LruArray.contains q s.lru_cache ≡ true → Lacks fs target q)
        → Ensures (Searched entries) (search_all fs target s)
    unfolding search_all
    search_all_lack s cached =
        rw (shown, search_all)
          (Ensures-bind (Searched entries) (collect_pids s.lru_cache entries []) _ λ pids collected.
            Ensures-bind (Searched entries) (search_pids fs target pids s.process_map) _ λ st e.
              Ensures-ok (Searched entries) _ λ vain.
                none_owns s.lru_cache entries pids
                  (collect_pids_listed s.lru_cache entries [] pids collected).1
                  (search_pids_lack fs target numbered pids s.process_map st e vain) cached)

    search_lack :
        (s : ProcessIndex) → IsValid s.lru_cache → Ensures (Searched entries) (search fs target s)
    unfolding search
    search_lack s v = Ensures-bind (Searched entries) (search_cache fs target s) _ λ r e.
        Ensures-option (Searched entries) r.1 _ _
          (λ vain. search_all_lack r.0 (search_cache_lack s v r e vain))
          (λ p found. Ensures-ok (Searched entries) _ (λ e'. absurd (cc)))

    get_unknown_lack :
        (s : ProcessIndex)
        → IsValid s.lru_cache
        → Ensures (Searched entries) (get_unknown fs target s)
    unfolding get_unknown
    get_unknown_lack s v = Ensures-bind (Searched entries) (search fs target s) _ λ r e.
        Ensures-option (Searched entries) r.1 _ _
          (λ vain. Ensures-ok (Searched entries) _ (λ _. search_lack s v r e vain))
          (λ p found. Ensures-ok (Searched entries) _ (λ e'. absurd (cc)))

-- When `get` newly misses an inode other than 0, it has looked in vain into every process directory
-- that /proc lists, those of the cached pids too: none that can be read shows a socket with it.
pub get_complete :
    (fs : FileSystem) (inode : ℕ) (s s' : ProcessIndex) (entries : List DirEntry)
    → eqb inode 0 ≡ false
    → IsValid s.lru_cache
    → has_key inode s.could_not_find ≡ false
    → fs.entries (codes "/proc") ≡ some entries
    → get fs inode s ≡ ok (s', none)
    → NoneOwns fs inode entries
unfolding get
get_complete fs inode s s' entries numbered v fresh shown e =
    elim (Option-cases (lookup inode s.process_map)) [
      | inl unknown ↦
          get_unknown_lack fs inode numbered entries shown s v (s', none)
            (rw (fresh, unknown, get) at e) refl
      | inr (p, known) ↦
          let clash : some p ≡ none =
            ap (λ (r : ProcessIndex × Option Process). r.1)
              (ok-injective (s, some p) (s', none) (rw (fresh, known, get) at e)) in
          absurd (cc)
    ]
