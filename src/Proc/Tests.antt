-- ===== src/Proc/Tests.antt =====
-- Tests of the proc modules.
use ntmd.Base.{
  ◌≡◌, ◌⊎◌, refl, true, false, Option, none, some, List, [], ◌∷◌, Text, codes, nat_eq, list_eq,
  int_eq, if◌then◌else◌, ◌==◌, arith,
}
use ntmd.Base.Int.{pos}
use ntmd.Base.Assoc.{lookup, insert, has_key}
use ntmd.Base.Outcome.{ok}
use ntmd.Util.LruArray
use ntmd.Util.LruArray.{LruArray}
use ntmd.Util.LruArray.Invariant.{IsValid}
use ntmd.Util.StringUtil
use ntmd.Util.Decimal
use ntmd.Proc.FileSystem.{FileSystem, DirEntry, dt_dir, dt_lnk, dt_other}
use ntmd.Proc.ProcessIndex
use ntmd.Proc.ProcessIndex.{Process, ProcessIndex, get}
use ntmd.Proc.ProcessIndex.Search.{Owns}
use ntmd.Proc.ProcessIndex.Lacks.{NoneOwns}
use ntmd.Proc.ProcessIndex.Get.{get_sound, get-get}
use ntmd.Proc.ProcessIndex.Complete.{get_complete}

-- /proc with one process, 7, that has one socket, with inode 42.
abbrev proc_lines : Text → Option (List Text)
proc_lines path = if path == codes "/proc/7/comm" then some (codes "curl" ∷ []) else none

abbrev proc_entries : Text → Option (List DirEntry)
proc_entries path =
    if path == codes "/proc"
    then some (
        record { d_type = dt_dir; d_name = codes "7" }
        ∷ record { d_type = dt_other; d_name = codes "stat" }
        ∷ [])
    else if path == codes "/proc/7/fd"
    then some (record { d_type = dt_lnk; d_name = codes "3" } ∷ [])
    else none

abbrev proc : FileSystem
proc = record {
  lines = proc_lines;
  entries = proc_entries;
  exists = λ path. path == codes "/proc/7/fd";
  link = λ path. if path == codes "/proc/7/fd/3" then some (codes "socket:[42]") else none;
  stale = λ path. 0 ∷ [];
}

abbrev curl : Process
curl = record { comm = codes "curl"; pid = pos 7 }

abbrev initial : ProcessIndex
initial = record {
  process_map = [];
  lru_cache = record { deque = []; size = 5 };
  could_not_find = [];
}

abbrev after_hit : ProcessIndex
after_hit = record {
  process_map = (42, curl) ∷ [];
  lru_cache = record { deque = pos 7 ∷ []; size = 5 };
  could_not_find = [];
}

get_hit : get proc 42 initial ≡ ok (after_hit, some curl)
unfolding get ProcessIndex.get_unknown ProcessIndex.search ProcessIndex.search_cache
    ProcessIndex.search_all ProcessIndex.scan_cache ProcessIndex.erase_all ProcessIndex.collect_pids
    ProcessIndex.insert_pid ProcessIndex.search_pids ProcessIndex.process_pid_dir
    ProcessIndex.scan_fds ProcessIndex.visit_fd ProcessIndex.note_link ProcessIndex.note_socket
    ProcessIndex.socket_inode ProcessIndex.c_string LruArray.update LruArray.update_deque
    LruArray.contains LruArray.find Decimal.stoi Decimal.signed Decimal.magnitude
    Decimal.read_digits Decimal.positive Decimal.to_string Decimal.print_nat Decimal.emit
    StringUtil.is_number StringUtil.all_digits StringUtil.skip_space has_key lookup insert
get_hit = refl

abbrev after_miss : ProcessIndex
after_miss = record {
  process_map = (42, curl) ∷ [];
  lru_cache = record { deque = []; size = 5 };
  could_not_find = (43, true) ∷ [];
}

get_miss : get proc 43 initial ≡ ok (after_miss, none)
unfolding get ProcessIndex.get_unknown ProcessIndex.search ProcessIndex.search_cache
    ProcessIndex.search_all ProcessIndex.scan_cache ProcessIndex.erase_all ProcessIndex.collect_pids
    ProcessIndex.insert_pid ProcessIndex.search_pids ProcessIndex.process_pid_dir
    ProcessIndex.scan_fds ProcessIndex.visit_fd ProcessIndex.note_link ProcessIndex.note_socket
    ProcessIndex.socket_inode ProcessIndex.c_string LruArray.update LruArray.update_deque
    LruArray.contains LruArray.find Decimal.stoi Decimal.signed Decimal.magnitude
    Decimal.read_digits Decimal.positive Decimal.to_string Decimal.print_nat Decimal.emit
    StringUtil.is_number StringUtil.all_digits StringUtil.skip_space has_key lookup insert
get_miss = refl

get_sound_example :
    ((lookup 42 initial.process_map ≡ some curl) ⊎ Owns proc 42 curl)
    × (lookup 42 after_hit.process_map ≡ some curl)
get_sound_example = get_sound proc 42 initial after_hit curl get_hit

get-get_example : get proc 43 after_miss ≡ ok (after_miss, none)
get-get_example = get-get proc proc 43 initial after_miss none get_miss

initial-IsValid : IsValid initial.lru_cache
initial-IsValid = record { bounded = omega arith; distinct = tt }

nothing_known : has_key 43 initial.could_not_find ≡ false
unfolding has_key
nothing_known = refl

get_complete_example : NoneOwns proc 43 (
    record { d_type = dt_dir; d_name = codes "7" }
    ∷ record { d_type = dt_other; d_name = codes "stat" }
    ∷ [])
get_complete_example =
    get_complete proc 43 initial after_miss _ refl initial-IsValid nothing_known refl get_miss
