-- ===== src/Traffic/History.antt =====
-- The deposits of traffic/TrafficStorage.cpp, one after the other, in the database of
-- traffic/DBController.cpp.
pub mod Stored
pub mod Reported
use ntmd.Base.{ℕ, ◌≡◌, Bool, true, false, List, [], ◌∷◌, Text, All, ◌==◌, nat_eq, list_eq}
use ntmd.Base.Int.{ℤ, ltb_ℤ}
use ntmd.Traffic.DbController.{insert_application_traffic}
use ntmd.Traffic.DbController.Deposited.{row_of, IsDistinct}
use ntmd.Traffic.DbController.Lawful.{IsBindable}
use ntmd.Traffic.Sqlite.{Sqlite}
use ntmd.Traffic.Tables.{Tables, Row, IsName, same}
use ntmd.Traffic.TrafficLine.{TrafficLine, TrafficMap}

-- The deposited maps, each with the time that `insertApplicationTraffic` reads.
abbrev pub History : Type 0
History = List (ℤ × TrafficMap)

abbrev pub maps : History → List TrafficMap
maps [] = []
maps ((timestamp, traffic) ∷ h) = traffic ∷ maps h

-- the rounds of the loop of `depositLoop`, as far as the database sees them
unfoldable pub deposit_all : (S : Sqlite) → History → S.Db → S.Db
deposit_all S [] db = db
deposit_all S ((timestamp, traffic) ∷ h) db =
    deposit_all S h (insert_application_traffic S timestamp traffic db)

-- Names that SQL takes for `k` are spelled as `k`.
abbrev pub OneSpelling : Text → TrafficMap → Type 0
OneSpelling k = All (λ e. same e.0 k ≡ (e.0 == k))

-- Deposits that can be stored: times that grow, at most one map a second; in each map, names that
-- SQL takes and tells apart, and counts that an `int` holds.
abbrev pub IsHistory : Text → ℤ → History → Type 0
IsHistory k previous [] = Unit
IsHistory k previous ((timestamp, traffic) ∷ h) =
    (ltb_ℤ previous timestamp ≡ true)
    × IsDistinct traffic
    × All (λ e. IsName e.0 × IsBindable (row_of timestamp e.1)) traffic
    × OneSpelling k traffic
    × IsHistory k timestamp h

-- No row is later than a time.
abbrev pub UpTo : ℤ → Tables → Type 0
UpTo time = All (λ e. All (λ r. ltb_ℤ time r.time ≡ false) e.1)
