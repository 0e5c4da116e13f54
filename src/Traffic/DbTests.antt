-- ===== src/Traffic/DbTests.antt =====
-- Tests of the database.
use ntmd.Base.{◌≡◌, refl, inl, inr, [], ◌∷◌, Text, All, codes, arith}
use ntmd.Base.Int.{pos}
use ntmd.Util.StringUtil.{contains_semicolon, str_to_lower}
use ntmd.Traffic.TrafficLine.{TrafficLine, TrafficMap, no_traffic}
use ntmd.Traffic.TrafficStorage.{line_of}
use ntmd.Traffic.Tables.{
  Tables, IsName, rows, find_table, listed, same, sum, AllFit, create_table, insert_row,
}
use ntmd.Traffic.DbController.{
  insert_application_traffic, fetch_traffic_since, fetch_traffic_between,
}
use ntmd.Traffic.DbController.Deposited.{
  row_of, deposited, stored, IsDistinct, CanStore, insert_application_traffic_lem,
}
use ntmd.Traffic.DbController.Fetched.{Answers, since, between, fetch_traffic_lem}
use ntmd.Traffic.DbController.Reported.{plus, fetch-insert}
use ntmd.Traffic.DbController.Memory.{memory}
use ntmd.Traffic.DbController.Memory.Laws.{memory-IsLawful}

abbrev page : TrafficLine
page = record no_traffic { bytes_rx = 1500; pkt_rx_count = 1 }

abbrev query : TrafficLine
query = record no_traffic { bytes_tx = 60; pkt_tx_count = 1 }

abbrev traffic : TrafficMap
traffic = (codes "curl", page) ∷ (codes "a;b", page) ∷ (codes "dig", query) ∷ []

-- One application has been seen before.
abbrev old : Tables
old = (codes "curl", row_of (pos 100) query ∷ []) ∷ []

curl-IsName : IsName (codes "curl")
unfolding str_to_lower
curl-IsName = record {
  shown = λ h. absurd (cc);
  plain = omega arith;
  short = omega arith;
  free = refl;
}

odd-IsName : IsName (codes "a;b")
unfolding str_to_lower
odd-IsName = record {
  shown = λ h. absurd (cc);
  plain = omega arith;
  short = omega arith;
  free = refl;
}

dig-IsName : IsName (codes "dig")
unfolding str_to_lower
dig-IsName = record {
  shown = λ h. absurd (cc);
  plain = omega arith;
  short = omega arith;
  free = refl;
}

traffic-IsDistinct : IsDistinct traffic
unfolding same str_to_lower
traffic-IsDistinct = ((refl, (refl, tt)), ((refl, tt), (tt, tt)))

traffic-CanStore : All (CanStore (pos 200) old) traffic
unfolding find_table same str_to_lower
traffic-CanStore = (
  (curl-IsName, omega arith, ((λ h. ground arith), tt)),
  ((odd-IsName, omega arith, tt), ((dig-IsName, omega arith, tt), tt)),
)

insert_application_traffic_lem_example :
    memory-IsLawful.Idle (insert_application_traffic memory (pos 200) traffic old)
    × ((k : Text)
        → rows k (memory-IsLawful.tables (insert_application_traffic memory (pos 200) traffic old))
          ≡ deposited k (pos 200) traffic (rows k old))
insert_application_traffic_lem_example =
    insert_application_traffic_lem memory memory-IsLawful (pos 200) traffic old traffic-IsDistinct
      traffic-CanStore tt

old_fits : AllFit (since (pos 150)) old
unfolding sum
old_fits = omega arith

fetch_traffic_lem_example :
    Answers (since (pos 150)) old (fetch_traffic_since memory (pos 150) old)
    × Answers
        (between (pos 150) (pos 180))
        old
        (fetch_traffic_between memory (pos 150) (pos 180) old)
fetch_traffic_lem_example =
    fetch_traffic_lem memory memory-IsLawful old (pos 150) (pos 180) tt (curl-IsName, tt)
      (omega arith) (omega arith) old_fits

new_fits : AllFit (since (pos 150)) (stored (pos 200) traffic old)
unfolding sum contains_semicolon create_table insert_row same str_to_lower
new_fits = omega arith

fetch-insert_example :
    line_of (codes "curl") (
      fetch_traffic_since memory
        (pos 150)
        (insert_application_traffic memory (pos 200) traffic old))
    ≡ plus page (line_of (codes "curl") (fetch_traffic_since memory (pos 150) old))
unfolding contains_semicolon listed
fetch-insert_example =
    fetch-insert memory memory-IsLawful old (pos 200) (pos 150) traffic (codes "curl") page tt
      (curl-IsName, tt) traffic-IsDistinct traffic-CanStore (inl (refl, refl)) refl (inr refl)
      (omega arith) refl new_fits old_fits
