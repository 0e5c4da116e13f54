-- ===== src/Traffic/DbController/Reported.antt =====
-- What a deposit adds to the answers of the queries.
use ntmd.Base.{
  ◌+◌, ◌%◌, ◌^◌, ◌≡◌, ◌∙◌, refl, sym, ap, subst, arith, Bool, true, false, not, ◌&&◌, none, some,
  [], ◌∷◌, Text, All, if◌then◌else◌, nat_eq, list_eq, inl, inr,
}
use ntmd.Base.Int.{ℤ}
use ntmd.Util.Decimal.RoundTrip.{InRange}
use ntmd.Util.StringUtil.{contains_semicolon}
use ntmd.Traffic.Sqlite.{Sqlite}
use ntmd.Traffic.TrafficLine.{TrafficLine, TrafficMap, no_traffic}
use ntmd.Traffic.TrafficStorage.{line_of}
use ntmd.Traffic.Tables.{
  Table, Tables, Window, IsName, AllFit, rows, listed, names, sum, within, same, same_self,
  same_comm,
}
use ntmd.Traffic.DbController.{insert_application_traffic, fetch_traffic_since}
use ntmd.Traffic.DbController.Lawful.{IsLawful}
use ntmd.Traffic.DbController.Deposited.{
  row_of, IsDistinct, CanStore, deposited, stored, rows-stored, tables-insert_application_traffic,
}
use ntmd.Traffic.DbController.Fetched.{since, line_of_rows, fetch_traffic_lem, line_of-Answers}
use ntmd.Traffic.DbController.Spelling.{
  Has, Has-same, IsSpelled, listed-stored, All-stored, All-CanStore,
}

pub out_of_reach : (b : Bool) (x y : Table) → (if not b && false then x else y) ≡ y
out_of_reach true x y = refl
out_of_reach false x y = refl

pub deposited_apart :
    (k : Text) (timestamp : ℤ) (traffic : TrafficMap) (t : Table)
    → All (λ e. same k e.0 ≡ false) traffic
    → deposited k timestamp traffic t ≡ t
deposited_apart k timestamp [] t h = refl
deposited_apart k timestamp ((n, line) ∷ traffic) t (apart, h) =
    let other : same n k ≡ false = same_comm n k ∙ apart in
    rw other (
      ap (deposited k timestamp traffic) (out_of_reach (contains_semicolon n) _ t)
      ∙ deposited_apart k timestamp traffic t h)

-- Its row is the one that is added.
deposited-Has :
    (k : Text) (line : TrafficLine) (timestamp : ℤ) (traffic : TrafficMap) (t : Table)
    → contains_semicolon k ≡ false
    → IsDistinct traffic
    → Has k line traffic
    → deposited k timestamp traffic t ≡ row_of timestamp line ∷ t
deposited-Has k line timestamp [] t clean distinct has = elim has [ ]
deposited-Has k line timestamp ((n, l) ∷ traffic) t clean (apart, distinct) (inl (p, q)) =
    rw (p, q, clean, same_self k)
      (deposited_apart k timestamp traffic (row_of timestamp line ∷ t)
        (subst (λ m. All (λ e. same m e.0 ≡ false) traffic) p apart))
deposited-Has k line timestamp ((n, l) ∷ traffic) t clean (apart, distinct) (inr has) =
    let other : same n k ≡ false = Has-same k n line traffic apart has in
    rw other (
      ap (deposited k timestamp traffic) (out_of_reach (contains_semicolon n) _ t)
      ∙ deposited-Has k line timestamp traffic t clean distinct has)

-- two lines together, with the widths of the counters
abbrev pub plus : TrafficLine → TrafficLine → TrafficLine
plus a b = record {
  bytes_rx = a.bytes_rx + b.bytes_rx;
  bytes_tx = a.bytes_tx + b.bytes_tx;
  pkt_rx_count = (a.pkt_rx_count + b.pkt_rx_count) % 2 ^ 32;
  pkt_tx_count = (a.pkt_tx_count + b.pkt_tx_count) % 2 ^ 32;
}

line_of_rows-cons :
    (w : Window) (timestamp : ℤ) (line : TrafficLine) (t : Table)
    → within w timestamp ≡ true
    → line_of_rows w (row_of timestamp line ∷ t) ≡ plus line (line_of_rows w t)
unfolding sum
line_of_rows-cons w timestamp line t inside = rw inside (ground arith)

-- A name with no table has no rows.
pub answered :
    (k : Text) (w : Window) (tables : Tables)
    → IsSpelled k tables
    → (if listed k (names tables) then line_of_rows w (rows k tables) else no_traffic)
      ≡ line_of_rows w (rows k tables)
unfolding sum
answered k w tables (inl missing) =
    let gone : rows k tables ≡ [] =
      ap (λ o. elim o as (λ _. Table) [ none ↦ [] | some t ↦ t ]) missing in
    either (listed k (names tables)) _ _ (ap (line_of_rows w) (sym gone))
  where
    either : (b : Bool) (x y : TrafficLine) → y ≡ x → (if b then x else y) ≡ x
    either true x y e = refl
    either false x y e = e
answered k w tables (inr shown) = rw shown

-- On a lawful database, once a traffic map is deposited as above, `fetchTrafficSince` for any time up
-- to that of the deposit answers, for every name that the map has, what it answered before, and the
-- line of the map added to it. The name is to have no table before, or one spelled as it is.
pub fetch-insert :
    (S : Sqlite) (L : IsLawful S) (db : S.Db) (timestamp first : ℤ) (traffic : TrafficMap)
    (k : Text) (line : TrafficLine)
    → L.Idle db
    → All IsName (names (L.tables db))
    → IsDistinct traffic
    → All (CanStore timestamp (L.tables db)) traffic
    → Has k line traffic
    → contains_semicolon k ≡ false
    → IsSpelled k (L.tables db)
    → InRange first
    → within (since first) timestamp ≡ true
    → AllFit (since first) (stored timestamp traffic (L.tables db))
    → AllFit (since first) (L.tables db)
    → line_of k (fetch_traffic_since S first (insert_application_traffic S timestamp traffic db))
      ≡ plus line (line_of k (fetch_traffic_since S first db))
fetch-insert S L db timestamp first traffic k line idle known distinct can has clean spelled hf
      inside fits' fits =
    let (idle', added) =
      tables-insert_application_traffic S L timestamp traffic db distinct can idle in
    let T : Tables = stored timestamp traffic (L.tables db) in
    let before =
      line_of-Answers (since first) (L.tables db) _
        (fetch_traffic_lem S L db first first idle known hf hf fits).0 k in
    let after =
      line_of-Answers (since first) _ _
        (fetch_traffic_lem S L (insert_application_traffic S timestamp traffic db) first first idle'
          (rw added (
            All-stored timestamp traffic (L.tables db)
              (All-CanStore timestamp (L.tables db) traffic can) known))
          hf hf (rw added fits')).0
        k in
    after
    ∙ ap (λ T. if listed k (names T) then line_of_rows (since first) (rows k T) else no_traffic)
        added
    ∙ answered k (since first) T
        (inr (listed-stored k line timestamp traffic (L.tables db) clean distinct has spelled))
    ∙ ap (line_of_rows (since first)) (
        rows-stored k timestamp traffic (L.tables db)
        ∙ deposited-Has k line timestamp traffic (rows k (L.tables db)) clean distinct has)
    ∙ line_of_rows-cons (since first) timestamp line (rows k (L.tables db)) inside
    ∙ ap (plus line) (sym (before ∙ answered k (since first) (L.tables db) spelled))
