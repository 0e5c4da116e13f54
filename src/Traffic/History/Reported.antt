-- ===== src/Traffic/History/Reported.antt =====
-- From the packets that the daemon counts to the sums that its clients are told.
use ntmd.Base.{
  ℕ, ◌+◌, ◌%◌, ◌^◌, ◌≡◌, ◌∙◌, refl, sym, ap, subst, arith, true, false, none, some, List, [], ◌∷◌,
  Text, All, nat_eq, list_eq, inl,
}
use ntmd.Base.Assoc.{lookup}
use ntmd.Base.Int.{ℤ, ltb_ℤ}
use ntmd.Base.Outcome.{ok}
use ntmd.Util.Decimal.RoundTrip.{InRange}
use ntmd.Util.StringUtil.{contains_semicolon}
use ntmd.Traffic.DbController.{insert_application_traffic, fetch_traffic_since}
use ntmd.Traffic.DbController.Deposited.{
  row_of, stored, tables-insert_application_traffic, CanStore, IsDistinct,
}
use ntmd.Traffic.DbController.Fetched.{since, fetch_traffic_lem, line_of-Answers}
use ntmd.Traffic.DbController.Lawful.{IsLawful, IsBindable}
use ntmd.Traffic.DbController.Reported.{answered}
use ntmd.Traffic.DbController.Spelling.{IsSpelled, All-stored, All-CanStore}
use ntmd.Traffic.History.{History, maps, deposit_all, IsHistory, UpTo, OneSpelling}
use ntmd.Traffic.History.Stored
use ntmd.Traffic.History.Stored.{UpTo-deposit, IsSpelled-stored, sum-stored}
use ntmd.Traffic.Sqlite.{Sqlite}
use ntmd.Traffic.System.{Event, System, run, start}
use ntmd.Traffic.System.Conservation.{
  deposited, offered, rx_bytes, tx_bytes, rx_count, tx_count, run-Conserved,
}
use ntmd.Traffic.Tables.{Row, Table, IsName, AllFit, find_table, rows, names, sum}
use ntmd.Traffic.TrafficLine.{TrafficLine, TrafficMap, no_traffic}
use ntmd.Traffic.TrafficStorage.{Watchers, line_of}

-- No deposit is earlier than a time.
abbrev pub NotBefore : ℤ → History → Type 0
NotBefore first = All (λ e. ltb_ℤ e.0 first ≡ false)

module _ (S : Sqlite) (L : IsLawful S) (k : Text) (clean : contains_semicolon k ≡ false) where
  -- What is known of a database of the program, for the name.
  record IsKnown (previous : ℤ) (db : S.Db) : Type 0 where
    idle : L.Idle db
    named : All IsName (names (L.tables db))
    spelled : IsSpelled k (L.tables db)
    past : UpTo previous (L.tables db)

  module _ (previous timestamp : ℤ) (traffic : TrafficMap) (db : S.Db)
      (later : ltb_ℤ previous timestamp ≡ true) (distinct : IsDistinct traffic)
      (can : All (λ e. IsName e.0 × IsBindable (row_of timestamp e.1)) traffic)
      (one : OneSpelling k traffic) (known : IsKnown previous db) where
    can_store : All (CanStore timestamp (L.tables db)) traffic
    can_store = Stored.All-CanStore previous timestamp traffic (L.tables db) later known.past can

    tables-deposit :
        L.tables (insert_application_traffic S timestamp traffic db)
        ≡ stored timestamp traffic (L.tables db)
    tables-deposit =
        (tables-insert_application_traffic S L timestamp traffic db distinct can_store known.idle).1

    deposit-IsKnown : IsKnown timestamp (insert_application_traffic S timestamp traffic db)
    deposit-IsKnown = record {
      idle =
          (tables-insert_application_traffic S L timestamp traffic db distinct can_store
            known.idle).0;
      named =
          subst (λ T. All IsName (names T)) (sym tables-deposit)
            (All-stored timestamp traffic (L.tables db)
              (All-CanStore timestamp (L.tables db) traffic can_store) known.named);
      spelled =
          subst (IsSpelled k) (sym tables-deposit)
            (IsSpelled-stored k timestamp traffic (L.tables db) one known.spelled);
      past =
          subst (UpTo timestamp) (sym tables-deposit)
            (UpTo-deposit previous timestamp traffic (L.tables db) later known.past);
    }

  deposit_all-IsKnown :
      (h : History) (previous : ℤ) (db : S.Db)
      → IsHistory k previous h
      → IsKnown previous db
      → (last : ℤ) × IsKnown last (deposit_all S h db)
  unfolding deposit_all
  deposit_all-IsKnown [] previous db valid known = (previous, known)
  deposit_all-IsKnown ((timestamp, traffic) ∷ h) previous db (later, distinct, can, one, valid)
        known =
      deposit_all-IsKnown h timestamp (insert_application_traffic S timestamp traffic db) valid
        (deposit-IsKnown previous timestamp traffic db later distinct can one known)

  module _ (first : ℤ) (column : Row → ℕ) (counter : TrafficLine → ℕ)
      (agree : (timestamp : ℤ) (line : TrafficLine) → column (row_of timestamp line) ≡ counter line)
      (nothing : counter no_traffic ≡ 0) where
    sum-deposit_all :
        (h : History) (previous : ℤ) (db : S.Db)
        → IsHistory k previous h
        → NotBefore first h
        → IsKnown previous db
        → sum column (since first) (rows k (L.tables (deposit_all S h db)))
          ≡ deposited counter k (maps h) + sum column (since first) (rows k (L.tables db))
    unfolding deposit_all deposited
    sum-deposit_all [] previous db valid inside known = omega arith
    sum-deposit_all ((timestamp, traffic) ∷ h) previous db (later, distinct, can, one, valid)
          (now, inside) known =
        sum-deposit_all h timestamp (insert_application_traffic S timestamp traffic db) valid inside
          (deposit-IsKnown previous timestamp traffic db later distinct can one known)
        ∙ ap (λ T. deposited counter k (maps h) + sum column (since first) (rows k T))
            (tables-deposit previous timestamp traffic db later distinct can one known)
        ∙ ap (λ n. deposited counter k (maps h) + n)
            (sum-stored column counter (since first) k timestamp traffic (L.tables db)
              (agree timestamp) nothing (rw now) clean distinct one)
        ∙ omega arith

  -- A database with no table for the name.
  module _ (first previous : ℤ) (h : History) (db : S.Db) (valid : IsHistory k previous h)
      (inside : NotBefore first h) (known : IsKnown previous db)
      (missing : find_table k (L.tables db) ≡ none) where
    no_rows : rows k (L.tables db) ≡ []
    no_rows = ap (λ o. elim o as (λ _. Table) [ none ↦ [] | some t ↦ t ]) missing

    sum-deposit_all_new :
        (column : Row → ℕ) (counter : TrafficLine → ℕ)
        → ((timestamp : ℤ) (line : TrafficLine) → column (row_of timestamp line) ≡ counter line)
        → counter no_traffic ≡ 0
        → sum column (since first) (rows k (L.tables (deposit_all S h db)))
          ≡ deposited counter k (maps h)
    sum-deposit_all_new column counter agree nothing =
        sum-deposit_all first column counter agree nothing h previous db valid inside known
        ∙ ap (λ t. deposited counter k (maps h) + sum column (since first) t) no_rows
        ∙ unfold sum in omega arith

    told_lem :
        InRange first
        → AllFit (since first) (L.tables (deposit_all S h db))
        → line_of k (fetch_traffic_since S first (deposit_all S h db)) ≡ record {
          bytes_rx = deposited (λ l. l.bytes_rx) k (maps h);
          bytes_tx = deposited (λ l. l.bytes_tx) k (maps h);
          pkt_rx_count = deposited (λ l. l.pkt_rx_count) k (maps h) % 2 ^ 32;
          pkt_tx_count = deposited (λ l. l.pkt_tx_count) k (maps h) % 2 ^ 32;
        }
    told_lem hf fits =
        let (last, known') = deposit_all-IsKnown h previous db valid known in
        line_of-Answers (since first) (L.tables (deposit_all S h db)) _
          (fetch_traffic_lem S L (deposit_all S h db) first first known'.idle known'.named hf hf
            fits).0
          k
        ∙ answered k (since first) (L.tables (deposit_all S h db)) known'.spelled
        ∙ rw (
          sum-deposit_all_new (λ r. r.bytes_rx) (λ l. l.bytes_rx) (λ t l. refl) refl,
          sum-deposit_all_new (λ r. r.bytes_tx) (λ l. l.bytes_tx) (λ t l. refl) refl,
          sum-deposit_all_new (λ r. r.pkt_rx_count) (λ l. l.pkt_rx_count) (λ t l. refl) refl,
          sum-deposit_all_new (λ r. r.pkt_tx_count) (λ l. l.pkt_tx_count) (λ t l. refl) refl,
        )

-- What the database tells for a name, and what is still in memory, against what packets brought.
pub record Reported (k : Text) (events : List Event) (told memory : TrafficLine) : Type 0 where
  pub bytes_rx : (told.bytes_rx + memory.bytes_rx) % 2 ^ 64 ≡ offered rx_bytes k events % 2 ^ 64
  pub bytes_tx : (told.bytes_tx + memory.bytes_tx) % 2 ^ 64 ≡ offered tx_bytes k events % 2 ^ 64
  pub pkt_rx_count :
      (told.pkt_rx_count + memory.pkt_rx_count) % 2 ^ 32 ≡ offered rx_count k events % 2 ^ 32
  pub pkt_tx_count :
      (told.pkt_tx_count + memory.pkt_tx_count) % 2 ^ 32 ≡ offered tx_count k events % 2 ^ 32

-- From the packets to the clients: start the daemon on a lawful database that has no table for an
-- application. Whatever packets come, whenever threads wait and deposits are made, as long as the
-- deposits can be stored at their times and the sums fit: what `fetchTrafficSince` tells for the
-- application, for any time up to the first deposit, and what is still in memory, is together what
-- the packets of the application brought, in bytes and packets, received and sent, modulo the widths
-- of the counters.
pub run-Reported :
    (S : Sqlite) (L : IsLawful S) (db : S.Db) (k : Text) (first previous interval : ℤ) (h : History)
    (watchers : Watchers) (events : List Event) (s : System)
    → L.Idle db
    → All IsName (names (L.tables db))
    → UpTo previous (L.tables db)
    → find_table k (L.tables db) ≡ none
    → contains_semicolon k ≡ false
    → IsHistory k previous h
    → NotBefore first h
    → InRange first
    → AllFit (since first) (L.tables (deposit_all S h db))
    → run events (start interval watchers) ≡ ok s
    → s.deposits ≡ maps h
    → Reported k events
        (line_of k (fetch_traffic_since S first (deposit_all S h db)))
        (line_of k s.storage.application_traffic)
unfolding deposited lookup
run-Reported S L db k first previous interval h watchers events s idle named past missing clean
      valid inside hf fits ran same =
    let known : IsKnown S L k clean previous db = record {
      idle = idle;
      named = named;
      spelled = inl missing;
      past = past;
    } in
    let told = told_lem S L k clean first previous h db valid inside known missing hf fits in
    let kept = run-Conserved k events (start interval watchers) s ran in
    subst (λ line. Reported k events line (line_of k s.storage.application_traffic)) (sym told)
      (record {
        bytes_rx = rw (← same) (omega (arith, kept.bytes_rx));
        bytes_tx = rw (← same) (omega (arith, kept.bytes_tx));
        pkt_rx_count = rw (← same) (omega (arith, kept.pkt_rx_count));
        pkt_tx_count = rw (← same) (omega (arith, kept.pkt_tx_count));
      })
