-- ===== src/Api/Handlers/Served.antt =====
-- What a client of the API reads in the answer to its request.
use ntmd.Base.{
  ◌≡◌, ◌≢◌, ◌∙◌, subst, arith, Bool, true, false, not, ◌&&◌, none, some, List, [], ◌∷◌, ◌++◌, Text,
  codes, All, if◌then◌else◌, length-append, nat_eq, list_eq,
}
use ntmd.Base.Int.{ℤ}
use ntmd.Base.Outcome.{ok}
use ntmd.Util.CString.{NoZero}
use ntmd.Util.Decimal.{to_string}
use ntmd.Util.Decimal.Printed.{All-to_string, length-to_string}
use ntmd.Util.Decimal.RoundTrip.{InRange}
use ntmd.Api.Json.{Json}
use ntmd.Api.Json
use ntmd.Api.Requests.{handle, traffic_since, traffic_between}
use ntmd.Api.Requests.Answered.{handle_plain}
use ntmd.Api.Requests.Commands.{dispatch-to_string}
use ntmd.Api.Handlers.{traffic_payload, sent, respond, serve}
use ntmd.Api.Handlers.Payload.{IsUnique, IsUnique-insert, traffic_payload-Describes, entry, IsEntry}
use ntmd.Traffic.DbController.{
  fetch_lines, fetch_traffic_with_query, fetch_application_names, fetch_traffic_since,
  fetch_traffic_between, fetch_line,
}
use ntmd.Traffic.DbController.Fetched.{since, between, line_of_rows, fetch_traffic_lem}
use ntmd.Traffic.DbController.Lawful.{IsLawful}
use ntmd.Traffic.Sqlite.{Sqlite}
use ntmd.Traffic.Tables.{Window, IsName, AllFit, listed, names, rows}
use ntmd.Traffic.TrafficLine.{TrafficMap, empty}
use ntmd.Traffic.TrafficStorage.{TrafficStorage}

module _ (S : Sqlite) where
  fetch_lines-IsUnique :
      (query : Text) (ns : List Text) (m : TrafficMap) (db : S.Db)
      → IsUnique m
      → IsUnique (fetch_lines S query ns m db)
  unfolding fetch_lines
  fetch_lines-IsUnique query [] m db h = h
  fetch_lines-IsUnique query (n ∷ ns) m db h = fetch_lines-IsUnique query ns _ db (
      if_unique (empty (fetch_line S query n db)) m _ h
        (IsUnique-insert n (fetch_line S query n db) m h))
    where
      if_unique :
          (b : Bool) (m m' : TrafficMap) → IsUnique m → IsUnique m' → IsUnique (if b then m else m')
      if_unique true m m' h h' = h
      if_unique false m m' h h' = h'

  since-IsUnique : (ts : ℤ) (db : S.Db) → IsUnique (fetch_traffic_since S ts db)
  unfolding fetch_traffic_since fetch_traffic_with_query
  since-IsUnique ts db = fetch_lines-IsUnique _ (fetch_application_names S db) [] db tt

  between-IsUnique : (a b : ℤ) (db : S.Db) → IsUnique (fetch_traffic_between S a b db)
  unfolding fetch_traffic_between fetch_traffic_with_query
  between-IsUnique a b db = fetch_lines-IsUnique _ (fetch_application_names S db) [] db tt

-- The requests as a client writes them.
abbrev pub since_request : ℤ → Text
since_request a = codes "traffic-since " ++ to_string a

abbrev pub between_request : ℤ → ℤ → Text
between_request a b = codes "traffic-between " ++ (to_string a ++ (b' ' ∷ to_string b))

NoZero-append : (s t : Text) → NoZero s → NoZero t → NoZero (s ++ t)
NoZero-append [] t hs ht = ht
NoZero-append (c ∷ s) t hs ht = (hs.0, NoZero-append s t hs.1 ht)

NoZero-to_string : (z : ℤ) → NoZero (to_string z)
NoZero-to_string = All-to_string (λ c. c ≢ 0) (λ c digit. ground arith) (omega arith)

handle-requests :
    (a b : ℤ)
    → InRange a
    → InRange b
    → (handle (some (since_request a)) ≡ ok (traffic_since a))
      × (handle (some (between_request a b)) ≡ ok (traffic_between a b))
handle-requests a b ha hb =
    let (since_read, between_read) = dispatch-to_string a b ha hb in
    (
      handle_plain (since_request a) (omega (arith, length-append {0}, length-to_string a ha)) (
            NoZero-append (codes "traffic-since ") (to_string a) (omega arith) (NoZero-to_string a))
          ∙ since_read,
      handle_plain (between_request a b)
            (omega (arith, length-append {0}, length-to_string a ha, length-to_string b hb))
            (NoZero-append (codes "traffic-between ") _ (omega arith) (
              NoZero-append (to_string a) _ (NoZero-to_string a)
                ((λ h. absurd (omega arith)), NoZero-to_string b)))
          ∙ between_read,
    )

module _ (J : Json) (S : Sqlite) (L : IsLawful S) where
  -- The answer to a request is one JSON text, and for every name the payload has the sums over the
  -- rows of its table in the window, and no entry where the name has no table or its sums are 0.
  abbrev pub IsServed : Window → ℤ → TrafficStorage → S.Db → Text → Type 0
  IsServed w start_of_day storage db request =
      (payload : J.Value) × (serve J S start_of_day storage db (some request)
        ≡ ok (sent (J.dump payload)))
      × (J.member payload (codes "result") ≡ J.string (codes "success"))
      × ((k : Text)
          → IsEntry J (entry J payload k) (
              if listed k (names (L.tables db))
                && not (empty (line_of_rows w (rows k (L.tables db))))
              then some (line_of_rows w (rows k (L.tables db)))
              else none))

  -- Over lawful libraries, the requests for the traffic since a time, and between two times, are
  -- answered as they are meant, from the bytes of the request to the members of the answer, the four
  -- sums of a name each under its own key: for all times of 32 bits, and all tables whose sums fit.
  pub serve-requests :
      Json.IsLawful J
      → (a b start_of_day : ℤ) (storage : TrafficStorage) (db : S.Db) → InRange a
      → InRange b
      → L.Idle db
      → All IsName (names (L.tables db))
      → AllFit (since a) (L.tables db)
      → IsServed (since a) start_of_day storage db (since_request a)
        × IsServed (between a b) start_of_day storage db (between_request a b)
  unfolding serve respond
  serve-requests JL a b start_of_day storage db ha hb idle known fits =
      let (since_read, between_read) = handle-requests a b ha hb in
      let (since_found, between_found) = fetch_traffic_lem S L db a b idle known ha hb fits in
      let d = traffic_payload-Describes J JL (fetch_traffic_since S a db) (since-IsUnique S a db) in
      let e =
        traffic_payload-Describes J JL (fetch_traffic_between S a b db)
          (between-IsUnique S a b db) in
      (
        (
          traffic_payload J (fetch_traffic_since S a db),
          rw since_read,
          d.result,
          λ k. subst (IsEntry J _) (since_found k) (d.entries k),
        ),
        (
          traffic_payload J (fetch_traffic_between S a b db),
          rw between_read,
          e.result,
          λ k. subst (IsEntry J _) (between_found k) (e.entries k),
        ),
      )
