-- ===== src/Api/Handlers.antt =====
-- The handlers of api/APIController.cpp: the text that each sends to its socket. The JSON library and
-- the sqlite3 library are parameters; `std::localtime` and `std::mktime` are in an argument.
pub mod Payload
pub mod Served
use ntmd.Base.{
  ℕ, ◌%◌, ◌^◌, Bool, true, false, Option, none, some, ◌-◌, List, [], ◌∷◌, ◌++◌, Text, codes, length,
  nat_eq, list_eq,
}
use mathlib.Core.Option
use ntmd.Base.Int.{ℤ, pos, negsuc}
use ntmd.Base.Outcome.{Outcome, ok, ◌>>=◌}
use ntmd.Util.Decimal.{to_string}
use ntmd.Util.HumanReadable.{Double, bytes_to_human_overtime}
use ntmd.Api.Json.{Json}
use ntmd.Api.Requests.{
  Reply, live_text, live, snapshot, traffic_daily, traffic_since, traffic_between, error, handle,
}
use ntmd.Traffic.DbController
use ntmd.Traffic.DbController.{int_of}
use ntmd.Traffic.Sqlite.{Sqlite}
use ntmd.Traffic.TrafficLine.{TrafficLine, TrafficMap}
use ntmd.Traffic.TrafficStorage.{TrafficStorage, get_live_snapshot}

abbrev on {ℓ κ} : {A : Type ℓ} {B : Type κ} → Option A → (A → Option B) → Option B
on none f = none
on (some a) f = f a

-- the conversion of an `int` to `unsigned`
uint32_of : ℤ → ℕ
uint32_of (pos n) = n % 2 ^ 32
uint32_of (negsuc n) = 2 ^ 32 - 1 - n % 2 ^ 32

module _ (J : Json) where
  -- the object of a line
  abbrev pub line_object : TrafficLine → J.Value
  line_object line = J.object (
      (codes "bytesRx", J.unsigned line.bytes_rx)
      ∷ (codes "bytesTx", J.unsigned line.bytes_tx)
      ∷ (codes "pktRxCount", J.integer (int_of line.pkt_rx_count))
      ∷ (codes "pktTxCount", J.integer (int_of line.pkt_tx_count))
      ∷ [])

  -- `payload["data"][name] = …`
  unfoldable pub put_line : J.Value → Text → TrafficLine → J.Value
  put_line payload name line =
      J.assign payload (codes "data")
        (J.assign (J.member payload (codes "data")) name (line_object line))

  unfoldable pub put_lines : J.Value → TrafficMap → J.Value
  unfolding put_line
  put_lines payload [] = payload
  put_lines payload ((name, line) ∷ traffic) = put_lines (put_line payload name line) traffic

  unfoldable pub traffic_to_json : TrafficMap → J.Value
  unfolding put_lines
  traffic_to_json traffic =
      put_lines (J.assign J.null (codes "length") (J.unsigned (length traffic))) traffic

  -- the end of every handler
  unfoldable pub success : J.Value → J.Value
  success payload = J.assign payload (codes "result") (J.string (codes "success"))

  -- the payload of `snapshot`, and of each update of `live`
  unfoldable pub live_payload : TrafficMap → ℤ → J.Value
  unfolding traffic_to_json success
  live_payload traffic interval =
      success (J.assign (traffic_to_json traffic) (codes "interval") (J.integer interval))

  -- the payload of the queries
  unfoldable pub traffic_payload : TrafficMap → J.Value
  unfolding traffic_to_json success
  traffic_payload traffic = success (traffic_to_json traffic)

  -- the message of an error
  unfoldable pub error_payload : Text → J.Value
  error_payload message =
      J.assign (J.assign J.null (codes "result") (J.string (codes "error"))) (codes "errmsg")
        (J.string message)

-- `get_live_snapshot` through `dump`; `none` is the exception of `dump`, which no handler catches
module _ (J : Json) where
  unfoldable pub snapshot_text : TrafficStorage → Option Text
  unfolding get_live_snapshot
  snapshot_text storage =
      let (traffic, interval) = get_live_snapshot storage in
      J.dump (live_payload J traffic interval)

  -- One round of the loop of `live`: what is sent, and whether the loop goes on. A thread that
  -- `awaitSnapshot` refuses sends an error; any other waits for the traffic and the interval.
  unfoldable pub live_round : Bool → TrafficMap → ℤ → Option (Text × Bool)
  live_round false traffic interval =
      Option.map (λ message. (message, false))
        (J.dump
          (error_payload J (codes "Only one live API stream at a time is currently supported.")))
  live_round true traffic interval =
      Option.map (λ message. (message, true)) (J.dump (live_payload J traffic interval))

module _ (D : Double) where
  -- A line of the text of `liveText`; `none` is a loop that does not end within the fuel.
  text_line : ℕ → ℤ → Text → TrafficLine → Option (Outcome Text)
  text_line fuel interval name line =
      on (bytes_to_human_overtime D fuel line.bytes_rx (uint32_of interval)) λ rx.
        on (bytes_to_human_overtime D fuel line.bytes_tx (uint32_of interval)) λ tx. some (do
          rx_text ← rx
          tx_text ← tx
          ok (
              codes "  "
              ++ (name
                  ++ (codes " { rx: "
                      ++ (rx_text
                          ++ (codes ", tx: "
                              ++ (tx_text
                                  ++ (codes ", rxc: "
                                      ++ (to_string (int_of line.pkt_rx_count)
                                          ++ (codes ", txc: "
                                              ++ (to_string (int_of line.pkt_tx_count)
                                                  ++ (codes " }" ++ 10 ∷ []))))))))))))

  text_lines : ℕ → ℤ → TrafficMap → Option (Outcome Text)
  unfolding text_line
  text_lines fuel interval [] = some (ok [])
  text_lines fuel interval ((name, line) ∷ traffic) =
      on (text_line fuel interval name line) λ first.
        on (text_lines fuel interval traffic)
          λ rest. some (do text ← first; others ← rest; ok (text ++ others))

  -- One round of the loop of `liveText`.
  pub live_text_round : ℕ → Bool → TrafficMap → ℤ → Option (Outcome (Text × Bool))
  unfolding text_lines
  live_text_round fuel false traffic interval =
      some (ok (codes "Only one live API stream at a time is currently supported.", false))
  live_text_round fuel true traffic interval =
      on (text_lines fuel interval traffic)
        λ lines. some (do text ← lines; ok (codes "Application Traffic:" ++ 10 ∷ text, true))

-- What a request comes to: one message, behind which the socket is closed; an exception that ends
-- the daemon; or a thread of its own, which sends traffic by rounds.
pub data Response : Type 0 where
  message : Text → Response
  aborted stream : Response

abbrev pub sent : Option Text → Response
sent none = aborted
sent (some text) = message text

module _ (J : Json) (S : Sqlite) where
  -- the handlers of a request, and the messages of errors
  unfoldable pub respond : ℤ → TrafficStorage → S.Db → Reply → Response
  unfolding snapshot_text
  respond start_of_day storage db live_text = stream
  respond start_of_day storage db live = stream
  respond start_of_day storage db snapshot = sent (snapshot_text J storage)
  respond start_of_day storage db traffic_daily =
      sent (J.dump (traffic_payload J (DbController.fetch_traffic_since S start_of_day db)))
  respond start_of_day storage db (traffic_since ts) =
      sent (J.dump (traffic_payload J (DbController.fetch_traffic_since S ts db)))
  respond start_of_day storage db (traffic_between first last) =
      sent (J.dump (traffic_payload J (DbController.fetch_traffic_between S first last db)))
  respond start_of_day storage db (error text) = sent (J.dump (error_payload J text))

  -- a request, from its bytes
  unfoldable pub serve : ℤ → TrafficStorage → S.Db → Option Text → Outcome Response
  unfolding respond
  serve start_of_day storage db bytes = do
    reply ← handle bytes
    ok (respond start_of_day storage db reply)
