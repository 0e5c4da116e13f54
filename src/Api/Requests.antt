-- ===== src/Api/Requests.antt =====
-- api/APIController.cpp: a request from its bytes to the handler that is called, or to the message
-- of the error that is sent. Sockets and the JSON library are left out.
pub mod Answered
pub mod Commands
use ntmd.Base.{
  ℕ, ◌<◌, Bool, true, false, not, ◌||◌, Option, none, some, List, [], ◌∷◌, Text, codes, eqb, ltb,
  leb, length, if◌then◌else◌, ◌==◌, list_eq, nat_eq,
}
use ntmd.Base.Int.{ℤ}
use ntmd.Base.Outcome.{
  Outcome, Exn, ok, throws, exits, undefined, invalid_argument, out_of_range, ◌>>=◌,
}
use ntmd.Util.CString.{c_string}
use ntmd.Util.StringUtil.{trim, split}
use ntmd.Util.Decimal.{stoi}

pub data Reply : Type 0 where
  live_text live snapshot traffic_daily : Reply
  traffic_since : ℤ → Reply
  traffic_between : ℤ → ℤ → Reply
  error : Text → Reply

-- `read` into the buffer of 1024 bytes, the terminating zero, and `std::string(buffer)`. Where
-- `read` fails, or fills the buffer, the zero is written outside it.
pub receive : Option Text → Outcome Text
unfolding c_string
receive none = undefined
receive (some bytes) = if ltb (length bytes) 1024 then ok (c_string bytes) else undefined

-- `catch` for the two exceptions
pub caught : Text → Text → Outcome Reply → Outcome Reply
caught invalid large (ok reply) = ok reply
caught invalid large (throws invalid_argument) = ok (error invalid)
caught invalid large (throws out_of_range) = ok (error large)
caught invalid large (exits n) = exits n
caught invalid large undefined = undefined

-- the parameters of `traffic-since`
pub since : List Text → Outcome Reply
unfolding caught
since [] = ok (error (codes "Missing timestamp parameter for traffic-since."))
since (ts ∷ _) =
    caught (codes "Invalid timestamp parameter for traffic-since.")
      (codes "Timestamp parameter value too large for traffic-since.")
      (do n ← stoi ts; ok (traffic_since n))

-- the parameters of `traffic-between`
pub between : List Text → Outcome Reply
unfolding caught
between [] = ok (error (codes "Missing timestamp parameter(s) for traffic-between."))
between (_ ∷ []) = ok (error (codes "Missing timestamp parameter(s) for traffic-between."))
between (first ∷ last ∷ _) =
    caught (codes "Invalid timestamp parameter(s) for traffic-between.")
      (codes "Timestamp parameter value(s) too large for traffic-between.")
      (do m ← stoi first; n ← stoi last; ok (traffic_between m n))

pub command : Text → List Text → Outcome Reply
unfolding since between
command cmd parameters =
    if cmd == codes "live-text"
    then ok live_text
    else if cmd == codes "live"
    then ok live
    else if cmd == codes "snapshot"
    then ok snapshot
    else if cmd == codes "traffic-daily"
    then ok traffic_daily
    else if cmd == codes "traffic-since"
    then since parameters
    else if cmd == codes "traffic-between"
    then between parameters
    else ok (error (codes "Unknown command."))

-- `request[0]` of no words is a read behind the vector
pub dispatch_words : List Text → Outcome Reply
unfolding command
dispatch_words [] = undefined
dispatch_words (word ∷ parameters) = do cmd ← trim word; command cmd parameters

-- one round of the loop, behind `accept`
pub handle : Option Text → Outcome Reply
unfolding receive dispatch_words
handle bytes = do strbuf ← receive bytes; dispatch_words (split strbuf b' ')
