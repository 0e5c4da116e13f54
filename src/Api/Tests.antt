-- ===== src/Api/Tests.antt =====
-- Tests of the requests.
use ntmd.Base.{◌≡◌, ◌∷◌, ◌++◌, codes, arith}
use ntmd.Base.Int.{pos}
use ntmd.Base.Outcome.{ok}
use ntmd.Util.StringUtil.{split}
use ntmd.Util.Decimal.{to_string}
use ntmd.Api.Requests.{dispatch_words, traffic_since, traffic_between}
use ntmd.Api.Requests.Commands.{dispatch-to_string}

dispatch-to_string_example :
    (dispatch_words (split (codes "traffic-since " ++ to_string (pos 1660000000)) b' ')
      ≡ ok (traffic_since (pos 1660000000)))
    × (dispatch_words (
          split
            (codes "traffic-between "
              ++ (to_string (pos 1660000000) ++ (b' ' ∷ to_string (pos 1700000000))))
            b' ')
        ≡ ok (traffic_between (pos 1660000000) (pos 1700000000)))
dispatch-to_string_example =
    dispatch-to_string (pos 1660000000) (pos 1700000000) (omega arith) (omega arith)
