-- ===== src/Api/Requests/Answered.antt =====
-- Whether a request of api/APIController.cpp is answered.
use ntmd.Base.{◌<◌, ◌≡◌, ap, some, Text, length, list_eq, nat_eq, lt→ltb}
use ntmd.Base.Outcome.{Outcome, ok, ◌>>=◌}
use ntmd.Util.CString.{NoZero, c_string_of_NoZero}
use ntmd.Util.StringUtil.{split}
use ntmd.Api.Requests.{receive, dispatch_words, handle}

handle_lem :
    (bytes strbuf : Text)
    → receive (some bytes) ≡ ok strbuf
    → handle (some bytes) ≡ dispatch_words (split strbuf b' ')
unfolding handle
handle_lem bytes strbuf h = ap (λ m. m >>= λ s. dispatch_words (split s b' ')) h

pub handle_plain :
    (bytes : Text)
    → length bytes < 1024
    → NoZero bytes
    → handle (some bytes) ≡ dispatch_words (split bytes b' ')
unfolding receive
handle_plain bytes room plain =
    handle_lem bytes bytes
      (rw (lt→ltb (length bytes) 1024 room, receive) (ap ok (c_string_of_NoZero bytes plain)))
