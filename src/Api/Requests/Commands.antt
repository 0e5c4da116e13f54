-- ===== src/Api/Requests/Commands.antt =====
-- The commands with parameters, as a client writes them.
use ntmd.Base.{
  ◌≡◌, refl, ap, sym, ◌∙◌, false, some, List, [], ◌∷◌, ◌++◌, Text, codes, list_eq, nat_eq, arith,
  All,
}
use ntmd.Base.Int.{ℤ}
use ntmd.Base.Outcome.{ok, throws, invalid_argument}
use ntmd.Util.StringUtil
use ntmd.Util.StringUtil.{trim, split, skip_space, is_space}
use ntmd.Util.StringUtil.Split.{IsWord}
use ntmd.Util.StringUtil.Words.{split-word, split-last}
use ntmd.Util.Decimal.{stoi, signed, to_string}
use ntmd.Util.Decimal.RoundTrip.{InRange, stoi-to_string}
use ntmd.Config.Configuration.Lines.{to_string-IsInk}
use ntmd.Api.Requests.Answered.{handle_plain}
use ntmd.Api.Requests.{
  live, live_text, traffic_since, traffic_between, caught, since, between, command, dispatch_words,
  handle,
}

IsWord-IsInk : (v : Text) → All (λ c. is_space c ≡ false) v → IsWord b' ' v
IsWord-IsInk [] h = tt
IsWord-IsInk (c ∷ v) h = (ground (arith, h.0), IsWord-IsInk v h.1)

to_string-IsWord : (z : ℤ) → IsWord b' ' (to_string z)
to_string-IsWord z = IsWord-IsInk (to_string z) (to_string-IsInk z)

stoi-nil : stoi [] ≡ throws invalid_argument
unfolding stoi signed skip_space
stoi-nil = refl

-- A number is one word.
split-only : (t : Text) (z : ℤ) → stoi t ≡ ok z → IsWord b' ' t → split t b' ' ≡ t ∷ []
split-only [] z read h = absurd (ground (arith, sym stoi-nil ∙ read))
split-only (c ∷ t) z read h = split-last b' ' c t h

split-to_string : (z : ℤ) → InRange z → split (to_string z) b' ' ≡ to_string z ∷ []
split-to_string z h = split-only (to_string z) z (stoi-to_string z h) (to_string-IsWord z)

since-to_string : (z : ℤ) → InRange z → since (to_string z ∷ []) ≡ ok (traffic_since z)
unfolding since caught
since-to_string z h = rw (stoi-to_string z h)

between-to_string :
    (a b : ℤ)
    → InRange a
    → InRange b
    → between (to_string a ∷ to_string b ∷ []) ≡ ok (traffic_between a b)
unfolding between caught
between-to_string a b ha hb = rw (stoi-to_string a ha, stoi-to_string b hb)

dispatch-since :
    (parameters : List Text)
    → dispatch_words (codes "traffic-since" ∷ parameters) ≡ since parameters
unfolding dispatch_words command trim skip_space StringUtil.drop_trailing StringUtil.last_kept
dispatch-since parameters = refl

dispatch-between :
    (parameters : List Text)
    → dispatch_words (codes "traffic-between" ∷ parameters) ≡ between parameters
unfolding dispatch_words command trim skip_space StringUtil.drop_trailing StringUtil.last_kept
dispatch-between parameters = refl

since-IsWord : IsWord b' ' (codes "traffic-since")
since-IsWord = (
  refl,
  (
    refl,
    (refl, (refl, (refl, (refl, (refl, (refl, (refl, (refl, (refl, (refl, (refl, tt))))))))))),
  ),
)

between-IsWord : IsWord b' ' (codes "traffic-between")
between-IsWord = (
  refl,
  (
    refl,
    (
      refl,
      (
        refl,
        (refl, (refl, (refl, (refl, (refl, (refl, (refl, (refl, (refl, (refl, (refl, tt))))))))))),
      ),
    ),
  ),
)

-- A request for the traffic since a time, or between two times, is understood as it is meant, for
-- all times of 32 bits: from -(2 ^ 31) to 2 ^ 31 - 1.
pub dispatch-to_string :
    (a b : ℤ)
    → InRange a
    → InRange b
    → (dispatch_words (split (codes "traffic-since " ++ to_string a) b' ') ≡ ok (traffic_since a))
      × (dispatch_words
            (split (codes "traffic-between " ++ (to_string a ++ (b' ' ∷ to_string b))) b' ')
          ≡ ok (traffic_between a b))
dispatch-to_string a b ha hb = (
  ap dispatch_words (
        split-word b' ' (codes "traffic-since") (to_string a) since-IsWord
        ∙ ap (λ l. codes "traffic-since" ∷ l) (split-to_string a ha))
      ∙ dispatch-since (to_string a ∷ [])
      ∙ since-to_string a ha,
  ap dispatch_words (
        split-word b' ' (codes "traffic-between") (to_string a ++ (b' ' ∷ to_string b))
          between-IsWord
        ∙ ap (λ l. codes "traffic-between" ∷ l)
            (split-word b' ' (to_string a) (to_string b) (to_string-IsWord a)
              ∙ ap (λ l. to_string a ∷ l) (split-to_string b hb)))
      ∙ dispatch-between (to_string a ∷ to_string b ∷ [])
      ∙ between-to_string a b ha hb,
)

dispatch-live : dispatch_words (codes "live" ∷ []) ≡ ok live
unfolding dispatch_words command trim skip_space StringUtil.drop_trailing StringUtil.last_kept
dispatch-live = refl

pub handle-live : handle (some (codes "live")) ≡ ok live
handle-live =
    handle_plain (codes "live") (omega arith) (omega arith)
    ∙ ap dispatch_words (split-last b' ' b'l' (codes "ive") (refl, (refl, (refl, (refl, tt)))))
    ∙ dispatch-live

dispatch-live_text : dispatch_words (codes "live-text" ∷ []) ≡ ok live_text
unfolding dispatch_words command trim skip_space StringUtil.drop_trailing StringUtil.last_kept
dispatch-live_text = refl

pub handle-live_text : handle (some (codes "live-text")) ≡ ok live_text
handle-live_text =
    handle_plain (codes "live-text") (omega arith) (omega arith)
    ∙ ap dispatch_words (
        split-last b' ' b'l' (codes "ive-text")
          (refl, (refl, (refl, (refl, (refl, (refl, (refl, (refl, (refl, tt))))))))))
    ∙ dispatch-live_text
