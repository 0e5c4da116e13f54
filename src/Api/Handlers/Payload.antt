-- ===== src/Api/Handlers/Payload.antt =====
-- The payloads of api/APIController.cpp, read back member by member.
use ntmd.Base.{
  ℕ, ◌≡◌, ◌≢◌, ◌∙◌, refl, sym, ap, subst, arith, false, Option, none, some, [], ◌∷◌, Text, codes,
  if◌then◌else◌, length, ◌==◌, nat_eq, list_eq, list_beq_iff, Bool-cases, inl, inr,
}
use ntmd.Base.Int.{ℤ}
use ntmd.Base.Assoc.{lookup, insert, lookup-insert}
use ntmd.Base.Outcome.{ok}
use ntmd.Util.HumanReadable.{Double}
use ntmd.Api.Json.{Json, IsLawful}
use ntmd.Api.Handlers.{
  line_object, put_line, put_lines, traffic_to_json, success, live_payload, traffic_payload,
  live_text_round,
}
use ntmd.Traffic.DbController.{int_of}
use ntmd.Traffic.TrafficLine.{TrafficLine, TrafficMap}

-- No key stands twice, as in any `std::unordered_map`.
abbrev pub IsUnique : TrafficMap → Type 0
IsUnique [] = Unit
IsUnique ((n, _) ∷ m) = (lookup n m ≡ none) × IsUnique m

pub IsUnique-insert :
    (k : Text) (line : TrafficLine) (m : TrafficMap) → IsUnique m → IsUnique (insert k line m)
unfolding insert lookup
IsUnique-insert k line [] h = (refl, tt)
IsUnique-insert k line ((n, l) ∷ m) (fresh, unique) = elim (Bool-cases (n == k)) [
  | inl is ↦ rw is (subst (λ j. lookup j m ≡ none) ((list_beq_iff n k).0 is) fresh, unique)
  | inr other ↦ rw other (
    lookup-insert k n line m ∙ ground (arith, list_beq_iff n k, list_beq_iff k n),
    IsUnique-insert k line m unique,
  )
]

module _ (J : Json) where
  -- `payload["data"][name]`
  abbrev pub entry : J.Value → Text → J.Value
  entry payload name = J.member (J.member payload (codes "data")) name

  -- the object of a line, if there is one
  abbrev pub object_or : J.Value → Option TrafficLine → J.Value
  object_or v none = v
  object_or v (some line) = line_object J line

  -- What a client reads in the entry of a line: it is there, and has the four counters under their
  -- names.
  pub record IsLine (v : J.Value) (line : TrafficLine) : Type 0 where
    pub present : v ≢ J.null
    pub bytes_rx : J.member v (codes "bytesRx") ≡ J.unsigned line.bytes_rx
    pub bytes_tx : J.member v (codes "bytesTx") ≡ J.unsigned line.bytes_tx
    pub pkt_rx_count : J.member v (codes "pktRxCount") ≡ J.integer (int_of line.pkt_rx_count)
    pub pkt_tx_count : J.member v (codes "pktTxCount") ≡ J.integer (int_of line.pkt_tx_count)

  -- The entry of a line that may be missing.
  abbrev pub IsEntry : J.Value → Option TrafficLine → Type 0
  IsEntry v none = v ≡ J.null
  IsEntry v (some line) = IsLine v line

  -- What a client reads in the payload of a traffic map.
  pub record Describes (traffic : TrafficMap) (payload : J.Value) : Type 0 where
    pub result : J.member payload (codes "result") ≡ J.string (codes "success")
    pub size : J.member payload (codes "length") ≡ J.unsigned (length traffic)
    pub entries : (k : Text) → IsEntry (entry payload k) (lookup k traffic)

module _ (J : Json) (L : IsLawful J) where
  line_object-IsLine : (line : TrafficLine) → IsLine J (line_object J line) line
  unfolding lookup
  line_object-IsLine line = record {
    present = L.object-null _;
    bytes_rx = L.member-object _ (codes "bytesRx");
    bytes_tx = L.member-object _ (codes "bytesTx");
    pkt_rx_count = L.member-object _ (codes "pktRxCount");
    pkt_tx_count = L.member-object _ (codes "pktTxCount");
  }

  object_or-IsEntry :
      (v : J.Value) (o : Option TrafficLine) → v ≡ object_or J J.null o → IsEntry J v o
  object_or-IsEntry v none e = e
  object_or-IsEntry v (some line) e = subst (λ u. IsLine J u line) (sym e) (line_object-IsLine line)

  -- What holds of a payload while lines are put into it.
  record IsPayload (payload : J.Value) : Type 0 where
    whole : L.IsObject payload
    inner : L.IsObject (J.member payload (codes "data"))

  entry-put_line :
      (payload : J.Value) (name k : Text) (line : TrafficLine)
      → IsPayload payload
      → entry J (put_line J payload name line) k
        ≡ (if name == k then line_object J line else entry J payload k)
  unfolding put_line
  entry-put_line payload name k line h =
      ap (λ v. J.member v k) (L.member-assign payload _ (codes "data") (codes "data") h.whole)
      ∙ L.member-assign (J.member payload (codes "data")) (line_object J line) name k h.inner

  IsPayload-put_line :
      (payload : J.Value) (name : Text) (line : TrafficLine)
      → IsPayload payload
      → IsPayload (put_line J payload name line)
  unfolding put_line
  IsPayload-put_line payload name line h = record {
    whole = L.assign-IsObject payload _ (codes "data") h.whole;
    inner =
        subst L.IsObject (sym (L.member-assign payload _ (codes "data") (codes "data") h.whole))
          (L.assign-IsObject (J.member payload (codes "data")) _ name h.inner);
  }

  entry-put_lines :
      (payload : J.Value) (traffic : TrafficMap) (k : Text)
      → IsUnique traffic
      → IsPayload payload
      → entry J (put_lines J payload traffic) k ≡ object_or J (entry J payload k) (lookup k traffic)
  unfolding put_lines lookup
  entry-put_lines payload [] k unique h = refl
  entry-put_lines payload ((n, line) ∷ traffic) k (fresh, unique) h =
      entry-put_lines (put_line J payload n line) traffic k unique
        (IsPayload-put_line payload n line h)
      ∙ elim (Bool-cases (n == k)) [
        | inl is ↦
            let gone = subst (λ j. lookup j traffic ≡ none) ((list_beq_iff n k).0 is) fresh in
            rw (is, gone) (entry-put_line payload n k line h ∙ rw is)
        | inr other ↦ rw other (
            ap (λ v. object_or J v (lookup k traffic))
              (entry-put_line payload n k line h ∙ rw other))
      ]

  -- The lines leave the other members alone.
  member-put_lines :
      (payload : J.Value) (traffic : TrafficMap) (key : Text)
      → (codes "data" == key) ≡ false
      → IsPayload payload
      → (J.member (put_lines J payload traffic) key ≡ J.member payload key)
        × L.IsObject (put_lines J payload traffic)
  unfolding put_lines
  member-put_lines payload [] key other h = (refl, h.whole)
  member-put_lines payload ((n, line) ∷ traffic) key other h =
      let (kept, whole) =
        member-put_lines (put_line J payload n line) traffic key other
          (IsPayload-put_line payload n line h) in
      (
        kept ∙ unfold put_line in (L.member-assign payload _ (codes "data") key h.whole ∙ rw other),
        whole,
      )

  unstarted :
      (n : ℕ) → J.member (J.assign J.null (codes "length") (J.unsigned n)) (codes "data") ≡ J.null
  unstarted n =
      L.member-assign J.null (J.unsigned n) (codes "length") (codes "data") L.null-IsObject
      ∙ L.member-null (codes "data")

  started : (n : ℕ) → IsPayload (J.assign J.null (codes "length") (J.unsigned n))
  started n = record {
    whole = L.assign-IsObject J.null _ (codes "length") L.null-IsObject;
    inner = subst L.IsObject (sym (unstarted n)) L.null-IsObject;
  }

  traffic_to_json_lem :
      (traffic : TrafficMap)
      → IsUnique traffic
      → L.IsObject (traffic_to_json J traffic)
        × (J.member (traffic_to_json J traffic) (codes "length") ≡ J.unsigned (length traffic))
        × ((k : Text)
            → entry J (traffic_to_json J traffic) k ≡ object_or J J.null (lookup k traffic))
  unfolding traffic_to_json
  traffic_to_json_lem traffic unique =
      let base = J.assign J.null (codes "length") (J.unsigned (length traffic)) in
      let (kept, whole) =
        member-put_lines base traffic (codes "length") refl (started (length traffic)) in
      (
        whole,
        kept ∙ L.member-assign J.null _ (codes "length") (codes "length") L.null-IsObject,
        λ k.
            entry-put_lines base traffic k unique (started (length traffic))
            ∙ ap (λ v. object_or J v (lookup k traffic))
                (ap (λ v. J.member v k) (unstarted (length traffic)) ∙ L.member-null k),
      )

  pub traffic_payload-Describes :
      (traffic : TrafficMap) → IsUnique traffic → Describes J traffic (traffic_payload J traffic)
  unfolding traffic_payload success
  traffic_payload-Describes traffic unique =
      let (whole, size, entries) = traffic_to_json_lem traffic unique in
      record {
        result =
            L.member-assign (traffic_to_json J traffic) _ (codes "result") (codes "result") whole;
        size =
            L.member-assign (traffic_to_json J traffic) _ (codes "result") (codes "length") whole
            ∙ size;
        entries = λ k. object_or-IsEntry _ (lookup k traffic) (
            ap (λ v. J.member v k)
              (L.member-assign (traffic_to_json J traffic) _ (codes "result") (codes "data") whole)
            ∙ entries k);
      }

  -- The payload of the live traffic has the size of the map; for each name of the map an entry, with
  -- the bytes and packets of its line, received and sent, each under its name; no entry for any other
  -- name; and the interval.
  pub live_payload-Describes :
      (traffic : TrafficMap) (interval : ℤ)
      → IsUnique traffic
      → Describes J traffic (live_payload J traffic interval)
        × (J.member (live_payload J traffic interval) (codes "interval") ≡ J.integer interval)
  unfolding live_payload success
  live_payload-Describes traffic interval unique =
      let (whole, size, entries) = traffic_to_json_lem traffic unique in
      let timed = J.assign (traffic_to_json J traffic) (codes "interval") (J.integer interval) in
      let whole' : L.IsObject timed =
        L.assign-IsObject (traffic_to_json J traffic) _ (codes "interval") whole in
      let other : (key : Text)
          → (codes "result" == key) ≡ false
          → (codes "interval" == key) ≡ false
          → J.member (J.assign timed (codes "result") (J.string (codes "success"))) key
            ≡ J.member (traffic_to_json J traffic) key =
        (λ key not_result not_interval.
          L.member-assign timed _ (codes "result") key whole'
          ∙ rw not_result (
              L.member-assign (traffic_to_json J traffic) _ (codes "interval") key whole
              ∙ rw not_interval)) in
      (
        record {
          result = L.member-assign timed _ (codes "result") (codes "result") whole';
          size = other (codes "length") refl refl ∙ size;
          entries = λ k.
              object_or-IsEntry _ (lookup k traffic)
                (ap (λ v. J.member v k) (other (codes "data") refl refl) ∙ entries k);
        },
        L.member-assign timed _ (codes "result") (codes "interval") whole'
            ∙ L.member-assign (traffic_to_json J traffic) _ (codes "interval") (codes "interval")
                whole,
      )

-- A thread of `liveText` that is refused.
pub live_text_refused :
    (D : Double) (fuel : ℕ) (traffic : TrafficMap) (interval : ℤ)
    → live_text_round D fuel false traffic interval
      ≡ some (ok (codes "Only one live API stream at a time is currently supported.", false))
unfolding live_text_round
live_text_refused D fuel traffic interval = refl
