-- ===== src/Api/JsonTests.antt =====
-- Tests of the handlers, with a small JSON library and the database in memory.
use ntmd.Base.{
  ℕ, ◌≡◌, refl, arith, some, [], ◌∷◌, ◌++◌, Text, codes, if◌then◌else◌, ◌==◌, nat_eq, list_eq,
  list_beq_iff,
}
use ntmd.Base.Int.{ℤ, pos}
use ntmd.Base.Assoc.{Assoc, lookup}
use ntmd.Util.Decimal.{to_string}
use ntmd.Util.StringUtil.{str_to_lower}
use ntmd.Api.Json
use ntmd.Api.Json.{Json}
use ntmd.Api.Handlers.{live_payload}
use ntmd.Api.Handlers.Payload.{Describes, live_payload-Describes}
use ntmd.Api.Handlers.Served.{IsServed, since_request, between_request, serve-requests}
use ntmd.Traffic.DbController.Deposited.{row_of}
use ntmd.Traffic.DbController.Fetched.{since, between}
use ntmd.Traffic.DbController.Memory.{memory}
use ntmd.Traffic.DbController.Memory.Laws.{memory-IsLawful}
use ntmd.Traffic.Tables.{Tables, IsName, AllFit, sum}
use ntmd.Traffic.TrafficLine.{TrafficLine, TrafficMap, no_traffic}
use ntmd.Traffic.TrafficStorage

mutual
  data Value : Type 0 where
    null : Value
    unsigned : ℕ → Value
    integer : ℤ → Value
    string : Text → Value
    object : Fields → Value

  data Fields : Type 0 where
    end : Fields
    field : Text → Value → Fields → Fields

abbrev fields_of : Value → Fields
fields_of (object fs) = fs
fields_of _ = end

find : Text → Fields → Value
find key end = null
find key (field k v fs) = if k == key then v else find key fs

put : Text → Value → Fields → Fields
put key v end = field key v end
put key v (field k w fs) = if k == key then field key v fs else field k w (put key v fs)

find-put :
    (key other : Text) (v : Value) (fs : Fields)
    → find other (put key v fs) ≡ (if key == other then v else find other fs)
unfolding find put
find-put key other v end = refl
find-put key other v (field k w fs) = ground (
  arith,
  find-put key other v fs,
  list_beq_iff k key,
  list_beq_iff k other,
  list_beq_iff key other,
)

abbrev of_list : Assoc Text Value → Fields
of_list [] = end
of_list ((k, v) ∷ m) = field k v (of_list m)

mutual
  print : Value → Text
  print null = codes "null"
  print (unsigned n) = to_string (pos n)
  print (integer z) = to_string z
  print (string s) = codes "\"" ++ (s ++ codes "\"")
  print (object fs) = codes "{" ++ (print_fields fs ++ codes "}")

  print_fields : Fields → Text
  print_fields end = []
  print_fields (field k v fs) =
      codes "\"" ++ (k ++ (codes "\":" ++ (print v ++ (codes "," ++ print_fields fs))))

abbrev tree : Json
tree = record {
  Value = Value;
  null = null;
  unsigned = unsigned;
  integer = integer;
  string = string;
  object = λ m. object (of_list m);
  assign = λ v key m. object (put key m (fields_of v));
  member = λ v key. find key (fields_of v);
  dump = λ v. some (print v);
}

abbrev IsObject : Value → Type 0
IsObject null = Unit
IsObject (object fs) = Unit
IsObject _ = ⊥

find-of_list :
    (m : Assoc Text Value) (key : Text) → find key (of_list m) ≡ Json.or_null tree (lookup key m)
unfolding find lookup
find-of_list [] key = refl
find-of_list ((k, v) ∷ m) key = ground (arith, find-of_list m key)

tree-IsLawful : Json.IsLawful tree
unfolding find
tree-IsLawful = record {
  IsObject = IsObject;
  null-IsObject = tt;
  assign-IsObject = λ v m key h. tt;
  member-null = λ key. refl;
  member-assign = λ v m key other h. find-put key other m (fields_of v);
  object-null = λ m h. cc h;
  member-object = find-of_list;
}

abbrev page : TrafficLine
page = record no_traffic { bytes_rx = 1500; pkt_rx_count = 1 }

abbrev seen : Tables
seen = (codes "curl", row_of (pos 200) page ∷ row_of (pos 100) page ∷ []) ∷ []

curl-IsName : IsName (codes "curl")
unfolding str_to_lower
curl-IsName = record {
  shown = λ h. absurd (cc);
  plain = omega arith;
  short = omega arith;
  free = refl;
}

seen-fits : AllFit (since (pos 150)) seen
unfolding sum
seen-fits = omega arith

serve-requests_example :
    IsServed tree memory memory-IsLawful
      (since (pos 150))
      (pos 0)
      (TrafficStorage.start (pos 10))
      seen
      (since_request (pos 150))
    × IsServed tree memory memory-IsLawful
        (between (pos 150) (pos 180))
        (pos 0)
        (TrafficStorage.start (pos 10))
        seen
        (between_request (pos 150) (pos 180))
serve-requests_example =
    serve-requests tree memory memory-IsLawful tree-IsLawful (pos 150) (pos 180) (pos 0)
      (TrafficStorage.start (pos 10)) seen (omega arith) (omega arith) tt (curl-IsName, tt)
      seen-fits

abbrev two : TrafficMap
two = (codes "curl", page) ∷ (codes "dig", no_traffic) ∷ []

live_payload-Describes_example :
    Describes tree two (live_payload tree two (pos 10))
    × (find (codes "interval") (fields_of (live_payload tree two (pos 10))) ≡ integer (pos 10))
unfolding lookup
live_payload-Describes_example =
    live_payload-Describes tree tree-IsLawful two (pos 10) (refl, (refl, tt))
