-- ===== src/Api/Json.antt =====
-- What api/APIController.cpp uses of the JSON library.
use ntmd.Base.{ℕ, ◌≡◌, ◌≢◌, Option, none, some, Text, if◌then◌else◌, ◌==◌, nat_eq, list_eq}
use ntmd.Base.Int.{ℤ}
use ntmd.Base.Assoc.{Assoc, lookup}

pub record Json : Type 1 where
  pub Value : Type 0
  -- a value that is default-constructed
  pub null : Value
  pub unsigned : ℕ → Value
  pub integer : ℤ → Value
  pub string : Text → Value
  -- an object from a list of its members, by an initializer list
  pub object : Assoc Text Value → Value
  -- `value[key] = member`
  pub assign : Value → Text → Value → Value
  -- `value[key]` of an object, null where the key is missing
  pub member : Value → Text → Value
  -- `dump`, where `none` is the exception on a text that is not UTF-8
  pub dump : Value → Option Text

-- a member that may be missing
abbrev pub or_null : (J : Json) → Option J.Value → J.Value
or_null J none = J.null
or_null J (some v) = v

-- The documented behaviour of objects: null becomes one with its first member, and of two members of
-- an initializer list with one key the first counts.
pub record IsLawful (J : Json) : Type 1 where
  pub IsObject : J.Value → Type 0
  pub null-IsObject : IsObject J.null
  pub assign-IsObject : (v m : J.Value) (key : Text) → IsObject v → IsObject (J.assign v key m)
  pub member-null : (key : Text) → J.member J.null key ≡ J.null
  pub member-assign :
      (v m : J.Value) (key other : Text)
      → IsObject v
      → J.member (J.assign v key m) other ≡ (if key == other then m else J.member v other)
  pub object-null : (m : Assoc Text J.Value) → J.object m ≢ J.null
  pub member-object :
      (m : Assoc Text J.Value) (key : Text) → J.member (J.object m) key ≡ or_null J (lookup key m)
