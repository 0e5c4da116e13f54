-- ===== src/Net/IpList/Laws.antt =====
-- What `contains` answers behind `init`.
use ntmd.Base.{
  ℕ, suc, ◌+◌, ◌-◌, ◌≤◌, ◌<◌, ◌≡◌, refl, ap, subst, ◌∙◌, Bool, true, false, ◌||◌, none, some,
  Option-cases, inl, inr, List, [], ◌∷◌, ◌++◌, Text, arith, if◌then◌else◌, ◌==◌, nat_eq, list_eq,
  eqb, lt→ltb, tests, Bool-cases, ltb, length, nil_of_length, length-append, set, replicate,
}
use mathlib.Core.List.{append_assoc, append-nil}
use native.Mathlib.Numerals.{add-one}
use ntmd.Base.Outcome.{ok, undefined}
use ntmd.Net.IpList.{
  IpList, Interface, fresh, note_interface, collect, store, init, entry, contains_from, contains,
}

abbrev pub has : ℕ → List ℕ → Bool
has ip [] = false
has ip (x ∷ xs) = eqb x ip || has ip xs

-- The words at `s_addr` in the entries of the device, of every family, in the order of the system's
-- list.
unfoldable pub s_addrs : Text → List Interface → List ℕ
s_addrs device [] = []
s_addrs device (interface ∷ rest) = elim interface.s_addr [
  | none ↦ s_addrs device rest
  | some addr ↦ if interface.name == device then addr ∷ s_addrs device rest else s_addrs device rest
]

has-append : (ip : ℕ) (xs ys : List ℕ) → has ip (xs ++ ys) ≡ (has ip xs || has ip ys)
has-append ip [] ys = refl
has-append ip (x ∷ xs) ys = ground (arith, has-append ip xs ys)

has-note_interface :
    (device : Text) (interface : Interface) (rest : List Interface) (ip : ℕ) (tmp : List ℕ)
    → (has ip (note_interface device interface tmp) || has ip (s_addrs device rest))
      ≡ (has ip tmp || has ip (s_addrs device (interface ∷ rest)))
unfolding note_interface s_addrs
has-note_interface device interface rest ip tmp = elim (Option-cases interface.s_addr) [
  | inl unset ↦ rw (unset, note_interface, s_addrs)
  | inr (addr, p) ↦ rw (p, note_interface, s_addrs) (ground (arith, has-append ip tmp (addr ∷ [])))
]

has-collect :
    (device : Text) (interfaces : List Interface) (ip : ℕ) (tmp : List ℕ)
    → has ip (collect device interfaces tmp) ≡ (has ip tmp || has ip (s_addrs device interfaces))
unfolding collect s_addrs
has-collect device [] ip tmp = ground arith
has-collect device (interface ∷ rest) ip tmp =
    has-collect device rest ip (note_interface device interface tmp)
    ∙ has-note_interface device interface rest ip tmp

length-note_interface :
    (device : Text) (interface : Interface) (rest : List Interface) (tmp : List ℕ)
    → length (note_interface device interface tmp) + length (s_addrs device rest)
      ≡ length tmp + length (s_addrs device (interface ∷ rest))
unfolding note_interface s_addrs
length-note_interface device interface rest tmp = elim (Option-cases interface.s_addr) [
  | inl unset ↦ rw (unset, note_interface, s_addrs)
  | inr (addr, p) ↦ rw (p, note_interface, s_addrs) (ground (arith, length-append tmp (addr ∷ [])))
]

length-collect :
    (device : Text) (interfaces : List Interface) (tmp : List ℕ)
    → length (collect device interfaces tmp) ≡ length tmp + length (s_addrs device interfaces)
unfolding collect s_addrs
length-collect device [] tmp = omega arith
length-collect device (interface ∷ rest) tmp =
    length-collect device rest (note_interface device interface tmp)
    ∙ length-note_interface device interface rest tmp

set-append_self :
    (xs : List ℕ) (y z : ℕ) (ys : List ℕ) → set (xs ++ y ∷ ys) (length xs) z ≡ xs ++ z ∷ ys
set-append_self [] y z ys = refl
set-append_self (x ∷ xs) y z ys = ap (◌∷◌ x) (set-append_self xs y z ys)

entry-append : (xs : List ℕ) (y : ℕ) (ys : List ℕ) → entry (xs ++ y ∷ ys) (length xs) ≡ y
entry-append [] y ys = refl
entry-append (x ∷ xs) y ys = entry-append xs y ys

-- The array that holds `front`, with `room` unused entries.
abbrev holding : List ℕ → ℕ → IpList
holding front room = record { ips = front ++ replicate room 0; size = length front }

-- The first unused entry takes the address.
set_unused :
    (front : List ℕ) (a k room : ℕ)
    → set (front ++ replicate (suc k + room) 0) (length front) a
      ≡ (front ++ a ∷ []) ++ replicate (k + room) 0
set_unused front a k room =
    let more : suc k + room ≡ suc (k + room) = omega arith in
    rw (more, append_assoc) (set-append_self front 0 a (replicate (k + room) 0))

store-holding :
    (front rest : List ℕ) (room : ℕ)
    → length front + (length rest + room) ≡ 64
    → store (length front) rest (holding front (length rest + room))
      ≡ ok (holding (front ++ rest) room)
unfolding store
store-holding front [] room h = rw append-nil (ap (λ r. ok (holding front r)) (omega arith))
store-holding front (a ∷ rest) room h =
    let shorter : length (front ++ a ∷ []) ≡ suc (length front) =
      length-append front (a ∷ []) ∙ omega arith in
    let next = store-holding (front ++ a ∷ []) rest room (rw shorter (omega arith)) in
    rw (lt→ltb (length front) 64 (omega arith)) (
      cc (
        next,
        shorter,
        set_unused front a (length rest) room,
        add-one (length front),
        append_assoc front (a ∷ []) rest,
      ))

if_true_or : (a b : Bool) → (if a then true else b) ≡ (a || b)
if_true_or a b = ground arith

contains_from-has :
    (front mid back : List ℕ) (ip : ℕ)
    → contains_from (length mid) (length front) (front ++ (mid ++ back)) ip ≡ has ip mid
unfolding contains_from
contains_from-has front [] back ip = refl
contains_from-has front (x ∷ mid) back ip =
    let next = contains_from-has (front ++ x ∷ []) mid back ip in
    let shorter : length (front ++ x ∷ []) ≡ suc (length front) =
      length-append front (x ∷ []) ∙ omega arith in
    rw (entry-append, ← append_assoc front (x ∷ []) (mid ++ back), ← shorter, next)
      (if_true_or (eqb x ip) (has ip mid))

-- What `init` stores on a device with addresses.
init-holding :
    (device : Text) (interfaces : List Interface)
    → length (s_addrs device interfaces) ≤ 64
    → init device (some interfaces) fresh
      ≡ ok (holding (collect device interfaces []) (64 - length (s_addrs device interfaces)))
unfolding init
init-holding device interfaces fits =
    let n : length (collect device interfaces []) ≡ length (s_addrs device interfaces) =
      length-collect device interfaces [] ∙ omega arith in
    let room : ℕ = 64 - length (s_addrs device interfaces) in
    let all : length (collect device interfaces []) + room ≡ 64 = omega arith in
    subst
      (λ k.
        store 0 (collect device interfaces []) (holding [] k)
        ≡ ok (holding (collect device interfaces []) room))
      all (store-holding [] (collect device interfaces []) room (omega arith))

contains-holding :
    (found : List ℕ) (room ip : ℕ)
    → 0 < length found
    → contains (holding found room) ip ≡ has ip found
unfolding contains
contains-holding [] room ip h = elim h [ ]
contains-holding (x ∷ found) room ip h =
    let others : suc (length found) - 1 ≡ length found = omega arith in
    rw (others, contains_from-has (x ∷ []) found (replicate room 0) ip)
      (if_true_or (eqb x ip) (has ip found))

-- On a device with one to 64 entries with an address, of whatever family, `init` returns, and from
-- then on `contains` answers true for exactly the words that stand at `s_addr` in these entries,
-- wherever `init` put them: the family is not looked at.
pub contains-init :
    (device : Text) (interfaces : List Interface)
    → 0 < length (s_addrs device interfaces)
    → length (s_addrs device interfaces) ≤ 64
    → (l : IpList) × (init device (some interfaces) fresh ≡ ok l)
      × ((ip : ℕ) → contains l ip ≡ has ip (s_addrs device interfaces))
contains-init device interfaces some_address fits = (
  holding (collect device interfaces []) (64 - length (s_addrs device interfaces)),
  init-holding device interfaces fits,
  λ ip.
      contains-holding (collect device interfaces []) _ ip
        (rw (length-collect device interfaces []) (omega arith))
      ∙ has-collect device interfaces ip [],
)

store_overflow :
    (i : ℕ) (found : List ℕ) (l : IpList)
    → i ≤ 64
    → 64 < i + length found
    → store i found l ≡ undefined
unfolding store
store_overflow i [] l h k = absurd (omega arith)
store_overflow i (a ∷ rest) l h k = elim (Bool-cases (ltb i 64)) [
  | inl inside ↦ rw inside (store_overflow (suc i) rest _ (omega (tests, inside)) (omega arith))
  | inr behind ↦ rw behind
]

-- A device with more than 64 entries with an address makes `init` write behind its array.
pub init_overflow :
    (device : Text) (interfaces : List Interface)
    → 64 < length (s_addrs device interfaces)
    → init device (some interfaces) fresh ≡ undefined
unfolding init
init_overflow device interfaces many =
    store_overflow 0 (collect device interfaces []) fresh (omega arith)
      (rw (length-collect device interfaces []) (omega arith))

or_false : (b : Bool) → (b || false) ≡ b
or_false b = ground arith

-- On a device without an address `init` returns, and the unused first entry makes `contains` answer
-- true for 0.0.0.0 and for no other address.
pub contains_without_address :
    (device : Text) (interfaces : List Interface)
    → s_addrs device interfaces ≡ []
    → (l : IpList) × (init device (some interfaces) fresh ≡ ok l)
      × ((ip : ℕ) → contains l ip ≡ eqb 0 ip)
unfolding contains
contains_without_address device interfaces none_found =
    let nothing : collect device interfaces [] ≡ [] =
      nil_of_length (collect device interfaces [])
        (length-collect device interfaces [] ∙ rw none_found) in
    (
      holding (collect device interfaces []) (64 - length (s_addrs device interfaces)),
      init-holding device interfaces (rw none_found (omega arith)),
      λ ip. rw (nothing, none_found) (if_true_or (eqb 0 ip) false ∙ or_false (eqb 0 ip)),
    )
