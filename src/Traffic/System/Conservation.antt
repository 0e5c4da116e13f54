-- ===== src/Traffic/System/Conservation.antt =====
-- The traffic that packets bring to traffic/TrafficStorage.cpp, in memory and deposited.
use native.Mathlib.Nat.{mod-add-mod, add-mod-mod}
use ntmd.Base.{
  ℕ, ◌+◌, ◌%◌, ◌^◌, ◌≡◌, refl, ap, sym, ◌∙◌, List, [], ◌∷◌, ◌++◌, Text, arith, if◌then◌else◌, ◌==◌,
  nat_eq, list_eq, Bool-cases, inl, inr,
}
use ntmd.Base.Assoc.{lookup}
use ntmd.Base.Outcome.{ok, Ensures, Ensures-bind, Ensures-ok}
use ntmd.Net.Packet.{Packet, Direction}
use ntmd.Proc.ProcessIndex.{Process}
use ntmd.Traffic.TrafficLine.{TrafficLine, TrafficMap, no_traffic, sign_extend, count_packet}
use ntmd.Traffic.TrafficStorage
use ntmd.Traffic.TrafficStorage.{TrafficStorage, line_of}
use ntmd.Traffic.TrafficStorage.Add.{add_lem}
use ntmd.Traffic.System.{System, Event, packet, await, deposit, step, run}

-- What a packet adds to the four counters.
abbrev pub rx_bytes : Packet → ℕ
rx_bytes pkt = elim pkt.direction [ Direction.incoming ↦ sign_extend pkt.len | _ ↦ 0 ]

abbrev pub tx_bytes : Packet → ℕ
tx_bytes pkt = elim pkt.direction [ Direction.incoming ↦ 0 | _ ↦ sign_extend pkt.len ]

abbrev pub rx_count : Packet → ℕ
rx_count pkt = elim pkt.direction [ Direction.incoming ↦ 1 | _ ↦ 0 ]

abbrev pub tx_count : Packet → ℕ
tx_count pkt = elim pkt.direction [ Direction.incoming ↦ 0 | _ ↦ 1 ]

-- The sum of one counter of one application over deposited maps.
unfoldable pub deposited : (TrafficLine → ℕ) → Text → List TrafficMap → ℕ
deposited counter name [] = 0
deposited counter name (m ∷ maps) = counter (line_of name m) + deposited counter name maps

-- Deposited and still in memory.
abbrev pub stored : (TrafficLine → ℕ) → Text → System → ℕ
stored counter name s =
    deposited counter name s.deposits + counter (line_of name s.storage.application_traffic)

-- What the packets of the application bring.
pub offered : (Packet → ℕ) → Text → List Event → ℕ
offered amount name [] = 0
offered amount name (packet process pkt ∷ events) =
    (if process.comm == name then amount pkt else 0) + offered amount name events
offered amount name (await w ∷ events) = offered amount name events
offered amount name (deposit ∷ events) = offered amount name events

deposited-append :
    (counter : TrafficLine → ℕ) (name : Text) (maps : List TrafficMap) (m : TrafficMap)
    → deposited counter name (maps ++ m ∷ [])
      ≡ deposited counter name maps + counter (line_of name m)
unfolding deposited
deposited-append counter name [] m = omega arith
deposited-append counter name (x ∷ maps) m = omega (arith, deposited-append counter name maps m)

rx_bytes_counted :
    (pkt : Packet) (line : TrafficLine)
    → (count_packet pkt line).bytes_rx % 2 ^ 64 ≡ (line.bytes_rx + rx_bytes pkt) % 2 ^ 64
unfolding count_packet
rx_bytes_counted pkt line = ground arith

tx_bytes_counted :
    (pkt : Packet) (line : TrafficLine)
    → (count_packet pkt line).bytes_tx % 2 ^ 64 ≡ (line.bytes_tx + tx_bytes pkt) % 2 ^ 64
unfolding count_packet
tx_bytes_counted pkt line = ground arith

rx_counted :
    (pkt : Packet) (line : TrafficLine)
    → (count_packet pkt line).pkt_rx_count % 2 ^ 32 ≡ (line.pkt_rx_count + rx_count pkt) % 2 ^ 32
unfolding count_packet
rx_counted pkt line = ground arith

tx_counted :
    (pkt : Packet) (line : TrafficLine)
    → (count_packet pkt line).pkt_tx_count % 2 ^ 32 ≡ (line.pkt_tx_count + tx_count pkt) % 2 ^ 32
unfolding count_packet
tx_counted pkt line = ground arith

-- A counter of `width` values that a packet moves by `amount`.
module _ (counter : TrafficLine → ℕ) (amount : Packet → ℕ) (width : ℕ)
    (counts : (pkt : Packet) (line : TrafficLine)
      → counter (count_packet pkt line) % width ≡ (counter line + amount pkt) % width)
    (nothing : counter no_traffic ≡ 0) (name : Text) where
  abbrev Kept : Event → System → System → Type 0
  Kept event s s' =
      stored counter name s' % width
      ≡ (stored counter name s + offered amount name (event ∷ [])) % width

  -- Adding to both sides respects the remainders.
  shifted : (d x y : ℕ) → x % width ≡ y % width → (d + x) % width ≡ (d + y) % width
  shifted d x y h =
      sym (add-mod-mod d x width) ∙ ap (λ r. (d + r) % width) h ∙ add-mod-mod d y width

  packet-Kept :
      (process : Process) (pkt : Packet) (s : System)
      → Ensures (Kept (packet process pkt) s) (step (packet process pkt) s)
  unfolding step offered
  packet-Kept process pkt s =
      let (m, added, lines) = add_lem process pkt s.storage in
      rw added (
        Ensures-ok (Kept (packet process pkt) s)
          (record s { storage = record s.storage { application_traffic = m } })
          (rw (lines name) (elim (Bool-cases (process.comm == name)) [
            | inl own ↦ rw own (
                shifted _ _ _ (counts pkt (line_of name s.storage.application_traffic))
                ∙ ap (λ n. n % width) (omega arith))
            | inr other ↦ rw other (ap (λ n. n % width) (omega arith))
          ])))

  await_keeps :
      (w : ℕ) (s : System)
      → (TrafficStorage.await_snapshot w s.storage s.watchers).1.application_traffic
        ≡ s.storage.application_traffic
  unfolding TrafficStorage.await_snapshot
  await_keeps w s = ground arith

  step-Kept : (event : Event) (s : System) → Ensures (Kept event s) (step event s)
  unfolding step offered TrafficStorage.deposit lookup
  step-Kept (packet process pkt) s = packet-Kept process pkt s
  step-Kept (await w) s =
      Ensures-ok (Kept (await w) s) _ (rw (await_keeps w s) (ap (λ n. n % width) (omega arith)))
  step-Kept deposit s = Ensures-ok (Kept deposit s) _ (
      rw (deposited-append counter name s.deposits s.storage.application_traffic, nothing)
        (ap (λ n. n % width) (omega arith)))

  offered_cons :
      (event : Event) (events : List Event)
      → offered amount name (event ∷ events)
        ≡ offered amount name (event ∷ []) + offered amount name events
  unfolding offered
  offered_cons (packet process pkt) events = omega arith
  offered_cons (await w) events = omega arith
  offered_cons deposit events = omega arith

  -- Remainders add up along two steps.
  chained :
      (a b c x y : ℕ) → a % width ≡ (b + x) % width → c ≡ x + y → (a + y) % width ≡ (b + c) % width
  chained a b c x y h e =
      sym (mod-add-mod a width y)
      ∙ ap (λ r. (r + y) % width) h
      ∙ mod-add-mod (b + x) width y
      ∙ ap (λ n. n % width) (omega arith)

  run-Kept :
      (events : List Event) (s : System)
      → Ensures
          (λ s'.
            stored counter name s' % width
            ≡ (stored counter name s + offered amount name events) % width)
          (run events s)
  unfolding run
  run-Kept [] s =
      Ensures-ok
        (λ s'.
          stored counter name s' % width ≡ (stored counter name s + offered amount name []) % width)
        s (unfold offered in ap (λ n. n % width) (omega arith))
  run-Kept (event ∷ events) s =
      Ensures-bind
        (λ s'.
          stored counter name s' % width
          ≡ (stored counter name s + offered amount name (event ∷ events)) % width)
        (step event s) (run events)
        λ t stepped s' rest.
          run-Kept events t s' rest
          ∙ chained (stored counter name t) (stored counter name s) _ _ _
              (step-Kept event s t stepped) (offered_cons event events)

-- The four counters, modulo the width of their types.
pub record Conserved (name : Text) (events : List Event) (s s' : System) : Type 0 where
  pub bytes_rx :
      stored (λ l. l.bytes_rx) name s' % 2 ^ 64
      ≡ (stored (λ l. l.bytes_rx) name s + offered rx_bytes name events) % 2 ^ 64
  pub bytes_tx :
      stored (λ l. l.bytes_tx) name s' % 2 ^ 64
      ≡ (stored (λ l. l.bytes_tx) name s + offered tx_bytes name events) % 2 ^ 64
  pub pkt_rx_count :
      stored (λ l. l.pkt_rx_count) name s' % 2 ^ 32
      ≡ (stored (λ l. l.pkt_rx_count) name s + offered rx_count name events) % 2 ^ 32
  pub pkt_tx_count :
      stored (λ l. l.pkt_tx_count) name s' % 2 ^ 32
      ≡ (stored (λ l. l.pkt_tx_count) name s + offered tx_count name events) % 2 ^ 32

-- Along every run of packets, waiting threads and deposits, each packet added in one step, and for
-- every application: what the
-- deposits hold and what is still in memory is together what was there before and what the packets
-- of the application brought, in bytes and packets, received and sent, modulo the counters' widths.
pub run-Conserved :
    (name : Text) (events : List Event) (s s' : System)
    → run events s ≡ ok s'
    → Conserved name events s s'
run-Conserved name events s s' e = record {
  bytes_rx = run-Kept (λ l. l.bytes_rx) rx_bytes (2 ^ 64) rx_bytes_counted refl name events s s' e;
  bytes_tx = run-Kept (λ l. l.bytes_tx) tx_bytes (2 ^ 64) tx_bytes_counted refl name events s s' e;
  pkt_rx_count =
      run-Kept (λ l. l.pkt_rx_count) rx_count (2 ^ 32) rx_counted refl name events s s' e;
  pkt_tx_count =
      run-Kept (λ l. l.pkt_tx_count) tx_count (2 ^ 32) tx_counted refl name events s s' e;
}
