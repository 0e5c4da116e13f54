-- ===== src/Traffic/TrafficStorage/Add.antt =====
-- `add` as one step.
use ntmd.Base.{
  ◌≡◌, refl, ap, ◌∙◌, some, Text, arith, if◌then◌else◌, eqb_iff, nat_eq, list_eq, beq_self,
  list_beq_iff, Bool-cases, ◌==◌, inl, inr,
}
use ntmd.Base.Assoc.{lookup, insert, lookup-insert}
use ntmd.Base.Outcome.{ok}
use ntmd.Net.Packet.{Packet}
use ntmd.Proc.ProcessIndex.{Process}
use ntmd.Traffic.TrafficLine.{TrafficLine, TrafficMap, count_packet}
use ntmd.Traffic.TrafficStorage.{TrafficStorage, line_of, count, add}

-- The line of every name, where a missing line counts as no traffic.
pub line_of-insert :
    (name other : Text) (line : TrafficLine) (m : TrafficMap)
    → line_of other (insert name line m) ≡ (if name == other then line else line_of other m)
line_of-insert name other line m = ground (arith, lookup-insert name other line m)

-- While the deposit thread keeps out, `add` returns, and changes the line of the process alone: it
-- counts the packet on the line that the process had, or on an empty one.
pub add_lem :
    (process : Process) (pkt : Packet) (s : TrafficStorage)
    → (m : TrafficMap) × (add process pkt s ≡ ok (record s { application_traffic = m }))
      × ((name : Text)
          → line_of name m ≡ (
              if process.comm == name
              then count_packet pkt (line_of name s.application_traffic)
              else line_of name s.application_traffic))
unfolding add
add_lem process pkt s =
    let found : lookup process.comm located ≡ some line =
      lookup-insert process.comm process.comm line s.application_traffic
      ∙ rw (beq_self process.comm) in
    (
      insert process.comm (count_packet pkt line) located,
      rw ((eqb_iff s.generation s.generation).1 refl, found, count),
      λ name. line_of-insert process.comm name (count_packet pkt line) located ∙ relined name,
    )
  where
    line : TrafficLine
    line = line_of process.comm s.application_traffic

    located : TrafficMap
    located = insert process.comm line s.application_traffic

    relined :
        (name : Text)
        → (if process.comm == name then count_packet pkt line else line_of name located) ≡ (
            if process.comm == name
            then count_packet pkt (line_of name s.application_traffic)
            else line_of name s.application_traffic)
    relined name = elim (Bool-cases (process.comm == name)) [
      | inl same ↦ rw same (
          ap (λ n. count_packet pkt (line_of n s.application_traffic))
            ((list_beq_iff process.comm name).0 same))
      | inr other ↦
          rw other (line_of-insert process.comm name line s.application_traffic ∙ rw other)
    ]
