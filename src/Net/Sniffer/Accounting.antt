-- ===== src/Net/Sniffer/Accounting.antt =====
-- What the callback does for one captured packet.
use ntmd.Base.{
  ℕ, ◌≡◌, refl, ap, sym, ◌∙◌, true, List, Text, if◌then◌else◌, ◌==◌, nat_eq, list_eq, ◌⊎◌, inl, inr,
}
use ntmd.Base.Outcome.{ok, ok-injective, Ensures, Ensures-bind, Ensures-ok, Ensures-if}
use ntmd.Net.Packet.{Packet, PcapHeader, parse}
use ntmd.Net.Packet.Kept.{IsKept, parse-IsKept}
use ntmd.Proc.FileSystem.{FileSystem}
use ntmd.Proc.ProcessIndex.{Process}
use ntmd.Proc.ProcessResolver.{resolve}
use ntmd.Traffic.TrafficLine.{count_packet}
use ntmd.Traffic.TrafficStorage
use ntmd.Traffic.TrafficStorage.{TrafficStorage, line_of}
use ntmd.Traffic.TrafficStorage.Add.{add_lem}
use ntmd.Net.Sniffer.{Sniffer, account, pkt_callback}

-- The packet counts for the process that it is resolved to, and for no other application.
pub record IsCounted (fs : FileSystem) (pkt : Packet) (s s' : Sniffer) : Type 0 where
  pub process : Process
  pub resolved : resolve fs pkt s.process_resolver ≡ ok (s'.process_resolver, process)
  pub ip_list : s'.ip_list ≡ s.ip_list
  pub lines :
      (name : Text)
      → line_of name s'.traffic_storage.application_traffic ≡ (
          if process.comm == name
          then count_packet pkt (line_of name s.traffic_storage.application_traffic)
          else line_of name s.traffic_storage.application_traffic)

-- What the callback did.
pub record Handled (fs : FileSystem) (hdr : PcapHeader) (raw : List ℕ) (s s' : Sniffer)
    : Type 0 where
  pub pkt : Packet
  pub parsed : parse hdr raw s.ip_list ≡ ok pkt
  outcome : ((pkt.discard ≡ true) × (s' ≡ s)) ⊎ (IsKept hdr s.ip_list pkt × IsCounted fs pkt s s')

account-IsCounted :
    (fs : FileSystem) (pkt : Packet) (s : Sniffer) → Ensures (IsCounted fs pkt s) (account fs pkt s)
unfolding account
account-IsCounted fs pkt s =
    Ensures-bind (IsCounted fs pkt s) (resolve fs pkt s.process_resolver) _ λ answer returned.
      let (m, added, lines) = add_lem answer.1 pkt s.traffic_storage in
      Ensures-bind (IsCounted fs pkt s) (TrafficStorage.add answer.1 pkt s.traffic_storage) _
        λ storage stored. Ensures-ok (IsCounted fs pkt s) _ (record {
          process = answer.1;
          resolved = returned;
          ip_list = refl;
          lines = λ name.
              ap (λ t. line_of name t.application_traffic)
                (ok-injective storage _ (sym stored ∙ added))
              ∙ lines name;
        })

-- When the callback returns, the packet was parsed, and either it is discarded and nothing has
-- changed, or it is kept, of a tracked type and with one end on this host, and it is counted once,
-- for the process that the resolver answers, while the lines of all other applications and the
-- addresses stay.
pub pkt_callback-Handled :
    (fs : FileSystem) (hdr : PcapHeader) (raw : List ℕ) (s s' : Sniffer)
    → pkt_callback fs hdr raw s ≡ ok s'
    → Handled fs hdr raw s s'
unfolding pkt_callback
pkt_callback-Handled fs hdr raw s s' =
    Ensures-bind (Handled fs hdr raw s) (parse hdr raw s.ip_list) _
      (λ pkt parsed.
        Ensures-if (Handled fs hdr raw s) pkt.discard (ok s) (account fs pkt s)
          (λ discarded.
            Ensures-ok (Handled fs hdr raw s) s
              (record { pkt = pkt; parsed = parsed; outcome = inl (discarded, refl) }))
          (λ kept t counted. record {
            pkt = pkt;
            parsed = parsed;
            outcome = inr (
              parse-IsKept hdr s.ip_list raw pkt parsed kept,
              account-IsCounted fs pkt s t counted,
            );
          }))
      s'
