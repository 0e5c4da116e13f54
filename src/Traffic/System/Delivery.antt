-- ===== src/Traffic/System/Delivery.antt =====
-- Threads of the API that wait for the next deposit of traffic/TrafficStorage.cpp.
use ntmd.Base.{
  ℕ, ◌≡◌, ◌≢◌, refl, sym, ◌∙◌, true, false, some, List, [], ◌∷◌, ◌++◌, arith, eqb, if◌then◌else◌,
  eqb_iff,
}
use ntmd.Base.Outcome.{ok, ◌>>=◌, bind_assoc, bind_ext, Ensures, Ensures-bind, Ensures-ok}
use ntmd.Net.Packet.{Packet}
use ntmd.Proc.ProcessIndex.{Process}
use ntmd.Traffic.TrafficStorage
use ntmd.Traffic.TrafficStorage.{TrafficStorage, Watcher, Watchers}
use ntmd.Traffic.TrafficStorage.Add.{add_lem}
use ntmd.Traffic.System.{System, Event, packet, await, deposit, step, run}
use ntmd.Traffic.System.Hooked.{await_refused, await_accepted}

-- Events that come before the next deposit.
abbrev NoDeposit : List Event → Type 0
NoDeposit [] = Unit
NoDeposit (deposit ∷ events) = ⊥
NoDeposit (packet process pkt ∷ events) = NoDeposit events
NoDeposit (await w ∷ events) = NoDeposit events

-- `w` waits in `s`, and since `s0` only the traffic and the variables of `w` have changed.
record WaitsFor (w : ℕ) (s0 s : System) : Type 0 where
  waiting : s.storage.api_waiting ≡ true
  api_mutex : s.storage.api_mutex ≡ some w
  api_traffic_map : s.storage.api_traffic_map ≡ some w
  api_interval : s.storage.api_interval ≡ some w
  interval : s.storage.interval ≡ s0.storage.interval
  deposits : s.deposits ≡ s0.deposits
  others : (v : ℕ) → w ≢ v → s.watchers v ≡ s0.watchers v

-- What a deposit leaves for the threads of the API: `w` has what went to the database and the
-- interval, and its mutex is unlocked; the other threads see nothing.
pub record Delivered (w : ℕ) (s s' : System) : Type 0 where
  pub traffic : s'.deposits ≡ s.deposits ++ (s'.watchers w).traffic ∷ []
  pub interval : (s'.watchers w).interval ≡ s.storage.interval
  unlocked : (s'.watchers w).locked ≡ false
  free : s'.storage.api_waiting ≡ false
  pub others : (v : ℕ) → w ≢ v → s'.watchers v ≡ s.watchers v

run-append :
    (events others : List Event) (s : System)
    → run (events ++ others) s ≡ (run events s >>= run others)
unfolding run
run-append [] others s = refl
run-append (event ∷ events) others s =
    bind_ext (step event s) _ _ (λ t. run-append events others t)
    ∙ sym (bind_assoc (step event s) (run events) (run others))

-- Delivery through three pointers of one thread.
pub deliver_lem :
    (w v : ℕ) (s : TrafficStorage) (watchers : Watchers)
    → s.api_mutex ≡ some w
    → s.api_traffic_map ≡ some w
    → s.api_interval ≡ some w
    → TrafficStorage.deliver s watchers v ≡ (
        if eqb w v
        then record { traffic = s.application_traffic; interval = s.interval; locked = false }
        else watchers v)
unfolding TrafficStorage.deliver
deliver_lem w v s watchers mutex map interval =
    rw (mutex, map, interval) (ground (arith, eqb_iff w w, eqb_iff w v))

module _ (w : ℕ) (s0 : System) where
  await_waits : s0.storage.api_waiting ≡ false → Ensures (WaitsFor w s0) (step (await w) s0)
  unfolding step
  await_waits free = rw (await_accepted w s0.storage s0.watchers free) (
      Ensures-ok (WaitsFor w s0) _ (record {
        waiting = refl;
        api_mutex = refl;
        api_traffic_map = refl;
        api_interval = refl;
        interval = refl;
        deposits = refl;
        others = λ v other. ground (arith, eqb_iff w v);
      }))

  packet_waits :
      (process : Process) (pkt : Packet) (s : System)
      → WaitsFor w s0 s
      → Ensures (WaitsFor w s0) (step (packet process pkt) s)
  unfolding step
  packet_waits process pkt s h =
      let (m, added, lines) = add_lem process pkt s.storage in
      rw added (
        Ensures-ok (WaitsFor w s0)
          (record s { storage = record s.storage { application_traffic = m } })
          (record {
            waiting = h.waiting;
            api_mutex = h.api_mutex;
            api_traffic_map = h.api_traffic_map;
            api_interval = h.api_interval;
            interval = h.interval;
            deposits = h.deposits;
            others = h.others;
          }))

  events_wait :
      (events : List Event) (s : System)
      → NoDeposit events
      → WaitsFor w s0 s
      → Ensures (WaitsFor w s0) (run events s)
  unfolding run
  events_wait [] s calm h = Ensures-ok (WaitsFor w s0) s h
  events_wait (deposit ∷ events) s calm h = absurd calm
  events_wait (packet process pkt ∷ events) s calm h =
      Ensures-bind (WaitsFor w s0) (step (packet process pkt) s) (run events)
        λ t stepped. events_wait events t calm (packet_waits process pkt s h t stepped)
  events_wait (await v ∷ events) s calm h =
      unfold step in
      rw (await_refused v s.storage s.watchers h.waiting) (events_wait events s calm h)

  deposit_delivers : (s : System) → WaitsFor w s0 s → Ensures (Delivered w s0) (step deposit s)
  unfolding step TrafficStorage.deposit
  deposit_delivers s h = rw h.waiting (
      Ensures-ok (Delivered w s0) _ (record {
        traffic = rw (
          h.deposits,
          deliver_lem w w s.storage s.watchers h.api_mutex h.api_traffic_map h.api_interval,
          (eqb_iff w w).1 refl,
        );
        interval =
            rw
              (
                deliver_lem w w s.storage s.watchers h.api_mutex h.api_traffic_map h.api_interval,
                (eqb_iff w w).1 refl,
              )
              h.interval;
        unlocked = rw (
          deliver_lem w w s.storage s.watchers h.api_mutex h.api_traffic_map h.api_interval,
          (eqb_iff w w).1 refl,
        );
        free = refl;
        others = λ v other.
            ground (arith, eqb_iff w v, h.others v, deliver_lem w v s.storage s.watchers);
      }))

-- A thread that is accepted gets the next deposit. Whatever packets come and whatever other threads
-- ask before it, that deposit gives the thread the map that it gives to the database, and the
-- interval, and unlocks its mutex; the other threads' variables stay as they were, and the next one
-- that asks is accepted.
pub await-Delivered :
    (w : ℕ) (events : List Event) (s s' : System)
    → s.storage.api_waiting ≡ false
    → NoDeposit events
    → run (await w ∷ (events ++ deposit ∷ [])) s ≡ ok s'
    → Delivered w s s'
unfolding run
await-Delivered w events s s' free calm =
    Ensures-bind (Delivered w s) (step (await w) s) (run (events ++ deposit ∷ []))
      (λ t asked. rw (run-append events (deposit ∷ []) t) (
        Ensures-bind (Delivered w s) (run events t) (run (deposit ∷ [])) λ u waited.
          Ensures-bind (Delivered w s) (step deposit u) (run []) λ v given.
            Ensures-ok (Delivered w s) v (
              deposit_delivers w s u
                (events_wait w s events t calm (await_waits w s free t asked) u waited) v given)))
      s'
