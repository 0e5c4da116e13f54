-- ===== src/Api/Server/Sound.antt =====
-- What holds of the connections and threads of the server of api/APIController.cpp between any two
-- steps, and what the changes that the steps consist of keep of it.
use ntmd.Base.{
  ℕ, ◌+◌, ◌≤◌, ◌≡◌, ◌≢◌, refl, ap, arith, Bool, true, false, Option, none, some, eqb, eqb_iff,
  Bool-cases, Option-cases, inl, inr, list_eq, nat_eq,
}
use ntmd.Base.Outcome.{Ensures, Ensures-ok}
use ntmd.Net.Packet.{Packet}
use ntmd.Traffic.System
use ntmd.Traffic.System.{System}
use ntmd.Traffic.System.Hooked.{HookedBy}
use ntmd.Traffic.System.Delivery.{deliver_lem}
use ntmd.Traffic.TrafficStorage
use ntmd.Traffic.TrafficStorage.{LineRef, TrafficStorage, Watcher, Watchers}
use ntmd.Base.Assoc.{lookup}
use ntmd.Traffic.TrafficLine.{TrafficMap}
use ntmd.Api.Server.{Kind, Phase, Thread, welcoming, asking, waiting, thread_in, put_at, kind_in}

-- The thread of `w` waits with a locked mutex.
pub record Waits (w : ℕ) (threads : ℕ → Option Thread) (system : System) : Type 0 where
  pub kind : Kind
  pub thread : threads w ≡ some (thread_in kind waiting)
  pub locked : (system.watchers w).locked ≡ true

-- `deliver` locks no mutex.
deliver_locked :
    (w : ℕ) (s : TrafficStorage) (watchers : Watchers)
    → (TrafficStorage.deliver s watchers w).locked ≡ true
    → (watchers w).locked ≡ true
unfolding TrafficStorage.deliver
deliver_locked w s watchers = elim (Option-cases s.api_mutex) [
  | inl no_mutex ↦ rw no_mutex (λ h. h)
  | inr (m, mutex) ↦ elim (Option-cases s.api_traffic_map) [
    | inl no_map ↦ rw (mutex, no_map) (λ h. h)
    | inr (p, map) ↦ elim (Option-cases s.api_interval) [
      | inl no_interval ↦ rw (mutex, map, no_interval) (λ h. h)
      | inr (i, interval) ↦
          rw (mutex, map, interval)
            (λ h. ground (arith, h, eqb_iff p i, eqb_iff i m, eqb_iff p m, eqb_iff m w))
    ]
  ]
]

pub record IsSound (next : ℕ) (is_open : ℕ → Bool) (threads : ℕ → Option Thread) (system : System)
    : Type 0 where
  pub fresh : (w : ℕ) → next ≤ w → is_open w ≡ false
  pub opened : (w : ℕ) (t : Thread) → threads w ≡ some t → is_open w ≡ true
  pub hooked :
      (w : ℕ) → Waits w threads system → (system.storage.api_waiting ≡ true) × HookedBy w system

at_phase :
    (phase now : Phase) (k kind : Kind)
    → kind_in phase (some (thread_in k now)) ≡ some kind
    → some (thread_in k now) ≡ some (thread_in kind phase)
unfolding kind_in
at_phase welcoming welcoming k kind h = cc
at_phase welcoming asking k kind h = cc
at_phase welcoming waiting k kind h = cc
at_phase asking welcoming k kind h = cc
at_phase asking asking k kind h = cc
at_phase asking waiting k kind h = cc
at_phase waiting welcoming k kind h = cc
at_phase waiting asking k kind h = cc
at_phase waiting waiting k kind h = cc

pub kind_in_lem :
    (phase : Phase) (o : Option Thread) (kind : Kind)
    → kind_in phase o ≡ some kind
    → o ≡ some (thread_in kind phase)
unfolding kind_in
kind_in_lem phase none kind h = cc
kind_in_lem phase (some t) kind h = at_phase phase t.phase t.kind kind h

pub put-eq {ℓ} : {A : Type ℓ} (w : ℕ) (a : A) (f : ℕ → A) → put_at w a f w ≡ a
put-eq w a f = rw ((eqb_iff w w).1 refl)

pub put-other {ℓ} : {A : Type ℓ} (w v : ℕ) (a : A) (f : ℕ → A) → w ≢ v → put_at w a f v ≡ f v
put-other w v a f h = ground (arith, eqb_iff w v)

module _ (n : ℕ) (o : ℕ → Bool) (t : ℕ → Option Thread) (system : System)
    (h : IsSound n o t system) where
  -- `accept`
  pub accept-IsSound : IsSound (n + 1) (put_at n true o) t system
  accept-IsSound = record {
    fresh = λ w later. ground (arith, eqb_iff n w, h.fresh w);
    opened = λ w thread e. ground (arith, eqb_iff n w, h.opened w thread e);
    hooked = h.hooked;
  }

  pub no_thread : (w : ℕ) → o w ≡ false → t w ≡ none
  no_thread w closed = missing (t w) (h.opened w)
    where
      missing : (a : Option Thread) → ((thread : Thread) → a ≡ some thread → o w ≡ true) → a ≡ none
      missing none open_if = refl
      missing (some thread) open_if = absurd (cc (open_if thread refl))

  waits_before :
      (w v : ℕ) (a : Option Thread)
      → ((kind : Kind) → a ≢ some (thread_in kind waiting))
      → Waits v (put_at w a t) system
      → Waits v t system
  waits_before w v a calm waits = record {
    kind = waits.kind;
    thread = ground (arith, eqb_iff w v, calm waits.kind, waits.thread);
    locked = waits.locked;
  }

  -- a thread of an open socket, or its end, where it does not wait
  pub put-IsSound :
      (w : ℕ) (a : Option Thread)
      → o w ≡ true
      → ((kind : Kind) → a ≢ some (thread_in kind waiting))
      → IsSound n o (put_at w a t) system
  put-IsSound w a live calm = record {
    fresh = h.fresh;
    opened = λ v other e. ground (arith, eqb_iff w v, h.opened v other);
    hooked = λ v waits. h.hooked v (waits_before w v a calm waits);
  }

  -- a socket without a thread is closed
  pub close-IsSound : (w : ℕ) → t w ≡ none → IsSound n (put_at w false o) t system
  close-IsSound w gone = record {
    fresh = λ v later. ground (arith, eqb_iff w v, h.fresh v);
    opened = λ v other e. ground (arith, eqb_iff w v, h.opened v other);
    hooked = h.hooked;
  }

  -- a thread leaves its loop
  pub end-IsSound : (w : ℕ) → IsSound n (put_at w false o) (put_at w none t) system
  end-IsSound w = record {
    fresh = λ v later. ground (arith, eqb_iff w v, h.fresh v);
    opened = λ v other e. ground (arith, eqb_iff w v, h.opened v other);
    hooked = λ v waits. h.hooked v (waits_before w v none (λ kind e. cc) waits);
  }

  -- the map of the storage changes
  pub traffic-IsSound :
      (m : TrafficMap)
      → IsSound n o t
          (record system { storage = record system.storage { application_traffic = m } })
  traffic-IsSound m = record {
    fresh = h.fresh;
    opened = h.opened;
    hooked = λ w waits.
        let (flag, known) =
          h.hooked w (record { kind = waits.kind; thread = waits.thread; locked = waits.locked }) in
        (
          flag,
          record {
            api_mutex = known.api_mutex;
            api_traffic_map = known.api_traffic_map;
            api_interval = known.api_interval;
            locked = known.locked;
          },
        );
  }

  -- a packet is counted, where the reference is valid
  pub count-IsSound :
      (ref : LineRef) (pkt : Packet)
      → Ensures
          (λ storage. IsSound n o t (record system { storage = storage }))
          (TrafficStorage.count ref pkt system.storage)
  unfolding TrafficStorage.count
  count-IsSound ref pkt =
      let P = λ (storage : TrafficStorage). IsSound n o t (record system { storage = storage }) in
      elim (Bool-cases (eqb ref.generation system.storage.generation)) [
        | inl valid ↦
            rw valid (elim (Option-cases (lookup ref.name system.storage.application_traffic)) [
              | inl missing ↦ rw missing (λ storage e. cc)
              | inr (line, found) ↦ rw found (Ensures-ok P _ (traffic-IsSound _))
            ])
        | inr dangling ↦ rw dangling (λ storage e. cc)
      ]

  -- `awaitSnapshot` accepts a thread
  pub ask-IsSound :
      (w : ℕ) (kind : Kind)
      → o w ≡ true
      → system.storage.api_waiting ≡ false
      → IsSound n o (put_at w (some (thread_in kind waiting)) t) (record system {
        storage = record system.storage {
          api_waiting = true;
          api_mutex = some w;
          api_traffic_map = some w;
          api_interval = some w;
        };
        watchers =
            TrafficStorage.set_watcher w
              (record (system.watchers w) { locked = true })
              system.watchers;
      })
  ask-IsSound w kind live free = record {
    fresh = h.fresh;
    opened = λ v other e. ground (arith, eqb_iff w v, h.opened v other);
    hooked = λ v waits. elim (Bool-cases (eqb w v)) [
      | inl own ↦
          let same = (eqb_iff w v).0 own in
          (
            refl,
            record {
              api_mutex = ap some same;
              api_traffic_map = ap some same;
              api_interval = ap some same;
              locked = waits.locked;
            },
          )
      | inr other ↦ absurd (
          cc (
            free,
            (h.hooked v (record {
              kind = waits.kind;
              thread = ground (arith, other, waits.thread);
              locked = ground (arith, other, waits.locked);
            })).0,
          ))
    ];
  }

  -- after a deposit no thread waits with a locked mutex
  pub deposit-Wakes :
      Ensures (λ after. (w : ℕ) → ¬ Waits w t after) (System.step System.deposit system)
  unfolding System.step TrafficStorage.deposit
  deposit-Wakes =
      Ensures-ok (λ after. (w : ℕ) → ¬ Waits w t after) _
        λ w waits. elim (Bool-cases system.storage.api_waiting) [
          | inl flag ↦
              let before : Waits w t system = record {
                kind = waits.kind;
                thread = waits.thread;
                locked =
                    deliver_locked w system.storage system.watchers
                      (ground (arith, flag, waits.locked));
              } in
              let known = (h.hooked w before).1 in
              let given =
                deliver_lem w w system.storage system.watchers known.api_mutex known.api_traffic_map
                  known.api_interval in
              ground (arith, flag, waits.locked, given, eqb_iff w w)
          | inr free ↦ absurd (
              cc (
                free,
                (h.hooked w (record {
                  kind = waits.kind;
                  thread = waits.thread;
                  locked = ground (arith, free, waits.locked);
                })).0,
              ))
        ]

  -- a deposit
  pub deposit-IsSound : Ensures (IsSound n o t) (System.step System.deposit system)
  deposit-IsSound after stepped = record {
    fresh = h.fresh;
    opened = h.opened;
    hooked = λ w waits. absurd (deposit-Wakes after stepped w waits);
  }
