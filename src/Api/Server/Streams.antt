-- ===== src/Api/Server/Streams.antt =====
-- What a client of a live stream of api/APIController.cpp gets, in any run of the daemon.
use ntmd.Base.{
  ℕ, ◌≡◌, ◌∙◌, refl, ap, true, false, Option, some, List, [], ◌∷◌, ◌++◌, Text, eqb, eqb_iff,
  if◌then◌else◌,
}
use ntmd.Base.Int.{ℤ}
use ntmd.Util.HumanReadable.{Double}
use ntmd.Traffic.DbController.{insert_application_traffic}
use ntmd.Net.IpList.{IpList}
use ntmd.Proc.ProcessResolver.{ProcessResolver}
use ntmd.Traffic.TrafficStorage.{LineRef}
use ntmd.Traffic.Sqlite.{Sqlite}
use ntmd.Traffic.System
use ntmd.Traffic.System.Delivery.{deliver_lem}
use ntmd.Traffic.System.Hooked.{HookedBy}
use ntmd.Traffic.TrafficStorage
use ntmd.Traffic.TrafficStorage.{Watcher, Watchers}
use ntmd.Api.Json.{Json}
use ntmd.Api.Server.{
  Course, goes_on, follow, course_of, asking, waiting, thread_in, Server, SetUp, Kind, set_phase,
  Event, deposit, update, kind_in, start,
}
use ntmd.Api.Server.Rounds.{round_text, streamed, updated, updates, step, run}
use ntmd.Api.Server.Sound.{Waits}
use ntmd.Api.Server.Steps.{run-Sound, start-Sound}

if_same {ℓ} : {A : Type ℓ} (w : ℕ) (a b : A) → (if eqb w w then a else b) ≡ a
if_same w a b = rw ((eqb_iff w w).1 refl)

module _ (S : Sqlite) where
  -- What a deposit and the step of a stream behind it come to: `bytes` are sent to `w`.
  pub record Streamed (w : ℕ) (timestamp : ℤ) (bytes : Text) (s t : Server S) : Type 0 where
    pub sent : t.sent ≡ s.sent ++ (w, bytes) ∷ []
    pub db : t.db ≡ insert_application_traffic S timestamp s.system.storage.application_traffic s.db
    pub cleared : t.system.storage.application_traffic ≡ []
    pub free : t.system.storage.api_waiting ≡ false

  abbrev after_deposit : ℤ → Server S → Server S
  after_deposit timestamp s = record s {
    system = record {
      storage = (TrafficStorage.deposit s.system.storage s.system.watchers).1;
      watchers = (TrafficStorage.deposit s.system.storage s.system.watchers).2;
      deposits = s.system.deposits ++ s.system.storage.application_traffic ∷ [];
    };
    db = insert_application_traffic S timestamp s.system.storage.application_traffic s.db;
  }

  module _ (J : Json) (D : Double) (fuel : ℕ) where
    update_lem :
        (w : ℕ) (kind : Kind) (watcher : Watcher) (s : Server S) (bytes : Text)
        → s.threads w ≡ some (thread_in kind waiting)
        → s.system.watchers w ≡ watcher
        → watcher.locked ≡ false
        → round_text S J D fuel kind true watcher.traffic watcher.interval ≡ some (goes_on bytes)
        → step S J D fuel (update w true) s
          ≡ goes_on (set_phase S w kind asking (record s { sent = s.sent ++ (w, bytes) ∷ [] }))
    unfolding step updates kind_in updated streamed follow
    update_lem w kind watcher s bytes thread same free said =
        let speak = λ (o : Option (Course Text)). streamed S J D fuel w true kind o s in
        ap (λ o. updates S J D fuel w true (kind_in waiting o) s) thread
        ∙ ap
            (λ v.
              if v.locked
              then goes_on s
              else speak (round_text S J D fuel kind true v.traffic v.interval))
            same
        ∙ ap
            (λ b.
              if b
              then goes_on s
              else speak (round_text S J D fuel kind true watcher.traffic watcher.interval))
            free
        ∙ ap speak said

    woken :
        (w : ℕ) (timestamp : ℤ) (s : Server S) (waits : Waits w s.threads s.system) (bytes : Text)
        → s.system.storage.api_waiting ≡ true
        → HookedBy w s.system
        → round_text S J D fuel waits.kind true s.system.storage.application_traffic
            s.system.storage.interval
          ≡ some (goes_on bytes)
        → (t : Server S) × (run S J D fuel (deposit timestamp ∷ update w true ∷ []) s ≡ goes_on t)
          × Streamed w timestamp bytes s t
    unfolding run step follow course_of System.step TrafficStorage.deposit
    woken w timestamp s waits bytes flag known said =
        let given : TrafficStorage.deliver s.system.storage s.system.watchers w ≡ record {
          traffic = s.system.storage.application_traffic;
          interval = s.system.storage.interval;
          locked = false;
        } =
          deliver_lem w w s.system.storage s.system.watchers known.api_mutex known.api_traffic_map
            known.api_interval
          ∙ if_same w _ _ in
        let chosen =
          ap
            (λ b.
              (if b
                  then TrafficStorage.deliver s.system.storage s.system.watchers
                  else s.system.watchers)
                w)
            flag in
        (
          _,
          ap (λ course. follow course λ t. goes_on t)
              (update_lem w waits.kind _ (after_deposit timestamp s) bytes waits.thread
                (chosen ∙ given) refl said),
          record { sent = refl; db = refl; cleared = refl; free = refl },
        )

    -- A live stream, in any run of the daemon: whatever packets, connections and threads come, a
    -- thread of the API whose mutex is locked gets the next deposit. The deposit gives the traffic in
    -- memory to the database and wakes the thread, which sends the text of that traffic and the
    -- interval to its client, if there is such a text and the client still reads.
    pub run-Streamed :
        (answers : SetUp) (port : ℕ) (interval timestamp : ℤ) (watchers : Watchers) (db : S.Db)
        (l : IpList) (r : ProcessResolver) (events : List Event) (s : Server S) (w : ℕ)
        (waits : Waits w s.threads s.system) (bytes : Text)
        → run S J D fuel events (start S answers port interval watchers db l r) ≡ goes_on s
        → round_text S J D fuel waits.kind true s.system.storage.application_traffic
            s.system.storage.interval
          ≡ some (goes_on bytes)
        → (t : Server S) × (run S J D fuel (deposit timestamp ∷ update w true ∷ []) s ≡ goes_on t)
          × Streamed w timestamp bytes s t
    run-Streamed answers port interval timestamp watchers db l r events s w waits bytes ran said =
        let sound =
          run-Sound S J D fuel events (start S answers port interval watchers db l r)
            (start-Sound S answers port interval watchers db l r) s ran in
        let (flag, known) = sound.hooked w waits in woken w timestamp s waits bytes flag known said
