-- ===== src/Api/Server/Rounds.antt =====
-- The steps of the threads of api/APIController.cpp and of those around it.
use ntmd.Base.{ℕ, Bool, true, false, Option, none, some, List, [], ◌∷◌, ◌++◌, Text, if◌then◌else◌}
use ntmd.Base.Int.{ℤ, pos}
use ntmd.Base.Outcome.{Outcome}
use ntmd.Util.HumanReadable.{Double}
use ntmd.Traffic.DbController.{insert_application_traffic}
use ntmd.Traffic.Sqlite.{Sqlite}
use ntmd.Traffic.System
use ntmd.Traffic.System.{System}
use ntmd.Traffic.TrafficLine.{TrafficMap}
use ntmd.Traffic.TrafficStorage
use ntmd.Traffic.TrafficStorage.{LineRef}
use ntmd.Net.Packet.{Packet, PcapHeader, parse}
use ntmd.Proc.FileSystem.{FileSystem}
use ntmd.Proc.ProcessIndex.{Process}
use ntmd.Proc.ProcessResolver.{ProcessResolver, resolve}
use ntmd.Api.Json.{Json}
use ntmd.Api.Requests.{Reply, handle}
use ntmd.Api.Handlers.{Response, message, aborted, stream, respond, live_round, live_text_round}
use ntmd.Api.Server.{
  Course, goes_on, uncaught, follow, course_of, Kind, text, json, welcoming, asking, waiting,
  Server, put_at, Event, captured, counted, deposit, listen_failed, accept_failed, request, welcome,
  ask, update, kind_in, quiet, thread_of, quiet_kind, welcome_text, send, close, end_thread,
  set_phase, accept,
}

-- the text of a round of `live`, or the exception of `dump`
unfoldable pub json_text : Option (Text × Bool) → Option (Course Text)
json_text none = some uncaught
json_text (some (bytes, again)) = some (goes_on bytes)

-- the text of a round of `liveText`
unfoldable pub line_text : Option (Outcome (Text × Bool)) → Option (Course Text)
line_text none = none
line_text (some outcome) = some (follow (course_of outcome) λ r. goes_on r.0)

module _ (S : Sqlite) where
  -- `add` up to its lock, for the process that the resolver found
  unfoldable pub resolved : Packet → ProcessResolver × Process → Server S → Server S
  unfolding TrafficStorage.locate
  resolved pkt (resolver, process) s =
      let (storage, ref) = TrafficStorage.locate process.comm s.system.storage in
      record s {
        system = record s.system { storage = storage };
        resolver = resolver;
        pending = some (ref, pkt);
      }

  -- `pktCallback` up to the lock of `add`; a thread of the sniffer that is in front of the lock
  -- captures nothing
  unfoldable pub callback :
      FileSystem → PcapHeader → List ℕ → Option (LineRef × Packet) → Server S → Course (Server S)
  unfolding resolved
  callback fs hdr raw (some held) s = goes_on s
  callback fs hdr raw none s = follow (course_of (parse hdr raw s.ip_list)) λ pkt.
      if pkt.discard
      then goes_on s
      else follow (course_of (resolve fs pkt s.resolver)) λ answer. goes_on (resolved pkt answer s)

  -- the rest of `add`, under the lock
  unfoldable pub count_pending : Option (LineRef × Packet) → Server S → Course (Server S)
  count_pending none s = goes_on s
  count_pending (some (ref, pkt)) s =
      follow (course_of (TrafficStorage.count ref pkt s.system.storage)) λ storage.
        goes_on (record s { system = record s.system { storage = storage }; pending = none })

  module _ (J : Json) where
    -- what a handler, or the code for an error, sends to the connection `w`
    unfoldable pub answered : ℕ → Bool → Reply → Response → Server S → Course (Server S)
    unfolding send
    answered w reached reply (message bytes) s =
        follow (send S (quiet reply) reached w bytes s) λ s'. goes_on (close S w s')
    answered w reached reply aborted s = uncaught
    answered w reached reply stream s =
        goes_on (record s { threads = put_at w (thread_of reply) s.threads })

    unfoldable pub answer : ℕ → ℤ → Bool → Reply → Server S → Course (Server S)
    unfolding answered
    answer w start_of_day reached reply s =
        answered w reached reply (respond J S start_of_day s.system.storage s.db reply) s

    -- a round of the server that accepts a connection, where the thread of the server runs
    unfoldable pub served : Option ℕ → Option Text → ℤ → Bool → Server S → Course (Server S)
    unfolding answer
    served none bytes start_of_day reached s = goes_on s
    served (some port) bytes start_of_day reached s =
        follow (course_of (handle bytes))
          λ reply. answer s.next start_of_day reached reply (accept S s)

    module _ (D : Double) (fuel : ℕ) where
      -- what a round of a stream sends; `none` is a loop of `liveText` that does not end
      unfoldable pub round_text : Kind → Bool → TrafficMap → ℤ → Option (Course Text)
      unfolding json_text line_text
      round_text json accepted traffic interval = json_text (live_round J accepted traffic interval)
      round_text text accepted traffic interval =
          line_text (live_text_round D fuel accepted traffic interval)

      -- the message to a client that `awaitSnapshot` refuses
      unfoldable pub refused : ℕ → Bool → Kind → Option (Course Text) → Server S → Course (Server S)
      unfolding send
      refused w reached kind none s = goes_on s
      refused w reached kind (some course) s = follow course λ bytes.
          follow (send S (quiet_kind kind) reached w bytes s) λ s'. goes_on (end_thread S w s')

      -- a call of `awaitSnapshot`
      unfoldable pub asked : ℕ → Bool → Kind → Server S → Course (Server S)
      unfolding refused round_text TrafficStorage.await_snapshot
      asked w reached kind s =
          let (accepted, storage, watchers) =
            TrafficStorage.await_snapshot w s.system.storage s.system.watchers in
          if accepted
          then goes_on (
              set_phase S w kind waiting
                (record s { system = record s.system { storage = storage; watchers = watchers } }))
          else refused w reached kind (round_text kind false [] (pos 0)) s

      -- the message with the traffic
      unfoldable pub streamed :
          ℕ → Bool → Kind → Option (Course Text) → Server S → Course (Server S)
      streamed w reached kind none s = goes_on s
      streamed w reached kind (some course) s = follow course λ bytes.
          if reached
          then goes_on (set_phase S w kind asking (record s { sent = s.sent ++ (w, bytes) ∷ [] }))
          else goes_on (end_thread S w s)

      -- the rest of a round, when the mutex of the thread is unlocked
      unfoldable pub updated : ℕ → Bool → Kind → Server S → Course (Server S)
      unfolding streamed round_text
      updated w reached kind s =
          let watcher = s.system.watchers w in
          if watcher.locked
          then goes_on s
          else streamed w reached kind (round_text kind true watcher.traffic watcher.interval) s

      -- a step of a thread, where it is in the phase for it
      unfoldable pub welcomed : ℕ → Bool → Option Kind → Server S → Course (Server S)
      welcomed w reached none s = goes_on s
      welcomed w reached (some kind) s =
          if reached
          then goes_on
              (set_phase S w kind asking (record s { sent = s.sent ++ (w, welcome_text) ∷ [] }))
          else goes_on (record s { threads = put_at w none s.threads })

      unfoldable pub asks : ℕ → Bool → Option Kind → Server S → Course (Server S)
      unfolding asked
      asks w reached none s = goes_on s
      asks w reached (some kind) s = asked w reached kind s

      unfoldable pub updates : ℕ → Bool → Option Kind → Server S → Course (Server S)
      unfolding updated
      updates w reached none s = goes_on s
      updates w reached (some kind) s = updated w reached kind s

      unfoldable pub step : Event → Server S → Course (Server S)
      unfolding callback count_pending served welcomed asks updates System.step
      step (captured fs hdr raw) s = callback fs hdr raw s.pending s
      step counted s = count_pending s.pending s
      step (deposit timestamp) s =
          follow (course_of (System.step System.deposit s.system)) λ system. goes_on (record s {
            system = system;
            db = insert_application_traffic S timestamp s.system.storage.application_traffic s.db;
          })
      step listen_failed s = goes_on s
      step accept_failed s = goes_on s
      step (request bytes start_of_day reached) s = served s.serving bytes start_of_day reached s
      step (welcome w reached) s = welcomed w reached (kind_in welcoming (s.threads w)) s
      step (ask w reached) s = asks w reached (kind_in asking (s.threads w)) s
      step (update w reached) s = updates w reached (kind_in waiting (s.threads w)) s

      unfoldable pub run : List Event → Server S → Course (Server S)
      unfolding step
      run [] s = goes_on s
      run (event ∷ events) s = follow (step event s) (run events)
