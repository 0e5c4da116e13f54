-- ===== src/Api/Server/Steps.antt =====
-- Every step of the server of api/APIController.cpp keeps the order between connections and threads.
use ntmd.Base.{
  ℕ, ◌≡◌, ◌≢◌, refl, arith, Bool, true, false, Option, none, some, List, [], ◌∷◌, ◌++◌, Text,
  Bool-cases, inl, inr,
}
use ntmd.Base.Int.{ℤ, pos}
use ntmd.Util.HumanReadable.{Double}
use ntmd.Net.IpList.{IpList}
use ntmd.Net.Packet.{Packet, PcapHeader, parse}
use ntmd.Proc.FileSystem.{FileSystem}
use ntmd.Proc.ProcessResolver.{ProcessResolver, resolve}
use ntmd.Traffic.TrafficStorage.{LineRef}
use ntmd.Traffic.Sqlite.{Sqlite}
use ntmd.Traffic.System
use ntmd.Traffic.TrafficStorage
use ntmd.Traffic.System.{System}
use ntmd.Traffic.TrafficStorage.{Watchers}
use ntmd.Traffic.System.Hooked.{await_refused, await_accepted}
use ntmd.Api.Json.{Json}
use ntmd.Api.Requests.{Reply, handle}
use ntmd.Api.Handlers.{Response, message, aborted, stream, respond}
use ntmd.Api.Server.{
  Course, goes_on, course_of, Kind, Phase, welcoming, asking, waiting, thread_in, Server, SetUp,
  Event, captured, counted, deposit, listen_failed, accept_failed, request, welcome, ask, update,
  kind_in, quiet, thread_of, quiet_kind, start, send, close, end_thread, set_phase, accept,
}
use ntmd.Api.Server.Rounds.{
  callback, resolved, count_pending, answered, answer, round_text, refused, asked, streamed,
  updated, welcomed, asks, updates, served, step, run,
}
use ntmd.Api.Server.Sound.{
  IsSound, kind_in_lem, accept-IsSound, put-IsSound, close-IsSound, end-IsSound, traffic-IsSound,
  count-IsSound, ask-IsSound, deposit-IsSound, no_thread, put-eq,
}
use ntmd.Api.Server.Going.{Goes-if, Goes, Goes-on, Goes-follow, Goes-course_of}

thread_of-calm : (reply : Reply) (kind : Kind) → thread_of reply ≢ some (thread_in kind waiting)
unfolding thread_of
thread_of-calm Reply.live_text kind e = ground (arith, e)
thread_of-calm Reply.live kind e = cc
thread_of-calm Reply.snapshot kind e = cc
thread_of-calm Reply.traffic_daily kind e = cc
thread_of-calm (Reply.traffic_since ts) kind e = cc
thread_of-calm (Reply.traffic_between first last) kind e = cc
thread_of-calm (Reply.error reason) kind e = cc

module _ (S : Sqlite) where
  abbrev pub Sound : Server S → Type 0
  Sound s = IsSound s.next s.is_open s.threads s.system

  -- What `send` leaves: only `sent` changes.
  pub Goes-send {κ} :
      (P : Server S → Type κ) (quietly reached : Bool) (w : ℕ) (bytes : Text) (s : Server S)
      → P s
      → P (record s { sent = s.sent ++ (w, bytes) ∷ [] })
      → Goes P (send S quietly reached w bytes s)
  unfolding send
  Goes-send P quietly true w bytes s h h' = Goes-on P _ h'
  Goes-send P true false w bytes s h h' = Goes-on P s h
  Goes-send P false false w bytes s h h' = λ b e. cc

  close-Sound :
      (w : ℕ) (s : Server S) → Sound s → s.threads w ≡ none → Goes Sound (goes_on (close S w s))
  close-Sound w s sound free =
      Goes-on Sound (close S w s) (close-IsSound s.next s.is_open s.threads s.system sound w free)

  end-Sound : (w : ℕ) (s : Server S) → Sound s → Goes Sound (goes_on (end_thread S w s))
  end-Sound w s sound =
      Goes-on Sound (end_thread S w s) (end-IsSound s.next s.is_open s.threads s.system sound w)

  asking-Sound :
      (w : ℕ) (kind : Kind) (s : Server S)
      → Sound s
      → s.is_open w ≡ true
      → Goes Sound (goes_on (set_phase S w kind asking s))
  asking-Sound w kind s sound live = Goes-on Sound _ (
      put-IsSound s.next s.is_open s.threads s.system sound w (some (thread_in kind asking)) live
        λ k same. cc same)

  callback-Sound :
      (fs : FileSystem) (hdr : PcapHeader) (raw : List ℕ) (pending : Option (LineRef × Packet))
      (s : Server S)
      → Sound s
      → Goes Sound (callback S fs hdr raw pending s)
  unfolding callback resolved TrafficStorage.locate
  callback-Sound fs hdr raw (some waits) s sound = Goes-on Sound s sound
  callback-Sound fs hdr raw none s sound =
      Goes-follow Sound (course_of (parse hdr raw s.ip_list)) _ λ pkt e.
        Goes-if Sound pkt.discard _ _ (Goes-on Sound s sound) (
          Goes-follow Sound (course_of (resolve fs pkt s.resolver)) _ λ answer e'.
            Goes-on Sound _ (traffic-IsSound s.next s.is_open s.threads s.system sound _))

  count_pending-Sound :
      (pending : Option (LineRef × Packet)) (s : Server S)
      → Sound s
      → Goes Sound (count_pending S pending s)
  unfolding count_pending
  count_pending-Sound none s sound = Goes-on Sound s sound
  count_pending-Sound (some (ref, pkt)) s sound =
      Goes-follow Sound (course_of (TrafficStorage.count ref pkt s.system.storage)) _ λ storage e.
        Goes-on Sound _ (
          Goes-course_of
            (λ st. IsSound s.next s.is_open s.threads (record s.system { storage = st }))
            (TrafficStorage.count ref pkt s.system.storage)
            (count-IsSound s.next s.is_open s.threads s.system sound ref pkt) storage e)

  module _ (J : Json) where
    answered-Sound :
        (w : ℕ) (reached : Bool) (reply : Reply) (response : Response) (s : Server S)
        → Sound s
        → s.is_open w ≡ true
        → s.threads w ≡ none
        → Goes Sound (answered S J w reached reply response s)
    unfolding answered
    answered-Sound w reached reply (message bytes) s sound live free =
        Goes-follow Sound (send S (quiet reply) reached w bytes s) (λ s'. goes_on (close S w s'))
          (Goes-send (λ s'. Goes Sound (goes_on (close S w s'))) (quiet reply) reached w bytes s
            (close-Sound w s sound free) (close-Sound w _ sound free))
    answered-Sound w reached reply aborted s sound live free = λ b e. cc
    answered-Sound w reached reply stream s sound live free = Goes-on Sound _ (
        put-IsSound s.next s.is_open s.threads s.system sound w (thread_of reply) live
          (thread_of-calm reply))

    served-Sound :
        (serving : Option ℕ) (bytes : Option Text) (start_of_day : ℤ) (reached : Bool)
        (s : Server S)
        → Sound s
        → Goes Sound (served S J serving bytes start_of_day reached s)
    unfolding served answer
    served-Sound none bytes start_of_day reached s sound = Goes-on Sound s sound
    served-Sound (some port) bytes start_of_day reached s sound =
        Goes-follow Sound (course_of (handle bytes)) _ λ reply e.
          answered-Sound s.next reached reply (respond J S start_of_day s.system.storage s.db reply)
            (accept S s) (accept-IsSound s.next s.is_open s.threads s.system sound)
            (put-eq s.next true s.is_open)
            (no_thread s.next s.is_open s.threads s.system sound s.next
              (sound.fresh s.next (omega arith)))

    module _ (D : Double) (fuel : ℕ) where
      refused-Sound :
          (w : ℕ) (reached : Bool) (kind : Kind) (o : Option (Course Text)) (s : Server S)
          → Sound s
          → Goes Sound (refused S J D fuel w reached kind o s)
      unfolding refused
      refused-Sound w reached kind none s sound = Goes-on Sound s sound
      refused-Sound w reached kind (some course) s sound = Goes-follow Sound course _ λ bytes e.
          Goes-follow Sound (send S (quiet_kind kind) reached w bytes s)
            (λ s'. goes_on (end_thread S w s'))
            (Goes-send (λ s'. Goes Sound (goes_on (end_thread S w s'))) (quiet_kind kind) reached w
              bytes s (end-Sound w s sound) (end-Sound w _ sound))

      asked-Sound :
          (w : ℕ) (reached : Bool) (kind : Kind) (s : Server S)
          → Sound s
          → s.is_open w ≡ true
          → Goes Sound (asked S J D fuel w reached kind s)
      unfolding asked
      asked-Sound w reached kind s sound live = elim (Bool-cases s.system.storage.api_waiting) [
        | inl flag ↦
            rw (await_refused w s.system.storage s.system.watchers flag)
              (refused-Sound w reached kind (round_text S J D fuel kind false [] (pos 0)) s sound)
        | inr calm ↦ rw (await_accepted w s.system.storage s.system.watchers calm) (
            Goes-on Sound _
              (ask-IsSound s.next s.is_open s.threads s.system sound w kind live calm))
      ]

      streamed-Sound :
          (w : ℕ) (reached : Bool) (kind : Kind) (o : Option (Course Text)) (s : Server S)
          → Sound s
          → s.is_open w ≡ true
          → Goes Sound (streamed S J D fuel w reached kind o s)
      unfolding streamed
      streamed-Sound w reached kind none s sound live = Goes-on Sound s sound
      streamed-Sound w true kind (some course) s sound live =
          Goes-follow Sound course _ λ bytes e. asking-Sound w kind _ sound live
      streamed-Sound w false kind (some course) s sound live =
          Goes-follow Sound course _ λ bytes e. end-Sound w s sound

      updated-Sound :
          (w : ℕ) (reached : Bool) (kind : Kind) (s : Server S)
          → Sound s
          → s.is_open w ≡ true
          → Goes Sound (updated S J D fuel w reached kind s)
      unfolding updated
      updated-Sound w reached kind s sound live = elim (Bool-cases (s.system.watchers w).locked) [
        | inl locked ↦ rw locked (Goes-on Sound s sound)
        | inr free ↦ rw free (
            streamed-Sound w reached kind
              (round_text S J D fuel kind true (s.system.watchers w).traffic
                (s.system.watchers w).interval)
              s sound live)
      ]

      welcomed-Sound :
          (w : ℕ) (reached : Bool) (o : Option Kind) (s : Server S)
          → Sound s
          → ((kind : Kind) → o ≡ some kind → s.is_open w ≡ true)
          → Goes Sound (welcomed S J D fuel w reached o s)
      unfolding welcomed
      welcomed-Sound w reached none s sound live = Goes-on Sound s sound
      welcomed-Sound w true (some kind) s sound live = asking-Sound w kind _ sound (live kind refl)
      welcomed-Sound w false (some kind) s sound live =
          Goes-on Sound _ (
            put-IsSound s.next s.is_open s.threads s.system sound w none (live kind refl) λ k e. cc)

      asks-Sound :
          (w : ℕ) (reached : Bool) (o : Option Kind) (s : Server S)
          → Sound s
          → ((kind : Kind) → o ≡ some kind → s.is_open w ≡ true)
          → Goes Sound (asks S J D fuel w reached o s)
      unfolding asks
      asks-Sound w reached none s sound live = Goes-on Sound s sound
      asks-Sound w reached (some kind) s sound live =
          asked-Sound w reached kind s sound (live kind refl)

      updates-Sound :
          (w : ℕ) (reached : Bool) (o : Option Kind) (s : Server S)
          → Sound s
          → ((kind : Kind) → o ≡ some kind → s.is_open w ≡ true)
          → Goes Sound (updates S J D fuel w reached o s)
      unfolding updates
      updates-Sound w reached none s sound live = Goes-on Sound s sound
      updates-Sound w reached (some kind) s sound live =
          updated-Sound w reached kind s sound (live kind refl)

      opened_for :
          (phase : Phase) (w : ℕ) (s : Server S)
          → Sound s
          → (kind : Kind) → kind_in phase (s.threads w) ≡ some kind
          → s.is_open w ≡ true
      opened_for phase w s sound kind e = sound.opened w _ (kind_in_lem phase (s.threads w) kind e)

      pub step-Sound :
          (event : Event) (s : Server S) → Sound s → Goes Sound (step S J D fuel event s)
      unfolding step
      step-Sound (captured fs hdr raw) s sound = callback-Sound fs hdr raw s.pending s sound
      step-Sound counted s sound = count_pending-Sound s.pending s sound
      step-Sound (deposit timestamp) s sound =
          Goes-follow Sound (course_of (System.step System.deposit s.system)) _ λ system e.
            Goes-on Sound _ (
              Goes-course_of (IsSound s.next s.is_open s.threads)
                (System.step System.deposit s.system)
                (deposit-IsSound s.next s.is_open s.threads s.system sound) system e)
      step-Sound listen_failed s sound = Goes-on Sound s sound
      step-Sound accept_failed s sound = Goes-on Sound s sound
      step-Sound (request bytes start_of_day reached) s sound =
          served-Sound s.serving bytes start_of_day reached s sound
      step-Sound (welcome w reached) s sound =
          welcomed-Sound w reached (kind_in welcoming (s.threads w)) s sound
            (opened_for welcoming w s sound)
      step-Sound (ask w reached) s sound =
          asks-Sound w reached (kind_in asking (s.threads w)) s sound (opened_for asking w s sound)
      step-Sound (update w reached) s sound =
          updates-Sound w reached (kind_in waiting (s.threads w)) s sound
            (opened_for waiting w s sound)

      pub run-Sound :
          (events : List Event) (s : Server S) → Sound s → Goes Sound (run S J D fuel events s)
      unfolding run
      run-Sound [] s sound = Goes-on Sound s sound
      run-Sound (event ∷ events) s sound =
          Goes-follow Sound (step S J D fuel event s) (run S J D fuel events)
            λ t e. run-Sound events t (step-Sound event s sound t e)

  pub start-Sound :
      (answers : SetUp) (port : ℕ) (interval : ℤ) (watchers : Watchers) (db : S.Db) (l : IpList)
      (r : ProcessResolver)
      → Sound (start S answers port interval watchers db l r)
  start-Sound answers port interval watchers db l r = record {
    fresh = λ w later. refl;
    opened = λ w thread e. cc;
    hooked = λ w waits. absurd (cc (waits.thread));
  }
