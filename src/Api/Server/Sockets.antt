-- ===== src/Api/Server/Sockets.antt =====
-- The connections of the server of api/APIController.cpp: which of them are open.
use ntmd.Base.{
  ℕ, ◌≡◌, ◌≢◌, ◌∙◌, ap, subst, refl, sym, arith, Bool, true, false, ◌||◌, Option, none, some, List,
  [], ◌∷◌, Text, eqb, eqb_iff, if◌then◌else◌, Bool-cases, inl, inr,
}
use ntmd.Base.Int.{ℤ, pos}
use ntmd.Util.HumanReadable.{Double}
use ntmd.Net.IpList.{IpList}
use ntmd.Net.Packet.{Packet, PcapHeader, parse}
use ntmd.Proc.FileSystem.{FileSystem}
use ntmd.Proc.ProcessResolver.{ProcessResolver, resolve}
use ntmd.Traffic.TrafficStorage.{LineRef}
use ntmd.Traffic.Sqlite.{Sqlite}
use ntmd.Traffic.System
use ntmd.Traffic.TrafficStorage
use ntmd.Traffic.System.Hooked.{await_refused, await_accepted}
use ntmd.Traffic.TrafficStorage.{TrafficStorage, Watchers}
use ntmd.Api.Json.{Json}
use ntmd.Api.Requests.{
  Reply, live_text, live, snapshot, traffic_daily, traffic_since, traffic_between, error, handle,
}
use ntmd.Api.Handlers.{Response, message, aborted, stream, respond, sent}
use ntmd.Api.Server.{
  Course, goes_on, Kind, Thread, Server, SetUp, Event, captured, counted, deposit, listen_failed,
  accept_failed, request, welcome, ask, update, Phase, welcoming, asking, waiting, thread_in,
  kind_in, quiet, thread_of, quiet_kind, course_of, send, close, end_thread, set_phase, accept,
  start,
}
use ntmd.Api.Server.Rounds.{
  callback, resolved, count_pending, answered, answer, round_text, refused, asked, streamed,
  updated, welcomed, asks, updates, served, step, run,
}
use ntmd.Api.Server.Going.{Goes-if, Goes, Goes-on, Goes-follow}
use ntmd.Api.Server.Sound.{put-eq, put-other, kind_in_lem, no_thread}
use ntmd.Api.Server.Steps.{Sound, step-Sound, start-Sound, Goes-send}

sent-no_stream : (o : Option Text) {P : Type 0} → sent o ≡ stream → P
sent-no_stream none e = absurd (cc e)
sent-no_stream (some bytes) e = absurd (cc e)

abbrev pub has_thread : Option Thread → Bool
has_thread none = false
has_thread (some thread) = true

-- a step in which the welcome of `liveText` does not reach its client
abbrev pub unwelcome : ℕ → Event → Bool
unwelcome w (welcome v reached) = if reached then false else eqb v w
unwelcome w _ = false

abbrev pub any_unwelcome : ℕ → List Event → Bool
any_unwelcome w [] = false
any_unwelcome w (event ∷ events) = unwelcome w event || any_unwelcome w events

-- A handler that detaches a thread has one.
stream-has_thread :
    (J : Json) (S : Sqlite) (start_of_day : ℤ) (storage : TrafficStorage) (db : S.Db)
    (reply : Reply)
    → respond J S start_of_day storage db reply ≡ stream
    → has_thread (thread_of reply) ≡ true
unfolding respond thread_of
stream-has_thread J S start_of_day storage db live_text e = refl
stream-has_thread J S start_of_day storage db live e = refl
stream-has_thread J S start_of_day storage db snapshot e = sent-no_stream _ e
stream-has_thread J S start_of_day storage db traffic_daily e = sent-no_stream _ e
stream-has_thread J S start_of_day storage db (traffic_since ts) e = sent-no_stream _ e
stream-has_thread J S start_of_day storage db (traffic_between a b) e = sent-no_stream _ e
stream-has_thread J S start_of_day storage db (error reason) e = sent-no_stream _ e

neither : (a b : Bool) → (a || b) ≡ false → (a ≡ false) × (b ≡ false)
neither true b h = absurd (cc h)
neither false b h = (refl, h)

module _ (S : Sqlite) (w : ℕ) where
  -- The connection `w` is open exactly while it has a thread.
  abbrev Tight : Server S → Type 0
  Tight s = s.is_open w ≡ has_thread (s.threads w)

  close-Tight :
      (v : ℕ) (s : Server S)
      → (v ≢ w → Tight s)
      → (v ≡ w → s.threads w ≡ none)
      → Tight (close S v s)
  close-Tight v s others own = ground (arith, eqb_iff v w, others, own)

  end-Tight : (v : ℕ) (s : Server S) → Tight s → Tight (end_thread S v s)
  end-Tight v s tight = ground (arith, eqb_iff v w, tight)

  set_phase-Tight :
      (v : ℕ) (kind before : Kind) (phase now : Phase) (s : Server S)
      → Tight s
      → s.threads v ≡ some (thread_in before now)
      → Tight (set_phase S v kind phase s)
  set_phase-Tight v kind before phase now s tight thread = elim (Bool-cases (eqb v w)) [
    | inl own ↦
        let same = (eqb_iff v w).0 own in
        tight
        ∙ ap has_thread (subst (λ x. s.threads x ≡ some (thread_in before now)) same thread)
        ∙ rw own refl
    | inr other ↦ rw other tight
  ]

  callback-Tight :
      (fs : FileSystem) (hdr : PcapHeader) (raw : List ℕ) (pending : Option (LineRef × Packet))
      (s : Server S)
      → Tight s
      → Goes Tight (callback S fs hdr raw pending s)
  unfolding callback resolved
  callback-Tight fs hdr raw (some waits) s tight = Goes-on Tight s tight
  callback-Tight fs hdr raw none s tight =
      Goes-follow Tight (course_of (parse hdr raw s.ip_list)) _ λ pkt e.
        Goes-if Tight pkt.discard _ _ (Goes-on Tight s tight) (
          Goes-follow Tight (course_of (resolve fs pkt s.resolver)) _
            λ answer e'. Goes-on Tight _ tight)

  count_pending-Tight :
      (pending : Option (LineRef × Packet)) (s : Server S)
      → Tight s
      → Goes Tight (count_pending S pending s)
  unfolding count_pending
  count_pending-Tight none s tight = Goes-on Tight s tight
  count_pending-Tight (some (ref, pkt)) s tight =
      Goes-follow Tight (course_of (TrafficStorage.count ref pkt s.system.storage)) _
        λ storage e. Goes-on Tight _ tight

  module _ (J : Json) where
    answered-Tight :
        (v : ℕ) (reached : Bool) (reply : Reply) (response : Response) (s : Server S)
        → (v ≢ w → Tight s)
        → s.is_open v ≡ true
        → s.threads v ≡ none
        → (response ≡ stream → has_thread (thread_of reply) ≡ true)
        → Goes Tight (answered S J v reached reply response s)
    unfolding answered
    answered-Tight v reached reply (message bytes) s others opened free detached =
        Goes-follow Tight (send S (quiet reply) reached v bytes s) (λ s'. goes_on (close S v s'))
          (Goes-send S (λ s'. Goes Tight (goes_on (close S v s'))) (quiet reply) reached v bytes s
            (Goes-on Tight _
              (close-Tight v s others λ same. subst (λ x. s.threads x ≡ none) same free))
            (Goes-on Tight _
              (close-Tight v s others λ same. subst (λ x. s.threads x ≡ none) same free)))
    answered-Tight v reached reply aborted s others opened free detached = λ b e. cc
    answered-Tight v reached reply stream s others opened free detached =
        Goes-on Tight _ (elim (Bool-cases (eqb v w)) [
          | inl own ↦
              subst (λ x. s.is_open x ≡ true) ((eqb_iff v w).0 own) opened
              ∙ rw own (sym (detached refl))
          | inr other ↦ rw other (others λ same. cc (other, (eqb_iff v w).1 same))
        ])

    served-Tight :
        (serving : Option ℕ) (bytes : Option Text) (start_of_day : ℤ) (reached : Bool)
        (s : Server S)
        → Sound S s
        → Tight s
        → Goes Tight (served S J serving bytes start_of_day reached s)
    unfolding served answer
    served-Tight none bytes start_of_day reached s sound tight = Goes-on Tight s tight
    served-Tight (some port) bytes start_of_day reached s sound tight =
        Goes-follow Tight (course_of (handle bytes)) _ λ reply e.
          answered-Tight s.next reached reply (respond J S start_of_day s.system.storage s.db reply)
            (accept S s) (λ other. put-other s.next w true s.is_open other ∙ tight)
            (put-eq s.next true s.is_open)
            (no_thread s.next s.is_open s.threads s.system sound s.next
              (sound.fresh s.next (omega arith)))
            (stream-has_thread J S start_of_day s.system.storage s.db reply)

    module _ (D : Double) (fuel : ℕ) where
      refused-Tight :
          (v : ℕ) (reached : Bool) (kind : Kind) (o : Option (Course Text)) (s : Server S)
          → Tight s
          → Goes Tight (refused S J D fuel v reached kind o s)
      unfolding refused
      refused-Tight v reached kind none s tight = Goes-on Tight s tight
      refused-Tight v reached kind (some course) s tight =
          let ended = end-Tight v s tight in
          Goes-follow Tight course _ λ bytes e.
            Goes-follow Tight (send S (quiet_kind kind) reached v bytes s)
              (λ s'. goes_on (end_thread S v s'))
              (Goes-send S (λ s'. Goes Tight (goes_on (end_thread S v s'))) (quiet_kind kind)
                reached v bytes s (Goes-on Tight _ ended) (Goes-on Tight _ ended))

      streamed-Tight :
          (v : ℕ) (reached : Bool) (kind : Kind) (o : Option (Course Text)) (s : Server S)
          → Tight s
          → s.threads v ≡ some (thread_in kind waiting)
          → Goes Tight (streamed S J D fuel v reached kind o s)
      unfolding streamed
      streamed-Tight v reached kind none s tight thread = Goes-on Tight s tight
      streamed-Tight v true kind (some course) s tight thread =
          Goes-follow Tight course _
            λ bytes e. Goes-on Tight _ (set_phase-Tight v kind kind asking waiting s tight thread)
      streamed-Tight v false kind (some course) s tight thread =
          Goes-follow Tight course _ λ bytes e. Goes-on Tight _ (end-Tight v s tight)

      asks-Tight :
          (v : ℕ) (reached : Bool) (o : Option Kind) (s : Server S)
          → Tight s
          → ((kind : Kind) → o ≡ some kind → s.threads v ≡ some (thread_in kind asking))
          → Goes Tight (asks S J D fuel v reached o s)
      unfolding asks asked
      asks-Tight v reached none s tight thread = Goes-on Tight s tight
      asks-Tight v reached (some kind) s tight thread =
          elim (Bool-cases s.system.storage.api_waiting) [
            | inl flag ↦
                rw (await_refused v s.system.storage s.system.watchers flag) (
                  refused-Tight v reached kind (round_text S J D fuel kind false [] (pos 0)) s
                    tight)
            | inr calm ↦ rw (await_accepted v s.system.storage s.system.watchers calm) (
                Goes-on Tight _
                  (set_phase-Tight v kind kind waiting asking s tight (thread kind refl)))
          ]

      updates-Tight :
          (v : ℕ) (reached : Bool) (o : Option Kind) (s : Server S)
          → Tight s
          → ((kind : Kind) → o ≡ some kind → s.threads v ≡ some (thread_in kind waiting))
          → Goes Tight (updates S J D fuel v reached o s)
      unfolding updates updated
      updates-Tight v reached none s tight thread = Goes-on Tight s tight
      updates-Tight v reached (some kind) s tight thread =
          elim (Bool-cases (s.system.watchers v).locked) [
            | inl locked ↦ rw locked (Goes-on Tight s tight)
            | inr free ↦ rw free (
                streamed-Tight v reached kind
                  (round_text S J D fuel kind true (s.system.watchers v).traffic
                    (s.system.watchers v).interval)
                  s tight (thread kind refl))
          ]

      welcomed-Tight :
          (v : ℕ) (reached : Bool) (o : Option Kind) (s : Server S)
          → Tight s
          → ((kind : Kind) → o ≡ some kind → s.threads v ≡ some (thread_in kind welcoming))
          → unwelcome w (welcome v reached) ≡ false
          → Goes Tight (welcomed S J D fuel v reached o s)
      unfolding welcomed
      welcomed-Tight v reached none s tight thread kept = Goes-on Tight s tight
      welcomed-Tight v true (some kind) s tight thread kept =
          Goes-on Tight _ (set_phase-Tight v kind kind asking welcoming s tight (thread kind refl))
      welcomed-Tight v false (some kind) s tight thread kept = Goes-on Tight _ (rw kept tight)

      step-Tight :
          (event : Event) (s : Server S)
          → Sound S s
          → Tight s
          → unwelcome w event ≡ false
          → Goes Tight (step S J D fuel event s)
      unfolding step
      step-Tight (captured fs hdr raw) s sound tight kept =
          callback-Tight fs hdr raw s.pending s tight
      step-Tight counted s sound tight kept = count_pending-Tight s.pending s tight
      step-Tight (deposit timestamp) s sound tight kept =
          Goes-follow Tight (course_of (System.step System.deposit s.system)) _
            λ system e. Goes-on Tight _ tight
      step-Tight listen_failed s sound tight kept = Goes-on Tight s tight
      step-Tight accept_failed s sound tight kept = Goes-on Tight s tight
      step-Tight (request bytes start_of_day reached) s sound tight kept =
          served-Tight s.serving bytes start_of_day reached s sound tight
      step-Tight (welcome v reached) s sound tight kept =
          welcomed-Tight v reached (kind_in welcoming (s.threads v)) s tight
            (kind_in_lem welcoming (s.threads v)) kept
      step-Tight (ask v reached) s sound tight kept =
          asks-Tight v reached (kind_in asking (s.threads v)) s tight
            (kind_in_lem asking (s.threads v))
      step-Tight (update v reached) s sound tight kept =
          updates-Tight v reached (kind_in waiting (s.threads v)) s tight
            (kind_in_lem waiting (s.threads v))

      events-Tight :
          (events : List Event) (s : Server S)
          → Sound S s
          → Tight s
          → any_unwelcome w events ≡ false
          → Goes Tight (run S J D fuel events s)
      unfolding run
      events-Tight [] s sound tight kept = Goes-on Tight s tight
      events-Tight (event ∷ events) s sound tight kept =
          Goes-follow Tight (step S J D fuel event s) (run S J D fuel events) λ t e.
            events-Tight events t (step-Sound S J D fuel event s sound t e)
              (step-Tight event s sound tight (neither (unwelcome w event) _ kept).0 t e)
              (neither (unwelcome w event) _ kept).1

-- No connection is forgotten, and none is closed too early: in any run of the daemon, an accepted
-- connection is open exactly while a thread streams to it, unless the welcome of `liveText` did not
-- reach its client.
pub run-Tight :
    (S : Sqlite) (J : Json) (D : Double) (fuel : ℕ) (answers : SetUp) (port : ℕ) (interval : ℤ)
    (watchers : Watchers) (db : S.Db) (l : IpList) (r : ProcessResolver) (events : List Event)
    (s : Server S) (w : ℕ)
    → run S J D fuel events (start S answers port interval watchers db l r) ≡ goes_on s
    → any_unwelcome w events ≡ false
    → s.is_open w ≡ has_thread (s.threads w)
run-Tight S J D fuel answers port interval watchers db l r events s w ran kept =
    events-Tight S w J D fuel events (start S answers port interval watchers db l r)
      (start-Sound S answers port interval watchers db l r) refl kept s ran
