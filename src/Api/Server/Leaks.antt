-- ===== src/Api/Server/Leaks.antt =====
-- The connections that liveText of api/APIController.cpp leaves open.
use ntmd.Base.{
  ℕ, ◌≡◌, ◌≢◌, ◌∙◌, ap, subst, refl, sym, arith, Bool, true, false, Option, none, some, List, [],
  ◌∷◌, Text, Bool-cases, inl, inr, ◌<◌,
}
use ntmd.Base.Int.{ℤ, pos}
use ntmd.Util.HumanReadable.{Double}
use ntmd.Net.IpList.{IpList}
use ntmd.Net.Packet.{Packet, PcapHeader, parse}
use ntmd.Proc.FileSystem.{FileSystem}
use ntmd.Proc.ProcessResolver.{ProcessResolver, resolve}
use ntmd.Traffic.TrafficStorage.{LineRef}
use ntmd.Traffic.Sqlite.{Sqlite}
use ntmd.Traffic.System
use ntmd.Traffic.TrafficStorage
use ntmd.Traffic.System.Hooked.{await_refused, await_accepted}
use ntmd.Traffic.TrafficStorage.{Watchers}
use ntmd.Api.Json.{Json}
use ntmd.Api.Requests.{Reply, handle}
use ntmd.Api.Handlers.{Response, message, aborted, stream, respond, sent}
use ntmd.Api.Server.{
  Course, goes_on, Kind, Thread, Server, SetUp, Event, captured, counted, deposit, listen_failed,
  accept_failed, request, welcome, ask, update, Phase, welcoming, asking, waiting, thread_in,
  kind_in, quiet, thread_of, quiet_kind, course_of, send, close, end_thread, accept, start, follow,
  put_at, text,
}
use ntmd.Api.Server.Rounds.{
  callback, resolved, count_pending, answered, answer, round_text, refused, asked, streamed,
  updated, welcomed, asks, updates, served, step, run,
}
use ntmd.Api.Server.Going.{Goes-if, Goes, Goes-on, Goes-follow}
use ntmd.Api.Server.Sound.{put-eq, put-other, kind_in_lem}
use ntmd.Api.Server.Steps.{run-Sound, start-Sound, Goes-send}

module _ (S : Sqlite) (w : ℕ) where
  -- The connection `w` is open and nothing will close it.
  pub record Lost (s : Server S) : Type 0 where
    pub live : s.is_open w ≡ true
    pub gone : s.threads w ≡ none
    pub old : w < s.next

  close-Lost : (v : ℕ) (s : Server S) → v ≢ w → Lost s → Lost (close S v s)
  close-Lost v s other h = record {
    live = put-other v w false s.is_open other ∙ h.live;
    gone = h.gone;
    old = h.old;
  }

  put-Lost :
      (v : ℕ) (a : Option Thread) (s : Server S)
      → v ≢ w
      → Lost s
      → Lost (record s { threads = put_at v a s.threads })
  put-Lost v a s other h = record {
    live = h.live;
    gone = put-other v w a s.threads other ∙ h.gone;
    old = h.old;
  }

  end-Lost : (v : ℕ) (s : Server S) → v ≢ w → Lost s → Lost (end_thread S v s)
  end-Lost v s other h = record {
    live = put-other v w false s.is_open other ∙ h.live;
    gone = put-other v w none s.threads other ∙ h.gone;
    old = h.old;
  }

  log-Lost : (sent : List (ℕ × Text)) (s : Server S) → Lost s → Lost (record s { sent = sent })
  log-Lost sent s h = record { live = h.live; gone = h.gone; old = h.old }

  -- A connection with a thread is another one.
  thread_other :
      (phase : Phase) (v : ℕ) (s : Server S)
      → Lost s
      → (kind : Kind) → kind_in phase (s.threads v) ≡ some kind
      → v ≢ w
  thread_other phase v s h kind e same =
      cc (kind_in_lem phase (s.threads v) kind e, subst (λ x. s.threads x ≡ none) (sym same) h.gone)

  callback-Lost :
      (fs : FileSystem) (hdr : PcapHeader) (raw : List ℕ) (pending : Option (LineRef × Packet))
      (s : Server S)
      → Lost s
      → Goes Lost (callback S fs hdr raw pending s)
  unfolding callback resolved
  callback-Lost fs hdr raw (some waits) s h = Goes-on Lost s h
  callback-Lost fs hdr raw none s h =
      Goes-follow Lost (course_of (parse hdr raw s.ip_list)) _ λ pkt e.
        Goes-if Lost pkt.discard _ _ (Goes-on Lost s h) (
          Goes-follow Lost (course_of (resolve fs pkt s.resolver)) _
            λ answer e'. Goes-on Lost _ (record { live = h.live; gone = h.gone; old = h.old }))

  count_pending-Lost :
      (pending : Option (LineRef × Packet)) (s : Server S)
      → Lost s
      → Goes Lost (count_pending S pending s)
  unfolding count_pending
  count_pending-Lost none s h = Goes-on Lost s h
  count_pending-Lost (some (ref, pkt)) s h =
      Goes-follow Lost (course_of (TrafficStorage.count ref pkt s.system.storage)) _
        λ storage e. Goes-on Lost _ (record { live = h.live; gone = h.gone; old = h.old })

  module _ (J : Json) where
    answered-Lost :
        (v : ℕ) (reached : Bool) (reply : Reply) (response : Response) (s : Server S)
        → v ≢ w
        → Lost s
        → Goes Lost (answered S J v reached reply response s)
    unfolding answered
    answered-Lost v reached reply (message bytes) s other h =
        Goes-follow Lost (send S (quiet reply) reached v bytes s) (λ s'. goes_on (close S v s'))
          (Goes-send S (λ s'. Goes Lost (goes_on (close S v s'))) (quiet reply) reached v bytes s
            (Goes-on Lost _ (close-Lost v s other h))
            (Goes-on Lost _ (close-Lost v _ other (log-Lost _ s h))))
    answered-Lost v reached reply aborted s other h = λ b e. cc
    answered-Lost v reached reply stream s other h =
        Goes-on Lost _ (put-Lost v (thread_of reply) s other h)

    served-Lost :
        (serving : Option ℕ) (bytes : Option Text) (start_of_day : ℤ) (reached : Bool)
        (s : Server S)
        → Lost s
        → Goes Lost (served S J serving bytes start_of_day reached s)
    unfolding served answer
    served-Lost none bytes start_of_day reached s h = Goes-on Lost s h
    served-Lost (some port) bytes start_of_day reached s h =
        let newer : s.next ≢ w = λ same. omega (arith, h.old) in
        Goes-follow Lost (course_of (handle bytes)) _ λ reply e.
          answered-Lost s.next reached reply (respond J S start_of_day s.system.storage s.db reply)
            (accept S s) newer
            (record {
              live = put-other s.next w true s.is_open newer ∙ h.live;
              gone = h.gone;
              old = omega (arith, h.old);
            })

    module _ (D : Double) (fuel : ℕ) where
      refused-Lost :
          (v : ℕ) (reached : Bool) (kind : Kind) (o : Option (Course Text)) (s : Server S)
          → v ≢ w
          → Lost s
          → Goes Lost (refused S J D fuel v reached kind o s)
      unfolding refused
      refused-Lost v reached kind none s other h = Goes-on Lost s h
      refused-Lost v reached kind (some course) s other h = Goes-follow Lost course _ λ bytes e.
          Goes-follow Lost (send S (quiet_kind kind) reached v bytes s)
            (λ s'. goes_on (end_thread S v s'))
            (Goes-send S (λ s'. Goes Lost (goes_on (end_thread S v s'))) (quiet_kind kind) reached v
              bytes s (Goes-on Lost _ (end-Lost v s other h))
              (Goes-on Lost _ (end-Lost v _ other (log-Lost _ s h))))

      asks-Lost :
          (v : ℕ) (reached : Bool) (o : Option Kind) (s : Server S)
          → Lost s
          → ((kind : Kind) → o ≡ some kind → v ≢ w)
          → Goes Lost (asks S J D fuel v reached o s)
      unfolding asks asked
      asks-Lost v reached none s h other = Goes-on Lost s h
      asks-Lost v reached (some kind) s h other = elim (Bool-cases s.system.storage.api_waiting) [
        | inl flag ↦ rw (await_refused v s.system.storage s.system.watchers flag) (
            refused-Lost v reached kind (round_text S J D fuel kind false [] (pos 0)) s
              (other kind refl) h)
        | inr calm ↦ rw (await_accepted v s.system.storage s.system.watchers calm) (
            Goes-on Lost _ (record {
              live = h.live;
              gone =
                  put-other v w (some (thread_in kind waiting)) s.threads (other kind refl)
                  ∙ h.gone;
              old = h.old;
            }))
      ]

      streamed-Lost :
          (v : ℕ) (reached : Bool) (kind : Kind) (o : Option (Course Text)) (s : Server S)
          → v ≢ w
          → Lost s
          → Goes Lost (streamed S J D fuel v reached kind o s)
      unfolding streamed
      streamed-Lost v reached kind none s other h = Goes-on Lost s h
      streamed-Lost v true kind (some course) s other h = Goes-follow Lost course _ λ bytes e.
          Goes-on Lost _ (put-Lost v (some (thread_in kind asking)) _ other (log-Lost _ s h))
      streamed-Lost v false kind (some course) s other h =
          Goes-follow Lost course _ λ bytes e. Goes-on Lost _ (end-Lost v s other h)

      updates-Lost :
          (v : ℕ) (reached : Bool) (o : Option Kind) (s : Server S)
          → Lost s
          → ((kind : Kind) → o ≡ some kind → v ≢ w)
          → Goes Lost (updates S J D fuel v reached o s)
      unfolding updates updated
      updates-Lost v reached none s h other = Goes-on Lost s h
      updates-Lost v reached (some kind) s h other =
          elim (Bool-cases (s.system.watchers v).locked) [
            | inl locked ↦ rw locked (Goes-on Lost s h)
            | inr free ↦ rw free (
                streamed-Lost v reached kind
                  (round_text S J D fuel kind true (s.system.watchers v).traffic
                    (s.system.watchers v).interval)
                  s (other kind refl) h)
          ]

      welcomed-Lost :
          (v : ℕ) (reached : Bool) (o : Option Kind) (s : Server S)
          → Lost s
          → ((kind : Kind) → o ≡ some kind → v ≢ w)
          → Goes Lost (welcomed S J D fuel v reached o s)
      unfolding welcomed
      welcomed-Lost v reached none s h other = Goes-on Lost s h
      welcomed-Lost v true (some kind) s h other =
          Goes-on Lost _
            (put-Lost v (some (thread_in kind asking)) _ (other kind refl) (log-Lost _ s h))
      welcomed-Lost v false (some kind) s h other =
          Goes-on Lost _ (put-Lost v none s (other kind refl) h)

      step-Lost : (event : Event) (s : Server S) → Lost s → Goes Lost (step S J D fuel event s)
      unfolding step
      step-Lost (captured fs hdr raw) s h = callback-Lost fs hdr raw s.pending s h
      step-Lost counted s h = count_pending-Lost s.pending s h
      step-Lost (deposit timestamp) s h =
          Goes-follow Lost (course_of (System.step System.deposit s.system)) _
            λ system e. Goes-on Lost _ (record { live = h.live; gone = h.gone; old = h.old })
      step-Lost listen_failed s h = Goes-on Lost s h
      step-Lost accept_failed s h = Goes-on Lost s h
      step-Lost (request bytes start_of_day reached) s h =
          served-Lost s.serving bytes start_of_day reached s h
      step-Lost (welcome v reached) s h =
          welcomed-Lost v reached (kind_in welcoming (s.threads v)) s h
            (thread_other welcoming v s h)
      step-Lost (ask v reached) s h =
          asks-Lost v reached (kind_in asking (s.threads v)) s h (thread_other asking v s h)
      step-Lost (update v reached) s h =
          updates-Lost v reached (kind_in waiting (s.threads v)) s h (thread_other waiting v s h)

      run-Lost : (events : List Event) (s : Server S) → Lost s → Goes Lost (run S J D fuel events s)
      unfolding run
      run-Lost [] s h = Goes-on Lost s h
      run-Lost (event ∷ events) s h =
          Goes-follow Lost (step S J D fuel event s) (run S J D fuel events)
            λ t e. run-Lost events t (step-Lost event s h t e)

-- liveText forgets a connection: where a run of the daemon comes to a thread of `liveText` whose
-- welcome does not reach the client, the connection stays open for ever, with no thread to close it.
pub welcome-Lost :
    (S : Sqlite) (J : Json) (D : Double) (fuel : ℕ) (answers : SetUp) (port : ℕ) (interval : ℤ)
    (watchers : Watchers) (db : S.Db) (l : IpList) (r : ProcessResolver) (before after : List Event)
    (s t : Server S) (w : ℕ)
    → run S J D fuel before (start S answers port interval watchers db l r) ≡ goes_on s
    → s.threads w ≡ some (thread_in text welcoming)
    → run S J D fuel (welcome w false ∷ after) s ≡ goes_on t
    → (t.is_open w ≡ true) × (t.threads w ≡ none)
unfolding run step welcomed kind_in follow
welcome-Lost S J D fuel answers port interval watchers db l r before after s t w ran thread later =
    let sound =
      run-Sound S J D fuel before (start S answers port interval watchers db l r)
        (start-Sound S answers port interval watchers db l r) s ran in
    let lost : Lost S w (record s { threads = put_at w none s.threads }) = record {
      live = sound.opened w _ thread;
      gone = put-eq w none s.threads;
      old = ground (arith, sound.fresh w, sound.opened w _ thread);
    } in
    let kept =
      run-Lost S w J D fuel after (record s { threads = put_at w none s.threads }) lost t
        (sym (
            ap
              (λ o.
                follow (welcomed S J D fuel w false (kind_in welcoming o) s) (run S J D fuel after))
              thread)
          ∙ later) in
    (kept.live, kept.gone)
