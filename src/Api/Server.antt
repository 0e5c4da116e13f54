-- ===== src/Api/Server.antt =====
-- The server of api/APIController.cpp among the other threads of the daemon: connections, the threads
-- that stream live traffic, and what the storage and the database do meanwhile.
pub mod Rounds
pub mod Going
pub mod Sound
pub mod Steps
pub mod Streams
pub mod Sockets
pub mod Leaks
use ntmd.Base.{
  ℕ, ◌+◌, ◌≡◌, Bool, true, false, Option, none, some, List, [], ◌∷◌, ◌++◌, Text, codes, eqb,
  if◌then◌else◌,
}
use ntmd.Base.Int.{ℤ, pos}
use ntmd.Base.Outcome.{Outcome, ok, throws, exits, undefined}
use ntmd.Net.Packet.{Packet}
use ntmd.Net.Packet.{PcapHeader}
use ntmd.Net.IpList.{IpList}
use ntmd.Proc.FileSystem.{FileSystem}
use ntmd.Proc.ProcessResolver.{ProcessResolver}
use ntmd.Traffic.TrafficStorage.{LineRef}
use ntmd.Util.HumanReadable.{Double}
use ntmd.Traffic.DbController.{insert_application_traffic}
use ntmd.Traffic.Sqlite.{Sqlite}
use ntmd.Traffic.System
use ntmd.Traffic.System.{System}
use ntmd.Traffic.TrafficLine.{TrafficMap}
use ntmd.Traffic.TrafficStorage
use ntmd.Traffic.TrafficStorage.{Watchers}
use ntmd.Api.Json.{Json}
use ntmd.Api.Requests.{
  Reply, live_text, live, snapshot, traffic_daily, traffic_since, traffic_between, error, handle,
}
use ntmd.Api.Handlers.{Response, message, aborted, stream, respond, live_round, live_text_round}

-- What a step of a thread leads to: the daemon goes on; a signal SIGPIPE ends it, which `send` raises
-- on a connection that the client has closed unless MSG_NOSIGNAL is set; an exception leaves a
-- thread, which ends it too; `std::exit`; or undefined behaviour.
pub data Course {ℓ} (A : Type ℓ) : Type ℓ where
  goes_on : A → Course A
  killed uncaught : Course A
  exited : ℕ → Course A
  lost : Course A

unfoldable pub follow {ℓ κ} : {A : Type ℓ} {B : Type κ} → Course A → (A → Course B) → Course B
follow (goes_on a) f = f a
follow killed f = killed
follow uncaught f = uncaught
follow (exited n) f = exited n
follow lost f = lost

unfoldable pub course_of {ℓ} : {A : Type ℓ} → Outcome A → Course A
course_of (ok a) = goes_on a
course_of (throws x) = uncaught
course_of (exits n) = exited n
course_of undefined = lost

-- The threads that `liveText` and `live` detach.
pub data Kind : Type 0 where
  text json : Kind

-- Where such a thread is: in front of the welcome, in front of `awaitSnapshot`, or at `await.lock()`.
pub data Phase : Type 0 where
  welcoming asking waiting : Phase

pub record Thread : Type 0 where
  pub kind : Kind
  pub phase : Phase

abbrev pub thread_in : Kind → Phase → Thread
thread_in kind phase = record { kind = kind; phase = phase }

-- Connections are numbered in the order of `accept`, and so are the variables of the thread of a
-- connection among the watchers of the storage. `serving` is the port of the server, where its
-- thread runs; `sent` is what clients have got, in order. `ip_list` and `resolver` belong to the
-- sniffer; `pending` is the packet that its thread is about to count, with the reference into the
-- map that `add` took in front of the lock.
pub record Server (S : Sqlite) : Type 0 where
  pub system : System
  pub db : S.Db
  pub ip_list : IpList
  pub resolver : ProcessResolver
  pub pending : Option (LineRef × Packet)
  pub serving : Option ℕ
  pub next : ℕ
  pub is_open : ℕ → Bool
  pub threads : ℕ → Option Thread
  pub sent : List (ℕ × Text)

abbrev pub put_at {ℓ} : {A : Type ℓ} → ℕ → A → (ℕ → A) → ℕ → A
put_at w value f v = if eqb w v then value else f v

-- What `socket`, `setsockopt` and `bind` to a port say: true is success.
pub record SetUp : Type 0 where
  pub made : Bool
  pub attached : Bool
  pub bound : ℕ → Bool

-- `startSocketServer`: the port of the thread of the server, where one is started
unfoldable pub start_socket_server : SetUp → ℕ → Option ℕ
start_socket_server answers port =
    if answers.made
    then if answers.attached then if answers.bound port then some port else none else none
    else none

-- What happens next: a packet that libpcap captures, with what /proc shows by then; the rest of
-- `add` for it, when its thread gets the lock; the end of the interval of the deposit thread at a
-- time; a round of the server; or a step of the thread of a connection. The Boolean of a step says
-- whether `send` finds the client.
pub data Event : Type 0 where
  captured : FileSystem → PcapHeader → List ℕ → Event
  counted : Event
  deposit : ℤ → Event
  listen_failed accept_failed : Event
  request : Option Text → ℤ → Bool → Event
  welcome ask update : ℕ → Bool → Event

unfoldable pub kind_in : Phase → Option Thread → Option Kind
kind_in phase none = none
kind_in welcoming (some thread) = elim thread.phase [
  | welcoming ↦ some thread.kind
  | asking ↦ none
  | waiting ↦ none
]
kind_in asking (some thread) = elim thread.phase [
  | welcoming ↦ none
  | asking ↦ some thread.kind
  | waiting ↦ none
]
kind_in waiting (some thread) = elim thread.phase [
  | welcoming ↦ none
  | asking ↦ none
  | waiting ↦ some thread.kind
]

-- the handlers that pass MSG_NOSIGNAL; the messages of errors are sent without it
unfoldable pub quiet : Reply → Bool
quiet (error reason) = false
quiet live_text = true
quiet live = true
quiet snapshot = true
quiet traffic_daily = true
quiet (traffic_since ts) = true
quiet (traffic_between first last) = true

-- the thread of a handler that detaches one
unfoldable pub thread_of : Reply → Option Thread
thread_of live_text = some (thread_in text welcoming)
thread_of live = some (thread_in json asking)
thread_of snapshot = none
thread_of traffic_daily = none
thread_of (traffic_since ts) = none
thread_of (traffic_between first last) = none
thread_of (error reason) = none

unfoldable pub quiet_kind : Kind → Bool
quiet_kind text = true
quiet_kind json = false

abbrev pub welcome_text : Text
welcome_text =
    codes "Connected to ntmd live traffic update stream, awaiting first traffic interval."
    ++ 10 ∷ []

module _ (S : Sqlite) where
  -- the state that the constructor leaves
  abbrev pub start : SetUp → ℕ → ℤ → Watchers → S.Db → IpList → ProcessResolver → Server S
  start answers port interval watchers db l r = record {
    system = System.start interval watchers;
    db = db;
    ip_list = l;
    resolver = r;
    pending = none;
    serving = start_socket_server answers port;
    next = 0;
    is_open = λ w. false;
    threads = λ w. none;
    sent = [];
  }

  -- `send`, with or without MSG_NOSIGNAL
  unfoldable pub send : Bool → Bool → ℕ → Text → Server S → Course (Server S)
  send quietly reached w bytes s =
      if reached
      then goes_on (record s { sent = s.sent ++ (w, bytes) ∷ [] })
      else if quietly
      then goes_on s
      else killed

  abbrev pub close : ℕ → Server S → Server S
  close w s = record s { is_open = put_at w false s.is_open }

  -- the end of a thread that leaves its loop
  abbrev pub end_thread : ℕ → Server S → Server S
  end_thread w s = record (close w s) { threads = put_at w none s.threads }

  abbrev pub set_phase : ℕ → Kind → Phase → Server S → Server S
  set_phase w kind phase s = record s { threads = put_at w (some (thread_in kind phase)) s.threads }

  abbrev pub accept : Server S → Server S
  accept s = record s { next = s.next + 1; is_open = put_at s.next true s.is_open }
