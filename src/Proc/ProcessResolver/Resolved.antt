-- ===== src/Proc/ProcessResolver/Resolved.antt =====
-- The answers of `resolve`.
use ntmd.Base.{
  ℕ, ◌≡◌, ◌≢◌, refl, ap, sym, ◌∙◌, Bool, true, false, Option, none, some, arith, if◌then◌else◌,
  nat_eq, eqb, eqb_iff, Option-cases, inl, inr, ◌⊎◌, subst,
}
use ntmd.Base.Assoc.{lookup, has_key}
use ntmd.Base.Outcome.{
  Outcome, ok, ◌>>=◌, Ensures, Ensures-bind, Ensures-ok, Ensures-if, Ensures-option,
}
use ntmd.Net.Packet.{Packet}
use ntmd.Net.PacketHash.{hash_eq, of_packet}
use ntmd.Proc.FileSystem.{FileSystem}
use ntmd.Proc.ProcessIndex
use ntmd.Proc.ProcessIndex.{Process, ProcessIndex}
use ntmd.Proc.ProcessIndex.Search.{Owns}
use ntmd.Proc.ProcessIndex.Get.{get_sound, get-get}
use ntmd.Proc.SocketIndex
use ntmd.Proc.SocketIndex.{SocketIndex}
use ntmd.Proc.SocketIndex.Answers.{found, answer_of, get_lem, get_again}
use ntmd.Proc.ProcessResolver.{ProcessResolver, unknown_process, resolve, resolve_inode}

-- The process owns a socket that the packet leads to.
pub record Matched (fs : FileSystem) (pkt : Packet) (r r' : ProcessResolver) (p : Process)
    : Type 0 where
  pub inode : ℕ
  pub numbered : inode ≢ 0
  pub socket : found fs pkt r.socket_index ≡ some inode
  pub known : lookup inode r'.process_index.process_map ≡ some p
  owner : (lookup inode r.process_index.process_map ≡ some p) ⊎ Owns fs inode p

abbrev or_unknown : Option Process → Process
or_unknown none = unknown_process
or_unknown (some p) = p

-- The two ways through `resolve`.
record Unmatched (fs : FileSystem) (pkt : Packet) (r r' : ProcessResolver) (p : Process)
    : Type 0 where
  zero : (SocketIndex.get fs pkt r.socket_index).1 ≡ 0
  state : r' ≡ record r { socket_index = (SocketIndex.get fs pkt r.socket_index).0 }
  process : p ≡ unknown_process

record Asked (fs : FileSystem) (pkt : Packet) (r r' : ProcessResolver) (p : Process) : Type 0 where
  index : ProcessIndex
  answer : Option Process
  nonzero : eqb (SocketIndex.get fs pkt r.socket_index).1 0 ≡ false
  got :
      ProcessIndex.get fs (SocketIndex.get fs pkt r.socket_index).1 r.process_index
      ≡ ok (index, answer)
  state :
      r'
      ≡ record { socket_index = (SocketIndex.get fs pkt r.socket_index).0; process_index = index }
  process : p ≡ or_unknown answer

module _ (fs : FileSystem) (pkt : Packet) (r : ProcessResolver) where
  abbrev Ways : ProcessResolver × Process → Type 0
  Ways (r', p) = Unmatched fs pkt r r' p ⊎ Asked fs pkt r r' p

  resolve-Ways : Ensures Ways (resolve fs pkt r)
  unfolding resolve resolve_inode
  resolve-Ways =
      Ensures-if Ways (eqb (SocketIndex.get fs pkt r.socket_index).1 0) _ _
        (λ zero.
          Ensures-ok Ways
            (record r { socket_index = (SocketIndex.get fs pkt r.socket_index).0 }, unknown_process)
            (inl (record {
              zero = (eqb_iff (SocketIndex.get fs pkt r.socket_index).1 0).0 zero;
              state = refl;
              process = refl;
            })))
        (λ nonzero.
          Ensures-bind Ways
            (ProcessIndex.get fs (SocketIndex.get fs pkt r.socket_index).1 r.process_index) _
            λ got returned.
              Ensures-option Ways got.1 _ _
                (λ missed. Ensures-ok Ways _ (
                  inr (record {
                    index = got.0;
                    answer = none;
                    nonzero = nonzero;
                    got = returned ∙ ap (λ q. ok (got.0, q)) missed;
                    state = refl;
                    process = refl;
                  })))
                (λ p found_p. Ensures-ok Ways _ (
                  inr (record {
                    index = got.0;
                    answer = some p;
                    nonzero = nonzero;
                    got = returned ∙ ap (λ q. ok (got.0, q)) found_p;
                    state = refl;
                    process = refl;
                  }))))

nonzero_answer :
    (b : Bool) (o : Option ℕ) (n : ℕ) → n ≡ (if b then 0 else answer_of o) → n ≢ 0 → o ≡ some n
nonzero_answer true o n e h = absurd (h e)
nonzero_answer false none n e h = absurd (h e)
nonzero_answer false (some i) n e h = ap some (sym e)

-- An answer other than 0 is what was found.
answer-found :
    (fs : FileSystem) (pkt : Packet) (s : SocketIndex)
    → (SocketIndex.get fs pkt s).1 ≢ 0
    → found fs pkt s ≡ some (SocketIndex.get fs pkt s).1
answer-found fs pkt s h =
    nonzero_answer (has_key (of_packet pkt) s.could_not_find) _ _ (get_lem fs pkt s) h

Asked-sound :
    (fs : FileSystem) (pkt : Packet) (r r' : ProcessResolver) (p : Process)
    → Asked fs pkt r r' p
    → (p ≡ unknown_process) ⊎ Matched fs pkt r r' p
Asked-sound fs pkt r r' p h = elim (Option-cases h.answer) [
  | inl missed ↦ inl (h.process ∙ ap or_unknown missed)
  | inr (q, hit) ↦
      let inode : ℕ = (SocketIndex.get fs pkt r.socket_index).1 in
      let same : p ≡ q = h.process ∙ ap or_unknown hit in
      let sound =
        get_sound fs inode r.process_index h.index q (h.got ∙ ap (λ a. ok (h.index, a)) hit) in
      let numbered : inode ≢ 0 = ground (arith, h.nonzero, eqb_iff inode 0) in
      inr (record {
        inode = inode;
        numbered = numbered;
        socket = answer-found fs pkt r.socket_index numbered;
        known =
            ap (λ x. lookup inode x.process_index.process_map) h.state
            ∙ sound.1
            ∙ ap some (sym same);
        owner =
            subst (λ x. (lookup inode r.process_index.process_map ≡ some x) ⊎ Owns fs inode x)
              (sym same) sound.0;
      })
]

-- A process that `resolve` returns is the placeholder for unknown traffic, or the hash of the
-- packet leads to a socket, in the map or on the tables, whose inode the process owns.
pub resolve_sound :
    (fs : FileSystem) (pkt : Packet) (r r' : ProcessResolver) (p : Process)
    → resolve fs pkt r ≡ ok (r', p)
    → (p ≡ unknown_process) ⊎ Matched fs pkt r r' p
resolve_sound fs pkt r r' p e = elim (resolve-Ways fs pkt r (r', p) e) [
  | inl unmatched ↦ inl unmatched.process
  | inr asked ↦ Asked-sound fs pkt r r' p asked
]

-- What `resolve` does where its two indexes change nothing.
stays_unmatched :
    (fs : FileSystem) (pkt : Packet) (r : ProcessResolver) (inode : ℕ)
    → SocketIndex.get fs pkt r.socket_index ≡ (r.socket_index, inode)
    → inode ≡ 0
    → resolve fs pkt r ≡ ok (r, unknown_process)
unfolding resolve
stays_unmatched fs pkt r inode h zero = rw (h, zero, resolve) refl

-- the part of `resolve_inode` behind the call of `get`
abbrev told : ProcessResolver → ProcessIndex × Option Process → Outcome (ProcessResolver × Process)
told r (index, answer) = elim answer [
  | some p ↦ ok (record r { process_index = index }, p)
  | none ↦ ok (record r { process_index = index }, unknown_process)
]

told_lem :
    (r : ProcessResolver) (answer : Option Process)
    → told r (r.process_index, answer) ≡ ok (r, or_unknown answer)
told_lem r none = refl
told_lem r (some p) = refl

resolve_inode-told :
    (fs : FileSystem) (r : ProcessResolver) (inode : ℕ)
    → resolve_inode fs inode r ≡ (ProcessIndex.get fs inode r.process_index >>= told r)
unfolding resolve_inode
resolve_inode-told fs r inode = refl

-- the part of `resolve` behind the call of `SocketIndex::get`
routed : FileSystem → ProcessResolver → SocketIndex × ℕ → Outcome (ProcessResolver × Process)
routed fs r (index, inode) =
    if eqb inode 0
    then ok (record r { socket_index = index }, unknown_process)
    else resolve_inode fs inode (record r { socket_index = index })

resolve-routed :
    (fs : FileSystem) (pkt : Packet) (r : ProcessResolver)
    → resolve fs pkt r ≡ routed fs r (SocketIndex.get fs pkt r.socket_index)
unfolding resolve routed
resolve-routed fs pkt r = refl

routed_nonzero :
    (fs : FileSystem) (r : ProcessResolver) (inode : ℕ)
    → eqb inode 0 ≡ false
    → routed fs r (r.socket_index, inode) ≡ resolve_inode fs inode r
unfolding routed
routed_nonzero fs r inode nonzero = rw nonzero

stays_asked :
    (fs : FileSystem) (pkt : Packet) (r : ProcessResolver) (inode : ℕ) (answer : Option Process)
    → SocketIndex.get fs pkt r.socket_index ≡ (r.socket_index, inode)
    → eqb inode 0 ≡ false
    → ProcessIndex.get fs inode r.process_index ≡ ok (r.process_index, answer)
    → resolve fs pkt r ≡ ok (r, or_unknown answer)
stays_asked fs pkt r inode answer h nonzero got =
    resolve-routed fs pkt r
    ∙ ap (routed fs r) h
    ∙ routed_nonzero fs r inode nonzero
    ∙ resolve_inode-told fs r inode
    ∙ ap (λ m. m >>= told r) got
    ∙ told_lem r answer

socket_again :
    (fs later : FileSystem) (pkt : Packet) (s s' : SocketIndex)
    → s' ≡ (SocketIndex.get fs pkt s).0
    → SocketIndex.get later pkt s' ≡ (s', (SocketIndex.get fs pkt s).1)
socket_again fs later pkt s s' e =
    ap (SocketIndex.get later pkt) e
    ∙ get_again fs later pkt s
    ∙ ap (λ x. (x, (SocketIndex.get fs pkt s).1)) (sym e)

-- If the very next call of `resolve`, with no other packet and no clearing of the lists of misses in
-- between, is for the same packet, it answers the same and changes nothing, whatever the system
-- shows by then.
pub resolve_again :
    (fs later : FileSystem) (pkt : Packet) (r r' : ProcessResolver) (p : Process)
    → resolve fs pkt r ≡ ok (r', p)
    → resolve later pkt r' ≡ ok (r', p)
resolve_again fs later pkt r r' p e = elim (resolve-Ways fs pkt r (r', p) e) [
  | inl h ↦
      stays_unmatched later pkt r' (SocketIndex.get fs pkt r.socket_index).1
        (socket_again fs later pkt r.socket_index r'.socket_index
          (ap (λ x. x.socket_index) h.state))
        h.zero
      ∙ ap (λ q. ok (r', q)) (sym h.process)
  | inr h ↦
      let inode : ℕ = (SocketIndex.get fs pkt r.socket_index).1 in
      let kept : ProcessIndex.get later inode r'.process_index ≡ ok (r'.process_index, h.answer) =
        subst (λ x. ProcessIndex.get later inode x ≡ ok (x, h.answer))
          (sym (ap (λ x. x.process_index) h.state))
          (get-get fs later inode r.process_index h.index h.answer h.got) in
      stays_asked later pkt r' inode h.answer
        (socket_again fs later pkt r.socket_index r'.socket_index
          (ap (λ x. x.socket_index) h.state))
        h.nonzero kept
      ∙ ap (λ q. ok (r', q)) (sym h.process)
]
