-- ===== src/Bridge/Chunks.antt =====
-- Where the bytes of stdin are.
use tightbeam.Base.{
  ℕ, min, ◌≡◌, refl, sym, ap, ◌∙◌, Bool, Option, none, some, List, [], ◌∷◌, ◌++◌, take, drop,
  take-append-drop, append_assoc, append-nil, Bool-cases, inl, inr,
}
use tightbeam.Bridge.{
  chunk_size, Chunk, chunk, unreadable, Input, ThreadTurn, reads, interrupted, read_fails, sends,
  read_chunk, when_reading, sent_on, thread_turn, Up, waiting, shutting, over, writing, Out, Bridge,
  BridgeTurn, receives, peer_takes, half_closes, peer_fails, flushed, out_fails, received,
  still_writing, up_turn, out_of, is_upstream, while_running, bridge_turn, Stdio, Turn, thread,
  pumps, starts, leaves, started, pumped, left_by, turn, stdin_chunks, run,
}

abbrev pub chunk_bytes : Option Chunk → List ℕ
chunk_bytes none = []
chunk_bytes (some (chunk bs)) = bs
chunk_bytes (some unreadable) = []

abbrev pub ahead : Input → List ℕ
ahead i = chunk_bytes i.slot ++ (chunk_bytes i.hand ++ i.unread)

abbrev pub unsent : Up → List ℕ
unsent (writing bs) = bs
unsent waiting = []
unsent shutting = []
unsent over = []

-- What a bridge has taken of stdin: what its peer has, and the rest of the chunk that it is writing.
abbrev pub taken : Bridge → List ℕ
taken b = b.sent ++ unsent b.up

unfoldable pub taken_by : List Bridge → List ℕ
taken_by [] = []
taken_by (b ∷ bs) = taken b ++ taken_by bs

abbrev pub taken_now : Option Bridge → List ℕ
taken_now none = []
taken_now (some b) = taken b

abbrev pub all_input : Stdio → List ℕ
all_input s = taken_by s.past ++ (taken_now s.current ++ ahead s.input)

read_chunk-ahead :
    (got rest : List ℕ) (i : Input)
    → i.hand ≡ none
    → got ++ rest ≡ i.unread
    → ahead (read_chunk got rest i) ≡ ahead i
read_chunk-ahead [] [] i free h = refl
read_chunk-ahead [] (x ∷ xs) i free h = refl
read_chunk-ahead (b ∷ bs) rest i free h = rw (free, h) refl

when_reading-ahead :
    (h : Option Chunk) (i next : Input)
    → (h ≡ none → ahead next ≡ ahead i)
    → ahead (when_reading i h next) ≡ ahead i
when_reading-ahead none i next same = elim (Bool-cases i.alive) [
  | inl on ↦ rw (on) (same refl)
  | inr off ↦ rw (off) refl
]
when_reading-ahead (some held) i next same = refl

sent_on-ahead :
    (h o : Option Chunk) (i : Input) → i.hand ≡ h → i.slot ≡ o → ahead (sent_on h o i) ≡ ahead i
sent_on-ahead none o i eh eo = refl
sent_on-ahead (some held) (some full) i eh eo = refl
sent_on-ahead (some (chunk bs)) none i eh eo = rw (eh, eo) refl
sent_on-ahead (some unreadable) none i eh eo = rw (eh, eo) refl

thread_turn-ahead : (t : ThreadTurn) (i : Input) → ahead (thread_turn t i) ≡ ahead i
unfolding thread_turn
thread_turn-ahead (reads n) i =
    when_reading-ahead i.hand i
      (read_chunk (take (min n chunk_size) i.unread) (drop (min n chunk_size) i.unread) i)
      (λ free.
        read_chunk-ahead (take (min n chunk_size) i.unread) (drop (min n chunk_size) i.unread) i
          free (take-append-drop (min n chunk_size) i.unread))
thread_turn-ahead interrupted i = refl
thread_turn-ahead read_fails i =
    when_reading-ahead i.hand i (record i { hand = some unreadable }) (λ free. rw (free) refl)
thread_turn-ahead sends i = sent_on-ahead i.hand i.slot i refl refl

still_writing-unsent : (bs : List ℕ) → unsent (still_writing bs) ≡ bs
still_writing-unsent [] = refl
still_writing-unsent (x ∷ xs) = refl

abbrev passed_on : Input × Bridge → List ℕ
passed_on r = taken r.1 ++ ahead r.0

received-passed_on :
    (o : Option Chunk) (i : Input) (b : Bridge)
    → i.slot ≡ o
    → b.up ≡ waiting
    → passed_on (received o i b) ≡ passed_on (i, b)
received-passed_on none i b there idle = elim (Bool-cases i.alive) [
  | inl on ↦ rw (on) refl
  | inr off ↦ rw (off, idle) refl
]
received-passed_on (some (chunk bs)) i b there idle =
    rw (idle, there, append-nil b.sent, append_assoc b.sent bs (chunk_bytes i.hand ++ i.unread))
      refl
received-passed_on (some unreadable) i b there idle = rw (idle, there) refl

up_turn-passed_on :
    (t : BridgeTurn) (u : Up) (i : Input) (b : Bridge)
    → b.up ≡ u
    → passed_on (up_turn t u i b) ≡ passed_on (i, b)
up_turn-passed_on receives waiting i b at = received-passed_on i.slot i b refl at
up_turn-passed_on (peer_takes n) (writing bs) i b at =
    rw
      (
        at,
        still_writing-unsent (drop n bs),
        append_assoc b.sent (take n bs) (drop n bs),
        take-append-drop n bs,
      )
      refl
up_turn-passed_on half_closes shutting i b at = rw (at) refl
up_turn-passed_on peer_fails (writing bs) i b at = refl
up_turn-passed_on peer_fails shutting i b at = refl
up_turn-passed_on t u i b at = refl

out_of-taken :
    (t : BridgeTurn) (second : Option Out) (b : Bridge) → taken (out_of t second b) ≡ taken b
out_of-taken flushed none b = refl
out_of-taken flushed (some out) b = refl
out_of-taken out_fails second b = refl
out_of-taken t none b = refl
out_of-taken t (some out) b = refl

bridge_turn-passed_on :
    (t : BridgeTurn) (i : Input) (b : Bridge) → passed_on (bridge_turn t i b) ≡ passed_on (i, b)
unfolding bridge_turn
bridge_turn-passed_on t i b = by_result b.result
  where
    by_result : (r : Option Bool) → passed_on (while_running r t i b) ≡ passed_on (i, b)
    by_result (some result) = refl
    by_result none = elim (Bool-cases (is_upstream t)) [
      | inl up ↦ rw (up) (up_turn-passed_on t b.up i b refl)
      | inr out ↦ rw (out) (ap (λ x. x ++ ahead i) (out_of-taken t b.second b))
    ]

taken_by-append : (bs : List Bridge) (b : Bridge) → taken_by (bs ++ b ∷ []) ≡ taken_by bs ++ taken b
unfolding taken_by
taken_by-append [] b = append-nil (taken b)
taken_by-append (x ∷ xs) b =
    ap (λ l. taken x ++ l) (taken_by-append xs b)
    ∙ sym (append_assoc (taken x) (taken_by xs) (taken b))

left_by-all_input :
    (o : Option Bridge) (s : Stdio) → s.current ≡ o → all_input (left_by o s) ≡ all_input s
left_by-all_input none s at = refl
left_by-all_input (some b) s at =
    rw (at, taken_by-append s.past b, append_assoc (taken_by s.past) (taken b) (ahead s.input)) refl

pumped-all_input :
    (t : BridgeTurn) (o : Option Bridge) (s : Stdio)
    → s.current ≡ o
    → all_input (pumped t o s) ≡ all_input s
pumped-all_input t none s at = refl
pumped-all_input t (some b) s at =
    rw (at) (ap (λ l. taken_by s.past ++ l) (bridge_turn-passed_on t s.input b))

started-all_input :
    (bytes : List ℕ) (o : Option Bridge) (s : Stdio)
    → s.current ≡ o
    → all_input (started bytes o s) ≡ all_input s
started-all_input bytes none s at = rw (at) refl
started-all_input bytes (some b) s at = refl

turn-all_input : (t : Turn) (s : Stdio) → all_input (turn t s) ≡ all_input s
turn-all_input (thread t) s =
    ap (λ l. taken_by s.past ++ (taken_now s.current ++ l)) (thread_turn-ahead t s.input)
turn-all_input (pumps t) s = pumped-all_input t s.current s refl
turn-all_input (starts bytes) s = started-all_input bytes s.current s refl
turn-all_input leaves s = left_by-all_input s.current s refl

run-all_input : (ts : List Turn) (s : Stdio) → all_input (run ts s) ≡ all_input s
unfolding run
run-all_input [] s = refl
run-all_input (t ∷ ts) s = run-all_input ts (turn t s) ∙ turn-all_input t s

-- Stdin is one row of bytes, however many bridges take from it. However the turns of the thread and of
-- the bridges fall: what the bridges took, one after the other, then the chunk in the channel, the chunk
-- in the thread's hand and what is unread, are what stdin gives, in its order.
pub run-stdin_chunks :
    (bytes : List ℕ) (ts : List Turn) → all_input (run ts (stdin_chunks bytes)) ≡ bytes
unfolding taken_by
run-stdin_chunks bytes ts = run-all_input ts (stdin_chunks bytes)
