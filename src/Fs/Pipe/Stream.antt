-- ===== src/Fs/Pipe/Stream.antt =====
-- A writer and a reader on one pipe of pipe.rs, in any interleaving of the rounds of their loops.
pub mod Progress
use t_core.Base.{
  ℕ, ◌≤◌, ◌≡◌, ◌≢◌, refl, ap, sym, Bool, true, false, Option, none, some, List, [], ◌++◌, arith,
  length, take, min, append_assoc, append-nil, not, ◌∙◌, take-append-drop, drop_all, drop-nil, ◌⊎◌,
  Bool-cases, inl, length-append, ◌==◌, inr, take_all, length-zero, take-append-le, take-nil,
}
use t_core.Fs.Pipe.{
  PipeRingBuffer, ReadCall, WriteCall, new, set_write_end, read_round, write_round, available_read,
  available_write, make_pipe, is_empty,
}
use t_core.Fs.Pipe.Contents.{IsValid, contents, length-contents}
use t_core.Fs.Pipe.Transfer.{
  IsReading, IsWriting, Moved, read_result, read_round-run, write_round-run,
}

-- One call of `write`, after which the writing end is closed, and one call of `read`.
pub record Stream : Type 0 where
  pub ring : PipeRingBuffer
  pub open_end : Bool
  pub writer : WriteCall
  pub written : Option ℕ
  pub reader : ReadCall
  pub returned : Option ℕ

pub data Step (s : Stream) (t : Stream) : Type 0 where
  writes :
      (res : Option ℕ) (r : PipeRingBuffer) (c : WriteCall)
      → s.written ≡ none
      → write_round s.ring s.writer ≡ some (res, r, c)
      → t ≡ record s { ring = r; writer = c; written = res }
      → Step s t
  closes : (n : ℕ) → s.written ≡ some n → t ≡ record s { open_end = false } → Step s t
  reads :
      (res : Option ℕ) (r : PipeRingBuffer) (c : ReadCall)
      → s.returned ≡ none
      → read_round (λ _. s.open_end) s.ring s.reader ≡ some (res, r, c)
      → t ≡ record s { ring = r; reader = c; returned = res }
      → Step s t

pub data Reach (s : Stream) : Stream → Type 0 where
  here : Reach s s
  next : {t u : Stream} → Reach s t → Step t u → Reach s u

-- A fresh pipe, a message to write and a number of bytes to read.
unfoldable pub start : List ℕ → ℕ → Stream
start message want = record {
  ring = (make_pipe 0 0).2;
  open_end = true;
  writer = record { want_to_write = length message; bytes = message; already_write = 0 };
  written = none;
  reader = record { want_to_read = want; cells = want; stored = []; already_read = 0 };
  returned = none;
}

-- No byte is lost, doubled or out of place.
pub record Flows (message : List ℕ) (want : ℕ) (s : Stream) : Type 0 where
  pub valid : IsValid s.ring
  pub reading : IsReading s.reader
  pub writing : IsWriting s.writer
  pub end_known : s.ring.write_end ≡ some 0
  pub stream : s.reader.stored ++ (contents s.ring ++ s.writer.bytes) ≡ message
  pub same_want : s.reader.want_to_read ≡ want
  pub all_written : s.written ≢ none → s.writer.bytes ≡ []
  pub closed_after : s.open_end ≡ false → s.writer.bytes ≡ []
  pub delivered :
      (n : ℕ)
      → s.returned ≡ some n
      → (n ≡ min want (length message)) × (s.reader.stored ≡ take want message)

pub start-Flows : (message : List ℕ) (want : ℕ) → Flows message want (start message want)
unfolding start make_pipe set_write_end new available_read is_empty
start-Flows message want = record {
  valid = record { storage = refl; head_in = omega arith; tail_in = omega arith; agrees = refl };
  reading = record { room = omega arith; count = refl };
  writing = record { count = omega arith };
  end_known = refl;
  stream = refl;
  same_want = refl;
  all_written = λ h. absurd (h refl);
  closed_after = λ h. cc;
  delivered = λ n h. cc;
}

writes-Flows :
    (message : List ℕ) (want : ℕ) (s : Stream) (res : Option ℕ) (r : PipeRingBuffer) (c : WriteCall)
    → Flows message want s
    → s.written ≡ none
    → write_round s.ring s.writer ≡ some (res, r, c)
    → Flows message want (record s { ring = r; writer = c; written = res })
writes-Flows message want s res r c f idle h =
    let (fits, t) = write_round-run s.ring s.writer f.valid f.writing h in
    record {
      valid = t.valid;
      reading = f.reading;
      writing = t.writing;
      end_known = t.same_end ∙ f.end_known;
      stream =
          ap (◌++◌ s.reader.stored) (
            ap (λ l. l ++ c.bytes) t.filled
            ∙ append_assoc (contents s.ring) (take (available_write s.ring) s.writer.bytes) c.bytes
            ∙ ap (λ l. contents s.ring ++ (take (available_write s.ring) s.writer.bytes ++ l))
                t.left
            ∙ ap (◌++◌ (contents s.ring))
                (take-append-drop (available_write s.ring) s.writer.bytes))
          ∙ f.stream;
      same_want = f.same_want;
      all_written = λ k. t.left ∙ drop_all (available_write s.ring) s.writer.bytes (fits k);
      closed_after =
          λ k. t.left ∙ drop-nil (available_write s.ring) s.writer.bytes (f.closed_after k);
      delivered = f.delivered;
    }

-- A prefix that has the wanted length, or that is all there is.
prefix-eq-take :
    (l rest message : List ℕ) (want : ℕ)
    → l ++ rest ≡ message
    → (length l ≡ want) ⊎ ((rest ≡ []) × (length l ≤ want))
    → (length l ≡ min want (length message)) × (l ≡ take want message)
prefix-eq-take l rest message want e (inl h) = (
  omega (arith, ap length e, length-append l rest),
  sym (take_all want l (omega arith))
      ∙ sym (take-append-le want l rest (omega arith))
      ∙ ap (take want) e,
)
prefix-eq-take l rest message want e (inr h) =
    let q : l ≡ message = sym (append-nil l) ∙ ap (◌++◌ l) (sym h.0) ∙ e in
    (
      omega (arith, h.1, ap length q),
      q ∙ sym (take_all want message (omega (arith, h.1, ap length q))),
    )

-- When the round returns: the buffer is full, or nothing is left to come.
returned_when :
    (message : List ℕ) (want : ℕ) (s : Stream) (n : ℕ) (r : PipeRingBuffer) (c : ReadCall)
    → Flows message want s
    → read_result (not s.open_end) s.ring s.reader ≡ some n
    → Moved s.ring s.reader r c
    → (n ≡ length c.stored)
      × ((length c.stored ≡ want)
          ⊎ ((contents r ++ s.writer.bytes ≡ []) × (length c.stored ≤ want)))
returned_when message want s n r c f e m = elim (Bool-cases (available_read s.ring == 0)) [
  | inl idle ↦ elim (Bool-cases s.open_end) [
    | inl opened ↦ absurd (ground arith)
    | inr closed ↦
        let none_there : contents s.ring ≡ [] =
          length-zero (contents s.ring) (ground (arith, length-contents s.ring)) in
        let none_left : contents r ++ s.writer.bytes ≡ [] =
          ap (λ l. contents r ++ l) (f.closed_after closed)
          ∙ append-nil (contents r)
          ∙ m.left
          ∙ drop-nil s.reader.cells (contents s.ring) none_there in
        let kept : c.stored ≡ s.reader.stored =
          m.stored
          ∙ ap (◌++◌ s.reader.stored) (take-nil s.reader.cells (contents s.ring) none_there)
          ∙ append-nil s.reader.stored in
        let count : s.reader.already_read ≡ n = ground arith in
        (omega (arith, ap length kept), inr (none_left, omega (arith, ap length kept)))
  ]
  | inr busy ↦
      let fits : s.reader.cells ≤ length (contents s.ring) =
        ground (arith, length-contents s.ring) in
      let count : s.reader.want_to_read ≡ n = ground arith in (omega arith, inl (omega arith))
]

reads-Flows :
    (message : List ℕ) (want : ℕ) (s : Stream) (res : Option ℕ) (r : PipeRingBuffer) (c : ReadCall)
    → Flows message want s
    → s.returned ≡ none
    → read_round (λ _. s.open_end) s.ring s.reader ≡ some (res, r, c)
    → Flows message want (record s { ring = r; reader = c; returned = res })
reads-Flows message want s res r c f idle h =
    let (result, m) =
      read_round-run (λ _. s.open_end) s.ring s.reader 0 f.valid f.reading f.end_known h in
    let flow : c.stored ++ (contents r ++ s.writer.bytes) ≡ message =
      ap (λ l. l ++ (contents r ++ s.writer.bytes)) m.stored
      ∙ append_assoc s.reader.stored (take s.reader.cells (contents s.ring))
          (contents r ++ s.writer.bytes)
      ∙ ap (◌++◌ s.reader.stored) (
          sym (append_assoc (take s.reader.cells (contents s.ring)) (contents r) s.writer.bytes)
          ∙ ap (λ l. l ++ s.writer.bytes)
              (ap (◌++◌ (take s.reader.cells (contents s.ring))) m.left
                ∙ take-append-drop s.reader.cells (contents s.ring)))
      ∙ f.stream in
    record {
      valid = m.valid;
      reading = m.reading;
      writing = f.writing;
      end_known = m.same_end ∙ f.end_known;
      stream = flow;
      same_want = m.same_want ∙ f.same_want;
      all_written = f.all_written;
      closed_after = f.closed_after;
      delivered = λ n k.
          let (eq, when) = returned_when message want s n r c f (sym result ∙ k) m in
          let (count, same) =
            prefix-eq-take c.stored (contents r ++ s.writer.bytes) message want flow when in
          (eq ∙ count, same);
    }

pub Step-Flows :
    (message : List ℕ) (want : ℕ) {s t : Stream}
    → Flows message want s
    → Step s t
    → Flows message want t
Step-Flows message want {s} f (writes res r c idle h e) =
    rw e (writes-Flows message want s res r c f idle h)
Step-Flows message want {s} f (closes n h e) = rw e (record {
  valid = f.valid;
  reading = f.reading;
  writing = f.writing;
  end_known = f.end_known;
  stream = f.stream;
  same_want = f.same_want;
  all_written = f.all_written;
  closed_after = λ _. f.all_written (λ none_yet. cc);
  delivered = f.delivered;
})
Step-Flows message want {s} f (reads res r c idle h e) =
    rw e (reads-Flows message want s res r c f idle h)

-- In every state that a writer of `message` and a reader of `want` bytes reach on a fresh pipe, what
-- was stored, what the ring holds and what is still to be written make up the message; and once
-- `read` has returned, it has returned the length of what it stored, which is the first `want` bytes
-- of the message, or the whole message if that is shorter.
pub Reach-Flows :
    (message : List ℕ) (want : ℕ) {s : Stream} → Reach (start message want) s → Flows message want s
Reach-Flows message want here = start-Flows message want
Reach-Flows message want (next reach step) =
    Step-Flows message want (Reach-Flows message want reach) step
