-- ===== src/Fs/Pipe/Stream/Progress.antt =====
-- The loops of pipe.rs taking turns, as they do when each yields to the other: `read` returns.
use t_core.Base.{
  ◌>>=◌, ℕ, zero, suc, ◌+◌, ◌-◌, ◌<◌, ◌≡◌, ◌≢◌, refl, ap, Bool, true, false, Option, none, some,
  List, [], arith, length, take, leb, min, if◌then◌else◌, not, ◌⊎◌, Option-cases, inr, inl,
  length-drop, Bool-cases, ◌==◌, length-zero, ◌∙◌, drop-nil, drop_all,
}
use t_core.Fs.Pipe.{
  PipeRingBuffer, ReadCall, new, set_write_end, read_round, write_round, available_read,
  available_write, make_pipe,
}
use t_core.Fs.Pipe.Contents.{contents, length-contents, available_sum}
use t_core.Fs.Pipe.Transfer.{Moved, read_result, read_round-Moved, write_round-Taken}
use t_core.Fs.Pipe.Stream.{Stream, Step, start, Flows, Step-Flows, start-Flows}

-- The writer closes its end in the turn after its call has returned.
pub writer_turn : Stream → Option Stream
writer_turn s = elim s.written [
  | some n ↦ some (record s { open_end = false })
  | none ↦ do
    (res, r, c) ← write_round s.ring s.writer
    some (record s { ring = r; writer = c; written = res })
]

pub reader_turn : Stream → Option Stream
reader_turn s = do
  (res, r, c) ← read_round (λ _. s.open_end) s.ring s.reader
  some (record s { ring = r; reader = c; returned = res })

-- Turns until the reader's call returns.
pub run : ℕ → Stream → Option Stream
run zero s = some s
run (suc fuel) s = elim s.returned [
  | some n ↦ some s
  | none ↦ do t ← writer_turn s; u ← reader_turn t; run fuel u
]

abbrev waits : Option ℕ → ℕ
waits none = 1
waits (some n) = 0

-- The writer's turns that can still change something.
abbrev pub turns_left : Stream → ℕ
turns_left s = length s.writer.bytes + (waits s.written + (if s.open_end then 1 else 0))

writer_turn-lem :
    (message : List ℕ) (want : ℕ) (s : Stream)
    → Flows message want s
    → contents s.ring ≡ []
    → s.returned ≡ none
    → (t : Stream) × (writer_turn s ≡ some t)
      × Flows message want t
      × (t.returned ≡ none)
      × ((turns_left t < turns_left s) ⊎ ((t.open_end ≡ false) × (contents t.ring ≡ [])))
unfolding writer_turn
writer_turn-lem message want s f e idle = elim (Option-cases s.written) [
  | inr (n, w) ↦ (
    record s { open_end = false },
    ground arith,
    Step-Flows message want f (Step.closes n w refl),
    idle,
    inr (refl, e),
  )
  | inl w ↦
      let (r, c, q, t) = write_round-Taken s.ring s.writer f.valid f.writing in
      let room : available_write s.ring ≡ 32 =
        omega (arith, available_sum s.ring f.valid, length-contents s.ring, ap length e) in
      let gone : length c.bytes ≡ length s.writer.bytes - 32 =
        omega
          (arith, room, ap length t.left, length-drop (available_write s.ring) s.writer.bytes) in
      (
        _,
        ground arith,
        Step-Flows message want f (Step.writes _ r c w q refl),
        idle,
        inl (ground arith),
      )
]

-- A round that does not return has emptied the ring, and has seen an open end or some bytes.
read_result-cases :
    (open_end : Bool) (r r' : PipeRingBuffer) (c c' : ReadCall)
    → Moved r c r' c'
    → ((n : ℕ) × (read_result (not open_end) r c ≡ some n))
      ⊎ ((read_result (not open_end) r c ≡ none)
          × (contents r' ≡ [])
          × ((open_end ≡ true) ⊎ (contents r ≢ [])))
read_result-cases open_end r r' c c' m = elim (Bool-cases (available_read r == 0)) [
  | inl idle ↦ elim (Bool-cases open_end) [
    | inl opened ↦
        let nothing : contents r ≡ [] =
          length-zero (contents r) (ground (arith, length-contents r)) in
        inr (ground arith, m.left ∙ drop-nil c.cells (contents r) nothing, inl opened)
    | inr closed ↦ inl (c.already_read, ground arith)
  ]
  | inr busy ↦ elim (Bool-cases (leb c.cells (available_read r))) [
    | inl fits ↦ inl (c.want_to_read, ground arith)
    | inr more ↦ inr (
      ground arith,
      m.left ∙ drop_all c.cells (contents r) (ground (arith, length-contents r)),
      inr (λ e. ground (arith, length-contents r, ap length e)),
    )
  ]
]

reader_turn-lem :
    (message : List ℕ) (want : ℕ) (s : Stream)
    → Flows message want s
    → s.returned ≡ none
    → (t : Stream) × (reader_turn s ≡ some t)
      × Flows message want t
      × (turns_left t ≡ turns_left s)
      × (((n : ℕ) × (t.returned ≡ some n))
          ⊎ ((t.returned ≡ none)
              × (contents t.ring ≡ [])
              × ((s.open_end ≡ true) ⊎ (contents s.ring ≢ []))))
unfolding reader_turn
reader_turn-lem message want s f idle =
    let (r, c, q, m) =
      read_round-Moved (λ _. s.open_end) s.ring s.reader 0 f.valid f.reading f.end_known in
    (
      _,
      rw q refl,
      Step-Flows message want f (Step.reads _ r c idle q refl),
      refl,
      read_result-cases s.open_end s.ring r s.reader c m,
    )

run_done : (fuel : ℕ) (s : Stream) (n : ℕ) → s.returned ≡ some n → run fuel s ≡ some s
unfolding run
run_done zero s n h = refl
run_done (suc fuel) s n h = ground arith

run_returns :
    (message : List ℕ) (want fuel : ℕ) (s : Stream)
    → Flows message want s
    → contents s.ring ≡ []
    → s.returned ≡ none
    → turns_left s + 1 < fuel
    → (t : Stream) × (run fuel s ≡ some t)
      × Flows message want t
      × ((n : ℕ) × (t.returned ≡ some n))
unfolding run
run_returns message want zero s f e idle h = absurd (omega arith)
run_returns message want (suc fuel) s f e idle h =
    let (t, wt, ft, it, less) = writer_turn-lem message want s f e idle in
    let (u, ru, fu, same, back) = reader_turn-lem message want t ft it in
    let go : (v : Option Stream) → run fuel u ≡ v → run (suc fuel) s ≡ v =
      λ v eq. rw (idle, run) (rw wt (rw ru eq)) in
    elim back [
      | inl (n, done) ↦ (u, go (some u) (run_done fuel u n done), fu, (n, done))
      | inr (iu, eu, why) ↦
          let smaller : turns_left t < turns_left s = elim less [
            | inl l ↦ l
            | inr (closed, nothing) ↦ absurd (elim why [ inl o ↦ cc | inr ne ↦ ne nothing ])
          ] in
          let (v, rv, fv, done) = run_returns message want fuel u fu eu iu (omega arith) in
          (v, go (some v) rv, fv, done)
    ]

contents-start : (message : List ℕ) (want : ℕ) → contents (start message want).ring ≡ []
unfolding start make_pipe set_write_end new available_read
contents-start message want = refl

returned-start : (message : List ℕ) (want : ℕ) → (start message want).returned ≡ none
unfolding start
returned-start message want = refl

turns_left-start :
    (message : List ℕ) (want : ℕ) → turns_left (start message want) ≡ length message + 2
unfolding start
turns_left-start message want = refl

-- With the writer and the reader taking turns on a fresh pipe, the writer closing its end in the turn
-- after the one in which its `write` has returned, `read` returns within as many turns as the message
-- has bytes, and four; neither side panics. It returns the number of bytes that it stored: the first
-- `want` bytes of the message, or all of it if it is shorter.
pub run_delivers :
    (message : List ℕ) (want fuel : ℕ)
    → length message + 3 < fuel
    → (t : Stream) × (run fuel (start message want) ≡ some t)
      × (t.returned ≡ some (min want (length message)))
      × (t.reader.stored ≡ take want message)
run_delivers message want fuel h =
    let (t, r, f, end) =
      run_returns message want fuel (start message want) (start-Flows message want)
        (contents-start message want) (returned-start message want)
        (omega (arith, turns_left-start message want)) in
    (t, r, end.1 ∙ ap some (f.delivered end.0 end.1).0, (f.delivered end.0 end.1).1)
