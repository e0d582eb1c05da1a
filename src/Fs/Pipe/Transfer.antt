-- ===== src/Fs/Pipe/Transfer.antt =====
-- What one round of the loops of pipe.rs moves between the ring buffer and the user's buffer.
use t_core.Base.{
  ℕ, zero, suc, ◌+◌, ◌-◌, ◌<◌, ◌≡◌, ◌≢◌, refl, ap, sym, none, some, [], ◌∷◌, ◌++◌, arith, length,
  take, drop, leb, if◌then◌else◌, append_assoc, append-nil, inl, length-append, length-zero, ◌∙◌,
  ◌⊎◌, Bool-cases, take-cons, take-nil, drop-cons, drop-nil, inr, ◌==◌, ==-true, Bool, List, Option,
  not, subst₂, ◌≤◌,
}
use t_core.Fs.Pipe.{
  PipeRingBuffer, ReadCall, available_read, read_for, store, WriteCall, read_round, write_for,
  write_round, all_write_ends_closed, available_write,
}
use t_core.Fs.Pipe.Contents.{
  IsValid, contents, length-contents, read_byte-contents, write_byte-contents, available_sum,
}

-- The iterator has as many cells left as bytes are still wanted.
pub record IsReading (c : ReadCall) : Type 0 where
  pub room : c.already_read + c.cells ≡ c.want_to_read
  pub count : length c.stored ≡ c.already_read

-- The bytes that fit have moved, in order, and the call is otherwise the same.
pub record Moved (r : PipeRingBuffer) (c : ReadCall) (r' : PipeRingBuffer) (c' : ReadCall)
    : Type 0 where
  pub valid : IsValid r'
  pub reading : IsReading c'
  pub stored : c'.stored ≡ c.stored ++ take c.cells (contents r)
  pub left : contents r' ≡ drop c.cells (contents r)
  pub same_end : r'.write_end ≡ r.write_end
  pub same_want : c'.want_to_read ≡ c.want_to_read
  pub cells_left : c'.cells ≡ c.cells - length (contents r)

drained : (r : PipeRingBuffer) → available_read r ≡ 0 → contents r ≡ []
drained r e = length-zero (contents r) (omega (arith, length-contents r))

unmoved :
    (r : PipeRingBuffer) (c : ReadCall)
    → IsValid r
    → IsReading c
    → (contents r ≡ []) ⊎ (c.cells ≡ 0)
    → Moved r c r c
unmoved r c v w (inl e) = record {
  valid = v;
  reading = w;
  stored = rw (take-nil c.cells (contents r) e) (sym (append-nil c.stored));
  left = e ∙ sym (drop-nil c.cells (contents r) e);
  same_end = refl;
  same_want = refl;
  cells_left = omega (arith, ap length e);
}
unmoved r c v w (inr e) = record {
  valid = v;
  reading = w;
  stored = rw e (sym (append-nil c.stored));
  left = rw e;
  same_end = refl;
  same_want = refl;
  cells_left = omega arith;
}

store-IsReading : (c : ReadCall) (b : ℕ) → IsReading c → c.cells ≢ 0 → IsReading (store c b)
unfolding store
store-IsReading c b w h = ground (arith, length-append c.stored (b ∷ []))

Moved-store :
    (r s r' : PipeRingBuffer) (c c' : ReadCall) (b : ℕ)
    → c.cells ≢ 0
    → contents r ≡ b ∷ contents s
    → s.write_end ≡ r.write_end
    → Moved s (store c b) r' c'
    → Moved r c r' c'
unfolding store
Moved-store r s r' c c' b h e q m = record {
  valid = m.valid;
  reading = m.reading;
  stored =
      m.stored
      ∙ append_assoc c.stored (b ∷ []) (take (c.cells - 1) (contents s))
      ∙ ap (◌++◌ c.stored) (sym (ap (take c.cells) e ∙ take-cons c.cells b (contents s) h));
  left = m.left ∙ sym (ap (drop c.cells) e ∙ drop-cons c.cells b (contents s) h);
  same_end = m.same_end ∙ q;
  same_want = m.same_want;
  cells_left = omega (arith, m.cells_left, ap length e);
}

read_for-Moved :
    (n : ℕ) (r : PipeRingBuffer) (c : ReadCall)
    → IsValid r
    → IsReading c
    → available_read r ≡ n
    → 0 < n + c.cells
    → (r' : PipeRingBuffer) × (c' : ReadCall) × (read_for n r c
        ≡ some ((if leb c.cells n then some c.want_to_read else none), r', c'))
      × Moved r c r' c'
unfolding read_for store
read_for-Moved zero r c v w e h = (r, c, ground arith, unmoved r c v w (inl (drained r e)))
read_for-Moved (suc n) r c v w e h = elim (Bool-cases (c.cells == 0)) [
  | inl done ↦ (r, c, ground arith, unmoved r c v w (inr (==-true c.cells 0 done)))
  | inr more ↦
      let (b, s, eq, vs, es, ws) = read_byte-contents r v (omega arith) in
      let ne : c.cells ≢ 0 = ground arith in
      let ws' : IsReading (store c b) = store-IsReading c b w ne in
      let es' : available_read s ≡ n =
        omega (arith, length-contents r, length-contents s, ap length es) in
      elim (Bool-cases (c.cells == 1)) [
        | inl last ↦ (
          s,
          store c b,
          ground arith,
          Moved-store r s s c (store c b) b ne es ws
              (unmoved s (store c b) vs ws' (inr (ground arith))),
        )
        | inr further ↦
            let (r', c', q, m) = read_for-Moved n s (store c b) vs ws' es' (ground arith) in
            (r', c', ground arith, Moved-store r s r' c c' b ne es ws m)
      ]
]

-- What a round of `read` returns: the number of bytes when the buffer is full (or has no room), or
-- when the ring is empty and its writing end is gone.
abbrev pub read_result : Bool → PipeRingBuffer → ReadCall → Option ℕ
read_result closed r c =
    if available_read r == 0
    then (if closed then some c.already_read else none)
    else if leb c.cells (available_read r)
    then some c.want_to_read
    else none

-- A round of `read` on a ring whose writing end is known never panics. It moves as many bytes as
-- there are and as fit, from the front of the ring to the end of what was stored; it returns exactly
-- when the user's buffer is full, or the ring was empty and the writing end is closed.
pub read_round-Moved :
    (alive : ℕ → Bool) (r : PipeRingBuffer) (c : ReadCall) (end : ℕ)
    → IsValid r
    → IsReading c
    → r.write_end ≡ some end
    → (r' : PipeRingBuffer) × (c' : ReadCall) × (read_round alive r c
        ≡ some (read_result (not (alive end)) r c, r', c'))
      × Moved r c r' c'
unfolding read_round all_write_ends_closed
read_round-Moved alive r c end v w known = elim (Bool-cases (available_read r == 0)) [
  | inl idle ↦
      (r, c, ground arith, unmoved r c v w (inl (drained r (==-true (available_read r) 0 idle))))
  | inr busy ↦
      let (r', c', e, m) = read_for-Moved (available_read r) r c v w refl (ground arith) in
      (r', c', rw (busy, e), m)
]

pub record IsWriting (c : WriteCall) : Type 0 where
  pub count : c.already_write + length c.bytes ≡ c.want_to_write

pub record Taken (r : PipeRingBuffer) (c : WriteCall) (r' : PipeRingBuffer) (c' : WriteCall)
    : Type 0 where
  pub valid : IsValid r'
  pub writing : IsWriting c'
  pub filled : contents r' ≡ contents r ++ take (available_write r) c.bytes
  pub left : c'.bytes ≡ drop (available_write r) c.bytes
  pub same_end : r'.write_end ≡ r.write_end
  pub same_want : c'.want_to_write ≡ c.want_to_write

untaken :
    (r : PipeRingBuffer) (c : WriteCall)
    → IsValid r
    → IsWriting c
    → (available_write r ≡ 0) ⊎ (c.bytes ≡ [])
    → Taken r c r c
untaken r c v w (inl e) = record {
  valid = v;
  writing = w;
  filled = rw e (sym (append-nil (contents r)));
  left = rw e;
  same_end = refl;
  same_want = refl;
}
untaken r c v w (inr e) = record {
  valid = v;
  writing = w;
  filled =
      sym (append-nil (contents r))
      ∙ ap (◌++◌ (contents r)) (sym (take-nil (available_write r) c.bytes e));
  left = e ∙ sym (drop-nil (available_write r) c.bytes e);
  same_end = refl;
  same_want = refl;
}

abbrev call : ℕ → List ℕ → ℕ → WriteCall
call want bytes done = record { want_to_write = want; bytes = bytes; already_write = done }

Taken-write_byte :
    (r s r' : PipeRingBuffer) (want b : ℕ) (bs : List ℕ) (done : ℕ) (c' : WriteCall)
    → available_write r ≡ suc (available_write s)
    → contents s ≡ contents r ++ b ∷ []
    → s.write_end ≡ r.write_end
    → Taken s (call want bs (done + 1)) r' c'
    → Taken r (call want (b ∷ bs) done) r' c'
Taken-write_byte r s r' want b bs done c' e q k t = record {
  valid = t.valid;
  writing = t.writing;
  filled =
      t.filled
      ∙ ap (λ l. l ++ take (available_write s) bs) q
      ∙ append_assoc (contents r) (b ∷ []) (take (available_write s) bs)
      ∙ ap (λ n. contents r ++ take n (b ∷ bs)) (sym e);
  left = t.left ∙ ap (λ n. drop n (b ∷ bs)) (sym e);
  same_end = t.same_end ∙ k;
  same_want = t.same_want;
}

write_for-Taken :
    (n : ℕ) (r : PipeRingBuffer) (want : ℕ) (bytes : List ℕ) (done : ℕ)
    → IsValid r
    → done + length bytes ≡ want
    → available_write r ≡ n
    → 0 < n + length bytes
    → (r' : PipeRingBuffer) × (c' : WriteCall) × (write_for n r want bytes done
        ≡ some ((if leb (length bytes) n then some want else none), r', c'))
      × Taken r (call want bytes done) r' c'
unfolding write_for
write_for-Taken zero r want bytes done v w e h =
    (r, call want bytes done, ground arith, untaken r _ v (record { count = w }) (inl e))
write_for-Taken (suc n) r want [] done v w e h =
    (r, call want [] done, ground arith, untaken r _ v (record { count = w }) (inr refl))
write_for-Taken (suc n) r want (b ∷ bytes) done v w e h =
    let (s, eq, vs, es, ks) = write_byte-contents r b v (omega arith) in
    let es' : available_write s ≡ n = omega (
      arith,
      available_sum r v,
      available_sum s vs,
      length-contents r,
      length-contents s,
      ap length es,
      length-append (contents r) (b ∷ []),
    ) in
    let more : available_write r ≡ suc (available_write s) = omega arith in
    elim (Bool-cases (length bytes == 0)) [
      | inl last ↦ (
        s,
        call want bytes (done + 1),
        ground arith,
        Taken-write_byte r s s want b bytes done _ more es ks (
            untaken s _ vs (record { count = omega arith })
              (inr (length-zero bytes (ground arith)))),
      )
      | inr further ↦
          let (r', c', q, t) =
            write_for-Taken n s want bytes (done + 1) vs (omega arith) es' (ground arith) in
          (r', c', ground arith, Taken-write_byte r s r' want b bytes done c' more es ks t)
    ]

-- A round of `write` never panics. It moves as many bytes as fit to the end of the ring, in order;
-- it returns exactly when the ring had room and everything that was left has been written.
pub write_round-Taken :
    (r : PipeRingBuffer) (c : WriteCall)
    → IsValid r
    → IsWriting c
    → (r' : PipeRingBuffer) × (c' : WriteCall) × (write_round r c
        ≡ some (
          (if available_write r == 0
              then none
              else if leb (length c.bytes) (available_write r)
              then some c.want_to_write
              else none),
          r',
          c',
        ))
      × Taken r c r' c'
unfolding write_round
write_round-Taken r c v w = elim (Bool-cases (available_write r == 0)) [
  | inl no_room ↦
      (r, c, ground arith, untaken r c v w (inl (==-true (available_write r) 0 no_room)))
  | inr room ↦
      let (r', c', e, t) =
        write_for-Taken (available_write r) r c.want_to_write c.bytes c.already_write v w.count refl
          (ground arith) in
      (r', c', rw (room, e), t)
]

-- The same, of a round that is known to have run.
pub read_round-run :
    (alive : ℕ → Bool) (r : PipeRingBuffer) (c : ReadCall) (end : ℕ) {res : Option ℕ}
    {r' : PipeRingBuffer} {c' : ReadCall}
    → IsValid r
    → IsReading c
    → r.write_end ≡ some end
    → read_round alive r c ≡ some (res, r', c')
    → (res ≡ read_result (not (alive end)) r c) × Moved r c r' c'
read_round-run alive r c end {res} {r'} {c'} v w k h =
    let (r₁, c₁, e, m) = read_round-Moved alive r c end v w k in
    let q : r₁ ≡ r' = cc in let p : c₁ ≡ c' = cc in (cc, subst₂ (Moved r c) q p m)

pub write_round-run :
    (r : PipeRingBuffer) (c : WriteCall) {res : Option ℕ} {r' : PipeRingBuffer} {c' : WriteCall}
    → IsValid r
    → IsWriting c
    → write_round r c ≡ some (res, r', c')
    → (res ≢ none → length c.bytes ≤ available_write r) × Taken r c r' c'
write_round-run r c {res} {r'} {c'} v w h =
    let (r₁, c₁, e, t) = write_round-Taken r c v w in
    let q : r₁ ≡ r' = cc in let p : c₁ ≡ c' = cc in (λ k. ground arith, subst₂ (Taken r c) q p t)
