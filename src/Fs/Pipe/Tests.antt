-- ===== src/Fs/Pipe/Tests.antt =====
-- Instances of the results about pipe.rs at concrete pipes, and runs of it.
use t_core.Base.{ℕ, ◌+◌, ◌≡◌, refl, some, none, [], ◌∷◌, ◌++◌, arith, replicate, true, min}
use t_core.Fs.Pipe.{
  PipeRingBuffer, ReadCall, WriteCall, normal, write_byte, read_byte, available_read,
  available_write, write_round, is_empty, make_pipe, set_write_end, new, write_for,
}
use t_core.Fs.Pipe.Contents.{
  IsValid, contents, available_sum, write_byte-contents, read_byte-contents,
}
use t_core.Fs.Pipe.Stream.{Stream, Reach, start, Flows, Reach-Flows, Step}
use t_core.Fs.Pipe.Stream.Progress.{run, run_delivers}

-- 7 at index 31, 8 at index 0.
abbrev wrapped : PipeRingBuffer
wrapped = record {
  arr = 8 ∷ replicate 30 0 ++ 7 ∷ [];
  head = 31;
  tail = 1;
  status = normal;
  write_end = some 0;
}

wrapped-IsValid : IsValid wrapped
wrapped-IsValid = record {
  storage = refl;
  head_in = omega arith;
  tail_in = omega arith;
  agrees = omega arith;
}

contents-wrapped : contents wrapped ≡ 7 ∷ 8 ∷ []
unfolding available_read is_empty
contents-wrapped = refl

available_write-wrapped : available_write wrapped ≡ 30
unfolding available_write available_read
available_write-wrapped = refl

available_sum_example : available_read wrapped + available_write wrapped ≡ 32
available_sum_example = available_sum wrapped wrapped-IsValid

write_byte-contents_example :
    (r' : PipeRingBuffer) × (write_byte wrapped 9 ≡ some r')
    × IsValid r'
    × (contents r' ≡ contents wrapped ++ 9 ∷ [])
    × (r'.write_end ≡ some 0)
write_byte-contents_example =
    write_byte-contents wrapped 9 wrapped-IsValid (omega (arith, available_write-wrapped))

read_byte-contents_example :
    (b : ℕ) × (r' : PipeRingBuffer) × (read_byte wrapped ≡ some (b, r'))
    × IsValid r'
    × (contents wrapped ≡ b ∷ contents r')
    × (r'.write_end ≡ some 0)
read_byte-contents_example =
    read_byte-contents wrapped wrapped-IsValid
      (omega (arith, available_sum wrapped wrapped-IsValid, available_write-wrapped))

abbrev three : ReadCall
three = record { want_to_read = 3; cells = 3; stored = []; already_read = 0 }

abbrev two : WriteCall
two = record { want_to_write = 2; bytes = 1 ∷ 2 ∷ []; already_write = 0 }

-- The writer has written its three bytes and returned.
abbrev after_write : Stream
after_write = record {
  ring = record {
    arr = 1 ∷ 2 ∷ 3 ∷ replicate 29 0;
    head = 0;
    tail = 3;
    status = normal;
    write_end = some 0;
  };
  open_end = true;
  writer = record { want_to_write = 3; bytes = []; already_write = 3 };
  written = some 3;
  reader = record { want_to_read = 2; cells = 2; stored = []; already_read = 0 };
  returned = none;
}

after_write-Reach : Reach (start (1 ∷ 2 ∷ 3 ∷ []) 2) after_write
unfolding start make_pipe set_write_end new write_round available_write available_read write_for
    write_byte
after_write-Reach = Reach.next Reach.here (Step.writes (some 3) _ _ refl refl refl)

Reach-Flows_example : Flows (1 ∷ 2 ∷ 3 ∷ []) 2 after_write
Reach-Flows_example = Reach-Flows (1 ∷ 2 ∷ 3 ∷ []) 2 after_write-Reach

run_delivers_example :
    (t : Stream) × (run 8 (start (5 ∷ 6 ∷ 7 ∷ []) 2) ≡ some t)
    × (t.returned ≡ some (min 2 3))
    × (t.reader.stored ≡ 5 ∷ 6 ∷ [])
run_delivers_example = run_delivers (5 ∷ 6 ∷ 7 ∷ []) 2 8 (omega arith)
