-- ===== src/Fs/Pipe/Contents.antt =====
-- The ring buffer of pipe.rs as a queue of bytes.
use t_core.Base.{
  ℕ, zero, suc, ◌+◌, ◌%◌, ◌<◌, ◌≡◌, ◌≢◌, refl, ap, some, List, [], ◌∷◌, ◌++◌, arith, length, get_or,
  set, length-set, get_or-set_self, get_or-set_ne, get_elem?-eq-get_or, ◌==◌, if◌then◌else◌, ◌∙◌,
}
use mathlib.Core.Path.{ap₂}
use t_core.Fs.Pipe.{
  PipeRingBuffer, RingBufferStatus, full, empty, normal, ring_buffer_size, write_byte, read_byte,
  available_read, available_write,
}

-- The `n` bytes of the array from the index `h` on, cyclically.
abbrev pub bytes_from : List ℕ → ℕ → ℕ → List ℕ
bytes_from arr h zero = []
bytes_from arr h (suc n) = get_or arr (h % ring_buffer_size) 0 ∷ bytes_from arr (h + 1) n

abbrev pub contents : PipeRingBuffer → List ℕ
contents r = bytes_from r.arr r.head (available_read r)

-- What the status says of the two indices.
abbrev pub Agrees : RingBufferStatus → ℕ → ℕ → Type 0
Agrees full h t = h ≡ t
Agrees empty h t = h ≡ t
Agrees normal h t = h ≢ t

pub record IsValid (r : PipeRingBuffer) : Type 0 where
  pub storage : length r.arr ≡ ring_buffer_size
  pub head_in : r.head < ring_buffer_size
  pub tail_in : r.tail < ring_buffer_size
  pub agrees : Agrees r.status r.head r.tail

length-bytes_from : (arr : List ℕ) (h n : ℕ) → length (bytes_from arr h n) ≡ n
length-bytes_from arr h zero = refl
length-bytes_from arr h (suc n) = ap suc (length-bytes_from arr (h + 1) n)

bytes_from-congr :
    (arr : List ℕ) (h k n : ℕ)
    → h % ring_buffer_size ≡ k % ring_buffer_size
    → bytes_from arr h n ≡ bytes_from arr k n
bytes_from-congr arr h k zero e = refl
bytes_from-congr arr h k (suc n) e =
    ap₂ ◌∷◌ (ap (λ i. get_or arr i 0) e) (bytes_from-congr arr (h + 1) (k + 1) n (omega arith))

bytes_from-set :
    (arr : List ℕ) (b h n i : ℕ)
    → length arr ≡ ring_buffer_size
    → n < ring_buffer_size
    → i ≡ (h + n) % ring_buffer_size
    → bytes_from (set arr i b) h (suc n) ≡ bytes_from arr h n ++ b ∷ []
bytes_from-set arr b h zero i len hn e =
    let q : h % 32 ≡ i = omega arith in rw (q, get_or-set_self arr i b 0 (omega arith))
bytes_from-set arr b h (suc n) i len hn e =
    ap₂ ◌∷◌ (get_or-set_ne arr b 0 (omega arith))
      (bytes_from-set arr b (h + 1) n i len (omega arith) (omega arith))

pub length-contents : (r : PipeRingBuffer) → length (contents r) ≡ available_read r
length-contents r = length-bytes_from r.arr r.head (available_read r)

-- The two counts make up the ring.
pub available_sum :
    (r : PipeRingBuffer) → IsValid r → available_read r + available_write r ≡ ring_buffer_size
unfolding available_read available_write
available_sum r v = ground arith

-- The writing index stands just behind the contents.
tail-eq :
    (r : PipeRingBuffer)
    → IsValid r
    → available_write r ≢ 0
    → (r.tail ≡ (r.head + available_read r) % ring_buffer_size)
      × (available_read r < ring_buffer_size)
unfolding available_read available_write
tail-eq r v h = ground arith

abbrev written : PipeRingBuffer → ℕ → PipeRingBuffer
written r b =
    let tail = (r.tail + 1) % ring_buffer_size in
    record r {
      arr = set r.arr r.tail b;
      tail = tail;
      status = if tail == r.head then full else normal;
    }

available_read-written :
    (r : PipeRingBuffer) (b : ℕ)
    → IsValid r
    → available_write r ≢ 0
    → available_read (written r b) ≡ suc (available_read r)
unfolding available_read available_write
available_read-written r b v h = ground arith

written-IsValid :
    (r : PipeRingBuffer) (b : ℕ) → IsValid r → available_write r ≢ 0 → IsValid (written r b)
unfolding available_read available_write
written-IsValid r b v h = ground (arith, length-set r.arr r.tail b)

contents-written :
    (r : PipeRingBuffer) (b : ℕ)
    → IsValid r
    → available_write r ≢ 0
    → contents (written r b) ≡ contents r ++ b ∷ []
contents-written r b v h = rw (available_read-written r b v h) (
    bytes_from-set r.arr b r.head (available_read r) r.tail v.storage (tail-eq r v h).1
      (tail-eq r v h).0)

-- A ring that is not full takes one byte, at the end of its contents.
pub write_byte-contents :
    (r : PipeRingBuffer) (b : ℕ)
    → IsValid r
    → available_write r ≢ 0
    → (r' : PipeRingBuffer) × (write_byte r b ≡ some r')
      × IsValid r'
      × (contents r' ≡ contents r ++ b ∷ [])
      × (r'.write_end ≡ r.write_end)
unfolding write_byte
write_byte-contents r b v h =
    (written r b, ground arith, written-IsValid r b v h, contents-written r b v h, refl)

abbrev rest_of : PipeRingBuffer → PipeRingBuffer
rest_of r =
    let head = (r.head + 1) % ring_buffer_size in
    record r { head = head; status = if head == r.tail then empty else normal }

available_read-rest_of :
    (r : PipeRingBuffer)
    → IsValid r
    → available_read r ≢ 0
    → available_read r ≡ suc (available_read (rest_of r))
unfolding available_read
available_read-rest_of r v h = ground arith

rest_of-IsValid : (r : PipeRingBuffer) → IsValid r → IsValid (rest_of r)
rest_of-IsValid r v = ground arith

contents-rest_of :
    (r : PipeRingBuffer)
    → IsValid r
    → available_read r ≢ 0
    → contents r ≡ get_or r.arr r.head 0 ∷ contents (rest_of r)
contents-rest_of r v h =
    let q : r.head % 32 ≡ r.head = omega arith in
    ap (bytes_from r.arr r.head) (available_read-rest_of r v h)
    ∙ ap₂ ◌∷◌ (ap (λ i. get_or r.arr i 0) q)
        (bytes_from-congr r.arr (r.head + 1) _ (available_read (rest_of r)) (omega arith))

-- A ring that is not empty gives up the first byte of its contents.
pub read_byte-contents :
    (r : PipeRingBuffer)
    → IsValid r
    → available_read r ≢ 0
    → (b : ℕ) × (r' : PipeRingBuffer) × (read_byte r ≡ some (b, r'))
      × IsValid r'
      × (contents r ≡ b ∷ contents r')
      × (r'.write_end ≡ r.write_end)
unfolding read_byte
read_byte-contents r v h = (
  get_or r.arr r.head 0,
  rest_of r,
  rw (get_elem?-eq-get_or r.arr r.head 0 (omega arith)),
  rest_of-IsValid r v,
  contents-rest_of r v h,
  refl,
)
