-- ===== src/Mm/Address.antt =====
-- os/src/mm/address.rs: addresses and page numbers, how they are rounded and split, and ranges of pages.
pub mod Rounding
mod Tests
use t_core.Base.{
  ◌>>=◌, ◌>>◌, ℕ, zero, suc, ◌+◌, ◌-◌, ◌*◌, ◌/◌, ◌%◌, ◌^◌, Bool, Option, none, some, List, [], ◌∷◌,
  leb, ◌==◌, if◌then◌else◌, assert,
}

abbrev pub page_size_bits : ℕ
page_size_bits = 12

abbrev pub page_bytes : ℕ
page_bytes = 4096

abbrev pub pa_width_sv39 : ℕ
pa_width_sv39 = 56

abbrev pub va_width_sv39 : ℕ
va_width_sv39 = 39

-- `PhysAddr::from`, `VirtAddr::from`, `VirtPageNum::from`: the low bits.
abbrev pub phys_addr : ℕ → ℕ
phys_addr v = v % 2 ^ pa_width_sv39

abbrev pub virt_addr : ℕ → ℕ
virt_addr v = v % 2 ^ va_width_sv39

abbrev pub virt_page_num : ℕ → ℕ
virt_page_num v = v % 2 ^ (va_width_sv39 - page_size_bits)

-- `usize::from(VirtAddr)`: the top bit of the address fills the bits above it.
pub usize_of_virt_addr : ℕ → ℕ
usize_of_virt_addr v =
    if leb (2 ^ (va_width_sv39 - 1)) v
    then v % 2 ^ va_width_sv39 + (2 ^ 64 - 2 ^ va_width_sv39)
    else v

abbrev pub floor : ℕ → ℕ
floor va = va / page_bytes

-- The subtraction and the addition wrap around, so that 0 is rounded to 0.
abbrev pub ceil : ℕ → ℕ
ceil va = ((va + 2 ^ 64 - 1) % 2 ^ 64 + page_bytes) % 2 ^ 64 / page_bytes

abbrev pub page_offset : ℕ → ℕ
page_offset va = va % page_bytes

abbrev pub aligned : ℕ → Bool
aligned va = page_offset va == 0

-- `VirtPageNum::from(VirtAddr)`; `none` is the failed assertion.
unfoldable pub page_of : ℕ → Option ℕ
page_of va = do assert (aligned va); some (floor va)

-- `VirtAddr::from(VirtPageNum)` and `PhysAddr::from(PhysPageNum)`
abbrev pub address_of : ℕ → ℕ
address_of vpn = vpn * 2 ^ page_size_bits % 2 ^ 64

-- The three indexes of a page number, the root's first; the loop fills them from the last one.
unfoldable pub indexes : ℕ → ℕ × ℕ × ℕ
indexes vpn = (vpn / 2 ^ 9 / 2 ^ 9 % 512, vpn / 2 ^ 9 % 512, vpn % 512)

-- A range of page numbers, and its iterator.
pub record VpnRange : Type 0 where
  pub l : ℕ
  pub r : ℕ

-- `none` is the failed assertion.
unfoldable pub new_range : ℕ → ℕ → Option VpnRange
new_range start end = do assert (leb start end); some (record { l = start; r = end })

pub record VpnRangeIterator : Type 0 where
  pub current : ℕ
  pub end : ℕ

pub into_iter : VpnRange → VpnRangeIterator
into_iter range = record { current = range.l; end = range.r }

pub next : VpnRangeIterator → Option (ℕ × VpnRangeIterator)
next it =
    if it.current == it.end then none else some (it.current, record it { current = it.current + 1 })

-- What a `for` loop over the iterator goes through, in order; `none` means that the fuel ran out.
pub collect : ℕ → VpnRangeIterator → Option (List ℕ)
unfolding next
collect zero it = none
collect (suc fuel) it = elim (next it) [
  | none ↦ some []
  | some (vpn, it') ↦ do rest ← collect fuel it'; some (vpn ∷ rest)
]

-- The pages from `l` on, `n` of them.
abbrev pub pages : ℕ → ℕ → List ℕ
pages l zero = []
pages l (suc n) = l ∷ pages (suc l) n
