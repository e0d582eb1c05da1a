-- ===== src/Mm/Address/Rounding.antt =====
-- How the addresses and page numbers of address.rs relate.
use t_core.Base.{
  ℕ, zero, suc, ◌≡◌, ◌≤◌, ◌<◌, ◌↔◌, ◌⊎◌, ◌+◌, ◌-◌, ◌*◌, ◌^◌, some, arith, leb, inl, inr, Bool-cases,
}
use t_core.Mm.Address.{virt_addr, usize_of_virt_addr, floor, ceil, indexes, next, collect, pages}

-- The pages from that of `start` to that of `end`, less the last, are the pages that an address from
-- `start` to `end` lies in, and no other. The conditions are that `start` comes before `end`, and that
-- `end` is an address of 39 bits.
pub floor-ceil :
    (start end vpn : ℕ)
    → start < end
    → end ≤ 2 ^ 39
    → ((floor start ≤ vpn) × (vpn < ceil end))
      ↔ ((a : ℕ) × (start ≤ a) × (a < end) × (floor a ≡ vpn))
floor-ceil start end vpn h k = (
  λ w. elim (Bool-cases (leb start (vpn * 4096))) [
    | inl e ↦ (vpn * 4096, ground arith, ground arith, omega arith)
    | inr e ↦ (start, omega arith, h, ground arith)
  ],
  λ w. let (a, b, c, d) = w in (omega arith, omega arith),
)

-- A 64-bit address comes back from its 39 bits exactly if its upper bits are all those of bit 38.
pub usize_of_virt_addr-virt_addr :
    (v : ℕ)
    → v < 2 ^ 64
    → (usize_of_virt_addr (virt_addr v) ≡ v) ↔ ((v < 2 ^ 38) ⊎ (2 ^ 64 - 2 ^ 38 ≤ v))
unfolding usize_of_virt_addr
usize_of_virt_addr-virt_addr v h = (λ e. ground arith, λ w. ground arith)

-- The indexes are below 512, and make up the page number.
pub indexes_lem :
    (vpn : ℕ)
    → vpn < 2 ^ 27
    → ((indexes vpn).0 * 2 ^ 18 + (indexes vpn).1 * 2 ^ 9 + (indexes vpn).2 ≡ vpn)
      × ((indexes vpn).0 < 512)
      × ((indexes vpn).1 < 512)
      × ((indexes vpn).2 < 512)
unfolding indexes
indexes_lem vpn h = (omega arith, omega arith, omega arith, omega arith)

-- A loop over a range goes through its pages in order, and ends.
pub collect-pages :
    (n l : ℕ) → collect (suc n) (record { current = l; end = l + n }) ≡ some (pages l n)
unfolding collect next
collect-pages zero l = ground arith
collect-pages (suc n) l = let ih = collect-pages n (suc l) in ground arith
