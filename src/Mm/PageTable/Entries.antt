-- ===== src/Mm/PageTable/Entries.antt =====
-- What an entry of page_table.rs says.
use t_core.Base.{ℕ, ◌≡◌, ◌<◌, ◌^◌, ◌%◌, ◌==◌, arith, true, false, refl}
use t_core.Mm.PageTable.{pte, ppn_of, flags_of, is_valid, or_v, has_flag, empty}

-- An entry gives back the page number and the flags that it was made with.
pub of-pte :
    (ppn flags : ℕ)
    → ppn < 2 ^ 44
    → flags < 2 ^ 8
    → (ppn_of (pte ppn flags) ≡ ppn) × (flags_of (pte ppn flags) ≡ flags)
unfolding ppn_of pte flags_of
of-pte ppn flags h k = (omega arith, omega arith)

pub is_valid-flags : (bits : ℕ) → is_valid bits ≡ (flags_of bits % 2 == 1)
unfolding is_valid has_flag flags_of
is_valid-flags bits = ground arith

pub is_valid-pte :
    (ppn flags : ℕ) → ppn < 2 ^ 44 → flags < 2 ^ 8 → is_valid (pte ppn (or_v flags)) ≡ true
unfolding is_valid has_flag flags_of pte
is_valid-pte ppn flags h k = ground arith

pub is_valid-empty : is_valid empty ≡ false
unfolding is_valid has_flag flags_of
is_valid-empty = refl
