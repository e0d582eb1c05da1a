-- ===== src/EasyFs/DiskInode/Resize/Needs.antt =====
-- How many blocks a file takes, with its index blocks.
use t_core.Base.{ℕ, ◌≡◌, ◌<◌, ◌≤◌, ◌+◌, ◌-◌, ◌/◌, ◌%◌, true, false, arith, if◌then◌else◌, refl, leb}
use t_core.EasyFs.DiskInode.Resize.Rows.{position}

-- How many slots the data blocks of a file take, with the index blocks.
abbrev pub slots_of : ℕ → ℕ
slots_of d =
    if leb d 28
    then d
    else if leb d 156
    then d + 1
    else position ((d - 156) / 128) ((d - 156) % 128)

pub slots_of-beyond : (d : ℕ) → 156 < d → slots_of d ≡ position ((d - 156) / 128) ((d - 156) % 128)
slots_of-beyond d h =
    let t1 : leb d 28 ≡ false = ground arith in
    let t2 : leb d 156 ≡ false = ground arith in rw t1 (rw t2 refl)

pub slots_of-small : (d : ℕ) → d ≤ 28 → slots_of d ≡ d
slots_of-small d h = let t : leb d 28 ≡ true = ground arith in rw t refl

pub slots_of_mono : (c d : ℕ) → c ≤ d → slots_of c ≤ slots_of d
slots_of_mono c d h = ground arith

pub many : (c : ℕ) → 28 < c → 28 < slots_of c
many c h = ground arith

pub position_mono : (x y : ℕ) → x ≤ y → position (x / 128) (x % 128) ≤ position (y / 128) (y % 128)
position_mono x y h = ground arith

pub position-ge : (a b : ℕ) → 158 ≤ position a b
position-ge a b = ground arith
