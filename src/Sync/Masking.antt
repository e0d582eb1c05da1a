-- ===== src/Sync/Masking.antt =====
-- os/src/sync/up.rs: the nesting of the sections that run with interrupts off.
pub mod Tests
pub mod Nesting
use t_core.Base.{ℕ, Bool, false, ◌+◌, ◌%◌, ◌^◌, if◌then◌else◌, ◌-◌, ◌==◌, true}

-- `IntrMaskingInfo`, with the bit SIE of the register sstatus that it saves and restores.
pub record Masking : Type 0 where
  pub sie : Bool
  pub nested_level : ℕ
  pub sie_before_masking : Bool

pub new : Bool → Masking
new sie = record { sie = sie; nested_level = 0; sie_before_masking = false }

pub enter : Masking → Masking
enter s = record {
  sie = false;
  nested_level = (s.nested_level + 1) % 2 ^ 64;
  sie_before_masking = if s.nested_level == 0 then s.sie else s.sie_before_masking;
}

pub exit : Masking → Masking
exit s =
    let nested_level = (s.nested_level + 2 ^ 64 - 1) % 2 ^ 64 in
    record s {
      sie = if nested_level == 0 then (if s.sie_before_masking then true else s.sie) else s.sie;
      nested_level = nested_level;
    }
