-- ===== src/Service/Counter.antt =====
-- The counter of `Service_Impl__` of include/mif/service/detail/service.h, a `size_t`.
pub mod Holders
mod Tests
use mif.Prelude.{nat_beq, ℕ, ◌+◌, ◌-◌, ◌%◌, ◌^◌, Bool, false, ◌||◌}

pub record Object : Type 0 where
  pub counter : ℕ
  pub is_deleted : Bool

abbrev pub created : Object
created = record { counter = 0; is_deleted = false }

-- `AddRef`
pub add_ref : Object → Object
add_ref o = record o { counter = (o.counter + 1) % 2 ^ 64 }

-- `Release`
pub release : Object → Object
release o =
    let counter = (o.counter + 2 ^ 64 - 1) % 2 ^ 64 in
    record { counter = counter; is_deleted = o.is_deleted || nat_beq counter 0 }
