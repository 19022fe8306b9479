-- ===== src/MemTransaction.antt =====
-- Memory transactions (`MemTransaction` of sim/include/mem/mem_transaction.h). No field changes once a
-- transaction has been sent, so that a pointer to one is the transaction.
use cisim.Prelude.{ℕ, Bool, true, false, Option}

-- `hwID`: -1 is an eviction, -2 no hardware (a prefetch), any other the number of a hardware instance.
pub data HwId : Type 0 where
  evict no_hardware : HwId
  hardware : ℕ → HwId

-- `dyn_id` is the bit pattern of an `int`, and `op` is `none` for a null pointer.
pub record MemTransaction : Type 0 where
  pub op : Option ℕ
  pub dyn_id : ℕ
  pub addr : ℕ
  pub is_load_req : Bool
  pub from_icache : Bool
  pub is_prefetch : Bool
  pub hw_id : HwId

-- `hwID == -1`
abbrev pub is_evict : MemTransaction → Bool
is_evict t = elim t.hw_id [ HwId.evict ↦ true | _ ↦ false ]

-- `hwID >= 0`
abbrev pub is_hardware : MemTransaction → Bool
is_hardware t = elim t.hw_id [ HwId.hardware n ↦ true | _ ↦ false ]
