-- ===== src/LoadStoreQueue.antt =====
-- The load queue or the store queue (`LDSTQEntry` and `LDSTQ` of sim/include/lsu.h).
pub mod Valid
pub mod Add
pub mod Flush
use cisim.Prelude.{
  ℕ, zero, suc, ◌+◌, ◌-◌, ◌<◌, Bool, true, false, not, ◌&&◌, ◌||◌, leb, ltb, ◌==◌, if◌then◌else◌,
  List, [], ◌∷◌, length, get_elem?, set, replicate, Option, none, some, ◌>>=◌, ◌>>◌, assert, update,
}
use cisim.Prelude.Dict.{lookup}
use cisim.Prelude.Dict
use cisim.Prelude.DictOrder.{remove_item_by_value}
use cisim.Operation.{
  Operation, Ops, is_load, is_store, is_status, executing, finished, sleep, update_status,
  set_finish, modify,
}

-- `op` and `forward_op` are pointers to operations.
pub record LdstqEntry : Type 0 where
  pub dyn_id : ℕ
  pub op : ℕ
  pub address : ℕ
  pub empty : Bool
  pub forward_list : List ℕ
  pub data_forwarded : Bool
  pub forward_op : Option ℕ

-- An entry that is not in use; the source leaves `dynID` and `op` unset.
abbrev pub empty_entry : LdstqEntry
empty_entry = record {
  dyn_id = 0;
  op = 0;
  address = 0;
  empty = true;
  forward_list = [];
  data_forwarded = false;
  forward_op = none;
}

pub record Ldstq : Type 0 where
  pub size : ℕ
  pub used_size : ℕ
  pub queue : List LdstqEntry
  pub entry_map : List (ℕ × ℕ)

unfoldable pub init : ℕ → Ldstq
init size = record {
  size = size;
  used_size = 0;
  queue = replicate size empty_entry;
  entry_map = [];
}

-- `getFreeEntry`, with `none` for -1.
unfoldable pub first_empty : List LdstqEntry → ℕ → Option ℕ
first_empty [] i = none
first_empty (e ∷ es) i = let rest = first_empty es (suc i) in if e.empty then some i else rest

abbrev pub get_free_entry : Ldstq → Option ℕ
get_free_entry q = first_empty q.queue 0

abbrev pub new_entry : Ops → ℕ → LdstqEntry
new_entry ops op = record {
  dyn_id = (ops op).dyn_id;
  op = op;
  address = (ops op).addr;
  empty = false;
  forward_list = [];
  data_forwarded = false;
  forward_op = none;
}

unfoldable pub add_instruction : Ops → Ldstq → ℕ → Option Ldstq
add_instruction ops q op = do
  assert (is_load (ops op) || is_store (ops op))
  entry_id ← get_free_entry q
  some (record q {
    queue = set q.queue entry_id (new_entry ops op);
    entry_map = Dict.insert (ops op).dyn_id entry_id (remove_item_by_value q.entry_map entry_id);
    used_size = q.used_size + 1;
  })

-- The entry that the map gives for an operation.
abbrev pub entry_of : Ops → Ldstq → ℕ → Option (ℕ × LdstqEntry)
entry_of ops q op = do
  entry_id ← lookup (ops op).dyn_id q.entry_map
  e ← get_elem? q.queue entry_id
  some (entry_id, e)

-- For loads only: the data is there. The entry's operation must be executing or asleep; an emptied
-- entry has no operation, and reading it is a fault.
unfoldable pub complete_instruction : Ops → Ldstq → ℕ → Option Ops
complete_instruction ops q op = do
  (entry_id, e) ← entry_of ops q op
  assert (not e.empty)
  assert (is_status (ops e.op).status executing || is_status (ops e.op).status sleep)
  some (modify ops op (set_finish true))

-- An emptied entry is a fault too.
unfoldable pub commit_instruction : Ops → Ldstq → ℕ → Option Ops
commit_instruction ops q op = do
  (entry_id, e) ← entry_of ops q op
  assert (not e.empty)
  assert (is_status (ops e.op).status finished)
  some (modify ops e.op update_status)

-- `none` also where `usedSize` would go below 0.
unfoldable pub free_entry : Ops → Ldstq → ℕ → Option Ldstq
free_entry ops q op = do
  (entry_id, e) ← entry_of ops q op
  assert (ltb 0 q.used_size)
  some (record q { queue = set q.queue entry_id empty_entry; used_size = q.used_size - 1 })

abbrev pub if_full : Ldstq → Bool
if_full q = leb q.size q.used_size

abbrev pub squashed : Ops → LdstqEntry → Bool
squashed ops e = not e.empty && (ops e.op).is_squashed

-- The loop of `flush` over the entries, with `usedSize` so far.
unfoldable pub flush_entries : Ops → List LdstqEntry → ℕ → Option (List LdstqEntry × ℕ)
flush_entries ops [] used = some ([], used)
flush_entries ops (e ∷ es) used = elim (squashed ops e) [
  | true ↦
      assert (ltb 0 used)
      >> (flush_entries ops es (used - 1) >>= λ r. some (empty_entry ∷ r.0, r.1))
  | false ↦ flush_entries ops es used >>= λ r. some (e ∷ r.0, r.1)
]

unfoldable pub flush : Ops → Ldstq → Option Ldstq
flush ops q = do
  (queue, used) ← flush_entries ops q.queue q.used_size
  some (record q { queue = queue; used_size = used })
