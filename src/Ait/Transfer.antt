-- ===== src/Ait/Transfer.antt =====
-- src/general/ait.cpp, `init_state_trans_table`: the table of state transfers.
pub mod Write
pub mod Read
use vans.Base.{ℕ, Option, some, none, Result}
use vans.NextLevel.{NextLevel}
use vans.Ait.Entry.{
  BufferEntry, RequestType, read_miss, read_hit, write_miss, write_hit, RequestState, init,
  pending_read_media, pending_write_media, pending_read_dram, pending_write_dram, pending_migration,
}
use vans.Ait.Controller.{Core}
use Write
use Read

abbrev pub Transfer : Type 0 → Type 0 → Type 0
Transfer N M = ℕ → BufferEntry → ℕ → Core N M → Result (BufferEntry × Core N M)

module _ {N M : Type 0} (next : NextLevel N) where
  -- `none` is the empty function that the table starts with.
  unfoldable pub state_trans : RequestType → RequestState → Option (Transfer N M)
  state_trans write_miss init = some (Write.write_miss_init next)
  state_trans write_miss pending_read_media = some (Write.write_miss_pending_read_media next)
  state_trans write_miss pending_write_dram = some (Write.write_miss_pending_write_dram next)
  state_trans write_miss pending_migration = some (Write.write_miss_pending_migration next)
  state_trans write_miss pending_write_media = some (Write.write_miss_pending_write_media next)
  state_trans write_hit init = some (Write.write_hit_init next)
  state_trans write_hit pending_write_dram = some (Write.write_hit_pending_write_dram next)
  state_trans write_hit pending_migration = some (Write.write_hit_pending_migration next)
  state_trans write_hit pending_write_media = some (Write.write_hit_pending_write_media next)
  state_trans read_miss init = some (Read.read_miss_init next)
  state_trans read_miss pending_read_media = some (Read.read_miss_pending_read_media next)
  state_trans read_miss pending_read_dram = some (Read.read_miss_pending_read_dram next)
  state_trans read_hit init = some (Read.read_hit_init next)
  state_trans read_hit pending_read_dram = some (Read.read_hit_pending_read_dram next)
  state_trans _ _ = none
