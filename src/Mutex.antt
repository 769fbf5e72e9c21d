-- ===== src/Mutex.antt =====
-- detail/container/data_container.hpp: the reader-writer lock of a container, a
-- `std::shared_mutex`: `writers` is 0 or 1. To unlock what is not locked is undefined.
use neo_sycl.Prelude.{ℕ, ◌+◌, ◌-◌, ◌&&◌, ◌==◌, if◌then◌else◌}
use neo_sycl.Outcome.{Outcome, done, blocks, undefined}

pub record Mutex : Type 0 where
  pub readers : ℕ
  pub writers : ℕ

unfoldable pub lock_read : Mutex → Outcome Mutex
lock_read m = if m.writers == 0 then done (record m { readers = m.readers + 1 }) else blocks

unfoldable pub unlock_read : Mutex → Outcome Mutex
unlock_read m = if m.readers == 0 then undefined else done (record m { readers = m.readers - 1 })

unfoldable pub lock_write : Mutex → Outcome Mutex
lock_write m =
    if m.writers == 0 && m.readers == 0 then done (record m { writers = m.writers + 1 }) else blocks

unfoldable pub unlock_write : Mutex → Outcome Mutex
unlock_write m = if m.writers == 0 then undefined else done (record m { writers = m.writers - 1 })
