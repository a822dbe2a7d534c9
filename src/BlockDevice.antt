-- ===== src/BlockDevice.antt =====
-- src/devices/block.c: reads and writes of whole sectors on a registered block device. The driver
-- behind `ops` (ide.c) is a store of sectors; the locks only guard the two counters.
use kernel_dev.Prelude.{ℕ, ◌+◌, ltb, ◌==◌, if◌then◌else◌}
use kernel_dev.Prelude.Outcome.{Outcome, returns, faults, ◌>>=◌}

pub record Device (D : Type 0) : Type 0 where
  pub size : ℕ
  pub sectors : ℕ → D
  pub read_cnt : ℕ
  pub write_cnt : ℕ

module _ {D : Type 0} where
  -- PANIC past the end of the device.
  unfoldable pub check_sector : Device D → ℕ → Outcome (Unit {0})
  check_sector dev sector = if ltb sector dev.size then returns tt else faults

  unfoldable pub block_read : Device D → ℕ → Outcome (D × Device D)
  unfolding check_sector
  block_read dev sector = check_sector dev sector >>= λ _.
      returns (dev.sectors sector, record dev { read_cnt = dev.read_cnt + 1 })

  unfoldable pub block_write : Device D → ℕ → D → Outcome (Device D)
  unfolding check_sector
  block_write dev sector d = check_sector dev sector >>= λ _. returns (record dev {
    sectors = λ t. if sector == t then d else dev.sectors t;
    write_cnt = dev.write_cnt + 1;
  })
