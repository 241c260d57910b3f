-- ===== src/Drivers/Device/Gentle.antt =====
-- The drivers that keep to their own business: their operations answer a number and fill in requests,
-- and leave the devices, the lists and the counters of kernel/drivers/device.c alone. What they do to
-- their hardware, or to the fields of a device that the framework does not read, is not modelled.
use fg_os.Base.{ℕ}
use fg_os.Base.Int.{ℤ}
use fg_os.Drivers.Device.Types.{Env, Manager, Op, Request}

pub record Gentle : Type 0 where
  pub clock : ℕ → ℕ
  pub reply : Op → (driver device a b : ℕ) → Manager → ℤ
  pub fill : Op → (driver device a b : ℕ) → Manager → ℕ → Request
  pub notify : (callback request : ℕ) → Manager → ℕ → Request

abbrev pub gentle : Gentle → Env
gentle g = record {
  clock = g.clock;
  call = λ op driver device a b m.
      (g.reply op driver device a b m, record m { requests = g.fill op driver device a b m });
  notify = λ callback request m. record m { requests = g.notify callback request m };
}
