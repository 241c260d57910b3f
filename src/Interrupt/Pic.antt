-- ===== src/Interrupt/Pic.antt =====
-- kernel/interrupt/interrupt.c, pic_enable_irq and pic_disable_irq: which lines count as enabled.
use fg_os.Base.{ℕ, ◌<◌, ◌%◌, ◌==◌, true, false, ◌≡◌, arith, if◌then◌else◌}
use fg_os.Interrupt.State.{Machine}
use fg_os.Interrupt.Control.{pic_enable_irq, pic_disable_irq, inb, outb}

-- pic_enable_irq and pic_disable_irq of a line below 16: the flag that they change is that of the
-- line's number at its own controller, the remainder modulo 8, so for a line of the second controller
-- it is the flag of a line of the first; all other flags are as they were.
pub pic_enable_irq-enabled :
    (irq j : ℕ) (k : Machine)
    → irq < 16
    → (((pic_enable_irq irq k).hardware j).enabled
        ≡ (if irq % 8 == j then true else (k.hardware j).enabled))
      × (((pic_disable_irq irq k).hardware j).enabled
          ≡ (if irq % 8 == j then false else (k.hardware j).enabled))
unfolding pic_enable_irq pic_disable_irq inb outb
pic_enable_irq-enabled irq j k few = (ground arith, ground arith)
