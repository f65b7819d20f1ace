-- ===== src/Interrupt.antt =====
-- kernel/interrupt.c: the interrupt flag, which the critical sections of the kernel save, clear
-- and restore. The flag stands for IF in EFLAGS.
use os_zhenxiang.Prelude.{◌≡◌, refl}

-- `enum intr_status`
pub data IntrStatus : Type 0 where
  intr_off intr_on : IntrStatus

-- Each returns the new flag and the status that it had before.
abbrev pub intr_enable : IntrStatus → IntrStatus × IntrStatus
intr_enable intr_on = (intr_on, intr_on)
intr_enable intr_off = (intr_on, intr_off)

abbrev pub intr_disable : IntrStatus → IntrStatus × IntrStatus
intr_disable intr_on = (intr_off, intr_on)
intr_disable intr_off = (intr_off, intr_off)

abbrev pub intr_set_status : (status flag : IntrStatus) → IntrStatus × IntrStatus
intr_set_status intr_on flag = intr_enable flag
intr_set_status intr_off flag = intr_disable flag

abbrev pub intr_get_status : IntrStatus → IntrStatus
intr_get_status flag = flag

-- A section between `intr_disable` and `intr_set_status` runs with interrupts off, and leaves the
-- flag as it was.
pub section_restores :
    (flag : IntrStatus)
    → let (off, old) = intr_disable flag in (off ≡ intr_off) × ((intr_set_status old off).0 ≡ flag)
section_restores intr_on = (refl, refl)
section_restores intr_off = (refl, refl)
