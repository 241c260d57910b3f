-- ===== src/Examples/Vmm.antt =====
-- kernel/mm/vmm.c: an empty root table at 4096, and three pages above it that can be taken.
use fg_os.Base.{ℕ, ◌+◌, ◌*◌, ◌==◌, ltb, refl, arith, if◌then◌else◌}
use fg_os.Memory.Vmm.{Vmm, vmm_map_page}
use fg_os.Memory.Vmm.Walk.{IsSupply, IsTree}
use fg_os.Memory.Vmm.Translate.{Mapped, vmm_get_physical-vmm_map_page}

abbrev pages : ℕ → ℕ
pages n = if ltb n 3 then (n + 2) * 4096 else 0

abbrev level : ℕ → ℕ
level q = if q == 4096 then 4 else 0

abbrev tables : Vmm
tables = record { kernel_pml4 = 4096; kernel_cr3 = 4096; words = λ t i. 0; taken = 0 }

pages-IsSupply : IsSupply pages
pages-IsSupply = (λ n. (ground arith, ground arith), λ n m o left e. ground arith)

tables-IsTree : IsTree pages level tables
tables-IsTree = (λ t i h here. absurd (ground (arith, here)), λ n h left. ground arith)

vmm_get_physical-vmm_map_page_example :
    Mapped pages 0 1311768467 20480 (vmm_map_page pages 1311768467 20480 3 tables)
vmm_get_physical-vmm_map_page_example =
    vmm_get_physical-vmm_map_page pages level 1311768467 20480 3 tables pages-IsSupply tables-IsTree
      refl (omega arith) (omega arith) refl
