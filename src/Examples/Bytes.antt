-- ===== src/Examples/Bytes.antt =====
-- Runs of memory_utils.c and string_stubs.c on memory that holds the low byte of each address.
use fg_os.Base.{◌%◌, ◌≡◌, arith}
use fg_os.Memory.Bytes.{Mem, memory_copy, memory_set}
use fg_os.Memory.Bytes.Copy.{memory_copy_lem}
use fg_os.Memory.Bytes.Fill.{memory_set_lem}

abbrev counting : Mem
counting = λ a. a % 256

memory_copy_lem_example : memory_copy 105 100 20 counting 110 ≡ 105
memory_copy_lem_example =
    memory_copy_lem 105 100 20 counting 110 (λ e. omega (arith, e)) (λ e. omega (arith, e))

memory_set_lem_example : memory_set 99 0x1ff 21 counting 119 ≡ 255
memory_set_lem_example = memory_set_lem 99 0x1ff 21 counting 119
