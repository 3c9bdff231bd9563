-- ===== src/Kernel/Task/Tests.antt =====
-- Ten tasks at addresses 20000 apart, and a file system with the file "ab" of five bytes.
use rathal_os.Prelude.{
  ◌+◌, ◌-◌, ◌*◌, ◌%◌, ◌<◌, ◌≡◌, ◌≢◌, refl, arith, [], ◌∷◌, replicate, get_or, leb, ltb, ◌&&◌,
  if◌then◌else◌,
}
use rathal_os.Memory.{Memory, IsBytes, place, zeros, place-IsBytes}
use rathal_os.Common.Func.{strncmp}
use rathal_os.Common.Inode.{inode_get_from_filename}
use rathal_os.Kernel.Disk.{Disk}
use rathal_os.Kernel.Gdt.{gdt_make_null_segment, descriptor_base}
use rathal_os.Kernel.Fs.{Fs, unused, file_stat, file_open}
use rathal_os.Kernel.Task.{
  Layout, Tasks, no_task, task_setup, tss_index, free_task, start_task, switch, exec,
}
use rathal_os.Kernel.Task.Setup.{IsSetUp, task_setup-IsSetUp, segment_base_is_not_address}
use rathal_os.Kernel.Task.Exec.{Executed, exec-Executed}

abbrev layout : Layout
layout = record {
  task_tss = λ i. 1000000 + 104 * i;
  task_ldt = λ i. 2000000 + 16 * i;
  task_addr_space = λ i. 10000 + 20000 * i;
  task_kernel_stack = λ i. 3000000 + 4096 * i;
}

abbrev tables : Tasks
tables = record {
  gdt_table = replicate 24 gdt_make_null_segment;
  task_table = replicate 10 no_task;
}

-- The name is at 5000; inode 1, of five bytes, is at 2112.
abbrev ram : Memory
ram =
    place 2112 (1 ∷ 0 ∷ b'a' ∷ b'b' ∷ [])
      (place 2150 (5 ∷ []) (place 5000 (b'a' ∷ b'b' ∷ []) zeros))

ram-IsBytes : IsBytes ram
ram-IsBytes =
    place-IsBytes 2112 (1 ∷ 0 ∷ b'a' ∷ b'b' ∷ [])
      (place 2150 (5 ∷ []) (place 5000 (b'a' ∷ b'b' ∷ []) zeros)) (omega arith)
      (place-IsBytes 2150 (5 ∷ []) (place 5000 (b'a' ∷ b'b' ∷ []) zeros) (omega arith)
        (place-IsBytes 5000 (b'a' ∷ b'b' ∷ []) zeros (omega arith) (λ a. omega arith)))

abbrev files : Fs
files = record {
  memory = ram;
  global_buffer = 0;
  superblock = 0;
  inode_bitmap = record { count = 4; size = 1; bits = 512 };
  inode_table = record { inode_count = 4; size = 256; inodes = 2048 };
  file_descriptor_tab = replicate 50 unused;
  tab_address = 100000;
}

abbrev disk : Disk
disk = record {
  content = λ sector i. (sector + i) % 256;
  read_sector =
      λ sector dst m a. if leb dst a && ltb a (dst + 512) then (sector + (a - dst)) % 256 else m a;
  read_sector_lem = λ sector dst m a. refl;
  content_lt = λ sector i. omega arith;
}

-- The first task of the table is started: its selector is that of entry 4.
starts : (exec disk 0 layout files (task_setup layout ram tables) 5000).2 ≡ switch 32
unfolding exec file_stat file_open inode_get_from_filename strncmp task_setup start_task free_task
starts = refl

task_setup-IsSetUp_example :
    IsSetUp layout ram tables (task_setup layout ram tables) 3 × (tss_index 3 + 1 < 24)
task_setup-IsSetUp_example = task_setup-IsSetUp layout ram tables 3 (refl, refl) (omega arith)

segment_base_is_not_address_example :
    let task = get_or (task_setup layout ram tables).task_table 3 no_task in
    (descriptor_base task.ldt_data ≡ ram 70000) × (descriptor_base task.ldt_data ≢ 70000)
segment_base_is_not_address_example =
    segment_base_is_not_address layout ram tables 3 (refl, refl) ram-IsBytes (omega arith)
      (omega arith)

exec-Executed_example :
    Executed disk 0 layout files tables 5000 (exec disk 0 layout files tables 5000)
exec-Executed_example = exec-Executed disk 0 layout files tables 5000
