-- ===== src/Lib.antt =====
-- RathalOS, a small 32-bit x86 kernel with a file system of its own, user programs and the tools
-- that build a disk image.
--
-- Parts of the program, and how they interact. The kernel (kernel/) starts with a blank screen, sets up
-- its segments and its tasks, the interrupt gates, the keyboard, the timer and the file system, and
-- then runs the file "shell" as a task. Interrupts reach the handlers of the timer and of the keyboard
-- (kernel/idt/idt.c); a user program (user/) reaches the kernel by a system call
-- (kernel/syscalls/syscall.c), whose arguments are addresses within its own segments; `exec`
-- (kernel/task/task.c) reads a file by means of the file system (kernel/fs/fs.c), which searches inodes
-- (common/fs/inode.c) with the string functions (common/func.c), frees them in a bitmap
-- (common/fs/bitmap.c) and reads sectors through the disk driver (kernel/drivers/ide.c).
--
-- Files and the code that they model. In each folder the file of a part holds its state and operations,
-- its children the properties and, in Tests, runs on concrete data.
--   Prelude          lists, tests, integers and bit fields over native numbers
--   Memory           the flat memory of the kernel: a byte at each address, which do not wrap
--   Common.Func      common/func.c: memset, memcpy, strlen, strncpy, strcmp, strncmp, strcat, int_len
--   Common.Bitmap    common/fs/bitmap.c
--   Common.Inode     common/fs/inode.c and inode.h, the inode packed in 64 bytes
--   Kernel.Disk      the interface of the disk, which Kernel.Ide fills
--   Kernel.Fs        kernel/fs/fs.c, with common/fs/superblock.h; the static variables are the record
--                    Fs; Kernel.Fs.Read is file_read. An entry behind the descriptor table is the nine
--                    bytes of memory at its address
--   Kernel.Gdt       kernel/gdt/gdt.c and the constants of kernel/x86.h
--   Kernel.Task      kernel/task/task.c; the addresses of the memory blocks of a task are a parameter
--   Kernel.Syscall   kernel/syscalls/syscall.c, with common/syscall_nb.h: the dispatch; the functions of
--                    the table are in Kernel.Syscall.Functions, the whole call in Kernel.Syscall.Perform
--   Kernel.Keymap    kernel/drivers/key_map.c
--   Kernel.Keyboard  kernel/drivers/keyboard.c; Kernel.Keyboard.Run has the queue that it stands for
--   Kernel.Timer     kernel/drivers/timer.c; Kernel.Timer.Sleep has the wait of sleep
--   Kernel.Ide       kernel/drivers/ide.c; what the drive answers to the bytes written is a parameter
--   Kernel.Idt       kernel/idt/idt.c and kernel/drivers/pic.c
--   Kernel.Crtc      the interface of the CRT controller, which stands for hardware
--   Kernel.Display   kernel/display/display.c; Kernel.Display.View has the screen of text that it stands
--                    for
--   Kernel.Print     print_int, printf and time_graphic of kernel/display/display.c
--   Kernel.Lines     read_line of kernel/display/display.c and kernel/drivers/shell_drivers.c
--   Tools.Image      an image: a file of the C library, with fseek, fread and fwrite
--   Tools.Superblock tools/superblock.c, with common/fs/fs.h; Tools.Superblock.Bytes has the bytes
--   Tools.Blocks     tools/blocks.c
--   Tools.Tables     tools/bitmap.c and tools/inode.c
--   Tools.Fs         tools/fs.c from an inode on
--   Tools.Open       what tools/fs.c, tools/fs_add.c and tools/fs_del.c start and end with; fs_read
--   Tools.Add        tools/fs_add.c
--   Tools.Delete     tools/fs_del.c
--   Tools.Create     tools/fs_create.c
--   Tools.Show       tools/fs_list.c and tools/fs_cat.c, whose output is data
--   User.Wrapper     starts_with, atoi and trim of user/wrapper.c, with the strlen of that file, which
--                    measures the bytes of its parameter; User.Wrapper.Calls has the system call
--                    that each wrapper makes, User.Wrapper.System what some of them do in the kernel
--
-- Numbers. A pointer is an address; unsigned integers are natural numbers, reduced modulo 2 ^ 8, 2 ^ 16
-- or 2 ^ 32 where the code's type wraps; an int that can be negative is an integer. Variables that the
-- code does not initialise are arguments of the model. The static tables of the kernel are records and
-- lists; memory is all the rest, so that a write through a wrong pointer does not reach those tables.
--
-- Fuel. Loops with a counter are recursions on it. The loops up to a NUL (strlen, strcmp, strcat,
-- display_string, atoi) and the loop over digits in int_len run on fuel, and the model returns nothing
-- when it runs out; more than the length of the string is enough. The wait in sleep runs on a list of the
-- numbers of timer interrupts between its tests; while the tick does not wrap, a sum that reaches the
-- number of ticks to wait for is enough. On fuel runs printf too, which needs more fuel than its format has
-- characters, and where it prints strings, more than the strings have. The loop of fs_read in the tools runs on the number of bytes
-- asked for, since every round delivers one or more; the digits of print_int are at most 32. No fuel is
-- assumed elsewhere. Waiting in getc is an outcome.
--
-- Tools. They are compiled for 32 bits (-m32 in tools/makefile), so a long has 32 bits, and a division of
-- it by an unsigned number is unsigned. A failed assertion and an exit are the absence of a result. The
-- addresses that ALLOC gives, and those of arrays that are local variables, are arguments. A file of the C
-- library is its bytes, its size and its position; opening, closing and error codes are left out.
--
-- Not modelled: assembly (port access, loading of tables, task switch, boot), since it is not C; what
-- is printed elsewhere, and so tools/fs_info.c and the main function of tools/fs_read.c;
-- exception_handler, which prints and halts; what a task does between
-- the switch to it and its end, which is a parameter of exec as a system call; the main programs
-- (kernel/kernel.c, user/shell.c, user/shell_bak.c), which only call the parts.
pub mod Prelude
pub mod Memory
pub mod Common
pub mod Kernel
pub mod User
pub mod Tools
