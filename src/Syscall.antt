-- ===== src/Syscall.antt =====
-- The system calls that the proxy serves, kernel/systemcall, and their numbers in
-- kernel/systemcalllist.h.
pub mod Files
pub mod Network
pub mod Host
pub mod Words
pub mod Stored
pub mod Linked
pub mod Served
pub mod Received
pub mod Leaks
use azalea.Prelude.{ℕ, ◌-◌, ◌^◌}
use azalea.Offload.Message.{Request}

abbrev pub syscall_sys_read : ℕ
syscall_sys_read = 507

abbrev pub syscall_sys_write : ℕ
syscall_sys_write = 508

abbrev pub syscall_sys_open : ℕ
syscall_sys_open = 510

abbrev pub syscall_sys_close : ℕ
syscall_sys_close = 511

abbrev pub syscall_sys_lseek : ℕ
syscall_sys_lseek = 520

abbrev pub syscall_sys_creat : ℕ
syscall_sys_creat = 528

abbrev pub syscall_sys_unlink : ℕ
syscall_sys_unlink = 530

abbrev pub syscall_sys_stat : ℕ
syscall_sys_stat = 531

abbrev pub syscall_sys_chdir : ℕ
syscall_sys_chdir = 533

abbrev pub syscall_sys_link : ℕ
syscall_sys_link = 534

abbrev pub syscall_sys_gethostname : ℕ
syscall_sys_gethostname = 601

abbrev pub syscall_sys_gethostbyname : ℕ
syscall_sys_gethostbyname = 602

abbrev pub syscall_sys_getsockname : ℕ
syscall_sys_getsockname = 603

abbrev pub syscall_sys_socket : ℕ
syscall_sys_socket = 604

abbrev pub syscall_sys_bind : ℕ
syscall_sys_bind = 605

abbrev pub syscall_sys_listen : ℕ
syscall_sys_listen = 606

abbrev pub syscall_sys_connect : ℕ
syscall_sys_connect = 607

abbrev pub syscall_sys_accept : ℕ
syscall_sys_accept = 608

abbrev pub syscall_sys3_getcwd : ℕ
syscall_sys3_getcwd = 903

abbrev pub syscall_sys3_system : ℕ
syscall_sys3_system = 904

abbrev pub syscall_sys3_opendir : ℕ
syscall_sys3_opendir = 905

abbrev pub syscall_sys3_closedir : ℕ
syscall_sys3_closedir = 906

abbrev pub syscall_sys3_readdir : ℕ
syscall_sys3_readdir = 907

abbrev pub syscall_sys3_rewinddir : ℕ
syscall_sys3_rewinddir = 908

-- What a call sees of the kernel: the channel of its core, 0 for NULL, and the translation of an
-- address by the page tables.
pub record Kernel : Type 0 where
  pub ch : ℕ
  pub get_pa : ℕ → ℕ

-- A system call: it returns at once, or it sends a request and goes on with the answer.
pub data Call {ℓ} (A : Type ℓ) : Type ℓ where
  returns : A → Call A
  offload : Request → (ℕ → A) → Call A

abbrev pub request : (offload_function_type param1 param2 param3 param4 param5 param6 : ℕ) → Request
request t p1 p2 p3 p4 p5 p6 = record {
  offload_function_type = t;
  param1 = p1;
  param2 = p2;
  param3 = p3;
  param4 = p4;
  param5 = p5;
  param6 = p6;
}

-- -1, as an `int` and as a QWORD
abbrev pub minus_one : ℕ
minus_one = 2 ^ 32 - 1

abbrev pub minus_one_long : ℕ
minus_one_long = 2 ^ 64 - 1
