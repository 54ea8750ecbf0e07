-- ===== src/Syscall/Files.antt =====
-- The calls on files, kernel/systemcall/offload_fio.c. The arguments are words of their types and
-- addresses, and so are the results; an `int` is sign extended where it becomes a QWORD.
use azalea.Prelude.{ℕ, ◌%◌, ◌^◌, ◌||◌, ◌&&◌, ◌==◌, if◌then◌else◌}
use azalea.Utility.{Ram}
use azalea.Utility.Copy.{lk_memcpy}
use azalea.Prelude.Words.{extend_int}
use azalea.Buddy.Api.{Memory, az_alloc, az_free}
use azalea.Proxy.{int_lt}
use azalea.Syscall.{
  Kernel, Call, returns, offload, request, minus_one, minus_one_long, syscall_sys_read,
  syscall_sys_write, syscall_sys_open, syscall_sys_close, syscall_sys_lseek, syscall_sys_creat,
  syscall_sys_unlink, syscall_sys_stat, syscall_sys_chdir, syscall_sys_link, syscall_sys3_getcwd,
  syscall_sys3_system, syscall_sys3_opendir, syscall_sys3_closedir, syscall_sys3_readdir,
  syscall_sys3_rewinddir,
}

-- `(int)` of the answer.
abbrev pub to_int : ℕ → ℕ
to_int ret = ret % 2 ^ 32

unfoldable pub sys_off_open : Kernel → (path oflag mode : ℕ) → Call ℕ
sys_off_open k path oflag mode =
    if path == 0
    then returns minus_one
    else if k.ch == 0
    then returns minus_one
    else offload (request syscall_sys_open (k.get_pa path) (extend_int oflag) mode 0 0 0) to_int

unfoldable pub sys_off_creat : Kernel → (path mode : ℕ) → Call ℕ
sys_off_creat k path mode =
    if path == 0
    then returns minus_one
    else if k.ch == 0
    then returns minus_one
    else offload (request syscall_sys_creat (k.get_pa path) mode 0 0 0 0) to_int

unfoldable pub sys_off_read : Kernel → (fd buf count : ℕ) → Call ℕ
sys_off_read k fd buf count =
    if count == 0
    then returns minus_one_long
    else if k.ch == 0
    then returns minus_one_long
    else offload (request syscall_sys_read (extend_int fd) (k.get_pa buf) count 0 0 0) (λ ret. ret)

unfoldable pub sys_off_write : Kernel → (fd buf count : ℕ) → Call ℕ
sys_off_write k fd buf count =
    if count == 0
    then returns minus_one_long
    else if k.ch == 0
    then returns minus_one_long
    else offload (request syscall_sys_write (extend_int fd) (k.get_pa buf) count 0 0 0) (λ ret. ret)

unfoldable pub sys_off_close : Kernel → (fd : ℕ) → Call ℕ
sys_off_close k fd =
    if k.ch == 0
    then returns minus_one
    else if int_lt fd 3
    then returns minus_one
    else offload (request syscall_sys_close (extend_int fd) 0 0 0 0 0) to_int

unfoldable pub sys_off_lseek : Kernel → (fd offset whence : ℕ) → Call ℕ
sys_off_lseek k fd offset whence =
    if k.ch == 0
    then returns minus_one_long
    else if int_lt fd 3
    then returns minus_one_long
    else offload (request syscall_sys_lseek (extend_int fd) offset (extend_int whence) 0 0 0)
        (λ ret. ret)

unfoldable pub sys_off_link : Kernel → (oldpath newpath : ℕ) → Call ℕ
sys_off_link k oldpath newpath =
    if k.ch == 0
    then returns minus_one
    else offload (request syscall_sys_link (k.get_pa oldpath) (k.get_pa newpath) 0 0 0 0) to_int

unfoldable pub sys_off_unlink : Kernel → (path : ℕ) → Call ℕ
sys_off_unlink k path =
    if k.ch == 0
    then returns minus_one
    else offload (request syscall_sys_unlink (k.get_pa path) 0 0 0 0 0) to_int

unfoldable pub sys_off_stat : Kernel → (pathname buf : ℕ) → Call ℕ
sys_off_stat k pathname buf =
    if pathname == 0 || buf == 0
    then returns minus_one
    else if k.ch == 0
    then returns minus_one
    else offload (request syscall_sys_stat (k.get_pa pathname) (k.get_pa buf) 0 0 0 0) to_int

-- The buffer that is allocated for a caller that gives none is given back when the call fails.
unfoldable pub sys3_off_getcwd : Kernel → Memory → (buf size : ℕ) → Call (ℕ × Memory)
sys3_off_getcwd k m buf size =
    let asked = az_alloc m 4096 in
    let area = if buf == 0 then asked.0 else buf in
    let held = if buf == 0 then asked.1 else m in
    if buf == 0 && size == 0
    then returns (0, m)
    else if k.ch == 0
    then returns (0, m)
    else offload (request syscall_sys3_getcwd (k.get_pa area) size 0 0 0 0) (λ pret.
      if pret == 0 then (0, (if buf == 0 then (az_free held area).1 else held)) else (area, held))

unfoldable pub sys3_off_system : Kernel → (command : ℕ) → Call ℕ
sys3_off_system k command =
    if command == 0
    then returns minus_one
    else if k.ch == 0
    then returns minus_one
    else offload (request syscall_sys3_system (k.get_pa command) 0 0 0 0 0) to_int

unfoldable pub sys_off_chdir : Kernel → (path : ℕ) → Call ℕ
sys_off_chdir k path =
    if path == 0
    then returns minus_one
    else if k.ch == 0
    then returns minus_one
    else offload (request syscall_sys_chdir (k.get_pa path) 0 0 0 0 0) to_int

unfoldable pub sys3_off_opendir : Kernel → (name : ℕ) → Call ℕ
sys3_off_opendir k name =
    if k.ch == 0 || name == 0
    then returns 0
    else offload (request syscall_sys3_opendir (k.get_pa name) 0 0 0 0 0) (λ ret. ret)

unfoldable pub sys3_off_closedir : Kernel → (dirp : ℕ) → Call ℕ
sys3_off_closedir k dirp =
    if k.ch == 0 || dirp == 0
    then returns minus_one
    else offload (request syscall_sys3_closedir dirp 0 0 0 0 0) to_int

-- The entry is copied to the function's own `struct dirent`, of `size` bytes at `area`.
unfoldable pub sys3_off_readdir : Kernel → Ram → (area size dirp : ℕ) → Call (ℕ × Ram)
sys3_off_readdir k ram area size dirp =
    if k.ch == 0 || dirp == 0
    then returns (0, ram)
    else offload (request syscall_sys3_readdir dirp 0 0 0 0 0) (λ pret.
      if pret == 0 || pret == minus_one_long
      then (0, ram)
      else (area, (lk_memcpy ram area pret size).1))

unfoldable pub sys3_off_rewinddir : Kernel → (dirp : ℕ) → Call (Unit {0})
sys3_off_rewinddir k dirp =
    if k.ch == 0 || dirp == 0
    then returns tt
    else offload (request syscall_sys3_rewinddir dirp 0 0 0 0 0) (λ ret. tt)
