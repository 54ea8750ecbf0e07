-- ===== src/Syscall/Host.antt =====
-- What a system call of kernel/systemcall comes to when sideloader/offload_proxy serves it: the
-- same call of the C library, with each address as the proxy sees the memory behind it.
use azalea.Prelude.{ℕ, ◌%◌, ◌^◌, ◌<◌, ◌||◌, Option, none, some, List, [], ◌∷◌, ◌==◌, if◌then◌else◌}
use azalea.Proxy.{
  HostCall, open_file, open_mode, creat, read, write, close, lseek, link, stat, system, chdir,
  opendir, closedir, gethostname, getsockname, socket, bind, listen, connect, accept, Host, Mapping,
  int_lt,
}
use azalea.Proxy.Dispatch.{offload_local_proxy}
use azalea.Syscall.{Kernel, Call, returns, offload, minus_one, minus_one_long}
use azalea.Syscall.Files.{
  sys_off_open, sys_off_creat, sys_off_read, sys_off_write, sys_off_close, sys_off_lseek,
  sys_off_link, sys_off_stat, sys3_off_system, sys_off_chdir, sys3_off_opendir, sys3_off_closedir,
}
use azalea.Syscall.Network.{
  sys_off_gethostname, sys_off_getsockname, sys_off_socket, sys_off_bind, sys_off_listen,
  sys_off_connect, sys_off_accept,
}

-- A system call with its arguments. `sys_off_unlink` is not among them: the proxy asks `access`
-- first, and answers 0 for a file that is not there.
pub data SystemCall : Type 0 where
  sys_open : (path oflag mode : ℕ) → SystemCall
  sys_creat : (path mode : ℕ) → SystemCall
  sys_read : (fd buf count : ℕ) → SystemCall
  sys_write : (fd buf count : ℕ) → SystemCall
  sys_close : (fd : ℕ) → SystemCall
  sys_lseek : (fd offset whence : ℕ) → SystemCall
  sys_link : (oldpath newpath : ℕ) → SystemCall
  sys_stat : (pathname buf : ℕ) → SystemCall
  sys_system : (command : ℕ) → SystemCall
  sys_chdir : (path : ℕ) → SystemCall
  sys_opendir : (name : ℕ) → SystemCall
  sys_closedir : (dirp : ℕ) → SystemCall
  sys_gethostname : (name len : ℕ) → SystemCall
  sys_getsockname : (sockfd addr addrlen : ℕ) → SystemCall
  sys_socket : (domain type protocol : ℕ) → SystemCall
  sys_bind : (sockfd addr addrlen : ℕ) → SystemCall
  sys_listen : (sockfd backlog : ℕ) → SystemCall
  sys_connect : (sockfd addr addrlen : ℕ) → SystemCall
  sys_accept : (sockfd addr addrlen : ℕ) → SystemCall

-- The functions of the kernel.
unfoldable pub system_call : Kernel → SystemCall → Call ℕ
system_call k (sys_open path oflag mode) = sys_off_open k path oflag mode
system_call k (sys_creat path mode) = sys_off_creat k path mode
system_call k (sys_read fd buf count) = sys_off_read k fd buf count
system_call k (sys_write fd buf count) = sys_off_write k fd buf count
system_call k (sys_close fd) = sys_off_close k fd
system_call k (sys_lseek fd offset whence) = sys_off_lseek k fd offset whence
system_call k (sys_link oldpath newpath) = sys_off_link k oldpath newpath
system_call k (sys_stat pathname buf) = sys_off_stat k pathname buf
system_call k (sys_system command) = sys3_off_system k command
system_call k (sys_chdir path) = sys_off_chdir k path
system_call k (sys_opendir name) = sys3_off_opendir k name
system_call k (sys_closedir dirp) = sys3_off_closedir k dirp
system_call k (sys_gethostname name len) = sys_off_gethostname k name len
system_call k (sys_getsockname sockfd addr addrlen) = sys_off_getsockname k sockfd addr addrlen
system_call k (sys_socket domain type protocol) = sys_off_socket k domain type protocol
system_call k (sys_bind sockfd addr addrlen) = sys_off_bind k sockfd addr addrlen
system_call k (sys_listen sockfd backlog) = sys_off_listen k sockfd backlog
system_call k (sys_connect sockfd addr addrlen) = sys_off_connect k sockfd addr addrlen
system_call k (sys_accept sockfd addr addrlen) = sys_off_accept k sockfd addr addrlen

-- A call, when the proxy serves its request: the calls of the C library, and the result. None is a
-- request that gets no answer.
unfoldable pub complete {ℓ} : {A : Type ℓ} → Host → Mapping → Call A → Option (List HostCall × A)
complete host m (returns a) = some ([], a)
complete host m (offload r k) = elim (offload_local_proxy host m r) [
  | none ↦ none
  | some d ↦ some (d.calls, k d.ret)
]

-- The call made at once: which calls of the C library it is, and what it returns.
abbrev pub int_call : Host → HostCall → List HostCall × ℕ
int_call host c = (c ∷ [], host.call c % 2 ^ 32)

abbrev pub long_call : Host → HostCall → List HostCall × ℕ
long_call host c = (c ∷ [], host.call c % 2 ^ 64)

abbrev pub no_call : ℕ → List HostCall × ℕ
no_call ret = ([], ret)

unfoldable pub direct : Host → (at : ℕ → ℕ) → SystemCall → List HostCall × ℕ
direct host at (sys_open path oflag mode) =
    if path == 0
    then no_call minus_one
    else if mode == 0
    then int_call host (open_file (at path) oflag)
    else int_call host (open_mode (at path) oflag mode)
direct host at (sys_creat path mode) =
    if path == 0 then no_call minus_one else int_call host (creat (at path) mode)
direct host at (sys_read fd buf count) =
    if count == 0 then no_call minus_one_long else long_call host (read fd (at buf) count)
direct host at (sys_write fd buf count) =
    if count == 0 then no_call minus_one_long else long_call host (write fd (at buf) count)
direct host at (sys_close fd) = if int_lt fd 3 then no_call minus_one else int_call host (close fd)
direct host at (sys_lseek fd offset whence) =
    if int_lt fd 3 then no_call minus_one_long else long_call host (lseek fd offset whence)
direct host at (sys_link oldpath newpath) = int_call host (link (at oldpath) (at newpath))
direct host at (sys_stat pathname buf) =
    if pathname == 0 || buf == 0
    then no_call minus_one
    else int_call host (stat (at pathname) (at buf))
direct host at (sys_system command) =
    if command == 0 then no_call minus_one else int_call host (system (at command))
direct host at (sys_chdir path) =
    if path == 0 then no_call minus_one else int_call host (chdir (at path))
direct host at (sys_opendir name) =
    if name == 0 then no_call 0 else long_call host (opendir (at name))
direct host at (sys_closedir dirp) =
    if dirp == 0 then no_call minus_one else int_call host (closedir dirp)
direct host at (sys_gethostname name len) =
    if name == 0 || len == 0 then no_call minus_one else int_call host (gethostname (at name) len)
direct host at (sys_getsockname sockfd addr addrlen) =
    if addr == 0 || addrlen == 0
    then no_call minus_one
    else int_call host (getsockname sockfd (at addr) (at addrlen))
direct host at (sys_socket domain type protocol) = int_call host (socket domain type protocol)
direct host at (sys_bind sockfd addr addrlen) =
    if addr == 0 then no_call minus_one else int_call host (bind sockfd (at addr) addrlen)
direct host at (sys_listen sockfd backlog) = int_call host (listen sockfd backlog)
direct host at (sys_connect sockfd addr addrlen) =
    if addr == 0 then no_call minus_one else int_call host (connect sockfd (at addr) addrlen)
direct host at (sys_accept sockfd addr addrlen) =
    if addr == 0 || addrlen == 0
    then no_call minus_one
    else int_call host (accept sockfd (at addr) (at addrlen))

-- The arguments are words of 32 bits where their types are, and the lengths that the proxy reads
-- as `int`s fit in one.
unfoldable pub IsTyped : SystemCall → Type 0
IsTyped (sys_open path oflag mode) = (oflag < 2 ^ 32) × (mode < 2 ^ 32)
IsTyped (sys_creat path mode) = mode < 2 ^ 32
IsTyped (sys_read fd buf count) = (fd < 2 ^ 32) × (count < 2 ^ 31)
IsTyped (sys_write fd buf count) = (fd < 2 ^ 32) × (count < 2 ^ 31)
IsTyped (sys_close fd) = fd < 2 ^ 32
IsTyped (sys_lseek fd offset whence) = (fd < 2 ^ 32) × (whence < 2 ^ 32)
IsTyped (sys_link oldpath newpath) = Unit
IsTyped (sys_stat pathname buf) = Unit
IsTyped (sys_system command) = Unit
IsTyped (sys_chdir path) = Unit
IsTyped (sys_opendir name) = Unit
IsTyped (sys_closedir dirp) = Unit
IsTyped (sys_gethostname name len) = len < 2 ^ 31
IsTyped (sys_getsockname sockfd addr addrlen) = sockfd < 2 ^ 32
IsTyped (sys_socket domain type protocol) =
    (domain < 2 ^ 32) × (type < 2 ^ 32) × (protocol < 2 ^ 32)
IsTyped (sys_bind sockfd addr addrlen) = (sockfd < 2 ^ 32) × (addrlen < 2 ^ 32)
IsTyped (sys_listen sockfd backlog) = (sockfd < 2 ^ 32) × (backlog < 2 ^ 32)
IsTyped (sys_connect sockfd addr addrlen) = (sockfd < 2 ^ 32) × (addrlen < 2 ^ 32)
IsTyped (sys_accept sockfd addr addrlen) = sockfd < 2 ^ 32
