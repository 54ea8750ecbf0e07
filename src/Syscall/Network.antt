-- ===== src/Syscall/Network.antt =====
-- The calls of the network, kernel/systemcall/offload_network.c.
use azalea.Prelude.{ℕ, ◌||◌, ◌==◌, if◌then◌else◌}
use azalea.Utility.{Ram, lk_memset}
use azalea.Prelude.Words.{extend_int}
use azalea.Buddy.Api.{Memory, az_alloc}
use azalea.Syscall.{
  Kernel, Call, returns, offload, request, minus_one, syscall_sys_gethostname,
  syscall_sys_gethostbyname, syscall_sys_getsockname, syscall_sys_socket, syscall_sys_bind,
  syscall_sys_listen, syscall_sys_connect, syscall_sys_accept,
}
use azalea.Syscall.Files.{to_int}

unfoldable pub sys_off_gethostname : Kernel → (name len : ℕ) → Call ℕ
sys_off_gethostname k name len =
    if k.ch == 0 || name == 0 || len == 0
    then returns minus_one
    else offload (request syscall_sys_gethostname (k.get_pa name) len 0 0 0 0) to_int

-- `g_hp`, with the addresses of the structure and of its two `int`s, the entry that `h_aliases`
-- points to, and `hostent_init_flag`.
pub record Hostent : Type 0 where
  pub address : ℕ
  pub h_name : ℕ
  pub h_alias : ℕ
  pub h_addrtype_at : ℕ
  pub h_length_at : ℕ
  pub h_addr : ℕ
  pub hostent_init_flag : ℕ

-- What the first call sets up: three areas of 256 bytes, cleared where there is memory.
abbrev pub clear_area : Ram → ℕ → Ram
clear_area ram area = if area == 0 then ram else lk_memset ram area 0 256

unfoldable pub init_hostent : Memory → Ram → Hostent → Memory × Ram × Hostent
init_hostent m ram g =
    let name = az_alloc m 256 in
    let alias = az_alloc name.1 256 in
    let addr = az_alloc alias.1 256 in
    if g.hostent_init_flag == 0
    then (
      addr.1,
      clear_area (clear_area (clear_area ram name.0) alias.0) addr.0,
      record g { h_name = name.0; h_alias = alias.0; h_addr = addr.0; hostent_init_flag = 1 },
    )
    else (m, ram, g)

-- The answer is not looked at.
unfoldable pub sys_off_gethostbyname :
    Kernel → Memory → Ram → Hostent → (name : ℕ) → (Memory × Ram × Hostent) × Call ℕ
sys_off_gethostbyname k m ram g name =
    let ready = init_hostent m ram g in
    let hp = ready.2 in
    if k.ch == 0 || name == 0 then ((m, ram, g), returns 0) else (
      ready,
      offload
          (request syscall_sys_gethostbyname (k.get_pa name) (k.get_pa hp.h_name)
            (k.get_pa hp.h_alias) (k.get_pa hp.h_addrtype_at) (k.get_pa hp.h_length_at)
            (k.get_pa hp.h_addr))
          (λ ret. hp.address),
    )

unfoldable pub sys_off_getsockname : Kernel → (sockfd addr addrlen : ℕ) → Call ℕ
sys_off_getsockname k sockfd addr addrlen =
    if k.ch == 0 || addr == 0 || addrlen == 0
    then returns minus_one
    else offload
        (request syscall_sys_getsockname (extend_int sockfd) (k.get_pa addr) (k.get_pa addrlen) 0 0
          0)
        to_int

unfoldable pub sys_off_socket : Kernel → (domain type protocol : ℕ) → Call ℕ
sys_off_socket k domain type protocol =
    if k.ch == 0
    then returns minus_one
    else offload
        (request syscall_sys_socket (extend_int domain) (extend_int type) (extend_int protocol) 0 0
          0)
        to_int

unfoldable pub sys_off_bind : Kernel → (sockfd addr addrlen : ℕ) → Call ℕ
sys_off_bind k sockfd addr addrlen =
    if k.ch == 0 || addr == 0
    then returns minus_one
    else offload (request syscall_sys_bind (extend_int sockfd) (k.get_pa addr) addrlen 0 0 0) to_int

unfoldable pub sys_off_listen : Kernel → (sockfd backlog : ℕ) → Call ℕ
sys_off_listen k sockfd backlog =
    if k.ch == 0
    then returns minus_one
    else offload (request syscall_sys_listen (extend_int sockfd) (extend_int backlog) 0 0 0 0)
        to_int

unfoldable pub sys_off_connect : Kernel → (sockfd addr addrlen : ℕ) → Call ℕ
sys_off_connect k sockfd addr addrlen =
    if k.ch == 0 || addr == 0
    then returns minus_one
    else offload (request syscall_sys_connect (extend_int sockfd) (k.get_pa addr) addrlen 0 0 0)
        to_int

unfoldable pub sys_off_accept : Kernel → (sockfd addr addrlen : ℕ) → Call ℕ
sys_off_accept k sockfd addr addrlen =
    if k.ch == 0 || addr == 0 || addrlen == 0
    then returns minus_one
    else offload
        (request syscall_sys_accept (extend_int sockfd) (k.get_pa addr) (k.get_pa addrlen) 0 0 0)
        to_int
