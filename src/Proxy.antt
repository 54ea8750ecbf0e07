-- ===== src/Proxy.antt =====
-- The proxy on the Linux side, sideloader/offload_proxy: what its jobs ask the C library and what
-- they answer. The library's functions are a parameter.
pub mod Files
pub mod Network
pub mod Dispatch
use azalea.Prelude.{ℕ, ◌+◌, ◌-◌, ◌%◌, ◌^◌, Bool, Option, List, [], ◌∷◌, ltb, ◌==◌, if◌then◌else◌}
use azalea.Prelude.Words.{extend_int}

-- The calls of the C library, with the arguments as words of their types and pointers as addresses.
pub data HostCall : Type 0 where
  open_file : (path oflag : ℕ) → HostCall
  open_mode : (path oflag mode : ℕ) → HostCall
  creat : (path mode : ℕ) → HostCall
  read : (fd buf count : ℕ) → HostCall
  write : (fd buf count : ℕ) → HostCall
  close : (fd : ℕ) → HostCall
  lseek : (fd offset whence : ℕ) → HostCall
  link : (oldpath newpath : ℕ) → HostCall
  access : (path amode : ℕ) → HostCall
  unlink : (path : ℕ) → HostCall
  stat : (pathname buf : ℕ) → HostCall
  getcwd : (buf size : ℕ) → HostCall
  system : (command : ℕ) → HostCall
  chdir : (path : ℕ) → HostCall
  opendir : (name : ℕ) → HostCall
  closedir : (dirp : ℕ) → HostCall
  readdir : (dirp : ℕ) → HostCall
  rewinddir : (dirp : ℕ) → HostCall
  gethostname : (name len : ℕ) → HostCall
  getsockname : (sockfd addr addrlen : ℕ) → HostCall
  socket : (domain type protocol : ℕ) → HostCall
  bind : (sockfd addr addrlen : ℕ) → HostCall
  listen : (sockfd backlog : ℕ) → HostCall
  connect : (sockfd addr addrlen : ℕ) → HostCall
  gethostbyname : (name : ℕ) → HostCall
  accept : (sockfd addr addrlen : ℕ) → HostCall

-- What `gethostbyname` points to: the address of the structure, and strings and addresses as bytes.
pub record Hostent : Type 0 where
  pub address : ℕ
  pub h_name : Option (List ℕ)
  pub h_alias : Option (List ℕ)
  pub h_addrtype : ℕ
  pub h_length : ℕ
  pub h_addr : Option (List ℕ)

-- The C library: what a call returns, `errno` after it when it was 0 before, and what
-- `gethostbyname` gives, none for NULL.
pub record Host : Type 0 where
  pub call : HostCall → ℕ
  pub errno : HostCall → ℕ
  pub hostent : (name : ℕ) → Option Hostent

-- What a job writes into the memory of the kernel by itself: bytes at an address, or an `int`.
pub data Store : Type 0 where
  store_bytes : (address : ℕ) → List ℕ → Store
  store_int : (address value : ℕ) → Store

-- A job: its calls of the C library in their order, what it writes, and the `ret` it answers with.
pub record Done : Type 0 where
  pub calls : List HostCall
  pub stores : List Store
  pub ret : ℕ

abbrev pub done : List HostCall → ℕ → Done
done calls ret = record { calls = calls; stores = []; ret = ret }

-- A call whose result is an `int`, and one whose result is a pointer or another QWORD, made an
-- unsigned long.
abbrev pub call_int : Host → HostCall → Done
call_int host c = done (c ∷ []) (extend_int (host.call c))

abbrev pub call_long : Host → HostCall → Done
call_long host c = done (c ∷ []) (host.call c % 2 ^ 64)

-- Where the proxy has the memory of the kernels.
pub record Mapping : Type 0 where
  pub unikernels_mem_base_pa : ℕ
  pub g_kernels_mem_base_pa : ℕ
  pub g_mmap_unikernels_mem_base_va : ℕ
  pub g_channel_mem_base_pa : ℕ
  pub g_mmap_channel_mem_base_va : ℕ

-- `get_va`
unfoldable pub get_va : Mapping → (pa : ℕ) → ℕ
get_va m pa =
    if pa == 0
    then 0
    else if ltb pa m.unikernels_mem_base_pa
    then (m.g_mmap_channel_mem_base_va + (pa + 2 ^ 64 - m.g_channel_mem_base_pa)) % 2 ^ 64
    else (m.g_mmap_unikernels_mem_base_va + (pa + 2 ^ 64 - m.g_kernels_mem_base_pa)) % 2 ^ 64

-- `a < b` of the `int`s that two words are.
abbrev pub int_lt : ℕ → ℕ → Bool
int_lt a b = ltb ((a + 2 ^ 31) % 2 ^ 32) ((b + 2 ^ 31) % 2 ^ 32)
