-- ===== src/Tests/Calls.antt =====
-- Calls of kernel/systemcall that sideloader/offload_proxy serves, with a C library that returns 3.
use azalea.Prelude.{◌⊎◌, ℕ, ◌+◌, ◌≡◌, refl, none, some, List, [], ◌∷◌}
use azalea.Proxy.{HostCall, open_mode, Host, Mapping, get_va}
use azalea.Syscall.{Kernel, minus_one}
use azalea.Buddy.Api.{Memory}
use azalea.Tests.Pools.{memory, pool, pool-IsSound}
use azalea.Syscall.Files.{sys3_off_getcwd}
use azalea.Syscall.Leaks.{IsClean, sys3_off_getcwd-IsClean}
use azalea.Syscall.Host.{sys_open, complete, direct}

abbrev library : Host
library = record { call = λ c. 3; errno = λ c. 0; hostent = λ name. none }

abbrev mapping : Mapping
mapping = record {
  unikernels_mem_base_pa = 0x1000;
  g_kernels_mem_base_pa = 0x1000;
  g_mmap_unikernels_mem_base_va = 0x7000;
  g_channel_mem_base_pa = 0;
  g_mmap_channel_mem_base_va = 0;
}

abbrev core : Kernel
core = record { ch = 64; get_pa = λ p. p + 0x1000 }

-- The path is where the proxy sees it.
opened :
    direct library (λ p. get_va mapping (p + 0x1000)) (sys_open 0x20 66 420)
    ≡ (open_mode 0x7020 66 420 ∷ [], 3)
unfolding direct get_va
opened = refl

-- A C library whose `close` returns 8, and one whose `close` fails: both may be there.
abbrev closes : ℕ → Host
closes ret = record { call = λ c. ret; errno = λ c. 0; hostent = λ name. none }

abbrev Possible : Host → Type 0
Possible host = (host ≡ closes 8) ⊎ (host ≡ closes minus_one)

sys3_off_getcwd-IsClean_example :
    (calls : List HostCall) × (r : ℕ × Memory) × (complete library mapping
        (sys3_off_getcwd core (memory pool) 0 64)
      ≡ some (calls, r))
    × IsClean library (λ p. get_va mapping (p + 0x1000)) (memory pool) 64 r
sys3_off_getcwd-IsClean_example =
    sys3_off_getcwd-IsClean library mapping core (memory pool) 0 64 refl pool-IsSound
