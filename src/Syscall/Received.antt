-- ===== src/Syscall/Received.antt =====
-- A system call of kernel/systemcall through the channel of its core: the messages of
-- kernel/offload/offload_message.c, with sideloader/offload_proxy on the other side.
use azalea.Prelude.{ℕ, ◌≡◌, some}
use azalea.Offload.Message.{Request}
use azalea.Proxy.{Host, Mapping, Done}
use azalea.Proxy.Dispatch.{offload_local_proxy}

-- What the proxy may answer to a request: the C library, whose answers change as the system runs, is
-- one of the possible ones at the time when the proxy serves the request.
unfoldable pub IsAnswer : (Host → Type 0) → Mapping → Request → ℕ → Type 0
IsAnswer Possible m r ret =
    (host : Host) × Possible host
    × (d : Done) × (offload_local_proxy host m r ≡ some d)
    × (d.ret ≡ ret)
