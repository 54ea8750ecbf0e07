-- ===== src/Syscall/Served.antt =====
-- The system calls of kernel/systemcall, served by the proxy.
use azalea.Proxy.{Host}
