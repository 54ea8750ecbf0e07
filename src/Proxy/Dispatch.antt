-- ===== src/Proxy/Dispatch.antt =====
-- The switch of sideloader/offload_proxy/offload_local_proxy.c.
use azalea.Prelude.{Option, none, some, ◌==◌, if◌then◌else◌}
use azalea.Offload.Message.{Request}
use azalea.Syscall.{
  syscall_sys_read, syscall_sys_write, syscall_sys_lseek, syscall_sys_open, syscall_sys_creat,
  syscall_sys_close, syscall_sys_link, syscall_sys_unlink, syscall_sys_gethostname,
  syscall_sys_gethostbyname, syscall_sys_getsockname, syscall_sys_socket, syscall_sys_bind,
  syscall_sys_listen, syscall_sys_connect, syscall_sys_accept, syscall_sys_stat,
  syscall_sys3_getcwd, syscall_sys3_system, syscall_sys_chdir, syscall_sys3_opendir,
  syscall_sys3_closedir, syscall_sys3_readdir, syscall_sys3_rewinddir,
}
use azalea.Proxy.{Host, Mapping, Done}
use azalea.Proxy.Files.{
  serve_read, serve_write, serve_lseek, serve_open, serve_creat, serve_close, serve_link,
  serve_unlink, serve_stat, serve_getcwd, serve_system, serve_chdir, serve_opendir, serve_closedir,
  serve_readdir, serve_rewinddir,
}
use azalea.Proxy.Network.{
  serve_gethostname, serve_gethostbyname, serve_getsockname, serve_socket, serve_bind, serve_listen,
  serve_connect, serve_accept,
}

-- `offload_local_proxy`; none is a request of an unknown type, which gets no answer.
unfoldable pub offload_local_proxy : Host → Mapping → Request → Option Done
offload_local_proxy host m r =
    let type = r.offload_function_type in
    if type == syscall_sys_read
    then some (serve_read host m r)
    else if type == syscall_sys_write
    then some (serve_write host m r)
    else if type == syscall_sys_lseek
    then some (serve_lseek host r)
    else if type == syscall_sys_open
    then some (serve_open host m r)
    else if type == syscall_sys_creat
    then some (serve_creat host m r)
    else if type == syscall_sys_close
    then some (serve_close host r)
    else if type == syscall_sys_link
    then some (serve_link host m r)
    else if type == syscall_sys_unlink
    then some (serve_unlink host m r)
    else if type == syscall_sys_gethostname
    then some (serve_gethostname host m r)
    else if type == syscall_sys_gethostbyname
    then some (serve_gethostbyname host m r)
    else if type == syscall_sys_getsockname
    then some (serve_getsockname host m r)
    else if type == syscall_sys_socket
    then some (serve_socket host r)
    else if type == syscall_sys_bind
    then some (serve_bind host m r)
    else if type == syscall_sys_listen
    then some (serve_listen host r)
    else if type == syscall_sys_connect
    then some (serve_connect host m r)
    else if type == syscall_sys_accept
    then some (serve_accept host m r)
    else if type == syscall_sys_stat
    then some (serve_stat host m r)
    else if type == syscall_sys3_getcwd
    then some (serve_getcwd host m r)
    else if type == syscall_sys3_system
    then some (serve_system host m r)
    else if type == syscall_sys_chdir
    then some (serve_chdir host m r)
    else if type == syscall_sys3_opendir
    then some (serve_opendir host m r)
    else if type == syscall_sys3_closedir
    then some (serve_closedir host r)
    else if type == syscall_sys3_readdir
    then some (serve_readdir host r)
    else if type == syscall_sys3_rewinddir
    then some (serve_rewinddir host r)
    else none
