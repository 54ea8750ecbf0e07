-- ===== src/Proxy/Files.antt =====
-- The jobs of sideloader/offload_proxy/offload_fio.c: what each does with the parameters of a
-- request. What the jobs print is left out.
use azalea.Prelude.{◌-◌, ◌%◌, ◌^◌, ◌==◌, [], ◌∷◌, if◌then◌else◌}
use azalea.Prelude.Words.{extend_int}
use azalea.Offload.Message.{Request}
use azalea.Proxy.{
  Host, Mapping, Done, done, call_int, call_long, get_va, int_lt, open_file, open_mode, creat, read,
  write, close, lseek, link, access, unlink, stat, getcwd, system, chdir, opendir, closedir,
  readdir, rewinddir,
}

-- `sys_off_open`
unfoldable pub serve_open : Host → Mapping → Request → Done
serve_open host m r =
    let path = get_va m r.param1 in
    let oflag = r.param2 % 2 ^ 32 in
    let mode = r.param3 % 2 ^ 32 in
    call_int host (if mode == 0 then open_file path oflag else open_mode path oflag mode)

-- `sys_off_creat`
unfoldable pub serve_creat : Host → Mapping → Request → Done
serve_creat host m r = call_int host (creat (get_va m r.param1) (r.param2 % 2 ^ 32))

-- `sys_off_read` and `sys_off_write`: the count is an `int` that is made a size_t.
unfoldable pub serve_read : Host → Mapping → Request → Done
serve_read host m r =
    let count = r.param3 % 2 ^ 32 in
    call_long host (read (r.param1 % 2 ^ 32) (get_va m r.param2) (extend_int count))

unfoldable pub serve_write : Host → Mapping → Request → Done
serve_write host m r =
    let count = r.param3 % 2 ^ 32 in
    call_long host (write (r.param1 % 2 ^ 32) (get_va m r.param2) (extend_int count))

-- `sys_off_close`
unfoldable pub serve_close : Host → Request → Done
serve_close host r =
    let fd = r.param1 % 2 ^ 32 in
    if int_lt 2 fd then call_int host (close fd) else done [] (extend_int (2 ^ 32 - 1))

-- `sys_off_lseek`
unfoldable pub serve_lseek : Host → Request → Done
serve_lseek host r = call_long host (lseek (r.param1 % 2 ^ 32) r.param2 (r.param3 % 2 ^ 32))

-- `sys_off_link`
unfoldable pub serve_link : Host → Mapping → Request → Done
serve_link host m r = call_int host (link (get_va m r.param1) (get_va m r.param2))

-- `sys_off_unlink`: F_OK is 0.
unfoldable pub serve_unlink : Host → Mapping → Request → Done
serve_unlink host m r =
    let path = get_va m r.param1 in
    if host.call (access path 0) % 2 ^ 32 == 0
    then done (access path 0 ∷ unlink path ∷ []) (extend_int (host.call (unlink path)))
    else done (access path 0 ∷ []) (extend_int 0)

-- `sys_off_stat`
unfoldable pub serve_stat : Host → Mapping → Request → Done
serve_stat host m r = call_int host (stat (get_va m r.param1) (get_va m r.param2))

-- `sys3_off_getcwd`
unfoldable pub serve_getcwd : Host → Mapping → Request → Done
serve_getcwd host m r = call_long host (getcwd (get_va m r.param1) r.param2)

-- `sys3_off_system`
unfoldable pub serve_system : Host → Mapping → Request → Done
serve_system host m r = call_int host (system (get_va m r.param1))

-- `sys_off_chdir`
unfoldable pub serve_chdir : Host → Mapping → Request → Done
serve_chdir host m r = call_int host (chdir (get_va m r.param1))

-- `sys3_off_opendir`
unfoldable pub serve_opendir : Host → Mapping → Request → Done
serve_opendir host m r = call_long host (opendir (get_va m r.param1))

-- `sys3_off_closedir`: a directory stream is the proxy's own.
unfoldable pub serve_closedir : Host → Request → Done
serve_closedir host r = call_int host (closedir r.param1)

-- `sys3_off_readdir`: NULL with an error is answered by -1.
unfoldable pub serve_readdir : Host → Request → Done
serve_readdir host r =
    let pret = host.call (readdir r.param1) % 2 ^ 64 in
    let error = host.errno (readdir r.param1) % 2 ^ 32 in
    done (readdir r.param1 ∷ [])
      (if pret == 0 then (if error == 0 then pret else 2 ^ 64 - 1) else pret)

-- `sys3_off_rewinddir`
unfoldable pub serve_rewinddir : Host → Request → Done
serve_rewinddir host r = done (rewinddir r.param1 ∷ []) 0
