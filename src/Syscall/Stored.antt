-- ===== src/Syscall/Stored.antt =====
-- The calls on files of kernel/systemcall/offload_fio.c, served by the proxy.
use native.Mathlib.Nat.{mod-eq_of_lt}
use azalea.Prelude.{ℕ, ◌^◌, ◌<◌, ◌≡◌, refl, true, false, some, Bool-cases, inl, inr, ◌==◌, arith}
use azalea.Offload.Owners.{extend_int-mod}
use azalea.Proxy.{
  open_file, open_mode, creat, close, link, stat, system, chdir, closedir, Host, Mapping, get_va,
  int_lt,
}
use azalea.Proxy.Files.{
  serve_open, serve_creat, serve_read, serve_write, serve_close, serve_lseek, serve_link,
  serve_stat, serve_system, serve_chdir, serve_opendir, serve_closedir,
}
use azalea.Proxy.Dispatch.{offload_local_proxy}
use azalea.Syscall.{Kernel}
use azalea.Syscall.Files.{
  sys_off_open, sys_off_creat, sys_off_read, sys_off_write, sys_off_close, sys_off_lseek,
  sys_off_link, sys_off_stat, sys3_off_system, sys_off_chdir, sys3_off_opendir, sys3_off_closedir,
}
use azalea.Syscall.Host.{
  sys_open, sys_creat, sys_read, sys_write, sys_close, sys_lseek, sys_link, sys_stat, sys_system,
  sys_chdir, sys_opendir, sys_closedir, complete, direct,
}
use azalea.Syscall.Words.{int_back, length_back}

module _ (host : Host) (m : Mapping) (k : Kernel) (channel : k.ch == 0 ≡ false) where
  pub sys_open-direct :
      (path oflag mode : ℕ)
      → oflag < 2 ^ 32
      → mode < 2 ^ 32
      → complete host m (sys_off_open k path oflag mode)
        ≡ some (direct host (λ p. get_va m (k.get_pa p)) (sys_open path oflag mode))
  unfolding complete sys_off_open offload_local_proxy serve_open direct
  sys_open-direct path oflag mode h_oflag h_mode = elim (Bool-cases (path == 0)) [
    | inl e ↦ rw e refl
    | inr e ↦ elim (Bool-cases (mode == 0)) [
      | inl z ↦
          rw
            (
              e,
              channel,
              int_back oflag h_oflag,
              mod-eq_of_lt h_mode,
              z,
              extend_int-mod (host.call (open_file (get_va m (k.get_pa path)) oflag)),
            )
            refl
      | inr z ↦
          rw
            (
              e,
              channel,
              int_back oflag h_oflag,
              mod-eq_of_lt h_mode,
              z,
              extend_int-mod (host.call (open_mode (get_va m (k.get_pa path)) oflag mode)),
            )
            refl
    ]
  ]

  pub sys_creat-direct :
      (path mode : ℕ)
      → mode < 2 ^ 32
      → complete host m (sys_off_creat k path mode)
        ≡ some (direct host (λ p. get_va m (k.get_pa p)) (sys_creat path mode))
  unfolding complete sys_off_creat offload_local_proxy serve_creat direct
  sys_creat-direct path mode h_mode = elim (Bool-cases (path == 0)) [
    | inl e ↦ rw e refl
    | inr e ↦
        rw
          (
            channel,
            e,
            mod-eq_of_lt h_mode,
            extend_int-mod (host.call (creat (get_va m (k.get_pa path)) mode)),
          )
          refl
  ]

  pub sys_read-direct :
      (fd buf count : ℕ)
      → fd < 2 ^ 32
      → count < 2 ^ 31
      → complete host m (sys_off_read k fd buf count)
        ≡ some (direct host (λ p. get_va m (k.get_pa p)) (sys_read fd buf count))
  unfolding complete sys_off_read offload_local_proxy serve_read direct
  sys_read-direct fd buf count h_fd h_count = elim (Bool-cases (count == 0)) [
    | inl e ↦ rw e refl
    | inr e ↦ rw (channel, e, int_back fd h_fd, length_back count h_count) refl
  ]

  pub sys_write-direct :
      (fd buf count : ℕ)
      → fd < 2 ^ 32
      → count < 2 ^ 31
      → complete host m (sys_off_write k fd buf count)
        ≡ some (direct host (λ p. get_va m (k.get_pa p)) (sys_write fd buf count))
  unfolding complete sys_off_write offload_local_proxy serve_write direct
  sys_write-direct fd buf count h_fd h_count = elim (Bool-cases (count == 0)) [
    | inl e ↦ rw e refl
    | inr e ↦ rw (channel, e, int_back fd h_fd, length_back count h_count) refl
  ]

  pub sys_close-direct :
      (fd : ℕ)
      → fd < 2 ^ 32
      → complete host m (sys_off_close k fd)
        ≡ some (direct host (λ p. get_va m (k.get_pa p)) (sys_close fd))
  unfolding complete sys_off_close offload_local_proxy serve_close direct
  sys_close-direct fd h_fd = elim (Bool-cases (int_lt fd 3)) [
    | inl e ↦ rw (channel, e) refl
    | inr e ↦
        let some_file : int_lt 2 fd ≡ true = ground arith in
        rw (channel, e, int_back fd h_fd, some_file, extend_int-mod (host.call (close fd))) refl
  ]

  pub sys_lseek-direct :
      (fd offset whence : ℕ)
      → fd < 2 ^ 32
      → whence < 2 ^ 32
      → complete host m (sys_off_lseek k fd offset whence)
        ≡ some (direct host (λ p. get_va m (k.get_pa p)) (sys_lseek fd offset whence))
  unfolding complete sys_off_lseek offload_local_proxy serve_lseek direct
  sys_lseek-direct fd offset whence h_fd h_whence = elim (Bool-cases (int_lt fd 3)) [
    | inl e ↦ rw (channel, e) refl
    | inr e ↦ rw (channel, e, int_back fd h_fd, int_back whence h_whence) refl
  ]

  pub sys_link-direct :
      (oldpath newpath : ℕ)
      → complete host m (sys_off_link k oldpath newpath)
        ≡ some (direct host (λ p. get_va m (k.get_pa p)) (sys_link oldpath newpath))
  unfolding complete sys_off_link offload_local_proxy serve_link direct
  sys_link-direct oldpath newpath =
      rw
        (
          channel,
          extend_int-mod
              (host.call (link (get_va m (k.get_pa oldpath)) (get_va m (k.get_pa newpath)))),
        )
        refl

  pub sys_stat-direct :
      (pathname buf : ℕ)
      → complete host m (sys_off_stat k pathname buf)
        ≡ some (direct host (λ p. get_va m (k.get_pa p)) (sys_stat pathname buf))
  unfolding complete sys_off_stat offload_local_proxy serve_stat direct
  sys_stat-direct pathname buf = elim (Bool-cases (pathname == 0)) [
    | inl e ↦ rw e refl
    | inr e ↦ elim (Bool-cases (buf == 0)) [
      | inl z ↦ rw (e, z) refl
      | inr z ↦
          rw
            (
              channel,
              e,
              z,
              extend_int-mod
                  (host.call (stat (get_va m (k.get_pa pathname)) (get_va m (k.get_pa buf)))),
            )
            refl
    ]
  ]

  pub sys_system-direct :
      (command : ℕ)
      → complete host m (sys3_off_system k command)
        ≡ some (direct host (λ p. get_va m (k.get_pa p)) (sys_system command))
  unfolding complete sys3_off_system offload_local_proxy serve_system direct
  sys_system-direct command = elim (Bool-cases (command == 0)) [
    | inl e ↦ rw e refl
    | inr e ↦
        rw (channel, e, extend_int-mod (host.call (system (get_va m (k.get_pa command))))) refl
  ]

  pub sys_chdir-direct :
      (path : ℕ)
      → complete host m (sys_off_chdir k path)
        ≡ some (direct host (λ p. get_va m (k.get_pa p)) (sys_chdir path))
  unfolding complete sys_off_chdir offload_local_proxy serve_chdir direct
  sys_chdir-direct path = elim (Bool-cases (path == 0)) [
    | inl e ↦ rw e refl
    | inr e ↦ rw (channel, e, extend_int-mod (host.call (chdir (get_va m (k.get_pa path))))) refl
  ]

  pub sys_opendir-direct :
      (name : ℕ)
      → complete host m (sys3_off_opendir k name)
        ≡ some (direct host (λ p. get_va m (k.get_pa p)) (sys_opendir name))
  unfolding complete sys3_off_opendir offload_local_proxy serve_opendir direct
  sys_opendir-direct name = elim (Bool-cases (name == 0)) [
    | inl e ↦ rw (channel, e) refl
    | inr e ↦ rw (channel, e) refl
  ]

  pub sys_closedir-direct :
      (dirp : ℕ)
      → complete host m (sys3_off_closedir k dirp)
        ≡ some (direct host (λ p. get_va m (k.get_pa p)) (sys_closedir dirp))
  unfolding complete sys3_off_closedir offload_local_proxy serve_closedir direct
  sys_closedir-direct dirp = elim (Bool-cases (dirp == 0)) [
    | inl e ↦ rw (channel, e) refl
    | inr e ↦ rw (channel, e, extend_int-mod (host.call (closedir dirp))) refl
  ]
