-- ===== src/Syscall/Linked.antt =====
-- The calls of kernel/systemcall/offload_network.c, served by the proxy.
use native.Mathlib.Nat.{mod-eq_of_lt}
use azalea.Prelude.{ℕ, ◌^◌, ◌<◌, ◌≡◌, refl, false, some, Bool-cases, inl, inr, ◌==◌}
use azalea.Offload.Owners.{extend_int-mod}
use azalea.Proxy.{
  gethostname, getsockname, socket, bind, listen, connect, accept, Host, Mapping, get_va,
}
use azalea.Proxy.Network.{
  serve_gethostname, serve_getsockname, serve_socket, serve_bind, serve_listen, serve_connect,
  serve_accept,
}
use azalea.Proxy.Dispatch.{offload_local_proxy}
use azalea.Syscall.{Kernel}
use azalea.Syscall.Network.{
  sys_off_gethostname, sys_off_getsockname, sys_off_socket, sys_off_bind, sys_off_listen,
  sys_off_connect, sys_off_accept,
}
use azalea.Syscall.Host.{
  sys_gethostname, sys_getsockname, sys_socket, sys_bind, sys_listen, sys_connect, sys_accept,
  complete, direct,
}
use azalea.Syscall.Words.{int_back, length_back}

module _ (host : Host) (m : Mapping) (k : Kernel) (channel : k.ch == 0 ≡ false) where
  pub sys_gethostname-direct :
      (name len : ℕ)
      → len < 2 ^ 31
      → complete host m (sys_off_gethostname k name len)
        ≡ some (direct host (λ p. get_va m (k.get_pa p)) (sys_gethostname name len))
  unfolding complete sys_off_gethostname offload_local_proxy serve_gethostname direct
  sys_gethostname-direct name len h_len = elim (Bool-cases (name == 0)) [
    | inl e ↦ rw (channel, e) refl
    | inr e ↦ elim (Bool-cases (len == 0)) [
      | inl z ↦ rw (channel, e, z) refl
      | inr z ↦
          rw
            (
              channel,
              e,
              z,
              length_back len h_len,
              extend_int-mod (host.call (gethostname (get_va m (k.get_pa name)) len)),
            )
            refl
    ]
  ]

  pub sys_getsockname-direct :
      (sockfd addr addrlen : ℕ)
      → sockfd < 2 ^ 32
      → complete host m (sys_off_getsockname k sockfd addr addrlen)
        ≡ some (direct host (λ p. get_va m (k.get_pa p)) (sys_getsockname sockfd addr addrlen))
  unfolding complete sys_off_getsockname offload_local_proxy serve_getsockname direct
  sys_getsockname-direct sockfd addr addrlen h_sockfd = elim (Bool-cases (addr == 0)) [
    | inl e ↦ rw (channel, e) refl
    | inr e ↦ elim (Bool-cases (addrlen == 0)) [
      | inl z ↦ rw (channel, e, z) refl
      | inr z ↦
          rw
            (
              channel,
              e,
              z,
              int_back sockfd h_sockfd,
              extend_int-mod (
                  host.call
                    (getsockname sockfd (get_va m (k.get_pa addr)) (get_va m (k.get_pa addrlen)))),
            )
            refl
    ]
  ]

  pub sys_socket-direct :
      (domain type protocol : ℕ)
      → domain < 2 ^ 32
      → type < 2 ^ 32
      → protocol < 2 ^ 32
      → complete host m (sys_off_socket k domain type protocol)
        ≡ some (direct host (λ p. get_va m (k.get_pa p)) (sys_socket domain type protocol))
  unfolding complete sys_off_socket offload_local_proxy serve_socket direct
  sys_socket-direct domain type protocol h_domain h_type h_protocol =
      rw
        (
          channel,
          int_back domain h_domain,
          int_back type h_type,
          int_back protocol h_protocol,
          extend_int-mod (host.call (socket domain type protocol)),
        )
        refl

  pub sys_bind-direct :
      (sockfd addr addrlen : ℕ)
      → sockfd < 2 ^ 32
      → addrlen < 2 ^ 32
      → complete host m (sys_off_bind k sockfd addr addrlen)
        ≡ some (direct host (λ p. get_va m (k.get_pa p)) (sys_bind sockfd addr addrlen))
  unfolding complete sys_off_bind offload_local_proxy serve_bind direct
  sys_bind-direct sockfd addr addrlen h_sockfd h_addrlen = elim (Bool-cases (addr == 0)) [
    | inl e ↦ rw (channel, e) refl
    | inr e ↦
        rw
          (
            channel,
            e,
            int_back sockfd h_sockfd,
            mod-eq_of_lt h_addrlen,
            extend_int-mod (host.call (bind sockfd (get_va m (k.get_pa addr)) addrlen)),
          )
          refl
  ]

  pub sys_listen-direct :
      (sockfd backlog : ℕ)
      → sockfd < 2 ^ 32
      → backlog < 2 ^ 32
      → complete host m (sys_off_listen k sockfd backlog)
        ≡ some (direct host (λ p. get_va m (k.get_pa p)) (sys_listen sockfd backlog))
  unfolding complete sys_off_listen offload_local_proxy serve_listen direct
  sys_listen-direct sockfd backlog h_sockfd h_backlog =
      rw
        (
          channel,
          int_back sockfd h_sockfd,
          int_back backlog h_backlog,
          extend_int-mod (host.call (listen sockfd backlog)),
        )
        refl

  pub sys_connect-direct :
      (sockfd addr addrlen : ℕ)
      → sockfd < 2 ^ 32
      → addrlen < 2 ^ 32
      → complete host m (sys_off_connect k sockfd addr addrlen)
        ≡ some (direct host (λ p. get_va m (k.get_pa p)) (sys_connect sockfd addr addrlen))
  unfolding complete sys_off_connect offload_local_proxy serve_connect direct
  sys_connect-direct sockfd addr addrlen h_sockfd h_addrlen = elim (Bool-cases (addr == 0)) [
    | inl e ↦ rw (channel, e) refl
    | inr e ↦
        rw
          (
            channel,
            e,
            int_back sockfd h_sockfd,
            mod-eq_of_lt h_addrlen,
            extend_int-mod (host.call (connect sockfd (get_va m (k.get_pa addr)) addrlen)),
          )
          refl
  ]

  pub sys_accept-direct :
      (sockfd addr addrlen : ℕ)
      → sockfd < 2 ^ 32
      → complete host m (sys_off_accept k sockfd addr addrlen)
        ≡ some (direct host (λ p. get_va m (k.get_pa p)) (sys_accept sockfd addr addrlen))
  unfolding complete sys_off_accept offload_local_proxy serve_accept direct
  sys_accept-direct sockfd addr addrlen h_sockfd = elim (Bool-cases (addr == 0)) [
    | inl e ↦ rw (channel, e) refl
    | inr e ↦ elim (Bool-cases (addrlen == 0)) [
      | inl z ↦ rw (channel, e, z) refl
      | inr z ↦
          rw
            (
              channel,
              e,
              z,
              int_back sockfd h_sockfd,
              extend_int-mod (
                  host.call
                    (accept sockfd (get_va m (k.get_pa addr)) (get_va m (k.get_pa addrlen)))),
            )
            refl
    ]
  ]
