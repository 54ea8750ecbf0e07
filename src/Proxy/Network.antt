-- ===== src/Proxy/Network.antt =====
-- The jobs of sideloader/offload_proxy/offload_network.c: what each does with the parameters of a
-- request. What the jobs print is left out.
use azalea.Prelude.{ℕ, zero, suc, ◌%◌, ◌^◌, Option, none, some, List, [], ◌∷◌, ◌++◌, if◌then◌else◌}
use azalea.Prelude.Words.{extend_int}
use azalea.Offload.Message.{Request}
use azalea.Proxy.{
  Host, Mapping, Store, store_bytes, store_int, Done, done, call_int, get_va, int_lt, gethostname,
  gethostbyname, getsockname, socket, bind, listen, connect, accept,
}

-- `sys_off_gethostname`: the length is an `int` that is made a size_t.
unfoldable pub serve_gethostname : Host → Mapping → Request → Done
serve_gethostname host m r =
    let len = r.param2 % 2 ^ 32 in call_int host (gethostname (get_va m r.param1) (extend_int len))

-- The C library's `strcpy` of a string that is there, and `memcpy` of the first bytes.
abbrev pub strcpy : (destination : ℕ) → Option (List ℕ) → List Store
strcpy to none = []
strcpy to (some s) = store_bytes to (s ++ 0 ∷ []) ∷ []

abbrev pub take : ℕ → List ℕ → List ℕ
take n [] = []
take zero (x ∷ l) = []
take (suc n) (x ∷ l) = x ∷ take n l

abbrev pub memcpy : (destination : ℕ) → Option (List ℕ) → (len : ℕ) → List Store
memcpy to none len = []
memcpy to (some s) len = if int_lt 0 len then store_bytes to (take len s) ∷ [] else []

-- `sys_off_gethostbyname`
unfoldable pub serve_gethostbyname : Host → Mapping → Request → Done
serve_gethostbyname host m r =
    let name = get_va m r.param1 in
    elim (host.hostent name) [
      | none ↦ done (gethostbyname name ∷ []) 0
      | some h ↦ record {
        calls = gethostbyname name ∷ [];
        stores =
            strcpy (get_va m r.param2) h.h_name
            ++ strcpy (get_va m r.param3) h.h_alias
            ++ store_int (get_va m r.param4) h.h_addrtype
              ∷ store_int (get_va m r.param5) h.h_length
              ∷ memcpy (get_va m r.param6) h.h_addr h.h_length;
        ret = h.address;
      }
    ]

-- `sys_off_getsockname`
unfoldable pub serve_getsockname : Host → Mapping → Request → Done
serve_getsockname host m r =
    call_int host (getsockname (r.param1 % 2 ^ 32) (get_va m r.param2) (get_va m r.param3))

-- `sys_off_socket`
unfoldable pub serve_socket : Host → Request → Done
serve_socket host r =
    call_int host (socket (r.param1 % 2 ^ 32) (r.param2 % 2 ^ 32) (r.param3 % 2 ^ 32))

-- `sys_off_bind`
unfoldable pub serve_bind : Host → Mapping → Request → Done
serve_bind host m r =
    call_int host (bind (r.param1 % 2 ^ 32) (get_va m r.param2) (r.param3 % 2 ^ 32))

-- `sys_off_listen`
unfoldable pub serve_listen : Host → Request → Done
serve_listen host r = call_int host (listen (r.param1 % 2 ^ 32) (r.param2 % 2 ^ 32))

-- `sys_off_connect`
unfoldable pub serve_connect : Host → Mapping → Request → Done
serve_connect host m r =
    call_int host (connect (r.param1 % 2 ^ 32) (get_va m r.param2) (r.param3 % 2 ^ 32))

-- `sys_off_accept`
unfoldable pub serve_accept : Host → Mapping → Request → Done
serve_accept host m r =
    call_int host (accept (r.param1 % 2 ^ 32) (get_va m r.param2) (get_va m r.param3))
