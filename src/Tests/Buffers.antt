-- ===== src/Tests/Buffers.antt =====
-- A buffer of three pages, of which the first two follow each other in the memory.
use azalea.Prelude.{ℕ, ◌≡◌, refl, some, List, [], ◌∷◌, if◌then◌else◌, ◌==◌, arith}
use azalea.Prelude.Spans.{span}
use azalea.Offload.{Iovec, get_pa, emit, get_iovec}
use azalea.Offload.Segments.{IsFrames, bytes_of, get_iovec-bytes}

abbrev frames : ℕ → ℕ
frames page = if page == 16 then 7 else if page == 17 then 8 else 3

frames-IsFrames : IsFrames frames
unfolding IsFrames
frames-IsFrames page = ground arith

get_iovec-bytes_example :
    (iov : List Iovec) × (get_iovec frames 0x10ff0 0x1020 ≡ some iov)
    × (bytes_of iov ≡ span (get_pa frames) 0x10ff0 0x1020)
get_iovec-bytes_example =
    get_iovec-bytes frames 0x10ff0 0x1020 frames-IsFrames (omega arith) (omega arith) (omega arith)

-- The two segments.
two_segments :
    get_iovec frames 0x10ff0 0x1020
    ≡ some (
        record { iov_base = 0x7ff0; iov_len = 0x1010 }
        ∷ record { iov_base = 0x3000; iov_len = 0x10 }
        ∷ [])
unfolding get_iovec emit
two_segments = refl
