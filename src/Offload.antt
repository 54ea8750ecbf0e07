-- ===== src/Offload.antt =====
-- `get_iovec` of kernel/offload/offload_page.c: the physical segments of a buffer. The page tables
-- are a function from the number of a virtual page to that of its frame.
pub mod Segments
pub mod Channel
pub mod Fifo
pub mod Refine
pub mod Message
pub mod Owners
pub mod Exchange
pub mod Expected
pub mod Steps
pub mod Answers
pub mod Waits
use azalea.Prelude.{
  ℕ, zero, suc, ◌+◌, ◌-◌, ◌*◌, ◌/◌, ◌%◌, ◌^◌, Option, none, some, List, [], ◌∷◌, leb, ◌==◌,
  if◌then◌else◌,
}

-- `struct iovec`
pub record Iovec : Type 0 where
  pub iov_base : ℕ
  pub iov_len : ℕ

abbrev pub page_size_4k : ℕ
page_size_4k = 4096

-- `get_pa` of an address that is mapped: the frame, and the offset in the page.
abbrev pub get_pa : (ℕ → ℕ) → ℕ → ℕ
get_pa frame va = frame (va / page_size_4k) * page_size_4k + va % page_size_4k

-- The part of the buffer in the page that is looked at.
abbrev pub page_len : ℕ → ℕ → ℕ
page_len scan_buf scan_buf_len =
    let rest = page_size_4k - scan_buf % page_size_4k in
    if leb rest scan_buf_len then rest else scan_buf_len

-- The loop over `nr_pages` pages, and the segment that is left after it: the entries that are
-- written.
unfoldable pub emit : (ℕ → ℕ) → ℕ → ℕ → ℕ → ℕ → ℕ → ℕ → List Iovec
emit frame zero prev read_page_addr read_page_len scan_buf scan_buf_len =
    record { iov_base = read_page_addr; iov_len = read_page_len } ∷ []
emit frame (suc nr_pages) prev read_page_addr read_page_len scan_buf scan_buf_len =
    let page_addr = get_pa frame scan_buf - scan_buf % page_size_4k in
    let len = page_len scan_buf scan_buf_len in
    let same = page_addr == (prev + page_size_4k) % 2 ^ 64 in
    let base = if same then read_page_addr else get_pa frame scan_buf in
    let read = if same then read_page_len + len else len in
    let rest = emit frame nr_pages page_addr base read (scan_buf + len) (scan_buf_len - len) in
    if same then rest else record { iov_base = read_page_addr; iov_len = read_page_len } ∷ rest

-- The number of pages that a buffer touches, in an `int`.
abbrev pub nr_pages : ℕ → ℕ → ℕ
nr_pages buf count =
    let bytes = count + buf % page_size_4k in
    (if bytes % page_size_4k == 0 then bytes / page_size_4k else bytes / page_size_4k + 1) % 2 ^ 32

-- `get_iovec`: the entries that it adds; none is -1, for a buffer that is NULL.
unfoldable pub get_iovec : (ℕ → ℕ) → ℕ → ℕ → Option (List Iovec)
get_iovec frame buf count =
    let page_addr = get_pa frame buf - buf % page_size_4k in
    if buf == 0
    then none
    else some (
        emit frame (nr_pages buf count) ((page_addr + 2 ^ 64 - page_size_4k) % 2 ^ 64)
          (page_addr + buf % page_size_4k) 0 buf count)
