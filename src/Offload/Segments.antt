-- ===== src/Offload/Segments.antt =====
-- The segments of `get_iovec` are the bytes of the buffer.
use azalea.Prelude.{
  ℕ, zero, suc, ◌+◌, ◌-◌, ◌*◌, ◌/◌, ◌%◌, ◌^◌, ◌≤◌, ◌<◌, ◌≡◌, refl, sym, ap, ◌∙◌, true, false, some,
  List, [], ◌∷◌, ◌++◌, Bool-cases, inl, inr, ◌==◌, ==_iff, arith,
}
use azalea.Prelude.Spans.{span, span-split, span-same, span-none}
use azalea.Offload.{Iovec, page_size_4k, get_pa, page_len, emit, nr_pages, get_iovec}

abbrev pub bytes_of : List Iovec → List ℕ
bytes_of [] = []
bytes_of (v ∷ l) = span (λ a. a) v.iov_base v.iov_len ++ bytes_of l

append_assoc : (k l m : List ℕ) → (k ++ l) ++ m ≡ k ++ (l ++ m)
append_assoc [] l m = refl
append_assoc (x ∷ k) l m = ap (λ k. x ∷ k) (append_assoc k l m)

append_nil : (k : List ℕ) → k ++ [] ≡ k
append_nil [] = refl
append_nil (x ∷ k) = ap (λ k. x ∷ k) (append_nil k)

-- Physical addresses have 52 bits.
unfoldable pub IsFrames : (ℕ → ℕ) → Type 0
IsFrames frame = (page : ℕ) → frame page < 2 ^ 40

-- Within a page the physical addresses count on.
get_pa-linear :
    (frame : ℕ → ℕ) (scan len : ℕ)
    → len ≤ page_size_4k - scan % page_size_4k
    → span (get_pa frame) scan len ≡ span (λ a. a) (get_pa frame scan) len
get_pa-linear frame scan len h =
    span-same (get_pa frame) (λ a. a) scan (get_pa frame scan) len
      (λ j q.
        let page : (scan + j) / 4096 ≡ scan / 4096 = omega arith in
        let offset : (scan + j) % 4096 ≡ scan % 4096 + j = omega arith in
        rw (page, offset) (omega arith))

-- What holds before each page of the loop: the rest of the buffer fits in the pages that are left,
-- and the next physical address follows the segment when its page follows the last one.
record IsReading (frame : ℕ → ℕ) (pages prev base len scan left : ℕ) : Type 0 where
  fits : 1 ≤ left → scan % page_size_4k + left ≤ pages * page_size_4k
  follows :
      1 ≤ left
      → frame (scan / page_size_4k) * page_size_4k ≡ (prev + page_size_4k) % 2 ^ 64
      → get_pa frame scan ≡ base + len

-- The page that the loop has looked at.
abbrev page_of : (ℕ → ℕ) → ℕ → ℕ
page_of frame scan = get_pa frame scan - scan % page_size_4k

next-IsReading :
    (frame : ℕ → ℕ) (n prev base len base' len' scan left : ℕ)
    → IsFrames frame
    → IsReading frame (suc n) prev base len scan left
    → (1 ≤ left → base' + len' ≡ get_pa frame scan + page_len scan left)
    → IsReading frame n
        (page_of frame scan)
        base'
        len'
        (scan + page_len scan left)
        (left - page_len scan left)
unfolding IsFrames
next-IsReading frame n prev base len base' len' scan left fr r e = record {
  fits = λ q. ground (arith, r.fits (ground arith));
  follows = λ q same.
      let whole : page_len scan left ≡ 4096 - scan % 4096 = ground arith in
      let aligned : (scan + page_len scan left) % 4096 ≡ 0 = rw whole (omega arith) in
      let next = frame ((scan + page_len scan left) / 4096) in
      let small = fr (scan / 4096) in omega (arith, e (ground arith), whole, aligned, same, small);
}

-- The part of the buffer in the page, as a part of the segment.
part :
    (frame : ℕ → ℕ) (scan left base : ℕ)
    → (1 ≤ left → get_pa frame scan ≡ base)
    → span (λ a. a) base (page_len scan left) ≡ span (get_pa frame) scan (page_len scan left)
unfolding span
part frame scan left base h = elim (Bool-cases (left == 0)) [
  | inl z ↦ let empty : page_len scan left ≡ 0 = ground arith in rw empty refl
  | inr p ↦
      rw (sym (h (ground arith)))
        (sym (get_pa-linear frame scan (page_len scan left) (ground arith)))
]

cut :
    (frame : ℕ → ℕ) (scan left : ℕ)
    → span (get_pa frame) scan (page_len scan left)
        ++ span (get_pa frame) (scan + page_len scan left) (left - page_len scan left)
      ≡ span (get_pa frame) scan left
cut frame scan left =
    let whole : page_len scan left + (left - page_len scan left) ≡ left = ground arith in
    sym (span-split (get_pa frame) scan (page_len scan left) (left - page_len scan left))
    ∙ ap (span (get_pa frame) scan) whole

-- The page that was found to follow the last one.
next_to :
    (frame : ℕ → ℕ) (prev base len scan : ℕ)
    → (page_of frame scan == (prev + page_size_4k) % 2 ^ 64) ≡ true
    → (frame (scan / page_size_4k) * page_size_4k ≡ (prev + page_size_4k) % 2 ^ 64
        → get_pa frame scan ≡ base + len)
    → get_pa frame scan ≡ base + len
next_to frame prev base len scan e h =
    h (omega (arith, (==_iff (page_of frame scan) ((prev + page_size_4k) % 2 ^ 64)).0 e))

emit-bytes :
    (frame : ℕ → ℕ) (n prev base len scan left : ℕ)
    → IsFrames frame
    → IsReading frame n prev base len scan left
    → bytes_of (emit frame n prev base len scan left)
      ≡ span (λ a. a) base len ++ span (get_pa frame) scan left
unfolding emit
emit-bytes frame zero prev base len scan left fr r = elim (Bool-cases (left == 0)) [
  | inl z ↦
      rw ((==_iff left 0).0 z)
        (ap (λ k. span (λ a. a) base len ++ k) (sym (span-none (get_pa frame) scan)))
  | inr p ↦ let over = r.fits (ground arith) in absurd (ground arith)
]
emit-bytes frame (suc n) prev base len scan left fr r =
    elim (Bool-cases (page_of frame scan == (prev + page_size_4k) % 2 ^ 64)) [
      | inl e ↦ rw e (
          emit-bytes frame n (page_of frame scan) base (len + page_len scan left)
            (scan + page_len scan left) (left - page_len scan left) fr
            (next-IsReading frame n prev base len base (len + page_len scan left) scan left fr r
              (λ q. omega (arith, next_to frame prev base len scan e (r.follows q))))
          ∙ ap
              (λ k.
                k ++ span (get_pa frame) (scan + page_len scan left) (left - page_len scan left))
              (span-split (λ a. a) base len (page_len scan left))
          ∙ append_assoc (span (λ a. a) base len) (span (λ a. a) (base + len) (page_len scan left))
              (span (get_pa frame) (scan + page_len scan left) (left - page_len scan left))
          ∙ ap
              (λ k.
                span (λ a. a) base len
                ++ (k
                    ++ span (get_pa frame) (scan + page_len scan left) (left - page_len scan left)))
              (part frame scan left (base + len)
                (λ q. next_to frame prev base len scan e (r.follows q)))
          ∙ ap (λ k. span (λ a. a) base len ++ k) (cut frame scan left))
      | inr e ↦ rw e (
          ap (λ k. span (λ a. a) base len ++ k)
            (emit-bytes frame n (page_of frame scan) (get_pa frame scan) (page_len scan left)
                (scan + page_len scan left) (left - page_len scan left) fr
                (next-IsReading frame n prev base len (get_pa frame scan) (page_len scan left) scan
                  left fr r (λ q. refl))
              ∙ ap
                  (λ k.
                    k
                    ++ span (get_pa frame) (scan + page_len scan left) (left - page_len scan left))
                  (part frame scan left (get_pa frame scan) (λ q. refl))
              ∙ cut frame scan left))
    ]

-- For a buffer that is not NULL, lies in the address space and has pages that an `int` counts, and
-- frames whose addresses have 52 bits, `get_iovec` succeeds, and the bytes of the segments that it
-- gives, one after the other, are the physical addresses of the buffer's bytes in their order.
pub get_iovec-bytes :
    (frame : ℕ → ℕ) (buf count : ℕ)
    → IsFrames frame
    → 1 ≤ buf
    → buf + count ≤ 2 ^ 64
    → buf % page_size_4k + count ≤ 2 ^ 42
    → (iov : List Iovec) × (get_iovec frame buf count ≡ some iov)
      × (bytes_of iov ≡ span (get_pa frame) buf count)
unfolding get_iovec
get_iovec-bytes frame buf count fr some_buf in_space in_int =
    let prev = (page_of frame buf + 2 ^ 64 - page_size_4k) % 2 ^ 64 in
    let base = page_of frame buf + buf % page_size_4k in
    let given : buf == 0 ≡ false = ground arith in
    (
      emit frame (nr_pages buf count) prev base 0 buf count,
      rw given refl,
      emit-bytes frame (nr_pages buf count) prev base 0 buf count fr
            (record { fits = λ q. ground arith; follows = λ q e. omega arith })
          ∙ ap (λ k. k ++ span (get_pa frame) buf count) (span-none (λ a. a) base),
    )
