-- ===== src/Utility.antt =====
-- The memory primitives of kernel/utility.c, on memory as a function from addresses to bytes.
pub mod Fill
pub mod Copy
pub mod Text
pub mod Compare
pub mod Agree
pub mod Digits
pub mod Numerals
use azalea.Prelude.{
  ℕ, zero, suc, ◌+◌, ◌-◌, ◌*◌, ◌/◌, ◌%◌, ◌^◌, ◌&&◌, leb, ltb, if◌then◌else◌, update, bit_or,
}

-- The bytes of memory.
abbrev pub Ram : Type 0
Ram = ℕ → ℕ

-- `for (i=0; i<8; i++) tmp_data = (tmp_data << 8) | data;`, with `n` rounds left
unfoldable pub spread : ℕ → ℕ → ℕ → ℕ
spread zero tmp d = tmp
spread (suc n) tmp d = spread n (bit_or (tmp * 256 % 2 ^ 64) d) d

-- A store through a `QWORD*` is little-endian.
unfoldable pub store64 : Ram → ℕ → ℕ → Ram
store64 ram a v j = if leb a j && ltb j (a + 8) then v / 256 ^ (j - a) % 256 else ram j

-- The two filling loops, with `n` rounds left.
unfoldable pub fill64 : ℕ → Ram → ℕ → ℕ → ℕ → Ram
fill64 zero ram a v i = ram
fill64 (suc n) ram a v i = fill64 n (store64 ram (a + i * 8) v) a v (i + 1)

unfoldable pub fill8 : ℕ → Ram → ℕ → ℕ → ℕ → Ram
fill8 zero ram a d offset = ram
fill8 (suc n) ram a d offset = fill8 n (update ram (a + offset) d) a d (offset + 1)

-- `lk_memset`, for a size that is the value of the `int` parameter; its callers make an `int` of
-- theirs.
unfoldable pub lk_memset : Ram → ℕ → ℕ → ℕ → Ram
lk_memset ram a d size =
    fill8 (size % 8) (fill64 (size / 8) ram a (spread 8 0 d) 0) a d (size / 8 * 8)
