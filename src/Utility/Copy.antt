-- ===== src/Utility/Copy.antt =====
-- `lk_memcpy` of kernel/utility.c.
use azalea.Prelude.{
  ℕ, zero, suc, ◌+◌, ◌-◌, ◌*◌, ◌/◌, ◌%◌, ◌≤◌, ◌≡◌, ◌⊎◌, refl, ◌&&◌, leb, ltb, if◌then◌else◌, update,
  arith,
}
use azalea.Utility.{Ram}
use azalea.Utility.Fill.{within}

-- `((QWORD *) destination)[i] = ((QWORD *) source)[i]`: eight bytes are read, then written.
unfoldable pub move64 : Ram → ℕ → ℕ → Ram
move64 ram d s j = if leb d j && ltb j (d + 8) then ram (s + (j - d)) else ram j

-- The two copying loops, with `n` rounds left.
unfoldable pub copy64 : ℕ → Ram → ℕ → ℕ → ℕ → Ram
copy64 zero ram d s i = ram
copy64 (suc n) ram d s i = copy64 n (move64 ram (d + i * 8) (s + i * 8)) d s (i + 1)

unfoldable pub copy8 : ℕ → Ram → ℕ → ℕ → ℕ → Ram
copy8 zero ram d s offset = ram
copy8 (suc n) ram d s offset = copy8 n (update ram (d + offset) (ram (s + offset))) d s (offset + 1)

-- `lk_memcpy`: the result and the memory.
unfoldable pub lk_memcpy : Ram → ℕ → ℕ → ℕ → ℕ × Ram
lk_memcpy ram d s size = (size, copy8 (size % 8) (copy64 (size / 8) ram d s 0) d s (size / 8 * 8))

-- The areas do not overlap.
abbrev pub IsDisjointArea : ℕ → ℕ → ℕ → Type 0
IsDisjointArea d s size = (d + size ≤ s) ⊎ (s + size ≤ d)

copy64_lem :
    (n : ℕ) (ram : Ram) (d s i size j : ℕ)
    → IsDisjointArea d s size
    → i * 8 + n * 8 ≤ size
    → copy64 n ram d s i j ≡ (if within (d + i * 8) (n * 8) j then ram (s + (j - d)) else ram j)
unfolding copy64 move64
copy64_lem zero ram d s i size j a h = ground arith
copy64_lem (suc n) ram d s i size j a h =
    ground (arith, copy64_lem n (move64 ram (d + i * 8) (s + i * 8)) d s (i + 1) size j a, offset)
  where
    offset : d + i * 8 ≤ j → s + i * 8 + (j - (d + i * 8)) ≡ s + (j - d)
    offset lo = omega arith

copy8_lem :
    (n : ℕ) (ram : Ram) (d s o size j : ℕ)
    → IsDisjointArea d s size
    → o + n ≤ size
    → copy8 n ram d s o j ≡ (if within (d + o) n j then ram (s + (j - d)) else ram j)
unfolding copy8
copy8_lem zero ram d s o size j a h = ground arith
copy8_lem (suc n) ram d s o size j a h =
    ground (arith, copy8_lem n (update ram (d + o) (ram (s + o))) d s (o + 1) size j a)

-- Between areas that do not overlap, `lk_memcpy` copies exactly the `size` bytes, whatever the
-- size's rest modulo 8, and leaves every other byte alone.
pub lk_memcpy_lem :
    (ram : Ram) (d s size j : ℕ)
    → IsDisjointArea d s size
    → ((lk_memcpy ram d s size).0 ≡ size)
      × ((lk_memcpy ram d s size).1 j ≡ (if within d size j then ram (s + (j - d)) else ram j))
unfolding lk_memcpy
lk_memcpy_lem ram d s size j a = (
  refl,
  ground (
    arith,
    copy8_lem (size % 8) (copy64 (size / 8) ram d s 0) d s (size / 8 * 8) size j a (omega arith),
    copy64_lem (size / 8) ram d s 0 size j a (omega arith),
    copy64_lem (size / 8) ram d s 0 size (s + (j - d)) a (omega arith),
  ),
)
