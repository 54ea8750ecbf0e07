-- ===== src/Utility/Fill.antt =====
-- What `lk_memset` of kernel/utility.c leaves in memory.
use azalea.Prelude.{
  ℕ, zero, suc, ◌+◌, ◌-◌, ◌*◌, ◌/◌, ◌%◌, ◌^◌, ◌<◌, ◌≡◌, refl, Bool, true, ◌&&◌, leb, ltb, ◌==◌,
  ==_iff, if◌then◌else◌, every, every_lem, update, arith,
}
use azalea.Utility.{Ram, spread, store64, fill64, fill8, lk_memset}

spread_table : every 0 256 (λ d. every 0 8 (λ k. spread 8 0 d / 256 ^ k % 256 == d)) ≡ true
unfolding every spread
spread_table = refl

-- Each of the eight bytes is the one given.
spread_byte : (d k : ℕ) → d < 256 → k < 8 → spread 8 0 d / 256 ^ k % 256 ≡ d
spread_byte d k hd hk = (==_iff _ d).0 (every_lem 8 _ k (every_lem 256 _ d spread_table hd) hk)

-- `a ≤ j < a + n`
abbrev pub within : ℕ → ℕ → ℕ → Bool
within a n j = leb a j && ltb j (a + n)

store64-spread :
    (ram : Ram) (a d j : ℕ)
    → d < 256
    → store64 ram a (spread 8 0 d) j ≡ (if within a 8 j then d else ram j)
unfolding store64
store64-spread ram a d j hd = ground (arith, spread_byte d (j - a) hd)

fill64-spread :
    (n : ℕ) (ram : Ram) (a d i j : ℕ)
    → d < 256
    → fill64 n ram a (spread 8 0 d) i j ≡ (if within (a + i * 8) (n * 8) j then d else ram j)
unfolding fill64
fill64-spread zero ram a d i j hd = ground arith
fill64-spread (suc n) ram a d i j hd = ground (
  arith,
  fill64-spread n (store64 ram (a + i * 8) (spread 8 0 d)) a d (i + 1) j hd,
  store64-spread ram (a + i * 8) d j hd,
)

fill8_lem :
    (n : ℕ) (ram : Ram) (a d o j : ℕ)
    → fill8 n ram a d o j ≡ (if within (a + o) n j then d else ram j)
unfolding fill8
fill8_lem zero ram a d o j = ground arith
fill8_lem (suc n) ram a d o j = ground (arith, fill8_lem n (update ram (a + o) d) a d (o + 1) j)

-- `lk_memset` fills exactly the `size` bytes from the address on, whatever the size's rest
-- modulo 8, and leaves every other byte alone.
pub lk_memset_lem :
    (ram : Ram) (a d size j : ℕ)
    → d < 256
    → lk_memset ram a d size j ≡ (if within a size j then d else ram j)
unfolding lk_memset
lk_memset_lem ram a d size j hd = ground (
  arith,
  fill8_lem (size % 8) (fill64 (size / 8) ram a (spread 8 0 d) 0) a d (size / 8 * 8) j,
  fill64-spread (size / 8) ram a d 0 j hd,
)
