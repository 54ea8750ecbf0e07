-- ===== src/Buddy/Bits.antt =====
-- One byte of a block bitmap: testing, setting and clearing a bit, as kernel/memory.c does
-- with `&`, `|=` and `&= ~`.
use azalea.Prelude.{
  ℕ, ◌-◌, ◌/◌, ◌%◌, ◌^◌, ◌<◌, ◌≡◌, refl, Bool, true, false, not, ◌&&◌, arith, bit_and, bit_or, ltb,
  ltb→lt, ◌==◌, if◌then◌else◌, every, every_lem, update,
}

-- `(b & (0x01 << k)) != 0`
unfoldable pub test_bit : ℕ → ℕ → Bool
test_bit b k = not (bit_and b (2 ^ k) == 0)

-- `b |= (0x01 << k)`
unfoldable pub set_bit : ℕ → ℕ → ℕ
set_bit b k = bit_or b (2 ^ k)

-- `b &= ~(0x01 << k)`, in a byte
unfoldable pub clear_bit : ℕ → ℕ → ℕ
clear_bit b k = bit_and b (255 - 2 ^ k)

abbrev same : Bool → Bool → Bool
same true b = b
same false b = not b

same_sound : (a b : Bool) → same a b ≡ true → a ≡ b
same_sound a b h = ground arith

and_parts : (a b : Bool) → (a && b) ≡ true → (a ≡ true) × (b ≡ true)
and_parts a b h = ground arith

abbrev check : (ℕ → ℕ → ℕ) → Bool → ℕ → ℕ → ℕ → Bool
check op f b k j =
    same (test_bit (op b k) j) (if k == j then f else test_bit b j) && ltb (op b k) 256

abbrev table : (ℕ → ℕ → ℕ) → Bool → Bool
table op f = every 0 256 λ b. every 0 8 λ k. every 0 8 λ j. check op f b k j

table-set_bit : table set_bit true ≡ true
unfolding every test_bit set_bit
table-set_bit = refl

table-clear_bit : table clear_bit false ≡ true
unfolding every test_bit clear_bit
table-clear_bit = refl

table_sound :
    (op : ℕ → ℕ → ℕ) (f : Bool) (b k j : ℕ)
    → table op f ≡ true
    → b < 256
    → k < 8
    → j < 8
    → (test_bit (op b k) j ≡ (if k == j then f else test_bit b j)) × (op b k < 256)
table_sound op f b k j t hb hk hj = (same_sound _ _ both.0, ltb→lt _ _ both.1)
  where
    row : every 0 8 (λ k. every 0 8 (λ j. check op f b k j)) ≡ true
    row = every_lem 256 _ b t hb

    cell : check op f b k j ≡ true
    cell = every_lem 8 _ j (every_lem 8 _ k row hk) hj

    both :
        (same (test_bit (op b k) j) (if k == j then f else test_bit b j) ≡ true)
        × (ltb (op b k) 256 ≡ true)
    both = and_parts _ _ cell

-- The bit with number `o` of a bitmap: bit `o % 8` of its byte `o / 8`.
unfoldable pub bit : (ℕ → ℕ) → ℕ → Bool
bit bm o = test_bit (bm (o / 8)) (o % 8)

-- The bitmap with that bit set, and with it cleared.
unfoldable pub put : (ℕ → ℕ) → ℕ → Bool → ℕ → ℕ
put bm o f =
    update bm (o / 8) (if f then set_bit (bm (o / 8)) (o % 8) else clear_bit (bm (o / 8)) (o % 8))

abbrev pub AllBytes : (ℕ → ℕ) → Type 0
AllBytes bm = (j : ℕ) → bm j < 256

written_bit :
    (f : Bool) (b k j : ℕ)
    → b < 256
    → k < 8
    → j < 8
    → (test_bit (if f then set_bit b k else clear_bit b k) j ≡ (if k == j then f else test_bit b j))
      × ((if f then set_bit b k else clear_bit b k) < 256)
written_bit true b k j hb hk hj = table_sound set_bit true b k j table-set_bit hb hk hj
written_bit false b k j hb hk hj = table_sound clear_bit false b k j table-clear_bit hb hk hj

-- Writing one bit changes that bit alone.
pub bit-put :
    (bm : ℕ → ℕ) (o : ℕ) (f : Bool) (j : ℕ)
    → AllBytes bm
    → bit (put bm o f) j ≡ (if j == o then f else bit bm j)
unfolding bit put
bit-put bm o f j h =
    ground (arith, written_bit f (bm (o / 8)) (o % 8) (j % 8) (h _) (omega arith) (omega arith))

pub put-AllBytes : (bm : ℕ → ℕ) (o : ℕ) (f : Bool) → AllBytes bm → AllBytes (put bm o f)
unfolding put
put-AllBytes bm o f h j =
    ground (arith, h j, written_bit f (bm (o / 8)) (o % 8) 0 (h _) (omega arith) (omega arith))

zero_table : every 0 8 (λ k. not (test_bit 0 k)) ≡ true
unfolding every test_bit
zero_table = refl

-- A zero byte has no bit set.
pub bit_of_zero : (bm : ℕ → ℕ) (o : ℕ) → bm (o / 8) ≡ 0 → bit bm o ≡ false
unfolding bit
bit_of_zero bm o e = rw e (ground (arith, every_lem 8 _ (o % 8) zero_table (omega arith)))
