-- ===== src/Engine/Uint.antt =====
-- Bytes and the numbers that `binary.LittleEndian` writes and reads.
use polarcloud.Prelude.{
  ℕ, zero, suc, ◌+◌, ◌*◌, ◌/◌, ◌%◌, ◌<◌, ◌≡◌, refl, List, [], ◌∷◌, length, arith,
}
use Prim.Native.Nat.{◌^◌}

abbrev pub Bytes : Type 0
Bytes = List ℕ

-- The lowest `n` bytes of a number, the lowest first.
unfoldable pub put_uint : ℕ → ℕ → Bytes
put_uint zero v = []
put_uint (suc n) v = (v % 256) ∷ put_uint n (v / 256)

-- The number that some bytes write.
unfoldable pub uint : Bytes → ℕ
uint [] = 0
uint (b ∷ bs) = b + 256 * uint bs

pub length-put_uint : (n v : ℕ) → length (put_uint n v) ≡ n
unfolding put_uint
length-put_uint zero v = refl
length-put_uint (suc n) v = omega (arith, length-put_uint n (v / 256))

-- The number fits into so many bytes.
abbrev Fits : ℕ → ℕ → Type 0
Fits zero v = v ≡ 0
Fits (suc n) v = Fits n (v / 256)

uint-put_uint-Fits : (n v : ℕ) → Fits n v → uint (put_uint n v) ≡ v
unfolding uint put_uint
uint-put_uint-Fits zero v h = omega arith
uint-put_uint-Fits (suc n) v h = omega (arith, uint-put_uint-Fits n (v / 256) h)

pub uint-put_uint_8 : (v : ℕ) → v < 2 ^ 64 → uint (put_uint 8 v) ≡ v
uint-put_uint_8 v h = uint-put_uint-Fits 8 v (omega arith)

pub uint-put_uint_4 : (v : ℕ) → v < 2 ^ 32 → uint (put_uint 4 v) ≡ v
uint-put_uint_4 v h = uint-put_uint-Fits 4 v (omega arith)
