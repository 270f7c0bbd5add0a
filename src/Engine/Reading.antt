-- ===== src/Engine/Reading.antt =====
-- A network connection as `RecvPackage` reads it: the bytes that are still to come, and how many bytes
-- each of the next calls of `Read` finds, at most. The connection is closed, and `Read` answers an
-- error, when there are no more such numbers.
use polarcloud.Prelude.{
  ℕ, ◌+◌, ◌≤◌, ◌<◌, ◌≡◌, refl, ap, ◌∙◌, inl, inr, Bool, true, List, [], ◌∷◌, ◌++◌, append_assoc,
  All, length, take, drop, length-append, take-append-drop, length-take-drop, length-drop,
  Bool-cases, leb, leb_of_le, if◌then◌else◌, arith,
}
use polarcloud.Engine.Uint.{Bytes}

pub record Conn : Type 0 where
  pub incoming : Bytes
  pub found : List ℕ

-- `n` of `conn.Read(cache)` for a cache of `size` bytes.
abbrev read_count : ℕ → ℕ → ℕ
read_count size s = if leb s size then s else size

-- `for len(temp) < want { read into a cache of `size` bytes; append it to temp }`: whether the loop ends
-- by its test, the bytes that it leaves in `temp`, and the connection then.
unfoldable pub fill : ℕ → ℕ → Bytes → Bytes → List ℕ → Bool × Bytes × Conn
fill want size temp incoming [] =
    (leb want (length temp), temp, record { incoming = incoming; found = [] })
fill want size temp incoming (s ∷ found) =
    let n = read_count size s in
    let rest = fill want size (temp ++ take n incoming) (drop n incoming) found in
    if leb want (length temp)
    then (true, temp, record { incoming = incoming; found = s ∷ found })
    else rest

-- Every `Read` finds a byte, as long as there are any.
pub record IsLive (c : Conn) : Type 0 where
  pub found_some : All (λ s. 0 < s) c.found
  pub enough : length c.incoming ≤ length c.found

-- The loop neither loses nor reorders a byte, whether it ends by its test or by an error.
pub fill-append :
    (want size : ℕ) (temp incoming : Bytes) (found : List ℕ)
    → (fill want size temp incoming found).1 ++ (fill want size temp incoming found).2.incoming
      ≡ temp ++ incoming
unfolding fill
fill-append want size temp incoming [] = refl
fill-append want size temp incoming (s ∷ found) = elim (Bool-cases (leb want (length temp))) [
  | inl done ↦ rw done
  | inr more ↦ rw more (
      fill-append want size (temp ++ take (read_count size s) incoming)
        (drop (read_count size s) incoming) found
      ∙ append_assoc temp (take (read_count size s) incoming) (drop (read_count size s) incoming)
      ∙ ap (λ r. temp ++ r) (take-append-drop (read_count size s) incoming))
]

-- On a live connection with enough bytes the loop ends by its test, and the connection stays live.
pub fill_ends :
    (want size : ℕ) (temp incoming : Bytes) (found : List ℕ)
    → 0 < size
    → All (λ s. 0 < s) found
    → length incoming ≤ length found
    → want ≤ length temp + length incoming
    → ((fill want size temp incoming found).0 ≡ true)
      × (want ≤ length (fill want size temp incoming found).1)
      × IsLive (fill want size temp incoming found).2
unfolding fill
fill_ends want size temp incoming [] h a e k =
    (ground arith, ground arith, record { found_some = tt; enough = e })
fill_ends want size temp incoming (s ∷ found) h (b, a) e k =
    elim (Bool-cases (leb want (length temp))) [
      | inl done ↦ rw done (refl, ground arith, record { found_some = (b, a); enough = e })
      | inr more ↦
          let n = read_count size s in
          let some_read : 0 < n = ground arith in
          rw more (
            fill_ends want size (temp ++ take n incoming) (drop n incoming) found h a
              (ground (arith, length-drop n incoming))
              (ground
                (arith, length-take-drop n incoming, length-append {0} temp (take n incoming))))
    ]

-- The loop ends by its test only with the bytes that it wants, and by an error only with fewer.
pub fill-le :
    (want size : ℕ) (temp incoming : Bytes) (found : List ℕ)
    → (fill want size temp incoming found).0
      ≡ leb want (length (fill want size temp incoming found).1)
unfolding fill
fill-le want size temp incoming [] = refl
fill-le want size temp incoming (s ∷ found) = elim (Bool-cases (leb want (length temp))) [
  | inl done ↦ rw (done, done)
  | inr more ↦ rw more (
      fill-le want size (temp ++ take (read_count size s) incoming)
        (drop (read_count size s) incoming) found)
]

-- With enough bytes at hand nothing is read.
pub fill_done :
    (want size : ℕ) (temp incoming : Bytes) (found : List ℕ)
    → want ≤ length temp
    → fill want size temp incoming found
      ≡ (true, temp, record { incoming = incoming; found = found })
unfolding fill
fill_done want size temp incoming [] h = rw (leb_of_le want (length temp) h)
fill_done want size temp incoming (s ∷ found) h = rw (leb_of_le want (length temp) h)
