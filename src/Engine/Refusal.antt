-- ===== src/Engine/Refusal.antt =====
-- The packets that `RecvPackage` refuses by their lengths.
use polarcloud.Prelude.{
  ℕ, ◌+◌, ◌-◌, ◌≤◌, ◌<◌, ◌≡◌, ap, ◌∙◌, sym, refl, Bool, true, false, ◌++◌, length, length-append,
  take, take-append_le, Option, none, some, leb, ltb, if◌then◌else◌, arith,
}
use Prim.Native.Nat.{◌^◌}
use polarcloud.Engine.Uint.{Bytes, put_uint, uint, uint-put_uint_8, length-put_uint}
use polarcloud.Engine.Reading.{Conn, fill, fill-append, fill_ends, fill-le, IsLive}
use polarcloud.Engine.Layout
use polarcloud.Engine.{
  Packet, Failure, closed, too_long, too_short, max_size, recv_body, recv_package,
}

-- What is wrong with a packet by its length, where so many bytes come before the connection is closed.
unfoldable pub refusal : ℕ → ℕ → Option Failure
refusal size total =
    if ltb max_size size
    then some too_long
    else if ltb size 28
    then some too_short
    else if ltb total size
    then some closed
    else none

leb_of_lt : (a b : ℕ) → b < a → leb a b ≡ false
leb_of_lt a b h = ground arith

-- The tests of `RecvPackage` beside those of `refusal`.
refusal_branches :
    (long short few : Bool) (f : Failure) (p : Packet) (c : Conn)
    (body : Option Failure × Packet × Conn)
    → (few ≡ true → body.0 ≡ some closed)
    → (if long
        then some too_long
        else if short
        then some too_short
        else if few
        then some closed
        else none)
      ≡ some f
    → (if long then (some too_long, p, c) else if short then (some too_short, p, c) else body).0
      ≡ some f
refusal_branches true short few f p c body h r = r
refusal_branches false true few f p c body h r = r
refusal_branches false false true f p c body h r = h refl ∙ r
refusal_branches false false false f p c body h r = absurd (cc)

-- The second loop, on a connection that does not give the bytes that the packet has.
recv_body-closed :
    (spare : Bytes → Bytes) (netid : ℕ) (p : Packet) (c : Conn)
    → length p.temp + length c.incoming < p.size
    → (recv_body spare netid p c).0 ≡ some closed
unfolding recv_body
recv_body-closed spare netid p c h =
    let filled = fill p.size (p.size - 16) p.temp c.incoming c.found in
    let few : length filled.1 < p.size = omega (
      arith,
      length-append {0} filled.1 filled.2.incoming,
      length-append {0} p.temp c.incoming,
      ap (λ (t : Bytes). length t) (fill-append p.size (p.size - 16) p.temp c.incoming c.found),
    ) in
    rw (
      fill-le p.size (p.size - 16) p.temp c.incoming c.found,
      leb_of_lt p.size (length filled.1) few,
    )

-- A packet with a wrong length ends the session with the error that says what is wrong: on a live
-- connection on which the head of the packet comes, longer than allowed, shorter than a head, or longer
-- than what comes before the connection is closed.
pub recv_package-refusal :
    (spare : Bytes → Bytes) (netid size : ℕ) (tail : Bytes) (p : Packet) (c : Conn) (f : Failure)
    → size < 2 ^ 64
    → 8 ≤ length tail
    → IsLive c
    → p.temp ++ c.incoming ≡ put_uint 8 size ++ tail
    → refusal size (8 + length tail) ≡ some f
    → (recv_package spare netid p c).0 ≡ some f
unfolding recv_package refusal
recv_package-refusal spare netid size tail p c f fits head live e r =
    let filled = fill 16 16 p.temp c.incoming c.found in
    let total : length (p.temp ++ c.incoming) ≡ 8 + length tail = omega (
      arith,
      ap (λ (t : Bytes). length t) e,
      length-append {0} (put_uint 8 size) tail,
      length-put_uint 8 size,
    ) in
    let ends =
      fill_ends 16 16 p.temp c.incoming c.found (omega arith) live.found_some live.enough
        (omega (arith, total, length-append {0} p.temp c.incoming)) in
    let same : filled.1 ++ filled.2.incoming ≡ put_uint 8 size ++ tail =
      fill-append 16 16 p.temp c.incoming c.found ∙ e in
    let got : uint (take 8 filled.1) ≡ size =
      ap uint (
        sym (take-append_le 8 filled.1 filled.2.incoming (omega (arith, ends.1)))
        ∙ ap (λ (t : Bytes). take 8 t) same
        ∙ Layout.take-front 8 (put_uint 8 size) tail (sym (length-put_uint 8 size)))
      ∙ uint-put_uint_8 size fits in
    let few : (ltb (8 + length tail) size ≡ true)
        → (recv_body spare netid (record p { size = size; temp = filled.1 }) filled.2).0
          ≡ some closed =
      λ less.
        recv_body-closed spare netid (record p { size = size; temp = filled.1 }) filled.2
          (ground (
            arith,
            less,
            length-append {0} filled.1 filled.2.incoming,
            length-append {0} (put_uint 8 size) tail,
            length-put_uint 8 size,
            ap (λ (t : Bytes). length t) same,
          )) in
    rw (ends.0, got)
      (refusal_branches (ltb max_size size) (ltb size 28) (ltb (8 + length tail) size) f
        (record p { size = size; temp = filled.1 }) filled.2
        (recv_body spare netid (record p { size = size; temp = filled.1 }) filled.2) few r)
