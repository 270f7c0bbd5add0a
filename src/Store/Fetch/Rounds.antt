-- ===== src/Store/Fetch/Rounds.antt =====
-- One round with a user that has the piece.
use polarcloud.Prelude.{
  ℕ, suc, ◌+◌, ◌%◌, ◌≤◌, ◌<◌, ◌≡◌, sym, ap, ◌∙◌, inl, inr, true, false, [], ◌∷◌, ◌++◌, append-nil,
  append_assoc, some, length, length-append, take, drop, take-length, drop-length, length-take-drop,
  length-drop, take-append-drop, ltb, ltb_of_le, ltb_of_lt, leb_of_le, ◌==◌, Bool-cases, arith,
}
use Prim.Native.Nat.{◌^◌}
use polarcloud.Store.Folders.{Bytes, drop_all}
use polarcloud.Store.Fetch.{
  Part, renamed, ends, again, answered, round, serve, is_complete, received, asked,
}

-- The bytes behind those that are there, up to a place.
drop-take-append :
    (k : ℕ) (tmp rest : Bytes)
    → drop (length tmp) (take (length tmp + k) (tmp ++ rest)) ≡ take k rest
drop-take-append k [] rest = ap (λ (n : ℕ). take n rest) (omega arith)
drop-take-append k (b ∷ tmp) rest =
    let next : suc (length tmp) + k ≡ suc (length tmp + k) = omega arith in
    ap (λ (n : ℕ). drop (suc (length tmp)) (take n (b ∷ (tmp ++ rest)))) next
    ∙ drop-take-append k tmp rest

write_end :
    (place : ℕ) (bs tmp : Bytes)
    → length tmp ≤ place
    → take (length tmp) tmp ++ bs ++ drop place tmp ≡ tmp ++ bs
write_end place bs tmp h =
    ap (λ (t : Bytes). t ++ bs ++ drop place tmp) (take-length tmp)
    ∙ ap (λ (t : Bytes). tmp ++ bs ++ t) (drop_all place tmp h)
    ∙ append-nil (tmp ++ bs)

length-take : (k : ℕ) (bs : Bytes) → k ≤ length bs → length (take k bs) ≡ k
length-take k bs h = omega (arith, length-take-drop k bs, length-drop k bs)

-- A round with a user that has the piece, of which `k` more bytes are asked for.
module _ (piece tmp rest : Bytes) (parts : tmp ++ rest ≡ piece) where
  pub long : length tmp + length rest ≡ length piece
  long = sym (length-append {0} tmp rest) ∙ ap (λ (t : Bytes). length t) parts

  -- Behind the end of the piece it is asked for all that is left.
  serve-all :
      (more : ℕ)
      → length piece < more
      → serve piece (length tmp) more
        ≡ some (record { content = rest; content_length = length piece })
  unfolding serve
  serve-all more h =
      let none_asked : (more == 0) ≡ false = ground (arith, h) in
      let cut : drop (length tmp) (take (length piece) piece) ≡ rest =
        ap (λ (t : Bytes). drop (length tmp) t) (take-length piece ∙ sym parts)
        ∙ drop-length tmp rest in
      rw (
        none_asked,
        ltb_of_lt (length piece) more h,
        ltb_of_le (length piece) (length tmp) (omega (arith, long)),
        cut,
      )

  serve-take :
      (k : ℕ)
      → 0 < k
      → k ≤ length rest
      → serve piece (length tmp) (length tmp + k)
        ≡ some (record { content = take k rest; content_length = length piece })
  unfolding serve
  serve-take k h l =
      let some_asked : (length tmp + k == 0) ≡ false = ground (arith, h) in
      let cut : drop (length tmp) (take (length tmp + k) piece) ≡ take k rest =
        ap (λ (t : Bytes). drop (length tmp) (take (length tmp + k) t)) (sym parts)
        ∙ drop-take-append k tmp rest in
      rw (
        some_asked,
        ltb_of_le (length piece) (length tmp + k) (omega (arith, long, l)),
        ltb_of_le (length piece) (length tmp) (omega (arith, long)),
        ltb_of_le (length tmp + k) (length tmp) (omega arith),
        cut,
      )

  -- The file so far, at some place, with some numbers.
  abbrev pub part : ℕ → ℕ → ℕ → Part
  part place total len = record {
    tmp = tmp;
    place = place;
    content_length = total;
    fc_length = len;
  }

  -- The file when `k` more bytes were written.
  abbrev pub part_more : ℕ → Part
  part_more k = record {
    tmp = tmp ++ take k rest;
    place = length tmp + k;
    content_length = length piece;
    fc_length = length tmp + k;
  }

  received-take :
      (k place : ℕ)
      → k ≤ length rest
      → received (take k rest) (part place (length piece) (length tmp + k)) ≡ part_more k
  unfolding received
  received-take k place l =
      let n : length (take k rest) ≡ k = length-take k rest l in
      rw (
        n,
        ltb_of_le (length tmp + k) (length tmp + k) (omega arith),
        write_end (length tmp + k) (take k rest) tmp (omega arith),
      )

  module _ (more : 0 < length rest) where
    pub not_complete : is_complete tmp (length piece) ≡ false
    not_complete = let l : length tmp < length piece = omega (arith, long) in ground (arith, l)

    answered-take :
        (k place total : ℕ)
        → 0 < k
        → k ≤ length rest
        → total ≤ length piece
        → answered
            (record { content = take k rest; content_length = length piece })
            (part place total (length tmp + k))
          ≡ again (part_more k)
    unfolding answered
    answered-take k place total h l t =
        let n : length (take k rest) ≡ k = length-take k rest l in
        let some_bytes : (length (take k rest) == 0) ≡ false = ground (arith, n, h) in
        rw (leb_of_le total (length piece) t, not_complete, some_bytes)
          (ap again (received-take k place l))

    -- A round that asks for bytes that the piece has.
    pub round-take :
        (k place total len : ℕ)
        → 0 < k
        → k ≤ length rest
        → total ≤ length piece
        → is_complete tmp total ≡ false
        → asked (part place total len) ≡ length tmp + k
        → round (serve piece) (part place total len) ≡ again (part_more k)
    unfolding round
    round-take k place total len h l t lacks a =
        rw (lacks, a, serve-take k h l, a) (answered-take k place total h l t)

    -- The first round may ask for more than the piece has: nothing is kept of what comes, but how long
    -- the piece is.
    pub round-all :
        (place len : ℕ)
        → length piece < length tmp + len
        → asked (part place 0 len) ≡ length tmp + len
        → round (serve piece) (part place 0 len)
          ≡ again (part place (length piece) (length tmp + len))
    unfolding round answered received
    round-all place len l a =
        let none_known : is_complete tmp 0 ≡ false = ground arith in
        let some_bytes : (length rest == 0) ≡ false = ground (arith, more) in
        rw (
          none_known,
          a,
          serve-all (length tmp + len) l,
          a,
          leb_of_le 0 (length piece) (omega arith),
          not_complete,
          some_bytes,
          ltb_of_lt (length tmp + length rest) (length tmp + len) (omega (arith, l, long)),
        )

  pub asked-new :
      (place len : ℕ) → len + length tmp < 2 ^ 64 → asked (part place 0 len) ≡ length tmp + len
  unfolding asked
  asked-new place len l =
      let small : (len + length tmp) % 2 ^ 64 ≡ length tmp + len = omega (arith, l) in
      rw small (ground arith)

  -- With the length of the piece known, some bytes are asked for, and none that it has not.
  pub asked-known :
      (place len : ℕ)
      → 0 < len
      → 0 < length rest
      → len + length tmp < 2 ^ 64
      → (k : ℕ) × (0 < k)
        × (k ≤ length rest)
        × (asked (part place (length piece) len) ≡ length tmp + k)
  unfolding asked
  asked-known place len p more l =
      let small : (len + length tmp) % 2 ^ 64 ≡ length tmp + len = omega (arith, l) in
      let known : (length piece == 0) ≡ false = ground (arith, more, long) in
      elim (Bool-cases (ltb (length piece) (length tmp + len))) [
        | inl over ↦ (length rest, more, omega arith, rw (small, known, over) (sym long))
        | inr under ↦
            let within : len ≤ length rest = ground (arith, under, long) in
            (len, p, within, rw (small, known, under))
      ]

pub cut_again :
    (piece tmp rest : Bytes) (k : ℕ)
    → tmp ++ rest ≡ piece
    → (tmp ++ take k rest) ++ drop k rest ≡ piece
cut_again piece tmp rest k e =
    append_assoc tmp (take k rest) (drop k rest)
    ∙ ap (λ (t : Bytes). tmp ++ t) (take-append-drop k rest)
    ∙ e

pub round_complete :
    (piece : Bytes) (p : Part)
    → is_complete p.tmp p.content_length ≡ true
    → round (serve piece) p ≡ ends (renamed p.tmp)
unfolding round
round_complete piece p h = rw h

pub none_left :
    (piece tmp : Bytes)
    → tmp ++ [] ≡ piece
    → 0 < length piece
    → is_complete tmp (length piece) ≡ true
none_left piece tmp e h =
    let same : length tmp ≡ length piece =
      ap (λ (t : Bytes). length t) (sym (append-nil tmp) ∙ e) in
    ground (arith, same, h)

pub round-last :
    (piece tmp : Bytes) (e : tmp ++ [] ≡ piece)
    → 0 < length piece
    → (place len : ℕ) → 0 < len
    → asked (part piece tmp [] e place 0 len) ≡ length tmp + len
    → round (serve piece) (part piece tmp [] e place 0 len) ≡ ends (renamed tmp)
unfolding round answered
round-last piece tmp e h place len p a =
    let whole : length tmp + 0 ≡ length piece = long piece tmp [] e in
    let none_known : is_complete tmp 0 ≡ false = ground arith in
    rw (
      none_known,
      a,
      serve-all piece tmp [] e (length tmp + len) (omega (arith, whole, p)),
      leb_of_le 0 (length piece) (omega arith),
      none_left piece tmp e h,
    )
