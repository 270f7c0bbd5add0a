-- ===== src/Store/Fetch/Sharers.antt =====
-- A piece is fetched from several users, one after the other.
use polarcloud.Prelude.{
  ℕ, zero, suc, ◌+◌, ◌*◌, ◌≤◌, ◌<◌, ◌≡◌, refl, ap, ◌∙◌, true, false, List, [], ◌∷◌, ◌++◌, none,
  some, length, replicate, ltb, ◌==◌, length-append, arith,
}
use Prim.Native.Nat.{◌^◌}
use native.Mathlib.Nat.{suc-mul}
use polarcloud.Store.Folders.{Bytes}
use polarcloud.Store.Fetch.{
  Sharer, Part, renamed, given_up, unfinished, ends, again, serve, is_complete, answered, received,
  asked, round, fetch, fetch_from,
}
use polarcloud.Store.Fetch.Rounds.{asked-new}
use polarcloud.Store.Fetch.Ends.{fetch-serve, fetch-again, fetch-ends}

-- A user who cannot be reached, or does not answer in time.
abbrev pub silent : Sharer
silent index fc_length = none

abbrev new_part : Bytes → ℕ → ℕ → Part
new_part tmp place len = record { tmp = tmp; place = place; content_length = 0; fc_length = len }

round-silent :
    (piece tmp rest : Bytes) (len : ℕ)
    → tmp ++ rest ≡ piece
    → len + length tmp < 2 ^ 64
    → round silent (new_part tmp 0 len) ≡ ends (given_up (new_part tmp 0 (length tmp + len)))
unfolding round
round-silent piece tmp rest len e l =
    let none_known : is_complete tmp 0 ≡ false = ground arith in
    rw (none_known, asked-new piece tmp rest e 0 len l)

fetch_from-given_up :
    (n : ℕ) (sharer : Sharer) (sharers : List Sharer) (p p1 : Part)
    → fetch n sharer (record p { place = 0 }) ≡ given_up p1
    → fetch_from n (sharer ∷ sharers) p ≡ fetch_from n sharers p1
unfolding fetch_from
fetch_from-given_up n sharer sharers p p1 e = rw (fetch_from, e)

fetch_from-renamed :
    (n : ℕ) (sharer : Sharer) (sharers : List Sharer) (p : Part) (bs : Bytes)
    → fetch n sharer (record p { place = 0 }) ≡ renamed bs
    → fetch_from n (sharer ∷ sharers) p ≡ renamed bs
unfolding fetch_from
fetch_from-renamed n sharer sharers p bs e = rw (fetch_from, e)

-- A piece is fetched if one user shares it and those before are silent: for a piece that is not empty, a
-- file "_tmp" that holds its first bytes or none, requests of some bytes that stay below 2^62, which
-- each silent user makes longer, and at least two rounds more than bytes are left.
pub fetch_from-serve :
    (k n : ℕ) (piece tmp rest : Bytes) (others : List Sharer) (place len : ℕ)
    → tmp ++ rest ≡ piece
    → 0 < length piece
    → length piece < 2 ^ 62
    → 0 < len
    → len + k * length piece < 2 ^ 62
    → length rest + 2 ≤ n
    → fetch_from n
        (replicate k silent ++ serve piece ∷ others)
        (record { tmp = tmp; place = place; content_length = 0; fc_length = len })
      ≡ renamed piece
fetch_from-serve k zero piece tmp rest others place len e h b p l f = absurd (omega (arith, f))
fetch_from-serve zero (suc n) piece tmp rest others place len e h b p l f =
    fetch_from-renamed (suc n) (serve piece) others _ piece
      (fetch-serve (suc n) piece tmp rest 0 len e h b p (omega (arith, l)) f)
fetch_from-serve (suc k) (suc n) piece tmp rest others place len e h b p l f =
    let left : length tmp + length rest ≡ length piece =
      omega (arith, length-append {0} tmp rest, ap (λ (t : Bytes). length t) e) in
    let once = suc-mul k (length piece) in
    fetch_from-given_up (suc n) silent (replicate k silent ++ serve piece ∷ others) _ _
      (fetch-ends n silent _ _ (round-silent piece tmp rest len e (omega (arith, left, b, l))))
    ∙ fetch_from-serve k (suc n) piece tmp rest others 0 (length tmp + len) e h b (omega (arith, p))
        (omega (arith, l, once, left)) f

-- A user who answers each request with the same bytes and no length of the piece.
abbrev pub short : Bytes → Sharer
short bs index fc_length = some (record { content = bs; content_length = 0 })

round-short :
    (bs : Bytes) (len : ℕ)
    → 0 < length bs
    → length bs < len
    → len < 2 ^ 64
    → round (short bs) (new_part [] 0 len) ≡ again (new_part [] 0 len)
unfolding round answered received
round-short bs len h l b =
    let same : asked (new_part [] 0 len) ≡ len =
      asked-new [] [] [] refl 0 len (omega (arith, b)) ∙ omega arith in
    let some_bytes : (length bs == 0) ≡ false = ground (arith, h) in
    let few : ltb (0 + length bs) len ≡ true = ground (arith, l) in rw (same, some_bytes, few)

fetch-short :
    (n : ℕ) (bs : Bytes) (len : ℕ)
    → 0 < length bs
    → length bs < len
    → len < 2 ^ 64
    → fetch n (short bs) (new_part [] 0 len) ≡ unfinished
unfolding fetch
fetch-short zero bs len h l b = refl
fetch-short (suc n) bs len h l b =
    fetch-again n (short bs) _ _ (round-short bs len h l b) ∙ fetch-short n bs len h l b

-- A first user who answers every request with the same bytes, fewer than were asked for and at
-- least one, and without the length of the piece, keeps a new download for ever: no number of
-- rounds is enough, whoever else shares the piece.
pub fetch_from-short :
    (n : ℕ) (bs : Bytes) (others : List Sharer) (place len : ℕ)
    → 0 < length bs
    → length bs < len
    → len < 2 ^ 64
    → fetch_from n
        (short bs ∷ others)
        (record { tmp = []; place = place; content_length = 0; fc_length = len })
      ≡ unfinished
unfolding fetch_from
fetch_from-short n bs others place len h l b = rw (fetch_from, fetch-short n bs len h l b)
