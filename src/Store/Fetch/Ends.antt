-- ===== src/Store/Fetch/Ends.antt =====
-- A piece that a user shares is fetched.
use polarcloud.Prelude.{
  ℕ, zero, suc, ◌+◌, ◌≤◌, ◌<◌, ◌≡◌, sym, ap, ◌∙◌, inl, inr, [], ◌∷◌, ◌++◌, append-nil, length, take,
  drop, length-drop, leb, Bool-cases, arith,
}
use Prim.Native.Nat.{◌^◌}
use polarcloud.Store.Folders.{Bytes}
use polarcloud.Store.Fetch.{Sharer, Part, Outcome, renamed, ends, again, round, serve, fetch}
use polarcloud.Store.Fetch.Rounds.{
  long, not_complete, round-take, round-all, asked-new, asked-known, cut_again, round_complete,
  none_left, round-last,
}

pub fetch-again :
    (n : ℕ) (sharer : Sharer) (p p1 : Part)
    → round sharer p ≡ again p1
    → fetch (suc n) sharer p ≡ fetch n sharer p1
unfolding fetch
fetch-again n sharer p p1 e = rw (fetch, e)

pub fetch-ends :
    (n : ℕ) (sharer : Sharer) (p : Part) (o : Outcome)
    → round sharer p ≡ ends o
    → fetch (suc n) sharer p ≡ o
unfolding fetch
fetch-ends n sharer p o e = rw (fetch, e)

-- Once the length of the piece is known, every round brings some of it.
fetch-known :
    (n : ℕ) (piece tmp rest : Bytes) (place len : ℕ)
    → tmp ++ rest ≡ piece
    → 0 < length piece
    → length piece < 2 ^ 62
    → 0 < len
    → len < 2 ^ 63
    → length rest < n
    → fetch n
        (serve piece)
        (record { tmp = tmp; place = place; content_length = length piece; fc_length = len })
      ≡ renamed piece
fetch-known zero piece tmp rest place len e h b p q f = absurd (omega (arith, f))
fetch-known (suc n) piece tmp [] place len e h b p q f =
    fetch-ends n (serve piece) _ _ (
      round_complete piece
        (record { tmp = tmp; place = place; content_length = length piece; fc_length = len })
        (none_left piece tmp e h))
    ∙ ap renamed (sym (append-nil tmp) ∙ e)
fetch-known (suc n) piece tmp (r ∷ rest) place len e h b p q f =
    let left : length tmp + suc (length rest) ≡ length piece = long piece tmp (r ∷ rest) e in
    let (k, some_more, within, a) =
      asked-known piece tmp (r ∷ rest) e place len p (omega arith) (omega (arith, left, b, q)) in
    fetch-again n (serve piece) _ _ (
      round-take piece tmp (r ∷ rest) e (omega arith) k place (length piece) len some_more within
        (omega arith) (not_complete piece tmp (r ∷ rest) e (omega arith)) a)
    ∙ (fetch-known n piece (tmp ++ take k (r ∷ rest)) (drop k (r ∷ rest)) (length tmp + k)
        (length tmp + k) (cut_again piece tmp (r ∷ rest) k e) h b (omega (arith, some_more))
        (omega (arith, left, within, b)) (omega (arith, length-drop k (r ∷ rest), f, some_more)))

-- A piece is fetched from a user that shares it, and its rounds end: for a piece that is not empty and
-- shorter than 2^62 bytes, a file "_tmp" that holds its first bytes or none, a request of some bytes,
-- fewer than 2^62, its length not known yet, and at least two rounds more than bytes are left.
pub fetch-serve :
    (n : ℕ) (piece tmp rest : Bytes) (place len : ℕ)
    → tmp ++ rest ≡ piece
    → 0 < length piece
    → length piece < 2 ^ 62
    → 0 < len
    → len < 2 ^ 62
    → length rest + 2 ≤ n
    → fetch n
        (serve piece)
        (record { tmp = tmp; place = place; content_length = 0; fc_length = len })
      ≡ renamed piece
fetch-serve zero piece tmp rest place len e h b p q f = absurd (omega (arith, f))
fetch-serve (suc n) piece tmp [] place len e h b p q f =
    let whole : length tmp + 0 ≡ length piece = long piece tmp [] e in
    fetch-ends n (serve piece) _ _ (
      round-last piece tmp e h place len p
        (asked-new piece tmp [] e place len (omega (arith, whole, b, q))))
    ∙ ap renamed (sym (append-nil tmp) ∙ e)
fetch-serve (suc n) piece tmp (r ∷ rest) place len e h b p q f =
    let left : length tmp + suc (length rest) ≡ length piece = long piece tmp (r ∷ rest) e in
    let a = asked-new piece tmp (r ∷ rest) e place len (omega (arith, left, b, q)) in
    elim (Bool-cases (leb len (suc (length rest)))) [
      | inl l ↦
          let within : len ≤ suc (length rest) = ground (arith, l) in
          fetch-again n (serve piece) _ _ (
            round-take piece tmp (r ∷ rest) e (omega arith) len place 0 len p within (omega arith)
              (ground arith) a)
          ∙ (fetch-known n piece (tmp ++ take len (r ∷ rest)) (drop len (r ∷ rest))
              (length tmp + len) (length tmp + len) (cut_again piece tmp (r ∷ rest) len e) h b
              (omega (arith, p)) (omega (arith, left, within, b))
              (omega (arith, length-drop len (r ∷ rest), f, p)))
      | inr l ↦
          let over : suc (length rest) < len = ground (arith, l) in
          fetch-again n (serve piece) _ _
            (round-all piece tmp (r ∷ rest) e (omega arith) place len (omega (arith, left, over)) a)
          ∙ (fetch-known n piece tmp (r ∷ rest) place (length tmp + len) e h b (omega (arith, p))
              (omega (arith, left, b, q)) (omega (arith, f)))
    ]
