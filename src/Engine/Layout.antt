-- ===== src/Engine/Layout.antt =====
-- Where the fields of a packet stand in its bytes.
use polarcloud.Prelude.{
  ℕ, ◌+◌, ◌≡◌, sym, ap, ◌∙◌, ◌++◌, append_assoc, length, length-append, take, drop, take-append,
  drop-length, some, arith,
}
use polarcloud.Engine.Uint.{Bytes, put_uint, length-put_uint}
use polarcloud.Engine.{marshal_packet}

pub take-front : (n : ℕ) (xs ys : Bytes) → n ≡ length xs → take n (xs ++ ys) ≡ xs
take-front n xs ys e = rw e (take-append xs ys)

pub drop-front : (n : ℕ) (xs ys : Bytes) → n ≡ length xs → drop n (xs ++ ys) ≡ ys
drop-front n xs ys e = rw e (drop-length xs ys)

pub drop-take-middle :
    (m n : ℕ) (xs ys zs : Bytes)
    → m ≡ length xs
    → n ≡ length xs + length ys
    → drop m (take n (xs ++ (ys ++ zs))) ≡ ys
drop-take-middle m n xs ys zs e f =
    ap (λ t. drop m t)
      (ap (λ t. take n t) (sym (append_assoc xs ys zs))
        ∙ take-front n (xs ++ ys) zs (omega (arith, length-append {0} xs ys)))
    ∙ drop-front m xs ys e

-- The two lengths, the net id, the message id, the two parts of the data, and what follows.
abbrev pub packed : ℕ → ℕ → ℕ → ℕ → Bytes → Bytes → Bytes
packed size data_size netid msg_id payload rest =
    put_uint 8 size
    ++ (put_uint 8 data_size ++ (put_uint 4 netid ++ (put_uint 8 msg_id ++ (payload ++ rest))))

pub marshal_packet-packed :
    (netid msg_id : ℕ) (payload dataplus rest : Bytes)
    → marshal_packet netid msg_id (some payload) (some dataplus) ++ rest
      ≡ packed
          (28 + length payload + length dataplus)
          (12 + length payload)
          netid
          msg_id
          payload
          (dataplus ++ rest)
unfolding marshal_packet
marshal_packet-packed netid msg_id payload dataplus rest =
    let bs : Bytes = put_uint 4 netid ++ put_uint 8 msg_id ++ payload in
    let long : length bs ≡ 12 + length payload = omega (
      arith,
      length-append {0} (put_uint 4 netid ++ put_uint 8 msg_id) payload,
      length-append {0} (put_uint 4 netid) (put_uint 8 msg_id),
      length-put_uint 4 netid,
      length-put_uint 8 msg_id,
    ) in
    let whole : 8 + 8 + length bs + length dataplus ≡ 28 + length payload + length dataplus =
      omega (arith, long) in
    rw (whole, long) (simp append_assoc)

-- The fields of a packet, in front of anything.
module _ (size data_size netid msg_id : ℕ) (payload dataplus rest : Bytes) where
  abbrev all : Bytes
  all = packed size data_size netid msg_id payload (dataplus ++ rest)

  head_16 : length (put_uint 8 size ++ put_uint 8 data_size) ≡ 16
  head_16 = omega (
    arith,
    length-append {0} (put_uint 8 size) (put_uint 8 data_size),
    length-put_uint 8 size,
    length-put_uint 8 data_size,
  )

  pub packed_size : take 8 all ≡ put_uint 8 size
  packed_size = take-front 8 (put_uint 8 size) _ (sym (length-put_uint 8 size))

  pub packed_data_size : drop 8 (take 16 all) ≡ put_uint 8 data_size
  packed_data_size =
      drop-take-middle 8 16 (put_uint 8 size) (put_uint 8 data_size) _
        (omega (arith, length-put_uint 8 size))
        (omega (arith, length-put_uint 8 size, length-put_uint 8 data_size))

  abbrev body : Bytes
  body = put_uint 4 netid ++ (put_uint 8 msg_id ++ (payload ++ (dataplus ++ rest)))

  pub packed_body : (spare : Bytes) → drop 16 (all ++ spare) ≡ body ++ spare
  packed_body spare =
      ap (λ t. drop 16 t)
        (ap (λ t. t ++ spare) (sym (append_assoc (put_uint 8 size) (put_uint 8 data_size) body))
          ∙ append_assoc (put_uint 8 size ++ put_uint 8 data_size) body spare)
      ∙ drop-front 16 (put_uint 8 size ++ put_uint 8 data_size) (body ++ spare) (sym head_16)

  pub body_netid : (spare : Bytes) → take 4 (body ++ spare) ≡ put_uint 4 netid
  body_netid spare =
      ap (λ t. take 4 t) (append_assoc (put_uint 4 netid) _ spare)
      ∙ take-front 4 (put_uint 4 netid) _ (sym (length-put_uint 4 netid))

  pub body_msg_id : (spare : Bytes) → drop 4 (take 12 (body ++ spare)) ≡ put_uint 8 msg_id
  body_msg_id spare =
      ap (λ t. drop 4 (take 12 t))
        (append_assoc (put_uint 4 netid) _ spare
          ∙ ap (λ t. put_uint 4 netid ++ t) (append_assoc (put_uint 8 msg_id) _ spare))
      ∙ drop-take-middle 4 12 (put_uint 4 netid) (put_uint 8 msg_id) _
          (omega (arith, length-put_uint 4 netid))
          (omega (arith, length-put_uint 4 netid, length-put_uint 8 msg_id))

  abbrev pub slice : Bytes
  slice = put_uint 4 netid ++ (put_uint 8 msg_id ++ payload)

  pub length-slice : length slice ≡ 12 + length payload
  length-slice = omega (
    arith,
    length-append {0} (put_uint 4 netid) (put_uint 8 msg_id ++ payload),
    length-append {0} (put_uint 8 msg_id) payload,
    length-put_uint 4 netid,
    length-put_uint 8 msg_id,
  )

  pub packed_slice : (spare : Bytes) → drop 16 (take (28 + length payload) (all ++ spare)) ≡ slice
  packed_slice spare =
      ap (λ t. drop 16 (take (28 + length payload) t))
        (let split : all ++ spare
              ≡ (put_uint 8 size ++ put_uint 8 data_size)
                ++ (slice ++ (dataplus ++ (rest ++ spare))) =
            simp append_assoc in
          split)
      ∙ drop-take-middle 16 (28 + length payload) (put_uint 8 size ++ put_uint 8 data_size) slice _
          (sym head_16) (omega (arith, head_16, length-slice))

  pub slice_payload : drop 12 slice ≡ payload
  slice_payload =
      ap (λ t. drop 12 t) (sym (append_assoc (put_uint 4 netid) (put_uint 8 msg_id) payload))
      ∙ drop-front 12 (put_uint 4 netid ++ put_uint 8 msg_id) payload (
          omega (
            arith,
            length-append {0} (put_uint 4 netid) (put_uint 8 msg_id),
            length-put_uint 4 netid,
            length-put_uint 8 msg_id,
          ))

  abbrev front : Bytes
  front = (put_uint 8 size ++ put_uint 8 data_size) ++ slice

  length-front : length front ≡ 28 + length payload
  length-front = omega (
    arith,
    head_16,
    length-slice,
    length-append {0} (put_uint 8 size ++ put_uint 8 data_size) slice,
  )

  front_rest : all ≡ front ++ (dataplus ++ rest)
  front_rest = simp append_assoc

  pub packed_dataplus :
      drop (28 + length payload) (take (28 + length payload + length dataplus) all) ≡ dataplus
  packed_dataplus =
      ap (λ t. drop (28 + length payload) (take (28 + length payload + length dataplus) t))
        front_rest
      ∙ drop-take-middle (28 + length payload) (28 + length payload + length dataplus) front
          dataplus rest (sym length-front) (omega (arith, length-front))

  pub packed_rest : drop (28 + length payload + length dataplus) all ≡ rest
  packed_rest =
      ap (λ t. drop (28 + length payload + length dataplus) t)
        (front_rest ∙ sym (append_assoc front dataplus rest))
      ∙ drop-front (28 + length payload + length dataplus) (front ++ dataplus) rest
          (omega (arith, length-front, length-append {0} front dataplus))

  pub length-packed : length all ≡ 28 + length payload + length dataplus + length rest
  length-packed =
      ap (λ (t : Bytes). length t) front_rest
      ∙ omega (
        arith,
        length-front,
        length-append {0} front (dataplus ++ rest),
        length-append {0} dataplus rest,
      )
