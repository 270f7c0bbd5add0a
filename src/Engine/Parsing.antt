-- ===== src/Engine/Parsing.antt =====
-- What is parsed from a buffer that holds a packet.
use polarcloud.Prelude.{
  ℕ, ◌+◌, ◌%◌, ◌≤◌, ◌<◌, ◌≡◌, ap, ◌∙◌, ◌++◌, length, length-append, length-drop, take, drop, none,
  ltb_of_le, ==_refl, arith,
}
use Prim.Native.Nat.{◌^◌}
use polarcloud.Engine.Uint.{Bytes, uint, uint-put_uint_8, uint-put_uint_4}
use polarcloud.Engine.Layout
use polarcloud.Engine.{Packet, max_size, parse}

-- `parse` on a buffer whose slices lie in their arrays.
parse_slices :
    (spare : Bytes → Bytes) (netid : ℕ) (p : Packet) (end id : ℕ) (slice payload dataplus : Bytes)
    → (uint (drop 8 (take 16 p.temp)) + 16) % 2 ^ 64 ≡ end
    → 28 ≤ end
    → end ≤ p.size
    → p.size ≤ length p.temp
    → uint (take 4 (drop 16 (p.temp ++ spare p.temp))) ≡ netid
    → uint (drop 4 (take 12 (drop 16 (p.temp ++ spare p.temp)))) ≡ id
    → drop 16 (take end (p.temp ++ spare p.temp)) ≡ slice
    → 12 ≤ length slice
    → drop 12 slice ≡ payload
    → drop end (take p.size p.temp) ≡ dataplus
    → parse spare netid p ≡ (
      none,
      record p { msg_id = id; payload = payload; dataplus = dataplus; temp = drop p.size p.temp },
    )
unfolding parse
parse_slices spare netid p end id slice payload dataplus e0 h0 h1 h2 e1 e2 e3 h3 e4 e5 =
    let long : end ≤ length (p.temp ++ spare p.temp) =
      omega (arith, length-append {0} p.temp (spare p.temp)) in
    let body : 12 ≤ length (drop 16 (p.temp ++ spare p.temp)) =
      omega (arith, long, length-drop 16 (p.temp ++ spare p.temp)) in
    rw (
      e0,
      e1,
      e2,
      e3,
      e4,
      e5,
      ltb_of_le end 16 (omega arith),
      ltb_of_le (length (p.temp ++ spare p.temp)) end long,
      ltb_of_le (length (drop 16 (p.temp ++ spare p.temp))) 4 (omega (arith, body)),
      ltb_of_le (length (drop 16 (p.temp ++ spare p.temp))) 12 body,
      ltb_of_le (length slice) 12 h3,
      ltb_of_le p.size end h1,
      ==_refl netid,
    )

-- `parse` on a buffer that begins with a packet.
pub parse-packed :
    (spare : Bytes → Bytes) (netid msg_id : ℕ) (payload dataplus rest : Bytes) (p : Packet)
    → netid < 2 ^ 32
    → msg_id < 2 ^ 64
    → 28 + length payload + length dataplus ≤ max_size
    → p.size ≡ 28 + length payload + length dataplus
    → p.temp
      ≡ Layout.packed
          (28 + length payload + length dataplus)
          (12 + length payload)
          netid
          msg_id
          payload
          (dataplus ++ rest)
    → parse spare netid p ≡ (
      none,
      record p {
        msg_id = msg_id;
        payload = payload;
        dataplus = dataplus;
        temp = drop p.size p.temp;
      },
    )
parse-packed spare netid msg_id payload dataplus rest p hn hm hs e f =
    let size : ℕ = 28 + length payload + length dataplus in
    let n : ℕ = 12 + length payload in
    let s : Bytes = spare p.temp in
    let got_size : uint (drop 8 (take 16 p.temp)) ≡ 12 + length payload =
      ap (λ (t : Bytes). uint (drop 8 (take 16 t))) f
      ∙ ap uint (Layout.packed_data_size size n netid msg_id payload dataplus rest)
      ∙ uint-put_uint_8 n (omega arith) in
    let got_netid : uint (take 4 (drop 16 (p.temp ++ s))) ≡ netid =
      ap (λ (t : Bytes). uint (take 4 (drop 16 (t ++ s)))) f
      ∙ ap (λ (t : Bytes). uint (take 4 t))
          (Layout.packed_body size n netid msg_id payload dataplus rest s)
      ∙ ap uint (Layout.body_netid size n netid msg_id payload dataplus rest s)
      ∙ uint-put_uint_4 netid hn in
    let got_msg_id : uint (drop 4 (take 12 (drop 16 (p.temp ++ s)))) ≡ msg_id =
      ap (λ (t : Bytes). uint (drop 4 (take 12 (drop 16 (t ++ s))))) f
      ∙ ap (λ (t : Bytes). uint (drop 4 (take 12 t)))
          (Layout.packed_body size n netid msg_id payload dataplus rest s)
      ∙ ap uint (Layout.body_msg_id size n netid msg_id payload dataplus rest s)
      ∙ uint-put_uint_8 msg_id hm in
    let long : length p.temp ≡ size + length rest =
      ap (λ (t : Bytes). length t) f
      ∙ Layout.length-packed size n netid msg_id payload dataplus rest in
    parse_slices spare netid p (28 + length payload) msg_id
      (Layout.slice size n netid msg_id payload dataplus rest) payload dataplus
      (omega (arith, got_size)) (omega arith) (omega (arith, e)) (omega (arith, e, long)) got_netid
      got_msg_id
      (ap (λ (t : Bytes). drop 16 (take (28 + length payload) (t ++ s))) f
        ∙ Layout.packed_slice size n netid msg_id payload dataplus rest s)
      (omega (arith, Layout.length-slice size n netid msg_id payload dataplus rest))
      (Layout.slice_payload size n netid msg_id payload dataplus rest)
      (ap (λ (k : ℕ). drop (28 + length payload) (take k p.temp)) e
        ∙ ap (λ (t : Bytes). drop (28 + length payload) (take size t)) f
        ∙ Layout.packed_dataplus size n netid msg_id payload dataplus rest)
