-- ===== src/Engine/Malformed.antt =====
-- Packets that no `MarshalPacket` wrote: which are refused, and one that is never consumed.
use polarcloud.Prelude.{
  ℕ, zero, suc, ◌+◌, ◌-◌, ◌%◌, ◌≤◌, ◌<◌, ◌≡◌, refl, ap, ◌∙◌, [], ◌++◌, replicate, length,
  length-append, length-drop, length-take-drop, take, drop, Option, none, ltb_of_le, ltb_of_lt,
  ==_refl, arith,
}
use Prim.Native.Nat.{◌^◌}
use polarcloud.Engine.Uint.{Bytes, uint, uint-put_uint_8, uint-put_uint_4}
use polarcloud.Engine.Reading.{Conn, fill_done}
use polarcloud.Engine.Layout
use polarcloud.Engine.RoundTrip.{session_step}
use polarcloud.Engine.{Packet, Failure, max_size, parse, recv_body, recv_package, Message, session}

-- A call of `RecvPackage` that panics on the lengths of a packet that the buffer holds: the data is said
-- to be too short for its own head.
module _ (spare : Bytes → Bytes) (size data_size netid msg_id : ℕ) (payload rest : Bytes)
    (long : 28 ≤ size) (allowed : size ≤ max_size) (short : data_size < 12) (net : netid < 2 ^ 32)
    (id : msg_id < 2 ^ 64) where
  parse_short :
      (p : Packet)
      → p.temp ≡ Layout.packed size data_size netid msg_id payload rest
      → size ≤ length p.temp
      → parse spare netid p ≡ (none, record p { msg_id = msg_id })
  unfolding parse
  parse_short p f h =
      let s : Bytes = spare p.temp in
      let end : (uint (drop 8 (take 16 p.temp)) + 16) % 2 ^ 64 ≡ data_size + 16 = omega (
        arith,
        ap (λ (t : Bytes). uint (drop 8 (take 16 t))) f
            ∙ ap uint (Layout.packed_data_size size data_size netid msg_id payload [] rest)
            ∙ uint-put_uint_8 data_size (omega arith),
      ) in
      let got_netid : uint (take 4 (drop 16 (p.temp ++ s))) ≡ netid =
        ap (λ (t : Bytes). uint (take 4 (drop 16 (t ++ s)))) f
        ∙ ap (λ (t : Bytes). uint (take 4 t))
            (Layout.packed_body size data_size netid msg_id payload [] rest s)
        ∙ ap uint (Layout.body_netid size data_size netid msg_id payload [] rest s)
        ∙ uint-put_uint_4 netid net in
      let got_msg_id : uint (drop 4 (take 12 (drop 16 (p.temp ++ s)))) ≡ msg_id =
        ap (λ (t : Bytes). uint (drop 4 (take 12 (drop 16 (t ++ s))))) f
        ∙ ap (λ (t : Bytes). uint (drop 4 (take 12 t)))
            (Layout.packed_body size data_size netid msg_id payload [] rest s)
        ∙ ap uint (Layout.body_msg_id size data_size netid msg_id payload [] rest s)
        ∙ uint-put_uint_8 msg_id id in
      let array : 28 ≤ length (p.temp ++ s) = omega (arith, h, length-append {0} p.temp s) in
      let slice : length (drop 16 (take (data_size + 16) (p.temp ++ s))) < 12 = omega (
        arith,
        length-drop 16 (take (data_size + 16) (p.temp ++ s)),
        length-take-drop (data_size + 16) (p.temp ++ s),
        length-drop (data_size + 16) (p.temp ++ s),
      ) in
      let body : 12 ≤ length (drop 16 (p.temp ++ s)) =
        omega (arith, array, length-drop 16 (p.temp ++ s)) in
      rw (
        end,
        got_netid,
        got_msg_id,
        ltb_of_le (data_size + 16) 16 (omega arith),
        ltb_of_le (length (p.temp ++ s)) (data_size + 16) (omega (arith, array)),
        ltb_of_le (length (drop 16 (p.temp ++ s))) 4 (omega (arith, body)),
        ltb_of_le (length (drop 16 (p.temp ++ s))) 12 body,
        ltb_of_lt (length (drop 16 (take (data_size + 16) (p.temp ++ s)))) 12 slice,
        ==_refl netid,
      )

  -- The packet after such a call: only the id and the size are assigned.
  abbrev stuck : Packet → Packet
  stuck p = record p { msg_id = msg_id; size = size }

  recv_package-stuck :
      (p : Packet) (c : Conn)
      → p.temp ≡ Layout.packed size data_size netid msg_id payload rest
      → size ≤ length p.temp
      → recv_package spare netid p c ≡ (none, stuck p, c)
  unfolding recv_package recv_body
  recv_package-stuck p c f h =
      let got_size : uint (take 8 p.temp) ≡ size =
        ap (λ (t : Bytes). uint (take 8 t)) f
        ∙ ap uint (Layout.packed_size size data_size netid msg_id payload [] rest)
        ∙ uint-put_uint_8 size (omega arith) in
      rw (
        fill_done 16 16 p.temp c.incoming c.found (omega (arith, h)),
        got_size,
        fill_done size (size - 16) p.temp c.incoming c.found h,
        ltb_of_le max_size size allowed,
        ltb_of_le size 28 long,
        parse_short (record p { size = size }) f h,
      )

  -- What a handler is given of it: the new id with the data of the packet before.
  abbrev stale : Packet → Message
  stale p = record { msg_id = msg_id; payload = p.payload; dataplus = p.dataplus }

  -- A packet of the right net whose own length is allowed, of at least 28 bytes, and whose data
  -- is said to be shorter than its head, once it stands in the buffer, is never consumed and no
  -- error ends the session: each of any number of rounds gives the handler its id with the data
  -- of the packet before it.
  pub session_stuck :
      (n : ℕ) (p : Packet) (c : Conn)
      → p.temp ≡ Layout.packed size data_size netid msg_id payload rest
      → size ≤ length p.temp
      → session n spare netid p c ≡ replicate n (stale p)
  unfolding session
  session_stuck zero p c f h = refl
  session_stuck (suc n) p c f h =
      let step = recv_package-stuck p c f h in
      session_step n spare netid p c (ap (λ (r : Option Failure × Packet × Conn). r.0) step)
      ∙ rw (step, session_stuck n (stuck p) c f h)
