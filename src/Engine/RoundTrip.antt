-- ===== src/Engine/RoundTrip.antt =====
-- What is received of a packet that was sent.
use polarcloud.Prelude.{
  ℕ, suc, ◌+◌, ◌-◌, ◌≤◌, ◌<◌, ◌≡◌, refl, sym, ap, ◌∙◌, List, [], ◌∷◌, ◌++◌, append_assoc,
  append-nil, length, length-append, take, drop, take-append_le, append-cut, All, none, some,
  Option, ltb_of_le, arith,
}
use Prim.Native.Nat.{◌^◌}
use polarcloud.Engine.Uint.{Bytes, uint, uint-put_uint_8}
use polarcloud.Engine.Reading.{Conn, fill, fill-append, fill_ends, IsLive}
use polarcloud.Engine.Layout
use polarcloud.Engine.{
  Packet, Failure, max_size, marshal_packet, recv_body, recv_package, Message, message_of, session,
}
use polarcloud.Engine.Parsing.{parse-packed}

-- What a call of `RecvPackage` gives that receives a message: no error, the message, and a packet and a
-- live connection that hold the bytes behind it.
pub record Receives (message : Message) (rest : Bytes) (result : Option Failure × Packet × Conn)
    : Type 0 where
  pub no_failure : result.0 ≡ none
  pub got : message_of result.1 ≡ message
  pub behind : result.1.temp ++ result.2.incoming ≡ rest
  pub live : IsLive result.2

-- The message fits into a packet.
pub record IsSendable (m : Message) : Type 0 where
  pub id_fits : m.msg_id < 2 ^ 64
  pub size_fits : 28 + length m.payload + length m.dataplus ≤ max_size

abbrev pub sent : ℕ → Message → Bytes
sent netid m = marshal_packet netid m.msg_id (some m.payload) (some m.dataplus)

abbrev size_of : Message → ℕ
size_of m = 28 + length m.payload + length m.dataplus

abbrev packed_message : ℕ → Message → Bytes → Bytes
packed_message netid m rest =
    Layout.packed (size_of m) (12 + length m.payload) netid m.msg_id m.payload (m.dataplus ++ rest)

-- The second loop and `parse`, on a buffer and a connection that hold a packet between them.
recv_body-Receives :
    (spare : Bytes → Bytes) (netid : ℕ) (m : Message) (rest : Bytes) (p : Packet) (c : Conn)
    → netid < 2 ^ 32
    → IsSendable m
    → IsLive c
    → p.size ≡ size_of m
    → p.temp ++ c.incoming ≡ packed_message netid m rest
    → Receives m rest (recv_body spare netid p c)
unfolding recv_body
recv_body-Receives spare netid m rest p c hn h live e f =
    let filled = fill p.size (p.size - 16) p.temp c.incoming c.found in
    let long : length (packed_message netid m rest) ≡ size_of m + length rest =
      Layout.length-packed (size_of m) (12 + length m.payload) netid m.msg_id m.payload m.dataplus
        rest in
    let ends =
      fill_ends p.size (p.size - 16) p.temp c.incoming c.found (omega (arith, e)) live.found_some
        live.enough
        (omega
          (arith, e, long, ap (λ (t : Bytes). length t) f, length-append {0} p.temp c.incoming)) in
    let same : filled.1 ++ filled.2.incoming ≡ packed_message netid m [] ++ rest =
      fill-append p.size (p.size - 16) p.temp c.incoming c.found
      ∙ f
      ∙ simp (append_assoc, append-nil) in
    let whole : length (packed_message netid m []) ≡ size_of m =
      Layout.length-packed (size_of m) (12 + length m.payload) netid m.msg_id m.payload m.dataplus
        []
      ∙ omega arith in
    let (r, cut, behind) =
      append-cut filled.1 filled.2.incoming (packed_message netid m []) rest same
        (omega (arith, whole, e, ends.1)) in
    let temp : filled.1 ≡ packed_message netid m r = cut ∙ simp (append_assoc, append-nil) in
    let parsed =
      parse-packed spare netid m.msg_id m.payload m.dataplus r (record p { temp = filled.1 }) hn
        h.id_fits h.size_fits e temp in
    let left : drop p.size filled.1 ≡ r =
      ap (λ (k : ℕ). drop k filled.1) e
      ∙ ap (λ (t : Bytes). drop (size_of m) t) temp
      ∙ Layout.packed_rest (size_of m) (12 + length m.payload) netid m.msg_id m.payload m.dataplus
          r in
    rw (ends.0, parsed)
      (record {
        no_failure = refl;
        got = refl;
        behind = ap (λ (t : Bytes). t ++ filled.2.incoming) left ∙ behind;
        live = ends.2;
      })

-- `RecvPackage` receives what `MarshalPacket` wrote, however the connection cuts the bytes and whatever
-- follows them: with the net id of the sender, on a live connection (every `Read` finds a byte as long
-- as there are any) that holds, behind the bytes read before, a message that fits into a packet, it
-- answers no error and the message, and leaves exactly the bytes behind the message.
pub recv_package-marshal_packet :
    (spare : Bytes → Bytes) (netid : ℕ) (m : Message) (rest : Bytes) (p : Packet) (c : Conn)
    → netid < 2 ^ 32
    → IsSendable m
    → IsLive c
    → p.temp ++ c.incoming ≡ sent netid m ++ rest
    → Receives m rest (recv_package spare netid p c)
unfolding recv_package
recv_package-marshal_packet spare netid m rest p c hn h live f =
    let filled = fill 16 16 p.temp c.incoming c.found in
    let packed : p.temp ++ c.incoming ≡ packed_message netid m rest =
      f ∙ Layout.marshal_packet-packed netid m.msg_id m.payload m.dataplus rest in
    let long : length (packed_message netid m rest) ≡ size_of m + length rest =
      Layout.length-packed (size_of m) (12 + length m.payload) netid m.msg_id m.payload m.dataplus
        rest in
    let ends = fill_ends 16 16 p.temp c.incoming c.found (omega arith) live.found_some live.enough (
      omega
        (arith, long, ap (λ (t : Bytes). length t) packed, length-append {0} p.temp c.incoming)) in
    let same : filled.1 ++ filled.2.incoming ≡ packed_message netid m rest =
      fill-append 16 16 p.temp c.incoming c.found ∙ packed in
    let size : uint (take 8 filled.1) ≡ size_of m =
      ap uint (
        sym (take-append_le 8 filled.1 filled.2.incoming (omega (arith, ends.1)))
        ∙ ap (λ (t : Bytes). take 8 t) same
        ∙ Layout.packed_size (size_of m) (12 + length m.payload) netid m.msg_id m.payload m.dataplus
            rest)
      ∙ uint-put_uint_8 (size_of m) (omega (arith, h.size_fits)) in
    rw
      (
        ends.0,
        size,
        ltb_of_le max_size (size_of m) h.size_fits,
        ltb_of_le (size_of m) 28 (omega arith),
      )
      (recv_body-Receives spare netid m rest (record p { size = size_of m; temp = filled.1 })
        filled.2 hn h ends.2 refl same)

-- The bytes of some messages, one after the other.
unfoldable pub sent_all : ℕ → List Message → Bytes
sent_all netid [] = []
sent_all netid (m ∷ ms) = sent netid m ++ sent_all netid ms

pub session_step :
    (n : ℕ) (spare : Bytes → Bytes) (netid : ℕ) (p : Packet) (c : Conn)
    → (recv_package spare netid p c).0 ≡ none
    → session (suc n) spare netid p c
      ≡ message_of (recv_package spare netid p c).1
        ∷ session n spare netid (recv_package spare netid p c).1 (recv_package spare netid p c).2
unfolding session
session_step n spare netid p c e = rw (session, e)

-- A session delivers all messages that were sent, in their order and nothing else, however the
-- connection cuts their bytes: the rounds of its loop as many as the messages, with the net id of the
-- sender, on a live connection, for messages that fit into packets.
pub session-sent_all :
    (spare : Bytes → Bytes) (netid : ℕ) (ms : List Message) (rest : Bytes) (p : Packet) (c : Conn)
    → netid < 2 ^ 32
    → All IsSendable ms
    → IsLive c
    → p.temp ++ c.incoming ≡ sent_all netid ms ++ rest
    → session (length ms) spare netid p c ≡ ms
unfolding sent_all session
session-sent_all spare netid [] rest p c hn h live f = refl
session-sent_all spare netid (m ∷ ms) rest p c hn (k, h) live f =
    let r =
      recv_package-marshal_packet spare netid m (sent_all netid ms ++ rest) p c hn k live
        (f ∙ append_assoc (sent netid m) (sent_all netid ms) rest) in
    session_step (length ms) spare netid p c r.no_failure
    ∙ rw (
      r.got,
      session-sent_all spare netid ms rest (recv_package spare netid p c).1
          (recv_package spare netid p c).2 hn h r.live r.behind,
    )
