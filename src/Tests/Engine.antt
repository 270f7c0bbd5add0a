-- ===== src/Tests/Engine.antt =====
-- Packets on a connection, at a few bytes.
use polarcloud.Prelude.{◌≡◌, refl, [], ◌∷◌, replicate, some, arith}
use polarcloud.Engine.Uint.{Bytes, put_uint}
use polarcloud.Engine.Reading.{Conn, IsLive}
use polarcloud.Engine.RoundTrip.{
  Receives, IsSendable, sent_all, recv_package-marshal_packet, session-sent_all,
}
use polarcloud.Engine.Malformed.{session_stuck}
use polarcloud.Engine.Refusal.{refusal, recv_package-refusal}
use polarcloud.Engine.{Packet, closed, marshal_packet, recv_package, Message, session}

abbrev no_spare : Bytes → Bytes
no_spare temp = []

abbrev hello : Message
hello = record { msg_id = 7; payload = 1 ∷ 2 ∷ []; dataplus = 3 ∷ [] }

hello-IsSendable : IsSendable hello
hello-IsSendable = record { id_fits = omega arith; size_fits = omega arith }

-- The bytes of `hello` in front of its data.
abbrev hello_head : Bytes → Bytes
hello_head rest =
    31 ∷ 0 ∷ 0 ∷ 0 ∷ 0 ∷ 0 ∷ 0 ∷ 0 ∷ 14 ∷ 0 ∷ 0 ∷ 0 ∷ 0 ∷ 0 ∷ 0 ∷ 0 ∷ 2 ∷ 0 ∷ 0 ∷ 0 ∷ 7 ∷ 0 ∷ 0 ∷ 0
    ∷ 0 ∷ 0 ∷ 0 ∷ 0 ∷ rest

abbrev packet_with : Bytes → Packet
packet_with temp = record { msg_id = 5; size = 40; temp = temp; payload = 8 ∷ []; dataplus = [] }

abbrev data_coming : Conn
data_coming = record { incoming = 1 ∷ 2 ∷ 3 ∷ 9 ∷ []; found = 3 ∷ 1 ∷ 2 ∷ 2 ∷ [] }

data_coming-IsLive : IsLive data_coming
data_coming-IsLive = record {
  found_some = (omega arith, (omega arith, (omega arith, (omega arith, tt))));
  enough = omega arith;
}

recv_package-marshal_packet_example :
    Receives hello (9 ∷ []) (recv_package no_spare 2 (packet_with (hello_head [])) data_coming)
unfolding marshal_packet put_uint
recv_package-marshal_packet_example =
    recv_package-marshal_packet no_spare 2 hello (9 ∷ []) (packet_with (hello_head [])) data_coming
      (omega arith) hello-IsSendable data_coming-IsLive refl

session-sent_all_example :
    session 2 no_spare 2 (packet_with (hello_head (1 ∷ 2 ∷ 3 ∷ hello_head []))) data_coming
    ≡ hello ∷ hello ∷ []
unfolding marshal_packet put_uint sent_all
session-sent_all_example =
    session-sent_all no_spare 2 (hello ∷ hello ∷ []) (9 ∷ [])
      (packet_with (hello_head (1 ∷ 2 ∷ 3 ∷ hello_head []))) data_coming (omega arith)
      (hello-IsSendable, (hello-IsSendable, tt)) data_coming-IsLive refl

-- The shortest packet, its data said to be three bytes.
abbrev short_data : Bytes
short_data =
    28 ∷ 0 ∷ 0 ∷ 0 ∷ 0 ∷ 0 ∷ 0 ∷ 0 ∷ 3 ∷ 0 ∷ 0 ∷ 0 ∷ 0 ∷ 0 ∷ 0 ∷ 0 ∷ 2 ∷ 0 ∷ 0 ∷ 0 ∷ 7 ∷ 0 ∷ 0 ∷ 0
    ∷ 0 ∷ 0 ∷ 0 ∷ 0 ∷ []

session_stuck_example :
    session 3 no_spare 2 (packet_with short_data) data_coming
    ≡ replicate 3 (record { msg_id = 7; payload = 8 ∷ []; dataplus = [] })
unfolding put_uint
session_stuck_example =
    session_stuck no_spare 28 3 2 7 [] [] (omega arith) (omega arith) (omega arith) (omega arith)
      (omega arith) 3 (packet_with short_data) data_coming refl (omega arith)

recv_package-refusal_example :
    (recv_package no_spare 2 (packet_with (hello_head [])) (record { incoming = []; found = [] })).0
    ≡ some closed
unfolding put_uint refusal
recv_package-refusal_example =
    recv_package-refusal no_spare 2 31
      (14 ∷ 0 ∷ 0 ∷ 0 ∷ 0 ∷ 0 ∷ 0 ∷ 0 ∷ 2 ∷ 0 ∷ 0 ∷ 0 ∷ 7 ∷ 0 ∷ 0 ∷ 0 ∷ 0 ∷ 0 ∷ 0 ∷ 0 ∷ [])
      (packet_with (hello_head [])) (record { incoming = []; found = [] }) closed (omega arith)
      (omega arith) (record { found_some = tt; enough = omega arith }) refl refl
