-- ===== src/Engine.antt =====
-- core/engine: the packets of the network. `marshal_packet`, `recv_package` are `MarshalPacket` and
-- `RecvPackage` of package.go; `session` is the loop of `recv` in serverConn.go and clientConn.go, up to
-- what becomes of a packet (a waiting goroutine or a handler takes it). Bytes are numbers below 256.
pub mod Uint
pub mod Reading
pub mod Layout
pub mod Parsing
pub mod RoundTrip
pub mod Malformed
pub mod Refusal
use polarcloud.Prelude.{
  ℕ, zero, suc, ◌+◌, ◌-◌, ◌*◌, ◌%◌, Bool, true, false, not, ◌||◌, List, [], ◌∷◌, ◌++◌, Option, none,
  some, length, take, drop, ltb, ◌==◌, if◌then◌else◌,
}
use Prim.Native.Nat.{◌^◌}
use Uint.{Bytes, put_uint, uint}
use Reading.{Conn, fill}

-- `Packet`, as far as the two functions use it: `temp` holds the bytes that were read and not consumed.
pub record Packet : Type 0 where
  pub msg_id : ℕ
  pub size : ℕ
  pub temp : Bytes
  pub payload : Bytes
  pub dataplus : Bytes

-- The errors that end a session.
pub data Failure : Type 0 where
  closed too_long too_short wrong_net : Failure

abbrev pub max_size : ℕ
max_size = 1024 * 1024 * 1024

-- A pointer to bytes that may be nil.
abbrev pub or_nil : Option Bytes → Bytes
or_nil none = []
or_nil (some bs) = bs

unfoldable pub marshal_packet : ℕ → ℕ → Option Bytes → Option Bytes → Bytes
marshal_packet netid msg_id payload dataplus =
    let bs = put_uint 4 netid ++ put_uint 8 msg_id ++ or_nil payload in
    let dataplus_size = length (or_nil dataplus) in
    put_uint 8 (8 + 8 + length bs + dataplus_size)
    ++ put_uint 8 (length bs)
    ++ bs
    ++ or_nil dataplus

-- The part of `RecvPackage` behind its second loop: `spare` are the bytes behind `temp` in its array. A
-- slice may reach into them, and panics behind their end or where its start lies behind its end;
-- `PrintPanicStack` recovers from that, so the function returns with no error and leaves the fields
-- that it has assigned. Sums are those of uint64.
unfoldable pub parse : (Bytes → Bytes) → ℕ → Packet → Option Failure × Packet
parse spare netid p =
    let array = p.temp ++ spare p.temp in
    let end = (uint (drop 8 (take 16 p.temp)) + 16) % 2 ^ 64 in
    let slice = drop 16 (take end array) in
    let slice_array = drop 16 array in
    let p1 = record p { msg_id = uint (drop 4 (take 12 slice_array)) } in
    let p2 = record p1 { payload = drop 12 slice } in
    let p3 = record p2 { dataplus = drop end (take p.size p.temp); temp = drop p.size p.temp } in
    if ltb end 16 || ltb (length array) end
    then (none, p)
    else if ltb (length slice_array) 4
    then (none, p)
    else if not (uint (take 4 slice_array) == netid)
    then (some wrong_net, p)
    else if ltb (length slice_array) 12
    then (none, p)
    else if ltb (length slice) 12
    then (none, p1)
    else if ltb p.size end
    then (none, p2)
    else (none, p3)

unfoldable pub recv_body : (Bytes → Bytes) → ℕ → Packet → Conn → Option Failure × Packet × Conn
recv_body spare netid p c =
    let (got, temp, c1) = fill p.size (p.size - 16) p.temp c.incoming c.found in
    let (failure, p1) = parse spare netid (record p { temp = temp }) in
    if not got then (some closed, record p { temp = temp }, c1) else (failure, p1, c1)

unfoldable pub recv_package : (Bytes → Bytes) → ℕ → Packet → Conn → Option Failure × Packet × Conn
recv_package spare netid p c =
    let (got, temp, c1) = fill 16 16 p.temp c.incoming c.found in
    let size = uint (take 8 temp) in
    let p1 = record p { size = size; temp = temp } in
    let body = recv_body spare netid p1 c1 in
    if not got
    then (some closed, record p { temp = temp }, c1)
    else if ltb max_size size
    then (some too_long, p1, c1)
    else if ltb size (8 + 8 + 4 + 8)
    then (some too_short, p1, c1)
    else body

-- What a handler is given of a packet.
pub record Message : Type 0 where
  pub msg_id : ℕ
  pub payload : Bytes
  pub dataplus : Bytes

abbrev pub message_of : Packet → Message
message_of p = record { msg_id = p.msg_id; payload = p.payload; dataplus = p.dataplus }

-- The messages of the next `n` rounds of the loop; an error ends it.
unfoldable pub session : ℕ → (Bytes → Bytes) → ℕ → Packet → Conn → List Message
session zero spare netid p c = []
session (suc n) spare netid p c =
    let (failure, p1, c1) = recv_package spare netid p c in
    let rest = message_of p1 ∷ session n spare netid p1 c1 in
    elim failure [ some f ↦ [] | none ↦ rest ]
