-- ===== src/Rpc/Runs.antt =====
-- Small frames, packets and connections for crates/storj-rpc, and the theorems at them.
use storj_uplink.Rpc.Varint.{read_varint, append_varint}
use storj_uplink.Rpc.Frame.{Frame, Packet, parse_frame, append_frame, append_packet}
use storj_uplink.Rpc.Frame.RoundTrip.{IsFrame, parse_frame-append_frame}
use storj_uplink.Rpc.Frame.Packets.{FitsWire}
use storj_uplink.Rpc.Assembler.{push, default}
use storj_uplink.Rpc.Assembler.Bounds.{push-IsBounded, IsBounded}
use storj_uplink.Rpc.Assembler.Order.{packets, packets-AscendFrom, AscendFrom}
use storj_uplink.Rpc.Conn.{
  Conn, read_packet, out_of_fuel, unparsed, drain_buffered, queued, partial,
}
use storj_uplink.Rpc.Conn.Loop.{read_packet_total}
use storj_uplink.Rpc.Conn.Wire.{Delivered, read_packet-append_packet}
use storj_uplink.Rpc.Conn.Queue.{IsBoundedQueue, drain_buffered-IsBoundedQueue}
use storj_uplink.Rpc.Recv.{remote, closed, canceled, peer_terminated, recv_queued}
use storj_uplink.Rpc.Recv.Terminal.{recv_queued-terminal, recv_queued-close_send}
use storj_uplink.Common.{
  ℕ, ◌≡◌, ◌≢◌, refl, arith, true, false, [], ◌∷◌, ◌++◌, none, some, ok, err, Bytes, length,
}

abbrev hello : Bytes
hello = 104 ∷ 101 ∷ 108 ∷ 108 ∷ 111 ∷ []

abbrev greeting : Packet
greeting = record { stream_id = 300; message_id = 1; kind = 2; control = false; payload = hello }

abbrev first_frame : Frame
first_frame = record {
  stream_id = 300;
  message_id = 1;
  kind = 2;
  done = false;
  control = false;
  payload = 104 ∷ 101 ∷ [];
}

abbrev last_frame : Frame
last_frame = record first_frame { done = true; payload = 108 ∷ 108 ∷ 111 ∷ [] }

abbrev next_frame : Frame
next_frame = record last_frame { message_id = 2 }

-- The greeting in frames of two bytes, and a byte of what comes next.
abbrev wire : Bytes
wire =
    4 ∷ 172 ∷ 2 ∷ 1 ∷ 2 ∷ 104 ∷ 101 ∷ 4 ∷ 172 ∷ 2 ∷ 1 ∷ 2 ∷ 108 ∷ 108 ∷ 5 ∷ 172 ∷ 2 ∷ 1 ∷ 1 ∷ 111
    ∷ []

abbrev fresh : Conn
fresh = record {
  buf = wire ++ 4 ∷ [];
  pos = 0;
  assembler = record { last_stream = 1; last_message = 1; current = none; max_data = 4194304 };
  pending = [];
}

wire_lem : append_packet [] greeting 2 ≡ some wire
unfolding append_packet storj_uplink.Rpc.Frame.append_frame_parts append_varint
    storj_uplink.Rpc.Frame.header_byte
wire_lem = refl

greeting-FitsWire : FitsWire 300 1 2
greeting-FitsWire = record {
  stream_fits = omega arith;
  message_fits = omega arith;
  kind_fits = omega arith;
}

first_frame-IsFrame : IsFrame first_frame
first_frame-IsFrame = record {
  stream_fits = omega arith;
  message_fits = omega arith;
  kind_fits = omega arith;
  payload_fits = omega arith;
}

read_packet-append_packet_example :
    Delivered 300 1 2 false 4194304 hello (4 ∷ []) (read_packet fresh)
unfolding storj_uplink.Rpc.Assembler.id_less unparsed
read_packet-append_packet_example =
    read_packet-append_packet fresh greeting 2 wire (4 ∷ []) greeting-FitsWire (omega arith)
      (omega arith) (omega arith) (refl, refl) refl wire_lem refl

parse_frame-append_frame_example :
    parse_frame (append_frame [] first_frame ++ 9 ∷ [])
    ≡ ok (some (first_frame, length (append_frame [] first_frame)))
parse_frame-append_frame_example = parse_frame-append_frame first_frame (9 ∷ []) first_frame-IsFrame

push-IsBounded_example : IsBounded default (push default first_frame)
push-IsBounded_example = push-IsBounded default first_frame

packets-AscendFrom_example :
    AscendFrom 1 1 (packets default (first_frame ∷ last_frame ∷ next_frame ∷ []))
unfolding default
packets-AscendFrom_example =
    packets-AscendFrom default (first_frame ∷ last_frame ∷ next_frame ∷ []) tt
      (omega arith, (omega arith, (omega arith, tt)))

packets_run :
    packets default (first_frame ∷ last_frame ∷ next_frame ∷ [])
    ≡ greeting ∷ record greeting { message_id = 2; payload = 108 ∷ 108 ∷ 111 ∷ [] } ∷ []
unfolding packets push default
packets_run = refl

read_packet_total_example : (read_packet fresh).1 ≢ out_of_fuel
read_packet_total_example = read_packet_total fresh

drain_buffered-IsBoundedQueue_example : IsBoundedQueue (drain_buffered fresh).0
drain_buffered-IsBoundedQueue_example = drain_buffered-IsBoundedQueue fresh (record {
  bytes_bounded = unfold queued in omega arith;
  count_bounded = omega arith;
  limit_bounded = omega arith;
})

drained : ((drain_buffered fresh).0.pending ≡ greeting ∷ []) × ((drain_buffered fresh).1 ≡ partial)
unfolding drain_buffered queued storj_uplink.Rpc.Conn.parse_one parse_frame unparsed read_varint
    push storj_uplink.Rpc.Frame.from_header
drained = (refl, refl)

abbrev of_kind : ℕ → ℕ → Packet
of_kind stream kind = record {
  stream_id = stream;
  message_id = 1;
  kind = kind;
  control = false;
  payload = [];
}

-- A packet of an earlier stream, and a cancellation of this one.
recv_queued-terminal_example :
    (peer_terminated 7 (of_kind 6 2 ∷ of_kind 7 4 ∷ greeting ∷ []) ≡ some (remote 0 canceled))
    × (recv_queued 7 (of_kind 6 2 ∷ of_kind 7 4 ∷ greeting ∷ [])
        ≡ (some (err (remote 0 canceled)), greeting ∷ []))
unfolding storj_uplink.Rpc.Recv.receive storj_uplink.Rpc.Recv.terminal
recv_queued-terminal_example =
    recv_queued-terminal 7 (of_kind 6 2 ∷ []) (greeting ∷ []) (of_kind 7 4) (remote 0 canceled)
      (refl, tt) refl refl

recv_queued-close_send_example :
    (peer_terminated 7 (of_kind 7 6 ∷ of_kind 7 4 ∷ []) ≡ some (remote 0 canceled))
    × (recv_queued 7 (of_kind 7 6 ∷ of_kind 7 4 ∷ []) ≡ (some (err closed), of_kind 7 4 ∷ []))
unfolding storj_uplink.Rpc.Recv.terminal
recv_queued-close_send_example =
    recv_queued-close_send 7 [] [] (of_kind 7 6) (of_kind 7 4) (remote 0 canceled) tt refl refl refl
      refl
