-- ===== src/Tests/Data.antt =====
-- Values that the tests share.
use proto_msg_queue.Prelude.{true, false, [], ◌∷◌, arith, refl}
use proto_msg_queue.Protocol.Frame.{Frame, frame_magic, frame_version, ping, to_byte, of_byte}
use proto_msg_queue.Protocol.Codec.RoundTrip.{IsSendable}
use proto_msg_queue.Protocol.Streaming.{init}
use proto_msg_queue.Protocol.Streaming.Scan.{scan_short}
use proto_msg_queue.Network.Connection.{Connection}
use proto_msg_queue.Network.Connection.Reads.{IsIdle}

abbrev pub ping_frame : Frame
ping_frame = record {
  magic = frame_magic;
  version = frame_version;
  msg_type = ping;
  length = 0;
  payload = 7 ∷ 8 ∷ [];
}

pub ping_frame-IsSendable : IsSendable ping_frame
unfolding to_byte of_byte
ping_frame-IsSendable = record {
  magic = refl;
  version = refl;
  kind = record { fits = omega arith; named = refl };
  fits = omega arith;
}

abbrev pub new_connection : Connection
new_connection = record {
  id = 1;
  closed = false;
  read_buffer = [];
  write_buffer = [];
  codec = init;
  last_active_ms = 0;
  zero_copy_enabled = true;
  max_write_buffer_size = 1024;
  wire = [];
}

pub new_connection-IsIdle : IsIdle new_connection
new_connection-IsIdle = record {
  is_open = refl;
  drained = refl;
  good = tt;
  waiting = scan_short [] (omega arith);
}
