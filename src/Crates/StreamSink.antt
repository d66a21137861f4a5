-- ===== src/Crates/StreamSink.antt =====
-- `futures::{Sink, Stream}`, as a framed substream of libp2p gives them. A call may change the stream,
-- and gives what it answers; the wakers of the tasks are left out.
use libp2p_bittorrent_protoc.Base.{Option, Result, Poll}

-- `S` the stream, `M` its messages, `E` `std::io::Error`
pub record StreamSink (S M E : Type 0) : Type 0 where
  pub poll_ready : S → S × Poll (Result (Unit {0}) E)
  pub start_send : S → M → S × Result (Unit {0}) E
  pub poll_flush : S → S × Poll (Result (Unit {0}) E)
  pub poll_close : S → S × Poll (Result (Unit {0}) E)
  pub poll_next : S → S × Poll (Option (Result M E))
  -- `io::ErrorKind::UnexpectedEof.into()`
  pub unexpected_eof : E
