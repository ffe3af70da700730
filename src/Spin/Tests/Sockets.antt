-- ===== src/Spin/Tests/Sockets.antt =====
-- Runs of the connection, the UDP socket and the pipe, and the theorems about them at such inputs.
use arachnida.Base.{
  ◌+◌, ◌-◌, ◌%◌, Bool, true, false, [], ◌∷◌, ◌++◌, none, some, Bytes, codes, length, take,
  replicate, ◌≡◌, inr, refl, arith, ok, throw, socket_error,
}
use arachnida.Acari.ParsingHelpers.{at_end}
use arachnida.Spin.Connection.{
  size_mod, default_read_block_size, reason_of, moved, failure, Answer, Connection, make_connection,
  read,
}
use arachnida.Spin.Connection.Reads.{IsBlock, joined, read_counts, read_miscounts}
use arachnida.Spin.UdpSocket.{
  UdpSocket, Answers, Received, recv_block_size, recv_socket, recv, peek, clear_peek_buffer,
}
use arachnida.Spin.UdpSocket.Peek.{peek_then, peek_fails}
use arachnida.Spin.Pipe.{write}
use arachnida.Spin.Pipe.Sends.{write_whole, write_partial}

abbrev opened : Connection
opened = make_connection (some 3)

abbrev full_block : Answer Bytes
full_block = record {
  result = moved (replicate default_read_block_size 65);
  should_retry = false;
  should_read = false;
  should_write = false;
}

abbrev last_block : Answer Bytes
last_block = record {
  result = moved (codes "hi");
  should_retry = true;
  should_read = true;
  should_write = false;
}

abbrev refused : Answer Bytes
refused = record {
  result = failure 0;
  should_retry = true;
  should_read = true;
  should_write = false;
}

full_block-IsBlock : IsBlock full_block
full_block-IsBlock = (refl, refl)

read_counts_example :
    (tail : Bytes) × (read opened 0 (full_block ∷ last_block ∷ [])
      ≡ some (
          ok (record {
            buffer = (joined (full_block ∷ []) ++ codes "hi") ++ tail;
            bytes_read = length (joined (full_block ∷ []) ++ codes "hi");
            reason = reason_of true false;
          })))
read_counts_example =
    read_counts opened (full_block ∷ []) last_block [] (codes "hi") refl (full_block-IsBlock, tt)
      refl (omega arith) (inr refl) (omega arith)

read_miscounts_example :
    (buffer : Bytes) × (read opened 0 (refused ∷ [])
      ≡ some (
          ok (record {
            buffer = buffer;
            bytes_read = (length (joined []) + size_mod - 1) % size_mod;
            reason = reason_of true false;
          })))
read_miscounts_example = read_miscounts opened [] refused [] 0 refl tt refl refl

abbrev bound : UdpSocket
bound = record {
  fd = some 3;
  data_handler = none;
  peek_buffer = record { address = 1; port = 2; size = 5; buffer = [] };
}

abbrev arrived : Answers
arrived = record {
  selected = 1;
  received = some (record { address = 9; port = 53; payload = codes "hi" });
}

abbrev nothing_received : Answers
nothing_received = record { selected = 2; received = none }

abbrev hi_received : Received
hi_received = record { buffer = codes "hi"; address = 9; port = 53; size = 2 }

abbrev holding : UdpSocket
holding = record bound {
  peek_buffer = record { address = 9; port = 53; size = 2; buffer = codes "hi" };
}

peek_run : peek bound true arrived ≡ (holding, ok hi_received)
unfolding peek
peek_run = refl

peek_then_example :
    ((later : Bool) (others : Answers) → peek holding later others ≡ (holding, ok hi_received))
    × ((buffer : Bytes) (later : Bool) (others : Answers)
        → recv holding buffer later others ≡ (clear_peek_buffer holding, ok hi_received))
    × (at_end (clear_peek_buffer holding).peek_buffer.buffer ≡ true)
peek_then_example = peek_then bound holding true arrived hi_received peek_run (λ h. cc)

recv_fails_run : (recv_socket [] true nothing_received).1 ≡ throw socket_error
unfolding recv_socket
recv_fails_run = refl

peek_fails_at_work :
    (recv (peek bound true nothing_received).0 (codes "x") false arrived).1
    ≡ ok (record { buffer = replicate recv_block_size 0; address = 1; port = 2; size = 5 })
peek_fails_at_work =
    peek_fails bound 3 true nothing_received refl refl recv_fails_run (codes "x") false arrived

write_whole_run :
    write (some (length (codes "abc")) ∷ []) (codes "abc")
    ≡ record { sent = codes "abc"; result = some (ok tt) }
write_whole_run = write_whole (codes "abc") []

write_partial_at_work :
    write (some 1 ∷ some (length (codes "abc") - 1) ∷ []) (codes "abc") ≡ record {
      sent = take 1 (codes "abc") ++ take (length (codes "abc") - 1) (codes "abc");
      result = some (ok tt);
    }
write_partial_at_work = write_partial (codes "abc") 1 [] (omega arith)
