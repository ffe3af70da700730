-- ===== src/Spin/UdpSocket.antt =====
-- lib/Spin/UDPSocket.cpp. The socket is the system's: what `select`, `sendto` and `recvfrom` answer
-- are arguments. A method returns the socket, also when it throws.
pub mod Peek
use arachnida.Base.{
  ℕ, zero, suc, Bool, true, false, not, List, [], ◌∷◌, ◌++◌, Option, none, some, Bytes, length,
  drop, replicate, ◌==◌, ◌&&◌, if◌then◌else◌, Result, ok, throw, ◌>>=◌, socket_error,
  unusable_udp_socket,
}
use arachnida.Acari.ParsingHelpers.{at_end}

-- An address and a port, a number of bytes, and the bytes: `peek_buffer_`.
pub record Peeked : Type 0 where
  pub address : ℕ
  pub port : ℕ
  pub size : ℕ
  pub buffer : Bytes

-- `fd` is -1 if `none`; the handler is known by a number.
pub record UdpSocket : Type 0 where
  pub fd : Option ℕ
  pub data_handler : Option ℕ
  pub peek_buffer : Peeked

-- What `recvfrom` gives; the payload fits the buffer.
pub record Datagram : Type 0 where
  pub address : ℕ
  pub port : ℕ
  pub payload : Bytes

-- The answers of the system to one `recv`: the result of `select` if there is a time-out, and the
-- result of `recvfrom`, `none` if it is negative.
pub record Answers : Type 0 where
  pub selected : ℕ
  pub received : Option Datagram

-- `recv` and `peek` return the caller's buffer, and the address, the port and the size.
pub record Received : Type 0 where
  pub buffer : Bytes
  pub address : ℕ
  pub port : ℕ
  pub size : ℕ

abbrev pub recv_block_size : ℕ
recv_block_size = 4096

-- The switch on the result of `select`: whether the time is out.
unfoldable pub time_out : Bool → ℕ → Result Bool
time_out has_timeout selected =
    if not has_timeout
    then ok false
    else if selected == 0
    then ok true
    else if selected == 1
    then ok false
    else throw socket_error

-- The buffer with the payload written over its begin. `owns` is `we_own_the_buffer_size`.
unfoldable pub fill : Bool → Bytes → Bytes → Bytes
fill owns buffer payload = if owns then payload else payload ++ drop (length payload) buffer

-- `recv` from the socket: the buffer that it leaves, also when it throws, and its result.
unfoldable pub recv_socket : Bytes → Bool → Answers → Bytes × Result Received
unfolding time_out fill at_end
recv_socket buffer has_timeout answers =
    let owns = at_end buffer in
    let sized = if owns then replicate recv_block_size 0 else buffer in
    elim (time_out has_timeout answers.selected) [
      | throw e ↦ (sized, throw e)
      | ok true ↦
          let left = fill owns sized [] in
          (left, ok (record { buffer = left; address = 0; port = 0; size = 0 }))
      | ok false ↦ elim answers.received [
        | none ↦ (sized, throw socket_error)
        | some d ↦
            let left = fill owns sized d.payload in
            (
              left,
              ok (record {
                buffer = left;
                address = d.address;
                port = d.port;
                size = length d.payload;
              }),
            )
      ]
    ]

abbrev pub with_buffer : UdpSocket → Bytes → UdpSocket
with_buffer s buffer = record s { peek_buffer = record s.peek_buffer { buffer = buffer } }

unfoldable pub recv : UdpSocket → Bytes → Bool → Answers → UdpSocket × Result Received
unfolding recv_socket at_end
recv s buffer has_timeout answers = elim s.fd [
  | none ↦ (s, throw unusable_udp_socket)
  | some _ ↦
      let p = s.peek_buffer in
      if at_end p.buffer then (s, (recv_socket buffer has_timeout answers).1) else (
        with_buffer s [],
        ok (record { buffer = p.buffer; address = p.address; port = p.port; size = p.size }),
      )
]

-- `peek` hands the peek buffer itself to `recv`, which resizes it before it asks the system.
unfoldable pub store_peeked : UdpSocket → Bytes × Result Received → UdpSocket × Result Received
store_peeked s (left, throw e) = (with_buffer s left, throw e)
store_peeked s (left, ok r) = (
  record s {
    peek_buffer = record { address = r.address; port = r.port; size = r.size; buffer = left };
  },
  ok r,
)

unfoldable pub peek : UdpSocket → Bool → Answers → UdpSocket × Result Received
unfolding store_peeked recv_socket at_end
peek s has_timeout answers = elim s.fd [
  | none ↦ (s, throw unusable_udp_socket)
  | some _ ↦
      let p = s.peek_buffer in
      if at_end p.buffer
      then store_peeked s (recv_socket p.buffer has_timeout answers)
      else (s, ok (record { buffer = p.buffer; address = p.address; port = p.port; size = p.size }))
]

unfoldable pub clear_peek_buffer : UdpSocket → UdpSocket
clear_peek_buffer s = with_buffer s []

-- `sent` is the result of `sendto`, `none` if it is negative.
unfoldable pub send : UdpSocket → Option ℕ → Result ℕ
send s sent = elim s.fd [
  | none ↦ throw unusable_udp_socket
  | some _ ↦ elim sent [ none ↦ throw socket_error | some n ↦ ok n ]
]

unfoldable pub poll : UdpSocket → ℕ → Result Bool
poll s selected = elim s.fd [
  | none ↦ throw unusable_udp_socket
  | some _ ↦
      if selected == 0 then ok false else if selected == 1 then ok true else throw socket_error
]

unfoldable pub close : UdpSocket → UdpSocket
close s = record s { fd = none }

-- The result is the descriptor that is attached to, or detached from, the connection handler.
unfoldable pub set_data_handler : UdpSocket → ℕ → UdpSocket × Result ℕ
set_data_handler s handler = elim s.fd [
  | none ↦ (s, throw unusable_udp_socket)
  | some fd ↦ (record s { data_handler = some handler }, ok fd)
]

unfoldable pub clear_data_handler : UdpSocket → UdpSocket × Option ℕ
clear_data_handler s = elim s.data_handler [
  | none ↦ (s, none)
  | some _ ↦ elim s.fd [ none ↦ (s, none) | some fd ↦ (record s { data_handler = none }, some fd) ]
]
