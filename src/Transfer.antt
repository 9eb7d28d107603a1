-- ===== src/Transfer.antt =====
-- The transfer of the log, over a connection of its own: the packets of protocol.h, the ports.
-- server/src/srv_util.c:handle_loq_req sends (Transfer.Sender), client/src/cliente.c:recv_file
-- receives (Transfer.Receiver).
pub mod Sender
pub mod Receiver
pub mod Delivery
use soii_ipc.Base.{ℕ, ◌+◌, ◌*◌, ◌/◌, ◌%◌, List, Option, none, some, replicate}
use soii_ipc.Base.Words.{int_minus_one}

abbrev pub ft_payload_size : ℕ
ft_payload_size = 256

abbrev pub m_type_ft_begin : ℕ
m_type_ft_begin = 8

abbrev pub m_type_ft_data : ℕ
m_type_ft_data = 9

abbrev pub m_type_ft_fin : ℕ
m_type_ft_fin = 10

abbrev pub ft_port : ℕ
ft_port = 12345

-- `ft_packet_t`
pub record FilePacket : Type 0 where
  pub mtype : ℕ
  pub fsize : ℕ
  pub nbytes : ℕ
  pub payload : List ℕ

-- `bzero` of one.
abbrev pub zero_file_packet : FilePacket
zero_file_packet = record {
  mtype = 0;
  fsize = 0;
  nbytes = 0;
  payload = replicate ft_payload_size 0;
}

-- `htons`, on a little-endian machine.
unfoldable pub htons : ℕ → ℕ
htons port = (port % 256) * 256 + (port / 256) % 256

-- `struct sockaddr_in`
pub record SocketAddress : Type 0 where
  pub sin_family : ℕ
  pub sin_addr : ℕ
  pub sin_port : ℕ

abbrev pub af_inet : ℕ
af_inet = 2

abbrev pub inaddr_any : ℕ
inaddr_any = 0

-- `made` is what `socket` returned, `none` for -1; `address` is the object to be filled.
unfoldable pub setup_tcpsocket : ℕ → Option ℕ → SocketAddress → ℕ × SocketAddress
setup_tcpsocket port none address = (int_minus_one, address)
setup_tcpsocket port (some fd) address =
    (fd, record { sin_family = af_inet; sin_addr = inaddr_any; sin_port = htons port })
