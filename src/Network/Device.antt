-- ===== src/Network/Device.antt =====
-- machine/network.cc: the network device. The sockets of the host carry buffers of 64 characters, of which
-- a packet header takes 12. `none` is a failed ASSERT. The interrupts that the device schedules are left
-- out, and so are the statistics.
use cmps.Prelude.{
  ℕ, Bool, true, false, not, ◌&&◌, Option, none, some, ltb, leb, ◌==◌, if◌then◌else◌, ◌>>◌, assert,
}
use cmps.Network.Bytes.{bcopy, word, words}

abbrev pub max_wire_size : ℕ
max_wire_size = 64

abbrev pub max_packet_size : ℕ
max_packet_size = 52

pub record PacketHeader : Type 0 where
  pub to : ℕ
  pub from : ℕ
  pub length : ℕ

pub record Network : Type 0 where
  pub ident : ℕ
  pub send_busy : Bool
  pub in_hdr : PacketHeader
  pub inbox : ℕ → ℕ

-- The constructor, where `inbox` and the other words of `inHdr` are whatever they are.
abbrev pub new_network : ℕ → PacketHeader → (ℕ → ℕ) → Network
new_network addr in_hdr inbox = record {
  ident = addr;
  send_busy = false;
  in_hdr = record in_hdr { length = 0 };
  inbox = inbox;
}

abbrev pub read_packet_header : (ℕ → ℕ) → PacketHeader
read_packet_header buffer = record {
  to = word buffer 0;
  from = word buffer 4;
  length = word buffer 8;
}

abbrev pub packet_header_bytes : PacketHeader → ℕ → ℕ
packet_header_bytes h = words h.to h.from h.length

-- `Network::Send` with a new buffer: what goes into the socket, unless the packet is lost.
unfoldable pub send : Network → PacketHeader → (ℕ → ℕ) → Bool → (ℕ → ℕ) → Option (Option (ℕ → ℕ))
send n hdr contents lost buffer = do
  assert
      (not n.send_busy && ltb 0 hdr.length && leb hdr.length max_packet_size && hdr.from == n.ident)
  some (
      if lost
      then none
      else some (bcopy contents 0 (bcopy (packet_header_bytes hdr) 0 buffer 0 12) 12 hdr.length))

-- `Network::CheckPktAvail` with what the socket holds: the network, and whether it calls the handler.
unfoldable pub check_pkt_avail : Network → Option (ℕ → ℕ) → Option (Bool × Network)
check_pkt_avail n socket = if not (n.in_hdr.length == 0) then some (false, n) else elim socket [
  | none ↦ some (false, n)
  | some buffer ↦ (do
    let hdr = read_packet_header buffer
    assert (hdr.to == n.ident && leb hdr.length max_packet_size)
    some (true, record n { in_hdr = hdr; inbox = bcopy buffer 12 n.inbox 0 hdr.length }))
]

-- `Network::SendDone`, without the handler.
abbrev pub send_done : Network → Network
send_done n = record n { send_busy = false }

-- `Network::Receive` into a buffer.
unfoldable pub receive : Network → (ℕ → ℕ) → PacketHeader × (ℕ → ℕ) × Network
receive n contents =
    let hdr = n.in_hdr in
    (
      hdr,
      if not (hdr.length == 0) then bcopy n.inbox 0 contents 0 hdr.length else contents,
      record n { in_hdr = record hdr { length = 0 } },
    )
