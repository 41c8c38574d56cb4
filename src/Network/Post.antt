-- ===== src/Network/Post.antt =====
-- network/post.cc: mailboxes. A call ends when it would return or fails an ASSERT, `none`; what a thread
-- waits for between, for the lock and for the interrupts of the network, is left out, so that
-- `PostalDelivery` is one round of its loop, after `P`.
pub mod Delivery
pub mod RoundTrip
mod Tests
use cmps.Prelude.{
  ℕ, ◌+◌, ◌^◌, Bool, true, false, ◌&&◌, Option, none, some, List, ltb, leb, ◌==◌, if◌then◌else◌,
  ◌>>=◌, ◌>>◌, assert,
}
use cmps.Prelude.Bits.{u32}
use cmps.Threads.LinkedList.{LinkedList}
use cmps.Threads.SynchList
use cmps.Network.Bytes.{bcopy, word, words}
use cmps.Network.Device
use cmps.Network.Device.{PacketHeader, Network}

abbrev pub max_mail_size : ℕ
max_mail_size = 40

pub record MailHeader : Type 0 where
  pub to : ℕ
  pub from : ℕ
  pub length : ℕ

pub record Mail : Type 0 where
  pub pkt_hdr : PacketHeader
  pub mail_hdr : MailHeader
  pub contents : ℕ → ℕ

pub record PostOffice : Type 0 where
  pub network : Network
  pub net_addr : ℕ
  pub num_boxes : ℕ
  pub boxes : ℕ → LinkedList Mail

abbrev pub read_mail_header : (ℕ → ℕ) → MailHeader
read_mail_header buffer = record {
  to = word buffer 0;
  from = word buffer 4;
  length = word buffer 8;
}

abbrev pub mail_header_bytes : MailHeader → ℕ → ℕ
mail_header_bytes h = words h.to h.from h.length

-- `Mail::Mail`; the message field contains whatever it does behind the message.
unfoldable pub new_mail : PacketHeader → MailHeader → (ℕ → ℕ) → ℕ → (ℕ → ℕ) → Option Mail
new_mail pkt_h mail_h msg_data at contents = do
  assert (leb mail_h.length max_mail_size)
  some (record {
    pkt_hdr = pkt_h;
    mail_hdr = mail_h;
    contents = bcopy msg_data at contents 0 mail_h.length;
  })

-- `MailBox::Put`
unfoldable pub put :
    LinkedList Mail → PacketHeader → MailHeader → (ℕ → ℕ) → ℕ → (ℕ → ℕ) → Option (LinkedList Mail)
unfolding new_mail SynchList.append
put messages pkt_hdr mail_hdr msg_data at contents = do
  mail ← new_mail pkt_hdr mail_hdr msg_data at contents
  some (SynchList.append messages mail)

-- `MailBox::Get` into a buffer.
unfoldable pub get :
    LinkedList Mail → (ℕ → ℕ) → Option (PacketHeader × MailHeader × (ℕ → ℕ) × LinkedList Mail)
unfolding SynchList.remove
get messages contents = do
  (mail, rest) ← SynchList.remove messages
  some (mail.pkt_hdr, mail.mail_hdr, bcopy mail.contents 0 contents 0 mail.mail_hdr.length, rest)

-- `0 <= to && to < numBoxes` on an `int`.
abbrev pub is_box : PostOffice → ℕ → Bool
is_box po to = ltb to (2 ^ 31) && ltb to po.num_boxes

-- `PostOffice::Send`: what goes into the socket. `buffer` and `wire` are the new buffers.
unfoldable pub send :
    PostOffice
    → PacketHeader
    → MailHeader
    → (ℕ → ℕ)
    → Bool
    → (ℕ → ℕ)
    → (ℕ → ℕ)
    → Option (Option (ℕ → ℕ))
unfolding Device.send
send po pkt_hdr mail_hdr contents lost buffer wire = do
  assert (leb mail_hdr.length max_mail_size)
  assert (is_box po mail_hdr.to)
  let hdr = record pkt_hdr { from = po.net_addr; length = u32 (mail_hdr.length + 12) }
  Device.send po.network hdr
      (bcopy contents 0 (bcopy (mail_header_bytes mail_hdr) 0 buffer 0 12) 12 mail_hdr.length) lost
      wire

-- `PostOffice::PostalDelivery`: the buffer and the post office after a round.
unfoldable pub postal_delivery : PostOffice → (ℕ → ℕ) → (ℕ → ℕ) → Option ((ℕ → ℕ) × PostOffice)
unfolding Device.receive put
postal_delivery po buffer fresh = do
  let (pkt_hdr, received, network) = Device.receive po.network buffer
  let mail_hdr = read_mail_header received
  assert (is_box po mail_hdr.to)
  assert (leb mail_hdr.length max_mail_size)
  box ← put (po.boxes mail_hdr.to) pkt_hdr mail_hdr received 12 fresh
  some (
    received,
    record po { network = network; boxes = λ b. if mail_hdr.to == b then box else po.boxes b },
  )

-- `PostOffice::Receive` into a buffer.
unfoldable pub receive :
    PostOffice → ℕ → (ℕ → ℕ) → Option (PacketHeader × MailHeader × (ℕ → ℕ) × PostOffice)
unfolding get
receive po box contents = do
  assert (is_box po box)
  (pkt_hdr, mail_hdr, copied, rest) ← get (po.boxes box) contents
  assert (leb mail_hdr.length max_mail_size)
  some (pkt_hdr, mail_hdr, copied, record po { boxes = λ b. if box == b then rest else po.boxes b })
