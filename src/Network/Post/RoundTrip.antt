-- ===== src/Network/Post/RoundTrip.antt =====
-- network/post.cc: what is sent on one machine is received on another.
use cmps.Prelude.{
  ℕ, ◌+◌, ◌^◌, ◌<◌, ◌≤◌, ◌≡◌, ◌≢◌, refl, sym, ap, ◌∙◌, arith, true, false, some, List, [], ◌∷◌,
  ◌++◌, ◌==◌, if◌then◌else◌, lt→ltb, le→leb, ==_of_eq, ==_of_ne,
}
use cmps.Prelude.Bits.{u32}
use cmps.Threads.LinkedList
use cmps.Threads.LinkedList.{LinkedList}
use cmps.Threads.LinkedList.Counted.{items, items-append, is_empty_cons, remove_cons}
use cmps.Threads.SynchList
use cmps.Network.Bytes.{bcopy, bcopy_at}
use cmps.Network.Device.{PacketHeader, Network, check_pkt_avail}
use cmps.Network.Post.{
  MailHeader, Mail, PostOffice, mail_header_bytes, get, send, postal_delivery, receive,
}
use cmps.Network.Post.Delivery.{
  CanDeliver, hdr, packet, arrived, fetched, emptied, size, sent, taken_in, received-inner,
  mail_header, postal_delivery_lem,
}

-- `Receive` from a box whose first message is `m`.
receive_first :
    (q : PostOffice) (b : ℕ) (m : Mail) (ms : List Mail) (buffer : ℕ → ℕ)
    → b < 2 ^ 31
    → b < q.num_boxes
    → items (q.boxes b) ≡ m ∷ ms
    → m.mail_hdr.length ≤ 40
    → (rest : LinkedList Mail) × (receive q b buffer
        ≡ some (
          m.pkt_hdr,
          m.mail_hdr,
          bcopy m.contents 0 buffer 0 m.mail_hdr.length,
          record q { boxes = λ c. if b == c then rest else q.boxes c },
        ))
      × (items rest ≡ ms)
unfolding receive get SynchList.remove
receive_first q b m ms buffer small there first fits =
    let (taken, left, _) = remove_cons (q.boxes b) m ms first in
    (
      (LinkedList.remove (q.boxes b)).1,
      rw
          (
            lt→ltb b (2 ^ 31) small,
            lt→ltb b q.num_boxes there,
            get,
            SynchList.remove,
            is_empty_cons (q.boxes b) m ms first,
            taken,
            le→leb m.mail_hdr.length 40 fits,
          )
          refl,
      left,
    )

-- What the receiver has in the end: the message that was sent, with its header and where it came from; the
-- box is empty again, the other boxes are untouched, and the network device can take the next packet.
pub record IsReceived (q : PostOffice) (mail : MailHeader) (message copied : ℕ → ℕ)
    (q2 : PostOffice) : Type 0 where
  pub same_message : (k : ℕ) → k < mail.length → copied k ≡ message k
  pub box_empty : items (q2.boxes mail.to) ≡ []
  pub others : (b : ℕ) → b ≢ mail.to → q2.boxes b ≡ q.boxes b
  pub device_free : q2.network.in_hdr.length ≡ 0

-- A message of at most 40 characters, sent to a box that both machines have and that is empty, by a
-- machine that is not sending, to one whose network device holds no packet: `Send` puts a packet into the
-- socket; when it is not lost, the other machine's device takes it in and tells the postal worker, who puts
-- it into the box; `Receive` from that box then gives the mail header as it was sent, a packet header with
-- the sender's address, and the same characters.
pub receive-send :
    (po q : PostOffice) (pkt : PacketHeader) (mail : MailHeader)
    (message buffer wire kept fresh target : ℕ → ℕ)
    → CanDeliver po q pkt mail
    → items (q.boxes mail.to) ≡ []
    → (packet kept' copied : ℕ → ℕ) × (n : Network) × (q1 q2 : PostOffice) × (send po pkt mail
          message false buffer wire
        ≡ some (some packet))
      × (check_pkt_avail q.network (some packet) ≡ some (true, n))
      × (postal_delivery (record q { network = n }) kept fresh ≡ some (kept', q1))
      × (receive q1 mail.to target
          ≡ some (
            record { to = pkt.to; from = po.net_addr; length = u32 (mail.length + 12) },
            mail,
            copied,
            q2,
          ))
      × IsReceived q mail message copied q2
receive-send po q pkt mail message buffer wire kept fresh target c empty =
    let o : PostOffice = record q {
      network = arrived po q pkt mail message buffer wire kept fresh c;
    } in
    let m : Mail = record {
      pkt_hdr = hdr po q pkt mail message buffer wire kept fresh c;
      mail_hdr = mail;
      contents = bcopy (fetched o kept) 12 fresh 0 mail.length;
    } in
    let box : LinkedList Mail = LinkedList.append (q.boxes mail.to) m in
    let q1 : PostOffice = record o {
      network = emptied o.network;
      boxes = λ b. if mail.to == b then box else q.boxes b;
    } in
    let in_box : items (q1.boxes mail.to) ≡ m ∷ [] =
      rw (==_of_eq mail.to mail.to refl)
        (items-append (q.boxes mail.to) m ∙ ap (λ xs. xs ++ (m ∷ [])) empty) in
    let (rest, got, left) = receive_first q1 mail.to m [] target c.box c.box_there in_box c.fits in
    (
      packet po q pkt mail message buffer wire kept fresh c,
      fetched o kept,
      bcopy m.contents 0 target 0 mail.length,
      o.network,
      q1,
      record q1 { boxes = λ b. if mail.to == b then rest else q1.boxes b },
      sent po q pkt mail message buffer wire kept fresh c,
      taken_in po q pkt mail message buffer wire kept fresh c,
      postal_delivery_lem o kept fresh mail
          (omega (arith, size po q pkt mail message buffer wire kept fresh c))
          (mail_header po q pkt mail message buffer wire kept fresh c) c.box c.box_there c.fits,
      got,
      record {
        same_message = λ k lt.
            bcopy_at m.contents 0 target 0 mail.length k k (omega arith) (omega arith) (omega arith)
            ∙ bcopy_at (fetched o kept) 12 fresh 0 mail.length k (12 + k) (omega arith)
                (omega arith) (omega arith)
            ∙ received-inner po q pkt mail message buffer wire kept fresh c (12 + k) (omega arith)
            ∙ bcopy_at message 0 (bcopy (mail_header_bytes mail) 0 buffer 0 12) 12 mail.length
                (12 + k) k (omega arith) (omega arith) (omega arith);
        box_empty = rw (==_of_eq mail.to mail.to refl) left;
        others = λ b ne. rw (==_of_ne mail.to b (λ e. ne (sym e))) refl;
        device_free = refl;
      },
    )
