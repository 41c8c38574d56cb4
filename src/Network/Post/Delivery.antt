-- ===== src/Network/Post/Delivery.antt =====
-- network/post.cc: a message on its way from one machine to a mailbox of another.
use cmps.Prelude.{
  ℕ, ◌+◌, ◌^◌, ◌<◌, ◌≤◌, ◌≡◌, ◌≢◌, refl, sym, ◌∙◌, arith, true, false, some, ◌==◌, if◌then◌else◌,
  lt→ltb, le→leb, ==_of_eq, ==_of_ne, subst,
}
use cmps.Prelude.Bits.{u32}
use cmps.Threads.LinkedList
use cmps.Threads.LinkedList.{LinkedList}
use cmps.Threads.SynchList
use cmps.Network.Bytes.{bcopy, bcopy_at, word, word_of_bytes, word_of_same}
use cmps.Network.Device
use cmps.Network.Device.{
  PacketHeader, Network, packet_header_bytes, read_packet_header, check_pkt_avail,
}
use cmps.Network.Post.{
  MailHeader, PostOffice, mail_header_bytes, read_mail_header, put, new_mail, send, postal_delivery,
}

-- What the post offices of two machines and the sender of a message need to agree on.
pub record CanDeliver (po q : PostOffice) (pkt : PacketHeader) (mail : MailHeader) : Type 0 where
  pub not_busy : po.network.send_busy ≡ false
  pub own_address : po.network.ident ≡ po.net_addr
  pub sender : po.net_addr < 2 ^ 32
  pub addressed : pkt.to ≡ q.network.ident
  pub addressee : q.network.ident < 2 ^ 32
  pub fits : mail.length ≤ 40
  pub reply_box : mail.from < 2 ^ 32
  pub box : mail.to < 2 ^ 31
  pub box_here : mail.to < po.num_boxes
  pub box_there : mail.to < q.num_boxes
  pub nothing_waits : q.network.in_hdr.length ≡ 0

PacketHeader-ext :
    {a b c a' b' c' : ℕ}
    → a ≡ a'
    → b ≡ b'
    → c ≡ c'
    → ◌≡◌ {A = PacketHeader}
        (record { to = a; from = b; length = c })
        (record { to = a'; from = b'; length = c' })
PacketHeader-ext e f g = rw (e, f, g) refl

MailHeader-ext :
    {a b c a' b' c' : ℕ}
    → a ≡ a'
    → b ≡ b'
    → c ≡ c'
    → ◌≡◌ {A = MailHeader}
        (record { to = a; from = b; length = c })
        (record { to = a'; from = b'; length = c' })
MailHeader-ext e f g = rw (e, f, g) refl

-- A packet whose header is `hdr` is taken into an empty network device.
take_in :
    (n : Network) (buffer : ℕ → ℕ) (hdr : PacketHeader)
    → n.in_hdr.length ≡ 0
    → read_packet_header buffer ≡ hdr
    → hdr.to ≡ n.ident
    → hdr.length ≤ 52
    → check_pkt_avail n (some buffer)
      ≡ some (true, record n { in_hdr = hdr; inbox = bcopy buffer 12 n.inbox 0 hdr.length })
unfolding check_pkt_avail
take_in n buffer hdr empty e =
    subst
      (λ h.
        h.to ≡ n.ident
        → h.length ≤ 52
        → check_pkt_avail n (some buffer)
          ≡ some (true, record n { in_hdr = h; inbox = bcopy buffer 12 n.inbox 0 h.length }))
      e
      (λ here fits.
        rw (empty, ==_of_eq (word buffer 0) n.ident here, le→leb (word buffer 8) 52 fits) refl)

-- The postal worker with a packet in the network device: the buffer, and the network.
abbrev pub fetched : PostOffice → (ℕ → ℕ) → ℕ → ℕ
fetched o kept = bcopy o.network.inbox 0 kept 0 o.network.in_hdr.length

abbrev pub emptied : Network → Network
emptied n = record n { in_hdr = record n.in_hdr { length = 0 } }

-- A round of the postal worker, on a message that is for one of the boxes and not too long.
pub postal_delivery_lem :
    (o : PostOffice) (kept fresh : ℕ → ℕ) (mail : MailHeader)
    → o.network.in_hdr.length ≢ 0
    → read_mail_header (fetched o kept) ≡ mail
    → mail.to < 2 ^ 31
    → mail.to < o.num_boxes
    → mail.length ≤ 40
    → postal_delivery o kept fresh
      ≡ some (
        fetched o kept,
        record o {
          network = emptied o.network;
          boxes = λ b.
              if mail.to == b
              then LinkedList.append (o.boxes mail.to) (record {
                pkt_hdr = o.network.in_hdr;
                mail_hdr = mail;
                contents = bcopy (fetched o kept) 12 fresh 0 mail.length;
              })
              else o.boxes b;
        },
      )
unfolding postal_delivery Device.receive put new_mail SynchList.append
postal_delivery_lem o kept fresh mail some_there e =
    subst
      (λ h.
        h.to < 2 ^ 31
        → h.to < o.num_boxes
        → h.length ≤ 40
        → postal_delivery o kept fresh
          ≡ some (
            fetched o kept,
            record o {
              network = emptied o.network;
              boxes = λ b.
                  if h.to == b
                  then LinkedList.append (o.boxes h.to) (record {
                    pkt_hdr = o.network.in_hdr;
                    mail_hdr = h;
                    contents = bcopy (fetched o kept) 12 fresh 0 h.length;
                  })
                  else o.boxes b;
            },
          ))
      e
      (λ small there fits.
        rw
          (
            ==_of_ne o.network.in_hdr.length 0 some_there,
            lt→ltb (word (fetched o kept) 0) (2 ^ 31) small,
            lt→ltb (word (fetched o kept) 0) o.num_boxes there,
            le→leb (word (fetched o kept) 8) 40 fits,
          )
          refl)

module _ (po q : PostOffice) (pkt : PacketHeader) (mail : MailHeader)
    (message buffer wire kept fresh : ℕ → ℕ) (c : CanDeliver po q pkt mail) where
  abbrev pub hdr : PacketHeader
  hdr = record { to = pkt.to; from = po.net_addr; length = u32 (mail.length + 12) }

  -- The mail header and the message, the packet in the socket, and the buffer of the postal worker.
  abbrev pub inner : ℕ → ℕ
  inner = bcopy message 0 (bcopy (mail_header_bytes mail) 0 buffer 0 12) 12 mail.length

  abbrev pub packet : ℕ → ℕ
  packet = bcopy inner 0 (bcopy (packet_header_bytes hdr) 0 wire 0 12) 12 hdr.length

  abbrev pub arrived : Network
  arrived = record q.network { in_hdr = hdr; inbox = bcopy packet 12 q.network.inbox 0 hdr.length }

  abbrev pub received : ℕ → ℕ
  received = bcopy arrived.inbox 0 kept 0 hdr.length

  pub size : hdr.length ≡ mail.length + 12
  size = omega (arith, c.fits)

  pub sent : send po pkt mail message false buffer wire ≡ some (some packet)
  unfolding send Device.send
  sent =
      rw
        (
          le→leb mail.length 40 c.fits,
          lt→ltb mail.to (2 ^ 31) c.box,
          lt→ltb mail.to po.num_boxes c.box_here,
          c.not_busy,
          lt→ltb 0 hdr.length (omega (arith, size)),
          le→leb hdr.length 52 (omega (arith, size, c.fits)),
          ==_of_eq po.net_addr po.network.ident (sym c.own_address),
        )
        refl

  packet_header : read_packet_header packet ≡ hdr
  packet_header =
      PacketHeader-ext (word_of_bytes pkt.to (omega (arith, c.addressed, c.addressee)))
        (word_of_bytes po.net_addr c.sender)
        (word_of_bytes hdr.length (omega (arith, size, c.fits)))

  pub taken_in : check_pkt_avail q.network (some packet) ≡ some (true, arrived)
  taken_in =
      take_in q.network packet hdr c.nothing_waits packet_header c.addressed
        (omega (arith, size, c.fits))

  pub received-inner : (k : ℕ) → k < mail.length + 12 → received k ≡ inner k
  received-inner k lt =
      bcopy_at arrived.inbox 0 kept 0 hdr.length k k (omega arith) (omega (arith, size))
        (omega arith)
      ∙ bcopy_at packet 12 q.network.inbox 0 hdr.length k (12 + k) (omega arith)
          (omega (arith, size)) (omega arith)
      ∙ bcopy_at inner 0 (bcopy (packet_header_bytes hdr) 0 wire 0 12) 12 hdr.length (12 + k) k
          (omega arith) (omega (arith, size)) (omega arith)

  pub mail_header : read_mail_header received ≡ mail
  mail_header =
      MailHeader-ext
        (word_of_same received inner (mail.length + 12) 0 received-inner (omega arith)
          ∙ word_of_bytes mail.to (omega (arith, c.box)))
        (word_of_same received inner (mail.length + 12) 4 received-inner (omega arith)
          ∙ word_of_bytes mail.from c.reply_box)
        (word_of_same received inner (mail.length + 12) 8 received-inner (omega arith)
          ∙ word_of_bytes mail.length (omega (arith, c.fits)))
