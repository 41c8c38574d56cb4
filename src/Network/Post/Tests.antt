-- ===== src/Network/Post/Tests.antt =====
-- network/post.cc: a message of three characters from machine 4 to box 1 of machine 7.
use cmps.Prelude.{ℕ, ◌+◌, ◌≡◌, arith, refl, true, false, some}
use cmps.Prelude.Bits.{u32}
use cmps.Threads.LinkedList.{new_list}
use cmps.Network.Device.{PacketHeader, Network, new_network, check_pkt_avail}
use cmps.Network.Post.{MailHeader, PostOffice, send, postal_delivery, receive}
use cmps.Network.Post.Delivery.{CanDeliver}
use cmps.Network.Post.RoundTrip.{IsReceived, receive-send}

abbrev zeros : ℕ → ℕ
zeros k = 0

abbrev office : ℕ → PostOffice
office address = record {
  network = new_network address (record { to = 0; from = 0; length = 0 }) zeros;
  net_addr = address;
  num_boxes = 10;
  boxes = λ b. new_list;
}

abbrev to_seven : PacketHeader
to_seven = record { to = 7; from = 0; length = 0 }

abbrev note : MailHeader
note = record { to = 1; from = 2; length = 3 }

abbrev letters : ℕ → ℕ
letters k = 97 + k

can_deliver : CanDeliver (office 4) (office 7) to_seven note
can_deliver = record {
  not_busy = refl;
  own_address = refl;
  sender = omega arith;
  addressed = refl;
  addressee = omega arith;
  fits = omega arith;
  reply_box = omega arith;
  box = omega arith;
  box_here = omega arith;
  box_there = omega arith;
  nothing_waits = refl;
}

receive-send_example :
    (packet kept' copied : ℕ → ℕ) × (n : Network) × (q1 q2 : PostOffice) × (send
        (office 4)
        to_seven
        note
        letters
        false
        zeros
        zeros
      ≡ some (some packet))
    × (check_pkt_avail (office 7).network (some packet) ≡ some (true, n))
    × (postal_delivery (record (office 7) { network = n }) zeros zeros ≡ some (kept', q1))
    × (receive q1 1 zeros
        ≡ some (record { to = 7; from = 4; length = u32 (3 + 12) }, note, copied, q2))
    × IsReceived (office 7) note letters copied q2
receive-send_example =
    receive-send (office 4) (office 7) to_seven note letters zeros zeros zeros zeros zeros
      can_deliver refl
