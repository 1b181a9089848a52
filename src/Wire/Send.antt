-- ===== src/Wire/Send.antt =====
-- `sendPacket` of libvdeplug_wirefilter.c without a blink socket.
use vdeplug_wirefilter.Base.{◌≡◌, refl, ap, ◌∙◌, Bool, true, [], ◌∷◌, ◌++◌, Run, ok, ◌>>=◌}
use vdeplug_wirefilter.Conn.{Sys}
use vdeplug_wirefilter.Conn.Monad.{emit}
use vdeplug_wirefilter.Packet.{Direction, left_to_right, right_to_left, Packet}
use vdeplug_wirefilter.Wire.Forward.{delivery, blink, lock_for, lock_receive, send_packet}

-- A packet to the right, or one that the program reads.
abbrev pub IsRead : Direction → Bool → Type 0
IsRead left_to_right reader = Unit {0}
IsRead right_to_left reader = reader ≡ true

pub reader-IsRead : (d : Direction) (reader : Bool) → reader ≡ true → IsRead d reader
reader-IsRead left_to_right reader h = tt
reader-IsRead right_to_left reader h = h

module _ {D : Type 0} where
  lock_for-IsRead :
      (d : Direction) (s : Sys D) → IsRead d s.world.reader → lock_for d s ≡ ok (tt, s)
  unfolding lock_for lock_receive
  lock_for-IsRead left_to_right s h = refl
  lock_for-IsRead right_to_left s h = rw h refl

  blink-quiet :
      (packet : Packet) (s : Sys D) → s.conn.blink.socket_fd ≡ 0 → blink packet s ≡ ok (tt, s)
  unfolding blink
  blink-quiet packet s e = rw e refl

  -- Without a blink socket `sendPacket` only delivers the packet, if it is read.
  pub send_packet-quiet :
      (packet : Packet) (s : Sys D)
      → s.conn.blink.socket_fd ≡ 0
      → IsRead packet.direction s.world.reader
      → send_packet packet s
        ≡ ok (
          tt,
          record s { world = record s.world { events = s.world.events ++ delivery packet ∷ [] } },
        )
  unfolding send_packet
  send_packet-quiet packet s e read =
      let sent : Run (Unit {0} × Sys D) → Run (Unit {0} × Sys D) =
        λ r. r >>= λ (_, s'). emit (delivery packet) s' in
      ap (λ r. r >>= λ (_, s'). sent (lock_for packet.direction s')) (blink-quiet packet s e)
      ∙ ap sent (lock_for-IsRead packet.direction s read)
