-- ===== src/Network/Connection/Progress.antt =====
-- The send queue never gets stuck, and keeps the order of what it accepts.
use asca_ci.Base.{ℕ, zero, suc, ◌≡◌, refl, sym, ap, false, List, [], ◌∷◌, ◌++◌, some, arith, All}
use asca_ci.Network.Connection.{
  Connection, is_disconnected, internal_send, send, on_write_operation,
}
use asca_ci.Network.Connection.Queue.{Event, sends, write_ends, run, messages, IsFifo, run_from}
use asca_ci.Network.Output.{OutputMessage, output_bytes}
use asca_ci.Network.Protocol.{Protocol, on_send_message}

-- The protocol's assertions hold for the message.
abbrev pub CanSend : Protocol → OutputMessage → Type 0
CanSend p o = (o' : OutputMessage) × (on_send_message p o ≡ some o')

-- A write ends only where one is under way, given the queue's length at the start.
abbrev pub Balanced : ℕ → List Event → Type 0
Balanced n [] = Unit
Balanced n (sends o ∷ es) = Balanced (suc n) es
Balanced zero (write_ends ∷ es) = ⊥
Balanced (suc n) (write_ends ∷ es) = Balanced n es

abbrev count : List OutputMessage → ℕ
count [] = zero
count (o ∷ os) = suc (count os)

count-snoc : (os : List OutputMessage) (o : OutputMessage) → count (os ++ o ∷ []) ≡ suc (count os)
count-snoc [] o = refl
count-snoc (x ∷ os) o = ap suc (count-snoc os o)

All-snoc :
    (p : Protocol) (os : List OutputMessage) (o : OutputMessage)
    → All (CanSend p) os
    → CanSend p o
    → All (CanSend p) (os ++ o ∷ [])
All-snoc p [] o h k = (k, tt)
All-snoc p (x ∷ os) o h k = (h.0, All-snoc p os o h.1 k)

-- A live socket whose queue holds `os`.
record IsLive (p : Protocol) (os : List OutputMessage) (c : Connection) : Type 0 where
  queue : c.queue ≡ os
  connected : is_disconnected c.state ≡ false
  with_protocol : c.protocol ≡ some p
  can_send : All (CanSend p) os

internal_send-IsLive :
    (p : Protocol) (os : List OutputMessage) (o : OutputMessage) (c : Connection)
    → IsLive p os c
    → CanSend p o
    → (c' : Connection) × (internal_send o c ≡ some c') × IsLive p os c'
unfolding internal_send
internal_send-IsLive p os o c l (o', made) = (
  record c { written = c.written ++ output_bytes o' ∷ [] },
  rw (l.with_protocol, made) refl,
  record {
    queue = l.queue;
    connected = l.connected;
    with_protocol = l.with_protocol;
    can_send = l.can_send;
  },
)

send-IsLive :
    (p : Protocol) (os : List OutputMessage) (o : OutputMessage) (c : Connection)
    → IsLive p os c
    → CanSend p o
    → (c' : Connection) × (send o c ≡ some c') × IsLive p (os ++ o ∷ []) c'
unfolding send
send-IsLive p [] o c l k =
    let queued : Connection = record c { queue = c.queue ++ o ∷ [] } in
    let (d, sent, l') =
      internal_send-IsLive p (o ∷ []) o queued
        (record {
          queue = ap (λ q. q ++ o ∷ []) l.queue;
          connected = l.connected;
          with_protocol = l.with_protocol;
          can_send = (k, tt);
        })
        k in
    (d, ground (arith, l.queue, l.connected, sent), l')
send-IsLive p (x ∷ os) o c l k = (
  record c { queue = c.queue ++ o ∷ [] },
  ground (arith, l.queue, l.connected),
  record {
    queue = ap (λ q. q ++ o ∷ []) l.queue;
    connected = l.connected;
    with_protocol = l.with_protocol;
    can_send = All-snoc p (x ∷ os) o l.can_send k;
  },
)

on_write_operation-IsLive :
    (p : Protocol) (o : OutputMessage) (os : List OutputMessage) (c : Connection)
    → IsLive p (o ∷ os) c
    → (c' : Connection) × (on_write_operation false c ≡ some c') × IsLive p os c'
unfolding on_write_operation
on_write_operation-IsLive p o [] c l = (
  record c { queue = [] },
  ground (arith, l.queue, l.connected),
  record { queue = refl; connected = l.connected; with_protocol = l.with_protocol; can_send = tt },
)
on_write_operation-IsLive p o (x ∷ os) c l =
    let (d, sent, l') =
      internal_send-IsLive p (x ∷ os) x (record c { queue = x ∷ os })
        (record {
          queue = refl;
          connected = l.connected;
          with_protocol = l.with_protocol;
          can_send = l.can_send.1;
        })
        l.can_send.1.0 in
    (d, ground (arith, l.queue, sent), l')

run-returns :
    (p : Protocol) (es : List Event) (os : List OutputMessage) (c : Connection)
    → IsLive p os c
    → Balanced (count os) es
    → All (CanSend p) (messages es)
    → (c' : Connection) × (run es c ≡ some c')
unfolding run
run-returns p [] os c l b k = (c, refl)
run-returns p (sends o ∷ es) os c l b k =
    let (d, sent, l') = send-IsLive p os o c l k.0 in
    let (c', ran) = run-returns p es (os ++ o ∷ []) d l' (rw (count-snoc os o) b) k.1 in
    (c', rw sent ran)
run-returns p (write_ends ∷ es) [] c l b k = absurd b
run-returns p (write_ends ∷ es) (o ∷ os) c l b k =
    let (d, ended, l') = on_write_operation-IsLive p o os c l in
    let (c', ran) = run-returns p es os d l' b k in (c', rw ended ran)

-- Whatever messages that the protocol can send a connected socket is given, and however the ends
-- of its writes fall between them: no step gets stuck, the accepted messages are those whose
-- writes have ended followed by the queue, and the socket was handed, once each and in that
-- order, the bytes of the ended ones and of the queue's head.
pub run-IsFifo :
    (p : Protocol) (es : List Event) (c : Connection)
    → c.queue ≡ []
    → c.written ≡ []
    → is_disconnected c.state ≡ false
    → c.protocol ≡ some p
    → Balanced 0 es
    → All (CanSend p) (messages es)
    → (c' : Connection) × (run es c ≡ some c') × IsFifo p (messages es) c'
run-IsFifo p es c q w alive prot b k =
    let live : IsLive p [] c = record {
      queue = q;
      connected = alive;
      with_protocol = prot;
      can_send = tt;
    } in
    let (c', ran) = run-returns p es [] c live b k in
    (
      c',
      ran,
      run_from p es [] c c'
          (record {
            ended = [];
            order = sym q;
            on_wire = rw (q, w) tt;
            connected = alive;
            with_protocol = prot;
          })
          ran,
    )
