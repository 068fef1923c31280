-- ===== src/Network/Connection/Queue.antt =====
-- The send queue: one write at a time, and every accepted message once, in order.
use asca_ci.Base.{
  ℕ, ◌≡◌, refl, sym, ap, subst, ◌∙◌, false, List, [], ◌∷◌, ◌++◌, Option, some, inl, inr,
  Option-cases, Bool-cases, some_inj, arith, append_assoc, append-nil,
}
use asca_ci.Network.Connection.{
  Connection, is_disconnected, internal_send, send, on_write_operation,
}
use asca_ci.Network.Output.{OutputMessage, output_bytes, ◌>>=◌}
use asca_ci.Network.Protocol.{Protocol, on_send_message}

-- A message and the bytes that the protocol makes of it.
pub record IsWritten (p : Protocol) (o : OutputMessage) (bytes : List ℕ) : Type 0 where
  pub output : OutputMessage
  pub made : on_send_message p o ≡ some output
  pub same : bytes ≡ output_bytes output

abbrev pub AllWritten : Protocol → List OutputMessage → List (List ℕ) → Type 0
AllWritten p [] [] = Unit
AllWritten p [] (w ∷ ws) = ⊥
AllWritten p (o ∷ os) [] = ⊥
AllWritten p (o ∷ os) (w ∷ ws) = IsWritten p o w × AllWritten p os ws

-- The message whose write is under way.
abbrev pub in_flight : List OutputMessage → List OutputMessage
in_flight [] = []
in_flight (o ∷ os) = o ∷ []

-- The messages accepted so far are those whose writes have ended, followed by the queue; the
-- socket was handed the bytes of those that have ended and of the queue's head, in that order.
pub record IsFifo (p : Protocol) (accepted : List OutputMessage) (c : Connection) : Type 0 where
  pub ended : List OutputMessage
  pub order : accepted ≡ ended ++ c.queue
  pub on_wire : AllWritten p (ended ++ in_flight c.queue) c.written
  pub connected : is_disconnected c.state ≡ false
  pub with_protocol : c.protocol ≡ some p

AllWritten-snoc :
    (p : Protocol) (os : List OutputMessage) (ws : List (List ℕ)) (o : OutputMessage) (w : List ℕ)
    → AllWritten p os ws
    → IsWritten p o w
    → AllWritten p (os ++ o ∷ []) (ws ++ w ∷ [])
AllWritten-snoc p [] [] o w h i = (i, tt)
AllWritten-snoc p [] (v ∷ ws) o w h i = absurd h
AllWritten-snoc p (x ∷ os) [] o w h i = absurd h
AllWritten-snoc p (x ∷ os) (v ∷ ws) o w h i = (h.0, AllWritten-snoc p os ws o w h.1 i)

-- A write that starts appends the bytes of its message.
record Starts (p : Protocol) (o : OutputMessage) (c c' : Connection) : Type 0 where
  bytes : List ℕ
  written : IsWritten p o bytes
  more : c'.written ≡ c.written ++ bytes ∷ []
  queue : c'.queue ≡ c.queue
  state : c'.state ≡ c.state
  protocol : c'.protocol ≡ c.protocol

internal_send-Starts :
    (p : Protocol) (o : OutputMessage) (c c' : Connection)
    → c.protocol ≡ some p
    → internal_send o c ≡ some c'
    → Starts p o c c'
unfolding internal_send
internal_send-Starts p o c c' prot e = elim (Option-cases (on_send_message p o)) [
  | inl stuck ↦ absurd (ground (arith, prot, stuck, e))
  | inr (o', made) ↦ record {
    bytes = output_bytes o';
    written = record { output = o'; made = made; same = refl };
    more = ground (arith, prot, made, e);
    queue = ground (arith, prot, made, e);
    state = ground (arith, prot, made, e);
    protocol = ground (arith, prot, made, e);
  }
]

send_split :
    (p : Protocol) (accepted queue : List OutputMessage) (o : OutputMessage) (c c' : Connection)
    → c.queue ≡ queue
    → IsFifo p accepted c
    → send o c ≡ some c'
    → IsFifo p (accepted ++ o ∷ []) c'
unfolding send
send_split p accepted [] o c c' q f e = elim (Bool-cases (is_disconnected c.state)) [
  | inl dead ↦ absurd (cc)
  | inr alive ↦
      let queued : Connection = record c { queue = c.queue ++ o ∷ [] } in
      let sends : internal_send o queued ≡ some c' = ground (arith, e, q, alive) in
      let st = internal_send-Starts p o queued c' f.with_protocol sends in
      record {
        ended = f.ended;
        order =
            ap (λ xs. xs ++ o ∷ []) f.order
            ∙ append_assoc f.ended c.queue (o ∷ [])
            ∙ ap (◌++◌ f.ended) (sym st.queue);
        on_wire =
            rw (st.queue, q, st.more)
              (AllWritten-snoc p f.ended c.written o st.bytes
                (rw append-nil at
                  (subst (λ qs. AllWritten p (f.ended ++ in_flight qs) c.written) q f.on_wire))
                st.written);
        connected = rw st.state alive;
        with_protocol = st.protocol ∙ f.with_protocol;
      }
]
send_split p accepted (x ∷ xs) o c c' q f e =
    let queue' : c'.queue ≡ c.queue ++ o ∷ [] = ground (arith, e, q, f.connected) in
    let written' : c'.written ≡ c.written = ground (arith, e, q, f.connected) in
    record {
      ended = f.ended;
      order =
          ap (λ ys. ys ++ o ∷ []) f.order
          ∙ append_assoc f.ended c.queue (o ∷ [])
          ∙ ap (◌++◌ f.ended) (sym queue');
      on_wire =
          rw (queue', q, written')
            (subst (λ qs. AllWritten p (f.ended ++ in_flight qs) c.written) q f.on_wire);
      connected = ground (arith, e, q, f.connected);
      with_protocol = ground (arith, e, q, f.connected, f.with_protocol);
    }

-- Accepting a message keeps the queue in order.
pub send-IsFifo :
    (p : Protocol) (accepted : List OutputMessage) (o : OutputMessage) (c c' : Connection)
    → IsFifo p accepted c
    → send o c ≡ some c'
    → IsFifo p (accepted ++ o ∷ []) c'
send-IsFifo p accepted o c c' f e = send_split p accepted c.queue o c c' refl f e

written_split :
    (p : Protocol) (accepted queue : List OutputMessage) (c c' : Connection)
    → c.queue ≡ queue
    → IsFifo p accepted c
    → on_write_operation false c ≡ some c'
    → IsFifo p accepted c'
unfolding on_write_operation
written_split p accepted [] c c' q f e = absurd (ground (arith, e, q))
written_split p accepted (x ∷ []) c c' q f e =
    let queue' : c'.queue ≡ [] = ground (arith, e, q, f.connected) in
    let written' : c'.written ≡ c.written = ground (arith, e, q, f.connected) in
    record {
      ended = f.ended ++ x ∷ [];
      order = f.order ∙ ap (◌++◌ f.ended) q ∙ rw (queue', append-nil);
      on_wire =
          rw (queue', append-nil, written')
            (subst (λ qs. AllWritten p (f.ended ++ in_flight qs) c.written) q f.on_wire);
      connected = ground (arith, e, q, f.connected);
      with_protocol = ground (arith, e, q, f.connected, f.with_protocol);
    }
written_split p accepted (x ∷ y ∷ ys) c c' q f e =
    let queued : Connection = record c { queue = y ∷ ys } in
    let sends : internal_send y queued ≡ some c' = ground (arith, e, q) in
    let st = internal_send-Starts p y queued c' f.with_protocol sends in
    record {
      ended = f.ended ++ x ∷ [];
      order =
          f.order
          ∙ ap (◌++◌ f.ended) q
          ∙ sym (append_assoc f.ended (x ∷ []) (y ∷ ys))
          ∙ ap (◌++◌ (f.ended ++ x ∷ [])) (sym st.queue);
      on_wire =
          rw (st.queue, st.more)
            (AllWritten-snoc p (f.ended ++ x ∷ []) c.written y st.bytes
              (subst (λ qs. AllWritten p (f.ended ++ in_flight qs) c.written) q f.on_wire)
              st.written);
      connected = rw st.state f.connected;
      with_protocol = st.protocol ∙ f.with_protocol;
    }

-- What happens to the sending side while the socket lives.
pub data Event : Type 0 where
  sends : OutputMessage → Event
  write_ends : Event

unfoldable pub run : List Event → Connection → Option Connection
run [] c = some c
run (sends o ∷ es) c = send o c >>= run es
run (write_ends ∷ es) c = on_write_operation false c >>= run es

abbrev pub messages : List Event → List OutputMessage
messages [] = []
messages (sends o ∷ es) = o ∷ messages es
messages (write_ends ∷ es) = messages es

pub run_from :
    (p : Protocol) (es : List Event) (accepted : List OutputMessage) (c c' : Connection)
    → IsFifo p accepted c
    → run es c ≡ some c'
    → IsFifo p (accepted ++ messages es) c'
unfolding run
run_from p [] accepted c c' f e = subst (IsFifo p (accepted ++ [])) (some_inj e) (rw append-nil f)
run_from p (sends o ∷ es) accepted c c' f e = elim (Option-cases (send o c)) [
  | inl stuck ↦ absurd (ground (arith, e, stuck))
  | inr (d, sent) ↦
      subst (λ os. IsFifo p os c') (append_assoc accepted (o ∷ []) (messages es))
        (run_from p es (accepted ++ o ∷ []) d c' (send-IsFifo p accepted o c d f sent)
          (ground (arith, e, sent)))
]
run_from p (write_ends ∷ es) accepted c c' f e = elim (Option-cases (on_write_operation false c)) [
  | inl stuck ↦ absurd (ground (arith, e, stuck))
  | inr (d, ended) ↦
      run_from p es accepted d c' (written_split p accepted c.queue c d refl f ended)
        (ground (arith, e, ended))
]
