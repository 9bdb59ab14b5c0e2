-- ===== src/Session/Invariant.antt =====
-- What holds of a session after every step.
use libp2p_transport_veilid.Prelude.{
  ℕ, ◌+◌, ◌<◌, ◌≤◌, ◌^◌, ◌≡◌, refl, sym, ap, ap₂, subst, ◌∙◌, take, flatten-append, List, [], ◌∷◌,
  ◌++◌, flatten, append-nil, length, arith, All, length-append, some, ℕ_discrete,
}
use libp2p_transport_veilid.Prelude.Map.{Map, lookup}
use libp2p_transport_veilid.External.{External, Bytes}
use libp2p_transport_veilid.Stream
use libp2p_transport_veilid.Stream.{VeilidStream}
use libp2p_transport_veilid.Stream.Frames.{frames, Fits, IsIncomplete}
use libp2p_transport_veilid.Stream.Outbound.{insert_to_outbound_stream, generate_messages}
use libp2p_transport_veilid.Stream.Outbound.Packets.{Sends, pieces, generate_messages-Sends}
use libp2p_transport_veilid.Stream.Inbound.{recv_message, read_inbound_stream}
use libp2p_transport_veilid.Stream.Inbound.Delivery.{
  HeadersWhole, Receives, Written, recv_message-Receives,
}
use libp2p_transport_veilid.Session.{
  Session, Setter, status, Step, hear, consume, talk, write, generate, send, acknowledge, deliver,
  read, set_sender, set_receiver, Reach, here, next, IsFresh,
}
use libp2p_transport_veilid.Connection.{register}
use libp2p_transport_veilid.Session.Sender.{
  recv_message-Sends, read-Sends, send_messages-Sends, acknowledge-Sends,
  send_messages-outbound_stream, acknowledge-outbound_stream, write-framed,
}
use libp2p_transport_veilid.Session.Unmoved.{Setter-Sends, Setter-Receives, Talk-Receives}
use libp2p_transport_veilid.Session.Receiver.{HeadersWhole-front, Receives-grow, read-Receives}

pub record Inv {X : External} (σ : Session X) : Type 0 where
  pub sends : Sends σ.log σ.sender
  pub framed : flatten σ.log ++ σ.sender.outbound_stream ≡ frames σ.writes
  pub fits : Fits σ.writes
  pub small : length σ.log < 2 ^ 32
  pub receives : Receives σ.log σ.writes σ.output σ.receiver

Fits-snoc :
    (writes : List Bytes) (bytes : Bytes)
    → Fits writes
    → length bytes < 2 ^ 32
    → Fits (writes ++ bytes ∷ [])
Fits-snoc [] bytes h small = (small, tt)
Fits-snoc (x ∷ writes) bytes h small = (h.0, Fits-snoc writes bytes h.1 small)

-- As many pieces as bytes at most.
length-le-flatten :
    (ps : List Bytes)
    → All (λ p. (0 < length p) × (length p ≤ 32623)) ps
    → length ps ≤ length (flatten ps)
unfolding flatten
length-le-flatten [] h = omega arith
length-le-flatten (p ∷ ps) h = omega (arith, length-append p (flatten ps), length-le-flatten ps h.1)

nothing_under :
    {V : Type 0} (k : ℕ) (queue : Map ℕ V) {m : V}
    → queue ≡ []
    → lookup ℕ_discrete k queue ≡ some m
    → ⊥
unfolding lookup
nothing_under k [] e h = cc
nothing_under k (x ∷ queue) e h = cc

module _ {X : External} where
  -- A step only appends to the log.
  pub Step-log : {σ τ : Session X} → Step σ τ → (new : List Bytes) × (τ.log ≡ σ.log ++ new)
  Step-log {σ} (generate small) = (pieces σ.sender.outbound_stream, refl)
  Step-log {σ} _ = ([], sym (append-nil σ.log))

  -- The text of the sender's history.
  pub written : (σ : Session X) → Inv σ → Written σ.log σ.writes
  written σ v = record {
    uncut = σ.sender.outbound_stream;
    framed = v.framed;
    fits = v.fits;
    small = v.small;
  }

  generate-Inv :
      (σ : Session X)
      → length σ.log + length σ.sender.outbound_stream < 2 ^ 32
      → Inv σ
      → Inv (record σ {
        sender = generate_messages σ.sender;
        log = σ.log ++ pieces σ.sender.outbound_stream;
      })
  generate-Inv σ room v =
      let out = σ.sender.outbound_stream in
      let (sends, none_left, text, limits) = generate_messages-Sends σ.log σ.sender room v.sends in
      record {
        sends = sends;
        framed =
            ap (λ t. flatten (σ.log ++ pieces out) ++ t) none_left ∙ append-nil _ ∙ text ∙ v.framed;
        fits = v.fits;
        small = omega (
          arith,
          room,
          length-le-flatten (pieces out) limits,
          ap length (sym (flatten-append σ.log (pieces out)) ∙ text),
          length-append (flatten σ.log) (flatten (pieces out)),
          length-append (flatten σ.log) out,
          length-append σ.log (pieces out),
        );
        receives =
            subst (λ w. Receives (σ.log ++ pieces out) w σ.output σ.receiver) (append-nil σ.writes)
              (Receives-grow σ.log σ.writes σ.output σ.receiver v.receives (pieces out) []);
      }

  write-Inv :
      (σ : Session X) (now : ℕ) (bytes : Bytes)
      → length bytes < 2 ^ 32
      → Inv σ
      → Inv (record σ {
        sender = (insert_to_outbound_stream now σ.sender bytes).0;
        writes = σ.writes ++ bytes ∷ [];
      })
  unfolding insert_to_outbound_stream
  write-Inv σ now bytes size v = record {
    sends = record { numbered = v.sends.numbered; queued = v.sends.queued };
    framed = write-framed now σ.sender σ.log σ.writes bytes v.framed;
    fits = Fits-snoc σ.writes bytes v.fits size;
    small = v.small;
    receives =
        subst (λ l. Receives l (σ.writes ++ bytes ∷ []) σ.output σ.receiver) (append-nil σ.log)
          (Receives-grow σ.log σ.writes σ.output σ.receiver v.receives [] (bytes ∷ []));
  }

  -- A step that leaves the sending side alone.
  receiver-Inv :
      (σ : Session X) (t : VeilidStream X) (output : Bytes)
      → Inv σ
      → Receives σ.log σ.writes output t
      → Inv (record σ { receiver = t; output = output })
  receiver-Inv σ t output v r = record {
    sends = v.sends;
    framed = v.framed;
    fits = v.fits;
    small = v.small;
    receives = r;
  }

  -- A step that leaves the receiving side alone, and the stream that waits to be cut.
  sender-Inv :
      (σ : Session X) (t : VeilidStream X)
      → Inv σ
      → Sends σ.log t
      → t.outbound_stream ≡ σ.sender.outbound_stream
      → Inv (record σ { sender = t })
  sender-Inv σ t v sends same = record {
    sends = sends;
    framed = ap (λ out. flatten σ.log ++ out) same ∙ v.framed;
    fits = v.fits;
    small = v.small;
    receives = v.receives;
  }

  Setter-outbound_stream :
      {s t : VeilidStream X} → Setter s t → t.outbound_stream ≡ s.outbound_stream
  unfolding Stream.update_status Stream.update_remote_stream_id Stream.update_remote_public_key
      Stream.update_inbound_last_timestamp_to_now Stream.update_outbound_last_timestamp_to_now
      register
  Setter-outbound_stream (status st) = refl
  Setter-outbound_stream _ = refl

  Step-Inv : {σ τ : Session X} → Step σ τ → HeadersWhole τ.log → Inv σ → Inv τ
  Step-Inv {σ} (write now bytes size) headers v = write-Inv σ now bytes size v
  Step-Inv {σ} (generate room) headers v = generate-Inv σ room v
  Step-Inv {σ} (send r now) headers v =
      sender-Inv σ _ v (send_messages-Sends σ.log r now σ.sender v.sends)
        (send_messages-outbound_stream r now σ.sender)
  Step-Inv {σ} (acknowledge delivered_seq) headers v =
      sender-Inv σ _ v (acknowledge-Sends σ.log delivered_seq σ.sender v.sends)
        (acknowledge-outbound_stream delivered_seq σ.sender)
  Step-Inv {σ} (deliver now delivered_seq seq bytes p) headers v =
      receiver-Inv σ (recv_message now σ.receiver delivered_seq seq bytes).0 σ.output v (
        recv_message-Receives σ.log σ.writes σ.output (written σ v) now delivered_seq seq bytes
          σ.receiver headers p v.receives)
  Step-Inv {σ} (read buf) headers v =
      receiver-Inv σ (read_inbound_stream σ.receiver buf).0 _ v
        (read-Receives σ.log σ.writes σ.output σ.receiver v.receives buf)
  Step-Inv {σ} (hear now delivered_seq seq bytes) headers v =
      let (sends, same) = recv_message-Sends σ.log now delivered_seq seq σ.sender bytes v.sends in
      sender-Inv σ _ v sends same
  Step-Inv {σ} (consume buf) headers v =
      let (sends, same) = read-Sends σ.log σ.sender buf v.sends in sender-Inv σ _ v sends same
  Step-Inv {σ} (talk {t} said) headers v =
      receiver-Inv σ t σ.output v (Talk-Receives said v.receives)
  Step-Inv {σ} (set_sender {t} st) headers v =
      sender-Inv σ t v (Setter-Sends st v.sends) (Setter-outbound_stream st)
  Step-Inv {σ} (set_receiver {t} st) headers v =
      receiver-Inv σ t σ.output v (Setter-Receives st v.receives)

  -- Two new streams have sent and received nothing.
  IsFresh-Inv : (σ : Session X) → IsFresh σ → Inv σ
  unfolding frames
  IsFresh-Inv σ f = record {
    sends = record {
      numbered = f.sender_seq ∙ ap length (sym f.no_log);
      queued = λ k m h. absurd (nothing_under k σ.sender.outbound_message_queue f.sender_queue h);
    };
    framed = ap₂ (λ l out. flatten l ++ out) f.no_log f.sender_stream ∙ ap frames (sym f.no_writes);
    fits = subst Fits (sym f.no_writes) tt;
    small = subst (λ l. length l < 2 ^ 32) (sym f.no_log) (omega arith);
    receives = record {
      whole = [];
      more = [];
      within = omega (arith, f.receiver_seq);
      stored =
          λ k b h. absurd (nothing_under k σ.receiver.inbound_message_queue f.receiver_queue h);
      joined = sym f.no_writes;
      received =
          f.receiver_buffer ∙ ap₂ (λ n l. flatten (take n l)) (sym f.receiver_seq) (sym f.no_log);
      readable = ap₂ (λ out stream. out ++ stream) f.no_output f.receiver_stream;
      incomplete = subst IsIncomplete (sym f.receiver_buffer) tt;
    };
  }

  -- Every session that two new streams reach, while no message ends inside a slice's header.
  pub Reach-Inv : {σ τ : Session X} → IsFresh σ → Reach σ τ → HeadersWhole τ.log → Inv τ
  Reach-Inv {σ} f here headers = IsFresh-Inv σ f
  Reach-Inv {τ = τ} f (next {τ = υ} reach step) headers =
      let (new, grown) = Step-log step in
      Step-Inv step headers
        (Reach-Inv f reach (HeadersWhole-front υ.log new (subst HeadersWhole grown headers)))
