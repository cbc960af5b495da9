-- ===== src/Acf/Frame/RoundTrip.antt =====
-- A frame that was encoded, read back.
use mathlib.Core.Option
use go_rcp.Base.{
  ℕ, zero, suc, ◌+◌, ◌%◌, ◌^◌, ◌≤◌, ◌≡◌, refl, ap, some, List, [], ◌∷◌, ◌++◌, map, length,
  length-append, drop-append, All, ltb, ok, data_length_overflow, reject_if, arith, >>=-eq-ok,
  !=_refl,
}
use go_rcp.Avtp.{Header, IsHeader, header_len, wire_len, max_data_length, encode_header}
use go_rcp.Avtp.RoundTrip.{decode_header-encode_header, length-encode_header}
use go_rcp.Avtp.Received
use go_rcp.Acf.{Message, IsMessage, encode_message}
use go_rcp.Acf.Encodable.{received, length-encode_message}
use go_rcp.Acf.RoundTrip.{decode_message_prefix-encode_message}
use go_rcp.Acf.Frame.{encode_messages, encode_frame, prepend, decode_messages, decode_frame}

decode_messages_step :
    (fuel : ℕ) (m : Message) (buf rest : List ℕ)
    → IsMessage m
    → encode_message m ≡ ok buf
    → decode_messages (suc fuel) (buf ++ rest)
      ≡ Option.map (prepend (received m)) (decode_messages fuel rest)
unfolding decode_messages
decode_messages_step fuel m [] rest w e = absurd (omega (arith, length-encode_message m [] e))
decode_messages_step fuel m (b ∷ bs) rest w e =
    rw (decode_message_prefix-encode_message m (b ∷ bs) rest w e, decode_messages)
      (rw (drop-append (b ∷ bs) rest (length (b ∷ bs)) refl))

decode_more :
    (fuel : ℕ) (m : Message) (ms : List Message) (buf more payload : List ℕ)
    → IsMessage m
    → encode_message m ≡ ok buf
    → payload ≡ buf ++ more
    → length payload ≤ fuel
    → ((f : ℕ) → length more ≤ f → decode_messages f more ≡ some (ok (map received ms)))
    → decode_messages fuel payload ≡ some (ok (received m ∷ map received ms))
decode_more zero m ms buf more payload w e p h ih = absurd (
    omega (
      arith,
      length-encode_message m buf e,
      ap (λ (x : List ℕ). length x) p,
      length-append buf more,
    ))
decode_more (suc fuel) m ms buf more payload w e p h ih =
    rw (p, decode_messages_step fuel m buf more w e)
      (rw (
        ih fuel (
          omega (
            arith,
            length-encode_message m buf e,
            ap (λ (x : List ℕ). length x) p,
            length-append buf more,
          ))))

decode_messages-encode_messages :
    (fuel : ℕ) (ms : List Message) (payload : List ℕ)
    → All IsMessage ms
    → encode_messages ms ≡ ok payload
    → length payload ≤ fuel
    → decode_messages fuel payload ≡ some (ok (map received ms))
unfolding encode_messages
decode_messages-encode_messages fuel [] payload w e h = unfold decode_messages in ground arith
decode_messages-encode_messages fuel (m ∷ ms) payload (w, ws) e h =
    let (buf, eb, e') = >>=-eq-ok (encode_message m) _ e in
    let (more, em, e'') = >>=-eq-ok (encode_messages ms) _ e' in
    decode_more fuel m ms buf more payload w eb (ground arith) h
      (λ f hf. decode_messages-encode_messages f ms more ws em hf)

fits_length :
    (n : ℕ) → reject_if (ltb max_data_length n) data_length_overflow ≡ ok tt → n % 2 ^ 16 ≡ n
fits_length n e = ground arith

abbrev sent_header : Header → List ℕ → Header
sent_header h payload = record h { data_length = length payload % 2 ^ 16 }

sent_header-IsHeader :
    (h : Header) (payload : List ℕ) → IsHeader h → IsHeader (sent_header h payload)
sent_header-IsHeader h payload w = ground arith

decode_sent :
    (h : Header) (ms : List Message) (bytes payload : List ℕ)
    → IsHeader h
    → All IsMessage ms
    → length payload % 2 ^ 16 ≡ length payload
    → encode_messages ms ≡ ok payload
    → encode_header (sent_header h payload) ≡ ok bytes
    → decode_frame (bytes ++ payload)
      ≡ some (
          ok (record {
            header = Received.received (sent_header h payload);
            messages = map received ms;
          }))
unfolding Received.received decode_frame
decode_sent h ms bytes payload w ws n ep eh =
    rw
      (
        decode_header-encode_header (sent_header h payload) bytes payload
            (sent_header-IsHeader h payload w) eh,
        decode_frame,
      )
      (rw (n, !=_refl (length payload))
        (rw (decode_messages-encode_messages (length payload) ms payload ws ep (omega arith)) refl))

sent_frame :
    (h : Header) (ms : List Message) (bytes payload buf : List ℕ)
    → IsHeader h
    → All IsMessage ms
    → length payload % 2 ^ 16 ≡ length payload
    → encode_messages ms ≡ ok payload
    → encode_header (sent_header h payload) ≡ ok bytes
    → bytes ++ payload ≡ buf
    → (n : ℕ) × (decode_frame buf
        ≡ some (
            ok (record {
              header = Received.received (record h { data_length = n });
              messages = map received ms;
            })))
      × (length buf ≡ n + header_len h.timed)
unfolding wire_len
sent_frame h ms bytes payload buf w ws n ep eh eq = (
  length payload % 2 ^ 16,
  rw (← eq) (decode_sent h ms bytes payload w ws n ep eh),
  rw (← eq) (
      omega (
        arith,
        n,
        length-append bytes payload,
        length-encode_header (sent_header h payload) bytes (sent_header-IsHeader h payload w) eh,
      )),
)

-- A frame that `encode_frame` accepts is read back: the header up to what its wire form does not
-- carry and with the length of the payload, and every message, in order.
pub decode_frame-encode_frame :
    (h : Header) (ms : List Message) (buf : List ℕ)
    → IsHeader h
    → All IsMessage ms
    → encode_frame h ms ≡ ok buf
    → (n : ℕ) × (decode_frame buf
        ≡ some (
            ok (record {
              header = Received.received (record h { data_length = n });
              messages = map received ms;
            })))
      × (length buf ≡ n + header_len h.timed)
unfolding encode_frame wire_len
decode_frame-encode_frame h ms buf w ws e =
    let (payload, ep, e1) = >>=-eq-ok (encode_messages ms) _ e in
    let (_, er, e2) =
      >>=-eq-ok (reject_if (ltb max_data_length (length payload)) data_length_overflow) _ e1 in
    let (bytes, eh, e3) = >>=-eq-ok (encode_header (sent_header h payload)) _ e2 in
    let n = fits_length (length payload) er in
    sent_frame h ms bytes payload buf w ws n ep eh (ground arith)
