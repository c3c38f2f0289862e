-- ===== src/Gateway/Commands/Batch.antt =====
-- What a batch of commands is answered with.
use mathlib.Core.List.{append-nil, append_assoc, map-append}
use charge_pulse.Prelude.{
  String, Bool, true, false, Option, List, [], ◌∷◌, ◌++◌, map, ◌≡◌, refl, sym, ap, ◌∙◌, inl, inr,
  get_or, All,
}
use charge_pulse.Database.Events.{Value}
use charge_pulse.Gateway.Server.{Handler}
use charge_pulse.Gateway.Commands.{
  Attempt, Params, Call, Message, Reply, Sent, answer, dispatch, run_messages,
}

module _ (parse_params : String → Attempt Params) (int_of : Value → Attempt Value)
    (call : Handler → Call → Attempt Value) (connected : String → Option Handler)
    (cp_id : String) where
  -- the parameters of the message can be read
  abbrev pub IsReadable : Message → Type 0
  IsReadable m = (p : Params) × (parse_params (get_or m.params "{}") ≡ inr p)

  -- the replies are one for each message, under its request id
  abbrev pub request_of : Message → String
  request_of m = get_or m.request_id m.msg_id

  reply_to : Message → Params → Reply
  reply_to m p = record {
    cp_id = cp_id;
    request_id = request_of m;
    outcome = answer parse_params int_of call (connected cp_id) m.action p;
  }

  run_readable :
      (m : Message) (ms : List Message) (sent : Sent) (p : Params)
      → parse_params (get_or m.params "{}") ≡ inr p
      → run_messages parse_params int_of call connected cp_id (m ∷ ms) sent
        ≡ run_messages parse_params int_of call connected cp_id ms (record {
          replies = sent.replies ++ reply_to m p ∷ [];
          acked = sent.acked ++ m.msg_id ∷ [];
        })
  unfolding run_messages dispatch reply_to
  run_readable m ms sent p e = rw (e, run_messages, dispatch) refl

  run_unreadable :
      (m : Message) (ms : List Message) (sent : Sent) (e : String)
      → parse_params (get_or m.params "{}") ≡ inl e
      → run_messages parse_params int_of call connected cp_id (m ∷ ms) sent
        ≡ (record sent { acked = sent.acked ++ m.msg_id ∷ [] }, true)
  unfolding run_messages dispatch
  run_unreadable m ms sent e q = rw (q, run_messages, dispatch) refl

  abbrev pub ids : List Message → List String
  ids ms = map (λ (m : Message). m.msg_id) ms

  abbrev pub request_ids : List Reply → List String
  request_ids rs = map (λ (r : Reply). r.request_id) rs

  -- the batch has gone through `answered`, acknowledged `done`, and raised or not
  record Went (sent : Sent) (done answered : List Message) (raised : Bool) (r : Sent × Bool)
      : Type 0 where
    ended : r.1 ≡ raised
    acks : r.0.acked ≡ sent.acked ++ ids done
    answers : request_ids r.0.replies ≡ request_ids sent.replies ++ map request_of answered

  Went-cons :
      (m : Message) (done answered : List Message) (sent : Sent) (p : Params) (raised : Bool)
      (r : Sent × Bool)
      → Went
          (record {
            replies = sent.replies ++ reply_to m p ∷ [];
            acked = sent.acked ++ m.msg_id ∷ [];
          })
          done
          answered
          raised
          r
      → Went sent (m ∷ done) (m ∷ answered) raised r
  unfolding reply_to
  Went-cons m done answered sent p raised r h = record {
    ended = h.ended;
    acks = h.acks ∙ append_assoc sent.acked (m.msg_id ∷ []) (ids done);
    answers =
        h.answers
        ∙ (ap (λ l. l ++ map request_of answered)
              (map-append (λ (x : Reply). x.request_id) sent.replies (reply_to m p ∷ []))
            ∙ append_assoc (request_ids sent.replies) (request_of m ∷ [])
                (map request_of answered));
  }

  Went-All :
      (ms : List Message) (sent : Sent)
      → All IsReadable ms
      → Went sent ms ms false (run_messages parse_params int_of call connected cp_id ms sent)
  unfolding run_messages
  Went-All [] sent readable = record {
    ended = refl;
    acks = sym (append-nil sent.acked);
    answers = sym (append-nil (request_ids sent.replies));
  }
  Went-All (m ∷ ms) sent readable =
      let (p, e) = readable.0 in
      rw (run_readable m ms sent p e) (Went-cons m ms ms sent p false _ (Went-All ms _ readable.1))

  -- Messages whose parameters are JSON are all answered and acknowledged, each once and in their
  -- order, each reply under the request id of its message, whether the charger is connected, the
  -- action supported and the call answered or not. The batch goes on.
  pub run_messages-All :
      (ms : List Message) (sent : Sent)
      → All IsReadable ms
      → ((run_messages parse_params int_of call connected cp_id ms sent).1 ≡ false)
        × ((run_messages parse_params int_of call connected cp_id ms sent).0.acked
            ≡ sent.acked ++ ids ms)
        × (request_ids (run_messages parse_params int_of call connected cp_id ms sent).0.replies
            ≡ request_ids sent.replies ++ map request_of ms)
  run_messages-All ms sent readable =
      let r = Went-All ms sent readable in (r.ended, r.acks, r.answers)

  Went-stop :
      (ms : List Message) (bad : Message) (rest : List Message) (sent : Sent) (e : String)
      → All IsReadable ms
      → parse_params (get_or bad.params "{}") ≡ inl e
      → Went sent
          (ms ++ bad ∷ [])
          ms
          true
          (run_messages parse_params int_of call connected cp_id (ms ++ bad ∷ rest) sent)
  Went-stop [] bad rest sent e readable q =
      rw (run_unreadable bad rest sent e q) (record {
        ended = refl;
        acks = refl;
        answers = sym (append-nil (request_ids sent.replies));
      })
  Went-stop (m ∷ ms) bad rest sent e readable q =
      let (p, ok) = readable.0 in
      rw (run_readable m (ms ++ bad ∷ rest) sent p ok)
        (Went-cons m (ms ++ bad ∷ []) ms sent p true _ (Went-stop ms bad rest _ e readable.1 q))

  -- A message whose parameters are no JSON ends the batch: the messages before it are answered, it is
  -- acknowledged without an answer, and the messages behind it, whatever they are, are neither
  -- answered nor acknowledged.
  pub run_messages_stop :
      (ms : List Message) (bad : Message) (rest : List Message) (sent : Sent) (e : String)
      → All IsReadable ms
      → parse_params (get_or bad.params "{}") ≡ inl e
      → ((run_messages parse_params int_of call connected cp_id (ms ++ bad ∷ rest) sent).1 ≡ true)
        × ((run_messages parse_params int_of call connected cp_id (ms ++ bad ∷ rest) sent).0.acked
            ≡ sent.acked ++ ids (ms ++ bad ∷ []))
        × (request_ids
              (run_messages parse_params int_of call connected cp_id
                (ms ++ bad ∷ rest)
                sent).0.replies
            ≡ request_ids sent.replies ++ map request_of ms)
  run_messages_stop ms bad rest sent e readable q =
      let r = Went-stop ms bad rest sent e readable q in (r.ended, r.acks, r.answers)
