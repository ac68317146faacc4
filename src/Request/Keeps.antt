-- ===== src/Request/Keeps.antt =====
-- request.c: what the operations leave as it is. Of the client they change its last error alone.
use zkclient.Prelude.{
  ℕ, ◌≡◌, refl, ap, ◌∙◌, inl, inr, Bool-cases, Option, Option-cases, none, some, List, ◌==◌,
}
use zkclient.CInt.{int_add, to_size, is_negative}
use zkclient.Outcome.{Outcome, returns, undefined}
use zkclient.Host.{Host, malloc}
use zkclient.Archive.{BuffStruct}
use zkclient.Archive.Output.{get_buffer_len}
use zkclient.Client.{ZkClient, World}
use zkclient.Conn.{zk_ok}
use zkclient.Request.Socket.{Net, WriteEvent}
use zkclient.Request.Frame.{
  Response, fill_frame, send_end, send_polled, send_frame, send_request, recv_end, recv_body,
  recv_polled, recv_response,
}
use zkclient.Request.Call.{send_built, recv_sent, take_response}

-- The two clients agree but for the last error.
abbrev pub SameClient : ZkClient → ZkClient → Type 0
SameClient a b = b ≡ record a { last_err = b.last_err }

pub SameClient-trans : (a b c : ZkClient) → SameClient a b → SameClient b c → SameClient a c
SameClient-trans a b c p q = q ∙ ap (λ (x : ZkClient). record x { last_err = c.last_err }) p

-- The call left the client as it was, but for the last error.
abbrev pub Keeps : World → Outcome World → Type 0
Keeps w undefined = Unit
Keeps w (returns rc w') = SameClient w.client w'.client

abbrev pub KeepsResponse : World → Response → Type 0
KeepsResponse w undefined = Unit
KeepsResponse w (returns rc (ia, w')) = SameClient w.client w'.client

send_end-Keeps : (w : World) (o : Outcome (List ℕ × List WriteEvent)) → Keeps w (send_end w o)
unfolding send_end
send_end-Keeps w undefined = tt
send_end-Keeps w (returns rc (sent, writes)) = elim (Bool-cases (rc == zk_ok)) [
  | inl ok ↦ rw ok refl
  | inr bad ↦ rw bad refl
]

send_polled-Keeps :
    (frame : List ℕ) (total : ℕ) (w : World) (p : ℕ × Net) → Keeps w (send_polled frame total w p)
unfolding send_polled
send_polled-Keeps frame total w (rc, net) = elim (Bool-cases (rc == zk_ok)) [
  | inl ok ↦ rw ok (send_end-Keeps (record w { net = net }) _)
  | inr bad ↦ rw bad refl
]

send_request-Keeps : (host : Host) (oa : BuffStruct) (w : World) → Keeps w (send_request host oa w)
unfolding send_request send_frame
send_request-Keeps host oa w = elim (Option-cases (int_add (get_buffer_len oa) 4)) [
  | inl over ↦ rw (over, send_request) tt
  | inr (total, fits) ↦ elim (Option-cases (malloc host (to_size total))) [
    | inl refused ↦ rw (fits, send_request) (rw (refused, send_request) refl)
    | inr (buf, granted) ↦ elim (Option-cases (fill_frame oa (get_buffer_len oa) buf)) [
      | inl outside ↦
          rw (fits, send_request) (rw (granted, send_request) (rw (outside, send_request) tt))
      | inr (frame, filled) ↦
          rw (fits, send_request)
            (rw (granted, send_request)
              (rw (filled, send_request) (send_polled-Keeps frame total w _)))
    ]
  ]
]

pub send_built-Keeps :
    (host : Host) (w : World) (o : Outcome BuffStruct) → Keeps w (send_built host w o)
unfolding send_built
send_built-Keeps host w undefined = tt
send_built-Keeps host w (returns rc oa) = elim (Bool-cases (is_negative rc)) [
  | inl bad ↦ rw bad refl
  | inr ok ↦ rw ok (send_request-Keeps host oa w)
]

recv_end-Keeps :
    (host : Host) (len : ℕ) (w : World) (o : Outcome (Option (List ℕ) × Net))
    → KeepsResponse w (recv_end host len w o)
unfolding recv_end
recv_end-Keeps host len w undefined = tt
recv_end-Keeps host len w (returns rc (buf, net)) = elim (Bool-cases (rc == zk_ok)) [
  | inl ok ↦ rw ok refl
  | inr bad ↦ rw bad refl
]

recv_body-Keeps :
    (host : Host) (w : World) (o : Outcome (List ℕ × Net)) → KeepsResponse w (recv_body host w o)
unfolding recv_body
recv_body-Keeps host w undefined = tt
recv_body-Keeps host w (returns rc (buf, net)) = elim (Bool-cases (rc == zk_ok)) [
  | inl ok ↦ rw ok (recv_end-Keeps host _ (record w { net = net }) _)
  | inr bad ↦ rw bad refl
]

recv_polled-Keeps : (host : Host) (w : World) (p : ℕ × Net) → KeepsResponse w (recv_polled host w p)
unfolding recv_polled
recv_polled-Keeps host w (rc, net) = elim (Bool-cases (rc == zk_ok)) [
  | inl ok ↦ rw ok (recv_body-Keeps host (record w { net = net }) _)
  | inr bad ↦ rw bad refl
]

take_response-Keeps :
    (w : World) (o : Response) → KeepsResponse w o → KeepsResponse w (take_response o)
unfolding take_response
take_response-Keeps w undefined h = tt
take_response-Keeps w (returns rc (some ia, w')) h = h
take_response-Keeps w (returns rc (none, w')) h = h

recv_sent-Keeps :
    (host : Host) (w : World) (o : Outcome World) → Keeps w o → KeepsResponse w (recv_sent host o)
unfolding recv_sent recv_response
recv_sent-Keeps host w undefined h = tt
recv_sent-Keeps host w (returns rc w') h = elim (Bool-cases (rc == zk_ok)) [
  | inl ok ↦
      rw ok
        (take_response-Keeps w _ (through (recv_polled host w' _) (recv_polled-Keeps host w' _)))
  | inr bad ↦ rw bad h
]
  where
    through : (o : Response) → KeepsResponse w' o → KeepsResponse w o
    through undefined k = tt
    through (returns rc' (ia, w'')) k = SameClient-trans w.client w'.client w''.client h k

pub exchange-Keeps :
    (host : Host) (w : World) (o : Outcome BuffStruct)
    → KeepsResponse w (recv_sent host (send_built host w o))
exchange-Keeps host w o = recv_sent-Keeps host w (send_built host w o) (send_built-Keeps host w o)
