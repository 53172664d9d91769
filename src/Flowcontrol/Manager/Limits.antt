-- ===== src/Flowcontrol/Manager/Limits.antt =====
-- How the streams' received bytes are counted against the connection.
use mpquic_latency.Base.{
  ℕ, ◌+◌, ◌<◌, ◌≤◌, ◌^◌, ◌≡◌, refl, true, false, ◌==◌, if◌then◌else◌, List, [], ◌∷◌, sym, Option,
  none, some, Bool-cases, inl, inr, arith,
}
use mpquic_latency.Flowcontrol.Controller.{
  FlowController, update_highest_received, increment_highest_received, check_flow_control_violation,
}
use mpquic_latency.Flowcontrol.Manager.{
  FlowControlManager, find, store, get_flow_controller, received_on, highest_found, the_increment,
  update_stream_highest_received,
}

-- The received bytes of a stream that count against the connection.
unfoldable pub share : FlowController → ℕ
share c = if c.contributes_to_connection then c.highest_received else 0

unfoldable pub shares : List (ℕ × FlowController) → ℕ
unfolding share
shares [] = 0
shares ((k, c) ∷ cs) = share c + shares cs

-- The streams' shares are counted by the connection.
pub record IsCounted (m : FlowControlManager) : Type 0 where
  pub shares_counted : shares m.stream_flow_controller ≤ m.conn_flow_controller.highest_received

pub find-store :
    (id : ℕ) (c d : FlowController) (cs : List (ℕ × FlowController))
    → find id cs ≡ some c
    → find id (store id d cs) ≡ some d
unfolding find store
find-store id c d [] e = ground arith
find-store id c d ((k, x) ∷ cs) e = elim (Bool-cases (k == id)) [
  | inl t ↦ ground arith
  | inr t ↦ ground (arith, find-store id c d cs)
]

shares-store :
    (id : ℕ) (c d : FlowController) (cs : List (ℕ × FlowController))
    → find id cs ≡ some c
    → shares (store id d cs) + share c ≡ shares cs + share d
unfolding find store shares
shares-store id c d [] e = ground arith
shares-store id c d ((k, x) ∷ cs) e = elim (Bool-cases (k == id)) [
  | inl t ↦ ground arith
  | inr t ↦ ground (arith, shares-store id c d cs)
]

-- What the connection knows after data up to `offset` was accepted on stream `id`.
pub record Accepted (id offset : ℕ) (m : FlowControlManager) : Type 0 where
  pub stream : FlowController
  pub found : find id m.stream_flow_controller ≡ some stream
  pub reached : offset ≤ stream.highest_received
  pub in_window : stream.highest_received ≤ stream.receive_window
  pub conn_in_window :
      stream.contributes_to_connection ≡ true
      → m.conn_flow_controller.highest_received ≤ m.conn_flow_controller.receive_window
  pub counted : shares m.stream_flow_controller ≤ m.conn_flow_controller.highest_received

within :
    (c : FlowController)
    → check_flow_control_violation c ≡ false
    → c.highest_received ≤ c.receive_window
unfolding check_flow_control_violation
within c e = ground arith

counted_on : ℕ → ℕ → FlowController → FlowControlManager → FlowControlManager
counted_on id increment d m = record {
  stream_flow_controller = store id d m.stream_flow_controller;
  conn_flow_controller = increment_highest_received increment m.conn_flow_controller;
}

received_on_counted :
    (id increment : ℕ) (d : FlowController) (m : FlowControlManager)
    → check_flow_control_violation d ≡ false
    → d.contributes_to_connection ≡ true
    → check_flow_control_violation (increment_highest_received increment m.conn_flow_controller)
      ≡ false
    → received_on id increment d m ≡ (none, counted_on id increment d m)
unfolding received_on counted_on
received_on_counted id increment d m x y z = ground arith

received_on_apart :
    (id increment : ℕ) (d : FlowController) (m : FlowControlManager)
    → check_flow_control_violation d ≡ false
    → d.contributes_to_connection ≡ false
    → received_on id increment d m
      ≡ (none, record m { stream_flow_controller = store id d m.stream_flow_controller })
unfolding received_on
received_on_apart id increment d m x y = ground arith

refused {ℓ} :
    {A : Type ℓ}
    → (id increment : ℕ) (d : FlowController) (m : FlowControlManager)
    → check_flow_control_violation d ≡ true
    → (received_on id increment d m).0 ≡ none
    → A
unfolding received_on
refused id increment d m x e = ground arith

conn_refused {ℓ} :
    {A : Type ℓ}
    → (id increment : ℕ) (d : FlowController) (m : FlowControlManager)
    → check_flow_control_violation d ≡ false
    → d.contributes_to_connection ≡ true
    → check_flow_control_violation (increment_highest_received increment m.conn_flow_controller)
      ≡ true
    → (received_on id increment d m).0 ≡ none
    → A
unfolding received_on
conn_refused id increment d m x y z e = ground arith

counted_accepts :
    (id offset increment : ℕ) (c d : FlowController) (m : FlowControlManager)
    → find id m.stream_flow_controller ≡ some c
    → d.contributes_to_connection ≡ c.contributes_to_connection
    → d.highest_received ≡ c.highest_received + increment
    → offset ≤ d.highest_received
    → m.conn_flow_controller.highest_received + increment < 2 ^ 64
    → IsCounted m
    → check_flow_control_violation d ≡ false
    → check_flow_control_violation (increment_highest_received increment m.conn_flow_controller)
      ≡ false
    → Accepted id offset (counted_on id increment d m)
unfolding counted_on share increment_highest_received
counted_accepts id offset increment c d m f t h o b v x z = record {
  stream = d;
  found = find-store id c d m.stream_flow_controller f;
  reached = o;
  in_window = within d x;
  conn_in_window = λ _. within _ z;
  counted = ground (arith, shares-store id c d m.stream_flow_controller f);
}

apart_accepts :
    (id offset : ℕ) (c d : FlowController) (m : FlowControlManager)
    → find id m.stream_flow_controller ≡ some c
    → d.contributes_to_connection ≡ c.contributes_to_connection
    → offset ≤ d.highest_received
    → IsCounted m
    → check_flow_control_violation d ≡ false
    → d.contributes_to_connection ≡ false
    → Accepted id offset (record m { stream_flow_controller = store id d m.stream_flow_controller })
unfolding share
apart_accepts id offset c d m f t o v x y = record {
  stream = d;
  found = find-store id c d m.stream_flow_controller f;
  reached = o;
  in_window = within d x;
  conn_in_window = λ w. ground arith;
  counted = ground (arith, shares-store id c d m.stream_flow_controller f);
}

received_on_accepts :
    (id offset increment : ℕ) (c d : FlowController) (m : FlowControlManager)
    → find id m.stream_flow_controller ≡ some c
    → d.contributes_to_connection ≡ c.contributes_to_connection
    → d.highest_received ≡ c.highest_received + increment
    → offset ≤ d.highest_received
    → m.conn_flow_controller.highest_received + increment < 2 ^ 64
    → IsCounted m
    → (received_on id increment d m).0 ≡ none
    → Accepted id offset (received_on id increment d m).1
received_on_accepts id offset increment c d m f t h o b v e =
    elim (Bool-cases (check_flow_control_violation d)) [
      | inl x ↦ refused id increment d m x e
      | inr x ↦ elim (Bool-cases d.contributes_to_connection) [
        | inl y ↦
            elim (Bool-cases (
              check_flow_control_violation
                (increment_highest_received increment m.conn_flow_controller))) [
                  | inl z ↦ conn_refused id increment d m x y z e
                  | inr z ↦
                      rw (received_on_counted id increment d m x y z)
                        (counted_accepts id offset increment c d m f t h o b v x z)
                ]
        | inr y ↦
            rw (received_on_apart id increment d m x y) (apart_accepts id offset c d m f t o v x y)
      ]
    ]

highest_found_accepts :
    (id offset : ℕ) (m : FlowControlManager) (found : Option FlowController)
    → found ≡ find id m.stream_flow_controller
    → m.conn_flow_controller.highest_received + offset < 2 ^ 64
    → IsCounted m
    → (highest_found id offset m found).0 ≡ none
    → Accepted id offset (highest_found id offset m found).1
unfolding highest_found the_increment update_highest_received
highest_found_accepts id offset m none f b v e = ground arith
highest_found_accepts id offset m (some c) f b v e =
    received_on_accepts id offset _ c _ m (sym f) (ground arith) (ground arith) (ground arith)
      (ground arith) v e

-- If the connection counts all the bytes of its contributing streams beforehand, and what it has
-- counted plus the offset is below 2 ^ 64: when data up to the offset is accepted, the stream was known,
-- reaches the offset and is within its window, the connection is within its own where the stream
-- contributes to it, and it counts the bytes of its contributing streams again.
pub update_stream_highest_received_accepts :
    (id offset : ℕ) (m : FlowControlManager)
    → m.conn_flow_controller.highest_received + offset < 2 ^ 64
    → IsCounted m
    → (update_stream_highest_received id offset m).0 ≡ none
    → Accepted id offset (update_stream_highest_received id offset m).1
unfolding update_stream_highest_received get_flow_controller
update_stream_highest_received_accepts id offset m b v e =
    highest_found_accepts id offset m (find id m.stream_flow_controller) refl b v e
