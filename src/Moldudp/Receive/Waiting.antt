-- ===== src/Moldudp/Receive/Waiting.antt =====
-- How many datagrams wait, from step to step.
use polaris_trade.Base.{
  ℕ, suc, ◌+◌, ◌-◌, ◌<◌, ◌≡◌, ◌⊎◌, ◌∙◌, refl, ap, true, false, Option, List, [], ◌∷◌, inl, inr,
  arith, length, length-append, Bool-cases, Option-cases,
}
use polaris_trade.Base.Result.{Result-cases}
use polaris_trade.Moldudp.Wire.{DownstreamHeader, kind, parse_header}
use polaris_trade.Moldudp.Receiver.{
  Held, held_bytes, Inner, event, heartbeat_event, end_of_session_event, same_bytes, anchor,
  accept_header, record_confirmed, drain_confirmed_gaps,
}
use polaris_trade.Moldudp.Receiver.Decode.{process_datagram, process_next_pending}
use polaris_trade.Moldudp.Receiver.Process.{kind_cases}
use polaris_trade.Moldudp.Receive.{is_none_left, tagged, queue_datagrams}
use polaris_trade.Moldudp.Receive.Kept.{process_data-queue_of, process_control-queue_of}
use polaris_trade.Moldudp.Receive.Numbered.{decoded_by, decoded_by-process_next_pending}

-- The datagrams that wait.
abbrev pub waiting : Inner → ℕ
waiting r = length r.pending_datagrams

accept_header-waiting :
    (r : Inner) (h : DownstreamHeader)
    → (accept_header r h).1.pending_datagrams ≡ r.pending_datagrams
unfolding accept_header anchor
accept_header-waiting r h = elim (Option-cases r.session) [
  | inl e ↦ elim (Bool-cases r.seq_anchored) [
    | inl b ↦ rw (e, b, accept_header) refl
    | inr b ↦ rw (e, b, accept_header, anchor) refl
  ]
  | inr (expected, e) ↦ elim (Bool-cases (same_bytes expected h.session)) [
    | inl same ↦ elim (Bool-cases r.seq_anchored) [
      | inl b ↦ rw (e, same, b, accept_header) refl
      | inr b ↦ rw (e, same, b, accept_header, anchor) refl
    ]
    | inr other ↦ rw (e, other, accept_header) refl
  ]
]

process_datagram-waiting :
    (r : Inner) (stream : ℕ) (datagram : Held) (now : Option ℕ)
    → (process_datagram r stream datagram now).1.pending_datagrams ≡ r.pending_datagrams
unfolding process_datagram
process_datagram-waiting r stream datagram now =
    elim (Result-cases (parse_header (held_bytes datagram))) [
      | inr (x, bad) ↦ rw (bad, process_datagram) refl
      | inl (h, good) ↦
          let r' = (accept_header r h).1 in
          let same = accept_header-waiting r h in
          elim (Result-cases (accept_header r h).0) [
            | inr (x, refused) ↦ rw (good, refused, process_datagram) same
            | inl (u, accepted) ↦ elim (kind_cases (kind h)) [
              | inl k ↦
                  rw (good, accepted, k, process_datagram)
                    (ap (λ q. q.0)
                        (process_control-queue_of r' (event (heartbeat_event h.sequence))
                          h.sequence)
                      ∙ same)
              | inr (inl k) ↦
                  rw (good, accepted, k, process_datagram)
                    (ap (λ q. q.0)
                        (process_control-queue_of r' (event (end_of_session_event h.sequence))
                          h.sequence)
                      ∙ same)
              | inr (inr k) ↦
                  rw (good, accepted, k, process_datagram)
                    (ap (λ q. q.0) (process_data-queue_of r' stream datagram h now) ∙ same)
            ]
          ]
    ]

pub process_next_pending-waiting :
    (r : Inner) (now : Option ℕ) → waiting (process_next_pending r now).1 ≡ waiting r - 1
process_next_pending-waiting r now =
    ap waiting (decoded_by-process_next_pending r now) ∙ by_queue r.pending_datagrams refl
  where
    by_queue :
        (queue : List (ℕ × Held))
        → r.pending_datagrams ≡ queue
        → waiting (decoded_by r now queue) ≡ length queue - 1
    by_queue [] e = ap length e
    by_queue ((stream, datagram) ∷ rest) e = omega (
      arith,
      ap length
          (process_datagram-waiting (record r { pending_datagrams = rest }) stream datagram now),
    )

record_confirmed-waiting :
    (seqs : List ℕ) (r : Inner) → waiting (record_confirmed r seqs) ≡ waiting r
unfolding record_confirmed
record_confirmed-waiting [] r = refl
record_confirmed-waiting (seq ∷ seqs) r = record_confirmed-waiting seqs _

pub drain_confirmed_gaps-waiting :
    (r : Inner) (now : ℕ) → waiting (drain_confirmed_gaps r now) ≡ waiting r
unfolding drain_confirmed_gaps
drain_confirmed_gaps-waiting r now = elim (Option-cases r.arbiter) [
  | inl e ↦ rw (e, drain_confirmed_gaps) refl
  | inr (a, e) ↦ rw (e, drain_confirmed_gaps) (record_confirmed-waiting _ _)
]

length-tagged :
    (stream : ℕ) (hold : List ℕ → Held) (frames : List (List ℕ))
    → length (tagged stream hold frames) ≡ length frames
length-tagged stream hold [] = refl
length-tagged stream hold (bytes ∷ frames) = ap suc (length-tagged stream hold frames)

pub queue_datagrams-waiting :
    (r : Inner) (stream : ℕ) (hold : List ℕ → Held) (frames : List (List ℕ))
    → waiting (queue_datagrams r (tagged stream hold frames)) ≡ waiting r + length frames
queue_datagrams-waiting r stream hold frames = omega (
  arith,
  length-append r.pending_datagrams (tagged stream hold frames),
  length-tagged stream hold frames,
)

pub frames_cases :
    (frames : List (List ℕ))
    → ((frames ≡ []) × (length frames ≡ 0) × (is_none_left frames ≡ true))
      ⊎ ((0 < length frames) × (is_none_left frames ≡ false))
frames_cases [] = inl (refl, refl, refl)
frames_cases (x ∷ xs) = inr (omega arith, refl)
