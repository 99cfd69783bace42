-- ===== src/Moldudp/Receiver/Outcome.antt =====
-- `retire_current`, `yield_item`, `yield_owned` of crates/clients/moldudp/src/receiver/decode.rs:
-- ready items into what the caller gets. `none` is the panic of a slice out of range.
use polaris_trade.Base.{
  ℕ, ◌+◌, ◌%◌, ◌^◌, u64_max, Option, none, some, List, leb, ◌==◌, if◌then◌else◌, length, slice,
}
use polaris_trade.Base.Result.{Result, ok, err}
use polaris_trade.Moldudp.Error.{MoldUdpError, gap_detected}
use polaris_trade.Moldudp.Receiver.{
  held_bytes, MessageView, MoldUdpEvent, ReadyItem, inline, view, event, gap, empty_backing, share,
  backing_bytes, Inner,
}

-- `Frame` and `OwnedFrame`
pub record Frame : Type 0 where
  pub payload : List ℕ
  pub sequence : ℕ
  pub stream_id : ℕ

pub record OwnedFrame : Type 0 where
  pub view : MessageView
  pub sequence : ℕ
  pub stream_id : ℕ

pub data MoldUdpOutcome : Type 0 where
  frame_outcome : Frame → MoldUdpOutcome
  owned_outcome : OwnedFrame → MoldUdpOutcome
  event_outcome : MoldUdpEvent → MoldUdpOutcome

-- `&bytes[offset..offset + len]`
unfoldable pub checked_slice : List ℕ → ℕ → ℕ → Option (List ℕ)
checked_slice bytes offset len =
    if leb (offset + len) (length bytes) then some (slice bytes offset len) else none

-- `release_inline`; the difference wraps round.
unfoldable pub release_inline : Inner → Inner
release_inline r =
    let pending = (r.inline_pending + u64_max) % 2 ^ 64 in
    if pending == 0
    then record r { inline_pending = 0; backing = empty_backing }
    else record r { inline_pending = pending }

unfoldable pub retire_current : Inner → Inner
retire_current r = elim r.current [
  | some (inline sequence stream_id offset len) ↦ release_inline (record r { current = none })
  | _ ↦ record r { current = none }
]

-- `yield_item`: the item becomes the current one, and the outcome borrows from it.
unfoldable pub yield_item : Inner → ReadyItem → Option (Result MoldUdpError MoldUdpOutcome) × Inner
yield_item r item =
    let r' : Inner = record r { current = some item } in
    elim item [
      | inline sequence stream_id offset len ↦
          elim (checked_slice (backing_bytes r.backing) offset len) [
            | none ↦ (none, r')
            | some payload ↦ (
              some (
                  ok (
                    frame_outcome
                      (record { payload = payload; sequence = sequence; stream_id = stream_id }))),
              r',
            )
          ]
      | view v sequence stream_id ↦ elim (checked_slice (held_bytes v.datagram) v.offset v.len) [
        | none ↦ (none, r')
        | some payload ↦ (
          some (
              ok (
                frame_outcome
                  (record { payload = payload; sequence = sequence; stream_id = stream_id }))),
          r',
        )
      ]
      | event ev ↦ (some (ok (event_outcome ev)), r')
      | gap ↦ (some (err gap_detected), r')
    ]

-- `yield_owned`
unfoldable pub yield_owned : Inner → ReadyItem → Result MoldUdpError MoldUdpOutcome × Inner
yield_owned r (inline sequence stream_id offset len) =
    let (backing, arc) = share r.backing in
    (
      ok (
          owned_outcome (record {
            view = record { datagram = arc; offset = offset; len = len };
            sequence = sequence;
            stream_id = stream_id;
          })),
      release_inline (record r { backing = backing }),
    )
yield_owned r (view v sequence stream_id) =
    (ok (owned_outcome (record { view = v; sequence = sequence; stream_id = stream_id })), r)
yield_owned r (event ev) = (ok (event_outcome ev), r)
yield_owned r gap = (err gap_detected, r)
