-- ===== src/IoUring/Driver/Slots.antt =====
-- `complete`: each slot that the kernel hands back becomes a frame or goes back to the kernel.
use polaris_trade.Base.{
  ℕ, ◌+◌, ◌≡◌, ◌⊎◌, Bool, leb, Option, none, some, List, [], ◌∷◌, ◌++◌, ◌==◌, if◌then◌else◌, length,
}
use polaris_trade.Base.Weigh.{weigh}
use polaris_trade.Base.Result.{Result, ok, err}
use polaris_trade.Transport.Error.{TransportError, IoErrorKind}
use polaris_trade.Transport.Batch.{FrameBatch, spare}
use polaris_trade.Transport.IndexPool.{IndexFrame}
use polaris_trade.IoUring.Completion.{
  plus, minus, Completion, data_in, truncated_in, empty, no_buffers, failed,
}
use polaris_trade.IoUring.Driver.{Uring, Cqe, ud_recv}

-- The slot that a completion hands back, and the frame that it delivers.
abbrev pub slot_in : Completion → List ℕ
slot_in (data_in slot len rearm) = slot ∷ []
slot_in (truncated_in slot rearm) = slot ∷ []
slot_in (empty rearm) = []
slot_in no_buffers = []
slot_in (failed errno) = []

abbrev pub frame_in : Completion → List IndexFrame
frame_in (data_in slot len rearm) = record { slot = slot; offset = 0; len = len } ∷ []
frame_in (truncated_in slot rearm) = []
frame_in (empty rearm) = []
frame_in no_buffers = []
frame_in (failed errno) = []

module _ (more : ℕ → Bool) (buffer_select : ℕ → Option ℕ) (kind_of : ℕ → IoErrorKind) where
  -- What a completion of a recv hands back: the buffer that its flags name, if the recv did not fail.
  abbrev pub slot_of : Cqe → List ℕ
  slot_of cqe = elim cqe.result [
    | minus errno ↦ []
    | plus n ↦ elim (buffer_select cqe.flags) [ none ↦ [] | some slot ↦ slot ∷ [] ]
  ]

  -- And the datagram that it delivers, if that fits a slot of `size` bytes.
  abbrev pub frame_of : ℕ → Cqe → List IndexFrame
  frame_of size cqe = elim cqe.result [
    | minus errno ↦ []
    | plus n ↦ elim (buffer_select cqe.flags) [
      | none ↦ []
      | some slot ↦ if leb n size then record { slot = slot; offset = 0; len = n } ∷ [] else []
    ]
  ]

  -- Over completions; those of other requests do neither.
  abbrev pub slots_in : List Cqe → List ℕ
  slots_in [] = []
  slots_in (cqe ∷ cqes) = (if cqe.user_data == ud_recv then slot_of cqe else []) ++ slots_in cqes

  abbrev pub frames_in : ℕ → List Cqe → List IndexFrame
  frames_in size [] = []
  frames_in size (cqe ∷ cqes) =
      (if cqe.user_data == ud_recv then frame_of size cqe else []) ++ frames_in size cqes

  -- From `d` to `d'` these slots came back and these frames were pushed.
  pub record Settles (d d' : Uring) (out out' : FrameBatch IndexFrame) (pushed pushed' : ℕ)
      (slots : List ℕ) (fs : List IndexFrame) : Type 0 where
    pub same_size : d'.slot_size ≡ d.slot_size
    pub same_path : d'.path ≡ d.path
    pub moved :
        (w : ℕ → ℕ)
        → weigh (λ f. w f.slot) d'.pool.live + weigh w d'.back
          ≡ weigh (λ f. w f.slot) d.pool.live + weigh w d.back + weigh w slots
    pub pushes : out'.frames ≡ out.frames ++ fs
    pub counts : pushed' ≡ pushed + length fs

  abbrev pub Answered : Result TransportError ℕ → ℕ → FrameBatch IndexFrame → List Cqe → Type 0
  Answered (ok n) total out rest = (n ≡ total) × ((spare out ≡ 0) ⊎ (rest ≡ []))
  Answered (err e) total out rest = Unit

  pub record Completes (d : Uring) (out : FrameBatch IndexFrame) (pushed taken : ℕ)
      (cqes : List Cqe) (result : Result TransportError ℕ × Uring × FrameBatch IndexFrame × ℕ)
      : Type 0 where
    pub seen : List Cqe
    pub rest : List Cqe
    pub total : ℕ
    pub split : cqes ≡ seen ++ rest
    pub took : result.3 ≡ taken + length seen
    pub settled :
        Settles d result.1 out result.2 pushed total (slots_in seen) (frames_in d.slot_size seen)
    pub answered : Answered result.0 total result.2 rest
