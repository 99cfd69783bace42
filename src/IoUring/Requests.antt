-- ===== src/IoUring/Requests.antt =====
-- What the kernel says of a recv in its completions, apart from how the driver reads them: `F_MORE` is set as
-- long as the request goes on.
use polaris_trade.Base.{
  ℕ, zero, suc, ltb, ◌||◌, ◌+◌, ◌≡◌, ◌≢◌, ◌⊎◌, refl, sym, ap, Bool, false, not, ◌&&◌, Option, none,
  List, [], ◌∷◌, ◌==◌, if◌then◌else◌, All, Bool-cases, Option-cases, inl, inr,
}
use polaris_trade.Transport.Error.{IoErrorKind}
use polaris_trade.IoUring.Completion.{Res, plus, minus, data_in, truncated_in, classify}
use polaris_trade.IoUring.Driver.{
  Cqe, ud_recv, RecvPath, legacy, buf_ring, multishot, is_multishot, Uring, completion_of, ended,
  starves,
}

abbrev pub is_enobufs : Res → Bool
is_enobufs (plus n) = false
is_enobufs (minus errno) = errno == 105

module _ (more : ℕ → Bool) (buffer_select : ℕ → Option ℕ) where
  -- A failed recv is over, so is a recv that is not multishot, and bytes are in a buffer that is named.
  pub record Contract (path : RecvPath) (cqe : Cqe) : Type 0 where
    pub failed_last : (errno : ℕ) → cqe.result ≡ minus errno → more cqe.flags ≡ false
    pub single_last : is_multishot path ≡ false → more cqe.flags ≡ false
    pub named : (n : ℕ) → cqe.result ≡ plus (suc n) → buffer_select cqe.flags ≢ none

  -- These completions keep it, those of recvs.
  abbrev pub Contracts : RecvPath → List Cqe → Type 0
  Contracts path = All (λ cqe. ((cqe.user_data == ud_recv) ≡ false) ⊎ Contract path cqe)

  -- How many of these completions are the last of a recv.
  abbrev pub finals : List Cqe → ℕ
  finals [] = 0
  finals (cqe ∷ cqes) =
      (if cqe.user_data == ud_recv then if more cqe.flags then 0 else 1 else 0) + finals cqes

  module _ (kind_of : ℕ → IoErrorKind) where
    rearm_lem :
        (path : RecvPath) (cqe : Cqe)
        → Contract path cqe
        → not (is_multishot path && more cqe.flags) ≡ not (more cqe.flags)
    rearm_lem multishot cqe c = refl
    rearm_lem legacy cqe c = ap not (sym (c.single_last refl))
    rearm_lem buf_ring cqe c = ap not (sym (c.single_last refl))

    -- The driver takes a recv to be over exactly when it is.
    pub ended-completion_of :
        (u : Uring) (cqe : Cqe)
        → Contract u.path cqe
        → ended (completion_of more buffer_select kind_of u cqe) ≡ not (more cqe.flags)
    unfolding classify
    ended-completion_of u cqe c = by_result cqe.result refl
      where
        by_size :
            (slot n : ℕ)
            → let rearm = not (is_multishot u.path && more cqe.flags) in
              ended (if ltb u.slot_size n then truncated_in slot rearm else data_in slot n rearm)
              ≡ not (more cqe.flags)
        by_size slot n = elim (Bool-cases (ltb u.slot_size n)) [
          | inl cut ↦ rw cut (rearm_lem u.path cqe c)
          | inr fits ↦ rw fits (rearm_lem u.path cqe c)
        ]

        by_result :
            (r : Res)
            → cqe.result ≡ r
            → ended (classify more buffer_select r cqe.flags u.slot_size (is_multishot u.path))
              ≡ not (more cqe.flags)
        by_result (minus e) same = elim (Bool-cases (e == 105)) [
          | inl full ↦ rw full (ap not (sym (c.failed_last e same)))
          | inr hard ↦ rw hard (ap not (sym (c.failed_last e same)))
        ]
        by_result (plus zero) same = elim (Option-cases (buffer_select cqe.flags)) [
          | inl bare ↦ rw (bare, classify) (rearm_lem u.path cqe c)
          | inr (slot, named) ↦ rw (named, classify) (by_size slot zero)
        ]
        by_result (plus (suc n)) same = elim (Option-cases (buffer_select cqe.flags)) [
          | inl bare ↦ absurd (c.named n same bare)
          | inr (slot, named) ↦ rw (named, classify) (by_size slot (suc n))
        ]

    -- The driver takes the group to be out of buffers exactly on ENOBUFS.
    pub starves-completion_of :
        (u : Uring) (cqe : Cqe) (starved : Bool)
        → starves (completion_of more buffer_select kind_of u cqe) starved
          ≡ (is_enobufs cqe.result || starved)
    unfolding classify
    starves-completion_of u cqe starved = by_result cqe.result
      where
        by_result :
            (r : Res)
            → starves
                (classify more buffer_select r cqe.flags u.slot_size (is_multishot u.path))
                starved
              ≡ (is_enobufs r || starved)
        by_result (minus e) = elim (Bool-cases (e == 105)) [
          | inl full ↦ rw full refl
          | inr hard ↦ rw hard refl
        ]
        by_result (plus n) = elim (Option-cases (buffer_select cqe.flags)) [
          | inl bare ↦ elim (Bool-cases (n == 0)) [
            | inl nothing ↦ rw (bare, nothing, classify) refl
            | inr broken ↦ rw (bare, broken, classify) refl
          ]
          | inr (slot, named) ↦ elim (Bool-cases (ltb u.slot_size n)) [
            | inl cut ↦ rw (named, cut, classify) refl
            | inr fits ↦ rw (named, fits, classify) refl
          ]
        ]
