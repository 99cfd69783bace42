-- ===== src/Transport/Decap/Deliver.antt =====
-- No frame is lost, doubled or reordered between the source and the caller.
use polaris_trade.Base.{
  ℕ, zero, suc, ◌+◌, ◌%◌, ◌^◌, ◌≤◌, ◌<◌, ◌≡◌, ◌≢◌, ◌⊎◌, ◌∙◌, refl, sym, ap, ◌||◌, Bool, true, false,
  if◌then◌else◌, Option, none, some, List, [], ◌∷◌, ◌++◌, arith, ltb, ◌==◌, length, Bool-cases, inl,
  inr,
}
use polaris_trade.Base.Result.{Result, ok, err, Result-cases}
use polaris_trade.Transport.Error.{TransportError, SocketAddr}
use polaris_trade.Transport.Decap.{
  DecapDrop, not_ipv4, fragment, wrong_dst, truncated, DecapStats, DecapFrame, UdpDecap, parse_udp,
  count, deliver_from, deliver, fill_fuel,
}

-- A counter of 64 bits, `n` frames later.
abbrev pub grown : ℕ → ℕ → ℕ
grown zero c = c
grown (suc n) c = grown n ((c + 1) % 2 ^ 64)

abbrev pub for_not_ipv4 : DecapDrop → Bool
for_not_ipv4 not_ipv4 = true
for_not_ipv4 fragment = false
for_not_ipv4 wrong_dst = false
for_not_ipv4 truncated = false

abbrev pub for_fragment : DecapDrop → Bool
for_fragment not_ipv4 = false
for_fragment fragment = true
for_fragment wrong_dst = false
for_fragment truncated = false

abbrev pub for_wrong_dst : DecapDrop → Bool
for_wrong_dst not_ipv4 = false
for_wrong_dst fragment = false
for_wrong_dst wrong_dst = true
for_wrong_dst truncated = false

abbrev pub for_truncated : DecapDrop → Bool
for_truncated not_ipv4 = false
for_truncated fragment = false
for_truncated wrong_dst = false
for_truncated truncated = true

module _ (dst_port : ℕ) (dst_ip : Option ℕ) where
  -- The datagrams in these frames, in order.
  abbrev pub kept : List (List ℕ) → List DecapFrame
  kept [] = []
  kept (frame ∷ frames) = elim (parse_udp frame dst_port dst_ip) [
    | err reason ↦ kept frames
    | ok (start, end, peer) ↦
        record { frame = frame; start = start; end = end; peer = peer } ∷ kept frames
  ]

  -- How many of these frames are dropped for a reason; `w` tells it from the others.
  abbrev pub tally : (DecapDrop → Bool) → List (List ℕ) → ℕ
  tally w [] = 0
  tally w (frame ∷ frames) = elim (parse_udp frame dst_port dst_ip) [
    | err reason ↦ if w reason then suc (tally w frames) else tally w frames
    | ok r ↦ tally w frames
  ]

  -- Each counter has grown by the number of frames dropped for its reason, one at a time, modulo 2 ^ 64.
  pub record Tallied (stats : DecapStats) (frames : List (List ℕ)) (stats' : DecapStats)
      : Type 0 where
    pub not_ipv4_tally :
        stats'.not_ipv4_count ≡ grown (tally for_not_ipv4 frames) stats.not_ipv4_count
    pub fragment_tally :
        stats'.fragment_count ≡ grown (tally for_fragment frames) stats.fragment_count
    pub wrong_dst_tally :
        stats'.wrong_dst_count ≡ grown (tally for_wrong_dst frames) stats.wrong_dst_count
    pub truncated_tally :
        stats'.truncated_count ≡ grown (tally for_truncated frames) stats.truncated_count

  Tallied-none : (stats : DecapStats) → Tallied stats [] stats
  Tallied-none stats = record {
    not_ipv4_tally = refl;
    fragment_tally = refl;
    wrong_dst_tally = refl;
    truncated_tally = refl;
  }

  tally-err :
      (w : DecapDrop → Bool) (frame : List ℕ) (frames : List (List ℕ)) (reason : DecapDrop)
      → parse_udp frame dst_port dst_ip ≡ err reason
      → tally w (frame ∷ frames) ≡ (if w reason then suc (tally w frames) else tally w frames)
  tally-err w frame frames reason e = rw (e, tally) refl

  tally-ok :
      (w : DecapDrop → Bool) (frame : List ℕ) (frames : List (List ℕ)) (r : ℕ × ℕ × SocketAddr)
      → parse_udp frame dst_port dst_ip ≡ ok r
      → tally w (frame ∷ frames) ≡ tally w frames
  tally-ok w frame frames r e = rw (e, tally) refl

  Tallied-drop :
      (stats : DecapStats) (frame : List ℕ) (frames : List (List ℕ)) (reason : DecapDrop)
      (stats' : DecapStats)
      → parse_udp frame dst_port dst_ip ≡ err reason
      → Tallied (count stats reason) frames stats'
      → Tallied stats (frame ∷ frames) stats'
  unfolding count
  Tallied-drop stats frame frames not_ipv4 stats' e t = record {
    not_ipv4_tally =
        t.not_ipv4_tally
        ∙ ap (λ n. grown n stats.not_ipv4_count)
            (sym (tally-err for_not_ipv4 frame frames not_ipv4 e));
    fragment_tally =
        t.fragment_tally
        ∙ ap (λ n. grown n stats.fragment_count)
            (sym (tally-err for_fragment frame frames not_ipv4 e));
    wrong_dst_tally =
        t.wrong_dst_tally
        ∙ ap (λ n. grown n stats.wrong_dst_count)
            (sym (tally-err for_wrong_dst frame frames not_ipv4 e));
    truncated_tally =
        t.truncated_tally
        ∙ ap (λ n. grown n stats.truncated_count)
            (sym (tally-err for_truncated frame frames not_ipv4 e));
  }
  Tallied-drop stats frame frames fragment stats' e t = record {
    not_ipv4_tally =
        t.not_ipv4_tally
        ∙ ap (λ n. grown n stats.not_ipv4_count)
            (sym (tally-err for_not_ipv4 frame frames fragment e));
    fragment_tally =
        t.fragment_tally
        ∙ ap (λ n. grown n stats.fragment_count)
            (sym (tally-err for_fragment frame frames fragment e));
    wrong_dst_tally =
        t.wrong_dst_tally
        ∙ ap (λ n. grown n stats.wrong_dst_count)
            (sym (tally-err for_wrong_dst frame frames fragment e));
    truncated_tally =
        t.truncated_tally
        ∙ ap (λ n. grown n stats.truncated_count)
            (sym (tally-err for_truncated frame frames fragment e));
  }
  Tallied-drop stats frame frames wrong_dst stats' e t = record {
    not_ipv4_tally =
        t.not_ipv4_tally
        ∙ ap (λ n. grown n stats.not_ipv4_count)
            (sym (tally-err for_not_ipv4 frame frames wrong_dst e));
    fragment_tally =
        t.fragment_tally
        ∙ ap (λ n. grown n stats.fragment_count)
            (sym (tally-err for_fragment frame frames wrong_dst e));
    wrong_dst_tally =
        t.wrong_dst_tally
        ∙ ap (λ n. grown n stats.wrong_dst_count)
            (sym (tally-err for_wrong_dst frame frames wrong_dst e));
    truncated_tally =
        t.truncated_tally
        ∙ ap (λ n. grown n stats.truncated_count)
            (sym (tally-err for_truncated frame frames wrong_dst e));
  }
  Tallied-drop stats frame frames truncated stats' e t = record {
    not_ipv4_tally =
        t.not_ipv4_tally
        ∙ ap (λ n. grown n stats.not_ipv4_count)
            (sym (tally-err for_not_ipv4 frame frames truncated e));
    fragment_tally =
        t.fragment_tally
        ∙ ap (λ n. grown n stats.fragment_count)
            (sym (tally-err for_fragment frame frames truncated e));
    wrong_dst_tally =
        t.wrong_dst_tally
        ∙ ap (λ n. grown n stats.wrong_dst_count)
            (sym (tally-err for_wrong_dst frame frames truncated e));
    truncated_tally =
        t.truncated_tally
        ∙ ap (λ n. grown n stats.truncated_count)
            (sym (tally-err for_truncated frame frames truncated e));
  }

  Tallied-keep :
      (stats : DecapStats) (frame : List ℕ) (frames : List (List ℕ)) (r : ℕ × ℕ × SocketAddr)
      (stats' : DecapStats)
      → parse_udp frame dst_port dst_ip ≡ ok r
      → Tallied stats frames stats'
      → Tallied stats (frame ∷ frames) stats'
  Tallied-keep stats frame frames r stats' e t = record {
    not_ipv4_tally =
        t.not_ipv4_tally
        ∙ ap (λ n. grown n stats.not_ipv4_count) (sym (tally-ok for_not_ipv4 frame frames r e));
    fragment_tally =
        t.fragment_tally
        ∙ ap (λ n. grown n stats.fragment_count) (sym (tally-ok for_fragment frame frames r e));
    wrong_dst_tally =
        t.wrong_dst_tally
        ∙ ap (λ n. grown n stats.wrong_dst_count) (sym (tally-ok for_wrong_dst frame frames r e));
    truncated_tally =
        t.truncated_tally
        ∙ ap (λ n. grown n stats.truncated_count) (sym (tally-ok for_truncated frame frames r e));
  }

  pub record Delivered (spare : ℕ) (pending : List (List ℕ)) (stats : DecapStats)
      (out : List DecapFrame × List (List ℕ) × DecapStats) : Type 0 where
    pub taken : List (List ℕ)
    pub split : pending ≡ taken ++ out.1
    pub pushed : out.0 ≡ kept taken
    pub counts : Tallied stats taken out.2
    pub room : length out.0 ≤ spare
    pub full : (out.1 ≡ []) ⊎ (length out.0 ≡ spare)

  -- The loop of `deliver` takes the oldest pending frames and leaves the others as they were. What it
  -- pushes are the datagrams in those it takes, in order; each other one adds 1 to the counter of its reason, and
  -- nothing else changes a counter; it
  -- pushes no more than there is room for, and stops only when nothing is pending or the room is used up.
  pub deliver_from_lem :
      (spare : ℕ) (pending : List (List ℕ)) (stats : DecapStats)
      → Delivered spare pending stats (deliver_from dst_port dst_ip spare pending stats)
  unfolding deliver_from
  deliver_from_lem zero pending stats = record {
    taken = [];
    split = refl;
    pushed = refl;
    counts = Tallied-none stats;
    room = omega arith;
    full = inr refl;
  }
  deliver_from_lem (suc spare) [] stats = record {
    taken = [];
    split = refl;
    pushed = refl;
    counts = Tallied-none stats;
    room = omega arith;
    full = inl refl;
  }
  deliver_from_lem (suc spare) (frame ∷ pending) stats =
      elim (Result-cases (parse_udp frame dst_port dst_ip)) [
        | inr (reason, e) ↦
            let ih = deliver_from_lem (suc spare) pending (count stats reason) in
            rw (e, deliver_from)
              (record {
                taken = frame ∷ ih.taken;
                split = ap (λ fs. frame ∷ fs) ih.split;
                pushed = rw (e, kept) ih.pushed;
                counts = Tallied-drop stats frame ih.taken reason _ e ih.counts;
                room = ih.room;
                full = ih.full;
              })
        | inl ((start, end, peer), e) ↦
            let ih = deliver_from_lem spare pending stats in
            rw (e, deliver_from)
              (record {
                taken = frame ∷ ih.taken;
                split = ap (λ fs. frame ∷ fs) ih.split;
                pushed =
                    rw (e, kept)
                      (ap
                        (λ ds. record { frame = frame; start = start; end = end; peer = peer } ∷ ds)
                        ih.pushed);
                counts = Tallied-keep stats frame ih.taken (start, end, peer) _ e ih.counts;
                room = omega (arith, ih.room);
                full = ground (arith, ih.full);
              })
      ]

some-ne_none : {A : Type 0} (a : A) → some a ≢ none
some-ne_none a e = cc e

-- A source that has `left` bursts at most to give, one fewer behind each that it gives.
module _ {S : Type 0} (recv_burst : S → Result TransportError (List (List ℕ)) × S) (left : S → ℕ)
    (gives : (s : S) (frame : List ℕ) (frames : List (List ℕ))
      → (recv_burst s).0 ≡ ok (frame ∷ frames)
      → left (recv_burst s).1 < left s) where
  -- On a source that gives finitely many bursts the loop of `fill` ends: it never needs more rounds than the source has bursts, and one more.
  pub fill_fuel_ends :
      (fuel : ℕ) (s : S) (d : UdpDecap) (spare : ℕ)
      → left s < fuel
      → fill_fuel recv_burst fuel s d spare ≢ none
  unfolding fill_fuel
  fill_fuel_ends zero s d spare lt e = absurd (omega arith)
  fill_fuel_ends (suc fuel) s d spare lt e =
      elim (Bool-cases (ltb 0 (length (deliver d spare).0) || (spare == 0))) [
        | inl done ↦ some-ne_none _ (rw (done, fill_fuel) at e)
        | inr idle ↦ elim (Result-cases (recv_burst s).0) [
          | inr (x, failed) ↦ some-ne_none _ (rw (idle, failed, fill_fuel) at e)
          | inl ([], got) ↦ some-ne_none _ (rw (idle, got, fill_fuel) at e)
          | inl (frame ∷ frames, got) ↦
              fill_fuel_ends fuel (recv_burst s).1 _ spare (omega (arith, gives s frame frames got))
                (rw (idle, got, fill_fuel) at e)
        ]
      ]
