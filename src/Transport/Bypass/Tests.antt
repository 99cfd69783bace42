-- ===== src/Transport/Bypass/Tests.antt =====
-- The shell over a driver that fails behind its first frame.
use polaris_trade.Base.{ℕ, zero, suc, ◌≡◌, refl, true, [], ◌∷◌, ◌++◌, All}
use polaris_trade.Base.Result.{ok, err}
use polaris_trade.Transport.Error.{peer_closed}
use polaris_trade.Transport.Batch.{push}
use polaris_trade.Transport.Bypass.{
  idle, Driver, BypassTransport, new_bypass, recv, report, poll_bypass, settle,
}
use polaris_trade.Transport.Bypass.Deferred.{run, met, errors, owed, Fair, run_lem}

abbrev failing : Driver ℕ ℕ
failing = record {
  poll_frames =
      λ d out. elim d [ zero ↦ (err peer_closed, 1, push out 7) | suc n ↦ (ok idle, suc n, out) ];
  stats = λ d. (record { no_buffer = 0; nic_missed = 0; truncated = 0; syscalls = d }, d);
  pool_stats = λ d. record { in_use = 0; capacity = 4 };
  as_ref = λ d f. f ∷ [];
}

abbrev transport : BypassTransport ℕ
transport = new_bypass failing 0

-- The frame comes first, the error with the next call.
run_results :
    (run failing true transport (8 ∷ 8 ∷ 8 ∷ [])).0
    ≡ (ok 1, 7 ∷ []) ∷ (err peer_closed, []) ∷ (ok 0, []) ∷ []
unfolding recv report poll_bypass settle
run_results = refl

run_example :
    let (calls, t') = run failing true transport (8 ∷ 8 ∷ []) in
    All (λ c. Fair failing true c.0 c.1) calls
    × (errors failing true calls ++ owed failing true t'
        ≡ owed failing true transport ++ met failing true transport (8 ∷ 8 ∷ []))
run_example = run_lem failing true transport (8 ∷ 8 ∷ [])
