-- ===== src/Afxdp/Config/Accepted.antt =====
-- Which configurations are accepted.
use polaris_trade.Base.{
  ℕ, zero, suc, ◌+◌, ◌-◌, ◌^◌, ◌≤◌, ◌<◌, ◌≡◌, ◌≢◌, ◌↔◌, ◌∙◌, refl, ap, true, false, List, [], ◌∷◌,
  ltb, leb, ◌==◌, length, All, arith, Bool-cases, inl, inr, ==_iff,
}
use polaris_trade.Base.Result.{Result, ok, err}
use polaris_trade.Transport.Error.{TransportError}
use polaris_trade.Afxdp.Config.{
  XdpRedirect, builtin, pinned, AfxdpConfig, has_nul, is_blank, is_power_below, check_redirect,
  validate,
}

-- A power of two that a word of 32 bits holds.
abbrev pub IsPower : ℕ → Type 0
IsPower n = (k : ℕ) × (k < 32) × (n ≡ 2 ^ k)

abbrev pub HasNoNul : List ℕ → Type 0
HasNoNul = All (λ b. b ≢ 0)

abbrev pub IsRoutable : ℕ → XdpRedirect → Type 0
IsRoutable queue (builtin mode) = queue ≢ 2 ^ 32 - 1
IsRoutable queue (pinned path) = (0 < length path) × HasNoNul path

pub record IsAccepted (cfg : AfxdpConfig) : Type 0 where
  pub named : 0 < length cfg.ifname
  pub short : length cfg.ifname ≤ 15
  pub no_nul : HasNoNul cfg.ifname
  pub frames_power : IsPower cfg.frames
  pub frame_size_power : IsPower cfg.frame_size
  pub large : 2048 ≤ cfg.frame_size
  pub packet_room : cfg.headroom + 256 < cfg.frame_size
  pub routable : IsRoutable cfg.queue cfg.redirect

is_power_below_sound : (m n : ℕ) → is_power_below m n ≡ true → (k : ℕ) × (k < m) × (n ≡ 2 ^ k)
unfolding is_power_below
is_power_below_sound zero n e = absurd (cc e)
is_power_below_sound (suc m) n e = elim (Bool-cases (n == 2 ^ m)) [
  | inl at ↦ (m, omega arith, (==_iff n (2 ^ m)).0 at)
  | inr ne ↦ let (k, lt, p) = is_power_below_sound m n (rw ne at e) in (k, omega arith, p)
]

is_power_below_complete : (m n k : ℕ) → k < m → n ≡ 2 ^ k → is_power_below m n ≡ true
unfolding is_power_below
is_power_below_complete zero n k lt p = absurd (omega arith)
is_power_below_complete (suc m) n k lt p = elim (Bool-cases (k == m)) [
  | inl same ↦
      let e : n ≡ 2 ^ m = p ∙ ap (λ (j : ℕ). 2 ^ j) ((==_iff k m).0 same) in
      rw ((==_iff n (2 ^ m)).1 e) refl
  | inr other ↦
      let rest = is_power_below_complete m n k (ground arith) p in
      elim (Bool-cases (n == 2 ^ m)) [ inl at ↦ rw at refl | inr ne ↦ rw (ne, rest) refl ]
]

has_nul_sound : (bs : List ℕ) → has_nul bs ≡ false → HasNoNul bs
has_nul_sound [] e = tt
has_nul_sound (b ∷ bs) e = elim (Bool-cases (b == 0)) [
  | inl z ↦ absurd (cc (rw z at e))
  | inr nz ↦ (ground arith, has_nul_sound bs (rw nz at e))
]

has_nul_complete : (bs : List ℕ) → HasNoNul bs → has_nul bs ≡ false
has_nul_complete [] h = refl
has_nul_complete (b ∷ bs) h = ground (arith, has_nul_complete bs h.1)

is_blank-false : (bs : List ℕ) → (is_blank bs ≡ false) ↔ (0 < length bs)
is_blank-false [] = (λ e. absurd (cc e), λ h. absurd (omega arith))
is_blank-false (b ∷ bs) = (λ e. omega arith, λ h. refl)

err-ne-ok :
    {e : TransportError} → let refused : Result TransportError (Unit {0}) = err e in refused ≢ ok tt
err-ne-ok h = cc h

check_redirect_sound :
    (queue : ℕ) (r : XdpRedirect) → check_redirect queue r ≡ ok tt → IsRoutable queue r
unfolding check_redirect
check_redirect_sound queue (builtin mode) e = elim (Bool-cases (queue == 2 ^ 32 - 1)) [
  | inl last ↦ absurd (err-ne-ok (rw last at e))
  | inr other ↦ ground arith
]
check_redirect_sound queue (pinned path) e = elim (Bool-cases (is_blank path)) [
  | inl blank ↦ absurd (err-ne-ok (rw blank at e))
  | inr some_path ↦ elim (Bool-cases (has_nul path)) [
    | inl nul ↦ absurd (err-ne-ok (rw (some_path, nul) at e))
    | inr clean ↦ ((is_blank-false path).0 some_path, has_nul_sound path clean)
  ]
]

check_redirect_complete :
    (queue : ℕ) (r : XdpRedirect) → IsRoutable queue r → check_redirect queue r ≡ ok tt
unfolding check_redirect
check_redirect_complete queue (builtin mode) h = ground arith
check_redirect_complete queue (pinned path) h =
    rw ((is_blank-false path).1 h.0, has_nul_complete path h.1) refl

validate_sound : (cfg : AfxdpConfig) → validate cfg ≡ ok tt → IsAccepted cfg
unfolding validate
validate_sound cfg e = elim (Bool-cases (is_blank cfg.ifname)) [
  | inl a ↦ absurd (err-ne-ok (rw a at e))
  | inr a ↦ elim (Bool-cases (leb 16 (length cfg.ifname))) [
    | inl b ↦ absurd (err-ne-ok (rw (a, b) at e))
    | inr b ↦ elim (Bool-cases (has_nul cfg.ifname)) [
      | inl c ↦ absurd (err-ne-ok (rw (a, b, c) at e))
      | inr c ↦ elim (Bool-cases (is_power_below 32 cfg.frames)) [
        | inr d ↦ absurd (err-ne-ok (rw (a, b, c, d) at e))
        | inl d ↦ elim (Bool-cases (is_power_below 32 cfg.frame_size)) [
          | inr f ↦ absurd (err-ne-ok (rw (a, b, c, d, f) at e))
          | inl f ↦ elim (Bool-cases (ltb cfg.frame_size 2048)) [
            | inl g ↦ absurd (err-ne-ok (rw (a, b, c, d, f, g) at e))
            | inr g ↦ elim (Bool-cases (leb (cfg.frame_size - 256) cfg.headroom)) [
              | inl h ↦ absurd (err-ne-ok (rw (a, b, c, d, f, g, h) at e))
              | inr h ↦ record {
                named = (is_blank-false cfg.ifname).0 a;
                short = ground (arith, b);
                no_nul = has_nul_sound cfg.ifname c;
                frames_power = is_power_below_sound 32 cfg.frames d;
                frame_size_power = is_power_below_sound 32 cfg.frame_size f;
                large = ground (arith, g);
                packet_room = ground (arith, g, h);
                routable =
                    check_redirect_sound cfg.queue cfg.redirect (rw (a, b, c, d, f, g, h) at e);
              }
            ]
          ]
        ]
      ]
    ]
  ]
]

validate_complete : (cfg : AfxdpConfig) → IsAccepted cfg → validate cfg ≡ ok tt
unfolding validate
validate_complete cfg v =
    let (i, i_lt, i_eq) = v.frames_power in
    let (j, j_lt, j_eq) = v.frame_size_power in
    let b : leb 16 (length cfg.ifname) ≡ false = ground (arith, v.short) in
    let g : ltb cfg.frame_size 2048 ≡ false = ground (arith, v.large) in
    let h : leb (cfg.frame_size - 256) cfg.headroom ≡ false =
      ground (arith, v.large, v.packet_room) in
    rw
      (
        (is_blank-false cfg.ifname).1 v.named,
        b,
        has_nul_complete cfg.ifname v.no_nul,
        is_power_below_complete 32 cfg.frames i i_lt i_eq,
        is_power_below_complete 32 cfg.frame_size j j_lt j_eq,
        g,
        h,
      )
      (check_redirect_complete cfg.queue cfg.redirect v.routable)

-- A configuration is accepted exactly if its interface has a name of 1 to 15 bytes without NUL, its frames and their
-- size are powers of two, a frame has at least 2048 bytes and leaves room for a packet behind both headrooms, and its
-- redirect can be installed: the queue has a successor in u32, or the pinned map a path without NUL.
pub validate_iff : (cfg : AfxdpConfig) → (validate cfg ≡ ok tt) ↔ IsAccepted cfg
validate_iff cfg = (validate_sound cfg, validate_complete cfg)
