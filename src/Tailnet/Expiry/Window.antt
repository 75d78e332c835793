-- ===== src/Tailnet/Expiry/Window.antt =====
-- When a process reports itself unhealthy, tsnetid/authkey.go.
use tsjwt.Prelude.{
  pos, negsuc, ℕ, ◌+◌, ◌^◌, ◌≤◌, ◌<◌, ◌≡◌, arith, Bool-cases, ltb_ℤ, ◌-◌, ◌*◌, refl, inl, inr, zero,
  suc, ◌∙◌, ◌≢◌, ◌↔◌, true, false, sub_ℕ,
}
use Prim.Native.Nat.{min, max}
use tsjwt.Verifier.Remote.{zero_time}
use tsjwt.GoTime.{Duration, Instant, second, add_time, add_time-pos}
use tsjwt.Tailnet.Expiry.{
  wrap, add_int64, draw_splay, sub_int64, new_expiry, deadline_at, negate_int64, healthy,
}

-- An int64 that the bits are already right for.
wrap_small : (n : ℕ) → n < 2 ^ 63 → wrap (pos n) ≡ pos n
unfolding wrap
wrap_small n h = ground arith

wrap_small_neg : (n : ℕ) → n < 2 ^ 63 → wrap (negsuc n) ≡ negsuc n
unfolding wrap
wrap_small_neg n h = ground arith

add_int64-pos : (a b : ℕ) → a + b < 2 ^ 63 → add_int64 (pos a) (pos b) ≡ pos (a + b)
add_int64-pos a b h = let e = wrap_small (a + b) h in ground arith

-- rand.Int64N(d) is below d, for a positive d.
abbrev pub IsDraw : (Duration → ℕ) → Type 0
IsDraw draw = (d : ℕ) → 0 < d → draw (pos d) < d

sub_int64-pos : (a b : ℕ) → b ≤ a → a < 2 ^ 63 → sub_int64 (pos a) (pos b) ≡ pos (a - b)
sub_int64-pos a b h k = let e = wrap_small (a - b) (omega arith) in ground arith

draw_splay-between :
    (draw : Duration → ℕ) (low high : ℕ)
    → IsDraw draw
    → low ≤ high
    → high < 2 ^ 63
    → (s : ℕ) × (draw_splay draw (pos low) (pos high) ≡ pos s) × (low ≤ s) × (s ≤ high)
unfolding draw_splay
draw_splay-between draw low high is_draw order small =
    let e = sub_int64-pos high low order small in
    elim (Bool-cases (ltb_ℤ (pos 0) (pos (high - low)))) [
      | inl wide ↦
          let below : draw (pos (high - low)) < high - low = is_draw (high - low) (ground arith) in
          let sum = add_int64-pos low (draw (pos (high - low))) (omega arith) in
          (low + draw (pos (high - low)), rw e (rw wide sum), omega arith, omega arith)
      | inr equal ↦ (low, rw e (rw equal refl), omega arith, order)
    ]

-- The splay of a process lies between the two bounds, in whichever order they are given.
new_expiry-splay :
    (draw : Duration → ℕ) (expires : Instant) (buffer : Duration) (x y : ℕ)
    → IsDraw draw
    → x < 2 ^ 63
    → y < 2 ^ 63
    → (s : ℕ) × ((new_expiry draw expires buffer (pos x) (pos y)).splay ≡ pos s)
      × (min x y ≤ s)
      × (s ≤ max x y)
unfolding new_expiry
new_expiry-splay draw expires buffer x y is_draw small small' =
    elim (Bool-cases (ltb_ℤ (pos y) (pos x))) [
      | inl swapped ↦
          let (s, e, low, high) = draw_splay-between draw y x is_draw (ground arith) small in
          (s, rw swapped e, ground arith, ground arith)
      | inr in_order ↦
          let (s, e, low, high) = draw_splay-between draw x y is_draw (ground arith) small' in
          (s, rw in_order e, ground arith, ground arith)
    ]

negate_int64-suc : (k : ℕ) → k < 2 ^ 63 → negate_int64 (pos (suc k)) ≡ negsuc k
negate_int64-suc k h =
    let flipped : sub_ℕ 0 (suc k) ≡ negsuc k = ground arith in rw flipped (wrap_small_neg k h)

add_time-back :
    (t k : ℕ)
    → k < 2 ^ 63
    → second + k ≤ t
    → t < 2 ^ 64 * second
    → add_time t (negate_int64 (pos k)) ≡ t - k
add_time-back t zero small room last =
    rw (wrap_small 0 (omega arith)) (add_time-pos t 0 (omega arith) ∙ omega arith)
add_time-back t (suc k) small room last = rw (negate_int64-suc k (omega arith)) (back t k room)
  where
    back : (t k : ℕ) → second + suc k ≤ t → add_time t (negsuc k) ≡ t - suc k
    back t k room = unfold add_time in ground arith

-- The deadline is the buffer and the splay before the expiry.
deadline_at_lem :
    (expires b s : ℕ)
    → b + s < 2 ^ 63
    → second + (b + s) ≤ expires
    → expires < 2 ^ 64 * second
    → deadline_at (record { expires = expires; buffer = pos b; splay = pos s }) ≡ expires - (b + s)
unfolding deadline_at
deadline_at_lem expires b s small room last =
    rw (add_int64-pos b s small) (add_time-back expires (b + s) small room last)

healthy_iff :
    (expires b s now : ℕ)
    → expires ≢ zero_time
    → b + s < 2 ^ 63
    → second + (b + s) ≤ expires
    → expires < 2 ^ 64 * second
    → (healthy (record { expires = expires; buffer = pos b; splay = pos s }) now ≡ true)
      ↔ (now + b + s < expires)
unfolding healthy
healthy_iff expires b s now known small room last =
    rw (deadline_at_lem expires b s small room last) (ground arith)

-- A process with a known expiry is healthy while the buffer and the larger of the two splays are left, and
-- unhealthy from the moment on at which no more than the buffer and the smaller of them is left, so before
-- the key expires.
pub new_expiry_window :
    (draw : Duration → ℕ) (expires b x y now : ℕ)
    → IsDraw draw
    → expires ≢ zero_time
    → b + max x y < 2 ^ 63
    → second + (b + max x y) ≤ expires
    → expires < 2 ^ 64 * second
    → (now + b + max x y < expires
        → healthy (new_expiry draw expires (pos b) (pos x) (pos y)) now ≡ true)
      × (expires ≤ now + b + min x y
          → healthy (new_expiry draw expires (pos b) (pos x) (pos y)) now ≡ false)
new_expiry_window draw expires b x y now is_draw known small room last =
    let (s, e, low, high) =
      new_expiry-splay draw expires (pos b) x y is_draw (ground arith) (ground arith) in
    let drawn : new_expiry draw expires (pos b) (pos x) (pos y)
        ≡ record { expires = expires; buffer = pos b; splay = pos s } =
      unfold new_expiry in rw e refl in
    let h = healthy_iff expires b s now known (omega arith) (omega arith) last in
    rw drawn (
      λ early. h.1 (omega arith),
      λ late.
          elim (Bool-cases
            (healthy (record { expires = expires; buffer = pos b; splay = pos s }) now)) [
              | inl up ↦ let left = h.0 up in absurd (omega arith)
              | inr down ↦ down
            ],
    )
