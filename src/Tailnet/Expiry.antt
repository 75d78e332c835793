-- ===== src/Tailnet/Expiry.antt =====
-- The watch on the auth key's expiry, tsnetid/authkey.go: NewExpiry, DeadlineAt, Healthy and Set. The draw of
-- math/rand is an argument.
pub mod Window
mod Tests
use tsjwt.Prelude.{
  ltb, ◌==◌, if◌then◌else◌, ℤ, pos, negsuc, pos_part, neg_part, sub_ℕ, ltb_ℤ, ℕ, ◌+◌, ◌-◌, ◌%◌, ◌^◌,
  Bool, true,
}
use tsjwt.GoTime.{Instant, Duration, add_time}
use tsjwt.Verifier.Remote.{zero_time}

-- The int64 with the bits of an integer, in two's complement.
unfoldable pub wrap : ℤ → ℤ
wrap (pos n) = let m = n % 2 ^ 64 in if ltb m (2 ^ 63) then pos m else negsuc (2 ^ 64 - m - 1)
wrap (negsuc n) = let m = n % 2 ^ 64 in if ltb m (2 ^ 63) then negsuc m else pos (2 ^ 64 - m - 1)

-- a + b, a - b and -a, of int64s
abbrev pub add_int64 : ℤ → ℤ → ℤ
add_int64 a b = wrap (sub_ℕ (pos_part a + pos_part b) (neg_part a + neg_part b))

abbrev pub sub_int64 : ℤ → ℤ → ℤ
sub_int64 a b = wrap (sub_ℕ (pos_part a + neg_part b) (neg_part a + pos_part b))

abbrev pub negate_int64 : ℤ → ℤ
negate_int64 a = wrap (sub_ℕ (neg_part a) (pos_part a))

pub record Expiry : Type 0 where
  pub expires : Instant
  pub buffer : Duration
  pub splay : Duration

-- The splay of NewExpiry, for the two bounds in order. `draw d` is rand.Int64N(d).
draw_splay : (Duration → ℕ) → Duration → Duration → Duration
unfolding wrap
draw_splay draw low high =
    let d = sub_int64 high low in if ltb_ℤ (pos 0) d then add_int64 low (pos (draw d)) else low

-- NewExpiry
unfoldable pub new_expiry : (Duration → ℕ) → Instant → Duration → Duration → Duration → Expiry
unfolding draw_splay
new_expiry draw expires buffer min_splay max_splay = record {
  expires = expires;
  buffer = buffer;
  splay =
      if ltb_ℤ max_splay min_splay
      then draw_splay draw max_splay min_splay
      else draw_splay draw min_splay max_splay;
}

-- DeadlineAt
unfoldable pub deadline_at : Expiry → Instant
unfolding wrap add_time
deadline_at e = add_time e.expires (negate_int64 (add_int64 e.buffer e.splay))

-- Healthy
unfoldable pub healthy : Expiry → Instant → Bool
unfolding deadline_at
healthy e now = if e.expires == zero_time then true else ltb now (deadline_at e)

-- Set
unfoldable pub set_expiry : Expiry → Instant → Expiry
set_expiry e t = record e { expires = t }
