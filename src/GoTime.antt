-- ===== src/GoTime.antt =====
-- Package time as the program uses it. An Instant is a time.Time without a monotonic reading, as the
-- number of nanoseconds since the first second that a time.Time represents; a Duration is an int64
-- number of nanoseconds. Unix, Add and Sub wrap and saturate as the library does. No file of
-- the repository is modelled here.
use tsjwt.Prelude.{
  ltb, leb, if◌then◌else◌, ℤ, pos, negsuc, ℕ, suc, ◌+◌, ◌-◌, ◌*◌, ◌/◌, ◌%◌, ◌^◌, ◌≤◌, ◌<◌, ◌≡◌,
  arith,
}
use Prim.Native.Nat.{min}

abbrev pub Instant : Type 0
Instant = ℕ

abbrev pub Duration : Type 0
Duration = ℤ

abbrev pub second : ℕ
second = 1_000_000_000

abbrev pub minute : ℕ
minute = 60 * second

abbrev pub hour : ℕ
hour = 60 * minute

-- The largest int64.
abbrev pub max_int64 : ℕ
max_int64 = 2 ^ 63 - 1

-- The Unix epoch, in seconds since the first one.
abbrev pub epoch : ℕ
epoch = 2 ^ 63 + 62_135_596_800

-- time.Unix(sec, 0): the seconds are an int64 sum, which wraps.
unfoldable pub unix : ℤ → Instant
unix (pos n) = (epoch + n) % 2 ^ 64 * second
unix (negsuc n) = (epoch + 2 ^ 64 - suc n) % 2 ^ 64 * second

-- t.Unix()
unfoldable pub to_unix : Instant → ℤ
to_unix t =
    let s = t / second in
    if leb epoch s
    then pos (s - epoch)
    else if leb (epoch - s) (2 ^ 63)
    then negsuc (epoch - s - 1)
    else pos (2 ^ 64 - (epoch - s))

-- The last second.
abbrev last_second : ℕ
last_second = (2 ^ 64 - 1) * second

-- t.Add(d). Seconds out of range saturate, and the nanoseconds within the second stay.
unfoldable pub add_time : Instant → Duration → Instant
add_time t (pos d) =
    let sum = t + d in if ltb sum (2 ^ 64 * second) then sum else last_second + sum % second
add_time t (negsuc d) =
    if leb (second + suc d) t then t - suc d else second + (2 ^ 64 * second + t - suc d) % second

-- t.Sub(u): the difference, or the nearest int64 if it is out of range.
unfoldable pub sub_time : Instant → Instant → Duration
sub_time t u =
    if leb u t
    then pos (min (t - u) max_int64)
    else if leb (u - t) (2 ^ 63)
    then negsuc (u - t - 1)
    else negsuc max_int64

-- The Unix second `n` of an instant in the first 146 billion years.
pub unix-pos : (n : ℕ) → n < 2 ^ 62 → unix (pos n) ≡ (epoch + n) * second
unfolding unix
unix-pos n h = omega arith

-- An instant's second, read back.
pub unix-to_unix :
    (t : Instant)
    → epoch * second ≤ t
    → t < (epoch + 2 ^ 62) * second
    → unix (to_unix t) ≡ t / second * second
unfolding to_unix unix
unix-to_unix t h k = ground arith

pub add_time-pos : (t d : ℕ) → t + d < 2 ^ 64 * second → add_time t (pos d) ≡ t + d
unfolding add_time
add_time-pos t d h = ground arith
