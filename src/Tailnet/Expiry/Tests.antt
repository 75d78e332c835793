-- ===== src/Tailnet/Expiry/Tests.antt =====
-- Runs of the expiry of tsnetid/authkey.go, and the theorem at a sample.
use tsjwt.Prelude.{pos, ℕ, ◌+◌, ◌-◌, ◌*◌, ◌^◌, ◌≤◌, ◌<◌, ◌≡◌, refl, true, false, arith}
use Prim.Native.Nat.{min, max}
use tsjwt.GoTime.{Duration, second, minute, hour, add_time}
use tsjwt.Verifier.Remote.{zero_time}
use tsjwt.Tailnet.Expiry.{Expiry, new_expiry, healthy}
use tsjwt.Tailnet.Expiry.Window.{IsDraw, new_expiry_window}

-- A day after the zero time, in nanoseconds.
abbrev dies : ℕ
dies = 2 ^ 63 * second + 24 * hour

abbrev first_draw : Duration → ℕ
first_draw d = 0

first_draw-IsDraw : IsDraw first_draw
first_draw-IsDraw d h = h

watched : Expiry
watched = new_expiry first_draw dies (pos hour) (pos (3 * minute)) (pos (7 * minute))

transition :
    (healthy watched (dies - hour - 3 * minute - 1) ≡ true)
    × (healthy watched (dies - hour - 3 * minute) ≡ false)
    × (healthy (record { expires = zero_time; buffer = pos 0; splay = pos 0 }) dies ≡ true)
unfolding watched healthy new_expiry add_time
transition = (refl, refl, refl)

new_expiry_window_example :
    (dies - 2 * hour + hour + max (7 * minute) (3 * minute) < dies
      → healthy
          (new_expiry first_draw dies (pos hour) (pos (7 * minute)) (pos (3 * minute)))
          (dies - 2 * hour)
        ≡ true)
    × (dies ≤ dies - 2 * hour + hour + min (7 * minute) (3 * minute)
        → healthy
            (new_expiry first_draw dies (pos hour) (pos (7 * minute)) (pos (3 * minute)))
            (dies - 2 * hour)
          ≡ false)
new_expiry_window_example =
    new_expiry_window first_draw dies hour (7 * minute) (3 * minute) (dies - 2 * hour)
      first_draw-IsDraw (omega arith) (omega arith) (omega arith) (omega arith)
