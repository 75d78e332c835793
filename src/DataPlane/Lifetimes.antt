-- ===== src/DataPlane/Lifetimes.antt =====
-- How the flags that the data plane of gateway/cmd/tsjwt-dataplane/main.go accepts relate the lifetime of a token to
-- the times for which keys verify and the key set is cached.
use tsjwt.Prelude.{
  ltb→lt, text_eq, cut, pos, pos_part, ◌≤ℤ◌, ◌<ℤ◌, ltb_ℤ, ◌*◌, ◌^◌, ◌<◌, ◌≡◌, sym, ap, not, [],
  arith, ◌/◌, negsuc, subst,
}
use tsjwt.Errors.{other, ok, guard, >>=-eq-ok, guard-eq-ok, ok-injective}
use tsjwt.GoTime.{second, Duration}
use tsjwt.Signer.{default_ttl, Config, new}
use tsjwt.Signer.Handler.{cache_seconds, cache_seconds-below}
use tsjwt.Signer.Clamps.{new-ttl}
use tsjwt.Tailnet.Expiry.{wrap}
use tsjwt.DataPlane.{Flags, name_of, settle, signer_config, grace_of, half, may_wait}

-- The flags that run goes on with have the ttl and the overlap that were given, the one below the other.
settle-times :
    (f g : Flags)
    → settle f ≡ ok g
    → (g.ttl ≡ f.ttl) × (g.overlap ≡ f.overlap) × (f.ttl <ℤ f.overlap)
unfolding settle
settle-times f g e =
    let (u1, waits, e1) = >>=-eq-ok (guard (may_wait f) other) _ e in
    let (name, named, e2) = >>=-eq-ok (name_of (cut f.gateway_ref b'/')) _ e1 in
    let (u2, tenants, e3) = >>=-eq-ok (guard (not (text_eq f.tenants [])) other) _ e2 in
    let (u3, longer, e4) = >>=-eq-ok (guard (ltb_ℤ f.ttl f.overlap) other) _ e3 in
    let same = ok-injective e4 in
    (
      ap (λ (x : Flags). x.ttl) (sym same),
      ap (λ (x : Flags). x.overlap) (sym same),
      ltb→lt _ _ (guard-eq-ok (ltb_ℤ f.ttl f.overlap) other longer),
    )

grace_of-above : (t d : Duration) → pos 0 <ℤ t → 3 * pos_part t < 2 ^ 63 → d ≤ℤ t → d <ℤ grace_of t
unfolding grace_of wrap
grace_of-above (negsuc n) d h fits below = absurd (omega (arith, h))
grace_of-above (pos n) d h fits below =
    let triple : grace_of (pos n) ≡ pos (3 * n) = ground (arith, fits) in
    subst (λ (x : Duration). d <ℤ x) (sym triple) (omega (arith, h, below))

cached_below : (d : Duration) → pos 1 <ℤ d → pos (cache_seconds (half d) * second) <ℤ d
unfolding half
cached_below (negsuc n) h = absurd (omega (arith, h))
cached_below (pos n) h = omega (arith, h, cache_seconds-below (n / 2) (omega (arith, h)))

-- With flags that the data plane accepts and a positive ttl, the signer's tokens live for less than the overlap of
-- the keys, and for less than the grace of the shared keys where three times the ttl is an int64, and the key
-- set is cached for less than the overlap. With a ttl that is not positive they live for five minutes, however
-- short the overlap.
pub settle-Covers :
    (f g : Flags) (cfg : Config)
    → settle f ≡ ok g
    → new (signer_config g) ≡ ok cfg
    → (pos 0 <ℤ f.ttl
        → (cfg.ttl <ℤ f.overlap)
          × (3 * pos_part f.ttl < 2 ^ 63 → cfg.ttl <ℤ grace_of g.ttl)
          × (pos (cache_seconds (half g.overlap) * second) <ℤ f.overlap))
      × (f.ttl ≤ℤ pos 0 → cfg.ttl ≡ pos default_ttl)
settle-Covers f g cfg e made =
    let (same_ttl, same_overlap, below) = settle-times f g e in
    let (keeps, replaces) = new-ttl (signer_config g) cfg made in
    (
      λ h.
          let positive : pos 0 <ℤ g.ttl = subst (λ (t : Duration). pos 0 <ℤ t) (sym same_ttl) h in
          let kept : cfg.ttl ≤ℤ f.ttl =
            subst (λ (t : Duration). cfg.ttl ≤ℤ t) same_ttl (keeps positive) in
          (
            omega (arith, kept, below),
            λ fits. rw same_ttl (grace_of-above f.ttl cfg.ttl h fits kept),
            rw same_overlap (cached_below f.overlap (omega (arith, h, below))),
          ),
      λ h. replaces (subst (λ (t : Duration). t ≤ℤ pos 0) (sym same_ttl) h),
    )
