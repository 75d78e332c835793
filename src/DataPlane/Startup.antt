-- ===== src/DataPlane/Startup.antt =====
-- The startup assertion of gateway/cmd/tsjwt-dataplane/main.go against the tailnet's identity source.
use tsjwt.Prelude.{
  Bool-cases, Text, codes, ◌≡◌, refl, inl, inr, true, false, Option, some, List, [],
}
use tsjwt.Errors.{Result, ok}
use tsjwt.GoTime.{Duration}
use tsjwt.Tailnet.{
  Addr, v4, v6, unmap, in_tailnet, host_of, is_tailnet_addr, CapRule, WhoIs, Source, identify,
}
use tsjwt.DataPlane.{is_refused, all_refused, assert_rejects}

-- net and netip read the three addresses outside as the loopback addresses and 203.0.113.1.
pub record ReadsOutside (split_host_port : Text → Option Text) (parse_addr : Text → Option Addr)
    : Type 0 where
  pub loopback_v4 :
      parse_addr (host_of (codes "127.0.0.1:1") (split_host_port (codes "127.0.0.1:1")))
      ≡ some (v4 0x7f000001)
  pub loopback_v6 :
      parse_addr (host_of (codes "[::1]:1") (split_host_port (codes "[::1]:1"))) ≡ some (v6 1 [])
  pub public_v4 :
      parse_addr (host_of (codes "203.0.113.1:443") (split_host_port (codes "203.0.113.1:443")))
      ≡ some (v4 0xcb007101)

module _ {CapMap : Type 0} (read_cap : CapMap → Text → Result (List CapRule))
    (split_host_port : Text → Option Text) (parse_addr : Text → Option Addr)
    (whois : Duration → Text → Result (Option (WhoIs CapMap)))
    (reads : ReadsOutside split_host_port parse_addr) where
  -- Whatever WhoIs says of it, a source that no tailnet gives to a node is refused.
  refused_outside :
      (s : Source) (remote : Text) (ip : Addr)
      → parse_addr (host_of remote (split_host_port remote)) ≡ some ip
      → in_tailnet (unmap ip) ≡ false
      → is_refused (identify read_cap split_host_port parse_addr whois s remote) ≡ true
  unfolding identify is_refused
  refused_outside s remote ip parsed outer =
      let foreign : is_tailnet_addr split_host_port parse_addr remote ≡ false =
        unfold is_tailnet_addr in rw (is_tailnet_addr, parsed) outer in
      elim (Bool-cases s.has_local) [
        | inl local ↦ rw (local, foreign) refl
        | inr none_there ↦ rw none_there refl
      ]

  -- The startup assertion passes for the tailnet's identity source, however it is configured and whatever WhoIs
  -- answers, given that the three addresses outside a tailnet are read as what they are.
  pub assert_rejects-passes :
      (s : Source) → assert_rejects (identify read_cap split_host_port parse_addr whois s) ≡ ok tt
  unfolding assert_rejects all_refused
  assert_rejects-passes s =
      rw
        (
          refused_outside s (codes "127.0.0.1:1") (v4 0x7f000001) reads.loopback_v4
              (unfold in_tailnet in refl),
          refused_outside s (codes "[::1]:1") (v6 1 []) reads.loopback_v6
              (unfold in_tailnet in refl),
          refused_outside s (codes "203.0.113.1:443") (v4 0xcb007101) reads.public_v4
              (unfold in_tailnet in refl),
        )
        refl
