-- ===== src/Tailnet/Address.antt =====
-- Which source addresses isTailnetAddr of tsnetid/tsnetid.go takes for those of a tailnet peer.
use tsjwt.Prelude.{
  ◌==◌, Bool-cases, Option-cases, some-injective, Text, ℕ, ◌*◌, ◌/◌, ◌%◌, ◌^◌, ◌≤◌, ◌<◌, ◌≡◌, refl,
  sym, subst, ◌↔◌, ◌⊎◌, inl, inr, true, Option, some, [], ◌∷◌, arith,
}
use tsjwt.Tailnet.{Addr, v4, v6, unmap, in_tailnet, host_of, is_tailnet_addr}

-- The address is one that a tailnet gives to a node: 100.64.0.0 to 100.127.255.255, as it is or written as
-- an IPv6 address, or an address of fd7a:115c:a1e0::/48 without a zone.
abbrev pub IsPeer : Addr → Type 0
IsPeer (v4 n) = (0x64400000 ≤ n) × (n ≤ 0x647fffff)
IsPeer (v6 n zone) =
    ((0xffff64400000 ≤ n) × (n ≤ 0xffff647fffff))
    ⊎ ((zone ≡ []) × (0xfd7a115ca1e0 * 2 ^ 80 ≤ n) × (n < 0xfd7a115ca1e1 * 2 ^ 80))

in_tailnet_v4 : (n : ℕ) → (in_tailnet (v4 n) ≡ true) ↔ IsPeer (v4 n)
unfolding in_tailnet
in_tailnet_v4 n = ground arith

in_tailnet_v6 :
    (n : ℕ) (zone : Text)
    → (in_tailnet (v6 n zone) ≡ true)
      ↔ ((zone ≡ []) × (0xfd7a115ca1e0 * 2 ^ 80 ≤ n) × (n < 0xfd7a115ca1e1 * 2 ^ 80))
unfolding in_tailnet
in_tailnet_v6 n [] = ground arith
in_tailnet_v6 n (c ∷ zone) = ground arith

unmapped_iff : (ip : Addr) → (in_tailnet (unmap ip) ≡ true) ↔ IsPeer ip
unmapped_iff (v4 n) = in_tailnet_v4 n
unmapped_iff (v6 n zone) = elim (Bool-cases (n / 2 ^ 32 == 0xffff)) [
  | inl mapped ↦
      let e = in_tailnet_v4 (n % 2 ^ 32) in
      rw mapped (
        λ h. let (low, high) = e.0 h in inl (ground arith, ground arith),
        λ h. elim h [ inl r ↦ e.1 (ground arith, ground arith) | inr r ↦ absurd (ground arith) ],
      )
  | inr plain ↦
      let e = in_tailnet_v6 n zone in
      rw plain (λ h. inr (e.0 h), λ h. elim h [ inl r ↦ absurd (ground arith) | inr r ↦ e.1 r ])
]

module _ (split_host_port : Text → Option Text) (parse_addr : Text → Option Addr) where
  -- A source address is taken for a tailnet peer's exactly if its host part parses to an address that a
  -- tailnet gives to a node.
  pub is_tailnet_addr_iff :
      (remote : Text)
      → (is_tailnet_addr split_host_port parse_addr remote ≡ true) ↔ (
          (ip : Addr) × (parse_addr (host_of remote (split_host_port remote)) ≡ some ip)
          × IsPeer ip)
  unfolding is_tailnet_addr
  is_tailnet_addr_iff remote =
      elim (Option-cases (parse_addr (host_of remote (split_host_port remote)))) [
        | inl nothing ↦ rw (nothing, is_tailnet_addr) ((λ h. absurd (cc h)), λ p. absurd (cc (p.1)))
        | inr (ip, found) ↦
            rw (found, is_tailnet_addr)
              (
                λ h. (ip, refl, (unmapped_iff ip).0 h),
                λ p.
                    subst (λ (a : Addr). in_tailnet (unmap a) ≡ true) (sym (some-injective p.1))
                      ((unmapped_iff p.0).1 p.2),
              )
      ]
