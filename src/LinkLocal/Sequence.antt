-- ===== src/LinkLocal/Sequence.antt =====
-- `get_ips` and `get_host_ips` of src/ext/link_local.rs: the whole lists.
use mathlib.Core.List.{map-append}
use fctools.Base.{
  ℕ, zero, suc, ◌+◌, ◌-◌, ◌≤◌, ◌<◌, ◌≡◌, refl, sym, ap, ◌∙◌, List, [], ◌∷◌, ◌++◌, map, append-nil,
  append_snoc, ok, Outcome, arith,
}
use fctools.LinkLocal.{
  Ipv4Addr, Cidr, IsCidr, LinkLocalSubnet, LinkLocalSubnetError, get_ip, get_host_ip, push_ips,
  get_ips, get_host_ips,
}
use fctools.LinkLocal.Bounds.{IsValid, amount_bounds}
use fctools.LinkLocal.Range.{addr_at, start, span, snoc_span, get_ip_lem, get_host_ip_lem}

module _ (C : Cidr) (get : ℕ → Outcome LinkLocalSubnetError C.Inet) (f : ℕ → Ipv4Addr)
    (bound : ℕ) where
  -- `get` gives the address `f i` at every index below the bound.
  abbrev Gives : Type 0
  Gives = (i : ℕ) → i < bound → (ip : C.Inet) × (get i ≡ ok ip) × (C.address ip ≡ f i)

  push_ips_lem :
      Gives
      → (count first : ℕ) (ips : List C.Inet) → first + count ≤ bound
      → (out : List C.Inet) × (push_ips C get count first ips ≡ ok out)
        × (map C.address out ≡ map C.address ips ++ map f (span first count))
  unfolding push_ips
  push_ips_lem gives zero first ips h = (ips, refl, sym (append-nil _))
  push_ips_lem gives (suc count) first ips h =
      let (ip, got, address) = gives first (omega arith) in
      let (out, run, addresses) =
        push_ips_lem gives count (first + 1) (ips ++ (ip ∷ [])) (omega arith) in
      (
        out,
        rw got run,
        addresses ∙ rw (map-append, address) (append_snoc (map C.address ips) (f first) _),
      )

map-span :
    (k first count : ℕ)
    → map (λ i. addr_at (k + i)) (span first count) ≡ map addr_at (span (k + first) count)
map-span k first zero = refl
map-span k first (suc count) =
    ap (λ l. addr_at (k + first) ∷ l)
      (map-span k (first + 1) count ∙ ap (λ n. map addr_at (span n count)) (omega arith))

span_ends :
    (first n : ℕ)
    → 2 ≤ n
    → span first n ≡ first ∷ (span (first + 1) (n - 2) ++ ((first + n - 1) ∷ []))
span_ends first zero h = absurd (omega arith)
span_ends first (suc zero) h = absurd (omega arith)
span_ends first (suc (suc n)) h =
    let count : suc (suc n) - 2 ≡ n = omega arith in
    let last : first + suc (suc n) - 1 ≡ first + 1 + n = omega arith in
    rw (count, last) (ap (λ l. first ∷ l) (snoc_span (first + 1) n))

module _ (C : Cidr) (L : IsCidr C) (s : LinkLocalSubnet) (v : IsValid s) where
  -- `get_ips` succeeds, and its addresses are all those of the subnet, once each, in order.
  pub get_ips_lem :
      (ips : List C.Inet) × (get_ips C s ≡ ok ips)
      × (map C.address ips ≡ map addr_at (span (start s) s.ip_amount))
  unfolding get_ips
  get_ips_lem =
      let gives : Gives C (get_ip C s) (λ i. addr_at (start s + i)) s.ip_amount =
        λ i h. let (ip, got, address, len) = (get_ip_lem C L s v i).0 h in (ip, got, address) in
      let (ips, run, addresses) = push_ips_lem C _ _ _ gives s.ip_amount 0 [] (omega arith) in
      (
        ips,
        ground (arith, amount_bounds s v),
        addresses
            ∙ map-span (start s) 0 s.ip_amount
            ∙ ap (λ n. map addr_at (span n s.ip_amount)) (omega arith),
      )

  get_host_ips_lem :
      (ips : List C.Inet) × (get_host_ips C s ≡ ok ips)
      × (map C.address ips ≡ map addr_at (span (start s + 1) (s.ip_amount - 2)))
  unfolding get_host_ips
  get_host_ips_lem =
      let gives : Gives C (get_host_ip C s) (λ i. addr_at (start s + 1 + i)) (s.ip_amount - 2) =
        λ i h.
          let (ip, got, address, len) = (get_host_ip_lem C L s v i).0 (omega arith) in
          (ip, got, address ∙ ap addr_at (omega arith)) in
      let (ips, run, addresses) = push_ips_lem C _ _ _ gives (s.ip_amount - 2) 0 [] (omega arith) in
      (
        ips,
        ground (arith, amount_bounds s v),
        addresses
            ∙ map-span (start s + 1) 0 (s.ip_amount - 2)
            ∙ ap (λ n. map addr_at (span n (s.ip_amount - 2))) (omega arith),
      )

  -- The host addresses are those of `get_ips` without the first and the last one.
  pub get_ips-get_host_ips :
      (ips hosts : List C.Inet) × (get_ips C s ≡ ok ips)
      × (get_host_ips C s ≡ ok hosts)
      × (map C.address ips
          ≡ addr_at (start s) ∷ (map C.address hosts ++ (addr_at (start s + s.ip_amount - 1) ∷ [])))
  get_ips-get_host_ips =
      let (ips, run, all) = get_ips_lem in
      let (hosts, host_run, inner) = get_host_ips_lem in
      let ends = span_ends (start s) s.ip_amount (omega (arith, amount_bounds s v)) in
      (
        ips,
        hosts,
        run,
        host_run,
        all
            ∙ ap (map addr_at) ends
            ∙ ap (λ l. addr_at (start s) ∷ l)
                (map-append addr_at (span (start s + 1) (s.ip_amount - 2)) _
                  ∙ ap (λ l. l ++ (addr_at (start s + s.ip_amount - 1) ∷ [])) (sym inner)),
      )
