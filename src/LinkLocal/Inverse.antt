-- ===== src/LinkLocal/Inverse.antt =====
-- `from_inet` of src/ext/link_local.rs beside `get_ip`: whose network it finds.
use fctools.Base.{
  ℕ, ◌+◌, ◌-◌, ◌*◌, ◌/◌, ◌%◌, ◌≤◌, ◌<◌, ◌≡◌, ap, ◌≢◌, Bool, true, ok, err, panic, Outcome, arith,
}
use native.Mathlib.Nat.{mod-lt, lt-div-mul-add}
use fctools.Base.Outcomes.{◌>>=◌}
use fctools.LinkLocal.{
  Ipv4Addr, Cidr, IsCidr, LinkLocalSubnet, LinkLocalSubnetError, get_ip, is_link_local,
  index_of_octets, of_index, from_inet,
}
use fctools.LinkLocal.Bounds.{IsValid, of_index-IsValid, wide_amount}
use fctools.LinkLocal.Range.{start, get_ip_inversion}

of_index_fields :
    (i n : ℕ) {s : LinkLocalSubnet}
    → of_index n i ≡ ok s
    → (s.subnet_index ≡ i) × (s.network_length ≡ n)
unfolding of_index
of_index_fields i n h = ground arith

-- At a network length of 17 to 24 the computed index is not the index of the network.
index_too_large :
    (checks : Bool) (a b n k : ℕ)
    → 17 ≤ n
    → n ≤ 24
    → 1 ≤ k
    → k ≤ a
    → index_of_octets checks a b n ≢ ok k
unfolding index_of_octets
index_too_large checks a b n k low high pos le h =
    let rest : b % n < n = mod-lt b (omega arith) in
    let quotient : (256 * a - b % n + (n - 1)) / n ≡ k = ground arith in
    let above : 256 * a - b % n + (n - 1) < k * n + n =
      rw quotient at (lt-div-mul-add {a = 256 * a - b % n + (n - 1)} {b = n} (omega arith)) in
    let scaled : k * n ≤ k * 24 = grind arith in omega arith

after_index :
    (r : Outcome LinkLocalSubnetError ℕ) (n : ℕ) {s : LinkLocalSubnet}
    → (r >>= λ i. of_index n i) ≡ ok s
    → (r ≡ ok s.subnet_index) × IsValid s × (s.network_length ≡ n)
after_index (ok i) n {s} h =
    (ground (arith, of_index_fields i n h), of_index-IsValid i n h, (of_index_fields i n h).1)
after_index (err e) n h = cc
after_index panic n h = cc

module _ (C : Cidr) where
  -- Whatever `from_inet` returns is a valid subnet with the network length of its argument.
  pub from_inet-IsValid :
      (checks : Bool) (inet : C.Inet) {s : LinkLocalSubnet}
      → from_inet C checks inet ≡ ok s
      → IsValid s × (s.network_length ≡ C.network_length inet)
  unfolding from_inet
  from_inet-IsValid checks inet {s} h = ground (
    arith,
    after_index
        (index_of_octets checks (C.address inet).octet_3 (C.address inet).octet_4
          (C.network_length inet))
        (C.network_length inet) {s = s},
  )

  -- The network length 0 makes `from_inet` divide by zero for every link-local address.
  pub from_inet_panics :
      (checks : Bool) (inet : C.Inet)
      → is_link_local (C.address inet) ≡ true
      → C.network_length inet ≡ 0
      → from_inet C checks inet ≡ panic
  unfolding from_inet index_of_octets
  from_inet_panics checks inet local zero_length = ground arith

module _ (C : Cidr) (L : IsCidr C) (s : LinkLocalSubnet) (v : IsValid s) where
  -- For a subnet of network length 24 or less that is not the first one, `from_inet` finds the
  -- subnet of none of its addresses.
  pub from_inet-get_ip_ne :
      (checks : Bool) (i : ℕ) {ip : C.Inet}
      → s.network_length ≤ 24
      → 1 ≤ s.subnet_index
      → get_ip C s i ≡ ok ip
      → from_inet C checks ip ≢ ok s
  unfolding from_inet
  from_inet-get_ip_ne checks i {ip} short pos got back =
      let (inside, address, len) = get_ip_inversion C L s v i got in
      let third : (C.address ip).octet_3 ≡ (start s + i) / 256 =
        ap (λ (a : Ipv4Addr). a.octet_3) address in
      let wide : 256 ≤ s.ip_amount = wide_amount s v short in
      let far : 256 * s.subnet_index ≤ s.ip_amount * s.subnet_index = grind arith in
      index_too_large checks (C.address ip).octet_3 (C.address ip).octet_4 s.network_length
        s.subnet_index v.length_low short pos (omega arith)
        (ground (
          arith,
          after_index
              (index_of_octets checks (C.address ip).octet_3 (C.address ip).octet_4
                (C.network_length ip))
              (C.network_length ip) {s = s},
        ))
