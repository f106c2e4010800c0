-- ===== src/LinkLocal/Range.antt =====
-- The addresses that src/ext/link_local.rs gives out: which they are, that none is missing or
-- shared, and that the conversions never overflow.
use native.Mathlib.Decide.{dec_lt}
use native.Mathlib.Nat.{mul-add-div, div-eq_of_lt}
use mathlib.Core.Path.{ap₂}
use fctools.Base.{
  inl, inr, ◌⊎◌, ℕ, zero, suc, ◌+◌, ◌-◌, ◌*◌, ◌/◌, ◌%◌, ◌^◌, ◌≤◌, ◌<◌, ◌≡◌, sym, ap, ◌∙◌, List, [],
  ◌∷◌, ◌++◌, ok, err, arith,
}
use fctools.LinkLocal.{
  Ipv4Addr, Cidr, IsCidr, LinkLocalSubnet, ip_index_does_not_fit, get_ip_imp, get_ip, get_host_ip,
}
use fctools.LinkLocal.Bounds.{IsValid, amount_bounds, position_lt}

-- The address at a position of 169.254.0.0/16.
abbrev pub addr_at : ℕ → Ipv4Addr
addr_at x = record { octet_1 = 169; octet_2 = 254; octet_3 = x / 256; octet_4 = x % 256 }

-- The first position of the subnet.
abbrev pub start : LinkLocalSubnet → ℕ
start s = s.ip_amount * s.subnet_index

-- `count` numbers in a row.
abbrev pub span : ℕ → ℕ → List ℕ
span first zero = []
span first (suc count) = first ∷ span (first + 1) count

quotient_of : (a k i : ℕ) → i < a → (a * k + i) / a ≡ k
quotient_of a k i h =
    mul-add-div {m = a} (omega arith) k i ∙ ap (λ n. k + n) (div-eq_of_lt h) ∙ omega arith

addr_at_injective : (x y : ℕ) → addr_at x ≡ addr_at y → x ≡ y
addr_at_injective x y h =
    let high : x / 256 ≡ y / 256 = ap (λ (a : Ipv4Addr). a.octet_3) h in
    let low : x % 256 ≡ y % 256 = ap (λ (a : Ipv4Addr). a.octet_4) h in omega arith

pub snoc_span :
    (first count : ℕ) → span first (suc count) ≡ span first count ++ ((first + count) ∷ [])
snoc_span first zero = ap (λ n. n ∷ []) (omega arith)
snoc_span first (suc count) =
    ap (λ l. first ∷ l)
      (snoc_span (first + 1) count ∙ ap (λ n. span (first + 1) count ++ (n ∷ [])) (omega arith))

module _ (C : Cidr) (L : IsCidr C) (s : LinkLocalSubnet) (v : IsValid s) where
  get_ip_imp_lem :
      (x : ℕ)
      → x < 65536
      → (ip : C.Inet) × (get_ip_imp C s x ≡ ok ip)
        × (C.address ip ≡ addr_at x)
        × (C.network_length ip ≡ s.network_length)
  unfolding get_ip_imp
  get_ip_imp_lem x h =
      let (ip, made, address, len) =
        L.new_accepts (addr_at x) s.network_length (omega (arith, v.length_high)) in
      (ip, ground arith, address, len)

  pub get_ip_lem :
      (i : ℕ)
      → (i < s.ip_amount
          → (ip : C.Inet) × (get_ip C s i ≡ ok ip)
            × (C.address ip ≡ addr_at (start s + i))
            × (C.network_length ip ≡ s.network_length))
        × (s.ip_amount ≤ i → get_ip C s i ≡ err ip_index_does_not_fit)
  unfolding get_ip
  get_ip_lem i = (
    λ h.
        let bound = position_lt s v i h in
        let (ip, made, address, len) = get_ip_imp_lem (start s + i) bound in
        let whole : (start s + i) % 2 ^ 32 ≡ start s + i = omega arith in
        (ip, ground arith, address, len),
    λ h. ground arith,
  )

  pub get_host_ip_lem :
      (i : ℕ)
      → (i + 2 < s.ip_amount
          → (ip : C.Inet) × (get_host_ip C s i ≡ ok ip)
            × (C.address ip ≡ addr_at (start s + (i + 1)))
            × (C.network_length ip ≡ s.network_length))
        × (s.ip_amount ≤ i + 2 → get_host_ip C s i ≡ err ip_index_does_not_fit)
  unfolding get_host_ip
  get_host_ip_lem i = (
    λ h.
        let bound = position_lt s v (i + 1) (omega arith) in
        let (ip, made, address, len) = get_ip_imp_lem (start s + (i + 1)) bound in
        let whole : (start s + i + 1) % 2 ^ 32 ≡ start s + (i + 1) = omega arith in
        (ip, ground arith, address, len),
    λ h. ground (arith, amount_bounds s v),
  )

  -- An index inside the subnet gives the address at that offset from its start, with the network
  -- length of the subnet; any other index is refused.
  pub get_ip_cases :
      (i : ℕ)
      → ((i < s.ip_amount)
          × (ip : C.Inet) × (get_ip C s i ≡ ok ip)
          × (C.address ip ≡ addr_at (start s + i))
          × (C.network_length ip ≡ s.network_length))
        ⊎ ((s.ip_amount ≤ i) × (get_ip C s i ≡ err ip_index_does_not_fit))
  get_ip_cases i = elim (dec_lt i s.ip_amount) [
    | yes inside ↦
        let (ip, got, address, len) = (get_ip_lem i).0 inside in inl (inside, ip, got, address, len)
    | no outside ↦ let high : s.ip_amount ≤ i = omega arith in inr (high, (get_ip_lem i).1 high)
  ]

  -- A host index gives the address one further on, and the last address is never given out.
  pub get_host_ip_cases :
      (i : ℕ)
      → ((i + 2 < s.ip_amount)
          × (ip : C.Inet) × (get_host_ip C s i ≡ ok ip)
          × (C.address ip ≡ addr_at (start s + (i + 1)))
          × (C.network_length ip ≡ s.network_length))
        ⊎ ((s.ip_amount ≤ i + 2) × (get_host_ip C s i ≡ err ip_index_does_not_fit))
  get_host_ip_cases i = elim (dec_lt (i + 2) s.ip_amount) [
    | yes inside ↦
        let (ip, got, address, len) = (get_host_ip_lem i).0 inside in
        inl (inside, ip, got, address, len)
    | no outside ↦
        let high : s.ip_amount ≤ i + 2 = omega arith in inr (high, (get_host_ip_lem i).1 high)
  ]

  -- `get_ip` succeeds only inside the subnet, with the address of that position.
  pub get_ip_inversion :
      (i : ℕ) {ip : C.Inet}
      → get_ip C s i ≡ ok ip
      → (i < s.ip_amount)
        × (C.address ip ≡ addr_at (start s + i))
        × (C.network_length ip ≡ s.network_length)
  get_ip_inversion i {ip} h = elim (dec_lt i s.ip_amount) [
    | yes inside ↦
        let (ip', got, address, len) = (get_ip_lem i).0 inside in
        let same : ip' ≡ ip = cc in (inside, rw (← same) address, rw (← same) len)
    | no outside ↦ cc ((get_ip_lem i).1 (omega arith))
  ]

module _ (C : Cidr) (L : IsCidr C) (s t : LinkLocalSubnet) (v : IsValid s) (w : IsValid t) where
  -- Two subnets of one network length share no address, and one subnet gives no address twice.
  pub get_ip_injective :
      (i j : ℕ) {a b : C.Inet}
      → s.network_length ≡ t.network_length
      → get_ip C s i ≡ ok a
      → get_ip C t j ≡ ok b
      → C.address a ≡ C.address b
      → (s ≡ t) × (i ≡ j)
  get_ip_injective i j len got_a got_b same =
      let (in_s, at_s, _) = get_ip_inversion C L s v i got_a in
      let (in_t, at_t, _) = get_ip_inversion C L t w j got_b in
      let amounts : s.ip_amount ≡ t.ip_amount =
        v.amount ∙ ap (λ n. 2 ^ (32 - n)) len ∙ sym w.amount in
      let positions : start s + i ≡ start t + j = addr_at_injective _ _ (sym at_s ∙ same ∙ at_t) in
      let index : s.subnet_index ≡ t.subnet_index =
        sym (quotient_of s.ip_amount s.subnet_index i in_s)
        ∙ ap (λ n. n / s.ip_amount) positions
        ∙ rw amounts (quotient_of t.ip_amount t.subnet_index j in_t) in
      let starts : start s ≡ start t = ap₂ (λ m n. m * n) amounts index in (cc, omega arith)
