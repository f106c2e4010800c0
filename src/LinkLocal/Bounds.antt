-- ===== src/LinkLocal/Bounds.antt =====
-- Which parameters src/ext/link_local.rs accepts, and that no number it computes leaves its width.
use fctools.Base.{
  inl, inr, ℕ, ◌+◌, ◌-◌, ◌*◌, ◌/◌, ◌^◌, ◌≤◌, ◌<◌, ◌≡◌, ◌↔◌, ◌⊎◌, true, ◌&&◌, ◌||◌, refl, ltb, leb,
  ◌==◌, none, ok, err, arith, passes_below, row_of_table,
}
use native.Mathlib.Decide.{dec_lt}
use native.Mathlib.Nat.{le-div_iff_mul-le}
use native.Mathlib.Numerals.{add-one}
use fctools.LinkLocal.{
  LinkLocalSubnet, get_ip_amount, validate_network_length_and_subnet_index, new, of_index,
  network_length_does_not_fit, subnet_index_does_not_fit,
}

-- What every subnet that the constructors return satisfies.
pub record IsValid (s : LinkLocalSubnet) : Type 0 where
  pub length_low : 17 ≤ s.network_length
  pub length_high : s.network_length ≤ 30
  pub amount : s.ip_amount ≡ 2 ^ (32 - s.network_length)
  pub fits : (s.subnet_index + 1) * s.ip_amount ≤ 65536

-- The amounts of the accepted lengths, checked one by one.
amount_table :
    passes_below
      (λ n.
        ltb n 17
        || (get_ip_amount n == 2 ^ (32 - n)) && leb 4 (2 ^ (32 - n)) && leb (2 ^ (32 - n)) 32768)
      31
    ≡ true
unfolding passes_below get_ip_amount
amount_table = refl

amount_row :
    (n : ℕ)
    → 17 ≤ n
    → n ≤ 30
    → (ltb n 17
        || (get_ip_amount n == 2 ^ (32 - n)) && leb 4 (2 ^ (32 - n)) && leb (2 ^ (32 - n)) 32768)
      ≡ true
amount_row n low high =
    row_of_table
      (λ n.
        ltb n 17
        || (get_ip_amount n == 2 ^ (32 - n)) && leb 4 (2 ^ (32 - n)) && leb (2 ^ (32 - n)) 32768)
      31 {row = n} (omega arith) amount_table

-- In the accepted range `get_ip_amount` is the exact power of two, between 4 and 32768.
pub get_ip_amount_lem :
    (n : ℕ)
    → 17 ≤ n
    → n ≤ 30
    → (get_ip_amount n ≡ 2 ^ (32 - n)) × (4 ≤ get_ip_amount n) × (get_ip_amount n ≤ 32768)
get_ip_amount_lem n low high = ground (arith, amount_row n low high)

module _ (s : LinkLocalSubnet) (v : IsValid s) where
  pub amount_bounds : (4 ≤ s.ip_amount) × (s.ip_amount ≤ 32768)
  amount_bounds =
      omega (arith, get_ip_amount_lem s.network_length v.length_low v.length_high, v.amount)

  -- The position of an address in 169.254.0.0/16 needs 16 bits.
  pub position_lt : (i : ℕ) → i < s.ip_amount → s.ip_amount * s.subnet_index + i < 65536
  position_lt i h = grind (arith, v.fits)

-- An index below the number of networks is one whose network ends inside the range.
quotient_gt : (a i : ℕ) → 1 ≤ a → i < 65536 / a → (i + 1) * a ≤ 65536
quotient_gt a i h lt = rw add-one ((le-div_iff_mul-le h).0 lt)

quotient_gt_of : (a i : ℕ) → 1 ≤ a → (i + 1) * a ≤ 65536 → i < 65536 / a
quotient_gt_of a i h le = (le-div_iff_mul-le h).1 (rw add-one at le)

-- The validation passes exactly for the lengths 17 to 30 and the networks that end inside the
-- range.
pub validate_iff :
    (n i : ℕ)
    → (validate_network_length_and_subnet_index n i ≡ none)
      ↔ ((17 ≤ n) × (n ≤ 30) × ((i + 1) * get_ip_amount n ≤ 65536))
unfolding validate_network_length_and_subnet_index
validate_iff n i = (
  λ h. ground (arith, get_ip_amount_lem n, quotient_gt (get_ip_amount n) i),
  λ h. ground (arith, get_ip_amount_lem n, quotient_gt_of (get_ip_amount n) i),
)

pub new_lem :
    (i n : ℕ)
    → ((n < 17) ⊎ (30 < n) → new i n ≡ err network_length_does_not_fit)
      × (17 ≤ n → n ≤ 30 → 65536 < (i + 1) * 2 ^ (32 - n) → new i n ≡ err subnet_index_does_not_fit)
      × (17 ≤ n
          → n ≤ 30
          → (i + 1) * 2 ^ (32 - n) ≤ 65536
          → new i n
            ≡ ok (record { subnet_index = i; network_length = n; ip_amount = 2 ^ (32 - n) }))
unfolding new validate_network_length_and_subnet_index
new_lem i n = (
  λ h. ground arith,
  λ low high h.
      let amount = (get_ip_amount_lem n low high).0 in
      ground (arith, get_ip_amount_lem n, quotient_gt (get_ip_amount n) i),
  λ low high h. ground (arith, get_ip_amount_lem n, quotient_gt_of (get_ip_amount n) i),
)

-- `new`, on every branch: a length outside 17 to 30 is refused, then an index whose network would
-- end after 169.254.255.255, and any other pair is accepted as it is given.
pub new_cases :
    (i n : ℕ)
    → (((n < 17) ⊎ (30 < n)) × (new i n ≡ err network_length_does_not_fit))
      ⊎ (((17 ≤ n)
            × (n ≤ 30)
            × (65536 < (i + 1) * 2 ^ (32 - n))
            × (new i n ≡ err subnet_index_does_not_fit))
          ⊎ ((17 ≤ n)
              × (n ≤ 30)
              × ((i + 1) * 2 ^ (32 - n) ≤ 65536)
              × (new i n
                  ≡ ok
                      (record { subnet_index = i; network_length = n; ip_amount = 2 ^ (32 - n) }))))
new_cases i n = elim (dec_lt n 17) [
  | yes short ↦ inl (inl short, (new_lem i n).0 (inl short))
  | no long_enough ↦ elim (dec_lt 30 n) [
    | yes long ↦ inl (inr long, (new_lem i n).0 (inr long))
    | no not_longer ↦
        let low : 17 ≤ n = omega arith in
        let high : n ≤ 30 = omega arith in
        elim (dec_lt 65536 ((i + 1) * 2 ^ (32 - n))) [
          | yes over ↦ inr (inl (low, high, over, (new_lem i n).1 low high over))
          | no not_longer ↦
              let fits : (i + 1) * 2 ^ (32 - n) ≤ 65536 = omega arith in
              inr (inr (low, high, fits, (new_lem i n).2 low high fits))
        ]
  ]
]

pub new-IsValid : (i n : ℕ) {s : LinkLocalSubnet} → new i n ≡ ok s → IsValid s
unfolding new
new-IsValid i n {s} h = ground (arith, validate_iff n i, get_ip_amount_lem n)

pub of_index-IsValid : (i n : ℕ) {s : LinkLocalSubnet} → of_index n i ≡ ok s → IsValid s
unfolding of_index
of_index-IsValid i n {s} h = ground (arith, validate_iff n i, get_ip_amount_lem n)

wide_table : passes_below (λ n. ltb n 17 || leb 256 (get_ip_amount n)) 25 ≡ true
unfolding passes_below get_ip_amount
wide_table = refl

-- A network length of 24 or less gives at least 256 addresses.
pub wide_amount : (s : LinkLocalSubnet) → IsValid s → s.network_length ≤ 24 → 256 ≤ s.ip_amount
wide_amount s v short =
    let row =
      row_of_table (λ n. ltb n 17 || leb 256 (get_ip_amount n)) 25 {row = s.network_length}
        (omega arith) wide_table in
    let exact = (get_ip_amount_lem s.network_length v.length_low v.length_high).0 in ground arith
