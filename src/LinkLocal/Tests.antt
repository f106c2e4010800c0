-- ===== src/LinkLocal/Tests.antt =====
-- Runs of src/ext/link_local.rs over a concrete `Cidr`, and the theorems at concrete subnets.
use fctools.Base.{
  ◌⊎◌, ◌<◌, ◌≤◌, ◌*◌, ◌+◌, ◌-◌, ◌^◌, ℕ, ◌≡◌, refl, ◌≢◌, true, false, some, none, ok, err, panic,
  arith, leb, if◌then◌else◌, [], ◌∷◌,
}
use fctools.LinkLocal.{
  Ipv4Addr, Cidr, IsCidr, LinkLocalSubnet, ip_index_does_not_fit, network_length_does_not_fit,
  subnet_index_does_not_fit, new, get_ip, get_host_ip, from_inet, get_host_ips,
  validate_network_length_and_subnet_index, get_ip_amount, push_ips, of_index, index_of_octets,
  get_ip_imp,
}
use fctools.LinkLocal.Bounds.{IsValid, new_cases, new-IsValid}
use fctools.LinkLocal.Range.{addr_at, start, get_ip_cases, get_ip_injective}
use fctools.LinkLocal.Inverse.{from_inet-get_ip_ne, from_inet-IsValid}

abbrev PlainInet : Type 0
PlainInet = record { address : Ipv4Addr; network_length : ℕ }

abbrev plain : Cidr
plain = record {
  Inet = PlainInet;
  new = λ a n. if leb n 32 then some (record { address = a; network_length = n }) else none;
  address = λ i. i.address;
  network_length = λ i. i.network_length;
}

plain-IsCidr : IsCidr plain
plain-IsCidr = record {
  new_accepts = λ a n h. (record { address = a; network_length = n }, ground arith, refl, refl);
}

abbrev block : LinkLocalSubnet
block = record { subnet_index = 3; network_length = 24; ip_amount = 256 }

block-IsValid : IsValid block
block-IsValid = omega arith

abbrev inet : Ipv4Addr → ℕ → PlainInet
inet a n = record { address = a; network_length = n }

new_block : new 3 24 ≡ ok block
unfolding new validate_network_length_and_subnet_index get_ip_amount
new_block = refl

third_host : get_host_ip plain block 2 ≡ ok (inet (addr_at 771) 24)
unfolding get_host_ip get_ip_imp
third_host = refl

new-IsValid_example : IsValid block
new-IsValid_example = new-IsValid 3 24 new_block

abbrev small : LinkLocalSubnet
small = record { subnet_index = 5; network_length = 30; ip_amount = 4 }

small-IsValid : IsValid small
small-IsValid = omega arith

small_hosts : get_host_ips plain small ≡ ok (inet (addr_at 21) 30 ∷ inet (addr_at 22) 30 ∷ [])
unfolding get_host_ips get_host_ip push_ips get_ip_imp
small_hosts = refl

-- The first address of 169.254.3.0/24 is put into a subnet with another index.
lost_index :
    from_inet plain true (inet (addr_at 768) 24)
    ≡ ok (record { subnet_index = 32; network_length = 24; ip_amount = 256 })
unfolding from_inet index_of_octets of_index validate_network_length_and_subnet_index get_ip_amount
lost_index = refl

-- 169.254.0.1/24 underflows: a panic with overflow checks, a refusal without.
underflow :
    (from_inet plain true (inet (addr_at 1) 24) ≡ panic)
    × (from_inet plain false (inet (addr_at 1) 24) ≡ err subnet_index_does_not_fit)
unfolding from_inet index_of_octets of_index validate_network_length_and_subnet_index get_ip_amount
underflow = (refl, refl)

new_cases_example :
    (((16 < 17) ⊎ (30 < 16)) × (new 3 16 ≡ err network_length_does_not_fit))
    ⊎ (((17 ≤ 16)
          × (16 ≤ 30)
          × (65536 < (3 + 1) * 2 ^ (32 - 16))
          × (new 3 16 ≡ err subnet_index_does_not_fit))
        ⊎ ((17 ≤ 16)
            × (16 ≤ 30)
            × ((3 + 1) * 2 ^ (32 - 16) ≤ 65536)
            × (new 3 16
                ≡ ok
                    (record { subnet_index = 3; network_length = 16; ip_amount = 2 ^ (32 - 16) }))))
new_cases_example = new_cases 3 16

get_ip_cases_example :
    ((2 < small.ip_amount)
      × (ip : PlainInet) × (get_ip plain small 2 ≡ ok ip)
      × (ip.address ≡ addr_at (start small + 2))
      × (ip.network_length ≡ small.network_length))
    ⊎ ((small.ip_amount ≤ 2) × (get_ip plain small 2 ≡ err ip_index_does_not_fit))
get_ip_cases_example = get_ip_cases plain plain-IsCidr small small-IsValid 2

get_ip_injective_example : (small ≡ small) × (◌≡◌ {A = ℕ} 2 2)
unfolding get_ip get_ip_imp
get_ip_injective_example =
    get_ip_injective plain plain-IsCidr small small small-IsValid small-IsValid 2 2
      {a = inet (addr_at 22) 30} {b = inet (addr_at 22) 30} refl refl refl refl

from_inet-get_ip_ne_example : from_inet plain true (inet (addr_at 770) 24) ≢ ok block
unfolding get_ip get_ip_imp
from_inet-get_ip_ne_example =
    from_inet-get_ip_ne plain plain-IsCidr block block-IsValid true 2 {ip = inet (addr_at 770) 24}
      (omega arith) (omega arith) refl

from_inet-IsValid_example :
    IsValid (record { subnet_index = 32; network_length = 24; ip_amount = 256 })
    × (◌≡◌ {A = ℕ} 24 24)
from_inet-IsValid_example = from_inet-IsValid plain true (inet (addr_at 768) 24) lost_index
