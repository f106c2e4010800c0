-- ===== src/LinkLocal.antt =====
-- src/ext/link_local.rs: link-local subnets, all inside 169.254.0.0/16. The `cidr` crate's
-- `Ipv4Inet` is the parameter `Cidr`.
pub mod Bounds
pub mod Range
pub mod Sequence
pub mod Inverse
mod Tests
use fctools.Base.{
  ℕ, zero, suc, ◌+◌, ◌-◌, ◌*◌, ◌/◌, ◌%◌, ◌^◌, ◌≤◌, ◌≡◌, Bool, ◌&&◌, ◌||◌, Option, none, some, List,
  [], ◌∷◌, ◌++◌, ltb, leb, ◌==◌, if◌then◌else◌, not, Outcome, ok, err, panic, ok_or,
}
use fctools.Base.Outcomes.{◌>>=◌, ◌>>◌}

-- `std::net::Ipv4Addr`, by its octets.
pub record Ipv4Addr : Type 0 where
  pub octet_1 : ℕ
  pub octet_2 : ℕ
  pub octet_3 : ℕ
  pub octet_4 : ℕ

-- `Ipv4Addr::is_link_local`
unfoldable pub is_link_local : Ipv4Addr → Bool
is_link_local a = a.octet_1 == 169 && a.octet_2 == 254

-- What the code uses of `cidr::Ipv4Inet`; `new` fails by `none`.
pub record Cidr : Type 1 where
  pub Inet : Type 0
  pub new : Ipv4Addr → ℕ → Option Inet
  pub address : Inet → Ipv4Addr
  pub network_length : Inet → ℕ

-- The crate's documentation: `new` accepts the lengths up to 32 and keeps both parts.
pub record IsCidr (C : Cidr) : Type 0 where
  pub new_accepts :
      (a : Ipv4Addr) (n : ℕ)
      → n ≤ 32
      → (i : C.Inet) × (C.new a n ≡ some i) × (C.address i ≡ a) × (C.network_length i ≡ n)

pub record LinkLocalSubnet : Type 0 where
  pub subnet_index : ℕ  -- u16
  pub network_length : ℕ  -- u8
  pub ip_amount : ℕ  -- u32

abbrev pub link_local_octet_1 : ℕ
link_local_octet_1 = 169

abbrev pub link_local_octet_2 : ℕ
link_local_octet_2 = 254

abbrev pub link_local_ip_amount : ℕ
link_local_ip_amount = 65536

pub data LinkLocalSubnetError : Type 0 where
  not_link_local network_length_does_not_fit subnet_index_does_not_fit : LinkLocalSubnetError
  ip_index_does_not_fit unexpected_overflow : LinkLocalSubnetError

-- `2_u32.pow(32 - n)`: a `u32`. It is read only after the network length has been validated.
unfoldable pub get_ip_amount : ℕ → ℕ
get_ip_amount network_length = 2 ^ (32 - network_length) % 2 ^ 32

-- `none` for `Ok(())`.
unfoldable pub validate_network_length_and_subnet_index : ℕ → ℕ → Option LinkLocalSubnetError
validate_network_length_and_subnet_index network_length subnet_index =
    if ltb 30 network_length || ltb network_length 17
    then some network_length_does_not_fit
    else if leb (link_local_ip_amount / get_ip_amount network_length) subnet_index
    then some subnet_index_does_not_fit
    else none

-- `LinkLocalSubnet::new`
unfoldable pub new : ℕ → ℕ → Outcome LinkLocalSubnetError LinkLocalSubnet
new subnet_index network_length =
    elim (validate_network_length_and_subnet_index network_length subnet_index) [
      | some error ↦ err error
      | none ↦ ok (record {
        subnet_index = subnet_index;
        network_length = network_length;
        ip_amount = get_ip_amount network_length;
      })
    ]

-- `usize::MAX` of a 64-bit target.
abbrev usize_max : ℕ
usize_max = 2 ^ 64 - 1

-- The conversion to `u8` by `try_into`, with its error mapped.
unfoldable pub octet : ℕ → Outcome LinkLocalSubnetError ℕ
octet n = if ltb n 256 then ok n else err unexpected_overflow

-- `div_ceil`; the divisor 0 panics.
div_ceil : ℕ → ℕ → Outcome LinkLocalSubnetError ℕ
div_ceil a b = if b == 0 then panic else ok ((a + (b - 1)) / b)

-- The `u16` subtraction `256 * a - r`: with `overflow_checks` (the debug profile) a negative result
-- panics, without it wraps.
sub_u16 : Bool → ℕ → ℕ → Outcome LinkLocalSubnetError ℕ
sub_u16 overflow_checks a b =
    if leb b a then ok (a - b) else if overflow_checks then panic else ok ((a + 65536 - b) % 65536)

-- `octet_4 % network_length`, which panics at 0.
rem_u16 : ℕ → ℕ → Outcome LinkLocalSubnetError ℕ
rem_u16 a b = if b == 0 then panic else ok (a % b)

-- The `subnet_index` that `from_inet` computes from the octets and the network length.
unfoldable pub index_of_octets : Bool → ℕ → ℕ → ℕ → Outcome LinkLocalSubnetError ℕ
unfolding div_ceil sub_u16 rem_u16
index_of_octets overflow_checks octet_3 octet_4 network_length = do
  rest ← rem_u16 octet_4 network_length
  base ← sub_u16 overflow_checks (256 * octet_3) rest
  div_ceil base network_length

-- The match at the end of `from_inet`.
unfoldable pub of_index : ℕ → ℕ → Outcome LinkLocalSubnetError LinkLocalSubnet
of_index network_length subnet_index =
    elim (validate_network_length_and_subnet_index network_length subnet_index) [
      | none ↦ ok (record {
        subnet_index = subnet_index;
        network_length = network_length;
        ip_amount = get_ip_amount network_length;
      })
      | some error ↦ err error
    ]

unfoldable pub host_ip_amount : LinkLocalSubnet → ℕ
host_ip_amount s = s.ip_amount - 2

module _ (C : Cidr) where
  -- `LinkLocalSubnet::from_inet`
  unfoldable pub from_inet : Bool → C.Inet → Outcome LinkLocalSubnetError LinkLocalSubnet
  unfolding is_link_local
  from_inet overflow_checks inet =
      let a = C.address inet in
      let n = C.network_length inet in
      if not (is_link_local a)
      then err not_link_local
      else (index_of_octets overflow_checks a.octet_3 a.octet_4 n >>= λ i. of_index n i)

  unfoldable pub get_ip_imp : LinkLocalSubnet → ℕ → Outcome LinkLocalSubnetError C.Inet
  unfolding octet
  get_ip_imp s x = do
    octet_3 ← octet (x / 256)
    octet_4 ← octet (x % 256)
    let addr : Ipv4Addr = record {
      octet_1 = link_local_octet_1;
      octet_2 = link_local_octet_2;
      octet_3 = octet_3;
      octet_4 = octet_4;
    }
    ok_or (C.new addr s.network_length) unexpected_overflow

  -- The products and sums are `u32`.
  unfoldable pub get_ip : LinkLocalSubnet → ℕ → Outcome LinkLocalSubnetError C.Inet
  get_ip s ip_index =
      if leb s.ip_amount ip_index
      then err ip_index_does_not_fit
      else get_ip_imp s ((s.ip_amount * s.subnet_index + ip_index) % 2 ^ 32)

  unfoldable pub get_host_ip : LinkLocalSubnet → ℕ → Outcome LinkLocalSubnetError C.Inet
  unfolding host_ip_amount
  get_host_ip s ip_index =
      if leb (host_ip_amount s) ip_index
      then err ip_index_does_not_fit
      else get_ip_imp s ((s.ip_amount * s.subnet_index + ip_index + 1) % 2 ^ 32)

  -- `for i in first..first + count { ips.push(get(i)?) }`
  unfoldable pub push_ips :
      (ℕ → Outcome LinkLocalSubnetError C.Inet)
      → ℕ
      → ℕ
      → List C.Inet
      → Outcome LinkLocalSubnetError (List C.Inet)
  push_ips get zero first ips = ok ips
  push_ips get (suc count) first ips =
      get first >>= λ ip. push_ips get count (first + 1) (ips ++ (ip ∷ []))

  unfoldable pub get_ips : LinkLocalSubnet → Outcome LinkLocalSubnetError (List C.Inet)
  get_ips s =
      if leb s.ip_amount usize_max
      then push_ips (get_ip s) s.ip_amount 0 []
      else err unexpected_overflow

  unfoldable pub get_host_ips : LinkLocalSubnet → Outcome LinkLocalSubnetError (List C.Inet)
  unfolding host_ip_amount
  get_host_ips s =
      if leb (host_ip_amount s) usize_max
      then push_ips (get_host_ip s) (host_ip_amount s) 0 []
      else err unexpected_overflow
