-- ===== src/Wire.antt =====
-- src/wire.rs: the numbers of the DNS wire format, and its reads and writes of big-endian words.
pub mod Bits
pub mod Words
pub mod Names
pub mod Query
pub mod Reply
pub mod Decode
use Prim.Native.Nat.{bit_and, bit_or}
use hopdns.Base.{
  ℕ, zero, suc, ◌+◌, ◌*◌, ◌/◌, ◌%◌, ◌^◌, List, [], ◌∷◌, Option, none, some, ◌>>=◌, get_elem?,
}

abbrev pub header_len : ℕ
header_len = 12

abbrev pub udp_max : ℕ
udp_max = 512

abbrev pub edns_max : ℕ
edns_max = 1232

abbrev pub name_max : ℕ
name_max = 255

abbrev pub label_max : ℕ
label_max = 63

abbrev pub opt_len : ℕ
opt_len = 11

abbrev pub qname_ptr : List ℕ
qname_ptr = 0xC0 ∷ 12 ∷ []

abbrev pub rtype_a : ℕ
rtype_a = 1

abbrev pub rtype_cname : ℕ
rtype_cname = 5

abbrev pub rtype_soa : ℕ
rtype_soa = 6

abbrev pub rtype_opt : ℕ
rtype_opt = 41

abbrev pub rtype_any : ℕ
rtype_any = 255

abbrev pub class_in : ℕ
class_in = 1

abbrev pub class_any : ℕ
class_any = 255

pub data Rcode : Type 0 where
  no_error form_err serv_fail nx_domain not_imp refused : Rcode

-- `rcode as u16`.
abbrev pub rcode_number : Rcode → ℕ
rcode_number no_error = 0
rcode_number form_err = 1
rcode_number serv_fail = 2
rcode_number nx_domain = 3
rcode_number not_imp = 4
rcode_number refused = 5

-- `Rcode::from_flags`.
unfoldable pub from_flags : ℕ → ℕ
from_flags flags = bit_and flags 0x000F

abbrev pub qr_bit : ℕ
qr_bit = 0x8000

abbrev pub aa_bit : ℕ
aa_bit = 0x0400

abbrev pub tc_bit : ℕ
tc_bit = 0x0200

abbrev pub rd_bit : ℕ
rd_bit = 0x0100

abbrev pub cd_bit : ℕ
cd_bit = 0x0010

-- `b.get(at)` pairs and fours, big-endian.
unfoldable pub be16 : List ℕ → ℕ → Option ℕ
be16 b at = do hi ← get_elem? b at; lo ← get_elem? b (at + 1); some (hi * 256 + lo)

unfoldable pub be32 : List ℕ → ℕ → Option ℕ
be32 b at = do
  b0 ← get_elem? b at
  b1 ← get_elem? b (at + 1)
  b2 ← get_elem? b (at + 2)
  b3 ← get_elem? b (at + 3)
  some (((b0 * 256 + b1) * 256 + b2) * 256 + b3)

-- `n.to_be_bytes()` of a `u16` and a `u32`.
abbrev pub u16_bytes : ℕ → List ℕ
u16_bytes n = n / 256 % 256 ∷ n % 256 ∷ []

abbrev pub u32_bytes : ℕ → List ℕ
u32_bytes n = n / 2 ^ 24 % 256 ∷ n / 2 ^ 16 % 256 ∷ n / 256 % 256 ∷ n % 256 ∷ []
