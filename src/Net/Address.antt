-- ===== src/Net/Address.antt =====
-- The addresses of `std::net` and the blocks of `ipnet`, as far as src/net reads them.
use vivarium.Prelude.{ℕ, Bool, Option, Bytes, ◌==◌}

-- An address is its family and its bits.
pub data IpAddr : Type 0 where
  v4 v6 : ℕ → IpAddr

pub record IpNet : Type 0 where
  pub addr : IpAddr
  pub prefix_len : ℕ

-- `*allowed == addr`.
unfoldable pub addr_eq : IpAddr → IpAddr → Bool
addr_eq (v4 a) (v4 b) = a == b
addr_eq (v6 a) (v6 b) = a == b
addr_eq _ _ = Bool.false

-- The parsers and the printers of the two libraries.
pub record Addresses : Type 0 where
  pub parse_net : Bytes → Option IpNet
  pub parse_addr : Bytes → Option IpAddr
  pub contains : IpNet → IpAddr → Bool
  pub show : IpAddr → Bytes
