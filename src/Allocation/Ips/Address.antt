-- ===== src/Allocation/Ips/Address.antt =====
-- pulp-cell/ips.go: IPv4 addresses as net.IP holds them, and `incIP`.
use bananagine.Text.Decimal.{decimal}
use bananagine.Prelude.{
  ℕ, ◌+◌, ◌*◌, ◌%◌, ◌^◌, ◌<◌, ◌≡◌, String, nat_eq, ◌==◌, Bool, ◌&&◌, if◌then◌else◌, arith,
}
use Prim.Native.String.{◌++◌}

pub record Ip : Type 0 where
  pub a : ℕ
  pub b : ℕ
  pub c : ℕ
  pub d : ℕ

-- Each is a byte.
pub record IsIp (ip : Ip) : Type 0 where
  pub a_byte : ip.a < 256
  pub b_byte : ip.b < 256
  pub c_byte : ip.c < 256
  pub d_byte : ip.d < 256

-- From the last byte: `ip[i]++`, and on to the byte before if it became 0.
unfoldable pub inc_ip : Ip → Ip
inc_ip ip =
    let d' = (ip.d + 1) % 256 in
    let c' = (ip.c + 1) % 256 in
    let b' = (ip.b + 1) % 256 in
    let a' = (ip.a + 1) % 256 in
    if d' == 0
    then if c' == 0
      then if b' == 0
        then record { a = a'; b = b'; c = c'; d = d' }
        else record ip { b = b'; c = c'; d = d' }
      else record ip { c = c'; d = d' }
    else record ip { d = d' }

unfoldable pub ip_equal : Ip → Ip → Bool
ip_equal x y = x.a == y.a && x.b == y.b && x.c == y.c && x.d == y.d

-- The address as one number, in network order.
abbrev pub value : Ip → ℕ
value ip = ((ip.a * 256 + ip.b) * 256 + ip.c) * 256 + ip.d

-- `incIP` is the successor, going round at 2^32.
pub inc_ip_lem :
    (ip : Ip) → IsIp ip → IsIp (inc_ip ip) × (value (inc_ip ip) ≡ (value ip + 1) % 2 ^ 32)
unfolding inc_ip
inc_ip_lem ip v = ground arith

-- ip.String().
unfoldable pub ip_string : Ip → String
unfolding decimal
ip_string ip = decimal ip.a ++ "." ++ decimal ip.b ++ "." ++ decimal ip.c ++ "." ++ decimal ip.d
