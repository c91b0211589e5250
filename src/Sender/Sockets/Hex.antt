-- ===== src/Sender/Sockets/Hex.antt =====
-- Hexadecimal forms tell numbers apart.
use ucl_tools.Base.{
  ℕ, zero, suc, ◌+◌, ◌*◌, ◌/◌, ◌%◌, ◌^◌, ◌<◌, ◌≡◌, refl, sym, ◌∙◌, true, [], ◌∷◌, ◌++◌, arith, ltb,
  Text, pos,
}
use ucl_tools.Sender.Sockets.{hex_digit, hex_digits, width_of, port_hex, Ipv4, ip_hex}

hex_digit-injective : (d e : ℕ) → d < 16 → e < 16 → hex_digit d ≡ hex_digit e → d ≡ e
hex_digit-injective d e h k same = ground arith

pub hex_digits-injective :
    (width n m : ℕ) (out more : Text)
    → n < 16 ^ width
    → m < 16 ^ width
    → hex_digits width n out ≡ hex_digits width m more
    → (n ≡ m) × (out ≡ more)
unfolding hex_digits
hex_digits-injective zero n m out more h k e = (omega arith, e)
hex_digits-injective (suc width) n m out more h k e =
    let (high, low) =
      hex_digits-injective width (n / 16) (m / 16) (hex_digit (n % 16) ∷ out)
        (hex_digit (m % 16) ∷ more) (omega arith) (omega arith) e in
    let digit : hex_digit (n % 16) ≡ hex_digit (m % 16) = ground (arith, low) in
    let same : n % 16 ≡ m % 16 =
      hex_digit-injective (n % 16) (m % 16) (omega arith) (omega arith) digit in
    (omega arith, ground (arith, low))

pub hex_digits-append :
    (width n : ℕ) (out more : Text)
    → hex_digits width n out ++ more ≡ hex_digits width n (out ++ more)
unfolding hex_digits
hex_digits-append zero n out more = refl
hex_digits-append (suc width) n out more =
    hex_digits-append width (n / 16) (hex_digit (n % 16) ∷ out) more

-- The two low digits are those of the low byte.
hex_digits-byte :
    (width low high : ℕ) (out : Text)
    → low < 256
    → hex_digits (suc (suc width)) (low + 256 * high) out
      ≡ hex_digits width high (hex_digits 2 low out)
unfolding hex_digits
hex_digits-byte width low high out h =
    let top : (low + 256 * high) / 16 / 16 ≡ high = omega arith in
    let second : (low + 256 * high) / 16 % 16 ≡ low / 16 % 16 = omega arith in
    let first : (low + 256 * high) % 16 ≡ low % 16 = omega arith in rw (top, second, first) refl

-- An address as a number, its first byte the lowest.
abbrev pub number_of : Ipv4 → ℕ
number_of ip = ip.a + 256 * (ip.b + 256 * (ip.c + 256 * ip.d))

abbrev pub IsIpv4 : Ipv4 → Type 0
IsIpv4 ip = (ip.a < 256) × (ip.b < 256) × (ip.c < 256) × (ip.d < 256)

pub ip_hex-number :
    (ip : Ipv4) (rest : Text) → IsIpv4 ip → ip_hex ip ++ rest ≡ hex_digits 8 (number_of ip) rest
unfolding ip_hex hex_digits
ip_hex-number ip rest (ha, hb, hc, hd) =
    let one = hex_digits 2 ip.a rest in
    let two = hex_digits 2 ip.b one in
    sym (
      hex_digits-byte 6 ip.a (ip.b + 256 * (ip.c + 256 * ip.d)) rest ha
      ∙ hex_digits-byte 4 ip.b (ip.c + 256 * ip.d) one hb
      ∙ hex_digits-byte 2 ip.c ip.d two hc)

pub port_hex-digits : (port : ℕ) → port < 65536 → port_hex (pos port) ≡ hex_digits 4 port []
unfolding port_hex width_of
port_hex-digits zero h = refl
port_hex-digits (suc port) h = rw (small) refl
  where
    small : ltb (suc port) (16 ^ 4) ≡ true
    small = ground (arith, h)
