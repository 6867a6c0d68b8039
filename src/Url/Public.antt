-- ===== src/Url/Public.antt =====
-- The public IPv4 addresses as ranges of 32-bit numbers.
use lib_auto_updater.Base.{
  ℕ, ◌+◌, ◌*◌, ◌<◌, ◌≡◌, sym, Bool, false, not, ◌&&◌, ◌||◌, List, [], ◌∷◌, arith, leb, any_of, ◌==◌,
  ◌-◌, some, subst, is_empty, Option-cases, inl, inr,
}
use lib_auto_updater.Base.Options.{some_inj, >>=-eq-some, unless}
use lib_auto_updater.Base.Text.{Bytes}
use lib_auto_updater.Base.Text.Split.{split}
use lib_auto_updater.Error.{
  Result, ok, fail, >>=-eq-ok, reject_if, reject_if-eq-ok, security_policy_violation,
}
use lib_auto_updater.Version.{has_leading_zero}
use lib_auto_updater.Url.Address.{
  Ipv4, is_public_ipv4, octet_digits, octet, four_octets, parse_canonical_ipv4,
}
use lib_auto_updater.Url.Host.{ipv4_text, normalize_ipv4_host}

abbrev pub IsAddress : Ipv4 → Type 0
IsAddress ip = (ip.a < 256) × (ip.b < 256) × (ip.c < 256) × (ip.d < 256)

abbrev pub number : Ipv4 → ℕ
number ip = ip.a * 16777216 + ip.b * 65536 + ip.c * 256 + ip.d

-- All addresses with a first byte from `x` to `y`.
abbrev first_bytes : ℕ → ℕ → ℕ × ℕ
first_bytes x y = (x * 16777216, y * 16777216 + 16777215)

-- Those with the first byte `a` and a second from `x` to `y`.
abbrev second_bytes : ℕ → ℕ → ℕ → ℕ × ℕ
second_bytes a x y = (a * 16777216 + x * 65536, a * 16777216 + y * 65536 + 65535)

-- Those with the first three bytes `a`, `b` and `c`.
abbrev last_bytes : ℕ → ℕ → ℕ → ℕ × ℕ
last_bytes a b c = (a * 16777216 + b * 65536 + c * 256, a * 16777216 + b * 65536 + c * 256 + 255)

abbrev pub reserved_ranges : List (ℕ × ℕ)
reserved_ranges =
    first_bytes 0 0
    ∷ first_bytes 10 10
    ∷ first_bytes 127 127
    ∷ first_bytes 224 255
    ∷ second_bytes 100 64 127
    ∷ second_bytes 169 254 254
    ∷ second_bytes 172 16 31
    ∷ second_bytes 192 0 0
    ∷ second_bytes 192 168 168
    ∷ second_bytes 198 18 19
    ∷ last_bytes 198 51 100
    ∷ last_bytes 203 0 113
    ∷ []

abbrev pub is_within : ℕ → ℕ × ℕ → Bool
is_within n (first, last) = leb first n && leb n last

de_morgan :
    (a b c d e f g h i j k l : Bool)
    → (not (a || b || c || d) && not e && not f && not g && not (h || i) && not (j || k) && not l)
      ≡ not (any_of (λ x. x) (a ∷ b ∷ c ∷ d ∷ e ∷ f ∷ g ∷ h ∷ i ∷ j ∷ k ∷ l ∷ []))
de_morgan a b c d e f g h i j k l = ground arith

module _ (ip : Ipv4) (h : IsAddress ip) where
  first_bytes_lem : (x y : ℕ) → is_within (number ip) (first_bytes x y) ≡ (leb x ip.a && leb ip.a y)
  first_bytes_lem x y = ground arith

  second_bytes_lem :
      (a x y : ℕ)
      → y < 256
      → is_within (number ip) (second_bytes a x y) ≡ (ip.a == a && leb x ip.b && leb ip.b y)
  second_bytes_lem a x y small = ground arith

  last_bytes_lem :
      (a b c : ℕ)
      → b < 256
      → c < 256
      → is_within (number ip) (last_bytes a b c) ≡ (ip.a == a && ip.b == b && ip.c == c)
  last_bytes_lem a b c small small' = ground arith

  within : ℕ × ℕ → Bool
  within r = is_within (number ip) r

  by_first_byte : (ip.a == 0 || ip.a == 10 || ip.a == 127 || leb 224 ip.a) ≡ (
      within (first_bytes 0 0)
      || within (first_bytes 10 10)
      || within (first_bytes 127 127)
      || within (first_bytes 224 255))
  unfolding within
  by_first_byte =
      rw
        (
          first_bytes_lem 0 0,
          first_bytes_lem 10 10,
          first_bytes_lem 127 127,
          first_bytes_lem 224 255,
        )
        (ground arith)

  by_range :
      (a x y : ℕ) → y < 256 → (ip.a == a && leb x ip.b && leb ip.b y) ≡ within (second_bytes a x y)
  unfolding within
  by_range a x y small = sym (second_bytes_lem a x y small)

  link_local : (ip.a == 169 && ip.b == 254) ≡ within (second_bytes 169 254 254)
  unfolding within
  link_local = rw (second_bytes_lem 169 254 254 (ground arith)) (ground arith)

  private_192 :
      (ip.a == 192 && (ip.b == 0 || ip.b == 168 || (ip.b == 0 && ip.c == 2)))
      ≡ (within (second_bytes 192 0 0) || within (second_bytes 192 168 168))
  unfolding within
  private_192 =
      rw (second_bytes_lem 192 0 0 (ground arith), second_bytes_lem 192 168 168 (ground arith))
        (ground arith)

  tests_198 :
      (ip.a == 198 && (ip.b == 18 || ip.b == 19 || (ip.b == 51 && ip.c == 100)))
      ≡ (within (second_bytes 198 18 19) || within (last_bytes 198 51 100))
  unfolding within
  tests_198 =
      rw
        (
          second_bytes_lem 198 18 19 (ground arith),
          last_bytes_lem 198 51 100 (ground arith) (ground arith),
        )
        (ground arith)

  tests_203 : (ip.a == 203 && ip.b == 0 && ip.c == 113) ≡ within (last_bytes 203 0 113)
  unfolding within
  tests_203 = sym (last_bytes_lem 203 0 113 (ground arith) (ground arith))

  -- An address is public exactly if its number is in none of the reserved ranges.
  pub is_public_ipv4-ranges :
      is_public_ipv4 ip ≡ not (any_of (is_within (number ip)) reserved_ranges)
  unfolding is_public_ipv4 within
  is_public_ipv4-ranges =
      rw
        (
          by_first_byte,
          by_range 100 64 127 (ground arith),
          link_local,
          by_range 172 16 31 (ground arith),
          private_192,
          tests_198,
          tests_203,
        )
        (de_morgan (within (first_bytes 0 0)) (within (first_bytes 10 10))
          (within (first_bytes 127 127)) (within (first_bytes 224 255))
          (within (second_bytes 100 64 127)) (within (second_bytes 169 254 254))
          (within (second_bytes 172 16 31)) (within (second_bytes 192 0 0))
          (within (second_bytes 192 168 168)) (within (second_bytes 198 18 19))
          (within (last_bytes 198 51 100)) (within (last_bytes 203 0 113)))

octet_digits-lt :
    (value : ℕ) (t : Bytes) (n : ℕ) → value < 256 → octet_digits value t ≡ some n → n < 256
unfolding octet_digits
octet_digits-lt value [] n h e = subst (λ m. m < 256) (some_inj e) h
octet_digits-lt value (c ∷ cs) n h e =
    ground (arith, octet_digits-lt (value * 10 + (c - b'0')) cs n)

octet-lt : (t : Bytes) (n : ℕ) → octet t ≡ some n → n < 256
unfolding octet
octet-lt t n h =
    let (u, e, h1) = >>=-eq-some (unless (is_empty t || has_leading_zero t)) _ h in
    octet_digits-lt 0 t n (ground arith) h1

four_octets-IsAddress : (ts : List Bytes) (ip : Ipv4) → four_octets ts ≡ some ip → IsAddress ip
unfolding four_octets
four_octets-IsAddress [] ip h = cc
four_octets-IsAddress (p ∷ []) ip h = cc
four_octets-IsAddress (p ∷ q ∷ []) ip h = cc
four_octets-IsAddress (p ∷ q ∷ r ∷ []) ip h = cc
four_octets-IsAddress (p ∷ q ∷ r ∷ s ∷ []) ip h =
    let (a, e, h1) = >>=-eq-some (octet p) _ h in
    let (b, e1, h2) = >>=-eq-some (octet q) _ h1 in
    let (c, e2, h3) = >>=-eq-some (octet r) _ h2 in
    let (d, e3, h4) = >>=-eq-some (octet s) _ h3 in
    subst IsAddress (some_inj h4)
      (octet-lt p a e, octet-lt q b e1, octet-lt r c e2, octet-lt s d e3)
four_octets-IsAddress (p ∷ q ∷ r ∷ s ∷ t ∷ ts) ip h = cc

negated : (x y : Bool) → not x ≡ false → x ≡ not y → y ≡ false
negated x y h e = ground arith

-- An IPv4 host that is accepted is the text of an address outside all reserved ranges.
pub normalize_ipv4_host-ranges :
    (text host : Bytes) (ipv6_host : Bool)
    → normalize_ipv4_host text ≡ ok (host, ipv6_host)
    → (ip : Ipv4) × IsAddress ip
      × (host ≡ ipv4_text ip)
      × (any_of (is_within (number ip)) reserved_ranges ≡ false)
unfolding normalize_ipv4_host parse_canonical_ipv4
normalize_ipv4_host-ranges text host ipv6_host h = elim (Option-cases (parse_canonical_ipv4 text)) [
  | inl e ↦ absurd (never (rw (normalize_ipv4_host, e) at h))
  | inr (ip, e) ↦
      let address = four_octets-IsAddress (split b'.' text) ip e in
      let (u, e1, h1) =
        >>=-eq-ok (reject_if (not (is_public_ipv4 ip)) security_policy_violation) _
          (rw (normalize_ipv4_host, e) at h) in
      let public = reject_if-eq-ok (not (is_public_ipv4 ip)) security_policy_violation e1 in
      (
        ip,
        address,
        sym (host_of (ipv4_text ip) false h1),
        negated (is_public_ipv4 ip) (any_of (is_within (number ip)) reserved_ranges) public
            (is_public_ipv4-ranges ip address),
      )
]
  where
    never :
        ◌≡◌ {A = Result (Bytes × Bool)} (fail security_policy_violation) (ok (host, ipv6_host)) → ⊥
    never e = cc

    host_of :
        (a : Bytes) (b : Bool)
        → ◌≡◌ {A = Result (Bytes × Bool)} (ok (a, b)) (ok (host, ipv6_host))
        → a ≡ host
    host_of a b e = cc
