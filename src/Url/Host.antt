-- ===== src/Url/Host.antt =====
-- The host and the port of src/util/UrlUtil.cpp.
use lib_auto_updater.Base.{
  ℕ, ◌+◌, ◌-◌, ◌*◌, Bool, true, false, not, ◌&&◌, ◌||◌, none, some, [], ◌∷◌, ◌++◌, ltb, leb, ◌==◌,
  if◌then◌else◌, is_empty, length, all_of, any_of,
}
use lib_auto_updater.Base.Text.{Bytes, codes, bytes_eq, starts_with}
use lib_auto_updater.Base.Text.Split.{split}
use lib_auto_updater.Error.{Result, ok, fail, ◌>>=◌, ◌>>◌, reject_if, security_policy_violation}
use lib_auto_updater.ManagedPath.{ends_with}
use lib_auto_updater.Version.{decimal_text}
use lib_auto_updater.Url.Chars.{is_digit, is_ascii_alnum, is_control_or_space, lower_ascii}
use lib_auto_updater.Url.Address.{
  Ipv4, parse_canonical_ipv4, is_public_ipv4, parse_ipv6, is_public_ipv6, canonical_ipv6,
}

abbrev pub max_port : ℕ
max_port = 65535

-- The loop over the digits.
unfoldable pub port_digits : ℕ → Bytes → Result ℕ
port_digits value [] = ok value
port_digits value (c ∷ cs) = do
  reject_if (not (is_digit c)) security_policy_violation
  reject_if (ltb max_port (value * 10 + (c - b'0'))) security_policy_violation
  port_digits (value * 10 + (c - b'0')) cs

unfoldable pub parse_port : Bytes → Result ℕ
parse_port text = do
  reject_if (is_empty text) security_policy_violation
  value ← port_digits 0 text
  reject_if (value == 0) security_policy_violation
  ok value

unfoldable pub drop_last : Bytes → Bytes
drop_last [] = []
drop_last (c ∷ []) = []
drop_last (c ∷ d ∷ cs) = c ∷ drop_last (d ∷ cs)

-- host.compare(host.size() - suffix.size(), suffix.size(), suffix) == 0 on a host that is longer.
unfoldable pub ends_with_text : Bytes → Bytes → Bool
ends_with_text suffix [] = false
ends_with_text suffix (c ∷ cs) = bytes_eq cs suffix || ends_with_text suffix cs

unfoldable pub ipv4_text : Ipv4 → Bytes
ipv4_text ip =
    decimal_text ip.a
    ++ b'.' ∷ decimal_text ip.b
    ++ b'.' ∷ decimal_text ip.c
    ++ b'.' ∷ decimal_text ip.d

-- The rest of an IPv6 literal after its bracket.
unfoldable pub normalize_ipv6_host : Bytes → Result (Bytes × Bool)
normalize_ipv6_host rest = do
  reject_if (ltb (length rest) 2 || not (ends_with b']' rest)) security_policy_violation
  elim (parse_ipv6 (drop_last rest)) [
    | none ↦ fail security_policy_violation
    | some address ↦ do
      reject_if (not (is_public_ipv6 address)) security_policy_violation
      ok (canonical_ipv6 address, true)
  ]

unfoldable pub normalize_ipv4_host : Bytes → Result (Bytes × Bool)
normalize_ipv4_host host = elim (parse_canonical_ipv4 host) [
  | none ↦ fail security_policy_violation
  | some address ↦ do
    reject_if (not (is_public_ipv4 address)) security_policy_violation
    ok (ipv4_text address, false)
]

unfoldable pub is_dns_label : Bytes → Bool
is_dns_label label =
    not (is_empty label)
    && leb (length label) 63
    && not (starts_with label (codes "-"))
    && not (ends_with b'-' label)
    && all_of (λ c. is_ascii_alnum c || c == b'-') label

unfoldable pub is_local_host : Bytes → Bool
is_local_host host =
    is_empty host || bytes_eq host (codes "localhost") || ends_with_text (codes ".localhost") host

abbrev begins_with_digit : Bytes → Bool
begins_with_digit [] = false
begins_with_digit (c ∷ cs) = is_digit c

-- A host that some resolver may read as a number.
unfoldable pub is_numeric_looking : Bytes → Bool
is_numeric_looking host =
    begins_with_digit host
    && all_of (λ c. is_digit c || (leb b'a' c && leb c b'f') || c == b'x' || c == b'.') host

unfoldable pub normalize_dns_host : Bytes → Result (Bytes × Bool)
normalize_dns_host host = do
  reject_if (is_numeric_looking host) security_policy_violation
  reject_if (ltb 253 (length host)) security_policy_violation
  reject_if (not (all_of is_dns_label (split b'.' host))) security_policy_violation
  ok (host, false)

abbrev without_last_dot : Bytes → Bytes
without_last_dot host = if ends_with b'.' host then drop_last host else host

-- A name or an IPv4 address, in lower case and without the dot of the root.
unfoldable pub normalize_named_host : Bytes → Result (Bytes × Bool)
normalize_named_host host = do
  reject_if (is_local_host host) security_policy_violation
  if all_of (λ c. is_digit c || c == b'.') host
      then normalize_ipv4_host host
      else normalize_dns_host host

unfoldable pub normalize_host : Bytes → Result (Bytes × Bool)
normalize_host [] = fail security_policy_violation
normalize_host (c ∷ rest) = if c == b'[' then normalize_ipv6_host rest else (do
  reject_if (any_of (λ d. leb 128 d || is_control_or_space d) (c ∷ rest)) security_policy_violation
  normalize_named_host (without_last_dot (lower_ascii (c ∷ rest))))
