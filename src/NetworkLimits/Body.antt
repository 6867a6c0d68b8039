-- ===== src/NetworkLimits/Body.antt =====
-- The length that the headers declare, and the limit on the body.
use lib_auto_updater.Base.{
  ℕ, ◌≤◌, ◌≡◌, ◌↔◌, ◌⊎◌, refl, sym, false, ◌||◌, Option, some, none, List, [], ◌∷◌, map, arith, ltb,
  Bool-cases, inl, inr, if◌then◌else◌,
}
use lib_auto_updater.Base.Text.{Bytes, codes, bytes_eq}
use lib_auto_updater.Error.{
  ok, ErrorCode, ◌>>=◌, >>=-eq-ok, reject_if, reject_if-eq-ok, resource_limit_exceeded, ok_inj,
}
use lib_auto_updater.ManagedPath.{to_lower}
use lib_auto_updater.NetworkLimits.{
  Header, declared_content_length, equals_header_name, exceeds, find_content_length,
  max_network_response_header_bytes, parse_content_length, validate_response_body_budget,
  validate_response_headers_budget,
}
use lib_auto_updater.NetworkLimits.Budget.{header_bytes, validate_response_headers_budget_iff}
use lib_auto_updater.NetworkLimits.Trim.{IsContentLength, parse_content_length-IsContentLength}

-- The values of the headers with the name Content-Length, in any case.
abbrev pub content_lengths : List Header → List Bytes
content_lengths [] = []
content_lengths (h ∷ hs) =
    let rest = content_lengths hs in
    if bytes_eq (map to_lower h.name) (codes "content-length") then h.value ∷ rest else rest

-- What a list of such values declares: nothing, or the number of the only one.
abbrev Declares : List Bytes → Option ℕ → Type 0
Declares [] declared = declared ≡ none
Declares (v ∷ []) declared = (n : ℕ) × (declared ≡ some n) × IsContentLength v n
Declares (v ∷ w ∷ vs) declared = ⊥

name_test :
    (name : Bytes)
    → equals_header_name name (codes "content-length")
      ≡ bytes_eq (map to_lower name) (codes "content-length")
unfolding equals_header_name to_lower
name_test name = refl

-- Behind a first length there may be no other.
find_more :
    (code : ErrorCode) (n : ℕ) (declared : Option ℕ) (hs : List Header)
    → (find_content_length code (some n) hs ≡ ok declared)
      ↔ ((content_lengths hs ≡ []) × (declared ≡ some n))
unfolding find_content_length
find_more code n declared [] = (λ h. (refl, sym (ok_inj h)), λ h. rw h.1)
find_more code n declared (h ∷ hs) =
    elim (Bool-cases (bytes_eq (map to_lower h.name) (codes "content-length"))) [
      | inl e ↦ rw (find_content_length, name_test h.name, e) (λ k. cc, λ k. cc)
      | inr e ↦ rw (find_content_length, name_test h.name, e) (find_more code n declared hs)
    ]

find_first :
    (code : ErrorCode) (declared : Option ℕ) (hs : List Header)
    → (find_content_length code none hs ≡ ok declared) ↔ Declares (content_lengths hs) declared
unfolding find_content_length
find_first code declared [] = (λ h. sym (ok_inj h), λ h. rw h)
find_first code declared (h ∷ hs) =
    elim (Bool-cases (bytes_eq (map to_lower h.name) (codes "content-length"))) [
      | inl e ↦
          rw (find_content_length, name_test h.name, e)
            (only (content_lengths hs) (λ n. find_more code n declared hs))
      | inr e ↦ rw (find_content_length, name_test h.name, e) (find_first code declared hs)
    ]
  where
    only :
        (vs : List Bytes)
        → ((n : ℕ)
            → (find_content_length code (some n) hs ≡ ok declared)
              ↔ ((vs ≡ []) × (declared ≡ some n)))
        → ((parse_content_length h.value code >>= λ parsed.
              find_content_length code (some parsed) hs)
            ≡ ok declared)
          ↔ Declares (h.value ∷ vs) declared
    only [] more = (
      λ k.
          let (n, e, k1) = >>=-eq-ok (parse_content_length h.value code) _ k in
          (n, ((more n).0 k1).1, (parse_content_length-IsContentLength h.value code n).0 e),
      λ (n, e, k).
          rw ((parse_content_length-IsContentLength h.value code n).1 k) ((more n).1 (refl, e)),
    )
    only (v ∷ vs) more = (
      λ k.
          let (n, e, k1) = >>=-eq-ok (parse_content_length h.value code) _ k in
          let absent = ((more n).0 k1).0 in cc,
      λ k. absurd k,
    )

-- No Content-Length, or one that is well-formed and within the limit.
abbrev pub FitsDeclared : List Bytes → ℕ → Type 0
FitsDeclared lengths most =
    (lengths ≡ [])
    ⊎ ((value : Bytes) × (n : ℕ) × (lengths ≡ value ∷ []) × IsContentLength value n × (n ≤ most))

Declares-Fits :
    (vs : List Bytes) (declared : Option ℕ) (most : ℕ)
    → Declares vs declared
    → exceeds declared most ≡ false
    → FitsDeclared vs most
Declares-Fits [] declared most h k = inl refl
Declares-Fits (v ∷ []) declared most (n, e, w) k =
    let fits : exceeds (some n) most ≡ false = rw e at k in inr (v, n, refl, w, ground arith)
Declares-Fits (v ∷ w ∷ vs) declared most h k = absurd h

Fits-Declares :
    (vs : List Bytes) (most : ℕ)
    → FitsDeclared vs most
    → (declared : Option ℕ) × Declares vs declared × (exceeds declared most ≡ false)
Fits-Declares vs most (inl e) = rw e (none, refl, refl)
Fits-Declares vs most (inr (v, n, e, w, le)) = rw e (some n, (n, refl, w), ground arith)

-- A response passes exactly if its headers are within their limit, there is no Content-Length or a
-- single one, digits with blanks round them whose number fits 64 bits and the limit of the body, and
-- the bytes that came are within that limit too.
pub validate_response_body_budget_iff :
    (headers : List Header) (actual_bytes max_bytes : ℕ) (code : ErrorCode)
    → (validate_response_body_budget headers actual_bytes max_bytes code ≡ ok tt) ↔ (
        (header_bytes headers ≤ max_network_response_header_bytes)
        × (actual_bytes ≤ max_bytes)
        × FitsDeclared (content_lengths headers) max_bytes)
unfolding validate_response_body_budget declared_content_length
validate_response_body_budget_iff headers actual most code = (
  λ h.
      let (u, e, h1) = >>=-eq-ok (validate_response_headers_budget headers) _ h in
      let (declared, e1, h2) = >>=-eq-ok (declared_content_length headers code) _ h1 in
      let clear =
        reject_if-eq-ok (exceeds declared most || ltb most actual) resource_limit_exceeded h2 in
      (
        (validate_response_headers_budget_iff headers).0 e,
        within declared clear,
        Declares-Fits (content_lengths headers) declared most
            ((find_first code declared headers).0 e1) (not_over declared clear),
      ),
  λ h.
      let (declared, k, fine) = Fits-Declares (content_lengths headers) most h.2 in
      rw
        (
          (validate_response_headers_budget_iff headers).1 h.0,
          (find_first code declared headers).1 k,
        )
        (both declared h.1 fine),
)
  where
    within :
        (declared : Option ℕ) → (exceeds declared most || ltb most actual) ≡ false → actual ≤ most
    within declared clear = ground (arith)

    not_over :
        (declared : Option ℕ)
        → (exceeds declared most || ltb most actual) ≡ false
        → exceeds declared most ≡ false
    not_over declared clear = ground arith

    both :
        (declared : Option ℕ)
        → actual ≤ most
        → exceeds declared most ≡ false
        → reject_if (exceeds declared most || ltb most actual) resource_limit_exceeded ≡ ok tt
    both declared le fine = ground arith
