-- ===== src/Journal/RoundTrip.antt =====
-- The record of an operation is read back from the JSON value that it is written as.
use lib_auto_updater.Base.{
  ℕ, ◌+◌, ◌-◌, ◌*◌, ◌/◌, ◌^◌, ◌<◌, ◌≤◌, ◌≡◌, refl, subst, sym, ap, true, false, not, ◌&&◌, [], ◌∷◌,
  arith, all_of, ltb, is_empty,
}
use lib_auto_updater.Base.Text.{Bytes, codes, bytes_eq, bytes_compare}
use lib_auto_updater.Error.{ok, ok_inj, >>=-eq-ok, reject_if, reject_if-eq-ok, apply_failed}
use lib_auto_updater.Version.{is_ascii_digit, has_leading_zero, decimal_text, digits_value}
use lib_auto_updater.Version.Decimal.{decimal_text-digits}
use lib_auto_updater.NetworkLimits.Budget.{digits_value-grows}
use lib_auto_updater.Json.{Json, object, no_field, get, find_field, keys, u64_max}
use lib_auto_updater.Manifest.Fields.{is_lower_hex_sha256}
use lib_auto_updater.Journal.States.{
  backup_state_from_name, apply_state_from_name, rollback_state_from_name,
  backup_state_from_name-journal_backup_state_name, apply_state_from_name-journal_apply_state_name,
  rollback_state_from_name-journal_rollback_state_name,
}
use lib_auto_updater.Journal.Fields.{
  emplace, emplaced, require_only_keys, required_string, required_bool, decimal_digits,
  decimal_value, parse_decimal, is_incomplete, error_to_json, error_from_json, object_of,
}
use lib_auto_updater.Journal.Operation.{
  ApplyJournalOperation, validate_operation_record, validate_original, operation_members,
  operation_to_json, operation_of_fields, operation_of_json, operation_keys,
  operation_schema_version, u32_max,
}

eq-ok-decimal_digits :
    (acc : ℕ) (cs : Bytes)
    → all_of is_ascii_digit cs ≡ true
    → digits_value acc cs ≤ u64_max
    → decimal_digits acc cs ≡ ok (digits_value acc cs)
unfolding decimal_digits digits_value
eq-ok-decimal_digits acc [] d le = refl
eq-ok-decimal_digits acc (c ∷ cs) d le = ground (
  arith,
  eq-ok-decimal_digits (acc * 10 + (c - b'0')) cs,
  digits_value-grows (acc * 10 + (c - b'0')) cs,
)

-- A number of 64 bits is read back from its print.
pub decimal_value-decimal_text : (n : ℕ) → n < 2 ^ 64 → decimal_value (decimal_text n) ≡ ok n
unfolding decimal_value
decimal_value-decimal_text n h =
    let (digits, value, filled, no_zero) = decimal_text-digits n h in
    rw (filled, no_zero) (ground (arith, eq-ok-decimal_digits 0 (decimal_text n) digits, value))

-- A record as the program can hold it: the numbers fit their types.
pub record IsOperation (operation : ApplyJournalOperation) : Type 0 where
  pub version : operation.schema_version ≡ 2
  pub small_index : operation.index < 2 ^ 64
  pub small_size : operation.original_size < 2 ^ 64
  pub small_permissions : operation.original_permissions ≤ u32_max
  pub valid : validate_operation_record operation ≡ ok tt

complete_error :
    (operation : ApplyJournalOperation)
    → validate_operation_record operation ≡ ok tt
    → is_incomplete operation.error.code operation.error.message ≡ false
unfolding validate_operation_record
complete_error operation h =
    let (a, e1, h1) =
      >>=-eq-ok (reject_if (not (is_lower_hex_sha256 operation.transaction_id)) apply_failed) _ h in
    let (b, e2, h2) =
      >>=-eq-ok (reject_if (not (is_lower_hex_sha256 operation.operation_id)) apply_failed) _ h1 in
    let (c, e3, h3) =
      >>=-eq-ok
        (reject_if
          (not (bytes_eq operation.intent (codes "replace"))
            && not (bytes_eq operation.intent (codes "remove")))
          apply_failed)
        _ h2 in
    let (d, e4, h4) = >>=-eq-ok (validate_original operation) _ h3 in
    reject_if-eq-ok (is_incomplete operation.error.code operation.error.message) apply_failed h4

fields_back :
    (operation : ApplyJournalOperation)
    → IsOperation operation
    → operation_of_fields (object (emplaced (operation_members operation) no_field)) ≡ ok operation
unfolding operation_of_fields emplaced emplace bytes_eq bytes_compare get find_field keys
    required_string required_bool parse_decimal error_to_json error_from_json require_only_keys
fields_back operation h =
    rw
      (
        decimal_value-decimal_text operation.index h.small_index,
        decimal_value-decimal_text operation.original_size h.small_size,
        decimal_value-decimal_text operation.original_permissions
            (small operation.original_permissions h.small_permissions),
        complete_error operation h.valid,
        in_range operation.original_permissions h.small_permissions,
        backup_state_from_name-journal_backup_state_name operation.backup_state,
        apply_state_from_name-journal_apply_state_name operation.apply_state,
        rollback_state_from_name-journal_rollback_state_name operation.rollback_state,
      )
      (ap (λ v. ok (record operation { schema_version = v })) (sym h.version))
  where
    small : (n : ℕ) → n ≤ u32_max → n < 2 ^ 64
    small n k = omega arith

    in_range : (n : ℕ) → n ≤ u32_max → ltb u32_max n ≡ false
    in_range n k = ground arith

-- What is written of a valid record is read back as the record.
pub operation_of_json-operation_to_json :
    (operation : ApplyJournalOperation)
    → IsOperation operation
    → (json : Json) × (operation_to_json operation ≡ ok json)
      × (operation_of_json json ≡ ok operation)
unfolding operation_to_json operation_of_json object_of require_only_keys emplaced emplace bytes_eq
    bytes_compare get find_field keys
operation_of_json-operation_to_json operation h = (
  object (emplaced (operation_members operation) no_field),
  rw h.valid,
  rw (fields_back operation h, h.valid),
)

decimal_digits-lt :
    (acc : ℕ) (cs : Bytes) (n : ℕ) → acc < 2 ^ 64 → decimal_digits acc cs ≡ ok n → n < 2 ^ 64
unfolding decimal_digits is_ascii_digit
decimal_digits-lt acc [] n h e = subst (λ m. m < 2 ^ 64) (ok_inj e) h
decimal_digits-lt acc (c ∷ cs) n h e =
    let (u, e1, h1) = >>=-eq-ok (reject_if (not (is_ascii_digit c)) apply_failed) _ e in
    let (v, e2, h2) =
      >>=-eq-ok (reject_if (ltb ((u64_max - (c - b'0')) / 10) acc) apply_failed) _ h1 in
    let fits = reject_if-eq-ok (ltb ((u64_max - (c - b'0')) / 10) acc) apply_failed e2 in
    let digit = reject_if-eq-ok (not (is_ascii_digit c)) apply_failed e1 in
    decimal_digits-lt (acc * 10 + (c - b'0')) cs n (next_lt acc c digit fits) h2
  where
    next_lt :
        (a d : ℕ)
        → not (is_ascii_digit d) ≡ false
        → ltb ((u64_max - (d - b'0')) / 10) a ≡ false
        → a * 10 + (d - b'0') < 2 ^ 64
    next_lt a d h k = ground arith

parse_decimal-lt : (json : Json) (key : Bytes) (n : ℕ) → parse_decimal json key ≡ ok n → n < 2 ^ 64
unfolding parse_decimal decimal_value
parse_decimal-lt json key n h =
    let (t, e, h1) = >>=-eq-ok (required_string json key) _ h in
    let (u, e1, h2) = >>=-eq-ok (reject_if (is_empty t) apply_failed) _ h1 in
    let (v, e2, h3) = >>=-eq-ok (reject_if (has_leading_zero t) apply_failed) _ h2 in
    decimal_digits-lt 0 t n (omega arith) h3

-- The numbers of a record that is read.
record IsSmall (operation : ApplyJournalOperation) : Type 0 where
  version : operation.schema_version ≡ 2
  small_index : operation.index < 2 ^ 64
  small_size : operation.original_size < 2 ^ 64
  small_permissions : operation.original_permissions ≤ u32_max

operation_of_fields-IsSmall :
    (json : Json) (operation : ApplyJournalOperation)
    → operation_of_fields json ≡ ok operation
    → IsSmall operation
unfolding operation_of_fields
operation_of_fields-IsSmall json operation h =
    let (a, ea, h1) = >>=-eq-ok (required_string json (codes "transactionId")) _ h in
    let (index, ei, h2) = >>=-eq-ok (parse_decimal json (codes "index")) _ h1 in
    let (b, eb, h3) = >>=-eq-ok (required_string json (codes "operationId")) _ h2 in
    let (c, ec, h4) = >>=-eq-ok (required_string json (codes "intent")) _ h3 in
    let (d, ed, h5) = >>=-eq-ok (required_bool json (codes "originalExists")) _ h4 in
    let (e, ee, h6) = >>=-eq-ok (required_string json (codes "originalIdentity")) _ h5 in
    let (size, es, h7) = >>=-eq-ok (parse_decimal json (codes "originalSize")) _ h6 in
    let (f, ef, h8) = >>=-eq-ok (required_string json (codes "originalSha256")) _ h7 in
    let (g, eg, h9) = >>=-eq-ok (required_bool json (codes "originalPermissionsKnown")) _ h8 in
    let (permissions, ep, h10) =
      >>=-eq-ok (parse_decimal json (codes "originalPermissions")) _ h9 in
    let (i, e1, h11) = >>=-eq-ok (required_string json (codes "backupState")) _ h10 in
    let (j, e2, h12) = >>=-eq-ok (required_string json (codes "applyState")) _ h11 in
    let (k, e3, h13) = >>=-eq-ok (required_string json (codes "installedIdentity")) _ h12 in
    let (l, e4, h14) = >>=-eq-ok (required_string json (codes "rollbackState")) _ h13 in
    let (m, e5, h15) = >>=-eq-ok (error_from_json json (codes "error")) _ h14 in
    let (u, e6, h16) = >>=-eq-ok (reject_if (ltb u32_max permissions) apply_failed) _ h15 in
    let (n, e7, h17) = >>=-eq-ok (backup_state_from_name i) _ h16 in
    let (o, e8, h18) = >>=-eq-ok (apply_state_from_name j) _ h17 in
    let (p, e9, h19) = >>=-eq-ok (rollback_state_from_name l) _ h18 in
    subst IsSmall (ok_inj h19) (record {
      version = refl;
      small_index = parse_decimal-lt json (codes "index") index ei;
      small_size = parse_decimal-lt json (codes "originalSize") size es;
      small_permissions =
          fits permissions (reject_if-eq-ok (ltb u32_max permissions) apply_failed e6);
    })
  where
    fits : (n : ℕ) → ltb u32_max n ≡ false → n ≤ u32_max
    fits n k = ground arith

-- A record that is read is valid, with numbers that fit their types; so it is read back from what is
-- written of it.
pub operation_of_json-IsOperation :
    (json : Json) (operation : ApplyJournalOperation)
    → operation_of_json json ≡ ok operation
    → IsOperation operation
unfolding operation_of_json
operation_of_json-IsOperation json operation h =
    let ((fields, version), e1, h1) =
      >>=-eq-ok (object_of json (operation_schema_version ∷ [])) _ h in
    let (u, e2, h2) = >>=-eq-ok (require_only_keys fields operation_keys) _ h1 in
    let (read, e3, h3) = >>=-eq-ok (operation_of_fields json) _ h2 in
    let (v, e4, h4) = >>=-eq-ok (validate_operation_record read) _ h3 in
    let s = operation_of_fields-IsSmall json read e3 in
    subst IsOperation (ok_inj h4) (record {
      version = s.version;
      small_index = s.small_index;
      small_size = s.small_size;
      small_permissions = s.small_permissions;
      valid = e4;
    })
