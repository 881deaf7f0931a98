-- ===== src/Errors.antt =====
-- Errors as values, for every package under internal/db. A sentinel of the source (`ErrWALCorrupt`)
-- is a constructor, whatever text it is wrapped in; the unnamed errors have one constructor each.
use zvec.Base.{Bool, true, false, ◌≡◌, refl, ◌⊎◌, inl, inr}

pub data Error : Type 0 where
  -- context.Context, and answers of the operating system
  nil_context cancelled write_failed sync_failed close_failed : Error
  -- wal.go
  wal_corrupt wal_closed wal_read_only wal_poisoned wal_record_too_large : Error
  empty_record lsn_exhausted end_of_file : Error
  invalid_record_length invalid_record_magic unsupported_record_version : Error
  invalid_record_header_size wrong_lsn invalid_payload_length : Error
  nonzero_reserved header_checksum_mismatch : Error
  -- manifest.go, version_manager.go
  manifest_corrupt manifest_not_found manifest_conflict manifest_exists : Error
  manifest_encoding generation_exhausted directory_sync_failed current_not_replaced lock_unavailable
        nil_mutation :
      Error
  -- snapshot.go
  unsupported_format_version snapshot_corrupt snapshot_too_large : Error
  -- primary_map.go
  empty_primary_key long_primary_key invalid_utf8_primary_key location_taken : Error
  -- segment.go
  segment_corrupt segment_sealed segment_full payload_too_large : Error
  unexpected_document_id invalid_document_count segment_too_large : Error
  zero_capacity document_range_overflow : Error
  -- segment_manager.go
  segment_not_found segment_exists writing_exists range_overlap : Error
  rotation_changed rotation_id_mismatch next_reuses_id : Error
  -- write_engine.go, collection.go
  primary_key_exists primary_key_not_found no_writing_segment : Error
  invalid_operation truncated_operation invalid_operation_magic : Error
  invalid_operation_type invalid_operation_lengths operation_checksum_mismatch : Error
  empty_batch map_changed wrong_segment delete_with_payload : Error
  -- sql/like.go
  like_pattern_too_large invalid_utf8_like_pattern : Error
  -- sql/value.go, predicate.go, plan.go
  null_comparison array_comparison kind_comparison : Error
  not_comparison_operator not_scalar_operand not_set_operator empty_in too_many_contain_values :
      Error
  set_value_not_scalar set_value_kind : Error
  invalid_value_kind like_operand in_operand contain_operand contain_kind bool_order : Error
  array_length_operand array_too_long invalid_null_kind : Error
  -- sql/analyzer.go, schema.go
  unknown_field unfilterable_field array_operator scalar_operator bad_operand bad_function : Error
  literal_type literal_range : Error
  empty_field_name duplicate_field invalid_field_kind unfilterable_index : Error
  -- no error of the program: a loop of the model ran out of rounds
  out_of_fuel : Error

pub data Result {ℓ} (A : Type ℓ) : Type ℓ where
  ok : A → Result A
  err : Error → Result A

infixl 5 ◌>>=◌ ◌>>◌
abbrev pub ◌>>=◌ {ℓ ℓ'} : {A : Type ℓ} {B : Type ℓ'} → Result A → (A → Result B) → Result B
err failure >>= continue = err failure
ok value >>= continue = continue value

-- `if test { return err }`
abbrev pub reject : Bool → Error → Result (Unit {0})
reject true e = err e
reject false e = ok tt

-- `if err := check; err != nil { return err }`
abbrev pub ◌>>◌ {ℓ} : {A : Type ℓ} → Result (Unit {0}) → Result A → Result A
check >> continue = check >>= λ done. continue

-- fmt.Errorf("%w: … %v", sentinel, err): the sentinel alone can be matched.
abbrev pub wrap {ℓ} : {A : Type ℓ} → Error → Result A → Result A
wrap sentinel (ok a) = ok a
wrap sentinel (err e) = err sentinel

-- A `context.Context` as one poll of it finds it.
pub data Context : Type 0 where
  nil_ctx done_ctx live_ctx : Context

-- `if ctx == nil { … }; if err := ctx.Err(); err != nil { … }`
abbrev pub check_context : Context → Result (Unit {0})
check_context nil_ctx = err nil_context
check_context done_ctx = err cancelled
check_context live_ctx = ok tt

pub Result-cases {ℓ} :
    {A : Type ℓ} (r : Result A) → ((a : A) × (r ≡ ok a)) ⊎ ((e : Error) × (r ≡ err e))
Result-cases (ok a) = inl (a, refl)
Result-cases (err e) = inr (e, refl)
