-- ===== src/Release/Errors.antt =====
-- What the release code raises, each by what its message says.
pub data Error : Type 0 where
  unsupported_fields bad_integer bad_pattern duplicate_field : Error
  unsupported_format unsupported_platform unsupported_artifact_name : Error
  incompatible_host_api bad_notes unsupported_abi bad_inventory bad_filename : Error
  unsupported_scope bad_archive_contents : Error
  schema_migration bad_update_mode incompatible_installed_api : Error
  bad_manifest_size bad_signature_size bad_key_size bad_signature : Error
  unsupported_component size_mismatch truncated checksum_mismatch : Error
  not_private bad_policy_state bad_sequence not_newer bad_acceptance_record : Error
  rollback_refused identity_conflict not_json : Error
