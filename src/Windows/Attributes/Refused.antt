-- ===== src/Windows/Attributes/Refused.antt =====
-- src/windows_attributes.rs: the requests for attributes that are refused.
use shell_canvas_drive_bridg.Base.{
  ℕ, ◌≡◌, ◌≢◌, ◌⊎◌, inl, inr, true, false, none, some, err, map_err, arith,
}
use shell_canvas_drive_bridg.Sdk.{FsMetadata, is_file_kind}
use shell_canvas_drive_bridg.Windows.Status.{NtStatus, failure, status_of_kind}
use shell_canvas_drive_bridg.Windows.Attributes.{
  unknown_attributes, same_flag, readonly, has, attributes, permissions, validate_attributes,
  change_permissions,
}

-- Of the requests other than the one for timestamps only: one for an attribute that cannot be kept,
-- one for read-only on anything but a regular file, and one for another state of the flag where the
-- mode of a regular file is not known or has special bits.
abbrev pub RefusedAttributes : FsMetadata → ℕ → Type 0
RefusedAttributes m r =
    (r ≢ 0xffff_ffff)
    × ((has r unknown_attributes ≡ true)
        ⊎ ((is_file_kind m.kind ≡ false) × (has r readonly ≡ true))
        ⊎ ((is_file_kind m.kind ≡ true)
            × (same_flag (has r readonly) (has (attributes m) readonly) ≡ false)
            × ((m.permissions ≡ none)
                ⊎ ((p : ℕ) × (m.permissions ≡ some p) × (has p 0o7000 ≡ true)))))

pub permissions-Refused :
    (m : FsMetadata) (r : ℕ)
    → RefusedAttributes m r
    → map_err failure (permissions m r) ≡ err NtStatus.not_supported
unfolding permissions validate_attributes change_permissions failure status_of_kind
permissions-Refused m r (ne, inl bad) = ground arith
permissions-Refused m r (ne, inr (inl (other, asked))) = ground arith
permissions-Refused m r (ne, inr (inr (file, differ, inl unknown))) = ground arith
permissions-Refused m r (ne, inr (inr (file, differ, inr (p, known, special)))) = ground arith
