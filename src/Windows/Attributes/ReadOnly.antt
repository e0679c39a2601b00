-- ===== src/Windows/Attributes/ReadOnly.antt =====
-- src/windows_attributes.rs: what a change of the read-only flag does to the permission bits.
use shell_canvas_drive_bridg.Base.{
  ℕ, ◌≤◌, ◌≡◌, ◌≢◌, ◌∙◌, refl, bit_and, bit_or, Bool, true, false, Option, none, some, ok, arith,
  if◌then◌else◌, Bool-cases, inl, inr, ◌⊎◌,
}
use shell_canvas_drive_bridg.Base.Bits.{and_assoc, and_or, and_zero, or_zero, le_or}
use shell_canvas_drive_bridg.Sdk.{FsKind, FsMetadata, is_file_kind}
use shell_canvas_drive_bridg.Windows.Attributes.{
  readonly, has, attributes, permissions, validate_attributes, change_permissions, not_write_bits,
}

file_kind : (k : FsKind) → is_file_kind k ≡ true → k ≡ FsKind.file
file_kind FsKind.file h = refl
file_kind FsKind.directory h = cc
file_kind FsKind.symlink h = cc
file_kind FsKind.other h = cc

cleared_write : (p : ℕ) → bit_and (bit_and p not_write_bits) 0o222 ≡ 0
cleared_write p = and_assoc p not_write_bits 0o222 ∙ and_zero p

granted_write : (p : ℕ) → 0o200 ≤ bit_and (bit_or p 0o200) 0o222
granted_write p = rw (and_or p 0o200 0o222) ((le_or (bit_and p 0o222) 0o200).1)

-- The write bits of group and others never come on, and no bit but the write bits changes.
abbrev pub Tightens : ℕ → ℕ → Type 0
Tightens p q =
    ((bit_and q 0o022 ≡ 0) ⊎ (bit_and q 0o022 ≡ bit_and p 0o022))
    × (bit_and q not_write_bits ≡ bit_and p not_write_bits)

change-Tightens : (b : Bool) (p q : ℕ) → change_permissions b p ≡ ok (some q) → Tightens p q
unfolding change_permissions
change-Tightens b p q h = elim (Bool-cases (has p 0o7000)) [
  | inl special ↦ absurd (ground arith)
  | inr plain ↦ go b (ground arith)
]
  where
    go : (b : Bool) → q ≡ (if b then bit_and p not_write_bits else bit_or p 0o200) → Tightens p q
    go true e = (
      inl (rw e (and_assoc p not_write_bits 0o022 ∙ and_zero p)),
      rw e (and_assoc p not_write_bits not_write_bits),
    )
    go false e = (
      inr (rw e (and_or p 0o200 0o022 ∙ or_zero (bit_and p 0o022))),
      rw e (and_or p 0o200 not_write_bits ∙ or_zero (bit_and p not_write_bits)),
    )

-- A request that changes the permissions is for a regular file whose mode is known, and asks for
-- the other state of the read-only flag.
changes :
    (m : FsMetadata) (r q : ℕ)
    → permissions m r ≡ ok (some q)
    → (p : ℕ) × (m.permissions ≡ some p)
      × (m.kind ≡ FsKind.file)
      × (change_permissions (has r readonly) p ≡ ok (some q))
unfolding permissions
changes m r q h = ground (arith, file_kind m.kind)

-- The permission bits that a request sends never turn on a write bit of group or others, and
-- differ from the old ones in write bits alone.
pub permissions-Tightens :
    (m : FsMetadata) (r p q : ℕ)
    → m.permissions ≡ some p
    → permissions m r ≡ ok (some q)
    → Tightens p q
permissions-Tightens m r p q known h =
    let (p', known', _, change) = changes m r q h in
    let same : p' ≡ p = ground arith in change-Tightens (has r readonly) p q (rw (← same) change)

-- The metadata once the provider has taken the request over.
abbrev pub applied : FsMetadata → Option ℕ → FsMetadata
applied m none = m
applied m (some q) = record m { permissions = some q }

change-flag :
    (b : Bool) (m : FsMetadata) (p q : ℕ)
    → m.kind ≡ FsKind.file
    → change_permissions b p ≡ ok (some q)
    → has (attributes (record m { permissions = some q })) readonly ≡ b
unfolding change_permissions attributes
change-flag true m p q file h = rw file (ground (arith, cleared_write p))
change-flag false m p q file h = rw file (ground (arith, granted_write p))

unchanged-flag :
    (m : FsMetadata) (r : ℕ)
    → m.kind ≡ FsKind.file
    → r ≢ 0xffff_ffff
    → permissions m r ≡ ok none
    → has (attributes m) readonly ≡ has r readonly
unfolding permissions validate_attributes change_permissions
unchanged-flag m r file ne h = ground arith

-- An accepted request on a regular file, other than the one for timestamps only, is what is read
-- back: once the provider has taken the new permissions over, the read-only attribute is the one
-- that was asked for.
pub permissions-attributes :
    (m : FsMetadata) (r : ℕ) (o : Option ℕ)
    → m.kind ≡ FsKind.file
    → r ≢ 0xffff_ffff
    → permissions m r ≡ ok o
    → has (attributes (applied m o)) readonly ≡ has r readonly
permissions-attributes m r none file ne h = unchanged-flag m r file ne h
permissions-attributes m r (some q) file ne h =
    let (p, _, _, change) = changes m r q h in change-flag (has r readonly) m p q file change
