-- ===== src/Storage/Claims/Valid.antt =====
-- `validate_resources` of storage.rs.
use mc_control_plane.Base.{
  ◌≤◌, leb, ◌==◌, ◌≡◌, arith, Bool-cases, inl, inr, ◌⊎◌, ok, err, ◌>>=◌, String,
}
use mc_control_plane.Protocol.{HostResources}
use mc_control_plane.AppErrors.{AppError}
use mc_control_plane.Storage.Rows.{to_i64}
use mc_control_plane.Storage.Claims.{validate_resources}

-- Every resource is there, and fits a column.
pub record IsValid (r : HostResources) : Type 0 where
  pub vcpus : 1 ≤ r.vcpus
  pub memory : (1 ≤ r.memory_bytes) × (r.memory_bytes ≤ 9223372036854775807)
  pub storage : (1 ≤ r.storage_bytes) × (r.storage_bytes ≤ 9223372036854775807)

-- Resources are accepted just if there is at least one of each and the bytes fit i64; all others are
-- an invalid argument.
pub validate_resources_lem :
    (r : HostResources)
    → (IsValid r × (validate_resources r ≡ ok tt))
      ⊎ ((IsValid r → ⊥)
          × ((m : String) × (validate_resources r ≡ err (AppError.invalid_argument m))))
unfolding validate_resources to_i64 ◌>>=◌
validate_resources_lem r = elim (Bool-cases (r.vcpus == 0)) [
  | inl no_cpu ↦
      inr (λ v. absurd (ground (arith, v.vcpus)), ("vcpus must be greater than zero", rw no_cpu))
  | inr cpu ↦ elim (Bool-cases (r.memory_bytes == 0)) [
    | inl no_memory ↦ inr (
      λ v. absurd (ground (arith, v.memory)),
      ("memory_bytes must be greater than zero", rw (cpu, no_memory)),
    )
    | inr memory ↦ elim (Bool-cases (r.storage_bytes == 0)) [
      | inl no_storage ↦ inr (
        λ v. absurd (ground (arith, v.storage)),
        ("storage_bytes must be greater than zero", rw (cpu, memory, no_storage)),
      )
      | inr storage ↦ elim (Bool-cases (leb r.memory_bytes 9223372036854775807)) [
        | inr big ↦ inr (
          λ v. absurd (ground (arith, v.memory)),
          ("memory_bytes must not exceed 9223372036854775807", rw (cpu, memory, storage, big)),
        )
        | inl fits ↦ elim (Bool-cases (leb r.storage_bytes 9223372036854775807)) [
          | inr big ↦ inr (
            λ v. absurd (ground (arith, v.storage)),
            (
              "storage_bytes must not exceed 9223372036854775807",
              rw (cpu, memory, storage, fits, big),
            ),
          )
          | inl fits_too ↦ inl (
            record { vcpus = ground arith; memory = ground arith; storage = ground arith },
            rw (cpu, memory, storage, fits, fits_too),
          )
        ]
      ]
    ]
  ]
]
